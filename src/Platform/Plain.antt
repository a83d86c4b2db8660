-- ===== src/Platform/Plain.antt =====
-- An interpreter that meets the laws, for runs of the model: texts are their own normal form, bytes are
-- code points, and the digest is a polynomial in them.
use Prim.Native.Nat.{◌%◌, ◌/◌, ◌^◌}
use Prim.Native.Char.{Char, code}
use Prim.Native.String.{◌++◌}
use edgeiq.Base.{
  ℕ, zero, suc, ◌+◌, ◌*◌, String, ◌≡◌, refl, true, false, List, [], ◌∷◌, all, All, arith,
}
use edgeiq.Platform.Values.{
  Bytes, Interpreter, Value, Items, Fields, null, bool, int, text, enum, time, array, object, nil,
  cons, end, field,
}
use edgeiq.Platform.Canonical.{codes}
use edgeiq.Platform.Checks.{is_hex}
use edgeiq.Platform.Laws.{InterpreterLaws}

abbrev digit_chars : List Char
digit_chars =
    "0" ∷ "1" ∷ "2" ∷ "3" ∷ "4" ∷ "5" ∷ "6" ∷ "7" ∷ "8" ∷ "9" ∷ "a" ∷ "b" ∷ "c" ∷ "d" ∷ "e" ∷ "f"
    ∷ []

char_at : List Char → ℕ → Char
char_at [] n = "0"
char_at (c ∷ cs) zero = c
char_at (c ∷ cs) (suc n) = char_at cs n

unfoldable pub hex : ℕ → ℕ → String
unfolding char_at
hex zero n = String.[]
hex (suc w) n = String.◌∷◌ (char_at digit_chars (n % 16)) (hex w (n / 16))

unfoldable pub fold_bytes : ℕ → Bytes → ℕ
fold_bytes acc [] = acc
fold_bytes acc (b ∷ bs) = fold_bytes ((acc * 257 + b + 1) % 16 ^ 64) bs

unfoldable mutual
  unfolding hex

  pub dump : Value → String
  dump null = "null"
  dump (bool true) = "true"
  dump (bool false) = "false"
  dump (int n) = hex 16 n
  dump (text s) = "\"" ++ s ++ "\""
  dump (enum s) = "\"" ++ s ++ "\""
  dump (time t) = "time"
  dump (array vs) = "[" ++ dump_items vs ++ "]"
  dump (object fs) = "{" ++ dump_fields fs ++ "}"

  pub dump_items : Items → String
  dump_items nil = ""
  dump_items (cons v vs) = dump v ++ "," ++ dump_items vs

  pub dump_fields : Fields → String
  dump_fields end = ""
  dump_fields (field k v fs) = "\"" ++ k ++ "\":" ++ dump v ++ "," ++ dump_fields fs

instance abbrev pub plain : Interpreter
plain = record {
  nfc = λ s. s;
  isoformat_z = λ t. hex 16 t;
  dumps = dump;
  encode = codes;
  sha256 = λ b. hex 64 (fold_bytes 7 b);
}

char_at-hex :
    (cs : List Char) (n : ℕ)
    → All (λ c. is_hex (code c) ≡ true) cs
    → is_hex (code (char_at cs n)) ≡ true
unfolding char_at is_hex
char_at-hex [] n h = refl
char_at-hex (c ∷ cs) zero h = h.0
char_at-hex (c ∷ cs) (suc n) h = char_at-hex cs n h.1

digit_chars-hex : All (λ c. is_hex (code c) ≡ true) digit_chars
unfolding is_hex
digit_chars-hex = ground arith

hex-hex : (w n : ℕ) → all is_hex (codes (hex w n)) ≡ true
unfolding hex
hex-hex zero n = refl
hex-hex (suc w) n = rw (char_at-hex digit_chars (n % 16) digit_chars-hex, hex-hex w (n / 16))

pub plain-InterpreterLaws : InterpreterLaws plain
plain-InterpreterLaws = record {
  hexdigest = λ b. hex-hex 64 (fold_bytes 7 b);
  nfc_ascii = λ s h. refl;
}
