-- ===== src/Platform/Laws.antt =====
-- What the runtime relies on in Python's standard library.
use edgeiq.Base.{ℕ, String, ◌≡◌, Bool, true, List, [], ◌∷◌, all, ltb, arith}
use edgeiq.Platform.Values.{Interpreter}
use edgeiq.Platform.Canonical.{codes, namespaced_digest}
use edgeiq.Platform.Values.{Bytes}
use edgeiq.Platform.Checks.{is_hex}

abbrev pub is_ascii : ℕ → Bool
is_ascii c = ltb c 128

-- `hexdigest()` is made of hexadecimal digits; NFC leaves ASCII text unchanged.
pub record InterpreterLaws (p : Interpreter) : Type 0 where
  pub hexdigest : (b : Bytes) → all is_hex (codes (p.sha256 b)) ≡ true
  pub nfc_ascii : (s : String) → all is_ascii (codes s) ≡ true → p.nfc s ≡ s

pub all-hex-ascii : (cs : List ℕ) → all is_hex cs ≡ true → all is_ascii cs ≡ true
unfolding is_hex
all-hex-ascii [] h = h
all-hex-ascii (c ∷ cs) h = ground (arith, all-hex-ascii cs)

pub nfc-sha256 :
    (p : Interpreter) → InterpreterLaws p → (b : Bytes) → p.nfc (p.sha256 b) ≡ p.sha256 b
nfc-sha256 p laws b =
    laws.nfc_ascii (p.sha256 b) (all-hex-ascii (codes (p.sha256 b)) (laws.hexdigest b))

pub nfc-namespaced_digest :
    ⦃p : Interpreter⦄
    → InterpreterLaws p
    → (namespace : String) (content : Bytes)
    → p.nfc (namespaced_digest namespace content) ≡ namespaced_digest namespace content
unfolding namespaced_digest
nfc-namespaced_digest ⦃p⦄ laws namespace content = nfc-sha256 p laws _
