-- ===== src/Platform/Checks.antt =====
-- The field checks of every domain.py: `required_text`, `optional_text`, `sha256_hex`, `utc_time`.
-- Each package raises its own error, the argument `invalid`.
use edgeiq.Base.{
  ℕ, String, Bool, true, false, ◌&&◌, ◌||◌, Option, List, [], ◌∷◌, Result, ok, err, ◌>>=◌, ◌>>◌,
  guard, optionally, leb, length, all, any, ◌==◌, ◌/=◌, text_eq, nat_eq, if◌then◌else◌, ◌+◌, ◌*◌,
}
use edgeiq.Platform.Values.{DateTime, naive, aware, max_instant, Interpreter}
use edgeiq.Platform.Canonical.{codes, text_le}

unfoldable pub is_hex : ℕ → Bool
is_hex c = (leb b'0' c && leb c b'9') || (leb b'a' c && leb c b'f')

module _ ⦃p : Interpreter⦄ {E : Type 0} where
  unfoldable pub required_text : E → String → Result E String
  required_text invalid value = do guard (value /= "") invalid; ok (p.nfc value)

  unfoldable pub optional_text : E → Option String → Result E (Option String)
  unfolding required_text
  optional_text invalid value = optionally (required_text invalid) value

  unfoldable pub sha256_hex : E → String → Result E String
  unfolding required_text is_hex
  sha256_hex invalid value = do
    v ← required_text invalid value
    guard (length (codes v) == 64 && all is_hex (codes v)) invalid
    ok v

module _ {E : Type 0} where
  -- `astimezone(timezone.utc)` keeps the instant.
  unfoldable pub utc_time : E → DateTime → Result E DateTime
  utc_time invalid (naive t) = err invalid
  utc_time invalid (aware t) = ok (aware t)

  unfoldable pub optional_utc_time : E → Option DateTime → Result E (Option DateTime)
  unfolding utc_time
  optional_utc_time invalid value = optionally (utc_time invalid) value

  -- `value + timedelta(seconds=seconds)`, with `OverflowError` past the year 9999.
  unfoldable pub add_seconds : E → DateTime → ℕ → Result E DateTime
  add_seconds overflow (naive t) seconds =
      if leb (t + seconds * 1000000) max_instant
      then ok (naive (t + seconds * 1000000))
      else err overflow
  add_seconds overflow (aware t) seconds =
      if leb (t + seconds * 1000000) max_instant
      then ok (aware (t + seconds * 1000000))
      else err overflow

-- `sorted` on strings, and the test of `len(reasons) != len(set(reasons))`.
unfoldable pub insert_text : String → List String → List String
insert_text k [] = k ∷ []
insert_text k (j ∷ ks) = let rest = insert_text k ks in if text_le k j then k ∷ j ∷ ks else j ∷ rest

unfoldable pub sorted_texts : List String → List String
unfolding insert_text text_le
sorted_texts [] = []
sorted_texts (k ∷ ks) = insert_text k (sorted_texts ks)

unfoldable pub unique_texts : List String → Bool
unique_texts [] = true
unique_texts (k ∷ ks) = let rest = unique_texts ks in if any (λ j. k == j) ks then false else rest
