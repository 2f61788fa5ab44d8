-- ===== src/Shared/Pattern.antt =====
-- The character classes and fixed-length patterns of the regular expressions in the code.
use bookipi_technical_test.Prelude.{
  ℕ, ◌≡◌, refl, Bool, true, false, not, ◌&&◌, ◌||◌, List, [], ◌∷◌, arith, leb, ==_iff, ap,
}
use bookipi_technical_test.Text.{Text, contains_code}

abbrev pub is_lower : ℕ → Bool
is_lower c = leb b'a' c && leb c b'z'

abbrev pub is_upper : ℕ → Bool
is_upper c = leb b'A' c && leb c b'Z'

abbrev pub is_decimal : ℕ → Bool
is_decimal c = leb b'0' c && leb c b'9'

-- `[0-9a-f]` under the flag `i`
abbrev pub is_hex : ℕ → Bool
is_hex c = is_decimal c || (leb b'a' c && leb c b'f') || (leb b'A' c && leb c b'F')

-- A pattern of one class for each character.
abbrev pub Pattern : Type 0
Pattern = List (ℕ → Bool)

unfoldable pub matches : Pattern → Text → Bool
matches [] [] = true
matches (p ∷ ps) (c ∷ s) = p c && matches ps s
matches _ _ = false

-- No class of the pattern has the code.
unfoldable pub rejects : ℕ → Pattern → Bool
rejects c [] = true
rejects c (p ∷ ps) = not (p c) && rejects c ps

-- A text that matches has no code that every class of the pattern rejects.
pub matches_rejected :
    (c : ℕ) (ps : Pattern) (s : Text)
    → rejects c ps ≡ true
    → matches ps s ≡ true
    → contains_code c s ≡ false
unfolding matches rejects contains_code
matches_rejected c [] [] r h = refl
matches_rejected c [] (x ∷ s) r h = cc
matches_rejected c (p ∷ ps) [] r h = cc
matches_rejected c (p ∷ ps) (x ∷ s) r h =
    ground (arith, ==_iff x c, matches_rejected c ps s, λ (e : x ≡ c). ap p e)
