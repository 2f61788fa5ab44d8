-- ===== src/Text/Search.antt =====
-- Searches in a text: the codes that occur in it, and the split at the first of them.
use bookipi_technical_test.Prelude.{
  ℕ, ◌≡◌, refl, Bool, true, false, ◌&&◌, ◌||◌, Option, none, some, List, [], ◌∷◌, ◌++◌, arith, ◌==◌,
  if◌then◌else◌, ==_iff, ap,
}

abbrev Text : Type 0
Text = List ℕ

-- Every code of the text passes the test.
unfoldable pub all_codes : (ℕ → Bool) → Text → Bool
all_codes p [] = true
all_codes p (c ∷ s) = p c && all_codes p s

-- The text before the first occurrence of a code, and the text after it.
unfoldable pub split_at : ℕ → Text → Option (Text × Text)
split_at c [] = none
split_at c (x ∷ s) =
    if x == c
    then some ([], s)
    else elim (split_at c s) [ none ↦ none | some (a, b) ↦ some (x ∷ a, b) ]

unfoldable pub contains_code : ℕ → Text → Bool
contains_code c [] = false
contains_code c (x ∷ s) = (x == c) || contains_code c s

-- A text without the code is read back whole from in front of it.
pub split_at-append :
    (c : ℕ) (s t : Text) → contains_code c s ≡ false → split_at c (s ++ c ∷ t) ≡ some (s, t)
unfolding split_at contains_code
split_at-append c [] t h = ground arith
split_at-append c (x ∷ s) t h = ground (arith, split_at-append c s t)

-- A text without the code does not split.
pub split_at-none : (c : ℕ) (s : Text) → contains_code c s ≡ false → split_at c s ≡ none
unfolding split_at contains_code
split_at-none c [] h = refl
split_at-none c (x ∷ s) h = ground (arith, split_at-none c s)

-- No code that passes the test is one that fails it.
pub contains_code_of_all :
    (c : ℕ) (p : ℕ → Bool) (s : Text)
    → p c ≡ false
    → all_codes p s ≡ true
    → contains_code c s ≡ false
unfolding contains_code all_codes
contains_code_of_all c p [] f h = refl
contains_code_of_all c p (x ∷ s) f h =
    ground (arith, ==_iff x c, contains_code_of_all c p s f, λ (e : x ≡ c). ap p e)

pub all_codes-append :
    (p : ℕ → Bool) (s t : Text) → all_codes p (s ++ t) ≡ (all_codes p s && all_codes p t)
unfolding all_codes
all_codes-append p [] t = refl
all_codes-append p (x ∷ s) t = ground (arith, all_codes-append p s t)
