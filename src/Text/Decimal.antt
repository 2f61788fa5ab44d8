-- ===== src/Text/Decimal.antt =====
-- Decimal numbers in text: `String(n)` of a natural number, and the reading of a run of digits.
use bookipi_technical_test.Prelude.{
  ℕ, zero, suc, ◌+◌, ◌-◌, ◌*◌, ◌/◌, ◌%◌, ◌<◌, ◌≡◌, refl, Bool, false, ◌&&◌, Option, none, some,
  List, [], ◌∷◌, arith, leb, ltb, if◌then◌else◌, Bool-cases, ==_iff, inl, inr, ◌∙◌,
}
use bookipi_technical_test.Text.Search.{contains_code}

abbrev pub is_digit : ℕ → Bool
is_digit c = leb b'0' c && leb c b'9'

-- The digits in front of those already written; `n + 1` rounds are enough, since each divides by 10.
digits_onto : ℕ → ℕ → List ℕ → List ℕ
digits_onto zero n acc = acc
digits_onto (suc f) n acc =
    let rest = digits_onto f (n / 10) ((b'0' + n % 10) ∷ acc) in
    if ltb n 10 then (b'0' + n) ∷ acc else rest

-- `String(n)`
unfoldable pub decimal : ℕ → List ℕ
unfolding digits_onto
decimal n = digits_onto (suc n) n []

-- The number that a run of digits stands for, after the part already read.
unfoldable pub read_digits : ℕ → List ℕ → Option ℕ
read_digits acc [] = some acc
read_digits acc (c ∷ s) =
    let rest = read_digits (acc * 10 + (c - b'0')) s in if is_digit c then rest else none

-- `/^\d+$/` and `Number`
unfoldable pub parse_decimal : List ℕ → Option ℕ
unfolding read_digits
parse_decimal [] = none
parse_decimal (c ∷ s) = read_digits 0 (c ∷ s)

read_digits-digits_onto :
    (f n : ℕ) (acc : List ℕ) → n < f → read_digits 0 (digits_onto f n acc) ≡ read_digits n acc
unfolding read_digits digits_onto
read_digits-digits_onto zero n acc h = elim h [ ]
read_digits-digits_onto (suc f) n acc h =
    ground (arith, read_digits-digits_onto f (n / 10) ((b'0' + n % 10) ∷ acc))

digits_onto_cons :
    (f n : ℕ) (acc : List ℕ) → n < f → (c : ℕ) × (s : List ℕ) × (digits_onto f n acc ≡ c ∷ s)
unfolding digits_onto
digits_onto_cons zero n acc h = elim h [ ]
digits_onto_cons (suc f) n acc h = elim (Bool-cases (ltb n 10)) [
  | inl e ↦ (b'0' + n, acc, rw e)
  | inr e ↦ rw e (digits_onto_cons f (n / 10) ((b'0' + n % 10) ∷ acc) (ground arith))
]

parse_decimal_cons :
    (s : List ℕ) {c : ℕ} {t : List ℕ} → s ≡ c ∷ t → parse_decimal s ≡ read_digits 0 s
unfolding parse_decimal
parse_decimal_cons [] e = cc
parse_decimal_cons (x ∷ s) e = refl

-- What is printed is read back.
pub parse_decimal-decimal : (n : ℕ) → parse_decimal (decimal n) ≡ some n
unfolding decimal read_digits
parse_decimal-decimal n =
    let (c, s, e) = digits_onto_cons (suc n) n [] (omega arith) in
    parse_decimal_cons (digits_onto (suc n) n []) e ∙ read_back
  where
    read_back : read_digits 0 (digits_onto (suc n) n []) ≡ some n
    read_back = read_digits-digits_onto (suc n) n [] (omega arith)

-- A text that is read as a number holds no code but digits.
read_digits_code :
    (c acc : ℕ) (s : List ℕ) (n : ℕ)
    → is_digit c ≡ false
    → read_digits acc s ≡ some n
    → contains_code c s ≡ false
unfolding read_digits contains_code
read_digits_code c acc [] n f h = refl
read_digits_code c acc (x ∷ s) n f h =
    ground (arith, ==_iff x c, read_digits_code c (acc * 10 + (x - b'0')) s n f)

pub parse_decimal_code :
    (c : ℕ) (s : List ℕ) (n : ℕ)
    → is_digit c ≡ false
    → parse_decimal s ≡ some n
    → contains_code c s ≡ false
unfolding parse_decimal
parse_decimal_code c [] n f h = cc
parse_decimal_code c (x ∷ s) n f h = read_digits_code c 0 (x ∷ s) n f h
