-- ===== src/Shared/UserId.antt =====
-- The identifier of a buyer: its constants (packages/shared/src/constants.ts), the schema that the
-- API parses with (dto/user-id.ts), and the checks that later layers repeat.
use bookipi_technical_test.Prelude.{
  ℕ, ◌≡◌, refl, Bool, true, false, not, ◌&&◌, ◌||◌, Option, none, some, [], ◌∷◌, arith, leb, ltb,
  ◌==◌, length, if◌then◌else◌, Outcome, ok, throw, type_error, ◌≤◌, ◌⊎◌, inl, inr, ◌↔◌, Bool-cases,
}
use mathlib.Core.List.{reverse, reverse-reverse, reverse-cons}
use bookipi_technical_test.Text.{Text, all_codes, all_codes-append, text_eq, text_eq_refl}
use bookipi_technical_test.Shared.Pattern.{is_lower, is_upper, is_decimal}

abbrev pub user_id_min_length : ℕ
user_id_min_length = 3

abbrev pub user_id_max_length : ℕ
user_id_max_length = 64

-- `[a-zA-Z0-9._@-]`
abbrev pub is_user_id_code : ℕ → Bool
is_user_id_code c =
    is_lower c
    || (is_upper c || (is_decimal c || (c == b'.' || (c == b'_' || (c == b'@' || c == b'-')))))

-- `USER_ID_PATTERN.test(s)`
unfoldable pub user_id_pattern : Text → Bool
user_id_pattern [] = false
user_id_pattern (c ∷ s) = is_user_id_code c && all_codes is_user_id_code s

-- The white space and line ends that `trim` removes.
abbrev pub is_space : ℕ → Bool
is_space c =
    (leb 9 c && leb c 13)
    || (c == 32
        || (c == 160
            || (c == 0x1680
                || ((leb 0x2000 c && leb c 0x200a)
                    || (c == 0x2028
                        || (c == 0x2029
                            || (c == 0x202f || (c == 0x205f || (c == 0x3000 || c == 0xfeff)))))))))

unfoldable pub drop_space : Text → Text
drop_space [] = []
drop_space (c ∷ s) = let rest = drop_space s in if is_space c then rest else c ∷ s

-- `s.trim()`
unfoldable pub trim : Text → Text
trim s = reverse (drop_space (reverse (drop_space s)))

-- The length bounds and the pattern, on a text that is already trimmed.
unfoldable pub is_user_id : Text → Bool
is_user_id s =
    leb user_id_min_length (length s) && (leb (length s) user_id_max_length && user_id_pattern s)

-- `userIdSchema`: trim, then the bounds and the pattern; the output is the trimmed text.
unfoldable pub parse_user_id : Text → Outcome Text
unfolding is_user_id
parse_user_id s = if is_user_id (trim s) then ok (trim s) else throw type_error

-- `assertUserId` of the queue and `assertReservationMembershipUserId` of the store, where the value
-- is a string.
unfoldable pub assert_user_id : Text → Outcome (Unit {0})
assert_user_id s =
    if not (text_eq s (trim s))
      || (ltb (length s) user_id_min_length
          || (ltb user_id_max_length (length s) || not (user_id_pattern s)))
    then throw type_error
    else ok tt

-- `extractRateLimitCandidateUserId` of the rate limiter, where the body holds a string.
unfoldable pub rate_limit_candidate : Text → Option Text
rate_limit_candidate raw =
    let candidate = trim raw in
    if ltb (length candidate) user_id_min_length || ltb user_id_max_length (length candidate)
    then none
    else if not (user_id_pattern candidate)
    then none
    else some candidate

word_bounds : (c : ℕ) → is_user_id_code c ≡ true → (45 ≤ c) × (c ≤ 122)
word_bounds c h = ground arith

space_bounds : (c : ℕ) → is_space c ≡ true → (c ≤ 32) ⊎ (160 ≤ c)
space_bounds c h = ground arith

word-not_space : (c : ℕ) → is_user_id_code c ≡ true → is_space c ≡ false
word-not_space c h = elim (Bool-cases (is_space c)) [
  | inl e ↦ absurd (omega (arith, word_bounds c h, space_bounds c e))
  | inr e ↦ e
]

drop_space_word : (s : Text) → all_codes is_user_id_code s ≡ true → drop_space s ≡ s
unfolding drop_space all_codes
drop_space_word [] h = refl
drop_space_word (c ∷ s) h = elim (Bool-cases (is_user_id_code c)) [
  | inl e ↦ rw (word-not_space c e)
  | inr e ↦ absurd (let q : false ≡ true = rw e at h in cc)
]

all_codes-reverse :
    (p : ℕ → Bool) (s : Text) → all_codes p s ≡ true → all_codes p (reverse s) ≡ true
unfolding all_codes
all_codes-reverse p [] h = refl
all_codes-reverse p (c ∷ s) h =
    rw (reverse-cons c s, all_codes-append p (reverse s) (c ∷ []))
      (ground (arith, all_codes-reverse p s))

-- A word is its own trimmed text.
pub trim_word : (s : Text) → all_codes is_user_id_code s ≡ true → trim s ≡ s
unfolding trim
trim_word s h =
    rw (drop_space_word s h, drop_space_word (reverse s) (all_codes-reverse is_user_id_code s h))
      (reverse-reverse s)

trim_user_id : (s : Text) → is_user_id s ≡ true → trim s ≡ s
unfolding is_user_id user_id_pattern all_codes
trim_user_id [] h = cc
trim_user_id (c ∷ s) h = trim_word (c ∷ s) (ground arith)

-- An identifier that the API's schema lets through is the one that the rate limiter counts by; the
-- schema gives it back unchanged, and the checks of the queue and of the store accept it.
pub user_id_layers_agree :
    (s u : Text)
    → parse_user_id s ≡ ok u
    → (rate_limit_candidate s ≡ some u) × (parse_user_id u ≡ ok u) × (assert_user_id u ≡ ok tt)
unfolding parse_user_id rate_limit_candidate assert_user_id
user_id_layers_agree s u h = ground (arith, trim_user_id u, trim_user_id (trim s), text_eq_refl u)

-- The rate limiter counts no text that the schema refuses: what it does not count is what the schema
-- rejects, and no other text.
pub uncounted_iff_rejected :
    (s : Text) → (rate_limit_candidate s ≡ none) ↔ (parse_user_id s ≡ throw type_error)
unfolding parse_user_id rate_limit_candidate
uncounted_iff_rejected s = ground arith
