-- ===== src/Shared/Uuid.antt =====
-- The pattern of a reservation's identity, `UUID_PATTERN` of packages/shared/src/queue.ts and of
-- packages/redis/src/sale-store.ts: a UUID of version 1 to 8, or the nil or the max UUID.
use bookipi_technical_test.Prelude.{
  ℕ, zero, suc, ◌≡◌, refl, Bool, true, false, ◌||◌, ◌&&◌, [], ◌∷◌, ◌++◌, arith, leb, ◌==◌,
}
use bookipi_technical_test.Text.{Text, contains_code}
use bookipi_technical_test.Shared.Pattern.{Pattern, matches, rejects, matches_rejected, is_hex}

abbrev replicate : ℕ → (ℕ → Bool) → Pattern
replicate zero p = []
replicate (suc n) p = p ∷ replicate n p

abbrev is_dash : ℕ → Bool
is_dash c = c == b'-'

-- `[1-8]`
abbrev is_version : ℕ → Bool
is_version c = leb b'1' c && leb c b'8'

-- `[89ab]` under the flag `i`
abbrev is_variant : ℕ → Bool
is_variant c = c == b'8' || (c == b'9' || (c == b'a' || (c == b'b' || (c == b'A' || c == b'B'))))

-- Eight, four, four, four and twelve characters, with dashes between them.
abbrev groups : Pattern → Pattern → Pattern → Pattern → Pattern → Pattern
groups a b c d e = a ++ (is_dash ∷ (b ++ (is_dash ∷ (c ++ (is_dash ∷ (d ++ (is_dash ∷ e)))))))

unfoldable pub versioned : Pattern
versioned =
    groups (replicate 8 is_hex) (replicate 4 is_hex) (is_version ∷ replicate 3 is_hex)
      (is_variant ∷ replicate 3 is_hex) (replicate 12 is_hex)

-- The same character in every place: `0` for the nil UUID, `f` or `F` for the max UUID.
abbrev constant : (ℕ → Bool) → Pattern
constant p = groups (replicate 8 p) (replicate 4 p) (replicate 4 p) (replicate 4 p) (replicate 12 p)

unfoldable pub nil_uuid : Pattern
nil_uuid = constant (λ c. c == b'0')

unfoldable pub max_uuid : Pattern
max_uuid = constant (λ c. c == b'f' || c == b'F')

-- `UUID_PATTERN.test(s)`
unfoldable pub is_uuid : Text → Bool
is_uuid s = matches versioned s || (matches nil_uuid s || matches max_uuid s)

-- No class of the three patterns has a colon.
colon_rejected :
    (rejects b':' versioned ≡ true)
    × (rejects b':' nil_uuid ≡ true)
    × (rejects b':' max_uuid ≡ true)
unfolding rejects versioned nil_uuid max_uuid
colon_rejected = (refl, refl, refl)

-- An identity has no colon, so it is read back whole from in front of one.
pub is_uuid_no_colon : (s : Text) → is_uuid s ≡ true → contains_code b':' s ≡ false
unfolding is_uuid
is_uuid_no_colon s h = ground (
  arith,
  matches_rejected b':' versioned s colon_rejected.0,
  matches_rejected b':' nil_uuid s colon_rejected.1,
  matches_rejected b':' max_uuid s colon_rejected.2,
)
