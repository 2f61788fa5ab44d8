-- ===== src/Redis/Members.antt =====
-- A Redis set, as the members that it holds (SISMEMBER, SADD, SREM).
use bookipi_technical_test.Prelude.{
  ◌≡◌, refl, Bool, true, false, not, ◌&&◌, ◌||◌, List, [], ◌∷◌, arith, if◌then◌else◌,
}
use bookipi_technical_test.Text.{Text, text_eq, text_eq_iff, text_eq_refl}

abbrev pub Members : Type 0
Members = List Text

-- Whether a text is on a list.
abbrev pub is_listed : Text → List Text → Bool
is_listed u [] = false
is_listed u (x ∷ xs) = text_eq x u || is_listed u xs

unfoldable pub sismember : Text → Members → Bool
sismember k [] = false
sismember k (j ∷ s) = text_eq j k || sismember k s

unfoldable pub sadd : Text → Members → Members
unfolding sismember
sadd k s = if sismember k s then s else k ∷ s

unfoldable pub srem : Text → Members → Members
srem k [] = []
srem k (j ∷ s) = let rest = srem k s in if text_eq j k then rest else j ∷ rest

pub sismember-sadd :
    (k j : Text) (s : Members) → sismember j (sadd k s) ≡ (text_eq k j || sismember j s)
unfolding sadd
sismember-sadd k j s = ground (arith, text_eq_iff k j)

pub sismember-srem :
    (k j : Text) (s : Members) → sismember j (srem k s) ≡ (not (text_eq k j) && sismember j s)
unfolding sismember srem
sismember-srem k j [] = ground arith
sismember-srem k j (i ∷ s) =
    ground (arith, text_eq_iff k j, text_eq_iff i k, text_eq_iff i j, sismember-srem k j s)

pub srem_absent : (k : Text) (s : Members) → sismember k s ≡ false → srem k s ≡ s
unfolding sismember srem
srem_absent k [] h = refl
srem_absent k (j ∷ s) h = ground (arith, srem_absent k s)

pub srem-sadd_new : (k : Text) (s : Members) → sismember k s ≡ false → srem k (sadd k s) ≡ s
unfolding sadd srem
srem-sadd_new k s h = ground (arith, text_eq_refl k, srem_absent k s h)

pub sadd_present : (k : Text) (s : Members) → sismember k s ≡ true → sadd k s ≡ s
unfolding sadd
sadd_present k s h = rw h
