-- ===== src/Redis/Hash.antt =====
-- A Redis hash, as the fields and values that it holds (HGET, HSET, HDEL, HEXISTS, HLEN).
use bookipi_technical_test.Prelude.{
  ℕ, suc, ◌≡◌, refl, Bool, true, false, not, ◌&&◌, ◌||◌, Option, none, some, List, [], ◌∷◌, arith,
  length, if◌then◌else◌,
}
use bookipi_technical_test.Text.{Text, text_eq, text_eq_iff, text_eq_refl}

abbrev pub Hash {ℓ} : Type ℓ → Type ℓ
Hash V = List (Text × V)

module _ {ℓ} {V : Type ℓ} where
  unfoldable pub hget : Text → Hash V → Option V
  hget k [] = none
  hget k ((j, v) ∷ m) = if text_eq j k then some v else hget k m

  unfoldable pub hexists : Text → Hash V → Bool
  hexists k m = elim (hget k m) [ none ↦ false | some _ ↦ true ]

  unfoldable pub hset : Text → V → Hash V → Hash V
  hset k v [] = (k, v) ∷ []
  hset k v (e ∷ m) = if text_eq e.0 k then (k, v) ∷ m else e ∷ hset k v m

  unfoldable pub hdel : Text → Hash V → Hash V
  hdel k [] = []
  hdel k (e ∷ m) = let rest = hdel k m in if text_eq e.0 k then rest else e ∷ rest

  abbrev pub hlen : Hash V → ℕ
  hlen m = length m

  -- No field is held twice.
  abbrev pub IsDistinct : Hash V → Type ℓ
  IsDistinct [] = Unit
  IsDistinct (e ∷ m) = (hget e.0 m ≡ none) × IsDistinct m

  pub hget-hset :
      (k j : Text) (v : V) (m : Hash V)
      → hget j (hset k v m) ≡ (if text_eq k j then some v else hget j m)
  unfolding hget hset
  hget-hset k j v [] = refl
  hget-hset k j v ((i, w) ∷ m) =
      ground (arith, text_eq_iff k j, text_eq_iff i k, text_eq_iff i j, hget-hset k j v m)

  pub hget-hdel :
      (k j : Text) (m : Hash V) → hget j (hdel k m) ≡ (if text_eq k j then none else hget j m)
  unfolding hget hdel
  hget-hdel k j [] = ground arith
  hget-hdel k j ((i, w) ∷ m) =
      ground (arith, text_eq_iff k j, text_eq_iff i k, text_eq_iff i j, hget-hdel k j m)

  pub hlen-hset_new :
      (k : Text) (v : V) (m : Hash V) → hget k m ≡ none → hlen (hset k v m) ≡ suc (hlen m)
  unfolding hget hset
  hlen-hset_new k v [] h = refl
  hlen-hset_new k v ((i, w) ∷ m) h = ground (arith, hlen-hset_new k v m)

  pub hdel_absent : (k : Text) (m : Hash V) → hget k m ≡ none → hdel k m ≡ m
  unfolding hget hdel
  hdel_absent k [] h = refl
  hdel_absent k ((i, w) ∷ m) h = ground (arith, hdel_absent k m)

  pub hdel-hset_new : (k : Text) (v : V) (m : Hash V) → hget k m ≡ none → hdel k (hset k v m) ≡ m
  unfolding hget hset hdel
  hdel-hset_new k v [] h = ground (arith, text_eq_refl k)
  hdel-hset_new k v ((i, w) ∷ m) h = ground (arith, hdel-hset_new k v m)

  pub hset-IsDistinct : (k : Text) (v : V) (m : Hash V) → IsDistinct m → IsDistinct (hset k v m)
  unfolding hget hset
  hset-IsDistinct k v [] h = (refl, tt)
  hset-IsDistinct k v ((i, w) ∷ m) h =
      ground (arith, hset-IsDistinct k v m h.1, hget-hset k i v m, text_eq_iff i k, text_eq_iff k i)

  pub hdel-IsDistinct : (k : Text) (m : Hash V) → IsDistinct m → IsDistinct (hdel k m)
  unfolding hget hdel
  hdel-IsDistinct k [] h = tt
  hdel-IsDistinct k ((i, w) ∷ m) h = ground (arith, hdel-IsDistinct k m h.1, hget-hdel k i m)

  pub hlen-hdel :
      (k : Text) (v : V) (m : Hash V)
      → IsDistinct m
      → hget k m ≡ some v
      → suc (hlen (hdel k m)) ≡ hlen m
  unfolding hget hdel
  hlen-hdel k v [] d h = cc
  hlen-hdel k v ((i, w) ∷ m) d h =
      ground (arith, hlen-hdel k v m d.1, hdel_absent k m, text_eq_iff i k)

  pub hexists-hset :
      (k j : Text) (v : V) (m : Hash V) → hexists j (hset k v m) ≡ (text_eq k j || hexists j m)
  unfolding hexists
  hexists-hset k j v m = ground (arith, hget-hset k j v m)

  pub hexists-hdel :
      (k j : Text) (m : Hash V) → hexists j (hdel k m) ≡ (not (text_eq k j) && hexists j m)
  unfolding hexists
  hexists-hdel k j m = ground (arith, hget-hdel k j m)

  pub hget_of_absent : (k : Text) (m : Hash V) → hexists k m ≡ false → hget k m ≡ none
  unfolding hexists
  hget_of_absent k m h = ground arith

  pub hexists_of_none : (k : Text) (m : Hash V) → hget k m ≡ none → hexists k m ≡ false
  unfolding hexists
  hexists_of_none k m h = ground arith

  pub hexists_of_some : (k : Text) (m : Hash V) {v : V} → hget k m ≡ some v → hexists k m ≡ true
  unfolding hexists
  hexists_of_some k m h = ground arith

  pub hget-hset_self : (k : Text) (v : V) (m : Hash V) → hget k (hset k v m) ≡ some v
  hget-hset_self k v m = rw (hget-hset k k v m, text_eq_refl k)
