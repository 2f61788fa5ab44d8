-- ===== src/Load/Audit/Sound.antt =====
-- What an audit that passes says of the ledger that it has read.
use bookipi_technical_test.Prelude.{
  ℕ, suc, ◌+◌, ◌-◌, ◌≤◌, ◌≡◌, refl, ap, Bool, true, false, ◌&&◌, some, [], ◌∷◌, length, ◌==◌, ℤ,
  pos, negsuc, leb_ℤ, eqb_ℤ, ◌+ℤ◌, +ℤ_parts, arith,
}
use bookipi_technical_test.Text.{Text, text_eq_iff, text_eq_refl}
use bookipi_technical_test.Redis.Hash.{
  Hash, hget, hexists, hdel, hlen, IsDistinct, hexists-hdel, hdel-IsDistinct, hlen-hdel,
}
use bookipi_technical_test.Redis.Members.{Members, sismember}
use bookipi_technical_test.Redis.Db.{SaleDb, config_field}
use bookipi_technical_test.Redis.Ledger.Invariant.{IsSound}
use bookipi_technical_test.Load.Audit.{
  AuditInput, has_settled, compensated_absent, SaleConfig, same_config, all_of, keys_of, equal_set,
  invariant_1, invariant_2, evaluate_audit, orders_with, is_persisted, identities_match,
  invariant_4, config_equal,
}

-- No member is listed twice.
abbrev pub IsUnrepeated : Members → Type 0
IsUnrepeated [] = Unit
IsUnrepeated (x ∷ xs) = (sismember x xs ≡ false) × IsUnrepeated xs

module _ {V : Type 0} where
  keys_of_lem : (u : Text) (m : Hash V) → sismember u (keys_of m) ≡ hexists u m
  unfolding keys_of sismember hexists hget
  keys_of_lem u [] = refl
  keys_of_lem u (e ∷ m) = ground (arith, keys_of_lem u m)

  length-keys_of : (m : Hash V) → length (keys_of m) ≡ hlen m
  unfolding keys_of
  length-keys_of [] = refl
  length-keys_of (e ∷ m) = ap suc (length-keys_of m)

  abbrev all_held : Members → Hash V → Bool
  all_held xs m = all_of (λ x. sismember x (keys_of m)) xs

  all_held-hdel :
      (x : Text) (xs : Members) (m : Hash V)
      → sismember x xs ≡ false
      → all_held xs m ≡ true
      → all_held xs (hdel x m) ≡ true
  unfolding all_of sismember
  all_held-hdel x [] m new h = refl
  all_held-hdel x (y ∷ xs) m new h = ground (
    arith,
    all_held-hdel x xs m,
    keys_of_lem y m,
    keys_of_lem y (hdel x m),
    hexists-hdel x y m,
    text_eq_iff x y,
    text_eq_refl y,
  )

  held_some : (x : Text) (m : Hash V) → hexists x m ≡ true → (v : V) × (hget x m ≡ some v)
  unfolding hexists
  held_some x m h = ground (arith, h)

  no_fields : (u : Text) (m : Hash V) → 0 ≡ hlen m → hexists u m ≡ false
  unfolding hexists hget
  no_fields u [] h = refl
  no_fields u (e ∷ m) h = absurd (omega (arith, h))

  -- As many members as fields, none twice and each of them a field: each field is a member.
  all_fields :
      (xs : Members) (m : Hash V) (u : Text)
      → IsUnrepeated xs
      → IsDistinct m
      → all_held xs m ≡ true
      → length xs ≡ hlen m
      → hexists u m ≡ true
      → sismember u xs ≡ true
  unfolding sismember all_of
  all_fields [] m u once distinct all same held = absurd (ground (arith, no_fields u m same, held))
  all_fields (x ∷ xs) m u once distinct all same held =
      let here : hexists x m ≡ true = ground (arith, all, keys_of_lem x m) in
      let (v, at) = held_some x m here in
      let less = hlen-hdel x v m distinct at in
      let rest =
        all_fields xs (hdel x m) u once.1 (hdel-IsDistinct x m distinct)
          (all_held-hdel x xs m once.0 (ground (arith, all))) (omega (arith, same, less)) in
      ground (arith, rest, hexists-hdel x u m, held)

  some_member :
      (xs : Members) (m : Hash V) (u : Text)
      → all_held xs m ≡ true
      → sismember u xs ≡ true
      → hexists u m ≡ true
  unfolding sismember all_of
  some_member [] m u all h = absurd (ground (arith, h))
  some_member (x ∷ xs) m u all h =
      ground (arith, all, h, some_member xs m u, keys_of_lem x m, text_eq_iff x u)

  equal_set_lem :
      (xs : Members) (m : Hash V) (u : Text)
      → IsUnrepeated xs
      → IsDistinct m
      → equal_set xs (keys_of m) ≡ true
      → sismember u xs ≡ hexists u m
  unfolding equal_set
  equal_set_lem xs m u once distinct h =
      ground (arith, h, length-keys_of m, some_member xs m u, all_fields xs m u once distinct)

-- What the audit has read is what the keys of the sale hold. A Set of JavaScript holds a value once, and
-- a Map a key.
pub record IsTaken (db : SaleDb) (i : AuditInput) : Type 0 where
  pub on_file : config_field (λ c. c.total_stock) db.config ≡ some i.redis_sale.total_stock
  pub stock : db.stock ≡ some i.redis_stock
  pub counted : i.redis_reservations ≡ hlen i.reservations
  pub size : hlen i.reservations ≡ hlen db.reservations
  pub buyers : i.buyers ≡ db.buyers
  pub fields : (u : Text) → hexists u i.reservations ≡ hexists u db.reservations
  pub once : IsUnrepeated i.buyers
  pub map_distinct : IsDistinct i.reservations
  pub distinct : IsDistinct db.reservations

and_true : {a b : Bool} → (a && b) ≡ true → (a ≡ true) × (b ≡ true)
and_true {a = true} h = (refl, h)
and_true {a = false} h = absurd (ground (arith, h))

add_up :
    (s t : ℤ) (n total : ℕ)
    → t ≡ pos total
    → leb_ℤ (pos 0) s ≡ true
    → eqb_ℤ (s +ℤ pos n) t ≡ true
    → (s ≡ pos (total - n)) × (n ≤ total)
add_up (pos m) t n total e h k = ground (arith, e, h, k, +ℤ_parts (pos m) (pos n))
add_up (negsuc m) t n total e h k = absurd (ground (arith, h))

eqb_ℤ_pos : (a b : ℤ) (n : ℕ) → b ≡ pos n → eqb_ℤ a b ≡ true → a ≡ pos n
eqb_ℤ_pos (pos m) b n e h = ground (arith, e, h)
eqb_ℤ_pos (negsuc m) b n e h = absurd (ground (arith, e, h))

report_parts :
    (i : AuditInput)
    → evaluate_audit i ≡ true
    → (invariant_1 i ≡ true) × (invariant_2 i ≡ true) × (invariant_4 i ≡ true)
unfolding evaluate_audit
report_parts i h = ground (arith, h)

invariant_1_lem :
    (i : AuditInput) (total : ℕ)
    → i.initial_stock ≡ pos total
    → invariant_1 i ≡ true
    → (i.redis_stock ≡ pos (total - i.redis_reservations)) × (i.redis_reservations ≤ total)
unfolding invariant_1
invariant_1_lem i total began h =
    let (least, rest) = and_true h in
    let (sum, _) = and_true (and_true (and_true rest).1).1 in
    add_up i.redis_stock i.initial_stock i.redis_reservations total began least sum

invariant_2_lem :
    (i : AuditInput) → invariant_2 i ≡ true → equal_set i.buyers (keys_of i.reservations) ≡ true
unfolding invariant_2
invariant_2_lem i h = (and_true (and_true (and_true h).1).1).0

same_total :
    (i : AuditInput) (sale : SaleConfig) (total : ℕ)
    → i.initial_stock ≡ pos total
    → same_config i sale ≡ true
    → sale.total_stock ≡ pos total
same_total i sale total began h =
    eqb_ℤ_pos sale.total_stock i.initial_stock total began (and_true (and_true (and_true h).1).1).0

configured : (i : AuditInput) → config_equal i ≡ true → same_config i i.redis_sale ≡ true
unfolding config_equal
configured i h = (and_true (and_true h).1).1

of_eight :
    (a b c d e f g h : Bool)
    → (a && (b && (c && (d && (e && (f && (g && h))))))) ≡ true
    → (d ≡ true) × (e ≡ true) × (g ≡ true)
of_eight a b c d e f g h k = ground (arith, k)

invariant_4_lem :
    (i : AuditInput)
    → invariant_4 i ≡ true
    → (identities_match i ≡ true)
      × ((hlen i.reservations == length (orders_with is_persisted i.orders)) ≡ true)
      × (config_equal i ≡ true)
unfolding invariant_4
invariant_4_lem i h =
    of_eight (has_settled i.convergence) (i.postgres.reserved_count == 0)
      (i.expected_confirmed == i.postgres.persisted_count + i.postgres.compensated_count)
      (identities_match i) (hlen i.reservations == length (orders_with is_persisted i.orders))
      (compensated_absent i) (config_equal i) (i.ledger_errors == 0) h

-- A run that the audit passes has oversold nothing: the ledger that it has read is sound with the stock
-- that the run began with, and there are as many persisted orders as reservations, each with the identity and the time of its user's reservation.
pub evaluate_audit-IsSound :
    (i : AuditInput) (db : SaleDb) (total : ℕ)
    → IsTaken db i
    → i.initial_stock ≡ pos total
    → evaluate_audit i ≡ true
    → IsSound total db
      × (length (orders_with is_persisted i.orders) ≡ hlen db.reservations)
      × (identities_match i ≡ true)
evaluate_audit-IsSound i db total taken began pass =
    let (one, two, four) = report_parts i pass in
    let (stock, fits) = invariant_1_lem i total began one in
    let (same, as_many, config) = invariant_4_lem i four in
    let filed = same_total i i.redis_sale total began (configured i config) in
    (
      record {
        on_file = rw (taken.on_file, filed) refl;
        bounded = omega (arith, fits, taken.counted, taken.size);
        conserved = rw (taken.stock, stock, taken.counted, taken.size) refl;
        distinct = taken.distinct;
        aligned = λ u.
            rw (← taken.buyers, ← taken.fields u)
              (equal_set_lem i.buyers i.reservations u taken.once taken.map_distinct
                (invariant_2_lem i two));
      },
      ground (arith, as_many, taken.size),
      same,
    )
