-- ===== src/Redis/Ledger/Invariant.antt =====
-- The ledger of a sale is sound: the stock and the reservations make up the total, nobody holds
-- two reservations, and the buyers are exactly those who hold one. Every script of live traffic
-- keeps this.
use bookipi_technical_test.Prelude.{
  ℕ, suc, ap, ◌-◌, ◌≤◌, ◌≡◌, true, false, some, pos, arith, inl, inr, Bool-cases, Option-cases, ◌⊎◌,
  ◌∙◌, sym, ◌||◌, ◌+ℤ◌,
}
use bookipi_technical_test.Text.{Text, text_eq, text_eq→eq}
use bookipi_technical_test.Redis.Hash.{
  hget, hset, hdel, hexists, hlen, IsDistinct, hexists-hset, hexists-hdel, hlen-hset_new, hlen-hdel,
  hset-IsDistinct, hdel-IsDistinct, hget_of_absent, hexists_of_some,
}
use bookipi_technical_test.Redis.Members.{
  sismember, sadd, srem, sismember-sadd, sismember-srem, sadd_present,
}
use bookipi_technical_test.Redis.Db.{SaleDb, RedisTime, config_field, now_ms, stock_or_zero}
use bookipi_technical_test.Redis.Scripts.Purchase.{purchase, ledger_value, PurchaseOutcome}
use bookipi_technical_test.Redis.Scripts.Compensate.{
  compensate, release, compensate_reply, compensated, noop, entry_id,
}
use bookipi_technical_test.Redis.Ledger.Effects.{released, units, Purchased, purchase_effect}

pub record IsSound (total : ℕ) (db : SaleDb) : Type 0 where
  pub on_file : config_field (λ c. c.total_stock) db.config ≡ some (pos total)
  pub bounded : hlen db.reservations ≤ total
  pub conserved : db.stock ≡ some (pos (total - hlen db.reservations))
  pub distinct : IsDistinct db.reservations
  pub aligned : (u : Text) → sismember u db.buyers ≡ hexists u db.reservations

-- A reservation on file is one unit out of the stock.
reserve-IsSound :
    (total : ℕ) (user v : Text) (db : SaleDb) (n : ℕ)
    → IsSound total db
    → hexists user db.reservations ≡ false
    → db.stock ≡ some (pos (suc n))
    → IsSound total (record db {
      stock = some (pos n);
      buyers = sadd user db.buyers;
      reservations = hset user v db.reservations;
    })
reserve-IsSound total user v db n h new stock = record {
  on_file = h.on_file;
  bounded = omega (arith, units, grown);
  conserved = ap (λ n. some (pos n)) (omega (arith, units, grown));
  distinct = hset-IsDistinct user v db.reservations h.distinct;
  aligned =
      λ u. rw (sismember-sadd user u db.buyers, hexists-hset user u v db.reservations, h.aligned u);
}
  where
    units : suc n ≡ total - hlen db.reservations
    units = ground (arith, h.conserved)

    grown : hlen (hset user v db.reservations) ≡ suc (hlen db.reservations)
    grown = hlen-hset_new user v db.reservations (hget_of_absent user db.reservations new)

-- Taking a reservation off the file gives its unit back.
release-IsSound :
    (total : ℕ) (user v : Text) (db : SaleDb)
    → IsSound total db
    → hget user db.reservations ≡ some v
    → IsSound total (record db {
      stock = some (pos (suc (total - hlen db.reservations)));
      buyers = srem user db.buyers;
      reservations = hdel user db.reservations;
    })
release-IsSound total user v db h held = record {
  on_file = h.on_file;
  bounded = omega (arith, shrunk, h.bounded);
  conserved = ap (λ n. some (pos n)) (omega (arith, shrunk, h.bounded));
  distinct = hdel-IsDistinct user db.reservations h.distinct;
  aligned =
      λ u. rw (sismember-srem user u db.buyers, hexists-hdel user u db.reservations, h.aligned u);
}
  where
    shrunk : suc (hlen (hdel user db.reservations)) ≡ hlen db.reservations
    shrunk = hlen-hdel user v db.reservations h.distinct held

-- Where the buyers are the holders, adding a holder to them changes nothing.
sadd_holder :
    (total : ℕ) (user : Text) (db : SaleDb)
    → IsSound total db
    → hexists user db.reservations ≡ true
    → sadd user db.buyers ≡ db.buyers
sadd_holder total user db h held = sadd_present user db.buyers (h.aligned user ∙ held)

not_taken :
    (total : ℕ) (user : Text) (db : SaleDb)
    → IsSound total db
    → (sismember user db.buyers || hexists user db.reservations) ≡ hexists user db.reservations
not_taken total user db h = rw (h.aligned user) (ground arith)

Purchased-IsSound :
    (c : PurchaseOutcome) (total now : ℕ) (user id : Text) (db db' : SaleDb)
    → IsSound total db
    → Purchased c now user id db db'
    → IsSound total db'
Purchased-IsSound PurchaseOutcome.confirmed total now user id db db' h p = rw p.2 (
    reserve-IsSound total user (ledger_value id now) db (units db - 1) h
      (sym (not_taken total user db h) ∙ p.0) p.1)
Purchased-IsSound PurchaseOutcome.already_purchased total now user id db db' h p =
    rw (p.1, sadd_holder total user db h (sym (not_taken total user db h) ∙ p.0)) h
Purchased-IsSound _ total now user id db db' h p = rw p h

-- A purchase keeps the ledger sound, on every branch.
pub purchase-IsSound :
    (total : ℕ) (t : RedisTime) (user id : Text) (db : SaleDb)
    → IsSound total db
    → IsSound total (purchase t user id db).1
purchase-IsSound total t user id db h =
    let (reply, db') = purchase t user id db in
    Purchased-IsSound reply.code total (now_ms t) user id db db' h (purchase_effect t user id db)

-- In a sound ledger the release of a holder gives back one unit, and never meets the cap.
pub release_lem :
    (total : ℕ) (user v : Text) (db : SaleDb)
    → IsSound total db
    → hget user db.reservations ≡ some v
    → release user db ≡ (
      compensate_reply compensated (pos (suc (total - hlen db.reservations))),
      released (suc (total - hlen db.reservations)) user db,
    )
unfolding release ◌+ℤ◌
release_lem total user v db h held = ground (
  arith,
  h.aligned user,
  hexists_of_some user db.reservations held,
  hlen-hdel user v db.reservations h.distinct held,
)

-- In a sound ledger a compensation returns the unit of a reservation that is on file under this
-- identity, and changes nothing in every other case.
pub compensate_lem :
    (total : ℕ) (user id : Text) (db : SaleDb)
    → IsSound total db
    → ((v : Text) × (hget user db.reservations ≡ some v)
        × (entry_id v ≡ id)
        × (compensate user id db ≡ (
          compensate_reply compensated (pos (suc (total - hlen db.reservations))),
          released (suc (total - hlen db.reservations)) user db,
        )))
      ⊎ (compensate user id db ≡ (compensate_reply noop (stock_or_zero db), db))
unfolding compensate
compensate_lem total user id db h = elim (Option-cases (hget user db.reservations)) [
  | inl free ↦ inr (rw (free, compensate))
  | inr (v, held) ↦ elim (Bool-cases (text_eq (entry_id v) id)) [
    | inl same ↦ inl (
      v,
      held,
      text_eq→eq (entry_id v) id same,
      rw (held, compensate) (rw same (release_lem total user v db h held)),
    )
    | inr other ↦ inr (rw (held, compensate) (rw other))
  ]
]

-- A compensation keeps the ledger sound, on every branch.
pub compensate-IsSound :
    (total : ℕ) (user id : Text) (db : SaleDb)
    → IsSound total db
    → IsSound total (compensate user id db).1
compensate-IsSound total user id db h = elim (compensate_lem total user id db h) [
  | inl (v, held, _, e) ↦ rw e (release-IsSound total user v db h held)
  | inr e ↦ rw e h
]
