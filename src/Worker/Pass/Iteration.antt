-- ===== src/Worker/Pass/Iteration.antt =====
-- The iteration over the buyers in a pass: behind it every user is a buyer exactly if he holds a
-- reservation.
use bookipi_technical_test.Prelude.{
  ℕ, zero, suc, ◌≡◌, ◌⊎◌, inl, inr, refl, Bool, true, false, not, ◌||◌, List, Bool-cases, arith, ok,
  if◌then◌else◌,
}
use bookipi_technical_test.Text.{Text, text_eq, text_eq_iff}
use bookipi_technical_test.Redis.Hash.{Hash, hexists, hexists-hset}
use bookipi_technical_test.Redis.Members.{sismember, is_listed, sismember-sadd, sismember-srem}
use bookipi_technical_test.Redis.Db.{SaleDb}
use bookipi_technical_test.Redis.Scripts.Membership.{reconcile_membership, compare_restore}
use bookipi_technical_test.Redis.Scripts.Purchase.{ledger_value}
use bookipi_technical_test.Redis.Store.Entry.{ReservationEntry}
use bookipi_technical_test.Redis.Store.Methods.{reconcile_buyer_membership}
use bookipi_technical_test.Redis.Store.Scan.{Scan, first_cursor, scan_buyers, IsComplete}
use bookipi_technical_test.Worker.Step.{continue_ok, pure}
use bookipi_technical_test.Worker.Env.{WorkerEnv}
use bookipi_technical_test.Worker.Queue.{QueueApi}
use bookipi_technical_test.Worker.World.{World}
use bookipi_technical_test.Worker.Keeps.{kept}
use bookipi_technical_test.Worker.Recovery.Keeps.{IsKept}
use bookipi_technical_test.Worker.Recovery.Laws.{
  IsAligned, is_aligned, Aligned, IsAligned-IsKept, restore_lem,
}
use bookipi_technical_test.Worker.Pass.{check_buyers, buyer_pages}
use bookipi_technical_test.Worker.Pass.Keeps.{Keeps-check_buyers, Keeps-buyer_pages}
use bookipi_technical_test.Redis.Store.Scan.Missed.{Missed, Missed-last, Missed-before}
use bookipi_technical_test.Worker.Pass.Buyers.{Open, check_buyers-listed, check_buyers-Open}

-- A holder is a buyer.
abbrev pub Bought : Text → SaleDb → Hash ReservationEntry → Type 0
Bought u db ledger = (not (hexists u db.reservations) || sismember u db.buyers) ≡ true

script-Bought :
    (u user id : Text) (at : ℕ) (db : SaleDb) (ledger : Hash ReservationEntry)
    → Bought u db ledger
    → Bought u (compare_restore user id at db).1 ledger
unfolding compare_restore
script-Bought u user id at db ledger h = ground (
  arith,
  h,
  sismember-sadd user u db.buyers,
  hexists-hset user u (ledger_value id at) db.reservations,
)

membership-Bought :
    (u sale user : Text) (db : SaleDb) (ledger : Hash ReservationEntry)
    → Bought u db ledger
    → Bought u (reconcile_buyer_membership sale user db).1 ledger
unfolding reconcile_buyer_membership reconcile_membership
membership-Bought u sale user db ledger h =
    ground (
      arith,
      h,
      sismember-sadd user u db.buyers,
      sismember-srem user u db.buyers,
      text_eq_iff user u,
    )

pub Bought-IsKept : (u user : Text) → IsKept (Bought u) user
Bought-IsKept u user = record {
  membership = λ sale v db ledger h. membership-Bought u sale v db ledger h;
  restore = λ sale input db ledger h.
      restore_lem (λ d. Bought u d ledger) sale input db
        (λ v id at. script-Bought u v id at db ledger h) h;
  note = λ e db ledger h. h;
}

abbrev pub buys : Text → SaleDb → Bool
buys u db = sismember u db.buyers

abbrev pub names : List Text → List Text
names users = users

module _ {Q : Type 0} (api : QueueApi Q) (env : WorkerEnv) (sscan : Scan) where
  -- What is left to do after the page of a round.
  Turned : ℕ → ℕ → World Q → World Q → Text → Type 0
  Turned fuel k w w' cursor =
      ((text_eq cursor first_cursor ≡ true) × (w' ≡ w))
      ⊎ ((text_eq cursor first_cursor ≡ false)
          × (buyer_pages api env sscan fuel (suc k) cursor w ≡ (ok tt, w')))

  turned :
      (fuel k : ℕ) (w w' : World Q) (cursor : Text) (b : Bool)
      → text_eq cursor first_cursor ≡ b
      → (if b then pure tt else buyer_pages api env sscan fuel (suc k) cursor) w ≡ (ok tt, w')
      → Turned fuel k w w' cursor
  unfolding Turned
  turned fuel k w w' cursor true e h = inl (e, ground (arith, h))
  turned fuel k w w' cursor false e h = inr (e, h)

  buyer_round :
      (fuel k : ℕ) (cursor : Text) (w w' : World Q)
      → buyer_pages api env sscan (suc fuel) k cursor w ≡ (ok tt, w')
      → (w1 : World Q) × (check_buyers api env
            (sscan k cursor env.worker_reconcile_scan_count w.stores.db).1
            w
          ≡ (ok tt, w1))
        × Turned fuel k w1 w' (sscan k cursor env.worker_reconcile_scan_count w.stores.db).0
  unfolding buyer_pages scan_buyers
  buyer_round fuel k cursor w w' h = continue_ok h (λ _ w1 c1 h1. continue_ok h1 (λ page w2 read h2.
      continue_ok h2 (λ _ w3 c3 h3. continue_ok h3 (λ _ w4 checked last.
        let same : w3 ≡ w = ground (arith, c1, read, c3) in
        let reply : page ≡ sscan k cursor env.worker_reconcile_scan_count w.stores.db =
          ground (arith, c1, read) in
        (w4, rw (same, reply) at checked, turned fuel k w4 w' _ _ refl (rw reply at last))))))

  after :
      (u : Text) (fuel k : ℕ) (w w' : World Q) (cursor : Text)
      → IsAligned u w.stores.db
      → Turned fuel k w w' cursor
      → IsAligned u w'.stores.db
  unfolding Turned
  after u fuel k w w' cursor aligned (inl (_, same)) = rw same aligned
  after u fuel k w w' cursor aligned (inr (_, left)) = kept (Aligned u) left (
      Keeps-buyer_pages (Aligned u) (IsAligned-IsKept u) api env sscan fuel (suc k) cursor w
        aligned)

  buyer_pages_lem :
      (u : Text) (fuel k : ℕ) (cursor : Text) (w w' : World Q)
      → Open u w.stores.db w.ledger_by_user
      → Bought u w.stores.db w.ledger_by_user
      → buyer_pages api env sscan fuel k cursor w ≡ (ok tt, w')
      → IsAligned u w'.stores.db
        ⊎ Missed names buys u sscan env.worker_reconcile_scan_count k cursor
  unfolding Turned
  buyer_pages_lem u zero k cursor w w' o b h = absurd (unfold buyer_pages in ground (arith, h))
  buyer_pages_lem u (suc fuel) k cursor w w' o b h = elim (Bool-cases (is_aligned u w.stores.db)) [
    | inl aligned ↦ inl (
        kept (Aligned u) h (
          Keeps-buyer_pages (Aligned u) (IsAligned-IsKept u) api env sscan (suc fuel) k cursor w
            aligned))
    | inr ghost ↦
        let (w1, checked, next) = buyer_round fuel k cursor w w' h in
        let reply = sscan k cursor env.worker_reconcile_scan_count w.stores.db in
        elim (Bool-cases (is_listed u reply.1)) [
          | inl listed ↦
              let aligned = check_buyers-listed api env u reply.1 w w1 o checked listed in
              inl (after u fuel k w1 w' reply.0 aligned next)
          | inr free ↦
              let o1 = check_buyers-Open api env u reply.1 w w1 o checked free in
              let b1 =
                kept (Bought u) checked
                  (Keeps-check_buyers (Bought u) (Bought-IsKept u) api env reply.1 w b) in
              let buyer : buys u w.stores.db ≡ true = ground (arith, ghost, b) in
              elim next [
                | inl (ends, _) ↦ inr (
                    Missed-last names buys u sscan env.worker_reconcile_scan_count k cursor
                      w.stores.db buyer free ends)
                | inr (more, left) ↦
                    elim (buyer_pages_lem u fuel (suc k) reply.0 w1 w' o1 b1 left) [
                      | inl done ↦ inl done
                      | inr missed ↦ inr (
                          Missed-before names buys u sscan env.worker_reconcile_scan_count k cursor
                            w.stores.db buyer free more missed)
                    ]
              ]
        ]
  ]

  -- With Redis keeping its promise, a user who is open and no holder without being a buyer is aligned behind
  -- the iteration.
  pub buyers_aligned :
      (u : Text) (fuel : ℕ) (w w' : World Q)
      → IsComplete names buys sscan
      → Open u w.stores.db w.ledger_by_user
      → Bought u w.stores.db w.ledger_by_user
      → buyer_pages api env sscan fuel 0 first_cursor w ≡ (ok tt, w')
      → IsAligned u w'.stores.db
  buyers_aligned u fuel w w' complete o b h =
      elim (buyer_pages_lem u fuel 0 first_cursor w w' o b h) [
        | inl aligned ↦ aligned
        | inr (dbs, ends, all, missed) ↦
            absurd (ground (arith, complete u env.worker_reconcile_scan_count dbs ends all, missed))
      ]
