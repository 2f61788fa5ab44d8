-- ===== src/Worker/Pass/Sound.antt =====
-- A pass that ends well leaves a sound ledger, whatever had drifted.
use bookipi_technical_test.Prelude.{
  ℕ, ◌≡◌, refl, true, List, inl, inr, arith, Outcome, ok, throw, pos, some,
}
use bookipi_technical_test.Text.{Text, text_eq}
use bookipi_technical_test.Shared.Keys.{assert_sale_id}
use bookipi_technical_test.Shared.Queue.{OrdersQueueJobPayload}
use bookipi_technical_test.Redis.Hash.{Hash, hexists, IsDistinct, hset-IsDistinct}
use bookipi_technical_test.Redis.Members.{sismember}
use bookipi_technical_test.Redis.Db.{SaleDb, config_field}
use bookipi_technical_test.Redis.Ledger.Invariant.{IsSound, compensate-IsSound}
use bookipi_technical_test.Redis.Ledger.Repair.{reconcile_state_lem}
use bookipi_technical_test.Redis.Scripts
use bookipi_technical_test.Redis.Scripts.Purchase.{ledger_value}
use bookipi_technical_test.Redis.Scripts.Reconcile.{reconcile_state}
use bookipi_technical_test.Redis.Scripts.Membership.{reconcile_membership, compare_restore}
use bookipi_technical_test.Redis.Store.Entry.{ReservationEntry, assert_member}
use bookipi_technical_test.Redis.Store.Methods.{
  reconcile_buyer_membership, reconcile_stock_from_reservations, decode_reconcile_state,
  ReconcileStateResult, checked, compensate,
}
use bookipi_technical_test.Redis.Store.Scan.{IsComplete, fields_of, first_cursor}
use bookipi_technical_test.Worker.Step.{continue_ok}
use bookipi_technical_test.Worker.Env.{WorkerEnv}
use bookipi_technical_test.Worker.Orders.{CommitOutcome, DurableOrder}
use bookipi_technical_test.Worker.Orders.Recovery.{store_compensate}
use bookipi_technical_test.Worker.Queue.{QueueApi}
use bookipi_technical_test.Worker.World.{World}
use bookipi_technical_test.Worker.Health.{PassResult}
use bookipi_technical_test.Worker.Keeps.{kept}
use bookipi_technical_test.Worker.Recovery.Keeps.{IsKept}
use bookipi_technical_test.Worker.Recovery.Laws.{IsAligned, restore_lem}
use bookipi_technical_test.Worker.Sweep.Keeps.{Keeps-sweep_failed}
use bookipi_technical_test.Worker.Pass.{PassReads, derive_stock, is_reconciled, run_diff, repair}
use bookipi_technical_test.Worker.Scans.{ScannedJob}
use bookipi_technical_test.Worker.Pass.Keeps.{
  Keeps-scan_jobs, Keeps-recover_orders, Keeps-recover_jobs, Keeps-cover_ledger, Keeps-buyer_pages,
}
use bookipi_technical_test.Worker.Pass.Ledger.{holds, scan_ledger_same}
use bookipi_technical_test.Worker.Pass.Iteration.{buys, names}
use bookipi_technical_test.Worker.Pass.Alignment.{repair-IsAligned}

-- What a pass needs of the keys: the total is on file, and a hash holds each field once.
abbrev pub IsReady : ℕ → SaleDb → Type 0
IsReady total db =
    (config_field (λ c. c.total_stock) db.config ≡ some (pos total)) × IsDistinct db.reservations

abbrev Ready : ℕ → SaleDb → Hash ReservationEntry → Type 0
Ready total db ledger = IsReady total db

membership-IsReady :
    (total : ℕ) (sale user : Text) (db : SaleDb)
    → IsReady total db
    → IsReady total (reconcile_buyer_membership sale user db).1
unfolding reconcile_buyer_membership reconcile_membership
membership-IsReady total sale user db h = ground (arith, h)

script-IsReady :
    (total : ℕ) (user id : Text) (at : ℕ) (db : SaleDb)
    → IsReady total db
    → IsReady total (compare_restore user id at db).1
unfolding compare_restore
script-IsReady total user id at db h =
    ground (arith, h, hset-IsDistinct user (ledger_value id at) db.reservations)

IsReady-IsKept : (total : ℕ) (user : Text) → IsKept (Ready total) user
IsReady-IsKept total user = record {
  membership = λ sale v db ledger h. membership-IsReady total sale v db h;
  restore = λ sale input db ledger h.
      restore_lem (IsReady total) sale input db (λ v id at. script-IsReady total v id at db h) h;
  note = λ e db ledger h. h;
}

-- The method that derives the stock is its script.
derived :
    (sale : Text) (db db' : SaleDb) (r : ReconcileStateResult)
    → reconcile_stock_from_reservations sale db ≡ (ok r, db')
    → (db' ≡ (reconcile_state db).1) × (r.outcome ≡ (reconcile_state db).0.code)
unfolding reconcile_stock_from_reservations decode_reconcile_state assert_member text_eq
derived sale db db' r h = ground (arith, h)

abbrev Whole : ℕ → SaleDb → Hash ReservationEntry → Type 0
Whole total db ledger = IsSound total db

checked-db :
    {A R : Type 0} (P : SaleDb → Type 0) (o : Outcome (Unit {0})) (script : SaleDb → R × SaleDb)
    (decode : R → Outcome A) (db : SaleDb)
    → P db
    → P (script db).1
    → P (checked o script decode db).1
checked-db P (ok _) script decode db h done = done
checked-db P (throw e) script decode db h done = h

compensated-IsSound :
    (total : ℕ) (p : OrdersQueueJobPayload) (db : SaleDb) (ledger : Hash ReservationEntry)
    → Whole total db ledger
    → Whole total (store_compensate p db).1 ledger
unfolding compensate
compensated-IsSound total p db ledger h =
    checked-db (IsSound total) (assert_sale_id p.sale_id)
      (Scripts.Compensate.compensate p.user_id p.reservation_id) _ db h
      (compensate-IsSound total p.user_id p.reservation_id db h)

aligned_eq :
    (u : Text) (db : SaleDb) → IsAligned u db → sismember u db.buyers ≡ hexists u db.reservations
aligned_eq u db h = ground (arith, h)

-- The derivation of the stock makes a ledger sound whose buyers are the holders.
state-IsSound :
    (total : ℕ) (db : SaleDb)
    → IsReady total db
    → ((u : Text) → IsAligned u db)
    → is_reconciled (reconcile_state db).0.code ≡ true
    → IsSound total (reconcile_state db).1
state-IsSound total db ready aligned h = elim (reconcile_state_lem total db ready.0) [
  | inl (small, _, e) ↦ rw e (record {
    on_file = ready.0;
    bounded = small;
    conserved = refl;
    distinct = ready.1;
    aligned = λ u. aligned_eq u db (aligned u);
  })
  | inr (_, code, _) ↦ absurd (ground (arith, code, h))
]

module _ {Q : Type 0} (api : QueueApi Q) (env : WorkerEnv) where
  -- The repairs leave the total and the fields of the hash alone.
  repair-IsReady :
      (total : ℕ) (reads : PassReads) (fuel : ℕ) (orders : List DurableOrder)
      (jobs : List ScannedJob) (w w' : World Q)
      → IsReady total w.stores.db
      → repair api env reads fuel orders jobs w ≡ (ok tt, w')
      → IsReady total w'.stores.db
  unfolding repair
  repair-IsReady total reads fuel orders jobs w w' ready h =
      let P = Ready total in
      let closed = IsReady-IsKept total in
      continue_ok h (λ _ w1 r1 h1. continue_ok h1 (λ _ w2 r2 h2. continue_ok h2 (λ _ w3 c3 h3.
        continue_ok h3 (λ entries w4 scanned h4. continue_ok h4 (λ _ w5 noted h5.
          continue_ok h5 (λ _ w6 covered looked.
            let ready2 = kept P r2 (
              Keeps-recover_jobs P closed api env jobs w1
                (kept P r1 (Keeps-recover_orders P closed api env orders w ready))) in
            let same = scan_ledger_same reads.hscan env fuel entries w3 w4 scanned in
            let ready5 : IsReady total w5.stores.db = ground (arith, ready2, c3, same, noted) in
            kept P looked (
              Keeps-buyer_pages P closed api env reads.sscan fuel 0 first_cursor w6
                (kept P covered (Keeps-cover_ledger P closed api env entries w5 ready5)))))))))

  derived-IsSound :
      (total : ℕ) (w w' : World Q)
      → IsReady total w.stores.db
      → ((u : Text) → IsAligned u w.stores.db)
      → derive_stock api env w ≡ (ok tt, w')
      → IsSound total w'.stores.db
  unfolding derive_stock
  derived-IsSound total w w' ready aligned h = continue_ok h (λ _ w1 c1 h1.
      continue_ok h1 (λ r w2 run h2. continue_ok h2 (λ _ w3 c3 last.
        let facts = derived env.sale_id w.stores.db w2.stores.db r (ground (arith, c1, run)) in
        let same : w'.stores.db ≡ (reconcile_state w.stores.db).1 =
          ground (arith, facts, c3, last) in
        let code : is_reconciled (reconcile_state w.stores.db).0.code ≡ true =
          ground (arith, facts, last) in
        rw same (state-IsSound total w.stores.db ready aligned code))))

-- A pass that nobody interferes with and that ends well leaves a sound ledger, whatever had drifted: the
-- stock and the reservations make up the total, nobody holds two reservations, and the buyers are exactly
-- the holders. The total must be on file, a hash hold each field once, and a full iteration of HSCAN or
-- SSCAN name what is there from its start to its end, as Redis documents.
pub run_diff-IsSound :
    {Q : Type 0} (api : QueueApi Q) (env : WorkerEnv) (reads : PassReads)
    (commit : OrdersQueueJobPayload → CommitOutcome) (fuel total : ℕ) (result : PassResult)
    (w w' : World Q)
    → IsComplete fields_of holds reads.hscan
    → IsComplete names buys reads.sscan
    → IsReady total w.stores.db
    → run_diff api env reads commit fuel w ≡ (ok result, w')
    → IsSound total w'.stores.db
unfolding run_diff
run_diff-IsSound api env reads commit fuel total result w w' holders buyers ready h =
    let P = Ready total in
    continue_ok h (λ _ w1 c1 h1. continue_ok h1 (λ orders w2 read h2.
      continue_ok h2 (λ _ w3 started h3. continue_ok h3 (λ _ w4 c4 h4.
        continue_ok h4 (λ scan w5 scanned h5. continue_ok h5 (λ _ w6 repaired h6.
          continue_ok h6 (λ _ w7 done h7. continue_ok h7 (λ dlq w8 swept h8.
            continue_ok h8 (λ _ w9 c9 h9. continue_ok h9 (λ counts w10 counted h10.
              continue_ok h10 (λ _ w11 c11 h11. continue_ok h11 (λ _ w12 noted last.
                let ready4 : IsReady total w4.stores.db =
                  ground (arith, ready, c1, read, started, c4) in
                let ready5 =
                  kept P scanned
                    (Keeps-scan_jobs P (IsReady-IsKept total) api env fuel w4 ready4) in
                let ready6 =
                  repair-IsReady api env total reads fuel orders scan.jobs w5 w6 ready5 repaired in
                let sound7 =
                  derived-IsSound api env total w6 w7 ready6
                    (repair-IsAligned api env reads fuel orders scan.jobs w5 w6 holders buyers
                      repaired)
                    done in
                let sound8 = kept (Whole total) swept (
                  Keeps-sweep_failed (Whole total) (compensated-IsSound total) api env commit w7
                    sound7) in
                let same : w'.stores.db ≡ w8.stores.db =
                  ground (arith, c9, counted, c11, noted, last) in
                rw same sound8))))))))))))
