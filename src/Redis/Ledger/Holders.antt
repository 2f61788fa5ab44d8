-- ===== src/Redis/Ledger/Holders.antt =====
-- What any sequence of script calls leaves a holder: the reservation, and no second purchase.
use bookipi_technical_test.Prelude.{ℕ, ◌≡◌, ◌≢◌, some, List, [], ◌∷◌, arith}
use bookipi_technical_test.Text.{Text, text_eq_iff}
use bookipi_technical_test.Redis.Hash.{hget, hget-hset, hget-hdel, hexists_of_some}
use bookipi_technical_test.Redis.Db.{SaleDb, RedisTime, now_ms}
use bookipi_technical_test.Redis.Scripts.Purchase.{
  purchase, PurchaseOutcome, confirmed, ledger_value,
}
use bookipi_technical_test.Redis.Scripts.Compensate.{compensate, entry_id}
use bookipi_technical_test.Redis.Scripts.Reconcile.{reconcile_state}
use bookipi_technical_test.Redis.Scripts.Membership.{reconcile_membership}
use bookipi_technical_test.Redis.Scripts.Seed.{seed}
use bookipi_technical_test.Redis.Ledger.Effects.{Purchased, purchase_effect}
use bookipi_technical_test.Redis.Ledger.Runs.{
  Call, buy, undo, align, derive, boot, Tally, step, run,
}

-- Whether the call may take this reservation of this user off the file.
abbrev pub Spares : Text → Text → Call → Type 0
Spares user id (undo u i) = (u ≡ user) → i ≢ id
Spares user id _ = Unit

abbrev pub AllSpare : Text → Text → List Call → Type 0
AllSpare user id [] = Unit
AllSpare user id (c ∷ cs) = Spares user id c × AllSpare user id cs

Purchased-keeps :
    (c : PurchaseOutcome) (now : ℕ) (u id user v : Text) (db db' : SaleDb)
    → Purchased c now u id db db'
    → hget user db.reservations ≡ some v
    → hget user db'.reservations ≡ some v
Purchased-keeps confirmed now u id user v db db' (free, _, e) held =
    rw (e, hget-hset u user (ledger_value id now) db.reservations)
      (ground (arith, text_eq_iff u user, hexists_of_some user db.reservations held))
Purchased-keeps PurchaseOutcome.already_purchased now u id user v db db' p held = rw p.1 held
Purchased-keeps _ now u id user v db db' p held = rw p held

undo_keeps :
    (u id user v : Text) (db : SaleDb)
    → Spares user (entry_id v) (undo u id)
    → hget user db.reservations ≡ some v
    → hget user (compensate u id db).1.reservations ≡ some v
unfolding compensate
undo_keeps u id user v db spare held =
    ground
      (arith, hget-hdel u user db.reservations, text_eq_iff u user, text_eq_iff (entry_id v) id)

step_keeps :
    (c : Call) (user v : Text) (n : Tally) (db : SaleDb)
    → Spares user (entry_id v) c
    → hget user db.reservations ≡ some v
    → hget user (step c (n, db)).1.reservations ≡ some v
unfolding step reconcile_membership reconcile_state seed
step_keeps (buy t u id) user v n db spare held =
    let (reply, db') = purchase t u id db in
    Purchased-keeps reply.code (now_ms t) u id user v db db' (purchase_effect t u id db) held
step_keeps (undo u id) user v n db spare held = undo_keeps u id user v db spare held
step_keeps (align u) user v n db spare held = ground arith
step_keeps derive user v n db spare held = ground arith
step_keeps (boot a) user v n db spare held = ground arith

run_keeps :
    (cs : List Call) (user v : Text) (s : Tally × SaleDb)
    → AllSpare user (entry_id v) cs
    → hget user s.1.reservations ≡ some v
    → hget user (run cs s).1.reservations ≡ some v
unfolding run
run_keeps [] user v s spare held = held
run_keeps (c ∷ cs) user v s spare held =
    run_keeps cs user v (step c s) spare.1 (step_keeps c user v s.0 s.1 spare.0 held)

holder_not_confirmed :
    (c : PurchaseOutcome) (now : ℕ) (user id v : Text) (db db' : SaleDb)
    → hget user db.reservations ≡ some v
    → Purchased c now user id db db'
    → c ≢ confirmed
holder_not_confirmed confirmed now user id v db db' held (free, _, _) =
    absurd (ground (arith, hexists_of_some user db.reservations held))
holder_not_confirmed _ now user id v db db' held p = ground arith

-- One purchase per user, and no stale compensation: a reservation on file stays on file through any
-- sequence of calls by any clients, as long as none compensates this very reservation, and after
-- them a purchase by its holder is not confirmed, whatever identity it brings. Compensations of the
-- same user under other identities are among the calls allowed.
pub one_per_user :
    (cs : List Call) (user v : Text) (s : Tally × SaleDb) (t : RedisTime) (id : Text)
    → AllSpare user (entry_id v) cs
    → hget user s.1.reservations ≡ some v
    → (hget user (run cs s).1.reservations ≡ some v)
      × ((purchase t user id (run cs s).1).0.code ≢ confirmed)
one_per_user cs user v s t id spare held =
    let db = (run cs s).1 in
    let kept = run_keeps cs user v s spare held in
    let (reply, db') = purchase t user id db in
    (
      kept,
      holder_not_confirmed reply.code (now_ms t) user id v db db' kept
          (purchase_effect t user id db),
    )
