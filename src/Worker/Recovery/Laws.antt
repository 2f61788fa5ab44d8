-- ===== src/Worker/Recovery/Laws.antt =====
-- What is left of a buyer once a pass has inspected or decided on him.
use bookipi_technical_test.Prelude.{
  ℕ, throw, ◌>>◌, ◌≡◌, ◌||◌, Bool, true, not, if◌then◌else◌, Option, none, some, Outcome, arith, ok,
}
use bookipi_technical_test.Text.{Text, text_eq, text_eq_iff, text_eq_refl}
use bookipi_technical_test.Redis.Hash.{Hash, hexists, hget-hset}
use bookipi_technical_test.Redis.Members.{sismember, sismember-sadd, sismember-srem}
use bookipi_technical_test.Redis.Db.{SaleDb}
use bookipi_technical_test.Redis.Scripts.Purchase.{ledger_value}
use bookipi_technical_test.Redis.Scripts.Membership.{
  inspect, InspectOutcome, both, buyer_only, reservation_only, neither, reconcile_membership,
  compare_restore,
}
use bookipi_technical_test.Redis.Store.Entry.{
  ReservationEntry, ReservationInspection, assert_member, decode_inspection, RestoreInput,
}
use bookipi_technical_test.Redis.Store.Methods.{
  inspect_reservation_membership, reconcile_buyer_membership, compare_and_restore_reservation,
  restore_input,
}
use bookipi_technical_test.Shared.Keys.{assert_sale_id}
use bookipi_technical_test.Worker.Step.{continue, continue_ok}
use bookipi_technical_test.Worker.Env.{WorkerEnv}
use bookipi_technical_test.Worker.Job.{Job}
use bookipi_technical_test.Worker.Orders.{DurableOrder}
use bookipi_technical_test.Worker.Queue.{QueueApi}
use bookipi_technical_test.Worker.World.{World}
use bookipi_technical_test.Worker.Keeps.{kept}
use bookipi_technical_test.Worker.Recovery.Decide.{
  resolve_buyer_inspection, adjudicate_buyer_only, resolve_finally, resolve_by, repair_membership,
}
use bookipi_technical_test.Worker.Recovery.Keeps.{IsKept, Keeps-cover_entry}

-- The user is a buyer exactly if he holds a reservation.
abbrev pub is_aligned : Text → SaleDb → Bool
is_aligned user db =
    if sismember user db.buyers
    then hexists user db.reservations
    else not (hexists user db.reservations)

-- The user is no buyer, or holds a reservation.
abbrev pub has_no_ghost : Text → SaleDb → Bool
has_no_ghost user db = not (sismember user db.buyers) || hexists user db.reservations

abbrev pub IsAligned : Text → SaleDb → Type 0
IsAligned user db = is_aligned user db ≡ true

abbrev Holds : Text → SaleDb → Type 0
Holds user db = hexists user db.reservations ≡ true

membership-IsAligned :
    (u sale user : Text) (db : SaleDb)
    → IsAligned u db
    → IsAligned u (reconcile_buyer_membership sale user db).1
unfolding reconcile_buyer_membership reconcile_membership
membership-IsAligned u sale user db h =
    ground (
      arith,
      h,
      sismember-sadd user u db.buyers,
      sismember-srem user u db.buyers,
      text_eq_iff user u,
    )

membership-Holds :
    (u sale user : Text) (db : SaleDb)
    → Holds u db
    → Holds u (reconcile_buyer_membership sale user db).1
unfolding reconcile_buyer_membership reconcile_membership
membership-Holds u sale user db h = ground (arith, h)

script-IsAligned :
    (u user id : Text) (at : ℕ) (db : SaleDb)
    → IsAligned u db
    → IsAligned u (compare_restore user id at db).1
unfolding compare_restore hexists
script-IsAligned u user id at db h = ground (
  arith,
  h,
  sismember-sadd user u db.buyers,
  hget-hset user u (ledger_value id at) db.reservations,
  text_eq_iff user u,
)

script-Holds :
    (u user id : Text) (at : ℕ) (db : SaleDb)
    → Holds u db
    → Holds u (compare_restore user id at db).1
unfolding compare_restore hexists
script-Holds u user id at db h =
    ground (arith, h, hget-hset user u (ledger_value id at) db.reservations, text_eq_iff user u)

-- The method leaves the keys that the script leaves, or the keys as they were.
restore_input_lem :
    (P : SaleDb → Type 0) (input : Outcome RestoreInput) (db : SaleDb)
    → ((user id : Text) (at : ℕ) → P (compare_restore user id at db).1)
    → P db
    → P (restore_input input db).1
restore_input_lem P (throw e) db scripts h = h
restore_input_lem P (ok i) db scripts h = scripts i.user_id i.reservation_id _

pub restore_lem :
    (P : SaleDb → Type 0) (sale : Text) (input : Outcome RestoreInput) (db : SaleDb)
    → ((user id : Text) (at : ℕ) → P (compare_restore user id at db).1)
    → P db
    → P (compare_and_restore_reservation sale input db).1
unfolding compare_and_restore_reservation
restore_lem P sale input db = restore_input_lem P (assert_sale_id sale >> input) db

-- Both whatever the pass has noted.
abbrev pub Aligned : Text → SaleDb → Hash ReservationEntry → Type 0
Aligned u db ledger = IsAligned u db

abbrev Holding : Text → SaleDb → Hash ReservationEntry → Type 0
Holding u db ledger = Holds u db

pub IsAligned-IsKept : (u user : Text) → IsKept (Aligned u) user
IsAligned-IsKept u user = record {
  note = λ e db ledger h. h;
  membership = λ sale v db ledger. membership-IsAligned u sale v db;
  restore = λ sale input db ledger h.
      restore_lem (IsAligned u) sale input db (λ user id at. script-IsAligned u user id at db h) h;
}

Holds-IsKept : (u user : Text) → IsKept (Holding u) user
Holds-IsKept u user = record {
  note = λ e db ledger h. h;
  membership = λ sale v db ledger. membership-Holds u sale v db;
  restore = λ sale input db ledger h.
      restore_lem (Holds u) sale input db (λ user id at. script-Holds u user id at db h) h;
}

-- What an inspection tells of the user.
abbrev by_outcome : Text → SaleDb → InspectOutcome → Bool
by_outcome user db buyer_only = true
by_outcome user db reservation_only = hexists user db.reservations
by_outcome user db _ = is_aligned user db

inspect_lem : (user : Text) (db : SaleDb) → by_outcome user db (inspect user db).0 ≡ true
unfolding inspect hexists
inspect_lem user db = ground arith

inspected :
    (sale user : Text) (db : SaleDb) (i : ReservationInspection)
    → inspect_reservation_membership sale user db ≡ ok i
    → by_outcome user db i.outcome ≡ true
unfolding inspect_reservation_membership decode_inspection assert_member text_eq
inspected sale user db i h = ground (arith, inspect_lem user db)

module _ {Q : Type 0} (user : Text) (api : QueueApi Q) (env : WorkerEnv) where
  -- A holder whose membership was repaired is a buyer.
  repaired :
      (w w' : World Q)
      → Holds user w.stores.db
      → repair_membership api env user w ≡ (ok tt, w')
      → IsAligned user w'.stores.db
  unfolding reconcile_buyer_membership reconcile_membership continue
  repaired w w' held h =
      ground (arith, held, h, sismember-sadd user user w.stores.db.buyers, text_eq_refl user)

  -- After an inspection that is resolved well the user is a buyer exactly if he holds a reservation.
  resolved_by :
      (i : InspectOutcome) (o : Option ReservationEntry) (durable : Option DurableOrder)
      (targeted : Option (Option Job)) (w w' : World Q)
      → by_outcome user w.stores.db i ≡ true
      → resolve_by api env user i o durable targeted w ≡ (ok tt, w')
      → IsAligned user w'.stores.db
  resolved_by neither o durable targeted w w' seen h = ground (arith, seen, h)
  resolved_by buyer_only o durable targeted w w' seen h = absurd (ground (arith, h))
  resolved_by both none durable targeted w w' seen h = absurd (ground (arith, h))
  resolved_by reservation_only none durable targeted w w' seen h = absurd (ground (arith, h))
  resolved_by both (some e) durable targeted w w' seen h = continue_ok h (λ _ w1 noted rest.
      kept (Aligned user) rest (
        Keeps-cover_entry (Aligned user) user (IsAligned-IsKept user user) api env e durable
          targeted w1 (ground (arith, noted, seen))))
  resolved_by reservation_only (some e) durable targeted w w' seen h =
      continue_ok h (λ _ w1 covered rest. continue_ok rest (λ _ w2 fixed last. ground (
        arith,
        last,
        repaired w1 w2
            (kept (Holding user) covered (
              Keeps-cover_entry (Holding user) user (Holds-IsKept user user) api env e durable
                targeted w seen))
            fixed,
      )))

  pub resolved :
      (i : ReservationInspection) (durable : Option DurableOrder) (targeted : Option (Option Job))
      (w w' : World Q)
      → inspect_reservation_membership env.sale_id user w.stores.db ≡ ok i
      → resolve_buyer_inspection api env user i durable targeted w ≡ (ok tt, w')
      → IsAligned user w'.stores.db
  unfolding resolve_buyer_inspection
  resolved i durable targeted w w' read h =
      resolved_by i.outcome i.reservation durable targeted w w'
        (inspected env.sale_id user w.stores.db i read) h

  resolved_finally :
      (targeted : Option Job) (w w' : World Q)
      → resolve_finally api env user targeted w ≡ (ok tt, w')
      → IsAligned user w'.stores.db
  unfolding resolve_finally
  resolved_finally targeted w w' h = continue_ok h (λ i w1 read rest.
      continue_ok rest
        (λ durable w2 noted last. resolved i durable _ w2 w' (ground (arith, noted, read)) last))

  -- The decision of a pass on a buyer without a reservation, where it ends well.
  pub adjudicated :
      (w w' : World Q)
      → adjudicate_buyer_only api env user w ≡ (ok tt, w')
      → IsAligned user w'.stores.db
  unfolding adjudicate_buyer_only
  adjudicated w w' h = continue_ok h (λ row w1 _ h1. continue_ok h1 (λ job_id w2 _ h2.
      continue_ok h2 (λ targeted w3 _ h3. continue_ok h3 (λ classified w4 _ h4.
        continue_ok h4
          (λ _ w5 _ h5. continue_ok h5 (λ _ w6 _ last. resolved_finally targeted w6 w' last))))))

-- A buyer without a reservation does not survive the decision of a pass: where the decision ends well,
-- Redis has the user as a holder, or no longer as a buyer.
pub no_ghost_buyer :
    {Q : Type 0} (api : QueueApi Q) (env : WorkerEnv) (user : Text) (w w' : World Q)
    → adjudicate_buyer_only api env user w ≡ (ok tt, w')
    → has_no_ghost user w'.stores.db ≡ true
no_ghost_buyer api env user w w' h = ground (arith, adjudicated user api env w w' h)
