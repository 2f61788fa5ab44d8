-- ===== src/Worker/Orders/Refusal.antt =====
-- What a compensated reservation leaves behind for a delivery that comes late.
use bookipi_technical_test.Prelude.{
  ℕ, ◌≡◌, ◌∙◌, ◌⊎◌, ◌≢◌, refl, Bool, true, false, not, ◌&&◌, ◌||◌, Option, none, some, List, [],
  ◌∷◌, arith, Bool-cases, inl, inr, Outcome, ok, throw, conflict_error,
}
use bookipi_technical_test.Text.{text_eq, text_eq_iff}
use bookipi_technical_test.Shared.Queue.{OrdersQueueJobPayload}
use bookipi_technical_test.Shared.Queue.Laws.{IsPayload}
use bookipi_technical_test.Redis.Db.{SaleDb}
use bookipi_technical_test.Redis.Store.Methods.{CompensateResult}
use bookipi_technical_test.Worker.Step.{Step, continue}
use bookipi_technical_test.Worker.Postgres.{
  OrderRow, find_user, uuid_text, persisted, compensated, insert_order,
}
use bookipi_technical_test.Worker.Orders.{
  Stores, CommitOutcome, refused, unacknowledged, after_commit, acknowledged, persist, persist_work,
  persist_existing, transaction, mark, resolve_failed, resolve_work, resolve_row, was_compensated,
  was_persisted, ResolveFailedResult, same_reservation,
}
use bookipi_technical_test.Worker.Orders.Final.{
  Attempt, deliver, resolve, attempt, attempts, payload_of, Keeps-attempt,
}
use bookipi_technical_test.Worker.Orders.Adjudication.{payload-row_checks}
use bookipi_technical_test.Worker.Orders.Resolved.{held_by_other, resolved_failed}

-- The row of the user, by which a compensated reservation is refused: its own marker, or a persisted order
-- for another reservation.
abbrev IsRefusing : OrdersQueueJobPayload → OrderRow → Type 0
IsRefusing p r =
    ((r.id ≡ p.reservation_id) × (r.status ≡ compensated))
    ⊎ ((text_eq r.id p.reservation_id ≡ false) × (r.status ≡ persisted))

refused_by_row :
    (p : OrdersQueueJobPayload) (o : Option OrderRow)
    → (same_reservation p o ≡ some compensated) ⊎ (held_by_other p o ≡ true)
    → (r : OrderRow) × (o ≡ some r) × IsRefusing p r
refused_by_row p none h = absurd (ground (arith, h))
refused_by_row p (some r) h = (r, refl, ground (arith, h, text_eq_iff r.id p.reservation_id))

-- Nothing is done for another reservation of the user.
unfoldable pub is_alone : OrdersQueueJobPayload → List Attempt → Bool
is_alone p [] = true
is_alone p (a ∷ rest) =
    (not (text_eq (payload_of a).user_id p.user_id)
      || text_eq (payload_of a).reservation_id p.reservation_id)
    && is_alone p rest

-- Whatever is done for the refused reservation itself leaves the tables alone.
refused_work :
    (now : ℕ) (p : OrdersQueueJobPayload) (r : OrderRow) (c : CommitOutcome) (s : Stores)
    → uuid_text p.reservation_id ≡ p.reservation_id
    → find_user p.user_id s.tables.orders ≡ some r
    → IsRefusing p r
    → (persist c now p s).1.tables ≡ s.tables
unfolding persist transaction persist_work persist_existing insert_order continue
refused_work now p r c s low h refusing =
    ground (arith, h, refusing, text_eq_iff r.id p.reservation_id)

marks_nothing :
    (p : OrdersQueueJobPayload) (compensate : Step SaleDb CompensateResult) (r : OrderRow)
    (s : Stores)
    → find_user p.user_id s.tables.orders ≡ some r
    → IsRefusing p r
    → (resolve_work p compensate s).1.tables ≡ s.tables
unfolding resolve_work resolve_row mark continue
marks_nothing p compensate r s h refusing =
    ground (arith, h, refusing, text_eq_iff r.id p.reservation_id)

commits_nothing :
    {A : Type 0} (c : CommitOutcome) (work : Step Stores A) (s : Stores)
    → (work s).1.tables ≡ s.tables
    → (transaction c work s).1.tables ≡ s.tables
unfolding transaction
commits_nothing acknowledged work s h = ground (arith, h)
commits_nothing refused work s h = ground (arith, h)
commits_nothing unacknowledged work s h = ground (arith, h)

after_commit_tables :
    (compensate : Step SaleDb CompensateResult) (x : Outcome (ResolveFailedResult × Bool) × Stores)
    → (continue x (after_commit compensate)).1.tables ≡ x.1.tables
unfolding continue
after_commit_tables compensate (ok (reply, true), s) = ground arith
after_commit_tables compensate (ok (reply, false), s) = refl
after_commit_tables compensate (throw e, s) = refl

refused_attempt :
    (a : Attempt) (r : OrderRow) (s : Stores)
    → uuid_text (payload_of a).reservation_id ≡ (payload_of a).reservation_id
    → find_user (payload_of a).user_id s.tables.orders ≡ some r
    → IsRefusing (payload_of a) r
    → (attempt a s).tables ≡ s.tables
unfolding attempt resolve_failed
refused_attempt (deliver c now p) r s low h refusing = refused_work now p r c s low h refusing
refused_attempt (resolve c p compensate) r s low h refusing =
    after_commit_tables compensate (transaction c (resolve_work p compensate) s)
    ∙ commits_nothing c (resolve_work p compensate) s (marks_nothing p compensate r s h refusing)

-- The row that refuses the reservation stays, whatever is done meanwhile.
refusal_stays :
    (p : OrdersQueueJobPayload) (r : OrderRow) (todo : List Attempt) (s : Stores)
    → uuid_text p.reservation_id ≡ p.reservation_id
    → IsRefusing p r
    → is_alone p todo ≡ true
    → find_user p.user_id s.tables.orders ≡ some r
    → find_user p.user_id (attempts todo s).tables.orders ≡ some r
unfolding attempts is_alone
refusal_stays p r [] s low refusing alone h = h
refusal_stays p r (a ∷ rest) s low refusing alone h =
    refusal_stays p r rest (attempt a s) low refusing (ground (arith, alone))
      (elim (Bool-cases (text_eq (payload_of a).user_id p.user_id)) [
        | inl same ↦
            let user = (text_eq_iff (payload_of a).user_id p.user_id).0 same in
            let reservation : (payload_of a).reservation_id ≡ p.reservation_id =
              ground
                (arith, alone, same, text_eq_iff (payload_of a).reservation_id p.reservation_id) in
            rw (refused_attempt a r s (rw reservation low) (rw user h) (rw reservation refusing)) h
        | inr other ↦ Keeps-attempt p.user_id r a s (inr other) h
      ])

refused_delivery :
    (now : ℕ) (p : OrdersQueueJobPayload) (r : OrderRow) (s : Stores)
    → IsPayload p
    → IsRefusing p r
    → find_user p.user_id s.tables.orders ≡ some r
    → (persist acknowledged now p s ≡ (ok was_compensated, s))
      ⊎ (persist acknowledged now p s ≡ (throw conflict_error, s))
unfolding persist persist_work persist_existing transaction insert_order continue
refused_delivery now p r s v refusing h =
    ground (arith, payload-row_checks now p v, refusing, h, text_eq_iff r.id p.reservation_id)

-- A reservation whose failed job was resolved by a compensation is not persisted by any delivery that
-- comes after it, as long as no other reservation of the same user is delivered or resolved in between:
-- after any deliveries and resolutions of this reservation and of other users, whatever becomes of their
-- commits, a delivery replies compensated, or is refused because the user has a persisted order for
-- another reservation, and it changes neither Redis nor the tables. The reservation's identity is written
-- in lower case, as Postgres writes it, and the commits of the resolution and of that delivery are
-- acknowledged.
pub compensated_settles :
    (now : ℕ) (p : OrdersQueueJobPayload) (compensate : Step SaleDb CompensateResult)
    (r : ResolveFailedResult) (s s' : Stores) (todo : List Attempt)
    → IsPayload p
    → uuid_text p.reservation_id ≡ p.reservation_id
    → resolve_failed acknowledged p compensate s ≡ (ok r, s')
    → r ≢ was_persisted
    → is_alone p todo ≡ true
    → let after = attempts todo s' in
      (persist acknowledged now p after ≡ (ok was_compensated, after))
      ⊎ (persist acknowledged now p after ≡ (throw conflict_error, after))
compensated_settles now p compensate r s s' todo v low h new alone =
    let (row, on, refusing) =
      refused_by_row p (find_user p.user_id s'.tables.orders)
        (resolved_failed p compensate r s s' low h new) in
    refused_delivery now p row (attempts todo s') v refusing
      (refusal_stays p row todo s' low refusing alone on)
