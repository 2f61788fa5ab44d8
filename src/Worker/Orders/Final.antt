-- ===== src/Worker/Orders/Final.antt =====
-- Every sequence of deliveries and resolutions of failed jobs, whatever becomes of their commits.
use bookipi_technical_test.Prelude.{
  ℕ, ◌≡◌, Bool, true, false, Option, none, some, List, [], ◌∷◌, arith, plain_error, ◌==◌, Outcome,
  ok, throw, Thrown, ◌⊎◌, inl, inr,
}
use bookipi_technical_test.Text.{Text, text_eq}
use bookipi_technical_test.Shared.Queue.{OrdersQueueJobPayload}
use bookipi_technical_test.Redis.Db.{SaleDb}
use bookipi_technical_test.Redis.Store.Methods.{CompensateResult}
use bookipi_technical_test.Worker.Step.{Step, ensure, ◌>>◌, continue}
use bookipi_technical_test.Worker.Postgres.{
  OrderRow, DurableOrderStatus, find_user, persisted, compensated, insert_order, update_marker,
}
use bookipi_technical_test.Worker.Postgres.Laws.{
  insert_order_keeps, update_marker_keeps, update_marker_other,
}
use bookipi_technical_test.Worker.Orders.{
  Stores, CommitOutcome, acknowledged, refused, unacknowledged, committed, persist, persist_work,
  persist_existing, promote, transaction, mark, resolve_failed, resolve_work, resolve_row, on_redis,
  same_reservation, statement, select_user, ledger, after_commit, persisted_row, compensated_row,
}

-- The delivery of a job or the resolution of a failed one, with what its client sees of the commit.
pub data Attempt : Type 0 where
  deliver : CommitOutcome → ℕ → OrdersQueueJobPayload → Attempt
  resolve : CommitOutcome → OrdersQueueJobPayload → Step SaleDb CompensateResult → Attempt

abbrev pub payload_of : Attempt → OrdersQueueJobPayload
payload_of (deliver c now p) = p
payload_of (resolve c p compensate) = p

unfoldable pub attempt : Attempt → Stores → Stores
attempt (deliver c now p) s = (persist c now p s).1
attempt (resolve c p compensate) s = (resolve_failed c p compensate s).1

unfoldable pub attempts : List Attempt → Stores → Stores
attempts [] s = s
attempts (a ∷ rest) s = attempts rest (attempt a s)

module _ (u : Text) (r : OrderRow) where
  -- What is done for this user leaves the row alone: it is final, or another user's.
  abbrev IsSafe : Text → Type 0
  IsSafe user = (r.status ≡ persisted) ⊎ (text_eq user u ≡ false)

  abbrev IsKept : Stores → Type 0
  IsKept s = find_user u s.tables.orders ≡ some r

  abbrev Keeps : {A : Type 0} → Step Stores A → Type 0
  Keeps m = (s : Stores) → IsKept s → IsKept (m s).1

  Keeps-continue :
      {A B : Type 0} (x : Outcome A × Stores) (f : A → Step Stores B)
      → IsKept x.1
      → ((a : A) → Keeps (f a))
      → IsKept (continue x f).1
  unfolding continue
  Keeps-continue (ok a, s) f h kf = kf a s h
  Keeps-continue (throw e, s) f h kf = h

  Keeps-insert :
      (or_nothing : Bool) (row : OrderRow) → Keeps (statement (insert_order or_nothing row))
  Keeps-insert or_nothing row s h = ground (arith, insert_order_keeps or_nothing row s.tables u r h)

  Keeps-update :
      (current : Text) (row : OrderRow)
      → IsSafe row.user_id
      → Keeps (statement (update_marker current row))
  Keeps-update current row (inl final) s h =
      ground (arith, update_marker_keeps current row s.tables u r h final)
  Keeps-update current row (inr other) s h =
      ground (arith, update_marker_other current row s.tables u (some r) h other)

  Keeps-ensure : (b : Bool) (e : Thrown) → Keeps (ensure b e)
  Keeps-ensure true e s h = h
  Keeps-ensure false e s h = h

  Keeps-bind :
      {A B : Type 0} (m : Step Stores A) (f : A → Step Stores B)
      → Keeps m
      → ((a : A) → Keeps (f a))
      → Keeps (λ s. continue (m s) f)
  Keeps-bind m f km kf s h = Keeps-continue (m s) f (km s h) kf

  Keeps-check :
      {B : Type 0} (b : Bool) (e : Thrown) (m : Step Stores B) → Keeps m → Keeps (ensure b e >> m)
  Keeps-check b e m km = Keeps-bind (ensure b e) (λ _. m) (Keeps-ensure b e) (λ _. km)

  Keeps-promote :
      (now : ℕ) (p : OrdersQueueJobPayload) (current : OrderRow)
      → IsSafe p.user_id
      → Keeps (promote now p current)
  unfolding promote
  Keeps-promote now p current safe =
      Keeps-bind (ledger p) _ (λ s h. h)
        (λ entry. Keeps-check _ _ _ (
          Keeps-bind (statement (update_marker current.id (persisted_row now p))) _
            (Keeps-update current.id (persisted_row now p) safe)
            (λ count. Keeps-check _ _ _ (λ s h. h))))

  Keeps-existing :
      (now : ℕ) (p : OrdersQueueJobPayload) (o : Option OrderRow)
      → IsSafe p.user_id
      → Keeps (persist_existing now p o)
  unfolding persist_existing
  Keeps-existing now p none safe s h = h
  Keeps-existing now p (some current) safe s h =
      ground (arith, Keeps-promote now p current safe s h)

  Keeps-persist_work :
      (now : ℕ) (p : OrdersQueueJobPayload) → IsSafe p.user_id → Keeps (persist_work now p)
  unfolding persist_work
  Keeps-persist_work now p safe =
      Keeps-bind (statement (insert_order true (persisted_row now p))) _
        (Keeps-insert true (persisted_row now p))
        (λ count s h. ground (
          arith,
          Keeps-bind (select_user p.user_id) (persist_existing now p) (λ _ k. k)
              (λ o. Keeps-existing now p o safe) s h,
        ))

  Keeps-mark :
      (p : OrdersQueueJobPayload) (o : Option OrderRow) → IsSafe p.user_id → Keeps (mark p o)
  unfolding mark
  Keeps-mark p none safe s h =
      Keeps-bind (statement (insert_order false (compensated_row p))) _
        (Keeps-insert false (compensated_row p)) (λ _ s h. h) s h
  Keeps-mark p (some current) safe s h = ground (
    arith,
    Keeps-bind (statement (update_marker current.id (compensated_row p)))
        (λ count. ensure (count == 1) plain_error)
        (Keeps-update current.id (compensated_row p) safe)
        (λ count. Keeps-ensure (count == 1) plain_error) s h,
  )

  Keeps-resolve_row :
      (p : OrdersQueueJobPayload) (compensate : Step SaleDb CompensateResult) (o : Option OrderRow)
      (st : Option DurableOrderStatus)
      → IsSafe p.user_id
      → Keeps (resolve_row p compensate o st)
  unfolding resolve_row
  Keeps-resolve_row p compensate o (some persisted) safe s h = h
  Keeps-resolve_row p compensate o (some compensated) safe s h = h
  Keeps-resolve_row p compensate o none safe s h =
      Keeps-bind (on_redis compensate) _ (λ _ k. k)
        (λ result. Keeps-bind (mark p o) _ (Keeps-mark p o safe) (λ _ s h. h)) s h

  Keeps-after :
      (compensate : Step SaleDb CompensateResult) (reply : _)
      → Keeps (after_commit compensate reply)
  Keeps-after compensate (reply, true) s h =
      Keeps-bind (on_redis compensate) _ (λ _ k. k) (λ _ s h. h) s h
  Keeps-after compensate (reply, false) s h = h

  Keeps-committed :
      {A : Type 0} (c : CommitOutcome) (s : Stores) (x : Outcome A × Stores)
      → IsKept s
      → IsKept x.1
      → IsKept (committed c s x).1
  Keeps-committed acknowledged s (ok a, s') h k = k
  Keeps-committed refused s (ok a, s') h k = h
  Keeps-committed unacknowledged s (ok a, s') h k = k
  Keeps-committed c s (throw e, s') h k = h

  Keeps-transaction :
      {A : Type 0} (c : CommitOutcome) (work : Step Stores A)
      → Keeps work
      → Keeps (transaction c work)
  unfolding transaction
  Keeps-transaction c work kw s h = Keeps-committed c s (work s) h (kw s h)

  pub Keeps-attempt :
      (a : Attempt) (s : Stores) → IsSafe (payload_of a).user_id → IsKept s → IsKept (attempt a s)
  unfolding attempt persist resolve_failed resolve_work
  Keeps-attempt (deliver c now p) s safe h =
      Keeps-transaction c (persist_work now p) (Keeps-persist_work now p safe) s h
  Keeps-attempt (resolve c p compensate) s safe h =
      Keeps-bind (transaction c (resolve_work p compensate)) (after_commit compensate)
        (Keeps-transaction c (resolve_work p compensate) (
          Keeps-bind (select_user p.user_id) _ (λ _ k. k)
            (λ o. Keeps-resolve_row p compensate o (same_reservation p o) safe)))
        (Keeps-after compensate) s h

-- A persisted order is final: no sequence of deliveries and resolutions of failed jobs, of whatever
-- payloads, compensations and commits that fail or are not acknowledged, changes the row of a user
-- that says persisted.
pub persisted_order_final :
    (u : Text) (r : OrderRow) (todo : List Attempt) (s : Stores)
    → r.status ≡ persisted
    → find_user u s.tables.orders ≡ some r
    → find_user u (attempts todo s).tables.orders ≡ some r
unfolding attempts
persisted_order_final u r [] s final h = h
persisted_order_final u r (a ∷ rest) s final h =
    persisted_order_final u r rest (attempt a s) final (Keeps-attempt u r a s (inl final) h)
