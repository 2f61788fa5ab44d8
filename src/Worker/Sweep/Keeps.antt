-- ===== src/Worker/Sweep/Keeps.antt =====
-- What a sweep of the failed jobs keeps: whatever the compensations keep.
use bookipi_technical_test.Prelude.{
  ℕ, ◌≡◌, ◌⊎◌, inl, inr, not, Option, none, some, List, [], ◌∷◌, ltb, ◌==◌, length, arith, Outcome,
  ok, throw,
}
use bookipi_technical_test.Shared.Queue.{OrdersQueueJobPayload}
use bookipi_technical_test.Redis.Hash.{Hash}
use bookipi_technical_test.Redis.Db.{SaleDb}
use bookipi_technical_test.Redis.Store.Entry.{ReservationEntry}
use bookipi_technical_test.Redis.Store.Methods.{CompensateResult}
use bookipi_technical_test.Worker.Step.{Step, pure, caught, continue}
use bookipi_technical_test.Worker.Env.{WorkerEnv}
use bookipi_technical_test.Worker.Job.{Job, JobState, failed, Classified, scanned, issue}
use bookipi_technical_test.Worker.Orders.{
  Stores, CommitOutcome, resolve_failed, resolve_work, resolve_row, transaction, mark,
}
use bookipi_technical_test.Worker.Orders.Recovery.{store_compensate}
use bookipi_technical_test.Worker.Queue.{QueueApi}
use bookipi_technical_test.Worker.World.{World, on_queue, on_stores}
use bookipi_technical_test.Worker.Keeps.{Keeps, Keeps-bind, Keeps-from, Keeps-if}
use bookipi_technical_test.Worker.Sweep.{
  SweepCounts, may_resolve, resolve_and_remove, resolve_job, sweep_classified, sweep_job,
  sweep_jobs, failed_page, finish, sweep_from, sweep_failed, set_offset, set_failed_jobs,
  count_error,
}

-- The resolution of a failed job leaves Redis as it was, or as the compensation leaves it.
resolved_db :
    (o : CommitOutcome) (p : OrdersQueueJobPayload) (c : Step SaleDb CompensateResult) (s : Stores)
    → ((resolve_failed o p c s).1.db ≡ s.db) ⊎ ((resolve_failed o p c s).1.db ≡ (c s.db).1)
unfolding resolve_failed resolve_work resolve_row transaction mark continue
resolved_db o p c s = ground arith

module _ {Q : Type 0} (P : SaleDb → Hash ReservationEntry → Type 0)
    (closed : (p : OrdersQueueJobPayload) (db : SaleDb) (ledger : Hash ReservationEntry)
      → P db ledger
      → P (store_compensate p db).1 ledger)
    (api : QueueApi Q) (env : WorkerEnv) (commit : OrdersQueueJobPayload → CommitOutcome) where
  Keeps-resolve_failed :
      (p : OrdersQueueJobPayload)
      → Keeps {Q = Q} P (on_stores (resolve_failed (commit p) p (store_compensate p)))
  Keeps-resolve_failed p w h = elim (resolved_db (commit p) p (store_compensate p) w.stores) [
    | inl same ↦ rw same h
    | inr done ↦ rw done (closed p w.stores.db w.ledger_by_user h)
  ]

  Keeps-resolve_and_remove :
      (job : Job) (p : OrdersQueueJobPayload) (n : SweepCounts)
      → Keeps P (resolve_and_remove api env commit job p n)
  Keeps-resolve_and_remove job p n =
      Keeps-bind P (on_stores (resolve_failed (commit p) p (store_compensate p))) _
        (Keeps-resolve_failed p)
        (λ _. Keeps-bind P (on_queue (api.remove job)) _ (λ _ h. h) (λ _ _ h. h))

  Keeps-resolve_job :
      (job : Job) (p : OrdersQueueJobPayload) (n : SweepCounts) (st : JobState)
      → Keeps P (resolve_job api env commit job p n st)
  Keeps-resolve_job job p n st =
      Keeps-if P (not (may_resolve st job)) _ _ (λ _ h. h) (Keeps-resolve_and_remove job p n)

  Keeps-caught :
      (n : SweepCounts) (x : Outcome SweepCounts × World Q)
      → P x.1.stores.db x.1.ledger_by_user
      → P
          (caught x (λ e. pure (count_error n))).1.stores.db
          (caught x (λ e. pure (count_error n))).1.ledger_by_user
  Keeps-caught n (ok a, w) h = h
  Keeps-caught n (throw e, w) h = h

  Keeps-classified :
      (job : Job) (n : SweepCounts) (c : Classified)
      → Keeps P (sweep_classified api env commit job n c)
  Keeps-classified job n (issue _ _) = λ w h. h
  Keeps-classified job n (scanned _ p) = λ w h.
      Keeps-caught n _
        (Keeps-bind P (on_queue (api.get_state job)) _ (λ _ k. k) (Keeps-resolve_job job p n) w h)

  Keeps-sweep_job : (job : Option Job) (n : SweepCounts) → Keeps P (sweep_job api env commit job n)
  unfolding sweep_job
  Keeps-sweep_job none n = Keeps-from P _ (λ _ h. h)
  Keeps-sweep_job (some job) n = Keeps-from P _ (Keeps-classified job n _)

  Keeps-sweep_jobs :
      (jobs : List (Option Job)) (n : SweepCounts) → Keeps P (sweep_jobs api env commit jobs n)
  unfolding sweep_jobs
  Keeps-sweep_jobs [] n = λ w h. h
  Keeps-sweep_jobs (job ∷ jobs) n =
      Keeps-bind P (sweep_job api env commit job n) _ (Keeps-sweep_job job n)
        (λ m. Keeps-sweep_jobs jobs m)

  Keeps-finish : (start size : ℕ) (n : SweepCounts) → Keeps P (finish api env commit start size n)
  Keeps-finish start size n = Keeps-from P _ (
      Keeps-bind P (on_queue api.get_failed_count) _ (λ _ h. h)
        (λ total. Keeps-from P _ (
          Keeps-bind P (set_failed_jobs total) _ (λ _ h. h)
            (λ _.
              Keeps-bind P (set_offset _) _ (λ _ h. h)
                (λ _. Keeps-if P (ltb 0 n.errors) _ _ (λ _ h. h) (λ _ h. h))))))

  Keeps-failed_page : (start : ℕ) → Keeps P (failed_page api env commit start)
  Keeps-failed_page start =
      Keeps-bind P (on_queue (api.get_jobs failed start _)) _ (λ _ h. h)
        (λ page. Keeps-from P _ (
          Keeps-if P _ _ _
            (Keeps-bind P (on_queue (api.get_jobs failed 0 _)) _ (λ _ h. h)
              (λ first. Keeps-from P _ (λ _ h. h)))
            (λ _ h. h)))

  Keeps-sweep_from : (total : ℕ) → Keeps P (sweep_from api env commit total)
  Keeps-sweep_from total w =
      Keeps-if P (total == 0) _ _
        (Keeps-bind P (set_offset 0) _ (λ _ h. h)
          (λ _. Keeps-bind P (set_failed_jobs 0) _ (λ _ h. h) (λ _ _ h. h)))
        (Keeps-bind P (failed_page api env commit _) _ (Keeps-failed_page _) (λ page.
          Keeps-bind P (sweep_jobs api env commit page.1 _) _ (Keeps-sweep_jobs page.1 _)
            (λ n. Keeps-finish page.0 (length page.1) n)))
        w

  pub Keeps-sweep_failed : Keeps P (sweep_failed api env commit)
  unfolding sweep_failed
  Keeps-sweep_failed = Keeps-from P _ (
      Keeps-bind P (on_queue api.get_failed_count) _ (λ _ h. h)
        (λ total. Keeps-from P _ (Keeps-sweep_from total)))
