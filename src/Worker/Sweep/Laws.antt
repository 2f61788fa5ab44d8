-- ===== src/Worker/Sweep/Laws.antt =====
-- What a sweep of the failed jobs touches, counts and remembers.
use bookipi_technical_test.Prelude.{
  ℕ, ◌==◌, ◌-◌, ◌%◌, ◌+◌, ◌<◌, ◌≡◌, ◌⊎◌, Option, List, arith, length, Bool-cases, inl, inr, ok,
}
use bookipi_technical_test.Shared.Queue.{OrdersQueueJobPayload}
use bookipi_technical_test.Worker.Step.{continue_ok}
use bookipi_technical_test.Worker.Env.{WorkerEnv}
use bookipi_technical_test.Worker.Job.{
  Job, JobState, failed, classify_queue_entry, scanned, is_terminal_failed_job_eligible,
}
use bookipi_technical_test.Worker.Orders.{CommitOutcome, Stores}
use bookipi_technical_test.Worker.Queue.{QueueApi}
use bookipi_technical_test.Worker.World.{World, on_queue}
use bookipi_technical_test.Worker.Sweep.{
  SweepCounts, no_counts, may_resolve, next_offset, sweep_failed, sweep_from, finish, failed_page,
}
use bookipi_technical_test.Worker.Sweep.Uncaught.{uncaught, uncaught_lem, sweep_jobs_counts}

-- The next sweep starts inside the failed jobs that are left, or at the front.
pub next_offset_lem :
    (start size removed total : ℕ) → (next_offset start size removed total < total) ⊎ (total ≡ 0)
unfolding next_offset
next_offset_lem start size removed total = ground arith

-- The sweep resolves a job exactly where the scan of a pass finds it eligible.
pub may_resolve_iff_eligible :
    (job : Job) (st : JobState) (p : OrdersQueueJobPayload)
    → classify_queue_entry job failed ≡ scanned failed p
    → is_terminal_failed_job_eligible st job ≡ may_resolve st job
unfolding is_terminal_failed_job_eligible may_resolve classify_queue_entry
may_resolve_iff_eligible job st p h = ground arith

module _ {Q : Type 0} (api : QueueApi Q) (env : WorkerEnv)
    (commit : OrdersQueueJobPayload → CommitOutcome) where
  -- The offset of the next sweep is inside the failed jobs that are left, if there are any.
  abbrev pub IsInside : World Q → Type 0
  IsInside w = (w.failed_scan_offset < w.failed_jobs) ⊎ (w.failed_jobs ≡ 0)

  -- On a page of failed jobs that the queue gave, the sweep without the `catch` ends well and removes as
  -- many jobs as were counted, and every job of the page was counted as removed or as retained; it goes
  -- from the stores before to the stores after.
  abbrev pub IsPageSwept : SweepCounts → Stores → Stores → Type 0
  IsPageSwept n before after =
      (first : ℕ) × (last : ℕ) × (page : List (Option Job)) × (w1 : World Q) × (w2 : World Q)
      × (w3 : World Q) × (on_queue (api.get_jobs failed first last) w1 ≡ (ok page, w2))
      × (uncaught api env commit page w2 ≡ (ok n.removed, w3))
      × (n.retained + n.removed ≡ length page)
      × (w2.stores ≡ before)
      × (w3.stores ≡ after)

  finished :
      (start size : ℕ) (k n : SweepCounts) (w w' : World Q)
      → finish api env commit start size k w ≡ (ok n, w')
      → (n ≡ k) × (k.errors ≡ 0) × IsInside w'
  finished start size k n w w' h = continue_ok h (λ _ w1 _ h1. continue_ok h1 (λ total w2 _ h2.
      continue_ok h2 (λ _ w3 _ h3. continue_ok h3 (λ _ w4 jobs h4.
        continue_ok h4 (λ _ w5 offset last.
          ground (arith, jobs, offset, last, next_offset_lem start size k.removed total))))))

  read_page :
      (start : ℕ) (page : ℕ × List (Option Job)) (w w2 : World Q)
      → failed_page api env commit start w ≡ (ok page, w2)
      → (first : ℕ) × (last : ℕ) × (w1 : World Q) × (on_queue (api.get_jobs failed first last) w1
          ≡ (ok page.1, w2))
  read_page start page w w2 h =
      let count = env.worker_dlq_scan_count in
      continue_ok h (λ jobs w1 got rest. continue_ok rest (λ _ w3 checked chosen.
        elim (Bool-cases (length jobs == 0)) [
          | inl empty ↦ continue_ok (rw empty at chosen) (λ front w4 again last.
              continue_ok last
                (λ _ w5 check ends. (0, count - 1, w3, ground (arith, again, check, ends))))
          | inr some_left ↦
              (start, start + count - 1, w, ground (arith, got, checked, rw some_left at chosen))
        ]))

  finish_stores :
      (start size : ℕ) (k n : SweepCounts) (w w' : World Q)
      → finish api env commit start size k w ≡ (ok n, w')
      → w.stores ≡ w'.stores
  finish_stores start size k n w w' h = continue_ok h (λ _ w1 h0 h1.
      continue_ok h1 (λ total w2 got h2. continue_ok h2 (λ _ w3 checked h3.
        continue_ok h3 (λ _ w4 jobs h4.
          continue_ok h4
            (λ _ w5 offset last. ground (arith, h0, got, checked, jobs, offset, last))))))

  page_stores :
      (start : ℕ) (page : ℕ × List (Option Job)) (w w2 : World Q)
      → failed_page api env commit start w ≡ (ok page, w2)
      → w2.stores ≡ w.stores
  page_stores start page w w2 h = continue_ok h (λ jobs w1 got rest.
      continue_ok rest (λ _ w3 checked chosen. elim (Bool-cases (length jobs == 0)) [
        | inl empty ↦ continue_ok (rw empty at chosen) (λ front w4 again last.
            continue_ok last (λ _ w5 check ends. ground (arith, got, checked, again, check, ends)))
        | inr some_left ↦ ground (arith, got, checked, rw some_left at chosen)
      ]))

  swept :
      (total : ℕ) (n : SweepCounts) (w w' : World Q)
      → sweep_from api env commit total w ≡ (ok n, w')
      → IsInside w'
        × (((n ≡ no_counts) × (w'.stores ≡ w.stores)) ⊎ IsPageSwept n w.stores w'.stores)
  swept total n w w' h = elim (Bool-cases (total == 0)) [
    | inl empty ↦ continue_ok (rw empty at h) (λ _ w1 offset rest.
        continue_ok rest (λ _ w2 jobs last.
          (ground (arith, offset, jobs, last), inl (ground (arith, offset, jobs, last)))))
    | inr some_left ↦ continue_ok (rw some_left at h) (λ page w1 reading rest.
        continue_ok rest (λ k w2 sweeping last.
          let (same, none_failed, inside) = finished page.0 (length page.1) k n w2 w' last in
          let (first, stop, w0, got) = read_page (w.failed_scan_offset % total) page w w1 reading in
          let (removed, through, counted) =
            uncaught_lem api env commit page.1 no_counts k w1 w2 sweeping none_failed in
          (
            inside,
            inr (
              first,
              stop,
              page.1,
              w0,
              w1,
              w2,
              got,
              ground (arith, through, counted, same),
              ground (
                arith,
                same,
                none_failed,
                sweep_jobs_counts api env commit page.1 no_counts k w1 w2 sweeping,
              ),
              page_stores (w.failed_scan_offset % total) page w w1 reading,
              finish_stores page.0 (length page.1) k n w2 w' last,
            ),
          )))
  ]

  -- A sweep that ends well remembers a place inside the failed jobs that are left, if any are, for the
  -- next sweep to start at. And it met no error: either there was no failed job, nothing is counted and
  -- the stores are as they were; or it took a page of failed jobs that the queue gave, on which the sweep
  -- without its `catch` ends well, removes as many jobs as were counted and leads to the same stores, and
  -- every job of the page was counted as removed or as retained.
  pub sweep_failed_lem :
      (n : SweepCounts) (w w' : World Q)
      → sweep_failed api env commit w ≡ (ok n, w')
      → IsInside w'
        × (((n ≡ no_counts) × (w'.stores ≡ w.stores)) ⊎ IsPageSwept n w.stores w'.stores)
  unfolding sweep_failed
  sweep_failed_lem n w w' h = continue_ok h (λ _ w1 h0 h1. continue_ok h1 (λ total w2 got h2.
      continue_ok h2 (λ _ w3 checked last.
        let untouched : w3.stores ≡ w.stores = ground (arith, h0, got, checked) in
        let (inside, done) = swept total n w3 w' last in (inside, rw untouched at done))))
