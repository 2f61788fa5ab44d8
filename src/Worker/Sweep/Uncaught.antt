-- ===== src/Worker/Sweep/Uncaught.antt =====
-- A page of a sweep: what is counted of each job, and the page as it goes without the `catch`.
use bookipi_technical_test.Prelude.{
  ℕ, suc, ◌≤◌, ◌+◌, ◌≡◌, ◌⊎◌, refl, Option, none, some, List, [], ◌∷◌, arith, length, Bool-cases,
  inl, inr, Outcome, ok, throw, Bool, true, false, if◌then◌else◌, type_error,
}
use bookipi_technical_test.Shared.Queue.{OrdersQueueJobPayload}
use bookipi_technical_test.Worker.Step.{
  Step, pure, fail, continue, continue_ok, continue_by, caught, ◌>>=◌, ◌>>◌,
}
use bookipi_technical_test.Worker.Env.{WorkerEnv}
use bookipi_technical_test.Worker.Job.{
  Job, JobState, failed, classify_queue_entry, Classified, scanned, issue,
}
use bookipi_technical_test.Worker.Orders.{CommitOutcome, resolve_failed}
use bookipi_technical_test.Worker.Orders.Recovery.{store_compensate}
use bookipi_technical_test.Worker.Queue.{QueueApi}
use bookipi_technical_test.Worker.World.{World, on_queue, on_stores, checkpoint}
use bookipi_technical_test.Worker.Sweep.{
  SweepCounts, may_resolve, sweep_job, sweep_jobs, sweep_classified, count_error, count_removed,
  count_retained, resolve_job,
}

-- The jobs that a sweep has dealt with.
abbrev seen : SweepCounts → ℕ
seen n = n.retained + n.removed + n.errors

module _ {Q : Type 0} (api : QueueApi Q) (env : WorkerEnv)
    (commit : OrdersQueueJobPayload → CommitOutcome) where
  counted_resolve :
      (job : Job) (p : OrdersQueueJobPayload) (n m : SweepCounts) (st : JobState) (w w' : World Q)
      → resolve_job api env commit job p n st w ≡ (ok m, w')
      → seen m ≡ suc (seen n)
  counted_resolve job p n m st w w' h = elim (Bool-cases (may_resolve st job)) [
    | inl terminal ↦
        continue_ok (rw terminal at h)
          (λ outcome w1 _ rest. continue_ok rest (λ _ w2 _ last. ground (arith, last)))
    | inr kept ↦ ground (arith, h, kept)
  ]

  counted_caught :
      (n m : SweepCounts) (x : Outcome SweepCounts × World Q) (w' : World Q)
      → ((a : SweepCounts) (w : World Q) → x ≡ (ok a, w) → seen a ≡ suc (seen n))
      → caught x (λ e. pure (count_error n)) ≡ (ok m, w')
      → seen m ≡ suc (seen n)
  counted_caught n m (ok a, w) w' all h = ground (arith, h, all a w refl)
  counted_caught n m (throw e, w) w' all h = ground (arith, h)

  counted_classified :
      (job : Job) (n m : SweepCounts) (c : Classified) (w w' : World Q)
      → sweep_classified api env commit job n c w ≡ (ok m, w')
      → seen m ≡ suc (seen n)
  counted_classified job n m (issue _ _) w w' h = ground (arith, h)
  counted_classified job n m (scanned _ p) w w' h =
      counted_caught n m _ w'
        (λ a w1 tried. continue_ok tried (λ st w2 _ rest. counted_resolve job p n a st w2 w1 rest))
        h

  counted_job :
      (job : Option Job) (n m : SweepCounts) (w w' : World Q)
      → sweep_job api env commit job n w ≡ (ok m, w')
      → seen m ≡ suc (seen n)
  unfolding sweep_job
  counted_job none n m w w' h = continue_ok h (λ _ w1 _ rest. absurd (ground (arith, rest)))
  counted_job (some job) n m w w' h =
      continue_ok h
        (λ _ w1 _ rest. counted_classified job n m (classify_queue_entry job failed) w1 w' rest)

  -- A sweep that gets through its page has counted each job of the page once: as retained, as removed or
  -- as an error.
  pub sweep_jobs_counts :
      (page : List (Option Job)) (n m : SweepCounts) (w w' : World Q)
      → sweep_jobs api env commit page n w ≡ (ok m, w')
      → seen m ≡ seen n + length page
  unfolding sweep_jobs
  sweep_jobs_counts [] n m w w' h = ground (arith, h)
  sweep_jobs_counts (job ∷ jobs) n m w w' h = continue_ok h (λ k w1 first rest.
      omega (arith, counted_job job n k w w1 first, sweep_jobs_counts jobs k m w1 w' rest))

  -- One job of a page without the `catch`: whether it was resolved and removed.
  abbrev resolved : Job → OrdersQueueJobPayload → Step (World Q) Bool
  resolved job p = on_stores (resolve_failed (commit p) p (store_compensate p)) >>= λ outcome.
      on_queue (api.remove job) >>= λ _. pure true

  abbrev resolved_if : Bool → Job → OrdersQueueJobPayload → Step (World Q) Bool
  resolved_if false job p = pure false
  resolved_if true job p = resolved job p

  abbrev attempted : Job → Classified → Step (World Q) Bool
  attempted job (issue _ _) = pure false
  attempted job (scanned _ p) =
      on_queue (api.get_state job) >>= λ st. resolved_if (may_resolve st job) job p

  -- A page without the `catch`: how many of its jobs were removed.
  pub uncaught : List (Option Job) → Step (World Q) ℕ
  uncaught [] = pure 0
  uncaught (none ∷ jobs) = fail type_error
  uncaught (some job ∷ jobs) =
      checkpoint
      >> (attempted job (classify_queue_entry job failed) >>= λ gone.
          (uncaught jobs >>= λ n. pure (if gone then suc n else n)))

  abbrev count_of : Bool → SweepCounts → SweepCounts
  count_of gone n = if gone then count_removed n else count_retained n

  through_resolve :
      (job : Job) (p : OrdersQueueJobPayload) (n m : SweepCounts) (st : JobState) (w w' : World Q)
      → resolve_job api env commit job p n st w ≡ (ok m, w')
      → (gone : Bool) × (resolved_if (may_resolve st job) job p w ≡ (ok gone, w'))
        × (m ≡ count_of gone n)
  through_resolve job p n m st w w' h = elim (Bool-cases (may_resolve st job)) [
    | inl terminal ↦ continue_ok (rw terminal at h) (λ outcome w1 resolving rest.
        continue_ok rest (λ _ w2 removing last. (
          true,
          rw terminal (continue_by _ resolving (continue_by _ removing (ground (arith, last)))),
          ground (arith, last),
        )))
    | inr kept ↦ (false, rw kept (ground (arith, h, kept)), ground (arith, h, kept))
  ]

  -- The job went through without an error, and that is what was counted; or an error was counted.
  abbrev IsCounted : Job → Classified → SweepCounts → SweepCounts → World Q → World Q → Type 0
  IsCounted job c n m w w' =
      ((gone : Bool) × (attempted job c w ≡ (ok gone, w')) × (m ≡ count_of gone n))
      ⊎ (m ≡ count_error n)

  caught_lem :
      (job : Job) (p : OrdersQueueJobPayload) (n m : SweepCounts)
      (x : Outcome SweepCounts × World Q) (w w' : World Q)
      → ((a : SweepCounts) (w1 : World Q)
          → x ≡ (ok a, w1)
          → (gone : Bool) × (continue
                (on_queue (api.get_state job) w)
                (λ st. resolved_if (may_resolve st job) job p)
              ≡ (ok gone, w1))
            × (a ≡ count_of gone n))
      → caught x (λ e. pure (count_error n)) ≡ (ok m, w')
      → ((gone : Bool) × (continue
              (on_queue (api.get_state job) w)
              (λ st. resolved_if (may_resolve st job) job p)
            ≡ (ok gone, w'))
          × (m ≡ count_of gone n))
        ⊎ (m ≡ count_error n)
  caught_lem job p n m (ok a, w1) w w' all h =
      let (gone, tried, counted) = all a w1 refl in
      inl (gone, ground (arith, tried, h), ground (arith, counted, h))
  caught_lem job p n m (throw e, w1) w w' all h = inr (ground (arith, h))

  classified_lem :
      (job : Job) (n m : SweepCounts) (c : Classified) (w w' : World Q)
      → sweep_classified api env commit job n c w ≡ (ok m, w')
      → IsCounted job c n m w w'
  classified_lem job n m (issue _ _) w w' h = inl (false, ground (arith, h), ground (arith, h))
  classified_lem job n m (scanned _ p) w w' h =
      caught_lem job p n m _ w w'
        (λ a w1 tried. continue_ok tried (λ st w2 asked rest.
          let (gone, resolving, counted) = through_resolve job p n a st w2 w1 rest in
          (gone, continue_by _ asked resolving, counted)))
        h

  -- A job of a page, after the check of the signal, which changes nothing.
  job_lem :
      (job : Job) (n m : SweepCounts) (w w' : World Q)
      → sweep_job api env commit (some job) n w ≡ (ok m, w')
      → (checkpoint w ≡ (ok tt, w)) × IsCounted job (classify_queue_entry job failed) n m w w'
  unfolding sweep_job
  job_lem job n m w w' h = continue_ok h (λ _ w1 checked rest. (
    ground (arith, checked),
    classified_lem job n m (classify_queue_entry job failed) w w' (rw (same w1 checked) rest),
  ))
    where
      same : (w1 : World Q) → checkpoint w ≡ (ok tt, w1) → w ≡ w1
      same w1 checked = ground (arith, checked)

  errors_grow :
      (page : List (Option Job)) (n m : SweepCounts) (w w' : World Q)
      → sweep_jobs api env commit page n w ≡ (ok m, w')
      → n.errors ≤ m.errors
  unfolding sweep_jobs
  errors_grow [] n m w w' h = ground (arith, h)
  errors_grow (none ∷ jobs) n m w w' h = continue_ok h (λ k w1 first _.
      unfold sweep_job in continue_ok first (λ _ w2 _ rest. absurd (ground (arith, rest))))
  errors_grow (some job ∷ jobs) n m w w' h = continue_ok h (λ k w1 first rest.
      ground (arith, (job_lem job n k w w1 first).1, errors_grow jobs k m w1 w' rest))

  -- A page that meets no error goes as it would without the `catch`.
  pub uncaught_lem :
      (page : List (Option Job)) (n m : SweepCounts) (w w' : World Q)
      → sweep_jobs api env commit page n w ≡ (ok m, w')
      → m.errors ≡ n.errors
      → (removed : ℕ) × (uncaught page w ≡ (ok removed, w')) × (m.removed ≡ removed + n.removed)
  unfolding sweep_jobs uncaught
  uncaught_lem [] n m w w' h e = (0, ground (arith, h), ground (arith, h))
  uncaught_lem (none ∷ jobs) n m w w' h e = continue_ok h (λ k w1 first _.
      unfold sweep_job in continue_ok first (λ _ w2 _ rest. absurd (ground (arith, rest))))
  uncaught_lem (some job ∷ jobs) n m w w' h e = continue_ok h (λ k w1 first rest.
      let (checked, counted) = job_lem job n k w w1 first in
      let grow = errors_grow jobs k m w1 w' rest in
      elim counted [
        | inl (gone, tried, is_k) ↦
            let (removed, others, total) =
              uncaught_lem jobs k m w1 w' rest (ground (arith, e, is_k)) in
            (
              if gone then suc removed else removed,
              continue_by _ checked (continue_by _ tried (continue_by _ others refl)),
              ground (arith, total, is_k),
            )
        | inr is_k ↦ absurd (ground (arith, e, grow, is_k))
      ])
