-- ===== src/Worker/Lifecycle/Ready.antt =====
-- When the worker is ready after a start: the flags of the service through the boot, the transition and
-- the attempts, whatever happens at each await.
use bookipi_technical_test.Prelude.{
  ℕ, zero, suc, ◌*◌, min, Bool, true, false, not, ◌&&◌, ◌||◌, ◌≡◌, ◌⊎◌, inl, inr, refl, Outcome, ok,
  throw, Thrown, arith,
}
use bookipi_technical_test.Worker.Step.{Step, continue, ◌>>◌}
use bookipi_technical_test.Worker.Env.{WorkerEnv}
use bookipi_technical_test.Worker.Queue.{QueueApi}
use bookipi_technical_test.Worker.Health.{fail_state}
use bookipi_technical_test.Worker.Service.{Service, awaited, change, check_signal, delay}
use bookipi_technical_test.Worker.Service.Consuming.{is_ok}
use bookipi_technical_test.Worker.Service.Keeps.{
  flags, Holds, Holds-then, Holds-awaited, Holds-check_signal, Holds-delay,
}
use bookipi_technical_test.Worker.Boot.{Outside}
use bookipi_technical_test.Worker.Lifecycle.{
  is_abort, with_lock, release_lock, new_attempt, cleanup_half_transition, transition, report_final,
  final_failure, retry_after, note_delay, after_attempt, attempts, start_lifecycle, failed_health,
}
use bookipi_technical_test.Worker.Lifecycle.Phases.{
  Waiting, Live, Failed, Waiting-IsStable, Live-IsStable, Failed-IsStable, Ends, Ends-bind,
  Ends-same, waiting,
}
use bookipi_technical_test.Worker.Lifecycle.Transition.{cleanup-Failed, transition-Live}

module _ {Q : Type 0} (api : QueueApi Q) (env : WorkerEnv) (outside : Outside) where
  locked-Live :
      (s : Service Q)
      → Waiting (flags s)
      → Ends Live ((awaited >> check_signal >> transition api env outside) s)
  locked-Live s h =
      waiting (awaited >> check_signal) (λ _. transition api env outside) s
        (Holds-then Waiting awaited check_signal (Holds-awaited Waiting Waiting-IsStable)
          (Holds-check_signal Waiting))
        h (λ _ t k. transition-Live api env outside t k)

  -- An attempt ends with the flags up, fails with them down, or cannot release the lock in the end.
  abbrev Attempted : Outcome (Unit {0}) × Service Q → Type 0
  Attempted (ok _, s) = Live (flags s)
  Attempted (throw e, s) = Failed (flags s) ⊎ ((is_abort e ≡ false) × Live (flags s))

  released-Attempted :
      (x : Outcome (Unit {0}) × Service Q) → Ends Live x → Attempted (release_lock x)
  released-Attempted (ok _, s) h = ground (arith, Holds-awaited Live Live-IsStable s h)
  released-Attempted (throw e, s) h = ground (arith, Holds-awaited Failed Failed-IsStable s h)

  attempt-Attempted :
      (s : Service Q)
      → Failed (flags s)
      → Attempted (with_lock (transition api env outside) (new_attempt s))
  unfolding with_lock
  attempt-Attempted s h =
      released-Attempted ((awaited >> check_signal >> transition api env outside) (new_attempt s))
        (locked-Live (new_attempt s) (ground (arith, h)))

  reported-Live :
      (x : Outcome (Unit {0}) × Service Q)
      → Ends Live x
      → Ends Live (report_final api env outside x)
  unfolding fail_state
  reported-Live (ok _, s) h = h
  reported-Live (throw e, s) h = ground (arith, h)

  cleaned_up :
      (e : Thrown) (s : Service Q)
      → Failed (flags s) ⊎ Live (flags s)
      → Ends Live (final_failure api env outside e s)
  cleaned_up e s h = by_flag s.transition_cleaned refl
    where
      by_flag :
          (b : Bool) → s.transition_cleaned ≡ b → Ends Live (final_failure api env outside e s)
      by_flag true c = ground (arith, h, c, reported-Live (throw e, s))
      by_flag false c = ground (
        arith,
        c,
        reported-Live (cleanup_half_transition api env outside e s)
            (cleanup-Failed api env outside e s (ground (arith, h))),
      )

  failing :
      (m : Step (Service Q) (Unit {0})) (f : Step (Service Q) (Unit {0})) (s : Service Q)
      → Holds Failed m
      → Failed (flags s)
      → ((t : Service Q) → Failed (flags t) → Ends Live (f t))
      → Ends Live (continue (m s) (λ _. f))
  failing m f s hm h k =
      Ends-bind Failed (m s) (λ _. f) (Ends-same Failed (m s) (λ _ d. d) (hm s h)) (λ _ t d. k t d)

  before_retry : (ms : ℕ) → Step (Service Q) (Unit {0})
  before_retry ms = change failed_health >> check_signal >> note_delay api env outside ms >> delay

  Holds-before_retry : (ms : ℕ) → Holds Failed (before_retry ms)
  unfolding before_retry fail_state
  Holds-before_retry ms =
      Holds-then Failed (change failed_health >> check_signal >> note_delay api env outside ms)
        delay
        (Holds-then Failed (change failed_health >> check_signal) (note_delay api env outside ms)
          (Holds-then Failed (change failed_health) check_signal (λ s h. h)
            (Holds-check_signal Failed))
          (λ s h. h))
        (Holds-delay Failed Failed-IsStable)

  retried :
      (ms : ℕ) (rest : Step (Service Q) (Unit {0})) (s : Service Q)
      → Failed (flags s)
      → ((t : Service Q) → Failed (flags t) → Ends Live (rest t))
      → Ends Live (retry_after api env outside ms rest s)
  unfolding before_retry
  retried ms rest s h k = failing (before_retry ms) rest s (Holds-before_retry ms) h k

  after_attempt-Live :
      (ms : ℕ) (rest : Step (Service Q) (Unit {0})) (x : Outcome (Unit {0}) × Service Q)
      → ((t : Service Q) → Failed (flags t) → Ends Live (rest t))
      → Attempted x
      → Ends Live (after_attempt api env outside ms rest x)
  unfolding fail_state
  after_attempt-Live ms rest (ok _, s) k h = h
  after_attempt-Live ms rest (throw e, s) k (inl d) =
      ground (arith, d, cleaned_up e s (inl d), retried ms rest s d k)
  after_attempt-Live ms rest (throw e, s) k (inr (a, l)) =
      ground (arith, a, l, cleaned_up e s (inr l))

  attempts-Live :
      (fuel ms : ℕ) (s : Service Q)
      → Failed (flags s)
      → Ends Live (attempts api env outside fuel ms s)
  unfolding attempts
  attempts-Live zero ms s h = h
  attempts-Live (suc fuel) ms s h = ground (
    arith,
    h,
    after_attempt-Live ms (attempts api env outside fuel (min (ms * 2) 5000))
        (with_lock (transition api env outside) (new_attempt s))
        (attempts-Live fuel (min (ms * 2) 5000)) (attempt-Attempted s h),
  )

  -- A start leaves the worker ready exactly if it returned and neither a stop nor the end of the
  -- consumer's run loop has come: whatever fails, at whatever await and in whatever order, a start that
  -- throws leaves it not ready. The service was not ready before.
  pub start_lifecycle_ready :
      (fuel : ℕ) (s s' : Service Q) (o : Outcome (Unit {0}))
      → Failed (flags s)
      → start_lifecycle api env outside fuel s ≡ (o, s')
      → (s'.health.bootstrap_reconciled && s'.health.consumer_ready)
        ≡ (is_ok o && not (s'.closing || s'.fatal))
  unfolding start_lifecycle
  start_lifecycle_ready fuel s s' o h r = ground (arith, r, attempts-Live fuel 100 s h)
