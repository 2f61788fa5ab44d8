-- ===== src/Worker/Lifecycle.antt =====
-- `startLifecycle`, `cleanupHalfTransition` and `stopLifecycle` of
-- apps/worker/src/reconciliation/reconciliation.service.ts: the boot, the transition to a worker that
-- consumes, the cleanup of one that fails, and the attempts with their delays.
use bookipi_technical_test.Prelude.{
  ℕ, zero, suc, ◌+◌, ◌*◌, min, Bool, true, false, not, ◌&&◌, List, [], ◌∷◌, ltb, length,
  if◌then◌else◌, Outcome, ok, throw, Thrown, plain_error, aggregate_error, lifecycle_abort,
  unfinished,
}
use bookipi_technical_test.Worker.Step.{Step, fail, ensure, ◌>>=◌, ◌>>◌}
use bookipi_technical_test.Worker.Env.{WorkerEnv}
use bookipi_technical_test.Worker.Queue.{QueueApi}
use bookipi_technical_test.Worker.World.{on_queue}
use bookipi_technical_test.Worker.Lock.{session_result}
use bookipi_technical_test.Worker.Health.{
  PassResult, stop_state, fail_state, booted_state, live_state,
}
use bookipi_technical_test.Worker.Service.{
  Service, stop_now, awaited, call, change, check_signal, delay,
}
use bookipi_technical_test.Worker.Service.Consuming.{start_consumer, close_consumer}
use bookipi_technical_test.Worker.Boot.{Outside, boot_pass}
pub mod Keeps
pub mod Phases
pub mod Transition
pub mod Ready
pub mod Slept
pub mod Backoff

abbrev pub is_abort : Thrown → Bool
is_abort lifecycle_abort = true
is_abort _ = false

abbrev pub error_count : Outcome (Unit {0}) → ℕ
error_count (ok _) = 0
error_count (throw _) = 1

-- The rejections that are no planned cancellation, the signal being aborted.
unfoldable pub shutdown_errors : List (Outcome (Unit {0})) → List Thrown
shutdown_errors [] = []
shutdown_errors (ok _ ∷ results) = shutdown_errors results
shutdown_errors (throw e ∷ results) =
    let rest = shutdown_errors results in if is_abort e then rest else e ∷ rest

module _ {Q : Type 0} where
  -- `stopLifecycle`, given how the close of the consumer and the promises in flight settle.
  unfoldable pub stop_lifecycle : List (Outcome (Unit {0})) → Step (Service Q) (Unit {0})
  stop_lifecycle results s = (
    if ltb 0 (length (shutdown_errors results)) then throw aggregate_error else ok tt,
    stop_now s,
  )

  -- `isPurePlannedCancellation`
  abbrev pub is_pure_planned_cancellation : Thrown → Service Q → Bool
  is_pure_planned_cancellation e s = s.world.aborted && is_abort e

  -- `throwIfConsumerTerminated`
  abbrev pub throw_if_consumer_terminated : Step (Service Q) (Unit {0})
  throw_if_consumer_terminated s = ensure (not s.fatal) plain_error s

  -- A checkpoint, and the consumer is still running.
  abbrev pub check_running : Step (Service Q) (Unit {0})
  check_running = check_signal >> throw_if_consumer_terminated

  abbrev pub failed_health : Service Q → Service Q
  failed_health s = record s { health = fail_state s.health }

  -- The work between the acquisition of the advisory lock and its release, each a reply.
  abbrev pub release_lock : {A : Type 0} → Outcome A × Service Q → Outcome A × Service Q
  release_lock (o, s) = let (r, t) = awaited s in (session_result o (error_count r), t)

  unfoldable pub with_lock : {A : Type 0} → Step (Service Q) A → Step (Service Q) A
  with_lock work s = release_lock ((awaited >> check_signal >> work) s)

  -- Before an attempt.
  abbrev pub new_attempt : Service Q → Service Q
  new_attempt s = record s { processing_started = false; transition_cleaned = false }

module _ {Q : Type 0} (api : QueueApi Q) (env : WorkerEnv) (outside : Outside) where
  abbrev pub pause_again : Step (Service Q) (Unit {0})
  pause_again = do
    call (on_queue api.pause)
    paused ← call (on_queue api.is_paused)
    ensure paused plain_error

  abbrev pub with_errors : Thrown → ℕ → Thrown
  with_errors e errors = if ltb 0 errors then aggregate_error else e

  -- What is done first: the flags are down, the timers and the subscription are gone.
  abbrev pub disposed : Service Q → Service Q
  disposed s = record s { health = stop_state s.health; installed = false; listening = false }

  abbrev pub close_after : Thrown → Outcome (Unit {0}) × Service Q → Outcome (Unit {0}) × Service Q
  close_after e (paused, s) =
      let (closed, t) = close_consumer s in
      (throw (with_errors e (error_count paused + error_count closed)), t)

  -- `cleanupHalfTransition`, whose error is thrown.
  unfoldable pub cleanup_half_transition : Thrown → Step (Service Q) (Unit {0})
  cleanup_half_transition e s = close_after e (pause_again (disposed s))

  -- `installContinuousLifecycle`
  abbrev pub install : Step (Service Q) (Unit {0})
  install = change (λ s. record s { installed = true })

  -- The `try` of the transition: processing starts, the queue is resumed, the flags go up.
  unfoldable pub go_live : PassResult → Step (Service Q) (Unit {0})
  go_live result = do
    awaited
    check_signal
    change (λ s. record s { processing_started = true })
    start_consumer
    check_running
    (λ s. ensure s.consumer.processing_ready plain_error s)
    install
    check_running
    call (on_queue api.resume)
    check_signal
    paused ← call (on_queue api.is_paused)
    ensure (not paused) plain_error
    check_running
    awaited
    check_running
    change (λ s. record s { health = live_state result s.health })

  -- Its `catch`.
  abbrev pub half_way : Thrown → Step (Service Q) (Unit {0})
  half_way e s =
      if not s.processing_started
      then (throw e, record s { listening = false })
      else cleanup_half_transition e (record s { transition_cleaned = true })

  abbrev pub caught_transition : Outcome (Unit {0}) × Service Q → Outcome (Unit {0}) × Service Q
  caught_transition (ok _, s) = (ok tt, s)
  caught_transition (throw e, s) = half_way e s

  abbrev pub subscribe : PassResult → Step (Service Q) (Unit {0})
  subscribe result =
      change (λ s. record s { health = booted_state result s.health; listening = true })

  -- The work under the lock.
  unfoldable pub transition : Step (Service Q) (Unit {0})
  transition = do
    result ← boot_pass api env outside
    check_signal
    subscribe result
    (λ s. caught_transition (go_live result s))

  -- A failure after processing was started is final.
  abbrev pub report_final : Outcome (Unit {0}) × Service Q → Outcome (Unit {0}) × Service Q
  report_final (ok _, s) = (ok tt, s)
  report_final (throw e, s) =
      if not (is_pure_planned_cancellation e s) && s.world.aborted
      then (throw e, failed_health s)
      else (throw e, s)

  abbrev pub final_failure : Thrown → Step (Service Q) (Unit {0})
  final_failure e s =
      report_final (if s.transition_cleaned then (throw e, s) else cleanup_half_transition e s)

  abbrev pub note_delay : ℕ → Step (Service Q) (Unit {0})
  note_delay ms = change (λ s. record s { delays = ms ∷ s.delays })

  abbrev pub retry_after : ℕ → Step (Service Q) (Unit {0}) → Step (Service Q) (Unit {0})
  retry_after ms rest = change failed_health >> check_signal >> note_delay ms >> delay >> rest

  -- The `catch` of an attempt: `rest` is the attempts that follow.
  abbrev pub after_attempt :
      ℕ
      → Step (Service Q) (Unit {0})
      → Outcome (Unit {0}) × Service Q
      → Outcome (Unit {0}) × Service Q
  after_attempt ms rest (ok _, s) = (ok tt, s)
  after_attempt ms rest (throw e, s) =
      if is_pure_planned_cancellation e s
      then (throw e, s)
      else if s.processing_started
      then final_failure e s
      else if s.world.aborted
      then (throw e, failed_health s)
      else retry_after ms rest s

  -- The attempts, with the delay before the next one.
  unfoldable pub attempts : ℕ → ℕ → Step (Service Q) (Unit {0})
  attempts zero ms s = fail unfinished s
  attempts (suc fuel) ms s =
      let rest = attempts fuel (min (ms * 2) 5000) in
      if s.closing
      then (throw lifecycle_abort, s)
      else after_attempt ms rest (with_lock transition (new_attempt s))

  -- `startLifecycle`
  unfoldable pub start_lifecycle : ℕ → Step (Service Q) (Unit {0})
  start_lifecycle fuel = attempts fuel 100
