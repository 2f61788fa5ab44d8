-- ===== src/Worker/Lifecycle/Slept.antt =====
-- An attempt of `startLifecycle` and the cleanup of one that fails leave the delays as they are.
use bookipi_technical_test.Prelude.{
  ℕ, true, not, ◌≡◌, List, Outcome, ok, throw, Thrown, arith, plain_error, if◌then◌else◌,
}
use bookipi_technical_test.Worker.Step.{Step, ensure, ◌>>◌}
use bookipi_technical_test.Worker.Env.{WorkerEnv}
use bookipi_technical_test.Worker.Queue.{QueueApi}
use bookipi_technical_test.Worker.World.{on_queue}
use bookipi_technical_test.Worker.Health.{PassResult, live_state}
use bookipi_technical_test.Worker.Service.{Service, awaited, call, change, check_signal}
use bookipi_technical_test.Worker.Service.Consuming.{start_consumer}
use bookipi_technical_test.Worker.Service.Keeps.{
  Flags, IsStable, flags, Holds, Holds-then, Holds-bind, Holds-guard, Holds-awaited, Holds-call,
  Holds-check_signal, Holds-from,
}
use bookipi_technical_test.Worker.Boot.{Outside, boot_pass}
use bookipi_technical_test.Worker.Lifecycle.{
  check_running, throw_if_consumer_terminated, with_lock, release_lock, new_attempt, pause_again,
  disposed, close_after, cleanup_half_transition, install, go_live, caught_transition, subscribe,
  transition, report_final, final_failure,
}
use bookipi_technical_test.Worker.Lifecycle.Keeps.{
  Holds-boot_pass, Holds-start_consumer, Holds-close_consumer,
}

-- The delays are these, whatever the flags are.
abbrev pub Slept : List ℕ → Flags → Type 0
Slept ds f = f.delays ≡ ds

pub Slept-IsStable : (ds : List ℕ) → IsStable (Slept ds)
Slept-IsStable ds = record { stop = λ f h. h; lose = λ f h. h }

module _ {Q : Type 0} (api : QueueApi Q) (env : WorkerEnv) (outside : Outside) (ds : List ℕ) where
  running-Slept :
      {A : Type 0} (m : Step (Service Q) A)
      → Holds (Slept ds) m
      → Holds (Slept ds) (check_running >> m)
  running-Slept m hm =
      Holds-then (Slept ds) check_running m
        (Holds-from (Slept ds) throw_if_consumer_terminated (λ s h. Holds-guard (Slept ds) _ _ s h))
        hm

  go_live-Slept : (result : PassResult) → Holds (Slept ds) (go_live api env outside result)
  unfolding go_live
  go_live-Slept result =
      let P = Slept ds in
      let stable = Slept-IsStable ds in
      Holds-then P awaited _ (Holds-awaited P stable) (
        Holds-from P _ (
          Holds-then P (change (λ s. record s { processing_started = true })) _ (λ s h. h)
            (Holds-then P start_consumer _ (Holds-start_consumer P stable) (
              running-Slept _ (
                Holds-then P (λ s. ensure s.consumer.processing_ready plain_error s) _
                  (λ s h. Holds-guard P _ _ s h)
                  (Holds-then P (install api env outside) _ (λ s h. h)
                    (running-Slept _ (
                      Holds-then P (call (on_queue api.resume)) _
                        (Holds-call P stable (on_queue api.resume))
                        (Holds-from P _ (
                          Holds-bind P (call (on_queue api.is_paused)) _
                            (Holds-call P stable (on_queue api.is_paused))
                            (λ paused.
                              Holds-then P (ensure (not paused) plain_error) _
                                (Holds-guard P (not paused) plain_error)
                                (running-Slept _ (
                                  Holds-then P awaited _ (Holds-awaited P stable) (
                                    running-Slept
                                      (change
                                        (λ s. record s { health = live_state result s.health }))
                                      (λ s h. h)))))))))))))))

  cleanup-Slept : (e : Thrown) → Holds (Slept ds) (cleanup_half_transition api env outside e)
  unfolding cleanup_half_transition
  cleanup-Slept e s h = closing (pause_again api env outside (disposed api env outside s)) (
      Holds-then P (call (on_queue api.pause)) _ (Holds-call P stable (on_queue api.pause))
        (Holds-bind P (call (on_queue api.is_paused)) _
          (Holds-call P stable (on_queue api.is_paused))
          (λ paused. Holds-guard P paused plain_error))
        (disposed api env outside s) h)
    where
      P : Flags → Type 0
      P = Slept ds

      stable : IsStable (Slept ds)
      stable = Slept-IsStable ds

      closing :
          (x : Outcome (Unit {0}) × Service Q)
          → Slept ds (flags x.1)
          → Slept ds (flags (close_after api env outside e x).1)
      closing (o, t) k = Holds-close_consumer (Slept ds) (Slept-IsStable ds) t k

  caught-Slept :
      (x : Outcome (Unit {0}) × Service Q)
      → Slept ds (flags x.1)
      → Slept ds (flags (caught_transition api env outside x).1)
  caught-Slept (ok _, s) h = h
  caught-Slept (throw e, s) h =
      ground (arith, h, cleanup-Slept e (record s { transition_cleaned = true }) h)

  transition-Slept : Holds (Slept ds) (transition api env outside)
  unfolding transition
  transition-Slept =
      let P = Slept ds in
      Holds-bind P (boot_pass api env outside) _
        (Holds-boot_pass P (Slept-IsStable ds) api env outside)
        (λ result. Holds-from P _ (
          Holds-then P (subscribe api env outside result) _ (λ s h. h)
            (λ s h. caught-Slept (go_live api env outside result s) (go_live-Slept result s h))))

  released-Slept :
      (x : Outcome (Unit {0}) × Service Q)
      → Slept ds (flags x.1)
      → Slept ds (flags (release_lock x).1)
  released-Slept (o, s) h = Holds-awaited (Slept ds) (Slept-IsStable ds) s h

  pub attempt-Slept :
      (s : Service Q)
      → Slept ds (flags s)
      → Slept ds (flags (with_lock (transition api env outside) (new_attempt s)).1)
  unfolding with_lock
  attempt-Slept s h =
      released-Slept ((awaited >> check_signal >> transition api env outside) (new_attempt s)) (
        Holds-then (Slept ds) (awaited >> check_signal) (transition api env outside)
          (Holds-then (Slept ds) awaited check_signal (Holds-awaited (Slept ds) (Slept-IsStable ds))
            (Holds-check_signal (Slept ds)))
          transition-Slept (new_attempt s) h)

  pub final-Slept :
      (e : Thrown) (s : Service Q)
      → Slept ds (flags s)
      → Slept ds (flags (final_failure api env outside e s).1)
  final-Slept e s h =
      reported (if s.transition_cleaned then (throw e, s) else cleanup e s)
        (ground (arith, h, cleanup-Slept e s h))
    where
      cleanup : Thrown → Step (Service Q) (Unit {0})
      cleanup = cleanup_half_transition api env outside

      reported :
          (x : Outcome (Unit {0}) × Service Q)
          → Slept ds (flags x.1)
          → Slept ds (flags (report_final api env outside x).1)
      reported (ok _, s) h = h
      reported (throw e, s) h = ground (arith, h)
