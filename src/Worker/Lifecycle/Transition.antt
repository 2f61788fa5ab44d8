-- ===== src/Worker/Lifecycle/Transition.antt =====
-- The transition of a start, and the cleanup of one that fails, through the phases.
use bookipi_technical_test.Prelude.{true, not, ◌≡◌, Outcome, ok, throw, Thrown, arith, plain_error}
use bookipi_technical_test.Worker.Step.{ensure}
use bookipi_technical_test.Worker.Env.{WorkerEnv}
use bookipi_technical_test.Worker.Queue.{QueueApi}
use bookipi_technical_test.Worker.World.{on_queue}
use bookipi_technical_test.Worker.Health.{PassResult, stop_state, booted_state, live_state}
use bookipi_technical_test.Worker.Service.{Service, awaited, call, change, check_signal}
use bookipi_technical_test.Worker.Service.Consuming.{start_consumer}
use bookipi_technical_test.Worker.Service.Keeps.{
  flags, Holds, Holds-then, Holds-bind, Holds-guard, Holds-awaited, Holds-call, Holds-check_signal,
}
use bookipi_technical_test.Worker.Boot.{Outside, boot_pass}
use bookipi_technical_test.Worker.Lifecycle.{
  pause_again, disposed, close_after, cleanup_half_transition, go_live, caught_transition,
  transition,
}
use bookipi_technical_test.Worker.Lifecycle.Keeps.{
  Holds-boot_pass, Holds-start_consumer, Holds-close_consumer,
}
use bookipi_technical_test.Worker.Lifecycle.Phases.{
  is_consistent, Waiting, Going, Live, Failed, Waiting-IsStable, Going-IsStable, Failed-IsStable,
  Ends, waiting, going, running, changing,
}

module _ {Q : Type 0} (api : QueueApi Q) (env : WorkerEnv) (outside : Outside) where
  go_live-Live :
      (result : PassResult) (s : Service Q)
      → Waiting (flags s)
      → Ends Live (go_live api env outside result s)
  unfolding go_live live_state
  go_live-Live result s h =
      waiting awaited _ s (Holds-awaited Waiting Waiting-IsStable) h (λ _ s1 h1.
        waiting check_signal _ s1 (Holds-check_signal Waiting) h1 (λ _ s2 h2.
          let s3 = record s2 { processing_started = true } in
          let h3 : Going (flags s3) = ground (arith, h2) in
          changing (λ t. record t { processing_started = true }) _ s2
            (going start_consumer _ s3 (Holds-start_consumer Going Going-IsStable) h3 (λ _ s4 h4.
              running _ s4 h4 (λ s5 c5.
                going (λ t. ensure t.consumer.processing_ready plain_error t) _ s5
                  (λ t k. Holds-guard Going _ _ t k) c5.0
                  (λ _ s6 h6.
                    changing (λ t. record t { installed = true }) _ s6
                      (running _ (record s6 { installed = true }) h6
                        (λ s7 c7.
                          going (call (on_queue api.resume)) _ s7
                            (Holds-call Going Going-IsStable (on_queue api.resume)) c7.0
                            (λ _ s8 h8.
                              going check_signal _ s8 (Holds-check_signal Going) h8 (λ _ s9 h9.
                                going (call (on_queue api.is_paused)) _ s9
                                  (Holds-call Going Going-IsStable (on_queue api.is_paused)) h9
                                  (λ paused s10 h10.
                                    going (ensure (not paused) plain_error) _ s10
                                      (Holds-guard Going (not paused) plain_error) h10
                                      (λ _ s11 h11. running _ s11 h11 (λ s12 c12.
                                        going awaited _ s12 (Holds-awaited Going Going-IsStable)
                                          c12.0
                                          (λ _ s13 h13.
                                            running
                                              (change (λ t. record t {
                                                health = live_state result t.health;
                                              }))
                                              s13 h13 (λ s14 c14. ground (arith, c14))))))))))))))))

  Holds-pausing : Holds Failed (pause_again api env outside)
  Holds-pausing =
      Holds-then Failed (call (on_queue api.pause)) _
        (Holds-call Failed Failed-IsStable (on_queue api.pause))
        (Holds-bind Failed (call (on_queue api.is_paused)) _
          (Holds-call Failed Failed-IsStable (on_queue api.is_paused))
          (λ paused. Holds-guard Failed paused plain_error))

  -- Whatever the cleanup meets, the worker is not ready after it.
  pub cleanup-Failed :
      (e : Thrown) (s : Service Q)
      → is_consistent (flags s) ≡ true
      → Ends Live (cleanup_half_transition api env outside e s)
  unfolding cleanup_half_transition stop_state
  cleanup-Failed e s h =
      closing (pause_again api env outside (disposed api env outside s))
        (Holds-pausing (disposed api env outside s) (ground (arith, h)))
    where
      closing :
          (x : Outcome (Unit {0}) × Service Q)
          → Failed (flags x.1)
          → Ends Live (close_after api env outside e x)
      closing (o, t) k = Holds-close_consumer Failed Failed-IsStable t k

  caught-Live :
      (x : Outcome (Unit {0}) × Service Q)
      → Ends Live x
      → Ends Live (caught_transition api env outside x)
  caught-Live (ok _, s) h = h
  caught-Live (throw e, s) h =
      let again = record s { transition_cleaned = true } in
      ground (arith, h, cleanup-Failed e again (ground (arith, h)))

  pub transition-Live :
      (s : Service Q) → Waiting (flags s) → Ends Live (transition api env outside s)
  unfolding transition booted_state
  transition-Live s h =
      waiting (boot_pass api env outside) _ s
        (Holds-boot_pass Waiting Waiting-IsStable api env outside) h
        (λ result s1 h1. waiting check_signal _ s1 (Holds-check_signal Waiting) h1 (λ _ s2 h2.
          let s3 = record s2 { health = booted_state result s2.health; listening = true } in
          changing (λ t. record t { health = booted_state result t.health; listening = true }) _ s2
            (caught-Live (go_live api env outside result s3)
              (go_live-Live result s3 (ground (arith, h2))))))
