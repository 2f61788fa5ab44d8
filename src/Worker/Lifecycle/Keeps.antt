-- ===== src/Worker/Lifecycle/Keeps.antt =====
-- The boot and the consumer keep what the service keeps while it awaits.
use bookipi_technical_test.Prelude.{
  ℕ, zero, suc, true, false, not, ◌==◌, List, [], ◌∷◌, Outcome, ok, throw, Thrown, plain_error,
  arith,
}
use bookipi_technical_test.Redis.Store.Methods.{SaleSnapshot}
use bookipi_technical_test.Worker.Step.{Step, pure, fail, ensure, ◌>>◌}
use bookipi_technical_test.Worker.Env.{WorkerEnv}
use bookipi_technical_test.Worker.Queue.{QueueApi}
use bookipi_technical_test.Worker.World.{on_queue}
use bookipi_technical_test.Worker.Service.{
  Service, Await, close_now, awaited, call, check_signal, delay,
}
use bookipi_technical_test.Worker.Service.Consuming.{
  prepare_resources, prepare_settled, prepare_for_bootstrap_recovery, run_reply, run_state, is_ok,
  on_consumer, consumer_open, with_cleanup, run_worker, start_processing, start_consumer,
  close_consumer,
}
use bookipi_technical_test.Worker.Service.Keeps.{
  Flags, IsStable, flags, Holds, Holds-then, Holds-bind, Holds-guard, Holds-if, Holds-happen_all,
  Holds-awaited, Holds-call, Holds-check_signal, Holds-from, Holds-delay,
}
use bookipi_technical_test.Worker.Boot.{
  Outside, drain, drain_round, initialise, create_sale, pause_queue, settle_sale, boot_sale,
  boot_pass, prepare_consumer_for_bootstrap, race_abort, run_pass,
}

module _ {Q : Type 0} (p : Flags → Type 0) (stable : IsStable p) where
  Holds-open : Holds p (consumer_open {Q = Q})
  Holds-open s h = Holds-guard p _ _ s h

  Holds-prepare_resources : Holds p (prepare_resources {Q = Q})
  Holds-prepare_resources =
      Holds-then p (on_consumer (λ c. record c { prepared = true; has_worker = true })) _ (λ s h. h)
        (Holds-then p awaited _ (Holds-awaited p stable) (
          Holds-then p consumer_open _ Holds-open
            (Holds-then p awaited _ (Holds-awaited p stable) Holds-open)))

  Holds-with_cleanup :
      (e : Thrown) (x : Outcome (Unit {0}) × Service Q)
      → p (flags x.1)
      → p (flags (with_cleanup e x).1)
  Holds-with_cleanup e (ok _, s) h = h
  Holds-with_cleanup e (throw _, s) h = h

  Holds-prepare_settled :
      (x : Outcome (Unit {0}) × Service Q) → p (flags x.1) → p (flags (prepare_settled x).1)
  Holds-prepare_settled (ok _, s) h = h
  Holds-prepare_settled (throw e, s) h =
      let closed = record s { consumer = record s.consumer { has_worker = false } } in
      let (o, t) = awaited closed in
      Holds-with_cleanup e (o, record t { consumer = record t.consumer { prepared = false } })
        (Holds-awaited p stable closed h)

  pub Holds-prepare : Holds p (prepare_for_bootstrap_recovery {Q = Q})
  unfolding prepare_for_bootstrap_recovery
  Holds-prepare s h =
      ground (arith, h, Holds-prepare_settled (prepare_resources s) (Holds-prepare_resources s h))

  Holds-run_worker : Holds p (run_worker {Q = Q})
  unfolding run_worker
  Holds-run_worker s h = replies s.awaits
    where
      replies : (waits : List Await) → p (flags (run_reply waits s).1)
      replies [] = h
      replies (a ∷ rest) =
          Holds-happen_all p stable a.happenings
            (run_state (is_ok a.reply) (record s { awaits = rest })) h

  Holds-start_processing : Holds p (start_processing {Q = Q})
  unfolding start_processing
  Holds-start_processing = Holds-then p prepare_for_bootstrap_recovery _ Holds-prepare (
      Holds-then p consumer_open _ Holds-open (
        Holds-then p (λ s. ensure s.consumer.has_worker plain_error s) _
          (λ s h. Holds-guard p _ _ s h) Holds-run_worker))

  pub Holds-start_consumer : Holds p (start_consumer {Q = Q})
  unfolding start_consumer
  Holds-start_consumer s h = ground (arith, h, Holds-start_processing s h)

  pub Holds-close_consumer : Holds p (close_consumer {Q = Q})
  unfolding close_consumer
  Holds-close_consumer s h = ground (
    arith,
    Holds-awaited p stable s h,
    Holds-awaited p stable (record s { consumer = close_now s.consumer }) h,
  )

  module _ (api : QueueApi Q) (env : WorkerEnv) (outside : Outside) where
    Holds-prepare_consumer : Holds p (prepare_consumer_for_bootstrap {Q = Q} api env outside)
    unfolding prepare_consumer_for_bootstrap
    Holds-prepare_consumer =
        Holds-from p (λ s. race_abort api env outside (prepare_for_bootstrap_recovery s))
          (λ s h. ground (arith, Holds-prepare s h))

    Holds-drain_round :
        (k : ℕ) (rest : Step (Service Q) (Unit {0}))
        → Holds p rest
        → Holds p (drain_round api env outside k rest)
    unfolding drain_round
    Holds-drain_round k rest hr = Holds-from p _ (
        Holds-bind p (call (on_queue api.get_active_count)) _
          (Holds-call p stable (on_queue api.get_active_count))
          (λ active.
            Holds-if p (active == 0) (pure tt) _ (λ s h. h)
              (Holds-if p _ (fail plain_error) _ (λ s h. h)
                (Holds-then p (delay >> check_signal) rest
                  (Holds-then p delay check_signal (Holds-delay p stable) (Holds-check_signal p))
                  hr))))

    Holds-drain : (fuel k : ℕ) → Holds p (drain api env outside fuel k)
    unfolding drain
    Holds-drain zero k = λ s h. h
    Holds-drain (suc fuel) k =
        Holds-drain_round k (drain api env outside fuel (suc k)) (Holds-drain fuel (suc k))

    Holds-create_sale : Holds p (create_sale api env outside)
    Holds-create_sale =
        Holds-bind p (call _) _ (Holds-call p stable _)
          (λ seeded. Holds-from p _ (λ s h. Holds-guard p _ _ s h))

    Holds-initialise : (snapshot : SaleSnapshot) → Holds p (initialise api env outside snapshot)
    Holds-initialise snapshot =
        Holds-if p (not snapshot.initialized) (create_sale api env outside) _ Holds-create_sale
          (Holds-guard p _ _)

    Holds-pause_queue : Holds p (pause_queue api env outside)
    unfolding pause_queue
    Holds-pause_queue = Holds-from p _ (
        Holds-then p (call (on_queue api.pause)) _ (Holds-call p stable (on_queue api.pause)) (
          Holds-from p _ (
            Holds-bind p (call (on_queue api.is_paused)) _
              (Holds-call p stable (on_queue api.is_paused))
              (λ paused. Holds-guard p paused plain_error))))

    Holds-settle_sale : Holds p (settle_sale api env outside)
    unfolding settle_sale
    Holds-settle_sale = Holds-from p _ (
        Holds-then p (call _) _ (Holds-call p stable _) (
          Holds-from p _ (
            Holds-bind p (call _) _ (Holds-call p stable _)
              (λ snapshot. Holds-from p _ (Holds-initialise snapshot)))))

    Holds-run_pass : Holds p (run_pass api env outside)
    unfolding run_pass
    Holds-run_pass = Holds-from p _ (
        Holds-bind p (call _) _ (Holds-call p stable _)
          (λ result. Holds-from p (pure result) (λ s h. h)))

    Holds-boot_sale : Holds p (boot_sale api env outside)
    unfolding boot_sale
    Holds-boot_sale = Holds-then p (settle_sale api env outside) _ Holds-settle_sale Holds-run_pass

    pub Holds-boot_pass : Holds p (boot_pass api env outside)
    unfolding boot_pass
    Holds-boot_pass = Holds-then p (pause_queue api env outside) _ Holds-pause_queue (
        Holds-from p _ (
          Holds-then p (prepare_consumer_for_bootstrap api env outside) _ Holds-prepare_consumer (
            Holds-from p _ (
              Holds-then p (drain api env outside outside.fuel 0) _ (Holds-drain outside.fuel 0)
                Holds-boot_sale))))
