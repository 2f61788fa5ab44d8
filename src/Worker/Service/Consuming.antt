-- ===== src/Worker/Service/Consuming.antt =====
-- `prepareForBootstrapRecovery`, `start` and `close` of apps/worker/src/orders/orders.consumer.ts. What
-- the BullMQ worker, its events and the two Redis clients reply is what the awaits bring.
use bookipi_technical_test.Prelude.{
  Bool, true, false, not, ◌||◌, List, [], ◌∷◌, none, some, if◌then◌else◌, Outcome, ok, throw,
  Thrown, plain_error, aggregate_error,
}
use bookipi_technical_test.Worker.Step.{Step, ensure, ◌>>◌}
use bookipi_technical_test.Worker.Service.{
  Consumer, Service, Await, close_now, awaited, happen_all, change,
}

abbrev pub is_ok : Outcome (Unit {0}) → Bool
is_ok (ok _) = true
is_ok (throw _) = false

module _ {Q : Type 0} where
  abbrev pub on_consumer : (Consumer → Consumer) → Step (Service Q) (Unit {0})
  on_consumer f = change (λ s. record s { consumer = f s.consumer })

  abbrev pub consumer_open : Step (Service Q) (Unit {0})
  consumer_open s = ensure (not s.consumer.closing) plain_error s

  -- `prepareResources`
  abbrev pub prepare_resources : Step (Service Q) (Unit {0})
  prepare_resources = do
    on_consumer (λ c. record c { prepared = true; has_worker = true })
    awaited
    consumer_open
    awaited
    consumer_open

  -- The error itself, or one that holds the errors of the cleanup too.
  abbrev pub with_cleanup : Thrown → Outcome (Unit {0}) × Service Q → Outcome (Unit {0}) × Service Q
  with_cleanup e (ok _, s) = (throw e, s)
  with_cleanup e (throw _, s) = (throw aggregate_error, s)

  -- The `catch` of the preparation: the resources are closed and may be prepared again.
  abbrev pub forget_preparation : Thrown → Step (Service Q) (Unit {0})
  forget_preparation e s =
      let (o, t) = awaited (record s { consumer = record s.consumer { has_worker = false } }) in
      with_cleanup e (o, record t { consumer = record t.consumer { prepared = false } })

  abbrev pub prepare_settled : Outcome (Unit {0}) × Service Q → Outcome (Unit {0}) × Service Q
  prepare_settled (ok _, s) = (ok tt, s)
  prepare_settled (throw e, s) = forget_preparation e s

  unfoldable pub prepare_for_bootstrap_recovery : Step (Service Q) (Unit {0})
  prepare_for_bootstrap_recovery s =
      if s.consumer.prepared
      then (ok tt, s)
      else if s.consumer.closing
      then (throw plain_error, s)
      else prepare_settled (prepare_resources s)

  abbrev pub run_state : Bool → Service Q → Service Q
  run_state is_running s = record s {
    consumer = record s.consumer {
      running = true;
      processing_ready = is_running || s.consumer.processing_ready;
    };
  }

  abbrev pub run_reply : List Await → Service Q → Outcome (Unit {0}) × Service Q
  run_reply [] s = (ok tt, run_state true s)
  run_reply (a ∷ rest) s =
      (a.reply, happen_all a.happenings (run_state (is_ok a.reply) (record s { awaits = rest })))

  -- `worker.run()`, and what `worker.isRunning()` says at once: an error stands for `false`.
  unfoldable pub run_worker : Step (Service Q) (Unit {0})
  run_worker s = run_reply s.awaits s

  -- `startProcessing`
  unfoldable pub start_processing : Step (Service Q) (Unit {0})
  start_processing = do
    prepare_for_bootstrap_recovery
    consumer_open
    (λ s. ensure s.consumer.has_worker plain_error s)
    run_worker

  abbrev pub remember_start : Outcome (Unit {0}) × Service Q → Outcome (Unit {0}) × Service Q
  remember_start (o, s) = (o, record s { consumer = record s.consumer { start_promise = some o } })

  unfoldable pub start_consumer : Step (Service Q) (Unit {0})
  start_consumer s = elim s.consumer.start_promise [
    | some o ↦ (o, s)
    | none ↦ remember_start (start_processing s)
  ]

  -- The end of `closeResources`, whose first part is `close_now`.
  abbrev pub close_settled : Outcome (Unit {0}) × Service Q → Outcome (Unit {0}) × Service Q
  close_settled (o, s) = (
    o,
    record s {
      consumer = record s.consumer { prepared = false; start_promise = none; running = false };
    },
  )

  -- `close`
  unfoldable pub close_consumer : Step (Service Q) (Unit {0})
  close_consumer s =
      if s.consumer.close_called
      then awaited s
      else close_settled (awaited (record s { consumer = close_now s.consumer }))
