-- ===== src/Worker/Service.antt =====
-- The state of the reconciliation service
-- (apps/worker/src/reconciliation/reconciliation.service.ts) and of the consumer that it starts
-- (apps/worker/src/orders/orders.consumer.ts), and what may happen to them while a call is awaited:
-- `stop`, the end of the consumer's run loop, and the ends of passes and sweeps.
use bookipi_technical_test.Prelude.{
  ℕ, Bool, true, false, not, ◌||◌, ◌&&◌, Option, none, some, List, [], ◌∷◌, if◌then◌else◌, Outcome,
  ok, throw,
}
use bookipi_technical_test.Worker.Step.{Step, ◌>>◌}
use bookipi_technical_test.Worker.World.{World, checkpoint, on_queue}
use bookipi_technical_test.Worker.Health.{
  ReconciliationState, PassResult, stop_state, terminated_state, pass_state, sweep_state,
  fail_state,
}
pub mod Consuming
pub mod Keeps

-- The promises that the consumer keeps, its BullMQ worker and its two flags. A start that has ended is
-- kept with its outcome.
pub record Consumer : Type 0 where
  pub prepared : Bool
  pub has_worker : Bool
  pub start_promise : Option (Outcome (Unit {0}))
  pub running : Bool
  pub processing_ready : Bool
  pub closing : Bool
  pub close_called : Bool

pub data Happening : Type 0 where
  stop_called run_ended pass_failed : Happening
  pass_done : PassResult → Happening
  swept : ℕ → Happening

-- The reply to an awaited call of another project, and what happened until it came.
pub record Await : Type 0 where
  pub reply : Outcome (Unit {0})
  pub happenings : List Happening

-- `listening` and `installed` say that the two disposers are there, `fatal` that the fatal error is.
-- `awaits` is what is still to come, and `delays` what the start has slept, the last first.
pub record Service (Q : Type 0) : Type 0 where
  pub world : World Q
  pub health : ReconciliationState
  pub consumer : Consumer
  pub listening : Bool
  pub installed : Bool
  pub fatal : Bool
  pub closing : Bool
  pub processing_started : Bool
  pub transition_cleaned : Bool
  pub awaits : List Await
  pub delays : List ℕ

-- The part of `closeResources` before its first `await`.
abbrev pub close_now : Consumer → Consumer
close_now c = record c {
  closing = true;
  close_called = true;
  processing_ready = false;
  has_worker = false;
}

module _ {Q : Type 0} where
  -- The part of `stopLifecycle` before its first `await`; `stop` keeps its promise.
  unfoldable pub stop_now : Service Q → Service Q
  stop_now s = if s.closing then s else record s {
    closing = true;
    health = stop_state s.health;
    world = record s.world { aborted = true };
    installed = false;
    listening = false;
    consumer = close_now s.consumer;
  }

  -- `handleUnexpectedConsumerTermination`
  abbrev pub handle_unexpected_consumer_termination : Service Q → Service Q
  handle_unexpected_consumer_termination s = record s {
    health = terminated_state s.health;
    installed = false;
    fatal = true;
  }

  -- `handleRunTermination`, whose listener is the service where it listens.
  unfoldable pub run_terminated : Service Q → Service Q
  run_terminated s =
      let ended = record s { consumer = record s.consumer { processing_ready = false } } in
      if s.consumer.closing || not s.consumer.running
      then s
      else if not s.listening
      then ended
      else handle_unexpected_consumer_termination ended

  unfoldable pub happen : Happening → Service Q → Service Q
  happen stop_called s = stop_now s
  happen run_ended s = run_terminated s
  happen pass_failed s = record s { health = fail_state s.health }
  happen (pass_done r) s = record s { health = pass_state r s.health }
  happen (swept n) s = record s { health = sweep_state n s.health }

  unfoldable pub happen_all : List Happening → Service Q → Service Q
  happen_all [] s = s
  happen_all (h ∷ hs) s = happen_all hs (happen h s)

  abbrev pub next_await : List Await → Service Q → Outcome (Unit {0}) × Service Q
  next_await [] s = (ok tt, s)
  next_await (a ∷ rest) s = (a.reply, happen_all a.happenings (record s { awaits = rest }))

  -- An `await` of a call whose effects are not the model's.
  unfoldable pub awaited : Step (Service Q) (Unit {0})
  awaited s = next_await s.awaits s

  -- The signal is the service's own: what its calls do to the stores and the queue leaves it.
  abbrev pub on_world : {A : Type 0} → Step (World Q) A → Step (Service Q) A
  on_world f s =
      let (a, w) = f s.world in (a, record s { world = record w { aborted = s.world.aborted } })

  -- The service's own `checkpoint`.
  abbrev pub check_signal : Step (Service Q) (Unit {0})
  check_signal s = on_world checkpoint s

  -- The service changes its own fields.
  abbrev pub change : (Service Q → Service Q) → Step (Service Q) (Unit {0})
  change f s = (ok tt, f s)

  abbrev pub replied :
      {A : Type 0} → Outcome A → Outcome (Unit {0}) × Service Q → Outcome A × Service Q
  replied o (ok _, s) = (o, s)
  replied o (throw e, s) = (throw e, s)

  abbrev pub settle : {A : Type 0} → Outcome A × Service Q → Outcome A × Service Q
  settle (o, s) = replied o (awaited s)

  -- An awaited call of a store or of the queue, with its value.
  unfoldable pub call : {A : Type 0} → Step (World Q) A → Step (Service Q) A
  call f s = settle (on_world f s)

  -- `delay`: the timer, unless the signal is aborted before or meanwhile.
  unfoldable pub delay : Step (Service Q) (Unit {0})
  delay = check_signal >> (λ s. (ok tt, (awaited s).1)) >> check_signal
