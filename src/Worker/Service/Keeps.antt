-- ===== src/Worker/Service/Keeps.antt =====
-- What is kept while the service awaits: a property of its flags that the end of the consumer's run
-- loop and a stop leave true.
use bookipi_technical_test.Prelude.{
  ℕ, Bool, true, false, List, [], ◌∷◌, Outcome, ok, throw, Thrown, arith, if◌then◌else◌,
}
use bookipi_technical_test.Worker.Step.{Step, continue, ensure, ◌>>◌}
use bookipi_technical_test.Worker.World.{World}
use bookipi_technical_test.Worker.Health.{
  stop_state, terminated_state, pass_state, sweep_state, fail_state,
}
use bookipi_technical_test.Worker.Service.{
  Service, Happening, stop_called, run_ended, pass_failed, pass_done, swept, Await, stop_now,
  run_terminated, happen, happen_all, next_await, awaited, replied, settle, on_world, call,
  check_signal, delay,
}

-- The flags of the service that say whether it is ready, stopped, lost, or half-way, and the delays.
pub record Flags : Type 0 where
  pub bootstrapped : Bool
  pub ready : Bool
  pub aborted : Bool
  pub closing : Bool
  pub fatal : Bool
  pub started : Bool
  pub cleaned : Bool
  pub delays : List ℕ

pub record IsStable (p : Flags → Type 0) : Type 0 where
  pub stop :
      (f : Flags)
      → p f
      → p (record f { bootstrapped = false; ready = false; aborted = true; closing = true })
  pub lose : (f : Flags) → p f → p (record f { ready = false; fatal = true })

module _ {Q : Type 0} where
  abbrev pub flags : Service Q → Flags
  flags s = record {
    bootstrapped = s.health.bootstrap_reconciled;
    ready = s.health.consumer_ready;
    aborted = s.world.aborted;
    closing = s.closing;
    fatal = s.fatal;
    started = s.processing_started;
    cleaned = s.transition_cleaned;
    delays = s.delays;
  }

module _ {Q : Type 0} (p : Flags → Type 0) where
  abbrev pub Holds : {A : Type 0} → Step (Service Q) A → Type 0
  Holds m = (s : Service Q) → p (flags s) → p (flags (m s).1)

  Holds-continue :
      {A B : Type 0} (x : Outcome A × Service Q) (f : A → Step (Service Q) B)
      → p (flags x.1)
      → ((a : A) → Holds (f a))
      → p (flags (continue x f).1)
  unfolding continue
  Holds-continue (ok a, s) f h hf = hf a s h
  Holds-continue (throw e, s) f h hf = h

  pub Holds-bind :
      {A B : Type 0} (m : Step (Service Q) A) (f : A → Step (Service Q) B)
      → Holds m
      → ((a : A) → Holds (f a))
      → Holds (λ s. continue (m s) f)
  Holds-bind m f hm hf s h = Holds-continue (m s) f (hm s h) hf

  pub Holds-guard : (b : Bool) (e : Thrown) → Holds {A = Unit {0}} (ensure b e)
  Holds-guard true e s h = h
  Holds-guard false e s h = h

  pub Holds-if :
      {A : Type 0} (b : Bool) (m n : Step (Service Q) A)
      → Holds m
      → Holds n
      → Holds (if b then m else n)
  Holds-if true m n hm hn = hm
  Holds-if false m n hm hn = hn

  pub Holds-then :
      {A : Type 0} (m : Step (Service Q) (Unit {0})) (k : Step (Service Q) A)
      → Holds m
      → Holds k
      → Holds (m >> k)
  Holds-then m k hm hk = Holds-bind m (λ _. k) hm (λ _. hk)

  pub Holds-check_signal : Holds check_signal
  Holds-check_signal s h = ground (arith, h)

  -- A checkpoint, and then the rest.
  pub Holds-from : {A : Type 0} (m : Step (Service Q) A) → Holds m → Holds (check_signal >> m)
  Holds-from m = λ hm. Holds-bind check_signal _ Holds-check_signal (λ _. hm)

  module _ (stable : IsStable p) where
    Holds-happen : (e : Happening) (s : Service Q) → p (flags s) → p (flags (happen e s))
    unfolding happen stop_now run_terminated stop_state terminated_state pass_state sweep_state
        fail_state
    Holds-happen stop_called s h = ground (arith, h, stable.stop (flags s) h)
    Holds-happen run_ended s h = ground (arith, h, stable.lose (flags s) h)
    Holds-happen pass_failed s h = h
    Holds-happen (pass_done r) s h = h
    Holds-happen (swept n) s h = ground (arith, h)

    pub Holds-happen_all :
        (es : List Happening) (s : Service Q) → p (flags s) → p (flags (happen_all es s))
    unfolding happen_all
    Holds-happen_all [] s h = h
    Holds-happen_all (e ∷ es) s h = Holds-happen_all es (happen e s) (Holds-happen e s h)

    pub Holds-awaited : Holds awaited
    unfolding awaited
    Holds-awaited s h = replies s.awaits
      where
        replies : (waits : List Await) → p (flags (next_await waits s).1)
        replies [] = h
        replies (a ∷ rest) = Holds-happen_all a.happenings (record s { awaits = rest }) h

    pub Holds-call : {A : Type 0} (f : Step (World Q) A) → Holds (call f)
    unfolding call
    Holds-call f s h = settled (on_world f s) h
      where
        settled : {A : Type 0} (x : Outcome A × Service Q) → p (flags x.1) → p (flags (settle x).1)
        settled (o, t) k = ends o (awaited t) (Holds-awaited t k)
          where
            ends :
                {A : Type 0} (o : Outcome A) (x : Outcome (Unit {0}) × Service Q)
                → p (flags x.1)
                → p (flags (replied o x).1)
            ends o (ok _, t) k = k
            ends o (throw e, t) k = k

    pub Holds-delay : Holds delay
    unfolding delay
    Holds-delay =
        Holds-bind (check_signal >> (λ s. (ok tt, (awaited s).1))) _
          (Holds-from (λ s. (ok tt, (awaited s).1)) Holds-awaited) (λ _. Holds-check_signal)
