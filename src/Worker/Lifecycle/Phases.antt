-- ===== src/Worker/Lifecycle/Phases.antt =====
-- The flags of the service during a start: a phase for each part of it, which whatever happens at an await
-- leaves, and chains of steps that end in the next phase or with a worker that is not ready.
use bookipi_technical_test.Prelude.{
  Bool, true, false, not, ◌&&◌, ◌||◌, ◌≡◌, Outcome, ok, throw, arith,
}
use bookipi_technical_test.Worker.Step.{Step, continue}
use bookipi_technical_test.Worker.Service.{Service, change}
use bookipi_technical_test.Worker.Service.Keeps.{Flags, IsStable, flags, Holds}
use bookipi_technical_test.Worker.Lifecycle.{check_running}

abbrev pub implies : Bool → Bool → Bool
implies a b = not a || b

abbrev pub is_down : Flags → Bool
is_down f = not f.bootstrapped && not f.ready

-- The signal is aborted by a stop, and a service that is stopped or has lost its consumer is not ready.
abbrev pub is_consistent : Flags → Bool
is_consistent f =
    (implies f.aborted f.closing && implies f.closing f.aborted)
    && (implies f.closing (is_down f) && implies f.fatal (not f.ready))

-- Before the transition, after processing was started, once the flags are up, and after a failure.
abbrev pub Waiting : Flags → Type 0
Waiting f = is_consistent f && (is_down f && (not f.started && not f.cleaned)) ≡ true

abbrev pub Going : Flags → Type 0
Going f = is_consistent f && (is_down f && (f.started && not f.cleaned)) ≡ true

abbrev pub Calm : Flags → Type 0
Calm f = Going f × (f.closing || f.fatal ≡ false)

abbrev pub Live : Flags → Type 0
Live f =
    is_consistent f
      && ((f.closing || (f.fatal || (f.bootstrapped && f.ready))) && (f.started && not f.cleaned))
    ≡ true

abbrev pub Failed : Flags → Type 0
Failed f = is_consistent f && is_down f ≡ true

pub Waiting-IsStable : IsStable Waiting
Waiting-IsStable = record { stop = λ f h. ground (arith, h); lose = λ f h. ground (arith, h) }

pub Going-IsStable : IsStable Going
Going-IsStable = record { stop = λ f h. ground (arith, h); lose = λ f h. ground (arith, h) }

pub Live-IsStable : IsStable Live
Live-IsStable = record { stop = λ f h. ground (arith, h); lose = λ f h. ground (arith, h) }

pub Failed-IsStable : IsStable Failed
Failed-IsStable = record { stop = λ f h. ground (arith, h); lose = λ f h. ground (arith, h) }

pub Waiting-Failed : (f : Flags) → Waiting f → Failed f
Waiting-Failed f h = ground (arith, h)

pub Going-Failed : (f : Flags) → Going f → Failed f
Going-Failed f h = ground (arith, h)

module _ {Q : Type 0} where
  -- What holds of the flags after a value; after an error the worker is not ready.
  abbrev pub Ends : {A : Type 0} → (Flags → Type 0) → Outcome A × Service Q → Type 0
  Ends R (ok _, s) = R (flags s)
  Ends R (throw _, s) = Failed (flags s)

  pub Ends-bind :
      {A B : Type 0} (R : Flags → Type 0) (x : Outcome A × Service Q) (f : A → Step (Service Q) B)
      → Ends R x
      → ((a : A) (s : Service Q) → R (flags s) → Ends Live (f a s))
      → Ends Live (continue x f)
  unfolding continue
  Ends-bind R (ok a, s) f h k = k a s h
  Ends-bind R (throw e, s) f h k = h

  pub Ends-same :
      {A : Type 0} (R : Flags → Type 0) (x : Outcome A × Service Q)
      → ((f : Flags) → R f → Failed f)
      → R (flags x.1)
      → Ends R x
  Ends-same R (ok a, s) weaken h = h
  Ends-same R (throw e, s) weaken h = weaken (flags s) h

  -- A step of the first phase, then the rest; and one of the second.
  pub waiting :
      {A B : Type 0} (m : Step (Service Q) A) (f : A → Step (Service Q) B) (s : Service Q)
      → Holds Waiting m
      → Waiting (flags s)
      → ((a : A) (t : Service Q) → Waiting (flags t) → Ends Live (f a t))
      → Ends Live (continue (m s) f)
  waiting m f s hm h k =
      Ends-bind Waiting (m s) f (Ends-same Waiting (m s) Waiting-Failed (hm s h)) k

  pub going :
      {A B : Type 0} (m : Step (Service Q) A) (f : A → Step (Service Q) B) (s : Service Q)
      → Holds Going m
      → Going (flags s)
      → ((a : A) (t : Service Q) → Going (flags t) → Ends Live (f a t))
      → Ends Live (continue (m s) f)
  going m f s hm h k = Ends-bind Going (m s) f (Ends-same Going (m s) Going-Failed (hm s h)) k

  pub check_running-Calm : (s : Service Q) → Going (flags s) → Ends Calm (check_running s)
  unfolding continue
  check_running-Calm s h = ground (arith, h)

  pub running :
      {B : Type 0} (f : Step (Service Q) B) (s : Service Q)
      → Going (flags s)
      → ((t : Service Q) → Calm (flags t) → Ends Live (f t))
      → Ends Live (continue (check_running s) (λ _. f))
  running f s h k =
      Ends-bind Calm (check_running s) (λ _. f) (check_running-Calm s h) (λ _ t c. k t c)

  pub changing :
      (g : Service Q → Service Q) (f : Unit {0} → Step (Service Q) (Unit {0})) (s : Service Q)
      → Ends Live (f tt (g s))
      → Ends Live (continue (change g s) f)
  unfolding continue
  changing g f s h = h
