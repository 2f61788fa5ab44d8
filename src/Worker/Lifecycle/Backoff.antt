-- ===== src/Worker/Lifecycle/Backoff.antt =====
-- The delays between the attempts of `startLifecycle`.
use bookipi_technical_test.Prelude.{
  ℕ, zero, suc, ◌*◌, ◌≤◌, min, Bool, true, false, ◌≡◌, refl, ap, List, [], ◌∷◌, Outcome, ok, throw,
  arith,
}
use bookipi_technical_test.Worker.Step.{Step, continue}
use bookipi_technical_test.Worker.Env.{WorkerEnv}
use bookipi_technical_test.Worker.Queue.{QueueApi}
use bookipi_technical_test.Worker.Service.{Service, delay}
use bookipi_technical_test.Worker.Service.Keeps.{Holds-delay}
use bookipi_technical_test.Worker.Boot.{Outside}
use bookipi_technical_test.Worker.Lifecycle.{
  with_lock, new_attempt, transition, retry_after, after_attempt, attempts, start_lifecycle,
  failed_health,
}
use bookipi_technical_test.Worker.Lifecycle.Slept.{
  Slept, Slept-IsStable, attempt-Slept, final-Slept,
}

-- The delay that comes after these, the last of which is the first of the list.
abbrev pub next_delay : List ℕ → ℕ
next_delay [] = 100
next_delay (d ∷ ds) = min (d * 2) 5000

unfoldable pub IsBackoff : List ℕ → Type 0
IsBackoff [] = Unit
IsBackoff (d ∷ ds) = (d ≡ next_delay ds) × IsBackoff ds

-- Each from 100 ms to five seconds.
unfoldable pub Within : List ℕ → Type 0
Within [] = Unit
Within (d ∷ ds) = (100 ≤ d) × (d ≤ 5000) × Within ds

next_delay_bounds : (ds : List ℕ) → IsBackoff ds → (100 ≤ next_delay ds) × (next_delay ds ≤ 5000)
unfolding IsBackoff
next_delay_bounds [] b = omega arith
next_delay_bounds (d ∷ ds) b = ground (arith, b, next_delay_bounds ds b.1)

IsBackoff-Within : (ds : List ℕ) → IsBackoff ds → Within ds
unfolding IsBackoff Within
IsBackoff-Within [] b = tt
IsBackoff-Within (d ∷ ds) b = ground (arith, b, next_delay_bounds ds b.1, IsBackoff-Within ds b.1)

module _ {Q : Type 0} (api : QueueApi Q) (env : WorkerEnv) (outside : Outside) (ds : List ℕ) where
  -- The delays after the next one: its own, and those of the attempts that follow.
  abbrev Grows : Step (Service Q) (Unit {0}) → Type 0
  Grows rest = (t : Service Q) → t.delays ≡ next_delay ds ∷ ds → IsBackoff (rest t).1.delays

  delayed :
      (rest : Step (Service Q) (Unit {0})) (x : Outcome (Unit {0}) × Service Q)
      → IsBackoff ds
      → Grows rest
      → x.1.delays ≡ next_delay ds ∷ ds
      → IsBackoff (continue x (λ _. rest)).1.delays
  unfolding continue IsBackoff
  delayed rest (ok _, t) b k h = k t h
  delayed rest (throw e, t) b k h = rw h (refl, b)

  retried :
      (rest : Step (Service Q) (Unit {0})) (s : Service Q)
      → IsBackoff ds
      → Grows rest
      → s.delays ≡ ds
      → IsBackoff (retry_after api env outside (next_delay ds) rest s).1.delays
  unfolding continue
  retried rest s b k h = by_signal s.world.aborted refl
    where
      slept : Service Q
      slept = record (failed_health s) { delays = next_delay ds ∷ s.delays }

      by_signal :
          (a : Bool)
          → s.world.aborted ≡ a
          → IsBackoff (retry_after api env outside (next_delay ds) rest s).1.delays
      by_signal true a = ground (arith, a, b, h)
      by_signal false a = ground (
        arith,
        a,
        delayed rest (delay slept) b k (
            Holds-delay (Slept (next_delay ds ∷ ds)) (Slept-IsStable (next_delay ds ∷ ds)) slept
              (ap (λ l. next_delay ds ∷ l) h)),
      )

  after_attempt-IsBackoff :
      (rest : Step (Service Q) (Unit {0})) (x : Outcome (Unit {0}) × Service Q)
      → IsBackoff ds
      → Grows rest
      → x.1.delays ≡ ds
      → IsBackoff (after_attempt api env outside (next_delay ds) rest x).1.delays
  after_attempt-IsBackoff rest (ok _, s) b k h = rw h b
  after_attempt-IsBackoff rest (throw e, s) b k h =
      ground (arith, h, b, final-Slept api env outside ds e s h, retried rest s b k h)

module _ {Q : Type 0} (api : QueueApi Q) (env : WorkerEnv) (outside : Outside) where
  attempts-IsBackoff :
      (fuel : ℕ) (s : Service Q)
      → IsBackoff s.delays
      → IsBackoff (attempts api env outside fuel (next_delay s.delays) s).1.delays
  unfolding attempts IsBackoff
  attempts-IsBackoff zero s b = b
  attempts-IsBackoff (suc fuel) s b = ground (
    arith,
    b,
    after_attempt-IsBackoff api env outside s.delays
        (attempts api env outside fuel (min (next_delay s.delays * 2) 5000))
        (with_lock (transition api env outside) (new_attempt s)) b
        (λ t h. rw (← ap next_delay h) (attempts-IsBackoff fuel t (rw h (refl, b))))
        (attempt-Slept api env outside s.delays s refl),
  )

  -- Between the attempts of a start there are 100 ms at first, then twice the delay before each time, and
  -- never more than five seconds, however the attempts fail.
  pub start_lifecycle-IsBackoff :
      (fuel : ℕ) (s : Service Q)
      → s.delays ≡ []
      → IsBackoff (start_lifecycle api env outside fuel s).1.delays
        × Within (start_lifecycle api env outside fuel s).1.delays
  unfolding start_lifecycle IsBackoff
  start_lifecycle-IsBackoff fuel s h =
      let first : next_delay s.delays ≡ 100 = ap next_delay h in
      let b : IsBackoff (attempts api env outside fuel 100 s).1.delays =
        rw (← first) (attempts-IsBackoff fuel s (rw h tt)) in
      (b, IsBackoff-Within _ b)
