-- ===== src/Worker/Maintenance/Turns.antt =====
-- The passes and the sweeps over any sequence of timers, hints and turns of the event loop.
use bookipi_technical_test.Prelude.{
  ℕ, suc, ◌+◌, ◌≤◌, ◌<◌, ◌≡◌, ◌⊎◌, inl, inr, refl, Bool, true, false, not, ◌&&◌, ◌||◌, List, [],
  ◌∷◌, arith, leb, if◌then◌else◌,
}
use bookipi_technical_test.Worker.Maintenance.{
  Maintenance, Work, pass, sweep, MaintenanceEvent, reconcile_tick, dlq_tick, stopped, turned,
  trigger_pass, pass_settled, trigger_dlq_sweep, sweep_settled, work_ended, has_pass, has_sweep,
  turn, maintain, maintenance_run, no_maintenance,
}

-- At most a pass and a sweep have not ended.
abbrev one_of_each : List Work → Bool
one_of_each [] = true
one_of_each (pass ∷ []) = true
one_of_each (sweep ∷ []) = true
one_of_each (pass ∷ sweep ∷ []) = true
one_of_each (sweep ∷ pass ∷ []) = true
one_of_each _ = false

abbrev pending : List Work → ℕ
pending ws = if has_pass ws then 1 else 0

abbrev implies : Bool → Bool → Bool
implies a b = not a || b

-- What has not ended is in flight, a coalesced trigger waits for a pass, and the passes are numbered
-- in the order in which they end.
pub record IsOrderly (m : Maintenance) : Type 0 where
  pub each_once : one_of_each m.tail ≡ true
  pub pass_in_flight : implies (has_pass m.tail) m.pass_promise ≡ true
  pub sweep_in_flight : implies (has_sweep m.tail) m.dlq_promise ≡ true
  pub waits : implies (m.pass_coalesced && not m.closing) m.pass_promise ≡ true
  pub counted : m.passes_started ≡ m.passes_ended + pending m.tail

-- The turns after which a pass that is in the tail has ended.
abbrev turns_of_pass : List Work → Bool → ℕ
turns_of_pass (pass ∷ ws) dlq = if dlq && not (has_sweep ws) then 2 else 1
turns_of_pass (sweep ∷ ws) dlq = 3
turns_of_pass [] dlq = 0

-- The turns after which the pass of that number has ended.
abbrev turns_left : ℕ → Maintenance → ℕ
turns_left goal m =
    if leb goal m.passes_ended
    then 0
    else (if has_pass m.tail then turns_of_pass m.tail m.dlq_promise else 0)
      + (if leb goal m.passes_started then 0 else 4)

-- The pass of that number has ended, or it was started, or a trigger waits to start it.
abbrev is_due : ℕ → Maintenance → Bool
is_due goal m =
    leb goal m.passes_started
    || (leb goal (suc m.passes_started) && (m.pass_coalesced && m.pass_promise))

no_maintenance-IsOrderly : IsOrderly no_maintenance
unfolding has_pass has_sweep
no_maintenance-IsOrderly = record {
  each_once = refl;
  pass_in_flight = refl;
  sweep_in_flight = refl;
  waits = refl;
  counted = refl;
}

one_of_each_cases :
    (ws : List Work)
    → one_of_each ws ≡ true
    → (ws ≡ [])
      ⊎ ((ws ≡ pass ∷ [])
          ⊎ ((ws ≡ sweep ∷ []) ⊎ ((ws ≡ pass ∷ sweep ∷ []) ⊎ (ws ≡ sweep ∷ pass ∷ []))))
one_of_each_cases [] h = inl refl
one_of_each_cases (pass ∷ []) h = inr (inl refl)
one_of_each_cases (sweep ∷ []) h = inr (inr (inl refl))
one_of_each_cases (pass ∷ sweep ∷ []) h = inr (inr (inr (inl refl)))
one_of_each_cases (sweep ∷ pass ∷ []) h = inr (inr (inr (inr refl)))
one_of_each_cases (pass ∷ pass ∷ ws) h = absurd (ground (arith, h))
one_of_each_cases (sweep ∷ sweep ∷ ws) h = absurd (ground (arith, h))
one_of_each_cases (pass ∷ sweep ∷ w ∷ ws) h = absurd (ground (arith, h))
one_of_each_cases (sweep ∷ pass ∷ w ∷ ws) h = absurd (ground (arith, h))

trigger_pass-IsOrderly : (m : Maintenance) → IsOrderly m → IsOrderly (trigger_pass m)
unfolding trigger_pass has_pass has_sweep
trigger_pass-IsOrderly m o = ground (arith, o, one_of_each_cases m.tail o.each_once)

trigger_dlq_sweep-IsOrderly : (m : Maintenance) → IsOrderly m → IsOrderly (trigger_dlq_sweep m)
unfolding trigger_dlq_sweep has_pass has_sweep
trigger_dlq_sweep-IsOrderly m o = ground (arith, o, one_of_each_cases m.tail o.each_once)

turn-IsOrderly : (m : Maintenance) → IsOrderly m → IsOrderly (turn m)
unfolding turn pass_settled trigger_pass sweep_settled work_ended has_pass has_sweep
turn-IsOrderly m o = ground (arith, o, one_of_each_cases m.tail o.each_once)

maintain-IsOrderly :
    (e : MaintenanceEvent) (m : Maintenance) → IsOrderly m → IsOrderly (maintain e m)
unfolding maintain
maintain-IsOrderly reconcile_tick m o = trigger_pass-IsOrderly m o
maintain-IsOrderly dlq_tick m o = trigger_dlq_sweep-IsOrderly m o
maintain-IsOrderly stopped m o = ground (arith, o)
maintain-IsOrderly turned m o = turn-IsOrderly m o

-- At any time at most one pass and one sweep have not ended, the one behind the other.
pub maintenance_run-IsOrderly :
    (es : List MaintenanceEvent) (m : Maintenance) → IsOrderly m → IsOrderly (maintenance_run es m)
unfolding maintenance_run
maintenance_run-IsOrderly [] m o = o
maintenance_run-IsOrderly (e ∷ es) m o =
    maintenance_run-IsOrderly es (maintain e m) (maintain-IsOrderly e m o)

-- The service stays open, and a pass of that number has ended or is due.
abbrev is_coming : ℕ → Maintenance → Bool
is_coming goal m = not m.closing && is_due goal m

trigger_pass-coming :
    (goal : ℕ) (m : Maintenance)
    → IsOrderly m
    → is_coming goal m ≡ true
    → (is_coming goal (trigger_pass m) ≡ true)
      × (turns_left goal (trigger_pass m) ≤ turns_left goal m)
unfolding trigger_pass has_pass has_sweep
trigger_pass-coming goal m o c = ground (arith, o, one_of_each_cases m.tail o.each_once)

trigger_dlq_sweep-coming :
    (goal : ℕ) (m : Maintenance)
    → IsOrderly m
    → is_coming goal m ≡ true
    → (is_coming goal (trigger_dlq_sweep m) ≡ true)
      × (turns_left goal (trigger_dlq_sweep m) ≤ turns_left goal m)
unfolding trigger_dlq_sweep has_pass has_sweep
trigger_dlq_sweep-coming goal m o c = ground (arith, o, one_of_each_cases m.tail o.each_once)

turn-coming :
    (goal : ℕ) (m : Maintenance)
    → IsOrderly m
    → is_coming goal m ≡ true
    → (is_coming goal (turn m) ≡ true)
      × ((turns_left goal m ≡ 0) ⊎ (turns_left goal (turn m) < turns_left goal m))
      × (turns_left goal (turn m) ≤ turns_left goal m)
unfolding turn pass_settled trigger_pass sweep_settled work_ended has_pass has_sweep
turn-coming goal m o c = ground (arith, o, one_of_each_cases m.tail o.each_once)

unfoldable pub turns_of : List MaintenanceEvent → ℕ
turns_of [] = 0
turns_of (turned ∷ es) = suc (turns_of es)
turns_of (_ ∷ es) = turns_of es

unfoldable pub never_stopped : List MaintenanceEvent → Bool
never_stopped [] = true
never_stopped (stopped ∷ es) = false
never_stopped (_ ∷ es) = never_stopped es

coming_ends :
    (goal : ℕ) (m : Maintenance)
    → IsOrderly m
    → is_coming goal m ≡ true
    → turns_left goal m ≤ 0
    → goal ≤ m.passes_ended
unfolding has_pass has_sweep
coming_ends goal m o c l = ground (arith, o, one_of_each_cases m.tail o.each_once)

run-coming :
    (goal : ℕ) (es : List MaintenanceEvent) (m : Maintenance)
    → IsOrderly m
    → is_coming goal m ≡ true
    → never_stopped es ≡ true
    → turns_left goal m ≤ turns_of es
    → goal ≤ (maintenance_run es m).passes_ended
unfolding maintenance_run maintain never_stopped turns_of
run-coming goal [] m o c n l = coming_ends goal m o c l
run-coming goal (reconcile_tick ∷ es) m o c n l =
    let (c', l') = trigger_pass-coming goal m o c in
    run-coming goal es (trigger_pass m) (trigger_pass-IsOrderly m o) c' n (omega (arith, l, l'))
run-coming goal (dlq_tick ∷ es) m o c n l =
    let (c', l') = trigger_dlq_sweep-coming goal m o c in
    run-coming goal es (trigger_dlq_sweep m) (trigger_dlq_sweep-IsOrderly m o) c' n
      (omega (arith, l, l'))
run-coming goal (stopped ∷ es) m o c n l = absurd (ground (arith, n))
run-coming goal (turned ∷ es) m o c n l =
    let (c', d, l') = turn-coming goal m o c in
    run-coming goal es (turn m) (turn-IsOrderly m o) c' n (ground (arith, l, d, l'))

triggered-coming :
    (m : Maintenance)
    → IsOrderly m
    → m.closing ≡ false
    → (is_coming (suc m.passes_started) (trigger_pass m) ≡ true)
      × (turns_left (suc m.passes_started) (trigger_pass m) ≤ 7)
unfolding trigger_pass has_pass has_sweep
triggered-coming m o h = ground (arith, o, one_of_each_cases m.tail o.each_once)

abbrev pub reached : List MaintenanceEvent → Maintenance
reached es = maintenance_run es no_maintenance

-- A trigger is never lost: while the service stays open, one pass more than had been started at the
-- time of the trigger, so one that starts after it, has ended after at most seven turns of the event
-- loop, whatever further triggers and sweeps come in between.
pub trigger_pass-ends :
    (es es' : List MaintenanceEvent)
    → (reached es).closing ≡ false
    → never_stopped es' ≡ true
    → 7 ≤ turns_of es'
    → suc (reached es).passes_started
      ≤ (maintenance_run es' (trigger_pass (reached es))).passes_ended
trigger_pass-ends es es' h n enough =
    let m = reached es in
    let o = maintenance_run-IsOrderly es no_maintenance no_maintenance-IsOrderly in
    let (c, l) = triggered-coming m o h in
    run-coming (suc m.passes_started) es' (trigger_pass m) (trigger_pass-IsOrderly m o) c n
      (omega (arith, enough, l))
