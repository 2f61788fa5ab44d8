-- ===== src/Api/QueueProbe.antt =====
-- QueueDepthProbe of apps/api/src/infra/queue-depth-probe.ts, as a state machine with an event for each
-- point where an observation or the closing goes on. Generations are numbered as they are created, and
-- `connected` is those whose Redis client is not disconnected.
use bookipi_technical_test.Prelude.{
  ℕ, suc, ◌≤◌, ◌≡◌, ◌⊎◌, refl, Bool, true, false, Option, none, some, List, [], ◌∷◌, arith, length,
  ◌==◌, if◌then◌else◌,
}

-- The observation in flight: it awaits the counts or the deadline; it has failed, and awaits its
-- command; it disposes of its generation; it has ended, before its `finally`.
pub data Flight : Type 0 where
  no_flight ended : Flight
  observing failed disposing : ℕ → Flight

pub record Probe : Type 0 where
  pub generation : Option ℕ
  pub created : ℕ
  pub connected : List ℕ
  pub flight : Flight
  pub closing : Bool
  -- The generation that `close` found and has not disposed of.
  pub to_close : Option ℕ

abbrev pub new_probe : Probe
new_probe = record {
  generation = none;
  created = 0;
  connected = [];
  flight = no_flight;
  closing = false;
  to_close = none;
}

-- `redis.disconnect(false)`
unfoldable pub disconnect : ℕ → List ℕ → List ℕ
disconnect g [] = []
disconnect g (h ∷ hs) = let rest = disconnect g hs in if h == g then rest else h ∷ rest

-- The first line of `runDepth`: the generation at hand, or a new one.
abbrev pub observe : Option ℕ → Probe → Probe
observe (some g) p = record p { flight = observing g }
observe none p = record p {
  generation = some p.created;
  created = suc p.created;
  connected = p.created ∷ p.connected;
  flight = observing p.created;
}

-- `depth`, whose promise is rejected where the probe is closing.
unfoldable pub depth : Probe → Probe
depth p = if p.closing then p else elim p.flight [
  | no_flight ↦ observe p.generation p
  | observing g ↦ p
  | failed g ↦ p
  | disposing g ↦ p
  | ended ↦ p
]

-- The counts are there, or the command has failed or passed its deadline.
unfoldable pub observed : Bool → Probe → Probe
observed success p = elim p.flight [
  | no_flight ↦ p
  | observing g ↦
      if success
      then record p { flight = ended }
      else record p { flight = failed g; connected = disconnect g p.connected }
  | failed g ↦ p
  | disposing g ↦ p
  | ended ↦ p
]

abbrev pub is_generation : ℕ → Option ℕ → Bool
is_generation g none = false
is_generation g (some h) = h == g

-- The end of `disposeGeneration`.
unfoldable pub dispose : ℕ → Probe → Probe
dispose g p = record p {
  connected = disconnect g p.connected;
  generation = if is_generation g p.generation then none else p.generation;
}

-- A failed observation goes on: its command settles, its generation is disposed of, its promise ends.
unfoldable pub go_on : Probe → Probe
go_on p = elim p.flight [
  | no_flight ↦ p
  | observing g ↦ p
  | failed g ↦ record p { flight = disposing g }
  | disposing g ↦ record (dispose g p) { flight = ended }
  | ended ↦ record p { flight = no_flight }
]

abbrev disconnect_any : Option ℕ → List ℕ → List ℕ
disconnect_any none hs = hs
disconnect_any (some g) hs = disconnect g hs

-- `close`, up to its first `await`.
unfoldable pub close : Probe → Probe
close p = if p.closing then p else record p {
  closing = true;
  to_close = p.generation;
  connected = disconnect_any p.generation p.connected;
}

abbrev dispose_any : Option ℕ → Probe → Probe
dispose_any none p = p
dispose_any (some g) p = record (dispose g p) { to_close = none }

-- Its end, once no observation is in flight.
unfoldable pub close_on : Probe → Probe
close_on p = elim p.flight [
  | no_flight ↦ dispose_any p.to_close p
  | observing g ↦ p
  | failed g ↦ p
  | disposing g ↦ p
  | ended ↦ p
]

pub data ProbeEvent : Type 0 where
  depth_called : ProbeEvent
  command_ended : (success : Bool) → ProbeEvent
  flight_goes_on close_called close_goes_on : ProbeEvent

unfoldable pub probe_step : ProbeEvent → Probe → Probe
probe_step depth_called p = depth p
probe_step (command_ended success) p = observed success p
probe_step flight_goes_on p = go_on p
probe_step close_called p = close p
probe_step close_goes_on p = close_on p

unfoldable pub probe_run : List ProbeEvent → Probe → Probe
probe_run [] p = p
probe_run (e ∷ es) p = probe_run es (probe_step e p)

-- Only the generation at hand may be connected, and none once the probe is closing.
abbrev Connects : Option ℕ → List ℕ → Type 0
Connects none hs = hs ≡ []
Connects (some g) hs = (hs ≡ []) ⊎ (hs ≡ g ∷ [])

abbrev IsTidy : Probe → Type 0
IsTidy p = Connects p.generation p.connected × ((p.closing ≡ true) → p.connected ≡ [])

probe_step-IsTidy : (e : ProbeEvent) (p : Probe) → IsTidy p → IsTidy (probe_step e p)
unfolding probe_step depth observed go_on close close_on dispose disconnect
probe_step-IsTidy depth_called p h = ground (arith, h)
probe_step-IsTidy (command_ended success) p h = ground (arith, h)
probe_step-IsTidy flight_goes_on p h = ground (arith, h)
probe_step-IsTidy close_called p h = ground (arith, h)
probe_step-IsTidy close_goes_on p h = ground (arith, h)

probe_run-IsTidy : (es : List ProbeEvent) (p : Probe) → IsTidy p → IsTidy (probe_run es p)
unfolding probe_run
probe_run-IsTidy [] p h = h
probe_run-IsTidy (e ∷ es) p h = probe_run-IsTidy es (probe_step e p) (probe_step-IsTidy e p h)

-- However observations begin, fail, pass their deadline and overlap with the closing, the probe never
-- has more than one connection, and from the call of `close` on it has none.
pub probe_bounded :
    (es : List ProbeEvent)
    → let p = probe_run es new_probe in length p.connected ≤ (if p.closing then 0 else 1)
probe_bounded es = ground (arith, probe_run-IsTidy es new_probe (refl, λ h. refl))
