-- ===== src/Worker/Maintenance.antt =====
-- `triggerPass`, `triggerDlqSweep` and `scheduleMaintenance` of
-- apps/worker/src/reconciliation/reconciliation.service.ts: which passes and sweeps are scheduled, in
-- which order they run, and the trigger that a pass in flight keeps for its end. What a pass or a sweep
-- does is left to Pass.antt and Sweep.antt.
use bookipi_technical_test.Prelude.{
  ℕ, zero, suc, ◌+◌, Bool, true, false, not, ◌&&◌, List, [], ◌∷◌, ◌++◌, if◌then◌else◌,
}
pub mod Turns

-- The work that is chained to `maintenanceTail`.
pub data Work : Type 0 where
  pass sweep : Work

-- `tail` holds the work that has not ended, the first of which is running. A promise stays in its field
-- from its call to its `finally`, which comes after its work has ended.
pub record Maintenance : Type 0 where
  pub closing : Bool
  pub pass_promise : Bool
  pub pass_coalesced : Bool
  pub dlq_promise : Bool
  pub tail : List Work
  pub passes_started : ℕ
  pub passes_ended : ℕ

abbrev pub no_maintenance : Maintenance
no_maintenance = record {
  closing = false;
  pass_promise = false;
  pass_coalesced = false;
  dlq_promise = false;
  tail = [];
  passes_started = 0;
  passes_ended = 0;
}

-- `scheduleMaintenance`
abbrev pub schedule_maintenance : Work → Maintenance → Maintenance
schedule_maintenance work m = record m { tail = m.tail ++ (work ∷ []) }

-- `triggerPass`, whose promise is rejected where the service is closing.
unfoldable pub trigger_pass : Maintenance → Maintenance
trigger_pass m =
    if m.closing
    then m
    else if m.pass_promise
    then record m { pass_coalesced = true }
    else schedule_maintenance pass
        (record m { pass_promise = true; passes_started = suc m.passes_started })

-- The `finally` of `triggerPass`, whether the pass failed or not.
unfoldable pub pass_settled : Maintenance → Maintenance
pass_settled m =
    if m.pass_coalesced && not m.closing
    then trigger_pass (record m { pass_promise = false; pass_coalesced = false })
    else record m { pass_promise = false }

-- `triggerDlqSweep`, whose promise is resolved at once where the service is closing.
unfoldable pub trigger_dlq_sweep : Maintenance → Maintenance
trigger_dlq_sweep m =
    if m.closing
    then m
    else if m.dlq_promise
    then m
    else schedule_maintenance sweep (record m { dlq_promise = true })

-- The `finally` of `triggerDlqSweep`.
unfoldable pub sweep_settled : Maintenance → Maintenance
sweep_settled m = record m { dlq_promise = false }

-- The running work ends, well or with an error.
unfoldable pub work_ended : Maintenance → Maintenance
work_ended m = elim m.tail [
  | [] ↦ m
  | pass ∷ rest ↦ record m { tail = rest; passes_ended = suc m.passes_ended }
  | sweep ∷ rest ↦ record m { tail = rest }
]

abbrev pub is_pass : Work → Bool
is_pass pass = true
is_pass sweep = false

unfoldable pub has_pass : List Work → Bool
has_pass [] = false
has_pass (pass ∷ ws) = true
has_pass (sweep ∷ ws) = has_pass ws

unfoldable pub has_sweep : List Work → Bool
has_sweep [] = false
has_sweep (sweep ∷ ws) = true
has_sweep (pass ∷ ws) = has_sweep ws

-- What the event loop does next of its own accord: the `finally` of what has ended comes before the end
-- of the work that follows.
unfoldable pub turn : Maintenance → Maintenance
turn m =
    if m.pass_promise && not (has_pass m.tail)
    then pass_settled m
    else if m.dlq_promise && not (has_sweep m.tail)
    then sweep_settled m
    else work_ended m

-- The two timers, the hints of failed jobs, `stop`, and the turns in between.
pub data MaintenanceEvent : Type 0 where
  reconcile_tick dlq_tick stopped turned : MaintenanceEvent

unfoldable pub maintain : MaintenanceEvent → Maintenance → Maintenance
maintain reconcile_tick m = trigger_pass m
maintain dlq_tick m = trigger_dlq_sweep m
maintain stopped m = record m { closing = true }
maintain turned m = turn m

unfoldable pub maintenance_run : List MaintenanceEvent → Maintenance → Maintenance
maintenance_run [] m = m
maintenance_run (e ∷ es) m = maintenance_run es (maintain e m)
