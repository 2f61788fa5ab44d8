-- ===== src/Worker/Tests/Maintenance.antt =====
-- A trigger that comes while a pass is running, with sweeps and a further trigger in between.
use bookipi_technical_test.Prelude.{◌≤◌, suc, refl, List, [], ◌∷◌, arith}
use bookipi_technical_test.Worker.Maintenance.{
  MaintenanceEvent, reconcile_tick, dlq_tick, turned, trigger_pass, trigger_dlq_sweep,
  maintenance_run, maintain,
}
use bookipi_technical_test.Worker.Maintenance.Turns.{
  reached, turns_of, never_stopped, trigger_pass-ends,
}

abbrev busy : List MaintenanceEvent
busy = dlq_tick ∷ reconcile_tick ∷ []

abbrev afterwards : List MaintenanceEvent
afterwards =
    turned ∷ turned ∷ dlq_tick ∷ turned ∷ reconcile_tick ∷ turned ∷ turned ∷ turned ∷ turned ∷ []

trigger_pass-ends_example :
    suc (reached busy).passes_started
    ≤ (maintenance_run afterwards (trigger_pass (reached busy))).passes_ended
unfolding maintenance_run maintain trigger_pass trigger_dlq_sweep turns_of never_stopped
trigger_pass-ends_example = trigger_pass-ends busy afterwards refl refl (omega arith)
