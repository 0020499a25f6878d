-- ===== src/Tests/Sessions.antt =====
-- A run of an automatic rollback (minicodex/agent/editing/rollback_coordinator.py), on files in memory.
use mini_codex.Common.{◌≡◌, ◌≢◌, refl, none, some, [], codes, same, strip, lstrip}
use mini_codex.Validation.Completion.{evaluate, ready}
use mini_codex.Validation.Plan.{at_revision}
use mini_codex.Validation.Ledger.{
  record_edit, record_evidence, record_executed, bound_check, check_with_id,
}
use mini_codex.Validation.Ledger.History.{ledger_run, ledger_step}
use mini_codex.Task.Reduce.{reduce_task_state, reduce_event}
use mini_codex.Editing.Host.{resolve_workspace_path}
use mini_codex.Editing.Checkpoint.{get, change, latest_for_revision, mark_rolled_back}
use mini_codex.Editing.Rollback.{
  rollback, rollback_found, rollback_at, restore_and_verify, restore, restore_existing_file,
  verify_restore, verify_existing, mark_lifecycle, check_current_state,
}
use mini_codex.Coordination.{
  ValidationProgress, crossed_revision, Session, rolled_back, report_rollback, report,
  continue_after, coordinate_checkpoint, coordinate, requirements_event,
}
use mini_codex.Coordination.Effects.{IsRecovered, coordinate-rolled_back}
use mini_codex.Task.State.{initial_state, invariant_violations}
use mini_codex.Task.Runtime.{apply}
use mini_codex.Tests.Files.{memory, memory_laws, holding, sealed_manager, app_checkpoint}
use mini_codex.Tests.Proofs.{request, validated, validated-IsWellFormed, validated-IsNamed}

abbrev worse : ValidationProgress
worse = record { previous_revision = some 0; current_revision = some 1 }

-- The ledger and the one checkpoint are at the first edit.
abbrev session : Session memory
session = record {
  ledger = validated;
  requirements = request;
  files = (sealed_manager, holding (codes "new"));
  runtime = record { state = initial_state; max_events = 50; events = [] };
  rollback_revision = 0;
  edit_retry = none;
  recovery = record { level = 2; max_recovery_level = 3 };
}

abbrev recovered : Session memory
recovered = (coordinate memory 1 worse session).1

session_recovers : coordinate memory 1 worse session ≡ (rolled_back app_checkpoint, recovered)
unfolding coordinate coordinate_checkpoint crossed_revision continue_after report report_rollback
    latest_for_revision rollback rollback_found rollback_at restore_and_verify restore
    restore_existing_file verify_restore verify_existing mark_lifecycle mark_rolled_back
    check_current_state get change strip lstrip same resolve_workspace_path ledger_run ledger_step
    record_evidence record_executed bound_check record_edit check_with_id at_revision apply
    invariant_violations reduce_task_state reduce_event requirements_event
session_recovers = refl

coordinate-rolled_back_example :
    IsRecovered memory app_checkpoint session recovered
    × ((evaluate (some recovered.ledger) (some request) none).status ≢ ready)
coordinate-rolled_back_example =
    coordinate-rolled_back memory memory_laws 1 worse app_checkpoint session recovered
      (some request) none validated-IsWellFormed validated-IsNamed session_recovers
