-- ===== src/Tests/Tasks.antt =====
-- Runs of the task state (minicodex/agent/task_state.py) and of the end of a task.
use mini_codex.Common.{
  ◌≡◌, inl, inr, refl, true, false, not, ◌||◌, none, some, List, [], ◌∷◌, arith, codes, same, strip,
  str_eq, null,
}
use mini_codex.Common.Int.{pos}
use mini_codex.Validation.Evidence.{regression, post_init, validation_key, run_check, passed}
use mini_codex.Validation.Plan.{at_revision}
use mini_codex.Validation.Regression.{fast}
use mini_codex.Validation.Ledger.{
  ValidationLedger, record_edit, record_evidence, record_executed, appended, bind, bound_check,
  check_with_id, is_unstable, is_comparable, with_baseline, proof_among, decisive_for, meets, proof,
  required_checks, is_proven, acceptance_passed, full_passed,
}
use mini_codex.Validation.Ledger.History.{edit, validate, ledger_step, ledger_run}
use mini_codex.Validation.Completion.{
  CompletionDecision, evaluate, ready, edited_and_validated, needs_acceptance, incomplete,
  evidence_missing, missing_checks, blocked_missing, regression_checks,
}
use mini_codex.Common.Dict.{dict_from, pop, assign}
use mini_codex.Task.WorkUnit.{unit_record_edit, add_path}
use mini_codex.Task.State.{
  TaskState, initial_state, finished_without_acceptance, invariant_violations,
}
use mini_codex.Task.Event.{
  RuntimeEvent, Edit, plan_activated, edit_applied, tool_blocked, recovery_started, task_completed,
  rollback_applied,
}
use mini_codex.Task.Reduce.{
  reduce_task_state, reduce_event, reduce_all, unit_for_edit, issues_after,
}
use mini_codex.Task.Reduce.Fresh.{IsUnvalidated, change_invalidates}
use mini_codex.Task.Reduce.Budget.{IsWithinBudget, reduce_all-IsWithinBudget}
use mini_codex.Task.Runtime.{TaskRuntime, invalid, apply, attempt, run}
use mini_codex.Task.Runtime.Consistent.{IsConsistent, run-IsConsistent}
use mini_codex.Task.Runtime.Trace.{taken, last_items, run_replays}
use mini_codex.Orchestration.{
  ControlDecision, validation_transition, harness_runs_check, check_open, acceptance_missing,
  record_task_outcome,
}
use mini_codex.Orchestration.Finish.{acceptance_checks, is_accepted, finish_accepted_iff}
use mini_codex.Tests.Gates.{validated_ready}
use mini_codex.Tests.Proofs.{planned, app_check, app_run, edited_check, request, validated}

abbrev app_edit : Edit
app_edit = record {
  edit_revision = some (pos 1);
  path = some (codes "app.py");
  milestone_check_ids = [];
  diff_quality_issues = [];
}

abbrev fresh : TaskRuntime
fresh = record { state = initial_state; max_events = 50; events = [] }

-- The loop reports an edit and, without a validation, the end of the task.
abbrev hasty : List RuntimeEvent
hasty = edit_applied app_edit ∷ task_completed (some edited_and_validated) ∷ []

hasty_end_refused :
    (run hasty fresh).state ≡ reduce_task_state initial_state (edit_applied app_edit)
unfolding run attempt apply reduce_task_state reduce_event invariant_violations unit_for_edit
    unit_record_edit issues_after dict_from pop assign add_path same
hasty_end_refused = refl

initial-IsConsistent : IsConsistent initial_state
initial-IsConsistent = record {
  inspection = inr refl;
  acceptance = inr (inl (λ e. cc));
  evidence = inl refl;
}

run-IsConsistent_example : IsConsistent (run hasty fresh).state
run-IsConsistent_example = run-IsConsistent hasty fresh initial-IsConsistent

abbrev claimed : RuntimeEvent
claimed = task_completed (some edited_and_validated)

claimed-not-IsConsistent : ¬ IsConsistent (reduce_task_state initial_state claimed)
unfolding reduce_task_state reduce_event
claimed-not-IsConsistent k = ground (arith, k)

-- A state in which the task has passed every validation.
abbrev proven_state : TaskState
proven_state = record initial_state {
  has_edit = true;
  acceptance_passed = true;
  relevant_validation_passed = true;
  full_validation_passed = true;
  active_evidence_edit_revision = some (pos 0);
}

change_invalidates_example :
    IsUnvalidated (reduce_all (edit_applied app_edit ∷ tool_blocked ∷ []) proven_state)
change_invalidates_example =
    change_invalidates (edit_applied app_edit) (tool_blocked ∷ []) proven_state tt (tt, tt)

abbrev recovery : List RuntimeEvent
recovery =
    plan_activated none ∷ recovery_started (some (pos 2)) ∷ rollback_applied none none [] ∷ []

reduce_all-IsWithinBudget_example : IsWithinBudget (reduce_all hasty initial_state).work_unit
reduce_all-IsWithinBudget_example = reduce_all-IsWithinBudget hasty initial_state tt

run_replays_example :
    ((run hasty fresh).state ≡ reduce_all (taken hasty fresh) initial_state)
    × ((run hasty fresh).events ≡ last_items 50 (taken hasty fresh))
run_replays_example = run_replays hasty fresh refl

-- The runtime of a task that was edited and validated.
abbrev proven_runtime : TaskRuntime
proven_runtime = record { state = proven_state; max_events = 50; events = [] }

proven_state-IsConsistent : IsConsistent proven_state
proven_state-IsConsistent = record {
  inspection = inl (λ e. cc);
  acceptance = inr (inr refl);
  evidence = inr refl;
}

proven_state_agrees : true ≡ acceptance_passed validated
unfolding ledger_run ledger_step record_edit record_evidence record_executed appended bind
    bound_check check_with_id is_unstable is_comparable with_baseline post_init validation_key
    at_revision proof proof_among decisive_for meets same strip str_eq required_checks evaluate
    is_proven blocked_missing missing_checks acceptance_passed full_passed regression_checks
proven_state_agrees = refl

finish_accepted_iff_example :
    is_accepted (
      record_task_outcome
        (evaluate (some validated) (some request) none).outcome
        (codes "done")
        proven_runtime)
    ≡ not validated.has_edit || not (null (acceptance_checks validated))
finish_accepted_iff_example =
    finish_accepted_iff validated (some request) none proven_runtime (codes "done") validated_ready
      proven_state-IsConsistent proven_state_agrees

-- A plan whose one check is for regression, and its ledger after an edit and a passing run.
abbrev guarded : ValidationLedger
guarded =
    ledger_run (edit true ∷ validate (record (app_run passed) { purpose = regression }) ∷ [])
      (record planned { plan = record { checks = record app_check { purpose = regression } ∷ [] } })

guarded_outcome :
    ((evaluate (some guarded) (some request) none).status ≡ ready)
    × ((evaluate (some guarded) (some request) none).outcome ≡ edited_and_validated)
    × (acceptance_passed guarded ≡ false)
unfolding ledger_run ledger_step record_edit record_evidence record_executed appended bind
    bound_check check_with_id is_unstable is_comparable with_baseline post_init validation_key
    at_revision proof proof_among decisive_for meets same strip str_eq required_checks evaluate
    is_proven blocked_missing missing_checks acceptance_passed full_passed regression_checks
guarded_outcome = (refl, refl, refl)

guarded_end_refused :
    record_task_outcome edited_and_validated (codes "done") fresh
    ≡ invalid (finished_without_acceptance ∷ [])
unfolding record_task_outcome apply reduce_task_state reduce_event invariant_violations
guarded_end_refused = refl

abbrev open_decision : CompletionDecision
open_decision = record {
  status = needs_acceptance;
  edit_revision = 1;
  has_edit = true;
  acceptance = false;
  full_validation = false;
  reason = evidence_missing (codes "V1" ∷ []);
  outcome = incomplete;
}

abbrev run_the_check : ControlDecision
run_the_check = record {
  restart = true;
  followup_message = some (harness_runs_check (some edited_check));
  skipped_reason = some check_open;
  reason_code = some acceptance_missing;
}

transition_of_open_check :
    validation_transition open_decision (some fast) run_check false [] (some edited_check)
    ≡ some run_the_check
unfolding validation_transition
transition_of_open_check = refl
