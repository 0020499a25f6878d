-- ===== src/Orchestration.antt =====
-- The transitions of the shared loop: minicodex/agent/orchestration/orchestration_transitions.py.
-- The texts for the model are constructors; how the metrics record an outcome is left out.
pub mod Finish
use mini_codex.Common.{
  ◌≡◌, refl, Bool, true, false, not, ◌&&◌, Option, none, some, List, [], ◌∷◌, arith, Text, get_or,
  if◌then◌else◌,
}
use mini_codex.Validation.Evidence.{
  ValidationNextAction, fix_failure, run_acceptance_validation, run_full_validation, run_check,
  investigate_inconclusive, task_validated,
}
use mini_codex.Validation.Plan.{ValidationCheck, TaskRequirements}
use mini_codex.Validation.Ledger.{ValidationLedger}
use mini_codex.Validation.Completion.{
  CompletionDecision, CompletionStatus, needs_relevant_validation, can_complete, evaluate,
  TaskOutcome, blocked,
}
use mini_codex.Validation.Regression.{ExecutionMode, RegressionRequirement, fast}
use mini_codex.Task.Event.{RuntimeEvent, task_completed, task_blocked}
use mini_codex.Task.Runtime.{TaskRuntime, Applied, apply}

abbrev is_fast : Option ExecutionMode → Bool
is_fast (some fast) = true
is_fast _ = false

pub record CompletionTransition : Type 0 where
  pub decision : CompletionDecision
  pub plan_incomplete : Bool

unfoldable pub can_finish : CompletionTransition → Bool
can_finish t = can_complete t.decision

-- `plan_is_incomplete`; of the active plan, if any, only whether it is completed is read.
unfoldable pub plan_is_incomplete : Option ExecutionMode → Option Bool → Bool
plan_is_incomplete mode plan_completed =
    if is_fast mode then false else not (get_or plan_completed true)

-- `completion_transition`
unfoldable pub completion_transition :
    Option ValidationLedger
    → Option TaskRequirements
    → Option RegressionRequirement
    → Option ExecutionMode
    → Option Bool
    → CompletionTransition
completion_transition ledger requirements resolver mode plan_completed = record {
  decision = evaluate ledger requirements resolver;
  plan_incomplete = plan_is_incomplete mode plan_completed;
}

-- The reason codes that these transitions use.
pub data ReasonCode : Type 0 where
  acceptance_missing regression_missing full_regression_missing : ReasonCode

pub data Followup : Type 0 where
  harness_runs_check : Option ValidationCheck → Followup
  run_focused_regression : Followup
  reminder : Text → Followup
  run_full_suite : Followup
  inspect_validator_failure : Followup

pub data Skipped : Type 0 where
  evidence_sufficient check_open relevant_evidence_missing acceptance_evidence_missing : Skipped
  full_evidence_missing result_inconclusive : Skipped

-- `early_stop` is never set by these transitions.
pub record ControlDecision : Type 0 where
  pub restart : Bool
  pub followup_message : Option Followup
  pub skipped_reason : Option Skipped
  pub reason_code : Option ReasonCode

-- `ControlDecision()`
abbrev go_on : ControlDecision
go_on = record {
  restart = false;
  followup_message = none;
  skipped_reason = none;
  reason_code = none;
}

abbrev restart_with : Followup → Skipped → Option ReasonCode → Option ControlDecision
restart_with followup skipped code = some (record {
  restart = true;
  followup_message = some followup;
  skipped_reason = some skipped;
  reason_code = code;
})

abbrev is_needs_relevant : CompletionStatus → Bool
is_needs_relevant needs_relevant_validation = true
is_needs_relevant _ = false

-- The part of `validation_transition` that dispatches on the next action.
unfoldable pub action_transition :
    ValidationNextAction → Bool → Text → CompletionDecision → Option ControlDecision
action_transition run_acceptance_validation stalled acceptance_reminder completion =
    restart_with (reminder acceptance_reminder) acceptance_evidence_missing
      (some acceptance_missing)
action_transition run_full_validation stalled acceptance_reminder completion =
    restart_with run_full_suite full_evidence_missing (some full_regression_missing)
action_transition investigate_inconclusive stalled acceptance_reminder completion =
    restart_with inspect_validator_failure result_inconclusive none
action_transition task_validated stalled acceptance_reminder completion =
    if stalled then none else some go_on
action_transition fix_failure stalled acceptance_reminder completion =
    if stalled then none else some go_on
action_transition _ stalled acceptance_reminder completion = none

abbrev is_run_check : ValidationNextAction → Bool
is_run_check run_check = true
is_run_check _ = false

unfoldable pub validation_transition :
    CompletionDecision
    → Option ExecutionMode
    → ValidationNextAction
    → Bool
    → Text
    → Option ValidationCheck
    → Option ControlDecision
unfolding action_transition can_complete
validation_transition completion mode next_action stalled acceptance_reminder next_check =
    if can_complete completion
    then some (
        if is_fast mode
        then record {
          restart = false;
          followup_message = none;
          skipped_reason = some evidence_sufficient;
          reason_code = none;
        }
        else go_on)
    else if is_run_check next_action
    then restart_with (harness_runs_check next_check) check_open (some acceptance_missing)
    else if is_needs_relevant completion.status && completion.acceptance
    then restart_with run_focused_regression relevant_evidence_missing (some regression_missing)
    else action_transition next_action stalled acceptance_reminder completion

abbrev outcome_event : TaskOutcome → Text → RuntimeEvent
outcome_event blocked reason = task_blocked (some reason)
outcome_event outcome reason = task_completed (some outcome)

-- `record_task_outcome`, as far as the task state goes.
unfoldable pub record_task_outcome : TaskOutcome → Text → TaskRuntime → Applied
record_task_outcome outcome reason r = apply (outcome_event outcome reason) r
