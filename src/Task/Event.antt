-- ===== src/Task/Event.antt =====
-- The events of minicodex/agent/task_state.py. `data` is a mapping by names; here each kind of event
-- carries the entries that the reducer reads, `none` where an entry is absent. Entries of the
-- wrong type, on which `int` or `tuple` would raise, are left out.
use mini_codex.Common.{Bool, Option, List, Text}
use mini_codex.Common.Int.{ℤ}
use mini_codex.Validation.Evidence.{ValidationOutcome}
use mini_codex.Validation.Completion.{TaskOutcome}
use mini_codex.Validation.Regression.{ExecutionMode}
use mini_codex.Task.State.{AgentPhase, TaskIntent}

-- The entries of TASK_STARTED; lists that are absent or `None` are empty.
pub record Start : Type 0 where
  pub run_id : Option Text
  pub mode : Option ExecutionMode
  pub intent : Option TaskIntent
  pub needs_plan : Option Bool
  pub planning_activated : Option Bool
  pub user_request : Option Text
  pub final_response_mode : Option Text
  pub target_paths : List Text
  pub edit_revision : Option ℤ
  pub validation_revision : Option ℤ
  pub has_edit : Option Bool
  pub acceptance_passed : Option Bool
  pub relevant_validation_passed : Option Bool
  pub full_validation_passed : Option Bool
  pub latest_validation_outcome : Option ValidationOutcome
  pub active_evidence_edit_revision : Option ℤ
  pub requirement_ids : List Text
  pub satisfied_requirement_ids : List Text
  pub remaining_steps : Option ℤ

-- The entries of EDIT_APPLIED and WORKSPACE_CHANGED.
pub record Edit : Type 0 where
  pub edit_revision : Option ℤ
  pub path : Option Text
  pub milestone_check_ids : List Text
  pub diff_quality_issues : List Text

-- The entries of VALIDATION_OBSERVED.
pub record Observed : Type 0 where
  pub outcome : Option ValidationOutcome
  pub workunit_all_milestones_resolved : Option Bool
  pub validation_revision : Option ℤ
  pub acceptance_passed : Option Bool
  pub relevant_validation_passed : Option Bool
  pub full_validation_passed : Option Bool
  pub evidence_edit_revision : Option ℤ

pub data RuntimeEvent : Type 0 where
  task_started : Start → RuntimeEvent
  -- consumed_steps, remaining_steps
  budget_updated : Option ℤ → Option ℤ → RuntimeEvent
  -- relevant_paths
  context_updated : List Text → RuntimeEvent
  -- mode
  mode_escalated : Option ExecutionMode → RuntimeEvent
  -- plan_revision
  plan_activated : Option ℤ → RuntimeEvent
  -- planning_activated, plan_revision, completed_steps, superseded_steps
  plan_reconciled : Option Bool → Option ℤ → Option (List ℤ) → Option (List ℤ) → RuntimeEvent
  -- tool_name
  tool_started : Option Text → RuntimeEvent
  -- consecutive_inspections, consecutive_no_state_change
  tool_finished : Option ℤ → Option ℤ → RuntimeEvent
  tool_blocked : RuntimeEvent
  edit_applied : Edit → RuntimeEvent
  workspace_changed : Edit → RuntimeEvent
  validation_observed : Observed → RuntimeEvent
  -- requirement_ids, satisfied_requirement_ids
  requirements_updated : Option (List Text) → Option (List Text) → RuntimeEvent
  -- level
  recovery_started : Option ℤ → RuntimeEvent
  -- edit_revision, rollback_revision, restored_paths
  rollback_applied : Option ℤ → Option ℤ → List Text → RuntimeEvent
  -- phase
  phase_changed : Option AgentPhase → RuntimeEvent
  -- outcome
  task_completed : Option TaskOutcome → RuntimeEvent
  -- reason
  task_blocked : Option Text → RuntimeEvent
  budget_exhausted : RuntimeEvent
