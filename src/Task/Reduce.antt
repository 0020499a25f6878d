-- ===== src/Task/Reduce.antt =====
-- `reduce_task_state` of minicodex/agent/task_state.py.
pub mod Fresh
pub mod Monotone
pub mod Budget
use mini_codex.Common.{
  ℕ, suc, ◌+◌, ◌≡◌, refl, Bool, true, false, not, ◌&&◌, ◌||◌, Option, none, some, List, [], ◌∷◌,
  Text, codes, same, is_empty, any, null, leb, get_or, if◌then◌else◌,
}
use mini_codex.Common.Int.{ℤ, pos, ◌+ℤ◌, maxℤ}
use mini_codex.Common.Dict.{Dict, assign, pop, dict_from}
use mini_codex.Validation.Evidence.{ValidationOutcome, is_passed, is_failed}
use mini_codex.Validation.Completion.{TaskOutcome, blocked, incomplete}
use mini_codex.Validation.Regression.{ExecutionMode, fast, standard, complex}
use mini_codex.Task.WorkUnit.{
  WorkUnit, open_unit, failed_unit, default_edit_budget, closed, unit_record_edit, begin_validation,
  resolve_milestone,
}
use mini_codex.Task.State.{
  AgentPhase, inspecting, validating, fixing, done, blocked_phase, TaskIntent, modify, TaskState,
  is_terminal,
}
use mini_codex.Task.Event.{
  Start, Edit, Observed, RuntimeEvent, task_started, budget_updated, context_updated,
  mode_escalated, plan_activated, plan_reconciled, tool_started, tool_finished, tool_blocked,
  edit_applied, workspace_changed, validation_observed, requirements_updated, recovery_started,
  rollback_applied, phase_changed, task_completed, task_blocked, budget_exhausted,
}

-- `max(0, int(value))`
abbrev at_least_zero : ℤ → ℤ
at_least_zero n = maxℤ (pos 0) n

abbrev next : ℤ → ℤ
next n = n +ℤ pos 1

unfoldable pub start_state : Start → ℕ → TaskState
start_state d sequence = record {
  run_id = get_or d.run_id [];
  mode = d.mode;
  intent = get_or d.intent modify;
  needs_plan = get_or d.needs_plan false;
  planning_activated = get_or d.planning_activated false;
  phase = inspecting;
  user_request = get_or d.user_request [];
  final_response_mode = get_or d.final_response_mode (codes "task_report");
  target_paths = d.target_paths;
  relevant_paths = d.target_paths;
  edit_revision = at_least_zero (get_or d.edit_revision (pos 0));
  validation_revision = at_least_zero (get_or d.validation_revision (pos 0));
  rollback_revision = pos 0;
  plan_revision = pos 0;
  completed_plan_steps = [];
  superseded_plan_steps = [];
  has_edit = get_or d.has_edit false;
  acceptance_passed = get_or d.acceptance_passed false;
  relevant_validation_passed = get_or d.relevant_validation_passed false;
  full_validation_passed = get_or d.full_validation_passed false;
  consecutive_inspections = pos 0;
  consecutive_no_state_change = pos 0;
  consumed_steps = pos 0;
  remaining_steps = at_least_zero (get_or d.remaining_steps (pos 0));
  outcome = incomplete;
  latest_validation_outcome = d.latest_validation_outcome;
  active_evidence_edit_revision = d.active_evidence_edit_revision;
  requirement_ids = d.requirement_ids;
  satisfied_requirement_ids = d.satisfied_requirement_ids;
  latest_blocker = none;
  recovery_level = pos 0;
  active_tool = none;
  event_sequence = sequence;
  work_unit = none;
  edit_issues = [];
}

-- `order.get(mode, -1)`, one higher.
abbrev pub rank : Option ExecutionMode → ℕ
rank none = 0
rank (some fast) = 1
rank (some standard) = 2
rank (some complex) = 3

abbrev or_mode : Option ExecutionMode → Option ExecutionMode → Option ExecutionMode
or_mode none current = current
or_mode (some m) current = some m

abbrev is_no_mode : Option ExecutionMode → Bool
is_no_mode none = true
is_no_mode (some m) = false

unfoldable pub escalate_mode : Option ExecutionMode → Option ExecutionMode → Option ExecutionMode
escalate_mode current entry =
    let mode = or_mode entry current in
    if is_no_mode current || leb (rank current) (rank mode) then mode else current

-- `str(value) or None`
abbrev text_or_none : Text → Option Text
text_or_none t = if is_empty t then none else some t

-- The work unit that an edit of the agent belongs to: the open one, or a new one.
unfoldable pub unit_for_edit : Edit → ℤ → TaskState → WorkUnit
unfolding closed
unit_for_edit d revision s =
    let fresh : WorkUnit = record {
      id = revision;
      requirement_ids = s.requirement_ids;
      intended_paths = s.target_paths;
      start_revision = s.edit_revision;
      milestone_check_ids = d.milestone_check_ids;
      edited_paths = [];
      edits = 0;
      edit_budget = default_edit_budget;
      status = open_unit;
    } in
    elim s.work_unit [ none ↦ fresh | some u ↦ if closed u then fresh else u ]

abbrev fail_unit : Option WorkUnit → Option WorkUnit
fail_unit none = none
fail_unit (some u) = some (record u { status = failed_unit })

-- `edit_issues` after an edit of `path`.
unfoldable pub issues_after : Edit → Dict (List Text) → Dict (List Text)
issues_after d issues =
    let path = get_or d.path [] in
    let others = pop path (dict_from [] issues) in
    if null d.diff_quality_issues then others else assign path d.diff_quality_issues others

-- EDIT_APPLIED (`owned`) and WORKSPACE_CHANGED.
unfoldable pub reduce_edit : Bool → Edit → TaskState → TaskState
unfolding unit_for_edit
reduce_edit owned d s =
    let revision = get_or d.edit_revision (next s.edit_revision) in
    record s {
      work_unit =
          if owned
          then some (unit_record_edit (get_or d.path []) (unit_for_edit d revision s))
          else fail_unit s.work_unit;
      edit_issues = issues_after d s.edit_issues;
      edit_revision = revision;
      has_edit = s.has_edit || owned;
      acceptance_passed = false;
      relevant_validation_passed = false;
      full_validation_passed = false;
      latest_validation_outcome = none;
      active_evidence_edit_revision = none;
      phase = if owned then validating else inspecting;
      consecutive_inspections = pos 0;
      consecutive_no_state_change = pos 0;
    }

abbrev observed_passed : Option ValidationOutcome → Bool
observed_passed none = false
observed_passed (some o) = is_passed o

abbrev observed_failed : Option ValidationOutcome → Bool
observed_failed none = false
observed_failed (some o) = is_failed o

unfoldable pub unit_after_validation : Observed → Option WorkUnit → Option WorkUnit
unfolding closed resolve_milestone begin_validation
unit_after_validation d none = none
unit_after_validation d (some u) =
    if closed u then some u else elim d.workunit_all_milestones_resolved [
      | none ↦ some (begin_validation u)
      | some all_resolved ↦ some (resolve_milestone (observed_passed d.outcome) all_resolved u)
    ]

-- VALIDATION_OBSERVED
unfoldable pub reduce_validation : Observed → TaskState → TaskState
reduce_validation d s = record s {
  work_unit = unit_after_validation d s.work_unit;
  validation_revision =
      maxℤ (next s.validation_revision) (get_or d.validation_revision (next s.validation_revision));
  acceptance_passed = get_or d.acceptance_passed s.acceptance_passed;
  relevant_validation_passed = get_or d.relevant_validation_passed s.relevant_validation_passed;
  full_validation_passed = get_or d.full_validation_passed s.full_validation_passed;
  latest_validation_outcome = d.outcome;
  active_evidence_edit_revision = d.evidence_edit_revision;
  phase = if observed_failed d.outcome then fixing else validating;
}

abbrev without_paths : List Text → Dict (List Text) → Dict (List Text)
without_paths restored [] = []
without_paths restored ((p, issues) ∷ rest) =
    let others = without_paths restored rest in
    if any (same p) restored then others else (p, issues) ∷ others

-- ROLLBACK_APPLIED
unfoldable pub reduce_rollback : Option ℤ → Option ℤ → List Text → TaskState → TaskState
reduce_rollback edit_revision rollback_revision restored s = record s {
  edit_issues = without_paths restored s.edit_issues;
  work_unit = fail_unit s.work_unit;
  rollback_revision = maxℤ (next s.rollback_revision) (get_or rollback_revision (pos 0));
  edit_revision = get_or edit_revision (next s.edit_revision);
  acceptance_passed = false;
  relevant_validation_passed = false;
  full_validation_passed = false;
  active_evidence_edit_revision = none;
  latest_validation_outcome = none;
  phase = validating;
}

abbrev or_blocker : Option Text → Option Text → Option Text
or_blocker none latest = latest
or_blocker (some r) latest = if is_empty r then latest else some r

-- Every event but TASK_STARTED, on a state whose `event_sequence` is already the new one.
unfoldable pub reduce_event : RuntimeEvent → TaskState → TaskState
unfolding reduce_edit reduce_validation reduce_rollback escalate_mode
reduce_event (task_started d) s = start_state d s.event_sequence
reduce_event (budget_updated consumed remaining) s = record s {
  consumed_steps = at_least_zero (get_or consumed s.consumed_steps);
  remaining_steps = at_least_zero (get_or remaining s.remaining_steps);
}
reduce_event (context_updated paths) s = record s { relevant_paths = paths }
reduce_event (mode_escalated entry) s = record s { mode = escalate_mode s.mode entry }
reduce_event (plan_activated revision) s = record s {
  planning_activated = true;
  plan_revision = maxℤ (next s.plan_revision) (get_or revision (pos 0));
}
reduce_event (plan_reconciled activated revision completed superseded) s = record s {
  planning_activated = get_or activated s.planning_activated;
  plan_revision = maxℤ s.plan_revision (get_or revision s.plan_revision);
  completed_plan_steps = get_or completed s.completed_plan_steps;
  superseded_plan_steps = get_or superseded s.superseded_plan_steps;
}
reduce_event (tool_started name) s = record s { active_tool = text_or_none (get_or name []) }
reduce_event (tool_finished inspections unchanged) s = record s {
  active_tool = none;
  consecutive_inspections = at_least_zero (get_or inspections s.consecutive_inspections);
  consecutive_no_state_change = at_least_zero (get_or unchanged s.consecutive_no_state_change);
}
reduce_event tool_blocked s = record s { active_tool = none }
reduce_event (edit_applied d) s = reduce_edit true d s
reduce_event (workspace_changed d) s = reduce_edit false d s
reduce_event (validation_observed d) s = reduce_validation d s
reduce_event (requirements_updated ids satisfied) s = record s {
  requirement_ids = get_or ids s.requirement_ids;
  satisfied_requirement_ids = get_or satisfied s.satisfied_requirement_ids;
}
reduce_event (recovery_started level) s = record s {
  recovery_level = maxℤ s.recovery_level (get_or level (next s.recovery_level));
  phase = fixing;
}
reduce_event (rollback_applied edit_revision rollback_revision restored) s =
    reduce_rollback edit_revision rollback_revision restored s
reduce_event (phase_changed phase) s =
    if is_terminal s.phase then s else record s { phase = get_or phase s.phase }
reduce_event (task_completed outcome) s = record s {
  outcome = get_or outcome s.outcome;
  phase = done;
}
reduce_event (task_blocked reason) s = record s {
  outcome = blocked;
  phase = blocked_phase;
  latest_blocker = or_blocker reason s.latest_blocker;
}
reduce_event budget_exhausted s = record s { remaining_steps = pos 0 }

unfoldable pub reduce_task_state : TaskState → RuntimeEvent → TaskState
reduce_task_state s event = reduce_event event (record s { event_sequence = suc s.event_sequence })

-- The events in order.
unfoldable pub reduce_all : List RuntimeEvent → TaskState → TaskState
reduce_all [] s = s
reduce_all (e ∷ es) s = reduce_all es (reduce_task_state s e)
