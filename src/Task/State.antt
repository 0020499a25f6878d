-- ===== src/Task/State.antt =====
-- The records of minicodex/agent/task_state.py.
use mini_codex.Common.{
  ℕ, Bool, true, false, not, ◌&&◌, Option, none, some, List, [], ◌∷◌, ◌++◌, Text, codes, ◌==◌,
}
use mini_codex.Common.Int.{ℤ, pos, pos_part, neg_part}
use mini_codex.Common.Dict.{Dict}
use mini_codex.Validation.Evidence.{ValidationOutcome}
use mini_codex.Validation.Completion.{TaskOutcome, incomplete, edited_and_validated}
use mini_codex.Validation.Regression.{ExecutionMode}
use mini_codex.Task.WorkUnit.{WorkUnit}

pub data AgentPhase : Type 0 where
  inspecting acting validating fixing finalizing done blocked_phase : AgentPhase

-- minicodex/agent/routing/intent.py
pub data TaskIntent : Type 0 where
  informational inspect_only modify : TaskIntent

-- `active_tool` is no empty text.
pub record TaskState : Type 0 where
  pub run_id : Text
  pub mode : Option ExecutionMode
  pub intent : TaskIntent
  pub needs_plan : Bool
  pub planning_activated : Bool
  pub phase : AgentPhase
  pub user_request : Text
  pub final_response_mode : Text
  pub target_paths : List Text
  pub relevant_paths : List Text
  pub edit_revision : ℤ
  pub validation_revision : ℤ
  pub rollback_revision : ℤ
  pub plan_revision : ℤ
  pub completed_plan_steps : List ℤ
  pub superseded_plan_steps : List ℤ
  pub has_edit : Bool
  pub acceptance_passed : Bool
  pub relevant_validation_passed : Bool
  pub full_validation_passed : Bool
  pub consecutive_inspections : ℤ
  pub consecutive_no_state_change : ℤ
  pub consumed_steps : ℤ
  pub remaining_steps : ℤ
  pub outcome : TaskOutcome
  pub latest_validation_outcome : Option ValidationOutcome
  pub active_evidence_edit_revision : Option ℤ
  pub requirement_ids : List Text
  pub satisfied_requirement_ids : List Text
  pub latest_blocker : Option Text
  pub recovery_level : ℤ
  pub active_tool : Option Text
  pub event_sequence : ℕ
  pub work_unit : Option WorkUnit
  pub edit_issues : Dict (List Text)

-- `TaskState()`
abbrev pub initial_state : TaskState
initial_state = record {
  run_id = [];
  mode = none;
  intent = modify;
  needs_plan = false;
  planning_activated = false;
  phase = inspecting;
  user_request = [];
  final_response_mode = codes "task_report";
  target_paths = [];
  relevant_paths = [];
  edit_revision = pos 0;
  validation_revision = pos 0;
  rollback_revision = pos 0;
  plan_revision = pos 0;
  completed_plan_steps = [];
  superseded_plan_steps = [];
  has_edit = false;
  acceptance_passed = false;
  relevant_validation_passed = false;
  full_validation_passed = false;
  consecutive_inspections = pos 0;
  consecutive_no_state_change = pos 0;
  consumed_steps = pos 0;
  remaining_steps = pos 0;
  outcome = incomplete;
  latest_validation_outcome = none;
  active_evidence_edit_revision = none;
  requirement_ids = [];
  satisfied_requirement_ids = [];
  latest_blocker = none;
  recovery_level = pos 0;
  active_tool = none;
  event_sequence = 0;
  work_unit = none;
  edit_issues = [];
}

pub data Violation : Type 0 where
  inspect_only_with_edit finished_without_acceptance stale_validation_revision : Violation
  provider_call_during_open_tool_batch : Violation

abbrev is_inspect_only : TaskIntent → Bool
is_inspect_only inspect_only = true
is_inspect_only _ = false

abbrev pub is_done : AgentPhase → Bool
is_done done = true
is_done _ = false

-- `phase in {DONE, BLOCKED}`
abbrev pub is_terminal : AgentPhase → Bool
is_terminal done = true
is_terminal blocked_phase = true
is_terminal _ = false

abbrev is_edited_and_validated : TaskOutcome → Bool
is_edited_and_validated edited_and_validated = true
is_edited_and_validated _ = false

abbrev int_eq : ℤ → ℤ → Bool
int_eq a b = pos_part a == pos_part b && neg_part a == neg_part b

abbrev is_stale : Option ℤ → ℤ → Bool
is_stale none revision = false
is_stale (some r) revision = not (int_eq r revision)

abbrev when : Bool → Violation → List Violation
when true v = v ∷ []
when false v = []

unfoldable pub invariant_violations : Bool → Bool → TaskState → List Violation
invariant_violations tool_batch_open next_provider_call s =
    when (is_inspect_only s.intent && s.has_edit) inspect_only_with_edit
    ++ (when (is_done s.phase && (is_edited_and_validated s.outcome && not s.acceptance_passed))
          finished_without_acceptance
        ++ (when (is_stale s.active_evidence_edit_revision s.edit_revision)
              stale_validation_revision
            ++ when (tool_batch_open && next_provider_call) provider_call_during_open_tool_batch))

-- The parts by which the program tells whether a step made progress.
abbrev pub ProgressKey : Type 0
ProgressKey = ℤ × List ℤ × List Text × Bool × Bool × Bool

unfoldable pub progress_key : TaskState → ProgressKey
progress_key s = (
  s.edit_revision, s.completed_plan_steps, s.satisfied_requirement_ids, s.acceptance_passed,
  s.relevant_validation_passed, s.full_validation_passed,
)
