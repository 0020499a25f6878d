-- ===== src/Control/TaskControl.antt =====
-- minicodex/agent/runtime/task_control.py, with the part of the agent that it reads and changes. The
-- text of the working summary and the copy of a counter in the metrics are left out.
use mini_codex.Common.{
  ℕ, suc, Bool, true, false, not, ◌&&◌, ◌||◌, Option, none, some, List, Text, codes, same, leb,
  if◌then◌else◌,
}
use mini_codex.Validation.Regression.{ExecutionMode, fast, standard, complex, contains}
use mini_codex.Control.Policy.{ExecutionPolicy, policy_for}
use mini_codex.Task.State.{Violation}
use mini_codex.Task.Event.{mode_escalated}
use mini_codex.Task.Runtime.{TaskRuntime, accepted, invalid, apply}

pub record RuntimeTaskControl : Type 0 where
  pub mode_escalations : ℕ
  pub late_plan_activations : ℕ
  pub planning_activated : Bool
  pub control_llm_calls : ℕ
  pub max_control_llm_calls_per_task : ℕ

-- `changed_files` is the number of the files that the agent has touched, 0 where asking for it raises.
pub record Agent : Type 0 where
  pub execution_policy : ExecutionPolicy
  pub needs_plan : Bool
  pub configured_max_steps : ℕ
  pub task_max_steps : ℕ
  pub runtime : TaskRuntime
  pub changed_files : ℕ
  pub acceptance_passed : Bool
  pub has_active_plan : Bool

abbrev pub multiple_changed_files : Text
multiple_changed_files = codes "multiple_changed_files"

abbrev near_step_ceiling : Text
near_step_ceiling = codes "near_step_ceiling_without_acceptance"

abbrev multi_file_coordination : Text
multi_file_coordination = codes "coordinated_multi_file_work"

unfoldable pub reset : Bool → RuntimeTaskControl → RuntimeTaskControl
reset planning_active t = record t {
  mode_escalations = 0;
  late_plan_activations = 0;
  planning_activated = planning_active;
  control_llm_calls = 0;
}

unfoldable pub consume_control_call : RuntimeTaskControl → RuntimeTaskControl × Bool
consume_control_call t =
    if leb t.max_control_llm_calls_per_task t.control_llm_calls
    then (t, false)
    else (record t { control_llm_calls = suc t.control_llm_calls }, true)

abbrev pub next_mode : ExecutionMode → Option ExecutionMode
next_mode fast = some standard
next_mode standard = some complex
next_mode complex = none

abbrev pub is_complex_mode : ExecutionMode → Bool
is_complex_mode complex = true
is_complex_mode _ = false

abbrev is_fast_mode : ExecutionMode → Bool
is_fast_mode fast = true
is_fast_mode _ = false

abbrev pub min : ℕ → ℕ → ℕ
min a b = if leb a b then a else b

abbrev max : ℕ → ℕ → ℕ
max a b = if leb a b then b else a

-- What `escalate` returns, or raises: the event is refused after the policy has been changed.
pub data Escalated : Type 0 where
  escalated declined : Escalated
  raised : List Violation → Escalated

-- The policy and the step limit of an escalation.
abbrev pub retargeted : ExecutionMode → Text → Agent → Agent
retargeted target reason a =
    let needs_plan =
      a.needs_plan
      || is_complex_mode target
      || same reason multiple_changed_files
      || contains (codes "multiple changed files") reason in
    let policy = policy_for target (some needs_plan) in
    record a {
      execution_policy = policy;
      task_max_steps = min a.configured_max_steps policy.max_steps;
    }

unfoldable pub escalate_to :
    ExecutionMode → Text → RuntimeTaskControl × Agent → Escalated × (RuntimeTaskControl × Agent)
escalate_to target reason (t, a) =
    let a' = retargeted target reason a in
    elim (apply (mode_escalated (some target)) a'.runtime) [
      | invalid vs ↦ (raised vs, (t, a'))
      | accepted r ↦ (
        escalated,
        (record t { mode_escalations = suc t.mode_escalations }, record a' { runtime = r }),
      )
    ]

unfoldable pub escalate :
    Text → RuntimeTaskControl × Agent → Escalated × (RuntimeTaskControl × Agent)
escalate reason (t, a) = elim (next_mode a.execution_policy.mode) [
  | none ↦ (declined, (t, a))
  | some target ↦
      let went = escalate_to target reason (t, a) in
      if leb 2 t.mode_escalations then (declined, (t, a)) else went
]

-- The reason for an escalation; `remaining_steps` is not negative where the loop calls it.
unfoldable pub should_escalate : ℕ → Agent → Option Text
should_escalate remaining_steps a =
    let mode = a.execution_policy.mode in
    if is_fast_mode mode && leb 3 a.changed_files
    then some multiple_changed_files
    else if leb remaining_steps 2 && not (is_complex_mode mode) && not a.acceptance_passed
    then some near_step_ceiling
    else none

unfoldable pub should_activate_plan : RuntimeTaskControl → Agent → Option Text
should_activate_plan t a =
    if t.planning_activated || a.has_active_plan
    then none
    else if leb 3 a.changed_files
    then some multi_file_coordination
    else none

unfoldable pub enable_planning : Agent → Agent
enable_planning a =
    let policy = a.execution_policy in
    if policy.use_plan then a else record a {
      execution_policy = record policy {
        use_plan = true;
        max_plan_steps = max 3 policy.max_plan_steps;
        enable_replan = true;
        max_replans = max 1 policy.max_replans;
      };
    }
