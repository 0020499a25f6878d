-- ===== src/Control/Bounds.antt =====
-- The bounds that the task control (minicodex/agent/runtime/task_control.py) keeps.
use mini_codex.Common.{
  ℕ, suc, ◌+◌, ◌≤◌, ◌≡◌, ◌⊎◌, inl, inr, refl, Bool, true, false, ◌||◌, some, List, [], ◌∷◌, arith,
  Text, codes, same, leb, Bool-cases, Option-cases,
}
use mini_codex.Validation.Regression.{ExecutionMode, fast, standard, complex, contains}
use mini_codex.Control.Policy.{policy_for}
use mini_codex.Task.State.{Violation}
use mini_codex.Task.Event.{mode_escalated}
use mini_codex.Task.Runtime.{TaskRuntime, Applied, accepted, invalid, apply}
use mini_codex.Control.TaskControl.{
  RuntimeTaskControl, Agent, consume_control_call, next_mode, is_complex_mode,
  multiple_changed_files, min, escalate_to, escalate, enable_planning,
}

-- A use of the task control.
pub data Operation : Type 0 where
  consume_call enable_plan : Operation
  raise_mode : Text → Operation

unfoldable pub operate : Operation → RuntimeTaskControl × Agent → RuntimeTaskControl × Agent
operate consume_call (t, a) = ((consume_control_call t).0, a)
operate enable_plan (t, a) = (t, enable_planning a)
operate (raise_mode reason) (t, a) = (escalate reason (t, a)).1

unfoldable pub operate_all :
    List Operation → RuntimeTaskControl × Agent → RuntimeTaskControl × Agent
operate_all [] s = s
operate_all (o ∷ os) s = operate_all os (operate o s)

abbrev pub mode_rank : ExecutionMode → ℕ
mode_rank fast = 0
mode_rank standard = 1
mode_rank complex = 2

-- The step limit of a mode.
abbrev pub mode_steps : ExecutionMode → ℕ
mode_steps fast = 8
mode_steps standard = 12
mode_steps complex = 24

-- The bounds of a task that was started in `mode`, with at most `limit` calls of the model for its
-- control and at most `configured` steps.
pub record IsControlled (mode : ExecutionMode) (limit configured : ℕ) (t : RuntimeTaskControl)
    (a : Agent) : Type 0 where
  pub same_limit : t.max_control_llm_calls_per_task ≡ limit
  pub same_configured : a.configured_max_steps ≡ configured
  pub calls : t.control_llm_calls ≤ limit
  pub raised : mode_rank mode + t.mode_escalations ≤ mode_rank a.execution_policy.mode
  pub steps : a.task_max_steps ≡ min configured (mode_steps a.execution_policy.mode)

policy_for-mode : (m : ExecutionMode) (b : Bool) → (policy_for m (some b)).mode ≡ m
unfolding policy_for
policy_for-mode fast true = refl
policy_for-mode fast false = refl
policy_for-mode standard true = refl
policy_for-mode standard false = refl
policy_for-mode complex true = refl
policy_for-mode complex false = refl

policy_for-max_steps :
    (m : ExecutionMode) (b : Bool) → (policy_for m (some b)).max_steps ≡ mode_steps m
unfolding policy_for
policy_for-max_steps fast true = refl
policy_for-max_steps fast false = refl
policy_for-max_steps standard true = refl
policy_for-max_steps standard false = refl
policy_for-max_steps complex true = refl
policy_for-max_steps complex false = refl

next_mode_rank :
    (m target : ExecutionMode) → next_mode m ≡ some target → mode_rank target ≡ suc (mode_rank m)
next_mode_rank fast target e = ground arith
next_mode_rank standard target e = ground arith
next_mode_rank complex target e = absurd (cc)

pub Applied-cases :
    (x : Applied)
    → ((r : TaskRuntime) × (x ≡ accepted r)) ⊎ ((vs : List Violation) × (x ≡ invalid vs))
Applied-cases (accepted r) = inl (r, refl)
Applied-cases (invalid vs) = inr (vs, refl)

module _ (mode : ExecutionMode) (limit configured : ℕ) (t : RuntimeTaskControl) (a : Agent)
    (k : IsControlled mode limit configured t a) where
  IsControlled-consume : IsControlled mode limit configured (consume_control_call t).0 a
  unfolding consume_control_call
  IsControlled-consume = record {
    same_limit = ground (arith, k.same_limit);
    same_configured = k.same_configured;
    calls = ground (arith, k.calls, k.same_limit);
    raised = ground (arith, k.raised);
    steps = k.steps;
  }

  IsControlled-enable : IsControlled mode limit configured t (enable_planning a)
  unfolding enable_planning
  IsControlled-enable = record {
    same_limit = k.same_limit;
    same_configured = ground (arith, k.same_configured);
    calls = k.calls;
    raised = ground (arith, k.raised);
    steps = ground (arith, k.steps);
  }

  IsControlled-escalate_to :
      (reason : Text) (target : ExecutionMode)
      → next_mode a.execution_policy.mode ≡ some target
      → IsControlled mode limit configured
          (escalate_to target reason (t, a)).1.0
          (escalate_to target reason (t, a)).1.1
  unfolding escalate_to
  IsControlled-escalate_to reason target e =
      let needs_plan =
        a.needs_plan
        || is_complex_mode target
        || same reason multiple_changed_files
        || contains (codes "multiple changed files") reason in
      let to_mode = policy_for-mode target needs_plan in
      let to_steps = policy_for-max_steps target needs_plan in
      let higher = next_mode_rank a.execution_policy.mode target e in
      elim (Applied-cases (apply (mode_escalated (some target)) a.runtime)) [
        | inl (r, fine) ↦
            rw (escalate_to, fine)
              (record {
                same_limit = k.same_limit;
                same_configured = k.same_configured;
                calls = k.calls;
                raised = rw (to_mode, higher) (omega (arith, k.raised));
                steps = rw (to_mode, to_steps, k.same_configured) refl;
              })
        | inr (vs, bad) ↦
            rw (escalate_to, bad)
              (record {
                same_limit = k.same_limit;
                same_configured = k.same_configured;
                calls = k.calls;
                raised = rw (to_mode, higher) (omega (arith, k.raised));
                steps = rw (to_mode, to_steps, k.same_configured) refl;
              })
      ]

  IsControlled-escalate :
      (reason : Text)
      → IsControlled mode limit configured (escalate reason (t, a)).1.0 (escalate reason (t, a)).1.1
  unfolding escalate
  IsControlled-escalate reason = elim (Option-cases (next_mode a.execution_policy.mode)) [
    | inl top ↦ rw (escalate, top) k
    | inr (target, e) ↦ elim (Bool-cases (leb 2 t.mode_escalations)) [
      | inl spent ↦ rw (escalate, e, spent) k
      | inr left ↦ rw (escalate, e, left) (IsControlled-escalate_to reason target e)
    ]
  ]

IsControlled-operate :
    (o : Operation) (mode : ExecutionMode) (limit configured : ℕ) (t : RuntimeTaskControl)
    (a : Agent)
    → IsControlled mode limit configured t a
    → IsControlled mode limit configured (operate o (t, a)).0 (operate o (t, a)).1
unfolding operate
IsControlled-operate consume_call mode limit configured t a k =
    IsControlled-consume mode limit configured t a k
IsControlled-operate enable_plan mode limit configured t a k =
    IsControlled-enable mode limit configured t a k
IsControlled-operate (raise_mode reason) mode limit configured t a k =
    IsControlled-escalate mode limit configured t a k reason

operate_all-IsControlled_lem :
    (os : List Operation) (mode : ExecutionMode) (limit configured : ℕ) (t : RuntimeTaskControl)
    (a : Agent)
    → IsControlled mode limit configured t a
    → IsControlled mode limit configured (operate_all os (t, a)).0 (operate_all os (t, a)).1
unfolding operate_all
operate_all-IsControlled_lem [] mode limit configured t a k = k
operate_all-IsControlled_lem (o ∷ os) mode limit configured t a k =
    operate_all-IsControlled_lem os mode limit configured (operate o (t, a)).0 (operate o (t, a)).1
      (IsControlled-operate o mode limit configured t a k)

highest_mode : (m : ExecutionMode) → mode_rank m ≤ 2
highest_mode fast = omega arith
highest_mode standard = omega arith
highest_mode complex = omega arith

-- From a task that was started in a mode, every sequence of uses of the control keeps its calls of
-- the model within their limit, raises the mode at most as often as there are higher modes, never
-- below the mode that the task started in, and holds the step limit at the one of the mode that is
-- reached, or at the configured one where that is smaller.
pub operate_all-IsControlled :
    (os : List Operation) (mode : ExecutionMode) (limit configured : ℕ) (t : RuntimeTaskControl)
    (a : Agent)
    → IsControlled mode limit configured t a
    → let (t', a') = operate_all os (t, a) in
      (t'.control_llm_calls ≤ limit)
      × (mode_rank mode + t'.mode_escalations ≤ 2)
      × (mode_rank mode ≤ mode_rank a'.execution_policy.mode)
      × (a'.task_max_steps ≡ min configured (mode_steps a'.execution_policy.mode))
operate_all-IsControlled os mode limit configured t a k =
    let r = operate_all-IsControlled_lem os mode limit configured t a k in
    let top = highest_mode (operate_all os (t, a)).1.execution_policy.mode in
    (r.calls, omega (arith, r.raised, top), omega (arith, r.raised), r.steps)
