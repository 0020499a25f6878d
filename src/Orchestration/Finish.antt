-- ===== src/Orchestration/Finish.antt =====
-- From the open completion gate to the end of the task: completion_policy.py,
-- orchestration_transitions.py and task_state.py of minicodex/agent together.
use mini_codex.Common.{
  ◌≡◌, inl, inr, refl, Bool, true, false, not, Option, some, List, [], ◌∷◌, arith, Text, ◌||◌, ◌∙◌,
  is_some, all, keep, null, Bool-cases, if◌then◌else◌,
}
use mini_codex.Validation.Evidence.{ValidationNextAction, is_acceptance_purpose}
use mini_codex.Validation.Plan.{TaskRequirements, ValidationCheck}
use mini_codex.Validation.Regression.{RegressionRequirement, ExecutionMode}
use mini_codex.Validation.Ledger.{ValidationLedger, required_checks, is_proven, acceptance_passed}
use mini_codex.Validation.Completion.{
  CompletionDecision, ready, edited_and_validated, already_satisfied, evaluate, can_complete,
}
use mini_codex.Validation.Completion.Gate.{evaluate-ready}
use mini_codex.Task.State.{invariant_violations}
use mini_codex.Task.Event.{RuntimeEvent, task_completed}
use mini_codex.Task.Reduce.{reduce_task_state, reduce_event}
use mini_codex.Task.Runtime.{TaskRuntime, Applied, accepted, invalid, apply}
use mini_codex.Task.Runtime.Consistent.{IsConsistent}
use mini_codex.Orchestration.{ControlDecision, validation_transition, record_task_outcome}

-- The required checks for acceptance.
abbrev pub acceptance_checks : ValidationLedger → List ValidationCheck
acceptance_checks l = keep (λ c. is_acceptance_purpose c.purpose) (required_checks l)

all-keep :
    (l : ValidationLedger) (p : ValidationCheck → Bool) (cs : List ValidationCheck)
    → all (is_proven l) cs ≡ true
    → all (is_proven l) (keep p cs) ≡ true
all-keep l p [] h = refl
all-keep l p (c ∷ cs) h = ground (arith, all-keep l p cs)

-- With every required check proven, acceptance has passed just if some check is for acceptance.
acceptance_passed_of_proven :
    (l : ValidationLedger)
    → all (is_proven l) (required_checks l) ≡ true
    → acceptance_passed l ≡ not (null (acceptance_checks l))
unfolding acceptance_passed
acceptance_passed_of_proven l h =
    ground (arith, all-keep l (λ c. is_acceptance_purpose c.purpose) (required_checks l) h)

-- The outcome that the open gate gives.
outcome_of_ready :
    (l : ValidationLedger) (requirements : Option TaskRequirements)
    (resolver : Option RegressionRequirement)
    → (evaluate (some l) requirements resolver).status ≡ ready
    → (evaluate (some l) requirements resolver).outcome
      ≡ (if l.has_edit then edited_and_validated else already_satisfied)
unfolding evaluate
outcome_of_ready l requirements resolver h = ground arith

-- `apply` raised nothing.
abbrev pub is_accepted : Applied → Bool
is_accepted (accepted r) = true
is_accepted (invalid vs) = false

is_accepted-apply :
    (e : RuntimeEvent) (r : TaskRuntime)
    → is_accepted (apply e r)
      ≡ null (invariant_violations false false (reduce_task_state r.state e))
unfolding apply
is_accepted-apply e r = ground arith

is_accepted-already_satisfied :
    (r : TaskRuntime) (reason : Text)
    → IsConsistent r.state
    → is_accepted (record_task_outcome already_satisfied reason r) ≡ true
unfolding record_task_outcome reduce_task_state reduce_event invariant_violations
is_accepted-already_satisfied r reason k =
    is_accepted-apply (task_completed (some already_satisfied)) r ∙ ground (arith, k)

is_accepted-edited_and_validated :
    (r : TaskRuntime) (reason : Text)
    → IsConsistent r.state
    → is_accepted (record_task_outcome edited_and_validated reason r) ≡ r.state.acceptance_passed
unfolding record_task_outcome reduce_task_state reduce_event invariant_violations
is_accepted-edited_and_validated r reason k =
    is_accepted-apply (task_completed (some edited_and_validated)) r ∙ ground (arith, k)

-- When the gate is open and the task state is consistent and agrees with the ledger on acceptance,
-- the task state takes the outcome that the gate gives exactly when there is no edit or some
-- required check is for acceptance.
pub finish_accepted_iff :
    (l : ValidationLedger) (requirements : Option TaskRequirements)
    (resolver : Option RegressionRequirement) (r : TaskRuntime) (reason : Text)
    → (evaluate (some l) requirements resolver).status ≡ ready
    → IsConsistent r.state
    → r.state.acceptance_passed ≡ acceptance_passed l
    → is_accepted (record_task_outcome (evaluate (some l) requirements resolver).outcome reason r)
      ≡ not l.has_edit || not (null (acceptance_checks l))
unfolding required_checks
finish_accepted_iff l requirements resolver r reason h k agree =
    let outcome = outcome_of_ready l requirements resolver h in
    let complete = (evaluate-ready l requirements resolver).0 h in
    let passed = acceptance_passed_of_proven l complete.proven in
    elim (Bool-cases l.has_edit) [
      | inl edited ↦
          rw (outcome, edited) (is_accepted-edited_and_validated r reason k ∙ (agree ∙ passed))
      | inr unedited ↦ rw (outcome, unedited) (is_accepted-already_satisfied r reason k)
    ]

-- When the loop is told to restart after a validation, the gate is closed, and the decision carries
-- the message for the model and the reason why the other calls are skipped.
pub validation_transition-restart :
    (completion : CompletionDecision) (mode : Option ExecutionMode)
    (next_step : ValidationNextAction) (stalled : Bool) (acceptance_reminder : Text)
    (next_check : Option ValidationCheck) (d : ControlDecision)
    → validation_transition completion mode next_step stalled acceptance_reminder next_check
      ≡ some d
    → d.restart ≡ true
    → (can_complete completion ≡ false)
      × (is_some d.followup_message ≡ true)
      × (is_some d.skipped_reason ≡ true)
unfolding validation_transition
validation_transition-restart completion mode next_step stalled acceptance_reminder next_check d h
      r =
    ground arith
