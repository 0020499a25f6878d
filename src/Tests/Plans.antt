-- ===== src/Tests/Plans.antt =====
-- Runs of a plan (minicodex/agent/planning/state.py).
use mini_codex.Common.{ℕ, refl, ◌≡◌, ◌==◌, true, false, [], ◌∷◌, codes, same, arith}
use mini_codex.Planning.{
  PlanStep, AgentPlan, pending, is_completed, start_current_step, complete_current_step,
  fail_current_step, supersede_remaining, mark_current, get_current_step, on_current, remove,
}
use mini_codex.Planning.Steps.{
  start, complete, fail, supersede, plan_operate, plan_operate_all, Advances,
  plan_operate_all-Advances,
}

-- Criteria are numbers here.
abbrev step : ℕ → PlanStep ℕ
step n = record {
  id = n;
  description = codes "edit";
  status = pending;
  acceptance_criteria = n ∷ [];
  expected_targets = [];
  dependency_ids = [];
  requires_semantic_completion = false;
  quality_warnings = [];
  attempts = 0;
}

abbrev two_steps : AgentPlan ℕ
two_steps = record { goal = codes "go"; steps = step 1 ∷ step 2 ∷ []; completed_history = [] }

number-refl : (n : ℕ) → (n == n) ≡ true
number-refl n = ground arith

failed_plan_is_open :
    is_completed (plan_operate_all ◌==◌ (start ∷ complete ∷ fail ∷ supersede ∷ []) two_steps)
    ≡ false
unfolding plan_operate_all plan_operate start_current_step complete_current_step fail_current_step
    supersede_remaining mark_current get_current_step on_current remove is_completed same
failed_plan_is_open = refl

plan_operate_all-Advances_example :
    Advances ◌==◌ number-refl two_steps
      (plan_operate_all ◌==◌ (start ∷ complete ∷ fail ∷ supersede ∷ []) two_steps)
plan_operate_all-Advances_example =
    plan_operate_all-Advances ◌==◌ number-refl (start ∷ complete ∷ fail ∷ supersede ∷ []) two_steps
