-- ===== src/Planning/Finish.antt =====
-- The plan that is completed step by step (minicodex/agent/planning/state.py).
use mini_codex.Common.{
  ◌≡◌, refl, ap, ◌∙◌, Bool, true, false, not, List, [], ◌∷◌, ◌++◌, map, Text, null, all, inl, inr,
  Bool-cases, if◌then◌else◌,
}
use mathlib.Core.List.{append_assoc, append-nil}
use mini_codex.Planning.{
  completed, PlanStep, AgentPlan, all_steps, is_open, on_current, remove, with_status,
  get_current_step, complete_current_step, is_completed,
}
use mini_codex.Planning.Steps.{complete, plan_operate, plan_operate_all, same_step_refl}

module _ {Criterion : Type 0} where
  finished :
      (h ss : List (PlanStep Criterion))
      → (if not (null (h ++ map (with_status completed) ss)) then true else false)
        ≡ not (null (h ++ ss))
  finished [] [] = refl
  finished [] (s ∷ ss) = refl
  finished (t ∷ h) ss = refl

module _ {Criterion : Type 0} (same_criterion : Criterion → Criterion → Bool) where
  module _ (same_criterion_refl : (c : Criterion) → same_criterion c c ≡ true) where
    complete_head :
        (g : Text) (h : List (PlanStep Criterion)) (s : PlanStep Criterion)
        (ss : List (PlanStep Criterion))
        → is_open s ≡ true
        → (complete_current_step same_criterion
            record { goal = g; steps = s ∷ ss; completed_history = h }).1
          ≡ record { goal = g; steps = ss; completed_history = h ++ with_status completed s ∷ [] }
    unfolding complete_current_step get_current_step on_current remove
    complete_head g h s ss o =
        let same_head =
          same_step_refl same_criterion same_criterion_refl (with_status completed s) in
        rw (complete_current_step, get_current_step, o, on_current, o, remove, same_head) refl

    complete_each :
        (g : Text) (h ss : List (PlanStep Criterion))
        → all is_open ss ≡ true
        → plan_operate_all same_criterion
            (map (λ _. complete) ss)
            record { goal = g; steps = ss; completed_history = h }
          ≡ record { goal = g; steps = []; completed_history = h ++ map (with_status completed) ss }
    unfolding plan_operate_all plan_operate
    complete_each g h [] o = rw (append-nil h) refl
    complete_each g h (s ∷ ss) o = elim (Bool-cases (is_open s)) [
      | inl k ↦
          let rest = complete_each g (h ++ with_status completed s ∷ []) ss (rw k at o) in
          ap (plan_operate_all same_criterion (map (λ _. complete) ss)) (complete_head g h s ss k)
          ∙ rest
          ∙ ap (λ h'. record { goal = g; steps = []; completed_history = h' })
              (append_assoc h (with_status completed s ∷ []) (map (with_status completed) ss))
      | inr k ↦ absurd (cc (rw k at o))
    ]

    -- Completing as often as a plan has steps, all of them open, moves them to the history in their
    -- order, each marked as completed, when the equality of criteria is reflexive; the plan then
    -- reads as completed unless it had no step and no history.
    pub plan_operate_all-complete :
        (p : AgentPlan Criterion)
        → all is_open p.steps ≡ true
        → let q = plan_operate_all same_criterion (map (λ _. complete) p.steps) p in
          (q.steps ≡ [])
          × (q.completed_history ≡ p.completed_history ++ map (with_status completed) p.steps)
          × (is_completed q ≡ not (null (all_steps p)))
    unfolding is_completed get_current_step all_steps
    plan_operate_all-complete p o =
        let each = complete_each p.goal p.completed_history p.steps o in
        rw each (refl, refl, finished p.completed_history p.steps)
