-- ===== src/Planning.antt =====
-- The plan of a task: minicodex/agent/planning/state.py. A criterion, a mapping of names to anything,
-- is a parameter with its equality; the reading of a step from a payload is left out.
pub mod Steps
pub mod Finish
use mini_codex.Common.{
  ℕ, suc, ◌+◌, ◌≡◌, Bool, true, false, not, ◌&&◌, ◌||◌, Option, none, some, List, [], ◌∷◌, ◌++◌,
  map, Text, same, any, all, null, find, keep, ◌==◌, is_some, if◌then◌else◌,
}

pub data StepStatus : Type 0 where
  pending in_progress completed failed superseded : StepStatus

pub record PlanStep (Criterion : Type 0) : Type 0 where
  pub id : ℕ
  pub description : Text
  pub status : StepStatus
  pub acceptance_criteria : List Criterion
  pub expected_targets : List Text
  pub dependency_ids : List ℕ
  pub requires_semantic_completion : Bool
  pub quality_warnings : List Text
  pub attempts : ℕ

pub record AgentPlan (Criterion : Type 0) : Type 0 where
  pub goal : Text
  pub steps : List (PlanStep Criterion)
  pub completed_history : List (PlanStep Criterion)

-- `status in {PENDING, IN_PROGRESS}`
abbrev pub is_open_status : StepStatus → Bool
is_open_status pending = true
is_open_status in_progress = true
is_open_status _ = false

abbrev pub same_status : StepStatus → StepStatus → Bool
same_status pending pending = true
same_status in_progress in_progress = true
same_status completed completed = true
same_status failed failed = true
same_status superseded superseded = true
same_status _ _ = false

-- `==` on lists
abbrev pub same_list : {A : Type 0} → (A → A → Bool) → List A → List A → Bool
same_list f [] [] = true
same_list f (x ∷ xs) (y ∷ ys) = f x y && same_list f xs ys
same_list f _ _ = false

-- `==` on flags
abbrev pub same_bool : Bool → Bool → Bool
same_bool a b = if a then b else not b

module _ {Criterion : Type 0} where
  unfoldable pub increment_attempt : PlanStep Criterion → PlanStep Criterion
  increment_attempt s = record s { attempts = suc s.attempts }

  unfoldable pub reset_attempts : PlanStep Criterion → PlanStep Criterion
  reset_attempts s = record s { attempts = 0 }

  unfoldable pub all_steps : AgentPlan Criterion → List (PlanStep Criterion)
  all_steps p = p.completed_history ++ p.steps

  abbrev pub is_open : PlanStep Criterion → Bool
  is_open s = is_open_status s.status

  -- The first open step, changed in place.
  unfoldable pub on_current :
      (PlanStep Criterion → PlanStep Criterion)
      → List (PlanStep Criterion)
      → List (PlanStep Criterion)
  on_current f [] = []
  on_current f (s ∷ ss) = let rest = on_current f ss in if is_open s then f s ∷ ss else s ∷ rest

  abbrev pub with_status : StepStatus → PlanStep Criterion → PlanStep Criterion
  with_status status s = record s { status = status }

  unfoldable pub get_current_step : AgentPlan Criterion → Option (PlanStep Criterion)
  get_current_step p = find is_open p.steps

  -- A method that returns the current step after giving it a status.
  unfoldable pub mark_current :
      StepStatus → AgentPlan Criterion → Option (PlanStep Criterion) × AgentPlan Criterion
  mark_current status p = elim (get_current_step p) [
    | none ↦ (none, p)
    | some s ↦
        (some (with_status status s), record p { steps = on_current (with_status status) p.steps })
  ]

  unfoldable pub start_current_step :
      AgentPlan Criterion → Option (PlanStep Criterion) × AgentPlan Criterion
  start_current_step p = mark_current in_progress p

  unfoldable pub fail_current_step :
      AgentPlan Criterion → Option (PlanStep Criterion) × AgentPlan Criterion
  fail_current_step p = mark_current failed p

  abbrev is_failed_step : PlanStep Criterion → Bool
  is_failed_step s = same_status s.status failed

  abbrev is_settled_step : PlanStep Criterion → Bool
  is_settled_step s = same_status s.status completed || same_status s.status superseded

  unfoldable pub is_completed : AgentPlan Criterion → Bool
  is_completed p =
      if is_some (get_current_step p)
      then false
      else if any is_failed_step p.steps
      then false
      else if not (null p.completed_history)
      then true
      else not (null p.steps) && all is_settled_step p.steps

  -- The identifiers of the steps that are superseded, and the plan.
  unfoldable pub supersede_remaining : AgentPlan Criterion → List ℕ × AgentPlan Criterion
  supersede_remaining p = (
    map (λ s. s.id) (keep is_open p.steps),
    record p { steps = map (λ s. if is_open s then with_status superseded s else s) p.steps },
  )

module _ {Criterion : Type 0} (same_criterion : Criterion → Criterion → Bool) where
  -- `==` on steps
  abbrev pub same_step : PlanStep Criterion → PlanStep Criterion → Bool
  same_step s t =
      s.id == t.id
      && same s.description t.description
      && same_status s.status t.status
      && same_list same_criterion s.acceptance_criteria t.acceptance_criteria
      && same_list same s.expected_targets t.expected_targets
      && same_list ◌==◌ s.dependency_ids t.dependency_ids
      && same_bool s.requires_semantic_completion t.requires_semantic_completion
      && same_list same s.quality_warnings t.quality_warnings
      && s.attempts == t.attempts

  -- `steps.remove(step)`, on a list that holds a step equal to it
  unfoldable pub remove : PlanStep Criterion → List (PlanStep Criterion) → List (PlanStep Criterion)
  remove t [] = []
  remove t (s ∷ ss) = let rest = remove t ss in if same_step s t then ss else s ∷ rest

  unfoldable pub complete_current_step :
      AgentPlan Criterion → Option (PlanStep Criterion) × AgentPlan Criterion
  complete_current_step p = elim (get_current_step p) [
    | none ↦ (none, p)
    | some s ↦
        let done = with_status completed s in
        (
          some done,
          record p {
            steps = remove done (on_current (with_status completed) p.steps);
            completed_history = p.completed_history ++ done ∷ [];
          },
        )
  ]
