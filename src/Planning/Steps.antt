-- ===== src/Planning/Steps.antt =====
-- What the operations of a plan (minicodex/agent/planning/state.py) do to its steps.
use mini_codex.Common.{
  ℕ, suc, ◌+◌, ◌≤◌, ◌≡◌, refl, sym, ap, ◌∙◌, Bool, true, false, some, List, [], ◌∷◌, ◌++◌, map,
  arith, same, same_refl, find, length, length-append, all, ◌==◌, inl, inr, Bool-cases,
  Option-cases, if◌then◌else◌,
}
use mathlib.Core.List.{append_assoc, append-nil}
use mini_codex.Planning.{
  StepStatus, in_progress, completed, failed, superseded, PlanStep, AgentPlan, all_steps, is_open,
  is_open_status, same_status, same_list, same_step, on_current, remove, with_status,
  get_current_step, mark_current, start_current_step, fail_current_step, complete_current_step,
  supersede_remaining,
}

pub data PlanOperation : Type 0 where
  start complete fail supersede : PlanOperation

module _ {Criterion : Type 0} where
  abbrev pub is_done : PlanStep Criterion → Bool
  is_done s = same_status s.status completed

  abbrev pub open_count : List (PlanStep Criterion) → ℕ
  open_count [] = 0
  open_count (s ∷ ss) = if is_open s then suc (open_count ss) else open_count ss

  module _ (status : StepStatus) where
    length-on_current :
        (ss : List (PlanStep Criterion)) → length (on_current (with_status status) ss) ≡ length ss
    unfolding on_current
    length-on_current [] = refl
    length-on_current (s ∷ ss) = ground (arith, length-on_current ss)

    -- A status that is not open closes the current step.
    open_count-closed :
        (ss : List (PlanStep Criterion)) (s : PlanStep Criterion)
        → is_open_status status ≡ false
        → find is_open ss ≡ some s
        → suc (open_count (on_current (with_status status) ss)) ≡ open_count ss
    unfolding on_current
    open_count-closed [] s c e = absurd (cc e)
    open_count-closed (t ∷ ss) s c e = elim (Bool-cases (is_open t)) [
      | inl k ↦ ground (arith, k, c)
      | inr k ↦ let rest = open_count-closed ss s c (rw k at e) in ground (arith, k, rest)
    ]

    open_count-started :
        (ss : List (PlanStep Criterion))
        → is_open_status status ≡ true
        → open_count (on_current (with_status status) ss) ≡ open_count ss
    unfolding on_current
    open_count-started [] c = refl
    open_count-started (t ∷ ss) c = ground (arith, c, open_count-started ss c)

  length-supersede :
      (ss : List (PlanStep Criterion))
      → length (map (λ s. if is_open s then with_status superseded s else s) ss) ≡ length ss
  length-supersede [] = refl
  length-supersede (s ∷ ss) = ap suc (length-supersede ss)

  open_count-supersede :
      (ss : List (PlanStep Criterion))
      → open_count (map (λ s. if is_open s then with_status superseded s else s) ss) ≡ 0
  open_count-supersede [] = refl
  open_count-supersede (s ∷ ss) = ground (arith, open_count-supersede ss)

all-append :
    {A : Type 0} (p : A → Bool) (xs ys : List A)
    → all p xs ≡ true
    → all p ys ≡ true
    → all p (xs ++ ys) ≡ true
all-append p [] ys e f = f
all-append p (x ∷ xs) ys e f = elim (Bool-cases (p x)) [
  | inl k ↦ let rest = all-append p xs ys (rw k at e) f in rw (k, rest) refl
  | inr k ↦ absurd (cc (rw k at e))
]

same_status-open : (a b : StepStatus) → same_status a b ≡ true → is_open_status a ≡ is_open_status b
same_status-open a b e = ground arith

same_list_refl :
    {A : Type 0} (f : A → A → Bool)
    → ((x : A) → f x x ≡ true)
    → (xs : List A) → same_list f xs xs ≡ true
same_list_refl f r [] = refl
same_list_refl f r (x ∷ xs) = rw (r x, same_list_refl f r xs) refl

==-refl : (n : ℕ) → (n == n) ≡ true
==-refl n = ground arith

module _ {Criterion : Type 0} (same_criterion : Criterion → Criterion → Bool) where
  unfoldable pub plan_operate : PlanOperation → AgentPlan Criterion → AgentPlan Criterion
  plan_operate start p = (start_current_step p).1
  plan_operate complete p = (complete_current_step same_criterion p).1
  plan_operate fail p = (fail_current_step p).1
  plan_operate supersede p = (supersede_remaining p).1

  unfoldable pub plan_operate_all : List PlanOperation → AgentPlan Criterion → AgentPlan Criterion
  plan_operate_all [] p = p
  plan_operate_all (o ∷ os) p = plan_operate_all os (plan_operate o p)

  -- A step that is not open is removed without changing the number of the open ones.
  open_count-remove :
      (t : PlanStep Criterion) (ss : List (PlanStep Criterion))
      → is_open t ≡ false
      → open_count (remove same_criterion t ss) ≡ open_count ss
  unfolding remove
  open_count-remove t [] c = refl
  open_count-remove t (s ∷ ss) c =
      ground (arith, c, open_count-remove t ss c, same_status-open s.status t.status)

  module _ (same_criterion_refl : (c : Criterion) → same_criterion c c ≡ true) where
    pub same_step_refl : (s : PlanStep Criterion) → same_step same_criterion s s ≡ true
    same_step_refl s =
        rw
          (
            ==-refl s.id,
            same_refl s.description,
            same_list_refl same_criterion same_criterion_refl s.acceptance_criteria,
            same_list_refl same same_refl s.expected_targets,
            same_list_refl ◌==◌ ==-refl s.dependency_ids,
            same_list_refl same same_refl s.quality_warnings,
          )
          ground (arith)

    same_step-eq : (s u : PlanStep Criterion) → s ≡ u → same_step same_criterion s u ≡ true
    same_step-eq s u e = rw (sym e) (same_step_refl s)

    length-remove_head :
        (s u : PlanStep Criterion) (ss : List (PlanStep Criterion))
        → s ≡ u
        → length (remove same_criterion u (s ∷ ss)) ≡ length ss
    unfolding remove
    length-remove_head s u ss e = rw (same_step-eq s u e) refl

    -- The step that has been completed is there to be removed.
    length-remove :
        (ss : List (PlanStep Criterion)) (s : PlanStep Criterion)
        → find is_open ss ≡ some s
        → suc (
            length (
              remove same_criterion
                (with_status completed s)
                (on_current (with_status completed) ss)))
          ≡ length ss
    unfolding remove on_current
    length-remove [] s e = absurd (cc e)
    length-remove (t ∷ ss) s e = elim (Bool-cases (is_open t)) [
      | inl k ↦
          let is_head : t ≡ s = cc (rw k at e) in
          let same_head = ap (with_status completed) is_head in
          let rest =
            length-remove_head (with_status completed t) (with_status completed s) ss same_head in
          rw k (ap suc rest)
      | inr k ↦
          let rest = length-remove ss s (rw k at e) in
          let kept = length-on_current completed ss in ground (arith, k, rest, kept)
    ]

    -- What an operation may do: no step is lost, and what joins the history is completed and was open.
    pub record Advances (p q : AgentPlan Criterion) : Type 0 where
      pub no_step_lost : length (all_steps q) ≡ length (all_steps p)
      pub counted :
          length q.completed_history + open_count q.steps
          ≤ length p.completed_history + open_count p.steps
      pub extended :
          (new : List (PlanStep Criterion)) × (q.completed_history ≡ p.completed_history ++ new)
          × (all is_done new ≡ true)

    same-Advances : (p : AgentPlan Criterion) → Advances p p
    same-Advances p = record {
      no_step_lost = refl;
      counted = omega arith;
      extended = ([], sym (append-nil p.completed_history), refl);
    }

    -- An operation that leaves the history.
    steps-Advances :
        (p : AgentPlan Criterion) (ss : List (PlanStep Criterion))
        → length ss ≡ length p.steps
        → open_count ss ≤ open_count p.steps
        → Advances p (record p { steps = ss })
    unfolding all_steps
    steps-Advances p ss l o = record {
      no_step_lost =
          rw (length-append p.completed_history ss, length-append p.completed_history p.steps, l)
            refl;
      counted = omega (arith, o);
      extended = ([], sym (append-nil p.completed_history), refl);
    }

    mark_current-Advances :
        (status : StepStatus) (p : AgentPlan Criterion)
        → ((s : PlanStep Criterion)
            → find is_open p.steps ≡ some s
            → open_count (on_current (with_status status) p.steps) ≤ open_count p.steps)
        → Advances p ((mark_current status p).1)
    unfolding mark_current get_current_step
    mark_current-Advances status p o = elim (Option-cases (find is_open p.steps)) [
      | inl k ↦ rw (mark_current, k) (same-Advances p)
      | inr (s, k) ↦
          let ss = on_current (with_status status) p.steps in
          rw (mark_current, k) (steps-Advances p ss (length-on_current status p.steps) (o s k))
    ]

    complete_current_step-Advances :
        (p : AgentPlan Criterion) → Advances p ((complete_current_step same_criterion p).1)
    unfolding complete_current_step get_current_step all_steps
    complete_current_step-Advances p = elim (Option-cases (find is_open p.steps)) [
      | inl k ↦ rw (complete_current_step, k) (same-Advances p)
      | inr (s, k) ↦
          let done = with_status completed s in
          let history = length-append p.completed_history (done ∷ []) in
          let left = on_current (with_status completed) p.steps in
          let l = length-remove p.steps s k in
          let c = open_count-remove done left refl in
          let o = open_count-closed completed p.steps s refl k in
          rw (complete_current_step, k)
            record {
              no_step_lost =
                  rw
                    (
                      length-append (p.completed_history ++ done ∷ [])
                          (remove same_criterion done left),
                      length-append p.completed_history p.steps,
                    )
                    omega (arith, history, l);
              counted = omega (arith, history, c, o);
              extended = (done ∷ [], refl, refl);
            }
    ]

    plan_operate-Advances :
        (o : PlanOperation) (p : AgentPlan Criterion) → Advances p (plan_operate o p)
    unfolding plan_operate start_current_step fail_current_step supersede_remaining
    plan_operate-Advances start p =
        mark_current-Advances in_progress p
          (λ s k. omega (arith, open_count-started in_progress p.steps refl))
    plan_operate-Advances complete p = complete_current_step-Advances p
    plan_operate-Advances fail p =
        mark_current-Advances failed p
          (λ s k. omega (arith, open_count-closed failed p.steps s refl k))
    plan_operate-Advances supersede p =
        steps-Advances p _ (length-supersede p.steps) (omega (arith, open_count-supersede p.steps))

    trans-Advances : (p q r : AgentPlan Criterion) → Advances p q → Advances q r → Advances p r
    trans-Advances p q r a b =
        let (new, e, done) = a.extended in
        let (newer, f, also) = b.extended in
        record {
          no_step_lost = b.no_step_lost ∙ a.no_step_lost;
          counted = omega (arith, a.counted, b.counted);
          extended = (
            new ++ newer,
            f ∙ ap (◌++ newer) e ∙ append_assoc p.completed_history new newer,
            all-append is_done new newer done also,
          );
        }

    -- Any operations on a plan, when the equality of criteria is reflexive, keep the number of its
    -- steps and only append completed steps to the history; the steps in the history and the open
    -- ones together never grow, so that each step that joins the history closes an open one.
    pub plan_operate_all-Advances :
        (os : List PlanOperation) (p : AgentPlan Criterion) → Advances p (plan_operate_all os p)
    unfolding plan_operate_all
    plan_operate_all-Advances [] p = same-Advances p
    plan_operate_all-Advances (o ∷ os) p =
        let q = plan_operate o p in
        trans-Advances p q (plan_operate_all os q) (plan_operate-Advances o p)
          (plan_operate_all-Advances os q)
