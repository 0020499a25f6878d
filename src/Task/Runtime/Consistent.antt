-- ===== src/Task/Runtime/Consistent.antt =====
-- The task-state invariant (minicodex/agent/task_state.py) over any events.
use mini_codex.Common.{
  ◌≡◌, ◌≢◌, ◌↔◌, ◌⊎◌, inl, inr, refl, true, false, none, some, List, [], ◌∷◌, arith, null,
  Bool-cases,
}
use mini_codex.Validation.Completion.{edited_and_validated}
use mini_codex.Task.State.{TaskState, inspect_only, done, invariant_violations}
use mini_codex.Task.Event.{RuntimeEvent}
use mini_codex.Task.Reduce.{reduce_task_state}
use mini_codex.Task.Runtime.{TaskRuntime, invalid, apply, attempt, run}

-- A task that may only inspect has no edit; a task that is done as edited and validated has passed
-- acceptance; the evidence in force is of the current edit revision.
pub record IsConsistent (s : TaskState) : Type 0 where
  pub inspection : (s.intent ≢ inspect_only) ⊎ (s.has_edit ≡ false)
  pub acceptance :
      (s.phase ≢ done) ⊎ (s.outcome ≢ edited_and_validated) ⊎ (s.acceptance_passed ≡ true)
  pub evidence :
      (s.active_evidence_edit_revision ≡ none)
      ⊎ (s.active_evidence_edit_revision ≡ some s.edit_revision)

IsConsistent-null : (s : TaskState) → invariant_violations false false s ≡ [] → IsConsistent s
unfolding invariant_violations
IsConsistent-null s h = ground arith

null-IsConsistent : (s : TaskState) → IsConsistent s → invariant_violations false false s ≡ []
unfolding invariant_violations
null-IsConsistent s h = ground arith

-- The runtime's check finds no violation exactly in a consistent state: no edit in a task that may
-- only inspect, acceptance passed where it is done as edited and validated, and the evidence in
-- force, if any, of the current edit revision.
pub invariant_violations_iff :
    (s : TaskState) → (invariant_violations false false s ≡ []) ↔ IsConsistent s
invariant_violations_iff s = (IsConsistent-null s, null-IsConsistent s)

null-eq-nil {ℓ} : {A : Type ℓ} (xs : List A) → null xs ≡ true → xs ≡ []
null-eq-nil [] h = refl
null-eq-nil (x ∷ xs) h = cc

state-attempt :
    (e : RuntimeEvent) (r : TaskRuntime)
    → ((attempt e r).state ≡ r.state)
      ⊎ (((attempt e r).state ≡ reduce_task_state r.state e)
          × (invariant_violations false false (reduce_task_state r.state e) ≡ []))
unfolding attempt apply
state-attempt e r =
    elim (Bool-cases (null (invariant_violations false false (reduce_task_state r.state e)))) [
      | inl fine ↦ inr (rw fine, null-eq-nil _ fine)
      | inr broken ↦ inl (rw broken)
    ]

attempt-IsConsistent :
    (e : RuntimeEvent) (r : TaskRuntime) → IsConsistent r.state → IsConsistent (attempt e r).state
attempt-IsConsistent e r h = elim (state-attempt e r) [
  | inl same ↦ rw same h
  | inr (stepped, fine) ↦ rw stepped (IsConsistent-null _ fine)
]

-- Whatever events are tried, the state of a runtime that started consistent stays so: no edit in a
-- task that may only inspect, none done as edited and validated without acceptance, and no
-- evidence in force from another edit revision.
pub run-IsConsistent :
    (es : List RuntimeEvent) (r : TaskRuntime)
    → IsConsistent r.state
    → IsConsistent (run es r).state
unfolding run
run-IsConsistent [] r h = h
run-IsConsistent (e ∷ es) r h = run-IsConsistent es (attempt e r) (attempt-IsConsistent e r h)

-- An event that leads to a state that breaks the invariant is refused with the violations, and
-- neither the state nor the trace changes.
pub apply-invalid :
    (e : RuntimeEvent) (r : TaskRuntime)
    → ¬ IsConsistent (reduce_task_state r.state e)
    → (apply e r ≡ invalid (invariant_violations false false (reduce_task_state r.state e)))
      × (attempt e r ≡ r)
unfolding attempt apply
apply-invalid e r h =
    elim (Bool-cases (null (invariant_violations false false (reduce_task_state r.state e)))) [
      | inl fine ↦ absurd (h (IsConsistent-null _ (null-eq-nil _ fine)))
      | inr broken ↦ (rw broken, rw broken)
    ]
