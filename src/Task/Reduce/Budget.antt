-- ===== src/Task/Reduce/Budget.antt =====
-- The edit budget of the work unit (minicodex/agent/editing/work_unit.py) over the events of a task.
use mini_codex.Common.{
  Option-cases, ◌+◌, ◌<◌, ◌≢◌, ◌⊎◌, inl, inr, Bool, true, false, Option, none, some, List, [], ◌∷◌,
  arith, leb, Bool-cases, Text,
}
use mini_codex.Task.WorkUnit.{WorkUnit, open_unit, closed, unit_record_edit, resolve_milestone}
use mini_codex.Task.State.{TaskState, is_terminal}
use mini_codex.Task.Event.{
  Observed, RuntimeEvent, task_started, edit_applied, workspace_changed, validation_observed,
  rollback_applied, phase_changed,
}
use mini_codex.Task.Reduce.{
  observed_passed, reduce_task_state, reduce_event, reduce_all, unit_after_validation, fail_unit,
  start_state,
}

-- A work unit that is open has edits left; the edit that uses up the budget makes it ready for
-- validation.
abbrev pub IsWithinBudget : Option WorkUnit → Type 0
IsWithinBudget none = Unit
IsWithinBudget (some u) = (u.status ≢ open_unit) ⊎ (u.edits < u.edit_budget)

IsWithinBudget-unit_record_edit :
    (path : Text) (u : WorkUnit) → IsWithinBudget (some (unit_record_edit path u))
unfolding unit_record_edit
IsWithinBudget-unit_record_edit path u = elim (Bool-cases (leb u.edit_budget (u.edits + 1))) [
  | inl full ↦ inl (λ e. absurd (cc (e, full)))
  | inr room ↦ inr (ground arith)
]

IsWithinBudget-fail_unit : (u : Option WorkUnit) → IsWithinBudget (fail_unit u)
IsWithinBudget-fail_unit none = tt
IsWithinBudget-fail_unit (some u) = inl (λ e. cc)

status-resolve_milestone :
    (passed all_resolved : Bool) (u : WorkUnit)
    → (resolve_milestone passed all_resolved u).status ≢ open_unit
unfolding resolve_milestone
status-resolve_milestone passed true u e = cc
status-resolve_milestone true false u e = cc
status-resolve_milestone false false u e = cc

IsWithinBudget-unit_after_validation :
    (d : Observed) (u : Option WorkUnit)
    → IsWithinBudget u
    → IsWithinBudget (unit_after_validation d u)
unfolding unit_after_validation
IsWithinBudget-unit_after_validation d none h = tt
IsWithinBudget-unit_after_validation d (some u) h = elim (Bool-cases (closed u)) [
  | inl shut ↦ rw shut h
  | inr live ↦ elim (Option-cases d.workunit_all_milestones_resolved) [
    | inl unsaid ↦ rw (live, unsaid) (inl (λ e. cc))
    | inr (all_resolved, said) ↦
        rw (live, said) (inl (status-resolve_milestone (observed_passed d.outcome) all_resolved u))
  ]
]

IsWithinBudget-step :
    (e : RuntimeEvent) (s : TaskState)
    → IsWithinBudget s.work_unit
    → IsWithinBudget (reduce_task_state s e).work_unit
unfolding reduce_task_state reduce_event start_state
IsWithinBudget-step (task_started d) s h = tt
IsWithinBudget-step (edit_applied d) s h = IsWithinBudget-unit_record_edit _ _
IsWithinBudget-step (workspace_changed d) s h = IsWithinBudget-fail_unit s.work_unit
IsWithinBudget-step (validation_observed d) s h =
    IsWithinBudget-unit_after_validation d s.work_unit h
IsWithinBudget-step (rollback_applied edits rollbacks restored) s h =
    IsWithinBudget-fail_unit s.work_unit
IsWithinBudget-step (phase_changed phase) s h = elim (Bool-cases (is_terminal s.phase)) [
  | inl over ↦ rw over h
  | inr on ↦ rw on h
]
IsWithinBudget-step _ s h = h

-- Through any events, a work unit that is open has edits left of its budget, if that held before.
pub reduce_all-IsWithinBudget :
    (es : List RuntimeEvent) (s : TaskState)
    → IsWithinBudget s.work_unit
    → IsWithinBudget (reduce_all es s).work_unit
unfolding reduce_all
reduce_all-IsWithinBudget [] s h = h
reduce_all-IsWithinBudget (e ∷ es) s h =
    reduce_all-IsWithinBudget es (reduce_task_state s e) (IsWithinBudget-step e s h)
