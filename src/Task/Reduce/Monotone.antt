-- ===== src/Task/Reduce/Monotone.antt =====
-- Which counters of minicodex/agent/task_state.py never fall within a task.
use mini_codex.Common.{suc, ◌+◌, ◌≤◌, ◌≡◌, List, [], ◌∷◌, arith, length, get_or, All}
use mini_codex.Common.Int.{ℤ, pos, ◌+ℤ◌, ◌≤ℤ◌, maxℤ, maxℤ_left}
use mini_codex.Task.State.{TaskState}
use mini_codex.Task.Event.{
  RuntimeEvent, task_started, mode_escalated, plan_activated, plan_reconciled, validation_observed,
  recovery_started, rollback_applied, phase_changed,
}
use mini_codex.Task.Reduce.{reduce_task_state, reduce_event, reduce_all, start_state, rank}

abbrev pub StartsNoTask : RuntimeEvent → Type 0
StartsNoTask (task_started d) = ⊥
StartsNoTask _ = Unit

-- `t` is not behind `s` in any of the counters and in the mode.
pub record NotBehind (s t : TaskState) : Type 0 where
  pub validation : s.validation_revision ≤ℤ t.validation_revision
  pub rollback : s.rollback_revision ≤ℤ t.rollback_revision
  pub plan : s.plan_revision ≤ℤ t.plan_revision
  pub recovery : s.recovery_level ≤ℤ t.recovery_level
  pub mode : rank s.mode ≤ rank t.mode

next_le : (a b : ℤ) → a ≤ℤ maxℤ (a +ℤ pos 1) b
unfolding ◌+ℤ◌ maxℤ
next_le a b = ground arith

NotBehind-step :
    (e : RuntimeEvent) (s : TaskState) → StartsNoTask e → NotBehind s (reduce_task_state s e)
unfolding reduce_task_state reduce_event
NotBehind-step (task_started d) s n = absurd n
NotBehind-step (mode_escalated entry) s n = ground arith
NotBehind-step (plan_activated revision) s n =
    ground (arith, next_le s.plan_revision (get_or revision (pos 0)))
NotBehind-step (plan_reconciled activated revision completed superseded) s n =
    ground (arith, maxℤ_left s.plan_revision (get_or revision s.plan_revision))
NotBehind-step (validation_observed d) s n = ground (
  arith,
  next_le s.validation_revision (get_or d.validation_revision (s.validation_revision +ℤ pos 1)),
)
NotBehind-step (recovery_started level) s n =
    ground (arith, maxℤ_left s.recovery_level (get_or level (s.recovery_level +ℤ pos 1)))
NotBehind-step (rollback_applied edits rollbacks restored) s n =
    ground (arith, next_le s.rollback_revision (get_or rollbacks (pos 0)))
NotBehind-step (phase_changed phase) s n = ground arith
NotBehind-step _ s n = ground arith

NotBehind-reduce_all :
    (es : List RuntimeEvent) (s t : TaskState)
    → All StartsNoTask es
    → NotBehind s t
    → NotBehind s (reduce_all es t)
unfolding reduce_all
NotBehind-reduce_all [] s t n h = h
NotBehind-reduce_all (e ∷ es) s t n h =
    let k = NotBehind-step e t n.0 in
    NotBehind-reduce_all es s (reduce_task_state t e) n.1 (record {
      validation = omega arith;
      rollback = omega arith;
      plan = omega arith;
      recovery = omega arith;
      mode = omega arith;
    })

-- Through events that start no task the revisions of validation, rollback and plan, the recovery level and the execution
-- mode never fall.
pub counters_monotone :
    (es : List RuntimeEvent) (s : TaskState) → All StartsNoTask es → NotBehind s (reduce_all es s)
counters_monotone es s n = NotBehind-reduce_all es s s n (record {
  validation = omega arith;
  rollback = omega arith;
  plan = omega arith;
  recovery = omega arith;
  mode = omega arith;
})

event_sequence-step :
    (e : RuntimeEvent) (s : TaskState)
    → (reduce_task_state s e).event_sequence ≡ suc s.event_sequence
unfolding reduce_task_state reduce_event start_state
event_sequence-step e s = ground arith

-- Any sequence of events, starts of tasks included, raises `event_sequence` by the number of events.
pub event_sequence-reduce_all :
    (es : List RuntimeEvent) (s : TaskState)
    → (reduce_all es s).event_sequence ≡ s.event_sequence + length es
unfolding reduce_all
event_sequence-reduce_all [] s = omega arith
event_sequence-reduce_all (e ∷ es) s =
    omega (arith, event_sequence-step e s, event_sequence-reduce_all es (reduce_task_state s e))
