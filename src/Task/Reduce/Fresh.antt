-- ===== src/Task/Reduce/Fresh.antt =====
-- Which events of minicodex/agent/task_state.py the verdicts of a task survive.
use mini_codex.Common.{◌≡◌, false, none, List, [], ◌∷◌, arith, All}
use mini_codex.Task.State.{TaskState}
use mini_codex.Task.Event.{
  RuntimeEvent, task_started, edit_applied, workspace_changed, validation_observed,
  rollback_applied,
}
use mini_codex.Task.Reduce.{reduce_task_state, reduce_event, reduce_all}

-- The event changes the workspace.
abbrev pub ChangesWorkspace : RuntimeEvent → Type 0
ChangesWorkspace (edit_applied d) = Unit
ChangesWorkspace (workspace_changed d) = Unit
ChangesWorkspace (rollback_applied a b c) = Unit
ChangesWorkspace _ = ⊥

-- The event neither reports a validation nor starts a task.
abbrev pub BringsNoVerdict : RuntimeEvent → Type 0
BringsNoVerdict (task_started d) = ⊥
BringsNoVerdict (validation_observed d) = ⊥
BringsNoVerdict _ = Unit

-- No verdict and no evidence is in force.
pub record IsUnvalidated (s : TaskState) : Type 0 where
  pub acceptance : s.acceptance_passed ≡ false
  pub relevant : s.relevant_validation_passed ≡ false
  pub full : s.full_validation_passed ≡ false
  pub evidence : s.active_evidence_edit_revision ≡ none

IsUnvalidated-change :
    (e : RuntimeEvent) (s : TaskState) → ChangesWorkspace e → IsUnvalidated (reduce_task_state s e)
unfolding reduce_task_state reduce_event
IsUnvalidated-change e s c = ground arith

IsUnvalidated-step :
    (e : RuntimeEvent) (s : TaskState)
    → BringsNoVerdict e
    → IsUnvalidated s
    → IsUnvalidated (reduce_task_state s e)
unfolding reduce_task_state reduce_event
IsUnvalidated-step e s b u = ground arith

IsUnvalidated-reduce_all :
    (es : List RuntimeEvent) (s : TaskState)
    → All BringsNoVerdict es
    → IsUnvalidated s
    → IsUnvalidated (reduce_all es s)
unfolding reduce_all
IsUnvalidated-reduce_all [] s b u = u
IsUnvalidated-reduce_all (e ∷ es) s b u =
    IsUnvalidated-reduce_all es (reduce_task_state s e) b.1 (IsUnvalidated-step e s b.0 u)

-- After a change of the workspace (an edit of the agent, one from outside, or a rollback) no
-- verdict and no evidence is in force, until an event reports a validation or starts a task.
pub change_invalidates :
    (change : RuntimeEvent) (es : List RuntimeEvent) (s : TaskState)
    → ChangesWorkspace change
    → All BringsNoVerdict es
    → IsUnvalidated (reduce_all (change ∷ es) s)
unfolding reduce_all
change_invalidates change es s c b =
    IsUnvalidated-reduce_all es (reduce_task_state s change) b (IsUnvalidated-change change s c)
