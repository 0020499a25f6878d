-- ===== src/Coordination.antt =====
-- The automatic rollback of an edit after which a validation got worse:
-- minicodex/agent/editing/rollback_coordinator.py, on the validation ledger, the store of checkpoints, the disk and
-- the task runtime. What it resets besides (the session's cache of files, the map of the repository, the
-- memory, the evidence of plan steps, the metrics, the progress, the action controller) is left out.
pub mod Effects
use mini_codex.Common.{
  ℕ, suc, ◌+◌, ◌≡◌, Bool, true, false, not, ◌&&◌, ◌||◌, Option, none, some, List, [], ◌∷◌, map,
  Text, all, null, keep, ltb, ◌==◌, if◌then◌else◌,
}
use mini_codex.Common.Int.{ℤ, pos}
use mini_codex.Validation.Plan.{TaskRequirement, TaskRequirements, for_requirement}
use mini_codex.Validation.Ledger.{ValidationLedger, record_edit, is_proven}
use mini_codex.Task.State.{Violation}
use mini_codex.Task.Event.{RuntimeEvent, requirements_updated, rollback_applied}
use mini_codex.Task.Runtime.{TaskRuntime, Applied, accepted, invalid, apply}
use mini_codex.Editing.Host.{Host}
use mini_codex.Editing.Checkpoint.{Checkpoint, CheckpointManager, Error, latest_for_revision}
use mini_codex.Editing.Rollback.{
  FailureType, Problem, failed, raised, RollbackResult, restored, stopped, Files, rollback,
}
use mini_codex.Editing.Retry.{PendingEditRetry}
use mini_codex.Control.Recovery.{RecoveryController, mark_progress}

-- The revisions of `ValidationProgress`.
pub record ValidationProgress : Type 0 where
  pub previous_revision : Option ℕ
  pub current_revision : Option ℕ

unfoldable pub crossed_revision : ValidationProgress → Bool
crossed_revision p = elim p.previous_revision [
  | none ↦ false
  | some before ↦ elim p.current_revision [ none ↦ false | some current ↦ ltb before current ]
]

-- The parts of the agent that the coordinator reads and changes here.
pub record Session (h : Host) : Type 0 where
  pub ledger : ValidationLedger
  pub requirements : TaskRequirements
  pub files : Files h
  pub runtime : TaskRuntime
  pub rollback_revision : ℕ
  pub edit_retry : Option PendingEditRetry
  pub recovery : RecoveryController

-- `none` is the None that leaves the session as it was; the others are the two decisions, both of
-- which restart the loop, and the exceptions of the rollback and of the runtime.
pub data Coordinated : Type 0 where
  no_decision : Coordinated
  rolled_back : Checkpoint → Coordinated
  rollback_failed : FailureType → Coordinated
  rollback_raised : Error → Coordinated
  event_raised : List Violation → Coordinated

unfoldable pub satisfied_requirement_ids : ValidationLedger → TaskRequirements → List Text
satisfied_requirement_ids l requirements =
    map (λ r. r.id)
      (keep
        (λ r.
          let checks = for_requirement l.plan r.id in not (null checks) && all (is_proven l) checks)
        requirements.items)

-- `sync_requirements_state`
unfoldable pub requirements_event : ValidationLedger → TaskRequirements → RuntimeEvent
requirements_event l requirements =
    requirements_updated (some (map (λ r. r.id) requirements.items))
      (some (satisfied_requirement_ids l requirements))

module _ (h : Host) where
  -- ROLLBACK_APPLIED, and the recovery after it.
  unfoldable pub report_rollback : Checkpoint → Session h → Coordinated × Session h
  report_rollback c s =
      elim (apply
        (rollback_applied (some (pos s.ledger.edit_revision)) (some (pos s.rollback_revision))
          (c.snapshot.path ∷ []))
        s.runtime) [
          | invalid vs ↦ (event_raised vs, s)
          | accepted r ↦
              (rolled_back c, record s { runtime = r; recovery = mark_progress s.recovery })
        ]

  -- The events after the rollback; the requirements are reported first.
  unfoldable pub report : Checkpoint → Session h → Coordinated × Session h
  report c s = elim (apply (requirements_event s.ledger s.requirements) s.runtime) [
    | invalid vs ↦ (event_raised vs, s)
    | accepted told ↦ report_rollback c (record s {
      runtime = told;
      edit_retry = none;
      rollback_revision = suc s.rollback_revision;
    })
  ]

  unfoldable pub continue_after :
      Checkpoint → RollbackResult × Files h → Session h → Coordinated × Session h
  continue_after c (restored k, f) s =
      report c (record s { ledger = record_edit true s.ledger; files = f })
  continue_after c (stopped (failed x), f) s = (rollback_failed x, record s { files = f })
  continue_after c (stopped (raised e), f) s = (rollback_raised e, record s { files = f })

  unfoldable pub coordinate_checkpoint : Option Checkpoint → Session h → Coordinated × Session h
  coordinate_checkpoint none s = (no_decision, s)
  coordinate_checkpoint (some c) s =
      if not c.sealed || c.rolled_back
      then (no_decision, s)
      else continue_after c (rollback h c.checkpoint_id s.files) s

  abbrev is_revision : Option ℕ → ℕ → Bool
  is_revision none n = false
  is_revision (some m) n = m == n

  unfoldable pub coordinate : ℕ → ValidationProgress → Session h → Coordinated × Session h
  coordinate evidence_revision p s =
      if not (crossed_revision p)
        || not (evidence_revision == s.ledger.edit_revision)
        || not (is_revision p.current_revision s.ledger.edit_revision)
      then (no_decision, s)
      else coordinate_checkpoint (latest_for_revision evidence_revision s.files.0) s
