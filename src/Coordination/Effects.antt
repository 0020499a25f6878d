-- ===== src/Coordination/Effects.antt =====
-- What an automatic rollback (minicodex/agent/editing/rollback_coordinator.py) leaves of the session.
use mini_codex.Common.{
  ℕ, suc, ◌≡◌, ◌≢◌, inl, inr, refl, sym, ap, true, Option, none, some, [], ◌∷◌, arith, Option-cases,
}
use mini_codex.Validation.Plan.{TaskRequirements}
use mini_codex.Validation.Regression.{RegressionRequirement}
use mini_codex.Validation.Ledger.{record_edit}
use mini_codex.Validation.Ledger.Freshness.{IsNamed}
use mini_codex.Validation.Ledger.History.{IsWellFormed}
use mini_codex.Validation.Completion.{evaluate, ready}
use mini_codex.Validation.Completion.Gate.{record_edit_closes_gate}
use mini_codex.Common.Int.{pos}
use mini_codex.Task.Event.{rollback_applied}
use mini_codex.Task.Runtime.{TaskRuntime, apply}
use mini_codex.Editing.Host.{Host, HostLaws}
use mini_codex.Editing.Checkpoint.{Checkpoint, latest_for_revision}
use mini_codex.Editing.Rollback.{failed, raised, RollbackResult, restored, stopped, Files, rollback}
use mini_codex.Editing.Rollback.Restores.{IsRolledBack, rollback-IsRolledBack}
use mini_codex.Control.Bounds.{Applied-cases}
use mini_codex.Control.Recovery.{mark_progress}
use mini_codex.Coordination.{
  ValidationProgress, Session, rolled_back, report_rollback, report, continue_after,
  coordinate_checkpoint, coordinate, requirements_event,
}

-- The rollback that was made, and the session after it.
pub record IsRecovered (h : Host) (c : Checkpoint) (s s' : Session h) : Type 0 where
  pub entry : Checkpoint
  pub taken_back : IsRolledBack h c.checkpoint_id s.files.0 s.files.1 entry s'.files.0 s'.files.1
  pub new_ledger : s'.ledger ≡ record_edit true s.ledger
  pub no_retry : s'.edit_retry ≡ none
  pub no_recovery : s'.recovery.level ≡ 0
  pub counted : s'.rollback_revision ≡ suc s.rollback_revision

-- What a step of the report leaves where it ends.
record IsReported (h : Host) (c k : Checkpoint) (s s' : Session h) : Type 0 where
  same_checkpoint : c ≡ k
  same_files : s'.files ≡ s.files
  same_ledger : s'.ledger ≡ s.ledger
  same_retry : s'.edit_retry ≡ s.edit_retry
  no_recovery : s'.recovery.level ≡ 0
  same_count : s'.rollback_revision ≡ s.rollback_revision

module _ (h : Host) (c : Checkpoint) (s' : Session h) where
  IsReported-rollback :
      (k : Checkpoint) (s : Session h)
      → report_rollback h k s ≡ (rolled_back c, s')
      → IsReported h c k s s'
  unfolding report_rollback mark_progress
  IsReported-rollback k s e =
      elim (Applied-cases (
        apply
          (rollback_applied (some (pos s.ledger.edit_revision)) (some (pos s.rollback_revision))
            (k.snapshot.path ∷ []))
          s.runtime)) [
            | inr (vs, bad) ↦ absurd (cc (rw (report_rollback, bad) at e))
            | inl (r, fine) ↦
                let e' = rw (report_rollback, fine) at e in
                record {
                  same_checkpoint = cc (ap (λ x. x.0) e');
                  same_files = sym (ap (λ x. x.1.files) e');
                  same_ledger = sym (ap (λ x. x.1.ledger) e');
                  same_retry = sym (ap (λ x. x.1.edit_retry) e');
                  no_recovery = sym (ap (λ x. x.1.recovery.level) e');
                  same_count = sym (ap (λ x. x.1.rollback_revision) e');
                }
          ]

  report_told :
      (k : Checkpoint) (s : Session h)
      → report h k s ≡ (rolled_back c, s')
      → (told : TaskRuntime) × IsReported h c k
          (record s {
            runtime = told;
            edit_retry = none;
            rollback_revision = suc s.rollback_revision;
          })
          s'
  unfolding report
  report_told k s e =
      elim (Applied-cases (apply (requirements_event s.ledger s.requirements) s.runtime)) [
        | inr (vs, bad) ↦ absurd (cc (rw (report, bad) at e))
        | inl (told, fine) ↦ (told, IsReported-rollback k _ (rw (report, fine) at e))
      ]

  continue_after-restored :
      (k : Checkpoint) (r : RollbackResult × Files h) (s : Session h)
      → continue_after h k r s ≡ (rolled_back c, s')
      → (entry : Checkpoint) × (r.0 ≡ restored entry)
        × (report h k (record s { ledger = record_edit true s.ledger; files = r.1 })
            ≡ (rolled_back c, s'))
  unfolding continue_after
  continue_after-restored k (restored n, f) s e = (n, refl, e)
  continue_after-restored k (stopped (failed x), f) s e = absurd (cc e)
  continue_after-restored k (stopped (raised x), f) s e = absurd (cc e)

  coordinated_rollback :
      (n : ℕ) (p : ValidationProgress) (s : Session h)
      → coordinate h n p s ≡ (rolled_back c, s')
      → (k : Checkpoint) × (continue_after h k (rollback h k.checkpoint_id s.files) s
          ≡ (rolled_back c, s'))
  unfolding coordinate coordinate_checkpoint
  coordinated_rollback n p s e = elim (Option-cases (latest_for_revision n s.files.0)) [
    | inl unknown ↦ absurd (ground (arith, e, unknown))
    | inr (k, known) ↦ (k, ground (arith, e, known))
  ]

IsRecovered-coordinate :
    (h : Host) (laws : HostLaws h) (n : ℕ) (p : ValidationProgress) (c : Checkpoint)
    (s s' : Session h)
    → coordinate h n p s ≡ (rolled_back c, s')
    → IsRecovered h c s s'
IsRecovered-coordinate h laws n p c s s' e =
    let (k, e1) = coordinated_rollback h c s' n p s e in
    let r = rollback h k.checkpoint_id s.files in
    let (entry, went, e2) = continue_after-restored h c s' k r s e1 in
    let (told, o) =
      report_told h c s' k (record s { ledger = record_edit true s.ledger; files = r.1 }) e2 in
    record {
      entry = entry;
      taken_back =
          rw (o.same_checkpoint, o.same_files)
            (rollback-IsRolledBack h laws k.checkpoint_id entry s.files.0 r.1.0 s.files.1 r.1.1
              (ap (λ x. (x, r.1)) went));
      new_ledger = o.same_ledger;
      no_retry = o.same_retry;
      no_recovery = o.no_recovery;
      counted = o.same_count;
    }

-- An automatic rollback that is reported as made has, on a host that keeps its laws, taken back the
-- edit of the checkpoint on the disk and in the store, counts as an edit of the ledger, and leaves no
-- retry pending, no recovery under way, and the completion gate closed, where the ledger is
-- well-formed and its checks have names.
pub coordinate-rolled_back :
    (h : Host) (laws : HostLaws h) (n : ℕ) (p : ValidationProgress) (c : Checkpoint)
    (s s' : Session h) (requirements : Option TaskRequirements)
    (resolver : Option RegressionRequirement)
    → IsWellFormed s.ledger
    → IsNamed s.ledger.plan.checks
    → coordinate h n p s ≡ (rolled_back c, s')
    → IsRecovered h c s s' × ((evaluate (some s'.ledger) requirements resolver).status ≢ ready)
coordinate-rolled_back h laws n p c s s' requirements resolver w named e =
    let r = IsRecovered-coordinate h laws n p c s s' e in
    (r, rw r.new_ledger (record_edit_closes_gate true s.ledger requirements resolver w named))
