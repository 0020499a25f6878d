-- ===== src/Editing/Rollback/Again.antt =====
-- A checkpoint is restored once: `rollback` of minicodex/agent/editing/rollback.py, called again.
use mini_codex.Common.{◌≡◌, ap, ◌∙◌, some, arith, same_refl}
use mini_codex.Editing.Host.{Host, HostLaws}
use mini_codex.Editing.Checkpoint.{Checkpoint, CheckpointManager, get, set_rolled_back}
use mini_codex.Editing.Checkpoint.Lookup.{changed, get-mark_rolled_back}
use mini_codex.Editing.Rollback.{
  checkpoint_already_rolled_back, restored, stopped, failed, rollback_found, rollback,
}
use mini_codex.Editing.Rollback.Restores.{rollback-IsRolledBack}

-- On a host that keeps its laws, after a successful rollback of a checkpoint by its identifier, a second one by it is refused as already rolled
-- back, whatever the disk holds by then, and changes neither the manager nor the disk.
pub rollback-rollback :
    (h : Host) (laws : HostLaws h) (c : Checkpoint) (m m' : CheckpointManager) (d d' later : h.Disk)
    → rollback h c.checkpoint_id (m, d) ≡ (restored c, (m', d'))
    → rollback h c.checkpoint_id (m', later)
      ≡ (stopped (failed checkpoint_already_rolled_back), (m', later))
unfolding rollback_found rollback
rollback-rollback h laws c m m' d d' later e =
    let r = rollback-IsRolledBack h laws c.checkpoint_id c m m' d d' e in
    let found : get c.checkpoint_id m' ≡ some (set_rolled_back c) =
      get-mark_rolled_back c.checkpoint_id c.checkpoint_id m m' c r.found r.marked
      ∙ ap (changed c.checkpoint_id set_rolled_back) r.found
      ∙ ap some (ground (arith, same_refl c.checkpoint_id)) in
    rw (found, rollback) (ground (arith, r.was_sealed))
