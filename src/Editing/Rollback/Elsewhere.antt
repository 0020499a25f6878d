-- ===== src/Editing/Rollback/Elsewhere.antt =====
-- What one rollback (minicodex/agent/editing/rollback.py) leaves alone.
use mini_codex.Common.{◌≡◌, ◌≢◌, inl, inr, some, arith, Text, Option-cases}
use mini_codex.Editing.Host.{Host, HostLaws, resolve_workspace_path}
use mini_codex.Editing.Checkpoint.{Checkpoint, CheckpointManager, get}
use mini_codex.Editing.Rollback.{
  check_current_state, restore, mark_lifecycle, restore_and_verify, rollback_at, rollback_found,
  rollback,
}
use mini_codex.Editing.Rollback.Restores.{IsAfter-check_current_state, restore-other}

module _ (h : Host) where
  disk-mark_lifecycle :
      (c : Checkpoint) (m : CheckpointManager) (d : h.Disk) → (mark_lifecycle h c (m, d)).1.1 ≡ d
  unfolding mark_lifecycle
  disk-mark_lifecycle c m d = ground arith

  disk-restore_and_verify :
      (c : Checkpoint) (p : Text) (m : CheckpointManager) (d : h.Disk)
      → (restore_and_verify h c p (m, d)).1.1 ≡ (restore h c.snapshot p d).1
  unfolding restore_and_verify
  disk-restore_and_verify c p m d =
      ground (arith, disk-mark_lifecycle c m (restore h c.snapshot p d).1)

  rollback_at-other :
      HostLaws h
      → (c : Checkpoint) (p q : Text) (m : CheckpointManager) (d : h.Disk) → p ≢ q
      → h.node (rollback_at h c p (m, d)).1.1 q ≡ h.node d q
  unfolding rollback_at
  rollback_at-other laws c p q m d ne = elim (Option-cases (check_current_state h c (h.node d p))) [
    | inl fine ↦
        let after = IsAfter-check_current_state h c (h.node d p) fine in
        rw (fine, rollback_at, disk-restore_and_verify)
          (restore-other h laws c.snapshot p d after.raw after.stands q ne)
    | inr (x, bad) ↦ rw (bad, rollback_at)
  ]

  rollback_found-other :
      HostLaws h
      → (c : Checkpoint) (p q : Text) (m : CheckpointManager) (d : h.Disk)
      → resolve_workspace_path h m.workspace c.snapshot.path ≡ some p
      → p ≢ q
      → h.node (rollback_found h c (m, d)).1.1 q ≡ h.node d q
  unfolding rollback_found
  rollback_found-other laws c p q m d inside ne =
      rw inside (ground (arith, rollback_at-other laws c p q m d ne))

  -- On a host that keeps its laws, a rollback of a checkpoint whose path resolves, successful or
  -- not, leaves whatever stands at any other path as it was.
  pub rollback-other :
      HostLaws h
      → (id : Text) (c : Checkpoint) (p q : Text) (m : CheckpointManager) (d : h.Disk)
      → get id m ≡ some c
      → resolve_workspace_path h m.workspace c.snapshot.path ≡ some p
      → p ≢ q
      → h.node (rollback h id (m, d)).1.1 q ≡ h.node d q
  unfolding rollback
  rollback-other laws id c p q m d known inside ne =
      rw (known, rollback) (rollback_found-other laws c p q m d inside ne)
