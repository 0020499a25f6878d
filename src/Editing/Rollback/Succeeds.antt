-- ===== src/Editing/Rollback/Succeeds.antt =====
-- When one rollback (minicodex/agent/editing/rollback.py) goes through.
use mini_codex.Common.{◌≡◌, refl, ap, ◌∙◌, true, false, none, some, arith, Text, same_refl}
use mini_codex.Editing.Host.{Host, HostLaws, Node, missing, file, resolve_workspace_path}
use mini_codex.Editing.Checkpoint.{
  FileSnapshot, Checkpoint, CheckpointManager, get, change, set_rolled_back, mark_rolled_back,
}
use mini_codex.Editing.Rollback.{
  restored, check_current_state, restore_existing_file, restore_missing_file, restore,
  verify_existing, verify_restore, mark_lifecycle, restore_and_verify, rollback_at, rollback_found,
  rollback,
}
use mini_codex.Editing.Rollback.Restores.{IsAfter}

-- The snapshot is whole, its content is read back as it was written, and the disk lets it be
-- restored.
pub data IsRestorable (h : Host) (s : FileSnapshot) (p : Text) (d : h.Disk) : Type 0 where
  rewritten :
      (t : Text)
      → s.existed ≡ true
      → s.content ≡ some t
      → s.sha256 ≡ some (h.content_hash t)
      → h.decode (h.encode t) ≡ some t
      → (h.write d p (h.encode t)).0 ≡ true
      → IsRestorable h s p d
  removed : s.existed ≡ false → (h.unlink d p).0 ≡ true → IsRestorable h s p d

module _ (h : Host) (laws : HostLaws h) where
  goes_ahead : (c : Checkpoint) (n : Node h.Raw) → IsAfter h c n → check_current_state h c n ≡ none
  unfolding check_current_state
  goes_ahead c n a =
      ap (check_current_state h c) a.stands
      ∙ ground (arith, a.decoded, a.hashed, same_refl (h.content_hash a.content))

  verify_existing_file :
      (s : FileSnapshot) (raw : h.Raw) (t : Text)
      → h.decode raw ≡ some t
      → s.sha256 ≡ some (h.content_hash t)
      → verify_existing h s (file raw) ≡ none
  unfolding verify_existing
  verify_existing_file s raw t e k = ground (arith, same_refl (h.content_hash t))

  verify_restore_old :
      (s : FileSnapshot) (n : Node h.Raw)
      → s.existed ≡ true
      → verify_restore h s n ≡ verify_existing h s n
  unfolding verify_restore
  verify_restore_old s n e = ground arith

  verify_restore_new : (s : FileSnapshot) → s.existed ≡ false → verify_restore h s missing ≡ none
  unfolding verify_restore
  verify_restore_new s e = ground arith

  module _ (s : FileSnapshot) (p : Text) (d : h.Disk) (raw : h.Raw)
      (there : h.node d p ≡ file raw) where
    restored_and_verified :
        IsRestorable h s p d
        → ((restore h s p d).0 ≡ true) × (verify_restore h s (h.node (restore h s p d).1 p) ≡ none)
    unfolding restore
    restored_and_verified (rewritten t old full hash back went) =
        let it : restore h s p d ≡ h.write d p (h.encode t) =
          rw (restore, old, full, restore_existing_file)
            (rw (laws.mkdir_parents_file d p raw there) refl) in
        rw it (
          went,
          ap (verify_restore h s) (laws.write_self d p (h.encode t) went)
              ∙ verify_restore_old s (file (h.encode t)) old
              ∙ verify_existing_file s (h.encode t) t back hash,
        )
    restored_and_verified (removed new went) =
        let it : restore h s p d ≡ h.unlink d p =
          rw (restore, new, there, restore_missing_file) refl in
        rw it (went, ap (verify_restore h s) (laws.unlink_self d p went) ∙ verify_restore_new s new)

  mark_known :
      (c : Checkpoint) (m : CheckpointManager) (d : h.Disk)
      → get c.checkpoint_id m ≡ some c
      → mark_lifecycle h c (m, d) ≡ (
        restored c,
        (record m { checkpoints = change c.checkpoint_id set_rolled_back m.checkpoints }, d),
      )
  unfolding mark_lifecycle mark_rolled_back
  mark_known c m d e = ground (arith, e)

  rollback_known :
      (c : Checkpoint) (m : CheckpointManager) (d : h.Disk)
      → get c.checkpoint_id m ≡ some c
      → rollback h c.checkpoint_id (m, d) ≡ rollback_found h c (m, d)
  unfolding rollback
  rollback_known c m d e = ground (arith, e)

  rollback_guarded :
      (c : Checkpoint) (p : Text) (m : CheckpointManager) (d : h.Disk)
      → c.sealed ≡ true
      → c.rolled_back ≡ false
      → resolve_workspace_path h m.workspace c.snapshot.path ≡ some p
      → rollback_found h c (m, d) ≡ rollback_at h c p (m, d)
  unfolding rollback_found
  rollback_guarded c p m d was_sealed unmarked inside = ground (arith, inside)

  rollback_checked :
      (c : Checkpoint) (p : Text) (m : CheckpointManager) (d : h.Disk)
      → check_current_state h c (h.node d p) ≡ none
      → rollback_at h c p (m, d) ≡ restore_and_verify h c p (m, d)
  unfolding rollback_at
  rollback_checked c p m d e = ground (arith, e)

  restore_went :
      (c : Checkpoint) (p : Text) (m : CheckpointManager) (d : h.Disk)
      → (restore h c.snapshot p d).0 ≡ true
      → verify_restore h c.snapshot (h.node (restore h c.snapshot p d).1 p) ≡ none
      → restore_and_verify h c p (m, d) ≡ mark_lifecycle h c (m, (restore h c.snapshot p d).1)
  unfolding restore_and_verify
  restore_went c p m d went fine = rw (restore_and_verify, went, fine) refl

  -- A rollback goes through where the checkpoint is sealed and open, its path is inside the
  -- workspace, the recorded after-state stands there, and the before-state can be restored.
  pub rollback_succeeds :
      (c : Checkpoint) (p : Text) (m : CheckpointManager) (d : h.Disk)
      → get c.checkpoint_id m ≡ some c
      → c.sealed ≡ true
      → c.rolled_back ≡ false
      → resolve_workspace_path h m.workspace c.snapshot.path ≡ some p
      → IsAfter h c (h.node d p)
      → IsRestorable h c.snapshot p d
      → rollback h c.checkpoint_id (m, d) ≡ (
        restored c,
        (
          record m { checkpoints = change c.checkpoint_id set_rolled_back m.checkpoints },
          (restore h c.snapshot p d).1,
        ),
      )
  rollback_succeeds c p m d known was_sealed unmarked inside a r =
      let v = restored_and_verified c.snapshot p d a.raw a.stands r in
      rollback_known c m d known
      ∙ rollback_guarded c p m d was_sealed unmarked inside
      ∙ rollback_checked c p m d (goes_ahead c (h.node d p) a)
      ∙ restore_went c p m d v.0 v.1
      ∙ mark_known c m (restore h c.snapshot p d).1 known
