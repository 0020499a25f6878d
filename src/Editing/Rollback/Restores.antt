-- ===== src/Editing/Rollback/Restores.antt =====
-- What one rollback (minicodex/agent/editing/rollback.py) does to the files and the checkpoints.
use mini_codex.Common.{
  ◌≡◌, ◌≢◌, inl, inr, refl, sym, ap, true, false, Option, none, some, arith, Text, same_iff,
  Bool-cases, Option-cases,
}
use mini_codex.Editing.Host.{Host, HostLaws, Node, missing, directory, file, resolve_workspace_path}
use mini_codex.Editing.Checkpoint.{
  FileSnapshot, Checkpoint, CheckpointManager, ok, get, mark_rolled_back,
}
use mini_codex.Editing.Rollback.{
  restored, same_hash, check_current_state, restore_existing_file, restore_missing_file, restore,
  verify_restore, mark_lifecycle, restore_and_verify, rollback_at, rollback_found, rollback,
}

-- What stands at the path is the before-state of the snapshot: its content, or nothing.
pub data IsBefore (h : Host) (s : FileSnapshot) (n : Node h.Raw) : Type 0 where
  content_back :
      (t : Text) → s.existed ≡ true → s.content ≡ some t → n ≡ file (h.encode t) → IsBefore h s n
  file_gone : s.existed ≡ false → n ≡ missing → IsBefore h s n

-- What stands at the path is the after-state that the checkpoint recorded.
pub record IsAfter (h : Host) (c : Checkpoint) (n : Node h.Raw) : Type 0 where
  pub raw : h.Raw
  pub content : Text
  pub stands : n ≡ file raw
  pub decoded : h.decode raw ≡ some content
  pub hashed : c.after_sha256 ≡ some (h.content_hash content)

module _ (h : Host) where
  same_hash-eq : (a : Text) (o : Option Text) → same_hash (some a) o ≡ true → o ≡ some a
  same_hash-eq a none e = cc
  same_hash-eq a (some b) e = ap some (sym ((same_iff a b).0 e))

  pub IsAfter-check_current_state :
      (c : Checkpoint) (n : Node h.Raw) → check_current_state h c n ≡ none → IsAfter h c n
  unfolding check_current_state
  IsAfter-check_current_state c missing e = cc
  IsAfter-check_current_state c directory e = cc
  IsAfter-check_current_state c (file raw) e = elim (Option-cases (h.decode raw)) [
    | inl bad ↦ absurd (ground arith)
    | inr (t, good) ↦ record {
      raw = raw;
      content = t;
      stands = refl;
      decoded = good;
      hashed = same_hash-eq (h.content_hash t) c.after_sha256 (ground arith);
    }
  ]

  module _ (laws : HostLaws h) (s : FileSnapshot) (p : Text) (d : h.Disk) (raw : h.Raw)
      (there : h.node d p ≡ file raw) where
    restore_content :
        (t : Text)
        → s.existed ≡ true
        → s.content ≡ some t
        → restore h s p d ≡ h.write d p (h.encode t)
    unfolding restore
    restore_content t e k =
        rw (e, k, restore_existing_file) (rw (laws.mkdir_parents_file d p raw there))

    restore_no_content : s.existed ≡ true → s.content ≡ none → restore h s p d ≡ (false, d)
    unfolding restore
    restore_no_content e k = rw (e, k, restore_existing_file)

    restore_gone : s.existed ≡ false → restore h s p d ≡ h.unlink d p
    unfolding restore
    restore_gone e = rw (e, there, restore_missing_file)

    IsBefore-restore : (restore h s p d).0 ≡ true → IsBefore h s (h.node (restore h s p d).1 p)
    IsBefore-restore e = elim (Bool-cases s.existed) [
      | inl old ↦ elim (Option-cases s.content) [
        | inl empty ↦ absurd (cc (restore_no_content old empty, e))
        | inr (t, full) ↦
            let r = restore_content t old full in
            IsBefore.content_back t old full (rw r (laws.write_self d p (h.encode t) (rw r at e)))
      ]
      | inr new ↦
          let r = restore_gone new in
          IsBefore.file_gone new (rw r (laws.unlink_self d p (rw r at e)))
    ]

    pub restore-other : (q : Text) → p ≢ q → h.node (restore h s p d).1 q ≡ h.node d q
    restore-other q ne = elim (Bool-cases s.existed) [
      | inl old ↦ elim (Option-cases s.content) [
        | inl empty ↦ rw (restore_no_content old empty)
        | inr (t, full) ↦ rw (restore_content t old full) (laws.write_other d p q (h.encode t) ne)
      ]
      | inr new ↦ rw (restore_gone new) (laws.unlink_other d p q ne)
    ]

  -- What a successful rollback of the checkpoint `c` found and left.
  pub record IsRolledBack (id : Text) (m : CheckpointManager) (d : h.Disk) (c : Checkpoint)
      (m' : CheckpointManager) (d' : h.Disk) : Type 0 where
    pub path : Text
    pub found : get id m ≡ some c
    pub was_sealed : c.sealed ≡ true
    pub was_open : c.rolled_back ≡ false
    pub resolved : resolve_workspace_path h m.workspace c.snapshot.path ≡ some path
    pub after : IsAfter h c (h.node d path)
    pub before : IsBefore h c.snapshot (h.node d' path)
    pub marked : mark_rolled_back c.checkpoint_id m ≡ ok m'

  record Steps (c c' : Checkpoint) (p : Text) (m : CheckpointManager) (d : h.Disk)
      (m' : CheckpointManager) (d' : h.Disk) : Type 0 where
    done : (restore h c.snapshot p d).0 ≡ true
    disk : d' ≡ (restore h c.snapshot p d).1
    manager : mark_rolled_back c.checkpoint_id m ≡ ok m'
    same_checkpoint : c' ≡ c

  Steps-mark :
      (c c' : Checkpoint) (m m' : CheckpointManager) (d d' : h.Disk)
      → mark_lifecycle h c (m, d) ≡ (restored c', (m', d'))
      → (mark_rolled_back c.checkpoint_id m ≡ ok m') × (d' ≡ d) × (c' ≡ c)
  unfolding mark_lifecycle
  Steps-mark c c' m m' d d' e = ground arith

  Steps-restore :
      (c c' : Checkpoint) (p : Text) (m m' : CheckpointManager) (d d' : h.Disk)
      → restore_and_verify h c p (m, d) ≡ (restored c', (m', d'))
      → Steps c c' p m d m' d'
  unfolding restore_and_verify
  Steps-restore c c' p m m' d d' e = elim (Bool-cases (restore h c.snapshot p d).0) [
    | inl went ↦
        elim (Option-cases (verify_restore h c.snapshot (h.node (restore h c.snapshot p d).1 p))) [
          | inl fine ↦
              let r = Steps-mark c c' m m' _ d' (rw (went, fine) at e) in
              record { done = went; disk = r.1; manager = r.0; same_checkpoint = r.2 }
          | inr (x, bad) ↦ absurd (ground arith)
        ]
    | inr fell ↦ absurd (ground arith)
  ]

  Steps-at :
      (c c' : Checkpoint) (p : Text) (m m' : CheckpointManager) (d d' : h.Disk)
      → rollback_at h c p (m, d) ≡ (restored c', (m', d'))
      → (check_current_state h c (h.node d p) ≡ none)
        × (restore_and_verify h c p (m, d) ≡ (restored c', (m', d')))
  unfolding rollback_at
  Steps-at c c' p m m' d d' e = ground arith

  Steps-found :
      (c c' : Checkpoint) (m m' : CheckpointManager) (d d' : h.Disk)
      → rollback_found h c (m, d) ≡ (restored c', (m', d'))
      → (p : Text) × (c.sealed ≡ true)
        × (c.rolled_back ≡ false)
        × (resolve_workspace_path h m.workspace c.snapshot.path ≡ some p)
        × (rollback_at h c p (m, d) ≡ (restored c', (m', d')))
  unfolding rollback_found
  Steps-found c c' m m' d d' e =
      elim (Option-cases (resolve_workspace_path h m.workspace c.snapshot.path)) [
        | inl outside ↦ absurd (ground arith)
        | inr (p, inside) ↦ (p, ground arith, ground arith, inside, ground arith)
      ]

  Steps-rollback :
      (id : Text) (c' : Checkpoint) (m m' : CheckpointManager) (d d' : h.Disk)
      → rollback h id (m, d) ≡ (restored c', (m', d'))
      → (c : Checkpoint) × (get id m ≡ some c)
        × (rollback_found h c (m, d) ≡ (restored c', (m', d')))
  unfolding rollback
  Steps-rollback id c' m m' d d' e = elim (Option-cases (get id m)) [
    | inl unknown ↦ absurd (ground arith)
    | inr (c, known) ↦ (c, known, ground arith)
  ]

  -- On a host that keeps its laws, a rollback that returns success had found a sealed checkpoint, not rolled back before, inside the
  -- workspace, and at its path the after-state that was recorded with it; it has left at that path
  -- the before-state of the snapshot, and the checkpoint marked as rolled back.
  pub rollback-IsRolledBack :
      HostLaws h
      → (id : Text) (c : Checkpoint) (m m' : CheckpointManager) (d d' : h.Disk)
      → rollback h id (m, d) ≡ (restored c, (m', d'))
      → IsRolledBack id m d c m' d'
  rollback-IsRolledBack laws id c m m' d d' e =
      let (k, known, e1) = Steps-rollback id c m m' d d' e in
      let (p, was_sealed, was_open, inside, e2) = Steps-found k c m m' d d' e1 in
      let (fine, e3) = Steps-at k c p m m' d d' e2 in
      let s = Steps-restore k c p m m' d d' e3 in
      let after = IsAfter-check_current_state k (h.node d p) fine in
      rw s.same_checkpoint (record {
        path = p;
        found = known;
        was_sealed = was_sealed;
        was_open = was_open;
        resolved = inside;
        after = after;
        before = rw s.disk (IsBefore-restore laws k.snapshot p d after.raw after.stands s.done);
        marked = s.manager;
      })
