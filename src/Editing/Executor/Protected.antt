-- ===== src/Editing/Executor/Protected.antt =====
-- The calls behind an edit that minicodex/agent/editing/checkpoint_executor.py reports as sealed.
use mini_codex.Common.{
  ℕ, ◌≡◌, inl, inr, sym, ap, ◌∙◌, true, not, ◌||◌, [], arith, Text, strip, is_empty, Bool-cases,
  Option-cases, ltb, get_or,
}
use mini_codex.Editing.Host.{Host}
use mini_codex.Editing.Checkpoint.{Checkpoint, CheckpointManager, ok, capture, seal}
use mini_codex.Editing.Checkpoint.Uses.{Result-cases}
use mini_codex.Editing.Rollback.{same_hash}
use mini_codex.Editing.Executor.{
  Surroundings, PreparedToolCall, EditData, edited, hash_now, is_edit, seal_edit, run_edit,
  edit_captured, edit_path, execute_prepared,
}

-- The capture before the edit and the seal after it.
pub record IsProtected (h : Host) (entries : EditData) (m m' : CheckpointManager) (d d' : h.Disk)
    : Type 0 where
  pub path : Text
  pub revision : ℕ
  pub captured : CheckpointManager
  pub capture_went : capture h path revision d m ≡ ok (entries.checkpoint, captured)
  pub seal_went : seal h entries.checkpoint.checkpoint_id d' captured ≡ ok m'

module _ (h : Host) (s : Surroundings h) (prepared : PreparedToolCall s.Call) (out : s.Out)
    (entries : EditData) (m' : CheckpointManager) (d' : h.Disk)
    (went : entries.checkpoint_sealed ≡ true) where
  seal_edit-sealed :
      (o : s.Out) (c : Checkpoint) (m : CheckpointManager) (d : h.Disk)
      → seal_edit h s o c (m, d) ≡ (edited out entries, (m', d'))
      → (entries.checkpoint ≡ c) × (seal h c.checkpoint_id d' m ≡ ok m')
  unfolding seal_edit
  seal_edit-sealed o c m d e = elim (Result-cases (seal h c.checkpoint_id d m)) [
    | inl (x, bad) ↦ absurd (ground (arith, went))
    | inr (n, fine) ↦ (ground arith, ground arith)
  ]

  run_edit-sealed :
      (c : Checkpoint) (m : CheckpointManager) (d : h.Disk)
      → run_edit h s prepared c (m, d) ≡ (edited out entries, (m', d'))
      → (entries.checkpoint ≡ c) × (seal h c.checkpoint_id d' m ≡ ok m')
  unfolding run_edit
  run_edit-sealed c m d e = elim (Bool-cases (s.success (s.run prepared.call d).0)) [
    | inl k ↦
        seal_edit-sealed (s.run prepared.call d).0 c m (s.run prepared.call d).1
          (rw (run_edit, k) at e)
    | inr k ↦ absurd (ground arith)
  ]

  edit_captured-sealed :
      (path : Text) (c : Checkpoint) (m : CheckpointManager) (d : h.Disk)
      → edit_captured h s prepared path c (m, d) ≡ (edited out entries, (m', d'))
      → (entries.checkpoint ≡ c) × (seal h c.checkpoint_id d' m ≡ ok m')
  unfolding edit_captured
  edit_captured-sealed path c m d e =
      let now = hash_now h (h.node d (h.resolve (h.join m.workspace path))) in
      elim (Bool-cases (same_hash now c.snapshot.sha256)) [
        | inl k ↦ run_edit-sealed c m d (rw (edit_captured, k) at e)
        | inr k ↦ absurd (ground arith)
      ]

  edit_path-sealed :
      (path : Text) (revision : ℕ) (m : CheckpointManager) (d : h.Disk)
      → edit_path h s prepared path revision (m, d) ≡ (edited out entries, (m', d'))
      → IsProtected h entries m m' d d'
  unfolding edit_path
  edit_path-sealed path revision m d e = elim (Bool-cases (ltb revision 1)) [
    | inl k ↦ absurd (ground arith)
    | inr k ↦ elim (Result-cases (capture h path revision d m)) [
      | inl (x, bad) ↦ absurd (ground arith)
      | inr ((c, n), fine) ↦
          let r = edit_captured-sealed path c n (s.meanwhile d) (rw (edit_path, k, fine) at e) in
          record {
            path = path;
            revision = revision;
            captured = n;
            capture_went = fine ∙ ap (λ x. ok (x, n)) (sym r.0);
            seal_went = rw r.0 r.1;
          }
    ]
  ]

  pub execute_prepared-sealed :
      (m : CheckpointManager) (d : h.Disk)
      → execute_prepared h s prepared (m, d) ≡ (edited out entries, (m', d'))
      → IsProtected h entries m m' d d'
  unfolding execute_prepared
  execute_prepared-sealed m d e =
      elim (Bool-cases (prepared.error || not (is_edit h s prepared.tool_name))) [
        | inl k ↦ absurd (ground arith)
        | inr k ↦ elim (Bool-cases (is_empty (strip (get_or prepared.path_value [])))) [
          | inl n ↦ absurd (ground arith)
          | inr n ↦ elim (Option-cases s.next_edit_revision) [
            | inl o ↦ absurd (ground arith)
            | inr (r, o) ↦
                edit_path-sealed (strip (get_or prepared.path_value [])) r m d
                  (rw (execute_prepared, k, n, o) at e)
          ]
        ]
      ]
