-- ===== src/Editing/Executor/Kept.antt =====
-- What an edit that is not sealed (minicodex/agent/editing/checkpoint_executor.py) leaves of the store.
use mini_codex.Common.{
  ℕ, suc, ◌-◌, ◌≤◌, ◌<◌, ◌≡◌, ◌⊎◌, inl, inr, refl, sym, ap, ◌∙◌, Bool, true, false, not, ◌||◌, some,
  List, [], ◌∷◌, ◌++◌, arith, Text, same, same_refl, strip, is_empty, length, length-append, drop,
  drop-append, Bool-cases, Option-cases, ltb, leb, get_or, if◌then◌else◌,
}
use mini_codex.Editing.Host.{Host}
use mini_codex.Editing.Checkpoint.{
  FileSnapshot, Checkpoint, CheckpointManager, ok, discard, capture, seal, delete_last,
  append_checkpoint, new_checkpoint, trim_history, checkpoint_name,
}
use mini_codex.Editing.Checkpoint.Found.{strip-checkpoint_name}
use mini_codex.Editing.Checkpoint.Uses.{Result-cases, capture-append_checkpoint}
use mini_codex.Editing.Rollback.{same_hash, undo_task, not_undone, history_was_trimmed}
use mini_codex.Editing.Executor.{
  Surroundings, PreparedToolCall, Execution, delegated, blocked, edit_failed, edited,
  workspace_conflict, hash_now, is_edit, seal_edit, run_edit, edit_captured, edit_path,
  execute_prepared,
}

delete_last-append :
    (p : Checkpoint → Bool) (cs : List Checkpoint) (c : Checkpoint)
    → p c ≡ true
    → delete_last p (cs ++ c ∷ []) ≡ some cs
unfolding delete_last
delete_last-append p [] c e = rw e refl
delete_last-append p (x ∷ cs) c e = rw (delete_last-append p cs c e) refl

-- The store without the checkpoints that a capture drops.
abbrev pub made_room : CheckpointManager → CheckpointManager
made_room m =
    if ltb (length m.checkpoints) m.max_checkpoints
    then record m { counter = suc m.counter }
    else record m {
      counter = suc m.counter;
      history_trimmed = true;
      checkpoints = drop (suc (length m.checkpoints) - m.max_checkpoints) m.checkpoints;
    }

discard_named :
    (n : ℕ) (c : Checkpoint) (cs : List Checkpoint) (m : CheckpointManager)
    → c.checkpoint_id ≡ checkpoint_name n
    → m.checkpoints ≡ cs ++ c ∷ []
    → (discard c.checkpoint_id m).0 ≡ record m { checkpoints = cs }
unfolding discard
discard_named n c cs m e l =
    let kept : strip c.checkpoint_id ≡ c.checkpoint_id = rw e (strip-checkpoint_name n) in
    let there : is_empty (strip c.checkpoint_id) ≡ false = ap is_empty (kept ∙ e) in
    let own : same c.checkpoint_id (strip c.checkpoint_id) ≡ true =
      rw kept (same_refl c.checkpoint_id) in
    rw (there, l, delete_last-append (λ x. same x.checkpoint_id (strip c.checkpoint_id)) cs c own)
      refl

trimmed_room :
    (c : Checkpoint) (m : CheckpointManager)
    → 1 ≤ m.max_checkpoints
    → trim_history (record m { counter = suc m.counter; checkpoints = m.checkpoints ++ c ∷ [] })
      ≡ record (made_room m) { checkpoints = (made_room m).checkpoints ++ c ∷ [] }
unfolding trim_history
trimmed_room c m h =
    let n : length (m.checkpoints ++ c ∷ []) ≡ suc (length m.checkpoints) =
      omega (arith, length-append m.checkpoints (c ∷ [])) in
    elim (Bool-cases (ltb (length m.checkpoints) m.max_checkpoints)) [
      | inl room ↦
          let fits : leb (length (m.checkpoints ++ c ∷ [])) m.max_checkpoints ≡ true =
            ground (arith, n, room) in
          rw (room, fits) refl
      | inr full ↦
          let over : leb (length (m.checkpoints ++ c ∷ [])) m.max_checkpoints ≡ false =
            ground (arith, n, full) in
          let dropped =
            drop-append (suc (length m.checkpoints) - m.max_checkpoints) m.checkpoints (c ∷ [])
              (omega (arith, h)) in
          rw (full, over, n, dropped) refl
    ]

-- The captured checkpoint is the last of the store, under the next name.
pub captured_store :
    (s : FileSnapshot) (revision : ℕ) (m m' : CheckpointManager) (c : Checkpoint)
    → 1 ≤ m.max_checkpoints
    → append_checkpoint s revision m ≡ (c, m')
    → (m' ≡ record (made_room m) { checkpoints = (made_room m).checkpoints ++ c ∷ [] })
      × (new_checkpoint s revision m ≡ c)
unfolding append_checkpoint
captured_store s revision m m' c room it =
    let own : new_checkpoint s revision m ≡ c = ap (λ x. x.0) it in
    (
      sym (ap (λ x. x.1) it)
          ∙ trimmed_room (new_checkpoint s revision m) m room
          ∙ ap (λ x. record (made_room m) { checkpoints = (made_room m).checkpoints ++ x ∷ [] })
              own,
      own,
    )

-- A capture and the discard of what it captured.
discard_captured :
    (h : Host) (path : Text) (revision : ℕ) (d : h.Disk) (m m' : CheckpointManager) (c : Checkpoint)
    → 1 ≤ m.max_checkpoints
    → capture h path revision d m ≡ ok (c, m')
    → (discard c.checkpoint_id m').0 ≡ made_room m
unfolding new_checkpoint
discard_captured h path revision d m m' c room e =
    let (s, it) = capture-append_checkpoint h path revision d m m' c e in
    let without : CheckpointManager → CheckpointManager =
      λ x. record x { checkpoints = (made_room m).checkpoints } in
    let (store, own) = captured_store s revision m m' c room it in
    discard_named (suc m.counter) c (made_room m).checkpoints m'
      (sym (ap (λ x. x.checkpoint_id) own)) (ap (λ x. x.checkpoints) store)
    ∙ ap (λ (x : CheckpointManager). without x) store

-- The seal of the edit went through.
abbrev pub is_sealed : {Out : Type 0} → Execution Out → Bool
is_sealed (edited out entries) = entries.checkpoint_sealed
is_sealed _ = false

-- The before-state had been captured.
abbrev pub was_captured : {Out : Type 0} → Execution Out → Bool
was_captured (delegated out) = false
was_captured (blocked (workspace_conflict expected current)) = true
was_captured (blocked _) = false
was_captured (edit_failed out) = true
was_captured (edited out entries) = true

module _ (h : Host) (s : Surroundings h) (prepared : PreparedToolCall s.Call) where
  seal_edit-store :
      (out : s.Out) (c : Checkpoint) (m : CheckpointManager) (d : h.Disk)
      → is_sealed (seal_edit h s out c (m, d)).0 ≡ false
      → (seal_edit h s out c (m, d)).1.0 ≡ (discard c.checkpoint_id m).0
  unfolding seal_edit
  seal_edit-store out c m d e = elim (Result-cases (seal h c.checkpoint_id d m)) [
    | inl (x, bad) ↦ rw (seal_edit, bad) refl
    | inr (m', fine) ↦ absurd (ground (arith, fine, e))
  ]

  run_edit-store :
      (c : Checkpoint) (m : CheckpointManager) (d : h.Disk)
      → is_sealed (run_edit h s prepared c (m, d)).0 ≡ false
      → (run_edit h s prepared c (m, d)).1.0 ≡ (discard c.checkpoint_id m).0
  unfolding run_edit
  run_edit-store c m d e = elim (Bool-cases (s.success (s.run prepared.call d).0)) [
    | inl k ↦
        rw (run_edit, k)
          (seal_edit-store (s.run prepared.call d).0 c m (s.run prepared.call d).1
            (rw (run_edit, k) at e))
    | inr k ↦ rw (run_edit, k) refl
  ]

  edit_captured-store :
      (path : Text) (c : Checkpoint) (m : CheckpointManager) (d : h.Disk)
      → is_sealed (edit_captured h s prepared path c (m, d)).0 ≡ false
      → (edit_captured h s prepared path c (m, d)).1.0 ≡ (discard c.checkpoint_id m).0
  unfolding edit_captured
  edit_captured-store path c m d e =
      let now = hash_now h (h.node d (h.resolve (h.join m.workspace path))) in
      elim (Bool-cases (same_hash now c.snapshot.sha256)) [
        | inl k ↦ rw (edit_captured, k) (run_edit-store c m d (rw (edit_captured, k) at e))
        | inr k ↦ rw (edit_captured, k) refl
      ]

  edit_path-store :
      (path : Text) (revision : ℕ) (m : CheckpointManager) (d : h.Disk)
      → 1 ≤ m.max_checkpoints
      → is_sealed (edit_path h s prepared path revision (m, d)).0 ≡ false
      → ((was_captured (edit_path h s prepared path revision (m, d)).0 ≡ false)
          × ((edit_path h s prepared path revision (m, d)).1.0 ≡ m))
        ⊎ ((edit_path h s prepared path revision (m, d)).1.0 ≡ made_room m)
  unfolding edit_path
  edit_path-store path revision m d room e = elim (Bool-cases (ltb revision 1)) [
    | inl k ↦ rw (edit_path, k) (inl (refl, refl))
    | inr k ↦ elim (Result-cases (capture h path revision d m)) [
      | inl (x, bad) ↦ rw (edit_path, k, bad) (inl (refl, refl))
      | inr ((c, m'), fine) ↦
          rw (edit_path, k, fine)
            (inr (
              edit_captured-store path c m' (s.meanwhile d) (rw (edit_path, k, fine) at e)
              ∙ discard_captured h path revision d m m' c room fine))
    ]
  ]

  -- A run whose edit is not sealed leaves the store as it was, or as a capture that is discarded
  -- leaves it.
  execute_prepared-store :
      (m : CheckpointManager) (d : h.Disk)
      → 1 ≤ m.max_checkpoints
      → is_sealed (execute_prepared h s prepared (m, d)).0 ≡ false
      → ((was_captured (execute_prepared h s prepared (m, d)).0 ≡ false)
          × ((execute_prepared h s prepared (m, d)).1.0 ≡ m))
        ⊎ ((execute_prepared h s prepared (m, d)).1.0 ≡ made_room m)
  unfolding execute_prepared
  execute_prepared-store m d room e =
      elim (Bool-cases (prepared.error || not (is_edit h s prepared.tool_name))) [
        | inl k ↦ rw (execute_prepared, k) (inl (refl, refl))
        | inr k ↦ elim (Bool-cases (is_empty (strip (get_or prepared.path_value [])))) [
          | inl n ↦ rw (execute_prepared, k, n) (inl (refl, refl))
          | inr n ↦ elim (Option-cases s.next_edit_revision) [
            | inl o ↦ rw (execute_prepared, k, n, o) (inl (refl, refl))
            | inr (r, o) ↦
                rw (execute_prepared, k, n, o)
                  (edit_path-store (strip (get_or prepared.path_value [])) r m d room
                    (rw (execute_prepared, k, n, o) at e))
          ]
        ]
      ]

-- A call whose edit is not sealed (it is no edit, it is blocked, it fails, or its seal fails) leaves
-- the checkpoints and the mark of a shortened history as they were, as long as the store is not full.
pub execute_prepared-checkpoints :
    (h : Host) (s : Surroundings h) (prepared : PreparedToolCall s.Call) (m m' : CheckpointManager)
    (d d' : h.Disk) (result : Execution s.Out)
    → 1 ≤ m.max_checkpoints
    → length m.checkpoints < m.max_checkpoints
    → execute_prepared h s prepared (m, d) ≡ (result, (m', d'))
    → is_sealed result ≡ false
    → (m'.checkpoints ≡ m.checkpoints) × (m'.history_trimmed ≡ m.history_trimmed)
execute_prepared-checkpoints h s prepared m m' d d' result one room e n =
    let store : m' ≡ (execute_prepared h s prepared (m, d)).1.0 = ap (λ x. x.1.0) (sym e) in
    elim (execute_prepared-store h s prepared m d one (ap (λ x. is_sealed x.0) e ∙ n)) [
      | inl k ↦ rw (store ∙ k.1) (refl, refl)
      | inr k ↦ rw (store ∙ k) (ground (arith, room), ground (arith, room))
    ]

-- In a full store, an edit whose before-state is captured and that is not sealed then drops the
-- checkpoints that the capture made room for, and in the state that it leaves the undo of
-- the task refuses and changes nothing.
pub execute_prepared-full :
    (h : Host) (s : Surroundings h) (prepared : PreparedToolCall s.Call) (m m' : CheckpointManager)
    (d d' : h.Disk) (result : Execution s.Out)
    → 1 ≤ m.max_checkpoints
    → m.max_checkpoints ≤ length m.checkpoints
    → execute_prepared h s prepared (m, d) ≡ (result, (m', d'))
    → is_sealed result ≡ false
    → was_captured result ≡ true
    → (m'.checkpoints ≡ drop (suc (length m.checkpoints) - m.max_checkpoints) m.checkpoints)
      × (undo_task h (m', d') ≡ (not_undone history_was_trimmed [], (m', d')))
unfolding undo_task
execute_prepared-full h s prepared m m' d d' result one full e n w =
    let store : m' ≡ (execute_prepared h s prepared (m, d)).1.0 = ap (λ x. x.1.0) (sym e) in
    elim (execute_prepared-store h s prepared m d one (ap (λ x. is_sealed x.0) e ∙ n)) [
      | inl k ↦ absurd (cc (w, k.0, ap (λ x. was_captured x.0) e))
      | inr k ↦
          let trimmed : m'.history_trimmed ≡ true = rw (store ∙ k) (ground (arith, full)) in
          (rw (store ∙ k) (ground (arith, full)), rw (undo_task, trimmed) refl)
    ]
