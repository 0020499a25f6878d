-- ===== src/Editing/Rollback.antt =====
-- minicodex/agent/editing/rollback.py: the restoration of sealed checkpoints.
pub mod Restores
pub mod Elsewhere
pub mod Undo
pub mod Finished
pub mod Again
pub mod Succeeds
use mini_codex.Common.{
  ◌≡◌, refl, Bool, true, false, not, ◌&&◌, ◌||◌, Option, none, some, List, [], ◌∷◌, ◌++◌, reverse,
  Text, same, any, keep, if◌then◌else◌,
}
use mini_codex.Common.Dict.{Dict, lookup, assign}
use mini_codex.Editing.Host.{Host, Node, missing, directory, file, resolve_workspace_path}
use mini_codex.Editing.Checkpoint.{
  FileSnapshot, Checkpoint, CheckpointManager, Error, outside_workspace, unreadable,
  checkpoint_not_found, Result, ok, err, get, mark_rolled_back,
}

-- The `failure_type` of a failed result; `history_was_trimmed` is the failure that has none.
pub data FailureType : Type 0 where
  unknown_checkpoint checkpoint_unsealed checkpoint_already_rolled_back stale_rollback : FailureType
  rollback_write rollback_verification rollback_conflict history_was_trimmed : FailureType

-- Why a rollback stops: it returns a failure, or raises.
pub data Problem : Type 0 where
  failed : FailureType → Problem
  raised : Error → Problem

-- What `rollback` returns, or raises.
pub data RollbackResult : Type 0 where
  restored : Checkpoint → RollbackResult
  stopped : Problem → RollbackResult

-- What `undo_task` returns or raises, with the paths restored so far.
pub data UndoResult : Type 0 where
  undone : List Text → UndoResult
  not_undone : FailureType → List Text → UndoResult
  undo_raised : Error → UndoResult

-- `==` on optional hashes.
abbrev pub same_hash : Option Text → Option Text → Bool
same_hash none none = true
same_hash (some a) (some b) = same a b
same_hash _ _ = false

abbrev to_undo : Problem → List Text → UndoResult
to_undo (failed f) paths = not_undone f paths
to_undo (raised e) paths = undo_raised e

-- `sealed and not rolled_back`
abbrev pub is_active : Checkpoint → Bool
is_active c = c.sealed && not c.rolled_back

-- `list(dict.fromkeys(paths))`
unfoldable pub unique_paths : List Text → List Text → List Text
unique_paths seen [] = seen
unique_paths seen (p ∷ ps) = unique_paths (if any (same p) seen then seen else seen ++ p ∷ []) ps

module _ (h : Host) where
  -- The state of a rollback: the manager and the disk.
  abbrev pub Files : Type 0
  Files = CheckpointManager × h.Disk

  -- `_check_current_state`; `none` is its None, the go-ahead.
  unfoldable pub check_current_state : Checkpoint → Node h.Raw → Option Problem
  check_current_state c missing = some (failed stale_rollback)
  check_current_state c directory = some (failed stale_rollback)
  check_current_state c (file raw) = elim (h.decode raw) [
    | none ↦ some (raised unreadable)
    | some content ↦
        if same_hash (some (h.content_hash content)) c.after_sha256
        then none
        else some (failed stale_rollback)
  ]

  -- `_restore_existing_file`: whether it went through, and the disk that it left.
  unfoldable pub restore_existing_file : Option Text → Text → h.Disk → Bool × h.Disk
  restore_existing_file none p d = (false, d)
  restore_existing_file (some content) p d =
      let (made, d') = h.mkdir_parents d p in
      if made then h.write d' p (h.encode content) else (false, d')

  -- `_restore_missing_file`, by what stands at the path.
  unfoldable pub restore_missing_file : Node h.Raw → Text → h.Disk → Bool × h.Disk
  restore_missing_file missing p d = (true, d)
  restore_missing_file directory p d = (false, d)
  restore_missing_file (file raw) p d = h.unlink d p

  unfoldable pub restore : FileSnapshot → Text → h.Disk → Bool × h.Disk
  unfolding restore_existing_file restore_missing_file
  restore s p d =
      if s.existed
      then restore_existing_file s.content p d
      else restore_missing_file (h.node d p) p d

  -- `_verify_restore` of a file that existed. `read_text` raises on a directory.
  unfoldable pub verify_existing : FileSnapshot → Node h.Raw → Option Problem
  verify_existing s missing = some (failed rollback_verification)
  verify_existing s directory = some (raised unreadable)
  verify_existing s (file raw) = elim (h.decode raw) [
    | none ↦ some (raised unreadable)
    | some content ↦
        if same_hash (some (h.content_hash content)) s.sha256
        then none
        else some (failed rollback_verification)
  ]

  unfoldable pub verify_missing : Node h.Raw → Option Problem
  verify_missing missing = none
  verify_missing _ = some (failed rollback_verification)

  unfoldable pub verify_restore : FileSnapshot → Node h.Raw → Option Problem
  unfolding verify_existing verify_missing
  verify_restore s n = if s.existed then verify_existing s n else verify_missing n

  -- The end of `rollback`: the lifecycle is marked.
  unfoldable pub mark_lifecycle : Checkpoint → Files → RollbackResult × Files
  mark_lifecycle c (m, d) = elim (mark_rolled_back c.checkpoint_id m) [
    | err e ↦ (stopped (raised e), (m, d))
    | ok m' ↦ (restored c, (m', d))
  ]

  -- The restoration, once every guard has passed.
  unfoldable pub restore_and_verify : Checkpoint → Text → Files → RollbackResult × Files
  restore_and_verify c p (m, d) =
      let (done, d') = restore c.snapshot p d in
      if done
      then elim (verify_restore c.snapshot (h.node d' p)) [
        | some problem ↦ (stopped problem, (m, d'))
        | none ↦ mark_lifecycle c (m, d')
      ]
      else (stopped (failed rollback_write), (m, d'))

  unfoldable pub rollback_at : Checkpoint → Text → Files → RollbackResult × Files
  rollback_at c p (m, d) = elim (check_current_state c (h.node d p)) [
    | some problem ↦ (stopped problem, (m, d))
    | none ↦ restore_and_verify c p (m, d)
  ]

  unfoldable pub rollback_found : Checkpoint → Files → RollbackResult × Files
  rollback_found c (m, d) =
      if not c.sealed
      then (stopped (failed checkpoint_unsealed), (m, d))
      else if c.rolled_back
      then (stopped (failed checkpoint_already_rolled_back), (m, d))
      else elim (resolve_workspace_path h m.workspace c.snapshot.path) [
        | none ↦ (stopped (raised outside_workspace), (m, d))
        | some p ↦ rollback_at c p (m, d)
      ]

  unfoldable pub rollback : Text → Files → RollbackResult × Files
  rollback checkpoint_id (m, d) = elim (get checkpoint_id m) [
    | none ↦ (stopped (failed unknown_checkpoint), (m, d))
    | some c ↦ rollback_found c (m, d)
  ]

  -- The test that the chain of checkpoints, newest first, is unbroken; `expected` holds the hash that
  -- the older checkpoints of a path must have left. `none` is the go-ahead.
  unfoldable pub check_chain : List Checkpoint → Dict (Option Text) → Files → Option Problem
  check_chain [] expected (m, d) = none
  check_chain (c ∷ cs) expected (m, d) =
      let rest = check_chain cs (assign c.snapshot.path c.snapshot.sha256 expected) (m, d) in
      elim (lookup c.snapshot.path expected) [
        | some sha256 ↦
            if same_hash sha256 c.after_sha256 then rest else some (failed rollback_conflict)
        | none ↦ elim (resolve_workspace_path h m.workspace c.snapshot.path) [
          | none ↦ some (raised outside_workspace)
          | some p ↦ elim (check_current_state c (h.node d p)) [
            | some problem ↦ some problem
            | none ↦ rest
          ]
        ]
      ]

  -- The loop that rolls the checkpoints back, newest first.
  unfoldable pub undo_each : List Checkpoint → List Text → Files → UndoResult × Files
  undo_each [] paths f = (undone (unique_paths [] paths), f)
  undo_each (c ∷ cs) paths f =
      let (result, f') = rollback c.checkpoint_id f in
      let rest = undo_each cs (paths ++ c.snapshot.path ∷ []) f' in
      elim result [ restored _ ↦ rest | stopped problem ↦ (to_undo problem paths, f') ]

  unfoldable pub undo_task : Files → UndoResult × Files
  undo_task (m, d) =
      let chain = reverse (keep is_active m.checkpoints) in
      if m.history_trimmed
      then (not_undone history_was_trimmed [], (m, d))
      else elim (check_chain chain [] (m, d)) [
        | some problem ↦ (to_undo problem [], (m, d))
        | none ↦ undo_each chain [] (m, d)
      ]
