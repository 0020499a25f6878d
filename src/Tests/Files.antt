-- ===== src/Tests/Files.antt =====
-- Runs of the checkpoints and their restoration (minicodex/agent/editing/), on files in memory.
use mini_codex.Common.{
  All, ◌≡◌, ◌≢◌, refl, true, false, none, some, [], ◌∷◌, ◌++◌, arith, Text, codes, same, same_iff,
  same_refl, strip, lstrip, if◌then◌else◌,
}
use mini_codex.Common.Dict.{lookup}
use mini_codex.Common.Decimal.{decimal, padded}
use mini_codex.Editing.Host.{Host, HostLaws, Node, missing, file, resolve_workspace_path}
use mini_codex.Editing.Checkpoint.{
  new_manager, Checkpoint, CheckpointManager, ok, get, change, set_rolled_back, mark_rolled_back,
  capture, seal, seal_found, edited_hash, snapshot_of, append_checkpoint, new_checkpoint,
  trim_history,
}
use mini_codex.Editing.Checkpoint.Tidy.{IsTidy}
use mini_codex.Editing.Checkpoint.Uses.{by_capture, by_seal, store_run-IsTidy, new_manager-IsTidy}
use mini_codex.Editing.Rollback.{
  restored, stopped, failed, stale_rollback, undone, rollback, rollback_found, rollback_at,
  restore_and_verify, restore, restore_existing_file, verify_restore, verify_existing,
  mark_lifecycle, check_current_state, check_chain, unique_paths, undo_each, undo_task,
}
use mini_codex.Editing.Rollback.Elsewhere.{rollback-other}
use mini_codex.Editing.Rollback.Restores.{IsRolledBack, rollback-IsRolledBack}
use mini_codex.Editing.Rollback.Undo.{IsUndone, oldest, undo_task-IsUndone}

-- Files in memory: every path is relative and below the root, a text is its own hash, and every
-- operation goes through.
abbrev pub memory : Host
memory = record {
  Raw = Text;
  Disk = Text → Node Text;
  node = λ d p. d p;
  decode = λ raw. some raw;
  encode = λ t. t;
  mkdir_parents = λ d p. (true, d);
  write = λ d p raw. (true, λ q. if same p q then file raw else d q);
  unlink = λ d p. (true, λ q. if same p q then missing else d q);
  content_hash = λ t. t;
  is_absolute = λ p. false;
  resolve = λ p. p;
  join = λ root p. root ++ (b'/' ∷ p);
  is_below = λ root p. true;
}

same-differs : (p q : Text) → p ≢ q → same p q ≡ false
same-differs p q ne = ground (arith, same_iff p q)

pub memory_laws : HostLaws memory
memory_laws = record {
  mkdir_parents_file = λ d p raw there. refl;
  write_self = λ d p raw went. rw (same_refl p);
  write_other = λ d p q raw ne. rw (same-differs p q ne);
  unlink_self = λ d p went. rw (same_refl p);
  unlink_other = λ d p q ne. rw (same-differs p q ne);
}

abbrev pub app_path : Text
app_path = codes "/w/app.py"

-- A directory with the one file, which holds `content`.
abbrev pub holding : Text → memory.Disk
holding content p = if same app_path p then file content else missing

abbrev pub empty_manager : CheckpointManager
empty_manager = record {
  workspace = codes "/w";
  max_checkpoints = 20;
  counter = 0;
  history_trimmed = false;
  checkpoints = [];
}

abbrev pub app_checkpoint : Checkpoint
app_checkpoint = record {
  checkpoint_id = codes "cp-000001";
  edit_revision = 1;
  snapshot = record {
    path = codes "app.py";
    existed = true;
    content = some (codes "old");
    sha256 = some (codes "old");
  };
  after_sha256 = some (codes "new");
  sealed = true;
  rolled_back = false;
}

abbrev pub sealed_manager : CheckpointManager
sealed_manager = record empty_manager { counter = 1; checkpoints = app_checkpoint ∷ [] }

-- The checkpoint is what a capture before the edit and a seal after it make.
seal_of_capture :
    seal memory (codes "cp-000001") (holding (codes "new")) (record empty_manager {
      counter = 1;
      checkpoints = record app_checkpoint { after_sha256 = none; sealed = false } ∷ [];
    })
    ≡ ok sealed_manager
unfolding seal seal_found edited_hash get change strip lstrip same resolve_workspace_path
seal_of_capture = refl

capture_of_app :
    capture memory (codes "app.py") 1 (holding (codes "old")) empty_manager
    ≡ ok (
      record app_checkpoint { after_sha256 = none; sealed = false },
      record empty_manager {
        counter = 1;
        checkpoints = record app_checkpoint { after_sha256 = none; sealed = false } ∷ [];
      },
    )
unfolding capture snapshot_of append_checkpoint new_checkpoint trim_history strip lstrip same
    resolve_workspace_path decimal padded
capture_of_app = refl

abbrev after_rollback : CheckpointManager × memory.Disk
after_rollback = (rollback memory (codes "cp-000001") (sealed_manager, holding (codes "new"))).1

rollback_went :
    rollback memory (codes "cp-000001") (sealed_manager, holding (codes "new"))
    ≡ (restored app_checkpoint, (after_rollback.0, after_rollback.1))
unfolding rollback rollback_found rollback_at restore_and_verify restore restore_existing_file
    verify_restore verify_existing mark_lifecycle mark_rolled_back check_current_state get change
    strip lstrip same resolve_workspace_path
rollback_went = refl

rollback_of_other_edit :
    (rollback memory (codes "cp-000001") (sealed_manager, holding (codes "newer"))).0
    ≡ stopped (failed stale_rollback)
unfolding rollback rollback_found rollback_at check_current_state get strip lstrip same
    resolve_workspace_path
rollback_of_other_edit = refl

rollback-IsRolledBack_example :
    IsRolledBack memory
      (codes "cp-000001")
      sealed_manager
      (holding (codes "new"))
      app_checkpoint
      after_rollback.0
      after_rollback.1
rollback-IsRolledBack_example =
    rollback-IsRolledBack memory memory_laws (codes "cp-000001") app_checkpoint sealed_manager
      after_rollback.0 (holding (codes "new")) after_rollback.1 rollback_went

app_found : get (codes "cp-000001") sealed_manager ≡ some app_checkpoint
unfolding get strip lstrip same
app_found = refl

app_resolved : resolve_workspace_path memory (codes "/w") (codes "app.py") ≡ some app_path
unfolding resolve_workspace_path
app_resolved = refl

rollback-other_example :
    (rollback memory (codes "cp-000001") (sealed_manager, holding (codes "new"))).1.1 (codes "/w/b")
    ≡ holding (codes "new") (codes "/w/b")
rollback-other_example =
    rollback-other memory memory_laws (codes "cp-000001") app_checkpoint app_path (codes "/w/b")
      sealed_manager (holding (codes "new")) app_found app_resolved (λ e. cc)

app_marked :
    mark_rolled_back (codes "cp-000001") sealed_manager
    ≡ ok (record sealed_manager { checkpoints = set_rolled_back app_checkpoint ∷ [] })
unfolding mark_rolled_back get change strip lstrip same
app_marked = refl

sealed-IsTidy : IsTidy sealed_manager
unfolding padded
sealed-IsTidy = record { bounded = omega arith; numbered = (1, omega arith, refl, omega arith) }

-- The store between the capture and the seal.
abbrev open_manager : CheckpointManager
open_manager = record empty_manager {
  counter = 1;
  checkpoints = record app_checkpoint { after_sha256 = none; sealed = false } ∷ [];
}

new_empty : new_manager (codes "/w") 20 ≡ ok empty_manager
unfolding new_manager
new_empty = refl

empty-IsTidy : IsTidy empty_manager
empty-IsTidy = new_manager-IsTidy (codes "/w") 20 empty_manager new_empty

store_run-IsTidy_example : All IsTidy (open_manager ∷ sealed_manager ∷ [])
store_run-IsTidy_example =
    store_run-IsTidy memory empty_manager (open_manager ∷ sealed_manager ∷ []) empty-IsTidy (
      by_capture (codes "app.py") 1 (holding (codes "old"))
          (record app_checkpoint { after_sha256 = none; sealed = false }) capture_of_app,
      (by_seal (codes "cp-000001") (holding (codes "new")) seal_of_capture, tt),
    )

abbrev after_undo : CheckpointManager × memory.Disk
after_undo = (undo_task memory (sealed_manager, holding (codes "new"))).1

undo_went :
    undo_task memory (sealed_manager, holding (codes "new"))
    ≡ (undone (codes "app.py" ∷ []), (after_undo.0, after_undo.1))
unfolding undo_task undo_each check_chain unique_paths rollback rollback_found rollback_at
    restore_and_verify restore restore_existing_file verify_restore verify_existing mark_lifecycle
    mark_rolled_back check_current_state get change strip lstrip same resolve_workspace_path lookup
undo_went = refl

undo_task-IsUndone_example :
    IsUndone memory
      (oldest memory (codes "/w") app_path (app_checkpoint ∷ []))
      (holding (codes "new") app_path)
      (after_undo.1 app_path)
undo_task-IsUndone_example =
    undo_task-IsUndone memory memory_laws app_path (codes "app.py" ∷ []) sealed_manager after_undo.0
      (holding (codes "new")) after_undo.1 sealed-IsTidy undo_went
