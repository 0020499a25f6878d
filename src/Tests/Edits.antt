-- ===== src/Tests/Edits.antt =====
-- Runs of edits under checkpoints, of their retries and of an automatic rollback (minicodex/agent/editing/), on
-- files in memory.
use mini_codex.Common.{
  suc, ◌-◌, ◌≡◌, refl, arith, Bool, true, false, none, some, [], ◌∷◌, Text, codes, same, strip,
  lstrip, drop, length,
}
use mini_codex.Common.Decimal.{decimal, padded}
use mini_codex.Editing.Host.{resolve_workspace_path}
use mini_codex.Editing.Checkpoint.{
  CheckpointManager, capture, seal, seal_found, edited_hash, get, change, discard, delete_last,
  snapshot_of, append_checkpoint, new_checkpoint, trim_history,
}
use mini_codex.Editing.Rollback.{undo_task, not_undone, history_was_trimmed}
use mini_codex.Editing.Executor.{
  Surroundings, PreparedToolCall, EditData, edit_failed, edited, is_edit, hash_now, seal_edit,
  run_edit, edit_captured, edit_path, execute_prepared,
}
use mini_codex.Editing.Executor.Kept.{execute_prepared-checkpoints, execute_prepared-full}
use mini_codex.Editing.Executor.RoundTrip.{IsObliging, IsTakenBack, execute_prepared-rollback}
use mini_codex.Tests.Files.{
  memory, memory_laws, app_path, holding, empty_manager, sealed_manager, app_checkpoint,
}

-- An executor that writes the text of the call to the one file, or fails on an empty text.
abbrev writing : Surroundings memory
writing = record {
  Call = Text;
  Out = Bool;
  run =
      λ text d. elim text [ [] ↦ (false, d) | c ∷ s ↦ (true, (memory.write d app_path (c ∷ s)).1) ];
  success = λ out. out;
  edits = λ tool. none;
  next_edit_revision = some 1;
  meanwhile = λ d. d;
}

abbrev write_call : Text → PreparedToolCall Text
write_call text = record {
  tool_name = codes "write_file";
  path_value = some (codes " app.py ");
  error = false;
  call = text;
}

abbrev edit_data : EditData
edit_data = record {
  checkpoint = record app_checkpoint { after_sha256 = none; sealed = false };
  checkpoint_sealed = true;
  checkpoint_after_sha256 = some (codes "new");
  safety_degraded = false;
  failure = none;
}

abbrev written : memory.Disk
written = (memory.write (holding (codes "old")) app_path (codes "new")).1

edit_went :
    execute_prepared memory writing
      (write_call (codes "new"))
      (empty_manager, holding (codes "old"))
    ≡ (edited true edit_data, (sealed_manager, written))
unfolding execute_prepared is_edit edit_path edit_captured hash_now run_edit seal_edit capture
    snapshot_of append_checkpoint new_checkpoint trim_history seal seal_found edited_hash get change
    strip lstrip same resolve_workspace_path decimal padded
edit_went = refl

memory-IsObliging : IsObliging memory written app_path
memory-IsObliging = record {
  writes = λ old raw there. refl;
  unlinks = λ old there. refl;
  reads_back = λ raw t e. refl;
}

execute_prepared-rollback_example :
    IsTakenBack memory edit_data.checkpoint empty_manager sealed_manager
      (holding (codes "old"))
      written
unfolding resolve_workspace_path
execute_prepared-rollback_example =
    execute_prepared-rollback memory memory_laws writing (write_call (codes "new")) true edit_data
      empty_manager sealed_manager (holding (codes "old")) written app_path (omega arith) refl
      memory-IsObliging edit_went refl

abbrev failed_from : CheckpointManager → CheckpointManager
failed_from m = (execute_prepared memory writing (write_call []) (m, holding (codes "old"))).1.0

edit_fails :
    execute_prepared memory writing (write_call []) (sealed_manager, holding (codes "old"))
    ≡ (edit_failed false, (failed_from sealed_manager, holding (codes "old")))
unfolding execute_prepared is_edit edit_path edit_captured hash_now run_edit capture snapshot_of
    append_checkpoint new_checkpoint trim_history discard delete_last strip lstrip same
    resolve_workspace_path decimal padded
edit_fails = refl

execute_prepared-checkpoints_example :
    ((failed_from sealed_manager).checkpoints ≡ sealed_manager.checkpoints)
    × ((failed_from sealed_manager).history_trimmed ≡ sealed_manager.history_trimmed)
execute_prepared-checkpoints_example =
    execute_prepared-checkpoints memory writing (write_call []) sealed_manager
      (failed_from sealed_manager) (holding (codes "old")) (holding (codes "old"))
      (edit_failed false) (omega arith) (omega arith) edit_fails refl

-- A store for one checkpoint, which is there.
abbrev full_manager : CheckpointManager
full_manager = record sealed_manager { max_checkpoints = 1 }

full_edit_fails :
    execute_prepared memory writing (write_call []) (full_manager, holding (codes "old"))
    ≡ (edit_failed false, (failed_from full_manager, holding (codes "old")))
unfolding execute_prepared is_edit edit_path edit_captured hash_now run_edit capture snapshot_of
    append_checkpoint new_checkpoint trim_history discard delete_last strip lstrip same
    resolve_workspace_path decimal padded
full_edit_fails = refl

execute_prepared-full_example :
    ((failed_from full_manager).checkpoints
      ≡ drop
          (suc (length full_manager.checkpoints) - full_manager.max_checkpoints)
          full_manager.checkpoints)
    × (undo_task memory (failed_from full_manager, holding (codes "old"))
        ≡ (not_undone history_was_trimmed [], (failed_from full_manager, holding (codes "old"))))
execute_prepared-full_example =
    execute_prepared-full memory writing (write_call []) full_manager (failed_from full_manager)
      (holding (codes "old")) (holding (codes "old")) (edit_failed false) (omega arith)
      (omega arith) full_edit_fails refl refl
