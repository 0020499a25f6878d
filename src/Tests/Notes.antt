-- ===== src/Tests/Notes.antt =====
-- Runs of the working memory (minicodex/agent/memory/working_memory.py).
use mathlib.Core.List.{Memᴰ}
use mini_codex.Common.{
  ◌+◌, ◌-◌, ◌≤◌, length, ◌<◌, ◌||◌, any, is_empty, ◌≡◌, refl, true, false, none, some, [], ◌∷◌,
  Text, codes, same, strip, lstrip,
}
use mini_codex.Common.Dict.{assign, pop, lookup}
use mini_codex.Editing.Retry.{absent}
use mini_codex.Memory.{
  WorkingMemory, text, edited, general, file, is_blank, new_memory, Upsert, upsert, entry_of, get,
  invalidate_path,
}
use mini_codex.Memory.Entries.{Item}
use mini_codex.Memory.Observe.{Arguments, ToolResult, record_tool_result, path_of, edit_tools}
use mini_codex.Memory.Fresh.{record_tool_result-edit}
use mini_codex.Memory.Kept.{IsTidy, get-upsert}
use mini_codex.Memory.Bounded.{
  MemoryCall, restart, record_result, memory_run, memory_call, memory_run-new_memory,
}

abbrev on_path : Text → Arguments
on_path path = record {
  path = some path;
  query = none;
  name = none;
  purpose = none;
  package_name = none;
  import_name = none;
  command = none;
  staged = false;
}

abbrev success : ToolResult
success = record {
  success = true;
  error = none;
  path = none;
  start_line = none;
  end_line = none;
  total_lines = none;
  has_more = false;
  checkpoint_revision = absent;
  safety_degraded = false;
  outcome = none;
  purpose = none;
  passed = absent;
  failed = absent;
  errors = absent;
  tests_passed = none;
  already_available = false;
  command_succeeded = none;
  current = none;
  completed = false;
  step_id = [];
  step_description = none;
  replanned = false;
  reason = none;
  safety = none;
}

-- A read of a file, and then an edit of it.
abbrev reading : MemoryCall
reading = record_result (codes "read_file") (on_path (codes "a")) success none

abbrev after_read : WorkingMemory
after_read = memory_run (λ t. t) (reading ∷ []) (new_memory 2 2)

abbrev after_edit : WorkingMemory
after_edit =
    record_tool_result (λ t. t) (codes "write_file") (on_path (codes "a")) success none after_read

abbrev edit_item : Item
edit_item = (
  codes "file:a:edit",
  record {
    key = codes "file:a:edit";
    kind = file;
    value = edited (codes "a") none false;
    source_tool = some (codes "write_file");
    sequence = 2;
    path = codes "a";
    revision = none;
  },
)

edit_replaces_read : after_edit.entries ≡ edit_item ∷ []
unfolding memory_run memory_call record_tool_result new_memory strip lstrip same assign pop lookup
    upsert invalidate_path
edit_replaces_read = refl

edit_item_there : Memᴰ edit_item after_edit.entries
edit_item_there = rw edit_replaces_read (Memᴰ.head refl)

path_given :
    (any (same (codes "write_file")) edit_tools ≡ true)
    × (is_empty (path_of (on_path (codes "a")) success) ≡ false)
    × (edit_item.1.path ≡ path_of (on_path (codes "a")) success)
unfolding strip lstrip same
path_given = (refl, refl, refl)

record_tool_result-edit_example : after_read.sequence < edit_item.1.sequence
record_tool_result-edit_example =
    record_tool_result-edit (λ t. t) (codes "write_file") (on_path (codes "a")) success none
      after_read edit_item path_given.0 refl path_given.1 edit_item_there path_given.2

memory_run-new_memory_example :
    let m = memory_run (λ t. t) (reading ∷ restart ∷ reading ∷ []) (new_memory 2 0) in
    IsTidy m × (length m.entries ≤ 1 + (2 - 1))
memory_run-new_memory_example =
    memory_run-new_memory (λ t. t) (reading ∷ restart ∷ reading ∷ []) 2 0

abbrev note : Upsert
note = record {
  key = codes "n";
  kind = general;
  value = text (codes "seen");
  source_tool = none;
  path = none;
  revision = none;
}

note_fine : (is_empty (strip note.key) || is_blank note.value) ≡ false
unfolding strip lstrip
note_fine = refl

after_read-IsTidy : IsTidy after_read
after_read-IsTidy = (memory_run-new_memory (λ t. t) (reading ∷ []) 2 2).0

get-upsert_example :
    get (strip note.key) (upsert note after_read).1 ≡ some (entry_of note (after_read.sequence + 1))
get-upsert_example = get-upsert note after_read after_read-IsTidy note_fine
