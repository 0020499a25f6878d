-- ===== src/Editing/Executor.antt =====
-- minicodex/agent/editing/checkpoint_executor.py: an edit runs between the capture and the seal of a
-- checkpoint. The verification of the edit's intent and the callback after a successful edit, which
-- add warnings to the data of the result, are left out.
pub mod Kept
pub mod Protected
pub mod RoundTrip
use mini_codex.Common.{
  ℕ, ◌≡◌, Bool, true, false, not, ◌&&◌, ◌||◌, Option, none, some, List, [], ◌∷◌, Text, codes, same,
  strip, is_empty, any, ltb, get_or, if◌then◌else◌,
}
use mini_codex.Editing.Host.{Host, Node, missing, directory, file}
use mini_codex.Editing.Checkpoint.{
  Checkpoint, CheckpointManager, Error, Result, ok, err, get, discard, capture, seal,
}
use mini_codex.Editing.Rollback.{same_hash, Files}

-- The executor that is wrapped, what the registry knows of a tool, the next revision, and what
-- others write between the capture and the edit. `Out` is its tool result.
pub record Surroundings (h : Host) : Type 1 where
  pub Call : Type 0
  pub Out : Type 0
  pub run : Call → h.Disk → Out × h.Disk
  pub success : Out → Bool
  -- whether a registered tool has the capability `code.edit`; `none` for a tool that is not there
  pub edits : Text → Option Bool
  -- `none` where it raises
  pub next_edit_revision : Option ℕ
  pub meanwhile : h.Disk → h.Disk

-- `path_value` is `str(arguments.get("path"))`, where it is not None; `error` is whether the
-- preparation failed.
pub record PreparedToolCall (Call : Type 0) : Type 0 where
  pub tool_name : Text
  pub path_value : Option Text
  pub error : Bool
  pub call : Call

-- The failure results of the wrapper; the last carries the expected and the current hash.
pub data Blocked : Type 0 where
  checkpoint_precondition checkpoint_revision : Blocked
  checkpoint_capture : Error → Blocked
  workspace_conflict : Option Text → Option Text → Blocked

-- The checkpoint entries of the data of a successful edit; `failure` is what the seal raised.
pub record EditData : Type 0 where
  pub checkpoint : Checkpoint
  pub checkpoint_sealed : Bool
  pub checkpoint_after_sha256 : Option Text
  pub safety_degraded : Bool
  pub failure : Option Error

pub data Execution (Out : Type 0) : Type 0 where
  delegated : Out → Execution Out
  blocked : Blocked → Execution Out
  edit_failed : Out → Execution Out
  edited : Out → EditData → Execution Out

abbrev checkpointed_edit_tools : List Text
checkpointed_edit_tools =
    codes "patch_file" ∷ codes "replace_lines" ∷ codes "replace_symbol" ∷ codes "write_file" ∷ []

abbrev after_hash : Option Checkpoint → Option Text
after_hash none = none
after_hash (some c) = c.after_sha256

module _ (h : Host) where
  -- The hash of what stands at the path now.
  unfoldable pub hash_now : Node h.Raw → Option Text
  hash_now missing = none
  hash_now directory = none
  hash_now (file raw) = elim (h.decode raw) [
    | some content ↦ some (h.content_hash content)
    | none ↦ some (codes "__unreadable__")
  ]

  module _ (s : Surroundings h) where
    unfoldable pub is_edit : Text → Bool
    is_edit tool_name = get_or (s.edits tool_name) (any (same tool_name) checkpointed_edit_tools)

    -- After the edit has succeeded.
    unfoldable pub seal_edit : s.Out → Checkpoint → Files h → Execution s.Out × Files h
    seal_edit out c (m, d) = elim (seal h c.checkpoint_id d m) [
      | ok m' ↦ (
        edited out (record {
          checkpoint = c;
          checkpoint_sealed = true;
          checkpoint_after_sha256 = after_hash (get c.checkpoint_id m');
          safety_degraded = false;
          failure = none;
        }),
        (m', d),
      )
      | err e ↦ (
        edited out (record {
          checkpoint = c;
          checkpoint_sealed = false;
          checkpoint_after_sha256 = none;
          safety_degraded = true;
          failure = some e;
        }),
        ((discard c.checkpoint_id m).0, d),
      )
    ]

    unfoldable pub run_edit :
        PreparedToolCall s.Call → Checkpoint → Files h → Execution s.Out × Files h
    run_edit prepared c (m, d) =
        let (out, d') = s.run prepared.call d in
        if s.success out
        then seal_edit out c (m, d')
        else (edit_failed out, ((discard c.checkpoint_id m).0, d'))

    -- After the capture: the test for a concurrent write, then the edit.
    unfoldable pub edit_captured :
        PreparedToolCall s.Call → Text → Checkpoint → Files h → Execution s.Out × Files h
    edit_captured prepared path c (m, d) =
        let now = hash_now (h.node d (h.resolve (h.join m.workspace path))) in
        if same_hash now c.snapshot.sha256 then run_edit prepared c (m, d) else (
          blocked (workspace_conflict c.snapshot.sha256 now),
          ((discard c.checkpoint_id m).0, d),
        )

    unfoldable pub edit_path :
        PreparedToolCall s.Call → Text → ℕ → Files h → Execution s.Out × Files h
    edit_path prepared path revision (m, d) =
        if ltb revision 1
        then (blocked checkpoint_revision, (m, d))
        else elim (capture h path revision d m) [
          | err e ↦ (blocked (checkpoint_capture e), (m, d))
          | ok captured ↦ edit_captured prepared path captured.0 (captured.1, s.meanwhile d)
        ]

    unfoldable pub execute_prepared : PreparedToolCall s.Call → Files h → Execution s.Out × Files h
    execute_prepared prepared (m, d) =
        let path = strip (get_or prepared.path_value []) in
        if prepared.error || not (is_edit prepared.tool_name)
        then (let (out, d') = s.run prepared.call d in (delegated out, (m, d')))
        else if is_empty path
        then (blocked checkpoint_precondition, (m, d))
        else elim s.next_edit_revision [
          | none ↦ (blocked checkpoint_revision, (m, d))
          | some revision ↦ edit_path prepared path revision (m, d)
        ]
