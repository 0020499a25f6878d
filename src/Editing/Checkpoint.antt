-- ===== src/Editing/Checkpoint.antt =====
-- minicodex/agent/editing/checkpoint.py: the bounded store of file checkpoints.
pub mod Lookup
pub mod Tidy
pub mod Uses
pub mod Found
use mini_codex.Common.{
  ℕ, suc, ◌+◌, ◌-◌, ◌≡◌, refl, Bool, true, false, not, ◌&&◌, ◌||◌, Option, none, some, List, [],
  ◌∷◌, ◌++◌, reverse, Text, codes, same, strip, is_empty, ltb, leb, ◌==◌, find, last?, length, drop,
  if◌then◌else◌,
}
use mini_codex.Common.Decimal.{padded}
use mini_codex.Editing.Host.{Host, Node, missing, directory, file, resolve_workspace_path}

pub record FileSnapshot : Type 0 where
  pub path : Text
  pub existed : Bool
  pub content : Option Text
  pub sha256 : Option Text

pub record Checkpoint : Type 0 where
  pub checkpoint_id : Text
  pub edit_revision : ℕ
  pub snapshot : FileSnapshot
  pub after_sha256 : Option Text
  pub sealed : Bool
  pub rolled_back : Bool

pub record CheckpointManager : Type 0 where
  pub workspace : Text
  pub max_checkpoints : ℕ
  pub counter : ℕ
  pub history_trimmed : Bool
  pub checkpoints : List Checkpoint

-- What the manager's methods raise.
pub data Error : Type 0 where
  max_checkpoints_too_small empty_path revision_too_small outside_workspace : Error
  not_a_file unreadable checkpoint_not_found already_rolled_back : Error
  edited_file_missing edited_path_not_a_file : Error

pub data Result {ℓ} (A : Type ℓ) : Type ℓ where
  ok : A → Result A
  err : Error → Result A

infixl 5 ◌>>=◌
abbrev pub ◌>>=◌ {ℓ κ} : {A : Type ℓ} {B : Type κ} → Result A → (A → Result B) → Result B
ok a >>= f = f a
err e >>= f = err e

abbrev or_raise {ℓ} : {A : Type ℓ} → Error → Option A → Result A
or_raise e none = err e
or_raise e (some a) = ok a

-- The text after the conversion of the workspace to an absolute path, which every use repeats.
unfoldable pub new_manager : Text → ℕ → Result CheckpointManager
new_manager workspace max_checkpoints =
    if ltb max_checkpoints 1
    then err max_checkpoints_too_small
    else ok (record {
      workspace = workspace;
      max_checkpoints = max_checkpoints;
      counter = 0;
      history_trimmed = false;
      checkpoints = [];
    })

unfoldable pub reset : CheckpointManager → CheckpointManager
reset m = record m { counter = 0; checkpoints = []; history_trimmed = false }

-- `f"cp-{counter:06d}"`
abbrev pub checkpoint_name : ℕ → Text
checkpoint_name n = b'c' ∷ b'p' ∷ b'-' ∷ padded n

unfoldable pub trim_history : CheckpointManager → CheckpointManager
trim_history m = if leb (length m.checkpoints) m.max_checkpoints then m else record m {
  history_trimmed = true;
  checkpoints = drop (length m.checkpoints - m.max_checkpoints) m.checkpoints;
}

-- The checkpoint that a capture of `snapshot` makes.
unfoldable pub new_checkpoint : FileSnapshot → ℕ → CheckpointManager → Checkpoint
new_checkpoint snapshot edit_revision m = record {
  checkpoint_id = checkpoint_name (suc m.counter);
  edit_revision = edit_revision;
  snapshot = snapshot;
  after_sha256 = none;
  sealed = false;
  rolled_back = false;
}

unfoldable pub append_checkpoint :
    FileSnapshot → ℕ → CheckpointManager → Checkpoint × CheckpointManager
append_checkpoint snapshot edit_revision m =
    let c = new_checkpoint snapshot edit_revision m in
    (c, trim_history (record m { counter = suc m.counter; checkpoints = m.checkpoints ++ c ∷ [] }))

-- The deletion of the last item that passes; `none` where no item does.
unfoldable pub delete_last : (Checkpoint → Bool) → List Checkpoint → Option (List Checkpoint)
delete_last p [] = none
delete_last p (c ∷ cs) = elim (delete_last p cs) [
  | some rest ↦ some (c ∷ rest)
  | none ↦ if p c then some cs else none
]

unfoldable pub discard : Text → CheckpointManager → CheckpointManager × Bool
discard checkpoint_id m =
    let target = strip checkpoint_id in
    if is_empty target
    then (m, false)
    else elim (delete_last (λ c. same c.checkpoint_id target) m.checkpoints) [
      | none ↦ (m, false)
      | some rest ↦ (record m { checkpoints = rest }, true)
    ]

unfoldable pub latest : CheckpointManager → Option Checkpoint
latest m = last? m.checkpoints

unfoldable pub get : Text → CheckpointManager → Option Checkpoint
get checkpoint_id m = find (λ c. same c.checkpoint_id (strip checkpoint_id)) (reverse m.checkpoints)

unfoldable pub latest_for_path : Text → CheckpointManager → Option Checkpoint
latest_for_path path m = find (λ c. same c.snapshot.path (strip path)) (reverse m.checkpoints)

unfoldable pub latest_for_revision : ℕ → CheckpointManager → Option Checkpoint
latest_for_revision revision m = find (λ c. c.edit_revision == revision) (reverse m.checkpoints)

-- The objects in the list are shared with the callers: a method that changes the checkpoint `get`
-- returns changes the one in the list.
unfoldable pub change : Text → (Checkpoint → Checkpoint) → List Checkpoint → List Checkpoint
change id f [] = []
change id f (c ∷ cs) = (if same c.checkpoint_id id then f c else c) ∷ change id f cs

abbrev pub set_rolled_back : Checkpoint → Checkpoint
set_rolled_back c = record c { rolled_back = true }

abbrev pub set_sealed : Text → Checkpoint → Checkpoint
set_sealed sha256 c = record c { after_sha256 = some sha256; sealed = true }

unfoldable pub mark_rolled_back : Text → CheckpointManager → Result (CheckpointManager)
mark_rolled_back checkpoint_id m = elim (get checkpoint_id m) [
  | none ↦ err checkpoint_not_found
  | some c ↦ ok (record m { checkpoints = change c.checkpoint_id set_rolled_back m.checkpoints })
]

module _ (h : Host) where
  -- The before-state of a file.
  unfoldable pub snapshot_of : Text → Node h.Raw → Result FileSnapshot
  snapshot_of path missing =
      ok (record { path = path; existed = false; content = none; sha256 = none })
  snapshot_of path directory = err not_a_file
  snapshot_of path (file raw) = do
    content ← or_raise unreadable (h.decode raw)
    ok (record {
      path = path;
      existed = true;
      content = some content;
      sha256 = some (h.content_hash content);
    })

  unfoldable pub capture :
      Text → ℕ → h.Disk → CheckpointManager → Result (Checkpoint × CheckpointManager)
  unfolding snapshot_of
  capture path edit_revision d m =
      let normalized = strip path in
      if is_empty normalized
      then err empty_path
      else if ltb edit_revision 1
      then err revision_too_small
      else do
        file_path ← or_raise outside_workspace (resolve_workspace_path h m.workspace normalized)
        snapshot ← snapshot_of normalized (h.node d file_path)
        ok (append_checkpoint snapshot edit_revision m)

  -- The after-state that a seal records.
  unfoldable pub edited_hash : Node h.Raw → Result Text
  edited_hash missing = err edited_file_missing
  edited_hash directory = err edited_path_not_a_file
  edited_hash (file raw) = do
    content ← or_raise unreadable (h.decode raw)
    ok (h.content_hash content)

  -- `seal`, for the checkpoint that was found.
  unfoldable pub seal_found : Checkpoint → h.Disk → CheckpointManager → Result CheckpointManager
  unfolding edited_hash
  seal_found c d m = if c.rolled_back then err already_rolled_back else do
    file_path ← or_raise outside_workspace (resolve_workspace_path h m.workspace c.snapshot.path)
    sha256 ← edited_hash (h.node d file_path)
    ok (record m { checkpoints = change c.checkpoint_id (set_sealed sha256) m.checkpoints })

  unfoldable pub seal : Text → h.Disk → CheckpointManager → Result CheckpointManager
  unfolding seal_found
  seal checkpoint_id d m = do
    c ← or_raise checkpoint_not_found (get checkpoint_id m)
    seal_found c d m
