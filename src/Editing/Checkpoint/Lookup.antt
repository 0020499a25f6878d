-- ===== src/Editing/Checkpoint/Lookup.antt =====
-- Finding a checkpoint again: `get` of minicodex/agent/editing/checkpoint.py after a change.
use mathlib.Core.List.{reverse-append}
use mini_codex.Common.{
  ◌≡◌, refl, Bool, Option, none, some, List, [], ◌∷◌, ◌++◌, reverse, arith, Text, same, strip, find,
  if◌then◌else◌,
}
use mini_codex.Editing.Checkpoint.{
  Checkpoint, CheckpointManager, get, change, set_rolled_back, mark_rolled_back, ok,
}

module _ (p : Checkpoint → Bool) where
  find-append_last :
      (xs : List Checkpoint) (x : Checkpoint)
      → find p (xs ++ x ∷ []) ≡ elim (find p xs) [ some y ↦ some y | none ↦ find p (x ∷ []) ]
  find-append_last [] x = refl
  find-append_last (y ∷ xs) x = ground (arith, find-append_last xs x)

-- The checkpoint with the identifier `id` after `change cid f`.
abbrev pub changed : Text → (Checkpoint → Checkpoint) → Option Checkpoint → Option Checkpoint
changed cid f none = none
changed cid f (some c) = some (if same c.checkpoint_id cid then f c else c)

module _ (id cid : Text) (f : Checkpoint → Checkpoint)
    (keeps_id : (c : Checkpoint) → (f c).checkpoint_id ≡ c.checkpoint_id) where
  find-change :
      (xs : List Checkpoint)
      → find (λ c. same c.checkpoint_id id) (reverse (change cid f xs))
        ≡ changed cid f (find (λ c. same c.checkpoint_id id) (reverse xs))
  unfolding change
  find-change [] = refl
  find-change (c ∷ xs) =
      rw
        (
          reverse-append ((if same c.checkpoint_id cid then f c else c) ∷ []) (change cid f xs),
          reverse-append (c ∷ []) xs,
          find-append_last,
          find-append_last,
          find-change xs,
        )
        (ground (arith, keeps_id c))

pub get-change :
    (id cid : Text) (f : Checkpoint → Checkpoint) (m : CheckpointManager)
    → ((c : Checkpoint) → (f c).checkpoint_id ≡ c.checkpoint_id)
    → get id (record m { checkpoints = change cid f m.checkpoints }) ≡ changed cid f (get id m)
unfolding get
get-change id cid f m keeps_id = find-change (strip id) cid f keeps_id m.checkpoints

-- After `mark_rolled_back` every identifier finds the checkpoint that it found before, marked if it
-- has the identifier of the one that was rolled back.
pub get-mark_rolled_back :
    (id target : Text) (m m' : CheckpointManager) (c : Checkpoint)
    → get target m ≡ some c
    → mark_rolled_back target m ≡ ok m'
    → get id m' ≡ changed c.checkpoint_id set_rolled_back (get id m)
unfolding mark_rolled_back
get-mark_rolled_back id target m m' c found e =
    let marked : record m { checkpoints = change c.checkpoint_id set_rolled_back m.checkpoints }
        ≡ m' =
      ground arith in
    rw (← marked) (get-change id c.checkpoint_id set_rolled_back m (λ k. refl))

pub workspace-mark_rolled_back :
    (target : Text) (m m' : CheckpointManager)
    → mark_rolled_back target m ≡ ok m'
    → m'.workspace ≡ m.workspace
unfolding mark_rolled_back
workspace-mark_rolled_back target m m' e = ground arith
