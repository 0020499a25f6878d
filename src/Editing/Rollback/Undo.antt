-- ===== src/Editing/Rollback/Undo.antt =====
-- What the undo of a whole task (minicodex/agent/editing/rollback.py) restores.
use mini_codex.Common.{
  ◌≡◌, ◌≢◌, ◌⊎◌, inl, inr, refl, sym, ap, ◌∙◌, Bool, true, false, Option, none, some, List, [], ◌∷◌,
  reverse, arith, Text, same, same_iff, keep, All, Bool-cases, Option-cases, if◌then◌else◌,
}
use mathlib.Core.List.{Memᴰ}
use mini_codex.Common.Searches.{mem_of_keep}
use mini_codex.Editing.Checkpoint.Tidy.{IsTidy}
use mini_codex.Editing.Checkpoint.Found.{get_mem, mem_of_reverse}
use mini_codex.Editing.Host.{Host, HostLaws, Node, resolve_workspace_path}
use mini_codex.Editing.Checkpoint.{
  Checkpoint, CheckpointManager, ok, get, set_rolled_back, mark_rolled_back,
}
use mini_codex.Editing.Checkpoint.Lookup.{changed, get-mark_rolled_back, workspace-mark_rolled_back}
use mini_codex.Editing.Rollback.{
  RollbackResult, Problem, restored, stopped, undone, rollback, is_active, check_chain, undo_each,
  undo_task,
}
use mini_codex.Editing.Rollback.Elsewhere.{rollback-other}
use mini_codex.Editing.Rollback.Restores.{IsBefore, rollback-IsRolledBack}

-- The identifier of the checkpoint finds a checkpoint with the same snapshot.
record IsFound (m : CheckpointManager) (c : Checkpoint) : Type 0 where
  entry : Checkpoint
  found : get c.checkpoint_id m ≡ some entry
  same_snapshot : entry.snapshot ≡ c.snapshot

IsFound-mark_rolled_back :
    (c : Checkpoint) (target : Text) (m m' : CheckpointManager)
    → mark_rolled_back target m ≡ ok m'
    → IsFound m c
    → IsFound m' c
unfolding mark_rolled_back
IsFound-mark_rolled_back c target m m' e f = elim (Option-cases (get target m)) [
  | inl unknown ↦ absurd (ground arith)
  | inr (k, known) ↦ record {
    entry = if same f.entry.checkpoint_id k.checkpoint_id then set_rolled_back f.entry else f.entry;
    found =
        get-mark_rolled_back c.checkpoint_id target m m' k known e
        ∙ ap (changed k.checkpoint_id set_rolled_back) f.found;
    same_snapshot = ground (arith, f.same_snapshot);
  }
]

module _ (h : Host) (workspace q : Text) where
  -- The checkpoint is of the file `q`.
  abbrev is_of : Checkpoint → Bool
  is_of c = elim (resolve_workspace_path h workspace c.snapshot.path) [
    | none ↦ false
    | some p ↦ same p q
  ]

  -- The oldest of the checkpoints, which stand newest first, that is of the file.
  abbrev pub oldest : List Checkpoint → Option Checkpoint
  oldest [] = none
  oldest (c ∷ cs) = elim (oldest cs) [ some k ↦ some k | none ↦ if is_of c then some c else none ]

module _ (h : Host) where
  -- The file is at the before-state of its oldest checkpoint, or as it was where it has none.
  abbrev pub IsUndone : Option Checkpoint → Node h.Raw → Node h.Raw → Type 0
  IsUndone none before now = now ≡ before
  IsUndone (some c) before now = IsBefore h c.snapshot now

All-map {κ κ'} :
    {P : Checkpoint → Type κ} {Q : Checkpoint → Type κ'}
    → ((c : Checkpoint) → P c → Q c)
    → (cs : List Checkpoint) → All P cs
    → All Q cs
All-map f [] a = tt
All-map f (c ∷ cs) a = (f c a.0, All-map f cs a.1)

module _ (h : Host) (laws : HostLaws h) (workspace q : Text) where
  pub Rollback-cases :
      (r : RollbackResult × (CheckpointManager × h.Disk))
      → ((k : Checkpoint) × (r ≡ (restored k, (r.1.0, r.1.1))))
        ⊎ ((x : Problem) × (r.0 ≡ stopped x))
  Rollback-cases (restored k, f) = inl (k, refl)
  Rollback-cases (stopped x, f) = inr (x, refl)

  -- One rollback, seen at the file `q`.
  IsUndone-step :
      (c k : Checkpoint) (m m' : CheckpointManager) (d d' : h.Disk)
      → m.workspace ≡ workspace
      → IsFound m c
      → rollback h c.checkpoint_id (m, d) ≡ (restored k, (m', d'))
      → IsUndone h (if is_of h workspace q c then some c else none) (h.node d q) (h.node d' q)
  IsUndone-step c k m m' d d' w f e =
      let r = rollback-IsRolledBack h laws c.checkpoint_id k m m' d d' e in
      let whose : k.snapshot ≡ c.snapshot = ground (arith, r.found, f.found, f.same_snapshot) in
      let here : resolve_workspace_path h workspace c.snapshot.path ≡ some r.path =
        rw (← whose, ← w) r.resolved in
      elim (Bool-cases (same r.path q)) [
        | inl own ↦
            let at_q : r.path ≡ q = (same_iff r.path q).0 own in
            let mine : is_of h workspace q c ≡ true = rw (here, is_of) own in
            rw mine (rw (← at_q, ← whose) r.before)
        | inr other ↦
            let apart : r.path ≢ q = λ at_q. absurd (cc (other, (same_iff r.path q).1 at_q)) in
            let kept =
              rollback-other h laws c.checkpoint_id k r.path q m d r.found r.resolved apart in
            let not_mine : is_of h workspace q c ≡ false = rw (here, is_of) other in
            rw not_mine (ap (λ x. h.node x.1.1 q) (sym e) ∙ kept)
      ]

  IsUndone-oldest :
      (first : Option Checkpoint) (c : Checkpoint) (n0 n1 n2 : Node h.Raw)
      → IsUndone h (if is_of h workspace q c then some c else none) n0 n1
      → IsUndone h first n1 n2
      → IsUndone h
          (elim first [ some k ↦ some k | none ↦ if is_of h workspace q c then some c else none ])
          n0
          n2
  IsUndone-oldest none c n0 n1 n2 step rest = rw rest step
  IsUndone-oldest (some k) c n0 n1 n2 step rest = rest

  undo_each-IsUndone :
      (cs : List Checkpoint) (paths ps : List Text) (m m' : CheckpointManager) (d d' : h.Disk)
      → m.workspace ≡ workspace
      → All (IsFound m) cs
      → undo_each h cs paths (m, d) ≡ (undone ps, (m', d'))
      → IsUndone h (oldest h workspace q cs) (h.node d q) (h.node d' q)
  unfolding undo_each
  undo_each-IsUndone [] paths ps m m' d d' w f e = ground arith
  undo_each-IsUndone (c ∷ cs) paths ps m m' d d' w f e =
      elim (Rollback-cases (rollback h c.checkpoint_id (m, d))) [
        | inl (k, went) ↦
            let (m1, d1) = (rollback h c.checkpoint_id (m, d)).1 in
            let r = rollback-IsRolledBack h laws c.checkpoint_id k m m1 d d1 went in
            IsUndone-oldest (oldest h workspace q cs) c (h.node d q) (h.node d1 q) (h.node d' q)
              (IsUndone-step c k m m1 d d1 w f.0 went)
              (undo_each-IsUndone cs _ ps m1 m' d1 d'
                (workspace-mark_rolled_back k.checkpoint_id m m1 r.marked ∙ w)
                (All-map (λ x. IsFound-mark_rolled_back x k.checkpoint_id m m1 r.marked) cs f.1)
                (rw (went, undo_each) at e))
        | inr (x, bad) ↦ absurd (ground arith)
      ]

pub All-mem {κ} :
    {P : Checkpoint → Type κ} (cs : List Checkpoint)
    → ((c : Checkpoint) → Memᴰ c cs → P c)
    → All P cs
All-mem [] f = tt
All-mem (c ∷ cs) f = (f c (Memᴰ.head refl), All-mem cs (λ x m. f x (Memᴰ.tail m)))

-- The active checkpoints of a tidy store are found by their identifiers.
active-IsFound :
    (m : CheckpointManager) → IsTidy m → All (IsFound m) (reverse (keep is_active m.checkpoints))
active-IsFound m t = All-mem (reverse (keep is_active m.checkpoints)) (λ c inside.
    let kept =
      mem_of_keep is_active c m.checkpoints
        (mem_of_reverse c (keep is_active m.checkpoints) inside) in
    record { entry = c; found = get_mem m c t kept.0; same_snapshot = refl })

-- On a host that keeps its laws and from a tidy store, an undo of the task that returns success
-- leaves each file at the before-state of the oldest active checkpoint of that file, whatever
-- spelling of its path the checkpoints carry, and a file without an active checkpoint as it was.
pub undo_task-IsUndone :
    (h : Host) (laws : HostLaws h) (q : Text) (ps : List Text) (m m' : CheckpointManager)
    (d d' : h.Disk)
    → IsTidy m
    → undo_task h (m, d) ≡ (undone ps, (m', d'))
    → IsUndone h
        (oldest h m.workspace q (reverse (keep is_active m.checkpoints)))
        (h.node d q)
        (h.node d' q)
unfolding undo_task
undo_task-IsUndone h laws q ps m m' d d' t e =
    let chain = reverse (keep is_active m.checkpoints) in
    elim (Bool-cases m.history_trimmed) [
      | inl trimmed ↦ absurd (ground arith)
      | inr whole ↦ elim (Option-cases (check_chain h chain [] (m, d))) [
        | inl fine ↦
            undo_each-IsUndone h laws m.workspace q chain [] ps m m' d d' refl (active-IsFound m t)
              (ground arith)
        | inr (x, bad) ↦ absurd (ground arith)
      ]
    ]
