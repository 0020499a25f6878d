-- ===== src/Editing/Rollback/Finished.antt =====
-- What the undo of a whole task (minicodex/agent/editing/rollback.py) leaves of the checkpoints.
use mathlib.Core.List.{Memᴰ}
use mini_codex.Common.{
  ◌≡◌, inl, inr, refl, sym, ap, ◌∙◌, true, false, some, List, [], ◌∷◌, map, reverse, arith, Text,
  same, same_iff, strip, keep, All, Bool-cases, Option-cases,
}
use mini_codex.Common.Searches.{mem_find, mem_of_keep, mem_keep}
use mini_codex.Editing.Host.{Host, HostLaws}
use mini_codex.Editing.Checkpoint.{
  Checkpoint, CheckpointManager, ok, get, change, set_rolled_back, mark_rolled_back,
}
use mini_codex.Editing.Checkpoint.Tidy.{IsTidy}
use mini_codex.Editing.Checkpoint.Found.{
  strip-checkpoint_name, name_of_mem, mem-reverse, mem_of_reverse,
}
use mini_codex.Editing.Rollback.{undone, rollback, is_active, check_chain, undo_each, undo_task}
use mini_codex.Editing.Rollback.Restores.{rollback-IsRolledBack}
use mini_codex.Editing.Rollback.Undo.{Rollback-cases, All-mem}

-- Every active checkpoint of the store has the identifier of one of the list.
abbrev IsListed : List Checkpoint → CheckpointManager → Type 0
IsListed cs m =
    (x : Checkpoint)
    → Memᴰ x m.checkpoints
    → is_active x ≡ true
    → Memᴰ x.checkpoint_id (map (λ c. c.checkpoint_id) cs)

abbrev IsStripped : Checkpoint → Type 0
IsStripped c = strip c.checkpoint_id ≡ c.checkpoint_id

id_of_get :
    (id : Text) (m : CheckpointManager) (k : Checkpoint)
    → get id m ≡ some k
    → k.checkpoint_id ≡ strip id
unfolding get
id_of_get id m k e =
    let r = mem_find (λ c. same c.checkpoint_id (strip id)) k (reverse m.checkpoints) e in
    (same_iff k.checkpoint_id (strip id)).0 r.1

checkpoints-mark_rolled_back :
    (id : Text) (m m' : CheckpointManager)
    → strip id ≡ id
    → mark_rolled_back id m ≡ ok m'
    → m'.checkpoints ≡ change id set_rolled_back m.checkpoints
unfolding mark_rolled_back
checkpoints-mark_rolled_back id m m' s e = elim (Option-cases (get id m)) [
  | inl unknown ↦ absurd (ground arith)
  | inr (k, known) ↦
      let own : k.checkpoint_id ≡ id = id_of_get id m k known ∙ s in
      let it : change k.checkpoint_id set_rolled_back m.checkpoints ≡ m'.checkpoints =
        ground arith in
      sym it ∙ ap (λ i. change i set_rolled_back m.checkpoints) own
]

-- An active checkpoint after the marking of `id` was there before, and has another identifier.
active_of_change :
    (id : Text) (x : Checkpoint) (xs : List Checkpoint)
    → Memᴰ x (change id set_rolled_back xs)
    → is_active x ≡ true
    → Memᴰ x xs × (same x.checkpoint_id id ≡ false)
unfolding change
active_of_change id x [] m a = elim m [ ]
active_of_change id x (y ∷ xs) (Memᴰ.head e) a = elim (Bool-cases (same y.checkpoint_id id)) [
  | inl own ↦ absurd (ground (arith, ap is_active e))
  | inr other ↦ let it : x ≡ y = rw other at e in (Memᴰ.head it, rw it other)
]
active_of_change id x (y ∷ xs) (Memᴰ.tail t) a =
    let r = active_of_change id x xs t a in (Memᴰ.tail r.0, r.1)

tail_of_mem : (a b : Text) (xs : List Text) → Memᴰ a (b ∷ xs) → same a b ≡ false → Memᴰ a xs
tail_of_mem a b xs (Memᴰ.head e) h = absurd (cc (h, (same_iff a b).1 e))
tail_of_mem a b xs (Memᴰ.tail t) h = t

IsListed-mark :
    (c : Checkpoint) (cs : List Checkpoint) (m m' : CheckpointManager)
    → IsStripped c
    → mark_rolled_back c.checkpoint_id m ≡ ok m'
    → IsListed (c ∷ cs) m
    → IsListed cs m'
IsListed-mark c cs m m' s e l x inside active =
    let r =
      active_of_change c.checkpoint_id x m.checkpoints
        (rw (checkpoints-mark_rolled_back c.checkpoint_id m m' s e) at inside) active in
    tail_of_mem x.checkpoint_id c.checkpoint_id (map (λ k. k.checkpoint_id) cs) (l x r.0 active) r.1

module _ (h : Host) (laws : HostLaws h) where
  undo_each-IsListed :
      (cs : List Checkpoint) (paths ps : List Text) (m m' : CheckpointManager) (d d' : h.Disk)
      → All IsStripped cs
      → undo_each h cs paths (m, d) ≡ (undone ps, (m', d'))
      → IsListed cs m
      → IsListed [] m'
  unfolding undo_each
  undo_each-IsListed [] paths ps m m' d d' s e l = let it : m ≡ m' = ground arith in rw (← it) l
  undo_each-IsListed (c ∷ cs) paths ps m m' d d' s e l =
      elim (Rollback-cases h laws m.workspace [] (rollback h c.checkpoint_id (m, d))) [
        | inl (k, went) ↦
            let (m1, d1) = (rollback h c.checkpoint_id (m, d)).1 in
            let r = rollback-IsRolledBack h laws c.checkpoint_id k m m1 d d1 went in
            let own : k.checkpoint_id ≡ c.checkpoint_id =
              id_of_get c.checkpoint_id m k r.found ∙ s.0 in
            undo_each-IsListed cs _ ps m1 m' d1 d' s.1 (rw (went, undo_each) at e)
              (IsListed-mark c cs m m1 s.0 (ap (λ i. mark_rolled_back i m) (sym own) ∙ r.marked) l)
        | inr (x, bad) ↦ absurd (ground arith)
      ]

mem_ids :
    (x : Checkpoint) (cs : List Checkpoint)
    → Memᴰ x cs
    → Memᴰ x.checkpoint_id (map (λ c. c.checkpoint_id) cs)
mem_ids x [] m = elim m [ ]
mem_ids x (c ∷ cs) (Memᴰ.head e) = Memᴰ.head (ap (λ y. y.checkpoint_id) e)
mem_ids x (c ∷ cs) (Memᴰ.tail t) = Memᴰ.tail (mem_ids x cs t)

IsListed-active : (m : CheckpointManager) → IsListed (reverse (keep is_active m.checkpoints)) m
IsListed-active m x inside active = mem_ids x (reverse (keep is_active m.checkpoints)) (
    mem-reverse x (keep is_active m.checkpoints) (mem_keep is_active x m.checkpoints inside active))

IsStripped-active :
    (m : CheckpointManager) → IsTidy m → All IsStripped (reverse (keep is_active m.checkpoints))
IsStripped-active m t = All-mem (reverse (keep is_active m.checkpoints)) (λ c inside.
    let kept =
      mem_of_keep is_active c m.checkpoints
        (mem_of_reverse c (keep is_active m.checkpoints) inside) in
    let (n, above, name) = name_of_mem 0 m.counter m.checkpoints c t.numbered kept.0 in
    rw name (strip-checkpoint_name n))

keep_none :
    (xs : List Checkpoint)
    → ((x : Checkpoint) → Memᴰ x xs → is_active x ≡ true → ⊥)
    → keep is_active xs ≡ []
keep_none [] f = refl
keep_none (x ∷ xs) f = elim (Bool-cases (is_active x)) [
  | inl on ↦ absurd (f x (Memᴰ.head refl) on)
  | inr off ↦ rw off (keep_none xs (λ y m. f y (Memᴰ.tail m)))
]

-- On a host that keeps its laws and from a tidy store, an undo of the task that returns success
-- leaves no checkpoint active: every sealed checkpoint of the store is marked as rolled back.
pub undo_task-active :
    (h : Host) (laws : HostLaws h) (ps : List Text) (m m' : CheckpointManager) (d d' : h.Disk)
    → IsTidy m
    → undo_task h (m, d) ≡ (undone ps, (m', d'))
    → keep is_active m'.checkpoints ≡ []
unfolding undo_task
undo_task-active h laws ps m m' d d' t e =
    let chain = reverse (keep is_active m.checkpoints) in
    elim (Bool-cases m.history_trimmed) [
      | inl trimmed ↦ absurd (ground arith)
      | inr whole ↦ elim (Option-cases (check_chain h chain [] (m, d))) [
        | inl fine ↦
            let l =
              undo_each-IsListed h laws chain [] ps m m' d d' (IsStripped-active m t) (ground arith)
                (IsListed-active m) in
            keep_none m'.checkpoints (λ x inside on. elim (l x inside on) [ ])
        | inr (x, bad) ↦ absurd (ground arith)
      ]
    ]
