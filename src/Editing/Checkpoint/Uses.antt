-- ===== src/Editing/Checkpoint/Uses.antt =====
-- The store of minicodex/agent/editing/checkpoint.py over any sequence of its operations.
use mini_codex.Common.{
  ℕ, ◌≡◌, ◌⊎◌, inl, inr, refl, sym, ap, List, [], ◌∷◌, arith, Text, strip, All, Option-cases,
}
use mini_codex.Editing.Host.{Host, resolve_workspace_path}
use mini_codex.Editing.Checkpoint.{
  FileSnapshot, Checkpoint, CheckpointManager, Error, Result, ok, err, new_manager, reset,
  append_checkpoint, discard, get, change, set_rolled_back, set_sealed, mark_rolled_back,
  snapshot_of, capture, edited_hash, seal,
}
use mini_codex.Editing.Checkpoint.Tidy.{
  IsTidy, IsTidy-change, IsTidy-discard, IsTidy-append_checkpoint,
}

-- One call that went through, on whatever disk.
pub data StoreStep (h : Host) (m m' : CheckpointManager) : Type 0 where
  by_capture :
      (path : Text) (revision : ℕ) (d : h.Disk) (c : Checkpoint)
      → capture h path revision d m ≡ ok (c, m')
      → StoreStep h m m'
  by_seal : (id : Text) (d : h.Disk) → seal h id d m ≡ ok m' → StoreStep h m m'
  by_mark : (id : Text) → mark_rolled_back id m ≡ ok m' → StoreStep h m m'
  by_discard : (id : Text) → m' ≡ (discard id m).0 → StoreStep h m m'
  by_reset : m' ≡ reset m → StoreStep h m m'

-- Each of the stores comes from the one before by a call.
abbrev pub IsStoreRun : (h : Host) → CheckpointManager → List CheckpointManager → Type 0
IsStoreRun h m [] = Unit
IsStoreRun h m (k ∷ ks) = StoreStep h m k × IsStoreRun h k ks

pub Result-cases {ℓ} :
    {A : Type ℓ} (r : Result A) → ((e : Error) × (r ≡ err e)) ⊎ ((a : A) × (r ≡ ok a))
Result-cases (err e) = inl (e, refl)
Result-cases (ok a) = inr (a, refl)

pub capture-append_checkpoint :
    (h : Host) (path : Text) (revision : ℕ) (d : h.Disk) (m m' : CheckpointManager) (c : Checkpoint)
    → capture h path revision d m ≡ ok (c, m')
    → (s : FileSnapshot) × (append_checkpoint s revision m ≡ (c, m'))
unfolding capture
capture-append_checkpoint h path revision d m m' c e =
    elim (Option-cases (resolve_workspace_path h m.workspace (strip path))) [
      | inl outside ↦ absurd (ground arith)
      | inr (p, inside) ↦ elim (Result-cases (snapshot_of h (strip path) (h.node d p))) [
        | inl (x, bad) ↦ absurd (ground arith)
        | inr (s, fine) ↦ (s, ground arith)
      ]
    ]

pub seal-change :
    (h : Host) (id : Text) (d : h.Disk) (m m' : CheckpointManager)
    → seal h id d m ≡ ok m'
    → (c : Checkpoint) × (sha256 : Text) × (record m {
      checkpoints = change c.checkpoint_id (set_sealed sha256) m.checkpoints;
    }
        ≡ m')
unfolding seal
seal-change h id d m m' e = elim (Option-cases (get id m)) [
  | inl unknown ↦ absurd (ground arith)
  | inr (c, known) ↦ elim (Option-cases (resolve_workspace_path h m.workspace c.snapshot.path)) [
    | inl outside ↦ absurd (ground arith)
    | inr (p, inside) ↦ elim (Result-cases (edited_hash h (h.node d p))) [
      | inl (x, bad) ↦ absurd (ground arith)
      | inr (sha256, fine) ↦ (c, sha256, ground arith)
    ]
  ]
]

mark-change :
    (id : Text) (m m' : CheckpointManager)
    → mark_rolled_back id m ≡ ok m'
    → (c : Checkpoint) × (record m {
      checkpoints = change c.checkpoint_id set_rolled_back m.checkpoints;
    }
        ≡ m')
unfolding mark_rolled_back
mark-change id m m' e = elim (Option-cases (get id m)) [
  | inl unknown ↦ absurd (ground arith)
  | inr (c, known) ↦ (c, ground arith)
]

IsTidy-reset : (m : CheckpointManager) → IsTidy (reset m)
unfolding reset
IsTidy-reset m = record { bounded = omega arith; numbered = omega arith }

IsTidy-step : (h : Host) (m m' : CheckpointManager) → StoreStep h m m' → IsTidy m → IsTidy m'
IsTidy-step h m m' (by_capture path revision d c e) t =
    let (s, it) = capture-append_checkpoint h path revision d m m' c e in
    rw (ap (λ x. x.1) (sym it)) (IsTidy-append_checkpoint s revision m t)
IsTidy-step h m m' (by_seal id d e) t =
    let (c, sha256, it) = seal-change h id d m m' e in
    rw (← it) (IsTidy-change c.checkpoint_id (set_sealed sha256) (λ k. refl) m t)
IsTidy-step h m m' (by_mark id e) t =
    let (c, it) = mark-change id m m' e in
    rw (← it) (IsTidy-change c.checkpoint_id set_rolled_back (λ k. refl) m t)
IsTidy-step h m m' (by_discard id e) t = rw e (IsTidy-discard id m t)
IsTidy-step h m m' (by_reset e) t = rw e (IsTidy-reset m)

-- From a tidy store, every call that goes through leads to a tidy one: the store never holds more
-- checkpoints than it may, and their identifiers are the numbers of their captures, in ascending
-- order and none above the counter.
pub store_run-IsTidy :
    (h : Host) (m : CheckpointManager) (ks : List CheckpointManager)
    → IsTidy m
    → IsStoreRun h m ks
    → All IsTidy ks
store_run-IsTidy h m [] t r = tt
store_run-IsTidy h m (k ∷ ks) t r =
    let t' = IsTidy-step h m k r.0 t in (t', store_run-IsTidy h k ks t' r.1)

-- A new store is tidy.
pub new_manager-IsTidy :
    (workspace : Text) (max_checkpoints : ℕ) (m : CheckpointManager)
    → new_manager workspace max_checkpoints ≡ ok m
    → IsTidy m
unfolding new_manager
new_manager-IsTidy workspace max_checkpoints m e = ground arith
