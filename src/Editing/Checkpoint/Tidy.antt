-- ===== src/Editing/Checkpoint/Tidy.antt =====
-- What every use of the store of minicodex/agent/editing/checkpoint.py keeps: the bound on its
-- length and the order of its identifiers.
use mini_codex.Common.{
  ℕ, zero, suc, ◌-◌, ◌≤◌, ◌<◌, ◌≡◌, inl, inr, refl, ap, Bool, some, List, [], ◌∷◌, ◌++◌, arith,
  Text, same, strip, is_empty, leb, length, length-drop, drop, Bool-cases, Option-cases,
}
use mini_codex.Editing.Checkpoint.{
  FileSnapshot, Checkpoint, CheckpointManager, checkpoint_name, trim_history, new_checkpoint,
  append_checkpoint, delete_last, discard, change,
}

-- The identifiers of the checkpoints ascend, all above the number `lo` and none above `hi`.
abbrev pub IsNumbered : ℕ → ℕ → List Checkpoint → Type 0
IsNumbered lo hi [] = lo ≤ hi
IsNumbered lo hi (c ∷ cs) =
    (k : ℕ) × (lo < k) × (c.checkpoint_id ≡ checkpoint_name k) × IsNumbered k hi cs

-- The store keeps no more checkpoints than it may, and has numbered them in order.
pub record IsTidy (m : CheckpointManager) : Type 0 where
  pub bounded : length m.checkpoints ≤ m.max_checkpoints
  pub numbered : IsNumbered 0 m.counter m.checkpoints

IsNumbered-lower :
    (lo lo' hi : ℕ) (cs : List Checkpoint) → lo' ≤ lo → IsNumbered lo hi cs → IsNumbered lo' hi cs
IsNumbered-lower lo lo' hi [] le h = omega arith
IsNumbered-lower lo lo' hi (c ∷ cs) le (k, above, e, rest) = (k, omega arith, e, rest)

IsNumbered-append :
    (lo n : ℕ) (cs : List Checkpoint) (c : Checkpoint)
    → c.checkpoint_id ≡ checkpoint_name (suc n)
    → IsNumbered lo n cs
    → IsNumbered lo (suc n) (cs ++ c ∷ [])
IsNumbered-append lo n [] c e h = (suc n, omega arith, e, omega arith)
IsNumbered-append lo n (x ∷ cs) c e (k, above, own, rest) =
    (k, above, own, IsNumbered-append k n cs c e rest)

IsNumbered-drop :
    (lo hi n : ℕ) (cs : List Checkpoint) → IsNumbered lo hi cs → IsNumbered lo hi (drop n cs)
IsNumbered-drop lo hi zero cs h = h
IsNumbered-drop lo hi (suc n) [] h = h
IsNumbered-drop lo hi (suc n) (c ∷ cs) (k, above, e, rest) =
    IsNumbered-drop lo hi n cs (IsNumbered-lower k lo hi cs (omega arith) rest)

module _ (id : Text) (f : Checkpoint → Checkpoint)
    (keeps_id : (c : Checkpoint) → (f c).checkpoint_id ≡ c.checkpoint_id) where
  IsNumbered-change :
      (lo hi : ℕ) (cs : List Checkpoint) → IsNumbered lo hi cs → IsNumbered lo hi (change id f cs)
  unfolding change
  IsNumbered-change lo hi [] h = h
  IsNumbered-change lo hi (c ∷ cs) (k, above, e, rest) =
      (k, above, ground (arith, keeps_id c), IsNumbered-change k hi cs rest)

  length-change : (cs : List Checkpoint) → length (change id f cs) ≡ length cs
  unfolding change
  length-change [] = refl
  length-change (c ∷ cs) = ap suc (length-change cs)

  pub IsTidy-change :
      (m : CheckpointManager)
      → IsTidy m
      → IsTidy (record m { checkpoints = change id f m.checkpoints })
  IsTidy-change m h = record {
    bounded = omega (arith, h.bounded, length-change m.checkpoints);
    numbered = IsNumbered-change 0 m.counter m.checkpoints h.numbered;
  }

module _ (p : Checkpoint → Bool) where
  IsNumbered-delete_last :
      (lo hi : ℕ) (cs rest : List Checkpoint)
      → delete_last p cs ≡ some rest
      → IsNumbered lo hi cs
      → IsNumbered lo hi rest × (length rest ≤ length cs)
  unfolding delete_last
  IsNumbered-delete_last lo hi [] rest e h = absurd (cc)
  IsNumbered-delete_last lo hi (c ∷ cs) rest e (k, above, own, h) =
      elim (Option-cases (delete_last p cs)) [
        | inl last ↦
            let it : cs ≡ rest = ground arith in
            rw (← it) (IsNumbered-lower k lo hi cs (omega arith) h, omega arith)
        | inr (shorter, found) ↦
            let it : c ∷ shorter ≡ rest = ground arith in
            let r = IsNumbered-delete_last k hi cs shorter found h in
            rw (← it) ((k, above, own, r.0), omega (arith, r.1))
      ]

pub IsTidy-discard : (id : Text) (m : CheckpointManager) → IsTidy m → IsTidy (discard id m).0
unfolding discard
IsTidy-discard id m h = elim (Bool-cases (is_empty (strip id))) [
  | inl empty ↦ rw empty h
  | inr named ↦
      elim (Option-cases (delete_last (λ c. same c.checkpoint_id (strip id)) m.checkpoints)) [
        | inl nothing ↦ rw (named, nothing) h
        | inr (rest, found) ↦
            let r = IsNumbered-delete_last _ 0 m.counter m.checkpoints rest found h.numbered in
            rw (named, found) (record { bounded = omega (arith, r.1, h.bounded); numbered = r.0 })
      ]
]

IsTidy-trim_history :
    (m : CheckpointManager) → IsNumbered 0 m.counter m.checkpoints → IsTidy (trim_history m)
unfolding trim_history
IsTidy-trim_history m n = elim (Bool-cases (leb (length m.checkpoints) m.max_checkpoints)) [
  | inl short ↦ rw short (record { bounded = ground arith; numbered = n })
  | inr long ↦
      let k = length m.checkpoints - m.max_checkpoints in
      rw long (record {
        bounded = ground (arith, length-drop k m.checkpoints);
        numbered = IsNumbered-drop 0 m.counter k m.checkpoints n;
      })
]

pub IsTidy-append_checkpoint :
    (s : FileSnapshot) (revision : ℕ) (m : CheckpointManager)
    → IsTidy m
    → IsTidy (append_checkpoint s revision m).1
unfolding append_checkpoint new_checkpoint
IsTidy-append_checkpoint s revision m h =
    IsTidy-trim_history
      (record m {
        counter = suc m.counter;
        checkpoints = m.checkpoints ++ new_checkpoint s revision m ∷ [];
      })
      (IsNumbered-append 0 m.counter m.checkpoints (new_checkpoint s revision m) refl h.numbered)
