-- ===== src/Editing/Checkpoint/Found.antt =====
-- Every checkpoint of a tidy store is found by its own identifier (`get` of
-- minicodex/agent/editing/checkpoint.py).
use mathlib.Core.List.{Memᴰ, reverse-append}
use mini_codex.Common.{
  ℕ, ◌<◌, ◌≡◌, ◌⊎◌, inl, inr, refl, sym, ap, ◌∙◌, Bool, true, false, some, List, [], ◌∷◌, ◌++◌,
  reverse, arith, Text, same, same_iff, strip, find, Bool-cases,
}
use mini_codex.Common.Decimal.{padded, padded-injective, IsNumeral, IsNumeral-padded}
use mini_codex.Common.Strips.{IsInk, strip_ink}
use mini_codex.Common.Searches.{mem_append_left}
use mini_codex.Editing.Checkpoint.{Checkpoint, CheckpointManager, checkpoint_name, get}
use mini_codex.Editing.Checkpoint.Tidy.{IsNumbered, IsTidy}

IsInk-numeral : (s : Text) → IsNumeral s → IsInk s
IsInk-numeral [] h = tt
IsInk-numeral (c ∷ s) h = (ground arith, IsInk-numeral s h.1)

pub strip-checkpoint_name : (n : ℕ) → strip (checkpoint_name n) ≡ checkpoint_name n
strip-checkpoint_name n =
    strip_ink (checkpoint_name n)
      (refl, (refl, (refl, IsInk-numeral (padded n) (IsNumeral-padded n))))

checkpoint_name-injective : (m n : ℕ) → checkpoint_name m ≡ checkpoint_name n → m ≡ n
checkpoint_name-injective m n e = padded-injective m n (cc)

-- A checkpoint of an ascending list has a number above the lower bound.
pub name_of_mem :
    (lo hi : ℕ) (cs : List Checkpoint) (c : Checkpoint)
    → IsNumbered lo hi cs
    → Memᴰ c cs
    → (k : ℕ) × (lo < k) × (c.checkpoint_id ≡ checkpoint_name k)
name_of_mem lo hi [] c h m = elim m [ ]
name_of_mem lo hi (x ∷ cs) c (k, above, own, rest) (Memᴰ.head e) =
    (k, above, ap (λ y. y.checkpoint_id) e ∙ own)
name_of_mem lo hi (x ∷ cs) c (k, above, own, rest) (Memᴰ.tail t) =
    let (j, later, name) = name_of_mem k hi cs c rest t in (j, omega arith, name)

-- Of an ascending list, the checkpoints with the same identifier are the same.
eq_of_same_id :
    (lo hi : ℕ) (cs : List Checkpoint) (c d : Checkpoint)
    → IsNumbered lo hi cs
    → Memᴰ c cs
    → Memᴰ d cs
    → c.checkpoint_id ≡ d.checkpoint_id
    → c ≡ d
eq_of_same_id lo hi [] c d h m n e = elim m [ ]
eq_of_same_id lo hi (x ∷ cs) c d h (Memᴰ.head p) (Memᴰ.head q) e = p ∙ sym q
eq_of_same_id lo hi (x ∷ cs) c d (k, above, own, rest) (Memᴰ.head p) (Memᴰ.tail t) e =
    let (j, later, name) = name_of_mem k hi cs d rest t in
    absurd (
      omega (
        arith,
        checkpoint_name-injective k j (sym own ∙ (ap (λ y. y.checkpoint_id) (sym p) ∙ (e ∙ name))),
      ))
eq_of_same_id lo hi (x ∷ cs) c d (k, above, own, rest) (Memᴰ.tail t) (Memᴰ.head q) e =
    let (j, later, name) = name_of_mem k hi cs c rest t in
    absurd (
      omega (
        arith,
        checkpoint_name-injective k j
            (sym own ∙ (ap (λ y. y.checkpoint_id) (sym q) ∙ (sym e ∙ name))),
      ))
eq_of_same_id lo hi (x ∷ cs) c d (k, above, own, rest) (Memᴰ.tail s) (Memᴰ.tail t) e =
    eq_of_same_id k hi cs c d rest s t e

module _ {ℓ} {A : Type ℓ} where
  find_only :
      (p : A → Bool) (a : A) (xs : List A)
      → Memᴰ a xs
      → p a ≡ true
      → ((x : A) → Memᴰ x xs → p x ≡ true → x ≡ a)
      → find p xs ≡ some a
  find_only p a [] m h only = elim m [ ]
  find_only p a (x ∷ xs) m h only = elim (Bool-cases (p x)) [
    | inl yes_x ↦ rw yes_x (ap some (only x (Memᴰ.head refl) yes_x))
    | inr no_x ↦ rw no_x (find_only p a xs (in_tail m no_x) h (λ y k. only y (Memᴰ.tail k)))
  ]
    where
      in_tail : {x : A} {ys : List A} → Memᴰ a (x ∷ ys) → p x ≡ false → Memᴰ a ys
      in_tail (Memᴰ.head e) no_x = absurd (cc (ap p e, h))
      in_tail (Memᴰ.tail t) no_x = t

  mem_append_right : (x : A) (xs ys : List A) → Memᴰ x ys → Memᴰ x (xs ++ ys)
  mem_append_right x [] ys m = m
  mem_append_right x (y ∷ xs) ys m = Memᴰ.tail (mem_append_right x xs ys m)

  mem_of_append : (x : A) (xs ys : List A) → Memᴰ x (xs ++ ys) → Memᴰ x xs ⊎ Memᴰ x ys
  mem_of_append x [] ys m = inr m
  mem_of_append x (y ∷ xs) ys (Memᴰ.head e) = inl (Memᴰ.head e)
  mem_of_append x (y ∷ xs) ys (Memᴰ.tail t) = elim (mem_of_append x xs ys t) [
    | inl here ↦ inl (Memᴰ.tail here)
    | inr there ↦ inr there
  ]

  pub mem-reverse : (x : A) (xs : List A) → Memᴰ x xs → Memᴰ x (reverse xs)
  mem-reverse x [] m = elim m [ ]
  mem-reverse x (y ∷ xs) (Memᴰ.head e) =
      rw (reverse-append (y ∷ []) xs) (mem_append_right x (reverse xs) (y ∷ []) (Memᴰ.head e))
  mem-reverse x (y ∷ xs) (Memᴰ.tail t) =
      rw (reverse-append (y ∷ []) xs) (mem_append_left x (reverse xs) (y ∷ []) (mem-reverse x xs t))

  pub mem_of_reverse : (x : A) (xs : List A) → Memᴰ x (reverse xs) → Memᴰ x xs
  mem_of_reverse x [] m = m
  mem_of_reverse x (y ∷ xs) m =
      elim (mem_of_append x (reverse xs) (y ∷ []) (rw (reverse-append (y ∷ []) xs) at m)) [
        | inl t ↦ Memᴰ.tail (mem_of_reverse x xs t)
        | inr h ↦ elim h [ Memᴰ.head e ↦ Memᴰ.head e | Memᴰ.tail t ↦ elim t [ ] ]
      ]

-- In a tidy store, the identifier of each of its checkpoints finds that checkpoint.
pub get_mem :
    (m : CheckpointManager) (c : Checkpoint)
    → IsTidy m
    → Memᴰ c m.checkpoints
    → get c.checkpoint_id m ≡ some c
unfolding get
get_mem m c t inside =
    let (k, above, name) = name_of_mem 0 m.counter m.checkpoints c t.numbered inside in
    let kept : strip c.checkpoint_id ≡ c.checkpoint_id = rw name (strip-checkpoint_name k) in
    rw kept (
      find_only (λ x. same x.checkpoint_id c.checkpoint_id) c (reverse m.checkpoints)
        (mem-reverse c m.checkpoints inside) ((same_iff c.checkpoint_id c.checkpoint_id).1 refl)
        (λ x n e.
          eq_of_same_id 0 m.counter m.checkpoints x c t.numbered (mem_of_reverse x m.checkpoints n)
            inside ((same_iff x.checkpoint_id c.checkpoint_id).0 e)))
