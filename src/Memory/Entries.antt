-- ===== src/Memory/Entries.antt =====
-- What the changes of the working memory (minicodex/agent/memory/working_memory.py) do to its entries.
use mathlib.Core.List.{Memᴰ}
use mini_codex.Common.{
  ◌≤◌, ◌≡◌, refl, sym, ap, false, ◌⊎◌, inl, inr, List, [], ◌∷◌, map, arith, Text, same, Bool-cases,
  leb,
}
use mini_codex.Common.Dict.{Dict, assign, pop}
use mini_codex.Memory.{WorkingMemoryEntry, insert_by_sequence, sort_by_sequence, pop_all}

abbrev pub Item : Type 0
Item = Text × WorkingMemoryEntry

pub mem_pop :
    (k : Text) (x : Item) (d : Dict WorkingMemoryEntry)
    → Memᴰ x (pop k d)
    → Memᴰ x d × (same x.0 k ≡ false)
unfolding pop
mem_pop k x [] h = elim h [ ]
mem_pop k x ((j, w) ∷ d) h = elim (Bool-cases (same j k)) [
  | inl e ↦ let (later, other) = mem_pop k x d (rw e at h) in (Memᴰ.tail later, other)
  | inr e ↦ by_head k x (j, w) d e (rw e at h) (mem_pop k x d)
]
  where
    by_head :
        (k : Text) (x y : Item) (d : Dict WorkingMemoryEntry)
        → same y.0 k ≡ false
        → Memᴰ x (y ∷ pop k d)
        → (Memᴰ x (pop k d) → Memᴰ x d × (same x.0 k ≡ false))
        → Memᴰ x (y ∷ d) × (same x.0 k ≡ false)
    by_head k x y d e (Memᴰ.head p) ih = (Memᴰ.head p, rw p e)
    by_head k x y d e (Memᴰ.tail t) ih = (Memᴰ.tail (ih t).0, (ih t).1)

pub mem_pop_all :
    (ks : List Text) (x : Item) (d : Dict WorkingMemoryEntry)
    → Memᴰ x (pop_all ks d)
    → Memᴰ x d × ((k : Text) → Memᴰ k ks → same x.0 k ≡ false)
unfolding pop_all
mem_pop_all [] x d h = (h, λ k m. elim m [ ])
mem_pop_all (j ∷ ks) x d h =
    let (popped, others) = mem_pop_all ks x (pop j d) h in
    let (before, other) = mem_pop j x d popped in
    (before, λ k m. elim m [ Memᴰ.head p ↦ rw p other | Memᴰ.tail t ↦ others k t ])

pub mem_assign :
    (k : Text) (v : WorkingMemoryEntry) (x : Item) (d : Dict WorkingMemoryEntry)
    → Memᴰ x (assign k v d)
    → (x ≡ (k, v)) ⊎ Memᴰ x d
unfolding assign
mem_assign k v x [] (Memᴰ.head p) = inl p
mem_assign k v x [] (Memᴰ.tail t) = elim t [ ]
mem_assign k v x ((j, w) ∷ d) h = elim (Bool-cases (same j k)) [
  | inl e ↦ replaced (rw e at h)
  | inr e ↦ later (rw e at h) (mem_assign k v x d)
]
  where
    replaced : Memᴰ x ((k, v) ∷ d) → (x ≡ (k, v)) ⊎ Memᴰ x ((j, w) ∷ d)
    replaced (Memᴰ.head p) = inl p
    replaced (Memᴰ.tail t) = inr (Memᴰ.tail t)

    later :
        Memᴰ x ((j, w) ∷ assign k v d)
        → (Memᴰ x (assign k v d) → (x ≡ (k, v)) ⊎ Memᴰ x d)
        → (x ≡ (k, v)) ⊎ Memᴰ x ((j, w) ∷ d)
    later (Memᴰ.head p) ih = inr (Memᴰ.head p)
    later (Memᴰ.tail t) ih = elim (ih t) [ inl p ↦ inl p | inr m ↦ inr (Memᴰ.tail m) ]

pub mem_map {ℓ κ} :
    {A : Type ℓ} {B : Type κ} (f : A → B) (x : A) (xs : List A) → Memᴰ x xs → Memᴰ (f x) (map f xs)
mem_map f x (y ∷ ys) (Memᴰ.head p) = Memᴰ.head (ap f p)
mem_map f x (y ∷ ys) (Memᴰ.tail t) = Memᴰ.tail (mem_map f x ys t)
mem_map f x [] h = elim h [ ]

pub mem_of_map {ℓ κ} :
    {A : Type ℓ} {B : Type κ} (f : A → B) (y : B) (xs : List A)
    → Memᴰ y (map f xs)
    → (x : A) × Memᴰ x xs × (f x ≡ y)
mem_of_map f y [] h = elim h [ ]
mem_of_map f y (x ∷ xs) (Memᴰ.head p) = (x, Memᴰ.head refl, sym p)
mem_of_map f y (x ∷ xs) (Memᴰ.tail t) = let (z, m, e) = mem_of_map f y xs t in (z, Memᴰ.tail m, e)

-- The first of the sorted entries is the one with the least sequence number.
pub record HasLeast (xs : List WorkingMemoryEntry) : Type 0 where
  pub first : WorkingMemoryEntry
  pub rest : List WorkingMemoryEntry
  pub sorted : sort_by_sequence xs ≡ first ∷ rest
  pub among : Memᴰ first xs
  pub least : (y : WorkingMemoryEntry) → Memᴰ y xs → first.sequence ≤ y.sequence

pub sort_by_sequence-HasLeast :
    (x : WorkingMemoryEntry) (xs : List WorkingMemoryEntry) → HasLeast (x ∷ xs)
unfolding sort_by_sequence insert_by_sequence
sort_by_sequence-HasLeast x [] = record {
  first = x;
  rest = [];
  sorted = refl;
  among = Memᴰ.head refl;
  least = λ y m. elim m [ Memᴰ.head p ↦ rw p (omega arith) | Memᴰ.tail t ↦ elim t [ ] ];
}
sort_by_sequence-HasLeast x (z ∷ zs) =
    let h = sort_by_sequence-HasLeast z zs in
    elim (Bool-cases (leb x.sequence h.first.sequence)) [
      | inl e ↦
          let before : x.sequence ≤ h.first.sequence = ground arith in
          record {
            first = x;
            rest = h.first ∷ h.rest;
            sorted = rw (h.sorted, e) refl;
            among = Memᴰ.head refl;
            least = λ y m. elim m [
              | Memᴰ.head p ↦ rw p (omega arith)
              | Memᴰ.tail t ↦ omega (arith, before, h.least y t)
            ];
          }
      | inr e ↦
          let after : h.first.sequence ≤ x.sequence = ground arith in
          record {
            first = h.first;
            rest = insert_by_sequence x h.rest;
            sorted = rw (h.sorted, e) refl;
            among = Memᴰ.tail h.among;
            least = λ y m. elim m [ Memᴰ.head p ↦ rw p after | Memᴰ.tail t ↦ h.least y t ];
          }
    ]
