-- ===== src/Memory/Kept.antt =====
-- What the working memory (minicodex/agent/memory/working_memory.py) keeps, and how much.
use mathlib.Core.List.{Memᴰ}
use mini_codex.Common.{
  ℕ, suc, ◌+◌, ◌-◌, ◌≤◌, ◌<◌, ◌≡◌, refl, sym, ap, ◌∙◌, true, false, ◌||◌, ◌⊎◌, inl, inr, none, some,
  List, [], ◌∷◌, ◌++◌, map, arith, Text, same, same_refl, strip, is_empty, length, length-append,
  Bool-cases, ltb, if◌then◌else◌,
}
use mini_codex.Common.Searches.{mem_append_left}
use mini_codex.Common.Dict.{Dict, lookup, assign, pop, lookup-assign, lookup-pop}
use mini_codex.Memory.{
  WorkingMemoryEntry, WorkingMemory, Upsert, upsert, enforce_limit, is_blank, entry_of, with_new,
  get, sort_by_sequence, values, take, pop_all,
}
use mini_codex.Memory.Entries.{
  Item, mem_pop, mem_pop_all, mem_assign, mem_map, mem_of_map, HasLeast, sort_by_sequence-HasLeast,
}

-- An assignment replaces an entry, or appends one whose key is new.
record IsAppended (k : Text) (v : WorkingMemoryEntry) (d : Dict WorkingMemoryEntry) : Type 0 where
  appended : assign k v d ≡ d ++ (k, v) ∷ []
  absent : (x : Item) → Memᴰ x d → same x.0 k ≡ false

assign_cases :
    (k : Text) (v : WorkingMemoryEntry) (d : Dict WorkingMemoryEntry)
    → (length (assign k v d) ≡ length d) ⊎ IsAppended k v d
unfolding assign
assign_cases k v [] = inr (record { appended = refl; absent = λ x m. elim m [ ] })
assign_cases k v ((j, w) ∷ d) = elim (Bool-cases (same j k)) [
  | inl e ↦ inl (rw e refl)
  | inr e ↦ elim (assign_cases k v d) [
    | inl same_length ↦ inl (rw e (ap suc same_length))
    | inr new ↦ inr (record {
      appended = rw e (ap ((j, w) ∷◌) new.appended);
      absent = λ x m. elim m [ Memᴰ.head p ↦ rw p e | Memᴰ.tail t ↦ new.absent x t ];
    })
  ]
]

length-pop-le : (k : Text) (d : Dict WorkingMemoryEntry) → length (pop k d) ≤ length d
unfolding pop
length-pop-le k [] = omega arith
length-pop-le k ((j, w) ∷ d) = ground (arith, length-pop-le k d)

length-pop-lt :
    (k : Text) (x : Item) (d : Dict WorkingMemoryEntry)
    → Memᴰ x d
    → x.0 ≡ k
    → length (pop k d) < length d
unfolding pop
length-pop-lt k x [] m e = elim m [ ]
length-pop-lt k x ((j, w) ∷ d) (Memᴰ.head p) e =
    let here : same j k ≡ true = rw (sym e, p) (same_refl j) in
    rw here (omega (arith, length-pop-le k d))
length-pop-lt k x ((j, w) ∷ d) (Memᴰ.tail t) e =
    let rest = length-pop-lt k x d t e in ground (arith, rest)

-- At most as many entries as allowed, one at least; each under its own key and with a number given out.
pub record IsTidy (m : WorkingMemory) : Type 0 where
  pub room : 1 ≤ m.max_entries
  pub bounded : length m.entries ≤ m.max_entries
  pub own_key : (x : Item) → Memᴰ x m.entries → x.1.key ≡ x.0
  pub given : (x : Item) → Memᴰ x m.entries → x.1.sequence ≤ m.sequence

-- What an insertion leaves: the entries, the new one among them.
record IsKept (k : Text) (e : WorkingMemoryEntry) (n : ℕ) (d d' : Dict WorkingMemoryEntry)
    : Type 0 where
  fits : length d' ≤ n
  some_of : (x : Item) → Memᴰ x d' → Memᴰ x d
  found : lookup k d' ≡ some e

evict : ℕ → Dict WorkingMemoryEntry → Dict WorkingMemoryEntry
evict n d = pop_all (map (λ e. e.key) (take (length d - n) (sort_by_sequence (values d)))) d

evict_none : (n : ℕ) (d : Dict WorkingMemoryEntry) → length d ≤ n → evict n d ≡ d
unfolding evict pop_all
evict_none n d h = let none_over : length d - n ≡ 0 = omega (arith, h) in rw none_over refl

evict_one :
    (n : ℕ) (d : Dict WorkingMemoryEntry)
    → length d ≡ suc n
    → (h : HasLeast (values d)) × (evict n d ≡ pop h.first.key d)
unfolding evict pop_all
evict_one n [] e = absurd (omega (arith, e))
evict_one n (y ∷ ys) e =
    let h = sort_by_sequence-HasLeast y.1 (values ys) in
    let one_over : suc (length ys) - n ≡ 1 = omega (arith, e) in (h, rw (one_over, h.sorted) refl)

some_item : (d : Dict WorkingMemoryEntry) → 1 ≤ length d → (y : Item) × Memᴰ y d
some_item [] h = absurd (omega (arith, h))
some_item (y ∷ d) h = (y, Memᴰ.head refl)

le_or_eq : (a b : ℕ) → a ≤ b → (a < b) ⊎ (a ≡ b)
le_or_eq a b h = elim (Bool-cases (ltb a b)) [
  | inl e ↦ inl (ground (arith, e))
  | inr e ↦ inr (ground (arith, e))
]

-- What an insertion works on.
record IsInsertable (k : Text) (e : WorkingMemoryEntry) (n : ℕ) (d : Dict WorkingMemoryEntry)
    : Type 0 where
  room : 1 ≤ n
  bounded : length d ≤ n
  own_key : (x : Item) → Memᴰ x d → x.1.key ≡ x.0
  named : e.key ≡ k
  newest : (x : Item) → Memᴰ x d → x.1.sequence < e.sequence

module _ (k : Text) (e : WorkingMemoryEntry) (n : ℕ) (d : Dict WorkingMemoryEntry)
    (i : IsInsertable k e n d) where
  d_new : Dict WorkingMemoryEntry
  d_new = assign k e d

  found_new : lookup k (assign k e d) ≡ some e
  found_new = lookup-assign k k e d ∙ ap (λ b. if b then some e else lookup k d) (same_refl k)

  own_key_new : (x : Item) → Memᴰ x (assign k e d) → x.1.key ≡ x.0
  own_key_new x m = elim (mem_assign k e x d m) [
    | inl new ↦ rw new i.named
    | inr old ↦ i.own_key x old
  ]

  IsKept-all : length (assign k e d) ≤ n → IsKept k e n (assign k e d) (evict n (assign k e d))
  IsKept-all h =
      rw (evict_none n (assign k e d) h) record { fits = h; some_of = λ x m. m; found = found_new }

  -- The entry that goes is not the new one.
  other_goes :
      (a : IsAppended k e d) (x y : Item)
      → Memᴰ x (assign k e d)
      → ((z : WorkingMemoryEntry) → Memᴰ z (values (assign k e d)) → x.1.sequence ≤ z.sequence)
      → Memᴰ y d
      → same x.0 k ≡ false
  other_goes a x y m least among = elim (mem_assign k e x d m) [
    | inl new ↦
        let also : Memᴰ y (assign k e d) =
          rw a.appended (mem_append_left y d ((k, e) ∷ []) among) in
        let at_most = least y.1 (mem_map (λ (z : Item). z.1) y (assign k e d) also) in
        let newer = i.newest y among in
        absurd (omega (arith, at_most, newer, ap (λ (z : Item). z.1.sequence) new))
    | inr old ↦ a.absent x old
  ]

  IsKept-but_one :
      IsAppended k e d → length d ≡ n → IsKept k e n (assign k e d) (evict n (assign k e d))
  IsKept-but_one a full =
      let d' = assign k e d in
      let long : length d' ≡ suc n =
        ap length a.appended ∙ length-append d ((k, e) ∷ []) ∙ omega (arith, full) in
      let (h, evicted) = evict_one n d' long in
      let (x, m, is_first) = mem_of_map (λ (z : Item). z.1) h.first d' h.among in
      let (y, among) = some_item d (omega (arith, full, i.room)) in
      let at_most : (z : WorkingMemoryEntry) → Memᴰ z (values d') → x.1.sequence ≤ z.sequence =
        λ z mz. omega (arith, h.least z mz, ap (λ (v : WorkingMemoryEntry). v.sequence) is_first) in
      let its_key : x.0 ≡ h.first.key =
        sym (own_key_new x m) ∙ ap (λ (v : WorkingMemoryEntry). v.key) is_first in
      let other : same h.first.key k ≡ false =
        ap (λ j. same j k) (sym its_key) ∙ other_goes a x y m at_most among in
      rw evicted record {
        fits = omega (arith, long, length-pop-lt h.first.key x d' m its_key);
        some_of = λ z mz. (mem_pop h.first.key z d' mz).0;
        found =
            lookup-pop h.first.key k d'
            ∙ ap (λ b. if b then none else lookup k d') other
            ∙ found_new;
      }

  insertion-IsKept : IsKept k e n (assign k e d) (evict n (assign k e d))
  insertion-IsKept = elim (assign_cases k e d) [
    | inl same_length ↦ IsKept-all (omega (arith, same_length, i.bounded))
    | inr a ↦ elim (le_or_eq (length d) n i.bounded) [
      | inl less ↦
          IsKept-all (omega (arith, less, ap length a.appended, length-append d ((k, e) ∷ [])))
      | inr full ↦ IsKept-but_one a full
    ]
  ]

insertable :
    (u : Upsert) (m : WorkingMemory)
    → IsTidy m
    → IsInsertable (strip u.key) (entry_of u (m.sequence + 1)) m.max_entries m.entries
insertable u m t = record {
  room = t.room;
  bounded = t.bounded;
  own_key = t.own_key;
  named = refl;
  newest = λ x k. omega (arith, t.given x k);
}

added-IsTidy : (u : Upsert) (m : WorkingMemory) → IsTidy m → IsTidy (enforce_limit (with_new u m))
unfolding enforce_limit evict
added-IsTidy u m t =
    let k = strip u.key in
    let e = entry_of u (m.sequence + 1) in
    let i = insertable u m t in
    let kept = insertion-IsKept k e m.max_entries m.entries i in
    record {
      room = t.room;
      bounded = kept.fits;
      own_key = λ x mx. own_key_new k e m.max_entries m.entries i x (kept.some_of x mx);
      given = λ x mx. elim (mem_assign k e x m.entries (kept.some_of x mx)) [
        | inl new ↦ rw new (omega arith)
        | inr old ↦ omega (arith, t.given x old)
      ];
    }

pub upsert-IsTidy : (u : Upsert) (m : WorkingMemory) → IsTidy m → IsTidy (upsert u m).1
unfolding upsert
upsert-IsTidy u m t = elim (Bool-cases (is_empty (strip u.key) || is_blank u.value)) [
  | inl blank ↦ rw blank t
  | inr fine ↦ rw fine (added-IsTidy u m t)
]

-- In a tidy memory, an entry with a key and a value is found under its key after its insertion, as the
-- newest entry: what goes when the memory is full is another entry.
pub get-upsert :
    (u : Upsert) (m : WorkingMemory)
    → IsTidy m
    → (is_empty (strip u.key) || is_blank u.value) ≡ false
    → get (strip u.key) (upsert u m).1 ≡ some (entry_of u (m.sequence + 1))
unfolding upsert enforce_limit evict
get-upsert u m t fine =
    let kept =
      insertion-IsKept (strip u.key) (entry_of u (m.sequence + 1)) m.max_entries m.entries
        (insertable u m t) in
    rw fine kept.found

length-pop_all-le :
    (ks : List Text) (d : Dict WorkingMemoryEntry) → length (pop_all ks d) ≤ length d
unfolding pop_all
length-pop_all-le [] d = omega arith
length-pop_all-le (k ∷ ks) d = omega (arith, length-pop_all-le ks (pop k d), length-pop-le k d)

pub pop_all-IsTidy :
    (ks : List Text) (m : WorkingMemory)
    → IsTidy m
    → IsTidy (record m { entries = pop_all ks m.entries })
pop_all-IsTidy ks m t = record {
  room = t.room;
  bounded = omega (arith, length-pop_all-le ks m.entries, t.bounded);
  own_key = λ x k. t.own_key x (mem_pop_all ks x m.entries k).0;
  given = λ x k. t.given x (mem_pop_all ks x m.entries k).0;
}
