-- ===== src/Common/Searches.antt =====
-- What the Boolean searches over a list find, in terms of membership.
use mathlib.Core.List.{Memᴰ}
use mini_codex.Common.{
  ◌≡◌, refl, sym, Bool, true, false, some, List, [], ◌∷◌, ◌++◌, ◌⊎◌, inl, inr, arith, any, all,
  find, keep, last?, Bool-cases, Text, same, same_refl,
}

head_or_tail {ℓ} : {A : Type ℓ} {x y : A} {ys : List A} → Memᴰ x (y ∷ ys) → (x ≡ y) ⊎ Memᴰ x ys
head_or_tail (Memᴰ.head e) = inl e
head_or_tail (Memᴰ.tail t) = inr t

module _ {ℓ} {A : Type ℓ} (p : A → Bool) where
  pub mem_of_keep : (x : A) (xs : List A) → Memᴰ x (keep p xs) → Memᴰ x xs × (p x ≡ true)
  mem_of_keep x [] m = elim m [ ]
  mem_of_keep x (y ∷ ys) m = elim (Bool-cases (p y)) [
    | inl h ↦ elim (head_or_tail (rw h at m)) [
      | inl e ↦ (Memᴰ.head e, rw e h)
      | inr t ↦ let r = mem_of_keep x ys t in (Memᴰ.tail r.0, r.1)
    ]
    | inr h ↦ let r = mem_of_keep x ys (rw h at m) in (Memᴰ.tail r.0, r.1)
  ]

  pub mem_keep : (x : A) (xs : List A) → Memᴰ x xs → p x ≡ true → Memᴰ x (keep p xs)
  mem_keep x [] m h = elim m [ ]
  mem_keep x (y ∷ ys) (Memᴰ.head e) h = rw (← e, h) (Memᴰ.head refl)
  mem_keep x (y ∷ ys) (Memᴰ.tail t) h = elim (Bool-cases (p y)) [
    | inl k ↦ rw k (Memᴰ.tail (mem_keep x ys t h))
    | inr k ↦ rw k (mem_keep x ys t h)
  ]

  pub all_mem : (x : A) (xs : List A) → all p xs ≡ true → Memᴰ x xs → p x ≡ true
  all_mem x [] h m = elim m [ ]
  all_mem x (y ∷ ys) h (Memᴰ.head e) = rw e (ground arith)
  all_mem x (y ∷ ys) h (Memᴰ.tail t) = all_mem x ys (ground arith) t

  pub any_mem : (x : A) (xs : List A) → any p xs ≡ false → Memᴰ x xs → p x ≡ false
  any_mem x [] h m = elim m [ ]
  any_mem x (y ∷ ys) h (Memᴰ.head e) = rw e (ground arith)
  any_mem x (y ∷ ys) h (Memᴰ.tail t) = any_mem x ys (ground arith) t

  pub mem_find : (x : A) (xs : List A) → find p xs ≡ some x → Memᴰ x xs × (p x ≡ true)
  mem_find x [] h = cc
  mem_find x (y ∷ ys) h = elim (Bool-cases (p y)) [
    | inl k ↦ let e : y ≡ x = ground arith in (Memᴰ.head (sym e), rw (← e) k)
    | inr k ↦ let r = mem_find x ys (rw k at h) in (Memᴰ.tail r.0, r.1)
  ]

module _ {ℓ} {A : Type ℓ} where
  pub mem_last? : (x : A) (xs : List A) → last? xs ≡ some x → Memᴰ x xs
  mem_last? x [] h = cc
  mem_last? x (y ∷ []) h = Memᴰ.head (cc)
  mem_last? x (y ∷ z ∷ xs) h = Memᴰ.tail (mem_last? x (z ∷ xs) h)

  pub mem_append_left : (x : A) (xs ys : List A) → Memᴰ x xs → Memᴰ x (xs ++ ys)
  mem_append_left x [] ys m = elim m [ ]
  mem_append_left x (y ∷ xs) ys (Memᴰ.head e) = Memᴰ.head e
  mem_append_left x (y ∷ xs) ys (Memᴰ.tail t) = Memᴰ.tail (mem_append_left x xs ys t)

  pub mem_append_last : (x : A) (xs : List A) → Memᴰ x (xs ++ x ∷ [])
  mem_append_last x [] = Memᴰ.head refl
  mem_append_last x (y ∷ xs) = Memᴰ.tail (mem_append_last x xs)

  pub keep-append : (p : A → Bool) (xs ys : List A) → keep p (xs ++ ys) ≡ keep p xs ++ keep p ys
  keep-append p [] ys = refl
  keep-append p (x ∷ xs) ys = ground (arith, keep-append p xs ys)

module _ {ℓ} {A : Type ℓ} (p : A → Bool) where
  pub any_of_mem : (x : A) (xs : List A) → Memᴰ x xs → p x ≡ true → any p xs ≡ true
  any_of_mem x [] m h = elim m [ ]
  any_of_mem x (y ∷ ys) (Memᴰ.head e) h = rw (← e, h)
  any_of_mem x (y ∷ ys) (Memᴰ.tail t) h = ground (arith, any_of_mem x ys t h)

  pub all_of_mem : (xs : List A) → ((x : A) → Memᴰ x xs → p x ≡ true) → all p xs ≡ true
  all_of_mem [] h = refl
  all_of_mem (y ∷ ys) h = rw (h y (Memᴰ.head refl)) (all_of_mem ys (λ x m. h x (Memᴰ.tail m)))

-- `set(xs).issubset(xs)`
pub subset_refl : (xs : List Text) → all (λ r. any (same r) xs) xs ≡ true
subset_refl xs = all_of_mem _ xs (λ x m. any_of_mem (same x) x xs m (same_refl x))
