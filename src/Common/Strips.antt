-- ===== src/Common/Strips.antt =====
-- When `str.strip` leaves a text alone.
use mathlib.Core.List.{reverse-append, reverse-reverse}
use mini_codex.Common.{
  ◌≡◌, refl, sym, ap, ◌∙◌, arith, Bool, true, false, not, inl, inr, Bool-cases, [], ◌∷◌, ◌++◌,
  reverse, Text, is_space, lstrip, strip, All,
}

-- No character is white space.
abbrev pub IsInk : Text → Type 0
IsInk = All (λ c. is_space c ≡ false)

IsInk-append : (s t : Text) → IsInk s → IsInk t → IsInk (s ++ t)
IsInk-append [] t a b = b
IsInk-append (c ∷ s) t a b = (a.0, IsInk-append s t a.1 b)

IsInk-reverse : (s : Text) → IsInk s → IsInk (reverse s)
IsInk-reverse [] a = tt
IsInk-reverse (c ∷ s) a =
    rw (reverse-append (c ∷ []) s)
      (IsInk-append (reverse s) (c ∷ []) (IsInk-reverse s a.1) (a.0, tt))

lstrip_ink : (s : Text) → IsInk s → lstrip s ≡ s
unfolding lstrip
lstrip_ink [] a = refl
lstrip_ink (c ∷ s) a = rw a.0

pub strip_ink : (s : Text) → IsInk s → strip s ≡ s
unfolding strip
strip_ink s a = rw (lstrip_ink s a, lstrip_ink (reverse s) (IsInk-reverse s a)) (reverse-reverse s)

-- The text does not start with white space.
abbrev starts_ink : Text → Bool
starts_ink [] = true
starts_ink (c ∷ s) = not (is_space c)

starts_ink-lstrip : (s : Text) → starts_ink (lstrip s) ≡ true
unfolding lstrip
starts_ink-lstrip [] = refl
starts_ink-lstrip (c ∷ s) = ground (arith, starts_ink-lstrip s)

lstrip_fixed : (s : Text) → starts_ink s ≡ true → lstrip s ≡ s
unfolding lstrip
lstrip_fixed [] h = refl
lstrip_fixed (c ∷ s) h = ground (arith, h)

lstrip_suffix : (s : Text) → (t : Text) × (s ≡ t ++ lstrip s)
unfolding lstrip
lstrip_suffix [] = ([], refl)
lstrip_suffix (c ∷ s) = elim (Bool-cases (is_space c)) [
  | inl k ↦ (c ∷ (lstrip_suffix s).0, rw k (ap (c ∷◌) (lstrip_suffix s).1))
  | inr k ↦ ([], rw k refl)
]

starts_ink-prefix : (s t : Text) → starts_ink (s ++ t) ≡ true → starts_ink s ≡ true
starts_ink-prefix [] t h = refl
starts_ink-prefix (c ∷ s) t h = h

starts_ink-strip : (s : Text) → starts_ink (strip s) ≡ true
unfolding strip
starts_ink-strip s =
    let t = lstrip s in
    let u = lstrip_suffix (reverse t) in
    let e : t ≡ reverse (lstrip (reverse t)) ++ reverse u.0 =
      sym (reverse-reverse t) ∙ ap reverse u.1 ∙ reverse-append u.0 (lstrip (reverse t)) in
    starts_ink-prefix (reverse (lstrip (reverse t))) (reverse u.0)
      (ap starts_ink (sym e) ∙ starts_ink-lstrip s)

strip_fixed : (s : Text) → starts_ink s ≡ true → strip s ≡ reverse (lstrip (reverse s))
unfolding strip
strip_fixed s h = rw (lstrip_fixed s h) refl

reverse-strip : (s : Text) → lstrip (reverse (strip s)) ≡ reverse (strip s)
unfolding strip
reverse-strip s =
    rw (reverse-reverse (lstrip (reverse (lstrip s))))
      (lstrip_fixed (lstrip (reverse (lstrip s))) (starts_ink-lstrip (reverse (lstrip s))))

pub strip-strip : (s : Text) → strip (strip s) ≡ strip s
strip-strip s =
    strip_fixed (strip s) (starts_ink-strip s)
    ∙ ap reverse (reverse-strip s)
    ∙ reverse-reverse (strip s)
