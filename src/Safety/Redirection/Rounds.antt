-- ===== src/Safety/Redirection/Rounds.antt =====
-- The loop of the redirection guard (minicodex/agent/safety/safety.py) without its fuel.
use mini_codex.Common.{
  ℕ, zero, suc, ◌+◌, ◌-◌, ◌≤◌, ◌<◌, ◌≡◌, refl, ap, ◌∙◌, sym, Bool, true, false, ◌&&◌, Option, none,
  some, [], ◌∷◌, arith, Text, lstrip, length, drop, length-drop, ◌==◌, if◌then◌else◌, Bool-cases,
  inl, inr,
}
use mini_codex.Safety.Redirection.{
  double_quote, backslash, is_quote, opens, pair, opening, closing, single, lexeme, prepend,
  extract_command_substitution, extract_backtick_command, Move, stop, go, nested, inside, target_of,
  after_target, is_safe_target, redirect, skip_second, step, scan, scan_from,
}

-- One more than a body that was extracted and the rest after it.
abbrev size : Option (Text × Text) → ℕ
size none = 0
size (some (body, rest)) = suc (length body + length rest)

size-prepend : (c : ℕ) (r : Option (Text × Text)) → size (prepend c r) ≤ suc (size r)
size-prepend c none = omega arith
size-prepend c (some (b, r)) = omega arith

size-extract_command_substitution :
    (depth : ℕ) (q : Option ℕ) (s : Text) → size (extract_command_substitution depth q s) ≤ length s
unfolding extract_command_substitution
size-extract_command_substitution depth q [] = omega arith
size-extract_command_substitution depth q (c ∷ []) = ground arith
size-extract_command_substitution depth q (c ∷ d ∷ s) =
    elim (lexeme q c (d ∷ s))
      as (λ l.
        size (elim l [
          | pair ↦ prepend c (prepend d (extract_command_substitution depth q s))
          | opening ↦ prepend c (prepend d (extract_command_substitution (depth + 1) q s))
          | closing ↦
              let rest = prepend c (extract_command_substitution (depth - 1) q (d ∷ s)) in
              if depth == 1 then some ([], d ∷ s) else rest
          | single q' ↦ prepend c (extract_command_substitution depth q' (d ∷ s))
        ])
        ≤ suc (suc (length s))) [
          | pair ↦ omega (
            arith,
            size-prepend c (prepend d (extract_command_substitution depth q s)),
            size-prepend d (extract_command_substitution depth q s),
            size-extract_command_substitution depth q s,
          )
          | opening ↦ omega (
            arith,
            size-prepend c (prepend d (extract_command_substitution (depth + 1) q s)),
            size-prepend d (extract_command_substitution (depth + 1) q s),
            size-extract_command_substitution (depth + 1) q s,
          )
          | closing ↦
              let rest = size-prepend c (extract_command_substitution (depth - 1) q (d ∷ s)) in
              let shorter = size-extract_command_substitution (depth - 1) q (d ∷ s) in
              elim (Bool-cases (depth == 1)) [
                | inl k ↦ rw k (omega arith)
                | inr k ↦ rw k (omega (arith, rest, shorter))
              ]
          | single q' ↦ omega (
            arith,
            size-prepend c (extract_command_substitution depth q' (d ∷ s)),
            size-extract_command_substitution depth q' (d ∷ s),
          )
        ]

size-extract_backtick_command : (s : Text) → size (extract_backtick_command s) ≤ length s
unfolding extract_backtick_command
size-extract_backtick_command [] = omega arith
size-extract_backtick_command (c ∷ []) = ground arith
size-extract_backtick_command (c ∷ d ∷ s) =
    let skip = size-prepend d (extract_backtick_command s) in
    let escaped = size-prepend c (prepend d (extract_backtick_command s)) in
    let further = size-prepend c (extract_backtick_command (d ∷ s)) in
    ground (
      arith,
      skip,
      escaped,
      further,
      size-extract_backtick_command s,
      size-extract_backtick_command (d ∷ s),
    )

-- What is left to look at after a round is shorter.
abbrev Shrinks : Move → ℕ → Type 0
Shrinks (stop b) n = Unit
Shrinks (go q rest) n = length rest < n
Shrinks (nested body q rest) n = (length body < n) × (length rest < n)

inside-Shrinks :
    (q : Option ℕ) (r : Option (Text × Text)) (n : ℕ) → size r ≤ n → Shrinks (inside q r) n
inside-Shrinks q none n h = tt
inside-Shrinks q (some (b, r)) n h = (omega arith, omega arith)

length-lstrip : (s : Text) → length (lstrip s) ≤ length s
unfolding lstrip
length-lstrip [] = omega arith
length-lstrip (c ∷ s) = ground (arith, length-lstrip s)

length-skip_second : (s : Text) → length (skip_second s) ≤ length s
length-skip_second [] = omega arith
length-skip_second (c ∷ s) = ground arith

length-after_target : (s : Text) → length (after_target s) ≤ length s
unfolding after_target
length-after_target [] = omega arith
length-after_target (c ∷ s) = ground (arith, length-after_target s)

redirect-Shrinks : (s : Text) (n : ℕ) → length s ≤ n → Shrinks (redirect s) (suc n)
unfolding redirect
redirect-Shrinks [] n h = tt
redirect-Shrinks (c ∷ s) n h = elim (Bool-cases (c == b'&')) [
  | inl k ↦ rw k (omega arith)
  | inr k ↦ elim (Bool-cases (is_safe_target (target_of (c ∷ s)))) [
    | inl safe ↦ rw (k, safe) (omega (arith, length-after_target (c ∷ s)))
    | inr not_safe ↦ rw (k, not_safe) tt
  ]
]

if-Shrinks :
    (b : Bool) (x y : Move) (n : ℕ) → Shrinks x n → Shrinks y n → Shrinks (if b then x else y) n
if-Shrinks true x y n h k = h
if-Shrinks false x y n h k = k

length-drop_one : (s : Text) → length (drop 1 s) ≤ length s
length-drop_one s = omega (arith, length-drop 1 s)

substitution-Shrinks :
    (q : Option ℕ) (s : Text)
    → Shrinks (inside q (extract_command_substitution 1 none (drop 1 s))) (suc (length s))
substitution-Shrinks q s =
    inside-Shrinks q (extract_command_substitution 1 none (drop 1 s)) (suc (length s))
      (omega (arith, size-extract_command_substitution 1 none (drop 1 s), length-drop_one s))

backtick-Shrinks :
    (q : Option ℕ) (s : Text) → Shrinks (inside q (extract_backtick_command s)) (suc (length s))
backtick-Shrinks q s =
    inside-Shrinks q (extract_backtick_command s) (suc (length s))
      (omega (arith, size-extract_backtick_command s))

step-Shrinks : (q : Option ℕ) (s : Text) → Shrinks (step q s) (length s)
unfolding step
step-Shrinks q [] = tt
step-Shrinks (some q) (c ∷ s) =
    let n = suc (length s) in
    let plain : length s < suc (length s) = omega arith in
    if-Shrinks (q == double_quote && c == backslash) _ _ n (omega (arith, length-drop_one s)) (
      if-Shrinks (c == q) _ _ n plain (
        if-Shrinks (q == double_quote && opens c s) _ _ n (substitution-Shrinks (some q) s)
          (if-Shrinks (q == double_quote && c == b'`') _ _ n (backtick-Shrinks (some q) s) plain)))
step-Shrinks none (c ∷ s) =
    let n = suc (length s) in
    let plain : length s < suc (length s) = omega arith in
    if-Shrinks (is_quote c) _ _ n plain (
      if-Shrinks (c == backslash) _ _ n (omega (arith, length-drop_one s)) (
        if-Shrinks (opens c s) _ _ n (substitution-Shrinks none s) (
          if-Shrinks (c == b'`') _ _ n (backtick-Shrinks none s) (
            if-Shrinks (c == b'>') _ _ n
              (redirect-Shrinks (lstrip (skip_second s)) (length s)
                (omega (arith, length-lstrip (skip_second s), length-skip_second s)))
              plain))))

abbrev pub or_later : Bool → Bool → Bool
or_later b c = elim b [ true ↦ true | false ↦ c ]

-- What a round leads to, with another loop for the rest.
abbrev pub continue : (Option ℕ → Text → Bool) → Move → Bool
continue f (stop b) = b
continue f (go q rest) = f q rest
continue f (nested body q rest) = or_later (f none body) (f q rest)

continue_cong :
    (f g : Option ℕ → Text → Bool) (m : Move) (n : ℕ)
    → Shrinks m n
    → ((q : Option ℕ) (s : Text) → length s < n → f q s ≡ g q s)
    → continue f m ≡ continue g m
continue_cong f g (stop b) n h e = refl
continue_cong f g (go q rest) n h e = e q rest h
continue_cong f g (nested body q rest) n h e =
    ap (λ b. or_later b (f q rest)) (e none body h.0) ∙ ap (or_later (g none body)) (e q rest h.1)

scan-continue :
    (fuel : ℕ) (q : Option ℕ) (s : Text) → scan (suc fuel) q s ≡ continue (scan fuel) (step q s)
unfolding scan
scan-continue fuel q s =
    elim (step q s)
      as (λ m.
        elim m [
          | stop b ↦ b
          | go q' rest ↦ scan fuel q' rest
          | nested body q' rest ↦ elim (scan fuel none body) [
            | true ↦ true
            | false ↦ scan fuel q' rest
          ]
        ]
        ≡ continue (scan fuel) m) [ stop b ↦ refl | go q' rest ↦ refl | nested body q' rest ↦ refl ]

-- Any fuel above the length gives the same verdict.
scan_enough :
    (f g : ℕ) (q : Option ℕ) (s : Text) → length s < f → length s < g → scan f q s ≡ scan g q s
scan_enough zero g q s h k = absurd (omega arith)
scan_enough (suc f) zero q s h k = absurd (omega arith)
scan_enough (suc f) (suc g) q s h k =
    scan-continue f q s
    ∙ continue_cong (scan f) (scan g) (step q s) (length s) (step-Shrinks q s)
        (λ q' s' l. scan_enough f g q' s' (omega arith) (omega arith))
    ∙ sym (scan-continue g q s)

-- The loop without fuel: a round, then the loop again.
pub scan_from-step : (q : Option ℕ) (s : Text) → scan_from q s ≡ continue scan_from (step q s)
unfolding scan_from
scan_from-step q s =
    scan-continue (length s) q s
    ∙ continue_cong (scan (length s)) scan_from (step q s) (length s) (step-Shrinks q s)
        (λ q' s' l. scan_enough (length s) (suc (length s')) q' s' l (omega arith))
