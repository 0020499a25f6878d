-- ===== src/Safety/Redirection/Writes.antt =====
-- What the redirection guard (minicodex/agent/safety/safety.py) says of commands.
use mathlib.Core.List.{append-nil, reverse-append, reverse-reverse}
use mini_codex.Common.{
  ℕ, ◌≡◌, refl, ap, ◌∙◌, sym, Bool, true, false, not, ◌&&◌, ◌||◌, Option, none, some, [], ◌∷◌, ◌++◌,
  reverse, arith, Text, codes, same, lstrip, is_space, all, ◌==◌, ==_iff, if◌then◌else◌, Bool-cases,
  inl, inr,
}
use mini_codex.Validation.Regression.{starts_with}
use mini_codex.Safety.Redirection.{
  single_quote, backslash, is_quote, stop, go, ends_target, target_of, after_target, lstrip_quotes,
  strip_quotes, is_safe_target, redirect, skip_second, step, scan_from, contains_unsafe_redirection,
}
use mini_codex.Safety.Redirection.Rounds.{continue, scan_from-step}

-- A character that stands for itself outside quotes.
abbrev pub is_plain : ℕ → Bool
is_plain c =
    not (is_quote c)
    && not (c == backslash)
    && not (c == b'$')
    && not (c == b'`')
    && not (c == b'>')

-- A character of a plain target.
abbrev pub is_word : ℕ → Bool
is_word c = is_plain c && not (ends_target c)

abbrev pub ends : Text → Bool
ends [] = true
ends (c ∷ s) = ends_target c

abbrev pub dev_null : Text
dev_null = codes "/dev/null"

step_plain : (c : ℕ) (s : Text) → is_plain c ≡ true → step none (c ∷ s) ≡ go none s
unfolding step starts_with
step_plain c s h = ground arith

scan_round : (q q' : Option ℕ) (s t : Text) → step q s ≡ go q' t → scan_from q s ≡ scan_from q' t
scan_round q q' s t e = scan_from-step q s ∙ ap (continue scan_from) e

scan_plain : (p s : Text) → all is_plain p ≡ true → scan_from none (p ++ s) ≡ scan_from none s
scan_plain [] s h = refl
scan_plain (c ∷ p) s h = elim (Bool-cases (is_plain c)) [
  | inl k ↦
      scan_round none none (c ∷ p ++ s) (p ++ s) (step_plain c (p ++ s) k)
      ∙ scan_plain p s (rw k at h)
  | inr k ↦ absurd (cc (rw k at h))
]

abbrev is_inner : ℕ → Bool
is_inner c = not (c == single_quote)

step_quoted :
    (c : ℕ) (s : Text)
    → is_inner c ≡ true
    → step (some single_quote) (c ∷ s) ≡ go (some single_quote) s
unfolding step
step_quoted c s h = ground arith

scan_quoted :
    (w s : Text)
    → all is_inner w ≡ true
    → scan_from (some single_quote) (w ++ single_quote ∷ s) ≡ scan_from none s
unfolding step
scan_quoted [] s h = scan_round (some single_quote) none (single_quote ∷ s) s refl
scan_quoted (c ∷ w) s h = elim (Bool-cases (is_inner c)) [
  | inl k ↦
      let t = w ++ single_quote ∷ s in
      scan_round (some single_quote) (some single_quote) (c ∷ t) t (step_quoted c t k)
      ∙ scan_quoted w s (rw k at h)
  | inr k ↦ absurd (cc (rw k at h))
]

-- What stands in single quotes is data: after a plain text, the verdict is that on what follows.
pub contains_unsafe_redirection-quoted :
    (p w s : Text)
    → all is_plain p ≡ true
    → all is_inner w ≡ true
    → contains_unsafe_redirection (p ++ single_quote ∷ (w ++ single_quote ∷ s))
      ≡ contains_unsafe_redirection s
unfolding contains_unsafe_redirection step
contains_unsafe_redirection-quoted p w s h k =
    let t = w ++ single_quote ∷ s in
    scan_plain p (single_quote ∷ t) h
    ∙ scan_round none (some single_quote) (single_quote ∷ t) t refl
    ∙ scan_quoted w s k

target_of-word : (w r : Text) → all is_word w ≡ true → ends r ≡ true → target_of (w ++ r) ≡ w
unfolding target_of
target_of-word [] [] h k = refl
target_of-word [] (c ∷ r) h k = rw k refl
target_of-word (c ∷ w) r h k = elim (Bool-cases (is_word c)) [
  | inl e ↦ let rest = target_of-word w r (rw e at h) k in ground (arith, rest)
  | inr e ↦ absurd (cc (rw e at h))
]

after_target-word : (w r : Text) → all is_word w ≡ true → ends r ≡ true → after_target (w ++ r) ≡ r
unfolding after_target
after_target-word [] [] h k = refl
after_target-word [] (c ∷ r) h k = rw k refl
after_target-word (c ∷ w) r h k = elim (Bool-cases (is_word c)) [
  | inl e ↦ let rest = after_target-word w r (rw e at h) k in ground (arith, rest)
  | inr e ↦ absurd (cc (rw e at h))
]

all-append : (p : ℕ → Bool) (s t : Text) → all p (s ++ t) ≡ (all p s && all p t)
all-append p [] t = refl
all-append p (c ∷ s) t = ground (arith, all-append p s t)

all-reverse : (p : ℕ → Bool) (s : Text) → all p s ≡ true → all p (reverse s) ≡ true
all-reverse p [] h = refl
all-reverse p (c ∷ s) h =
    let here = all-append p (reverse s) (c ∷ []) in
    elim (Bool-cases (p c)) [
      | inl k ↦ rw (reverse-append (c ∷ []) s, here, all-reverse p s (rw k at h), k) refl
      | inr k ↦ absurd (cc (rw k at h))
    ]

all_weaken :
    (p q : ℕ → Bool) (s : Text)
    → ((c : ℕ) → p c ≡ true → q c ≡ true)
    → all p s ≡ true
    → all q s ≡ true
all_weaken p q [] w h = refl
all_weaken p q (c ∷ s) w h = elim (Bool-cases (p c)) [
  | inl k ↦ rw (w c k) (all_weaken p q s w (rw k at h))
  | inr k ↦ absurd (cc (rw k at h))
]

abbrev is_no_quote : ℕ → Bool
is_no_quote c = not (is_quote c)

lstrip_quotes-none : (s : Text) → all is_no_quote s ≡ true → lstrip_quotes s ≡ s
unfolding lstrip_quotes
lstrip_quotes-none [] h = refl
lstrip_quotes-none (c ∷ s) h = ground arith

strip_quotes-word : (w : Text) → all is_word w ≡ true → strip_quotes w ≡ w
unfolding strip_quotes
strip_quotes-word w h =
    let clean = all_weaken is_word is_no_quote w (λ c e. ground arith) h in
    rw
      (lstrip_quotes-none w clean, lstrip_quotes-none (reverse w) (all-reverse is_no_quote w clean))
      (reverse-reverse w)

abbrev pub arrow : Bool → Text
arrow again = if again then codes ">>" else codes ">"

and_parts : (a b : Bool) → (a && b) ≡ true → (a ≡ true) × (b ≡ true)
and_parts true b h = (refl, h)
and_parts false b h = cc

not-true : (a : Bool) → not a ≡ true → a ≡ false
not-true true h = cc
not-true false h = refl

or_parts : (a b : Bool) → (a || b) ≡ false → (a ≡ false) × (b ≡ false)
or_parts true b h = cc
or_parts false b h = (refl, h)

record IsWord (c : ℕ) : Type 0 where
  not_space : is_space c ≡ false
  not_and : (c == b'&') ≡ false
  not_arrow : (c == b'>') ≡ false

IsWord-parts : (c : ℕ) → is_word c ≡ true → IsWord c
IsWord-parts c h =
    let (plain, inner) = and_parts (is_plain c) (not (ends_target c)) h in
    let ends_no = not-true (ends_target c) inner in
    let (some_end, no_and) = or_parts (is_space c || c == b';' || c == b'|') (c == b'&') ends_no in
    let (no_more, _) = or_parts (is_space c || c == b';') (c == b'|') some_end in
    let (no_space, _) = or_parts (is_space c) (c == b';') no_more in
    let (_, no_arrow) =
      and_parts (not (is_quote c) && not (c == backslash) && not (c == b'$') && not (c == b'`'))
        (not (c == b'>')) plain in
    record { not_space = no_space; not_and = no_and; not_arrow = not-true (c == b'>') no_arrow }

-- Between the arrow and the target.
skip_spaces :
    (sp : Text) (c : ℕ) (t : Text)
    → all is_space sp ≡ true
    → IsWord c
    → lstrip (sp ++ c ∷ t) ≡ c ∷ t
unfolding lstrip
skip_spaces [] c t h k = rw k.not_space refl
skip_spaces (d ∷ sp) c t h k =
    let (here, later) = and_parts (is_space d) (all is_space sp) h in
    rw here (skip_spaces sp c t later k)

space_no_arrow : (c : ℕ) → is_space c ≡ true → (c == b'>') ≡ false
space_no_arrow c h = elim (Bool-cases (c == b'>')) [
  | inl e ↦ let is : c ≡ b'>' = (==_iff c b'>').0 e in absurd (cc (rw is at h))
  | inr e ↦ e
]

skip_second-spaces :
    (sp : Text) (c : ℕ) (t : Text)
    → all is_space sp ≡ true
    → IsWord c
    → skip_second (sp ++ c ∷ t) ≡ sp ++ c ∷ t
skip_second-spaces [] c t h k = rw k.not_arrow refl
skip_second-spaces (d ∷ sp) c t h k =
    let (here, _) = and_parts (is_space d) (all is_space sp) h in rw (space_no_arrow d here) refl

step-arrow :
    (again : Bool) (sp : Text) (c : ℕ) (t : Text)
    → all is_space sp ≡ true
    → IsWord c
    → step none (arrow again ++ (sp ++ c ∷ t)) ≡ redirect (c ∷ t)
unfolding step starts_with
step-arrow true sp c t h k = ap redirect (skip_spaces sp c t h k)
step-arrow false sp c t h k =
    ap redirect (ap lstrip (skip_second-spaces sp c t h k) ∙ skip_spaces sp c t h k)

redirect-word :
    (c : ℕ) (w r : Text)
    → all is_word (c ∷ w) ≡ true
    → IsWord c
    → ends r ≡ true
    → redirect (c ∷ w ++ r) ≡ (if same (c ∷ w) dev_null then go none r else stop true)
unfolding redirect is_safe_target
redirect-word c w r h i k =
    rw
      (
        redirect,
        i.not_and,
        target_of-word (c ∷ w) r h k,
        after_target-word (c ∷ w) r h k,
        is_safe_target,
        strip_quotes-word (c ∷ w) h,
      )
      refl

verdict :
    (b : Bool) (r : Text)
    → continue scan_from (if b then go none r else stop true) ≡ (not b || scan_from none r)
verdict true r = refl
verdict false r = refl

-- A plain command that redirects its output, with one arrow or two and with white space before the
-- target or without, to a plain target: it is unsafe unless the target is the null device and what
-- follows the target is safe.
pub contains_unsafe_redirection-arrow :
    (again : Bool) (p sp : Text) (c : ℕ) (w r : Text)
    → all is_plain p ≡ true
    → all is_space sp ≡ true
    → all is_word (c ∷ w) ≡ true
    → ends r ≡ true
    → contains_unsafe_redirection (p ++ (arrow again ++ (sp ++ (c ∷ w ++ r))))
      ≡ (not (same (c ∷ w) dev_null) || contains_unsafe_redirection r)
unfolding contains_unsafe_redirection
contains_unsafe_redirection-arrow again p sp c w r h hs hw k =
    let t = arrow again ++ (sp ++ (c ∷ w ++ r)) in
    let (here, _) = and_parts (is_word c) (all is_word w) hw in
    let word = IsWord-parts c here in
    let round = step-arrow again sp c (w ++ r) hs word ∙ redirect-word c w r hw word k in
    scan_plain p t h
    ∙ scan_from-step none t
    ∙ ap (continue scan_from) round
    ∙ verdict (same (c ∷ w) dev_null) r

-- An arrow with `&` behind it is read as a copy of a descriptor, whatever name follows: the guard lets the
-- command through.
pub contains_unsafe_redirection-and :
    (p w : Text)
    → all is_plain p ≡ true
    → all is_plain w ≡ true
    → contains_unsafe_redirection (p ++ (codes ">&" ++ w)) ≡ false
unfolding contains_unsafe_redirection step redirect starts_with lstrip
contains_unsafe_redirection-and p w h k =
    scan_plain p (codes ">&" ++ w) h
    ∙ scan_round none none (codes ">&" ++ w) w refl
    ∙ ap (scan_from none) (sym (append-nil w))
    ∙ scan_plain w [] k
    ∙ scan_from-step none []
