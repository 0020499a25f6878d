-- ===== src/Control/Repeats.antt =====
-- The guard against repeated tool calls: the duplicate part of the progress controller of
-- minicodex/agent/progress/progress.py. `dumps` stands for the printing of arguments by json.
use mini_codex.Common.{
  ℕ, suc, ◌+◌, ◌-◌, ◌≡◌, ◌↔◌, refl, ap, ◌∙◌, Bool, true, false, ◌&&◌, Option, none, some, List, [],
  ◌∷◌, map, arith, Text, same, same_iff, leb, ◌==◌, ==_iff, if◌then◌else◌, Bool-cases, inl, inr,
}
use mini_codex.Common.Int.{ℤ, pos_part}

pub record ToolSignature : Type 0 where
  pub tool_name : Text
  pub arguments : Text
  pub workspace_revision : ℕ

abbrev pub same_signature : ToolSignature → ToolSignature → Bool
same_signature a b =
    same a.tool_name b.tool_name
    && same a.arguments b.arguments
    && a.workspace_revision == b.workspace_revision

pub record DuplicateGuard : Type 0 where
  pub max_same_tool_repeats : ℕ
  pub last_tool_signature : Option ToolSignature
  pub same_tool_repeat_count : ℕ
  pub tool_signature_counts : List (ToolSignature × ℕ)

-- `counts.get(signature, 0)`
unfoldable pub count_of : ToolSignature → List (ToolSignature × ℕ) → ℕ
count_of k [] = 0
count_of k ((j, n) ∷ d) = if same_signature j k then n else count_of k d

-- `counts[signature] = n`
unfoldable pub with_count : ToolSignature → ℕ → List (ToolSignature × ℕ) → List (ToolSignature × ℕ)
with_count k n [] = (k, n) ∷ []
with_count k n ((j, m) ∷ d) = if same_signature j k then (j, n) ∷ d else (j, m) ∷ with_count k n d

unfoldable pub mark_meaningful_progress : DuplicateGuard → DuplicateGuard
mark_meaningful_progress g = record g {
  last_tool_signature = none;
  same_tool_repeat_count = 0;
  tool_signature_counts = [];
}

abbrev pub is_last : ToolSignature → DuplicateGuard → Bool
is_last k g = elim (g.last_tool_signature) [ none ↦ false | some j ↦ same_signature k j ]

-- A call by its signature: whether it is let through, and the guard.
unfoldable pub check_signature : ToolSignature → DuplicateGuard → Bool × DuplicateGuard
check_signature k g =
    let n = count_of k g.tool_signature_counts + 1 in
    let g' = record g {
      tool_signature_counts = with_count k n g.tool_signature_counts;
      last_tool_signature = some k;
      same_tool_repeat_count = if is_last k g then g.same_tool_repeat_count + 1 else 0;
    } in
    (leb n g.max_same_tool_repeats, g')

pub record Call (Arguments : Type 0) : Type 0 where
  pub tool_name : Text
  pub arguments : Arguments
  pub workspace_revision : ℤ

abbrev pub signature_of : {Arguments : Type 0} → (Arguments → Text) → Call Arguments → ToolSignature
signature_of dumps c = record {
  tool_name = c.tool_name;
  arguments = dumps c.arguments;
  workspace_revision = pos_part c.workspace_revision;
}

unfoldable pub check_duplicate_tool_call :
    {Arguments : Type 0}
    → (Arguments → Text)
    → Call Arguments
    → DuplicateGuard
    → Bool × DuplicateGuard
check_duplicate_tool_call dumps c g = check_signature (signature_of dumps c) g

same_signature_iff : (a b : ToolSignature) → (same_signature a b ≡ true) ↔ (a ≡ b)
same_signature_iff a b = ground (
  arith,
  same_iff a.tool_name b.tool_name,
  same_iff a.arguments b.arguments,
  ==_iff a.workspace_revision b.workspace_revision,
)

count_of-with_count :
    (k j : ToolSignature) (n : ℕ) (d : List (ToolSignature × ℕ))
    → count_of j (with_count k n d) ≡ (if same_signature k j then n else count_of j d)
unfolding count_of with_count
count_of-with_count k j n [] = refl
count_of-with_count k j n ((i, m) ∷ d) = ground (
  arith,
  same_signature_iff k j,
  same_signature_iff i k,
  same_signature_iff i j,
  count_of-with_count k j n d,
)

abbrev pub smaller : ℕ → ℕ → ℕ
smaller a b = if leb a b then a else b

abbrev pub occurrences : ToolSignature → List ToolSignature → ℕ
occurrences k [] = 0
occurrences k (j ∷ js) = if same_signature j k then suc (occurrences k js) else occurrences k js

next_count :
    (k j : ToolSignature) (g : DuplicateGuard)
    → count_of k ((check_signature j g).1.tool_signature_counts) ≡ (
        if same_signature j k
        then suc (count_of k g.tool_signature_counts)
        else count_of k g.tool_signature_counts)
unfolding check_signature
next_count k j g = elim (Bool-cases (same_signature j k)) [
  | inl e ↦
      let alike = ap (λ i. count_of i g.tool_signature_counts) ((same_signature_iff j k).0 e) in
      let stored =
        count_of-with_count j k (count_of j g.tool_signature_counts + 1) g.tool_signature_counts in
      rw (e, stored, e, alike) omega arith
  | inr e ↦
      let stored =
        count_of-with_count j k (count_of j g.tool_signature_counts + 1) g.tool_signature_counts in
      rw (e, stored, e) refl
]

is_allowed :
    (k j : ToolSignature) (g : DuplicateGuard)
    → same_signature j k ≡ true
    → (check_signature j g).0
      ≡ leb (suc (count_of k g.tool_signature_counts)) g.max_same_tool_repeats
unfolding check_signature
is_allowed k j g e =
    let alike = ap (λ i. count_of i g.tool_signature_counts) ((same_signature_iff j k).0 e) in
    rw alike ground arith

limit_kept :
    (j : ToolSignature) (g : DuplicateGuard)
    → (check_signature j g).1.max_same_tool_repeats ≡ g.max_same_tool_repeats
unfolding check_signature
limit_kept j g = refl

step_lem :
    (o n m : ℕ)
    → (if leb (suc n) m then suc (smaller o (m - suc n)) else smaller o (m - suc n))
      ≡ smaller (suc o) (m - n)
step_lem o n m = ground arith

module _ {Arguments : Type 0} (dumps : Arguments → Text) (k : ToolSignature) where
  -- How many calls with a signature are let through.
  unfoldable pub let_through : List (Call Arguments) → DuplicateGuard → ℕ
  let_through [] g = 0
  let_through (c ∷ cs) g =
      let (allowed, g') = check_duplicate_tool_call dumps c g in
      let rest = let_through cs g' in
      if same_signature (signature_of dumps c) k && allowed then suc rest else rest

  let_through_count :
      (cs : List (Call Arguments)) (g : DuplicateGuard)
      → let_through cs g
        ≡ smaller
            (occurrences k (map (signature_of dumps) cs))
            (g.max_same_tool_repeats - count_of k g.tool_signature_counts)
  unfolding let_through check_duplicate_tool_call
  let_through_count [] g = ground arith
  let_through_count (c ∷ cs) g =
      let j = signature_of dumps c in
      let rest = let_through_count cs (check_signature j g).1 in
      let kept = limit_kept j g in
      let next = next_count k j g in
      elim (Bool-cases (same_signature j k)) [
        | inl e ↦
            let allowed = is_allowed k j g e in
            rw (e, allowed, rest, kept, next, e)
              (step_lem (occurrences k (map (signature_of dumps) cs))
                (count_of k g.tool_signature_counts) g.max_same_tool_repeats)
        | inr e ↦ rw (e, rest, kept, next, e) refl
      ]

  -- After progress, however calls interleave, the calls with one signature (the name, the printed
  -- arguments, and the revision, a negative one as 0) that are let through are all of them, or as
  -- many as the limit on repeats where there are more.
  pub let_through-mark_meaningful_progress :
      (cs : List (Call Arguments)) (g : DuplicateGuard)
      → let_through cs (mark_meaningful_progress g)
        ≡ smaller (occurrences k (map (signature_of dumps) cs)) g.max_same_tool_repeats
  unfolding mark_meaningful_progress count_of
  let_through-mark_meaningful_progress cs g =
      let nothing_used : g.max_same_tool_repeats - 0 ≡ g.max_same_tool_repeats = omega arith in
      let_through_count cs (mark_meaningful_progress g)
      ∙ ap (smaller (occurrences k (map (signature_of dumps) cs))) nothing_used
