-- ===== src/Validation/Ledger/Freshness.antt =====
-- What an edit does to the proofs of the ledger (minicodex/agent/validation/ledger.py).
use mini_codex.Common.{
  ℕ, ◌+◌, ◌≤◌, ◌≡◌, refl, Bool, false, none, List, [], ◌∷◌, ◌⊎◌, inl, inr, arith, Text, same_iff,
  keep, map, is_empty, All, Bool-cases,
}
use mini_codex.Validation.Evidence.{ValidationEvidence}
use mini_codex.Validation.Plan.{ValidationCheck, at_revision, set_revision}
use mini_codex.Validation.Ledger.{
  ValidationLedger, record_edit, decisive_for, proof_among, proof, is_proven, all_proven,
  required_checks, acceptance_passed, targeted_passed, full_passed,
}
use mini_codex.Validation.Ledger.Proofs.{selects}
use mini_codex.Validation.Ledger.History.{IsPast, IsWellFormed}

-- Every check has a name, as `ValidationPlanner.build` gives one.
abbrev pub IsNamed : List ValidationCheck → Type 0
IsNamed = All (λ c. is_empty c.id ≡ false)

selects_past :
    (id : Text) (l m : ValidationLedger) (e : ValidationEvidence)
    → is_empty id ≡ false
    → m.edit_revision ≡ l.edit_revision + 1
    → (e.check_id ≡ []) ⊎ (e.edit_revision ≤ l.edit_revision)
    → selects id m e ≡ false
selects_past id l m e named next past = ground (arith, same_iff e.check_id id)

keep-selects_past :
    (id : Text) (l m : ValidationLedger) (es : List ValidationEvidence)
    → is_empty id ≡ false
    → m.edit_revision ≡ l.edit_revision + 1
    → IsPast l.edit_revision es
    → keep (selects id m) es ≡ []
keep-selects_past id l m [] named next p = refl
keep-selects_past id l m (e ∷ es) named next p =
    rw (selects_past id l m e named next p.0) (keep-selects_past id l m es named next p.1)

decisive_for-record_edit :
    (owned : Bool) (l : ValidationLedger) (id : Text)
    → IsWellFormed l
    → is_empty id ≡ false
    → decisive_for id (record_edit owned l) ≡ []
unfolding record_edit decisive_for
decisive_for-record_edit owned l id w named =
    keep-selects_past id l (record_edit owned l) l.evidence_history named refl w.past

proof_of_no_decisive :
    (id : Text) (l : ValidationLedger) → decisive_for id l ≡ [] → proof id l ≡ none
unfolding proof proof_among
proof_of_no_decisive id l h = ground arith

pub is_proven-record_edit :
    (owned : Bool) (l : ValidationLedger) (c : ValidationCheck)
    → IsWellFormed l
    → is_empty c.id ≡ false
    → is_proven (record_edit owned l) c ≡ false
unfolding is_proven
is_proven-record_edit owned l c w named = rw (
    proof_of_no_decisive c.id (record_edit owned l) (decisive_for-record_edit owned l c.id w named))

all_proven-record_edit :
    (owned : Bool) (l : ValidationLedger) (cs : List ValidationCheck)
    → IsWellFormed l
    → IsNamed cs
    → all_proven (record_edit owned l) cs ≡ false
unfolding all_proven
all_proven-record_edit owned l [] w named = refl
all_proven-record_edit owned l (c ∷ cs) w named = rw (is_proven-record_edit owned l c w named.0)

IsNamed-keep :
    (p : ValidationCheck → Bool) (cs : List ValidationCheck) → IsNamed cs → IsNamed (keep p cs)
IsNamed-keep p [] n = tt
IsNamed-keep p (c ∷ cs) n = elim (Bool-cases (p c)) [
  | inl h ↦ rw h (n.0, IsNamed-keep p cs n.1)
  | inr h ↦ rw h (IsNamed-keep p cs n.1)
]

IsNamed-set_revision :
    (r : ℕ) (cs : List ValidationCheck) → IsNamed cs → IsNamed (map (set_revision r) cs)
IsNamed-set_revision r [] n = tt
IsNamed-set_revision r (c ∷ cs) n = (n.0, IsNamed-set_revision r cs n.1)

pub IsNamed-required_checks :
    (owned : Bool) (l : ValidationLedger)
    → IsNamed l.plan.checks
    → IsNamed (required_checks (record_edit owned l))
unfolding required_checks record_edit at_revision
IsNamed-required_checks owned l n =
    IsNamed-keep (λ c. c.required) (map (set_revision (l.edit_revision + 1)) l.plan.checks)
      (IsNamed-set_revision (l.edit_revision + 1) l.plan.checks n)

-- An edit, owned or not, takes every proof away: on a well-formed ledger whose checks have names,
-- no named check is proven after `record_edit`, and the three verdicts of the ledger are false.
pub edit_invalidates :
    (owned : Bool) (l : ValidationLedger) (id : Text)
    → IsWellFormed l
    → IsNamed l.plan.checks
    → is_empty id ≡ false
    → (proof id (record_edit owned l) ≡ none)
      × (acceptance_passed (record_edit owned l) ≡ false)
      × (targeted_passed (record_edit owned l) ≡ false)
      × (full_passed (record_edit owned l) ≡ false)
unfolding acceptance_passed targeted_passed full_passed
edit_invalidates owned l id w n named =
    let r = IsNamed-required_checks owned l n in
    (
      proof_of_no_decisive id (record_edit owned l) (decisive_for-record_edit owned l id w named),
      all_proven-record_edit owned l _ w (IsNamed-keep _ _ r),
      all_proven-record_edit owned l _ w (IsNamed-keep _ _ r),
      all_proven-record_edit owned l _ w (IsNamed-keep _ _ r),
    )
