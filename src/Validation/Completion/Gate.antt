-- ===== src/Validation/Completion/Gate.antt =====
-- When the completion gate of minicodex/agent/validation/completion_policy.py opens.
use mathlib.Core.List.{Memᴰ}
use mini_codex.Common.{
  ◌≡◌, ◌≢◌, ◌↔◌, inl, inr, refl, Bool, true, false, not, ◌&&◌, ◌||◌, Option, none, some, List, [],
  ◌∷◌, arith, all, keep, null, All, Option-cases,
}
use mini_codex.Common.Searches.{all_mem}
use mini_codex.Validation.Evidence.{ValidationEvidence, failed}
use mini_codex.Validation.Plan.{TaskRequirements, ValidationCheck}
use mini_codex.Validation.Regression.{RegressionRequirement}
use mini_codex.Validation.Ledger.{ValidationLedger, record_edit, required_checks, is_proven, proof}
use mini_codex.Validation.Ledger.Proofs.{Proves, proof-Proves}
use mini_codex.Validation.Ledger.History.{
  LedgerStep, validate, ledger_step, ledger_run, IsWellFormed,
}
use mini_codex.Validation.Ledger.Freshness.{IsNamed, IsNamed-required_checks, is_proven-record_edit}
use mini_codex.Validation.Ledger.Runs.{IsBound, KeepsRevision, failed_run_sticks}
use mini_codex.Validation.Completion.{
  ready, evaluate, missing_checks, blocked_missing, regression_checks, allow_no_edit, asked,
  is_required, is_relevant_only, lacks_full_check,
}

-- The conditions of the gate, in terms of the ledger's proofs.
pub record IsComplete (l : ValidationLedger) (requirements : Option TaskRequirements)
    (resolver : Option RegressionRequirement) : Type 0 where
  pub some_check : null (required_checks l) ≡ false
  pub proven : all (is_proven l) (required_checks l) ≡ true
  pub edit_or_allowed : l.has_edit || allow_no_edit requirements ≡ true
  pub full_check : is_required (asked l resolver) && lacks_full_check l ≡ false
  pub relevant_check : is_relevant_only (asked l resolver) && null (regression_checks l) ≡ false

null-missing :
    (l : ValidationLedger) (cs : List ValidationCheck)
    → null (keep (λ c. not (is_proven l c)) cs) ≡ all (is_proven l) cs
null-missing l [] = refl
null-missing l (c ∷ cs) = ground (arith, null-missing l cs)

null-missing_checks :
    (l : ValidationLedger) → null (missing_checks l) ≡ all (is_proven l) (required_checks l)
unfolding missing_checks
null-missing_checks l = null-missing l (required_checks l)

null-blocked_missing :
    (l : ValidationLedger) → null (missing_checks l) ≡ true → null (blocked_missing l) ≡ true
unfolding blocked_missing
null-blocked_missing l h = ground arith

-- The gate opens exactly when some check is required, every required check is proven, the ledger
-- has an edit or the request allows none, and the checks that the regression requirement of the
-- change demands have been planned.
pub evaluate-ready :
    (l : ValidationLedger) (requirements : Option TaskRequirements)
    (resolver : Option RegressionRequirement)
    → ((evaluate (some l) requirements resolver).status ≡ ready)
      ↔ IsComplete l requirements resolver
unfolding evaluate
evaluate-ready l requirements resolver = (
  λ h. record {
    some_check = ground arith;
    proven = ground (arith, null-missing_checks l);
    edit_or_allowed = ground arith;
    full_check = ground arith;
    relevant_check = ground arith;
  },
  λ k. ground (
    arith,
    null-missing_checks l,
    null-blocked_missing l,
    k.some_check,
    k.proven,
    k.edit_or_allowed,
    k.full_check,
    k.relevant_check,
  ),
)

proof_of_is_proven :
    (l : ValidationLedger) (c : ValidationCheck)
    → is_proven l c ≡ true
    → (e : ValidationEvidence) × (proof c.id l ≡ some e)
unfolding is_proven
proof_of_is_proven l c h = elim (Option-cases (proof c.id l)) [
  | inl nothing ↦ absurd (ground arith)
  | inr found ↦ found
]

-- When the gate is open, every required check has a proof of the current edit revision: evidence
-- in the history, of this revision and this check, passed, stable, strong enough, for its purpose
-- and for all of its requirements.
pub ready_checks_proven :
    (l : ValidationLedger) (requirements : Option TaskRequirements)
    (resolver : Option RegressionRequirement) (c : ValidationCheck)
    → (evaluate (some l) requirements resolver).status ≡ ready
    → Memᴰ c (required_checks l)
    → (k : ValidationCheck) × (e : ValidationEvidence) × Proves l c.id k e
ready_checks_proven l requirements resolver c h m =
    let complete = (evaluate-ready l requirements resolver).0 h in
    let (e, found) =
      proof_of_is_proven l c (all_mem (is_proven l) c (required_checks l) complete.proven m) in
    let (k, p) = proof-Proves c.id l e found in (k, e, p)

-- After an edit, owned or not, the gate is closed, on a well-formed ledger whose checks have names.
pub record_edit_closes_gate :
    (owned : Bool) (l : ValidationLedger) (requirements : Option TaskRequirements)
    (resolver : Option RegressionRequirement)
    → IsWellFormed l
    → IsNamed l.plan.checks
    → (evaluate (some (record_edit owned l)) requirements resolver).status ≢ ready
record_edit_closes_gate owned l requirements resolver w n h =
    let complete = (evaluate-ready (record_edit owned l) requirements resolver).0 h in
    closed (required_checks (record_edit owned l)) (IsNamed-required_checks owned l n)
      complete.some_check complete.proven
  where
    closed :
        (cs : List ValidationCheck)
        → IsNamed cs
        → null cs ≡ false
        → all (is_proven (record_edit owned l)) cs ≡ true
        → ⊥
    closed [] named some_check proven = cc
    closed (c ∷ cs) named some_check proven =
        ground (arith, is_proven-record_edit owned l c w named.0)

-- After a failed run that is bound to a check of the current revision, the gate stays closed
-- through any further calls on the ledger that are no edit and no new ledger, while the check is
-- required.
pub failed_run_closes_gate :
    (e : ValidationEvidence) (l : ValidationLedger) (c : ValidationCheck) (ss : List LedgerStep)
    (requirements : Option TaskRequirements) (resolver : Option RegressionRequirement)
    → IsBound e l c
    → e.outcome ≡ failed
    → c.id ≡ e.check_id
    → Memᴰ c (required_checks (ledger_run ss (ledger_step (validate e) l)))
    → All KeepsRevision ss
    → (evaluate (some (ledger_run ss (ledger_step (validate e) l))) requirements resolver).status
      ≢ ready
failed_run_closes_gate e l c ss requirements resolver b bad own m k h =
    let after = ledger_run ss (ledger_step (validate e) l) in
    let complete = (evaluate-ready after requirements resolver).0 h in
    let (x, found) =
      proof_of_is_proven after c
        (all_mem (is_proven after) c (required_checks after) complete.proven m) in
    let nothing : proof c.id after ≡ none = rw own (failed_run_sticks e l c b ss bad k) in cc
