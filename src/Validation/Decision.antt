-- ===== src/Validation/Decision.antt =====
-- minicodex/agent/validation/decision_policy.py: what to do after a validation.
use mini_codex.Common.{
  ◌≡◌, ◌↔◌, refl, Bool, true, false, not, ◌&&◌, Option, none, some, List, [], ◌∷◌, arith, find,
  keep, null, all, is_some, if◌then◌else◌,
}
use mini_codex.Validation.Evidence.{
  ValidationEvidence, ValidationNextAction, no_action, fix_failure, run_acceptance_validation,
  run_full_validation, run_check, investigate_inconclusive, task_validated, is_failed,
  is_inconclusive,
}
use mini_codex.Validation.Plan.{ValidationCheck}
use mini_codex.Validation.Ledger.{
  ValidationLedger, latest_evidence, required_checks, is_proven, acceptance_passed, full_passed,
}

-- The first check that is required and not proven.
unfoldable pub next_required_check : ValidationLedger → Option ValidationCheck
next_required_check l = find (λ c. c.required && not (is_proven l c)) l.plan.checks

abbrev pub or_latest :
    Option ValidationEvidence → Option ValidationEvidence → Option ValidationEvidence
or_latest none latest = latest
or_latest (some e) latest = some e

-- The branch for a materialized plan.
unfoldable pub planned_action : Option ValidationEvidence → Bool → ValidationNextAction
planned_action none open_check = if open_check then run_check else task_validated
planned_action (some e) open_check =
    if e.unstable
    then investigate_inconclusive
    else if is_inconclusive e.outcome
    then investigate_inconclusive
    else if is_failed e.outcome
    then fix_failure
    else if open_check
    then run_check
    else task_validated

-- The branch without a plan.
unfoldable pub unplanned_action :
    Option ValidationEvidence → Bool → ValidationLedger → ValidationNextAction
unplanned_action none open_check l = no_action
unplanned_action (some e) open_check l =
    if e.unstable
    then investigate_inconclusive
    else if is_inconclusive e.outcome
    then investigate_inconclusive
    else if is_failed e.outcome
    then fix_failure
    else if open_check
    then run_check
    else if not l.has_edit
    then no_action
    else if acceptance_passed l && full_passed l
    then task_validated
    else if acceptance_passed l && not (full_passed l)
    then run_full_validation
    else if not (acceptance_passed l)
    then run_acceptance_validation
    else no_action

unfoldable pub next_action : Option ValidationEvidence → ValidationLedger → ValidationNextAction
unfolding planned_action unplanned_action
next_action evidence l =
    let current = or_latest evidence (latest_evidence l) in
    let open_check = is_some (next_required_check l) in
    if not (null l.plan.checks)
    then planned_action current open_check
    else unplanned_action current open_check l

unfoldable pub current_edit_validated : ValidationLedger → Bool
current_edit_validated l = l.has_edit && full_passed l

unfoldable pub current_acceptance_passed : ValidationLedger → Bool
current_acceptance_passed l = l.has_edit && acceptance_passed l

unfoldable pub requires_full_validation : ValidationLedger → Bool
requires_full_validation l = l.has_edit && (acceptance_passed l && not (full_passed l))

unfoldable pub requires_acceptance_validation : ValidationLedger → Bool
requires_acceptance_validation l = l.has_edit && not (acceptance_passed l)

-- No evidence, or stable evidence of a pass.
abbrev pub is_settled : Option ValidationEvidence → Bool
is_settled none = true
is_settled (some e) =
    not e.unstable && (not (is_inconclusive e.outcome) && not (is_failed e.outcome))

all-find :
    (l : ValidationLedger) (cs : List ValidationCheck)
    → all (is_proven l) (keep (λ c. c.required) cs)
      ≡ not (is_some (find (λ c. c.required && not (is_proven l c)) cs))
all-find l [] = refl
all-find l (c ∷ cs) = ground (arith, all-find l cs)

-- No check is open exactly when every required check is proven.
pub next_required_check_lem :
    (l : ValidationLedger)
    → all (is_proven l) (required_checks l) ≡ not (is_some (next_required_check l))
unfolding required_checks next_required_check
next_required_check_lem l = all-find l l.plan.checks

-- With a plan, the policy declares the task validated exactly when every required check is proven
-- at the current revision and the evidence at hand (that given, or else the latest of the current
-- revision) is neither unstable nor inconclusive nor failed.
pub next_action-task_validated :
    (evidence : Option ValidationEvidence) (l : ValidationLedger)
    → null l.plan.checks ≡ false
    → (next_action evidence l ≡ task_validated) ↔ (
        (all (is_proven l) (required_checks l) ≡ true)
        × (is_settled (or_latest evidence (latest_evidence l)) ≡ true))
unfolding next_action
next_action-task_validated evidence l planned =
    (λ h. ground (arith, next_required_check_lem l), λ h. ground (arith, next_required_check_lem l))
