-- ===== src/Validation/Completion.antt =====
-- minicodex/agent/validation/completion.py and completion_policy.py: the completion gate.
pub mod Gate
use mini_codex.Common.{
  ℕ, zero, String, Bool, true, false, not, ◌&&◌, Option, none, some, List, [], ◌∷◌, map, Text, any,
  keep, null, is_some, leb, get_or, if◌then◌else◌,
}
use mini_codex.Common.Dict.{lookup}
use mini_codex.Validation.Evidence.{is_acceptance_purpose, is_regression_purpose}
use mini_codex.Validation.Plan.{TaskRequirements, ValidationCheck, strength_value, full_strength}
use mini_codex.Validation.Regression.{
  RegressionRequirement, required, relevant_only, unknown_requirement,
}
use mini_codex.Validation.Ledger.{
  ValidationLedger, required_checks, is_proven, acceptance_passed, full_passed,
}

pub data CompletionStatus : Type 0 where
  not_ready needs_acceptance needs_full_validation needs_relevant_validation : CompletionStatus
  ready : CompletionStatus

pub data TaskOutcome : Type 0 where
  informational_answer inspected already_satisfied edited_and_validated : TaskOutcome
  blocked incomplete cancelled : TaskOutcome

-- What the text of `reason` is made from.
pub data Reason : Type 0 where
  ledger_unavailable : Reason
  checks_blocked : List (Text × Option String) → Reason
  evidence_missing : List Text → Reason
  nothing_materialized : Reason
  edit_required : Reason
  full_regression_missing : Reason
  relevant_regression_missing : Reason
  everything_proven : Reason

pub record CompletionDecision : Type 0 where
  pub status : CompletionStatus
  pub edit_revision : ℕ
  pub has_edit : Bool
  pub acceptance : Bool
  pub full_validation : Bool
  pub reason : Reason
  pub outcome : TaskOutcome

abbrev pub is_ready : CompletionStatus → Bool
is_ready ready = true
is_ready _ = false

unfoldable pub can_complete : CompletionDecision → Bool
can_complete d = is_ready d.status

unfoldable pub missing_checks : ValidationLedger → List ValidationCheck
missing_checks l = keep (λ c. not (is_proven l c)) (required_checks l)

unfoldable pub blocked_missing : ValidationLedger → List ValidationCheck
blocked_missing l = keep (λ c. is_some (lookup c.id l.blocked_checks)) (missing_checks l)

unfoldable pub regression_checks : ValidationLedger → List ValidationCheck
regression_checks l = keep (λ c. is_regression_purpose c.purpose) (required_checks l)

-- A decision over the ledger, with the verdicts that most branches copy.
abbrev decision :
    CompletionStatus → Bool → Reason → TaskOutcome → ValidationLedger → CompletionDecision
decision status full reason outcome l = record {
  status = status;
  edit_revision = l.edit_revision;
  has_edit = l.has_edit;
  acceptance = acceptance_passed l;
  full_validation = full;
  reason = reason;
  outcome = outcome;
}

abbrev pub is_required : RegressionRequirement → Bool
is_required required = true
is_required _ = false

abbrev pub is_relevant_only : RegressionRequirement → Bool
is_relevant_only relevant_only = true
is_relevant_only _ = false

abbrev pub lacks_full_check : ValidationLedger → Bool
lacks_full_check l = not (
    any (λ c. leb (strength_value full_strength) (strength_value c.strength)) (regression_checks l))

-- The end of `evaluate`, where every required check is proven. `requirement` is what the resolver
-- of the agent returned, `unknown_requirement` where it was not asked.
unfoldable pub evaluate_regression : RegressionRequirement → ValidationLedger → CompletionDecision
evaluate_regression requirement l =
    if is_required requirement && lacks_full_check l
    then decision needs_full_validation false full_regression_missing incomplete l
    else if is_relevant_only requirement && null (regression_checks l)
    then decision needs_relevant_validation false relevant_regression_missing incomplete l
    else decision ready (full_passed l) everything_proven
        (if l.has_edit then edited_and_validated else already_satisfied) l

-- `getattr(requirements, "no_edit_if_already_satisfied", True)`
abbrev pub allow_no_edit : Option TaskRequirements → Bool
allow_no_edit none = true
allow_no_edit (some r) = r.no_edit_if_already_satisfied

-- The resolver `current_regression_requirement` is asked only after an edit.
abbrev pub asked : ValidationLedger → Option RegressionRequirement → RegressionRequirement
asked l resolver = if l.has_edit then get_or resolver unknown_requirement else unknown_requirement

unfoldable pub evaluate_ledger :
    ValidationLedger → Option TaskRequirements → Option RegressionRequirement → CompletionDecision
unfolding evaluate_regression
evaluate_ledger l requirements resolver =
    if not (null (blocked_missing l))
    then decision not_ready (full_passed l)
        (checks_blocked (map (λ c. (c.id, lookup c.id l.blocked_checks)) (blocked_missing l)))
        blocked l
    else if not (null (missing_checks l))
    then decision
        (if any (λ c. is_acceptance_purpose c.purpose) (missing_checks l)
          then needs_acceptance
          else needs_relevant_validation)
        (full_passed l) (evidence_missing (map (λ c. c.id) (missing_checks l))) incomplete l
    else if null (required_checks l)
    then (record {
      status = not_ready;
      edit_revision = l.edit_revision;
      has_edit = l.has_edit;
      acceptance = false;
      full_validation = false;
      reason = nothing_materialized;
      outcome = incomplete;
    })
    else if not l.has_edit && not (allow_no_edit requirements)
    then decision not_ready (full_passed l) edit_required incomplete l
    else evaluate_regression (asked l resolver) l

-- `TaskCompletionPolicy.evaluate`, over the pipeline's ledger, the requirements and the resolver
-- of the agent, each of which may be absent.
unfoldable pub evaluate :
    Option ValidationLedger
    → Option TaskRequirements
    → Option RegressionRequirement
    → CompletionDecision
unfolding evaluate_ledger
evaluate none requirements resolver = record {
  status = not_ready;
  edit_revision = 0;
  has_edit = false;
  acceptance = false;
  full_validation = false;
  reason = ledger_unavailable;
  outcome = incomplete;
}
evaluate (some l) requirements resolver = evaluate_ledger l requirements resolver
