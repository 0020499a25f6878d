-- ===== src/Validation/Ledger.antt =====
-- minicodex/agent/validation/ledger.py: the proof ledger of the current edit revision.
pub mod Proofs
pub mod History
pub mod Freshness
pub mod Runs
use mini_codex.Common.{
  ℕ, ◌+◌, ◌≡◌, String, Bool, true, false, not, ◌&&◌, ◌||◌, Option, none, some, List, [], ◌∷◌, ◌++◌,
  reverse, Text, same, is_empty, leb, ltb, ◌==◌, any, all, find, keep, last?, null, is_some,
  if◌then◌else◌,
}
use mini_codex.Common.Dict.{Dict, assign, setdefault}
use mini_codex.Validation.Evidence.{
  ValidationEvidence, ValidationOutcome, ExecutionStatus, executed, is_executed, is_passed,
  is_decisive, same_outcome, same_purpose, is_acceptance_purpose, is_regression_purpose, post_init,
  validation_key,
}
use mini_codex.Validation.Plan.{
  ValidationCheck, ValidationPlan, empty_plan, at_revision, strength_value,
}

-- What `observe_execution` notes: an execution that is no proof.
pub record Observation : Type 0 where
  pub edit_revision : ℕ
  pub check_id : Text
  pub execution_status : ExecutionStatus
  pub outcome : Option ValidationOutcome
  pub reason : String

pub record ValidationLedger : Type 0 where
  pub edit_revision : ℕ
  pub has_edit : Bool
  pub evidence_sequence : ℕ
  pub evidence_history : List ValidationEvidence
  pub execution_observations : List Observation
  pub blocked_checks : Dict String
  pub baseline_by_key : Dict ValidationEvidence
  pub plan : ValidationPlan

-- A new ledger; `reset` brings every ledger back to it.
abbrev pub empty_ledger : ValidationLedger
empty_ledger = record {
  edit_revision = 0;
  has_edit = false;
  evidence_sequence = 0;
  evidence_history = [];
  execution_observations = [];
  blocked_checks = [];
  baseline_by_key = [];
  plan = empty_plan;
}

unfoldable pub reset : ValidationLedger → ValidationLedger
reset l = empty_ledger

-- The new revision is the field `edit_revision` of the result.
unfoldable pub record_edit : Bool → ValidationLedger → ValidationLedger
record_edit owned l = record l {
  edit_revision = l.edit_revision + 1;
  has_edit = l.has_edit || owned;
  plan = at_revision l.plan (l.edit_revision + 1);
  blocked_checks = [];
}

unfoldable pub latest_evidence : ValidationLedger → Option ValidationEvidence
latest_evidence l = find (λ e. e.edit_revision == l.edit_revision) (reverse l.evidence_history)

unfoldable pub required_checks : ValidationLedger → List ValidationCheck
required_checks l = keep (λ c. c.required) l.plan.checks

unfoldable pub observe_execution :
    Text → ExecutionStatus → Option ValidationOutcome → String → ValidationLedger → ValidationLedger
observe_execution check_id status outcome reason l = record l {
  execution_observations =
      l.execution_observations
      ++ (record {
        edit_revision = l.edit_revision;
        check_id = check_id;
        execution_status = status;
        outcome = outcome;
        reason = reason;
      })
        ∷ [];
}

unfoldable pub mark_blocked : Text → String → ValidationLedger → ValidationLedger
mark_blocked check_id reason l = record l {
  blocked_checks = assign check_id reason l.blocked_checks;
}

unfoldable pub check_with_id : Text → ValidationLedger → Option ValidationCheck
check_with_id id l = find (λ c. same c.id id) l.plan.checks

-- The check that the evidence is bound to: its own, at the current revision.
unfoldable pub bound_check : ValidationEvidence → ValidationLedger → Option ValidationCheck
bound_check e l = if e.edit_revision == l.edit_revision then check_with_id e.check_id l else none

abbrev unbound_reason : String
unbound_reason = "unbound_or_stale"

-- The evidence with the identity that the plan gives it.
unfoldable pub bind : Option ValidationCheck → ValidationEvidence → ValidationEvidence
bind none e = post_init (record e { check_id = []; requirement_ids = [] })
bind (some c) e = post_init (record e { requirement_ids = c.requirement_ids })

-- The items of `comparable`.
unfoldable pub is_comparable : ValidationEvidence → ValidationEvidence → Bool
is_comparable e item =
    item.edit_revision == e.edit_revision
    && (same item.check_id e.check_id
        && (same (validation_key item) (validation_key e)
            && (is_executed item.execution_status && is_decisive item.outcome)))

unfoldable pub is_unstable : ValidationEvidence → List ValidationEvidence → Bool
is_unstable e comparable =
    (not (is_empty e.check_id)
      && (is_decisive e.outcome
          && (not (null comparable)
              && any (λ i. not (same_outcome i.outcome e.outcome)) comparable)))
    || (not (null comparable) && any (λ i. i.unstable) comparable)

-- `baseline_by_key.setdefault` for a regression run before any edit.
unfoldable pub with_baseline :
    ValidationEvidence → Dict ValidationEvidence → Dict ValidationEvidence
with_baseline e baseline =
    if e.edit_revision == 0 && is_regression_purpose e.purpose
    then setdefault (validation_key e) e baseline
    else baseline

-- The evidence as `record` appends it.
unfoldable pub appended : ValidationEvidence → ValidationLedger → ValidationEvidence
appended e l =
    let bound = bind (bound_check e l) e in
    let unstable = is_unstable bound (keep (is_comparable bound) l.evidence_history) in
    post_init (record bound { unstable = unstable })

-- `record`, for evidence that ran: what the ledger becomes.
unfoldable pub record_executed : ValidationEvidence → ValidationLedger → ValidationLedger
record_executed e l =
    let noted =
      if is_some (bound_check e l)
      then l
      else observe_execution e.check_id executed (some e.outcome) unbound_reason l in
    record noted {
      evidence_history = l.evidence_history ++ appended e l ∷ [];
      evidence_sequence = l.evidence_sequence + 1;
      baseline_by_key = with_baseline (appended e l) l.baseline_by_key;
    }

-- `record`, which returns the evidence that it appended.
unfoldable pub record_evidence :
    ValidationEvidence → ValidationLedger → ValidationLedger × Option ValidationEvidence
record_evidence e l =
    if is_executed e.execution_status
    then (record_executed e l, some (appended e l))
    else (observe_execution e.check_id e.execution_status none e.summary l, none)

-- `current` and `decisive` of `proof`.
unfoldable pub decisive_for : Text → ValidationLedger → List ValidationEvidence
decisive_for check_id l =
    keep
      (λ i.
        i.edit_revision == l.edit_revision
        && (same i.check_id check_id && (is_executed i.execution_status && is_decisive i.outcome)))
      l.evidence_history

-- The tests on the latest decisive evidence.
unfoldable pub meets : ValidationCheck → ValidationEvidence → Bool
meets c e =
    leb (strength_value c.strength) e.strength
    && (same_purpose e.purpose c.purpose
        && (not e.agent_test_only && all (λ r. any (same r) e.requirement_ids) c.requirement_ids))

unfoldable pub proof_among : ValidationCheck → List ValidationEvidence → Option ValidationEvidence
proof_among c decisive =
    if null decisive
    then none
    else if any (λ i. i.unstable) decisive
    then none
    else if all (λ i. is_passed i.outcome) decisive
    then elim (last? decisive) [ none ↦ none | some e ↦ if meets c e then some e else none ]
    else none

unfoldable pub proof : Text → ValidationLedger → Option ValidationEvidence
proof check_id l = elim (check_with_id check_id l) [
  | none ↦ none
  | some c ↦ if c.revision == l.edit_revision then proof_among c (decisive_for check_id l) else none
]

unfoldable pub is_proven : ValidationLedger → ValidationCheck → Bool
is_proven l c = is_some (proof c.id l)

-- `bool(checks) and all(self.proof(check.id) is not None for check in checks)`
unfoldable pub all_proven : ValidationLedger → List ValidationCheck → Bool
all_proven l checks = not (null checks) && all (is_proven l) checks

unfoldable pub acceptance_passed : ValidationLedger → Bool
unfolding all_proven
acceptance_passed l = all_proven l (keep (λ c. is_acceptance_purpose c.purpose) (required_checks l))

unfoldable pub targeted_passed : ValidationLedger → Bool
unfolding all_proven
targeted_passed l = all_proven l (
    keep (λ c. is_regression_purpose c.purpose && ltb (strength_value c.strength) 6)
      (required_checks l))

unfoldable pub full_passed : ValidationLedger → Bool
unfolding all_proven
full_passed l = all_proven l (
    keep (λ c. is_regression_purpose c.purpose && leb 6 (strength_value c.strength))
      (required_checks l))
