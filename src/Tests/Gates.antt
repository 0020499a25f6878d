-- ===== src/Tests/Gates.antt =====
-- Runs of the completion gate and the policies (minicodex/agent/validation/).
use mathlib.Core.List.{Memᴰ}
use mini_codex.Common.{
  ◌≡◌, ◌↔◌, refl, false, none, some, [], ◌∷◌, Text, codes, same, strip, str_eq, null,
}
use mini_codex.Validation.Evidence.{
  ValidationEvidence, passed, failed, task_validated, validation_key, post_init,
}
use mini_codex.Validation.Plan.{ValidationCheck, at_revision}
use mini_codex.Validation.Regression.{
  complex, not_applicable, requirement_for, requirement_of, changed, is_non_product, is_risky,
  is_core, contains, starts_with, normalize,
}
use mini_codex.Validation.Ledger.{
  ValidationLedger, record_edit, latest_evidence, record_evidence, record_executed, appended, bind,
  bound_check, check_with_id, is_unstable, is_comparable, with_baseline, proof_among, decisive_for,
  meets, proof, required_checks, is_proven, acceptance_passed, full_passed,
}
use mini_codex.Validation.Ledger.Proofs.{Proves}
use mini_codex.Validation.Ledger.History.{validate, ledger_step, ledger_run}
use mini_codex.Validation.Decision.{next_required_check, next_action}
use mini_codex.Validation.Completion.{
  evaluate, ready, missing_checks, blocked_missing, regression_checks,
}
use mini_codex.Validation.Completion.Gate.{IsComplete, evaluate-ready, ready_checks_proven}
use mini_codex.Tests.Proofs.{request, app_run, edited, edited_check, validated}

-- The ledger after a failed run and a passing one.
abbrev retried : ValidationLedger
retried =
    ledger_run (validate (app_run passed) ∷ []) (ledger_step (validate (app_run failed)) edited)

retried_requires : Memᴰ edited_check (required_checks retried)
unfolding ledger_run ledger_step record_edit record_evidence record_executed appended bind
    bound_check check_with_id is_unstable is_comparable with_baseline post_init validation_key
    at_revision proof proof_among decisive_for meets same strip str_eq required_checks
retried_requires = Memᴰ.head refl

pub validated_ready : (evaluate (some validated) (some request) none).status ≡ ready
unfolding ledger_run ledger_step record_edit record_evidence record_executed appended bind
    bound_check check_with_id is_unstable is_comparable with_baseline post_init validation_key
    at_revision proof proof_among decisive_for meets same strip str_eq required_checks evaluate
    is_proven blocked_missing missing_checks acceptance_passed full_passed regression_checks
validated_ready = refl

evaluate-ready_example :
    ((evaluate (some validated) (some request) none).status ≡ ready)
    ↔ IsComplete validated (some request) none
evaluate-ready_example = evaluate-ready validated (some request) none

validated_requires : Memᴰ edited_check (required_checks validated)
unfolding ledger_run ledger_step record_edit record_evidence record_executed appended bind
    bound_check check_with_id is_unstable is_comparable with_baseline post_init validation_key
    at_revision proof proof_among decisive_for meets same strip str_eq required_checks
validated_requires = Memᴰ.head refl

ready_checks_proven_example :
    (k : ValidationCheck) × (e : ValidationEvidence) × Proves validated (codes "V1") k e
ready_checks_proven_example =
    ready_checks_proven validated (some request) none edited_check validated_ready
      validated_requires

validated_plan : null validated.plan.checks ≡ false
unfolding ledger_run ledger_step record_edit record_evidence record_executed appended bind
    bound_check check_with_id is_unstable is_comparable with_baseline post_init validation_key
    at_revision proof proof_among decisive_for meets same strip str_eq
validated_plan = refl

next_action_of_run : next_action none validated ≡ task_validated
unfolding ledger_run ledger_step record_edit record_evidence record_executed appended bind
    bound_check check_with_id is_unstable is_comparable with_baseline post_init validation_key
    at_revision proof proof_among decisive_for meets same strip str_eq next_action latest_evidence
    next_required_check is_proven
next_action_of_run = refl

-- `str.casefold` on lower-case texts, and the whole path for its last part.
abbrev unchanged : Text → Text
unchanged t = t

requirement_of_docs :
    requirement_for unchanged unchanged (some complex) (codes "docs/a.md" ∷ []) none
    ≡ not_applicable
unfolding requirement_for requirement_of changed is_non_product is_risky is_core contains
    starts_with normalize strip
requirement_of_docs = refl
