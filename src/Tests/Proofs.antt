-- ===== src/Tests/Proofs.antt =====
-- Runs of the ledger, its policies and the completion gate (minicodex/agent/validation/).
use mathlib.Core.List.{Memᴰ}
use mini_codex.Common.{◌≡◌, refl, true, false, none, some, [], ◌∷◌, codes, same, strip, str_eq}
use mini_codex.Common.Decimal.{decimal}
use mini_codex.Validation.Evidence.{
  ValidationEvidence, ValidationOutcome, passed, failed, executed, targeted, acceptance,
  validation_key, post_init,
}
use mini_codex.Validation.Contracts.{file_exists}
use mini_codex.Validation.Plan.{
  TaskRequirement, TaskRequirements, file, ValidationCheck, structure, plan_of, at_revision,
}
use mini_codex.Validation.Plan.Coverage.{IsChecked, plan_of-IsChecked}
use mini_codex.Validation.Ledger.{
  ValidationLedger, empty_ledger, record_edit, record_evidence, record_executed, appended, bind,
  bound_check, check_with_id, is_unstable, is_comparable, with_baseline, proof_among, decisive_for,
  meets, proof, acceptance_passed, targeted_passed, full_passed,
}
use mini_codex.Validation.Ledger.Proofs.{Proves, proof-Proves}
use mini_codex.Validation.Ledger.History.{
  edit, validate, ledger_step, ledger_run, IsWellFormed, ledger_run-IsWellFormed,
}
use mini_codex.Validation.Ledger.Freshness.{IsNamed, edit_invalidates}
use mini_codex.Validation.Ledger.Runs.{IsBound, failed_run_sticks}

abbrev pub app_requirement : TaskRequirement
app_requirement = record {
  id = codes "R1";
  description = codes "app.py exists";
  category = file;
  paths = [];
  contract = file_exists (codes "app.py");
}

abbrev pub request : TaskRequirements
request = record { items = app_requirement ∷ []; no_edit_if_already_satisfied = true }

abbrev pub app_check : ValidationCheck
app_check = record {
  id = codes "V1";
  requirement_ids = codes "R1" ∷ [];
  purpose = acceptance;
  contract = file_exists (codes "app.py");
  required = true;
  strength = structure;
  revision = 0;
  reason = codes "app.py exists";
}

plan_of-request : plan_of request 0 ≡ record { checks = app_check ∷ [] }
unfolding plan_of decimal
plan_of-request = refl

-- A second requirement with the same contract.
abbrev shared_request : TaskRequirements
shared_request = record {
  items = app_requirement ∷ record app_requirement { id = codes "R2" } ∷ [];
  no_edit_if_already_satisfied = true;
}

plan_of-IsChecked_example : IsChecked app_requirement (plan_of shared_request 0).checks
plan_of-IsChecked_example = plan_of-IsChecked shared_request 0 app_requirement (Memᴰ.head refl)

-- A run of the check at the first edit revision.
abbrev pub app_run : ValidationOutcome → ValidationEvidence
app_run outcome = record {
  tool_name = "check_file";
  execution_succeeded = true;
  outcome = outcome;
  scope = targeted;
  purpose = acceptance;
  edit_revision = 1;
  check_id = codes "V1";
  requirement_ids = [];
  strength = 2;
  agent_test_only = false;
  path = some (codes "app.py");
  summary = "";
  target_identity = [];
  failure_ids = [];
  unstable = false;
  environment_failure = false;
  execution_status = executed;
}

abbrev pub planned : ValidationLedger
planned = record empty_ledger { plan = record { checks = app_check ∷ [] } }

abbrev pub edited : ValidationLedger
edited = ledger_run (edit true ∷ []) planned

abbrev pub validated : ValidationLedger
validated = ledger_run (edit true ∷ validate (app_run passed) ∷ []) planned

-- The evidence that the ledger keeps of the passing run.
abbrev pub app_proof : ValidationEvidence
app_proof = record (app_run passed) { requirement_ids = codes "R1" ∷ [] }

proof_after_pass : proof (codes "V1") validated ≡ some app_proof
unfolding ledger_run ledger_step record_edit record_evidence record_executed appended bind
    bound_check check_with_id is_unstable is_comparable with_baseline post_init validation_key
    at_revision proof proof_among decisive_for meets same strip str_eq
proof_after_pass = refl

no_proof_before_run : proof (codes "V1") edited ≡ none
unfolding ledger_run ledger_step record_edit record_evidence record_executed appended bind
    bound_check check_with_id is_unstable is_comparable with_baseline post_init validation_key
    at_revision proof proof_among decisive_for meets same strip str_eq
no_proof_before_run = refl

proof-Proves_example : (c : ValidationCheck) × Proves validated (codes "V1") c app_proof
proof-Proves_example = proof-Proves (codes "V1") validated app_proof proof_after_pass

-- A ledger at the first revision whose history holds a failure, then a pass.
abbrev unsettled : ValidationLedger
unsettled = record planned { edit_revision = 1; evidence_history = app_run failed ∷ app_proof ∷ [] }

planned-IsWellFormed : IsWellFormed planned
planned-IsWellFormed = record { past = tt; counted = refl }

pub validated-IsWellFormed : IsWellFormed validated
validated-IsWellFormed =
    ledger_run-IsWellFormed (edit true ∷ validate (app_run passed) ∷ []) planned
      planned-IsWellFormed

pub validated-IsNamed : IsNamed validated.plan.checks
unfolding ledger_run ledger_step record_edit record_evidence record_executed appended bind
    bound_check check_with_id is_unstable is_comparable with_baseline post_init validation_key
    at_revision proof proof_among decisive_for meets same strip str_eq
validated-IsNamed = (refl, tt)

edit_invalidates_example :
    (proof (codes "V1") (record_edit false validated) ≡ none)
    × (acceptance_passed (record_edit false validated) ≡ false)
    × (targeted_passed (record_edit false validated) ≡ false)
    × (full_passed (record_edit false validated) ≡ false)
edit_invalidates_example =
    edit_invalidates false validated (codes "V1") validated-IsWellFormed validated-IsNamed refl

-- The check at the first edit revision.
abbrev pub edited_check : ValidationCheck
edited_check = record app_check { revision = 1 }

pub run-IsBound : (outcome : ValidationOutcome) → IsBound (app_run outcome) edited edited_check
unfolding ledger_run ledger_step record_edit record_evidence record_executed appended bind
    bound_check check_with_id is_unstable is_comparable with_baseline post_init validation_key
    at_revision proof proof_among decisive_for meets same strip str_eq
run-IsBound outcome = record { planned = refl; current = refl; succeeded = refl; ran = refl }

first_run : (edited.edit_revision ≡ 1) × (decisive_for (codes "V1") edited ≡ [])
unfolding ledger_run ledger_step record_edit record_evidence record_executed appended bind
    bound_check check_with_id is_unstable is_comparable with_baseline post_init validation_key
    at_revision proof proof_among decisive_for meets same strip str_eq
first_run = (refl, refl)

failed_run_sticks_example :
    proof
      (codes "V1")
      (ledger_run (validate (app_run passed) ∷ []) (ledger_step (validate (app_run failed)) edited))
    ≡ none
failed_run_sticks_example =
    failed_run_sticks (app_run failed) edited edited_check (run-IsBound failed)
      (validate (app_run passed) ∷ []) refl (tt, tt)
