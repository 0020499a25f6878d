-- ===== src/Validation/Plan.antt =====
-- minicodex/agent/validation/plan.py: the proof obligations derived from typed contracts, and the
-- task requirements of minicodex/agent/planning/requirements.py that they come from.
pub mod Coverage
pub mod Distinct
use mathlib.Core.Logic.{ite}
use mini_codex.Common.{
  ℕ, ◌+◌, Bool, true, false, ◌&&◌, List, [], ◌∷◌, ◌++◌, map, Text, codes, same, any, keep,
  if◌then◌else◌,
}
use mini_codex.Common.Decimal.{decimal}
use mini_codex.Validation.Evidence.{ValidationPurpose, acceptance, regression}
use mini_codex.Validation.Contracts.{
  VerificationContract, VerificationContract-discrete, file_exists, file_contains, http_response,
  browser_interaction,
}

pub data RequirementCategory : Type 0 where
  behavior file test documentation regression_category : RequirementCategory

pub record TaskRequirement : Type 0 where
  pub id : Text
  pub description : Text
  pub category : RequirementCategory
  pub paths : List Text
  pub contract : VerificationContract

pub record TaskRequirements : Type 0 where
  pub items : List TaskRequirement
  pub no_edit_if_already_satisfied : Bool

pub data EvidenceStrength : Type 0 where
  structure lint targeted_strength regression_strength build runtime full_strength :
      EvidenceStrength

-- The integer of the `IntEnum`.
abbrev pub strength_value : EvidenceStrength → ℕ
strength_value structure = 0
strength_value lint = 1
strength_value targeted_strength = 2
strength_value regression_strength = 3
strength_value build = 4
strength_value runtime = 5
strength_value full_strength = 6

pub record ValidationCheck : Type 0 where
  pub id : Text
  pub requirement_ids : List Text
  pub purpose : ValidationPurpose
  pub contract : VerificationContract
  pub required : Bool
  pub strength : EvidenceStrength
  pub revision : ℕ
  pub reason : Text

pub record ValidationPlan : Type 0 where
  pub checks : List ValidationCheck

abbrev pub empty_plan : ValidationPlan
empty_plan = record { checks = [] }

abbrev pub set_revision : ℕ → ValidationCheck → ValidationCheck
set_revision revision check = record check { revision = revision }

unfoldable pub at_revision : ValidationPlan → ℕ → ValidationPlan
at_revision plan revision = record { checks = map (set_revision revision) plan.checks }

unfoldable pub for_requirement : ValidationPlan → Text → List ValidationCheck
for_requirement plan requirement_id =
    keep (λ c. c.required && any (same requirement_id) c.requirement_ids) plan.checks

unfoldable pub strength_of : VerificationContract → EvidenceStrength
strength_of (file_exists p) = structure
strength_of (file_contains p t) = structure
strength_of (http_response m p s t b) = runtime
strength_of (browser_interaction p a s n) = runtime
strength_of _ = targeted_strength

-- `grouped.setdefault(contract_key(requirement.contract), []).append(requirement)`: the groups in
-- the order of their first requirement.
abbrev pub Group : Type 0
Group = VerificationContract × List TaskRequirement

unfoldable pub add_to_group : TaskRequirement → List Group → List Group
add_to_group r [] = (r.contract, r ∷ []) ∷ []
add_to_group r ((c, rs) ∷ groups) =
    ite (VerificationContract-discrete c r.contract) ((c, rs ++ r ∷ []) ∷ groups)
      ((c, rs) ∷ add_to_group r groups)

unfoldable pub group_from : List Group → List TaskRequirement → List Group
group_from groups [] = groups
group_from groups (r ∷ rs) = group_from (add_to_group r groups) rs

abbrev is_regression_category : RequirementCategory → Bool
is_regression_category regression_category = true
is_regression_category _ = false

-- `"；".join(item.description for item in items)`
unfoldable pub join_descriptions : List TaskRequirement → Text
join_descriptions [] = []
join_descriptions (r ∷ []) = r.description
join_descriptions (r ∷ s ∷ rs) = r.description ++ (codes "；" ++ join_descriptions (s ∷ rs))

abbrev pub check_name : ℕ → Text
check_name n = b'V' ∷ decimal n

unfoldable pub check_of : ℕ → ℕ → Group → ValidationCheck
unfolding strength_of join_descriptions
check_of number revision (contract, items) = record {
  id = check_name number;
  requirement_ids = map (λ r. r.id) items;
  purpose = if any (λ r. is_regression_category r.category) items then regression else acceptance;
  contract = contract;
  required = true;
  strength = strength_of contract;
  revision = revision;
  reason = join_descriptions items;
}

-- The loop over the groups; `done` is `len(checks)`.
unfoldable pub checks_from : ℕ → ℕ → List Group → List ValidationCheck
checks_from done revision [] = []
checks_from done revision (g ∷ gs) =
    check_of (done + 1) revision g ∷ checks_from (done + 1) revision gs

-- `ValidationPlanner.build`; the other keyword arguments are deleted unread.
unfoldable pub plan_of : TaskRequirements → ℕ → ValidationPlan
unfolding group_from add_to_group checks_from check_of
plan_of requirements revision = record {
  checks = checks_from 0 revision (group_from [] requirements.items);
}
