-- ===== src/Validation/Plan/Distinct.antt =====
-- That the planner (minicodex/agent/validation/plan.py) makes one check for each contract.
use mathlib.Core.Logic.{ite}
use mini_codex.Common.{ℕ, ◌+◌, ◌≤◌, ◌≡◌, ◌≢◌, refl, sym, ◌∙◌, List, [], ◌∷◌, ◌++◌, arith, All}
use mini_codex.Common.Decimal.{decimal-injective}
use mini_codex.Validation.Contracts.{VerificationContract, VerificationContract-discrete}
use mini_codex.Validation.Plan.{
  TaskRequirement, TaskRequirements, ValidationCheck, Group, add_to_group, group_from, check_name,
  check_of, checks_from, plan_of,
}

-- No group has the contract.
abbrev IsNew : VerificationContract → List Group → Type 0
IsNew k [] = Unit
IsNew k ((c, rs) ∷ gs) = (k ≢ c) × IsNew k gs

-- The contracts of the groups are all different.
abbrev IsGrouping : List Group → Type 0
IsGrouping [] = Unit
IsGrouping ((c, rs) ∷ gs) = IsNew c gs × IsGrouping gs

IsNew-added :
    (k : VerificationContract) (r : TaskRequirement) (c : VerificationContract)
    (rs : List TaskRequirement) (gs rest : List Group) (d : Dec (c ≡ r.contract))
    → IsNew k ((c, rs) ∷ gs)
    → IsNew k rest
    → IsNew k (ite d ((c, rs ++ r ∷ []) ∷ gs) ((c, rs) ∷ rest))
IsNew-added k r c rs gs rest (yes e) h n = h
IsNew-added k r c rs gs rest (no ne) h n = (h.0, n)

IsNew-add_to_group :
    (k : VerificationContract) (r : TaskRequirement) (gs : List Group)
    → k ≢ r.contract
    → IsNew k gs
    → IsNew k (add_to_group r gs)
unfolding add_to_group
IsNew-add_to_group k r [] ne h = (ne, tt)
IsNew-add_to_group k r ((c, rs) ∷ gs) ne h =
    IsNew-added k r c rs gs (add_to_group r gs) (VerificationContract-discrete c r.contract) h
      (IsNew-add_to_group k r gs ne h.1)

IsGrouping-added :
    (r : TaskRequirement) (c : VerificationContract) (rs : List TaskRequirement)
    (gs rest : List Group) (d : Dec (c ≡ r.contract))
    → IsGrouping ((c, rs) ∷ gs)
    → ((c ≢ r.contract) → IsNew c rest)
    → IsGrouping rest
    → IsGrouping (ite d ((c, rs ++ r ∷ []) ∷ gs) ((c, rs) ∷ rest))
IsGrouping-added r c rs gs rest (yes e) h n k = h
IsGrouping-added r c rs gs rest (no ne) h n k = (n ne, k)

IsGrouping-add_to_group :
    (r : TaskRequirement) (gs : List Group) → IsGrouping gs → IsGrouping (add_to_group r gs)
unfolding add_to_group
IsGrouping-add_to_group r [] h = (tt, tt)
IsGrouping-add_to_group r ((c, rs) ∷ gs) h =
    IsGrouping-added r c rs gs (add_to_group r gs) (VerificationContract-discrete c r.contract) h
      (λ ne. IsNew-add_to_group c r gs ne h.0) (IsGrouping-add_to_group r gs h.1)

IsGrouping-group_from :
    (gs : List Group) (rs : List TaskRequirement) → IsGrouping gs → IsGrouping (group_from gs rs)
unfolding group_from
IsGrouping-group_from gs [] h = h
IsGrouping-group_from gs (r ∷ rs) h =
    IsGrouping-group_from (add_to_group r gs) rs (IsGrouping-add_to_group r gs h)

-- The checks differ in their identifiers and in their contracts.
abbrev pub Differs : ValidationCheck → ValidationCheck → Type 0
Differs c d = (c.id ≢ d.id) × (c.contract ≢ d.contract)

-- Every two of the checks differ.
abbrev pub AllDiffer : List ValidationCheck → Type 0
AllDiffer [] = Unit
AllDiffer (c ∷ cs) = All (Differs c) cs × AllDiffer cs

check_name-injective : (m n : ℕ) → check_name m ≡ check_name n → m ≡ n
check_name-injective m n e = decimal-injective m n (cc)

Differs-checks_from :
    (number n revision : ℕ) (c : ValidationCheck) (gs : List Group)
    → c.id ≡ check_name number
    → number ≤ n
    → IsNew c.contract gs
    → All (Differs c) (checks_from n revision gs)
unfolding checks_from check_of
Differs-checks_from number n revision c [] e le h = tt
Differs-checks_from number n revision c ((k, rs) ∷ gs) e le h = (
  (λ s. absurd (omega (arith, check_name-injective number (n + 1) (sym e ∙ s))), h.0),
  Differs-checks_from number (n + 1) revision c gs e (omega arith) h.1,
)

AllDiffer-checks_from :
    (n revision : ℕ) (gs : List Group) → IsGrouping gs → AllDiffer (checks_from n revision gs)
unfolding checks_from check_of
AllDiffer-checks_from n revision [] h = tt
AllDiffer-checks_from n revision ((c, rs) ∷ gs) h = (
  Differs-checks_from (n + 1) (n + 1) revision (check_of (n + 1) revision (c, rs)) gs refl
      (omega arith) h.0,
  AllDiffer-checks_from (n + 1) revision gs h.1,
)

-- Every two checks of a plan differ in their identifiers and in their contracts: requirements with
-- the same contract share one check.
pub plan_of-AllDiffer :
    (requirements : TaskRequirements) (revision : ℕ)
    → AllDiffer (plan_of requirements revision).checks
unfolding plan_of
plan_of-AllDiffer requirements revision =
    AllDiffer-checks_from 0 revision (group_from [] requirements.items)
      (IsGrouping-group_from [] requirements.items tt)
