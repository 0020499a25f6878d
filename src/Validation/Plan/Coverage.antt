-- ===== src/Validation/Plan/Coverage.antt =====
-- Which checks the planner (minicodex/agent/validation/plan.py) makes of the requirements.
use mathlib.Core.Logic.{ite}
use mathlib.Core.List.{Memᴰ}
use mini_codex.Common.{ℕ, ◌+◌, ◌≡◌, ◌⊎◌, inl, inr, refl, ap, true, List, [], ◌∷◌, ◌++◌, map}
use mini_codex.Common.Searches.{mem_append_left, mem_append_last}
use mini_codex.Validation.Contracts.{VerificationContract, VerificationContract-discrete}
use mini_codex.Validation.Plan.{
  TaskRequirement, TaskRequirements, ValidationCheck, Group, add_to_group, group_from, check_of,
  checks_from, plan_of,
}

-- Some group has the requirement's contract and holds the requirement.
abbrev IsGrouped : TaskRequirement → List Group → Type 0
IsGrouped r [] = ⊥
IsGrouped r ((c, rs) ∷ gs) = ((c ≡ r.contract) × Memᴰ r rs) ⊎ IsGrouped r gs

IsGrouped-added :
    (r : TaskRequirement) (c : VerificationContract) (rs : List TaskRequirement)
    (gs rest : List Group) (d : Dec (c ≡ r.contract))
    → IsGrouped r rest
    → IsGrouped r (ite d ((c, rs ++ r ∷ []) ∷ gs) ((c, rs) ∷ rest))
IsGrouped-added r c rs gs rest (yes e) h = inl (e, mem_append_last r rs)
IsGrouped-added r c rs gs rest (no ne) h = inr h

IsGrouped-add_to_group : (r : TaskRequirement) (gs : List Group) → IsGrouped r (add_to_group r gs)
unfolding add_to_group
IsGrouped-add_to_group r [] = inl (refl, Memᴰ.head refl)
IsGrouped-add_to_group r ((c, rs) ∷ gs) =
    IsGrouped-added r c rs gs (add_to_group r gs) (VerificationContract-discrete c r.contract)
      (IsGrouped-add_to_group r gs)

IsGrouped-kept :
    (r s : TaskRequirement) (c : VerificationContract) (rs : List TaskRequirement)
    (gs rest : List Group) (d : Dec (c ≡ s.contract))
    → (IsGrouped r gs → IsGrouped r rest)
    → IsGrouped r ((c, rs) ∷ gs)
    → IsGrouped r (ite d ((c, rs ++ s ∷ []) ∷ gs) ((c, rs) ∷ rest))
IsGrouped-kept r s c rs gs rest (yes e) k (inl (own, m)) =
    inl (own, mem_append_left r rs (s ∷ []) m)
IsGrouped-kept r s c rs gs rest (yes e) k (inr h) = inr h
IsGrouped-kept r s c rs gs rest (no ne) k (inl h) = inl h
IsGrouped-kept r s c rs gs rest (no ne) k (inr h) = inr (k h)

IsGrouped-step :
    (r s : TaskRequirement) (gs : List Group) → IsGrouped r gs → IsGrouped r (add_to_group s gs)
unfolding add_to_group
IsGrouped-step r s [] h = absurd h
IsGrouped-step r s ((c, rs) ∷ gs) h =
    IsGrouped-kept r s c rs gs (add_to_group s gs) (VerificationContract-discrete c s.contract)
      (IsGrouped-step r s gs) h

IsGrouped-steps :
    (r : TaskRequirement) (gs : List Group) (rs : List TaskRequirement)
    → IsGrouped r gs
    → IsGrouped r (group_from gs rs)
unfolding group_from
IsGrouped-steps r gs [] h = h
IsGrouped-steps r gs (s ∷ rs) h = IsGrouped-steps r (add_to_group s gs) rs (IsGrouped-step r s gs h)

IsGrouped-group_from :
    (r : TaskRequirement) (gs : List Group) (rs : List TaskRequirement)
    → Memᴰ r rs
    → IsGrouped r (group_from gs rs)
unfolding group_from
IsGrouped-group_from r gs [] m = elim m [ ]
IsGrouped-group_from r gs (s ∷ rs) (Memᴰ.head e) =
    IsGrouped-steps r (add_to_group s gs) rs (rw (← e) (IsGrouped-add_to_group r gs))
IsGrouped-group_from r gs (s ∷ rs) (Memᴰ.tail t) = IsGrouped-group_from r (add_to_group s gs) rs t

-- Some check has the requirement's contract, is required, and names the requirement.
pub record IsChecked (r : TaskRequirement) (cs : List ValidationCheck) : Type 0 where
  pub check : ValidationCheck
  pub planned : Memᴰ check cs
  pub own_contract : check.contract ≡ r.contract
  pub is_required : check.required ≡ true
  pub named : Memᴰ r.id check.requirement_ids

mem_ids :
    (r : TaskRequirement) (rs : List TaskRequirement) → Memᴰ r rs → Memᴰ r.id (map (λ x. x.id) rs)
mem_ids r [] m = elim m [ ]
mem_ids r (s ∷ rs) (Memᴰ.head e) = Memᴰ.head (ap (λ x. x.id) e)
mem_ids r (s ∷ rs) (Memᴰ.tail t) = Memᴰ.tail (mem_ids r rs t)

IsChecked-checks_from :
    (r : TaskRequirement) (n revision : ℕ) (gs : List Group)
    → IsGrouped r gs
    → IsChecked r (checks_from n revision gs)
unfolding checks_from check_of
IsChecked-checks_from r n revision [] h = absurd h
IsChecked-checks_from r n revision ((c, rs) ∷ gs) (inl (own, m)) = record {
  check = check_of (n + 1) revision (c, rs);
  planned = Memᴰ.head refl;
  own_contract = own;
  is_required = refl;
  named = mem_ids r rs m;
}
IsChecked-checks_from r n revision ((c, rs) ∷ gs) (inr h) =
    let k = IsChecked-checks_from r (n + 1) revision gs h in
    record {
      check = k.check;
      planned = Memᴰ.tail k.planned;
      own_contract = k.own_contract;
      is_required = k.is_required;
      named = k.named;
    }

-- Every requirement of the task has a required check in the plan, with the requirement's contract,
-- that names the requirement.
pub plan_of-IsChecked :
    (requirements : TaskRequirements) (revision : ℕ) (r : TaskRequirement)
    → Memᴰ r requirements.items
    → IsChecked r (plan_of requirements revision).checks
unfolding plan_of
plan_of-IsChecked requirements revision r m =
    IsChecked-checks_from r 0 revision (group_from [] requirements.items)
      (IsGrouped-group_from r [] requirements.items m)
