-- ===== src/Task/WorkUnit.antt =====
-- minicodex/agent/editing/work_unit.py: a bounded group of edits with its milestone.
use mini_codex.Common.{
  ℕ, ◌+◌, Bool, true, false, not, ◌&&◌, ◌||◌, List, [], ◌∷◌, ◌++◌, Text, same, leb, ltb, any,
  length, if◌then◌else◌,
}
use mini_codex.Common.Int.{ℤ}

pub data WorkUnitStatus : Type 0 where
  open_unit ready_for_validation validating completed failed_unit : WorkUnitStatus

-- `id` is "W" with the revision of the first edit.
pub record WorkUnit : Type 0 where
  pub id : ℤ
  pub requirement_ids : List Text
  pub intended_paths : List Text
  pub start_revision : ℤ
  pub milestone_check_ids : List Text
  pub edited_paths : List Text
  pub edits : ℕ
  pub edit_budget : ℕ
  pub status : WorkUnitStatus

abbrev pub default_edit_budget : ℕ
default_edit_budget = 8

abbrev pub is_closed_status : WorkUnitStatus → Bool
is_closed_status completed = true
is_closed_status failed_unit = true
is_closed_status _ = false

abbrev is_ready_status : WorkUnitStatus → Bool
is_ready_status ready_for_validation = true
is_ready_status _ = false

unfoldable pub closed : WorkUnit → Bool
closed u = is_closed_status u.status

unfoldable pub milestone_due : WorkUnit → Bool
milestone_due u = is_ready_status u.status || leb u.edit_budget u.edits

unfoldable pub permits_intermediate_syntax : WorkUnit → Bool
unfolding closed milestone_due
permits_intermediate_syntax u =
    not (closed u) && (ltb 1 (length u.intended_paths) && not (milestone_due u))

-- `tuple(dict.fromkeys((*paths, path)))`, where `paths` has no duplicates.
unfoldable pub add_path : List Text → Text → List Text
add_path paths path = if any (same path) paths then paths else paths ++ path ∷ []

unfoldable pub unit_record_edit : Text → WorkUnit → WorkUnit
unit_record_edit path u = record u {
  edits = u.edits + 1;
  edited_paths = add_path u.edited_paths path;
  status = if leb u.edit_budget (u.edits + 1) then ready_for_validation else open_unit;
}

unfoldable pub begin_validation : WorkUnit → WorkUnit
begin_validation u = record u { status = validating }

unfoldable pub resolve_milestone : Bool → Bool → WorkUnit → WorkUnit
resolve_milestone passed all_resolved u =
    if all_resolved
    then record u { status = completed }
    else record u { status = if not passed then failed_unit else ready_for_validation }
