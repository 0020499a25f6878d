-- ===== src/Validation/Evidence.antt =====
-- minicodex/agent/validation/evidence.py: one observation of a validator.
use mini_codex.Common.{
  ℕ, String, Bool, true, false, not, ◌&&◌, Option, List, [], ◌∷◌, ◌++◌, map, Text, codes, str_eq,
  is_space, is_empty, ◌==◌, get_or, if◌then◌else◌, null,
}

pub data ValidationOutcome : Type 0 where
  passed failed inconclusive : ValidationOutcome

pub data ExecutionStatus : Type 0 where
  executed blocked invalid_arguments unavailable timeout crashed : ExecutionStatus

pub data ValidationScope : Type 0 where
  targeted full unknown : ValidationScope

pub data ValidationPurpose : Type 0 where
  acceptance regression : ValidationPurpose

pub data FailureDelta : Type 0 where
  pre_existing_failure new_failure resolved_failure persisting_failure unknown_delta : FailureDelta

pub data ValidationNextAction : Type 0 where
  no_action fix_failure run_acceptance_validation run_full_validation : ValidationNextAction
  run_check investigate_inconclusive task_validated : ValidationNextAction

-- `==` on the enumerations.
abbrev pub is_executed : ExecutionStatus → Bool
is_executed executed = true
is_executed _ = false

abbrev pub is_passed : ValidationOutcome → Bool
is_passed passed = true
is_passed _ = false

abbrev pub is_failed : ValidationOutcome → Bool
is_failed failed = true
is_failed _ = false

abbrev pub is_inconclusive : ValidationOutcome → Bool
is_inconclusive inconclusive = true
is_inconclusive _ = false

-- `outcome in {PASSED, FAILED}`
abbrev pub is_decisive : ValidationOutcome → Bool
is_decisive inconclusive = false
is_decisive _ = true

abbrev pub same_outcome : ValidationOutcome → ValidationOutcome → Bool
same_outcome passed passed = true
same_outcome failed failed = true
same_outcome inconclusive inconclusive = true
same_outcome _ _ = false

abbrev pub is_acceptance_purpose : ValidationPurpose → Bool
is_acceptance_purpose acceptance = true
is_acceptance_purpose regression = false

abbrev pub is_regression_purpose : ValidationPurpose → Bool
is_regression_purpose acceptance = false
is_regression_purpose regression = true

abbrev pub same_purpose : ValidationPurpose → ValidationPurpose → Bool
same_purpose acceptance acceptance = true
same_purpose regression regression = true
same_purpose _ _ = false

-- `FailureComparison` with its `primary` verdict.
pub record FailureComparison : Type 0 where
  pub new : List Text
  pub resolved : List Text
  pub persisting : List Text

unfoldable pub primary : FailureComparison → FailureDelta
primary c =
    if not (null c.new)
    then new_failure
    else if not (null c.resolved)
    then resolved_failure
    else if not (null c.persisting)
    then persisting_failure
    else unknown_delta

-- The counters of the test run are only reported, and `details` is read for one entry,
-- `target_identity` ("" where it is absent).
pub record ValidationEvidence : Type 0 where
  pub tool_name : String
  pub execution_succeeded : Bool
  pub outcome : ValidationOutcome
  pub scope : ValidationScope
  pub purpose : ValidationPurpose
  pub edit_revision : ℕ
  pub check_id : Text
  pub requirement_ids : List Text
  pub strength : ℕ
  pub agent_test_only : Bool
  pub path : Option Text
  pub summary : String
  pub target_identity : Text
  pub failure_ids : List Text
  pub unstable : Bool
  pub environment_failure : Bool
  pub execution_status : ExecutionStatus

-- `__post_init__`, which `replace` runs again.
unfoldable pub post_init : ValidationEvidence → ValidationEvidence
post_init e =
    if not e.execution_succeeded && is_executed e.execution_status
    then record e { execution_status = crashed }
    else e

unfoldable pub target : ValidationEvidence → Text
target e = if is_empty e.target_identity then get_or e.path [] else e.target_identity

abbrev purpose_value : ValidationPurpose → Text
purpose_value acceptance = codes "acceptance"
purpose_value regression = codes "regression"

abbrev scope_value : ValidationScope → Text
scope_value targeted = codes "targeted"
scope_value full = codes "full"
scope_value unknown = codes "unknown"

-- `" ".join(text.split())`; `gap` says that white space was read since the last word.
unfoldable pub join_words : Bool → Bool → Text → Text
join_words started gap [] = []
join_words started gap (c ∷ s) =
    if is_space c
    then join_words started true s
    else if started && gap
    then b' ' ∷ c ∷ join_words true false s
    else c ∷ join_words true false s

-- `while normalized.startswith("./"): normalized = normalized[2:]`
unfoldable pub strip_dot_slash : Text → Text
strip_dot_slash (a ∷ b ∷ s) =
    let rest = strip_dot_slash s in if a == b'.' && b == b'/' then rest else a ∷ b ∷ s
strip_dot_slash s = s

unfoldable pub normalize_target : String → Text → Text
unfolding join_words strip_dot_slash
normalize_target tool t =
    let words = join_words false false t in
    if str_eq tool "run_command"
    then words
    else strip_dot_slash (map (λ c. if c == 92 then b'/' else c) words)

unfoldable pub validation_key : ValidationEvidence → Text
unfolding normalize_target target
validation_key e =
    codes e.tool_name
    ++ (b'|' ∷ purpose_value e.purpose)
    ++ (b'|' ∷ scope_value e.scope)
    ++ (b'|' ∷ normalize_target e.tool_name (target e))
