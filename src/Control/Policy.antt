-- ===== src/Control/Policy.antt =====
-- minicodex/agent/routing/execution_policy.py
use mini_codex.Common.{ℕ, Bool, true, false, Option, none, some, List, [], ◌∷◌, ◌++◌, Text, codes}
use mini_codex.Validation.Regression.{
  ExecutionMode, fast, standard, complex, RegressionRequirement, required, not_applicable,
  relevant_only,
}

pub data RefreshPolicy : Type 0 where
  task_start_and_after_edit revision_cached : RefreshPolicy

-- `exposed_tool_names` is `none` where every tool is exposed.
pub record ExecutionPolicy : Type 0 where
  pub mode : ExecutionMode
  pub use_plan : Bool
  pub max_steps : ℕ
  pub max_plan_steps : ℕ
  pub max_inspection_calls : Option ℕ
  pub max_no_progress_steps : ℕ
  pub require_acceptance : Bool
  pub regression_requirement : RegressionRequirement
  pub enable_long_term_memory : Bool
  pub enable_heavy_recovery : Bool
  pub enable_replan : Bool
  pub repo_map_refresh_policy : RefreshPolicy
  pub finalization_threshold : ℕ
  pub compact_context : Bool
  pub exposed_tool_names : Option (List Text)
  pub max_replans : ℕ

abbrev fast_tool_names : List Text
fast_tool_names =
    codes "list_files"
    ∷ codes "read_file"
    ∷ codes "search_code"
    ∷ codes "search_symbol"
    ∷ codes "write_file"
    ∷ codes "patch_file"
    ∷ codes "replace_lines"
    ∷ codes "replace_symbol"
    ∷ codes "validate_static_web"
    ∷ codes "validate_browser_app"
    ∷ codes "validate_service"
    ∷ codes "run_tests"
    ∷ codes "run_command"
    ∷ codes "install_python_package"
    ∷ codes "git_diff"
    ∷ []

abbrev fast_policy : ExecutionPolicy
fast_policy = record {
  mode = fast;
  use_plan = false;
  max_steps = 8;
  max_plan_steps = 0;
  max_inspection_calls = some 3;
  max_no_progress_steps = 3;
  require_acceptance = true;
  regression_requirement = not_applicable;
  enable_long_term_memory = false;
  enable_heavy_recovery = false;
  enable_replan = false;
  repo_map_refresh_policy = task_start_and_after_edit;
  finalization_threshold = 2;
  compact_context = true;
  exposed_tool_names = some fast_tool_names;
  max_replans = 0;
}

abbrev standard_policy : ExecutionPolicy
standard_policy = record {
  mode = standard;
  use_plan = true;
  max_steps = 12;
  max_plan_steps = 4;
  max_inspection_calls = some 4;
  max_no_progress_steps = 4;
  require_acceptance = true;
  regression_requirement = relevant_only;
  enable_long_term_memory = false;
  enable_heavy_recovery = true;
  enable_replan = true;
  repo_map_refresh_policy = revision_cached;
  finalization_threshold = 3;
  compact_context = false;
  exposed_tool_names = none;
  max_replans = 1;
}

abbrev complex_policy : ExecutionPolicy
complex_policy = record {
  mode = complex;
  use_plan = true;
  max_steps = 24;
  max_plan_steps = 6;
  max_inspection_calls = some 6;
  max_no_progress_steps = 5;
  require_acceptance = true;
  regression_requirement = required;
  enable_long_term_memory = true;
  enable_heavy_recovery = true;
  enable_replan = true;
  repo_map_refresh_policy = revision_cached;
  finalization_threshold = 3;
  compact_context = false;
  exposed_tool_names = none;
  max_replans = 2;
}

-- `needs_plan` is `none` for None.
unfoldable pub policy_for : ExecutionMode → Option Bool → ExecutionPolicy
policy_for fast (some true) = record fast_policy {
  use_plan = true;
  max_plan_steps = 3;
  enable_replan = true;
  exposed_tool_names = some (fast_tool_names ++ codes "replan" ∷ []);
  max_replans = 1;
}
policy_for fast _ = fast_policy
policy_for standard (some false) = record standard_policy { use_plan = false }
policy_for standard _ = standard_policy
policy_for complex (some false) = record complex_policy { use_plan = false }
policy_for complex _ = complex_policy
