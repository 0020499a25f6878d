-- ===== src/Safety/Rules.antt =====
-- What the safety policy of minicodex/agent/safety/safety.py works with: decisions, arguments, tables, and the
-- cutting of commands. The reason of a decision, a text that its rule and its tool determine, is left out.
use mini_codex.Common.{
  Bool, true, false, ◌&&◌, ◌||◌, Option, none, some, List, [], ◌∷◌, ◌++◌, Text, codes, same,
  is_empty, is_space, any, ◌==◌, if◌then◌else◌,
}
use mini_codex.Validation.Regression.{starts_with}

pub data SafetyLevel : Type 0 where
  safe caution blocked : SafetyLevel

pub data InterventionCategory : Type 0 where
  autonomous approval clarification : InterventionCategory

pub data PermissionMode : Type 0 where
  auto review read_only : PermissionMode

pub data Rule : Type 0 where
  dependency_forbidden dependency_install default_safe task_no_edit_constraint : Rule
  defer_missing_path anti_test_gaming protected_runtime_state protected_generated_path : Rule
  workspace_escape git_metadata_protection preexisting_user_change git_conflict : Rule
  workspace_edit defer_missing_command empty_command checkpoint_bypass_heredoc : Rule
  checkpoint_bypass_inline_write checkpoint_bypass_redirection raw_disk_write : Rule
  sed_in_place perl_in_place network_access command_safe git_mutation : Rule
  git_reference_mutation destructive_rm privilege_escalation system_shutdown : Rule
  disk_operation ownership_change process_termination direct_file_mutation tee_write : Rule

pub record SafetyDecision : Type 0 where
  pub level : SafetyLevel
  pub allowed : Bool
  pub rule : Rule
  pub tool_name : Text
  pub path : Option Text
  pub command : Option Text

abbrev pub requires_attention : SafetyDecision → Bool
requires_attention d = elim (d.level) [ caution ↦ true | _ ↦ false ]

unfoldable pub intervention : SafetyDecision → InterventionCategory
intervention d =
    if d.allowed then (if requires_attention d then approval else autonomous) else elim (d.rule) [
      | task_no_edit_constraint ↦ clarification
      | dependency_forbidden ↦ clarification
      | _ ↦ approval
    ]

-- The entries of the arguments that are read, as `str` gives them.
pub record Arguments : Type 0 where
  pub path : Option Text
  pub command : Option Text
  pub content : Option Text
  pub new_text : Option Text
  pub replacement : Option Text
  pub argv : List Text

-- What `(workspace / path).resolve().relative_to(workspace)` gives.
pub data Resolved : Type 0 where
  unresolved outside : Resolved
  within : Text → Resolved

-- The functions of the standard library, and the searches for the regular expressions of the class.
pub record Library : Type 0 where
  pub lower : Text → Text
  pub casefold : Text → Text
  pub path_name : Text → Text
  pub shlex_split : Text → Option (List Text)
  pub resolve : Text → Resolved
  pub is_heredoc : Text → Bool
  pub is_inline_write : Text → Bool
  pub is_raw_disk_write : Text → Bool
  pub is_sed_in_place : Text → Bool
  pub is_perl_in_place : Text → Bool
  pub is_package_install : Text → Bool
  pub is_test_path : Text → Bool
  pub weakens_tests : Text → Bool
  pub has_global_no_edit_constraint : Text → Bool
  pub asks_for_tests : Text → Bool
  pub asks_to_drop_tests : Text → Bool
  pub forbids_dependencies : Text → Bool

-- The policy, with the files that Git awareness reports (none where there is no awareness).
pub record SafetyPolicy : Type 0 where
  pub edits_authorized : Bool
  pub test_changes_authorized : Bool
  pub test_contract_change_authorized : Bool
  pub user_request : Text
  pub dependencies_authorized : Bool
  pub baseline_changed_files : List Text
  pub current_conflicted_files : List Text

abbrev pub edit_tool_names : List Text
edit_tool_names =
    codes "patch_file" ∷ codes "replace_lines" ∷ codes "replace_symbol" ∷ codes "write_file" ∷ []

abbrev pub is_edit_tool_name : Text → Bool
is_edit_tool_name name = any (same name) edit_tool_names

abbrev pub rule_of : List (Text × Rule) → Text → Option Rule
rule_of [] name = none
rule_of ((n, r) ∷ rules) name = if same n name then some r else rule_of rules name

abbrev pub blocked_executables : List (Text × Rule)
blocked_executables =
    (codes "rm", destructive_rm)
    ∷ (codes "sudo", privilege_escalation)
    ∷ (codes "shutdown", system_shutdown)
    ∷ (codes "reboot", system_shutdown)
    ∷ (codes "poweroff", system_shutdown)
    ∷ (codes "halt", system_shutdown)
    ∷ (codes "mkfs", disk_operation)
    ∷ (codes "fdisk", disk_operation)
    ∷ (codes "parted", disk_operation)
    ∷ (codes "chmod", ownership_change)
    ∷ (codes "chown", ownership_change)
    ∷ (codes "chgrp", ownership_change)
    ∷ (codes "kill", process_termination)
    ∷ (codes "killall", process_termination)
    ∷ (codes "pkill", process_termination)
    ∷ (codes "mv", direct_file_mutation)
    ∷ (codes "cp", direct_file_mutation)
    ∷ (codes "touch", direct_file_mutation)
    ∷ (codes "truncate", direct_file_mutation)
    ∷ (codes "mkdir", direct_file_mutation)
    ∷ (codes "rmdir", direct_file_mutation)
    ∷ (codes "ln", direct_file_mutation)
    ∷ (codes "tee", tee_write)
    ∷ []

abbrev pub network_executables : List Text
network_executables = codes "curl" ∷ codes "wget" ∷ []

abbrev pub git_mutating_subcommands : List Text
git_mutating_subcommands =
    codes "add"
    ∷ codes "commit"
    ∷ codes "reset"
    ∷ codes "clean"
    ∷ codes "checkout"
    ∷ codes "restore"
    ∷ codes "stash"
    ∷ codes "switch"
    ∷ codes "merge"
    ∷ codes "rebase"
    ∷ codes "cherry-pick"
    ∷ codes "revert"
    ∷ codes "push"
    ∷ codes "pull"
    ∷ []

abbrev pub protected_roots : List Text
protected_roots =
    codes ".venv"
    ∷ codes "venv"
    ∷ codes "node_modules"
    ∷ codes "vendor"
    ∷ codes "dist"
    ∷ codes "build"
    ∷ codes "__pycache__"
    ∷ codes ".pytest_cache"
    ∷ codes ".mypy_cache"
    ∷ codes ".ruff_cache"
    ∷ []

abbrev pub decided : SafetyLevel → Bool → Rule → Text → SafetyDecision
decided level allowed rule name = record {
  level = level;
  allowed = allowed;
  rule = rule;
  tool_name = name;
  path = none;
  command = none;
}

abbrev pub decided_path : SafetyLevel → Bool → Rule → Text → Text → SafetyDecision
decided_path level allowed rule name path = record (decided level allowed rule name) {
  path = some path;
}

abbrev pub decided_command : SafetyLevel → Bool → Rule → Text → Text → SafetyDecision
decided_command level allowed rule name command = record (decided level allowed rule name) {
  command = some command;
}

-- `normalized.split("/", 1)[0]`
unfoldable pub first_part : Text → Text
first_part [] = []
first_part (c ∷ s) = if c == b'/' then [] else c ∷ first_part s

-- `text.split()`, with the word that has been begun
unfoldable pub words : Text → Text → List Text
words w [] = if is_empty w then [] else w ∷ []
words w (c ∷ s) =
    let ended = words [] s in
    let longer = words (w ++ c ∷ []) s in
    if is_space c then (if is_empty w then ended else w ∷ ended) else longer

-- `re.split(r"(?:&&|\|\||[;|])", command)`, with the segment that has been begun
unfoldable pub split_segments : Text → Text → List Text
split_segments w [] = w ∷ []
split_segments w (c ∷ []) = if c == b';' || c == b'|' then w ∷ [] ∷ [] else (w ++ c ∷ []) ∷ []
split_segments w (c ∷ d ∷ s) =
    let after_pair = split_segments [] s in
    let after_one = split_segments [] (d ∷ s) in
    let longer = split_segments (w ++ c ∷ []) (d ∷ s) in
    if (c == b'&' && d == b'&') || (c == b'|' && d == b'|')
    then w ∷ after_pair
    else if c == b';' || c == b'|'
    then w ∷ after_one
    else longer

-- The arguments of git from the subcommand on.
unfoldable pub skip_options : List Text → List Text
skip_options [] = []
skip_options (t ∷ []) = if starts_with (codes "-") t then [] else t ∷ []
skip_options (t ∷ u ∷ ts) =
    let after_two = skip_options ts in
    let after_one = skip_options (u ∷ ts) in
    if same t (codes "-C")
    then after_two
    else if starts_with (codes "-") t
    then after_one
    else t ∷ u ∷ ts

abbrev pub destructive : List Text
destructive =
    codes "-d" ∷ codes "-D" ∷ codes "-m" ∷ codes "-M" ∷ codes "--delete" ∷ codes "--move" ∷ []

abbrev pub is_in : List Text → Text → Bool
is_in names t = any (same t) names
