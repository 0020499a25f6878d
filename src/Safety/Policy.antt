-- ===== src/Safety/Policy.antt =====
-- The safety policy: the assessments of minicodex/agent/safety/safety.py.
pub mod Edits
pub mod Commands
use mini_codex.Common.{
  ℕ, suc, Bool, true, false, not, ◌&&◌, ◌||◌, Option, none, some, List, [], ◌∷◌, ◌++◌, Text, codes,
  same, strip, is_empty, is_space, any, drop, get_or, ◌==◌, if◌then◌else◌,
}
use mini_codex.Validation.Regression.{starts_with, contains}
use mini_codex.Safety.Rules.{
  Arguments, InterventionCategory, Library, PermissionMode, Resolved, Rule, SafetyDecision,
  SafetyLevel, SafetyPolicy, anti_test_gaming, approval, auto, autonomous, blocked,
  blocked_executables, caution, checkpoint_bypass_heredoc, checkpoint_bypass_inline_write,
  checkpoint_bypass_redirection, clarification, command_safe, decided, decided_command,
  decided_path, default_safe, defer_missing_command, defer_missing_path, dependency_forbidden,
  dependency_install, destructive, destructive_rm, direct_file_mutation, disk_operation,
  edit_tool_names, empty_command, first_part, git_conflict, git_metadata_protection,
  git_mutating_subcommands, git_mutation, git_reference_mutation, intervention, is_edit_tool_name,
  is_in, network_access, network_executables, outside, ownership_change, perl_in_place,
  preexisting_user_change, privilege_escalation, process_termination, protected_generated_path,
  protected_roots, protected_runtime_state, raw_disk_write, read_only, requires_attention, review,
  rule_of, safe, sed_in_place, skip_options, split_segments, system_shutdown,
  task_no_edit_constraint, tee_write, unresolved, within, words, workspace_edit, workspace_escape,
}
use mini_codex.Safety.Redirection.{contains_unsafe_redirection}

module _ (lib : Library) where
  unfoldable pub begin_task : Text → Bool → SafetyPolicy → SafetyPolicy
  begin_task request routed_to_modify p = record p {
    user_request = request;
    edits_authorized = not (lib.has_global_no_edit_constraint request) && routed_to_modify;
    test_changes_authorized = lib.asks_for_tests request;
    test_contract_change_authorized = lib.asks_to_drop_tests request;
    dependencies_authorized = not (lib.forbids_dependencies request);
  }

  -- The tokens of a segment: `shlex.split`, or words where it raises.
  unfoldable pub tokens_of : Text → List Text
  unfolding words
  tokens_of text = elim (lib.shlex_split text) [ none ↦ words [] text | some ts ↦ ts ]

  unfoldable pub tokenized : List Text → List (List Text)
  unfolding tokens_of
  tokenized [] = []
  tokenized (raw ∷ raws) =
      let rest = tokenized raws in
      let text = strip raw in
      if is_empty text then rest else elim (tokens_of text) [ [] ↦ rest | t ∷ ts ↦ (t ∷ ts) ∷ rest ]

  unfoldable pub command_segments : Text → List (List Text)
  unfolding tokenized split_segments
  command_segments command = tokenized (split_segments [] command)

  unfoldable pub executable_name : Text → Text
  executable_name t = lib.lower (lib.path_name t)

  unfoldable pub assess_git_tokens : Text → Text → List Text → Option SafetyDecision
  unfolding skip_options
  assess_git_tokens name command tokens = elim (skip_options (drop 1 tokens)) [
    | [] ↦ none
    | t ∷ remaining ↦
        let subcommand = lib.lower t in
        if is_in git_mutating_subcommands subcommand
        then some (decided_command blocked false git_mutation name command)
        else if same subcommand (codes "branch") && any (is_in destructive) remaining
        then some (decided_command blocked false git_reference_mutation name command)
        else if same subcommand (codes "tag")
            && any (is_in (codes "-d" ∷ codes "--delete" ∷ [])) remaining
        then some (decided_command blocked false git_reference_mutation name command)
        else none
  ]

  -- One round of the loop over the segments: a decision, or none to go on.
  unfoldable pub assess_segment : Text → Text → List Text → Option SafetyDecision
  unfolding executable_name assess_git_tokens
  assess_segment name command [] = none
  assess_segment name command (t ∷ ts) =
      let executable = executable_name t in
      elim (rule_of blocked_executables executable) [
        | some rule ↦ some (decided_command blocked false rule name command)
        | none ↦
            let git = assess_git_tokens name command (t ∷ ts) in
            let network = some (decided_command caution true network_access name command) in
            if same executable (codes "git")
            then git
            else if is_in network_executables executable
            then network
            else none
      ]

  unfoldable pub assess_segments : Text → Text → List (List Text) → Option SafetyDecision
  assess_segments name command [] = none
  assess_segments name command (s ∷ ss) = elim (assess_segment name command s) [
    | some d ↦ some d
    | none ↦ assess_segments name command ss
  ]

  -- The guards on the whole command, in their order.
  unfoldable pub command_guard : Text → Option Rule
  command_guard command =
      if lib.is_heredoc command
      then some checkpoint_bypass_heredoc
      else if lib.is_inline_write command
      then some checkpoint_bypass_inline_write
      else if contains_unsafe_redirection command
      then some checkpoint_bypass_redirection
      else if lib.is_raw_disk_write command
      then some raw_disk_write
      else if lib.is_sed_in_place command
      then some sed_in_place
      else if lib.is_perl_in_place command
      then some perl_in_place
      else none

  unfoldable pub assess_whole : Text → Text → SafetyDecision
  unfolding command_guard assess_segments command_segments
  assess_whole name command = elim (command_guard command) [
    | some rule ↦ decided_command blocked false rule name command
    | none ↦ elim (assess_segments name command (command_segments command)) [
      | some d ↦ d
      | none ↦
          if lib.is_package_install command
          then decided_command caution true dependency_install name command
          else decided_command safe true command_safe name command
    ]
  ]

  unfoldable pub assess_command : Text → Arguments → SafetyDecision
  unfolding assess_whole
  assess_command name arguments = elim (arguments.command) [
    | none ↦ decided safe true defer_missing_command name
    | some raw ↦
        let command = strip raw in
        let whole = assess_whole name command in
        if is_empty command then decided_command safe true empty_command name command else whole
  ]

  unfoldable pub test_gaming_attempt : SafetyPolicy → Option Text → Arguments → Bool
  test_gaming_attempt p none arguments = false
  test_gaming_attempt p (some path) arguments =
      let candidate =
        get_or arguments.content []
        ++ 10 ∷ get_or arguments.new_text []
        ++ 10 ∷ get_or arguments.replacement [] in
      if is_empty path || not (lib.is_test_path path)
      then false
      else if lib.weakens_tests candidate
      then not p.test_contract_change_authorized
      else elim (arguments.content) [ some [] ↦ true | _ ↦ false ]

  -- An edit whose path is in the workspace.
  unfoldable pub assess_within : SafetyPolicy → Text → Text → Arguments → SafetyDecision
  unfolding test_gaming_attempt first_part
  assess_within p name path arguments =
      let root = first_part path in
      if test_gaming_attempt p (some path) arguments
      then decided_path blocked false anti_test_gaming name path
      else if same root (codes ".minicodex")
      then decided_path blocked false protected_runtime_state name path
      else if is_in protected_roots root
          && not (contains (lib.casefold path) (lib.casefold p.user_request))
      then decided_path blocked false protected_generated_path name path
      else if same path (codes ".git") || starts_with (codes ".git/") path
      then decided_path blocked false git_metadata_protection name path
      else if is_in p.baseline_changed_files path
      then decided_path caution true preexisting_user_change name path
      else if is_in p.current_conflicted_files path
      then decided_path caution true git_conflict name path
      else decided_path safe true workspace_edit name path

  -- `none` where the resolution of the path raises.
  unfoldable pub assess_edit : SafetyPolicy → Text → Arguments → Option SafetyDecision
  unfolding assess_within
  assess_edit p name arguments =
      let raw_path = strip (get_or arguments.path []) in
      if not p.edits_authorized
      then some (decided blocked false task_no_edit_constraint name)
      else if is_empty raw_path
      then some (decided safe true defer_missing_path name)
      else elim (lib.resolve raw_path) [
        | unresolved ↦ none
        | outside ↦ some (decided_path blocked false workspace_escape name raw_path)
        | within path ↦ some (assess_within p name path arguments)
      ]

  unfoldable pub assess : SafetyPolicy → Text → Arguments → Option SafetyDecision
  unfolding assess_command assess_edit
  assess p name arguments =
      if same name (codes "install_python_package")
      then (if p.dependencies_authorized
          then some (decided caution true dependency_install name)
          else some (decided blocked false dependency_forbidden name))
      else if same name (codes "run_command")
      then some (assess_command name arguments)
      else if is_edit_tool_name name
      then assess_edit p name arguments
      else some (decided safe true default_safe name)
