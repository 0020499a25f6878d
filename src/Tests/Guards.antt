-- ===== src/Tests/Guards.antt =====
-- Runs of the safety policy and of its boundary (minicodex/agent/safety/).
use mini_codex.Common.{
  ℕ, suc, ◌==◌, ◌≡◌, refl, inr, Bool, true, false, not, ◌&&◌, ◌||◌, none, some, [], ◌∷◌, ◌++◌, Text,
  codes, same, strip, lstrip, is_empty, if◌then◌else◌,
}
use mini_codex.Validation.Regression.{starts_with}
use mini_codex.Safety.Redirection.{
  contains_unsafe_redirection, step, extract_command_substitution, lexeme, redirect, is_safe_target,
  target_of, after_target, scan_from,
}
use mini_codex.Safety.Redirection.Writes.{contains_unsafe_redirection-arrow, arrow, dev_null}
use mini_codex.Safety.Rules.{
  Arguments, Library, SafetyPolicy, within, outside, auto, review, words, skip_options,
}
use mini_codex.Safety.Policy.{
  assess_command, assess_edit, command_guard, command_segments, assess_segments, assess_segment,
  executable_name,
}
use mini_codex.Safety.Policy.Edits.{passes, is_open_to, passes-assess_edit}
use mini_codex.Safety.Policy.Commands.{is_open_command, assess_command-allowed}
use mini_codex.Safety.Executor.{
  PreparedToolCall, Boundary, assessed_as, execute_prepared, decision_of,
}
use mini_codex.Safety.Executor.Gate.{
  reached, is_permitted, Gated, execute_prepared-Gated, execute_prepared-refused,
}

-- The last part of a path.
last_part : Text → Text → Text
last_part w [] = w
last_part w (c ∷ s) = last_part (if c == b'/' then [] else w ++ c ∷ []) s

-- Paths that climb are outside, no text matches an expression, and words are split at white space.
abbrev plain_library : Library
plain_library = record {
  lower = λ t. t;
  casefold = λ t. t;
  path_name = last_part [];
  shlex_split = λ t. some (words [] t);
  resolve = λ t. if starts_with (codes "..") t then outside else within t;
  is_heredoc = λ t. false;
  is_inline_write = λ t. false;
  is_raw_disk_write = λ t. false;
  is_sed_in_place = λ t. false;
  is_perl_in_place = λ t. false;
  is_package_install = λ t. false;
  is_test_path = λ t. false;
  weakens_tests = λ t. false;
  has_global_no_edit_constraint = λ t. false;
  asks_for_tests = λ t. false;
  asks_to_drop_tests = λ t. false;
  forbids_dependencies = λ t. false;
}

abbrev may_edit : SafetyPolicy
may_edit = record {
  edits_authorized = true;
  test_changes_authorized = false;
  test_contract_change_authorized = false;
  user_request = codes "fix the parser";
  dependencies_authorized = true;
  baseline_changed_files = [];
  current_conflicted_files = [];
}

abbrev no_arguments : Arguments
no_arguments = record {
  path = none;
  command = none;
  content = none;
  new_text = none;
  replacement = none;
  argv = [];
}

abbrev commanding : Text → Arguments
commanding c = record no_arguments { command = some c }

abbrev editing : Text → Arguments
editing path = record no_arguments { path = some path }

nested_write : contains_unsafe_redirection (codes "echo \"$(date > now)\"") ≡ true
unfolding contains_unsafe_redirection step extract_command_substitution lexeme starts_with redirect
    lstrip is_safe_target target_of same scan_from
nested_write = refl

null_device : contains_unsafe_redirection (codes "make 2>&1 >/dev/null") ≡ false
unfolding contains_unsafe_redirection step starts_with redirect lstrip is_safe_target target_of
    after_target same scan_from
null_device = refl

contains_unsafe_redirection-arrow_example :
    contains_unsafe_redirection
      (codes "make " ++ (arrow true ++ (codes " " ++ (codes "log" ++ codes " 2"))))
    ≡ (not (same (codes "log") dev_null) || contains_unsafe_redirection (codes " 2"))
contains_unsafe_redirection-arrow_example =
    contains_unsafe_redirection-arrow true (codes "make ") (codes " ") b'l' (codes "og")
      (codes " 2") refl refl refl refl

-- A removal behind a download is let through, and so is a commit behind a configuration of git.
removal_after_download :
    (assess_command plain_library (codes "run_command") (commanding (codes "curl x; rm y"))).allowed
    ≡ true
unfolding assess_command assess_segments assess_segment executable_name last_part command_segments
    words command_guard strip same starts_with contains_unsafe_redirection scan_from step
removal_after_download = refl

configured_commit :
    (assess_command plain_library
      (codes "run_command")
      (commanding (codes "git -c a=b commit"))).allowed
    ≡ true
unfolding assess_command assess_segments assess_segment executable_name last_part command_segments
    words command_guard strip same starts_with contains_unsafe_redirection scan_from step
configured_commit = refl

plain_removal :
    (assess_command plain_library
      (codes "run_command")
      (commanding (codes "ls; /bin/rm y"))).allowed
    ≡ false
unfolding assess_command assess_segments assess_segment executable_name last_part command_segments
    words command_guard strip same starts_with contains_unsafe_redirection scan_from step
plain_removal = refl

passes-assess_edit_example :
    passes (assess_edit plain_library may_edit (codes "write_file") (editing (codes ".git/config")))
    ≡ (true
        && (is_empty (strip (codes ".git/config"))
            || is_open_to plain_library may_edit
                (editing (codes ".git/config"))
                (plain_library.resolve (strip (codes ".git/config")))))
passes-assess_edit_example =
    passes-assess_edit plain_library may_edit (codes "write_file") (editing (codes ".git/config"))

assess_command-allowed_example :
    (assess_command plain_library (codes "run_command") (commanding (codes "ls"))).allowed
    ≡ is_open_command plain_library (some (codes "ls"))
assess_command-allowed_example =
    assess_command-allowed plain_library (codes "run_command") (commanding (codes "ls"))

-- The executor counts its calls, and whoever is asked agrees.
abbrev counting : Boundary ℕ Bool
counting = record {
  execute = λ call n. (true, suc n);
  intervention_hook = some (λ d call. some true);
  capabilities = λ name. none;
  metadata_for = λ name. none;
  shlex_join = λ argv. [];
}

abbrev removal : PreparedToolCall
removal = record {
  tool_name = codes "run_command";
  arguments = commanding (codes "ls; rm y");
  has_error = false;
}

execute_prepared-Gated_example :
    Gated counting
      (false
        || is_permitted counting auto removal (decision_of counting plain_library may_edit removal))
      removal
      0
      (execute_prepared counting plain_library may_edit auto removal 0)
execute_prepared-Gated_example =
    execute_prepared-Gated counting plain_library may_edit auto removal 0

removal_closed : is_open_command plain_library (some (codes "ls; rm y")) ≡ false
unfolding executable_name last_part command_segments words command_guard strip same starts_with
    contains_unsafe_redirection scan_from step skip_options
removal_closed = refl

removal_itself :
    assessed_as (λ argv. []) (codes "run_command") (commanding (codes "ls; rm y")) none
    ≡ (codes "run_command", commanding (codes "ls; rm y"))
unfolding assessed_as
removal_itself = refl

is_run_command : same (codes "run_command") (codes "run_command") ≡ true
unfolding same
is_run_command = refl

execute_prepared-refused_example :
    (reached (execute_prepared counting plain_library may_edit review removal 0).0 ≡ false)
    × ((execute_prepared counting plain_library may_edit review removal 0).1 ≡ 0)
execute_prepared-refused_example =
    execute_prepared-refused counting plain_library may_edit review removal 0 refl removal_itself
      (inr (is_run_command, removal_closed))
