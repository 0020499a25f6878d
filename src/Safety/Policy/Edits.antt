-- ===== src/Safety/Policy/Edits.antt =====
-- Which edits the policy (minicodex/agent/safety/safety.py) lets through.
use mini_codex.Common.{
  ◌≡◌, refl, ap, ◌∙◌, Bool, true, false, not, ◌&&◌, ◌||◌, ◌++◌, Option, none, some, [], ◌∷◌, arith,
  Text, codes, same, strip, is_empty, get_or, if◌then◌else◌,
}
use mini_codex.Validation.Regression.{starts_with, contains}
use mini_codex.Safety.Rules.{
  blocked, caution, safe, anti_test_gaming, protected_runtime_state, protected_generated_path,
  git_metadata_protection, preexisting_user_change, git_conflict, workspace_edit,
  task_no_edit_constraint, defer_missing_path, workspace_escape, decided, decided_path,
  SafetyDecision, Arguments, Resolved, unresolved, outside, within, Library, SafetyPolicy, is_in,
  protected_roots, first_part,
}
use mini_codex.Safety.Policy.{test_gaming_attempt, assess_within, assess_edit}

-- A decision lets a call through. A policy that raises does not.
abbrev pub passes : Option SafetyDecision → Bool
passes none = false
passes (some d) = d.allowed

abbrev root_git : Text → Bool
root_git path = same (first_part path) (codes ".git")

-- Inside the metadata of Git is to have them as the first part.
git_root :
    (path : Text) → (same path (codes ".git") || starts_with (codes ".git/") path) ≡ root_git path
unfolding same starts_with first_part
git_root [] = refl
git_root (a ∷ []) = ground arith
git_root (a ∷ b ∷ []) = ground arith
git_root (a ∷ b ∷ c ∷ []) = ground arith
git_root (a ∷ b ∷ c ∷ d ∷ []) = ground arith
git_root (a ∷ b ∷ c ∷ d ∷ e ∷ s) = ground arith

-- The conditions of an edit in the workspace, each as a flag.
edit_chain :
    (gaming runtime generated named git dirty conflict : Bool) (name path : Text)
    → (if gaming
        then decided_path blocked false anti_test_gaming name path
        else if runtime
        then decided_path blocked false protected_runtime_state name path
        else if generated && not named
        then decided_path blocked false protected_generated_path name path
        else if git
        then decided_path blocked false git_metadata_protection name path
        else if dirty
        then decided_path caution true preexisting_user_change name path
        else if conflict
        then decided_path caution true git_conflict name path
        else decided_path safe true workspace_edit name path).allowed
      ≡ (not gaming && (not runtime && not git && (not generated || named)))
edit_chain gaming runtime generated named git dirty conflict name path = ground arith

module _ (lib : Library) (p : SafetyPolicy) where
  -- The first part of the path is no protected root, but for a generated one that the request names.
  abbrev pub is_open_root : Text → Bool
  is_open_root path =
      not (same (first_part path) (codes ".minicodex"))
      && not (root_git path)
      && (not (is_in protected_roots (first_part path))
          || contains (lib.casefold path) (lib.casefold p.user_request))

  abbrev is_emptied : Option Text → Bool
  is_emptied (some []) = true
  is_emptied _ = false

  -- What the edit writes, in the file of a test, disables a test though the task may not change what tests
  -- ask, or it disables none and the content is empty.
  abbrev pub games_tests : Text → Arguments → Bool
  games_tests path arguments =
      let written =
        get_or arguments.content []
        ++ 10 ∷ get_or arguments.new_text []
        ++ 10 ∷ get_or arguments.replacement [] in
      not (is_empty path)
      && lib.is_test_path path
      && ((lib.weakens_tests written && not p.test_contract_change_authorized)
          || (not (lib.weakens_tests written) && is_emptied arguments.content))

  games :
      (empty is_test weakens may : Bool) (content : Option Text)
      → (if empty || not is_test
          then false
          else if weakens
          then not may
          else elim content [ some [] ↦ true | _ ↦ false ])
        ≡ (not empty && is_test && ((weakens && not may) || (not weakens && is_emptied content)))
  games empty is_test weakens may none = ground arith
  games empty is_test weakens may (some []) = ground arith
  games empty is_test weakens may (some (c ∷ s)) = ground arith

  test_gaming_attempt_lem :
      (path : Text) (arguments : Arguments)
      → test_gaming_attempt lib p (some path) arguments ≡ games_tests path arguments
  unfolding test_gaming_attempt
  test_gaming_attempt_lem path arguments =
      let written =
        get_or arguments.content []
        ++ 10 ∷ get_or arguments.new_text []
        ++ 10 ∷ get_or arguments.replacement [] in
      games (is_empty path) (lib.is_test_path path) (lib.weakens_tests written)
        p.test_contract_change_authorized arguments.content

  abbrev pub is_open_to : Arguments → Resolved → Bool
  is_open_to arguments unresolved = false
  is_open_to arguments outside = false
  is_open_to arguments (within path) = not (games_tests path arguments) && is_open_root path

  within-allowed :
      (name path : Text) (arguments : Arguments)
      → (assess_within lib p name path arguments).allowed ≡ is_open_to arguments (within path)
  unfolding assess_within
  within-allowed name path arguments =
      let root = first_part path in
      edit_chain (test_gaming_attempt lib p (some path) arguments) (same root (codes ".minicodex"))
        (is_in protected_roots root) (contains (lib.casefold path) (lib.casefold p.user_request))
        (same path (codes ".git") || starts_with (codes ".git/") path)
        (is_in p.baseline_changed_files path) (is_in p.current_conflicted_files path) name path
      ∙ ap
          (λ git.
            not (test_gaming_attempt lib p (some path) arguments)
            && (not (same root (codes ".minicodex"))
                && not git
                && (not (is_in protected_roots root)
                    || contains (lib.casefold path) (lib.casefold p.user_request))))
          (git_root path)
      ∙ ap (λ g. not g && is_open_root path) (test_gaming_attempt_lem path arguments)

  -- An edit passes exactly when the task may edit and either no path is given or the path resolves into
  -- the workspace, its first part is not the runtime's or Git's directory nor a generated or vendored one
  -- that the request does not name, and the edit is no attempt on a test: in the file of a test it neither
  -- disables a test, unless the task may change what tests ask, nor gives the file an empty content.
  pub passes-assess_edit :
      (name : Text) (arguments : Arguments)
      → passes (assess_edit lib p name arguments) ≡ (
          p.edits_authorized
          && (is_empty (strip (get_or arguments.path []))
              || is_open_to arguments (lib.resolve (strip (get_or arguments.path [])))))
  unfolding assess_edit
  passes-assess_edit name arguments =
      edit_guards p.edits_authorized (is_empty raw) (lib.resolve raw)
    where
      raw : Text
      raw = strip (get_or arguments.path [])

      edit_guards :
          (may empty : Bool) (r : Resolved)
          → passes (
              if not may
              then some (decided blocked false task_no_edit_constraint name)
              else if empty
              then some (decided safe true defer_missing_path name)
              else elim r [
                | unresolved ↦ none
                | outside ↦ some (decided_path blocked false workspace_escape name raw)
                | within path ↦ some (assess_within lib p name path arguments)
              ])
            ≡ (may && (empty || is_open_to arguments r))
      edit_guards false empty r = refl
      edit_guards true true r = refl
      edit_guards true false unresolved = refl
      edit_guards true false outside = refl
      edit_guards true false (within path) = within-allowed name path arguments
