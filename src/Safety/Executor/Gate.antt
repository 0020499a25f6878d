-- ===== src/Safety/Executor/Gate.antt =====
-- Which calls the safety boundary (minicodex/agent/safety/safety_executor.py) lets reach the executor.
use mini_codex.Common.{
  ◌≡◌, refl, ap, ◌∙◌, Bool, true, false, not, ◌&&◌, ◌||◌, Option, none, some, [], ◌⊎◌, arith, Text,
  codes, same, same_iff, strip, is_empty, get_or, if◌then◌else◌, Bool-cases, Option-cases, inl, inr,
}
use mini_codex.Safety.Rules.{
  SafetyDecision, requires_attention, PermissionMode, Arguments, Library, SafetyPolicy,
  is_edit_tool_name,
}
use mini_codex.Safety.Policy.{assess}
use mini_codex.Safety.Policy.Edits.{passes, is_open_to, passes-assess_edit}
use mini_codex.Safety.Policy.Commands.{is_open_command, assess_command-allowed}
use mini_codex.Safety.Executor.{
  PreparedToolCall, Boundary, Execution, passed_on, policy_failure, read_only_denied,
  approval_denied, ran, is_review, assessed_as, tool_allowed_in_mode, is_approved, run_allowed,
  block, execute_decided, decision_of, execute_prepared,
}

-- The wrapped executor was called.
abbrev pub reached : {Result : Type 0} → Execution Result → Bool
reached (passed_on r) = true
reached (ran r d approval) = true
reached _ = false

module _ {World Result : Type 0} (b : Boundary World Result) where
  -- A decision allows the call, the mode allows the tool, and in review mode what needs attention has been
  -- approved.
  abbrev pub is_permitted : PermissionMode → PreparedToolCall → Option SafetyDecision → Bool
  is_permitted mode call none = false
  is_permitted mode call (some d) =
      d.allowed
      && (tool_allowed_in_mode b mode call.tool_name
          && (not (requires_attention d && is_review mode) || is_approved b d call))

  -- The executor is reached where it is permitted; the world is then the one that it leaves, and the
  -- old one otherwise.
  abbrev pub Gated : Bool → PreparedToolCall → World → Execution Result × World → Type 0
  Gated permitted call w e =
      (reached (e.0) ≡ permitted) × (e.1 ≡ (if permitted then (b.execute call w).1 else w))

  block-Gated :
      (d : SafetyDecision) (call : PreparedToolCall) (w : World)
      → Gated false call w (block b d call w)
  unfolding block
  block-Gated d call w = elim (Option-cases b.intervention_hook) [
    | inl k ↦ rw (block, k) (refl, refl)
    | inr (hook, k) ↦ elim (Option-cases (hook d call)) [
      | inl raised ↦ rw (block, k, raised) (refl, refl)
      | inr (a, told) ↦ rw (block, k, told) (refl, refl)
    ]
  ]

  -- The stages of a decided call, each as a flag.
  stages-Gated :
      (allowed mode_allows approval approved : Bool) (call : PreparedToolCall) (w : World)
      (refused run : Execution Result × World) (d : SafetyDecision)
      → Gated false call w refused
      → Gated true call w run
      → Gated (allowed && (mode_allows && (not approval || approved))) call w (
          if not allowed
          then refused
          else if not mode_allows
          then (read_only_denied d, w)
          else if approval && not approved
          then (approval_denied d, w)
          else run)
  stages-Gated false m a y call w refused run d h k = h
  stages-Gated true false a y call w refused run d h k = (refl, refl)
  stages-Gated true true true true call w refused run d h k = k
  stages-Gated true true true false call w refused run d h k = (refl, refl)
  stages-Gated true true false y call w refused run d h k = k

  execute_decided-Gated :
      (mode : PermissionMode) (d : SafetyDecision) (call : PreparedToolCall) (w : World)
      → Gated (is_permitted mode call (some d)) call w (execute_decided b mode d call w)
  unfolding execute_decided run_allowed
  execute_decided-Gated mode d call w =
      let approval = requires_attention d && is_review mode in
      stages-Gated d.allowed (tool_allowed_in_mode b mode call.tool_name) approval
        (is_approved b d call) call w (block b d call w) (run_allowed b d approval call w) d
        (block-Gated d call w) (refl, refl)

  prepared-Gated :
      (has_error : Bool) (o : Option SafetyDecision) (mode : PermissionMode)
      (call : PreparedToolCall) (w : World)
      → let passed : Execution Result × World =
          (passed_on (b.execute call w).0, (b.execute call w).1) in
        let checked : Execution Result × World = elim o [
          | none ↦ (policy_failure, w)
          | some d ↦ execute_decided b mode d call w
        ] in
        Gated (has_error || is_permitted mode call o) call w (if has_error then passed else checked)
  prepared-Gated true o mode call w = (refl, refl)
  prepared-Gated false none mode call w = (refl, refl)
  prepared-Gated false (some d) mode call w = execute_decided-Gated mode d call w

  not_permitted :
      (mode : PermissionMode) (call : PreparedToolCall) (o : Option SafetyDecision)
      → passes o ≡ false
      → is_permitted mode call o ≡ false
  not_permitted mode call none h = refl
  not_permitted mode call (some d) h = ground (arith, h)

  closed_gate :
      (permitted : Bool) (call : PreparedToolCall) (w : World) (e : Execution Result × World)
      → permitted ≡ false
      → Gated permitted call w e
      → (reached (e.0) ≡ false) × (e.1 ≡ w)
  closed_gate true call w e h g = cc h
  closed_gate false call w e h g = g

not_command :
    (name : Text)
    → same name (codes "run_command") ≡ true
    → same name (codes "install_python_package") ≡ false
unfolding same
not_command name h = rw ((same_iff name (codes "run_command")).0 h) refl

not_edit :
    (name : Text)
    → is_edit_tool_name name ≡ true
    → (same name (codes "install_python_package") ≡ false)
      × (same name (codes "run_command") ≡ false)
unfolding same
not_edit name h =
    let other = λ (s : Text) (e : name ≡ s). rw e at h in
    (
      elim (Bool-cases (same name (codes "install_python_package"))) [
        | inl k ↦ absurd (
            cc (
              other (codes "install_python_package")
                ((same_iff name (codes "install_python_package")).0 k)))
        | inr k ↦ k
      ],
      elim (Bool-cases (same name (codes "run_command"))) [
        | inl k ↦
            absurd (cc (other (codes "run_command") ((same_iff name (codes "run_command")).0 k)))
        | inr k ↦ k
      ],
    )

module _ {World Result : Type 0} (b : Boundary World Result) (lib : Library)
    (p : SafetyPolicy) where
  -- The executor is reached exactly by the calls whose preparation failed, which it reports, and by
  -- those that the policy decides on and allows, whose tool the mode allows, and that have been approved
  -- where they need attention in review mode. The world is then the one that the executor leaves,
  -- and otherwise the old one.
  pub execute_prepared-Gated :
      (mode : PermissionMode) (call : PreparedToolCall) (w : World)
      → Gated b
          (call.has_error || is_permitted b mode call (decision_of b lib p call))
          call
          w
          (execute_prepared b lib p mode call w)
  unfolding execute_prepared
  execute_prepared-Gated mode call w =
      prepared-Gated b call.has_error (decision_of b lib p call) mode call w

  -- An edit by a task that may not edit or of a path that is not open, or a command on which a guard fires or
  -- that has a refused segment in front of the first one that uses the network.
  abbrev pub IsRefused : PreparedToolCall → Type 0
  IsRefused call =
      let raw = strip (get_or call.arguments.path []) in
      ((is_edit_tool_name call.tool_name ≡ true)
        × ((p.edits_authorized
              && (is_empty raw || is_open_to lib p call.arguments (lib.resolve raw)))
            ≡ false))
      ⊎ ((same call.tool_name (codes "run_command") ≡ true)
          × (is_open_command lib call.arguments.command ≡ false))

  refused-passes :
      (call : PreparedToolCall)
      → IsRefused call
      → passes (assess lib p call.tool_name call.arguments) ≡ false
  unfolding assess
  refused-passes call (inl (edit, closed)) =
      let (no_install, no_command) = not_edit call.tool_name edit in
      rw (assess, no_install, no_command, edit)
        (passes-assess_edit lib p call.tool_name call.arguments ∙ closed)
  refused-passes call (inr (command, closed)) =
      let no_install = not_command call.tool_name command in
      rw (assess, no_install, command)
        (assess_command-allowed lib call.tool_name call.arguments ∙ closed)

  -- Under every mode, whatever the hook answers, a prepared call that is assessed under its own name leaves the
  -- world as it was and does not reach the executor, if it is an edit of a path that is not open (or
  -- of a task that may not edit), or a command on which a guard of the policy fires or that has a refused
  -- segment in front of the first one that uses the network. Segments behind that one do not count.
  pub execute_prepared-refused :
      (mode : PermissionMode) (call : PreparedToolCall) (w : World)
      → call.has_error ≡ false
      → assessed_as b.shlex_join call.tool_name call.arguments (b.capabilities call.tool_name)
        ≡ (call.tool_name, call.arguments)
      → IsRefused call
      → (reached (execute_prepared b lib p mode call w).0 ≡ false)
        × ((execute_prepared b lib p mode call w).1 ≡ w)
  unfolding decision_of
  execute_prepared-refused mode call w fine itself h =
      let gated = execute_prepared-Gated mode call w in
      let decided : decision_of b lib p call ≡ assess lib p call.tool_name call.arguments =
        ap (λ (x : Text × Arguments). assess lib p x.0 x.1) itself in
      let shut : is_permitted b mode call (decision_of b lib p call) ≡ false =
        not_permitted b mode call (decision_of b lib p call)
          (ap passes decided ∙ refused-passes call h) in
      closed_gate b (call.has_error || is_permitted b mode call (decision_of b lib p call)) call w _
        (ground (arith, fine, shut)) gated
