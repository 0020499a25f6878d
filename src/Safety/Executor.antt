-- ===== src/Safety/Executor.antt =====
-- The safety boundary around the executor of tools: minicodex/agent/safety/safety_executor.py. The texts of
-- the results are constructors. The wrapped executor works on a world of its own.
pub mod Gate
use mini_codex.Common.{
  Bool, true, false, not, ◌&&◌, ◌||◌, Option, none, some, List, Text, codes, if◌then◌else◌,
}
use mini_codex.Safety.Rules.{
  SafetyDecision, requires_attention, PermissionMode, auto, review, read_only, Arguments, Library,
  SafetyPolicy, is_in, is_edit_tool_name,
}
use mini_codex.Safety.Policy.{assess}

-- `has_error` is `prepared.error is not None`.
pub record PreparedToolCall : Type 0 where
  pub tool_name : Text
  pub arguments : Arguments
  pub has_error : Bool

pub record Metadata : Type 0 where
  pub is_read_only : Bool
  pub has_capabilities : Bool

-- What the boundary is built from. The hook answers, or raises; `capabilities` is `none` for a tool that is
-- not registered, and `metadata_for` where the registry raises.
pub record Boundary (World Result : Type 0) : Type 0 where
  pub execute : PreparedToolCall → World → Result × World
  pub intervention_hook : Option (SafetyDecision → PreparedToolCall → Option Bool)
  pub capabilities : Text → Option (List Text)
  pub metadata_for : Text → Option Metadata
  pub shlex_join : List Text → Text

pub data Execution (Result : Type 0) : Type 0 where
  passed_on : Result → Execution Result
  policy_failure hook_raised : Execution Result
  safety_blocked read_only_denied approval_denied : SafetyDecision → Execution Result
  ran : Result → SafetyDecision → (approval_granted : Bool) → Execution Result

abbrev pub is_read_only_mode : PermissionMode → Bool
is_read_only_mode read_only = true
is_read_only_mode _ = false

abbrev pub is_review : PermissionMode → Bool
is_review review = true
is_review _ = false

-- The name and the arguments under which the policy assesses a call.
unfoldable pub assessed_as :
    (List Text → Text) → Text → Arguments → Option (List Text) → Text × Arguments
assessed_as shlex_join name arguments none = (name, arguments)
assessed_as shlex_join name arguments (some caps) =
    if is_in caps (codes "code.edit") && not (is_edit_tool_name name)
    then (codes "patch_file", arguments)
    else if is_in caps (codes "process.run")
    then (codes "run_command", arguments)
    else if is_in caps (codes "service.validate")
    then (
      codes "run_command",
      record {
        path = none;
        command = some (shlex_join arguments.argv);
        content = none;
        new_text = none;
        replacement = none;
        argv = arguments.argv;
      },
    )
    else (name, arguments)

module _ {World Result : Type 0} (b : Boundary World Result) where
  unfoldable pub tool_allowed_in_mode : PermissionMode → Text → Bool
  tool_allowed_in_mode mode name =
      if not (is_read_only_mode mode) then true else elim (b.metadata_for name) [
        | none ↦ false
        | some m ↦ m.is_read_only && m.has_capabilities
      ]

  -- The answer of the hook to a call that needs approval; without a hook, or where it raises, it is no.
  unfoldable pub is_approved : SafetyDecision → PreparedToolCall → Bool
  is_approved d call = elim (b.intervention_hook) [
    | none ↦ false
    | some hook ↦ elim (hook d call) [ none ↦ false | some answer ↦ answer ]
  ]

  unfoldable pub run_allowed :
      SafetyDecision → Bool → PreparedToolCall → World → Execution Result × World
  run_allowed d approval call w = let (r, w') = b.execute call w in (ran r d approval, w')

  -- A decision that refuses: the hook is told, outside any `try`.
  unfoldable pub block : SafetyDecision → PreparedToolCall → World → Execution Result × World
  block d call w = elim (b.intervention_hook) [
    | none ↦ (safety_blocked d, w)
    | some hook ↦ elim (hook d call) [ none ↦ (hook_raised, w) | some _ ↦ (safety_blocked d, w) ]
  ]

  unfoldable pub execute_decided :
      PermissionMode → SafetyDecision → PreparedToolCall → World → Execution Result × World
  unfolding run_allowed block tool_allowed_in_mode is_approved
  execute_decided mode d call w =
      let approval = requires_attention d && is_review mode in
      let run = run_allowed d approval call w in
      let refused = block d call w in
      if not d.allowed
      then refused
      else if not (tool_allowed_in_mode mode call.tool_name)
      then (read_only_denied d, w)
      else if approval && not (is_approved d call)
      then (approval_denied d, w)
      else run

module _ {World Result : Type 0} (b : Boundary World Result) (lib : Library) where
  unfoldable pub decision_of : SafetyPolicy → PreparedToolCall → Option SafetyDecision
  unfolding assessed_as
  decision_of p call =
      let (name, arguments) =
        assessed_as b.shlex_join call.tool_name call.arguments (b.capabilities call.tool_name) in
      assess lib p name arguments

  unfoldable pub execute_prepared :
      SafetyPolicy → PermissionMode → PreparedToolCall → World → Execution Result × World
  unfolding execute_decided decision_of
  execute_prepared p mode call w =
      let passed : Execution Result × World = let (r, w') = b.execute call w in (passed_on r, w') in
      let checked : Execution Result × World = elim (decision_of p call) [
        | none ↦ (policy_failure, w)
        | some d ↦ execute_decided b mode d call w
      ] in
      if call.has_error then passed else checked
