-- ===== src/Memory/Observe.antt =====
-- How the working memory takes in the results of tools: `record_tool_result` and `_record_safety` of
-- minicodex/agent/memory/working_memory.py. `digest` is the start of a text's SHA-1.
use mini_codex.Common.{
  Bool, true, false, not, ◌&&◌, ◌||◌, Option, none, some, List, [], ◌∷◌, ◌++◌, Text, codes, same,
  is_empty, any, if◌then◌else◌,
}
use mini_codex.Common.Int.{ℤ, pos}
use mini_codex.Editing.Retry.{Entry, number}
use mini_codex.Memory.{
  MemoryKind, file, search, validation, command, plan, safety, git, failure, general, Fact,
  observed, searched, searched_symbol, edited, static_web, tested, dependency, commanded, git_state,
  git_diff_seen, step_done, replanned, failed_on, risk, WorkingMemory, Upsert, upsert,
  invalidate_path, normalize_text,
}

-- The entries of the arguments that are read.
pub record Arguments : Type 0 where
  pub path : Option Text
  pub query : Option Text
  pub name : Option Text
  pub purpose : Option Text
  pub package_name : Option Text
  pub import_name : Option Text
  pub command : Option Text
  pub staged : Bool

pub record Safety : Type 0 where
  pub level : Option Text
  pub rule : Option Text
  pub reason : Option Text

pub record GitStatus : Type 0 where
  pub dirty : Option Bool
  pub changed_files : List Text

-- A result with the entries of its data that are read. The flags are `is True` or truth; `step_id` is as
-- `str` gives it, and `current` and `safety` are `none` where they are no mappings.
pub record ToolResult : Type 0 where
  pub success : Bool
  pub error : Option Text
  pub path : Option Text
  pub start_line : Option ℤ
  pub end_line : Option ℤ
  pub total_lines : Option ℤ
  pub has_more : Bool
  pub checkpoint_revision : Entry
  pub safety_degraded : Bool
  pub outcome : Option Text
  pub purpose : Option Text
  pub passed : Entry
  pub failed : Entry
  pub errors : Entry
  pub tests_passed : Option Bool
  pub already_available : Bool
  pub command_succeeded : Option Bool
  pub current : Option GitStatus
  pub completed : Bool
  pub step_id : Text
  pub step_description : Option Text
  pub replanned : Bool
  pub reason : Option Text
  pub safety : Option Safety

abbrev pub edit_tools : List Text
edit_tools =
    codes "patch_file" ∷ codes "replace_lines" ∷ codes "replace_symbol" ∷ codes "write_file" ∷ []

-- `a or b`
abbrev pub or_else : Text → Text → Text
or_else a b = if is_empty a then b else a

-- `_safe_int`
abbrev pub safe_int : Entry → ℤ
safe_int (number n) = n
safe_int _ = pos 0

abbrev pub edit_revision : Option ℤ → Entry → Option ℤ
edit_revision (some r) e = some r
edit_revision none (number n) = some n
edit_revision none _ = none

abbrev pub path_of : Arguments → ToolResult → Text
path_of a r = or_else (normalize_text a.path) (normalize_text r.path)

abbrev pub entry : Text → MemoryKind → Fact → Text → Option Text → Option ℤ → Upsert
entry key kind value name path revision = record {
  key = key;
  kind = kind;
  value = value;
  source_tool = some name;
  path = path;
  revision = revision;
}

abbrev pub put : Upsert → WorkingMemory → WorkingMemory
put u m = (upsert u m).1

abbrev test_state : ToolResult → Text
test_state r = if not r.success then codes "执行失败" else elim (r.tests_passed) [
  | some true ↦ codes "通过"
  | some false ↦ codes "失败"
  | none ↦ codes "尚无定论"
]

abbrev command_state : ToolResult → Text
command_state r = if not r.success then codes "失败" else elim (r.command_succeeded) [
  | some true ↦ codes "成功"
  | some false ↦ codes "未成功完成"
  | none ↦ codes "失败"
]

abbrev bool_text : Bool → Text
bool_text b = if b then codes "True" else codes "False"

abbrev pub is_risk : Text → Bool
is_risk level = same level (codes "caution") || same level (codes "blocked")

module _ (digest : Text → Text) where
  -- What each tool leaves in the memory, but for its failure and its safety.
  unfoldable pub read_seen : Text → ToolResult → Option ℤ → WorkingMemory → WorkingMemory
  read_seen path r revision m =
      put
        (entry (codes "file:" ++ (path ++ codes ":observation")) file
          (observed path r.start_line r.end_line r.total_lines r.has_more) (codes "read_file")
          (some path) revision)
        m

  unfoldable pub edit_seen : Text → Text → ToolResult → Option ℤ → WorkingMemory → WorkingMemory
  edit_seen name path r revision m =
      let revision' = edit_revision revision r.checkpoint_revision in
      put
        (entry (codes "file:" ++ (path ++ codes ":edit")) file
          (edited path revision' r.safety_degraded) name (some path) revision')
        (invalidate_path path m).1

  unfoldable pub tests_seen :
      Text → Arguments → ToolResult → Option ℤ → WorkingMemory → WorkingMemory
  tests_seen path a r revision m =
      let purpose =
        or_else (or_else (normalize_text a.purpose) (normalize_text r.purpose))
          (codes "regression") in
      let test_path = or_else path (codes ".") in
      put
        (entry (codes "validation:" ++ (purpose ++ (codes ":" ++ test_path))) validation
          (tested test_path purpose (test_state r) (safe_int r.passed) (safe_int r.failed)
            (safe_int r.errors))
          (codes "run_tests") (if same test_path (codes ".") then none else some test_path)
          revision)
        m

  unfoldable pub web_seen : Text → ToolResult → Option ℤ → WorkingMemory → WorkingMemory
  web_seen path r revision m =
      let outcome = or_else (normalize_text r.outcome) (codes "inconclusive") in
      let shown = or_else path (codes "未知") in
      put
        (entry (codes "validation:acceptance:" ++ shown) validation (static_web shown outcome)
          (codes "validate_static_web") (if is_empty path then none else some path) revision)
        m

  unfoldable pub search_seen : Text → Text → Text → Fact → WorkingMemory → WorkingMemory
  search_seen name prefix query fact m =
      let kept = put (entry (prefix ++ query) search fact name none none) m in
      if is_empty query then m else kept

  unfoldable pub package_seen : Arguments → ToolResult → WorkingMemory → WorkingMemory
  package_seen a r m =
      let package_name = normalize_text a.package_name in
      let state =
        if r.success
        then (if r.already_available then codes "已可用" else codes "已安装并通过导入验证")
        else codes "安装失败" in
      let kept =
        put
          (entry (codes "dependency:" ++ package_name) general
            (dependency package_name (or_else (normalize_text a.import_name) (codes "未知导入名")) state)
            (codes "install_python_package") none none)
          m in
      if is_empty package_name then m else kept

  unfoldable pub command_seen : Arguments → ToolResult → WorkingMemory → WorkingMemory
  command_seen a r m =
      let text = normalize_text a.command in
      let kept =
        put
          (entry (codes "command:" ++ digest text) command (commanded (command_state r) text)
            (codes "run_command") none none)
          m in
      if is_empty text then m else kept

  unfoldable pub status_seen : ToolResult → WorkingMemory → WorkingMemory
  status_seen r m = elim (r.current) [
    | none ↦ m
    | some s ↦
        put
          (entry (codes "git:current") git (git_state s.dirty s.changed_files) (codes "git_status")
            none none)
          m
  ]

  unfoldable pub diff_seen : Text → Arguments → WorkingMemory → WorkingMemory
  diff_seen path a m =
      let shown = or_else path (codes "（全部变更）") in
      put
        (entry (codes "git_diff:" ++ (shown ++ (codes ":" ++ bool_text a.staged))) git
          (git_diff_seen shown a.staged) (codes "git_diff") (some path) none)
        m

  unfoldable pub step_seen : ToolResult → WorkingMemory → WorkingMemory
  step_seen r m =
      put
        (entry (codes "plan:step:" ++ r.step_id) plan
          (step_done r.step_id (normalize_text r.step_description)) (codes "plan_step_completed")
          none none)
        m

  unfoldable pub replan_seen : ToolResult → WorkingMemory → WorkingMemory
  replan_seen r m =
      put
        (entry (codes "plan:latest_replan") plan (replanned (normalize_text r.reason))
          (codes "replan") none none)
        m

  -- The chain of branches on the tool.
  unfoldable pub record_tool :
      Text → Arguments → ToolResult → Option ℤ → WorkingMemory → WorkingMemory
  unfolding read_seen edit_seen tests_seen web_seen search_seen package_seen command_seen
      status_seen diff_seen step_seen replan_seen
  record_tool name a r revision m =
      let path = path_of a r in
      if same name (codes "read_file") && (r.success && not (is_empty path))
      then read_seen path r revision m
      else if same name (codes "search_code") && r.success
      then search_seen name (codes "search_code:") (normalize_text a.query)
          (searched (normalize_text a.query)) m
      else if same name (codes "search_symbol") && r.success
      then search_seen name (codes "search_symbol:")
          (or_else (normalize_text a.query) (normalize_text a.name))
          (searched_symbol (or_else (normalize_text a.query) (normalize_text a.name))) m
      else if any (same name) edit_tools && (r.success && not (is_empty path))
      then edit_seen name path r revision m
      else if same name (codes "validate_static_web")
      then web_seen path r revision m
      else if same name (codes "run_tests")
      then tests_seen path a r revision m
      else if same name (codes "install_python_package")
      then package_seen a r m
      else if same name (codes "run_command")
      then command_seen a r m
      else if same name (codes "git_status") && r.success
      then status_seen r m
      else if same name (codes "git_diff") && r.success
      then diff_seen path a m
      else if same name (codes "plan_step_completed") && r.completed
      then step_seen r m
      else if same name (codes "replan") && r.replanned
      then replan_seen r m
      else m

  unfoldable pub record_failure : Text → Arguments → ToolResult → WorkingMemory → WorkingMemory
  record_failure name a r m =
      let path = path_of a r in
      let target =
        or_else path
          (or_else (normalize_text a.query) (or_else (normalize_text a.command) (codes "（无）"))) in
      let told =
        put
          (entry (codes "failure:" ++ (name ++ (codes ":" ++ target))) failure
            (failed_on name target (or_else (normalize_text r.error) (codes "未知失败"))) name
            (some path) none)
          m in
      if r.success then m else told

  unfoldable pub record_safety : Text → Arguments → ToolResult → WorkingMemory → WorkingMemory
  record_safety name a r m = elim (r.safety) [
    | none ↦ m
    | some s ↦
        let path = path_of a r in
        let level = normalize_text s.level in
        let rule = or_else (normalize_text s.rule) (codes "unknown") in
        let reason = or_else (normalize_text s.reason) (codes "未提供原因。") in
        let target = or_else path (or_else (normalize_text a.command) name) in
        let told =
          put
            (entry (codes "safety:" ++ (name ++ (codes ":" ++ digest target))) safety
              (risk level name rule reason) name (some path) none)
            m in
        if is_risk level then told else m
  ]

  unfoldable pub record_tool_result :
      Text → Arguments → ToolResult → Option ℤ → WorkingMemory → WorkingMemory
  unfolding record_tool record_failure record_safety
  record_tool_result name a r revision m =
      record_safety name a r (record_failure name a r (record_tool name a r revision m))
