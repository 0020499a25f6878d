-- ===== src/Editing/Retry.antt =====
-- minicodex/agent/editing/edit_retry.py, with the failures of minicodex/agent/editing/edit_failure.py.
-- The texts for the model are constructors.
pub mod Once
use mini_codex.Common.{
  ℕ, zero, suc, ◌+◌, ◌-◌, ◌≡◌, Bool, true, false, not, ◌&&◌, ◌||◌, Option, none, some, List, [],
  ◌∷◌, Text, codes, same, strip, is_empty, any, null, length, get_or, leb, is_some, if◌then◌else◌,
}
use mini_codex.Common.Int.{ℤ, pos, negsuc}

pub data EditFailureType : Type 0 where
  stale_context ambiguous_match symbol_not_found invalid_range : EditFailureType
  no_change permission_denied unknown : EditFailureType

-- An entry of a mapping on which `int` is called: it is absent, has no number, or has one.
pub data Entry : Type 0 where
  absent not_a_number : Entry
  number : ℤ → Entry

-- The entries of the arguments that are read, as `str` gives them.
pub record Arguments : Type 0 where
  pub path : Text
  pub symbol : Text
  pub offset : Entry
  pub limit : Entry

-- The result of a tool. `failure` is the text of `edit_failure_type`, or of `failure_type`, read as an
-- `EditFailureType`; `path` and `symbol` are `none` where the data have none; the last two flags are
-- `data.get("content_truncated") is True` and `data.get("content_complete") is False`.
pub record ToolResult : Type 0 where
  pub success : Bool
  pub llm_content : Text
  pub failure : EditFailureType
  pub path : Option Text
  pub symbol : Option Text
  pub current_content : Text
  pub start_line : Entry
  pub end_line : Entry
  pub content_truncated : Bool
  pub content_incomplete : Bool

pub record PendingEditRetry : Type 0 where
  pub path : Text
  pub edit_tool : Text
  pub start_line : Option ℤ
  pub end_line : Option ℤ
  pub read_completed : Bool
  pub failure_type : EditFailureType
  pub symbol : Text
  pub current_text : Text

-- Why a call is not let through.
pub data Restriction : Type 0 where
  search_first retry_the_symbol : Restriction
  not_covering read_first retry_now : PendingEditRetry → Restriction

-- What the model is told after a result.
pub data Instruction : Type 0 where
  retry_failed nothing_changes blocked_by_permission symbol_candidates : Instruction
  read_then_retry retry_instruction : PendingEditRetry → Instruction

abbrev edit_tools : List Text
edit_tools =
    codes "patch_file" ∷ codes "replace_lines" ∷ codes "replace_symbol" ∷ codes "write_file" ∷ []

unfoldable pub is_edit_tool : Text → Bool
is_edit_tool tool = any (same tool) edit_tools

unfoldable pub is_read_file : Text → Bool
is_read_file tool = same tool (codes "read_file")

unfoldable pub is_search_symbol : Text → Bool
is_search_symbol tool = same tool (codes "search_symbol")

unfoldable pub is_replace_symbol : Text → Bool
is_replace_symbol tool = same tool (codes "replace_symbol")

abbrev pub preview_limit : ℕ
preview_limit = 4000

abbrev pub is_symbol : EditFailureType → Bool
is_symbol symbol_not_found = true
is_symbol _ = false

-- A failure that a fresh look at the file can mend.
abbrev pub is_stale_failure : EditFailureType → Bool
is_stale_failure stale_context = true
is_stale_failure ambiguous_match = true
is_stale_failure invalid_range = true
is_stale_failure _ = false

unfoldable pub optional_int : Entry → Option ℤ
optional_int (number n) = some n
optional_int _ = none

-- `max(1, n)`
abbrev at_least_one : ℤ → ℕ
at_least_one (pos n) = if leb 1 n then n else 1
at_least_one (negsuc n) = 1

-- `max(1, int(arguments.get(key, default)))`; `none` where `int` raises.
abbrev one_or_more : ℕ → Entry → Option ℕ
one_or_more d absent = some d
one_or_more d not_a_number = none
one_or_more d (number n) = some (at_least_one n)

-- `n <= m` and `m <= n`, for a number of lines and an integer
abbrev pub at_most : ℕ → ℤ → Bool
at_most n (pos m) = leb n m
at_most n (negsuc m) = false

abbrev pub at_least : ℕ → ℤ → Bool
at_least n (pos m) = leb m n
at_least n (negsuc m) = true

-- `pending.end_line or pending.start_line`
abbrev pub last_line : Option ℤ → ℤ → ℤ
last_line none start = start
last_line (some (pos zero)) start = start
last_line (some n) start = n

abbrev covers : Option ℕ → Option ℕ → ℤ → ℤ → Bool
covers (some start) (some limit) first last =
    at_most start last && at_least (start + limit - 1) first
covers _ _ first last = false

unfoldable pub read_covers_pending : Arguments → PendingEditRetry → Bool
read_covers_pending arguments p = elim p.start_line [
  | none ↦ true
  | some first ↦
      covers (one_or_more 1 arguments.offset) (one_or_more 200 arguments.limit) first
        (last_line p.end_line first)
]

-- `restriction_reason` with something pending; `path` is the stripped path of the call.
unfoldable pub restricted_by : PendingEditRetry → Text → Text → Arguments → Option Restriction
restricted_by p tool path arguments =
    if is_symbol p.failure_type
    then (if not p.read_completed
        then (if is_search_symbol tool then none else some search_first)
        else if is_replace_symbol tool
        then none
        else some retry_the_symbol)
    else if not p.read_completed
    then (if is_read_file tool && same path p.path
        then (if read_covers_pending arguments p then none else some (not_covering p))
        else some (read_first p))
    else if is_edit_tool tool && same path p.path
    then none
    else some (retry_now p)

-- `none` lets the call through.
unfoldable pub restriction_reason : Option PendingEditRetry → Text → Arguments → Option Restriction
restriction_reason none tool arguments = none
restriction_reason (some p) tool arguments = restricted_by p tool (strip arguments.path) arguments

abbrev take : ℕ → Text → Text
take zero s = []
take (suc n) [] = []
take (suc n) (c ∷ s) = c ∷ take n s

unfoldable pub preview_is_authoritative : Text → ToolResult → Text → Option ℤ → Bool
preview_is_authoritative tool result current_text start_line =
    not (is_empty current_text)
    && not (is_some start_line || same tool (codes "replace_lines"))
    && not result.content_truncated
    && not result.content_incomplete
    && not (leb preview_limit (length current_text))
    && (same tool (codes "patch_file") || same tool (codes "write_file"))

abbrev pub was_read : Option PendingEditRetry → Bool
was_read none = false
was_read (some p) = p.read_completed

-- What a failure on stale context leaves pending.
unfoldable pub stale_retry : Text → Text → ToolResult → PendingEditRetry
stale_retry tool path result =
    let current_text = take preview_limit result.current_content in
    let start_line = optional_int result.start_line in
    record {
      path = path;
      edit_tool = tool;
      start_line = start_line;
      end_line = optional_int result.end_line;
      read_completed = preview_is_authoritative tool result current_text start_line;
      failure_type = result.failure;
      symbol = [];
      current_text = current_text;
    }

abbrev after_stale : PendingEditRetry → Option Instruction × Option PendingEditRetry
after_stale p = (some (if p.read_completed then retry_instruction p else read_then_retry p), some p)

unfoldable pub symbol_retry : Text → Text → Arguments → ToolResult → PendingEditRetry
symbol_retry tool path arguments result = record {
  path = path;
  edit_tool = tool;
  start_line = none;
  end_line = none;
  read_completed = false;
  failure_type = symbol_not_found;
  symbol = get_or result.symbol arguments.symbol;
  current_text = [];
}

abbrev pub is_no_change : EditFailureType → Bool
is_no_change no_change = true
is_no_change _ = false

abbrev pub is_permission_denied : EditFailureType → Bool
is_permission_denied permission_denied = true
is_permission_denied _ = false

abbrev pub refreshed : PendingEditRetry → ToolResult → PendingEditRetry
refreshed p result = record p { read_completed = true; current_text = take 2000 result.llm_content }

-- The end of `observe`, with something pending.
unfoldable pub observe_pending :
    PendingEditRetry
    → Text
    → Text
    → Arguments
    → ToolResult
    → Option Instruction × Option PendingEditRetry
observe_pending p tool path arguments result =
    let read = refreshed p result in
    if is_symbol p.failure_type && is_search_symbol tool && result.success
    then (some symbol_candidates, some (record p { read_completed = true }))
    else if is_read_file tool
        && same path p.path
        && result.success
        && read_covers_pending arguments p
    then (some (retry_instruction read), some read)
    else if is_edit_tool tool && same path p.path
    then (none, none)
    else (none, some p)

unfoldable pub observe_rest :
    Option PendingEditRetry
    → Text
    → Text
    → Arguments
    → ToolResult
    → Option Instruction × Option PendingEditRetry
observe_rest none tool path arguments result = (none, none)
observe_rest (some p) tool path arguments result = observe_pending p tool path arguments result

-- `path`, as `observe` finds it
unfoldable pub result_path : Arguments → ToolResult → Text
result_path arguments result = strip (get_or result.path arguments.path)

unfoldable pub observe_stale :
    Option PendingEditRetry → PendingEditRetry → Option Instruction × Option PendingEditRetry
observe_stale pending p = if was_read pending then (some retry_failed, none) else after_stale p

unfoldable pub observe_symbol : PendingEditRetry → Option Instruction × Option PendingEditRetry
observe_symbol p = (some (read_then_retry p), some p)

-- What the model is told, and what is pending then.
unfoldable pub observe :
    Text
    → Arguments
    → ToolResult
    → Option PendingEditRetry
    → Option Instruction × Option PendingEditRetry
observe tool arguments result pending =
    let path = result_path arguments result in
    if is_edit_tool tool && is_stale_failure result.failure && not (is_empty path)
    then observe_stale pending (stale_retry tool path result)
    else if is_replace_symbol tool && is_symbol result.failure
    then observe_symbol (symbol_retry tool path arguments result)
    else if is_no_change result.failure
    then (some nothing_changes, pending)
    else if is_permission_denied result.failure
    then (some blocked_by_permission, pending)
    else observe_rest pending tool path arguments result
