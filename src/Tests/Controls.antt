-- ===== src/Tests/Controls.antt =====
-- Runs of the task control, the recovery, the cancellation and the retry of edits (minicodex/agent/runtime/,
-- minicodex/agent/progress/recovery.py, minicodex/agent/editing/edit_retry.py).
use mini_codex.Common.{
  Text, map, ◌+◌, ◌*◌, ◌≤◌, ◌≡◌, refl, arith, Bool, true, false, none, some, List, [], ◌∷◌, codes,
  same, strip, lstrip,
}
use mini_codex.Common.Int.{pos}
use mini_codex.Validation.Regression.{fast}
use mini_codex.Task.State.{initial_state}
use mini_codex.Control.Policy.{policy_for}
use mini_codex.Control.TaskControl.{RuntimeTaskControl, Agent, multiple_changed_files, min}
use mini_codex.Control.Bounds.{
  Operation, consume_call, enable_plan, raise_mode, operate_all, mode_rank, mode_steps,
  IsControlled, operate_all-IsControlled,
}
use mini_codex.Control.Recovery.{
  ReplanResult, Happening, stalled, progress, continued, times_progressed, recover_bound,
}
use mini_codex.Control.Cancellation.{
  Shared, nobody, reason_text, IsReachable, start, then_step, now, later, enter, write_reason,
  set_event, after_event, release, return_true, past_event, has_reason, cancelled_is_final,
}
use mini_codex.Control.Repeats.{
  DuplicateGuard, Call, ToolSignature, signature_of, check_signature, check_duplicate_tool_call,
  count_of, with_count, mark_meaningful_progress, smaller, occurrences, let_through,
  let_through-mark_meaningful_progress,
}
use mini_codex.Editing.Retry.{
  EditFailureType, stale_context, unknown, absent, number, Arguments, ToolResult, PendingEditRetry,
  is_read_file, is_edit_tool, read_covers_pending, refreshed, restriction_reason, restricted_by,
  observe, is_symbol, is_no_change, is_permission_denied, not_covering, result_path,
}
use mini_codex.Editing.Retry.Once.{IsOrdinary, refresh_then_retry}

abbrev new_control : RuntimeTaskControl
new_control = record {
  mode_escalations = 0;
  late_plan_activations = 0;
  planning_activated = false;
  control_llm_calls = 0;
  max_control_llm_calls_per_task = 5;
}

abbrev fast_agent : Agent
fast_agent = record {
  execution_policy = policy_for fast none;
  needs_plan = false;
  configured_max_steps = 20;
  task_max_steps = 8;
  runtime = record { state = initial_state; max_events = 50; events = [] };
  changed_files = 3;
  acceptance_passed = false;
  has_active_plan = false;
}

fast_agent-IsControlled : IsControlled fast 5 20 new_control fast_agent
unfolding policy_for
fast_agent-IsControlled = record {
  same_limit = refl;
  same_configured = refl;
  calls = omega arith;
  raised = omega arith;
  steps = refl;
}

abbrev uses : List Operation
uses =
    raise_mode multiple_changed_files
    ∷ consume_call
    ∷ enable_plan
    ∷ raise_mode (codes "near_step_ceiling_without_acceptance")
    ∷ raise_mode multiple_changed_files
    ∷ []

operate_all-IsControlled_example :
    let (t', a') = operate_all uses (new_control, fast_agent) in
    (t'.control_llm_calls ≤ 5)
    × (mode_rank fast + t'.mode_escalations ≤ 2)
    × (mode_rank fast ≤ mode_rank a'.execution_policy.mode)
    × (a'.task_max_steps ≡ min 20 (mode_steps a'.execution_policy.mode))
operate_all-IsControlled_example =
    operate_all-IsControlled uses fast 5 20 new_control fast_agent fast_agent-IsControlled

abbrev replanned_well : ReplanResult
replanned_well = record { replanned = true; failure_reason = []; message = [] }

abbrev days : List Happening
days =
    stalled (codes "same error") replanned_well
    ∷ stalled (codes "same error") replanned_well
    ∷ stalled (codes "same error") replanned_well
    ∷ progress
    ∷ stalled (codes "same error") replanned_well
    ∷ []

recover_bound_example :
    continued days (record { level = 0; max_recovery_level = 3 }) ≤ 2 + 2 * times_progressed days
recover_bound_example = recover_bound days (record { level = 0; max_recovery_level = 3 })

abbrev cancelled : Shared
cancelled = record {
  token = record { is_cancelled = true; reason = some (reason_text (codes "stop")) };
  holder = after_event;
  leaving = 0;
  won = 0;
}

-- The call has returned.
abbrev answered : Shared
answered = record cancelled { holder = nobody; won = 1 }

cancelled-IsReachable : IsReachable cancelled
cancelled-IsReachable =
    then_step
      (then_step (then_step start (enter (codes "stop") refl refl refl))
        (write_reason (codes "stop") refl refl))
      (set_event refl refl)

cancelled_is_final_example :
    (answered.won + answered.leaving + past_event answered.holder ≡ 1)
    × (has_reason cancelled.token.reason ≡ true)
    × (answered.token ≡ cancelled.token)
cancelled_is_final_example =
    cancelled_is_final cancelled answered cancelled-IsReachable refl
      (later (later now (release refl refl)) (return_true 0 refl refl))

-- The edit of lines 10 to 12 met stale context.
abbrev stale_lines : PendingEditRetry
stale_lines = record {
  path = codes "app.py";
  edit_tool = codes "replace_lines";
  start_line = some (pos 10);
  end_line = some (pos 12);
  read_completed = false;
  failure_type = stale_context;
  symbol = [];
  current_text = [];
}

abbrev reading : Arguments
reading = record {
  path = codes "app.py";
  symbol = [];
  offset = number (pos 5);
  limit = number (pos 6);
}

abbrev result_of : Bool → EditFailureType → ToolResult
result_of success failure = record {
  success = success;
  llm_content = codes "x = 1";
  failure = failure;
  path = none;
  symbol = none;
  current_content = [];
  start_line = absent;
  end_line = absent;
  content_truncated = false;
  content_incomplete = false;
}

IsOrdinary-result :
    (arguments : Arguments) (result : ToolResult)
    → result.path ≡ none
    → is_symbol result.failure ≡ false
    → is_no_change result.failure ≡ false
    → is_permission_denied result.failure ≡ false
    → IsOrdinary arguments result
unfolding result_path
IsOrdinary-result arguments result e s n d = record {
  same_path = rw (result_path, e) refl;
  found = s;
  changes = n;
  permitted = d;
}

reading_goes : restriction_reason (some stale_lines) (codes "read_file") reading ≡ none
unfolding restriction_reason restricted_by is_read_file read_covers_pending same strip lstrip
reading_goes = refl

edit_goes :
    restriction_reason
      (some (refreshed stale_lines (result_of true unknown)))
      (codes "patch_file")
      reading
    ≡ none
unfolding restriction_reason restricted_by is_edit_tool same strip lstrip
edit_goes = refl

other_lines_are_refused :
    restriction_reason
      (some stale_lines)
      (codes "read_file")
      (record reading { limit = number (pos 5) })
    ≡ some (not_covering stale_lines)
unfolding restriction_reason restricted_by is_read_file read_covers_pending same strip lstrip
other_lines_are_refused = refl

-- The retry meets stale context again.
refresh_then_retry_example :
    ((observe (codes "read_file") reading (result_of true unknown) (some stale_lines)).1
      ≡ some (refreshed stale_lines (result_of true unknown)))
    × ((observe
          (codes "patch_file")
          reading
          (result_of false stale_context)
          (some (refreshed stale_lines (result_of true unknown)))).1
        ≡ none)
refresh_then_retry_example =
    refresh_then_retry stale_lines (codes "read_file") (codes "patch_file") reading reading
      (result_of true unknown) (result_of false stale_context) refl refl
      (IsOrdinary-result reading (result_of true unknown) refl refl refl refl)
      (IsOrdinary-result reading (result_of false stale_context) refl refl refl refl) reading_goes
      refl edit_goes

abbrev guard : DuplicateGuard
guard = record {
  max_same_tool_repeats = 2;
  last_tool_signature = none;
  same_tool_repeat_count = 0;
  tool_signature_counts = [];
}

-- Arguments are texts here, printed as they are.
abbrev read_of : Text → Call Text
read_of path = record { tool_name = codes "read"; arguments = path; workspace_revision = pos 0 }

abbrev read_a : ToolSignature
read_a = signature_of (λ t. t) (read_of (codes "a"))

abbrev four_reads : List (Call Text)
four_reads =
    read_of (codes "a") ∷ read_of (codes "b") ∷ read_of (codes "a") ∷ read_of (codes "a") ∷ []

two_of_three : let_through (λ t. t) read_a four_reads guard ≡ 2
unfolding let_through check_duplicate_tool_call check_signature count_of with_count same
two_of_three = refl

let_through-mark_meaningful_progress_example :
    let_through (λ t. t) read_a four_reads (mark_meaningful_progress guard)
    ≡ smaller (occurrences read_a (map (signature_of (λ t. t)) four_reads)) 2
let_through-mark_meaningful_progress_example =
    let_through-mark_meaningful_progress (λ t. t) read_a four_reads guard
