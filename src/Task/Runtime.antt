-- ===== src/Task/Runtime.antt =====
-- `TaskRuntime` of minicodex/agent/task_state.py: the current state and the bounded trace.
pub mod Consistent
pub mod Trace
use mini_codex.Common.{
  ℕ, ◌-◌, ◌≡◌, refl, Bool, true, false, not, ◌&&◌, Option, none, some, List, [], ◌∷◌, ◌++◌, Text,
  ltb, drop, length, get_or, null, if◌then◌else◌,
}
use mini_codex.Common.Int.{ℤ, pos, negsuc, ltb_ℤ}
use mini_codex.Task.State.{TaskState, initial_state, Violation, invariant_violations, is_terminal}
use mini_codex.Task.Event.{Start, RuntimeEvent, task_started}
use mini_codex.Task.Reduce.{reduce_task_state}

pub record TaskRuntime : Type 0 where
  pub state : TaskState
  pub max_events : ℕ
  pub events : List RuntimeEvent

-- `max(50, int(max_events))`
abbrev event_bound : ℤ → ℕ
event_bound (pos n) = if ltb 50 n then n else 50
event_bound (negsuc n) = 50

unfoldable pub new_runtime : Option TaskState → ℤ → TaskRuntime
new_runtime state max_events = record {
  state = get_or state initial_state;
  max_events = event_bound max_events;
  events = [];
}

-- `invalid` is the ValueError with the violations, raised before anything is changed.
pub data Applied : Type 0 where
  accepted : TaskRuntime → Applied
  invalid : List Violation → Applied

-- The trace with one more event, its oldest events dropped where it is too long.
unfoldable pub trimmed : ℕ → List RuntimeEvent → List RuntimeEvent
trimmed max_events events =
    if ltb max_events (length events) then drop (length events - max_events) events else events

unfoldable pub apply : RuntimeEvent → TaskRuntime → Applied
apply event r =
    let next_state = reduce_task_state r.state event in
    let violations = invariant_violations false false next_state in
    if null violations
    then accepted
        (record r { state = next_state; events = trimmed r.max_events (r.events ++ event ∷ []) })
    else invalid violations

-- `emit` names a run that has no name; `run_id` is what `uuid4` made.
unfoldable pub emit : Text → RuntimeEvent → TaskRuntime → Applied
emit run_id (task_started d) r =
    apply (task_started (record d { run_id = some (get_or d.run_id run_id) })) r
emit run_id event r = apply event r

unfoldable pub can_continue : TaskRuntime → Bool
can_continue r = not (is_terminal r.state.phase) && ltb_ℤ (pos 0) r.state.remaining_steps

-- What a caller that outlives the ValueError goes on with.
abbrev or_unchanged : Applied → TaskRuntime → TaskRuntime
or_unchanged (accepted r') r = r'
or_unchanged (invalid vs) r = r

unfoldable pub attempt : RuntimeEvent → TaskRuntime → TaskRuntime
attempt event r = or_unchanged (apply event r) r

unfoldable pub run : List RuntimeEvent → TaskRuntime → TaskRuntime
run [] r = r
run (e ∷ es) r = run es (attempt e r)
