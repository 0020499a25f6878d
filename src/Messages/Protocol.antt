-- ===== src/Messages/Protocol.antt =====
-- minicodex/agent/orchestration/message_protocol.py: every batch of tool calls is answered in place.
pub mod Grammar
use mini_codex.Common.{
  ◌≡◌, Bool, true, false, not, ◌&&◌, ◌||◌, Option, none, some, List, [], ◌∷◌, ◌++◌, map, Text, same,
  strip, is_empty, any, keep, null, if◌then◌else◌,
}
use mini_codex.Messages.{Role, assistant, tool, other, ToolCall, Message}

-- Why `validate_tool_message_protocol` raises.
pub data ProtocolError : Type 0 where
  open_before_assistant empty_id duplicate_ids no_open_batch undeclared_id : ProtocolError
  answered_twice interleaved ends_open : ProtocolError

-- `x in xs`
abbrev pub has : List Text → Text → Bool
has xs x = any (same x) xs

-- The variables of the loop; the sets are lists without duplicates.
pub record Batch : Type 0 where
  pub pending_order : List Text
  pub pending : List Text
  pub answered : List Text

abbrev pub closed_batch : Batch
closed_batch = record { pending_order = []; pending = []; answered = [] }

pub data Observation : Type 0 where
  next : Batch → Observation
  fault : ProtocolError → Observation

abbrev pub call_ids : List ToolCall → List Text
call_ids calls = map (λ c. strip c.id) calls

-- Some item stands twice in the list.
abbrev pub has_duplicate : List Text → Bool
has_duplicate [] = false
has_duplicate (x ∷ xs) = has xs x || has_duplicate xs

unfoldable pub open_batch : List ToolCall → Batch → Observation
open_batch calls b =
    let ids = call_ids calls in
    if null calls
    then next b
    else if any is_empty ids
    then fault empty_id
    else if has_duplicate ids
    then fault duplicate_ids
    else next (record { pending_order = ids; pending = ids; answered = [] })

-- `pending.discard(x)`
abbrev pub without : Text → List Text → List Text
without x xs = keep (λ y. not (same x y)) xs

unfoldable pub answer : Text → Batch → Observation
answer id b =
    if null b.pending_order
    then fault no_open_batch
    else if not (has b.pending_order id)
    then fault undeclared_id
    else if has b.answered id
    then fault answered_twice
    else if null (without id b.pending)
    then next closed_batch
    else next (record b { pending = without id b.pending; answered = id ∷ b.answered })

-- One round of the loop.
unfoldable pub observe_message : Role → Message → Batch → Observation
observe_message assistant m b =
    if not (null b.pending) then fault open_before_assistant else open_batch m.tool_calls b
observe_message tool m b = answer (strip m.tool_call_id) b
observe_message other m b = if not (null b.pending) then fault interleaved else next b

-- `none` is the True that the function returns.
unfoldable pub validate_from : Batch → List Message → Option ProtocolError
validate_from b [] = if null b.pending then none else some ends_open
validate_from b (m ∷ ms) = elim (observe_message m.role m b) [
  | fault e ↦ some e
  | next b' ↦ validate_from b' ms
]

unfoldable pub validate_tool_message_protocol : List Message → Option ProtocolError
validate_tool_message_protocol ms = validate_from closed_batch ms

-- The answer to a call that is skipped; the text carries the reason.
abbrev pub skipped_answer : Text → ToolCall → Message
skipped_answer content c = record {
  role = tool;
  content = content;
  tool_calls = [];
  tool_call_id = strip c.id;
}

-- The user message that follows, if there is one.
abbrev pub with_followup : Option Text → List Message → List Message
with_followup none ms = ms
with_followup (some t) ms =
    if is_empty t
    then ms
    else ms ++ (record { role = other; content = t; tool_calls = []; tool_call_id = [] }) ∷ []

-- `close_tool_batch_before_control_transition`: the messages with the batch closed and the
-- follow-up appended, and the error if it raises, after which the follow-up is not appended.
unfoldable pub close_tool_batch :
    List Message → List ToolCall → Text → Option Text → List Message × Option ProtocolError
close_tool_batch ms remaining skipped followup =
    let closed = ms ++ map (skipped_answer skipped) remaining in
    elim (validate_tool_message_protocol closed) [
      | some e ↦ (closed, some e)
      | none ↦ (with_followup followup closed, none)
    ]
