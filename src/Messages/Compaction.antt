-- ===== src/Messages/Compaction.antt =====
-- Compaction of the conversation: minicodex/agent/context/message_compaction.py and the pressure
-- levels of minicodex/agent/context/budget.py.
pub mod Shape
pub mod Recent
use mini_codex.Common.{
  ℕ, zero, suc, ◌+◌, ◌-◌, ◌≡◌, Bool, true, false, not, ◌&&◌, ◌||◌, Option, none, some, List, [],
  ◌∷◌, ◌++◌, map, drop, null, Text, codes, is_empty, length, ltb, leb, ◌==◌, get_or, if◌then◌else◌,
}
use mini_codex.Common.Dict.{Dict, lookup, assign}
use mini_codex.Validation.Regression.{starts_with, contains}
use mini_codex.Messages.{Role, assistant, tool, other, ToolCall, Message}
use mini_codex.Messages.Payload.{JsonLibrary, summarize_tool_result, omit_large_arguments}

pub data ContextPressure : Type 0 where
  normal warning critical : ContextPressure

abbrev pub calls_tools : Role → List ToolCall → Bool
calls_tools assistant calls = not (null calls)
calls_tools tool calls = false
calls_tools other calls = false

abbrev pub has_tool_calls : Message → Bool
has_tool_calls m = calls_tools m.role m.tool_calls

-- `x or d` on texts
abbrev pub or_text : Text → Text → Text
or_text s d = if is_empty s then d else s

abbrev index_call : ToolCall → Dict (Text × Text) → Dict (Text × Text)
index_call c index =
    if is_empty c.id
    then index
    else assign c.id (or_text c.name (codes "tool"), or_text c.arguments (codes "{}")) index

abbrev index_calls : List ToolCall → Dict (Text × Text) → Dict (Text × Text)
index_calls [] index = index
index_calls (c ∷ cs) index = index_calls cs (index_call c index)

abbrev index_messages : List Message → Dict (Text × Text) → Dict (Text × Text)
index_messages [] index = index
index_messages (m ∷ ms) index = index_messages ms (index_calls m.tool_calls index)

-- The tool and the arguments of every call.
unfoldable pub tool_call_index : List Message → Dict (Text × Text)
tool_call_index ms = index_messages ms []

-- The indexes of the messages that open a round; `i` is the index of the first message.
abbrev pub round_starts : ℕ → List Message → List ℕ
round_starts i [] = []
round_starts i (m ∷ ms) =
    let rest = round_starts (suc i) ms in if has_tool_calls m then i ∷ rest else rest

abbrev first_or_zero : List ℕ → ℕ
first_or_zero [] = 0
first_or_zero (i ∷ is) = i

-- `xs[-k]`, where the list has at least `k` entries; `xs[-0]` is `xs[0]`.
abbrev from_end : ℕ → List ℕ → ℕ
from_end k xs = first_or_zero (if k == 0 then xs else drop (length xs - k) xs)

-- A function at the places below `n`.
abbrev pub map_first : (Message → Message) → ℕ → List Message → List Message
map_first f zero ms = ms
map_first f (suc n) [] = []
map_first f (suc n) (m ∷ ms) = f m ∷ map_first f n ms

-- `for index in range(1, until)`
abbrev from_second : (Message → Message) → ℕ → List Message → List Message
from_second f until [] = []
from_second f until (m ∷ ms) = m ∷ map_first f (until - 1) ms

abbrev is_summary : Text → Bool
is_summary content = starts_with (codes "[") content && contains (codes " chars") content

abbrev is_critical_limit : ℕ → Bool
is_critical_limit max = leb max 200

module _ (j : JsonLibrary) where
  abbrev pub omit_call : ℕ → ToolCall → ToolCall
  omit_call max c = record c {
    arguments = omit_large_arguments j c.name (or_text c.arguments (codes "{}")) max;
  }

  unfoldable pub omit_tool_call_payloads : ℕ → Message → Message
  omit_tool_call_payloads max m =
      if null m.tool_calls then m else record m { tool_calls = map (omit_call max) m.tool_calls }

  -- The first loop of `compact_messages`, on one message.
  abbrev omit_round : ℕ → Message → Message
  omit_round max m = if has_tool_calls m then omit_tool_call_payloads max m else m

  abbrev summarized : Dict (Text × Text) → Message → Message
  summarized index m =
      let call = get_or (lookup m.tool_call_id index) (codes "tool", codes "{}") in
      record m { content = summarize_tool_result j call.0 call.1 m.content }

  abbrev compact_as : Role → Dict (Text × Text) → ℕ → Message → Message
  compact_as tool index max m =
      if leb (length m.content) max || is_summary m.content then m else summarized index m
  compact_as assistant index max m = omit_round max m
  compact_as other index max m = m

  -- One round of the second loop.
  unfoldable pub compact_old : Dict (Text × Text) → ℕ → Message → Message
  compact_old index max m = compact_as m.role index max m

  abbrev shrink_as : Role → Dict (Text × Text) → ℕ → Message → Message
  shrink_as tool index max m = if leb (length m.content) max then m else summarized index m
  shrink_as assistant index max m = m
  shrink_as other index max m = m

  unfoldable pub compact_oversized_recent_results : ℕ → List Message → List Message
  compact_oversized_recent_results max ms =
      let index = tool_call_index ms in map (λ m. shrink_as m.role index max m) ms

  -- The payloads of the calls omitted, from the second message on.
  abbrev omitted : ℕ → List Message → List Message
  omitted max ms = from_second (omit_round max) (length ms) ms

  -- `compact_messages`, after the payloads.
  unfoldable pub compact_rounds : ℕ → ℕ → List Message → List Message
  compact_rounds rounds max ms =
      let starts = round_starts 0 ms in
      let old = from_second (compact_old (tool_call_index ms) max) (from_end rounds starts) ms in
      if leb (length starts) rounds
      then ms
      else if is_critical_limit max
      then compact_oversized_recent_results 6000 old
      else old

  unfoldable pub compact_messages : ℕ → ℕ → List Message → List Message
  compact_messages rounds max messages =
      if ltb (length messages) 2 then messages else compact_rounds rounds max (omitted max messages)

  unfoldable pub compact_messages_for_pressure : List Message → ContextPressure → List Message
  compact_messages_for_pressure ms critical = compact_messages 1 200 ms
  compact_messages_for_pressure ms warning = compact_messages 1 400 ms
  compact_messages_for_pressure ms normal = compact_messages 2 800 ms
