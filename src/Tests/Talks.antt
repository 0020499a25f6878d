-- ===== src/Tests/Talks.antt =====
-- Runs of the protocol check and of the compaction of messages (minicodex/agent/orchestration/message_protocol.py,
-- minicodex/agent/context/message_compaction.py).
use mini_codex.Common.{
  ℕ, zero, suc, ◌≡◌, ◌↔◌, ◌≢◌, refl, none, some, List, [], ◌∷◌, Text, codes, same, strip, lstrip,
  is_empty,
}
use mini_codex.Messages.{assistant, tool, other, ToolCall, Message}
use mini_codex.Messages.Payload.{
  JsonLibrary, summarize_tool_result, tool_result_failed, parse_arguments, omit_large_arguments,
}
use mini_codex.Validation.Regression.{starts_with, contains}
use mini_codex.Common.Dict.{lookup, assign}
use mini_codex.Common.Decimal.{decimal}
use mini_codex.Messages.Protocol.{
  validate_tool_message_protocol, validate_from, observe_message, open_batch, answer,
  answered_twice, ends_open,
}
use mini_codex.Messages.Protocol.Grammar.{IsConversation, Opens}
use mini_codex.Messages.Protocol.Grammar.Complete.{validate_iff}
use mini_codex.Messages.Compaction.{
  critical, warning, compact_rounds, compact_messages, compact_old, omit_tool_call_payloads,
  compact_oversized_recent_results, tool_call_index, compact_messages_for_pressure,
}
use mini_codex.Messages.Compaction.Recent.{contents}
use mini_codex.Messages.Compaction.Shape.{SameShapes, compact_messages_lem}

abbrev question : Message
question = record { role = other; content = codes "fix it"; tool_calls = []; tool_call_id = [] }

abbrev call_of : Text → Text → ToolCall
call_of id name = record { id = id; name = name; arguments = codes "{}" }

abbrev calling : List ToolCall → Message
calling calls = record { role = assistant; content = []; tool_calls = calls; tool_call_id = [] }

abbrev answering : Text → Text → Message
answering id content = record { role = tool; content = content; tool_calls = []; tool_call_id = id }

abbrev two_calls : List ToolCall
two_calls = call_of (codes "a") (codes "read_file") ∷ call_of (codes "b") (codes "run_tests") ∷ []

abbrev answered_talk : List Message
answered_talk =
    question
    ∷ calling two_calls
    ∷ answering (codes " b ") (codes "2 passed")
    ∷ answering (codes "a") (codes "x = 1")
    ∷ []

answered_talk_passes : validate_tool_message_protocol answered_talk ≡ none
unfolding validate_tool_message_protocol validate_from observe_message open_batch answer same strip
    lstrip
answered_talk_passes = refl

open_talk_fails :
    validate_tool_message_protocol (calling two_calls ∷ answering (codes "a") [] ∷ [])
    ≡ some ends_open
unfolding validate_tool_message_protocol validate_from observe_message open_batch answer same strip
    lstrip
open_talk_fails = refl

twice_answered_fails :
    validate_tool_message_protocol
      (calling two_calls ∷ answering (codes "a") [] ∷ answering (codes "a") [] ∷ [])
    ≡ some answered_twice
unfolding validate_tool_message_protocol validate_from observe_message open_batch answer same strip
    lstrip
twice_answered_fails = refl

validate_iff_example :
    (validate_tool_message_protocol answered_talk ≡ none) ↔ IsConversation answered_talk
validate_iff_example = validate_iff answered_talk

two_calls_open : Opens (calling two_calls)
unfolding same strip lstrip
two_calls_open = (refl, (refl, refl))

-- Arguments without entries.
abbrev no_json : JsonLibrary
no_json = record {
  Args = Text;
  loads = λ t. some t;
  dumps = λ t. t;
  no_entries = is_empty;
  entry = λ key args. none;
  true_entry = λ key args. none;
  with_entry = λ key text args. args;
  single = λ key text. text;
  last_count = λ token content. none;
  lower = λ t. t;
}

abbrev letters : ℕ → Text
letters zero = []
letters (suc n) = b'x' ∷ letters n

-- Two rounds, the first with a result of 300 characters.
abbrev long_talk : List Message
long_talk =
    question
    ∷ calling (call_of (codes "a") (codes "list_files") ∷ [])
    ∷ answering (codes "a") (letters 300)
    ∷ calling (call_of (codes "b") (codes "list_files") ∷ [])
    ∷ answering (codes "b") (letters 300)
    ∷ []

compact_messages_lem_example :
    let compacted = compact_messages_for_pressure no_json long_talk critical in
    SameShapes long_talk compacted
    × (validate_tool_message_protocol compacted ≡ validate_tool_message_protocol long_talk)
compact_messages_lem_example = compact_messages_lem no_json critical long_talk

warning_is_not_critical : warning ≢ critical
warning_is_not_critical e = cc

-- The first of the two results is summarized.
long_talk_compacted :
    contents (compact_messages_for_pressure no_json long_talk critical)
    ≡ codes "fix it" ∷ [] ∷ codes "[list_files] (300 chars)" ∷ [] ∷ letters 300 ∷ []
unfolding compact_messages_for_pressure compact_messages compact_rounds compact_old
    omit_tool_call_payloads compact_oversized_recent_results tool_call_index summarize_tool_result
    tool_result_failed parse_arguments lookup assign same strip lstrip decimal starts_with contains
    omit_large_arguments
long_talk_compacted = refl
