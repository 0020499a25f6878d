-- ===== src/Messages/Protocol/Grammar.antt =====
-- What minicodex/agent/orchestration/message_protocol.py accepts, as a grammar of conversations.
pub mod Sound
pub mod Complete
pub mod Closing
use mini_codex.Common.{
  ◌≡◌, ◌≢◌, ◌↔◌, ◌⊎◌, inl, inr, refl, sym, ap, ◌∙◌, Bool, true, false, not, ◌&&◌, ◌||◌, Option,
  none, some, List, [], ◌∷◌, ◌++◌, map, arith, Text, same, same_iff, same_refl, strip, is_empty,
  any, keep, null, All, Bool-cases, Option-cases, if◌then◌else◌,
}
use mini_codex.Messages.{Role, assistant, tool, other, ToolCall, Message}
use mini_codex.Messages.Protocol.{
  ProtocolError, has, Batch, closed_batch, Observation, next, fault, call_ids, has_duplicate,
  open_batch, without, answer, observe_message, validate_from, validate_tool_message_protocol,
}

-- Neither a batch of calls nor an answer.
pub data IsPlain (m : Message) : Type 0 where
  other_role : m.role ≡ other → IsPlain m
  no_calls : m.role ≡ assistant → m.tool_calls ≡ [] → IsPlain m

abbrev pub answer_ids : List Message → List Text
answer_ids ms = map (λ m. strip m.tool_call_id) ms

-- The calls have names, all different, and the answers, in any order, are one for each call.
pub record IsBatch (m : Message) (answers : List Message) : Type 0 where
  pub from_assistant : m.role ≡ assistant
  pub some_call : null m.tool_calls ≡ false
  pub named : any is_empty (call_ids m.tool_calls) ≡ false
  pub distinct : has_duplicate (call_ids m.tool_calls) ≡ false
  pub all_answers : All (λ a. a.role ≡ tool) answers
  pub once : has_duplicate (answer_ids answers) ≡ false
  pub matched : (x : Text) → has (answer_ids answers) x ≡ has (call_ids m.tool_calls) x

-- Plain messages, and batches with their answers directly behind them.
pub data IsConversation : List Message → Type 0 where
  done : IsConversation []
  plain :
      {m : Message} {ms : List Message} → IsPlain m → IsConversation ms → IsConversation (m ∷ ms)
  batch :
      {m : Message} {answers rest ms : List Message}
      → IsBatch m answers
      → ms ≡ answers ++ rest
      → IsConversation rest
      → IsConversation (m ∷ ms)

pub has_discard :
    (x y : Text) (xs : List Text) → has (without x xs) y ≡ (has xs y && not (same x y))
has_discard x y [] = refl
has_discard x y (z ∷ xs) =
    ground (arith, same_iff x z, same_iff y z, same_iff x y, has_discard x y xs)

pub some_of_null : (xs : List Text) → null xs ≡ false → (x : Text) × (has xs x ≡ true)
some_of_null [] h = absurd (cc)
some_of_null (x ∷ xs) h = (x, ground (arith, same_refl x))

pub none_of_null : (x : Text) (xs : List Text) → null xs ≡ true → has xs x ≡ false
none_of_null x [] h = refl
none_of_null x (y ∷ xs) h = cc

-- The calls of the open batch are those to be answered and those answered.
pub record IsOpen (b : Batch) : Type 0 where
  pub covers : (x : Text) → has b.pending_order x ≡ (has b.pending x || has b.answered x)
  pub apart : (x : Text) → (has b.pending x && has b.answered x) ≡ false

-- The batch after an answer that leaves some call open.
abbrev pub after_answer : Text → Batch → Batch
after_answer id b = record b { pending = without id b.pending; answered = id ∷ b.answered }

abbrev pub after : Text → Batch → Batch
after id b = if null (without id b.pending) then closed_batch else after_answer id b

pub answer_pending :
    (id : Text) (b : Batch) → IsOpen b → has b.pending id ≡ true → answer id b ≡ next (after id b)
unfolding answer
answer_pending id b o h = ground (arith, o.covers id, o.apart id, none_of_null id b.pending_order)

pub pending_of_answer :
    (id : Text) (b b' : Batch) → IsOpen b → answer id b ≡ next b' → has b.pending id ≡ true
unfolding answer
pending_of_answer id b b' o h = ground (arith, o.covers id)

pub IsOpen-after_answer :
    (id : Text) (b : Batch) → IsOpen b → has b.pending id ≡ true → IsOpen (after_answer id b)
IsOpen-after_answer id b o h = record {
  covers =
      λ x. ground (arith, has_discard id x b.pending, same_iff x id, same_iff id x, o.covers x);
  apart = λ x. ground (arith, has_discard id x b.pending, same_iff x id, same_iff id x, o.apart x);
}

abbrev pub opened : Message → Batch
opened m = record {
  pending_order = call_ids m.tool_calls;
  pending = call_ids m.tool_calls;
  answered = [];
}

-- What a batch of calls has whatever its answers are.
abbrev pub Opens : Message → Type 0
Opens m =
    (null m.tool_calls ≡ false)
    × ((any is_empty (call_ids m.tool_calls) ≡ false)
        × (has_duplicate (call_ids m.tool_calls) ≡ false))

pub IsOpen-opened : (m : Message) → IsOpen (opened m)
IsOpen-opened m = record { covers = λ x. ground (arith); apart = λ x. ground (arith) }

pub null_map : (calls : List ToolCall) → null calls ≡ false → null (call_ids calls) ≡ false
null_map [] h = h
null_map (c ∷ cs) h = h

pub validate_next :
    (b b' : Batch) (m : Message) (ms : List Message)
    → observe_message m.role m b ≡ next b'
    → validate_from b (m ∷ ms) ≡ validate_from b' ms
unfolding validate_from
validate_next b b' m ms e = rw (validate_from, e) refl
