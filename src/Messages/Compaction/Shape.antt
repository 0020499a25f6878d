-- ===== src/Messages/Compaction/Shape.antt =====
-- What compaction (minicodex/agent/context/message_compaction.py) leaves of the messages.
use mini_codex.Common.{
  ℕ, zero, suc, ◌-◌, ◌≡◌, ◌≢◌, refl, sym, ap, ◌∙◌, Bool, true, false, ◌||◌, Option, some, List, [],
  ◌∷◌, map, null, inl, inr, Text, strip, length, ltb, leb, if◌then◌else◌, Bool-cases,
}
use mini_codex.Common.Dict.{Dict}
use mini_codex.Messages.{Role, assistant, tool, other, ToolCall, Message}
use mini_codex.Messages.Payload.{JsonLibrary}
use mini_codex.Messages.Protocol.{
  ProtocolError, Batch, closed_batch, Observation, next, fault, call_ids, open_batch,
  observe_message, validate_from, validate_tool_message_protocol,
}
use mini_codex.Messages.Compaction.{
  ContextPressure, normal, warning, critical, round_starts, omit_call, omit_tool_call_payloads,
  omit_round, summarized, compact_as, compact_old, map_first, from_second, shrink_as,
  compact_oversized_recent_results, omitted, compact_rounds, compact_messages,
  compact_messages_for_pressure, from_end, tool_call_index, is_critical_limit, is_summary,
  has_tool_calls,
}

abbrev raw_ids : List ToolCall → List Text
raw_ids calls = map (λ c. c.id) calls

abbrev names : List ToolCall → List Text
names calls = map (λ c. c.name) calls

-- The role, the identifiers and the names of the calls and the answered call are the same, and the
-- content is, unless the message is the result of a tool.
pub record SameShape (m m' : Message) : Type 0 where
  pub same_role : m'.role ≡ m.role
  pub same_ids : raw_ids m'.tool_calls ≡ raw_ids m.tool_calls
  pub same_names : names m'.tool_calls ≡ names m.tool_calls
  pub same_answer : m'.tool_call_id ≡ m.tool_call_id
  pub same_content : m.role ≢ tool → m'.content ≡ m.content

pub data SameShapes : List Message → List Message → Type 0 where
  ended : SameShapes [] []
  more :
      {m m' : Message} {ms ms' : List Message}
      → SameShape m m'
      → SameShapes ms ms'
      → SameShapes (m ∷ ms) (m' ∷ ms')

SameShape-refl : (m : Message) → SameShape m m
SameShape-refl m = record {
  same_role = refl;
  same_ids = refl;
  same_names = refl;
  same_answer = refl;
  same_content = λ _. refl;
}

SameShape-trans : {m n o : Message} → SameShape m n → SameShape n o → SameShape m o
SameShape-trans {m} {n} {o} p q = record {
  same_role = q.same_role ∙ p.same_role;
  same_ids = q.same_ids ∙ p.same_ids;
  same_names = q.same_names ∙ p.same_names;
  same_answer = q.same_answer ∙ p.same_answer;
  same_content = λ h. q.same_content (λ e. h (sym p.same_role ∙ e)) ∙ p.same_content h;
}

SameShapes-refl : (ms : List Message) → SameShapes ms ms
SameShapes-refl [] = ended
SameShapes-refl (m ∷ ms) = more (SameShape-refl m) (SameShapes-refl ms)

SameShapes-trans :
    {ms ns os : List Message} → SameShapes ms ns → SameShapes ns os → SameShapes ms os
SameShapes-trans ended q = q
SameShapes-trans (more p ps) (more q qs) = more (SameShape-trans p q) (SameShapes-trans ps qs)

SameShape-if :
    (b : Bool) {m x y : Message} → SameShape m x → SameShape m y → SameShape m (if b then x else y)
SameShape-if true p q = p
SameShape-if false p q = q

SameShapes-if :
    (b : Bool) {ms xs ys : List Message}
    → SameShapes ms xs
    → SameShapes ms ys
    → SameShapes ms (if b then xs else ys)
SameShapes-if true p q = p
SameShapes-if false p q = q

module _ (f : Message → Message) (s : (m : Message) → SameShape m (f m)) where
  SameShapes-map : (ms : List Message) → SameShapes ms (map f ms)
  SameShapes-map [] = ended
  SameShapes-map (m ∷ ms) = more (s m) (SameShapes-map ms)

  SameShapes-map_first : (n : ℕ) (ms : List Message) → SameShapes ms (map_first f n ms)
  SameShapes-map_first zero ms = SameShapes-refl ms
  SameShapes-map_first (suc n) [] = ended
  SameShapes-map_first (suc n) (m ∷ ms) = more (s m) (SameShapes-map_first n ms)

  SameShapes-from_second : (n : ℕ) (ms : List Message) → SameShapes ms (from_second f n ms)
  SameShapes-from_second n [] = ended
  SameShapes-from_second n (m ∷ ms) = more (SameShape-refl m) (SameShapes-map_first (n - 1) ms)

module _ (j : JsonLibrary) where
  raw_ids_omit :
      (max : ℕ) (calls : List ToolCall) → raw_ids (map (omit_call j max) calls) ≡ raw_ids calls
  raw_ids_omit max [] = refl
  raw_ids_omit max (c ∷ cs) = ap (c.id ∷◌) (raw_ids_omit max cs)

  names_omit : (max : ℕ) (calls : List ToolCall) → names (map (omit_call j max) calls) ≡ names calls
  names_omit max [] = refl
  names_omit max (c ∷ cs) = ap (c.name ∷◌) (names_omit max cs)

  SameShape-omit : (max : ℕ) (m : Message) → SameShape m (omit_tool_call_payloads j max m)
  unfolding omit_tool_call_payloads
  SameShape-omit max m = elim (Bool-cases (null m.tool_calls)) [
    | inl k ↦ rw k (SameShape-refl m)
    | inr k ↦ rw k (record {
      same_role = refl;
      same_ids = raw_ids_omit max m.tool_calls;
      same_names = names_omit max m.tool_calls;
      same_answer = refl;
      same_content = λ _. refl;
    })
  ]

  SameShape-summarized :
      (index : Dict (Text × Text)) (m : Message)
      → m.role ≡ tool
      → SameShape m (summarized j index m)
  SameShape-summarized index m e = record {
    same_role = refl;
    same_ids = refl;
    same_names = refl;
    same_answer = refl;
    same_content = λ h. absurd (h e);
  }

  SameShape-omit_round : (max : ℕ) (m : Message) → SameShape m (omit_round j max m)
  SameShape-omit_round max m =
      SameShape-if (has_tool_calls m) (SameShape-omit max m) (SameShape-refl m)

  SameShape-compact_as :
      (r : Role) (index : Dict (Text × Text)) (max : ℕ) (m : Message)
      → m.role ≡ r
      → SameShape m (compact_as j r index max m)
  SameShape-compact_as tool index max m e =
      SameShape-if (leb (length m.content) max || is_summary m.content) (SameShape-refl m)
        (SameShape-summarized index m e)
  SameShape-compact_as assistant index max m e = SameShape-omit_round max m
  SameShape-compact_as other index max m e = SameShape-refl m

  SameShape-compact_old :
      (index : Dict (Text × Text)) (max : ℕ) (m : Message) → SameShape m (compact_old j index max m)
  unfolding compact_old
  SameShape-compact_old index max m = SameShape-compact_as m.role index max m refl

  SameShape-shrink_as :
      (r : Role) (index : Dict (Text × Text)) (max : ℕ) (m : Message)
      → m.role ≡ r
      → SameShape m (shrink_as j r index max m)
  SameShape-shrink_as tool index max m e =
      SameShape-if (leb (length m.content) max) (SameShape-refl m) (SameShape-summarized index m e)
  SameShape-shrink_as assistant index max m e = SameShape-refl m
  SameShape-shrink_as other index max m e = SameShape-refl m

  SameShapes-oversized :
      (max : ℕ) (ms : List Message) → SameShapes ms (compact_oversized_recent_results j max ms)
  unfolding compact_oversized_recent_results
  SameShapes-oversized max ms =
      let index = tool_call_index ms in
      SameShapes-map (λ m. shrink_as j m.role index max m)
        (λ m. SameShape-shrink_as m.role index max m refl) ms

  SameShapes-omitted : (max : ℕ) (ms : List Message) → SameShapes ms (omitted j max ms)
  SameShapes-omitted max ms =
      SameShapes-from_second (omit_round j max) (SameShape-omit_round max) (length ms) ms

  SameShapes-compact_messages :
      (rounds max : ℕ) (ms : List Message) → SameShapes ms (compact_messages j rounds max ms)
  unfolding compact_messages compact_rounds
  SameShapes-compact_messages rounds max ms =
      let some_omitted = omitted j max ms in
      let starts = round_starts 0 some_omitted in
      let index = tool_call_index some_omitted in
      let old = from_second (compact_old j index max) (from_end rounds starts) some_omitted in
      let to_old = SameShapes-trans (SameShapes-omitted max ms) (
        SameShapes-from_second (compact_old j index max) (SameShape-compact_old index max)
          (from_end rounds starts) some_omitted) in
      SameShapes-if (ltb (length ms) 2) (SameShapes-refl ms) (
        SameShapes-if (leb (length starts) rounds) (SameShapes-omitted max ms) (
          SameShapes-if (is_critical_limit max)
            (SameShapes-trans to_old (SameShapes-oversized 6000 old)) to_old))

call_ids_raw : (calls : List ToolCall) → call_ids calls ≡ map strip (raw_ids calls)
call_ids_raw [] = refl
call_ids_raw (c ∷ cs) = ap (strip c.id ∷◌) (call_ids_raw cs)

null_raw : (calls : List ToolCall) → null calls ≡ null (raw_ids calls)
null_raw [] = refl
null_raw (c ∷ cs) = refl

open_batch_same :
    (cs ds : List ToolCall) (b : Batch)
    → raw_ids ds ≡ raw_ids cs
    → open_batch ds b ≡ open_batch cs b
unfolding open_batch
open_batch_same cs ds b e = rw (null_raw ds, null_raw cs, call_ids_raw ds, call_ids_raw cs, e) refl

observe_same :
    (r : Role) {m m' : Message} (b : Batch)
    → SameShape m m'
    → observe_message r m' b ≡ observe_message r m b
unfolding observe_message
observe_same assistant {m} {m'} b s =
    rw (open_batch_same m.tool_calls m'.tool_calls b s.same_ids) refl
observe_same tool {m} {m'} b s = rw s.same_answer refl
observe_same other b s = refl

continue_same :
    (o : Observation) {k l : Batch → Option ProtocolError}
    → ((b : Batch) → k b ≡ l b)
    → ◌≡◌ {A = Option ProtocolError}
        (elim o [ fault e ↦ some e | next b ↦ k b ])
        (elim o [ fault e ↦ some e | next b ↦ l b ])
continue_same (fault e) h = refl
continue_same (next b) h = h b

validate_same :
    {ms ms' : List Message} (b : Batch)
    → SameShapes ms ms'
    → validate_from b ms' ≡ validate_from b ms
unfolding validate_from
validate_same b ended = refl
validate_same b (more {m} {m'} {ms} {ms'} p ps) =
    let k : Observation → Option ProtocolError =
      λ o. elim o [ fault e ↦ some e | next b' ↦ validate_from b' ms' ] in
    ap k (ap (λ r. observe_message r m' b) p.same_role ∙ observe_same m.role b p)
    ∙ continue_same (observe_message m.role m b) {k = λ b'. validate_from b' ms'}
        {l = λ b'. validate_from b' ms} (λ b'. validate_same b' ps)

-- Compaction under any pressure keeps the messages, their roles, the identifiers and the names of
-- their calls, the calls that they answer and the content of every message that is not the result of a tool, and
-- the check of the tool protocol says of the compacted messages what it says of the given ones.
pub compact_messages_lem :
    (j : JsonLibrary) (pressure : ContextPressure) (ms : List Message)
    → let compacted = compact_messages_for_pressure j ms pressure in
      SameShapes ms compacted
      × (validate_tool_message_protocol compacted ≡ validate_tool_message_protocol ms)
unfolding compact_messages_for_pressure validate_tool_message_protocol
compact_messages_lem j normal ms =
    let s = SameShapes-compact_messages j 2 800 ms in (s, validate_same closed_batch s)
compact_messages_lem j warning ms =
    let s = SameShapes-compact_messages j 1 400 ms in (s, validate_same closed_batch s)
compact_messages_lem j critical ms =
    let s = SameShapes-compact_messages j 1 200 ms in (s, validate_same closed_batch s)
