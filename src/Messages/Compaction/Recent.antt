-- ===== src/Messages/Compaction/Recent.antt =====
-- What compaction (minicodex/agent/context/message_compaction.py) leaves of the recent rounds.
use mini_codex.Common.{
  ℕ, zero, suc, ◌-◌, ◌≡◌, ◌≢◌, refl, ap, ◌∙◌, Bool, true, false, not, List, [], ◌∷◌, map, null,
  drop, arith, inl, inr, Text, length, ltb, leb, if◌then◌else◌, Bool-cases,
}
use mini_codex.Messages.{Role, assistant, tool, other, ToolCall, Message}
use mini_codex.Messages.Payload.{JsonLibrary}
use mini_codex.Messages.Compaction.{
  ContextPressure, normal, warning, critical, round_starts, has_tool_calls, calls_tools, omit_call,
  omit_tool_call_payloads, omit_round, compact_old, map_first, from_second, omitted, compact_rounds,
  compact_messages, compact_messages_for_pressure, from_end, tool_call_index, is_critical_limit,
}

abbrev pub contents : List Message → List Text
contents ms = map (λ m. m.content) ms

drop-map_first :
    (f : Message → Message) (n : ℕ) (ms : List Message)
    → drop n (contents (map_first f n ms)) ≡ drop n (contents ms)
drop-map_first f zero ms = refl
drop-map_first f (suc n) [] = refl
drop-map_first f (suc n) (m ∷ ms) = drop-map_first f n ms

drop-from_second :
    (f : Message → Message) (n : ℕ) (ms : List Message)
    → drop n (contents (from_second f n ms)) ≡ drop n (contents ms)
drop-from_second f n [] = refl
drop-from_second f zero (m ∷ ms) = refl
drop-from_second f (suc n) (m ∷ ms) =
    let e : suc n - 1 ≡ n = omega arith in rw e (drop-map_first f n ms)

-- The function keeps the content and whether the message opens a round.
record KeepsContent (f : Message → Message) : Type 0 where
  same_content : (m : Message) → (f m).content ≡ m.content
  same_rounds : (m : Message) → has_tool_calls (f m) ≡ has_tool_calls m

module _ (f : Message → Message) (k : KeepsContent f) where
  contents-map_first : (n : ℕ) (ms : List Message) → contents (map_first f n ms) ≡ contents ms
  contents-map_first zero ms = refl
  contents-map_first (suc n) [] = refl
  contents-map_first (suc n) (m ∷ ms) = rw (k.same_content m, contents-map_first n ms) refl

  contents-from_second : (n : ℕ) (ms : List Message) → contents (from_second f n ms) ≡ contents ms
  contents-from_second n [] = refl
  contents-from_second n (m ∷ ms) = ap (m.content ∷◌) (contents-map_first (n - 1) ms)

  rounds_map_first :
      (n i : ℕ) (ms : List Message) → round_starts i (map_first f n ms) ≡ round_starts i ms
  rounds_map_first zero i ms = refl
  rounds_map_first (suc n) i [] = refl
  rounds_map_first (suc n) i (m ∷ ms) =
      ap
        (λ b.
          if b
          then i ∷ round_starts (suc i) (map_first f n ms)
          else round_starts (suc i) (map_first f n ms))
        (k.same_rounds m)
      ∙ ap (λ is. if has_tool_calls m then i ∷ is else is) (rounds_map_first n (suc i) ms)

  rounds_from_second :
      (n i : ℕ) (ms : List Message) → round_starts i (from_second f n ms) ≡ round_starts i ms
  rounds_from_second n i [] = refl
  rounds_from_second n i (m ∷ ms) =
      ap (λ is. if has_tool_calls m then i ∷ is else is) (rounds_map_first (n - 1) (suc i) ms)

if_same :
    (b : Bool) (m m' : Message)
    → has_tool_calls m' ≡ has_tool_calls m
    → has_tool_calls (if b then m' else m) ≡ has_tool_calls m
if_same true m m' e = e
if_same false m m' e = refl

null_omit :
    (j : JsonLibrary) (max : ℕ) (cs : List ToolCall) → null (map (omit_call j max) cs) ≡ null cs
null_omit j max [] = refl
null_omit j max (c ∷ cs) = refl

calls_tools-null :
    (r : Role) (cs ds : List ToolCall) → null ds ≡ null cs → calls_tools r ds ≡ calls_tools r cs
calls_tools-null assistant cs ds e = ap not e
calls_tools-null tool cs ds e = refl
calls_tools-null other cs ds e = refl

module _ (j : JsonLibrary) (max : ℕ) where
  role_omit : (m : Message) → (omit_tool_call_payloads j max m).role ≡ m.role
  unfolding omit_tool_call_payloads
  role_omit m = ground arith

  content_omit : (m : Message) → (omit_tool_call_payloads j max m).content ≡ m.content
  unfolding omit_tool_call_payloads
  content_omit m = ground arith

  calls_omit : (m : Message) → null (omit_tool_call_payloads j max m).tool_calls ≡ null m.tool_calls
  unfolding omit_tool_call_payloads
  calls_omit m = ground (arith, null_omit j max m.tool_calls)

  has_tool_calls-omit :
      (m : Message) → has_tool_calls (omit_tool_call_payloads j max m) ≡ has_tool_calls m
  has_tool_calls-omit m =
      ap (λ r. calls_tools r (omit_tool_call_payloads j max m).tool_calls) (role_omit m)
      ∙ calls_tools-null m.role m.tool_calls (omit_tool_call_payloads j max m).tool_calls
          (calls_omit m)

  KeepsContent-omit_round : KeepsContent (omit_round j max)
  KeepsContent-omit_round = record {
    same_content = λ m. ground (arith, content_omit m);
    same_rounds =
        λ m. if_same (has_tool_calls m) m (omit_tool_call_payloads j max m) (has_tool_calls-omit m);
  }

  compact_rounds_recent :
      (rounds : ℕ) (ms : List Message)
      → is_critical_limit max ≡ false
      → drop (from_end rounds (round_starts 0 ms)) (contents (compact_rounds j rounds max ms))
        ≡ drop (from_end rounds (round_starts 0 ms)) (contents ms)
  unfolding compact_rounds
  compact_rounds_recent rounds ms mild =
      elim (Bool-cases (leb (length (round_starts 0 ms)) rounds)) [
        | inl few ↦ rw (compact_rounds, few) refl
        | inr many ↦
            rw (compact_rounds, many, mild)
              (drop-from_second (compact_old j (tool_call_index ms) max)
                (from_end rounds (round_starts 0 ms)) ms)
      ]

  -- The contents from the first of the recent rounds on.
  recent_kept :
      (rounds : ℕ) (ms : List Message)
      → is_critical_limit max ≡ false
      → drop (from_end rounds (round_starts 0 ms)) (contents (compact_messages j rounds max ms))
        ≡ drop (from_end rounds (round_starts 0 ms)) (contents ms)
  unfolding compact_messages
  recent_kept rounds ms mild =
      let k = KeepsContent-omit_round in
      let same_contents = contents-from_second (omit_round j max) k (length ms) ms in
      let same_starts = rounds_from_second (omit_round j max) k (length ms) 0 ms in
      elim (Bool-cases (ltb (length ms) 2)) [
        | inl short ↦ rw (compact_messages, short) refl
        | inr long ↦
            rw (compact_messages, long, ← same_starts)
              (compact_rounds_recent rounds (omitted j max ms) mild)
            ∙ ap (drop (from_end rounds (round_starts 0 ms))) same_contents
      ]

-- How many recent rounds a pressure leaves.
abbrev pub rounds_kept : ContextPressure → ℕ
rounds_kept normal = 2
rounds_kept warning = 1
rounds_kept critical = 1

-- Below critical pressure, compaction leaves the contents of the last two rounds as they were, and
-- under warning those of the last one; where there are fewer rounds, those of all of them.
pub compact_messages_recent :
    (j : JsonLibrary) (pressure : ContextPressure) (ms : List Message)
    → pressure ≢ critical
    → let first = from_end (rounds_kept pressure) (round_starts 0 ms) in
      drop first (contents (compact_messages_for_pressure j ms pressure)) ≡ drop first (contents ms)
unfolding compact_messages_for_pressure
compact_messages_recent j normal ms mild = recent_kept j 800 2 ms refl
compact_messages_recent j warning ms mild = recent_kept j 400 1 ms refl
compact_messages_recent j critical ms mild = absurd (mild refl)
