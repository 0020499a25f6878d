-- ===== src/Messages/Protocol/Grammar/Closing.antt =====
-- close_tool_batch_before_control_transition of minicodex/agent/orchestration/message_protocol.py.
use mini_codex.Common.{
  ◌≡◌, refl, sym, ap, ◌∙◌, Option, none, some, List, [], ◌∷◌, ◌++◌, map, Text, strip, All,
}
use mini_codex.Common.Strips.{strip-strip}
use mathlib.Core.List.{append_assoc, append-nil, map-append}
use mini_codex.Messages.{assistant, tool, ToolCall, Message}
use mini_codex.Messages.Protocol.{
  call_ids, has, has_duplicate, skipped_answer, with_followup, close_tool_batch,
}
use mini_codex.Messages.Protocol.Grammar.{
  other_role, answer_ids, IsConversation, done, plain, batch, Opens,
}
use mini_codex.Messages.Protocol.Grammar.Complete.{validate_iff}

IsConversation-append :
    (h t : List Message) → IsConversation h → IsConversation t → IsConversation (h ++ t)
IsConversation-append [] t done c = c
IsConversation-append (m ∷ h) t (plain p d) c = plain p (IsConversation-append h t d c)
IsConversation-append (m ∷ h) t (batch {answers = a} {rest = r} b e d) c =
    batch {answers = a} {rest = r ++ t} b (ap (◌++ t) e ∙ append_assoc a r t)
      (IsConversation-append r t d c)

answer_ids_skipped :
    (skipped : Text) (calls : List ToolCall)
    → answer_ids (map (skipped_answer skipped) calls) ≡ call_ids calls
answer_ids_skipped s [] = refl
answer_ids_skipped s (c ∷ cs) = rw (strip-strip c.id, answer_ids_skipped s cs) refl

tools_append :
    (xs ys : List Message)
    → All (λ a. a.role ≡ tool) xs
    → All (λ a. a.role ≡ tool) ys
    → All (λ a. a.role ≡ tool) (xs ++ ys)
tools_append [] ys p q = q
tools_append (x ∷ xs) ys p q = (p.0, tools_append xs ys p.1 q)

tools_skipped :
    (skipped : Text) (calls : List ToolCall)
    → All (λ a. a.role ≡ tool) (map (skipped_answer skipped) calls)
tools_skipped s [] = tt
tools_skipped s (c ∷ cs) = (refl, tools_skipped s cs)

with_followup_valid :
    (followup : Option Text) (ms : List Message)
    → IsConversation ms
    → IsConversation (with_followup followup ms)
with_followup_valid none ms c = c
with_followup_valid (some []) ms c = c
with_followup_valid (some (t ∷ ts)) ms c =
    IsConversation-append ms (_ ∷ []) c (plain (other_role refl) done)

close_tool_batch_valid :
    (ms : List Message) (remaining : List ToolCall) (skipped : Text) (followup : Option Text)
    → IsConversation (ms ++ map (skipped_answer skipped) remaining)
    → close_tool_batch ms remaining skipped followup
      ≡ (with_followup followup (ms ++ map (skipped_answer skipped) remaining), none)
unfolding close_tool_batch
close_tool_batch_valid ms remaining skipped followup c =
    rw (close_tool_batch, (validate_iff (ms ++ map (skipped_answer skipped) remaining)).1 c) refl

-- A batch whose calls from some place on are skipped is closed without an error, whatever the
-- messages before it are as long as they are accepted, and the messages are accepted then, with
-- the follow-up or without.
pub close_tool_batch_lem :
    (history answers : List Message) (m : Message) (first remaining : List ToolCall)
    (skipped : Text) (followup : Option Text)
    → IsConversation history
    → m.role ≡ assistant
    → Opens m
    → m.tool_calls ≡ first ++ remaining
    → All (λ a. a.role ≡ tool) answers
    → answer_ids answers ≡ call_ids first
    → let closed = close_tool_batch (history ++ m ∷ answers) remaining skipped followup in
      (closed.1 ≡ none) × IsConversation closed.0
close_tool_batch_lem history answers m first remaining skipped followup h r o e a i =
    let skips = map (skipped_answer skipped) remaining in
    let ids : answer_ids (answers ++ skips) ≡ call_ids m.tool_calls =
      rw
        (
          map-append (λ (x : Message). strip x.tool_call_id) answers skips,
          e,
          map-append (λ (c : ToolCall). strip c.id) first remaining,
          answer_ids_skipped skipped remaining,
          i,
        )
        refl in
    let whole : IsConversation ((history ++ m ∷ answers) ++ skips) =
      rw (append_assoc history (m ∷ answers) skips) (
        IsConversation-append history (m ∷ (answers ++ skips)) h (
          batch {answers = answers ++ skips} {rest = []}
            (record {
              from_assistant = r;
              some_call = o.0;
              named = o.1.0;
              distinct = o.1.1;
              all_answers = tools_append answers skips a (tools_skipped skipped remaining);
              once = ap has_duplicate ids ∙ o.1.1;
              matched = λ x. ap (λ ids. has ids x) ids;
            })
            (sym (append-nil (answers ++ skips))) done)) in
    rw (close_tool_batch_valid (history ++ m ∷ answers) remaining skipped followup whole)
      (refl, with_followup_valid followup ((history ++ m ∷ answers) ++ skips) whole)
