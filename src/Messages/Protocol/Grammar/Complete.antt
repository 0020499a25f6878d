-- ===== src/Messages/Protocol/Grammar/Complete.antt =====
-- What belongs to the grammar the protocol check accepts.
use mini_codex.Common.{
  ◌≡◌, ◌↔◌, inl, inr, refl, ◌∙◌, true, false, none, List, [], ◌∷◌, ◌++◌, arith, Text, same_iff,
  same_refl, strip, null, All, Bool-cases,
}
use mini_codex.Messages.{Role, assistant, tool, other, Message}
use mini_codex.Messages.Protocol.{
  has, Batch, closed_batch, next, has_duplicate, open_batch, without, answer, observe_message,
  validate_from, validate_tool_message_protocol,
}
use mini_codex.Messages.Protocol.Grammar.{
  IsPlain, other_role, no_calls, answer_ids, IsConversation, done, plain, batch, has_discard,
  some_of_null, none_of_null, IsOpen, after_answer, after, answer_pending, IsOpen-after_answer,
  opened, Opens, IsOpen-opened, null_map, validate_next,
}
use mini_codex.Messages.Protocol.Grammar.Sound.{sound}

validate_empty : validate_from closed_batch [] ≡ none
unfolding validate_from
validate_empty = refl

observe_other :
    (r : Role) (m : Message) → r ≡ other → observe_message r m closed_batch ≡ next closed_batch
unfolding observe_message
observe_other r m e = rw e refl

observe_assistant :
    (r : Role) (m : Message)
    → r ≡ assistant
    → observe_message r m closed_batch ≡ open_batch m.tool_calls closed_batch
unfolding observe_message
observe_assistant r m e = rw e refl

observe_tool :
    (r : Role) (m : Message) (b : Batch)
    → r ≡ tool
    → observe_message r m b ≡ answer (strip m.tool_call_id) b
unfolding observe_message
observe_tool r m b e = rw e refl

open_batch_empty : (b : Batch) → open_batch [] b ≡ next b
unfolding open_batch
open_batch_empty b = refl

open_batch-opened :
    (m : Message) (b : Batch) → Opens m → open_batch m.tool_calls b ≡ next (opened m)
unfolding open_batch
open_batch-opened m b o = ground (arith, o.0, o.1.0, o.1.1)

validate_plain :
    (m : Message) (ms : List Message)
    → IsPlain m
    → validate_from closed_batch (m ∷ ms) ≡ validate_from closed_batch ms
validate_plain m ms (other_role e) =
    validate_next closed_batch closed_batch m ms (observe_other m.role m e)
validate_plain m ms (no_calls r e) =
    validate_next closed_batch closed_batch m ms
      (observe_assistant m.role m r ∙ rw e (open_batch_empty closed_batch))

validate_batch :
    (m : Message) (ms : List Message)
    → m.role ≡ assistant
    → Opens m
    → validate_from closed_batch (m ∷ ms) ≡ validate_from (opened m) ms
validate_batch m ms r o =
    validate_next closed_batch (opened m) m ms
      (observe_assistant m.role m r ∙ open_batch-opened m closed_batch o)

-- What is left to answer after an answer is what the rest answers.
matched_rest :
    (id x : Text) (ids xs : List Text)
    → has ids id ≡ false
    → has (id ∷ ids) x ≡ has xs x
    → has ids x ≡ has (without id xs) x
matched_rest id x ids xs d f =
    ground (arith, d, f, has_discard id x xs, same_iff x id, same_iff id x)

none_answer : (ms : List Message) → ((x : Text) → has (answer_ids ms) x ≡ false) → ms ≡ []
none_answer [] f = refl
none_answer (m ∷ ms) f =
    absurd (ground (arith, f (strip m.tool_call_id), same_refl (strip m.tool_call_id)))

validate_answers :
    (answers rest : List Message) (b : Batch)
    → IsOpen b
    → null b.pending ≡ false
    → All (λ a. a.role ≡ tool) answers
    → has_duplicate (answer_ids answers) ≡ false
    → ((x : Text) → has (answer_ids answers) x ≡ has b.pending x)
    → validate_from b (answers ++ rest) ≡ validate_from closed_batch rest
validate_answers [] rest b o h a d f =
    let s = some_of_null b.pending h in absurd (ground (arith, f s.0, s.1))
validate_answers (m ∷ ms) rest b o h a d f =
    let id = strip m.tool_call_id in
    let p : has b.pending id ≡ true = ground (arith, f id, same_refl id) in
    let fresh : has (answer_ids ms) id ≡ false = ground (arith, d) in
    let left = λ (x : Text). matched_rest id x (answer_ids ms) b.pending fresh (f x) in
    let e =
      validate_next b (after id b) m (ms ++ rest)
        (observe_tool m.role m b a.0 ∙ answer_pending id b o p) in
    elim (Bool-cases (null (without id b.pending))) [
      | inl k ↦
          let z = none_answer ms (λ x. left x ∙ none_of_null x (without id b.pending) k) in
          e ∙ rw (k, z) refl
      | inr k ↦
          e
          ∙ rw k (
              validate_answers ms rest (after_answer id b) (IsOpen-after_answer id b o p) k a.1
                (ground (arith, d)) left)
    ]

pub complete : (ms : List Message) → IsConversation ms → validate_from closed_batch ms ≡ none
complete [] done = validate_empty
complete (m ∷ rest) (plain p c) = validate_plain m rest p ∙ complete rest c
complete (m ∷ tail) (batch {answers = answers} {rest = rest} b e c) =
    let o : Opens m = (b.some_call, (b.named, b.distinct)) in
    validate_batch m tail b.from_assistant o
    ∙ rw e (
        validate_answers answers rest (opened m) (IsOpen-opened m)
          (null_map m.tool_calls b.some_call) b.all_answers b.once b.matched)
    ∙ complete rest c

-- The check accepts exactly the conversations in which every batch of calls has names that are
-- there and all different, and is answered, each call once and in any order, before any other
-- message and before the end.
pub validate_iff :
    (ms : List Message) → (validate_tool_message_protocol ms ≡ none) ↔ IsConversation ms
unfolding validate_tool_message_protocol
validate_iff ms = (sound ms, complete ms)
