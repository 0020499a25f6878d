-- ===== src/Messages/Protocol/Grammar/Sound.antt =====
-- What the protocol check accepts belongs to the grammar.
use mini_codex.Common.{
  ◌≡◌, ◌≢◌, ◌⊎◌, inl, inr, refl, sym, ap, ◌∙◌, true, false, none, List, [], ◌∷◌, ◌++◌, arith, Text,
  same_iff, same_refl, strip, null, All, Bool-cases,
}
use mini_codex.Messages.{Role, assistant, tool, other, Message}
use mini_codex.Messages.Protocol.{
  ProtocolError, has, Batch, closed_batch, Observation, next, fault, has_duplicate, open_batch,
  without, answer, observe_message, validate_from,
}
use mini_codex.Messages.Protocol.Grammar.{
  IsPlain, other_role, no_calls, answer_ids, IsConversation, done, plain, batch, has_discard,
  none_of_null, IsOpen, after_answer, after, answer_pending, pending_of_answer, IsOpen-after_answer,
  opened, Opens, IsOpen-opened, null_map, validate_next,
}

-- The rest of an open batch, and the conversation behind it.
record Answered (b : Batch) (ms : List Message) : Type 0 where
  answers : List Message
  rest : List Message
  splits : ms ≡ answers ++ rest
  all_answers : All (λ a. a.role ≡ tool) answers
  once : has_duplicate (answer_ids answers) ≡ false
  matched : (x : Text) → has (answer_ids answers) x ≡ has b.pending x
  conversation : IsConversation rest

Answered-last :
    (m : Message) (ms : List Message) (b : Batch)
    → m.role ≡ tool
    → has b.pending (strip m.tool_call_id) ≡ true
    → null (without (strip m.tool_call_id) b.pending) ≡ true
    → IsConversation ms
    → Answered b (m ∷ ms)
Answered-last m ms b t h e c = record {
  answers = m ∷ [];
  rest = ms;
  splits = refl;
  all_answers = (t, tt);
  once = refl;
  matched = λ x. ground (
    arith,
    has_discard (strip m.tool_call_id) x b.pending,
    none_of_null x (without (strip m.tool_call_id) b.pending) e,
    same_iff x (strip m.tool_call_id),
    same_iff (strip m.tool_call_id) x,
  );
  conversation = c;
}

Answered-more :
    (m : Message) (ms : List Message) (b : Batch)
    → m.role ≡ tool
    → has b.pending (strip m.tool_call_id) ≡ true
    → Answered (after_answer (strip m.tool_call_id) b) ms
    → Answered b (m ∷ ms)
Answered-more m ms b t h a = record {
  answers = m ∷ a.answers;
  rest = a.rest;
  splits = ap (m ∷◌) a.splits;
  all_answers = (t, a.all_answers);
  once = ground (
    arith,
    a.once,
    a.matched (strip m.tool_call_id),
    has_discard (strip m.tool_call_id) (strip m.tool_call_id) b.pending,
    same_refl (strip m.tool_call_id),
  );
  matched = λ x. ground (
    arith,
    a.matched x,
    has_discard (strip m.tool_call_id) x b.pending,
    same_iff x (strip m.tool_call_id),
    same_iff (strip m.tool_call_id) x,
  );
  conversation = a.conversation;
}

accepted_open :
    (r : Role) (m : Message) (b b' : Batch)
    → IsOpen b
    → null b.pending ≡ false
    → observe_message r m b ≡ next b'
    → (r ≡ tool)
      × ((has b.pending (strip m.tool_call_id) ≡ true) × (b' ≡ after (strip m.tool_call_id) b))
unfolding observe_message
accepted_open assistant m b b' o h e = absurd (ground arith)
accepted_open other m b b' o h e = absurd (ground arith)
accepted_open tool m b b' o h e =
    let p = pending_of_answer (strip m.tool_call_id) b b' o e in
    (refl, (p, ground (arith, e, answer_pending (strip m.tool_call_id) b o p)))

accepted_closed :
    (r : Role) (m : Message) (b' : Batch)
    → observe_message r m closed_batch ≡ next b'
    → (((r ≡ other) ⊎ ((r ≡ assistant) × (null m.tool_calls ≡ true))) × (b' ≡ closed_batch))
      ⊎ ((r ≡ assistant) × (Opens m × (b' ≡ opened m)))
unfolding observe_message open_batch answer
accepted_closed assistant m b' e = ground arith
accepted_closed tool m b' e = absurd (ground arith)
accepted_closed other m b' e = ground arith

Observation-cases :
    (o : Observation) → ((e : ProtocolError) × (o ≡ fault e)) ⊎ ((b : Batch) × (o ≡ next b))
Observation-cases (next b) = inr (b, refl)
Observation-cases (fault e) = inl (e, refl)

validate_cons :
    (b : Batch) (m : Message) (ms : List Message)
    → validate_from b (m ∷ ms) ≡ none
    → (b' : Batch) × ((observe_message m.role m b ≡ next b') × (validate_from b' ms ≡ none))
unfolding validate_from
validate_cons b m ms e = elim (Observation-cases (observe_message m.role m b)) [
  | inl f ↦ absurd (ground (arith, e, f.1))
  | inr n ↦ (n.0, (n.1, sym (validate_next b n.0 m ms n.1) ∙ e))
]

never_ends_open : (b : Batch) → null b.pending ≡ false → validate_from b [] ≢ none
unfolding validate_from
never_ends_open b h e = ground (arith, h, e)

IsPlain-message :
    (m : Message)
    → (m.role ≡ other) ⊎ ((m.role ≡ assistant) × (null m.tool_calls ≡ true))
    → IsPlain m
IsPlain-message m (inl e) = other_role e
IsPlain-message m (inr e) = no_calls e.0 (ground (arith, e.1))

Answered-batch :
    (m : Message) (ms : List Message)
    → m.role ≡ assistant
    → Opens m
    → Answered (opened m) ms
    → IsConversation (m ∷ ms)
Answered-batch m ms r o a =
    batch {answers = a.answers} {rest = a.rest}
      (record {
        from_assistant = r;
        some_call = o.0;
        named = o.1.0;
        distinct = o.1.1;
        all_answers = a.all_answers;
        once = a.once;
        matched = a.matched;
      })
      a.splits a.conversation

sound_both :
    (ms : List Message)
    → (validate_from closed_batch ms ≡ none → IsConversation ms)
      × ((b : Batch)
          → IsOpen b
          → null b.pending ≡ false
          → validate_from b ms ≡ none
          → Answered b ms)
sound_both [] = (λ e. done, λ b o h e. absurd (never_ends_open b h e))
sound_both (m ∷ ms) =
    let ih = sound_both ms in
    (
      λ e.
          let s = validate_cons closed_batch m ms e in
          elim (accepted_closed m.role m s.0 s.1.0) [
            | inl p ↦ plain (IsPlain-message m p.0) (ih.0 (rw p.1 at s.1.1))
            | inr p ↦ Answered-batch m ms p.0 p.1.0 (
                ih.1 (opened m) (IsOpen-opened m) (null_map m.tool_calls p.1.0.0)
                  (rw p.1.1 at s.1.1))
          ],
      λ b o h e.
          let s = validate_cons b m ms e in
          let a = accepted_open m.role m b s.0 o h s.1.0 in
          elim (Bool-cases (null (without (strip m.tool_call_id) b.pending))) [
            | inl k ↦ Answered-last m ms b a.0 a.1.0 k (ih.0 (rw (a.1.1, k) at s.1.1))
            | inr k ↦ Answered-more m ms b a.0 a.1.0 (
                ih.1 (after_answer (strip m.tool_call_id) b)
                  (IsOpen-after_answer (strip m.tool_call_id) b o a.1.0) k (rw (a.1.1, k) at s.1.1))
          ],
    )

pub sound : (ms : List Message) → validate_from closed_batch ms ≡ none → IsConversation ms
sound ms = (sound_both ms).0
