-- ===== src/Control/Cancellation.antt =====
-- `CancellationToken` of minicodex/agent/runtime/execution_control.py: whole calls, and the steps in
-- which the calls of several threads interleave.
use mini_codex.Common.{
  ℕ, suc, ◌+◌, ◌≡◌, inl, inr, refl, ap, ◌∙◌, Bool, true, false, not, Option, none, some, arith,
  Text, codes, strip, is_empty, Bool-cases, if◌then◌else◌,
}

pub record CancellationToken : Type 0 where
  pub is_cancelled : Bool
  pub reason : Option Text

abbrev pub new_token : CancellationToken
new_token = record { is_cancelled = false; reason = none }

-- `str(reason).strip() or ...`
abbrev pub reason_text : Text → Text
reason_text reason =
    if is_empty (strip reason) then codes "Task cancelled by caller." else strip reason

unfoldable pub cancel : Text → CancellationToken → CancellationToken × Bool
cancel reason t =
    if t.is_cancelled
    then (t, false)
    else (record { is_cancelled = true; reason = some (reason_text reason) }, true)

abbrev or_cancelled : Option Text → Text
or_cancelled none = codes "Task cancelled."
or_cancelled (some r) = if is_empty r then codes "Task cancelled." else r

-- The text of ExecutionCancelled, if it is raised.
unfoldable pub raise_if_cancelled : CancellationToken → Option Text
raise_if_cancelled t = if t.is_cancelled then some (or_cancelled t.reason) else none

-- Where the thread that holds the lock stands in `cancel`.
pub data Holder : Type 0 where
  nobody : Holder
  before_reason : Text → Holder
  before_event after_event : Holder

-- The token while calls run; `leaving` counts the calls that have given up the lock and are about to
-- return True, and `won` those that have.
pub record Shared : Type 0 where
  pub token : CancellationToken
  pub holder : Holder
  pub leaving : ℕ
  pub won : ℕ

abbrev pub started : Shared
started = record { token = new_token; holder = nobody; leaving = 0; won = 0 }

-- One step of one thread in `cancel`. Reads of the event take no lock, and change nothing.
pub data TokenStep (s s' : Shared) : Type 0 where
  enter :
      (reason : Text)
      → s.holder ≡ nobody
      → s.token.is_cancelled ≡ false
      → s' ≡ record s { holder = before_reason reason }
      → TokenStep s s'
  refuse : s.holder ≡ nobody → s.token.is_cancelled ≡ true → s' ≡ s → TokenStep s s'
  write_reason :
      (reason : Text)
      → s.holder ≡ before_reason reason
      → s' ≡ record s {
        token = record (s.token) { reason = some (reason_text reason) };
        holder = before_event;
      }
      → TokenStep s s'
  set_event :
      s.holder ≡ before_event
      → s' ≡ record s { token = record (s.token) { is_cancelled = true }; holder = after_event }
      → TokenStep s s'
  release :
      s.holder ≡ after_event
      → s' ≡ record s { holder = nobody; leaving = suc s.leaving }
      → TokenStep s s'
  return_true :
      (others : ℕ)
      → s.leaving ≡ suc others
      → s' ≡ record s { leaving = others; won = suc s.won }
      → TokenStep s s'

-- The states that the threads reach.
pub data IsReachable : Shared → Type 0 where
  start : IsReachable started
  then_step : {s s' : Shared} → IsReachable s → TokenStep s s' → IsReachable s'

abbrev pub has_reason : Option Text → Bool
has_reason none = false
has_reason (some r) = not (is_empty r)

-- The holder will change the token.
abbrev is_writing : Holder → Bool
is_writing nobody = false
is_writing (before_reason r) = true
is_writing before_event = true
is_writing after_event = false

-- The calls that have set the event and have not given up the lock.
abbrev pub past_event : Holder → ℕ
past_event after_event = 1
past_event _ = 0

abbrev is_before_event : Holder → Bool
is_before_event before_event = true
is_before_event _ = false

-- What holds in between: a set event has a reason and one winner, and nobody who writes.
record IsOrdered (s : Shared) : Type 0 where
  told : s.token.is_cancelled ≡ true → has_reason s.token.reason ≡ true
  alone : s.token.is_cancelled ≡ true → is_writing s.holder ≡ false
  winner : s.won + s.leaving + past_event s.holder ≡ (if s.token.is_cancelled then 1 else 0)
  written : is_before_event s.holder ≡ true → has_reason s.token.reason ≡ true

has_reason-reason_text : (r : Text) → has_reason (some (reason_text r)) ≡ true
has_reason-reason_text r = ground arith

IsOrdered-step : (s s' : Shared) → IsOrdered s → TokenStep s s' → IsOrdered s'
IsOrdered-step s s' o (enter reason free unset e) = rw e (record {
  told = λ h. absurd (cc (h, unset));
  alone = λ h. absurd (cc (h, unset));
  winner = ground (arith, o.winner, free);
  written = λ h. absurd (cc h);
})
IsOrdered-step s s' o (refuse free done e) = rw e o
IsOrdered-step s s' o (write_reason reason held e) = rw e (record {
  told = λ _. has_reason-reason_text reason;
  alone = λ h. ground (arith, o.alone h, held);
  winner = ground (arith, o.winner, held);
  written = λ _. has_reason-reason_text reason;
})
IsOrdered-step s s' o (set_event held e) = rw e (record {
  told = λ _. o.written (rw held refl);
  alone = λ _. refl;
  winner = elim (Bool-cases s.token.is_cancelled) [
    | inl k ↦ absurd (ground (arith, o.alone k, held))
    | inr k ↦ ground (arith, o.winner, k, held)
  ];
  written = λ h. absurd (cc h);
})
IsOrdered-step s s' o (release held e) = rw e (record {
  told = o.told;
  alone = λ _. refl;
  winner = ground (arith, o.winner, held);
  written = λ h. absurd (cc h);
})
IsOrdered-step s s' o (return_true others some_leave e) = rw e (record {
  told = o.told;
  alone = o.alone;
  winner = omega (arith, o.winner, some_leave);
  written = o.written;
})

IsOrdered-reachable : {s : Shared} → IsReachable s → IsOrdered s
IsOrdered-reachable start = record {
  told = λ h. absurd (cc h);
  alone = λ _. refl;
  winner = refl;
  written = λ h. absurd (cc h);
}
IsOrdered-reachable (then_step {s} {s'} r t) = IsOrdered-step s s' (IsOrdered-reachable r) t

-- The states reached from a state.
pub data IsLater (s : Shared) : Shared → Type 0 where
  now : IsLater s s
  later : {t u : Shared} → IsLater s t → TokenStep t u → IsLater s u

token_kept :
    (s s' : Shared)
    → IsOrdered s
    → s.token.is_cancelled ≡ true
    → TokenStep s s'
    → s'.token ≡ s.token
token_kept s s' o k (enter reason free unset e) = absurd (cc (k, unset))
token_kept s s' o k (refuse free done e) = ap (λ x. x.token) e
token_kept s s' o k (write_reason reason held e) = absurd (ground (arith, o.alone k, held))
token_kept s s' o k (set_event held e) = absurd (ground (arith, o.alone k, held))
token_kept s s' o k (release held e) = ap (λ x. x.token) e
token_kept s s' o k (return_true others some_leave e) = ap (λ x. x.token) e

later_kept :
    {s u : Shared}
    → IsOrdered s
    → s.token.is_cancelled ≡ true
    → IsLater s u
    → IsOrdered u × (u.token ≡ s.token)
later_kept o k now = (o, refl)
later_kept o k (later {t} {u} l step) =
    let (ot, e) = later_kept o k l in
    let kt : t.token.is_cancelled ≡ true = ap (λ x. x.is_cancelled) e ∙ k in
    (IsOrdered-step t u ot step, token_kept t u ot kt step ∙ e)

-- However the threads that cancel a task interleave, once a thread has read the token as cancelled,
-- exactly one call of `cancel` has returned True or is past the setting of the event, a reason that is not empty stands in the token, and
-- whatever is read of the token later is the same.
pub cancelled_is_final :
    (s u : Shared)
    → IsReachable s
    → s.token.is_cancelled ≡ true
    → IsLater s u
    → (u.won + u.leaving + past_event u.holder ≡ 1)
      × (has_reason s.token.reason ≡ true)
      × (u.token ≡ s.token)
cancelled_is_final s u r k l =
    let o = IsOrdered-reachable r in
    let (later_ordered, same_token) = later_kept o k l in
    let still : u.token.is_cancelled ≡ true = ap (λ x. x.is_cancelled) same_token ∙ k in
    (later_ordered.winner ∙ rw still refl, o.told k, same_token)

cancel_fresh :
    (reason : Text) (t : CancellationToken)
    → t.is_cancelled ≡ false
    → (cancel reason t).0 ≡ record { is_cancelled = true; reason = some (reason_text reason) }
unfolding cancel
cancel_fresh reason t k = ground (arith, k)

-- The steps of one call alone do what the call does.
pub cancel_steps :
    (reason : Text) (t : CancellationToken)
    → t.is_cancelled ≡ false
    → IsLater
        (record { token = t; holder = nobody; leaving = 0; won = 0 })
        (record { token = (cancel reason t).0; holder = nobody; leaving = 0; won = 1 })
cancel_steps reason t k = rw (cancel_fresh reason t k) (
    later
      (later
        (later (later (later now (enter reason refl k refl)) (write_reason reason refl refl))
          (set_event refl refl))
        (release refl refl))
      (return_true 0 refl refl))
