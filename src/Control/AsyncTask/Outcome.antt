-- ===== src/Control/AsyncTask/Outcome.antt =====
-- How a background task ends (minicodex/agent/runtime/async_runtime.py).
use mini_codex.Common.{
  ◌⊎◌, inl, inr, ◌≡◌, ◌≢◌, refl, sym, ap, ◌∙◌, Bool, true, false, Option, none, some, Text, arith,
}
use mini_codex.Control.Cancellation.{CancellationToken, reason_text, cancel, raise_if_cancelled}
use mini_codex.Control.AsyncTask.{
  cancelling, AsyncTaskResult, Ending, by_cancellation, by_failure, by_return, result_of, Worker,
  idle, entered, marked, installed, in_agent, returned, ending, told, kept, restored, over,
  AsyncTask, new_task, after_check, WorkerStep, start, mark, install, check_first, agent_returns,
  agent_fails, agent_stops, agent_escapes, check_last, tell, keep_result, restore, set_done,
  CancelStep, look, request, lose, show, TaskStep, works, cancels, Reach, here, next,
}

-- The result of an ending, and none of an exception that was not caught.
abbrev kept_result : Option Ending → Option AsyncTaskResult
kept_result none = none
kept_result (some e) = some (result_of e)

-- What the place of the worker says of the result, the flag and the boundaries.
abbrev placed : Worker → Option AsyncTaskResult × Bool × Bool
placed idle = (none, false, false)
placed entered = (none, false, false)
placed marked = (none, false, false)
placed installed = (none, false, true)
placed in_agent = (none, false, true)
placed (returned o) = (none, false, true)
placed (ending e) = (none, false, true)
placed (told e) = (none, false, true)
placed (kept o) = (kept_result o, false, true)
placed (restored o) = (kept_result o, false, false)
placed (over o) = (kept_result o, true, false)

abbrev IsPlaced : AsyncTask → Type 0
IsPlaced s = (s.result, s.done, s.wrapped) ≡ placed s.worker

after_check-placed :
    (t : CancellationToken) (w : Worker)
    → placed w ≡ (none, false, true)
    → placed (after_check t w) ≡ (none, false, true)
unfolding raise_if_cancelled
after_check-placed t w h = ground (arith, h)

IsPlaced-works : (s s' : AsyncTask) → IsPlaced s → WorkerStep s s' → IsPlaced s'
IsPlaced-works s s' p (start at e) = rw e (p ∙ ap placed at)
IsPlaced-works s s' p (mark at e) = rw e (p ∙ ap placed at)
IsPlaced-works s s' p (install at e) =
    rw e (ap (λ (r : Option AsyncTaskResult × Bool × Bool). (r.0, r.1, true)) (p ∙ ap placed at))
IsPlaced-works s s' p (check_first at e) =
    rw e (p ∙ ap placed at ∙ sym (after_check-placed s.token in_agent refl))
IsPlaced-works s s' p (agent_returns o at e) = rw e (p ∙ ap placed at)
IsPlaced-works s s' p (agent_fails x at e) = rw e (p ∙ ap placed at)
IsPlaced-works s s' p (agent_stops x at r e) = rw e (p ∙ ap placed at)
IsPlaced-works s s' p (agent_escapes at e) = rw e (p ∙ ap placed at)
IsPlaced-works s s' p (check_last o at e) =
    rw e (p ∙ ap placed at ∙ sym (after_check-placed s.token (ending (by_return o)) refl))
IsPlaced-works s s' p (tell x at e) = rw e (p ∙ ap placed at)
IsPlaced-works s s' p (keep_result x at e) = rw e (
    ap (λ (r : Option AsyncTaskResult × Bool × Bool). (some (result_of x), r.1, r.2))
      (p ∙ ap placed at))
IsPlaced-works s s' p (restore x at e) =
    rw e (ap (λ (r : Option AsyncTaskResult × Bool × Bool). (r.0, r.1, false)) (p ∙ ap placed at))
IsPlaced-works s s' p (set_done x at e) =
    rw e (ap (λ (r : Option AsyncTaskResult × Bool × Bool). (r.0, true, r.2)) (p ∙ ap placed at))

IsPlaced-cancels : (s s' : AsyncTask) → IsPlaced s → CancelStep s s' → IsPlaced s'
IsPlaced-cancels s s' p (look n e) = rw e p
IsPlaced-cancels s s' p (request r o c n e) = rw e p
IsPlaced-cancels s s' p (lose o c n e) = rw e p
IsPlaced-cancels s s' p (show w e) = rw e p

IsPlaced-steps : (s s' : AsyncTask) → IsPlaced s → TaskStep s s' → IsPlaced s'
IsPlaced-steps s s' p (works w) = IsPlaced-works s s' p w
IsPlaced-steps s s' p (cancels c) = IsPlaced-cancels s s' p c

IsPlaced-Reach : (s s' : AsyncTask) → IsPlaced s → Reach s s' → IsPlaced s'
IsPlaced-Reach s s' p here = p
IsPlaced-Reach s s' p (next {t = t} r step) = IsPlaced-steps t s' (IsPlaced-Reach s t p r) step

-- In every state that a new task reaches, the result, the flag and the boundaries are as the place of the
-- worker says.
async_task_placed :
    (s : AsyncTask) → Reach new_task s → (s.result, s.done, s.wrapped) ≡ placed s.worker
async_task_placed s r = IsPlaced-Reach new_task s refl r

abbrev is_return : Ending → Bool
is_return (by_cancellation e) = false
is_return (by_failure e) = false
is_return (by_return o) = true

abbrev is_returned : Option Ending → Bool
is_returned none = false
is_returned (some e) = is_return e

-- The worker is past its last check and ends as completed.
abbrev pub is_completing : Worker → Bool
is_completing (ending e) = is_return e
is_completing (told e) = is_return e
is_completing (kept o) = is_returned o
is_completing (restored o) = is_returned o
is_completing (over o) = is_returned o
is_completing _ = false

abbrev IsStopped : AsyncTask → Type 0
IsStopped s = (s.token.is_cancelled ≡ true) × (is_completing s.worker ≡ false)

after_check-stopped :
    (t : CancellationToken) (w : Worker)
    → t.is_cancelled ≡ true
    → is_completing (after_check t w) ≡ false
unfolding raise_if_cancelled
after_check-stopped t w h = ground (arith, h)

IsStopped-works : (s s' : AsyncTask) → IsStopped s → WorkerStep s s' → IsStopped s'
IsStopped-works s s' (c, w) (start at e) = rw e (c, refl)
IsStopped-works s s' (c, w) (mark at e) = rw e (c, refl)
IsStopped-works s s' (c, w) (install at e) = rw e (c, refl)
IsStopped-works s s' (c, w) (check_first at e) = rw e (c, after_check-stopped s.token in_agent c)
IsStopped-works s s' (c, w) (agent_returns o at e) = rw e (c, refl)
IsStopped-works s s' (c, w) (agent_fails x at e) = rw e (c, refl)
IsStopped-works s s' (c, w) (agent_stops x at r e) = rw e (c, refl)
IsStopped-works s s' (c, w) (agent_escapes at e) = rw e (c, refl)
IsStopped-works s s' (c, w) (check_last o at e) =
    rw e (c, after_check-stopped s.token (ending (by_return o)) c)
IsStopped-works s s' (c, w) (tell x at e) = rw e (c, sym (ap is_completing at) ∙ w)
IsStopped-works s s' (c, w) (keep_result x at e) = rw e (c, sym (ap is_completing at) ∙ w)
IsStopped-works s s' (c, w) (restore x at e) = rw e (c, sym (ap is_completing at) ∙ w)
IsStopped-works s s' (c, w) (set_done x at e) = rw e (c, sym (ap is_completing at) ∙ w)

IsStopped-cancels : (s s' : AsyncTask) → IsStopped s → CancelStep s s' → IsStopped s'
IsStopped-cancels s s' p (look n e) = rw e p
IsStopped-cancels s s' (c, w) (request r o g n e) = ground (arith, c, n)
IsStopped-cancels s s' p (lose o g n e) = rw e p
IsStopped-cancels s s' p (show g e) = rw e p

IsStopped-steps : (s s' : AsyncTask) → IsStopped s → TaskStep s s' → IsStopped s'
IsStopped-steps s s' p (works w) = IsStopped-works s s' p w
IsStopped-steps s s' p (cancels c) = IsStopped-cancels s s' p c

IsStopped-Reach : (s s' : AsyncTask) → IsStopped s → Reach s s' → IsStopped s'
IsStopped-Reach s s' p here = p
IsStopped-Reach s s' p (next {t = t} r step) = IsStopped-steps t s' (IsStopped-Reach s t p r) step

Reach-trans : (s t u : AsyncTask) → Reach s t → Reach t u → Reach s u
Reach-trans s t u r here = r
Reach-trans s t u r (next {t = v} q step) = next (Reach-trans s t v r q) step

result_of-stopped :
    (e : Ending) (o : Text) → is_return e ≡ false → result_of e ≢ result_of (by_return o)
result_of-stopped (by_cancellation e) o h =
    λ q. ground (arith, ap (λ (r : AsyncTaskResult). r.is_cancelled) q)
result_of-stopped (by_failure e) o h = λ q. ground (arith, ap (λ (r : AsyncTaskResult). r.output) q)
result_of-stopped (by_return x) o h = ground (arith, h)

kept-stopped :
    (x : Option Ending) (o : Text)
    → is_returned x ≡ false
    → kept_result x ≢ some (result_of (by_return o))
kept-stopped none o h = λ q. ground (arith, q)
kept-stopped (some e) o h = λ q. result_of-stopped e o h cc

-- The result that a worker which is not completing leaves is not the one of an output.
placed-stopped :
    (w : Worker) (o : Text)
    → is_completing w ≡ false
    → (placed w).0 ≢ some (result_of (by_return o))
placed-stopped (kept x) o h = kept-stopped x o h
placed-stopped (restored x) o h = kept-stopped x o h
placed-stopped (over x) o h = kept-stopped x o h
placed-stopped _ o h = λ q. ground (arith, q)

-- Let a state that a new task reaches have its token cancelled, and its worker not be past its last check
-- with an output. Then in no later state is the result the one of an output.
pub cancelled_never_completes :
    (s s' : AsyncTask) (output : Text)
    → Reach new_task s
    → s.token.is_cancelled ≡ true
    → is_completing s.worker ≡ false
    → Reach s s'
    → s'.result ≢ some (result_of (by_return output))
cancelled_never_completes s s' output before c w after = λ q.
    placed-stopped s'.worker output (IsStopped-Reach s s' (c, w) after).1 (
      sym (
        ap (λ (r : Option AsyncTaskResult × Bool × Bool). r.0)
          (async_task_placed s' (Reach-trans new_task s s' before after)))
      ∙ q)

-- For every reason and every output, a new task reaches a state in which it is done, with the result of the
-- output and no call of `cancel` under way, and its status is cancelling.
pub overtaken_task :
    (reason output : Text)
    → Reach new_task (record {
      token = record { is_cancelled = true; reason = some (reason_text reason) };
      status = cancelling;
      result = some (result_of (by_return output));
      done = true;
      worker = over (some (by_return output));
      checked = 0;
      won = false;
      wrapped = false;
    })
unfolding cancel raise_if_cancelled
overtaken_task reason output =
    let a0 : Reach new_task new_task = here in
    let a1 = next a0 (works (start refl refl)) in
    let a2 = next a1 (works (mark refl refl)) in
    let a3 = next a2 (works (install refl refl)) in
    let a4 = next a3 (works (check_first refl refl)) in
    let a5 = next a4 (works (agent_returns output refl refl)) in
    let a6 = next a5 (works (check_last output refl refl)) in
    let a7 = next a6 (cancels (look refl refl)) in
    let a8 = next a7 (works (tell (by_return output) refl refl)) in
    let a9 = next a8 (works (keep_result (by_return output) refl refl)) in
    let b1 = next a9 (works (restore (some (by_return output)) refl refl)) in
    let b2 = next b1 (cancels (request reason 0 refl refl refl)) in
    let b3 = next b2 (works (set_done (some (by_return output)) refl refl)) in
    next b3 (cancels (show refl refl))

placed-done : (w : Worker) → (placed w).1 ≡ true → (o : Option Ending) × (w ≡ over o)
placed-done (over o) h = (o, refl)
placed-done _ h = absurd (ground (arith, h))

-- The second state is as the first but for the token, the status and the calls of `cancel`.
abbrev IsSame : AsyncTask → AsyncTask → Type 0
IsSame s s' =
    (s'.worker ≡ s.worker) × (s'.result ≡ s.result) × (s'.done ≡ s.done) × (s'.wrapped ≡ s.wrapped)

-- A worker that is over takes no step.
over_is_still :
    {B : Type 0} (o : Option Ending) (s s' : AsyncTask) → s.worker ≡ over o → WorkerStep s s' → B
over_is_still o s s' w (start at e) = absurd (cc (at, w))
over_is_still o s s' w (mark at e) = absurd (cc (at, w))
over_is_still o s s' w (install at e) = absurd (cc (at, w))
over_is_still o s s' w (check_first at e) = absurd (cc (at, w))
over_is_still o s s' w (agent_returns x at e) = absurd (cc (at, w))
over_is_still o s s' w (agent_fails x at e) = absurd (cc (at, w))
over_is_still o s s' w (agent_stops x at r e) = absurd (cc (at, w))
over_is_still o s s' w (agent_escapes at e) = absurd (cc (at, w))
over_is_still o s s' w (check_last x at e) = absurd (cc (at, w))
over_is_still o s s' w (tell x at e) = absurd (cc (at, w))
over_is_still o s s' w (keep_result x at e) = absurd (cc (at, w))
over_is_still o s s' w (restore x at e) = absurd (cc (at, w))
over_is_still o s s' w (set_done x at e) = absurd (cc (at, w))

IsSame-cancels : (s t u : AsyncTask) → IsSame s t → CancelStep t u → IsSame s u
IsSame-cancels s t u h (look n e) = rw e h
IsSame-cancels s t u h (request r o c n e) = rw e h
IsSame-cancels s t u h (lose o c n e) = rw e h
IsSame-cancels s t u h (show w e) = rw e h

IsSame-Reach : (o : Option Ending) (s s' : AsyncTask) → s.worker ≡ over o → Reach s s' → IsSame s s'
IsSame-Reach o s s' w here = (refl, refl, refl, refl)
IsSame-Reach o s s' w (next {t = t} r (works step)) =
    over_is_still o t s' ((IsSame-Reach o s t w r).0 ∙ w) step
IsSame-Reach o s s' w (next {t = t} r (cancels step)) =
    IsSame-cancels s t s' (IsSame-Reach o s t w r) step

kept_result_cases :
    (s : AsyncTask) (o : Option Ending)
    → s.worker ≡ over o
    → s.result ≡ kept_result o
    → ((e : Ending) × (s.result ≡ some (result_of e))) ⊎ (s.worker ≡ over none)
kept_result_cases s none w r = inr w
kept_result_cases s (some e) w r = inl (e, r)

-- Let a new task have reached a state in which it is done. Then what the boundaries replaced is restored,
-- and the result is there, unless an exception ended the agent that the worker does not catch; and in
-- every later state, whatever calls of `cancel` follow, the task is done with the same result, and the
-- boundaries are not installed.
pub done_is_final :
    (s s' : AsyncTask)
    → Reach new_task s
    → s.done ≡ true
    → Reach s s'
    → (((e : Ending) × (s.result ≡ some (result_of e))) ⊎ (s.worker ≡ over none))
      × (s'.done ≡ true)
      × (s'.result ≡ s.result)
      × (s'.wrapped ≡ false)
done_is_final s s' before d after =
    let p = async_task_placed s before in
    let (o, w) =
      placed-done s.worker (sym (ap (λ (r : Option AsyncTaskResult × Bool × Bool). r.1) p) ∙ d) in
    let (same_worker, same_result, same_done, same_wrapped) = IsSame-Reach o s s' w after in
    let at_end = p ∙ ap placed w in
    (
      kept_result_cases s o w (ap (λ (r : Option AsyncTaskResult × Bool × Bool). r.0) at_end),
      same_done ∙ d,
      same_result,
      same_wrapped ∙ ap (λ (r : Option AsyncTaskResult × Bool × Bool). r.2) at_end,
    )

-- Where the task is done and no call of `cancel` is under way, no call takes a step.
quiet_is_still :
    {B : Type 0} (s s' : AsyncTask)
    → s.done ≡ true
    → s.checked ≡ 0
    → s.won ≡ false
    → CancelStep s s'
    → B
quiet_is_still s s' d c w (look n e) = absurd (cc (n, d))
quiet_is_still s s' d c w (request r o k n e) = absurd (omega (arith, k, c))
quiet_is_still s s' d c w (lose o k n e) = absurd (omega (arith, k, c))
quiet_is_still s s' d c w (show k e) = absurd (cc (k, w))

-- A task that is done and that no call of `cancel` works on any more stays as it is, with its status,
-- though it be cancelling: every state that it reaches is the same.
pub rest_is_final :
    (s s' : AsyncTask)
    → Reach new_task s
    → s.done ≡ true
    → s.checked ≡ 0
    → s.won ≡ false
    → Reach s s'
    → s' ≡ s
rest_is_final s s' before d c w after =
    let p = async_task_placed s before in
    let (o, end) =
      placed-done s.worker (sym (ap (λ (r : Option AsyncTaskResult × Bool × Bool). r.1) p) ∙ d) in
    rest o end after
  where
    rest : {u : AsyncTask} (o : Option Ending) → s.worker ≡ over o → Reach s u → u ≡ s
    rest o end here = refl
    rest {u} o end (next {t = t} r (works step)) =
        over_is_still o t u (ap (λ (x : AsyncTask). x.worker) (rest o end r) ∙ end) step
    rest {u} o end (next {t = t} r (cancels step)) =
        let t_is = rest o end r in
        quiet_is_still t u (ap (λ (x : AsyncTask). x.done) t_is ∙ d)
          (ap (λ (x : AsyncTask). x.checked) t_is ∙ c) (ap (λ (x : AsyncTask). x.won) t_is ∙ w) step
