-- ===== src/Task/Runtime/Trace.antt =====
-- What the bounded trace of `TaskRuntime` (minicodex/agent/task_state.py) holds.
use mathlib.Core.List.{append_assoc, append-nil}
use native.Mathlib.Nat.{zero-add, suc-add}
use mini_codex.Common.{
  ℕ, zero, suc, ◌+◌, ◌-◌, ◌≡◌, inl, inr, refl, sym, ◌∙◌, ap, Bool, true, false, List, [], ◌∷◌, ◌++◌,
  arith, ltb, drop, length, length-append, length-drop, drop-append, null, Bool-cases,
  if◌then◌else◌,
}
use mini_codex.Task.State.{TaskState, invariant_violations}
use mini_codex.Task.Event.{RuntimeEvent}
use mini_codex.Task.Reduce.{reduce_task_state, reduce_all}
use mini_codex.Task.Runtime.{TaskRuntime, trimmed, apply, attempt, run}

-- Whether the runtime takes the event.
abbrev takes : RuntimeEvent → TaskRuntime → Bool
takes e r = null (invariant_violations false false (reduce_task_state r.state e))

-- The events of a sequence that the runtime takes, in order.
unfoldable pub taken : List RuntimeEvent → TaskRuntime → List RuntimeEvent
taken [] r = []
taken (e ∷ es) r = let rest = taken es (attempt e r) in if takes e r then e ∷ rest else rest

-- The last `n` items.
abbrev pub last_items {ℓ} : {A : Type ℓ} → ℕ → List A → List A
last_items n xs = drop (length xs - n) xs

trimmed-last_items : (n : ℕ) (es : List RuntimeEvent) → trimmed n es ≡ last_items n es
unfolding trimmed
trimmed-last_items n es = elim (Bool-cases (ltb n (length es))) [
  | inl long ↦ rw long
  | inr short ↦ rw short (drop_none (length es - n) es (ground arith))
]
  where
    drop_none : (k : ℕ) (xs : List RuntimeEvent) → k ≡ 0 → xs ≡ drop k xs
    drop_none zero xs h = refl
    drop_none (suc k) xs h = absurd (omega arith)

drop-nil : (n : ℕ) → drop {A = RuntimeEvent} n [] ≡ []
drop-nil zero = refl
drop-nil (suc n) = refl

drop-drop : (m n : ℕ) (es : List RuntimeEvent) → drop m (drop n es) ≡ drop (n + m) es
drop-drop m zero es = ap (λ k. drop k es) (sym (zero-add m))
drop-drop m (suc n) [] = drop-nil m ∙ sym (drop-nil (suc n + m))
drop-drop m (suc n) (e ∷ es) = rw suc-add (drop-drop m n es)

-- Trimming in steps is trimming once.
last_items-append :
    (n : ℕ) (es : List RuntimeEvent) (e : RuntimeEvent)
    → last_items n (last_items n es ++ e ∷ []) ≡ last_items n (es ++ e ∷ [])
last_items-append n es e =
    let k = length es - n in
    rw (← drop-append k es (e ∷ []) (omega arith), drop-drop)
      (ap (λ j. drop j (es ++ e ∷ []))
        (omega (
          arith,
          length-append es (e ∷ []),
          length-append (drop k es) (e ∷ []),
          length-drop k (es ++ e ∷ []),
        )))

-- The runtime after the events, told from the events that were taken.
record Replays (all : List RuntimeEvent) (s : TaskState) (r : TaskRuntime) : Type 0 where
  state : r.state ≡ reduce_all all s
  events : r.events ≡ last_items r.max_events all

reduce_all-append :
    (es : List RuntimeEvent) (e : RuntimeEvent) (s : TaskState)
    → reduce_all (es ++ e ∷ []) s ≡ reduce_task_state (reduce_all es s) e
unfolding reduce_all
reduce_all-append [] e s = refl
reduce_all-append (x ∷ es) e s = reduce_all-append es e (reduce_task_state s x)

Replays-taken :
    (e : RuntimeEvent) (all : List RuntimeEvent) (s : TaskState) (r : TaskRuntime)
    → takes e r ≡ true
    → Replays all s r
    → Replays (all ++ e ∷ []) s (attempt e r)
unfolding attempt apply
Replays-taken e all s r fine h = record {
  state = rw (fine, reduce_all-append) (ap (λ t. reduce_task_state t e) h.state);
  events =
      rw (fine, trimmed-last_items)
        (ap (λ es. last_items r.max_events (es ++ e ∷ [])) h.events
          ∙ last_items-append r.max_events all e);
}

Replays-refused :
    (e : RuntimeEvent) (all : List RuntimeEvent) (s : TaskState) (r : TaskRuntime)
    → takes e r ≡ false
    → Replays all s r
    → Replays all s (attempt e r)
unfolding attempt apply
Replays-refused e all s r broken h = rw broken h

Replays-run :
    (es all : List RuntimeEvent) (s : TaskState) (r : TaskRuntime)
    → Replays all s r
    → Replays (all ++ taken es r) s (run es r)
unfolding run taken
Replays-run [] all s r h = rw append-nil h
Replays-run (e ∷ es) all s r h = elim (Bool-cases (takes e r)) [
  | inl fine ↦
      rw (fine, ← append_assoc all (e ∷ []) (taken es (attempt e r)))
        (Replays-run es (all ++ e ∷ []) s (attempt e r) (Replays-taken e all s r fine h))
  | inr broken ↦ rw broken (Replays-run es all s (attempt e r) (Replays-refused e all s r broken h))
]

max_events-attempt : (e : RuntimeEvent) (r : TaskRuntime) → (attempt e r).max_events ≡ r.max_events
unfolding attempt apply
max_events-attempt e r = elim (Bool-cases (takes e r)) [
  | inl fine ↦ rw fine
  | inr broken ↦ rw broken
]

max_events-run : (es : List RuntimeEvent) (r : TaskRuntime) → (run es r).max_events ≡ r.max_events
unfolding run
max_events-run [] r = refl
max_events-run (e ∷ es) r = max_events-run es (attempt e r) ∙ max_events-attempt e r

-- From a runtime with an empty trace, whatever events are tried: the state is the replay of the
-- events that were taken, and the trace is the last of these, as many as `max_events` allows.
pub run_replays :
    (es : List RuntimeEvent) (r : TaskRuntime)
    → r.events ≡ []
    → ((run es r).state ≡ reduce_all (taken es r) r.state)
      × ((run es r).events ≡ last_items r.max_events (taken es r))
run_replays es r fresh =
    let h = Replays-run es [] r.state r (record {
      state = unfold reduce_all in refl;
      events = fresh ∙ sym (drop-nil (0 - r.max_events));
    }) in
    (h.state, h.events ∙ ap (λ n. last_items n (taken es r)) (max_events-run es r))
