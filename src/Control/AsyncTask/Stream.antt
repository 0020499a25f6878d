-- ===== src/Control/AsyncTask/Stream.antt =====
-- `AsyncAgentTask.stream` of minicodex/agent/runtime/async_runtime.py. A look at the recorder is the list
-- of its events, or the empty list where there is no recorder or the look fails.
use mathlib.Core.List.{append-nil, append_assoc}
use mini_codex.Common.{
  ℕ, ◌+◌, ◌≤◌, ◌≡◌, refl, sym, ap, ◌∙◌, Bool, true, false, Option, none, some, List, [], ◌∷◌, ◌++◌,
  arith, Bool-cases, inl, inr, ltb, drop-append, length-drop, length, drop, length-append, All,
  if◌then◌else◌,
}
use mini_codex.Control.AsyncTask.{AsyncTaskStatus, AsyncTaskResult}

-- An event of the agent, or the last one with the result.
pub data Payload {ℓ} (A : Type ℓ) : Type ℓ where
  traced : A → Payload A
  finished : AsyncTaskResult → Payload A

pub record AsyncStreamEvent {ℓ} (A : Type ℓ) : Type ℓ where
  pub sequence : ℕ
  pub payload : Payload A
  pub terminal : Bool

-- The data of the last event: where there is no result, the status is the task's and the rest is empty.
abbrev pub terminal_data : AsyncTaskStatus → Option AsyncTaskResult → AsyncTaskResult
terminal_data status none = record {
  status = status;
  output = none;
  error = none;
  is_cancelled = false;
}
terminal_data status (some r) = r

-- How many events have been taken from the recorder, and the last number given out.
pub record StreamState : Type 0 where
  pub cursor : ℕ
  pub stream_sequence : ℕ

abbrev pub new_stream : StreamState
new_stream = record { cursor = 0; stream_sequence = 0 }

module _ {ℓ} {A : Type ℓ} where
  -- The events, numbered after `n`.
  abbrev pub number : ℕ → List A → List (AsyncStreamEvent A)
  number n [] = []
  number n (x ∷ xs) =
      record { sequence = n + 1; payload = traced x; terminal = false } ∷ number (n + 1) xs

  abbrev pub drain : List A → StreamState → List (AsyncStreamEvent A) × StreamState
  drain snapshot s =
      if ltb s.cursor (length snapshot)
      then (
        number s.stream_sequence (drop s.cursor snapshot),
        record {
          cursor = length snapshot;
          stream_sequence = s.stream_sequence + length (drop s.cursor snapshot);
        },
      )
      else ([], s)

  abbrev finish : AsyncTaskResult → StreamState → AsyncStreamEvent A
  finish r s = record { sequence = s.stream_sequence + 1; payload = finished r; terminal = true }

  -- What is streamed: `looks` are those at which the task is not done, `look` is the one before the task is
  -- found done, and `last` the one after.
  unfoldable pub stream :
      List (List A)
      → List A
      → List A
      → AsyncTaskStatus
      → Option AsyncTaskResult
      → StreamState
      → List (AsyncStreamEvent A)
  stream [] look last status result s =
      let (events, s1) = drain look s in
      let (rest, s2) = drain last s1 in
      events ++ rest ++ finish (terminal_data status result) s2 ∷ []
  stream (snapshot ∷ looks) look last status result s =
      let (events, s1) = drain snapshot s in events ++ stream looks look last status result s1

  -- The snapshot is the log as it once was.
  pub record IsPrefix (log snapshot : List A) : Type ℓ where
    pub rest : List A
    pub split : log ≡ snapshot ++ rest

  pub number-append :
      (n : ℕ) (xs ys : List A) → number n (xs ++ ys) ≡ number n xs ++ number (n + length xs) ys
  number-append n [] ys = ap (λ m. number m ys) (omega arith)
  number-append n (x ∷ xs) ys =
      ap (◌∷◌ (record { sequence = n + 1; payload = traced x; terminal = false }))
        (number-append (n + 1) xs ys ∙ ap (λ m. number (n + 1) xs ++ number m ys) (omega arith))

  drop-length : (xs ys : List A) → drop (length xs) (xs ++ ys) ≡ ys
  drop-length [] ys = refl
  drop-length (x ∷ xs) ys = drop-length xs ys

  -- As many events are numbered as have been taken, and they are of the log.
  abbrev pub IsAt : List A → StreamState → Type 0
  IsAt log s = (s.stream_sequence ≡ s.cursor) × (s.cursor ≤ length log)

  -- The event that ends the stream.
  abbrev pub ended : List A → AsyncTaskResult → List (AsyncStreamEvent A)
  ended log r = record { sequence = length log + 1; payload = finished r; terminal = true } ∷ []

  -- What is still to come of the log.
  abbrev pub ahead : List A → StreamState → List (AsyncStreamEvent A)
  ahead log s = number s.cursor (drop s.cursor log)

  -- What has been taken is what was ahead, and the rest still is.
  abbrev IsDrained : List A → StreamState → List (AsyncStreamEvent A) × StreamState → Type ℓ
  IsDrained log s (events, s') = IsAt log s' × (ahead log s ≡ events ++ ahead log s')

  taken-IsDrained :
      (snapshot rest : List A) (c : ℕ)
      → c ≤ length snapshot
      → number c (drop c (snapshot ++ rest))
        ≡ number c (drop c snapshot)
          ++ number (length snapshot) (drop (length snapshot) (snapshot ++ rest))
  taken-IsDrained snapshot rest c h =
      rw
        (
          drop-append c snapshot rest h,
          drop-length snapshot rest,
          number-append c (drop c snapshot) rest,
        )
        (ap (λ m. number c (drop c snapshot) ++ number m rest)
          (omega (arith, length-drop c snapshot)))

  drain-IsDrained :
      (log snapshot : List A) (s : StreamState)
      → IsPrefix log snapshot
      → IsAt log s
      → IsDrained log s (drain snapshot s)
  drain-IsDrained log snapshot s p (same, h) = elim (Bool-cases (ltb s.cursor (length snapshot))) [
    | inl t ↦
        let before : s.cursor ≤ length snapshot = ground (arith, t) in
        rw (t, p.split, same)
          (
            (
              omega (arith, length-drop s.cursor snapshot, before),
              omega (arith, length-append snapshot p.rest),
            ),
            taken-IsDrained snapshot p.rest s.cursor before,
          )
    | inr f ↦ rw f ((same, h), refl)
  ]

  drain-all :
      (log : List A) (s : StreamState) → s.cursor ≤ length log → (drain log s).1.cursor ≡ length log
  drain-all log s h = ground (arith, h)

  drop-all : (log : List A) → drop (length log) log ≡ []
  drop-all [] = refl
  drop-all (x ∷ xs) = drop-all xs

  -- The last look, which sees all of the log, takes all that is ahead.
  drain-last :
      (log : List A) (r : AsyncTaskResult) (s : StreamState)
      → IsAt log s
      → (drain log s).0 ++ finish r (drain log s).1 ∷ [] ≡ ahead log s ++ ended log r
  drain-last log r s h =
      let whole : IsPrefix log log = record { rest = []; split = sym (append-nil log) } in
      let (at, taken) = drain-IsDrained log log s whole h in
      let end = drain-all log s h.1 in
      let events = (drain log s).0 in
      let done : ahead log (drain log s).1 ≡ [] =
        ap (λ c. number c (drop c log)) end ∙ ap (number (length log)) (drop-all log) in
      let all : ahead log s ≡ events = taken ∙ ap (λ es. events ++ es) done ∙ append-nil events in
      ap (λ n. events ++ record { sequence = n + 1; payload = finished r; terminal = true } ∷ [])
        (at.0 ∙ end)
      ∙ ap (λ es. es ++ ended log r) (sym all)

  pub stream-ahead :
      (looks : List (List A)) (look log : List A) (status : AsyncTaskStatus)
      (o : Option AsyncTaskResult) (s : StreamState)
      → All (IsPrefix log) looks
      → IsPrefix log look
      → IsAt log s
      → stream looks look log status o s ≡ ahead log s ++ ended log (terminal_data status o)
  unfolding stream
  stream-ahead [] look log status o s ps p h =
      let (at, taken) = drain-IsDrained log look s p h in
      let s1 = (drain look s).1 in
      append_assoc (drain look s).0 (drain log s1).0
        (finish (terminal_data status o) (drain log s1).1 ∷ [])
      ∙ ap (λ es. (drain look s).0 ++ es) (drain-last log (terminal_data status o) s1 at)
      ∙ sym (append_assoc (drain look s).0 (ahead log s1) (ended log (terminal_data status o)))
      ∙ ap (λ es. es ++ ended log (terminal_data status o)) (sym taken)
  stream-ahead (snapshot ∷ looks) look log status o s (q, ps) p h =
      let (at, taken) = drain-IsDrained log snapshot s q h in
      let s1 = (drain snapshot s).1 in
      ap (λ es. (drain snapshot s).0 ++ es) (stream-ahead looks look log status o s1 ps p at)
      ∙ sym (append_assoc (drain snapshot s).0 (ahead log s1) (ended log (terminal_data status o)))
      ∙ ap (λ es. es ++ ended log (terminal_data status o)) (sym taken)
