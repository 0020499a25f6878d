-- ===== src/Control/AsyncTask/Recorder.antt =====
-- What of the events in minicodex/agent/observability/trace.py reaches the stream of a background task
-- (minicodex/agent/runtime/async_runtime.py). The recorder keeps the newest events up to its limit, and a
-- task that starts empties it.
use mini_codex.Common.{
  ℕ, ◌+◌, ◌-◌, ◌≤◌, ◌≡◌, refl, sym, ap, ◌∙◌, true, false, Option, List, [], ◌∷◌, ◌++◌, arith, All,
  ltb, leb, length, length-append, length-drop, drop, Bool-cases, inl, inr, if◌then◌else◌,
}
use mathlib.Core.List.{append-nil, append_assoc}
use mini_codex.Control.AsyncTask.{AsyncTaskStatus, AsyncTaskResult}
use mini_codex.Control.AsyncTask.Stream.{
  Payload, AsyncStreamEvent, StreamState, new_stream, number, number-append, drain, ended,
  terminal_data, stream, IsPrefix, stream-ahead,
}

pub record TraceRecorder {ℓ} (A : Type ℓ) : Type ℓ where
  pub max_events : ℕ
  pub events : List A

-- What the agent does with the recorder.
pub data TraceCall {ℓ} (A : Type ℓ) : Type ℓ where
  reset : TraceCall A
  emit : A → TraceCall A

-- As many events are numbered as have been taken, `m` at most.
abbrev IsWithin : ℕ → StreamState → Type 0
IsWithin m s = (s.stream_sequence ≡ s.cursor) × (s.cursor ≤ m)

module _ {ℓ} {A : Type ℓ} where
  -- `max_events` is one at least.
  abbrev pub new_recorder : ℕ → TraceRecorder A
  new_recorder max_events = record {
    max_events = if leb 1 max_events then max_events else 1;
    events = [];
  }

  unfoldable pub trace_call : TraceCall A → TraceRecorder A → TraceRecorder A
  trace_call reset r = record r { events = [] }
  trace_call (emit e) r =
      let events = r.events ++ e ∷ [] in
      record r {
        events =
            if ltb r.max_events (length events)
            then drop (length events - r.max_events) events
            else events;
      }

  unfoldable pub trace_run : List (TraceCall A) → TraceRecorder A → TraceRecorder A
  trace_run [] r = r
  trace_run (c ∷ cs) r = trace_run cs (trace_call c r)

  -- A look sees what the recorder holds after some calls.
  pub record IsSeen (max_events : ℕ) (snapshot : List A) : Type ℓ where
    pub calls : List (TraceCall A)
    pub seen : snapshot ≡ (trace_run calls (new_recorder max_events)).events

  -- The recorder is within its limit.
  IsFull : ℕ → TraceRecorder A → Type 0
  IsFull n r = (r.max_events ≡ n) × (length r.events ≤ n)

  trace_call-IsFull :
      (n : ℕ) (c : TraceCall A) (r : TraceRecorder A) → IsFull n r → IsFull n (trace_call c r)
  unfolding IsFull trace_call
  trace_call-IsFull n reset r (m, h) = (m, omega arith)
  trace_call-IsFull n (emit e) r (m, h) =
      let events = r.events ++ e ∷ [] in
      (m, ground (arith, m, length-drop (length events - r.max_events) events))

  trace_run-IsFull :
      (n : ℕ) (cs : List (TraceCall A)) (r : TraceRecorder A)
      → IsFull n r
      → IsFull n (trace_run cs r)
  unfolding trace_run
  trace_run-IsFull n [] r h = h
  trace_run-IsFull n (c ∷ cs) r h =
      trace_run-IsFull n cs (trace_call c r) (trace_call-IsFull n c r h)

  IsSeen-length : (n : ℕ) (snapshot : List A) → IsSeen n snapshot → length snapshot ≤ 1 + (n - 1)
  unfolding IsFull
  IsSeen-length n snapshot x =
      let start : IsFull (1 + (n - 1)) (new_recorder n) = (ground arith, omega arith) in
      omega
        (arith, ap length x.seen, (trace_run-IsFull (1 + (n - 1)) x.calls (new_recorder n) start).1)

  abbrev last_event : ℕ → AsyncTaskResult → List (AsyncStreamEvent A)
  last_event n r = record { sequence = n + 1; payload = Payload.finished r; terminal = true } ∷ []

  -- What a look adds to the stream.
  record IsAdded (m : ℕ) (s : StreamState) (out : List (AsyncStreamEvent A)) (s' : StreamState)
      : Type ℓ where
    items : List A
    numbered : out ≡ number s.stream_sequence items
    counted : s'.stream_sequence ≡ s.stream_sequence + length items
    within : IsWithin m s'

  drain-IsAdded :
      (m : ℕ) (snapshot : List A) (s : StreamState)
      → length snapshot ≤ m
      → IsWithin m s
      → IsAdded m s (drain snapshot s).0 (drain snapshot s).1
  drain-IsAdded m snapshot s h (same, le) = elim (Bool-cases (ltb s.cursor (length snapshot))) [
    | inl t ↦ rw t (record {
      items = drop s.cursor snapshot;
      numbered = refl;
      counted = refl;
      within = (ground (arith, same, t, length-drop s.cursor snapshot), h);
    })
    | inr f ↦
        rw f (record { items = []; numbered = refl; counted = omega arith; within = (same, le) })
  ]

  -- What is streamed after `n` events.
  record IsStreamedFrom (m n : ℕ) (r : AsyncTaskResult) (out : List (AsyncStreamEvent A))
      : Type ℓ where
    items : List A
    streamed : out ≡ number n items ++ last_event (n + length items) r
    bounded : n + length items ≤ m

  -- Events in front of what is streamed after them.
  in_front :
      (m n : ℕ) (r : AsyncTaskResult) (xs : List A) (out : List (AsyncStreamEvent A))
      → IsStreamedFrom m (n + length xs) r out
      → IsStreamedFrom m n r (number n xs ++ out)
  in_front m n r xs out x =
      let len = length-append xs x.items in
      record {
        items = xs ++ x.items;
        streamed =
            ap (λ o. number n xs ++ o) x.streamed
            ∙ sym (
                append_assoc (number n xs) (number (n + length xs) x.items)
                  (last_event (n + length xs + length x.items) r))
            ∙ ap (λ o. o ++ last_event (n + length xs + length x.items) r)
                (sym (number-append n xs x.items))
            ∙ ap (λ k. number n (xs ++ x.items) ++ last_event k r) (omega (arith, len));
        bounded = omega (arith, len, x.bounded);
      }

  stream-IsStreamedFrom :
      (m : ℕ) (looks : List (List A)) (look last : List A) (status : AsyncTaskStatus)
      (o : Option AsyncTaskResult) (s : StreamState)
      → All (λ x. length x ≤ m) looks
      → length look ≤ m
      → length last ≤ m
      → IsWithin m s
      → IsStreamedFrom m s.stream_sequence
          (terminal_data status o)
          (stream looks look last status o s)
  unfolding stream
  stream-IsStreamedFrom m [] look last status o s hs h k w =
      let r = terminal_data status o in
      let a = drain-IsAdded m look s h w in
      let s1 = (drain look s).1 in
      let b = drain-IsAdded m last s1 k a.within in
      let n = s.stream_sequence in
      let s2 = (drain last s1).1 in
      let fin : List (AsyncStreamEvent A) = last_event s2.stream_sequence r in
      let tail : IsStreamedFrom m s2.stream_sequence r fin = record {
        items = [];
        streamed = ap (λ k. last_event k r) (omega arith);
        bounded = omega (arith, b.within);
      } in
      let mid = in_front m s1.stream_sequence r b.items fin (rw (← b.counted) tail) in
      let whole =
        in_front m n r a.items (number s1.stream_sequence b.items ++ fin) (rw (← a.counted) mid) in
      rw (append_assoc (drain look s).0 (drain last s1).0 fin, a.numbered, b.numbered) whole
  stream-IsStreamedFrom m (snapshot ∷ looks) look last status o s (h0, hs) h k w =
      let r = terminal_data status o in
      let a = drain-IsAdded m snapshot s h0 w in
      let s1 = (drain snapshot s).1 in
      let rest = stream-IsStreamedFrom m looks look last status o s1 hs h k a.within in
      rw a.numbered (
        in_front m s.stream_sequence r a.items (stream looks look last status o s1)
          (rw (← a.counted) rest))

  -- All that is streamed: the items numbered from one, `m` at most, and behind them the last event.
  pub record IsStreamed (m : ℕ) (r : AsyncTaskResult) (out : List (AsyncStreamEvent A))
      : Type ℓ where
    pub items : List A
    pub streamed : out ≡ number 0 items ++ ended items r
    pub bounded : length items ≤ m

  IsSeen-All :
      (n : ℕ) (looks : List (List A))
      → All (IsSeen n) looks
      → All (λ x. length x ≤ 1 + (n - 1)) looks
  IsSeen-All n [] h = _
  IsSeen-All n (x ∷ xs) (h, hs) = (IsSeen-length n x h, IsSeen-All n xs hs)

  -- Let each look see what a recorder holds after some emits and resets, not the same ones at each. Then the
  -- stream numbers what it passes on without a gap from one, and ends with one terminal event, which has the
  -- result; and it passes on no more events in all than the recorder keeps, however many are emitted.
  pub stream-IsStreamed :
      (max_events : ℕ) (looks : List (List A)) (look last : List A) (status : AsyncTaskStatus)
      (o : Option AsyncTaskResult)
      → All (IsSeen max_events) looks
      → IsSeen max_events look
      → IsSeen max_events last
      → IsStreamed
          (1 + (max_events - 1))
          (terminal_data status o)
          (stream looks look last status o new_stream)
  stream-IsStreamed n looks look last status o hs h k =
      let x =
        stream-IsStreamedFrom (1 + (n - 1)) looks look last status o new_stream
          (IsSeen-All n looks hs) (IsSeen-length n look h) (IsSeen-length n last k)
          (refl, omega arith) in
      record {
        items = x.items;
        streamed =
            x.streamed
            ∙ ap (λ k. number 0 x.items ++ last_event k (terminal_data status o)) (omega arith);
        bounded = omega (arith, x.bounded);
      }

  abbrev pub emits : List A → List (TraceCall A)
  emits [] = []
  emits (e ∷ es) = emit e ∷ emits es

  emit-fits :
      (e : A) (r : TraceRecorder A)
      → length r.events + 1 ≤ r.max_events
      → trace_call (emit e) r ≡ record r { events = r.events ++ e ∷ [] }
  unfolding trace_call
  emit-fits e r h =
      let long = length-append r.events (e ∷ []) in
      let fits : ltb r.max_events (length (r.events ++ e ∷ [])) ≡ false = ground (arith, h, long) in
      rw fits refl

  trace_run-emits :
      (es : List A) (r : TraceRecorder A)
      → length r.events + length es ≤ r.max_events
      → (trace_run (emits es) r).events ≡ r.events ++ es
  unfolding trace_run
  trace_run-emits [] r h = sym (append-nil r.events)
  trace_run-emits (e ∷ es) r h =
      let long = length-append r.events (e ∷ []) in
      ap (λ (x : TraceRecorder A). (trace_run (emits es) x).events)
        (emit-fits e r (omega (arith, h)))
      ∙ trace_run-emits es (record r { events = r.events ++ e ∷ [] }) (omega (arith, h, long))
      ∙ append_assoc r.events (e ∷ []) es

  -- A look sees what the recorder holds after the first of the events.
  pub record IsPart (max_events : ℕ) (es snapshot : List A) : Type ℓ where
    pub taken : List A
    pub rest : List A
    pub split : es ≡ taken ++ rest
    pub seen : snapshot ≡ (trace_run (emits taken) (new_recorder max_events)).events

  emitted_lem :
      (n : ℕ) (es : List A)
      → length es ≤ 1 + (n - 1)
      → (trace_run (emits es) (new_recorder n)).events ≡ es
  emitted_lem n es h = trace_run-emits es (new_recorder n) (ground (arith, h))

  IsPrefix-part :
      (n : ℕ) (es snapshot : List A)
      → length es ≤ 1 + (n - 1)
      → IsPart n es snapshot
      → IsPrefix es snapshot
  IsPrefix-part n es snapshot h x =
      let short : length x.taken ≤ 1 + (n - 1) =
        omega (arith, h, ap length x.split, length-append x.taken x.rest) in
      record {
        rest = x.rest;
        split = x.split ∙ ap (λ t. t ++ x.rest) (sym (x.seen ∙ emitted_lem n x.taken short));
      }

  IsPrefix-All :
      (n : ℕ) (es : List A) (looks : List (List A))
      → length es ≤ 1 + (n - 1)
      → All (IsPart n es) looks
      → All (IsPrefix es) looks
  IsPrefix-All n es [] h ps = _
  IsPrefix-All n es (x ∷ xs) h (p, ps) = (IsPrefix-part n es x h p, IsPrefix-All n es xs h ps)

  -- Let the recorder be emptied only before the stream begins, and let it be given no more events than it
  -- keeps; let each look see what it holds after the first of them, and the last look what it holds after
  -- all. Then the stream is these events, each once, in order and numbered from one, and behind them one
  -- terminal event with the result.
  pub stream-emits :
      (max_events : ℕ) (es : List A) (looks : List (List A)) (look : List A)
      (status : AsyncTaskStatus) (o : Option AsyncTaskResult)
      → length es ≤ 1 + (max_events - 1)
      → All (IsPart max_events es) looks
      → IsPart max_events es look
      → stream looks look
          (trace_run (emits es) (new_recorder max_events)).events
          status
          o
          new_stream
        ≡ number 0 es ++ ended es (terminal_data status o)
  stream-emits n es looks look status o h ps p = rw (emitted_lem n es h) (
      stream-ahead looks look es status o new_stream (IsPrefix-All n es looks h ps)
        (IsPrefix-part n es look h p) (refl, omega arith))
