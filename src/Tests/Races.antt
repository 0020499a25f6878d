-- ===== src/Tests/Races.antt =====
-- Interleavings of a background task and of the calls that cancel it
-- (minicodex/agent/runtime/async_runtime.py).
use mini_codex.Common.{
  ℕ, List, [], ◌∷◌, ◌++◌, All, arith, ◌≡◌, ◌≢◌, ◌⊎◌, refl, true, false, none, some, Text, codes,
  strip,
}
use mini_codex.Control.Cancellation.{new_token, cancel, raise_if_cancelled, reason_text}
use mini_codex.Control.AsyncTask.{
  pending, running, cancelling, Ending, by_cancellation, by_return, result_of, idle, kept, over,
  AsyncTask, new_task, start, mark, install, check_first, tell, keep_result, look, request, show,
  works, cancels, Reach, here, next,
}
use mini_codex.Control.AsyncTask.Stream.{new_stream, number, ended, terminal_data, stream}
use mini_codex.Control.AsyncTask.Recorder.{
  new_recorder, trace_call, trace_run, emits, IsSeen, IsStreamed, IsPart, stream-IsStreamed,
  stream-emits,
}
use mini_codex.Control.AsyncTask.Outcome.{
  cancelled_never_completes, done_is_final, rest_is_final, overtaken_task,
}

abbrev stop : Text
stop = codes "stop"

-- Cancelled before the worker has begun; the call has not shown it yet.
abbrev early : AsyncTask
early = record {
  token = (cancel stop new_token).0;
  status = pending;
  result = none;
  done = false;
  worker = idle;
  checked = 0;
  won = true;
  wrapped = false;
}

early-Reach : Reach new_task early
unfolding cancel
early-Reach =
    let a0 : Reach new_task new_task = here in
    let a1 = next a0 (cancels (look refl refl)) in next a1 (cancels (request stop 0 refl refl refl))

-- The same task with its result, and the status that the call writes last.
abbrev late : AsyncTask
late = record {
  token = (cancel stop new_token).0;
  status = cancelling;
  result = some (result_of (by_cancellation stop));
  done = false;
  worker = kept (some (by_cancellation stop));
  checked = 0;
  won = false;
  wrapped = true;
}

late-Reach : Reach early late
unfolding cancel raise_if_cancelled strip
late-Reach =
    let a0 : Reach early early = here in
    let a1 = next a0 (works (start refl refl)) in
    let a2 = next a1 (works (mark refl refl)) in
    let a3 = next a2 (works (install refl refl)) in
    let a4 = next a3 (works (check_first refl refl)) in
    let a5 = next a4 (works (tell (by_cancellation stop) refl refl)) in
    let a6 = next a5 (works (keep_result (by_cancellation stop) refl refl)) in
    next a6 (cancels (show refl refl))

cancelled_never_completes_example : late.result ≢ some (result_of (by_return stop))
unfolding cancel
cancelled_never_completes_example =
    cancelled_never_completes early late stop early-Reach refl refl late-Reach

-- The task that a request has overtaken.
abbrev overtaken : AsyncTask
overtaken = record {
  token = record { is_cancelled = true; reason = some (reason_text stop) };
  status = cancelling;
  result = some (result_of (by_return stop));
  done = true;
  worker = over (some (by_return stop));
  checked = 0;
  won = false;
  wrapped = false;
}

done_is_final_example :
    (((e : Ending) × (overtaken.result ≡ some (result_of e))) ⊎ (overtaken.worker ≡ over none))
    × (overtaken.done ≡ true)
    × (overtaken.result ≡ overtaken.result)
    × (overtaken.wrapped ≡ false)
done_is_final_example = done_is_final overtaken overtaken (overtaken_task stop stop) refl here

rest_is_final_example : overtaken ≡ overtaken
rest_is_final_example =
    rest_is_final overtaken overtaken (overtaken_task stop stop) refl refl refl here

abbrev oldest : List ℕ
oldest = 7 ∷ []

abbrev first_two : List ℕ
first_two = 7 ∷ 5 ∷ []

abbrev newest : List ℕ
newest = 5 ∷ 9 ∷ []

abbrev three : List ℕ
three = 7 ∷ 5 ∷ 9 ∷ []

-- The recorder keeps two events and is given three.
abbrev full_looks : List (List ℕ)
full_looks = oldest ∷ first_two ∷ []

full_looks-IsSeen : All (IsSeen 2) full_looks
unfolding trace_call trace_run
full_looks-IsSeen = (
  record { calls = emits oldest; seen = refl },
  (record { calls = emits first_two; seen = refl }, _),
)

last-IsSeen : IsSeen 2 newest
unfolding trace_call trace_run
last-IsSeen = record { calls = emits three; seen = refl }

stream-IsStreamed_example :
    IsStreamed 2
      (result_of (by_return stop))
      (stream full_looks newest newest running (some (result_of (by_return stop))) new_stream)
stream-IsStreamed_example =
    stream-IsStreamed 2 full_looks newest newest running (some (result_of (by_return stop)))
      full_looks-IsSeen last-IsSeen last-IsSeen

-- The third event is lost.
stream_loses :
    stream full_looks newest newest running none new_stream
    ≡ number 0 first_two ++ ended first_two (terminal_data running none)
unfolding stream
stream_loses = refl

abbrev looks : List (List ℕ)
looks = oldest ∷ [] ∷ first_two ∷ []

looks-IsPart : All (IsPart 3 three) looks
unfolding trace_call trace_run
looks-IsPart = (
  record { taken = 7 ∷ []; rest = 5 ∷ 9 ∷ []; split = refl; seen = refl },
  (
    record { taken = []; rest = 7 ∷ 5 ∷ 9 ∷ []; split = refl; seen = refl },
    (record { taken = 7 ∷ 5 ∷ []; rest = 9 ∷ []; split = refl; seen = refl }, _),
  ),
)

look-IsPart : IsPart 3 three oldest
unfolding trace_call trace_run
look-IsPart = record { taken = 7 ∷ []; rest = 5 ∷ 9 ∷ []; split = refl; seen = refl }

stream-emits_example :
    stream looks oldest
      (trace_run (emits three) (new_recorder 3)).events
      running
      (some (result_of (by_return stop)))
      new_stream
    ≡ number 0 three ++ ended three (result_of (by_return stop))
stream-emits_example =
    stream-emits 3 three looks oldest running (some (result_of (by_return stop))) (omega arith)
      looks-IsPart look-IsPart
