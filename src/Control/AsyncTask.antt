-- ===== src/Control/AsyncTask.antt =====
-- `AsyncAgentTask` of minicodex/agent/runtime/async_runtime.py: its worker and the calls of `cancel`, as
-- interleaved steps. The durations of results are left out. What the agent does is left open: it returns
-- a text, fails, raises the cancellation that the boundaries around it raise, or lets an exception
-- through that the worker does not catch.
pub mod Outcome
pub mod Stream
pub mod Recorder
use mini_codex.Common.{ℕ, zero, suc, ◌≡◌, Bool, true, false, Option, none, some, Text}
use mini_codex.Control.Cancellation.{CancellationToken, new_token, cancel, raise_if_cancelled}

pub data AsyncTaskStatus : Type 0 where
  pending running cancelling cancelled completed failed : AsyncTaskStatus

pub record AsyncTaskResult : Type 0 where
  pub status : AsyncTaskStatus
  pub output : Option Text
  pub error : Option Text
  pub is_cancelled : Bool

-- How the body of the worker ends, with the text of the exception or the output.
pub data Ending : Type 0 where
  by_cancellation by_failure by_return : Text → Ending

abbrev pub status_of : Ending → AsyncTaskStatus
status_of (by_cancellation e) = cancelled
status_of (by_failure e) = failed
status_of (by_return o) = completed

abbrev pub result_of : Ending → AsyncTaskResult
result_of (by_cancellation e) = record {
  status = cancelled;
  output = none;
  error = some e;
  is_cancelled = true;
}
result_of (by_failure e) = record {
  status = failed;
  output = none;
  error = some e;
  is_cancelled = false;
}
result_of (by_return o) = record {
  status = completed;
  output = some o;
  error = none;
  is_cancelled = false;
}

-- Where the worker stands.
pub data Worker : Type 0 where
  idle entered marked installed in_agent : Worker
  returned : Text → Worker
  ending told : Ending → Worker
  -- No ending: an exception was not caught.
  kept restored over : Option Ending → Worker

-- The task. `checked` counts the calls of `cancel` that have found it not done, `won` says that a call has
-- won the token and has not shown it yet, and `wrapped` that the boundaries are installed.
pub record AsyncTask : Type 0 where
  pub token : CancellationToken
  pub status : AsyncTaskStatus
  pub result : Option AsyncTaskResult
  pub done : Bool
  pub worker : Worker
  pub checked : ℕ
  pub won : Bool
  pub wrapped : Bool

abbrev pub new_task : AsyncTask
new_task = record {
  token = new_token;
  status = pending;
  result = none;
  done = false;
  worker = idle;
  checked = 0;
  won = false;
  wrapped = false;
}

-- `raise_if_cancelled`, before what follows.
abbrev pub after_check : CancellationToken → Worker → Worker
after_check t w = elim (raise_if_cancelled t) [ none ↦ w | some e ↦ ending (by_cancellation e) ]

-- A step of the worker.
pub data WorkerStep (s s' : AsyncTask) : Type 0 where
  start : s.worker ≡ idle → s' ≡ record s { worker = entered } → WorkerStep s s'
  mark : s.worker ≡ entered → s' ≡ record s { worker = marked; status = running } → WorkerStep s s'
  install :
      s.worker ≡ marked → s' ≡ record s { worker = installed; wrapped = true } → WorkerStep s s'
  check_first :
      s.worker ≡ installed
      → s' ≡ record s { worker = after_check s.token in_agent }
      → WorkerStep s s'
  agent_returns :
      (output : Text)
      → s.worker ≡ in_agent
      → s' ≡ record s { worker = returned output }
      → WorkerStep s s'
  agent_fails :
      (e : Text)
      → s.worker ≡ in_agent
      → s' ≡ record s { worker = ending (by_failure e) }
      → WorkerStep s s'
  agent_stops :
      (e : Text)
      → s.worker ≡ in_agent
      → raise_if_cancelled s.token ≡ some e
      → s' ≡ record s { worker = ending (by_cancellation e) }
      → WorkerStep s s'
  agent_escapes : s.worker ≡ in_agent → s' ≡ record s { worker = kept none } → WorkerStep s s'
  check_last :
      (output : Text)
      → s.worker ≡ returned output
      → s' ≡ record s { worker = after_check s.token (ending (by_return output)) }
      → WorkerStep s s'
  tell :
      (e : Ending)
      → s.worker ≡ ending e
      → s' ≡ record s { worker = told e; status = status_of e }
      → WorkerStep s s'
  keep_result :
      (e : Ending)
      → s.worker ≡ told e
      → s' ≡ record s { worker = kept (some e); result = some (result_of e) }
      → WorkerStep s s'
  restore :
      (o : Option Ending)
      → s.worker ≡ kept o
      → s' ≡ record s { worker = restored o; wrapped = false }
      → WorkerStep s s'
  set_done :
      (o : Option Ending)
      → s.worker ≡ restored o
      → s' ≡ record s { worker = over o; done = true }
      → WorkerStep s s'

-- A step of a thread in `cancel`: it looks whether the task is done, asks the token, and shows what it won.
pub data CancelStep (s s' : AsyncTask) : Type 0 where
  look : s.done ≡ false → s' ≡ record s { checked = suc s.checked } → CancelStep s s'
  request :
      (reason : Text) (others : ℕ)
      → s.checked ≡ suc others
      → s.token.is_cancelled ≡ false
      → s' ≡ record s { checked = others; token = (cancel reason s.token).0; won = true }
      → CancelStep s s'
  lose :
      (others : ℕ)
      → s.checked ≡ suc others
      → s.token.is_cancelled ≡ true
      → s' ≡ record s { checked = others }
      → CancelStep s s'
  show : s.won ≡ true → s' ≡ record s { won = false; status = cancelling } → CancelStep s s'

pub data TaskStep (s s' : AsyncTask) : Type 0 where
  works : WorkerStep s s' → TaskStep s s'
  cancels : CancelStep s s' → TaskStep s s'

pub data Reach (s : AsyncTask) : AsyncTask → Type 0 where
  here : Reach s s
  next : {t u : AsyncTask} → Reach s t → TaskStep t u → Reach s u
