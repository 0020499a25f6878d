-- ===== src/Lib.antt =====
-- The core of Mini Codex: the state of a task, the ledger of its validation evidence, the policy
-- that decides when it is complete, and the checkpoints by which its edits are taken back.
--
-- How the parts interact. The loop of the agent reports what happens as events, which the reducer
-- of minicodex/agent/task_state.py folds into the task state; the runtime refuses an event that
-- would break the state's invariant. Validators leave evidence in the ledger
-- (minicodex/agent/validation/ledger.py), each run bound to a check of the plan
-- (minicodex/agent/validation/plan.py) and to the edit revision of the moment. The decision policy
-- and the completion policy (decision_policy.py, completion_policy.py, both in
-- minicodex/agent/validation/) read only the ledger's proofs, and
-- minicodex/agent/orchestration/orchestration_transitions.py turns their answer into the next step
-- of the loop or the end of the task. Before an edit the store of
-- minicodex/agent/editing/checkpoint.py keeps the old content of the file, and
-- minicodex/agent/editing/rollback.py restores it; minicodex/agent/editing/checkpoint_executor.py
-- puts an edit between the capture and the seal, and when a validation has got worse
-- minicodex/agent/editing/rollback_coordinator.py rolls the edit back and tells the ledger and the
-- runtime. An edit on stale context is retried under minicodex/agent/editing/edit_retry.py. The
-- conversation with the provider is checked by minicodex/agent/orchestration/message_protocol.py and
-- shortened by minicodex/agent/context/message_compaction.py. How far a task may go on is held by
-- minicodex/agent/runtime/task_control.py, minicodex/agent/progress/recovery.py and the token of
-- minicodex/agent/runtime/execution_control.py.
--
-- The files.
--   Common: texts as lists of code points, integers over the native numbers, dictionaries as
--     association lists in insertion order, decimal numerals, and the searches over lists.
--   Validation.Evidence: evidence.py. Validation.Contracts: the types of contracts.py.
--   Validation.Plan: plan.py, and the requirement records of minicodex/agent/planning/requirements.py;
--     `plan_of` is ValidationPlanner.build, which Coverage and Distinct are about.
--   Validation.Ledger: ledger.py, with a function for each method: `record_evidence` is record,
--     `proof` is proof. Below it, Proofs says what a proof is, History runs calls in sequence,
--     Freshness is about edits and Runs about validator runs.
--   Validation.Decision, Validation.Regression: decision_policy.py, regression_policy.py.
--   Validation.Completion: completion.py and completion_policy.py; Gate is about `evaluate`.
--   Task.WorkUnit: minicodex/agent/editing/work_unit.py.
--   Task.State, Task.Event, Task.Reduce, Task.Runtime: task_state.py; `reduce_edit`,
--     `reduce_validation` and `reduce_rollback` are branches of reduce_task_state, `apply` is
--     TaskRuntime.apply.
--   Orchestration: validation_transition and record_task_outcome; Finish joins the gate and the
--     task state.
--   Editing.Host: what is taken from the operating system and the library, and
--     minicodex/utils/paths.py. Editing.Checkpoint: checkpoint.py; below it, Tidy, Uses,
--     Found and Lookup are about sequences of calls and about `get`. Editing.Rollback: rollback.py,
--     with Restores, Elsewhere and Again about what one rollback restores and leaves alone and about a
--     second one, and Undo and Finished about the undo of a task.
--   Editing.Executor: checkpoint_executor.py, `execute_prepared` and its stages; Kept is about
--     edits that are not sealed, Protected and RoundTrip about those that are. Editing.Retry:
--     edit_retry.py; Once is about the one refresh and the one retry.
--   Coordination: rollback_coordinator.py; Effects is about the rollbacks that it makes.
--   Messages.Protocol: message_protocol.py; below it Grammar is an independent description of
--     what the check accepts, Sound and Complete compare the two, and Closing is about the
--     closing of a batch. Messages.Payload, Messages.Compaction: message_compaction.py; Shape
--     and Recent are about what compaction leaves.
--   Planning: minicodex/agent/planning/state.py; Steps and Finish are about runs of its operations.
--   Safety.Redirection: the redirection guard of minicodex/agent/safety/safety.py; Rounds removes its
--     fuel and Writes is about commands. Safety.Rules, Safety.Policy: the rest of safety.py; Edits and
--     Commands are about its two assessments. Safety.Executor: safety_executor.py, which Gate is about.
--   Memory: minicodex/agent/memory/working_memory.py; Observe is its `record_tool_result`, Entries
--     has lemmas, and Fresh, Kept and Bounded are about edits, insertions and runs.
--   Control.Policy: minicodex/agent/routing/execution_policy.py. Control.TaskControl:
--     task_control.py, which Bounds is about. Control.Recovery: recovery.py. Control.Cancellation:
--     the token of execution_control.py, as whole calls and as interleaved steps.
--   Control.AsyncTask: the background task of minicodex/agent/runtime/async_runtime.py, its worker and
--     `cancel` as interleaved steps; Outcome is about how it ends, Stream
--     is the stream of its events, and Recorder what reaches it from the recorder of
--     minicodex/agent/observability/trace.py.
--   Control.Repeats: the guard against repeated calls of minicodex/agent/progress/progress.py.
--   Tests: runs on small inputs.
--
-- How the code is modelled. Mutable objects are records that the operations take and return. A
-- raised exception is a constructor of the result (`err`, `raised`, `invalid`); after `invalid`
-- the runtime is the one before. Revisions of the task state are integers, since the events carry
-- any `int`; the ledger's and the store's are natural numbers, which they only count up. The data
-- of an event, a mapping by names in the code, is a record of the entries that the reducer reads,
-- each absent or present; entries of a wrong type are left out. Texts that the code shows to the
-- model or to a person are constructors that carry what the text is made from. The checkpoint
-- objects in the store are shared with its callers; the code finds one by its identifier and
-- changes it in place, and the model changes the entries with that identifier. The rollback
-- engine's workspace is that of its store, as the agent builds them.
--
-- Parameters. `Host` stands for path objects, files and SHA-256, and `HostLaws` for what writing,
-- deleting and making directories promise of the path they work on and of the others; nothing is
-- asked of the hash or of the resolution of paths. An operation on files may fail, and may then
-- leave any disk; `IsObliging` is a disk on which the file at one path can be overwritten and
-- removed and on which a text that was read is read back as it was written. `Surroundings`
-- stands for what the executor is built from: the executor that it wraps, the registry's word on a tool, the next revision, and what
-- others write between the capture and the edit. `dumps` and `JsonLibrary` stand for json, the regular
-- expression of counts and str.lower. A plan's criteria, which are mappings of
-- names to anything, are a type with an equality. `Library` stands for
-- what the safety policy uses of shlex, paths and texts and for the searches of its regular expressions,
-- and `Boundary` for the executor, the hook and the registry around it; `digest` is the start of a
-- SHA-1. `casefold` and `path_name` stand for str.casefold and PurePosixPath.name.
--
-- Bounds and fuel. Numbers are unbounded, as in Python. The redirection guard takes one more than
-- the length of the command as fuel: every round leaves a shorter text. The digits of a number n take fuel n + 1,
-- one division by ten for each digit, and n has at most n + 1 digits. Every other loop is
-- recursion on a list.
--
-- Not modelled: the agent object and its loop, the extraction of requirements from natural
-- language, the parsing of contracts, the running of validators, planners and the revision of plans, long-term memory,
-- the token budget (floating-point ratios) and logs, the verification of an edit's intent, the
-- sandbox, tools, the model client and the user interfaces. They are input and output, text
-- assembly, or glue over the parts above.
pub mod Common
pub mod Validation
pub mod Task
pub mod Orchestration
pub mod Editing
pub mod Messages
pub mod Planning
pub mod Safety
pub mod Memory
pub mod Control
pub mod Coordination
pub mod Tests
