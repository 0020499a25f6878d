-- ===== src/Control.antt =====
-- What bounds the work on a task: minicodex/agent/routing/execution_policy.py,
-- minicodex/agent/runtime/task_control.py, minicodex/agent/runtime/execution_control.py and
-- minicodex/agent/progress/ (recovery.py, and the repeated calls of progress.py).
pub mod Policy
pub mod TaskControl
pub mod Bounds
pub mod Recovery
pub mod Cancellation
pub mod Repeats
pub mod AsyncTask
