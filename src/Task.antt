-- ===== src/Task.antt =====
-- The task state and its transitions: minicodex/agent/task_state.py.
pub mod WorkUnit
pub mod State
pub mod Event
pub mod Reduce
pub mod Runtime
