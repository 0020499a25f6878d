-- ===== src/Safety.antt =====
-- What may run: minicodex/agent/safety/safety.py and minicodex/agent/safety/safety_executor.py.
pub mod Redirection
pub mod Rules
pub mod Policy
pub mod Executor
