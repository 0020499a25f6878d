-- ===== src/Editing.antt =====
-- Edits and their recovery: minicodex/agent/editing/.
pub mod Host
pub mod Checkpoint
pub mod Rollback
pub mod Executor
pub mod Retry
