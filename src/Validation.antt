-- ===== src/Validation.antt =====
-- The validation core: minicodex/agent/validation/.
pub mod Evidence
pub mod Contracts
pub mod Plan
pub mod Ledger
pub mod Decision
pub mod Regression
pub mod Completion
