-- ===== src/Tests.antt =====
-- Runs on small inputs, one for each theorem that has conditions, and tests of the operations.
mod Proofs
mod Gates
mod Tasks
mod Files
mod Talks
mod Edits
mod Controls
mod Sessions
mod Plans
mod Guards
mod Notes
mod Races
