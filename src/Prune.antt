-- ===== src/Prune.antt =====
-- The pruning half of app/pipeline/stage_sync.py: which keys of an environment are stale, and which
-- of these a sync deletes. The proofs are in the modules below.
pub mod Stale
pub mod Environment
pub mod Held
pub mod Rules
pub mod Safety
pub mod Sharing
pub mod Deletion
pub mod Outcome
pub mod Account
pub mod Totality
