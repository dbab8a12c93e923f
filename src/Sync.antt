-- ===== src/Sync.antt =====
-- `run_stage_sync` of app/pipeline/stage_sync.py: the writes of one sync, the rollback after a write
-- that fails, and the prune after the last one.
pub mod Files
pub mod Run
pub mod Recovery
pub mod Results
pub mod Locks
pub mod Candidates
pub mod Locking
