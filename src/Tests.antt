-- ===== src/Tests.antt =====
-- Runs of the definitions, and the theorems at concrete data.
mod Seeing
mod Tasks
mod Extracting
mod Memory
mod Pruning
mod Syncing
mod Breaking
mod Recording
mod Candidates
mod Locking
mod Resolving
mod Slicing
mod Layering
mod Tenants
mod Flattening
