-- ===== src/Env.antt =====
-- Which environment a file of a push belongs to.
pub mod Cache
pub mod Resolver
pub mod Resolving
pub mod Slice
pub mod Slicing
