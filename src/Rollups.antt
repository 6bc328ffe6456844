-- ===== src/Rollups.antt =====
-- src/specsmither/rollups: the derived columns, recomputed in the transaction of each mutation.
pub mod Recompute
pub mod Counts
