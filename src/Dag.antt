-- ===== src/Dag.antt =====
-- src/specsmither/dag: the pure dependency engine.
pub mod Types
pub mod StatusCalculator
pub mod Cascade
pub mod CriticalPath
