-- ===== src/Lifecycle.antt =====
-- packages/specsmither-lifecycle/src/specsmither/lifecycle: the planning session, from its state
-- machine and gate to the verbs, and the executor that commits what a verb decides.
pub mod StateMachine
pub mod Gate
pub mod Prechecks
pub mod Operations
pub mod Dependencies
pub mod Projector
pub mod Plan
pub mod Executor
pub mod Verbs
pub mod Handover
pub mod Complete
pub mod Start
pub mod System
