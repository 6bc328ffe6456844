-- ===== src/Domain.antt =====
-- packages/specsmither-lifecycle/src/specsmither/domain: the status vocabularies.
pub mod Enums
pub mod Status
