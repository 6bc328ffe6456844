-- ===== src/Toon.antt =====
-- src/specsmither/toon: the wire format of the agent interface.
pub mod Strings
