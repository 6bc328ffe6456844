-- ===== src/Lifecycle/Prechecks.antt =====
-- lifecycle/prechecks/result.py: what a pre-check returns. Of a denial its code is kept.
use specsmither.Base.{String, Bool}

pub data PrecheckResult : Type 0 where
  accepted : (rollback : Bool) (auto_transition : Bool) → PrecheckResult
  denied : String → PrecheckResult
