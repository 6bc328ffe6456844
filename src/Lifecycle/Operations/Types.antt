-- ===== src/Lifecycle/Operations/Types.antt =====
-- lifecycle/operations_registry.py: what is recorded of an operation, and the ranges of phases.
use specsmither.Base.{ℕ, zero, suc, String, Bool, Option, none, some, List, [], ◌∷◌}
use specsmither.Lifecycle.StateMachine.{index_of}
use specsmither.Domain.Enums.{
  PlanningPhase, planning_spec, epic_decomposition, epic_expansion, ticket_decomposition,
  ticket_expansion, cross_validation, planned,
}

pub data OperationKind : Type 0 where
  mutating read_only : OperationKind

pub data GuardType : Type 0 where
  min_count blueprint_epic_ratio : GuardType

-- A home phase, or `any`.
pub data NativePhase : Type 0 where
  any_phase : NativePhase
  home : PlanningPhase → NativePhase

pub data OperationCallClass : Type 0 where
  forbidden native late : OperationCallClass

pub record GuardSpec : Type 0 where
  pub kind : GuardType
  pub description : String

pub record OperationDef : Type 0 where
  pub name : String
  pub kind : OperationKind
  pub native_phase : NativePhase
  pub forbidden_phases : List PlanningPhase
  pub multi_actor : Bool
  pub description : String
  pub max_batch : Option ℕ
  pub guards : List GuardSpec
  pub native_phases : List PlanningPhase

abbrev pub all_phases : List PlanningPhase
all_phases =
    planning_spec ∷ epic_decomposition ∷ epic_expansion ∷ ticket_decomposition ∷ ticket_expansion
    ∷ cross_validation ∷ planned ∷ []

-- `_ALL_PHASES[:idx]`
unfoldable pub take_phases : ℕ → List PlanningPhase → List PlanningPhase
take_phases zero ps = []
take_phases (suc n) [] = []
take_phases (suc n) (p ∷ ps) = p ∷ take_phases n ps

-- The slice, after `_ALL_PHASES.index(end)`; no index is the ValueError.
unfoldable pub phases_up_to : Option ℕ → List PlanningPhase
unfolding take_phases
phases_up_to none = []
phases_up_to (some idx) = take_phases idx all_phases

unfoldable pub phases_before : PlanningPhase → List PlanningPhase
unfolding phases_up_to index_of
phases_before end = phases_up_to (index_of end all_phases)
