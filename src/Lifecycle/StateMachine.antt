-- ===== src/Lifecycle/StateMachine.antt =====
-- lifecycle/state_machine.py: the order of the planning phases.
use specsmither.Domain.Enums.{
  PlanningPhase, planning_spec, epic_decomposition, epic_expansion, ticket_decomposition,
  ticket_expansion, cross_validation, planned,
}
use specsmither.Base.{
  ltb, nat_eq, if◌then◌else◌, ℕ, zero, suc, ◌+◌, Bool, true, false, Option, none, some, List, [],
  ◌∷◌, and_then,
}

-- Equality of two members of a `StrEnum`.
unfoldable pub same_phase : PlanningPhase → PlanningPhase → Bool
same_phase planning_spec planning_spec = true
same_phase epic_decomposition epic_decomposition = true
same_phase epic_expansion epic_expansion = true
same_phase ticket_decomposition ticket_decomposition = true
same_phase ticket_expansion ticket_expansion = true
same_phase cross_validation cross_validation = true
same_phase planned planned = true
same_phase _ _ = false

abbrev pub phase_order : List PlanningPhase
phase_order =
    planning_spec ∷ epic_decomposition ∷ epic_expansion ∷ ticket_decomposition ∷ ticket_expansion
    ∷ cross_validation ∷ planned ∷ []

-- `tuple.index`; `none` is the ValueError.
unfoldable pub index_of : PlanningPhase → List PlanningPhase → Option ℕ
unfolding same_phase
index_of phase [] = none
index_of phase (p ∷ ps) =
    let rest = index_of phase ps in
    if same_phase p phase then some 0 else and_then rest (λ i. some (suc i))

-- `PHASE_ORDER[i]`; `none` is the IndexError.
unfoldable pub phase_at : List PlanningPhase → ℕ → Option PlanningPhase
phase_at [] i = none
phase_at (p ∷ ps) zero = some p
phase_at (p ∷ ps) (suc i) = phase_at ps i

-- `none` is the source's -1.
unfoldable pub phase_index : PlanningPhase → Option ℕ
unfolding index_of
phase_index phase = index_of phase phase_order

-- The rest of `next_phase` after its `phase_index` call; 6 is `len(PHASE_ORDER) - 1`.
unfoldable pub phase_after : Option ℕ → Option PlanningPhase
unfolding phase_at
phase_after none = none
phase_after (some idx) = if nat_eq idx 6 then none else phase_at phase_order (idx + 1)

unfoldable pub next_phase : PlanningPhase → Option PlanningPhase
unfolding phase_index phase_after
next_phase phase = phase_after (phase_index phase)

unfoldable pub is_terminal_phase : PlanningPhase → Bool
unfolding same_phase
is_terminal_phase phase = same_phase phase cross_validation

-- `>` on indices, where the source's -1 is less than every index.
unfoldable pub index_gt : Option ℕ → Option ℕ → Bool
index_gt none _ = false
index_gt (some i) none = true
index_gt (some i) (some j) = ltb j i

unfoldable pub is_later_phase : PlanningPhase → PlanningPhase → Bool
unfolding phase_index index_gt
is_later_phase phase than = index_gt (phase_index phase) (phase_index than)
