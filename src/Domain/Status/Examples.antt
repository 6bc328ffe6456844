-- ===== src/Domain/Status/Examples.antt =====
-- The status predicates on a text that is no status, and on two that are.
use specsmither.Base.{◌≡◌, true, not, ◌&&◌, ◌||◌}
use specsmither.Domain.Status.Transitions.{one_of, predicates_partition, is_valid_transition_rule}
use specsmither.Domain.Status.{
  is_actionable_status, is_blocked_status, is_active_status, is_complete_status,
  is_valid_transition,
}

predicates_partition_example :
    one_of
      (is_blocked_status "bogus")
      (is_actionable_status "bogus")
      (is_active_status "bogus")
      (is_complete_status "bogus")
    ≡ true
predicates_partition_example = predicates_partition "bogus"

is_valid_transition_rule_example : is_valid_transition "ready" "done" ≡ (
    is_blocked_status "done"
    || (is_actionable_status "done" && not (is_actionable_status "ready"))
    || (is_active_status "done" && (is_actionable_status "ready" || is_complete_status "ready"))
    || (is_complete_status "done" && is_active_status "ready"))
is_valid_transition_rule_example = is_valid_transition_rule "ready" "done"
