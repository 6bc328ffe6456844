-- ===== src/Domain/Status/Transitions.antt =====
-- What the predicates of domain/status.py answer, for every text.
use specsmither.Base.{
  String, ◌≡◌, refl, Bool, true, false, ◌||◌, ◌&&◌, not, some, none, arith, eq_iff,
}
use specsmither.Domain.Enums.{TicketStatus, ticket_status_value, pending, ready, active}
use specsmither.Domain.Status.{
  is_valid_status, ticket_status_of, as_ticket_status, is_actionable_status, is_blocked_status,
  is_active_status, is_complete_status, is_valid_transition, status_in, valid_transitions,
  blocked_statuses, actionable_statuses, active_statuses, complete_statuses,
}

-- The constructor raises on exactly the texts that are no status.
pub is_valid_status_iff_member :
    (s : String) → is_valid_status s ≡ (elim (ticket_status_of s) [ some t ↦ true | none ↦ false ])
unfolding is_valid_status ticket_status_of
is_valid_status_iff_member s = ground (
  arith,
  eq_iff "pending" s,
  eq_iff "ready" s,
  eq_iff "active" s,
  eq_iff "done" s,
  eq_iff s "pending",
  eq_iff s "ready",
  eq_iff s "active",
  eq_iff s "done",
)

as_value : (s : String) → is_valid_status s ≡ true → ticket_status_value (as_ticket_status s) ≡ s
unfolding as_ticket_status
as_value s = ground (
  arith,
  eq_iff "pending" s,
  eq_iff "ready" s,
  eq_iff "active" s,
  eq_iff "done" s,
  eq_iff s "pending",
  eq_iff s "ready",
  eq_iff s "active",
  eq_iff s "done",
)

-- How many of four tests pass.
abbrev pub one_of : Bool → Bool → Bool → Bool → Bool
one_of true false false false = true
one_of false true false false = true
one_of false false true false = true
one_of false false false true = true
one_of _ _ _ _ = false

partition_at :
    (t : TicketStatus)
    → one_of
        (status_in (ticket_status_value t) blocked_statuses)
        (status_in (ticket_status_value t) actionable_statuses)
        (status_in (ticket_status_value t) active_statuses)
        (status_in (ticket_status_value t) complete_statuses)
      ≡ true
unfolding status_in
partition_at pending = refl
partition_at _ = refl

-- The four predicates partition all texts: exactly one of blocked, actionable, active and complete
-- holds, also of a text that is no status.
pub predicates_partition :
    (s : String)
    → one_of
        (is_blocked_status s)
        (is_actionable_status s)
        (is_active_status s)
        (is_complete_status s)
      ≡ true
unfolding is_blocked_status is_actionable_status is_active_status is_complete_status
predicates_partition s = partition_at (as_ticket_status s)

transition_at :
    (f t : TicketStatus)
    → status_in (ticket_status_value t) (valid_transitions f) ≡ (
        status_in (ticket_status_value t) blocked_statuses
        || (status_in (ticket_status_value t) actionable_statuses
            && not (status_in (ticket_status_value f) actionable_statuses))
        || (status_in (ticket_status_value t) active_statuses
            && (status_in (ticket_status_value f) actionable_statuses
                || status_in (ticket_status_value f) complete_statuses))
        || (status_in (ticket_status_value t) complete_statuses
            && status_in (ticket_status_value f) active_statuses))
unfolding status_in valid_transitions
transition_at pending pending = refl
transition_at ready pending = refl
transition_at active pending = refl
transition_at TicketStatus.done pending = refl
transition_at _ _ = refl

-- A transition is permitted, for all texts, exactly if its target is blocked; or is actionable and
-- its source is not; or is active and its source is actionable or complete; or is complete and its
-- source is active.
pub is_valid_transition_rule :
    (from to : String)
    → is_valid_transition from to ≡ (
        is_blocked_status to
        || (is_actionable_status to && not (is_actionable_status from))
        || (is_active_status to && (is_actionable_status from || is_complete_status from))
        || (is_complete_status to && is_active_status from))
unfolding is_valid_transition is_blocked_status is_actionable_status is_active_status
    is_complete_status
is_valid_transition_rule from to = transition_at (as_ticket_status from) (as_ticket_status to)
