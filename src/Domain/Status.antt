-- ===== src/Domain/Status.antt =====
-- domain/status.py: the four ticket statuses, the transitions between them, and the predicates that
-- read any text as a status.
pub mod Transitions
mod Examples
use specsmither.Base.{String, Bool, Option, none, some, List, [], ◌∷◌, if◌then◌else◌, any}
use specsmither.Base.Text.{◌==◌}
use specsmither.Domain.Enums.{TicketStatus, ticket_status_value, pending, ready, active}

abbrev pub ticket_statuses : List TicketStatus
ticket_statuses = pending ∷ ready ∷ active ∷ TicketStatus.done ∷ []

abbrev pub actionable_statuses : List TicketStatus
actionable_statuses = ready ∷ []

abbrev pub blocked_statuses : List TicketStatus
blocked_statuses = pending ∷ []

abbrev pub active_statuses : List TicketStatus
active_statuses = active ∷ []

abbrev pub complete_statuses : List TicketStatus
complete_statuses = TicketStatus.done ∷ []

-- The mapping is total on the enumeration, so it is a function.
unfoldable pub valid_transitions : TicketStatus → List TicketStatus
valid_transitions pending = ready ∷ pending ∷ []
valid_transitions ready = active ∷ pending ∷ []
valid_transitions active = TicketStatus.done ∷ pending ∷ ready ∷ []
valid_transitions TicketStatus.done = active ∷ pending ∷ ready ∷ []

-- `status in xs` for a tuple of members: members and texts are compared as texts.
unfoldable pub status_in : String → List TicketStatus → Bool
unfolding any
status_in status xs = any (λ t. ticket_status_value t == status) xs

unfoldable pub is_valid_status : String → Bool
unfolding status_in
is_valid_status status = status_in status ticket_statuses

-- `TicketStatus(status)`: the member with this text; `none` is the ValueError.
unfoldable pub ticket_status_of : String → Option TicketStatus
ticket_status_of status =
    if status == "pending"
    then some pending
    else if status == "ready"
    then some ready
    else if status == "active"
    then some active
    else if status == "done"
    then some TicketStatus.done
    else none

-- The constructor is only called on a valid text, where it does not raise
-- (`is_valid_status_iff_member`), so the value given for `none` is never used.
unfoldable pub as_ticket_status : String → TicketStatus
unfolding is_valid_status ticket_status_of
as_ticket_status status =
    if is_valid_status status
    then (elim (ticket_status_of status) [ some t ↦ t | none ↦ pending ])
    else pending

unfoldable pub is_actionable_status : String → Bool
unfolding as_ticket_status status_in
is_actionable_status status =
    status_in (ticket_status_value (as_ticket_status status)) actionable_statuses

unfoldable pub is_blocked_status : String → Bool
unfolding as_ticket_status status_in
is_blocked_status status =
    status_in (ticket_status_value (as_ticket_status status)) blocked_statuses

unfoldable pub is_active_status : String → Bool
unfolding as_ticket_status status_in
is_active_status status = status_in (ticket_status_value (as_ticket_status status)) active_statuses

unfoldable pub is_complete_status : String → Bool
unfolding as_ticket_status status_in
is_complete_status status =
    status_in (ticket_status_value (as_ticket_status status)) complete_statuses

unfoldable pub is_valid_transition : String → String → Bool
unfolding as_ticket_status status_in valid_transitions
is_valid_transition from to =
    status_in (ticket_status_value (as_ticket_status to))
      (valid_transitions (as_ticket_status from))

unfoldable pub get_valid_target_statuses : String → List TicketStatus
unfolding as_ticket_status valid_transitions
get_valid_target_statuses status = valid_transitions (as_ticket_status status)
