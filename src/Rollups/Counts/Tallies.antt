-- ===== src/Rollups/Counts/Tallies.antt =====
-- The buckets of a tally add up.
use specsmither.Base.Text.{◌==◌}
use specsmither.Rollups.Counts.{
  TicketTally, tally_ticket, tally_from, no_tickets, tally_status, tally_tickets,
}
use specsmither.Dag.Types.{TicketNode}
use specsmither.Base.{
  all, ℕ, ◌+◌, ◌≡◌, Bool, true, List, [], ◌∷◌, arith, length, String, refl, sym, ap, ◌∙◌, ◌||◌,
}

-- One of the four status names.
unfoldable pub is_known : TicketNode → Bool
is_known t =
    t.status == "pending" || t.status == "ready" || t.status == "active" || t.status == "done"

abbrev pub in_buckets : TicketTally → ℕ
in_buckets t =
    t.pending_ticket_count + t.ready_ticket_count + t.active_ticket_count + t.completed_ticket_count

tally_status-buckets :
    (status : String) (tally : TicketTally)
    → status == "pending" || status == "ready" || status == "active" || status == "done" ≡ true
    → in_buckets (tally_status status tally) ≡ in_buckets tally + 1
unfolding tally_status
tally_status-buckets status tally known = ground arith

tally_status-count :
    (status : String) (tally : TicketTally)
    → TicketTally.ticket_count (tally_status status tally) ≡ tally.ticket_count
unfolding tally_status
tally_status-count status tally = ground arith

tally_from-buckets :
    (tally : TicketTally) (tickets : List TicketNode)
    → all is_known tickets ≡ true
    → in_buckets tally ≡ tally.ticket_count
    → in_buckets (tally_from tally tickets) ≡ TicketTally.ticket_count (tally_from tally tickets)
unfolding tally_from all is_known tally_ticket
tally_from-buckets tally [] known h = h
tally_from-buckets tally (t ∷ tickets) known h =
    tally_from-buckets (tally_ticket t tally) tickets (ground arith) (
      tally_status-buckets t.status tally (ground arith)
      ∙ ap (λ n. n + 1) (h ∙ sym (tally_status-count t.status tally)))

pub tally_from-count :
    (tally : TicketTally) (tickets : List TicketNode)
    → TicketTally.ticket_count (tally_from tally tickets) ≡ tally.ticket_count + length tickets
unfolding tally_from tally_ticket
tally_from-count tally [] = omega arith
tally_from-count tally (t ∷ tickets) =
    let rest = tally_from-count (tally_ticket t tally) tickets in
    let here = tally_status-count t.status tally in omega arith

-- For tickets whose statuses are the four known ones, the four buckets of the tally add up to the number
-- of tickets.
pub tally_tickets-buckets :
    (tickets : List TicketNode)
    → all is_known tickets ≡ true
    → in_buckets (tally_tickets tickets) ≡ length tickets
unfolding tally_tickets
tally_tickets-buckets tickets known =
    tally_from-buckets no_tickets tickets known refl
    ∙ tally_from-count no_tickets tickets
    ∙ omega arith
