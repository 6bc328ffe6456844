-- ===== src/Rollups/Counts.antt =====
-- rollups/counts.py: the tally of a ticket set and the counts of dependencies.
pub mod Tallies
pub mod Dependencies
pub mod Epics
pub mod Statuses
mod Examples
use specsmither.Base.Text.{◌==◌}
use specsmither.Dag.Types.{TicketNode, DepEdge}
use specsmither.Base.Dict.{Dict, get, put, or_else, get_or}
use specsmither.Base.{if◌then◌else◌, ℕ, ◌+◌, String, Option, none, some, List, [], ◌∷◌}

pub record TicketTally : Type 0 where
  pub ticket_count : ℕ
  pub pending_ticket_count : ℕ
  pub ready_ticket_count : ℕ
  pub active_ticket_count : ℕ
  pub completed_ticket_count : ℕ
  pub estimated_minutes : ℕ

abbrev pub no_tickets : TicketTally
no_tickets = record {
  ticket_count = 0;
  pending_ticket_count = 0;
  ready_ticket_count = 0;
  active_ticket_count = 0;
  completed_ticket_count = 0;
  estimated_minutes = 0;
}

-- The counters after one more ticket: `status` against the four names, in order.
unfoldable pub tally_status : String → TicketTally → TicketTally
tally_status status t =
    if status == "pending"
    then record t { pending_ticket_count = t.pending_ticket_count + 1 }
    else if status == "ready"
    then record t { ready_ticket_count = t.ready_ticket_count + 1 }
    else if status == "active"
    then record t { active_ticket_count = t.active_ticket_count + 1 }
    else if status == "done"
    then record t { completed_ticket_count = t.completed_ticket_count + 1 }
    else t

-- `len(tickets)` grows with the loop.
unfoldable pub tally_ticket : TicketNode → TicketTally → TicketTally
unfolding tally_status
tally_ticket row t =
    let counted = tally_status row.status t in
    record counted {
      ticket_count = counted.ticket_count + 1;
      estimated_minutes = counted.estimated_minutes + or_else row.estimated_minutes 0;
    }

unfoldable pub tally_from : TicketTally → List TicketNode → TicketTally
tally_from tally [] = tally
tally_from tally (row ∷ rows) = tally_from (tally_ticket row tally) rows

unfoldable pub tally_tickets : List TicketNode → TicketTally
unfolding tally_from
tally_tickets tickets = tally_from no_tickets tickets

pub record DependencyCountResult : Type 0 where
  pub ticket_incoming : Dict ℕ
  pub ticket_outgoing : Dict ℕ
  pub specification : ℕ
  pub epic : Dict ℕ

-- `_bump` with the key at hand and its default step.
unfoldable pub bump : Dict ℕ → String → Dict ℕ
unfolding put get_or
bump counter key = put counter key (get_or counter key 0 + 1)

-- `_bump(epic, from_epic)` under its condition.
unfoldable pub bump_epic : Dict ℕ → Option String → Option String → Dict ℕ
unfolding bump
bump_epic counter none to_epic = counter
bump_epic counter (some from_epic) none = counter
bump_epic counter (some from_epic) (some to_epic) =
    if from_epic == to_epic then bump counter from_epic else counter

-- `ticket_epic.get(id)`, whose values may be None.
unfoldable pub epic_of : Dict (Option String) → String → Option String
unfolding get
epic_of ticket_epic id = or_else (get ticket_epic id) none

unfoldable pub counts_from :
    Dict (Option String) → DependencyCountResult → List DepEdge → DependencyCountResult
unfolding bump bump_epic epic_of
counts_from ticket_epic counts [] = counts
counts_from ticket_epic counts (edge ∷ edges) =
    counts_from ticket_epic
      (record {
        ticket_outgoing = bump counts.ticket_outgoing edge.ticket_id;
        ticket_incoming = bump counts.ticket_incoming edge.depends_on_id;
        specification = counts.specification + 1;
        epic =
            bump_epic counts.epic (epic_of ticket_epic edge.ticket_id)
              (epic_of ticket_epic edge.depends_on_id);
      })
      edges

unfoldable pub derive_dependency_counts :
    List DepEdge → Dict (Option String) → DependencyCountResult
unfolding counts_from
derive_dependency_counts edges ticket_epic =
    counts_from ticket_epic
      (record { ticket_incoming = []; ticket_outgoing = []; specification = 0; epic = [] }) edges
