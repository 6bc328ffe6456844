-- ===== src/Rollups/Counts/Epics.antt =====
-- rollups/counts.py: the counts of an epic, of a specification and of a project. Python's floating-point numbers
-- are a parameter, with the operations that the progress formula uses.
use specsmither.Domain.Enums.{
  SpecStatus, draft, planning, in_progress, ready_for_review, in_review, reviewed, EpicStatus, todo,
  completed,
}
use specsmither.Base.{ltb, nat_eq, if◌then◌else◌, ℕ, ◌+◌, ◌||◌, List, [], ◌∷◌}
use specsmither.Dag.Types.{TicketNode}
use specsmither.Rollups.Counts.{tally_tickets}

pub record EpicCounts : Type 0 where
  pub ticket_count : ℕ
  pub pending_ticket_count : ℕ
  pub ready_ticket_count : ℕ
  pub active_ticket_count : ℕ
  pub completed_ticket_count : ℕ
  pub estimated_minutes : ℕ
  pub progress : ℕ
  pub status : EpicStatus

pub record SpecCounts : Type 0 where
  pub epic_count : ℕ
  pub todo_epic_count : ℕ
  pub in_progress_epic_count : ℕ
  pub completed_epic_count : ℕ
  pub ticket_count : ℕ
  pub completed_ticket_count : ℕ
  pub pending_ticket_count : ℕ
  pub ready_ticket_count : ℕ
  pub active_ticket_count : ℕ
  pub estimated_minutes : ℕ
  pub progress : ℕ

pub record SpecCountsView : Type 0 where
  pub status : SpecStatus
  pub epic_count : ℕ
  pub completed_epic_count : ℕ
  pub ticket_count : ℕ
  pub completed_ticket_count : ℕ

pub record ProjectCounts : Type 0 where
  pub spec_count : ℕ
  pub completed_spec_count : ℕ
  pub draft_spec_count : ℕ
  pub planning_spec_count : ℕ
  pub ready_spec_count : ℕ
  pub in_progress_spec_count : ℕ
  pub in_review_spec_count : ℕ
  pub epic_count : ℕ
  pub completed_epic_count : ℕ
  pub ticket_count : ℕ
  pub completed_ticket_count : ℕ

unfoldable pub derive_epic_status :
    (ticket_count completed_ticket_count active_ticket_count progress : ℕ) → EpicStatus
derive_epic_status ticket_count completed_ticket_count active_ticket_count progress =
    if nat_eq ticket_count 0
    then todo
    else if nat_eq progress 100
    then completed
    else if ltb 0 active_ticket_count || ltb 0 completed_ticket_count
    then in_progress
    else todo

-- `a / b` for whole numbers, `x * y`, `x + y` and `math.floor`, and the numbers 100 and 0.5.
pub record Floats (F : Type 0) : Type 0 where
  pub divide : ℕ → ℕ → F
  pub times : F → F → F
  pub plus : F → F → F
  pub floor : F → ℕ
  pub hundred : F
  pub half : F

module _ {F : Type 0} (floats : Floats F) where
  -- `math.floor(completed / total * 100 + 0.5)`
  unfoldable pub percent : ℕ → ℕ → ℕ
  percent completed_count total =
      floats.floor (
        floats.plus (floats.times (floats.divide completed_count total) floats.hundred) floats.half)

  unfoldable pub progress_pct : ℕ → ℕ → ℕ
  unfolding percent
  progress_pct completed_count total = if nat_eq total 0 then 0 else percent completed_count total

  unfoldable pub derive_epic_counts : List TicketNode → EpicCounts
  unfolding tally_tickets progress_pct derive_epic_status
  derive_epic_counts epic_tickets =
      let tally = tally_tickets epic_tickets in
      let pct = progress_pct tally.completed_ticket_count tally.ticket_count in
      record {
        ticket_count = tally.ticket_count;
        pending_ticket_count = tally.pending_ticket_count;
        ready_ticket_count = tally.ready_ticket_count;
        active_ticket_count = tally.active_ticket_count;
        completed_ticket_count = tally.completed_ticket_count;
        estimated_minutes = tally.estimated_minutes;
        progress = pct;
        status =
            derive_epic_status tally.ticket_count tally.completed_ticket_count
              tally.active_ticket_count pct;
      }

  -- One more epic in its bucket.
  unfoldable pub bucket_epic : EpicStatus → SpecCounts → SpecCounts
  bucket_epic todo c = record c {
    epic_count = c.epic_count + 1;
    todo_epic_count = c.todo_epic_count + 1;
  }
  bucket_epic in_progress c = record c {
    epic_count = c.epic_count + 1;
    in_progress_epic_count = c.in_progress_epic_count + 1;
  }
  bucket_epic completed c = record c {
    epic_count = c.epic_count + 1;
    completed_epic_count = c.completed_epic_count + 1;
  }

  unfoldable pub bucket_epics : List EpicStatus → SpecCounts → SpecCounts
  unfolding bucket_epic
  bucket_epics [] c = c
  bucket_epics (status ∷ epics) c = bucket_epics epics (bucket_epic status c)

  unfoldable pub derive_spec_counts : List EpicStatus → List TicketNode → SpecCounts
  unfolding tally_tickets progress_pct bucket_epics
  derive_spec_counts spec_epics spec_tickets =
      let tally = tally_tickets spec_tickets in
      bucket_epics spec_epics (record {
        epic_count = 0;
        todo_epic_count = 0;
        in_progress_epic_count = 0;
        completed_epic_count = 0;
        ticket_count = tally.ticket_count;
        completed_ticket_count = tally.completed_ticket_count;
        pending_ticket_count = tally.pending_ticket_count;
        ready_ticket_count = tally.ready_ticket_count;
        active_ticket_count = tally.active_ticket_count;
        estimated_minutes = tally.estimated_minutes;
        progress = progress_pct tally.completed_ticket_count tally.ticket_count;
      })

-- The buckets of one more specification; three statuses share one.
unfoldable pub bucket_spec : SpecStatus → ProjectCounts → ProjectCounts
bucket_spec draft c = record c { draft_spec_count = c.draft_spec_count + 1 }
bucket_spec planning c = record c { planning_spec_count = c.planning_spec_count + 1 }
bucket_spec SpecStatus.ready c = record c { ready_spec_count = c.ready_spec_count + 1 }
bucket_spec SpecStatus.in_progress c = record c {
  in_progress_spec_count = c.in_progress_spec_count + 1;
}
bucket_spec ready_for_review c = record c { in_review_spec_count = c.in_review_spec_count + 1 }
bucket_spec in_review c = record c { in_review_spec_count = c.in_review_spec_count + 1 }
bucket_spec reviewed c = record c { in_review_spec_count = c.in_review_spec_count + 1 }
bucket_spec SpecStatus.done c = record c { completed_spec_count = c.completed_spec_count + 1 }

unfoldable pub count_spec : SpecCountsView → ProjectCounts → ProjectCounts
unfolding bucket_spec
count_spec v c =
    let counted = bucket_spec v.status c in
    record counted {
      spec_count = counted.spec_count + 1;
      epic_count = counted.epic_count + v.epic_count;
      completed_epic_count = counted.completed_epic_count + v.completed_epic_count;
      ticket_count = counted.ticket_count + v.ticket_count;
      completed_ticket_count = counted.completed_ticket_count + v.completed_ticket_count;
    }

unfoldable pub count_specs : List SpecCountsView → ProjectCounts → ProjectCounts
unfolding count_spec
count_specs [] c = c
count_specs (v ∷ specs) c = count_specs specs (count_spec v c)

abbrev pub no_specs : ProjectCounts
no_specs = record {
  spec_count = 0;
  completed_spec_count = 0;
  draft_spec_count = 0;
  planning_spec_count = 0;
  ready_spec_count = 0;
  in_progress_spec_count = 0;
  in_review_spec_count = 0;
  epic_count = 0;
  completed_epic_count = 0;
  ticket_count = 0;
  completed_ticket_count = 0;
}

unfoldable pub derive_project_counts : List SpecCountsView → ProjectCounts
unfolding count_specs
derive_project_counts project_specs = count_specs project_specs no_specs
