-- ===== src/Dag/Types.antt =====
-- dag/types.py: what the engine sees of tickets, epics and dependency edges. Minutes and numbers are
-- naturals: the database has no negative ones.
use specsmither.Base.{ℕ, String, Option}

pub record TicketNode : Type 0 where
  pub id : String
  pub status : String
  pub estimated_minutes : Option ℕ
  pub epic_id : Option String
  pub epic_number : Option ℕ
  pub ticket_number : Option ℕ
  pub title : Option String

pub record EpicNode : Type 0 where
  pub id : String
  pub epic_number : Option ℕ
  pub title : Option String
  pub order : Option ℕ

-- `ticket_id` depends on `depends_on_id`.
pub record DepEdge : Type 0 where
  pub ticket_id : String
  pub depends_on_id : String
  pub type : String
