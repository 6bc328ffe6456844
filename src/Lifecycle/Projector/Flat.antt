-- ===== src/Lifecycle/Projector/Flat.antt =====
-- lifecycle/operations_projector.py and lifecycle/ports.py: the flat views of a specification that the
-- pre-checks read, the payload of an operation as they read it, and the mutation that it asks for.
use specsmither.Lifecycle.Projector.Types.{
  DependencyLink, Ticket, Epic, Blueprint, Specification, DependencyEdgeSpec, MutationOp,
  update_spec, create_epic, update_epic, delete_epic, create_ticket, update_ticket, delete_ticket,
  create_blueprint, update_blueprint, delete_blueprint, link_blueprint_to_tickets,
  unlink_blueprint_to_tickets, create_dependencies, Assignment,
}
use specsmither.Lifecycle.Projector.{apply_mutation}
use specsmither.Base.{if◌then◌else◌, String, Bool, Option, none, some, List, [], ◌∷◌, ◌++◌}
use specsmither.Base.Text.{◌==◌}
use specsmither.Lifecycle.Dependencies.{SpecDependencyEdge}

pub record TicketRef : Type 0 where
  pub id : String
  pub epic_id : String

pub record EpicFull : Type 0 where
  pub id : String
  pub tickets : List TicketRef

pub record SpecFull : Type 0 where
  pub spec : Specification
  pub epics : List EpicFull
  pub blueprints : List String
  pub dependencies : List SpecDependencyEdge

unfoldable pub ticket_refs : List Ticket → List TicketRef
ticket_refs [] = []
ticket_refs (t ∷ tickets) = record { id = t.id; epic_id = t.epic_id } ∷ ticket_refs tickets

unfoldable pub link_edges : String → List DependencyLink → List SpecDependencyEdge
link_edges from [] = []
link_edges from (l ∷ links) =
    record { from_ticket_id = from; to_ticket_id = l.ticket_id } ∷ link_edges from links

unfoldable pub ticket_edges : List Ticket → List SpecDependencyEdge
unfolding link_edges
ticket_edges [] = []
ticket_edges (t ∷ tickets) = link_edges t.id t.dependencies ++ ticket_edges tickets

unfoldable pub flat_epics : List Epic → List EpicFull
unfolding ticket_refs
flat_epics [] = []
flat_epics (e ∷ epics) = record { id = e.id; tickets = ticket_refs e.tickets } ∷ flat_epics epics

unfoldable pub flat_edges : List Epic → List SpecDependencyEdge
unfolding ticket_edges
flat_edges [] = []
flat_edges (e ∷ epics) = ticket_edges e.tickets ++ flat_edges epics

unfoldable pub blueprint_ids : List Blueprint → List String
blueprint_ids [] = []
blueprint_ids (b ∷ blueprints) = b.id ∷ blueprint_ids blueprints

unfoldable pub spec_full_from_spec : Specification → SpecFull
unfolding flat_epics flat_edges blueprint_ids
spec_full_from_spec s = record {
  spec = s;
  epics = flat_epics s.epics;
  blueprints = blueprint_ids s.blueprints;
  dependencies = flat_edges s.epics;
}

-- The keys of a payload, `none` for one that is missing; texts where the source asks for a text. The keys of
-- `fields` are in snake case already.
pub record Payload : Type 0 where
  pub id : Option String
  pub epic_id : Option String
  pub blueprint_id : Option String
  pub title : Option String
  pub description : Option String
  pub category : Option String
  pub content : Option String
  pub fields : List Assignment
  pub ticket_ids : List String
  pub dependencies : List SpecDependencyEdge
  pub cascade_remove_dependencies : Bool

-- The mutation, no projection, or the KeyError of a key that is missing.
pub data Projection : Type 0 where
  mutation : MutationOp → Projection
  unchanged key_error : Projection

unfoldable pub required : Option String → (String → Projection) → Projection
required none f = key_error
required (some a) f = f a

-- `text or ""`
abbrev pub text_or : Option String → String
text_or none = ""
text_or (some a) = a

-- An edge of the payload, with the default type.
unfoldable pub edge_specs : List SpecDependencyEdge → List DependencyEdgeSpec
edge_specs [] = []
edge_specs (e ∷ edges) =
    record { from_ticket_id = e.from_ticket_id; to_ticket_id = e.to_ticket_id; type = "requires" }
    ∷ edge_specs edges

unfoldable pub build_mutation_op : String → Payload → Projection
unfolding required edge_specs
build_mutation_op op p =
    if op == "update_spec"
    then mutation (update_spec p.fields)
    else if op == "create_epic"
    then required p.title (λ title. mutation (create_epic title (text_or p.description) "" p.id))
    else if op == "update_epic"
    then required p.id (λ id. mutation (update_epic id p.fields))
    else if op == "delete_epic"
    then required p.id (λ id. mutation (delete_epic id))
    else if op == "create_ticket"
    then required p.epic_id (λ parent. required p.title (λ title.
      mutation (create_ticket parent title (text_or p.description) "implementation" "medium" p.id)))
    else if op == "update_ticket"
    then required p.id (λ id. mutation (update_ticket id p.fields))
    else if op == "delete_ticket"
    then required p.id (λ id. mutation (delete_ticket id))
    else if op == "create_blueprint"
    then required p.title (λ title.
      required p.category
        (λ category. mutation (create_blueprint title category (text_or p.content) p.id)))
    else if op == "update_blueprint"
    then required p.id (λ id. mutation (update_blueprint id p.fields))
    else if op == "delete_blueprint"
    then required p.id (λ id. mutation (delete_blueprint id))
    else if op == "link_blueprint_to_tickets"
    then required p.blueprint_id (λ id. mutation (link_blueprint_to_tickets id p.ticket_ids))
    else if op == "unlink_blueprint_to_tickets"
    then required p.blueprint_id (λ id. mutation (unlink_blueprint_to_tickets id p.ticket_ids))
    else if op == "create_dependencies"
    then mutation (create_dependencies (edge_specs p.dependencies))
    else unchanged

unfoldable pub projected : Specification → Projection → Option SpecFull
unfolding apply_mutation spec_full_from_spec
projected s (mutation m) = some (spec_full_from_spec (apply_mutation s m))
projected s unchanged = some (spec_full_from_spec s)
projected s key_error = none

-- `ProjectorOperationsLayer.apply_mutation`
unfoldable pub project_operation : String → Payload → SpecFull → Option SpecFull
unfolding build_mutation_op projected
project_operation op p full = projected full.spec (build_mutation_op op p)
