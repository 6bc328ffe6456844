-- ===== src/Lifecycle/Projector.antt =====
-- lifecycle/operations_projector.py: a mutation applied to the specification tree in memory. A change in place
-- of an entity that a search finds is an update of the first match.
mod Types
pub mod Flat
pub mod Guards
pub mod References
pub mod Built
pub mod Edges
pub mod Updates
pub mod Removal
pub mod Deletion
pub mod Referrers
pub mod Links
pub mod Union
pub mod Batches
pub mod Lengths
pub mod Closed
pub mod Dangling
pub mod Bounds
mod Examples
mod BatchExamples
use specsmither.Lifecycle.Gate.{ticket_ids}
use specsmither.Base.{
  if◌then◌else◌, length, ℕ, ◌+◌, String, Bool, true, false, not, ◌||◌, Option, none, some, List, [],
  ◌∷◌, ◌++◌, map,
}
unfoldable pub use Types.*
use specsmither.Base.Text.{◌==◌}
use specsmither.Base.Decimal.{concat, decimal}
use specsmither.Base.Sets.{mem}
use specsmither.Base.Dict.{Dict, put}

-- `setattr` on a ticket; one that has no such attribute keeps the value as an extra that nothing reads.
unfoldable pub set_on_ticket : Ticket → Assignment → Ticket
unfolding put
set_on_ticket t (set_id v) = record t { id = v }
set_on_ticket t (set_epic_id v) = record t { epic_id = v }
set_on_ticket t (set_dependencies v) = record t { dependencies = v }
set_on_ticket t (set_blueprint_references v) = record t { blueprint_references = v }
set_on_ticket t (set_attribute key value) = record t { body = put t.body key value }
set_on_ticket t _ = t

unfoldable pub set_on_epic : Epic → Assignment → Epic
unfolding put
set_on_epic e (set_id v) = record e { id = v }
set_on_epic e (set_specification_id v) = record e { specification_id = v }
set_on_epic e (set_tickets v) = record e { tickets = v }
set_on_epic e (set_attribute key value) = record e { body = put e.body key value }
set_on_epic e _ = e

unfoldable pub set_on_blueprint : Blueprint → Assignment → Blueprint
unfolding put
set_on_blueprint b (set_id v) = record b { id = v }
set_on_blueprint b (set_attribute key value) = record b { body = put b.body key value }
set_on_blueprint b _ = b

unfoldable pub set_on_spec : Specification → Assignment → Specification
unfolding put
set_on_spec s (set_id v) = record s { id = v }
set_on_spec s (set_epics v) = record s { epics = v }
set_on_spec s (set_blueprints v) = record s { blueprints = v }
set_on_spec s (set_attribute key value) = record s { body = put s.body key value }
set_on_spec s _ = s

-- `_assign`
unfoldable pub assign : {A : Type 0} → (A → Assignment → A) → List Assignment → A → A
assign setattr [] a = a
assign setattr (field ∷ fields) a = assign setattr fields (setattr a field)

-- `op.id or f"{prefix}{count + 1}"`
unfoldable pub id_or : Option String → String → ℕ → String
unfolding concat decimal
id_or none prefix count = concat (prefix ∷ decimal (count + 1) ∷ [])
id_or (some id) prefix count = if id == "" then concat (prefix ∷ decimal (count + 1) ∷ []) else id

-- A change of the epic that `_find_epic` finds.
unfoldable pub change_epic : String → (Epic → Epic) → List Epic → List Epic
change_epic epic_id f [] = []
change_epic epic_id f (e ∷ epics) =
    if e.id == epic_id then f e ∷ epics else e ∷ change_epic epic_id f epics

unfoldable pub has_ticket : String → List Ticket → Bool
has_ticket ticket_id [] = false
has_ticket ticket_id (t ∷ tickets) = t.id == ticket_id || has_ticket ticket_id tickets

unfoldable pub change_first : String → (Ticket → Ticket) → List Ticket → List Ticket
change_first ticket_id f [] = []
change_first ticket_id f (t ∷ tickets) =
    if t.id == ticket_id then f t ∷ tickets else t ∷ change_first ticket_id f tickets

-- A change of the ticket that `_find_ticket` finds.
unfoldable pub change_ticket : String → (Ticket → Ticket) → List Epic → List Epic
unfolding has_ticket change_first
change_ticket ticket_id f [] = []
change_ticket ticket_id f (e ∷ epics) =
    if has_ticket ticket_id e.tickets
    then record e { tickets = change_first ticket_id f e.tickets } ∷ epics
    else e ∷ change_ticket ticket_id f epics

unfoldable pub without_text : String → List String → List String
without_text a [] = []
without_text a (x ∷ xs) = let rest = without_text a xs in if x == a then rest else x ∷ rest

unfoldable pub relink : String → List String → Bool → Ticket → Ticket
unfolding mem without_text
relink blueprint_id ticket_ids link t =
    if not (mem t.id ticket_ids)
    then t
    else if link
    then if mem blueprint_id t.blueprint_references
      then t
      else record t { blueprint_references = t.blueprint_references ++ blueprint_id ∷ [] }
    else record t { blueprint_references = without_text blueprint_id t.blueprint_references }

unfoldable pub map_tickets : (Ticket → Ticket) → List Epic → List Epic
map_tickets f [] = []
map_tickets f (e ∷ epics) = record e { tickets = map f e.tickets } ∷ map_tickets f epics

unfoldable pub link_blueprint : String → List String → Bool → List Epic → List Epic
unfolding relink map_tickets
link_blueprint blueprint_id ticket_ids link epics =
    map_tickets (relink blueprint_id ticket_ids link) epics

unfoldable pub has_link : String → List DependencyLink → Bool
has_link ticket_id [] = false
has_link ticket_id (l ∷ links) = l.ticket_id == ticket_id || has_link ticket_id links

unfoldable pub linked : DependencyEdgeSpec → Ticket → Ticket
unfolding has_link
linked edge t = if has_link edge.to_ticket_id t.dependencies then t else record t {
  dependencies = t.dependencies ++ record { ticket_id = edge.to_ticket_id; type = edge.type } ∷ [];
}

unfoldable pub add_dependency : DependencyEdgeSpec → List Epic → List Epic
unfolding change_ticket linked
add_dependency edge epics = change_ticket edge.from_ticket_id (linked edge) epics

unfoldable pub links_without : String → List DependencyLink → List DependencyLink
links_without ticket_id [] = []
links_without ticket_id (l ∷ links) =
    let rest = links_without ticket_id links in if l.ticket_id == ticket_id then rest else l ∷ rest

unfoldable pub unlinked : DependencyEdgeSpec → Ticket → Ticket
unfolding links_without
unlinked edge t = record t { dependencies = links_without edge.to_ticket_id t.dependencies }

unfoldable pub remove_dependency : DependencyEdgeSpec → List Epic → List Epic
unfolding change_ticket unlinked
remove_dependency edge epics = change_ticket edge.from_ticket_id (unlinked edge) epics

-- The loop over the edges of a batch.
unfoldable pub each_edge :
    (DependencyEdgeSpec → List Epic → List Epic) → List DependencyEdgeSpec → List Epic → List Epic
each_edge f [] epics = epics
each_edge f (edge ∷ edges) epics = each_edge f edges (f edge epics)

unfoldable pub epics_without : String → List Epic → List Epic
epics_without epic_id [] = []
epics_without epic_id (e ∷ epics) =
    let rest = epics_without epic_id epics in if e.id == epic_id then rest else e ∷ rest

unfoldable pub tickets_without : String → List Ticket → List Ticket
tickets_without ticket_id [] = []
tickets_without ticket_id (t ∷ tickets) =
    let rest = tickets_without ticket_id tickets in if t.id == ticket_id then rest else t ∷ rest

unfoldable pub drop_ticket : String → List Epic → List Epic
unfolding tickets_without
drop_ticket ticket_id [] = []
drop_ticket ticket_id (e ∷ epics) =
    record e { tickets = tickets_without ticket_id e.tickets } ∷ drop_ticket ticket_id epics

unfoldable pub blueprints_without : String → List Blueprint → List Blueprint
blueprints_without blueprint_id [] = []
blueprints_without blueprint_id (b ∷ blueprints) =
    let rest = blueprints_without blueprint_id blueprints in
    if b.id == blueprint_id then rest else b ∷ rest

unfoldable pub change_blueprint : String → List Assignment → List Blueprint → List Blueprint
unfolding assign set_on_blueprint
change_blueprint blueprint_id fields [] = []
change_blueprint blueprint_id fields (b ∷ blueprints) =
    if b.id == blueprint_id
    then assign set_on_blueprint fields b ∷ blueprints
    else b ∷ change_blueprint blueprint_id fields blueprints

unfoldable pub new_epic : Specification → String → String → String → Option String → Epic
unfolding id_or
new_epic s title description objective id = record {
  id = id_or id "__proj_epic_" (length s.epics);
  specification_id = s.id;
  body = ("title", title) ∷ ("description", description) ∷ ("objective", objective) ∷ [];
  tickets = [];
}

unfoldable pub with_ticket : String → String → String → String → Option String → Epic → Epic
unfolding id_or
with_ticket title description ticket_type complexity id e = record e {
  tickets =
      e.tickets
      ++ record {
        id = id_or id "__proj_ticket_" (length e.tickets);
        epic_id = e.id;
        body =
            ("title", title)
            ∷ ("description", description)
            ∷ ("ticket_type", ticket_type)
            ∷ ("complexity", complexity)
            ∷ [];
        dependencies = [];
        blueprint_references = [];
      }
        ∷ [];
}

unfoldable pub new_blueprint : Specification → String → String → String → Option String → Blueprint
unfolding id_or
new_blueprint s title category content id = record {
  id = id_or id "__proj_bp_" (length s.blueprints);
  body = ("title", title) ∷ ("category", category) ∷ ("content", content) ∷ [];
}

-- `OperationsProjector.apply`
unfoldable pub apply_mutation : Specification → MutationOp → Specification
unfolding assign set_on_spec set_on_epic set_on_ticket change_epic change_ticket link_blueprint
    add_dependency remove_dependency each_edge epics_without drop_ticket blueprints_without
    change_blueprint new_epic with_ticket new_blueprint
apply_mutation s (update_spec fields) = assign set_on_spec fields s
apply_mutation s (create_epic title description objective id) = record s {
  epics = s.epics ++ new_epic s title description objective id ∷ [];
}
apply_mutation s (update_epic epic_id fields) = record s {
  epics = change_epic epic_id (assign set_on_epic fields) s.epics;
}
apply_mutation s (delete_epic epic_id) = record s { epics = epics_without epic_id s.epics }
apply_mutation s (create_ticket epic_id title description ticket_type complexity id) = record s {
  epics = change_epic epic_id (with_ticket title description ticket_type complexity id) s.epics;
}
apply_mutation s (update_ticket ticket_id fields) = record s {
  epics = change_ticket ticket_id (assign set_on_ticket fields) s.epics;
}
apply_mutation s (delete_ticket ticket_id) = record s { epics = drop_ticket ticket_id s.epics }
apply_mutation s (create_blueprint title category content id) = record s {
  blueprints = s.blueprints ++ new_blueprint s title category content id ∷ [];
}
apply_mutation s (update_blueprint blueprint_id fields) = record s {
  blueprints = change_blueprint blueprint_id fields s.blueprints;
}
apply_mutation s (delete_blueprint blueprint_id) = record s {
  blueprints = blueprints_without blueprint_id s.blueprints;
}
apply_mutation s (link_blueprint_to_tickets blueprint_id ticket_ids) = record s {
  epics = link_blueprint blueprint_id ticket_ids true s.epics;
}
apply_mutation s (unlink_blueprint_to_tickets blueprint_id ticket_ids) = record s {
  epics = link_blueprint blueprint_id ticket_ids false s.epics;
}
apply_mutation s (create_dependencies edges) = record s {
  epics = each_edge add_dependency edges s.epics;
}
apply_mutation s (delete_dependencies edges) = record s {
  epics = each_edge remove_dependency edges s.epics;
}
