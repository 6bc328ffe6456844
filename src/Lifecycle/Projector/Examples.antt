-- ===== src/Lifecycle/Projector/Examples.antt =====
-- A specification with two tickets of which one depends on the other, and the theorems at it.
use specsmither.Lifecycle.Projector.Updates.{keeps_tree}
use specsmither.Lifecycle.Projector.Union.{create_dependencies-union}
use specsmither.Lifecycle.Projector.Referrers.{edge_in}
use specsmither.Lifecycle.Projector.Dangling.{cascade_rules-dangling}
use specsmither.Lifecycle.Prechecks.{denied}
use specsmither.Base.{◌≡◌, refl, true, false, none, some, [], ◌∷◌, arith, ◌||◌}
use specsmither.Lifecycle.Projector.References.{
  epic_full_ids, all_ticket_ids, entity_refs_exist, cascade_rules,
}
use specsmither.Lifecycle.Projector.Bounds.{IsBounded, apply_mutation-IsBounded}
use specsmither.Lifecycle.Projector.Closed.{IsKeyed, apply_mutation-IsClosed}
use specsmither.Lifecycle.Projector.Types.{
  Ticket, Specification, create_ticket, delete_ticket, create_dependencies,
}
use specsmither.Lifecycle.Projector.Guards.{
  count_default, accept, count_bounds, Config, mapping, entry, number, no_entry,
}
use specsmither.Lifecycle.Projector.Flat.{
  flat_epics, spec_full_from_spec, Payload, build_mutation_op, flat_edges, edge_specs,
}
use specsmither.Lifecycle.Projector.Lengths.{within_max, within_min, tickets_within}
use specsmither.Lifecycle.Projector.Edges.{has_edge, has_id, IsClosed}
use specsmither.Lifecycle.Projector.{apply_mutation}
use specsmither.Base.Sets.{mem}

abbrev pub ticket_one : Ticket
ticket_one = record {
  id = "t1";
  epic_id = "e1";
  body = [];
  dependencies = record { ticket_id = "t2"; type = "requires" } ∷ [];
  blueprint_references = [];
}

abbrev pub ticket_two : Ticket
ticket_two = record {
  id = "t2";
  epic_id = "e1";
  body = [];
  dependencies = [];
  blueprint_references = [];
}

abbrev small : Specification
small = record {
  id = "s1";
  body = [];
  epics =
      record {
        id = "e1";
        specification_id = "s1";
        body = [];
        tickets = ticket_one ∷ ticket_two ∷ [];
      }
      ∷ [];
  blueprints = [];
}

abbrev pub bare_payload : Payload
bare_payload = record {
  id = none;
  epic_id = none;
  blueprint_id = none;
  title = none;
  description = none;
  category = none;
  content = none;
  fields = [];
  ticket_ids = [];
  dependencies = [];
  cascade_remove_dependencies = false;
}

abbrev delete_first : Payload
delete_first = record bare_payload { id = some "t1" }

abbrev delete_second : Payload
delete_second = record bare_payload { id = some "t2" }

abbrev new_ticket : Payload
new_ticket = record bare_payload { epic_id = some "e1"; title = some "third" }

abbrev limits : Config
limits = mapping (
    entry "structuralRequirements"
      (mapping (
        entry "arrayMaxCounts"
          (mapping (
            entry "epic"
              (mapping (entry "tickets" (mapping (entry "default" (number 3) no_entry)) no_entry))
              no_entry))
          no_entry))
      no_entry)

refused_delete :
    cascade_rules "delete_ticket" delete_second (spec_full_from_spec small)
    ≡ denied "cascade_not_confirmed"
unfolding cascade_rules spec_full_from_spec
refused_delete = refl

refused_ticket :
    count_bounds "create_ticket" new_ticket
      (spec_full_from_spec (
        apply_mutation small (create_ticket "e1" "third" "" "implementation" "medium" (some "t3"))))
      limits
    ≡ denied "max_tickets_per_epic_exceeded"
unfolding count_bounds spec_full_from_spec apply_mutation
refused_ticket = refl

small-IsKeyed : IsKeyed small
unfolding epic_full_ids all_ticket_ids flat_epics mem
small-IsKeyed = record { epics_apart = (refl, tt); tickets_apart = (refl, (refl, tt)) }

small-IsClosed : IsClosed small.epics
unfolding has_edge has_id
small-IsClosed v w h = ground (arith, h)

apply_mutation-IsClosed_example : IsClosed (apply_mutation small (delete_ticket "t1")).epics
unfolding keeps_tree entity_refs_exist cascade_rules build_mutation_op spec_full_from_spec
apply_mutation-IsClosed_example =
    apply_mutation-IsClosed small "delete_ticket" delete_first (delete_ticket "t1") small-IsKeyed
      small-IsClosed refl refl refl refl refl

small-IsBounded : IsBounded limits small
unfolding count_default within_max within_min tickets_within
small-IsBounded = record { epics_max = refl; epics_min = refl; tickets_max = refl }

apply_mutation-IsBounded_example :
    IsBounded limits
      (apply_mutation small (create_ticket "e1" "third" "" "implementation" "medium" none))
unfolding keeps_tree count_bounds build_mutation_op spec_full_from_spec
apply_mutation-IsBounded_example =
    apply_mutation-IsBounded limits small "create_ticket" new_ticket
      (create_ticket "e1" "third" "" "implementation" "medium" none) small-IsKeyed small-IsBounded
      refl refl refl

abbrev confirmed : Payload
confirmed = record delete_second { cascade_remove_dependencies = true }

cascade_rules-dangling_example :
    (cascade_rules "delete_ticket" confirmed (spec_full_from_spec small) ≡ accept)
    × (has_edge "t1" "t2" (apply_mutation small (delete_ticket "t2")).epics ≡ true)
    × (has_id "t2" (apply_mutation small (delete_ticket "t2")).epics ≡ false)
unfolding has_edge
cascade_rules-dangling_example = cascade_rules-dangling small confirmed "t2" "t1" refl refl refl

abbrev new_edges : Payload
new_edges = record bare_payload {
  dependencies =
      record { from_ticket_id = "t1"; to_ticket_id = "t2" }
      ∷ record { from_ticket_id = "t2"; to_ticket_id = "t1" }
      ∷ [];
}

create_dependencies-union_example :
    (edge_in "t2" "t1" (
        flat_edges
          (apply_mutation small (create_dependencies (edge_specs new_edges.dependencies))).epics)
      ≡ (edge_in "t2" "t1" (flat_edges small.epics) || edge_in "t2" "t1" new_edges.dependencies))
    × (has_id "t1"
          (apply_mutation small (create_dependencies (edge_specs new_edges.dependencies))).epics
        ≡ has_id "t1" small.epics)
unfolding entity_refs_exist spec_full_from_spec
create_dependencies-union_example = create_dependencies-union small new_edges "t2" "t1" refl
