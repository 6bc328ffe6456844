-- ===== src/Lifecycle/Projector/References.antt =====
-- lifecycle/prechecks: entity_refs_exist.py, blueprint_link_refs_exist.py and cascade_rules.py, over the payload
-- and the flat specification.
use specsmither.Base.{
  if◌then◌else◌, String, Bool, false, not, ◌&&◌, ◌||◌, Option, none, some, List, [], ◌∷◌, ◌++◌,
}
use specsmither.Base.Text.{◌==◌}
use specsmither.Base.Sets.{mem}
use specsmither.Lifecycle.Dependencies.{SpecDependencyEdge, is_empty}
use specsmither.Lifecycle.Prechecks.{PrecheckResult, denied}
use specsmither.Lifecycle.Projector.Flat.{TicketRef, EpicFull, SpecFull, Payload}
use specsmither.Lifecycle.Projector.Guards.{accept, is_text, find_epic}

unfoldable pub epic_full_ids : List EpicFull → List String
epic_full_ids [] = []
epic_full_ids (e ∷ epics) = e.id ∷ epic_full_ids epics

unfoldable pub ticket_ref_ids : List TicketRef → List String
ticket_ref_ids [] = []
ticket_ref_ids (t ∷ tickets) = t.id ∷ ticket_ref_ids tickets

unfoldable pub all_ticket_ids : List EpicFull → List String
unfolding ticket_ref_ids
all_ticket_ids [] = []
all_ticket_ids (e ∷ epics) = ticket_ref_ids e.tickets ++ all_ticket_ids epics

-- `isinstance(id, str) and id not in ids`
unfoldable pub is_missing : Option String → List String → Bool
unfolding mem
is_missing none ids = false
is_missing (some id) ids = not (mem id ids)

unfoldable pub missing_endpoints : List String → List SpecDependencyEdge → List String
unfolding mem
missing_endpoints ids [] = []
missing_endpoints ids (e ∷ edges) =
    let rest = missing_endpoints ids edges in
    let tos = if mem e.to_ticket_id ids then rest else e.to_ticket_id ∷ rest in
    if mem e.from_ticket_id ids then tos else e.from_ticket_id ∷ tos

unfoldable pub entity_refs_exist : String → Payload → SpecFull → PrecheckResult
unfolding epic_full_ids all_ticket_ids is_missing missing_endpoints is_empty
entity_refs_exist op p full =
    if op == "create_ticket"
    then if is_missing p.epic_id (epic_full_ids full.epics) then denied "epic_not_found" else accept
    else if op == "update_epic" || op == "delete_epic"
    then if is_missing p.id (epic_full_ids full.epics) then denied "epic_not_found" else accept
    else if op == "update_ticket" || op == "delete_ticket"
    then if is_missing p.id (all_ticket_ids full.epics) then denied "ticket_not_found" else accept
    else if op == "create_dependencies"
    then if is_empty (missing_endpoints (all_ticket_ids full.epics) p.dependencies)
      then accept
      else denied "broken_reference"
    else accept

unfoldable pub missing_texts : List String → List String → List String
unfolding mem
missing_texts ids [] = []
missing_texts ids (t ∷ ts) = let rest = missing_texts ids ts in if mem t ids then rest else t ∷ rest

unfoldable pub blueprint_link_refs_exist : String → Payload → SpecFull → PrecheckResult
unfolding all_ticket_ids is_missing missing_texts is_empty
blueprint_link_refs_exist op p full =
    if not (op == "link_blueprint_to_tickets" || op == "unlink_blueprint_to_tickets")
    then accept
    else if is_missing p.blueprint_id full.blueprints
    then denied "broken_reference"
    else if is_empty (missing_texts (all_ticket_ids full.epics) p.ticket_ids)
    then accept
    else denied "broken_reference"

unfoldable pub ticket_referrers : Option String → List SpecDependencyEdge → List String
ticket_referrers target [] = []
ticket_referrers target (e ∷ edges) =
    let rest = ticket_referrers target edges in
    if is_text target e.to_ticket_id then e.from_ticket_id ∷ rest else rest

-- The edges from outside into the tickets of an epic.
unfoldable pub epic_referrers : List String → List SpecDependencyEdge → List String
unfolding mem
epic_referrers ids [] = []
epic_referrers ids (e ∷ edges) =
    let rest = epic_referrers ids edges in
    if mem e.to_ticket_id ids && not (mem e.from_ticket_id ids)
    then e.from_ticket_id ∷ rest
    else rest

unfoldable pub ids_of_epic : Option EpicFull → List String
unfolding ticket_ref_ids
ids_of_epic none = []
ids_of_epic (some e) = ticket_ref_ids e.tickets

unfoldable pub cascade_rules : String → Payload → SpecFull → PrecheckResult
unfolding ticket_referrers epic_referrers ids_of_epic find_epic is_empty
cascade_rules op p full =
    if p.cascade_remove_dependencies
    then accept
    else if op == "delete_ticket" && not (is_empty (ticket_referrers p.id full.dependencies))
    then denied "cascade_not_confirmed"
    else if op == "delete_epic"
        && not
            (is_empty (epic_referrers (ids_of_epic (find_epic p.id full.epics)) full.dependencies))
    then denied "cascade_not_confirmed"
    else accept
