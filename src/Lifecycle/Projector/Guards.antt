-- ===== src/Lifecycle/Projector/Guards.antt =====
-- lifecycle/prechecks/count_bounds.py over the payload and the flat specification. The numbers of the
-- configuration are whole.
use specsmither.Base.{
  leb, if◌then◌else◌, and_then, length, ℕ, String, Bool, false, ◌||◌, Option, none, some, List, [],
  ◌∷◌,
}
use specsmither.Base.Text.{◌==◌}
use specsmither.Lifecycle.Prechecks.{PrecheckResult, accepted, denied}
use specsmither.Lifecycle.Projector.Flat.{TicketRef, EpicFull, SpecFull, Payload}

-- A node of the configuration, as the walk reads it: a mapping, a number, or something else.
mutual
  pub data Config : Type 0 where
    mapping : Entries → Config
    number : ℕ → Config
    other : Config

  pub data Entries : Type 0 where
    no_entry : Entries
    entry : String → Config → Entries → Entries

unfoldable pub find_entry : Entries → String → Option Config
find_entry no_entry key = none
find_entry (entry k c rest) key = if k == key then some c else find_entry rest key

-- `x.get(key) if isinstance(x, Mapping) else None`
unfoldable pub config_get : String → Config → Option Config
unfolding find_entry
config_get key (mapping entries) = find_entry entries key
config_get key (number n) = none
config_get key other = none

unfoldable pub number_of : Config → Option ℕ
number_of (number n) = some n
number_of (mapping _) = none
number_of other = none

unfoldable pub count_default : Config → String → String → String → Option ℕ
unfolding config_get number_of
count_default config counts_key parent child =
    and_then (config_get "structuralRequirements" config) (λ structural.
      and_then (config_get counts_key structural) (λ counts.
        and_then (config_get parent counts) (λ parent_map.
          and_then (config_get child parent_map)
            (λ child_map. and_then (config_get "default" child_map) number_of))))

-- `maximum is not None and current >= maximum`, and its counterpart.
unfoldable pub reaches : Option ℕ → ℕ → Bool
reaches none current = false
reaches (some bound) current = leb bound current

unfoldable pub falls_to : Option ℕ → ℕ → Bool
falls_to none current = false
falls_to (some bound) current = leb current bound

abbrev pub is_text : Option String → String → Bool
is_text none a = false
is_text (some b) a = a == b

unfoldable pub find_epic : Option String → List EpicFull → Option EpicFull
find_epic epic_id [] = none
find_epic epic_id (e ∷ epics) = if is_text epic_id e.id then some e else find_epic epic_id epics

unfoldable pub holds_ticket : Option String → List TicketRef → Bool
holds_ticket ticket_id [] = false
holds_ticket ticket_id (t ∷ tickets) = is_text ticket_id t.id || holds_ticket ticket_id tickets

unfoldable pub epic_with_ticket : Option String → List EpicFull → Option EpicFull
unfolding holds_ticket
epic_with_ticket ticket_id [] = none
epic_with_ticket ticket_id (e ∷ epics) =
    if holds_ticket ticket_id e.tickets then some e else epic_with_ticket ticket_id epics

abbrev pub accept : PrecheckResult
accept = accepted false false

unfoldable pub create_ticket_bound : Option ℕ → Option EpicFull → PrecheckResult
unfolding reaches
create_ticket_bound max_tickets none = accept
create_ticket_bound max_tickets (some e) =
    if reaches max_tickets (length e.tickets)
    then denied "max_tickets_per_epic_exceeded"
    else accept

unfoldable pub delete_ticket_bound : Option ℕ → Option EpicFull → PrecheckResult
unfolding falls_to
delete_ticket_bound min_tickets none = denied "ticket_not_found"
delete_ticket_bound min_tickets (some e) =
    if falls_to min_tickets (length e.tickets)
    then denied "min_tickets_per_epic_not_met"
    else accept

unfoldable pub count_bounds : String → Payload → SpecFull → Config → PrecheckResult
unfolding count_default reaches falls_to find_epic epic_with_ticket create_ticket_bound
    delete_ticket_bound
count_bounds op p full config =
    let max_epics = count_default config "arrayMaxCounts" "specification" "epics" in
    let min_epics = count_default config "arrayMinCounts" "specification" "epics" in
    let max_tickets = count_default config "arrayMaxCounts" "epic" "tickets" in
    let min_tickets = count_default config "arrayMinCounts" "epic" "tickets" in
    if op == "create_epic"
    then if reaches max_epics (length full.epics) then denied "max_epics_exceeded" else accept
    else if op == "create_ticket"
    then create_ticket_bound max_tickets (find_epic p.epic_id full.epics)
    else if op == "delete_epic"
    then if falls_to min_epics (length full.epics) then denied "min_epics_not_met" else accept
    else if op == "delete_ticket"
    then delete_ticket_bound min_tickets (epic_with_ticket p.id full.epics)
    else accept
