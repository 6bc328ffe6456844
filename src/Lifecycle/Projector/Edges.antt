-- ===== src/Lifecycle/Projector/Edges.antt =====
-- The dependency edges and the tickets of a specification tree, and how the changes of the projector move them.
use specsmither.Base.{String, ◌≡◌, refl, Bool, true, false, ◌&&◌, ◌||◌, List, [], ◌∷◌, map, arith}
use specsmither.Lifecycle.Projector.References.{ticket_ref_ids, all_ticket_ids}
use specsmither.Lifecycle.Projector.Types.{Ticket, Epic}
use specsmither.Lifecycle.Projector.Flat.{ticket_refs, flat_epics}
use specsmither.Lifecycle.Projector.{has_ticket, change_first, change_ticket, map_tickets, has_link}
use specsmither.Base.Text.{◌==◌}
use specsmither.Base.Sets.{mem, mem-append}

unfoldable pub links_from : String → String → List Ticket → Bool
unfolding has_link
links_from v w [] = false
links_from v w (t ∷ tickets) = t.id == v && has_link w t.dependencies || links_from v w tickets

-- A ticket `v` of the tree depends on `w`.
unfoldable pub has_edge : String → String → List Epic → Bool
unfolding links_from
has_edge v w [] = false
has_edge v w (e ∷ epics) = links_from v w e.tickets || has_edge v w epics

-- A ticket of the tree has this id.
unfoldable pub has_id : String → List Epic → Bool
unfolding has_ticket
has_id w [] = false
has_id w (e ∷ epics) = has_ticket w e.tickets || has_id w epics

-- Each dependency leads to a ticket of the tree.
abbrev pub IsClosed : List Epic → Type 0
IsClosed epics = (v w : String) → has_edge v w epics ≡ true → has_id w epics ≡ true

-- The flat views show the same.
pub mem-ticket_ref_ids :
    (w : String) (ts : List Ticket) → mem w (ticket_ref_ids (ticket_refs ts)) ≡ has_ticket w ts
unfolding ticket_ref_ids ticket_refs has_ticket mem
mem-ticket_ref_ids w [] = refl
mem-ticket_ref_ids w (t ∷ ts) = ground (arith, mem-ticket_ref_ids w ts)

pub mem-all_ticket_ids :
    (w : String) (epics : List Epic) → mem w (all_ticket_ids (flat_epics epics)) ≡ has_id w epics
unfolding all_ticket_ids flat_epics has_id mem
mem-all_ticket_ids w [] = refl
mem-all_ticket_ids w (e ∷ epics) = ground (
  arith,
  mem-all_ticket_ids w epics,
  mem-ticket_ref_ids w e.tickets,
  mem-append w (ticket_ref_ids (ticket_refs e.tickets)) (all_ticket_ids (flat_epics epics)),
)

-- An operation on one ticket that keeps its id, and gives it no link but those that `extra` allows.
pub record IsTame (extra : String → Bool) (f : Ticket → Ticket) : Type 0 where
  pub same_id : (t : Ticket) → (f t).id ≡ t.id
  pub old_links :
      (t : Ticket) (w : String)
      → has_link w (f t).dependencies ≡ true
      → has_link w t.dependencies || extra w ≡ true

module _ (extra : String → Bool) (f : Ticket → Ticket) (tame : IsTame extra f) where
  has_ticket-map : (w : String) (ts : List Ticket) → has_ticket w (map f ts) ≡ has_ticket w ts
  unfolding has_ticket
  has_ticket-map w [] = refl
  has_ticket-map w (t ∷ ts) = ground (arith, has_ticket-map w ts, tame.same_id t)

  links_from-map :
      (v w : String) (ts : List Ticket)
      → links_from v w (map f ts) ≡ true
      → links_from v w ts || extra w ≡ true
  unfolding links_from
  links_from-map v w [] h = cc
  links_from-map v w (t ∷ ts) h =
      ground (arith, h, links_from-map v w ts, tame.same_id t, tame.old_links t w)

  pub has_id-map_tickets : (w : String) (es : List Epic) → has_id w (map_tickets f es) ≡ has_id w es
  unfolding has_id map_tickets
  has_id-map_tickets w [] = refl
  has_id-map_tickets w (e ∷ es) =
      ground (arith, has_id-map_tickets w es, has_ticket-map w e.tickets)

  pub has_edge-map_tickets :
      (v w : String) (es : List Epic)
      → has_edge v w (map_tickets f es) ≡ true
      → has_edge v w es || extra w ≡ true
  unfolding has_edge map_tickets
  has_edge-map_tickets v w [] h = cc
  has_edge-map_tickets v w (e ∷ es) h =
      ground (arith, h, has_edge-map_tickets v w es, links_from-map v w e.tickets)

  has_ticket-change_first :
      (k w : String) (ts : List Ticket) → has_ticket w (change_first k f ts) ≡ has_ticket w ts
  unfolding has_ticket change_first
  has_ticket-change_first k w [] = refl
  has_ticket-change_first k w (t ∷ ts) =
      ground (arith, has_ticket-change_first k w ts, tame.same_id t)

  links_from-change_first :
      (k v w : String) (ts : List Ticket)
      → links_from v w (change_first k f ts) ≡ true
      → links_from v w ts || extra w ≡ true
  unfolding links_from change_first
  links_from-change_first k v w [] h = cc
  links_from-change_first k v w (t ∷ ts) h =
      ground (arith, h, links_from-change_first k v w ts, tame.same_id t, tame.old_links t w)

  pub has_id-change_ticket :
      (k w : String) (es : List Epic) → has_id w (change_ticket k f es) ≡ has_id w es
  unfolding has_id change_ticket
  has_id-change_ticket k w [] = refl
  has_id-change_ticket k w (e ∷ es) =
      ground (arith, has_id-change_ticket k w es, has_ticket-change_first k w e.tickets)

  pub has_edge-change_ticket :
      (k v w : String) (es : List Epic)
      → has_edge v w (change_ticket k f es) ≡ true
      → has_edge v w es || extra w ≡ true
  unfolding has_edge change_ticket
  has_edge-change_ticket k v w [] h = cc
  has_edge-change_ticket k v w (e ∷ es) h =
      ground (arith, h, has_edge-change_ticket k v w es, links_from-change_first k v w e.tickets)
