-- ===== src/Lifecycle/Projector/Dangling.antt =====
-- A deletion with the removal of dependencies confirmed.
use specsmither.Lifecycle.Projector.References.{cascade_rules}
use specsmither.Lifecycle.Projector.Types.{Ticket, Epic, Specification, delete_ticket}
use specsmither.Lifecycle.Projector.Guards.{accept}
use specsmither.Lifecycle.Projector.Flat.{spec_full_from_spec, Payload}
use specsmither.Lifecycle.Projector.Edges.{links_from, has_edge, has_id}
use specsmither.Lifecycle.Projector.Removal.{has_id-drop_ticket}
use specsmither.Lifecycle.Projector.{drop_ticket, apply_mutation, tickets_without}
use specsmither.Base.{String, ◌≡◌, refl, true, false, List, [], ◌∷◌, arith, eq_iff}
use specsmither.Base.Text.{◌==◌}

links_from-without-other :
    (k v w : String) (ts : List Ticket)
    → v == k ≡ false
    → links_from v w ts ≡ true
    → links_from v w (tickets_without k ts) ≡ true
unfolding links_from tickets_without
links_from-without-other k v w [] o h = h
links_from-without-other k v w (t ∷ ts) o h =
    ground
      (arith, h, o, links_from-without-other k v w ts o, eq_iff t.id v, eq_iff t.id k, eq_iff v k)

has_edge-drop_ticket-other :
    (k v w : String) (es : List Epic)
    → v == k ≡ false
    → has_edge v w es ≡ true
    → has_edge v w (drop_ticket k es) ≡ true
unfolding has_edge drop_ticket
has_edge-drop_ticket-other k v w [] o h = h
has_edge-drop_ticket-other k v w (e ∷ es) o h =
    ground
      (arith, h, has_edge-drop_ticket-other k v w es o, links_from-without-other k v w e.tickets o)

-- When the removal of dependencies is asked for, `cascade_rules` accepts the deletion of a ticket that another
-- ticket depends on, and in the projected specification that ticket still depends on the ticket that is gone.
pub cascade_rules-dangling :
    (s : Specification) (p : Payload) (k v : String)
    → p.cascade_remove_dependencies ≡ true
    → has_edge v k s.epics ≡ true
    → v == k ≡ false
    → (cascade_rules "delete_ticket" p (spec_full_from_spec s) ≡ accept)
      × (has_edge v k (apply_mutation s (delete_ticket k)).epics ≡ true)
      × (has_id k (apply_mutation s (delete_ticket k)).epics ≡ false)
unfolding cascade_rules apply_mutation
cascade_rules-dangling s p k v on h o = (
  rw on refl,
  has_edge-drop_ticket-other k v k s.epics o h,
  ground (arith, has_id-drop_ticket k k s.epics, eq_iff k k),
)
