-- ===== src/Lifecycle/Projector/Removal.antt =====
-- What removals and additions of entities do to the edges and the tickets of the tree.
use specsmither.Lifecycle.Projector.Types.{Ticket, Epic}
use specsmither.Lifecycle.Projector.{
  id_or, change_epic, has_ticket, has_link, epics_without, tickets_without, drop_ticket,
  with_ticket,
}
use specsmither.Base.{
  length, String, ◌≡◌, refl, ◌∙◌, true, not, ◌&&◌, ◌||◌, Option, List, [], ◌∷◌, ◌++◌, arith, eq_iff,
}
use specsmither.Base.Text.{◌==◌}
use specsmither.Lifecycle.Projector.Edges.{has_edge, has_id, links_from}

pub has_edge-append :
    (v w : String) (es fs : List Epic)
    → has_edge v w (es ++ fs) ≡ (has_edge v w es || has_edge v w fs)
unfolding has_edge
has_edge-append v w [] fs = refl
has_edge-append v w (e ∷ es) fs = ground (arith, has_edge-append v w es fs)

pub has_id-append :
    (w : String) (es fs : List Epic) → has_id w (es ++ fs) ≡ (has_id w es || has_id w fs)
unfolding has_id
has_id-append w [] fs = refl
has_id-append w (e ∷ es) fs = ground (arith, has_id-append w es fs)

has_ticket-append :
    (w : String) (ts us : List Ticket)
    → has_ticket w (ts ++ us) ≡ (has_ticket w ts || has_ticket w us)
unfolding has_ticket
has_ticket-append w [] us = refl
has_ticket-append w (t ∷ ts) us = ground (arith, has_ticket-append w ts us)

links_from-append :
    (v w : String) (ts us : List Ticket)
    → links_from v w (ts ++ us) ≡ (links_from v w ts || links_from v w us)
unfolding links_from
links_from-append v w [] us = refl
links_from-append v w (t ∷ ts) us = ground (arith, links_from-append v w ts us)

-- A change of an epic that adds no link and drops no ticket.
pub record IsGrowth (f : Epic → Epic) : Type 0 where
  pub keeps :
      (e : Epic) (w : String) → has_ticket w e.tickets ≡ true → has_ticket w (f e).tickets ≡ true
  pub no_links : (e : Epic) (v w : String) → links_from v w (f e).tickets ≡ links_from v w e.tickets

pub with_ticket-IsGrowth :
    (title description ticket_type complexity : String) (id : Option String)
    → IsGrowth (with_ticket title description ticket_type complexity id)
unfolding with_ticket links_from has_link
with_ticket-IsGrowth title description ticket_type complexity id = record {
  keeps = λ e w h.
      has_ticket-append w e.tickets (
        record {
          id = id_or id "__proj_ticket_" (length e.tickets);
          epic_id = e.id;
          body =
              ("title", title)
              ∷ ("description", description)
              ∷ ("ticket_type", ticket_type)
              ∷ ("complexity", complexity)
              ∷ [];
          dependencies = [];
          blueprint_references = [];
        }
        ∷ [])
      ∙ rw h refl;
  no_links = λ e v w. ground (
    arith,
    links_from-append v w e.tickets (
        record {
          id = id_or id "__proj_ticket_" (length e.tickets);
          epic_id = e.id;
          body =
              ("title", title)
              ∷ ("description", description)
              ∷ ("ticket_type", ticket_type)
              ∷ ("complexity", complexity)
              ∷ [];
          dependencies = [];
          blueprint_references = [];
        }
        ∷ []),
  );
}

module _ (k : String) (f : Epic → Epic) (growth : IsGrowth f) where
  pub has_id-change_epic :
      (w : String) (es : List Epic) → has_id w es ≡ true → has_id w (change_epic k f es) ≡ true
  unfolding has_id change_epic
  has_id-change_epic w [] h = cc
  has_id-change_epic w (e ∷ es) h = ground (arith, h, has_id-change_epic w es, growth.keeps e w)

  pub has_edge-change_epic :
      (v w : String) (es : List Epic) → has_edge v w (change_epic k f es) ≡ has_edge v w es
  unfolding has_edge change_epic
  has_edge-change_epic v w [] = refl
  has_edge-change_epic v w (e ∷ es) =
      ground (arith, has_edge-change_epic v w es, growth.no_links e v w)

-- A ticket removed wherever it is.
has_ticket-without :
    (k w : String) (ts : List Ticket)
    → has_ticket w (tickets_without k ts) ≡ (has_ticket w ts && not (w == k))
unfolding has_ticket tickets_without
has_ticket-without k w [] = refl
has_ticket-without k w (t ∷ ts) =
    ground (arith, has_ticket-without k w ts, eq_iff t.id w, eq_iff t.id k, eq_iff w k)

links_from-without :
    (k v w : String) (ts : List Ticket)
    → links_from v w (tickets_without k ts) ≡ true
    → links_from v w ts ≡ true
unfolding links_from tickets_without
links_from-without k v w [] h = h
links_from-without k v w (t ∷ ts) h = ground (arith, h, links_from-without k v w ts)

pub has_id-drop_ticket :
    (k w : String) (es : List Epic) → has_id w (drop_ticket k es) ≡ (has_id w es && not (w == k))
unfolding has_id drop_ticket
has_id-drop_ticket k w [] = refl
has_id-drop_ticket k w (e ∷ es) =
    ground (arith, has_id-drop_ticket k w es, has_ticket-without k w e.tickets)

pub has_edge-drop_ticket :
    (k v w : String) (es : List Epic)
    → has_edge v w (drop_ticket k es) ≡ true
    → has_edge v w es ≡ true
unfolding has_edge drop_ticket
has_edge-drop_ticket k v w [] h = h
has_edge-drop_ticket k v w (e ∷ es) h =
    ground (arith, h, has_edge-drop_ticket k v w es, links_from-without k v w e.tickets)

pub has_edge-epics_without :
    (x v w : String) (es : List Epic)
    → has_edge v w (epics_without x es) ≡ true
    → has_edge v w es ≡ true
unfolding has_edge epics_without
has_edge-epics_without x v w [] h = h
has_edge-epics_without x v w (e ∷ es) h = ground (arith, h, has_edge-epics_without x v w es)
