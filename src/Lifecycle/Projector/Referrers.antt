-- ===== src/Lifecycle/Projector/Referrers.antt =====
-- What the guards of `cascade_rules` say of the edges of the tree.
use specsmither.Base.{
  String, ◌≡◌, refl, ap, Bool, true, false, ◌&&◌, ◌||◌, some, List, [], ◌∷◌, ◌++◌, arith, eq_iff,
}
use specsmither.Lifecycle.Projector.References.{ticket_referrers, epic_referrers}
use specsmither.Lifecycle.Projector.Types.{DependencyLink, Ticket, Epic}
use specsmither.Lifecycle.Projector.Flat.{link_edges, ticket_edges, flat_edges}
use specsmither.Lifecycle.Projector.Edges.{links_from, has_edge}
use specsmither.Lifecycle.Projector.{has_link}
use specsmither.Lifecycle.Dependencies.{SpecDependencyEdge, is_empty}
use specsmither.Base.Text.{◌==◌}
use specsmither.Base.Sets.{mem}

unfoldable pub edge_in : String → String → List SpecDependencyEdge → Bool
edge_in v w [] = false
edge_in v w (e ∷ edges) = e.from_ticket_id == v && e.to_ticket_id == w || edge_in v w edges

pub edge_in-append :
    (v w : String) (es fs : List SpecDependencyEdge)
    → edge_in v w (es ++ fs) ≡ (edge_in v w es || edge_in v w fs)
unfolding edge_in
edge_in-append v w [] fs = refl
edge_in-append v w (e ∷ es) fs = ground (arith, edge_in-append v w es fs)

edge_in-link_edges :
    (v w from : String) (links : List DependencyLink)
    → edge_in v w (link_edges from links) ≡ (from == v && has_link w links)
unfolding edge_in link_edges has_link
edge_in-link_edges v w from [] = ground arith
edge_in-link_edges v w from (l ∷ links) = ground (arith, edge_in-link_edges v w from links)

edge_in-ticket_edges :
    (v w : String) (ts : List Ticket) → edge_in v w (ticket_edges ts) ≡ links_from v w ts
unfolding ticket_edges links_from edge_in
edge_in-ticket_edges v w [] = refl
edge_in-ticket_edges v w (t ∷ ts) = ground (
  arith,
  edge_in-append v w (link_edges t.id t.dependencies) (ticket_edges ts),
  edge_in-link_edges v w t.id t.dependencies,
  edge_in-ticket_edges v w ts,
)

pub edge_in-flat_edges :
    (v w : String) (es : List Epic) → edge_in v w (flat_edges es) ≡ has_edge v w es
unfolding flat_edges has_edge edge_in
edge_in-flat_edges v w [] = refl
edge_in-flat_edges v w (e ∷ es) = ground (
  arith,
  edge_in-append v w (ticket_edges e.tickets) (flat_edges es),
  edge_in-ticket_edges v w e.tickets,
  edge_in-flat_edges v w es,
)

pub ticket_referrers-none :
    (k v w : String) (edges : List SpecDependencyEdge)
    → is_empty (ticket_referrers (some k) edges) ≡ true
    → edge_in v w edges ≡ true
    → w == k ≡ false
unfolding ticket_referrers edge_in is_empty
ticket_referrers-none k v w [] h m = absurd (cc)
ticket_referrers-none k v w (e ∷ edges) h m = ground (
  arith,
  h,
  m,
  ticket_referrers-none k v w edges,
  eq_iff e.to_ticket_id w,
  eq_iff e.to_ticket_id k,
  eq_iff w k,
  eq_iff k e.to_ticket_id,
)

pub epic_referrers-none :
    (ids : List String) (v w : String) (edges : List SpecDependencyEdge)
    → is_empty (epic_referrers ids edges) ≡ true
    → edge_in v w edges ≡ true
    → mem w ids ≡ true
    → mem v ids ≡ true
unfolding epic_referrers edge_in is_empty
epic_referrers-none ids v w [] h m i = absurd (cc)
epic_referrers-none ids v w (e ∷ edges) h m i = ground (
  arith,
  h,
  m,
  i,
  epic_referrers-none ids v w edges,
  eq_iff e.to_ticket_id w,
  eq_iff e.from_ticket_id v,
  ap (λ q. mem q ids) {x = e.to_ticket_id} {y = w},
  ap (λ q. mem q ids) {x = e.from_ticket_id} {y = v},
)
