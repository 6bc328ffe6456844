-- ===== src/Lifecycle/Projector/Links.antt =====
-- The changes of single tickets keep their ids, and add the links of a batch and no other.
use specsmither.Base.{
  String, ◌≡◌, refl, ap, ◌∙◌, Bool, true, false, ◌||◌, List, [], ◌∷◌, ◌++◌, arith, eq_iff,
}
use specsmither.Lifecycle.Projector.References.{missing_endpoints}
use specsmither.Lifecycle.Projector.Types.{DependencyLink, Epic, DependencyEdgeSpec}
use specsmither.Lifecycle.Projector.Flat.{edge_specs}
use specsmither.Lifecycle.Projector.Edges.{
  has_edge, has_id, IsTame, has_id-change_ticket, has_edge-change_ticket,
}
use specsmither.Lifecycle.Projector.{
  relink, has_link, linked, add_dependency, links_without, unlinked, remove_dependency, each_edge,
}
use specsmither.Lifecycle.Gate.{ticket_ids}
use specsmither.Lifecycle.Dependencies.{SpecDependencyEdge, is_empty}
use specsmither.Base.Text.{◌==◌}
use specsmither.Base.Sets.{mem}

pub has_link-append :
    (w : String) (ls ms : List DependencyLink)
    → has_link w (ls ++ ms) ≡ (has_link w ls || has_link w ms)
unfolding has_link
has_link-append w [] ms = refl
has_link-append w (l ∷ ls) ms = ground (arith, has_link-append w ls ms)

has_link-links_without :
    (k w : String) (ls : List DependencyLink)
    → has_link w (links_without k ls) ≡ true
    → has_link w ls ≡ true
unfolding has_link links_without
has_link-links_without k w [] h = h
has_link-links_without k w (l ∷ ls) h = ground (arith, h, has_link-links_without k w ls)

pub linked-IsTame : (edge : DependencyEdgeSpec) → IsTame (λ w. edge.to_ticket_id == w) (linked edge)
unfolding linked has_link
linked-IsTame edge = record {
  same_id = λ t. ground arith;
  old_links = λ t w h. ground (
    arith,
    h,
    has_link-append w t.dependencies
        (record { ticket_id = edge.to_ticket_id; type = edge.type } ∷ []),
  );
}

unlinked-IsTame : (edge : DependencyEdgeSpec) → IsTame (λ w. false) (unlinked edge)
unfolding unlinked
unlinked-IsTame edge = record {
  same_id = λ t. refl;
  old_links = λ t w h. ground (arith, has_link-links_without edge.to_ticket_id w t.dependencies h);
}

pub relink-IsTame :
    (blueprint_id : String) (ticket_ids : List String) (link : Bool)
    → IsTame (λ w. false) (relink blueprint_id ticket_ids link)
unfolding relink
relink-IsTame blueprint_id ticket_ids link = record {
  same_id = λ t. ground arith;
  old_links = λ t w h. ground (arith, h);
}

-- The edges of a batch lead to tickets that were there.
pub each_edge-linked :
    (ids : List String) (edges : List SpecDependencyEdge) (es : List Epic)
    → is_empty (missing_endpoints ids edges) ≡ true
    → (v w : String)
    → (has_id w (each_edge add_dependency (edge_specs edges) es) ≡ has_id w es)
      × (has_edge v w (each_edge add_dependency (edge_specs edges) es) ≡ true
          → has_edge v w es || mem w ids ≡ true)
unfolding each_edge edge_specs missing_endpoints is_empty add_dependency
each_edge-linked ids [] es h v w = (refl, λ m. ground (arith, m))
each_edge-linked ids (e ∷ edges) es h v w =
    let edge : DependencyEdgeSpec = record {
      from_ticket_id = e.from_ticket_id;
      to_ticket_id = e.to_ticket_id;
      type = "requires";
    } in
    let here : mem e.to_ticket_id ids ≡ true = ground (arith, h) in
    let rest : is_empty (missing_endpoints ids edges) ≡ true = ground (arith, h) in
    let after = add_dependency edge es in
    let (same, back) = each_edge-linked ids edges after rest v w in
    (
      same
          ∙ has_id-change_ticket (λ k. e.to_ticket_id == k) (linked edge) (linked-IsTame edge)
              e.from_ticket_id w es,
      λ m. ground (
        arith,
        back m,
        has_edge-change_ticket (λ k. e.to_ticket_id == k) (linked edge) (linked-IsTame edge)
            e.from_ticket_id v w es,
        eq_iff e.to_ticket_id w,
        ap (λ q. mem q ids) {x = e.to_ticket_id} {y = w},
        here,
      ),
    )

pub each_edge-unlinked :
    (edges : List DependencyEdgeSpec) (es : List Epic) (v w : String)
    → (has_id w (each_edge remove_dependency edges es) ≡ has_id w es)
      × (has_edge v w (each_edge remove_dependency edges es) ≡ true → has_edge v w es ≡ true)
unfolding each_edge remove_dependency
each_edge-unlinked [] es v w = (refl, λ m. m)
each_edge-unlinked (edge ∷ edges) es v w =
    let (same, back) = each_edge-unlinked edges (remove_dependency edge es) v w in
    (
      same
          ∙ has_id-change_ticket (λ k. false) (unlinked edge) (unlinked-IsTame edge)
              edge.from_ticket_id w es,
      λ m. ground (
        arith,
        back m,
        has_edge-change_ticket (λ k. false) (unlinked edge) (unlinked-IsTame edge)
            edge.from_ticket_id v w es,
      ),
    )
