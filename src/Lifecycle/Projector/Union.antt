-- ===== src/Lifecycle/Projector/Union.antt =====
-- The edges of the tree as a set of pairs: a batch of dependencies is a union with its pairs.
use specsmither.Lifecycle.Projector.References.{
  all_ticket_ids, missing_endpoints, entity_refs_exist,
}
use specsmither.Lifecycle.Projector.Links.{has_link-append, linked-IsTame, each_edge-linked}
use specsmither.Lifecycle.Projector.Types.{
  Ticket, Epic, Specification, DependencyEdgeSpec, create_dependencies,
}
use specsmither.Lifecycle.Projector.Guards.{accept}
use specsmither.Lifecycle.Projector.Flat.{
  flat_epics, flat_edges, spec_full_from_spec, Payload, edge_specs,
}
use specsmither.Lifecycle.Projector.Referrers.{edge_in, edge_in-flat_edges}
use specsmither.Lifecycle.Projector.Edges.{
  links_from, has_edge, has_id, mem-all_ticket_ids, has_id-change_ticket,
}
use specsmither.Lifecycle.Projector.{
  has_ticket, change_first, change_ticket, has_link, linked, each_edge, apply_mutation,
  add_dependency,
}
use specsmither.Base.Sets.{mem}
use specsmither.Base.{
  Bool-cases, String, ◌≡◌, refl, sym, ap, ◌∙◌, inl, inr, true, ◌&&◌, ◌||◌, List, [], ◌∷◌, arith,
  eq_iff,
}
use specsmither.Base.Text.{◌==◌}
use specsmither.Lifecycle.Dependencies.{SpecDependencyEdge, is_empty}

has_link-linked :
    (w : String) (edge : DependencyEdgeSpec) (t : Ticket)
    → has_link w (linked edge t).dependencies
      ≡ (has_link w t.dependencies || edge.to_ticket_id == w)
unfolding linked has_link
has_link-linked w edge t = ground (
  arith,
  has_link-append w t.dependencies
      (record { ticket_id = edge.to_ticket_id; type = edge.type } ∷ []),
  eq_iff edge.to_ticket_id w,
  ap (λ q. has_link q t.dependencies) {x = edge.to_ticket_id} {y = w},
)

same_ticket : (edge : DependencyEdgeSpec) (t : Ticket) → (linked edge t).id ≡ t.id
unfolding linked
same_ticket edge t = ground arith

links_from-linked :
    (v w : String) (edge : DependencyEdgeSpec) (ts : List Ticket)
    → has_ticket edge.from_ticket_id ts ≡ true
    → links_from v w (change_first edge.from_ticket_id (linked edge) ts)
      ≡ (links_from v w ts || edge.from_ticket_id == v && edge.to_ticket_id == w)
unfolding links_from change_first has_ticket
links_from-linked v w edge [] h = absurd (cc)
links_from-linked v w edge (t ∷ ts) h = elim (Bool-cases (t.id == edge.from_ticket_id)) [
  | inl e ↦
      rw (e, same_ticket edge t, has_link-linked w edge t)
        (ground (
          arith,
          e,
          eq_iff t.id edge.from_ticket_id,
          ap (λ q. q == v) {x = t.id} {y = edge.from_ticket_id},
        ))
  | inr e ↦ rw e (ground (arith, e, h, links_from-linked v w edge ts))
]

has_edge-add_dependency :
    (v w : String) (edge : DependencyEdgeSpec) (es : List Epic)
    → has_id edge.from_ticket_id es ≡ true
    → has_edge v w (add_dependency edge es)
      ≡ (has_edge v w es || edge.from_ticket_id == v && edge.to_ticket_id == w)
unfolding add_dependency change_ticket has_edge has_id
has_edge-add_dependency v w edge [] h = absurd (cc)
has_edge-add_dependency v w edge (e ∷ es) h =
    elim (Bool-cases (has_ticket edge.from_ticket_id e.tickets)) [
      | inl q ↦ rw q (ground (arith, q, links_from-linked v w edge e.tickets q))
      | inr q ↦ rw q (ground (arith, q, h, has_edge-add_dependency v w edge es))
    ]

has_id-add_dependency :
    (x : String) (edge : DependencyEdgeSpec) (fs : List Epic)
    → has_id x (add_dependency edge fs) ≡ has_id x fs
unfolding add_dependency
has_id-add_dependency x edge fs =
    has_id-change_ticket (λ k. edge.to_ticket_id == k) (linked edge) (linked-IsTame edge)
      edge.from_ticket_id x fs

has_edge-each_edge :
    (v w : String) (edges : List SpecDependencyEdge) (es fs : List Epic)
    → ((x : String) → has_id x fs ≡ has_id x es)
    → is_empty (missing_endpoints (all_ticket_ids (flat_epics es)) edges) ≡ true
    → has_edge v w (each_edge add_dependency (edge_specs edges) fs)
      ≡ (has_edge v w fs || edge_in v w edges)
unfolding each_edge edge_specs edge_in missing_endpoints is_empty
has_edge-each_edge v w [] es fs same h = ground arith
has_edge-each_edge v w (e ∷ edges) es fs same h =
    let edge : DependencyEdgeSpec = record {
      from_ticket_id = e.from_ticket_id;
      to_ticket_id = e.to_ticket_id;
      type = "requires";
    } in
    let first : mem e.from_ticket_id (all_ticket_ids (flat_epics es)) ≡ true = ground (arith, h) in
    let known : has_id e.from_ticket_id fs ≡ true =
      same e.from_ticket_id ∙ sym (mem-all_ticket_ids e.from_ticket_id es) ∙ first in
    let others : is_empty (missing_endpoints (all_ticket_ids (flat_epics es)) edges) ≡ true =
      ground (arith, h) in
    let rest =
      has_edge-each_edge v w edges es (add_dependency edge fs)
        (λ x. has_id-add_dependency x edge fs ∙ same x) others in
    rest ∙ rw (has_edge-add_dependency v w edge fs known) (ground arith)

endpoints_known :
    (s : Specification) (p : Payload)
    → entity_refs_exist "create_dependencies" p (spec_full_from_spec s) ≡ accept
    → is_empty (missing_endpoints (all_ticket_ids (flat_epics s.epics)) p.dependencies) ≡ true
unfolding entity_refs_exist spec_full_from_spec
endpoints_known s p h = ground (arith, h)

-- When `entity_refs_exist` accepts a batch of dependencies, the pairs of the projected specification are those of
-- the specification together with those of the batch, whatever repeats the batch has, and its tickets stay.
pub create_dependencies-union :
    (s : Specification) (p : Payload) (v w : String)
    → entity_refs_exist "create_dependencies" p (spec_full_from_spec s) ≡ accept
    → (edge_in v w
          (flat_edges (apply_mutation s (create_dependencies (edge_specs p.dependencies))).epics)
        ≡ (edge_in v w (flat_edges s.epics) || edge_in v w p.dependencies))
      × (has_id w (apply_mutation s (create_dependencies (edge_specs p.dependencies))).epics
          ≡ has_id w s.epics)
unfolding apply_mutation
create_dependencies-union s p v w h =
    let known : is_empty (missing_endpoints (all_ticket_ids (flat_epics s.epics)) p.dependencies)
        ≡ true =
      endpoints_known s p h in
    let after = each_edge add_dependency (edge_specs p.dependencies) s.epics in
    (
      edge_in-flat_edges v w after
          ∙ has_edge-each_edge v w p.dependencies s.epics s.epics (λ x. refl) known
          ∙ ap (λ b. b || edge_in v w p.dependencies) (sym (edge_in-flat_edges v w s.epics)),
      (each_edge-linked (all_ticket_ids (flat_epics s.epics)) p.dependencies s.epics known v w).0,
    )
