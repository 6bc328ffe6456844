-- ===== src/Lifecycle/Projector/Closed.antt =====
-- An operation that the pre-checks accept leaves no dependency on a ticket that is not there.
use specsmither.Lifecycle.Projector.Deletion.{
  ids_under, has_id-epics_without, has_edge-epics_without-outside,
}
use specsmither.Lifecycle.Gate.{ticket_ids}
use specsmither.Lifecycle.Projector.References.{
  epic_full_ids, all_ticket_ids, missing_endpoints, entity_refs_exist, ticket_referrers,
  epic_referrers, ids_of_epic, cascade_rules,
}
use specsmither.Lifecycle.Projector.Links.{relink-IsTame, each_edge-linked, each_edge-unlinked}
use specsmither.Lifecycle.Projector.Updates.{
  keeps_tree, assigned-IsTame, assign_epic-tickets, assign_spec-epics,
}
use specsmither.Lifecycle.Projector.Types.{
  Ticket, Epic, Specification, DependencyEdgeSpec, MutationOp, update_spec, create_epic,
  update_epic, delete_epic, create_ticket, update_ticket, delete_ticket, create_blueprint,
  update_blueprint, delete_blueprint, link_blueprint_to_tickets, unlink_blueprint_to_tickets,
  create_dependencies, delete_dependencies, mutation_kind,
}
use specsmither.Lifecycle.Projector.Guards.{find_epic, accept}
use specsmither.Lifecycle.Projector.Flat.{
  flat_epics, flat_edges, spec_full_from_spec, Payload, mutation, edge_specs, build_mutation_op,
}
use specsmither.Lifecycle.Projector.Referrers.{
  edge_in-flat_edges, ticket_referrers-none, epic_referrers-none,
}
use specsmither.Lifecycle.Projector.Edges.{
  links_from, has_edge, has_id, IsClosed, mem-all_ticket_ids, IsTame, has_id-map_tickets,
  has_edge-map_tickets, has_id-change_ticket, has_edge-change_ticket,
}
use specsmither.Lifecycle.Projector.Built.{AsksFor, IsBuilt, build_mutation_op-IsBuilt}
use specsmither.Lifecycle.Projector.Removal.{
  has_edge-append, has_id-append, IsGrowth, with_ticket-IsGrowth, has_id-change_epic,
  has_edge-change_epic, has_id-drop_ticket, has_edge-drop_ticket, has_edge-epics_without,
}
use specsmither.Lifecycle.Projector.{
  assign, set_on_epic, set_on_ticket, change_epic, change_ticket, relink, link_blueprint,
  add_dependency, remove_dependency, each_edge, epics_without, drop_ticket, new_epic, with_ticket,
  apply_mutation, has_ticket,
}
use specsmither.Lifecycle.Dependencies.{SpecDependencyEdge, is_empty}
use specsmither.Base.{
  Bool-cases, String, ◌≡◌, refl, sym, ◌∙◌, inl, inr, Bool, true, false, some, List, [], ◌∷◌, ◌++◌,
  arith, ap,
}
use specsmither.Base.Text.{◌==◌}
use specsmither.Base.Sets.{mem, IsDistinct}
use mathlib.Core.Path.{subst}

-- The epics and the tickets of a specification have ids of their own.
pub record IsKeyed (s : Specification) : Type 0 where
  pub epics_apart : IsDistinct (epic_full_ids (flat_epics s.epics))
  pub tickets_apart : IsDistinct (all_ticket_ids (flat_epics s.epics))

module _ (s : Specification) (p : Payload) (closed_before : IsClosed s.epics) where
  changed_ticket :
      (k : String) (f : Ticket → Ticket)
      → IsTame (λ w. false) f
      → IsClosed (change_ticket k f s.epics)
  changed_ticket k f tame v w h =
      has_id-change_ticket (λ n. false) f tame k w s.epics
      ∙ closed_before v w
          (ground (arith, has_edge-change_ticket (λ n. false) f tame k v w s.epics h))

  changed_epic : (k : String) (f : Epic → Epic) → IsGrowth f → IsClosed (change_epic k f s.epics)
  changed_epic k f growth v w h =
      has_id-change_epic k f growth w s.epics
        (closed_before v w (sym (has_edge-change_epic k f growth v w s.epics) ∙ h))

  relinked :
      (blueprint_id : String) (ticket_ids : List String) (link : Bool)
      → IsClosed (link_blueprint blueprint_id ticket_ids link s.epics)
  unfolding link_blueprint
  relinked blueprint_id ticket_ids link v w h =
      let tame = relink-IsTame blueprint_id ticket_ids link in
      has_id-map_tickets (λ n. false) (relink blueprint_id ticket_ids link) tame w s.epics
      ∙ closed_before v w (
          ground (
            arith,
            has_edge-map_tickets (λ n. false) (relink blueprint_id ticket_ids link) tame v w s.epics
                h,
          ))

  appended :
      (e : Epic)
      → ((v w : String) → links_from v w e.tickets ≡ false)
      → IsClosed (s.epics ++ e ∷ [])
  unfolding has_edge has_id
  appended e bare v w h =
      let before : has_edge v w s.epics ≡ true =
        ground (arith, has_edge-append v w s.epics (e ∷ []), h, bare v w) in
      has_id-append w s.epics (e ∷ []) ∙ ground (arith, closed_before v w before)

  dropped_ticket :
      (k : String)
      → is_empty (ticket_referrers (some k) (flat_edges s.epics)) ≡ true
      → IsClosed (drop_ticket k s.epics)
  dropped_ticket k none_left v w h =
      let before : has_edge v w s.epics ≡ true = has_edge-drop_ticket k v w s.epics h in
      let other : w == k ≡ false =
        ticket_referrers-none k v w (flat_edges s.epics) none_left
          (edge_in-flat_edges v w s.epics ∙ before) in
      has_id-drop_ticket k w s.epics ∙ ground (arith, closed_before v w before, other)

  dropped_epic :
      (x : String)
      → IsKeyed s
      → is_empty (epic_referrers (ids_under x s.epics) (flat_edges s.epics)) ≡ true
      → IsClosed (epics_without x s.epics)
  dropped_epic x keyed none_left v w h =
      let before : has_edge v w s.epics ≡ true = has_edge-epics_without x v w s.epics h in
      let outside : mem v (ids_under x s.epics) ≡ false =
        has_edge-epics_without-outside x v w s.epics keyed.tickets_apart h in
      let target : mem w (ids_under x s.epics) ≡ false =
        elim (Bool-cases (mem w (ids_under x s.epics))) [
          | inl i ↦
              let inside : mem v (ids_under x s.epics) ≡ true =
                epic_referrers-none (ids_under x s.epics) v w (flat_edges s.epics) none_left
                  (edge_in-flat_edges v w s.epics ∙ before) i in
              absurd (ground (arith, inside, outside))
          | inr i ↦ i
        ] in
      has_id-epics_without x w s.epics keyed.epics_apart (closed_before v w before) target

  connected :
      (edges : List SpecDependencyEdge)
      → is_empty (missing_endpoints (all_ticket_ids (flat_epics s.epics)) edges) ≡ true
      → IsClosed (each_edge add_dependency (edge_specs edges) s.epics)
  connected edges known v w h =
      let (same, back) =
        each_edge-linked (all_ticket_ids (flat_epics s.epics)) edges s.epics known v w in
      same ∙ ground (arith, back h, closed_before v w, mem-all_ticket_ids w s.epics)

  disconnected :
      (edges : List DependencyEdgeSpec) → IsClosed (each_edge remove_dependency edges s.epics)
  disconnected edges v w h =
      let (same, back) = each_edge-unlinked edges s.epics v w in same ∙ closed_before v w (back h)

  accepts_cascade_ticket :
      (k : String)
      → p.cascade_remove_dependencies ≡ false
      → p.id ≡ some k
      → cascade_rules "delete_ticket" p (spec_full_from_spec s) ≡ accept
      → is_empty (ticket_referrers (some k) (flat_edges s.epics)) ≡ true
  unfolding cascade_rules spec_full_from_spec
  accepts_cascade_ticket k off e h =
      subst (λ o. is_empty (ticket_referrers o (flat_edges s.epics)) ≡ true) e
        (ground (arith, off, h))

  accepts_cascade_epic :
      (k : String)
      → p.cascade_remove_dependencies ≡ false
      → p.id ≡ some k
      → cascade_rules "delete_epic" p (spec_full_from_spec s) ≡ accept
      → is_empty (epic_referrers (ids_under k s.epics) (flat_edges s.epics)) ≡ true
  unfolding cascade_rules spec_full_from_spec
  accepts_cascade_epic k off e h =
      subst
        (λ o.
          is_empty
            (epic_referrers (ids_of_epic (find_epic o (flat_epics s.epics))) (flat_edges s.epics))
          ≡ true)
        e (ground (arith, off, h))

  accepts_endpoints :
      entity_refs_exist "create_dependencies" p (spec_full_from_spec s) ≡ accept
      → is_empty (missing_endpoints (all_ticket_ids (flat_epics s.epics)) p.dependencies) ≡ true
  unfolding entity_refs_exist spec_full_from_spec
  accepts_endpoints h = ground (arith, h)

  -- By the mutation that is applied.
  applied :
      (m : MutationOp)
      → IsKeyed s
      → AsksFor p m
      → keeps_tree m ≡ true
      → p.cascade_remove_dependencies ≡ false
      → entity_refs_exist (mutation_kind m) p (spec_full_from_spec s) ≡ accept
      → cascade_rules (mutation_kind m) p (spec_full_from_spec s) ≡ accept
      → IsClosed (apply_mutation s m).epics
  unfolding apply_mutation mutation_kind keeps_tree
  applied (update_spec fields) keyed asked tree off refs cascade =
      subst IsClosed (sym (assign_spec-epics fields s tree)) closed_before
  applied (create_epic title description objective id) keyed asked tree off refs cascade =
      appended (new_epic s title description objective id)
        (λ v w. unfold new_epic links_from in refl)
  applied (update_epic k fields) keyed asked tree off refs cascade =
      changed_epic k (assign set_on_epic fields) (record {
        keeps = λ e w h. ap (has_ticket w) (assign_epic-tickets fields e tree) ∙ h;
        no_links = λ e v w. ap (links_from v w) (assign_epic-tickets fields e tree);
      })
  applied (delete_epic k) keyed asked tree off refs cascade =
      dropped_epic k keyed (accepts_cascade_epic k off asked cascade)
  applied (create_ticket k title description ticket_type complexity id) keyed asked tree off refs
        cascade =
      changed_epic k (with_ticket title description ticket_type complexity id)
        (with_ticket-IsGrowth title description ticket_type complexity id)
  applied (update_ticket k fields) keyed asked tree off refs cascade =
      changed_ticket k (assign set_on_ticket fields) (assigned-IsTame fields tree)
  applied (delete_ticket k) keyed asked tree off refs cascade =
      dropped_ticket k (accepts_cascade_ticket k off asked cascade)
  applied (create_blueprint title category content id) keyed asked tree off refs cascade =
      closed_before
  applied (update_blueprint k fields) keyed asked tree off refs cascade = closed_before
  applied (delete_blueprint k) keyed asked tree off refs cascade = closed_before
  applied (link_blueprint_to_tickets k ids) keyed asked tree off refs cascade = relinked k ids true
  applied (unlink_blueprint_to_tickets k ids) keyed asked tree off refs cascade =
      relinked k ids false
  applied (create_dependencies edges) keyed asked tree off refs cascade =
      subst (λ es. IsClosed (each_edge add_dependency es s.epics)) (sym asked)
        (connected p.dependencies (accepts_endpoints refs))
  applied (delete_dependencies edges) keyed asked tree off refs cascade = disconnected edges

-- When each dependency of a specification leads to one of its tickets, and the ids are apart, then this still
-- holds of the projected specification, for every operation that `entity_refs_exist` and `cascade_rules` accept
-- and that does not ask for the removal of dependencies, where an update sets no id, dependencies, tickets or
-- epics.
pub apply_mutation-IsClosed :
    (s : Specification) (op : String) (p : Payload) (m : MutationOp)
    → IsKeyed s
    → IsClosed s.epics
    → p.cascade_remove_dependencies ≡ false
    → entity_refs_exist op p (spec_full_from_spec s) ≡ accept
    → cascade_rules op p (spec_full_from_spec s) ≡ accept
    → build_mutation_op op p ≡ mutation m
    → keeps_tree m ≡ true
    → IsClosed (apply_mutation s m).epics
apply_mutation-IsClosed s op p m keyed before off refs cascade h tree =
    let built : IsBuilt op p m = build_mutation_op-IsBuilt p op m h in
    applied s p before m keyed built.asked tree off
      (subst (λ n. entity_refs_exist n p (spec_full_from_spec s) ≡ accept) built.named refs)
      (subst (λ n. cascade_rules n p (spec_full_from_spec s) ≡ accept) built.named cascade)
