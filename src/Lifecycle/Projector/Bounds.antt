-- ===== src/Lifecycle/Projector/Bounds.antt =====
-- An operation that `count_bounds` accepts keeps the numbers of epics and tickets within their bounds.
use specsmither.Lifecycle.Projector.Closed.{IsKeyed}
use specsmither.Lifecycle.Projector.Updates.{keeps_tree, assign_epic-tickets, assign_spec-epics}
use specsmither.Lifecycle.Projector.Types.{
  Ticket, Epic, Specification, DependencyEdgeSpec, MutationOp, update_spec, create_epic,
  update_epic, delete_epic, create_ticket, update_ticket, delete_ticket, create_blueprint,
  update_blueprint, delete_blueprint, link_blueprint_to_tickets, unlink_blueprint_to_tickets,
  create_dependencies, delete_dependencies, mutation_kind,
}
use specsmither.Lifecycle.Projector.Guards.{
  count_default, reaches, falls_to, find_epic, accept, create_ticket_bound, count_bounds, Config,
}
use specsmither.Lifecycle.Projector.Flat.{
  flat_epics, spec_full_from_spec, Payload, mutation, build_mutation_op,
}
use specsmither.Lifecycle.Projector.Lengths.{
  within_max, within_min, tickets_within, length-flat_epics, length-change_epic,
  length-change_ticket, length-map_tickets, length-drop_ticket, length-epics_without,
  tickets_within-change_epic, tickets_within-change_ticket, tickets_within-map_tickets,
  tickets_within-drop_ticket, tickets_within-epics_without, tickets_within-append,
  tickets_within-with_ticket, length-each_edge, tickets_within-each_edge, length-epics_without-le,
}
use specsmither.Lifecycle.Projector.Built.{AsksFor, IsBuilt, build_mutation_op-IsBuilt}
use specsmither.Lifecycle.Projector.{
  assign, set_on_epic, set_on_ticket, change_epic, change_ticket, relink, map_tickets,
  link_blueprint, linked, add_dependency, unlinked, remove_dependency, each_edge, epics_without,
  drop_ticket, new_epic, with_ticket, apply_mutation,
}
use specsmither.Base.{
  length, length-append, String, ◌≡◌, refl, Bool, true, false, some, List, [], ◌∷◌, ◌++◌, arith,
}
use mathlib.Core.Path.{subst}

-- The specification is within the bounds of the configuration, but for the least number of tickets, which a
-- new epic does not have.
pub record IsBounded (config : Config) (s : Specification) : Type 0 where
  pub epics_max :
      within_max (count_default config "arrayMaxCounts" "specification" "epics") (length s.epics)
      ≡ true
  pub epics_min :
      within_min (count_default config "arrayMinCounts" "specification" "epics") (length s.epics)
      ≡ true
  pub tickets_max :
      tickets_within (count_default config "arrayMaxCounts" "epic" "tickets") s.epics ≡ true

module _ (config : Config) (s : Specification) (p : Payload) (bounded : IsBounded config s) where
  -- As many epics as before.
  same_epics :
      (es : List Epic)
      → length es ≡ length s.epics
      → tickets_within (count_default config "arrayMaxCounts" "epic" "tickets") es ≡ true
      → IsBounded config (record s { epics = es })
  same_epics es same h = record {
    epics_max = rw same bounded.epics_max;
    epics_min = rw same bounded.epics_min;
    tickets_max = h;
  }

  one_more :
      (e : Epic)
      → length e.tickets ≡ 0
      → count_bounds "create_epic" p (spec_full_from_spec s) config ≡ accept
      → IsBounded config (record s { epics = s.epics ++ e ∷ [] })
  unfolding count_bounds reaches within_max within_min spec_full_from_spec
  one_more e z h = record {
    epics_max = ground (arith, h, length-append s.epics (e ∷ []), length-flat_epics s.epics);
    epics_min = ground (arith, bounded.epics_min, length-append s.epics (e ∷ []));
    tickets_max =
        tickets_within-append (count_default config "arrayMaxCounts" "epic" "tickets") s.epics e z
          bounded.tickets_max;
  }

  one_less :
      (x : String)
      → IsKeyed s
      → count_bounds "delete_epic" p (spec_full_from_spec s) config ≡ accept
      → IsBounded config (record s { epics = epics_without x s.epics })
  unfolding count_bounds falls_to within_max within_min spec_full_from_spec
  one_less x keyed h = record {
    epics_max = ground (arith, bounded.epics_max, length-epics_without-le x s.epics);
    epics_min =
        ground
          (arith, h, length-epics_without x s.epics keyed.epics_apart, length-flat_epics s.epics);
    tickets_max =
        tickets_within-epics_without (count_default config "arrayMaxCounts" "epic" "tickets") x
          s.epics bounded.tickets_max;
  }

  accepts_ticket :
      (k : String)
      → p.epic_id ≡ some k
      → count_bounds "create_ticket" p (spec_full_from_spec s) config ≡ accept
      → create_ticket_bound
          (count_default config "arrayMaxCounts" "epic" "tickets")
          (find_epic (some k) (flat_epics s.epics))
        ≡ accept
  unfolding count_bounds spec_full_from_spec
  accepts_ticket k e h =
      subst
        (λ o.
          create_ticket_bound (count_default config "arrayMaxCounts" "epic" "tickets")
            (find_epic o (flat_epics s.epics))
          ≡ accept)
        e h

  relinked_epics :
      (k : String) (ids : List String) (link : Bool)
      → IsBounded config (record s { epics = link_blueprint k ids link s.epics })
  unfolding link_blueprint
  relinked_epics k ids link =
      same_epics (map_tickets (relink k ids link) s.epics)
        (length-map_tickets (relink k ids link) s.epics)
        (tickets_within-map_tickets (count_default config "arrayMaxCounts" "epic" "tickets")
          (relink k ids link) s.epics bounded.tickets_max)

  each_epics :
      (f : DependencyEdgeSpec → List Epic → List Epic) (edges : List DependencyEdgeSpec)
      → ((edge : DependencyEdgeSpec) (fs : List Epic) → length (f edge fs) ≡ length fs)
      → ((edge : DependencyEdgeSpec) (fs : List Epic)
          → tickets_within (count_default config "arrayMaxCounts" "epic" "tickets") fs ≡ true
          → tickets_within (count_default config "arrayMaxCounts" "epic" "tickets") (f edge fs)
            ≡ true)
      → IsBounded config (record s { epics = each_edge f edges s.epics })
  each_epics f edges same keep =
      same_epics (each_edge f edges s.epics) (length-each_edge f edges s.epics same) (
        tickets_within-each_edge (count_default config "arrayMaxCounts" "epic" "tickets") f edges
          s.epics keep bounded.tickets_max)

  applied :
      (m : MutationOp)
      → IsKeyed s
      → AsksFor p m
      → keeps_tree m ≡ true
      → count_bounds (mutation_kind m) p (spec_full_from_spec s) config ≡ accept
      → IsBounded config (apply_mutation s m)
  unfolding apply_mutation mutation_kind keeps_tree
  applied (update_spec fields) keyed asked tree h =
      let same = assign_spec-epics fields s tree in
      record {
        epics_max = rw same bounded.epics_max;
        epics_min = rw same bounded.epics_min;
        tickets_max = rw same bounded.tickets_max;
      }
  applied (create_epic title description objective id) keyed asked tree h =
      one_more (new_epic s title description objective id) (unfold new_epic in refl) h
  applied (update_epic k fields) keyed asked tree h =
      let f : Epic → Epic = assign set_on_epic fields in
      same_epics (change_epic k f s.epics) (length-change_epic k f s.epics) (
        tickets_within-change_epic (count_default config "arrayMaxCounts" "epic" "tickets") k f
          s.epics (λ e. assign_epic-tickets fields e tree) bounded.tickets_max)
  applied (delete_epic k) keyed asked tree h = one_less k keyed h
  applied (create_ticket k title description ticket_type complexity id) keyed asked tree h =
      let f : Epic → Epic = with_ticket title description ticket_type complexity id in
      same_epics (change_epic k f s.epics) (length-change_epic k f s.epics) (
        tickets_within-with_ticket (count_default config "arrayMaxCounts" "epic" "tickets") k title
          description ticket_type complexity id s.epics (accepts_ticket k asked h)
          bounded.tickets_max)
  applied (update_ticket k fields) keyed asked tree h =
      let f : Ticket → Ticket = assign set_on_ticket fields in
      same_epics (change_ticket k f s.epics) (length-change_ticket k f s.epics) (
        tickets_within-change_ticket (count_default config "arrayMaxCounts" "epic" "tickets") k f
          s.epics bounded.tickets_max)
  applied (delete_ticket k) keyed asked tree h =
      same_epics (drop_ticket k s.epics) (length-drop_ticket k s.epics) (
        tickets_within-drop_ticket (count_default config "arrayMaxCounts" "epic" "tickets") k
          s.epics bounded.tickets_max)
  applied (create_blueprint title category content id) keyed asked tree h = record {
    epics_max = bounded.epics_max;
    epics_min = bounded.epics_min;
    tickets_max = bounded.tickets_max;
  }
  applied (update_blueprint k fields) keyed asked tree h = record {
    epics_max = bounded.epics_max;
    epics_min = bounded.epics_min;
    tickets_max = bounded.tickets_max;
  }
  applied (delete_blueprint k) keyed asked tree h = record {
    epics_max = bounded.epics_max;
    epics_min = bounded.epics_min;
    tickets_max = bounded.tickets_max;
  }
  applied (link_blueprint_to_tickets k ids) keyed asked tree h = relinked_epics k ids true
  applied (unlink_blueprint_to_tickets k ids) keyed asked tree h = relinked_epics k ids false
  applied (create_dependencies edges) keyed asked tree h =
      each_epics add_dependency edges
        (λ edge fs.
          unfold add_dependency in length-change_ticket edge.from_ticket_id (linked edge) fs)
        (λ edge fs q.
          unfold add_dependency in
          tickets_within-change_ticket (count_default config "arrayMaxCounts" "epic" "tickets")
            edge.from_ticket_id (linked edge) fs q)
  applied (delete_dependencies edges) keyed asked tree h =
      each_epics remove_dependency edges
        (λ edge fs.
          unfold remove_dependency in length-change_ticket edge.from_ticket_id (unlinked edge) fs)
        (λ edge fs q.
          unfold remove_dependency in
          tickets_within-change_ticket (count_default config "arrayMaxCounts" "epic" "tickets")
            edge.from_ticket_id (unlinked edge) fs q)

-- When the numbers of epics and of the tickets of each epic are within the bounds of the configuration, and
-- the ids are apart, then this still holds of the projected specification, for every operation that
-- `count_bounds` accepts, where an update sets no id, dependencies, tickets or epics.
pub apply_mutation-IsBounded :
    (config : Config) (s : Specification) (op : String) (p : Payload) (m : MutationOp)
    → IsKeyed s
    → IsBounded config s
    → count_bounds op p (spec_full_from_spec s) config ≡ accept
    → build_mutation_op op p ≡ mutation m
    → keeps_tree m ≡ true
    → IsBounded config (apply_mutation s m)
apply_mutation-IsBounded config s op p m keyed bounded h b tree =
    let built : IsBuilt op p m = build_mutation_op-IsBuilt p op m b in
    applied config s p bounded m keyed built.asked tree
      (subst (λ n. count_bounds n p (spec_full_from_spec s) config ≡ accept) built.named h)
