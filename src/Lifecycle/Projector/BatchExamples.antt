-- ===== src/Lifecycle/Projector/BatchExamples.antt =====
-- Three tickets of which the first depends on the second, and a batch that appends the third to the chain.
use specsmither.Lifecycle.Projector.References.{entity_refs_exist}
use specsmither.Lifecycle.Projector.Types.{Ticket, Specification, create_dependencies}
use specsmither.Lifecycle.Projector.Flat.{flat_edges, spec_full_from_spec, Payload, edge_specs}
use specsmither.Lifecycle.Dependencies.{SpecDependencyEdge, successors, run_dependencies_batch}
use specsmither.Base.Graph.{IsAcyclic-ranked, IsAcyclic}
use specsmither.Base.{
  if◌then◌else◌, ℕ, String, ◌≡◌, refl, ◌≢◌, true, false, List, [], ◌∷◌, arith, eq_iff,
}
use specsmither.Lifecycle.Projector.Batches.{create_dependencies-IsAcyclic, AreSpaceless}
use specsmither.Lifecycle.Projector.{apply_mutation}
use specsmither.Lifecycle.Projector.Examples.{ticket_one, ticket_two, bare_payload}
use specsmither.Base.Text.{◌==◌}
use specsmither.Base.Sets.{mem}
use specsmither.Base.Spaces.{is_spaceless}
use mathlib.Core.Path.{subst}

abbrev ticket_three : Ticket
ticket_three = record ticket_two { id = "t3" }

abbrev three : Specification
three = record {
  id = "s1";
  body = [];
  epics =
      record {
        id = "e1";
        specification_id = "s1";
        body = [];
        tickets = ticket_one ∷ ticket_two ∷ ticket_three ∷ [];
      }
      ∷ [];
  blueprints = [];
}

abbrev persisted : List SpecDependencyEdge
persisted = record { from_ticket_id = "t1"; to_ticket_id = "t2" } ∷ []

abbrev appended : SpecDependencyEdge
appended = record { from_ticket_id = "t2"; to_ticket_id = "t3" }

abbrev chained : Payload
chained = record bare_payload { dependencies = appended ∷ persisted }

rank : String → ℕ
rank t = if "t2" == t then 1 else 0

rank_t2 : (w : String) → "t2" == w ≡ true → rank w ≡ 1
unfolding rank
rank_t2 w e = ground (arith, e)

rank_t1 : (w : String) → "t1" == w ≡ true → rank w ≡ 0
unfolding rank
rank_t1 w e = subst (λ k. rank k ≡ 0) ((eq_iff "t1" w).0 e) refl

persisted-IsAcyclic : IsAcyclic (successors persisted)
unfolding successors mem
persisted-IsAcyclic =
    IsAcyclic-ranked (successors persisted) rank (λ v w m. ground (arith, m, rank_t1 v, rank_t2 w))

apart : (a b : String) → a == b ≡ false → a ≢ b
apart a b h p = ground (arith, h, p, eq_iff a b)

persisted-AreSpaceless : AreSpaceless persisted
unfolding is_spaceless
persisted-AreSpaceless = ((refl, refl), tt)

chained-AreSpaceless : AreSpaceless chained.dependencies
unfolding is_spaceless
chained-AreSpaceless = ((refl, refl), ((refl, refl), tt))

create_dependencies-IsAcyclic_example : IsAcyclic (
    successors (
      flat_edges
        (apply_mutation three (create_dependencies (edge_specs chained.dependencies))).epics))
unfolding entity_refs_exist spec_full_from_spec run_dependencies_batch flat_edges
create_dependencies-IsAcyclic_example =
    create_dependencies-IsAcyclic three chained (appended ∷ []) [] persisted chained-AreSpaceless
      persisted-AreSpaceless (apart "t2" "t3" refl, (apart "t1" "t2" refl, tt)) persisted-IsAcyclic
      refl refl
