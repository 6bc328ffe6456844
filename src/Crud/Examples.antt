-- ===== src/Crud/Examples.antt =====
-- Two tickets of one specification, the second of which depends on the first.
use specsmither.Base.{◌≡◌, refl, some, [], ◌∷◌}
use specsmither.Base.Sets.{mem}
use specsmither.Base.Graph.{IsAcyclic-ranked}
use specsmither.Crud.{Rows, AddOutcome, failed, added, conflict, add_dependency, forward}
use specsmither.Crud.Added.{IsSound, IsAdded, add_dependency-IsSound}

abbrev empty_store : Rows
empty_store = record { ticket_specs = ("a", some "s") ∷ ("b", some "s") ∷ []; edges = [] }

abbrev one_edge : Rows
one_edge = record empty_store {
  edges = record { ticket_id = "b"; depends_on_id = "a"; type = "requires" } ∷ [];
}

first_added : add_dependency empty_store "b" "a" "requires" ≡ some (added one_edge)
unfolding add_dependency
first_added = refl

back_refused : add_dependency one_edge "a" "b" "blocks" ≡ some (failed conflict)
unfolding add_dependency
back_refused = refl

empty_store-IsSound : IsSound empty_store
unfolding forward mem
empty_store-IsSound = record {
  within_specs = λ v w m. absurd (cc);
  acyclic = IsAcyclic-ranked (forward []) (λ v. 0) (λ v w m. absurd (cc));
}

add_dependency-IsSound_example :
    (r : AddOutcome) × (add_dependency empty_store "b" "a" "requires" ≡ some r) × IsAdded "b" "a" r
add_dependency-IsSound_example =
    add_dependency-IsSound empty_store "b" "a" "requires" empty_store-IsSound
