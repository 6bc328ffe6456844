-- ===== src/Dag/Cascade/Examples.antt =====
-- dag/cascade.py on a chain of three tickets: `c` depends on `b`, and `b` on `a`.
use specsmither.Dag.Cascade.Firsts.{firsts, blocker_ends}
use specsmither.Dag.Cascade.Settling.{
  cascade_on_completed-IsSettled, cascade_on_uncompleted-IsSettled,
  cascade_on_dependency_change-IsSettled,
}
use specsmither.Dag.Cascade.Completeness.{apply, IsSettled}
use specsmither.Dag.Cascade.Transitions.{
  targets, depends_on, cascade_on_completed_lem, cascade_on_uncompleted_lem,
}
use specsmither.Dag.Cascade.Check.{deps_done, check_dependencies_completed_lem}
use specsmither.Dag.Cascade.{
  find_dependents, check_dependencies_completed, has_status, promotion, demotion, promote_loop,
  cascade_on_completed, cascade_on_uncompleted, cascade_on_dependency_change,
}
use specsmither.Base.{
  filter, all, All, String, ◌≡◌, refl, true, false, not, ◌&&◌, none, some, List, [], ◌∷◌, arith,
  eq_iff,
}
use specsmither.Base.Sets.{mem}
use specsmither.Base.Dict.{Dict, get, put}
use specsmither.Dag.Types.{DepEdge}

abbrev edge : String → String → DepEdge
edge a b = record { ticket_id = a; depends_on_id = b; type = "requires" }

abbrev chain : List DepEdge
chain = edge "c" "b" ∷ edge "b" "a" ∷ []

abbrev started : Dict String
started = ("a", "active") ∷ ("b", "pending") ∷ ("c", "pending") ∷ []

abbrev finished : Dict String
finished = ("a", "done") ∷ ("b", "pending") ∷ ("c", "pending") ∷ []

-- Only the direct dependent is promoted.
promotes_one : cascade_on_completed finished chain "a" ≡ promotion "b" ∷ []
unfolding cascade_on_completed promote_loop check_dependencies_completed has_status find_dependents
promotes_one = refl

started-IsSettled : (t : String) → IsSettled started chain t
unfolding has_status deps_done all get
started-IsSettled t = ground (
  arith,
  eq_iff "a" t,
  eq_iff "b" t,
  eq_iff "c" t,
  eq_iff "b" "c",
  eq_iff "a" "c",
  eq_iff "a" "b",
)

check_dependencies_completed_lem_example :
    ((check_dependencies_completed "b" started chain).all_completed ≡ deps_done started chain "b")
    × ((check_dependencies_completed "b" started chain).blockers
        ≡ filter (λ d. not (has_status started d "done")) (firsts (blocker_ends "b" chain)))
    × ((check_dependencies_completed "b" started chain).missing
        ≡ filter
            (λ d. elim (get started d) [ none ↦ true | some s ↦ false ])
            (firsts (blocker_ends "b" chain)))
check_dependencies_completed_lem_example = check_dependencies_completed_lem "b" started chain

cascade_on_completed_lem_example :
    (mem "b" (targets (cascade_on_completed finished chain "a")) ≡ (
      has_status finished "a" "done"
      && depends_on chain "b" "a"
      && has_status finished "b" "pending"
      && deps_done finished chain "b"))
    × All (λ u. u ≡ promotion u.ticket_id) (cascade_on_completed finished chain "a")
cascade_on_completed_lem_example = cascade_on_completed_lem finished chain "a" "b"

cascade_on_uncompleted_lem_example :
    (mem "b" (targets (cascade_on_uncompleted started chain "a")) ≡ (
      not (has_status started "a" "done")
      && depends_on chain "b" "a"
      && has_status started "b" "ready"))
    × All (λ u. u ≡ demotion u.ticket_id) (cascade_on_uncompleted started chain "a")
cascade_on_uncompleted_lem_example = cascade_on_uncompleted_lem started chain "a" "b"

cascade_on_completed-IsSettled_example :
    IsSettled
      (apply (put started "a" "done") (cascade_on_completed (put started "a" "done") chain "a"))
      chain
      "b"
cascade_on_completed-IsSettled_example =
    cascade_on_completed-IsSettled started chain "a" (λ t h. started-IsSettled t) "b"

cascade_on_uncompleted-IsSettled_example :
    IsSettled
      (apply (put started "a" "ready") (cascade_on_uncompleted (put started "a" "ready") chain "a"))
      chain
      "b"
cascade_on_uncompleted-IsSettled_example =
    cascade_on_uncompleted-IsSettled started chain "a" "ready" refl (λ t h. started-IsSettled t) "b"
      refl

cascade_on_dependency_change-IsSettled_example :
    IsSettled (apply started (cascade_on_dependency_change started [] "b")) [] "b"
    × ((t : String)
        → IsSettled started [] t
        → IsSettled (apply started (cascade_on_dependency_change started [] "b")) [] t)
cascade_on_dependency_change-IsSettled_example =
    cascade_on_dependency_change-IsSettled started [] "b"
