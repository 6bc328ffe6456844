-- ===== src/Dag/Cascade/Check.antt =====
-- `check_dependencies_completed` against the edges: a ticket's dependencies are completed exactly if
-- the blocker end of each of its edges is `done`.
use specsmither.Dag.Cascade.Firsts.{firsts, blocker_ends, find_dependencies-firsts}
use specsmither.Dag.Cascade.Scans.{all-find_dependencies}
use specsmither.Base.Text.{◌==◌}
use specsmither.Dag.Cascade.{
  find_dependencies, check_loop, is_empty, check_dependencies_completed, has_status, check_ids,
}
use specsmither.Base.{
  filter, all, String, ◌≡◌, refl, Bool, true, false, not, ◌||◌, none, some, List, [], ◌∷◌, arith,
  ap, ◌∙◌,
}
use specsmither.Base.Dict.{Dict, get}
use specsmither.Dag.Types.{DepEdge}

-- Every edge of the ticket leads to a done ticket.
unfoldable pub deps_done : Dict String → List DepEdge → String → Bool
unfolding all has_status
deps_done states edges ticket_id =
    all (λ e. not (e.ticket_id == ticket_id) || has_status states e.depends_on_id "done") edges

check_loop_blockers :
    (states : Dict String) (ids : List String)
    → (check_loop states ids).0 ≡ filter (λ d. not (has_status states d "done")) ids
unfolding check_loop filter has_status
check_loop_blockers states [] = refl
check_loop_blockers states (d ∷ ids) = ground (arith, check_loop_blockers states ids)

check_loop_missing :
    (states : Dict String) (ids : List String)
    → (check_loop states ids).1
      ≡ filter (λ d. elim (get states d) [ none ↦ true | some s ↦ false ]) ids
unfolding check_loop filter
check_loop_missing states [] = refl
check_loop_missing states (d ∷ ids) = ground (arith, check_loop_missing states ids)

pub is_empty-filter-not :
    (p : String → Bool) (xs : List String) → is_empty (filter (λ d. not (p d)) xs) ≡ all p xs
unfolding is_empty filter all
is_empty-filter-not p [] = refl
is_empty-filter-not p (x ∷ xs) = ground (arith, is_empty-filter-not p xs)

check_ids_lem :
    (states : Dict String) (ids : List String)
    → ((check_ids states ids).all_completed ≡ all (λ d. has_status states d "done") ids)
      × ((check_ids states ids).blockers ≡ filter (λ d. not (has_status states d "done")) ids)
      × ((check_ids states ids).missing
          ≡ filter (λ d. elim (get states d) [ none ↦ true | some s ↦ false ]) ids)
check_ids_lem states [] = unfold check_ids all filter in (refl, refl, refl)
check_ids_lem states (d ∷ ids) = (
  unfold check_ids in
      ap is_empty (check_loop_blockers states (d ∷ ids))
      ∙ is_empty-filter-not (λ e. has_status states e "done") (d ∷ ids),
  unfold check_ids in check_loop_blockers states (d ∷ ids),
  unfold check_ids in check_loop_missing states (d ∷ ids),
)

-- The check passes exactly if every edge of the ticket leads to a `done` ticket; the blockers are the
-- blocker ends of its edges, in the order of the edges and each once, that are not `done`; the missing
-- ones are those of them that have no status.
pub check_dependencies_completed_lem :
    (ticket_id : String) (states : Dict String) (edges : List DepEdge)
    → ((check_dependencies_completed ticket_id states edges).all_completed
        ≡ deps_done states edges ticket_id)
      × ((check_dependencies_completed ticket_id states edges).blockers
          ≡ filter (λ d. not (has_status states d "done")) (firsts (blocker_ends ticket_id edges)))
      × ((check_dependencies_completed ticket_id states edges).missing
          ≡ filter
              (λ d. elim (get states d) [ none ↦ true | some s ↦ false ])
              (firsts (blocker_ends ticket_id edges)))
unfolding check_dependencies_completed
check_dependencies_completed_lem ticket_id states edges =
    let (passes, blocks, misses) = check_ids_lem states (find_dependencies edges ticket_id) in
    let listed = find_dependencies-firsts edges ticket_id in
    (
      passes
          ∙ unfold deps_done in
            all-find_dependencies (λ d. has_status states d "done") ticket_id edges,
      blocks ∙ ap (filter (λ d. not (has_status states d "done"))) listed,
      misses ∙ ap (filter (λ d. elim (get states d) [ none ↦ true | some s ↦ false ])) listed,
    )
