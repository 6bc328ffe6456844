-- ===== src/Dag/Cascade/Transitions.antt =====
-- The transitions that each cascade proposes, exactly.
use specsmither.Dag.Cascade.Scans.{mem-find_dependents}
use specsmither.Base.Text.{◌==◌}
use specsmither.Dag.Cascade.Check.{deps_done, check_dependencies_completed_lem}
use specsmither.Dag.Cascade.{
  CascadeTransition, has_status, promote_loop, find_dependents, promotion, demotion,
  cascade_on_completed, demote_loop, cascade_on_uncompleted,
}
use specsmither.Base.{
  any, String, ◌≡◌, refl, Bool, ◌&&◌, List, [], ◌∷◌, arith, eq_iff, Bool-cases, All, inl, inr, not,
  map,
}
use specsmither.Base.Sets.{mem}
use specsmither.Base.Dict.{Dict}
use specsmither.Dag.Types.{DepEdge}

-- The tickets for which a list of transitions has one.
abbrev pub targets : List CascadeTransition → List String
targets = map (λ t. t.ticket_id)

targets-promote_loop :
    (states : Dict String) (edges : List DepEdge) (t : String) (ids : List String)
    → mem t (targets (promote_loop states edges ids))
      ≡ (mem t ids && has_status states t "pending" && deps_done states edges t)
unfolding promote_loop mem
targets-promote_loop states edges t [] = refl
targets-promote_loop states edges t (d ∷ ids) = ground (
  arith,
  targets-promote_loop states edges t ids,
  eq_iff d t,
  (check_dependencies_completed_lem d states edges).0,
)

promote_loop-promotion :
    (states : Dict String) (edges : List DepEdge) (ids : List String)
    → All (λ t. t ≡ promotion t.ticket_id) (promote_loop states edges ids)
unfolding promote_loop
promote_loop-promotion states edges [] = tt
promote_loop-promotion states edges (d ∷ ids) =
    ground (arith, promote_loop-promotion states edges ids)

targets-demote_loop :
    (states : Dict String) (t : String) (ids : List String)
    → mem t (targets (demote_loop states ids)) ≡ (mem t ids && has_status states t "ready")
unfolding demote_loop mem
targets-demote_loop states t [] = refl
targets-demote_loop states t (d ∷ ids) =
    ground (arith, targets-demote_loop states t ids, eq_iff d t)

demote_loop-demotion :
    (states : Dict String) (ids : List String)
    → All (λ t. t ≡ demotion t.ticket_id) (demote_loop states ids)
unfolding demote_loop
demote_loop-demotion states [] = tt
demote_loop-demotion states (d ∷ ids) = ground (arith, demote_loop-demotion states ids)

-- `a` has an edge to `x`.
abbrev pub depends_on : List DepEdge → String → String → Bool
depends_on edges a x = any (λ e. e.depends_on_id == x && e.ticket_id == a) edges

-- When `changed_id` is `done`, exactly the `pending` tickets with an edge to it whose dependencies
-- are all done are promoted from `pending` to `ready`; otherwise none is.
pub cascade_on_completed_lem :
    (states : Dict String) (edges : List DepEdge) (changed_id t : String)
    → (mem t (targets (cascade_on_completed states edges changed_id)) ≡ (
        has_status states changed_id "done"
        && depends_on edges t changed_id
        && has_status states t "pending"
        && deps_done states edges t))
      × All (λ u. u ≡ promotion u.ticket_id) (cascade_on_completed states edges changed_id)
unfolding cascade_on_completed
cascade_on_completed_lem states edges changed_id t =
    elim (Bool-cases (has_status states changed_id "done")) [
      | inl e ↦ (
        unfold mem in
            ground (
              arith,
              targets-promote_loop states edges t (find_dependents edges changed_id),
              mem-find_dependents t changed_id edges,
            ),
        rw e (promote_loop-promotion states edges (find_dependents edges changed_id)),
      )
      | inr e ↦ (unfold mem in rw e, rw e tt)
    ]

-- When `changed_id` is not `done`, exactly the `ready` tickets with an edge to it are demoted from
-- `ready` to `pending`; otherwise none is.
pub cascade_on_uncompleted_lem :
    (states : Dict String) (edges : List DepEdge) (changed_id t : String)
    → (mem t (targets (cascade_on_uncompleted states edges changed_id)) ≡ (
        not (has_status states changed_id "done")
        && depends_on edges t changed_id
        && has_status states t "ready"))
      × All (λ u. u ≡ demotion u.ticket_id) (cascade_on_uncompleted states edges changed_id)
unfolding cascade_on_uncompleted
cascade_on_uncompleted_lem states edges changed_id t =
    elim (Bool-cases (has_status states changed_id "done")) [
      | inr e ↦ (
        unfold mem in
            ground (
              arith,
              targets-demote_loop states t (find_dependents edges changed_id),
              mem-find_dependents t changed_id edges,
            ),
        rw e (demote_loop-demotion states (find_dependents edges changed_id)),
      )
      | inl e ↦ (unfold mem in rw e, rw e tt)
    ]
