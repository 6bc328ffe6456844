-- ===== src/Rollups/Recompute/Reasons.antt =====
-- When a recompute leaves a block reason, and what progress it leaves.
use mathlib.Core.Path.{subst}
use specsmither.Base.Text.{◌==◌}
use specsmither.Rollups.Recompute.Columns.{All-statuses}
use specsmither.Rollups.Recompute.Idempotence.{rows_from}
use specsmither.Rollups.Recompute.Fixpoint.{
  cascade_to_fixpoint_total, cascade_to_fixpoint-IsSettled,
}
use specsmither.Rollups.Recompute.{
  TicketRow, titles_from, blockers_of, reason_for, with_status, apply_status, recompute_statuses,
}
use specsmither.Dag.Cascade.Scans.{all-find_dependencies}
use specsmither.Dag.Cascade.Completeness.{IsSettled}
use specsmither.Dag.Cascade.Check.{deps_done, is_empty-filter-not}
use specsmither.Dag.Cascade.{find_dependencies, is_empty, has_status}
use specsmither.Base.{
  if◌then◌else◌, Bool-cases, is_some, All, ℕ, suc, String, ◌≡◌, refl, sym, ap, ◌∙◌, inl, inr, true,
  false, not, some, List, [], ◌∷◌, map,
}
use mathlib.Core.Option
use mathlib.Core.Option.{some-injective}
use specsmither.Base.Dict.{Dict, get, get_or}
use specsmither.Dag.Types.{DepEdge}

is_some-reason_for :
    (bs : List String) (titles : Dict String) → is_some (reason_for bs titles) ≡ not (is_empty bs)
unfolding reason_for is_empty
is_some-reason_for [] titles = refl
is_some-reason_for (b ∷ bs) titles = refl

is_empty-blockers_of :
    (states : Dict String) (edges : List DepEdge) (t : String)
    → is_empty (blockers_of states edges t) ≡ deps_done states edges t
unfolding blockers_of deps_done
is_empty-blockers_of states edges t =
    is_empty-filter-not (λ d. has_status states d "done") (find_dependencies edges t)
    ∙ all-find_dependencies (λ d. has_status states d "done") t edges

abbrev pub IsConsistent : TicketRow → Type 0
IsConsistent r =
    (is_some r.block_reason ≡ (r.status == "pending"))
    × (r.progress ≡ (if r.status == "done" then 100 else 0))

with_status-IsConsistent :
    (states : Dict String) (edges : List DepEdge) (titles : Dict String) (s : String)
    (r : TicketRow)
    → ((s == "pending") ≡ true → deps_done states edges r.id ≡ false)
    → IsConsistent (with_status states edges titles s r)
unfolding with_status
with_status-IsConsistent states edges titles s r h = elim (Bool-cases (s == "pending")) [
  | inl e ↦ (
    rw e (
        is_some-reason_for (blockers_of states edges r.id) titles ∙ rw (is_empty-blockers_of, h e)),
    refl,
  )
  | inr e ↦ (rw e, refl)
]

-- After a recompute a ticket has a block reason exactly if it is `pending`, and its progress is 100
-- if it is `done` and 0 otherwise.
pub recompute_statuses-IsConsistent :
    (fuel : ℕ) (tickets rows : List TicketRow) (edges : List DepEdge)
    → recompute_statuses (suc (suc fuel)) tickets edges ≡ some rows
    → All IsConsistent rows
unfolding recompute_statuses
recompute_statuses-IsConsistent fuel tickets rows edges h =
    let (states, ends, all_derived) = cascade_to_fixpoint_total fuel tickets edges in
    let made : rows_from tickets edges states ≡ rows =
      some-injective _ _ (sym (ap (Option.map (rows_from tickets edges)) ends) ∙ h) in
    subst (All IsConsistent) made (
      over states (λ t. (cascade_to_fixpoint-IsSettled fuel tickets edges states ends t).0) tickets
        (All-statuses tickets edges states all_derived))
  where
    over :
        (states : Dict String)
        → ((t : String) → IsSettled states edges t)
        → (rs : List TicketRow) → All (λ r. get states r.id ≡ some (get_or states r.id r.status)) rs
        → All IsConsistent (map (apply_status states edges (titles_from [] tickets)) rs)
    over states settled [] k = tt
    over states settled (r ∷ rs) k = (
      unfold apply_status in
          with_status-IsConsistent states edges (titles_from [] tickets)
            (get_or states r.id r.status) r (λ p. (settled r.id).1 (unfold has_status in rw k.0 p)),
      over states settled rs k.1,
    )
