-- ===== src/Dag/Cascade/Settling.antt =====
-- One hop settles every ticket again, for each of the three changes that dag/cascade.py serves.
use specsmither.Dag.Cascade.Check.{deps_done, check_dependencies_completed_lem}
use specsmither.Base.Text.{◌==◌}
use specsmither.Dag.Cascade.Completeness.{
  apply, IsSettled, has_status-put, has_status_unique, has_status-apply, deps_done-same,
  deps_done-put_done, deps_done-put_other, deps_done-put_undone, not-deps_done,
}
use specsmither.Dag.Cascade.Transitions.{
  targets, cascade_on_completed_lem, cascade_on_uncompleted_lem,
}
use specsmither.Dag.Cascade.{
  CascadeTransition, has_status, promotion, demotion, cascade_on_completed, cascade_on_uncompleted,
  cascade_on_dependency_change,
}
use specsmither.Base.Sets.{mem}
use specsmither.Base.{
  if◌then◌else◌, All, String, ◌≡◌, ap, false, List, [], ◌∷◌, arith, eq_refl, not, ◌&&◌, eq_iff,
}
use specsmither.Base.Dict.{Dict, put}
use specsmither.Dag.Types.{DepEdge}

promotions-to_ready :
    (ts : List CascadeTransition)
    → All (λ u. u ≡ promotion u.ticket_id) ts
    → All (λ u. u.to_status ≡ "ready") ts
promotions-to_ready [] h = tt
promotions-to_ready (t ∷ ts) h =
    (ap (λ (u : CascadeTransition). u.to_status) h.0, promotions-to_ready ts h.1)

demotions-to_pending :
    (ts : List CascadeTransition)
    → All (λ u. u ≡ demotion u.ticket_id) ts
    → All (λ u. u.to_status ≡ "pending") ts
demotions-to_pending [] h = tt
demotions-to_pending (t ∷ ts) h =
    (ap (λ (u : CascadeTransition). u.to_status) h.0, demotions-to_pending ts h.1)

module _ (states : Dict String) (edges : List DepEdge) (x : String) where
  -- The statuses after `x` was completed, and after the cascade.
  abbrev completed : Dict String
  completed = put states x "done"

  abbrev cascaded : Dict String
  cascaded = apply completed (cascade_on_completed completed edges x)

  status-cascaded :
      (t r : String)
      → has_status cascaded t r ≡ (
          if mem t (targets (cascade_on_completed completed edges x))
          then "ready" == r
          else has_status completed t r)
  status-cascaded t r =
      has_status-apply completed "ready" (cascade_on_completed completed edges x) t r
        (promotions-to_ready _ (cascade_on_completed_lem completed edges x t).1)

  done-cascaded : (t : String) → has_status cascaded t "done" ≡ has_status completed t "done"
  done-cascaded t = ground (
    arith,
    status-cascaded t "done",
    (cascade_on_completed_lem completed edges x t).0,
    has_status_unique completed t "pending" "done",
  )

  -- After `x` is completed, the single-hop cascade leaves every ticket settled, if every ticket but
  -- `x` was settled before.
  pub cascade_on_completed-IsSettled :
      ((t : String) → (x == t) ≡ false → IsSettled states edges t)
      → (t : String) → IsSettled cascaded edges t
  cascade_on_completed-IsSettled before t = ground (
    arith,
    status-cascaded t "ready",
    status-cascaded t "pending",
    (cascade_on_completed_lem completed edges x t).0,
    has_status-put states x "done" t "ready",
    has_status-put states x "done" t "pending",
    before t,
    deps_done-same cascaded completed edges t done-cascaded,
    deps_done-put_done states x edges t,
    deps_done-put_other states x "done" edges t,
    has_status-put states x "done" x "done",
    eq_refl x,
  )

module _ (states : Dict String) (edges : List DepEdge) (x v : String)
    (undone : (v == "done") ≡ false) where
  -- The statuses after `x` went to the status `v`, which is not `done`, and after the cascade.
  abbrev reverted : Dict String
  reverted = put states x v

  abbrev demoted : Dict String
  demoted = apply reverted (cascade_on_uncompleted reverted edges x)

  status-demoted :
      (t r : String)
      → has_status demoted t r ≡ (
          if mem t (targets (cascade_on_uncompleted reverted edges x))
          then "pending" == r
          else has_status reverted t r)
  status-demoted t r =
      has_status-apply reverted "pending" (cascade_on_uncompleted reverted edges x) t r
        (demotions-to_pending _ (cascade_on_uncompleted_lem reverted edges x t).1)

  done-demoted : (t : String) → has_status demoted t "done" ≡ has_status reverted t "done"
  done-demoted t = ground (
    arith,
    status-demoted t "done",
    (cascade_on_uncompleted_lem reverted edges x t).0,
    has_status_unique reverted t "ready" "done",
  )

  -- After `x` leaves `done`, or goes from one other status to another, the single-hop cascade leaves
  -- every ticket but `x` settled, if every ticket but `x` was settled before.
  pub cascade_on_uncompleted-IsSettled :
      ((t : String) → (x == t) ≡ false → IsSettled states edges t)
      → (t : String) → (x == t) ≡ false
      → IsSettled demoted edges t
  cascade_on_uncompleted-IsSettled before t other = ground (
    arith,
    status-demoted t "ready",
    status-demoted t "pending",
    (cascade_on_uncompleted_lem reverted edges x t).0,
    has_status-put states x v t "ready",
    has_status-put states x v t "pending",
    before t,
    deps_done-same demoted reverted edges t done-demoted,
    deps_done-put_undone states x v edges t undone,
    deps_done-put_other states x v edges t,
    has_status-put states x v x "done",
    eq_refl x,
    not-deps_done reverted x edges t,
    undone,
  )

module _ (states : Dict String) (edges : List DepEdge) (x : String) where
  abbrev rederived : Dict String
  rederived = apply states (cascade_on_dependency_change states edges x)

  status-rederived :
      (t r : String)
      → has_status rederived t r ≡ (
          if x == t && has_status states x "pending" && deps_done states edges x
          then "ready" == r
          else if x == t && has_status states x "ready" && not (deps_done states edges x)
          then "pending" == r
          else has_status states t r)
  unfolding apply cascade_on_dependency_change
  status-rederived t r = ground (
    arith,
    (check_dependencies_completed_lem x states edges).0,
    has_status-put states x "ready" t r,
    has_status-put states x "pending" t r,
    has_status_unique states x "pending" "ready",
  )

  done-rederived : (t : String) → has_status rederived t "done" ≡ has_status states t "done"
  done-rederived t = ground (
    arith,
    status-rederived t "done",
    eq_iff x t,
    has_status_unique states x "pending" "done",
    has_status_unique states x "ready" "done",
    ap (λ d. has_status states d "done") {x = x} {y = t},
  )

  -- Whatever edges `x` has now, re-deriving it leaves `x` settled, and keeps every other ticket
  -- settled that was.
  pub cascade_on_dependency_change-IsSettled :
      IsSettled rederived edges x
      × ((t : String) → IsSettled states edges t → IsSettled rederived edges t)
  cascade_on_dependency_change-IsSettled = (
    ground (
      arith,
      status-rederived x "ready",
      status-rederived x "pending",
      eq_refl x,
      deps_done-same rederived states edges x done-rederived,
      has_status_unique states x "pending" "ready",
    ),
    λ t h. ground (
      arith,
      status-rederived t "ready",
      status-rederived t "pending",
      eq_iff x t,
      h,
      deps_done-same rederived states edges t done-rederived,
      ap (deps_done states edges) {x = x} {y = t},
    ),
  )
