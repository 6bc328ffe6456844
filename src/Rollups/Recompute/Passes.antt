-- ===== src/Rollups/Recompute/Passes.antt =====
-- A round of the cascade gives every ticket its derived status.
use specsmither.Base.Text.{◌==◌}
use specsmither.Rollups.Recompute.Derived.{derived, derive, get-visit, visit_settled}
use specsmither.Rollups.Recompute.{visit, cascade_pass}
use specsmither.Dag.Cascade.Completeness.{deps_done-same}
use specsmither.Dag.Cascade.Check.{deps_done}
use specsmither.Dag.Cascade.{has_status, is_status}
use specsmither.Dag.StatusCalculator.{should_recalculate}
use specsmither.Base.Sets.{mem}
use specsmither.Base.{
  if◌then◌else◌, Bool-cases, String, ◌≡◌, refl, ap, ◌⊎◌, inl, inr, Bool, Option, none, some, List,
  [], ◌∷◌, arith, eq_iff, ◌∙◌, true, false,
}
use specsmither.Base.Dict.{Dict, get}
use specsmither.Dag.Types.{DepEdge}

-- Each ticket has the status that it had at first, or the one derived from the first statuses.
abbrev pub IsPartial : List DepEdge → Dict String → Dict String → Type 0
IsPartial edges init states =
    (t : String) → (get states t ≡ get init t) ⊎ (get states t ≡ derive init edges t)

recalculable-not_done : (c : String) → should_recalculate c ≡ true → (c == "done") ≡ false
unfolding should_recalculate
recalculable-not_done c h = ground (
  arith,
  eq_iff c "pending",
  eq_iff c "ready",
  ap (λ s. s == "done") {x = c} {y = "pending"},
  ap (λ s. s == "done") {x = c} {y = "ready"},
)

pub ready_or_pending : (b : Bool) → ((if b then "ready" else "pending") == "done") ≡ false
ready_or_pending true = refl
ready_or_pending false = refl

-- The derived status is `done` just if the status is.
derived-done :
    (init : Dict String) (edges : List DepEdge) (t : String) (o : Option String)
    → is_status (derived init edges t o) "done" ≡ is_status o "done"
unfolding derived
derived-done init edges t none = refl
derived-done init edges t (some c) = elim (Bool-cases (should_recalculate c)) [
  | inl e ↦ rw (e, recalculable-not_done c e) (ready_or_pending (deps_done init edges t))
  | inr e ↦ rw e
]

pub partial-done :
    (edges : List DepEdge) (init states : Dict String)
    → IsPartial edges init states
    → (t : String) → has_status states t "done" ≡ has_status init t "done"
unfolding has_status derive
partial-done edges init states p t = elim (p t) [
  | inl same ↦ ap (λ o. is_status o "done") same
  | inr new ↦ ap (λ o. is_status o "done") new ∙ derived-done init edges t (get init t)
]

derived_twice :
    (a b : Dict String) (edges : List DepEdge) (t : String) (o : Option String)
    → deps_done a edges t ≡ deps_done b edges t
    → (derived a edges t o ≡ derived b edges t o)
      × (derived a edges t (derived b edges t o) ≡ derived b edges t o)
unfolding derived should_recalculate
derived_twice a b edges t none h = (refl, refl)
derived_twice a b edges t (some c) h =
    (ground arith, ground (arith, eq_iff c "pending", eq_iff c "ready"))

-- What is derived does not change during the cascade.
pub derive-partial :
    (edges : List DepEdge) (init states : Dict String)
    → IsPartial edges init states
    → (t : String) → derive states edges t ≡ derive init edges t
unfolding derive
derive-partial edges init states p t =
    let same = deps_done-same states init edges t (partial-done edges init states p) in
    elim (p t) [
      | inl old ↦ rw old ((derived_twice states init edges t (get init t) same).0)
      | inr new ↦ rw new ((derived_twice states init edges t (get init t) same).1)
    ]

visit-IsPartial :
    (edges : List DepEdge) (init states : Dict String) (changed : Bool) (tid : String)
    → IsPartial edges init states
    → IsPartial edges init (visit edges (states, changed) tid).0
visit-IsPartial edges init states changed tid p t = elim (Bool-cases (tid == t)) [
  | inl same ↦ inr (
      rw get-visit (
        rw same (
          rw (derive-partial edges init states p)
            (ap (derive init edges) ((eq_iff tid t).0 same)))))
  | inr other ↦ rw get-visit (rw other (p t))
]

-- A round gives each of its tickets the derived status, and leaves the others.
pub get-cascade_pass :
    (edges : List DepEdge) (init states : Dict String) (changed : Bool) (ids : List String)
    → IsPartial edges init states
    → (t : String)
    → get (cascade_pass edges ids (states, changed)).0 t
      ≡ (if mem t ids then derive init edges t else get states t)
unfolding cascade_pass mem
get-cascade_pass edges init states changed [] p t = refl
get-cascade_pass edges init states changed (tid ∷ ids) p t =
    let (next, flag) = visit edges (states, changed) tid in
    ground (
      arith,
      get-cascade_pass edges init next flag ids (visit-IsPartial edges init states changed tid p) t,
      get-visit edges states changed tid t,
      eq_iff tid t,
      derive-partial edges init states p t,
      ap (derive states edges) {x = tid} {y = t},
    )

-- A round over tickets that have their derived statuses changes nothing.
pub cascade_pass_settled :
    (edges : List DepEdge) (states : Dict String) (changed : Bool) (ids : List String)
    → ((t : String) → derive states edges t ≡ get states t)
    → cascade_pass edges ids (states, changed) ≡ (states, changed)
unfolding cascade_pass
cascade_pass_settled edges states changed [] h = refl
cascade_pass_settled edges states changed (tid ∷ ids) h =
    rw (visit_settled edges states changed tid (h tid))
      (cascade_pass_settled edges states changed ids h)
