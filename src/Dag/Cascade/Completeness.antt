-- ===== src/Dag/Cascade/Completeness.antt =====
-- One hop is enough: after a change of one ticket or of its edges, the proposed transitions make
-- every recalculable ticket agree with its dependencies again.
use specsmither.Base.Text.{◌==◌}
use specsmither.Dag.Cascade.Transitions.{targets, depends_on}
use specsmither.Dag.Cascade.Check.{deps_done}
use specsmither.Dag.Cascade.{CascadeTransition, has_status}
use specsmither.Base.Sets.{mem}
use specsmither.Base.{
  if◌then◌else◌, Option-cases, all, any, All, String, ◌≡◌, refl, ap, inl, inr, true, false, List,
  [], ◌∷◌, arith, eq_iff,
}
use specsmither.Base.Dict.{Dict, get, put, get-put}
use specsmither.Dag.Types.{DepEdge}

-- A caller carries the transitions out in turn.
unfoldable pub apply : Dict String → List CascadeTransition → Dict String
apply states [] = states
apply states (t ∷ ts) = apply (put states t.ticket_id t.to_status) ts

-- A `ready` ticket has all dependencies done, and a `pending` one has not.
abbrev pub IsSettled : Dict String → List DepEdge → String → Type 0
IsSettled states edges t =
    (has_status states t "ready" ≡ true → deps_done states edges t ≡ true)
    × (has_status states t "pending" ≡ true → deps_done states edges t ≡ false)

pub has_status-put :
    (states : Dict String) (x v t s : String)
    → has_status (put states x v) t s ≡ (if x == t then v == s else has_status states t s)
unfolding has_status
has_status-put states x v t s = ground (arith, get-put states x t v)

pub has_status_unique :
    (states : Dict String) (t r s : String)
    → has_status states t r ≡ true
    → has_status states t s ≡ (r == s)
unfolding has_status
has_status_unique states t r s h = elim (Option-cases (get states t)) [
  | inl e ↦ ground arith
  | inr (v, e) ↦ let same : v ≡ r = (eq_iff v r).0 (ground arith) in ground arith
]

-- Carrying out transitions that all lead to `s` sets `s` at their targets and nothing else.
pub has_status-apply :
    (states : Dict String) (s : String) (ts : List CascadeTransition) (t r : String)
    → All (λ u. u.to_status ≡ s) ts
    → has_status (apply states ts) t r
      ≡ (if mem t (targets ts) then s == r else has_status states t r)
unfolding apply mem
has_status-apply states s [] t r h = refl
has_status-apply states s (u ∷ ts) t r h = ground (
  arith,
  has_status-apply (put states u.ticket_id u.to_status) s ts t r,
  has_status-put states u.ticket_id u.to_status t r,
)

pub deps_done-same :
    (a b : Dict String) (edges : List DepEdge) (t : String)
    → ((d : String) → has_status a d "done" ≡ has_status b d "done")
    → deps_done a edges t ≡ deps_done b edges t
unfolding deps_done all
deps_done-same a b [] t h = refl
deps_done-same a b (e ∷ edges) t h = ground (arith, deps_done-same a b edges t h, h e.depends_on_id)

pub deps_done-put_done :
    (states : Dict String) (x : String) (edges : List DepEdge) (t : String)
    → deps_done states edges t ≡ true
    → deps_done (put states x "done") edges t ≡ true
unfolding deps_done all
deps_done-put_done states x [] t h = refl
deps_done-put_done states x (e ∷ edges) t h = ground (
  arith,
  deps_done-put_done states x edges t,
  has_status-put states x "done" e.depends_on_id "done",
)

pub deps_done-put_other :
    (states : Dict String) (x v : String) (edges : List DepEdge) (t : String)
    → depends_on edges t x ≡ false
    → deps_done (put states x v) edges t ≡ deps_done states edges t
unfolding deps_done all any
deps_done-put_other states x v [] t h = refl
deps_done-put_other states x v (e ∷ edges) t h = ground (
  arith,
  deps_done-put_other states x v edges t,
  has_status-put states x v e.depends_on_id "done",
  eq_iff x e.depends_on_id,
  eq_iff e.depends_on_id x,
)

pub deps_done-put_undone :
    (states : Dict String) (x v : String) (edges : List DepEdge) (t : String)
    → (v == "done") ≡ false
    → deps_done states edges t ≡ false
    → deps_done (put states x v) edges t ≡ false
unfolding deps_done all
deps_done-put_undone states x v [] t k h = cc
deps_done-put_undone states x v (e ∷ edges) t k h = ground (
  arith,
  deps_done-put_undone states x v edges t,
  has_status-put states x v e.depends_on_id "done",
)

pub not-deps_done :
    (states : Dict String) (x : String) (edges : List DepEdge) (t : String)
    → depends_on edges t x ≡ true
    → has_status states x "done" ≡ false
    → deps_done states edges t ≡ false
unfolding deps_done all any
not-deps_done states x [] t h k = cc
not-deps_done states x (e ∷ edges) t h k = ground (
  arith,
  not-deps_done states x edges t,
  eq_iff e.depends_on_id x,
  ap (λ d. has_status states d "done"),
)
