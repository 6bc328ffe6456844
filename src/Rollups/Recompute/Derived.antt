-- ===== src/Rollups/Recompute/Derived.antt =====
-- What one turn of the cascade derives, and that it depends only on which tickets are done.
use mathlib.Core.Path.{ap₂}
use specsmither.Base.Text.{◌==◌}
use specsmither.Rollups.Recompute.{visit, new_status, visit_status}
use specsmither.Dag.Cascade.Scans.{all-find_dependencies}
use specsmither.Dag.Cascade.Check.{deps_done}
use specsmither.Dag.Cascade.{find_dependencies, has_status, is_status}
use specsmither.Dag.StatusCalculator.{should_recalculate, calculate_ticket_status}
use specsmither.Base.{
  if◌then◌else◌, all, String, ◌≡◌, refl, Bool, Option, none, some, List, [], ◌∷◌, map, arith, ◌∙◌,
  ◌&&◌, ap, eq_iff,
}
use specsmither.Base.Dict.{Dict, get, get_or, get-put, or_else}
use specsmither.Dag.Types.{DepEdge}

get_or-done :
    (states : Dict String) (d : String)
    → (get_or states d "" == "done") ≡ has_status states d "done"
unfolding has_status get_or
get_or-done states d = at (get states d)
  where
    at : (o : Option String) → (or_else o "" == "done") ≡ is_status o "done"
    at none = refl
    at (some s) = refl

all-map_lookup :
    (states : Dict String) (ids : List String)
    → all (λ s. s == "done") (map (λ d. get_or states d "") ids)
      ≡ all (λ d. has_status states d "done") ids
unfolding all
all-map_lookup states [] = refl
all-map_lookup states (d ∷ ids) = ap₂ ◌&&◌ (get_or-done states d) (all-map_lookup states ids)

-- The status that a ticket has by its dependencies: an owned status stays.
unfoldable pub derived : Dict String → List DepEdge → String → Option String → Option String
derived states edges t none = none
derived states edges t (some c) =
    some (
      if should_recalculate c then (if deps_done states edges t then "ready" else "pending") else c)

unfoldable pub derive : Dict String → List DepEdge → String → Option String
unfolding derived
derive states edges t = derived states edges t (get states t)

all_dependencies-deps_done :
    (states : Dict String) (edges : List DepEdge) (t : String)
    → all (λ s. s == "done") (map (λ d. get_or states d "") (find_dependencies edges t))
      ≡ deps_done states edges t
unfolding deps_done
all_dependencies-deps_done states edges t =
    all-map_lookup states (find_dependencies edges t)
    ∙ all-find_dependencies (λ d. has_status states d "done") t edges

new_status-deps_done :
    (edges : List DepEdge) (states : Dict String) (t c : String)
    → new_status edges states t c ≡ (
        if should_recalculate c
        then (if deps_done states edges t then "ready" else "pending")
        else c)
unfolding new_status calculate_ticket_status
new_status-deps_done edges states t c = ground (arith, all_dependencies-deps_done states edges t)

get-visit_status :
    (edges : List DepEdge) (states : Dict String) (changed : Bool) (tid t : String)
    (o : Option String)
    → get states tid ≡ o
    → get (visit_status edges (states, changed) tid o).0 t
      ≡ (if tid == t then derived states edges tid o else get states t)
unfolding visit_status derived
get-visit_status edges states changed tid t none h =
    ground (arith, eq_iff tid t, ap (get states) {x = tid} {y = t})
get-visit_status edges states changed tid t (some c) h = ground (
  arith,
  eq_iff tid t,
  ap (get states) {x = tid} {y = t},
  new_status-deps_done edges states tid c,
  get-put states tid t (new_status edges states tid c),
  eq_iff (new_status edges states tid c) c,
)

-- One turn writes the derived status of its ticket, and no other.
pub get-visit :
    (edges : List DepEdge) (states : Dict String) (changed : Bool) (tid t : String)
    → get (visit edges (states, changed) tid).0 t
      ≡ (if tid == t then derive states edges tid else get states t)
unfolding visit derive
get-visit edges states changed tid t =
    get-visit_status edges states changed tid t (get states tid) refl

-- A turn on a ticket that has its derived status changes nothing.
visit_status_settled :
    (edges : List DepEdge) (states : Dict String) (changed : Bool) (tid : String)
    (o : Option String)
    → derived states edges tid o ≡ o
    → visit_status edges (states, changed) tid o ≡ (states, changed)
unfolding visit_status derived
visit_status_settled edges states changed tid none h = refl
visit_status_settled edges states changed tid (some c) h =
    ground
      (arith, new_status-deps_done edges states tid c, eq_iff (new_status edges states tid c) c)

pub visit_settled :
    (edges : List DepEdge) (states : Dict String) (changed : Bool) (tid : String)
    → derive states edges tid ≡ get states tid
    → visit edges (states, changed) tid ≡ (states, changed)
unfolding visit derive
visit_settled edges states changed tid h =
    visit_status_settled edges states changed tid (get states tid) h
