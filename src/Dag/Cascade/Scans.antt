-- ===== src/Dag/Cascade/Scans.antt =====
-- `find_dependents` and `find_dependencies`: what they list, and that they list it once.
use specsmither.Base.Text.{◌==◌}
use specsmither.Base.{
  all, any, String, ◌≡◌, refl, Bool, true, false, not, ◌&&◌, ◌||◌, List, [], ◌∷◌, arith, eq_iff,
}
use specsmither.Base.Sets.{mem, IsDistinct, mem-cons_self, all-mem}
use specsmither.Dag.Types.{DepEdge}
use specsmither.Dag.Cascade.{scan_dependents, scan_dependencies, find_dependents, find_dependencies}

mem-scan_dependents :
    (a x : String) (edges : List DepEdge) (seen : List String)
    → (mem a (scan_dependents x edges seen) || mem a seen)
      ≡ (any (λ e. e.depends_on_id == x && e.ticket_id == a) edges || mem a seen)
unfolding scan_dependents mem any
mem-scan_dependents a x [] seen = refl
mem-scan_dependents a x (e ∷ edges) seen = ground (
  arith,
  mem-scan_dependents a x edges seen,
  mem-scan_dependents a x edges (e.ticket_id ∷ seen),
  eq_iff e.ticket_id a,
)

-- The tickets listed are exactly those with an edge to `x`.
pub mem-find_dependents :
    (a x : String) (edges : List DepEdge)
    → mem a (find_dependents edges x) ≡ any (λ e. e.depends_on_id == x && e.ticket_id == a) edges
unfolding find_dependents mem
mem-find_dependents a x edges = ground (arith, mem-scan_dependents a x edges [])

mem-scan_dependencies :
    (a x : String) (edges : List DepEdge) (seen : List String)
    → (mem a (scan_dependencies x edges seen) || mem a seen)
      ≡ (any (λ e. e.ticket_id == x && e.depends_on_id == a) edges || mem a seen)
unfolding scan_dependencies mem any
mem-scan_dependencies a x [] seen = refl
mem-scan_dependencies a x (e ∷ edges) seen = ground (
  arith,
  mem-scan_dependencies a x edges seen,
  mem-scan_dependencies a x edges (e.depends_on_id ∷ seen),
  eq_iff e.depends_on_id a,
)

pub mem-find_dependencies :
    (a x : String) (edges : List DepEdge)
    → mem a (find_dependencies edges x) ≡ any (λ e. e.ticket_id == x && e.depends_on_id == a) edges
unfolding find_dependencies mem
mem-find_dependencies a x edges = ground (arith, mem-scan_dependencies a x edges [])

-- What is listed was not seen before.
scan_dependencies_unseen :
    (a x : String) (edges : List DepEdge) (seen : List String)
    → mem a seen ≡ true
    → mem a (scan_dependencies x edges seen) ≡ false
unfolding scan_dependencies mem
scan_dependencies_unseen a x [] seen h = refl
scan_dependencies_unseen a x (e ∷ edges) seen h = ground (
  arith,
  scan_dependencies_unseen a x edges seen,
  scan_dependencies_unseen a x edges (e.depends_on_id ∷ seen),
  eq_iff e.depends_on_id a,
)

scan_dependencies-IsDistinct :
    (x : String) (edges : List DepEdge) (seen : List String)
    → IsDistinct (scan_dependencies x edges seen)
unfolding scan_dependencies
scan_dependencies-IsDistinct x [] seen = tt
scan_dependencies-IsDistinct x (e ∷ edges) seen = ground (
  arith,
  scan_dependencies-IsDistinct x edges seen,
  scan_dependencies-IsDistinct x edges (e.depends_on_id ∷ seen),
  scan_dependencies_unseen e.depends_on_id x edges (e.depends_on_id ∷ seen),
  mem-cons_self e.depends_on_id seen,
)

pub find_dependencies-IsDistinct :
    (edges : List DepEdge) (x : String) → IsDistinct (find_dependencies edges x)
unfolding find_dependencies
find_dependencies-IsDistinct edges x = scan_dependencies-IsDistinct x edges []

-- A test of all dependencies is a test of all edges.
all-scan_dependencies :
    (p : String → Bool) (x : String) (edges : List DepEdge) (seen : List String)
    → all p seen ≡ true
    → all p (scan_dependencies x edges seen)
      ≡ all (λ e. not (e.ticket_id == x) || p e.depends_on_id) edges
unfolding scan_dependencies all
all-scan_dependencies p x [] seen h = refl
all-scan_dependencies p x (e ∷ edges) seen h = ground (
  arith,
  all-scan_dependencies p x edges seen,
  all-scan_dependencies p x edges (e.depends_on_id ∷ seen),
  all-mem p e.depends_on_id seen,
)

pub all-find_dependencies :
    (p : String → Bool) (x : String) (edges : List DepEdge)
    → all p (find_dependencies edges x)
      ≡ all (λ e. not (e.ticket_id == x) || p e.depends_on_id) edges
unfolding find_dependencies all
all-find_dependencies p x edges = all-scan_dependencies p x edges [] refl
