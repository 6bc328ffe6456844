-- ===== src/Dag/Cascade/Firsts.antt =====
-- `find_dependencies` against its description: the blocker ends of the ticket's edges, in their order, each once.
use specsmither.Base.{
  if◌then◌else◌, filter, String, ◌≡◌, refl, ap, ◌∙◌, true, not, List, [], ◌∷◌, arith, eq_iff,
}
use specsmither.Base.Sets.{mem}
use specsmither.Base.Text.{◌==◌}
use specsmither.Dag.Types.{DepEdge}
use specsmither.Dag.Cascade.{scan_dependencies, find_dependencies}

-- Each text where it stands first.
unfoldable pub firsts : List String → List String
unfolding filter
firsts [] = []
firsts (x ∷ xs) = x ∷ filter (λ y. not (x == y)) (firsts xs)

-- The blocker ends of the edges of a ticket, in the order of the edges.
unfoldable pub blocker_ends : String → List DepEdge → List String
blocker_ends ticket_id [] = []
blocker_ends ticket_id (e ∷ edges) =
    let rest = blocker_ends ticket_id edges in
    if e.ticket_id == ticket_id then e.depends_on_id ∷ rest else rest

filter-unseen :
    (x : String) (seen ys : List String)
    → filter (λ y. not (mem y (x ∷ seen))) ys
      ≡ filter (λ y. not (mem y seen)) (filter (λ y. not (x == y)) ys)
unfolding filter mem
filter-unseen x seen [] = refl
filter-unseen x seen (y ∷ ys) = ground (arith, filter-unseen x seen ys)

filter-seen :
    (x : String) (seen ys : List String)
    → mem x seen ≡ true
    → filter (λ y. not (mem y seen)) (filter (λ y. not (x == y)) ys)
      ≡ filter (λ y. not (mem y seen)) ys
unfolding filter
filter-seen x seen [] h = refl
filter-seen x seen (y ∷ ys) h =
    ground (arith, filter-seen x seen ys h, eq_iff x y, ap (λ k. mem k seen) {x = x} {y = y}, h)

filter-all : (ys : List String) → filter (λ y. not (mem y [])) ys ≡ ys
unfolding filter mem
filter-all [] = refl
filter-all (y ∷ ys) = ap (y ∷◌) (filter-all ys)

scan_dependencies-firsts :
    (ticket_id : String) (edges : List DepEdge) (seen : List String)
    → scan_dependencies ticket_id edges seen
      ≡ filter (λ y. not (mem y seen)) (firsts (blocker_ends ticket_id edges))
unfolding scan_dependencies firsts blocker_ends filter
scan_dependencies-firsts ticket_id [] seen = refl
scan_dependencies-firsts ticket_id (e ∷ edges) seen =
    let x = e.depends_on_id in
    let ends = firsts (blocker_ends ticket_id edges) in
    ground (
      arith,
      scan_dependencies-firsts ticket_id edges seen,
      scan_dependencies-firsts ticket_id edges (x ∷ seen),
      filter-unseen x seen ends,
      filter-seen x seen ends,
    )

pub find_dependencies-firsts :
    (edges : List DepEdge) (ticket_id : String)
    → find_dependencies edges ticket_id ≡ firsts (blocker_ends ticket_id edges)
unfolding find_dependencies
find_dependencies-firsts edges ticket_id =
    scan_dependencies-firsts ticket_id edges [] ∙ filter-all (firsts (blocker_ends ticket_id edges))
