-- ===== src/Rollups/Counts/Dependencies.antt =====
-- The counters of `derive_dependency_counts` are the numbers of edges at each id.
use specsmither.Base.Text.{◌==◌}
use specsmither.Rollups.Counts.{
  bump, bump_epic, DependencyCountResult, epic_of, counts_from, derive_dependency_counts,
}
use specsmither.Dag.Types.{DepEdge}
use specsmither.Base.Dict.{Dict, or_else, get_or, get-put, get}
use specsmither.Base.{
  if◌then◌else◌, ℕ, ◌+◌, String, ◌≡◌, ap, ◌∙◌, Bool, false, ◌&&◌, Option, none, some, List, [], ◌∷◌,
  arith, eq_iff,
}

-- The number of edges that pass a test.
unfoldable pub count_edges : (DepEdge → Bool) → List DepEdge → ℕ
count_edges test [] = 0
count_edges test (e ∷ edges) = (if test e then 1 else 0) + count_edges test edges

-- Both ends of an edge lie in the epic.
unfoldable pub is_within : Option String → Option String → String → Bool
is_within none _ k = false
is_within (some a) none k = false
is_within (some a) (some b) k = a == k && b == k

get_or-bump :
    (counter : Dict ℕ) (key k : String)
    → get_or (bump counter key) k 0 ≡ (if key == k then 1 else 0) + get_or counter k 0
unfolding bump get_or
get_or-bump counter key k =
    ap (λ o. or_else o 0) (get-put counter key k (get_or counter key 0 + 1))
    ∙ ground (arith, eq_iff key k, ap (λ j. get_or counter j 0) {x = key} {y = k})

get_or-bump_epic :
    (counter : Dict ℕ) (a b : Option String) (k : String)
    → get_or (bump_epic counter a b) k 0 ≡ (if is_within a b k then 1 else 0) + get_or counter k 0
unfolding bump_epic is_within
get_or-bump_epic counter none b k = omega arith
get_or-bump_epic counter (some a) none k = omega arith
get_or-bump_epic counter (some a) (some b) k =
    ground (arith, get_or-bump counter a k, eq_iff a b, eq_iff a k, eq_iff b k)

module _ (ticket_epic : Dict (Option String)) (k : String) where
  -- The edge lies in the epic `k`.
  unfoldable pub within_epic : DepEdge → Bool
  within_epic e =
      is_within (epic_of ticket_epic e.ticket_id) (epic_of ticket_epic e.depends_on_id) k

  -- The four counters after more edges.
  counts_from-counted :
      (counts : DependencyCountResult) (edges : List DepEdge)
      → (get_or (DependencyCountResult.ticket_outgoing (counts_from ticket_epic counts edges)) k 0
          ≡ get_or counts.ticket_outgoing k 0 + count_edges (λ e. e.ticket_id == k) edges)
        × (get_or (DependencyCountResult.ticket_incoming (counts_from ticket_epic counts edges)) k 0
            ≡ get_or counts.ticket_incoming k 0 + count_edges (λ e. e.depends_on_id == k) edges)
        × (get_or (DependencyCountResult.epic (counts_from ticket_epic counts edges)) k 0
            ≡ get_or counts.epic k 0 + count_edges within_epic edges)
  unfolding counts_from count_edges within_epic
  counts_from-counted counts [] = (omega arith, omega arith, omega arith)
  counts_from-counted counts (e ∷ edges) =
      let grown : DependencyCountResult = record {
        ticket_outgoing = bump counts.ticket_outgoing e.ticket_id;
        ticket_incoming = bump counts.ticket_incoming e.depends_on_id;
        specification = counts.specification + 1;
        epic =
            bump_epic counts.epic (epic_of ticket_epic e.ticket_id)
              (epic_of ticket_epic e.depends_on_id);
      } in
      let (outgoing, incoming, epics) = counts_from-counted grown edges in
      let one = get_or-bump counts.ticket_outgoing e.ticket_id k in
      let two = get_or-bump counts.ticket_incoming e.depends_on_id k in
      let three =
        get_or-bump_epic counts.epic (epic_of ticket_epic e.ticket_id)
          (epic_of ticket_epic e.depends_on_id) k in
      (omega arith, omega arith, omega arith)

  -- For each id `k`, the outgoing counter is the number of edges whose dependent is `k`, the incoming one
  -- the number of edges whose blocker is `k`, and the epic counter the number of edges with both ends in
  -- the epic `k`.
  pub derive_dependency_counts-counted :
      (edges : List DepEdge)
      → (get_or
            (DependencyCountResult.ticket_outgoing (derive_dependency_counts edges ticket_epic))
            k
            0
          ≡ count_edges (λ e. e.ticket_id == k) edges)
        × (get_or
              (DependencyCountResult.ticket_incoming (derive_dependency_counts edges ticket_epic))
              k
              0
            ≡ count_edges (λ e. e.depends_on_id == k) edges)
        × (get_or (DependencyCountResult.epic (derive_dependency_counts edges ticket_epic)) k 0
            ≡ count_edges within_epic edges)
  unfolding derive_dependency_counts get_or get
  derive_dependency_counts-counted edges =
      let (outgoing, incoming, epics) =
        counts_from-counted
          (record { ticket_incoming = []; ticket_outgoing = []; specification = 0; epic = [] })
          edges in
      (omega arith, omega arith, omega arith)
