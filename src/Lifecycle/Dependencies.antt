-- ===== src/Lifecycle/Dependencies.antt =====
-- lifecycle/prechecks/dependencies_batch.py: a `create_dependencies` batch is cleared of duplicates and
-- of edges that close a cycle. The adjacency dict is read as the successors of a node among the edges.
pub mod Search
pub mod Trails
pub mod Batch
pub mod Paths
pub mod Dedup
mod Examples
use specsmither.Lifecycle.Prechecks.{PrecheckResult, accepted, denied}
use specsmither.Base.Text.{◌==◌}
use specsmither.Lifecycle.System.Effects.{kept}
use specsmither.Base.Decimal.{concat}
use specsmither.Base.Sets.{mem}
use specsmither.Base.{
  if◌then◌else◌, and_then, length, ℕ, zero, suc, ◌+◌, String, Bool, true, false, not, ◌&&◌, Option,
  none, some, List, [], ◌∷◌, ◌++◌, map,
}

pub record SpecDependencyEdge : Type 0 where
  pub from_ticket_id : String
  pub to_ticket_id : String

pub record DetectedCycle : Type 0 where
  pub new_edge : SpecDependencyEdge
  pub cycle_path : List SpecDependencyEdge

pub data BatchValidationResult : Type 0 where
  batch_ok :
      List SpecDependencyEdge
      → List SpecDependencyEdge
      → List SpecDependencyEdge
      → BatchValidationResult
  batch_cycle :
      List DetectedCycle → List SpecDependencyEdge → List SpecDependencyEdge → BatchValidationResult

unfoldable pub edge_key : SpecDependencyEdge → String
unfolding concat
edge_key e = concat (e.from_ticket_id ∷ " " ∷ e.to_ticket_id ∷ [])

-- `adjacency.get(node, [])`
unfoldable pub successors : List SpecDependencyEdge → String → List String
successors [] node = []
successors (e ∷ edges) node =
    let rest = successors edges node in
    if e.from_ticket_id == node then e.to_ticket_id ∷ rest else rest

-- A stack entry: a node, and the edges that led to it.
abbrev pub Entry : Type 0
Entry = String × List SpecDependencyEdge

-- The pushes for the successors of `node`; the top of the stack is the head of the list.
unfoldable pub push_all : String → List SpecDependencyEdge → List String → List Entry → List Entry
push_all node trail [] stack = stack
push_all node trail (nxt ∷ ns) stack =
    push_all node trail ns
      ((nxt, trail ++ record { from_ticket_id = node; to_ticket_id = nxt } ∷ []) ∷ stack)

unfoldable pub is_empty {ℓ} : {A : Type ℓ} → List A → Bool
is_empty [] = true
is_empty (_ ∷ _) = false

-- The `while stack` loop; `none` means that the fuel ran out, `some none` is the source's None.
unfoldable pub search_from :
    ℕ
    → List SpecDependencyEdge
    → String
    → List Entry
    → List String
    → Option (Option (List SpecDependencyEdge))
unfolding push_all successors is_empty mem
search_from zero edges goal stack visited = none
search_from (suc fuel) edges goal [] visited = some none
search_from (suc fuel) edges goal ((node, trail) ∷ stack) visited =
    let skip = search_from fuel edges goal stack visited in
    let expand =
      search_from fuel edges goal (push_all node trail (successors edges node) stack)
        (node ∷ visited) in
    if node == goal && not (is_empty trail)
    then some (some trail)
    else if mem node visited
    then skip
    else expand

unfoldable pub find_path :
    ℕ → String → String → List SpecDependencyEdge → Option (Option (List SpecDependencyEdge))
unfolding search_from
find_path fuel origin goal edges = search_from fuel edges goal ((origin, []) ∷ []) []

-- The intra-batch loop: what is left, and what is dropped.
unfoldable pub dedup_intra :
    List String → List SpecDependencyEdge → List SpecDependencyEdge × List SpecDependencyEdge
unfolding edge_key mem
dedup_intra seen [] = ([], [])
dedup_intra seen (e ∷ edges) =
    let dropped = dedup_intra seen edges in
    let kept = dedup_intra (edge_key e ∷ seen) edges in
    if mem (edge_key e) seen then (dropped.0, e ∷ dropped.1) else (e ∷ kept.0, kept.1)

-- The loop against the persisted keys.
unfoldable pub dedup_persisted :
    List String → List SpecDependencyEdge → List SpecDependencyEdge × List SpecDependencyEdge
unfolding edge_key mem
dedup_persisted existing [] = ([], [])
dedup_persisted existing (e ∷ edges) =
    let rest = dedup_persisted existing edges in
    if mem (edge_key e) existing then (rest.0, e ∷ rest.1) else (e ∷ rest.0, rest.1)

-- What the last loop has gathered: the edges of the graph so far, the cycles, and the survivors.
pub record Progress : Type 0 where
  pub graph : List SpecDependencyEdge
  pub cycles : List DetectedCycle
  pub to_persist : List SpecDependencyEdge

-- One round, after its `_find_path`.
unfoldable pub settle : Progress → SpecDependencyEdge → Option (List SpecDependencyEdge) → Progress
settle p e (some back) = record p {
  cycles = p.cycles ++ record { new_edge = e; cycle_path = e ∷ back } ∷ [];
}
settle p e none = record p { graph = p.graph ++ e ∷ []; to_persist = p.to_persist ++ e ∷ [] }

-- The fuel of each search is the number of edges of the graph so far, and two.
unfoldable pub check_cycles : Progress → List SpecDependencyEdge → Option Progress
unfolding find_path settle
check_cycles p [] = some p
check_cycles p (e ∷ edges) =
    and_then (find_path (length p.graph + 2) e.to_ticket_id e.from_ticket_id p.graph)
      (λ back. check_cycles (settle p e back) edges)

unfoldable pub batch_result :
    List SpecDependencyEdge → List SpecDependencyEdge → Progress → BatchValidationResult
unfolding is_empty
batch_result dropped_intra dropped_persisted p =
    if is_empty p.cycles
    then batch_ok p.to_persist dropped_intra dropped_persisted
    else batch_cycle p.cycles dropped_intra dropped_persisted

unfoldable pub run_dependencies_batch :
    List SpecDependencyEdge → List SpecDependencyEdge → Option BatchValidationResult
unfolding dedup_intra dedup_persisted check_cycles batch_result
run_dependencies_batch incoming existing =
    let intra = dedup_intra [] incoming in
    let candidates = dedup_persisted (map edge_key existing) intra.0 in
    and_then (check_cycles (record { graph = existing; cycles = []; to_persist = [] }) candidates.0)
      (λ p. some (batch_result intra.1 candidates.1 p))

unfoldable pub batch_verdict : BatchValidationResult → PrecheckResult
unfolding is_empty
batch_verdict (batch_cycle cycles _ _) = denied "cycle_detected"
batch_verdict (batch_ok to_persist _ _) =
    if is_empty to_persist then denied "batch_fully_deduped" else accepted false false

unfoldable pub validate_dependencies_batch :
    List SpecDependencyEdge → List SpecDependencyEdge → Option PrecheckResult
unfolding run_dependencies_batch batch_verdict
validate_dependencies_batch incoming existing =
    and_then (run_dependencies_batch incoming existing) (λ r. some (batch_verdict r))
