-- ===== src/Dag/CriticalPath.antt =====
-- dag/critical_path.py, `compute_critical_path`: the longest path through the dependency graph by
-- weight, with memoised recursion. Recursion without end, on a cycle, is `none` at every fuel.
pub mod Longest
pub mod Chains
pub mod Selection
pub mod Overall
pub mod Optimal
mod Examples
use specsmither.Dag.StatusCalculator.{is_truthy}
use specsmither.Base.Sorting.{sorted, sorted_set}
use specsmither.Base.Text.{str_lt, ◌==◌}
use specsmither.Base.Sets.{mem}
use specsmither.Base.{
  ltb, leb, nat_eq, if◌then◌else◌, is_some, filter, ℕ, zero, suc, ◌+◌, ◌*◌, ◌/◌, String, Bool, true,
  false, not, ◌&&◌, ◌||◌, Option, none, some, List, [], ◌∷◌, ◌++◌, map, length, and_then,
}
use mathlib.Core.Option
use specsmither.Base.Dict.{Dict, get, put, or_else, get_or, keys}
use specsmither.Dag.Types.{TicketNode, DepEdge}

pub record CriticalPathNode : Type 0 where
  pub id : String
  pub ticket_number : ℕ
  pub title : String
  pub estimated_minutes : ℕ

-- `path`, its `length`, and the rounded sum of the weights.
pub record CriticalPathResult : Type 0 where
  pub path : List CriticalPathNode
  pub length : ℕ
  pub minutes : ℕ

pub record Candidate : Type 0 where
  pub path : List String
  pub minutes : ℕ

abbrev pub unnumbered_placeholder : String
unnumbered_placeholder = "<unnumbered>"

-- `math.floor(value + 0.5)` of a whole number, in halves: floor((2 value + 1) / 2).
unfoldable pub round_half_up : ℕ → ℕ
round_half_up value = (2 * value + 1) / 2

unfoldable pub lex_less : List String → List String → Bool
lex_less xs [] = false
lex_less [] (y ∷ ys) = true
lex_less (x ∷ xs) (y ∷ ys) =
    let rest = lex_less xs ys in if str_lt x y then true else if str_lt y x then false else rest

-- A missing or zero estimate weighs 1.
unfoldable pub weight : Option ℕ → ℕ
weight none = 1
weight (some est) = if ltb 0 est then est else 1

-- The loop that fills `minutes_of`.
unfoldable pub minutes_from : List String → Dict ℕ → List TicketNode → Dict ℕ
unfolding mem put weight
minutes_from exclude minutes [] = minutes
minutes_from exclude minutes (n ∷ tickets) =
    minutes_from exclude
      (if mem n.id exclude then minutes else put minutes n.id (weight n.estimated_minutes)) tickets

-- The same loop for `node_by_id`.
unfoldable pub nodes_from : List String → Dict TicketNode → List TicketNode → Dict TicketNode
unfolding mem put
nodes_from exclude nodes [] = nodes
nodes_from exclude nodes (n ∷ tickets) =
    nodes_from exclude (if mem n.id exclude then nodes else put nodes n.id n) tickets

-- `k in d`
unfoldable pub has_key {ℓ} : {V : Type ℓ} → Dict V → String → Bool
unfolding get
has_key d k = is_some (get d k)

-- `deps.get(k, [])` once `deps` is filled, deduplicated and sorted.
unfoldable pub deps_of : Dict ℕ → List DepEdge → String → List String
unfolding has_key filter sorted_set
deps_of minutes edges k = sorted_set (
    map (λ e. e.depends_on_id)
      (filter
        (λ e. e.ticket_id == k && has_key minutes e.ticket_id && has_key minutes e.depends_on_id)
        edges))

unfoldable pub is_nil : List String → Bool
is_nil [] = true
is_nil (_ ∷ _) = false

-- The test under which a dependency's path becomes the best one so far.
unfoldable pub improves : Candidate → Candidate → Bool
improves sub best =
    ltb best.minutes sub.minutes
    || (nat_eq sub.minutes best.minutes && not (is_nil best.path) && lex_less sub.path best.path)
    || (is_nil best.path && leb 0 sub.minutes)

abbrev pub no_path : Candidate
no_path = record { path = []; minutes = 0 }

abbrev pub Memo : Type 0
Memo = Dict Candidate

-- The loop over the dependencies, with the recursive call as an argument.
unfoldable pub best_of :
    (String → Memo → Option (Candidate × Memo))
    → List String
    → Candidate
    → Memo
    → Option (Candidate × Memo)
best_of call [] best memo = some (best, memo)
best_of call (dep_id ∷ deps) best memo =
    and_then (call dep_id memo)
      (λ found. best_of call deps (if improves found.0 best then found.0 else best) found.1)

-- The result of a node from the best path to one of its dependencies.
unfoldable pub extend : Dict ℕ → String → Candidate → Candidate
extend minutes node_id best = record {
  path = best.path ++ node_id ∷ [];
  minutes = best.minutes + get_or minutes node_id 1;
}

-- `memo[node_id] = result`, and the result
unfoldable pub record_result :
    Dict ℕ → String → Option (Candidate × Memo) → Option (Candidate × Memo)
record_result minutes node_id none = none
record_result minutes node_id (some (best, memo)) =
    some (extend minutes node_id best, put memo node_id (extend minutes node_id best))

-- The memo's answer, or else the computed one.
unfoldable pub cached_or :
    Memo → Option Candidate → Option (Candidate × Memo) → Option (Candidate × Memo)
cached_or memo none computed = computed
cached_or memo (some cached) computed = some (cached, memo)

unfoldable pub longest_to :
    ℕ → Dict ℕ → (String → List String) → String → Memo → Option (Candidate × Memo)
longest_to zero minutes deps node_id memo = none
longest_to (suc fuel) minutes deps node_id memo = cached_or memo (get memo node_id) (
    record_result minutes node_id
      (best_of (longest_to fuel minutes deps) (deps node_id) no_path memo))

-- The test of the outer loop, whose last clause is strict.
unfoldable pub overtakes : Candidate → Candidate → Bool
overtakes candidate overall =
    ltb overall.minutes candidate.minutes
    || (nat_eq candidate.minutes overall.minutes
        && not (is_nil overall.path)
        && lex_less candidate.path overall.path)
    || (is_nil overall.path && ltb 0 candidate.minutes)

-- The loop over the nodes in sorted order.
unfoldable pub overall_from :
    ℕ → Dict ℕ → (String → List String) → List String → Candidate → Memo → Option Candidate
overall_from fuel minutes deps [] overall memo = some overall
overall_from fuel minutes deps (node_id ∷ ids) overall memo =
    and_then (longest_to fuel minutes deps node_id memo) (λ found.
      overall_from fuel minutes deps ids (if overtakes found.0 overall then found.0 else overall)
        found.1)

unfoldable pub render_node : TicketNode → CriticalPathNode
unfolding is_truthy
render_node t = record {
  id = t.id;
  ticket_number = or_else t.ticket_number 0;
  title = if is_truthy t.title then or_else t.title "" else unnumbered_placeholder;
  estimated_minutes = or_else t.estimated_minutes 60;
}

-- `node_by_id[node_id]` for each id; `none` is the KeyError.
unfoldable pub render_path : Dict TicketNode → List String → Option (List CriticalPathNode)
render_path nodes [] = some []
render_path nodes (id ∷ ids) =
    and_then (get nodes id)
      (λ t. and_then (render_path nodes ids) (λ rest. some (render_node t ∷ rest)))

unfoldable pub result_of : Candidate → List CriticalPathNode → CriticalPathResult
unfolding round_half_up
result_of overall path = record {
  path = path;
  length = length path;
  minutes = round_half_up overall.minutes;
}

unfoldable pub critical_path_from :
    ℕ → Dict ℕ → Dict TicketNode → List DepEdge → Option CriticalPathResult
critical_path_from fuel minutes nodes edges =
    and_then (overall_from fuel minutes (deps_of minutes edges) (sorted (keys minutes)) no_path [])
      (λ overall. and_then (render_path nodes overall.path) (λ path. some (result_of overall path)))

unfoldable pub compute_critical_path :
    ℕ → List TicketNode → List DepEdge → List String → Option CriticalPathResult
compute_critical_path fuel tickets edges exclude =
    critical_path_from fuel (minutes_from exclude [] tickets) (nodes_from exclude [] tickets) edges
