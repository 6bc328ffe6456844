-- ===== src/Crud.antt =====
-- src/specsmither/operations/crud.py: adding a dependency, over the rows that it reads. The order in which
-- the store lists rows is that of the list, and the recompute after the insertion is in Rollups.
pub mod Search
pub mod Added
mod Examples
use specsmither.Dag.Cascade.Transitions.{depends_on}
use specsmither.Base.{
  if◌then◌else◌, is_some, and_then, length, ℕ, zero, suc, ◌+◌, String, Bool, true, false, not, ◌&&◌,
  ◌||◌, Option, none, some, List, [], ◌∷◌, ◌++◌,
}
use specsmither.Base.Text.{◌==◌}
use specsmither.Base.Sets.{mem}
use specsmither.Base.Dict.{Dict, get, or_else}

pub record DependencyEdge : Type 0 where
  pub ticket_id : String
  pub depends_on_id : String
  pub type : String

-- The tickets with the specification of their epic, and the rows of the dependencies.
pub record Rows : Type 0 where
  pub ticket_specs : Dict (Option String)
  pub edges : List DependencyEdge

pub data OperationError : Type 0 where
  validation_failed not_found conflict : OperationError

pub data AddOutcome : Type 0 where
  failed : OperationError → AddOutcome
  added : Rows → AddOutcome

-- `adjacency.get(node, ())`
unfoldable pub forward : List DependencyEdge → String → List String
forward [] node = []
forward (e ∷ edges) node =
    let rest = forward edges node in if e.ticket_id == node then e.depends_on_id ∷ rest else rest

unfoldable pub unvisited : List String → List String → List String
unfolding mem
unvisited visited [] = []
unvisited visited (n ∷ ns) =
    let rest = unvisited visited ns in if mem n visited then rest else n ∷ rest

-- The `while queue` loop; `none` means that the fuel ran out.
unfoldable pub reach_from :
    ℕ → List DependencyEdge → String → List String → List String → Option Bool
unfolding forward unvisited mem
reach_from zero edges target queue visited = none
reach_from (suc fuel) edges target [] visited = some false
reach_from (suc fuel) edges target (current ∷ queue) visited =
    let skip = reach_from fuel edges target queue visited in
    let expand =
      reach_from fuel edges target (queue ++ unvisited (current ∷ visited) (forward edges current))
        (current ∷ visited) in
    if current == target then some true else if mem current visited then skip else expand

unfoldable pub would_create_cycle : ℕ → List DependencyEdge → String → String → Option Bool
unfolding reach_from
would_create_cycle fuel edges ticket depends_on =
    if ticket == depends_on then some true else reach_from fuel edges ticket (depends_on ∷ []) []

unfoldable pub coerce_dep_type : String → Option String
coerce_dep_type type = if type == "requires" || type == "blocks" then some type else none

unfoldable pub ticket_spec : Rows → String → Option String
unfolding get
ticket_spec store id = or_else (get store.ticket_specs id) none

unfoldable pub is_spec : Option String → String → Bool
is_spec none id = false
is_spec (some spec) id = spec == id

-- The rows whose dependent ticket is in the specification.
unfoldable pub list_dependencies : Rows → String → List DependencyEdge → List DependencyEdge
unfolding is_spec ticket_spec
list_dependencies store spec_id [] = []
list_dependencies store spec_id (e ∷ edges) =
    let rest = list_dependencies store spec_id edges in
    if is_spec (ticket_spec store e.ticket_id) spec_id then e ∷ rest else rest

unfoldable pub has_pair : String → String → List DependencyEdge → Bool
has_pair ticket depends_on [] = false
has_pair ticket depends_on (e ∷ edges) =
    e.ticket_id == ticket && e.depends_on_id == depends_on || has_pair ticket depends_on edges

-- From the answer of `would_create_cycle` on.
unfoldable pub insert_unless : Rows → String → String → String → Bool → AddOutcome
insert_unless store ticket depends_on type cycle =
    if cycle
    then failed conflict
    else added (record store {
      edges =
          store.edges
          ++ record { ticket_id = ticket; depends_on_id = depends_on; type = type } ∷ [];
    })

-- Within the specification; the fuel is the number of its rows, and two.
unfoldable pub add_in_spec : Rows → String → String → String → String → Option AddOutcome
unfolding list_dependencies has_pair would_create_cycle insert_unless
add_in_spec store ticket depends_on type spec_id =
    let edges = list_dependencies store spec_id store.edges in
    if has_pair ticket depends_on edges
    then some (failed conflict)
    else and_then (would_create_cycle (length edges + 2) edges ticket depends_on)
        (λ cycle. some (insert_unless store ticket depends_on type cycle))

unfoldable pub add_between :
    Rows → String → String → String → Option String → Option String → Option AddOutcome
unfolding add_in_spec
add_between store ticket depends_on type none other = some (failed validation_failed)
add_between store ticket depends_on type (some spec_id) none = some (failed validation_failed)
add_between store ticket depends_on type (some spec_id) (some dep_spec_id) =
    if not (spec_id == dep_spec_id)
    then some (failed validation_failed)
    else add_in_spec store ticket depends_on type spec_id

unfoldable pub add_typed : Rows → String → String → Option String → Option AddOutcome
unfolding add_between ticket_spec get
add_typed store ticket depends_on none = some (failed validation_failed)
add_typed store ticket depends_on (some type) =
    if ticket == depends_on
    then some (failed validation_failed)
    else if not (is_some (get store.ticket_specs ticket))
    then some (failed not_found)
    else if not (is_some (get store.ticket_specs depends_on))
    then some (failed not_found)
    else add_between store ticket depends_on type (ticket_spec store ticket)
        (ticket_spec store depends_on)

unfoldable pub add_dependency : Rows → String → String → String → Option AddOutcome
unfolding coerce_dep_type add_typed
add_dependency store ticket depends_on type =
    add_typed store ticket depends_on (coerce_dep_type type)
