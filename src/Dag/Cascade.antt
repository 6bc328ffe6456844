-- ===== src/Dag/Cascade.antt =====
-- dag/cascade.py: the single-hop transitions that a change of one ticket causes. The statuses are a
-- `Mapping[str, str]`, the edges a list in the order of the scan.
pub mod Scans
pub mod Firsts
pub mod Check
pub mod Transitions
pub mod Completeness
pub mod Settling
mod Examples
use specsmither.Base.{
  String, Bool, true, false, Option, none, some, List, [], ◌∷◌, not, ◌&&◌, ◌||◌, if◌then◌else◌,
}
use specsmither.Base.Text.{◌==◌}
use specsmither.Base.Dict.{Dict, get}
use specsmither.Base.Sets.{mem}
use specsmither.Dag.Types.{DepEdge}

pub record CascadeTransition : Type 0 where
  pub ticket_id : String
  pub from_status : String
  pub to_status : String
  pub reason : String

pub record DependencyCheckResult : Type 0 where
  pub all_completed : Bool
  pub blockers : List String
  pub missing : List String

-- The loop of `find_dependents`: what is appended to `out` from here on.
unfoldable pub scan_dependents : String → List DepEdge → List String → List String
unfolding mem
scan_dependents ticket_id [] seen = []
scan_dependents ticket_id (edge ∷ edges) seen =
    let new = edge.depends_on_id == ticket_id && not (mem edge.ticket_id seen) in
    let rest = scan_dependents ticket_id edges (if new then edge.ticket_id ∷ seen else seen) in
    if new then edge.ticket_id ∷ rest else rest

unfoldable pub find_dependents : List DepEdge → String → List String
unfolding scan_dependents
find_dependents edges ticket_id = scan_dependents ticket_id edges []

unfoldable pub scan_dependencies : String → List DepEdge → List String → List String
unfolding mem
scan_dependencies ticket_id [] seen = []
scan_dependencies ticket_id (edge ∷ edges) seen =
    let new = edge.ticket_id == ticket_id && not (mem edge.depends_on_id seen) in
    let rest =
      scan_dependencies ticket_id edges (if new then edge.depends_on_id ∷ seen else seen) in
    if new then edge.depends_on_id ∷ rest else rest

unfoldable pub find_dependencies : List DepEdge → String → List String
unfolding scan_dependencies
find_dependencies edges ticket_id = scan_dependencies ticket_id edges []

-- The loop of `check_dependencies_completed`: (blockers, missing).
unfoldable pub check_loop : Dict String → List String → List String × List String
unfolding get
check_loop states [] = ([], [])
check_loop states (dep_id ∷ dep_ids) =
    let (blockers, missing) = check_loop states dep_ids in
    elim (get states dep_id) [
      | none ↦ (dep_id ∷ blockers, dep_id ∷ missing)
      | some status ↦ (if status == "done" then blockers else dep_id ∷ blockers, missing)
    ]

unfoldable pub is_empty : List String → Bool
is_empty [] = true
is_empty (_ ∷ _) = false

-- The body of `check_dependencies_completed`, from the dependencies that it has found.
unfoldable pub check_ids : Dict String → List String → DependencyCheckResult
unfolding check_loop is_empty
check_ids states [] = record { all_completed = true; blockers = []; missing = [] }
check_ids states (dep_id ∷ dep_ids) =
    let (blockers, missing) = check_loop states (dep_id ∷ dep_ids) in
    record { all_completed = is_empty blockers; blockers = blockers; missing = missing }

unfoldable pub check_dependencies_completed :
    String → Dict String → List DepEdge → DependencyCheckResult
unfolding find_dependencies check_ids
check_dependencies_completed ticket_id states edges =
    check_ids states (find_dependencies edges ticket_id)

-- `o == status` for an `o : str | None`
abbrev pub is_status : Option String → String → Bool
is_status none status = false
is_status (some s) status = s == status

-- `states.get(id) == status`
unfoldable pub has_status : Dict String → String → String → Bool
unfolding get
has_status states id status = is_status (get states id) status

abbrev pub promotion : String → CascadeTransition
promotion id = record {
  ticket_id = id;
  from_status = "pending";
  to_status = "ready";
  reason = "deps-completed";
}

abbrev pub demotion : String → CascadeTransition
demotion id = record {
  ticket_id = id;
  from_status = "ready";
  to_status = "pending";
  reason = "dep-reverted";
}

-- The loop of `cascade_on_completed`.
unfoldable pub promote_loop : Dict String → List DepEdge → List String → List CascadeTransition
promote_loop states edges [] = []
promote_loop states edges (dep_id ∷ dep_ids) =
    let rest = promote_loop states edges dep_ids in
    if not (has_status states dep_id "pending")
    then rest
    else if not (check_dependencies_completed dep_id states edges).all_completed
    then rest
    else promotion dep_id ∷ rest

unfoldable pub cascade_on_completed : Dict String → List DepEdge → String → List CascadeTransition
cascade_on_completed states edges changed_id =
    if not (has_status states changed_id "done")
    then []
    else promote_loop states edges (find_dependents edges changed_id)

-- The loop of `cascade_on_uncompleted`.
unfoldable pub demote_loop : Dict String → List String → List CascadeTransition
demote_loop states [] = []
demote_loop states (dep_id ∷ dep_ids) =
    let rest = demote_loop states dep_ids in
    if not (has_status states dep_id "ready") then rest else demotion dep_id ∷ rest

unfoldable pub cascade_on_uncompleted : Dict String → List DepEdge → String → List CascadeTransition
cascade_on_uncompleted states edges changed_id =
    if has_status states changed_id "done"
    then []
    else demote_loop states (find_dependents edges changed_id)

unfoldable pub cascade_on_dependency_change :
    Dict String → List DepEdge → String → List CascadeTransition
cascade_on_dependency_change states edges changed_id =
    let all_completed = (check_dependencies_completed changed_id states edges).all_completed in
    if not (has_status states changed_id "pending" || has_status states changed_id "ready")
    then []
    else if has_status states changed_id "pending" && all_completed
    then promotion changed_id ∷ []
    else if has_status states changed_id "ready" && not all_completed
    then demotion changed_id ∷ []
    else []
