-- ===== src/Lifecycle/Executor.antt =====
-- src/specsmither/adapters/write_plan_executor.py for the five kinds of item in Plan: the rows they
-- write, the specifications they touch, and the transaction around a plan. The recompute that follows
-- inside the transaction writes rollup columns only, none of them in this store. Of the database's
-- constraints, only that of a specification row's required columns is stated.
pub mod Rows
use specsmither.Lifecycle.Plan.{
  PlanningSessionRecord, SessionField, set_specification_id, set_status, set_current_phase,
  set_started_at, set_last_action_at, set_closed_at, set_last_transition_at, set_last_read_at,
  set_last_validated_at, set_actions_count, set_pending_human_feedback, set_last_transition_trigger,
  set_last_gate_result, Action, Transition, WritePlanItem, spec_mutation, session_update,
  session_create, action_append, record_transition, WritePlan, set_last_process_guidance,
}
use specsmither.Base.Sets.{mem}
use specsmither.Base.Dict.{Dict, get, put, or_else}
use specsmither.Base.{if◌then◌else◌, and_then, String, Option, none, some, List, [], ◌∷◌, ◌++◌}
use specsmither.Domain.Enums.{active, SpecStatus, planning_spec}

-- The rows that the verbs read or write: the status of each specification, the sessions, and the two
-- audit tables, each by its id.
pub record Store : Type 0 where
  pub specs : Dict SpecStatus
  pub sessions : Dict PlanningSessionRecord
  pub actions : Dict Action
  pub transitions : Dict Transition

pub data CrudError : Type 0 where
  not_found integrity : CrudError

pub data Applied : Type 0 where
  applied : Store → List String → Applied
  failed : CrudError → Applied

-- `_add`
unfoldable pub add_affected : List String → Option String → List String
unfolding mem
add_affected affected none = affected
add_affected affected (some id) = if mem id affected then affected else affected ++ id ∷ []

-- A row as the model's column defaults leave it.
abbrev pub default_session : String → PlanningSessionRecord
default_session id = record {
  id = id;
  specification_id = "";
  status = active;
  current_phase = planning_spec;
  started_at = none;
  last_action_at = none;
  closed_at = none;
  actions_count = 0;
  pending_human_feedback = none;
  last_transition_trigger = none;
  last_transition_at = none;
  last_read_at = none;
  last_validated_at = none;
  last_gate_result = none;
  last_process_guidance = none;
}

-- `setattr(row, attr, value)`
unfoldable pub set_field : PlanningSessionRecord → SessionField → PlanningSessionRecord
set_field row (set_specification_id v) = record row { specification_id = v }
set_field row (set_status v) = record row { status = v }
set_field row (set_current_phase v) = record row { current_phase = v }
set_field row (set_started_at v) = record row { started_at = some v }
set_field row (set_last_action_at v) = record row { last_action_at = some v }
set_field row (set_closed_at v) = record row { closed_at = some v }
set_field row (set_last_transition_at v) = record row { last_transition_at = some v }
set_field row (set_last_read_at v) = record row { last_read_at = some v }
set_field row (set_last_validated_at v) = record row { last_validated_at = some v }
set_field row (set_actions_count v) = record row { actions_count = v }
set_field row (set_pending_human_feedback v) = record row { pending_human_feedback = some v }
set_field row (set_last_transition_trigger v) = record row { last_transition_trigger = some v }
set_field row (set_last_gate_result v) = record row { last_gate_result = some v }
set_field row (set_last_process_guidance v) = record row { last_process_guidance = some v }

unfoldable pub set_fields : PlanningSessionRecord → List SessionField → PlanningSessionRecord
unfolding set_field
set_fields row [] = row
set_fields row (f ∷ fields) = set_fields (set_field row f) fields

-- `_resolve_spec_from_data` for a row that names its session only.
unfoldable pub spec_of_session : Dict PlanningSessionRecord → String → Option String
unfolding get
spec_of_session sessions id = and_then (get sessions id) (λ row. some row.specification_id)

-- A new specification row would lack its required columns.
unfoldable pub mutate_spec : Store → List String → String → SpecStatus → Option SpecStatus → Applied
unfolding put add_affected
mutate_spec store affected id status none = failed integrity
mutate_spec store affected id status (some old) =
    applied (record store { specs = put store.specs id status }) (add_affected affected (some id))

unfoldable pub update_session :
    Store → List String → String → List SessionField → Option PlanningSessionRecord → Applied
unfolding put set_fields add_affected
update_session store affected id fields none = failed not_found
update_session store affected id fields (some row) =
    applied (record store { sessions = put store.sessions id (set_fields row fields) })
      (add_affected affected
        (some (PlanningSessionRecord.specification_id (set_fields row fields))))

unfoldable pub put_session : Store → List String → String → List SessionField → Applied
unfolding put get set_fields add_affected
put_session store affected id fields =
    let row = set_fields (or_else (get store.sessions id) (default_session id)) fields in
    applied (record store { sessions = put store.sessions id row })
      (add_affected affected (some row.specification_id))

unfoldable pub apply_item : Store → List String → WritePlanItem → Applied
unfolding get put mutate_spec update_session put_session spec_of_session add_affected
apply_item store affected (spec_mutation id status) =
    mutate_spec store affected id status (get store.specs id)
apply_item store affected (session_update id fields) =
    update_session store affected id fields (get store.sessions id)
apply_item store affected (session_create id fields) = put_session store affected id fields
apply_item store affected (action_append action) =
    applied (record store { actions = put store.actions action.id action })
      (add_affected affected (spec_of_session store.sessions action.planning_session_id))
apply_item store affected (record_transition t) =
    applied (record store { transitions = put store.transitions t.id t })
      (add_affected affected (spec_of_session store.sessions t.planning_session_id))

unfoldable pub and_apply : Applied → (Store → List String → Applied) → Applied
and_apply (failed e) rest = failed e
and_apply (applied store affected) rest = rest store affected

-- The loop over the items, which the first error leaves.
unfoldable pub apply_items : Store → List String → WritePlan → Applied
apply_items store affected [] = applied store affected
apply_items store affected (item ∷ items) =
    and_apply (apply_item store affected item) (λ s a. apply_items s a items)

unfoldable pub apply_write_plan : Store → WritePlan → Applied
unfolding apply_items
apply_write_plan store plan = apply_items store [] plan

-- The store after the transaction: an error rolls everything back.
unfoldable pub committed : Store → Applied → Store
committed before (failed e) = before
committed before (applied after affected) = after

unfoldable pub commit_write_plan : Store → WritePlan → Store
unfolding committed apply_write_plan
commit_write_plan store plan = committed store (apply_write_plan store plan)
