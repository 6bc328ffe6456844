-- ===== src/Lifecycle/Executor/Rows.antt =====
-- What a committed plan does to the sessions and to the statuses of the specifications.
use specsmither.Lifecycle.Plan.{
  PlanningSessionRecord, SessionField, Action, WritePlanItem, spec_mutation, session_update,
  session_create, action_append, record_transition, WritePlan, audit_only_plan, is_draft,
  build_sps_create_write_plan,
}
use specsmither.Lifecycle.Executor.{
  Store, add_affected, set_field, set_fields, spec_of_session, mutate_spec, update_session,
  apply_item, and_apply, apply_items, apply_write_plan, committed, commit_write_plan,
  default_session, put_session,
}
use specsmither.Domain.Enums.{SpecStatus}
use specsmither.Base.{
  all, String, ◌≡◌, refl, Bool, true, false, none, some, List, [], ◌∷◌, Bool-cases, Option-cases,
  ◌⊎◌, inl, inr,
}
use specsmither.Base.Dict.{get, put, or_else}
use specsmither.Domain.Enums.{planning}

-- Items that write one of the two audit tables only.
unfoldable pub is_audit : WritePlanItem → Bool
is_audit (action_append _) = true
is_audit (record_transition _) = true
is_audit _ = false

-- Audit items always apply, and leave the sessions and the specifications as they are.
pub audits_applied :
    (before store : Store) (affected : List String) (plan : WritePlan)
    → all is_audit plan ≡ true
    → (Store.sessions (committed before (apply_items store affected plan)) ≡ store.sessions)
      × (Store.specs (committed before (apply_items store affected plan)) ≡ store.specs)
unfolding apply_items committed and_apply apply_item all is_audit
audits_applied before store affected [] h = (refl, refl)
audits_applied before store affected (spec_mutation i s ∷ plan) h = cc
audits_applied before store affected (session_update i f ∷ plan) h = cc
audits_applied before store affected (session_create i f ∷ plan) h = cc
audits_applied before store affected (action_append a ∷ plan) h =
    audits_applied before (record store { actions = put store.actions a.id a })
      (add_affected affected (spec_of_session store.sessions a.planning_session_id)) plan h
audits_applied before store affected (record_transition t ∷ plan) h =
    audits_applied before (record store { transitions = put store.transitions t.id t })
      (add_affected affected (spec_of_session store.sessions t.planning_session_id)) plan h

-- A session's fields and then audit items.
pub update_committed :
    (store : Store) (id : String) (fields : List SessionField) (row : PlanningSessionRecord)
    (plan : WritePlan)
    → get store.sessions id ≡ some row
    → all is_audit plan ≡ true
    → (Store.sessions (commit_write_plan store (session_update id fields ∷ plan))
        ≡ put store.sessions id (set_fields row fields))
      × (Store.specs (commit_write_plan store (session_update id fields ∷ plan)) ≡ store.specs)
unfolding commit_write_plan apply_write_plan apply_items and_apply apply_item update_session
update_committed store id fields row plan h audit = rw h (
    audits_applied store (record store { sessions = put store.sessions id (set_fields row fields) })
      (add_affected [] (some (PlanningSessionRecord.specification_id (set_fields row fields)))) plan
      audit)

-- `audit_only_plan`: the session's guidance and time of the last action, and nothing else of these rows.
pub audit_only_committed :
    (store : Store) (id : String) (action : Action) (guidance : String)
    (row : PlanningSessionRecord)
    → get store.sessions id ≡ some row
    → (Store.sessions (commit_write_plan store (audit_only_plan id action guidance))
        ≡ put store.sessions id (record row {
          last_process_guidance = some guidance;
          last_action_at = some action.created_at;
        }))
      × (Store.specs (commit_write_plan store (audit_only_plan id action guidance)) ≡ store.specs)
unfolding commit_write_plan apply_write_plan apply_items and_apply apply_item update_session
    audit_only_plan committed set_fields set_field
audit_only_committed store id action guidance row h = rw h (refl, refl)

-- A specification's status first: with its row, all is written; without it, nothing.
pub mutation_committed :
    (store : Store) (spec_id : String) (status old : SpecStatus) (id : String)
    (fields : List SessionField) (row : PlanningSessionRecord) (plan : WritePlan)
    → get store.specs spec_id ≡ some old
    → get store.sessions id ≡ some row
    → all is_audit plan ≡ true
    → (Store.sessions
          (commit_write_plan store (spec_mutation spec_id status ∷ session_update id fields ∷ plan))
        ≡ put store.sessions id (set_fields row fields))
      × (Store.specs (
            commit_write_plan store
              (spec_mutation spec_id status ∷ session_update id fields ∷ plan))
          ≡ put store.specs spec_id status)
unfolding commit_write_plan apply_write_plan apply_items and_apply apply_item update_session
    mutate_spec
mutation_committed store spec_id status old id fields row plan known h audit = rw known (
    rw h (
      audits_applied store
        (record store {
          specs = put store.specs spec_id status;
          sessions = put store.sessions id (set_fields row fields);
        })
        (add_affected (add_affected [] (some spec_id))
          (some (PlanningSessionRecord.specification_id (set_fields row fields))))
        plan audit))

pub mutation_rolled_back :
    (store : Store) (spec_id : String) (status : SpecStatus) (plan : WritePlan)
    → get store.specs spec_id ≡ none
    → commit_write_plan store (spec_mutation spec_id status ∷ plan) ≡ store
unfolding commit_write_plan apply_write_plan apply_items and_apply apply_item mutate_spec committed
mutation_rolled_back store spec_id status plan unknown = rw unknown refl

-- A created session is written over the row of its id, if there is one. The plan fails as a whole when
-- a draft specification has no row.
pub create_committed :
    (store : Store) (spec_id : String) (status : SpecStatus) (id : String)
    (fields : List SessionField) (action : Action) (base : PlanningSessionRecord)
    → or_else (get store.sessions id) (default_session id) ≡ base
    → (Store.sessions
          (commit_write_plan store (build_sps_create_write_plan spec_id status id fields action))
        ≡ store.sessions)
      ⊎ (Store.sessions
            (commit_write_plan store (build_sps_create_write_plan spec_id status id fields action))
          ≡ put store.sessions id (set_fields base fields))
unfolding commit_write_plan apply_write_plan apply_items and_apply apply_item mutate_spec
    put_session build_sps_create_write_plan committed
create_committed store spec_id status id fields action base same =
    elim (Bool-cases (is_draft status)) [
      | inr e ↦ rw e (rw same (inr refl))
      | inl e ↦ rw e (elim (Option-cases (get store.specs spec_id)) [
        | inl unknown ↦ rw unknown (inl refl)
        | inr (old, known) ↦ rw known (rw same (inr refl))
      ])
    ]

-- The specifications after a creation: only a draft's status may have changed, to `planning`.
pub create_committed_specs :
    (store : Store) (spec_id : String) (status : SpecStatus) (id : String)
    (fields : List SessionField) (action : Action)
    → (Store.specs
          (commit_write_plan store (build_sps_create_write_plan spec_id status id fields action))
        ≡ store.specs)
      ⊎ (Store.specs
            (commit_write_plan store (build_sps_create_write_plan spec_id status id fields action))
          ≡ put store.specs spec_id planning)
unfolding commit_write_plan apply_write_plan apply_items and_apply apply_item mutate_spec
    put_session build_sps_create_write_plan committed
create_committed_specs store spec_id status id fields action = elim (Bool-cases (is_draft status)) [
  | inr e ↦ rw e (inl refl)
  | inl e ↦ rw e (elim (Option-cases (get store.specs spec_id)) [
    | inl unknown ↦ rw unknown (inl refl)
    | inr (old, known) ↦ rw known (inr refl)
  ])
]
