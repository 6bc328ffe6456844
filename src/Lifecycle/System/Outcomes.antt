-- ===== src/Lifecycle/System/Outcomes.antt =====
-- What a handover and a rejection leave in the store.
use specsmither.Lifecycle.Executor.Rows.{is_audit, update_committed}
use specsmither.Lifecycle.Verbs.{Ports, is_awaiting, is_active, agent_action}
use specsmither.Lifecycle.System.{
  persist_handover, persist_verb, complete, reject_with_feedback, serve,
}
use specsmither.Lifecycle.Plan.{
  PlanningSessionRecord, build_action, build_cps_success_write_plan,
  build_reject_handover_with_feedback_write_plan,
}
use specsmither.Lifecycle.Executor.{Store, set_field, set_fields}
use specsmither.Lifecycle.Handover.{feedback_session, reject_handover_with_feedback}
use specsmither.Lifecycle.Complete.{
  complete_success, cps_accepts, gate_currently_passing, complete_session,
  complete_planning_session,
}
use specsmither.Base.{all, String, ◌≡◌, refl, Bool, true, false, Option, some}
use specsmither.Base.Dict.{get, put}
use specsmither.Domain.Enums.{awaiting_human_review, active, human_reject_with_feedback, pass}

-- A handover of a stored active session, of a specification in planning whose phase gate passes now,
-- parks the session for review in its phase with gate result `pass`, the snapshot of this call's guidance
-- and the times of validation and last action, and changes no other session and no specification.
pub complete_planning_session-parks :
    {S : Type 0} (is_blank : String → Bool) (store : Store) (ports : Ports S) (user : Option String)
    (session : PlanningSessionRecord)
    → get store.sessions session.id ≡ some session
    → is_active session.status ≡ true
    → cps_accepts (get store.specs session.specification_id) ≡ true
    → gate_currently_passing ports session.current_phase
        (ports.get_spec_full session.specification_id)
      ≡ true
    → (Store.sessions (serve is_blank store ports (complete session.id user))
        ≡ put store.sessions session.id (record session {
          status = awaiting_human_review;
          last_gate_result = some pass;
          last_process_guidance = some ports.guidance;
          last_validated_at = some ports.now;
          last_action_at = some ports.now;
        }))
      × (Store.specs (serve is_blank store ports (complete session.id user)) ≡ store.specs)
unfolding serve complete_planning_session complete_session persist_verb complete_success
    build_cps_success_write_plan agent_action build_action set_fields set_field all is_audit
complete_planning_session-parks is_blank store ports user session stored working accepts passes =
    rw stored (
      rw working
        (rw accepts (rw passes (update_committed store session.id _ session _ stored refl))))

-- A rejection with a feedback text that is not blank, of a stored session that awaits review, returns
-- the session to active work in the same phase, with the text stored for delivery, and changes no other
-- session and no specification.
pub reject_handover_with_feedback-returns :
    {S : Type 0} (is_blank : String → Bool) (store : Store) (ports : Ports S) (text : String)
    (user : Option String) (session : PlanningSessionRecord)
    → get store.sessions session.id ≡ some session
    → is_awaiting session.status ≡ true
    → is_blank text ≡ false
    → (Store.sessions (serve is_blank store ports (reject_with_feedback session.id text user))
        ≡ put store.sessions session.id (record session {
          status = active;
          pending_human_feedback =
              some (record { content = text; recorded_at = ports.now; recorded_by_user_id = user });
          last_transition_trigger = some human_reject_with_feedback;
          last_transition_at = some ports.now;
          last_action_at = some ports.now;
        }))
      × (Store.specs (serve is_blank store ports (reject_with_feedback session.id text user))
          ≡ store.specs)
unfolding serve reject_handover_with_feedback feedback_session persist_handover
    build_reject_handover_with_feedback_write_plan set_fields set_field all is_audit
reject_handover_with_feedback-returns is_blank store ports text user session stored parked given =
    rw given (rw stored (rw parked (update_committed store session.id _ session _ stored refl)))
