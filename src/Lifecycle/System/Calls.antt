-- ===== src/Lifecycle/System/Calls.antt =====
-- What a verb leaves in the sessions when it has found the session of its call.
use specsmither.Lifecycle.System.Effects.{
  status_sound, sound, IsWritten, kept, written, phase_lem, approve_advance-IsWritten,
  approve_terminal-IsWritten, denied-IsWritten, complete_success-IsWritten,
}
use specsmither.Lifecycle.Executor.Rows.{is_audit, update_committed}
use specsmither.Lifecycle.Verbs.{Ports, is_awaiting, is_active, gate_passed, agent_action}
use specsmither.Lifecycle.StateMachine.{is_terminal_phase}
use specsmither.Lifecycle.Start.{fresh_gate, resume_session, start_with}
use specsmither.Lifecycle.System.{persist_handover, persist_verb}
use specsmither.Lifecycle.Plan.{
  PlanningSessionRecord, set_last_action_at, set_last_validated_at, set_last_gate_result,
  session_update, action_append, WritePlan, build_action, validation_fields,
  build_sps_resume_write_plan, set_last_process_guidance,
}
use specsmither.Lifecycle.Executor.{Store, set_field, set_fields, commit_write_plan}
use specsmither.Lifecycle.Handover.{approve_session}
use specsmither.Lifecycle.Complete.{cps_accepts, gate_currently_passing, complete_session}
use specsmither.Domain.Enums.{SpecStatus, success, GateResult}
use specsmither.Base.Dict.{get}
use specsmither.Base.{
  Bool-cases, all, ℕ, String, ◌≡◌, refl, inl, inr, true, Option, none, some, [], ◌∷◌, arith,
}

module _ (store : Store) (session : PlanningSessionRecord)
    (stored : get store.sessions session.id ≡ some session) (is_sound : sound session ≡ true) where
  pub approve-IsWritten :
      (user : Option String) (mint : ℕ → String) (now : String)
      → IsWritten store.sessions
          (Store.sessions (persist_handover store (approve_session (some session) user mint now)))
  unfolding approve_session
  approve-IsWritten user mint now = elim (Bool-cases (is_awaiting session.status)) [
    | inr e ↦ rw e (unfold persist_handover in kept refl)
    | inl e ↦ rw e (elim (Bool-cases (gate_passed session.last_gate_result)) [
      | inr g ↦ rw g (unfold persist_handover in kept refl)
      | inl g ↦ rw g (elim (Bool-cases (is_terminal_phase session.current_phase)) [
        | inl t ↦ rw t (approve_terminal-IsWritten store session stored is_sound user mint now t)
        | inr t ↦ rw t (approve_advance-IsWritten store session stored is_sound user mint now t)
      ])
    ])
  ]

  pub complete-IsWritten :
      {S : Type 0} (ports : Ports S) (user : Option String)
      → IsWritten store.sessions
          (Store.sessions (persist_verb store (complete_session store ports (some session) user)))
  unfolding complete_session
  complete-IsWritten ports user = elim (Bool-cases (is_active session.status)) [
    | inr e ↦ rw e (
        denied-IsWritten store session stored is_sound _ _ user ports.mint ports.now ports.guidance)
    | inl e ↦ rw e (elim (Bool-cases (cps_accepts (get store.specs session.specification_id))) [
      | inr p ↦ rw p (
          denied-IsWritten store session stored is_sound _ _ user ports.mint ports.now
            ports.guidance)
      | inl p ↦
          rw p
            (elim (Bool-cases (
              gate_currently_passing ports session.current_phase
                (ports.get_spec_full session.specification_id))) [
                  | inr g ↦ rw g (
                      denied-IsWritten store session stored is_sound _ _ user ports.mint ports.now
                        ports.guidance)
                  | inl g ↦ rw g (
                      complete_success-IsWritten store session stored is_sound user ports.mint
                        ports.now ports.guidance)
                ])
    ])
  ]

  resume_fields :
      (plan : WritePlan) (gate : Option GateResult) (now guidance : String)
      → all is_audit plan ≡ true
      → is_active session.status ≡ true
      → IsWritten store.sessions (
          Store.sessions (
            commit_write_plan store (
              session_update session.id (
                set_last_process_guidance guidance
                ∷ set_last_action_at now
                ∷ validation_fields gate now)
              ∷ plan)))
  unfolding validation_fields sound status_sound is_active set_fields set_field
  resume_fields plan none now guidance audit working =
      written
        (set_fields session (set_last_process_guidance guidance ∷ set_last_action_at now ∷ []))
        is_sound (update_committed store session.id _ session plan stored audit).0
  resume_fields plan (some gate) now guidance audit working =
      written
        (set_fields session (
          set_last_process_guidance guidance
          ∷ set_last_action_at now
          ∷ set_last_gate_result gate
          ∷ set_last_validated_at now
          ∷ []))
        (rw (phase_lem store session stored is_sound) (ground arith))
        (update_committed store session.id _ session plan stored audit).0

  pub resume-IsWritten :
      {S : Type 0} (ports : Ports S) (user : Option String)
      → is_active session.status ≡ true
      → IsWritten store.sessions
          (Store.sessions (persist_verb store (resume_session ports session user)))
  unfolding persist_verb resume_session build_sps_resume_write_plan agent_action build_action all
      is_audit
  resume-IsWritten ports user working =
      resume_fields
        (action_append (
            agent_action session (ports.mint 0) "start_planning_session" success none user
              ports.now)
          ∷ [])
        (fresh_gate ports session.current_phase (ports.get_spec_full session.specification_id))
        ports.now ports.guidance refl working

  pub open-IsWritten :
      {S : Type 0} (ports : Ports S) (spec_id : String) (status : SpecStatus) (user : Option String)
      → IsWritten store.sessions (
          Store.sessions (persist_verb store (start_with ports spec_id status (some session) user)))
  unfolding start_with
  open-IsWritten ports spec_id status user = elim (Bool-cases (is_active session.status)) [
    | inl e ↦ rw e (resume-IsWritten ports user e)
    | inr e ↦ rw e (
        denied-IsWritten store session stored is_sound _ _ user ports.mint ports.now ports.guidance)
  ]
