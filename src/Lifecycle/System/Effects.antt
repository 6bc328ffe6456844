-- ===== src/Lifecycle/System/Effects.antt =====
-- What each verb leaves in the sessions: nothing, or one written row that is sound again.
use specsmither.Lifecycle.Complete.{complete_success}
use specsmither.Lifecycle.Executor.Rows.{
  is_audit, update_committed, audit_only_committed, mutation_committed, mutation_rolled_back,
}
use specsmither.Lifecycle.Verbs.{gate_passed, is_awaiting, agent_action, denied_plan}
use specsmither.Lifecycle.StateMachine.{
  same_phase, index_of, phase_at, phase_index, phase_after, next_phase, is_terminal_phase,
}
use specsmither.Lifecycle.System.{persist_handover, persist_verb}
use specsmither.Lifecycle.Plan.{
  PlanningSessionRecord, set_status, set_current_phase, set_last_action_at, set_last_transition_at,
  set_last_transition_trigger, appends, transition_item, build_approve_handover_write_plan,
  set_closed_at, set_last_validated_at, set_pending_human_feedback, set_last_gate_result,
  build_action, build_cps_success_write_plan, build_reject_handover_with_feedback_write_plan,
  build_reject_handover_write_plan, set_last_process_guidance,
}
use specsmither.Lifecycle.Executor.{Store, set_field, set_fields}
use specsmither.Lifecycle.Handover.{
  advanced_phase, approve_advance, approve_terminal, reject_session, feedback_session,
}
use specsmither.Base.{
  all, ℕ, String, ◌≡◌, refl, Bool, true, false, not, ◌&&◌, Option, some, [], ◌∷◌, arith, Bool-cases,
  Option-cases, ap, inl, inr,
}
use specsmither.Base.Dict.{Dict, get, put}
use specsmither.Domain.Enums.{
  PlanningSessionStatus, active, awaiting_human_review, closed, PlanningPhase, planning_spec,
  epic_decomposition, epic_expansion, ticket_decomposition, ticket_expansion, cross_validation,
  planned, human_approve, GateResult, ready, human_reject_with_feedback, human_reject_no_feedback,
  denied, pass,
}

-- A parked session has a passing gate, and a closed one is in `cross_validation`.
unfoldable pub status_sound : PlanningSessionStatus → Option GateResult → PlanningPhase → Bool
status_sound active gate phase = true
status_sound awaiting_human_review gate phase = gate_passed gate
status_sound closed gate phase = is_terminal_phase phase

-- The status agrees with the gate result and the phase, and the phase is not the marker `planned`.
unfoldable pub sound : PlanningSessionRecord → Bool
unfolding status_sound
sound row =
    status_sound row.status row.last_gate_result row.current_phase
    && not (same_phase row.current_phase planned)

-- The sessions after a call: as before, or with a sound row written under its own id.
pub data IsWritten (before after : Dict PlanningSessionRecord) : Type 0 where
  kept : after ≡ before → IsWritten before after
  written :
      (row : PlanningSessionRecord)
      → sound row ≡ true
      → after ≡ put before row.id row
      → IsWritten before after

advanced_phase-planned :
    (phase : PlanningPhase)
    → is_terminal_phase phase ≡ false
    → same_phase phase planned ≡ false
    → same_phase (advanced_phase phase) planned ≡ false
unfolding advanced_phase next_phase phase_index phase_after index_of phase_at same_phase
    is_terminal_phase
advanced_phase-planned planning_spec t p = refl
advanced_phase-planned epic_decomposition t p = refl
advanced_phase-planned epic_expansion t p = refl
advanced_phase-planned ticket_decomposition t p = refl
advanced_phase-planned ticket_expansion t p = refl
advanced_phase-planned cross_validation t p = cc
advanced_phase-planned planned t p = p

module _ (store : Store) (session : PlanningSessionRecord)
    (stored : get store.sessions session.id ≡ some session) (is_sound : sound session ≡ true) where
  pub phase_lem : same_phase session.current_phase planned ≡ false
  unfolding sound
  phase_lem = ground arith

  pub approve_advance-IsWritten :
      (user : Option String) (mint : ℕ → String) (now : String)
      → is_terminal_phase session.current_phase ≡ false
      → IsWritten store.sessions
          (Store.sessions (persist_handover store (approve_advance session user mint now)))
  unfolding persist_handover approve_advance build_approve_handover_write_plan transition_item
      appends sound status_sound set_fields set_field all is_audit
  approve_advance-IsWritten user mint now going =
      written
        (set_fields session (
          set_status active
          ∷ set_current_phase (advanced_phase session.current_phase)
          ∷ set_last_transition_trigger human_approve
          ∷ set_last_transition_at now
          ∷ set_last_action_at now
          ∷ []))
        (rw (advanced_phase-planned session.current_phase going phase_lem) refl)
        (update_committed store session.id _ session _ stored refl).0

  pub approve_terminal-IsWritten :
      (user : Option String) (mint : ℕ → String) (now : String)
      → is_terminal_phase session.current_phase ≡ true
      → IsWritten store.sessions
          (Store.sessions (persist_handover store (approve_terminal session user mint now)))
  unfolding persist_handover approve_terminal build_approve_handover_write_plan appends sound
      status_sound set_fields set_field all is_audit
  approve_terminal-IsWritten user mint now ending =
      elim (Option-cases (get store.specs session.specification_id)) [
        | inl unknown ↦ kept (
            ap Store.sessions (mutation_rolled_back store session.specification_id ready _ unknown))
        | inr (old, known) ↦
            written
              (set_fields session (
                set_status closed
                ∷ set_closed_at now
                ∷ set_last_transition_trigger human_approve
                ∷ set_last_transition_at now
                ∷ set_last_action_at now
                ∷ []))
              (rw ending (rw phase_lem refl))
              (mutation_committed store session.specification_id ready old session.id _ session _
                known stored refl).0
      ]

  pub reject-IsWritten :
      (user : Option String) (mint : ℕ → String) (now : String)
      → IsWritten store.sessions
          (Store.sessions (persist_handover store (reject_session (some session) user mint now)))
  unfolding persist_handover reject_session build_reject_handover_write_plan sound status_sound
      set_fields set_field all is_audit
  reject-IsWritten user mint now = elim (Bool-cases (is_awaiting session.status)) [
    | inl e ↦ rw e (
        written
          (set_fields session (
            set_status active
            ∷ set_last_transition_trigger human_reject_no_feedback
            ∷ set_last_transition_at now
            ∷ set_last_action_at now
            ∷ []))
          (rw phase_lem refl) (update_committed store session.id _ session _ stored refl).0)
    | inr e ↦ rw e (kept refl)
  ]

  pub feedback-IsWritten :
      (text : String) (user : Option String) (mint : ℕ → String) (now : String)
      → IsWritten store.sessions (
          Store.sessions
            (persist_handover store (feedback_session (some session) text user mint now)))
  unfolding persist_handover feedback_session build_reject_handover_with_feedback_write_plan sound
      status_sound set_fields set_field all is_audit
  feedback-IsWritten text user mint now = elim (Bool-cases (is_awaiting session.status)) [
    | inl e ↦ rw e (
        written
          (set_fields session (
            set_status active
            ∷ set_pending_human_feedback
                (record { content = text; recorded_at = now; recorded_by_user_id = user })
            ∷ set_last_transition_trigger human_reject_with_feedback
            ∷ set_last_transition_at now
            ∷ set_last_action_at now
            ∷ []))
          (rw phase_lem refl) (update_committed store session.id _ session _ stored refl).0)
    | inr e ↦ rw e (kept refl)
  ]

  pub denied-IsWritten :
      (operation code : String) (user : Option String) (mint : ℕ → String) (now guidance : String)
      → IsWritten store.sessions (
          Store.sessions
            (persist_verb store (denied_plan session operation code user mint now guidance)))
  unfolding persist_verb denied_plan sound
  denied-IsWritten operation code user mint now guidance =
      written (record session { last_process_guidance = some guidance; last_action_at = some now })
        is_sound
        (unfold agent_action build_action in
          (audit_only_committed store session.id
            (agent_action session (mint 0) operation denied (some code) user now) guidance session
            stored).0)

  pub complete_success-IsWritten :
      (user : Option String) (mint : ℕ → String) (now guidance : String)
      → IsWritten store.sessions
          (Store.sessions (persist_verb store (complete_success session user mint now guidance)))
  unfolding persist_verb complete_success build_cps_success_write_plan sound status_sound
      gate_passed set_fields set_field all is_audit agent_action build_action
  complete_success-IsWritten user mint now guidance =
      written
        (set_fields session (
          set_last_process_guidance guidance
          ∷ set_status awaiting_human_review
          ∷ set_last_gate_result pass
          ∷ set_last_validated_at now
          ∷ set_last_action_at now
          ∷ []))
        (rw phase_lem refl) (update_committed store session.id _ session _ stored refl).0
