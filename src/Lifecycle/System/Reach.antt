-- ===== src/Lifecycle/System/Reach.antt =====
-- The stores that calls can reach, and what a human's approval does there.
use specsmither.Lifecycle.Executor.Rows.{is_audit, update_committed, mutation_committed}
use specsmither.Lifecycle.System.Invariant.{serve-IsSound, IsSound}
use specsmither.Lifecycle.System.Effects.{status_sound, sound}
use specsmither.Lifecycle.Verbs.{Ports, handover_result, is_awaiting, gate_passed}
use specsmither.Lifecycle.StateMachine.{
  is_terminal_phase, same_phase, index_of, phase_at, phase_index, phase_after, next_phase,
}
use specsmither.Lifecycle.System.{Request, serve, persist_handover, approve}
use specsmither.Lifecycle.Plan.{
  PlanningSessionRecord, WritePlan, appends, transition_item, build_approve_handover_write_plan,
}
use specsmither.Lifecycle.Executor.{Store, set_field, set_fields}
use specsmither.Lifecycle.Handover.{
  approve_terminal, approve_advance, approve_session, approve_handover, advanced_phase,
}
use specsmither.Base.Dict.{get, put}
use specsmither.Base.{
  Bool-cases, ℕ, String, ◌≡◌, refl, ap, ◌∙◌, inl, inr, Bool, true, Option, some, [], all, sym,
  false, none, arith,
}
use specsmither.Domain.Enums.{
  awaiting_human_review, active, closed, ready, PlanningSessionStatus, PlanningPhase, SpecStatus,
  human_approve, planning_spec, epic_decomposition, epic_expansion, ticket_decomposition,
  ticket_expansion, cross_validation, planned,
}

-- `after` comes from `before` by calls, each with its own clock, ids, specifications and validator.
pub data Reaches (S : Type 0) (is_blank : String → Bool) (before : Store) : Store → Type 0 where
  reached : Reaches S is_blank before before
  after_call :
      {after : Store} (ports : Ports S) (request : Request)
      → Reaches S is_blank before after
      → Reaches S is_blank before (serve is_blank after ports request)

Reaches-IsSound :
    {S : Type 0} (is_blank : String → Bool) {before after : Store}
    → IsSound before
    → Reaches S is_blank before after
    → IsSound after
Reaches-IsSound is_blank h reached = h
Reaches-IsSound is_blank h (after_call {after} ports request steps) =
    serve-IsSound is_blank after ports request (Reaches-IsSound is_blank h steps)

no_sessions-IsSound : (store : Store) → store.sessions ≡ [] → IsSound store
unfolding IsSound get
no_sessions-IsSound store empty k row e =
    let impossible : none ≡ some row = sym (ap (λ d. get d k) empty) ∙ e in cc

sound-passed :
    (session : PlanningSessionRecord) (status : PlanningSessionStatus)
    → sound session ≡ true
    → session.status ≡ status
    → is_awaiting status ≡ true
    → gate_passed session.last_gate_result ≡ true
unfolding sound status_sound is_awaiting
sound-passed session awaiting_human_review checked same parked =
    let agrees : status_sound session.status session.last_gate_result session.current_phase ≡ true =
      ground arith in
    sym (ap (λ st. status_sound st session.last_gate_result session.current_phase) same) ∙ agrees
sound-passed session active checked same parked = cc
sound-passed session closed checked same parked = cc

approve_passed :
    (session : PlanningSessionRecord) (user : Option String) (mint : ℕ → String) (now : String)
    → is_awaiting session.status ≡ true
    → gate_passed session.last_gate_result ≡ true
    → (new_status : PlanningSessionStatus) × (phase : PlanningPhase) × (plan : WritePlan)
      × (approve_session (some session) user mint now
          ≡ handover_result session.id new_status phase plan)
unfolding approve_session approve_terminal approve_advance
approve_passed session user mint now parked passed = rw parked (
    rw passed (elim (Bool-cases (is_terminal_phase session.current_phase)) [
      | inl t ↦ rw t ((_, _, _, refl))
      | inr t ↦ rw t ((_, _, _, refl))
    ]))

-- In every store that the five calls of `serve` reach from one without sessions, with no edit by the
-- action verb in between, a session that awaits review can be approved: `approve_handover` answers with a
-- result, never with an error such as a failing gate.
pub approve_handover-reachable :
    {S : Type 0} (is_blank : String → Bool) {before after : Store} (ports : Ports S) (id : String)
    (user : Option String) (session : PlanningSessionRecord)
    → before.sessions ≡ []
    → Reaches S is_blank before after
    → get after.sessions id ≡ some session
    → session.status ≡ awaiting_human_review
    → (new_status : PlanningSessionStatus) × (phase : PlanningPhase) × (plan : WritePlan)
      × (approve_handover after ports id user ≡ handover_result session.id new_status phase plan)
unfolding approve_handover IsSound is_awaiting
approve_handover-reachable is_blank {before} {after} ports id user session empty steps stored
      parked =
    let checked =
      (Reaches-IsSound is_blank (no_sessions-IsSound before empty) steps id session stored).1 in
    let passed = sound-passed session awaiting_human_review checked parked refl in
    let (status, phase, plan, same) =
      approve_passed session user ports.mint ports.now (ap is_awaiting parked) passed in
    (status, phase, plan, ap (λ o. approve_session o user ports.mint ports.now) stored ∙ same)

-- The phase after each phase; `planned` is the last.
unfoldable pub phase_following : PlanningPhase → PlanningPhase
phase_following planning_spec = epic_decomposition
phase_following epic_decomposition = epic_expansion
phase_following epic_expansion = ticket_decomposition
phase_following ticket_decomposition = ticket_expansion
phase_following ticket_expansion = cross_validation
phase_following cross_validation = planned
phase_following planned = planned

advanced_phase-following : (phase : PlanningPhase) → advanced_phase phase ≡ phase_following phase
unfolding advanced_phase next_phase phase_index phase_after index_of phase_at same_phase
    phase_following
advanced_phase-following planning_spec = refl
advanced_phase-following epic_decomposition = refl
advanced_phase-following epic_expansion = refl
advanced_phase-following ticket_decomposition = refl
advanced_phase-following ticket_expansion = refl
advanced_phase-following cross_validation = refl
advanced_phase-following planned = refl

-- An approval before the last phase, of a stored session that awaits review with a passing gate, leaves
-- the session active in the phase after its phase, with the trigger and times of the approval and every
-- other column as it was, and no other session and no specification changed.
pub approve_handover-advances :
    {S : Type 0} (is_blank : String → Bool) (store : Store) (ports : Ports S) (user : Option String)
    (session : PlanningSessionRecord)
    → get store.sessions session.id ≡ some session
    → is_awaiting session.status ≡ true
    → gate_passed session.last_gate_result ≡ true
    → is_terminal_phase session.current_phase ≡ false
    → (Store.sessions (serve is_blank store ports (approve session.id user))
        ≡ put store.sessions session.id (record session {
          status = active;
          current_phase = phase_following session.current_phase;
          last_transition_trigger = some human_approve;
          last_transition_at = some ports.now;
          last_action_at = some ports.now;
        }))
      × (Store.specs (serve is_blank store ports (approve session.id user)) ≡ store.specs)
unfolding serve approve_handover approve_session persist_handover approve_advance
    build_approve_handover_write_plan transition_item appends set_fields set_field all is_audit
approve_handover-advances is_blank store ports user session stored parked passed going = rw stored (
    rw parked (
      rw passed (
        rw going (
          rw (sym (advanced_phase-following session.current_phase))
            (update_committed store session.id _ session _ stored refl)))))

-- An approval in `cross_validation`, of a stored session that awaits review with a passing gate and
-- whose specification is stored, makes the specification ready and closes the session, with the trigger
-- and times of the approval, and changes no other specification and no other session.
pub approve_handover-closes :
    {S : Type 0} (is_blank : String → Bool) (store : Store) (ports : Ports S) (user : Option String)
    (session : PlanningSessionRecord) (old : SpecStatus)
    → get store.sessions session.id ≡ some session
    → get store.specs session.specification_id ≡ some old
    → is_awaiting session.status ≡ true
    → gate_passed session.last_gate_result ≡ true
    → is_terminal_phase session.current_phase ≡ true
    → (Store.sessions (serve is_blank store ports (approve session.id user))
        ≡ put store.sessions session.id (record session {
          status = closed;
          closed_at = some ports.now;
          last_transition_trigger = some human_approve;
          last_transition_at = some ports.now;
          last_action_at = some ports.now;
        }))
      × (Store.specs (serve is_blank store ports (approve session.id user))
          ≡ put store.specs session.specification_id ready)
unfolding serve approve_handover approve_session persist_handover approve_terminal
    build_approve_handover_write_plan appends set_fields set_field all is_audit
approve_handover-closes is_blank store ports user session old stored known parked passed ending =
    rw stored (
      rw parked (
        rw passed (
          rw ending (
            mutation_committed store session.specification_id ready old session.id _ session _ known
              stored refl))))
