-- ===== src/Lifecycle/System/Ready.antt =====
-- A specification becomes `ready` only by the approval of its session's last phase.
use specsmither.Base.Text.{◌==◌}
use specsmither.Lifecycle.System.Harmless.{is_ready, IsKept, is_harmless, commit-IsKept, plain-kept}
use specsmither.Lifecycle.Verbs.{
  Ports, invalid_feedback, handover_error, is_awaiting, is_active, gate_passed, denied_plan,
}
use specsmither.Lifecycle.StateMachine.{is_terminal_phase}
use specsmither.Lifecycle.Start.{
  sps_accepts, get_active_for_spec, create_session, resume_session, start_with, start_spec,
  start_planning_session,
}
use specsmither.Lifecycle.System.{
  persist_handover, persist_verb, Request, start, complete, approve, reject, reject_with_feedback,
  serve,
}
use specsmither.Lifecycle.Plan.{
  PlanningSessionRecord, is_draft, build_sps_create_write_plan, build_sps_resume_write_plan,
  audit_only_plan, build_cps_success_write_plan, appends, transition_item,
  build_approve_handover_write_plan, build_reject_handover_with_feedback_write_plan,
  build_reject_handover_write_plan,
}
use specsmither.Lifecycle.Executor.{Store}
use specsmither.Lifecycle.Handover.{
  approve_terminal, approve_advance, approve_session, approve_handover, reject_session,
  reject_handover, feedback_session, reject_handover_with_feedback,
}
use specsmither.Lifecycle.Complete.{
  complete_success, cps_accepts, gate_currently_passing, complete_session,
  complete_planning_session,
}
use specsmither.Base.Dict.{get}
use specsmither.Base.{
  if◌then◌else◌, Bool-cases, all, ℕ, String, ◌≡◌, refl, sym, ◌≢◌, ◌⊎◌, inl, inr, Bool, true, false,
  Option, none, some, arith, eq_iff, eq_refl,
}
use specsmither.Domain.Enums.{SpecStatus, ready}

-- The approval of the last phase: the request, and the session with the state it needs.
pub record IsApproval (store : Store) (request : Request) (spec_id : String) : Type 0 where
  pub session_id : String
  pub user : Option String
  pub session : PlanningSessionRecord
  pub asked : request ≡ approve session_id user
  pub stored : get store.sessions session_id ≡ some session
  pub of_spec : spec_id ≡ session.specification_id
  pub parked : is_awaiting session.status ≡ true
  pub passed : gate_passed session.last_gate_result ≡ true
  pub last_phase : is_terminal_phase session.current_phase ≡ true

-- A call that is no approval of a last phase.
module _ (store : Store) (s : String) where
  IsPlain : Store → Type 0
  IsPlain after = get after.specs s ≡ some ready → get store.specs s ≡ some ready

  denied-IsPlain :
      (session : PlanningSessionRecord) (operation code : String) (user : Option String)
      (mint : ℕ → String) (now guidance : String)
      → IsPlain (persist_verb store (denied_plan session operation code user mint now guidance))
  unfolding IsPlain persist_verb denied_plan audit_only_plan all is_harmless
  denied-IsPlain session operation code user mint now guidance e = plain-kept store _ s refl e

  complete-IsPlain :
      {S : Type 0} (ports : Ports S) (user : Option String) (read : Option PlanningSessionRecord)
      → IsPlain (persist_verb store (complete_session store ports read user))
  unfolding IsPlain persist_verb complete_session complete_success build_cps_success_write_plan all
      is_harmless
  complete-IsPlain ports user none = λ e. e
  complete-IsPlain ports user (some session) = elim (Bool-cases (is_active session.status)) [
    | inr e ↦ rw e (denied-IsPlain session _ _ user ports.mint ports.now ports.guidance)
    | inl e ↦ rw e (elim (Bool-cases (cps_accepts (get store.specs session.specification_id))) [
      | inr p ↦ rw p (denied-IsPlain session _ _ user ports.mint ports.now ports.guidance)
      | inl p ↦
          rw p
            (elim (Bool-cases (
              gate_currently_passing ports session.current_phase
                (ports.get_spec_full session.specification_id))) [
                  | inr g ↦
                      rw g (denied-IsPlain session _ _ user ports.mint ports.now ports.guidance)
                  | inl g ↦ rw g (λ h. plain-kept store _ s refl h)
                ])
    ])
  ]

  start_with-IsPlain :
      {S : Type 0} (ports : Ports S) (spec_id : String) (status : SpecStatus) (user : Option String)
      (found : Option PlanningSessionRecord)
      → IsPlain (persist_verb store (start_with ports spec_id status found user))
  unfolding IsPlain persist_verb start_with create_session build_sps_create_write_plan
      resume_session build_sps_resume_write_plan all is_harmless is_ready
  start_with-IsPlain ports spec_id status user none = elim (Bool-cases (is_draft status)) [
    | inl e ↦ rw e (λ h. plain-kept store _ s refl h)
    | inr e ↦ rw e (λ h. plain-kept store _ s refl h)
  ]
  start_with-IsPlain ports spec_id status user (some session) =
      elim (Bool-cases (is_active session.status)) [
        | inl e ↦ rw e (λ h. plain-kept store _ s refl h)
        | inr e ↦ rw e (denied-IsPlain session _ _ user ports.mint ports.now ports.guidance)
      ]

  start-IsPlain :
      {S : Type 0} (ports : Ports S) (spec_id : String) (user : Option String)
      (read : Option SpecStatus)
      → IsPlain (persist_verb store (start_spec store ports spec_id read user))
  unfolding IsPlain persist_verb start_spec
  start-IsPlain ports spec_id user none = λ e. e
  start-IsPlain ports spec_id user (some status) = elim (Bool-cases (sps_accepts status)) [
    | inr e ↦ rw e (λ h. h)
    | inl e ↦
        rw e (
          start_with-IsPlain ports spec_id status user (get_active_for_spec store.sessions spec_id))
  ]

  reject-IsPlain :
      (user : Option String) (mint : ℕ → String) (now : String)
      (read : Option PlanningSessionRecord)
      → IsPlain (persist_handover store (reject_session read user mint now))
  unfolding IsPlain persist_handover reject_session build_reject_handover_write_plan all is_harmless
  reject-IsPlain user mint now none = λ e. e
  reject-IsPlain user mint now (some session) = elim (Bool-cases (is_awaiting session.status)) [
    | inl e ↦ rw e (λ h. plain-kept store _ s refl h)
    | inr e ↦ rw e (λ h. h)
  ]

  feedback-IsPlain :
      (text : String) (user : Option String) (mint : ℕ → String) (now : String)
      (read : Option PlanningSessionRecord)
      → IsPlain (persist_handover store (feedback_session read text user mint now))
  unfolding IsPlain persist_handover feedback_session build_reject_handover_with_feedback_write_plan
      all is_harmless
  feedback-IsPlain text user mint now none = λ e. e
  feedback-IsPlain text user mint now (some session) =
      elim (Bool-cases (is_awaiting session.status)) [
        | inl e ↦ rw e (λ h. plain-kept store _ s refl h)
        | inr e ↦ rw e (λ h. h)
      ]

  feedback_call-IsPlain :
      (blank : Bool) (text : String) (user : Option String) (mint : ℕ → String) (now : String)
      (read : Option PlanningSessionRecord)
      → IsPlain (
          persist_handover store (
            if blank
            then handover_error invalid_feedback
            else feedback_session read text user mint now))
  unfolding IsPlain persist_handover
  feedback_call-IsPlain true text user mint now read h = h
  feedback_call-IsPlain false text user mint now read h =
      unfold IsPlain in (feedback-IsPlain text user mint now read h)

  approve_advance-IsPlain :
      (session : PlanningSessionRecord) (user : Option String) (mint : ℕ → String) (now : String)
      → IsPlain (persist_handover store (approve_advance session user mint now))
  unfolding IsPlain persist_handover approve_advance build_approve_handover_write_plan
      transition_item appends all is_harmless
  approve_advance-IsPlain session user mint now h = plain-kept store _ s refl h

  approve_terminal-kept :
      (session : PlanningSessionRecord) (user : Option String) (mint : ℕ → String) (now : String)
      → get (Store.specs (persist_handover store (approve_terminal session user mint now))) s
        ≡ some ready
      → (get store.specs s ≡ some ready) ⊎ (session.specification_id ≡ s)
  unfolding IsKept persist_handover approve_terminal build_approve_handover_write_plan appends all
      is_harmless is_ready
  approve_terminal-kept session user mint now h =
      elim (commit-IsKept (λ k. session.specification_id == k) store _
        (ground (arith, eq_refl session.specification_id)) s h) [
          | inl old ↦ inl old
          | inr e ↦ inr (ground (arith, eq_iff session.specification_id s))
        ]

  approve-cause :
      (id : String) (user : Option String) (mint : ℕ → String) (now : String)
      (read : Option PlanningSessionRecord)
      → get store.sessions id ≡ read
      → get (Store.specs (persist_handover store (approve_session read user mint now))) s
        ≡ some ready
      → (get store.specs s ≡ some ready) ⊎ IsApproval store (approve id user) s
  unfolding approve_session persist_handover
  approve-cause id user mint now none there = λ h. inl h
  approve-cause id user mint now (some session) there =
      elim (Bool-cases (is_awaiting session.status)) [
        | inr e ↦ rw e (λ h. inl h)
        | inl e ↦ rw e (elim (Bool-cases (gate_passed session.last_gate_result)) [
          | inr g ↦ rw g (λ h. inl h)
          | inl g ↦ rw g (elim (Bool-cases (is_terminal_phase session.current_phase)) [
            | inr t ↦
                rw t
                  (λ h. inl (unfold IsPlain in (approve_advance-IsPlain session user mint now h)))
            | inl t ↦ rw t (λ h. elim (approve_terminal-kept session user mint now h) [
              | inl old ↦ inl old
              | inr same ↦ inr (record {
                session_id = id;
                user = user;
                session = session;
                asked = refl;
                stored = there;
                of_spec = sym same;
                parked = e;
                passed = g;
                last_phase = t;
              })
            ])
          ])
        ])
      ]

-- When one of the five calls leaves a specification `ready` that was not, it was an approval, of a
-- stored session of that specification that awaited review with a passing gate in `cross_validation`.
pub serve-ready :
    {S : Type 0} (is_blank : String → Bool) (store : Store) (ports : Ports S) (request : Request)
    (spec_id : String)
    → get store.specs spec_id ≢ some ready
    → get (Store.specs (serve is_blank store ports request)) spec_id ≡ some ready
    → IsApproval store request spec_id
unfolding serve start_planning_session complete_planning_session approve_handover reject_handover
    reject_handover_with_feedback IsPlain
serve-ready is_blank store ports (start id user) spec_id fresh h =
    elim (fresh (start-IsPlain store spec_id ports id user (get store.specs id) h)) [ ]
serve-ready is_blank store ports (complete id user) spec_id fresh h =
    elim (fresh (complete-IsPlain store spec_id ports user (get store.sessions id) h)) [ ]
serve-ready is_blank store ports (reject id user) spec_id fresh h =
    elim (fresh
      (reject-IsPlain store spec_id user ports.mint ports.now (get store.sessions id) h)) [ ]
serve-ready is_blank store ports (reject_with_feedback id text user) spec_id fresh h =
    elim (fresh (
      feedback_call-IsPlain store spec_id (is_blank text) text user ports.mint ports.now
        (get store.sessions id) h)) [ ]
serve-ready is_blank store ports (approve id user) spec_id fresh h =
    elim (approve-cause store spec_id id user ports.mint ports.now (get store.sessions id) refl h) [
      | inl old ↦ elim (fresh old) [ ]
      | inr cause ↦ cause
    ]
