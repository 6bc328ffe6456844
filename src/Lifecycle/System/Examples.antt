-- ===== src/Lifecycle/System/Examples.antt =====
-- A specification through its review: the last phase is parked, then approved.
use specsmither.Lifecycle.System.Outcomes.{
  complete_planning_session-parks, reject_handover_with_feedback-returns,
}
use specsmither.Lifecycle.Start.{start_planning_session}
use specsmither.Lifecycle.Complete.{complete_planning_session, cps_accepts, gate_currently_passing}
use specsmither.Base.Text.{◌==◌}
use specsmither.Lifecycle.System.Reach.{
  approve_handover-advances, approve_handover-closes, reached, after_call,
  approve_handover-reachable, phase_following,
}
use specsmither.Lifecycle.System.Ready.{IsApproval, serve-ready}
use specsmither.Lifecycle.System.Invariant.{serve-IsSound, IsSound}
use specsmither.Lifecycle.Verbs.{Ports, is_awaiting, gate_passed, handover_result, is_active}
use specsmither.Lifecycle.StateMachine.{is_terminal_phase}
use specsmither.Lifecycle.System.{
  persist_handover, start, complete, approve, serve, persist_verb, reject_with_feedback,
}
use specsmither.Lifecycle.Plan.{PlanningSessionRecord, build_approve_handover_write_plan, WritePlan}
use specsmither.Lifecycle.Executor.{
  Store, apply_write_plan, commit_write_plan, apply_item, and_apply,
}
use specsmither.Lifecycle.Handover.{approve_terminal, approve_session, approve_handover}
use specsmither.Base.Dict.{get, put}
use specsmither.Base.{leb, nat_eq, if◌then◌else◌, ℕ, String, ◌≡◌, refl, Bool, none, some, [], ◌∷◌}
use specsmither.Domain.Enums.{
  awaiting_human_review, active, closed, ready, planning, PlanningPhase, epic_expansion,
  cross_validation, ai_agent, human_approve, pass, PlanningSessionStatus, planning_spec,
  auto_initial, human_reject_with_feedback,
}

abbrev parked_session : PlanningPhase → PlanningSessionRecord
parked_session phase = record {
  id = "p1";
  specification_id = "s1";
  status = awaiting_human_review;
  current_phase = phase;
  started_at = some "t0";
  last_action_at = some "t1";
  closed_at = none;
  actions_count = 0;
  pending_human_feedback = none;
  last_transition_trigger = some ai_agent;
  last_transition_at = some "t1";
  last_read_at = none;
  last_validated_at = some "t1";
  last_gate_result = some pass;
  last_process_guidance = none;
}

abbrev store_in : PlanningPhase → Store
store_in phase = record {
  specs = ("s1", planning) ∷ [];
  sessions = ("p1", parked_session phase) ∷ [];
  actions = [];
  transitions = [];
}

abbrev empty_store : Store
empty_store = record {
  specs = ("s1", planning) ∷ [];
  sessions = [];
  actions = [];
  transitions = [];
}

abbrev fixed_ports : Ports ℕ
fixed_ports = record {
  now = "t2";
  guidance = "g";
  mint = λ n. if nat_eq n 0 then "i0" else if nat_eq n 1 then "i1" else "i2";
  get_spec_full = λ id. some (record { id = id; epics = [] });
  validate = λ full phase. record {
    gate_result = pass;
    local_score = 90;
    per_epic_score = [];
    per_ticket_score = [];
    findings = [];
  };
  thresholds = record { specification = 70; epic = 70; ticket = 70 };
  zero_score = 0;
  at_least = λ a b. leb b a;
}

abbrev is_blank : String → Bool
is_blank text = text == ""

approve_handover-advances_example :
    (Store.sessions (serve is_blank (store_in epic_expansion) fixed_ports (approve "p1" none))
      ≡ put
          (Store.sessions (store_in epic_expansion))
          "p1"
          (record (parked_session epic_expansion) {
            status = active;
            current_phase = phase_following epic_expansion;
            last_transition_trigger = some human_approve;
            last_transition_at = some "t2";
            last_action_at = some "t2";
          }))
    × (Store.specs (serve is_blank (store_in epic_expansion) fixed_ports (approve "p1" none))
        ≡ Store.specs (store_in epic_expansion))
unfolding get is_awaiting gate_passed is_terminal_phase
approve_handover-advances_example =
    approve_handover-advances is_blank (store_in epic_expansion) fixed_ports none
      (parked_session epic_expansion) refl refl refl refl

approve_handover-closes_example :
    (Store.sessions (serve is_blank (store_in cross_validation) fixed_ports (approve "p1" none))
      ≡ put
          (Store.sessions (store_in cross_validation))
          "p1"
          (record (parked_session cross_validation) {
            status = closed;
            closed_at = some "t2";
            last_transition_trigger = some human_approve;
            last_transition_at = some "t2";
            last_action_at = some "t2";
          }))
    × (Store.specs (serve is_blank (store_in cross_validation) fixed_ports (approve "p1" none))
        ≡ put (Store.specs (store_in cross_validation)) "s1" ready)
unfolding get is_awaiting gate_passed is_terminal_phase
approve_handover-closes_example =
    approve_handover-closes is_blank (store_in cross_validation) fixed_ports none
      (parked_session cross_validation) planning refl refl refl refl refl

serve-ready_example : IsApproval (store_in cross_validation) (approve "p1" none) "s1"
unfolding serve approve_handover approve_session approve_terminal persist_handover commit_write_plan
    apply_write_plan build_approve_handover_write_plan get and_apply apply_item
serve-ready_example =
    serve-ready is_blank (store_in cross_validation) fixed_ports (approve "p1" none) "s1" (λ e. cc)
      refl

empty-IsSound : IsSound empty_store
unfolding IsSound get
empty-IsSound k row e = cc

serve-IsSound_example : IsSound (serve is_blank empty_store fixed_ports (start "s1" none))
serve-IsSound_example =
    serve-IsSound is_blank empty_store fixed_ports (start "s1" none) empty-IsSound

-- A session started and handed over.
abbrev two_calls : Store
two_calls =
    serve is_blank (serve is_blank empty_store fixed_ports (start "s1" none)) fixed_ports
      (complete "i0" none)

abbrev handed_over : PlanningSessionRecord
handed_over = record {
  id = "i0";
  specification_id = "s1";
  status = awaiting_human_review;
  current_phase = planning_spec;
  started_at = some "t2";
  last_action_at = some "t2";
  closed_at = none;
  actions_count = 0;
  pending_human_feedback = none;
  last_transition_trigger = some auto_initial;
  last_transition_at = some "t2";
  last_read_at = some "t2";
  last_validated_at = some "t2";
  last_gate_result = some pass;
  last_process_guidance = some "g";
}

two_calls-handed_over : get two_calls.sessions "i0" ≡ some handed_over
unfolding serve start_planning_session complete_planning_session persist_verb commit_write_plan
    apply_write_plan and_apply apply_item get put
two_calls-handed_over = refl

approve_handover-reachable_example :
    (new_status : PlanningSessionStatus) × (phase : PlanningPhase) × (plan : WritePlan)
    × (approve_handover two_calls fixed_ports "i0" none
        ≡ handover_result handed_over.id new_status phase plan)
approve_handover-reachable_example =
    approve_handover-reachable is_blank {before = empty_store} {after = two_calls} fixed_ports "i0"
      none handed_over refl
      (after_call fixed_ports (complete "i0" none)
        (after_call fixed_ports (start "s1" none) reached))
      two_calls-handed_over refl

abbrev started : PlanningSessionRecord
started = record handed_over { status = active; last_gate_result = none; last_validated_at = none }

abbrev started_store : Store
started_store = record empty_store { sessions = ("i0", started) ∷ [] }

complete_planning_session-parks_example :
    (Store.sessions (serve is_blank started_store fixed_ports (complete "i0" none))
      ≡ put started_store.sessions "i0" (record started {
        status = awaiting_human_review;
        last_gate_result = some pass;
        last_process_guidance = some "g";
        last_validated_at = some "t2";
        last_action_at = some "t2";
      }))
    × (Store.specs (serve is_blank started_store fixed_ports (complete "i0" none))
        ≡ started_store.specs)
unfolding get is_active cps_accepts gate_currently_passing
complete_planning_session-parks_example =
    complete_planning_session-parks is_blank started_store fixed_ports none started refl refl refl
      refl

reject_handover_with_feedback-returns_example :
    (Store.sessions (
        serve is_blank
          (store_in epic_expansion)
          fixed_ports
          (reject_with_feedback "p1" "rework" none))
      ≡ put
          (Store.sessions (store_in epic_expansion))
          "p1"
          (record (parked_session epic_expansion) {
            status = active;
            pending_human_feedback =
                some
                  (record { content = "rework"; recorded_at = "t2"; recorded_by_user_id = none });
            last_transition_trigger = some human_reject_with_feedback;
            last_transition_at = some "t2";
            last_action_at = some "t2";
          }))
    × (Store.specs (
          serve is_blank
            (store_in epic_expansion)
            fixed_ports
            (reject_with_feedback "p1" "rework" none))
        ≡ Store.specs (store_in epic_expansion))
unfolding get is_awaiting
reject_handover_with_feedback-returns_example =
    reject_handover_with_feedback-returns is_blank (store_in epic_expansion) fixed_ports "rework"
      none (parked_session epic_expansion) refl refl refl
