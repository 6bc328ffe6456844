-- ===== src/Lifecycle/System/Invariant.antt =====
-- The invariant of every call, and what follows for the sessions that calls can reach.
use specsmither.Lifecycle.System.Calls.{approve-IsWritten, complete-IsWritten, open-IsWritten}
use specsmither.Lifecycle.Executor.Rows.{create_committed}
use specsmither.Lifecycle.StateMachine.{same_phase}
use specsmither.Domain.Enums.{SpecStatus}
use specsmither.Lifecycle.Start.{
  is_open, open_or, open_among, get_active_for_spec, start_with, sps_accepts, create_session,
  start_spec, start_planning_session,
}
use specsmither.Lifecycle.Handover.{
  approve_session, reject_session, feedback_session, approve_handover, reject_handover,
  reject_handover_with_feedback,
}
use specsmither.Lifecycle.Complete.{complete_session, complete_planning_session}
use specsmither.Lifecycle.Verbs.{Ports}
use specsmither.Lifecycle.System.{
  Request, serve, persist_handover, persist_verb, start, complete, approve, reject,
  reject_with_feedback,
}
use specsmither.Base.Text.{◌==◌}
use specsmither.Lifecycle.System.Effects.{
  IsWritten, kept, written, sound, status_sound, reject-IsWritten, feedback-IsWritten,
}
use specsmither.Lifecycle.Plan.{PlanningSessionRecord, new_session_fields}
use specsmither.Lifecycle.Executor.{Store, default_session, set_field, set_fields}
use specsmither.Base.Dict.{get, get-put, keys, put, or_else}
use specsmither.Base.{
  Bool-cases, String, ◌≡◌, sym, ap, ◌∙◌, inl, inr, true, some, if◌then◌else◌, refl, Bool, false,
  arith, eq_iff, ◌&&◌, Option, none, List, [], ◌∷◌, ◌⊎◌,
}

-- Every session stands under its own id and is sound.
unfoldable pub IsSound : Store → Type 0
IsSound store =
    (k : String) (row : PlanningSessionRecord)
    → get store.sessions k ≡ some row
    → (row.id ≡ k) × (sound row ≡ true)

replaced-IsSound :
    (old : Option PlanningSessionRecord) (new row : PlanningSessionRecord) (k : String)
    (same : Bool)
    → sound new ≡ true
    → new.id == k ≡ same
    → (old ≡ some row → (row.id ≡ k) × (sound row ≡ true))
    → (if same then some new else old) ≡ some row
    → (row.id ≡ k) × (sound row ≡ true)
replaced-IsSound old new row k true is_sound e h found =
    let same_row : new ≡ row = cc in
    (
      ap PlanningSessionRecord.id (sym same_row) ∙ ground (arith, eq_iff new.id k),
      ap sound (sym same_row) ∙ is_sound,
    )
replaced-IsSound old new row k false is_sound e h found = h found

written-IsSound :
    (before after : Store)
    → IsSound before
    → IsWritten before.sessions after.sessions
    → IsSound after
unfolding IsSound
written-IsSound before after h (kept same) k row stored =
    h k row (ap (λ d. get d k) (sym same) ∙ stored)
written-IsSound before after h (written new is_sound same) k row stored =
    replaced-IsSound (get before.sessions k) new row k (new.id == k) is_sound refl (h k row)
      (sym (get-put before.sessions new.id k new) ∙ ap (λ d. get d k) (sym same) ∙ stored)

-- A row that a sound store holds is found under its own id.
own_id :
    (store : Store)
    → IsSound store
    → (k : String) (row : PlanningSessionRecord) → get store.sessions k ≡ some row
    → get store.sessions row.id ≡ some row
unfolding IsSound
own_id store h k row stored = ap (get store.sessions) (h k row stored).0 ∙ stored

module _ {S : Type 0} (store : Store) (ports : Ports S) (h : IsSound store) where
  approve_found :
      (id : String) (user : Option String) (found : Option PlanningSessionRecord)
      → get store.sessions id ≡ found
      → IsWritten store.sessions (
          Store.sessions (persist_handover store (approve_session found user ports.mint ports.now)))
  unfolding persist_handover approve_session IsSound
  approve_found id user none e = kept refl
  approve_found id user (some row) e =
      approve-IsWritten store row (own_id store h id row e) (h id row e).1 user ports.mint ports.now

  reject_found :
      (id : String) (user : Option String) (found : Option PlanningSessionRecord)
      → get store.sessions id ≡ found
      → IsWritten store.sessions
          (Store.sessions (persist_handover store (reject_session found user ports.mint ports.now)))
  unfolding persist_handover reject_session IsSound
  reject_found id user none e = kept refl
  reject_found id user (some row) e =
      reject-IsWritten store row (own_id store h id row e) (h id row e).1 user ports.mint ports.now

  feedback_found :
      (id text : String) (user : Option String) (found : Option PlanningSessionRecord)
      → get store.sessions id ≡ found
      → IsWritten store.sessions (
          Store.sessions
            (persist_handover store (feedback_session found text user ports.mint ports.now)))
  unfolding persist_handover feedback_session IsSound
  feedback_found id text user none e = kept refl
  feedback_found id text user (some row) e =
      feedback-IsWritten store row (own_id store h id row e) (h id row e).1 text user ports.mint
        ports.now

  complete_found :
      (id : String) (user : Option String) (found : Option PlanningSessionRecord)
      → get store.sessions id ≡ found
      → IsWritten store.sessions
          (Store.sessions (persist_verb store (complete_session store ports found user)))
  unfolding persist_verb complete_session IsSound
  complete_found id user none e = kept refl
  complete_found id user (some row) e =
      complete-IsWritten store row (own_id store h id row e) (h id row e).1 ports user

  open_or-some :
      (o rest : Option PlanningSessionRecord) (spec_id : String) (row : PlanningSessionRecord)
      → open_or o spec_id rest ≡ some row
      → (o ≡ some row) ⊎ (rest ≡ some row)
  unfolding open_or
  open_or-some none rest spec_id row e = inr e
  open_or-some (some found) rest spec_id row e =
      elim (Bool-cases (found.specification_id == spec_id && is_open found.status)) [
        | inl q ↦ inl (sym (ap (λ b. if b then some found else rest) q) ∙ e)
        | inr q ↦ inr (sym (ap (λ b. if b then some found else rest) q) ∙ e)
      ]

  open_among-some :
      (spec_id : String) (ids : List String) (row : PlanningSessionRecord)
      → open_among store.sessions spec_id ids ≡ some row
      → (k : String) × (get store.sessions k ≡ some row)
  unfolding open_among
  open_among-some spec_id [] row e = cc
  open_among-some spec_id (id ∷ ids) row e =
      elim (open_or-some (get store.sessions id) (open_among store.sessions spec_id ids) spec_id row
        e) [ inl here ↦ (id, here) | inr later ↦ open_among-some spec_id ids row later ]

  base_id :
      (id : String) (found : Option PlanningSessionRecord)
      → get store.sessions id ≡ found
      → PlanningSessionRecord.id (or_else found (default_session id)) ≡ id
  unfolding IsSound
  base_id id none e = refl
  base_id id (some row) e = (h id row e).0

  create_written :
      (spec_id : String) (status : SpecStatus) (user : Option String)
      → IsWritten store.sessions (
          Store.sessions (
            persist_verb store
              (create_session spec_id status user ports.mint ports.now ports.guidance)))
  unfolding persist_verb create_session new_session_fields set_fields set_field sound status_sound
      same_phase
  create_written spec_id status user =
      let base = or_else (get store.sessions (ports.mint 0)) (default_session (ports.mint 0)) in
      elim (create_committed store spec_id status (ports.mint 0)
        (new_session_fields spec_id ports.now ports.guidance) _ base refl) [
          | inl same ↦ kept same
          | inr same ↦
              written (set_fields base (new_session_fields spec_id ports.now ports.guidance)) refl (
                same
                ∙ ap
                    (λ k.
                      put store.sessions k
                        (set_fields base (new_session_fields spec_id ports.now ports.guidance)))
                    (sym (base_id (ports.mint 0) (get store.sessions (ports.mint 0)) refl)))
        ]

  start_found :
      (spec_id : String) (status : SpecStatus) (user : Option String)
      (found : Option PlanningSessionRecord)
      → get_active_for_spec store.sessions spec_id ≡ found
      → IsWritten store.sessions
          (Store.sessions (persist_verb store (start_with ports spec_id status found user)))
  unfolding start_with IsSound get_active_for_spec
  start_found spec_id status user none e = create_written spec_id status user
  start_found spec_id status user (some row) e =
      let (k, there) = open_among-some spec_id (keys store.sessions) row e in
      open-IsWritten store row (own_id store h k row there) (h k row there).1 ports spec_id status
        user

  start_read :
      (spec_id : String) (user : Option String) (read : Option SpecStatus)
      → IsWritten store.sessions
          (Store.sessions (persist_verb store (start_spec store ports spec_id read user)))
  unfolding start_spec
  start_read spec_id user none = unfold persist_verb in kept refl
  start_read spec_id user (some status) = elim (Bool-cases (sps_accepts status)) [
    | inl e ↦
        rw e (start_found spec_id status user (get_active_for_spec store.sessions spec_id) refl)
    | inr e ↦ rw e (unfold persist_verb in kept refl)
  ]

  serve-IsWritten :
      (is_blank : String → Bool) (request : Request)
      → IsWritten store.sessions (Store.sessions (serve is_blank store ports request))
  unfolding serve start_planning_session complete_planning_session approve_handover reject_handover
      reject_handover_with_feedback
  serve-IsWritten is_blank (start id user) = start_read id user (get store.specs id)
  serve-IsWritten is_blank (complete id user) = complete_found id user (get store.sessions id) refl
  serve-IsWritten is_blank (approve id user) = approve_found id user (get store.sessions id) refl
  serve-IsWritten is_blank (reject id user) = reject_found id user (get store.sessions id) refl
  serve-IsWritten is_blank (reject_with_feedback id text user) = elim (Bool-cases (is_blank text)) [
    | inl e ↦ rw e (unfold persist_handover in kept refl)
    | inr e ↦ rw e (feedback_found id text user (get store.sessions id) refl)
  ]

-- The invariant holds after each of the five calls on a store where it holds, whatever the clock, the
-- minted ids, the validator and the arguments are: each session stands under its own id, a session that
-- awaits review has a passing gate, a closed one is in `cross_validation`, and none is in `planned`.
pub serve-IsSound :
    {S : Type 0} (is_blank : String → Bool) (store : Store) (ports : Ports S) (request : Request)
    → IsSound store
    → IsSound (serve is_blank store ports request)
serve-IsSound is_blank store ports request h =
    written-IsSound store (serve is_blank store ports request) h
      (serve-IsWritten store ports h is_blank request)
