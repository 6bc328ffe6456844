-- ===== src/Rollups/Recompute/Fixpoint.antt =====
-- The cascade ends after two rounds, with every ticket at the status that its dependencies give.
use specsmither.Base.Text.{◌==◌}
use specsmither.Dag.Cascade.Check.{deps_done}
use specsmither.Dag.StatusCalculator.{should_recalculate}
use specsmither.Dag.Cascade.Completeness.{IsSettled}
use specsmither.Dag.Cascade.{has_status, is_status}
use specsmither.Rollups.Recompute.Derived.{derive, derived}
use specsmither.Rollups.Recompute.Passes.{
  derive-partial, cascade_pass_settled, get-cascade_pass, IsPartial, partial-done,
}
use specsmither.Rollups.Recompute.{
  TicketRow, states_from, cascade_pass, cascade_loop, cascade_to_fixpoint,
}
use specsmither.Base.Sets.{mem}
use specsmither.Base.{
  Bool-cases, ℕ, suc, String, ◌≡◌, refl, sym, ◌∙◌, inl, inr, false, none, some, List, [], ◌∷◌, map,
  arith, true, Option, eq_iff, if◌then◌else◌, ap, Bool,
}
use specsmither.Base.Dict.{Dict, get, put, get-put}
use specsmither.Dag.Types.{DepEdge}

pub get-states_from :
    (states : Dict String) (tickets : List TicketRow) (t : String)
    → mem t (map (λ r. r.id) tickets) ≡ false
    → get (states_from states tickets) t ≡ get states t
unfolding states_from mem
get-states_from states [] t h = refl
get-states_from states (r ∷ tickets) t h =
    ground
      (arith, get-states_from (put states r.id r.status) tickets t, get-put states r.id t r.status)

derive-none :
    (states : Dict String) (edges : List DepEdge) (t : String)
    → get states t ≡ none
    → derive states edges t ≡ none
unfolding derive derived
derive-none states edges t h = rw h

-- The statuses after the first round.
abbrev pub first_round : List DepEdge → List String → Dict String → Dict String
first_round edges ids init = (cascade_pass edges ids (init, false)).0

module _ (edges : List DepEdge) (ids : List String) (init : Dict String)
    (covered : (t : String) → mem t ids ≡ false → get init t ≡ none) where
  get-first_round : (t : String) → get (first_round edges ids init) t ≡ derive init edges t
  get-first_round t = ground (
    arith,
    get-cascade_pass edges init init false ids (λ a. inl refl) t,
    covered t,
    derive-none init edges t,
  )

  first_round_settled :
      (t : String)
      → derive (first_round edges ids init) edges t ≡ get (first_round edges ids init) t
  first_round_settled t =
      derive-partial edges init (first_round edges ids init) (λ a. inr (get-first_round a)) t
      ∙ sym (get-first_round t)

  -- Two rounds are enough.
  pub cascade_loop-two :
      (fuel : ℕ) → cascade_loop (suc (suc fuel)) edges ids init ≡ some (first_round edges ids init)
  unfolding cascade_loop
  cascade_loop-two fuel =
      let quiet =
        cascade_pass_settled edges (first_round edges ids init) false ids first_round_settled in
      elim (Bool-cases (cascade_pass edges ids (init, false)).1) [
        | inl again ↦ rw again (rw quiet)
        | inr stop ↦ rw stop
      ]

abbrev pub ids_of : List TicketRow → List String
ids_of = map (λ r. r.id)

abbrev pub statuses_of : List TicketRow → Dict String
statuses_of = states_from []

-- With fuel for two rounds the cascade ends, whatever the edges, cycles included: every ticket has
-- the status that its own status and its dependencies at the start give.
pub cascade_to_fixpoint_total :
    (fuel : ℕ) (tickets : List TicketRow) (edges : List DepEdge)
    → (states : Dict String) × (cascade_to_fixpoint (suc (suc fuel)) tickets edges ≡ some states)
      × ((t : String) → get states t ≡ derive (statuses_of tickets) edges t)
unfolding cascade_to_fixpoint get
cascade_to_fixpoint_total fuel tickets edges =
    let init = statuses_of tickets in
    let covered : (t : String) → mem t (ids_of tickets) ≡ false → get init t ≡ none =
      λ t h. get-states_from [] tickets t h in
    (
      first_round edges (ids_of tickets) init,
      cascade_loop-two edges (ids_of tickets) init covered fuel,
      get-first_round edges (ids_of tickets) init covered,
    )

pub cascade_to_fixpoint-derive :
    (fuel : ℕ) (tickets : List TicketRow) (edges : List DepEdge) (states : Dict String)
    → cascade_to_fixpoint (suc (suc fuel)) tickets edges ≡ some states
    → (t : String) → get states t ≡ derive (statuses_of tickets) edges t
cascade_to_fixpoint-derive fuel tickets edges states h t =
    let (found, ends, all_derived) = cascade_to_fixpoint_total fuel tickets edges in
    let same : found ≡ states = cc in rw same at (all_derived t)

text_of : Option String → String
text_of none = ""
text_of (some s) = s

settled_at :
    (b : Bool) (c : String)
    → (if should_recalculate c then (if b then "ready" else "pending") else c) ≡ c
    → ((c == "ready") ≡ true → b ≡ true) × ((c == "pending") ≡ true → b ≡ false)
unfolding should_recalculate
settled_at true c h = (
  λ r. refl,
  λ p.
      let e : c ≡ "pending" = (eq_iff c "pending").0 p in
      let clash : ◌≡◌ {A = String} "ready" "pending" = rw e at h in
      ground (arith, eq_iff "ready" "pending", clash),
)
settled_at false c h = (
  λ r.
      let e : c ≡ "ready" = (eq_iff c "ready").0 r in
      let clash : ◌≡◌ {A = String} "pending" "ready" = rw e at h in
      ground (arith, eq_iff "pending" "ready", clash),
  λ p. refl,
)

derived-settled :
    (states : Dict String) (edges : List DepEdge) (t : String) (o : Option String)
    → derived states edges t o ≡ o
    → (is_status o "ready" ≡ true → deps_done states edges t ≡ true)
      × (is_status o "pending" ≡ true → deps_done states edges t ≡ false)
unfolding derived text_of
derived-settled states edges t none h = ground arith
derived-settled states edges t (some c) h = settled_at (deps_done states edges t) c (ap text_of h)

-- The statuses that the cascade ends with are settled: a `ready` ticket has all dependencies done,
-- and a `pending` one has not; the tickets that are done are those that were.
pub cascade_to_fixpoint-IsSettled :
    (fuel : ℕ) (tickets : List TicketRow) (edges : List DepEdge) (states : Dict String)
    → cascade_to_fixpoint (suc (suc fuel)) tickets edges ≡ some states
    → (t : String)
    → IsSettled states edges t
      × (has_status states t "done" ≡ has_status (statuses_of tickets) t "done")
unfolding has_status
cascade_to_fixpoint-IsSettled fuel tickets edges states h t =
    let partial : IsPartial edges (statuses_of tickets) states =
      λ a. inr (cascade_to_fixpoint-derive fuel tickets edges states h a) in
    (
      derived-settled states edges t (get states t) (
          unfold derive in
          derive-partial edges (statuses_of tickets) states partial t
          ∙ sym (cascade_to_fixpoint-derive fuel tickets edges states h t)),
      partial-done edges (statuses_of tickets) states partial t,
    )
