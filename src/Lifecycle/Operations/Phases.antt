-- ===== src/Lifecycle/Operations/Phases.antt =====
-- What the registry decides for every operation and phase, read off the table once.
use mathlib.Core.Path.{subst}
use specsmither.Lifecycle.Prechecks.{PrecheckResult, accepted, denied}
use specsmither.Domain.Enums.{
  PlanningPhase, planning_spec, epic_decomposition, epic_expansion, ticket_decomposition,
  ticket_expansion, cross_validation, planned,
}
use specsmither.Base.{
  Bool-cases, Option-cases, all, String, ◌≡◌, refl, ap, inl, inr, Bool, true, false, not, ◌&&◌,
  ◌||◌, Option, none, some, [], ◌∷◌, arith, eq_iff, sym, ◌∙◌,
}
use specsmither.Base.Text.{◌==◌}
use specsmither.Base.Dict.{Dict, get}
use specsmither.Lifecycle.Operations.{
  OperationDef, all_phases, operations, get_operation_def, classify_def, classify_operation_call,
  allowed_class, operation_allowed, phases_before, rewound, rewound_to, effective_phase, has_phase,
  is_native,
}
use specsmither.Lifecycle.StateMachine.{same_phase, is_later_phase, phase_index, index_gt, index_of}

-- A test passes at each entry that has a definition.
unfoldable all_entries : (String → OperationDef → Bool) → Dict (Option OperationDef) → Bool
all_entries p [] = true
all_entries p ((op, none) ∷ table) = all_entries p table
all_entries p ((op, some d) ∷ table) = p op d && all_entries p table

entry-head :
    (p : String → OperationDef → Bool) (op : String) (v : Option OperationDef)
    (table : Dict (Option OperationDef)) (d : OperationDef)
    → all_entries p ((op, v) ∷ table) ≡ true
    → v ≡ some d
    → p op d ≡ true
unfolding all_entries
entry-head p op none table d h e = absurd (cc)
entry-head p op (some c) table d h e =
    let same : c ≡ d = ground (arith, e) in subst (λ k. p op k ≡ true) same (ground (arith, h))

entry-tail :
    (p : String → OperationDef → Bool) (op : String) (v : Option OperationDef)
    (table : Dict (Option OperationDef))
    → all_entries p ((op, v) ∷ table) ≡ true
    → all_entries p table ≡ true
unfolding all_entries
entry-tail p op none table h = h
entry-tail p op (some c) table h = ground (arith, h)

get-all_entries :
    (p : String → OperationDef → Bool) (table : Dict (Option OperationDef)) (op : String)
    (d : OperationDef)
    → all_entries p table ≡ true
    → get table op ≡ some (some d)
    → p op d ≡ true
unfolding all_entries get
get-all_entries p [] op d h e = absurd (cc)
get-all_entries p ((j, v) ∷ table) op d h e = elim (Bool-cases (j == op)) [
  | inl s ↦
      let same : j ≡ op = (eq_iff j op).0 s in
      let found : v ≡ some d = ground (arith, s, e) in
      subst (λ k. p k d ≡ true) same (entry-head p j v table d h found)
  | inr s ↦ get-all_entries p table op d (entry-tail p j v table h) (ground (arith, s, e))
]

-- The test at every phase.
unfoldable at_phases : (PlanningPhase → Bool) → Bool
at_phases p = all p all_phases

at_phases-all :
    (p : PlanningPhase → Bool) (phase : PlanningPhase) → at_phases p ≡ true → p phase ≡ true
unfolding at_phases all
at_phases-all p planning_spec h = ground (arith, h)
at_phases-all p epic_decomposition h = ground (arith, h)
at_phases-all p epic_expansion h = ground (arith, h)
at_phases-all p ticket_decomposition h = ground (arith, h)
at_phases-all p ticket_expansion h = ground (arith, h)
at_phases-all p cross_validation h = ground (arith, h)
at_phases-all p planned h = ground (arith, h)

get_operation_def-test :
    (p : String → OperationDef → Bool) (op : String) (d : OperationDef)
    → all_entries p operations ≡ true
    → get_operation_def op ≡ some d
    → p op d ≡ true
unfolding get_operation_def
get_operation_def-test p op d h e = elim (Option-cases (get operations op)) [
  | inl f ↦ absurd (ground (arith, f, e))
  | inr (none, f) ↦ absurd (ground (arith, f, e))
  | inr (some c, f) ↦
      let same : c ≡ d = ground (arith, f, e) in
      subst (λ k. p op k ≡ true) same (get-all_entries p operations op c h f)
]

unfoldable is_rollback : PrecheckResult → Bool
is_rollback (accepted true _) = true
is_rollback _ = false

accepted-is_rollback : (r : PrecheckResult) (a : Bool) → r ≡ accepted true a → is_rollback r ≡ true
unfolding is_rollback
accepted-is_rollback r a h = rw h refl

unfoldable is_plain : PrecheckResult → Bool
is_plain (accepted false false) = true
is_plain _ = false

unfoldable is_accepted : PrecheckResult → Bool
is_accepted (accepted _ _) = true
is_accepted (denied _) = false

accepted-is_accepted : (r : PrecheckResult) (a b : Bool) → r ≡ accepted a b → is_accepted r ≡ true
unfolding is_accepted
accepted-is_accepted r a b h = rw h refl

is_plain-accepted : (r : PrecheckResult) → is_plain r ≡ true → r ≡ accepted false false
unfolding is_plain
is_plain-accepted (accepted false false) h = refl
is_plain-accepted (accepted false true) h = absurd (cc)
is_plain-accepted (accepted true a) h = absurd (cc)
is_plain-accepted (denied code) h = absurd (cc)

-- A call that asks for a rollback, and the phase to go back to.
unfoldable rewinds : String → OperationDef → PlanningPhase → Bool
rewinds op d phase =
    let back = rewound true d.native_phase phase in
    not (is_rollback (allowed_class op phase (classify_def d phase)))
    || is_later_phase phase back && is_plain (allowed_class op back (classify_def d back))

every_rewinds : all_entries (λ op d. at_phases (rewinds op d)) operations ≡ true
unfolding all_entries at_phases all rewinds rewound is_rollback is_plain allowed_class classify_def
    has_phase is_native same_phase is_later_phase phase_index index_gt index_of phases_before
every_rewinds = refl

-- The only operation that is accepted when planning is over.
unfoldable only_status : String → OperationDef → Bool
only_status op d =
    not (is_accepted (allowed_class op planned (classify_def d planned)))
    || op == "get_planning_status"

every_only_status : all_entries only_status operations ≡ true
unfolding all_entries only_status is_accepted allowed_class classify_def has_phase is_native
    same_phase phases_before
every_only_status = refl

allowed-known :
    (op : String) (d : OperationDef) (phase : PlanningPhase)
    → get_operation_def op ≡ some d
    → operation_allowed op phase ≡ some (allowed_class op phase (classify_def d phase))
unfolding operation_allowed classify_operation_call
allowed-known op d phase e = rw e refl

implied_both : (a b c : Bool) → not a || b && c ≡ true → a ≡ true → (b ≡ true) × (c ≡ true)
implied_both a b c h k = (ground (arith, h, k), ground (arith, h, k))

-- A late operation that is accepted takes the session back to an earlier phase, and in that phase the same
-- operation is accepted without a rollback.
pub operation_allowed-rewinds :
    (op : String) (phase : PlanningPhase) (auto_transition : Bool)
    → operation_allowed op phase ≡ some (accepted true auto_transition)
    → (is_later_phase phase (effective_phase op phase true) ≡ true)
      × (operation_allowed op (effective_phase op phase true) ≡ some (accepted false false))
unfolding operation_allowed classify_operation_call effective_phase rewound_to rewinds
operation_allowed-rewinds op phase auto_transition h = elim (Option-cases (get_operation_def op)) [
  | inl e ↦ absurd (ground (arith, e, h))
  | inr (d, e) ↦
      let back : PlanningPhase = rewound true d.native_phase phase in
      let test : rewinds op d phase ≡ true =
        at_phases-all (rewinds op d) phase
          (get_operation_def-test (λ o c. at_phases (rewinds o c)) op d every_rewinds e) in
      let found : allowed_class op phase (classify_def d phase) ≡ accepted true auto_transition =
        ground (arith, e, h) in
      let rolls : is_rollback (allowed_class op phase (classify_def d phase)) ≡ true =
        accepted-is_rollback (allowed_class op phase (classify_def d phase)) auto_transition
          found in
      let (earlier, plain) =
        implied_both (is_rollback (allowed_class op phase (classify_def d phase)))
          (is_later_phase phase back) (is_plain (allowed_class op back (classify_def d back))) test
          rolls in
      let same : back ≡ effective_phase op phase true = sym (ap (λ o. rewound_to true o phase) e) in
      (
        subst (λ k. is_later_phase phase k ≡ true) same earlier,
        subst (λ k. operation_allowed op k ≡ some (accepted false false)) same
            (allowed-known op d back e
              ∙ ap some (is_plain-accepted (allowed_class op back (classify_def d back)) plain)),
      )
]

-- When planning is over, no operation but the status query is accepted.
pub operation_allowed-planned :
    (op : String) (rollback auto_transition : Bool)
    → operation_allowed op planned ≡ some (accepted rollback auto_transition)
    → op ≡ "get_planning_status"
unfolding operation_allowed classify_operation_call only_status
operation_allowed-planned op rollback auto_transition h =
    elim (Option-cases (get_operation_def op)) [
      | inl e ↦ absurd (ground (arith, e, h))
      | inr (d, e) ↦
          let test : only_status op d ≡ true =
            get_operation_def-test only_status op d every_only_status e in
          let found : allowed_class op planned (classify_def d planned)
              ≡ accepted rollback auto_transition =
            ground (arith, e, h) in
          let taken : is_accepted (allowed_class op planned (classify_def d planned)) ≡ true =
            accepted-is_accepted (allowed_class op planned (classify_def d planned)) rollback
              auto_transition found in
          (eq_iff op "get_planning_status").0 (ground (arith, test, taken))
    ]
