-- ===== src/Lifecycle/Gate/SpecWide.antt =====
-- What the spec-wide gate decides and which scores it records, phase by phase.
use specsmither.Lifecycle.Gate.{
  EntityType, ValidatorFinding, ValidatorOutput, EntityScoreWrite, Thresholds, SpecFull, is_passing,
  count_passed, count_verdicts, epic_ids, ticket_ids, verdict_of, spec, epic, ticket,
  DatapointTrigger, metadata_updated, epic_field_updated, ticket_field_updated, cross_val_recompute,
  PhaseGateResult, first_id, touched_ids, score_write, expansion_gate, spec_write,
  evaluate_phase_gate, evaluate_phase_gate_spec_wide,
}
use specsmither.Domain.Enums.{
  PlanningPhase, epic_expansion, ticket_expansion, planned, GateResult, pass, fail, planning_spec,
  epic_decomposition, ticket_decomposition, cross_validation,
}
use specsmither.Dag.CriticalPath.{is_nil}
use specsmither.Base.Dict.{Dict, get_or}
use specsmither.Base.{
  nat_eq, if◌then◌else◌, Bool-cases, all, ◌≤◌, String, ◌≡◌, refl, inl, inr, Bool, not, ◌&&◌, List,
  [], ◌∷◌, map, arith, ap, ◌≢◌, ◌++◌, eq_iff,
}

module _ {S : Type 0} (zero_score : S) (at_least : S → S → Bool) where
  -- The score of `id`, zero when there is none, is at least the threshold.
  abbrev pub meets : Dict S → S → String → Bool
  meets scores threshold id = at_least (get_or scores id zero_score) threshold

  count_passed-map :
      (kind : EntityType) (findings : List ValidatorFinding) (scores : Dict S) (threshold : S)
      (ids : List String)
      → (count_passed (map (verdict_of zero_score at_least kind findings scores threshold) ids)
          ≤ count_verdicts
              (map (verdict_of zero_score at_least kind findings scores threshold) ids))
        × (nat_eq
              (count_passed
                (map (verdict_of zero_score at_least kind findings scores threshold) ids))
              (count_verdicts
                (map (verdict_of zero_score at_least kind findings scores threshold) ids))
            ≡ all (meets scores threshold) ids)
  unfolding count_passed count_verdicts verdict_of is_passing all
  count_passed-map kind findings scores threshold [] = (omega arith, refl)
  count_passed-map kind findings scores threshold (id ∷ ids) =
      let (bound, same) = count_passed-map kind findings scores threshold ids in
      elim (Bool-cases (meets scores threshold id)) [
        | inl e ↦ rw e ((omega arith, ground arith))
        | inr e ↦ rw e ((omega arith, ground arith))
      ]

  -- The verdict by phase: all epics or all tickets meet the threshold and there is one in the two
  -- expansion phases, `pass` in `planned`, the validator's own verdict in the others.
  pub expected_outcome : PlanningPhase → ValidatorOutput S → SpecFull → Thresholds S → GateResult
  expected_outcome epic_expansion output full thresholds =
      if not (is_nil (epic_ids full.epics))
        && all (meets output.per_epic_score thresholds.epic) (epic_ids full.epics)
      then pass
      else fail
  expected_outcome ticket_expansion output full thresholds =
      if not (is_nil (ticket_ids full.epics))
        && all (meets output.per_ticket_score thresholds.ticket) (ticket_ids full.epics)
      then pass
      else fail
  expected_outcome planned output full thresholds = pass
  expected_outcome _ output full thresholds = output.gate_result

  expansion_gate-outcome :
      (kind : EntityType) (trigger : DatapointTrigger) (findings : List ValidatorFinding)
      (scores : Dict S) (threshold : S) (ids : List String)
      → PhaseGateResult.gate_outcome
          (expansion_gate zero_score at_least kind trigger findings scores threshold ids)
        ≡ (if not (is_nil ids) && all (meets scores threshold) ids then pass else fail)
  unfolding expansion_gate is_nil
  expansion_gate-outcome kind trigger findings scores threshold [] = refl
  expansion_gate-outcome kind trigger findings scores threshold (id ∷ ids) =
      ap (λ b. if b then pass else fail)
        (count_passed-map kind findings scores threshold (id ∷ ids)).1

  -- The spec-wide gate passes an expansion phase when the specification has an epic (a ticket) and the
  -- score of each one is at least the threshold, whatever the validator says; `planned` passes; every
  -- other phase has the validator's verdict.
  pub evaluate_phase_gate_spec_wide-outcome :
      (phase : PlanningPhase) (output : ValidatorOutput S) (full : SpecFull)
      (thresholds : Thresholds S)
      → PhaseGateResult.gate_outcome
          (evaluate_phase_gate_spec_wide zero_score at_least phase output full thresholds)
        ≡ expected_outcome phase output full thresholds
  unfolding evaluate_phase_gate_spec_wide evaluate_phase_gate touched_ids expected_outcome
  evaluate_phase_gate_spec_wide-outcome planning_spec output full thresholds = refl
  evaluate_phase_gate_spec_wide-outcome epic_decomposition output full thresholds = refl
  evaluate_phase_gate_spec_wide-outcome ticket_decomposition output full thresholds = refl
  evaluate_phase_gate_spec_wide-outcome cross_validation output full thresholds = refl
  evaluate_phase_gate_spec_wide-outcome planned output full thresholds = refl
  evaluate_phase_gate_spec_wide-outcome epic_expansion output full thresholds =
      expansion_gate-outcome epic epic_field_updated output.findings output.per_epic_score
        thresholds.epic (epic_ids full.epics)
  evaluate_phase_gate_spec_wide-outcome ticket_expansion output full thresholds =
      expansion_gate-outcome ticket ticket_field_updated output.findings output.per_ticket_score
        thresholds.ticket (ticket_ids full.epics)

  -- One entry for each id, with its own score, or zero when it has none.
  pub entries : EntityType → DatapointTrigger → Dict S → List String → List (EntityScoreWrite S)
  entries kind trigger scores [] = []
  entries kind trigger scores (id ∷ ids) =
      record {
        entity_type = kind;
        entity_id = id;
        score = get_or scores id zero_score;
        trigger = trigger;
      }
      ∷ entries kind trigger scores ids

  score_write-entries :
      (kind : EntityType) (trigger : DatapointTrigger) (scores : Dict S) (ids : List String)
      → map (score_write zero_score at_least kind trigger scores) ids
        ≡ entries kind trigger scores ids
  unfolding score_write entries
  score_write-entries kind trigger scores [] = refl
  score_write-entries kind trigger scores (id ∷ ids) =
      ap (score_write zero_score at_least kind trigger scores id ∷◌)
        (score_write-entries kind trigger scores ids)

  spec_entry : DatapointTrigger → ValidatorOutput S → String → EntityScoreWrite S
  spec_entry trigger output id = record {
    entity_type = spec;
    entity_id = id;
    score = output.local_score;
    trigger = trigger;
  }

  spec_write-entry :
      (trigger : DatapointTrigger) (output : ValidatorOutput S) (id : String)
      → id ≢ ""
      → spec_write zero_score at_least trigger output.local_score id
        ≡ spec_entry trigger output id ∷ []
  unfolding spec_write spec_entry
  spec_write-entry trigger output id named = ground (arith, eq_iff id "")

  -- What a gate records, by phase: whose score, which score and why.
  pub recorded : PlanningPhase → ValidatorOutput S → SpecFull → List (EntityScoreWrite S)
  recorded planning_spec output full = spec_entry metadata_updated output full.id ∷ []
  recorded epic_expansion output full =
      entries epic epic_field_updated output.per_epic_score (epic_ids full.epics)
  recorded ticket_expansion output full =
      entries ticket ticket_field_updated output.per_ticket_score (ticket_ids full.epics)
  recorded cross_validation output full =
      spec_entry cross_val_recompute output full.id
        ∷ entries epic cross_val_recompute output.per_epic_score (epic_ids full.epics)
      ++ entries ticket cross_val_recompute output.per_ticket_score (ticket_ids full.epics)
  recorded _ output full = []

  expansion_gate-writes :
      (kind : EntityType) (trigger : DatapointTrigger) (findings : List ValidatorFinding)
      (scores : Dict S) (threshold : S) (ids : List String)
      → PhaseGateResult.entity_score_writes
          (expansion_gate zero_score at_least kind trigger findings scores threshold ids)
        ≡ entries kind trigger scores ids
  unfolding expansion_gate
  expansion_gate-writes kind trigger findings scores threshold [] = unfold entries in refl
  expansion_gate-writes kind trigger findings scores threshold (id ∷ ids) =
      score_write-entries kind trigger scores (id ∷ ids)

  -- For a specification with a non-empty id, the spec-wide gate records, in this order and each under its
  -- kind of entity: the local score of the specification in `planning_spec` and `cross_validation`; the
  -- score of each epic in `epic_expansion` and `cross_validation`; the score of each ticket in
  -- `ticket_expansion` and `cross_validation`; an epic or ticket without a score has zero, each entry has
  -- the trigger of the phase, and the other phases record nothing.
  pub evaluate_phase_gate_spec_wide-writes :
      (phase : PlanningPhase) (output : ValidatorOutput S) (full : SpecFull)
      (thresholds : Thresholds S)
      → full.id ≢ ""
      → PhaseGateResult.entity_score_writes
          (evaluate_phase_gate_spec_wide zero_score at_least phase output full thresholds)
        ≡ recorded phase output full
  unfolding evaluate_phase_gate_spec_wide evaluate_phase_gate touched_ids recorded first_id
  evaluate_phase_gate_spec_wide-writes planning_spec output full thresholds named =
      spec_write-entry metadata_updated output full.id named
  evaluate_phase_gate_spec_wide-writes epic_decomposition output full thresholds named = refl
  evaluate_phase_gate_spec_wide-writes ticket_decomposition output full thresholds named = refl
  evaluate_phase_gate_spec_wide-writes planned output full thresholds named = refl
  evaluate_phase_gate_spec_wide-writes epic_expansion output full thresholds named =
      expansion_gate-writes epic epic_field_updated output.findings output.per_epic_score
        thresholds.epic (epic_ids full.epics)
  evaluate_phase_gate_spec_wide-writes ticket_expansion output full thresholds named =
      expansion_gate-writes ticket ticket_field_updated output.findings output.per_ticket_score
        thresholds.ticket (ticket_ids full.epics)
  evaluate_phase_gate_spec_wide-writes cross_validation output full thresholds named =
      rw
        (
          spec_write-entry cross_val_recompute output full.id named,
          score_write-entries epic cross_val_recompute output.per_epic_score (epic_ids full.epics),
          score_write-entries ticket cross_val_recompute output.per_ticket_score
              (ticket_ids full.epics),
        )
        refl
