-- ===== src/Lifecycle/Gate.antt =====
-- lifecycle/gate.py: the phase gate. Scores are floats of the validator: a type of their own, with
-- the comparison `>=` and the zero that a missing score counts as. Ids come as lists, which `_ordered`
-- keeps as they are. The rationale texts are left out.
pub mod SpecWide
mod Examples
use specsmither.Base.Text.{◌==◌}
use specsmither.Domain.Enums.{
  PlanningPhase, planning_spec, epic_decomposition, epic_expansion, ticket_decomposition,
  ticket_expansion, cross_validation, planned, GateResult, pass, fail,
}
use specsmither.Base.Dict.{Dict, get_or}
use specsmither.Base.{
  nat_eq, if◌then◌else◌, ℕ, suc, ◌+◌, String, Bool, true, false, Option, none, some, List, [], ◌∷◌,
  ◌++◌, map,
}

pub data EntityType : Type 0 where
  spec epic ticket : EntityType

pub data DatapointTrigger : Type 0 where
  metadata_updated epic_field_updated ticket_field_updated cross_val_recompute : DatapointTrigger

pub data Verdict : Type 0 where
  passing review_needed : Verdict

pub record ValidatorFinding : Type 0 where
  pub message : String
  pub entity_id : Option String

pub record ValidatorOutput (S : Type 0) : Type 0 where
  pub gate_result : GateResult
  pub local_score : S
  pub per_epic_score : Dict S
  pub per_ticket_score : Dict S
  pub findings : List ValidatorFinding

pub record EntityVerdict (S : Type 0) : Type 0 where
  pub entity_id : String
  pub entity_type : EntityType
  pub score : S
  pub verdict : Verdict
  pub review_hints : List String

pub record EntityScoreWrite (S : Type 0) : Type 0 where
  pub entity_type : EntityType
  pub entity_id : String
  pub score : S
  pub trigger : DatapointTrigger

pub record PhaseGateResult (S : Type 0) : Type 0 where
  pub gate_outcome : GateResult
  pub entity_verdicts : List (EntityVerdict S)
  pub entity_score_writes : List (EntityScoreWrite S)

pub record Thresholds (S : Type 0) : Type 0 where
  pub specification : S
  pub epic : S
  pub ticket : S

pub record SpecEpic : Type 0 where
  pub id : String
  pub tickets : List String

pub record SpecFull : Type 0 where
  pub id : String
  pub epics : List SpecEpic

-- `f.entity_id == entity_id`
unfoldable pub concerns : Option String → String → Bool
concerns none id = false
concerns (some e) id = e == id

unfoldable pub finding_hints_for_entity : List ValidatorFinding → String → List String
unfolding concerns
finding_hints_for_entity [] id = []
finding_hints_for_entity (f ∷ fs) id =
    let rest = finding_hints_for_entity fs id in
    if concerns f.entity_id id then f.message ∷ rest else rest

unfoldable pub is_passing : Verdict → Bool
is_passing passing = true
is_passing review_needed = false

-- `sum(1 for v in verdicts if v.verdict == "pass")`
unfoldable pub count_passed : {S : Type 0} → List (EntityVerdict S) → ℕ
unfolding is_passing
count_passed [] = 0
count_passed (v ∷ vs) = (if is_passing v.verdict then 1 else 0) + count_passed vs

unfoldable pub count_verdicts : {S : Type 0} → List (EntityVerdict S) → ℕ
count_verdicts [] = 0
count_verdicts (v ∷ vs) = suc (count_verdicts vs)

-- `next(iter(ids), "")`
unfoldable pub first_id : List String → String
first_id [] = ""
first_id (id ∷ _) = id

unfoldable pub epic_ids : List SpecEpic → List String
epic_ids [] = []
epic_ids (e ∷ es) = e.id ∷ epic_ids es

unfoldable pub ticket_ids : List SpecEpic → List String
ticket_ids [] = []
ticket_ids (e ∷ es) = e.tickets ++ ticket_ids es

-- The three-way choice of `touched`.
unfoldable pub touched_ids : PlanningPhase → SpecFull → List String
unfolding epic_ids ticket_ids
touched_ids epic_expansion full = epic_ids full.epics
touched_ids ticket_expansion full = ticket_ids full.epics
touched_ids _ full = full.id ∷ []

module _ {S : Type 0} (zero_score : S) (at_least : S → S → Bool) where
  unfoldable pub verdict_of :
      EntityType → List ValidatorFinding → Dict S → S → String → EntityVerdict S
  unfolding get_or finding_hints_for_entity
  verdict_of kind findings scores threshold id = record {
    entity_id = id;
    entity_type = kind;
    score = get_or scores id zero_score;
    verdict = if at_least (get_or scores id zero_score) threshold then passing else review_needed;
    review_hints = finding_hints_for_entity findings id;
  }

  unfoldable pub score_write : EntityType → DatapointTrigger → Dict S → String → EntityScoreWrite S
  unfolding get_or
  score_write kind trigger scores id = record {
    entity_type = kind;
    entity_id = id;
    score = get_or scores id zero_score;
    trigger = trigger;
  }

  -- The two expansion gates, after the test for an empty list of ids.
  unfoldable pub expansion_gate :
      EntityType
      → DatapointTrigger
      → List ValidatorFinding
      → Dict S
      → S
      → List String
      → PhaseGateResult S
  unfolding count_passed count_verdicts verdict_of score_write
  expansion_gate kind trigger findings scores threshold [] = record {
    gate_outcome = fail;
    entity_verdicts = [];
    entity_score_writes = [];
  }
  expansion_gate kind trigger findings scores threshold (id ∷ ids) =
      let verdicts = map (verdict_of kind findings scores threshold) (id ∷ ids) in
      record {
        gate_outcome =
            if nat_eq (count_passed verdicts) (count_verdicts verdicts) then pass else fail;
        entity_verdicts = verdicts;
        entity_score_writes = map (score_write kind trigger scores) (id ∷ ids);
      }

  -- `[EntityScoreWrite(entity_type="spec", ...)] if spec_id else []`
  unfoldable pub spec_write : DatapointTrigger → S → String → List (EntityScoreWrite S)
  spec_write trigger score spec_id =
      if spec_id == ""
      then []
      else record { entity_type = spec; entity_id = spec_id; score = score; trigger = trigger } ∷ []

  unfoldable pub evaluate_phase_gate :
      PlanningPhase
      → ValidatorOutput S
      → List String
      → Thresholds S
      → List String
      → List String
      → PhaseGateResult S
  unfolding expansion_gate spec_write score_write first_id
  evaluate_phase_gate planning_spec output touched thresholds epics tickets = record {
    gate_outcome = output.gate_result;
    entity_verdicts = [];
    entity_score_writes = spec_write metadata_updated output.local_score (first_id touched);
  }
  evaluate_phase_gate epic_decomposition output touched thresholds epics tickets = record {
    gate_outcome = output.gate_result;
    entity_verdicts = [];
    entity_score_writes = [];
  }
  evaluate_phase_gate ticket_decomposition output touched thresholds epics tickets = record {
    gate_outcome = output.gate_result;
    entity_verdicts = [];
    entity_score_writes = [];
  }
  evaluate_phase_gate epic_expansion output touched thresholds epics tickets =
      expansion_gate epic epic_field_updated output.findings output.per_epic_score thresholds.epic
        touched
  evaluate_phase_gate ticket_expansion output touched thresholds epics tickets =
      expansion_gate ticket ticket_field_updated output.findings output.per_ticket_score
        thresholds.ticket touched
  evaluate_phase_gate cross_validation output touched thresholds epics tickets = record {
    gate_outcome = output.gate_result;
    entity_verdicts = [];
    entity_score_writes =
        spec_write cross_val_recompute output.local_score (first_id touched)
        ++ map (score_write epic cross_val_recompute output.per_epic_score) epics
        ++ map (score_write ticket cross_val_recompute output.per_ticket_score) tickets;
  }
  evaluate_phase_gate planned output touched thresholds epics tickets = record {
    gate_outcome = pass;
    entity_verdicts = [];
    entity_score_writes = [];
  }

  unfoldable pub evaluate_phase_gate_spec_wide :
      PlanningPhase → ValidatorOutput S → SpecFull → Thresholds S → PhaseGateResult S
  unfolding evaluate_phase_gate touched_ids epic_ids ticket_ids
  evaluate_phase_gate_spec_wide phase output full thresholds =
      evaluate_phase_gate phase output (touched_ids phase full) thresholds (epic_ids full.epics)
        (ticket_ids full.epics)
