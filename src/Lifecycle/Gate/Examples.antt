-- ===== src/Lifecycle/Gate/Examples.antt =====
-- The gate on a specification with two epics, scores as whole numbers.
use specsmither.Lifecycle.Gate.SpecWide.{
  expected_outcome, evaluate_phase_gate_spec_wide-outcome, evaluate_phase_gate_spec_wide-writes,
  recorded,
}
use specsmither.Lifecycle.Gate.{
  ValidatorOutput, PhaseGateResult, Thresholds, SpecFull, evaluate_phase_gate_spec_wide,
}
use specsmither.Domain.Enums.{epic_expansion, cross_validation, fail}
use specsmither.Base.{leb, ℕ, ◌≡◌, Bool, [], ◌∷◌, arith, eq_iff}

abbrev full : SpecFull
full = record {
  id = "s";
  epics =
      record { id = "e1"; tickets = "t1" ∷ "t2" ∷ [] } ∷ record { id = "e2"; tickets = [] } ∷ [];
}

abbrev output : ValidatorOutput ℕ
output = record {
  gate_result = fail;
  local_score = 40;
  per_epic_score = ("e1", 90) ∷ ("e2", 70) ∷ [];
  per_ticket_score = ("t1", 80) ∷ [];
  findings = [];
}

abbrev thresholds : Thresholds ℕ
thresholds = record { specification = 70; epic = 70; ticket = 70 }

abbrev at_least : ℕ → ℕ → Bool
at_least a b = leb b a

-- Every epic meets the threshold, and the validator's `fail` does not count.
evaluate_phase_gate_spec_wide-outcome_example :
    PhaseGateResult.gate_outcome
      (evaluate_phase_gate_spec_wide 0 at_least epic_expansion output full thresholds)
    ≡ expected_outcome 0 at_least epic_expansion output full thresholds
evaluate_phase_gate_spec_wide-outcome_example =
    evaluate_phase_gate_spec_wide-outcome 0 at_least epic_expansion output full thresholds

evaluate_phase_gate_spec_wide-writes_example :
    PhaseGateResult.entity_score_writes
      (evaluate_phase_gate_spec_wide 0 at_least cross_validation output full thresholds)
    ≡ recorded 0 at_least cross_validation output full
evaluate_phase_gate_spec_wide-writes_example =
    evaluate_phase_gate_spec_wide-writes 0 at_least cross_validation output full thresholds
      (λ e. ground (arith, eq_iff "s" ""))
