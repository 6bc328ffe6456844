-- ===== src/Lifecycle/Operations/Structure.antt =====
-- lifecycle/operations_registry.py: the definitions of the operations on epics, tickets and blueprints.
use specsmither.Base.{false, none, [], ◌∷◌}
use specsmither.Lifecycle.Operations.Types.{
  mutating, min_count, blueprint_epic_ratio, home, OperationDef,
}
use specsmither.Domain.Enums.{
  planning_spec, epic_decomposition, epic_expansion, ticket_decomposition, ticket_expansion,
  cross_validation, planned,
}

abbrev pub update_spec_def : OperationDef
update_spec_def = record {
  name = "update_spec";
  kind = mutating;
  native_phase = home planning_spec;
  forbidden_phases =
      epic_decomposition ∷ epic_expansion ∷ ticket_decomposition ∷ ticket_expansion
      ∷ cross_validation ∷ planned ∷ [];
  multi_actor = false;
  description = "Update the specification document fields during the planning_spec phase.";
  max_batch = none;
  guards = [];
  native_phases = [];
}

abbrev pub create_epic_def : OperationDef
create_epic_def = record {
  name = "create_epic";
  kind = mutating;
  native_phase = home epic_decomposition;
  forbidden_phases = planning_spec ∷ planned ∷ [];
  multi_actor = false;
  description =
      "Create a new epic during the epic_decomposition phase (also allowed in later phases up to cross_validation).";
  max_batch = none;
  guards = [];
  native_phases = [];
}

abbrev pub update_epic_def : OperationDef
update_epic_def = record {
  name = "update_epic";
  kind = mutating;
  native_phase = home epic_expansion;
  forbidden_phases = planning_spec ∷ epic_decomposition ∷ planned ∷ [];
  multi_actor = false;
  description = "Update epic fields during the epic_expansion phase.";
  max_batch = none;
  guards = [];
  native_phases = [];
}

abbrev pub delete_epic_def : OperationDef
delete_epic_def = record {
  name = "delete_epic";
  kind = mutating;
  native_phase = home epic_decomposition;
  forbidden_phases = planning_spec ∷ planned ∷ [];
  multi_actor = false;
  description = "Delete an epic (guarded: at least one epic must remain).";
  max_batch = none;
  guards =
      record { kind = min_count; description = "At least one epic must remain after deletion." }
      ∷ [];
  native_phases = [];
}

abbrev pub create_ticket_def : OperationDef
create_ticket_def = record {
  name = "create_ticket";
  kind = mutating;
  native_phase = home ticket_decomposition;
  forbidden_phases = planning_spec ∷ epic_decomposition ∷ epic_expansion ∷ planned ∷ [];
  multi_actor = false;
  description = "Create a new ticket during the ticket_decomposition phase.";
  max_batch = none;
  guards = [];
  native_phases = [];
}

abbrev pub update_ticket_def : OperationDef
update_ticket_def = record {
  name = "update_ticket";
  kind = mutating;
  native_phase = home ticket_expansion;
  forbidden_phases =
      planning_spec ∷ epic_decomposition ∷ epic_expansion ∷ ticket_decomposition ∷ planned ∷ [];
  multi_actor = false;
  description = "Update ticket fields during the ticket_expansion phase.";
  max_batch = none;
  guards = [];
  native_phases = [];
}

abbrev pub delete_ticket_def : OperationDef
delete_ticket_def = record {
  name = "delete_ticket";
  kind = mutating;
  native_phase = home ticket_decomposition;
  forbidden_phases = planning_spec ∷ epic_decomposition ∷ epic_expansion ∷ planned ∷ [];
  multi_actor = false;
  description = "Delete a ticket (guarded: at least one ticket must remain).";
  max_batch = none;
  guards =
      record { kind = min_count; description = "At least one ticket must remain after deletion." }
      ∷ [];
  native_phases = [];
}

abbrev pub create_blueprint_def : OperationDef
create_blueprint_def = record {
  name = "create_blueprint";
  kind = mutating;
  native_phase = home epic_decomposition;
  forbidden_phases = planning_spec ∷ planned ∷ [];
  multi_actor = false;
  description = "Create a blueprint during the epic_decomposition phase.";
  max_batch = none;
  guards = [];
  native_phases = [];
}

abbrev pub update_blueprint_def : OperationDef
update_blueprint_def = record {
  name = "update_blueprint";
  kind = mutating;
  native_phase = home epic_decomposition;
  forbidden_phases = planning_spec ∷ planned ∷ [];
  multi_actor = false;
  description = "Update blueprint fields during the epic_decomposition phase.";
  max_batch = none;
  guards = [];
  native_phases = [];
}

abbrev pub delete_blueprint_def : OperationDef
delete_blueprint_def = record {
  name = "delete_blueprint";
  kind = mutating;
  native_phase = home epic_decomposition;
  forbidden_phases = planning_spec ∷ planned ∷ [];
  multi_actor = false;
  description = "Delete a blueprint (guarded: must respect blueprint-to-epic ratio).";
  max_batch = none;
  guards =
      record {
        kind = blueprint_epic_ratio;
        description =
            "Blueprint count must satisfy the allowed ratio relative to epics after deletion.";
      }
      ∷ [];
  native_phases = [];
}
