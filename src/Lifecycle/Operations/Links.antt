-- ===== src/Lifecycle/Operations/Links.antt =====
-- lifecycle/operations_registry.py: the definitions of the operations on links, dependencies, declarations and
-- of the read-only operation.
use specsmither.Base.{true, false, none, some, [], ◌∷◌, ◌++◌}
use specsmither.Lifecycle.Operations.Types.{
  mutating, read_only, any_phase, home, OperationDef, phases_before,
}
use specsmither.Domain.Enums.{ticket_decomposition, ticket_expansion, cross_validation, planned}

abbrev pub link_blueprint_to_tickets_def : OperationDef
link_blueprint_to_tickets_def = record {
  name = "link_blueprint_to_tickets";
  kind = mutating;
  native_phase = home ticket_decomposition;
  forbidden_phases = phases_before ticket_decomposition ++ planned ∷ [];
  multi_actor = false;
  description = "Link a blueprint to one or more tickets from ticket_decomposition onward.";
  max_batch = none;
  guards = [];
  native_phases = ticket_decomposition ∷ ticket_expansion ∷ cross_validation ∷ [];
}

abbrev pub unlink_blueprint_to_tickets_def : OperationDef
unlink_blueprint_to_tickets_def = record {
  name = "unlink_blueprint_to_tickets";
  kind = mutating;
  native_phase = home ticket_decomposition;
  forbidden_phases = phases_before ticket_decomposition ++ planned ∷ [];
  multi_actor = false;
  description = "Unlink a blueprint from one or more tickets from ticket_decomposition onward.";
  max_batch = none;
  guards = [];
  native_phases = ticket_decomposition ∷ ticket_expansion ∷ cross_validation ∷ [];
}

abbrev pub create_dependencies_def : OperationDef
create_dependencies_def = record {
  name = "create_dependencies";
  kind = mutating;
  native_phase = home cross_validation;
  forbidden_phases = phases_before cross_validation ++ planned ∷ [];
  multi_actor = false;
  description =
      "Create dependency links between tickets during cross_validation (max 5000 per call; deduped + cycle-checked before write).";
  max_batch = some 5000;
  guards = [];
  native_phases = [];
}

abbrev pub delete_dependencies_def : OperationDef
delete_dependencies_def = record {
  name = "delete_dependencies";
  kind = mutating;
  native_phase = home cross_validation;
  forbidden_phases = phases_before cross_validation ++ planned ∷ [];
  multi_actor = false;
  description = "Delete dependency links between tickets during cross_validation.";
  max_batch = none;
  guards = [];
  native_phases = [];
}

abbrev pub justify_def : OperationDef
justify_def = record {
  name = "justify";
  kind = mutating;
  native_phase = any_phase;
  forbidden_phases = planned ∷ [];
  multi_actor = false;
  description =
      "Declare a field N/A with a reason (writes the canonical fieldDeclarations[scope] key); structural-neutral, native in every planning phase, never rolls back.";
  max_batch = none;
  guards = [];
  native_phases = [];
}

abbrev pub unjustify_def : OperationDef
unjustify_def = record {
  name = "unjustify";
  kind = mutating;
  native_phase = any_phase;
  forbidden_phases = planned ∷ [];
  multi_actor = false;
  description =
      "Remove an N/A declaration (clears the canonical fieldDeclarations[scope] key); structural-neutral, native in every planning phase, never rolls back.";
  max_batch = none;
  guards = [];
  native_phases = [];
}

abbrev pub get_planning_status_def : OperationDef
get_planning_status_def = record {
  name = "get_planning_status";
  kind = read_only;
  native_phase = any_phase;
  forbidden_phases = [];
  multi_actor = true;
  description =
      "Read-only-ish poll/resume verb; valid in every phase. Never re-runs the validator.";
  max_batch = none;
  guards = [];
  native_phases = [];
}
