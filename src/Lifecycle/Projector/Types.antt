-- ===== src/Lifecycle/Projector/Types.antt =====
-- lifecycle/operations_projector.py: the specification tree and the mutations. Ids and what hangs below an entity
-- are fields; the values of its other attributes are a dictionary of their JSON texts.
use specsmither.Base.{String, Option, List}
use specsmither.Base.Dict.{Dict}

pub record DependencyLink : Type 0 where
  pub ticket_id : String
  pub type : String

pub record Ticket : Type 0 where
  pub id : String
  pub epic_id : String
  pub body : Dict String
  pub dependencies : List DependencyLink
  pub blueprint_references : List String

pub record Epic : Type 0 where
  pub id : String
  pub specification_id : String
  pub body : Dict String
  pub tickets : List Ticket

pub record Blueprint : Type 0 where
  pub id : String
  pub body : Dict String

pub record Specification : Type 0 where
  pub id : String
  pub body : Dict String
  pub epics : List Epic
  pub blueprints : List Blueprint

-- One entry of the `fields` of an update: an attribute with a value of the attribute's type, and `set_attribute`
-- for any other attribute.
pub data Assignment : Type 0 where
  set_id set_epic_id set_specification_id : String → Assignment
  set_dependencies : List DependencyLink → Assignment
  set_blueprint_references : List String → Assignment
  set_tickets : List Ticket → Assignment
  set_epics : List Epic → Assignment
  set_blueprints : List Blueprint → Assignment
  set_attribute : (key value : String) → Assignment

pub record DependencyEdgeSpec : Type 0 where
  pub from_ticket_id : String
  pub to_ticket_id : String
  pub type : String

pub data MutationOp : Type 0 where
  update_spec : List Assignment → MutationOp
  create_epic : (title description objective : String) → Option String → MutationOp
  update_epic : String → List Assignment → MutationOp
  delete_epic : String → MutationOp
  create_ticket :
      (epic_id title description ticket_type complexity : String) → Option String → MutationOp
  update_ticket : String → List Assignment → MutationOp
  delete_ticket : String → MutationOp
  create_blueprint : (title category content : String) → Option String → MutationOp
  update_blueprint : String → List Assignment → MutationOp
  delete_blueprint : String → MutationOp
  link_blueprint_to_tickets : String → List String → MutationOp
  unlink_blueprint_to_tickets : String → List String → MutationOp
  create_dependencies : List DependencyEdgeSpec → MutationOp
  delete_dependencies : List DependencyEdgeSpec → MutationOp

-- The `kind` of a mutation.
unfoldable pub mutation_kind : MutationOp → String
mutation_kind (update_spec _) = "update_spec"
mutation_kind (create_epic _ _ _ _) = "create_epic"
mutation_kind (update_epic _ _) = "update_epic"
mutation_kind (delete_epic _) = "delete_epic"
mutation_kind (create_ticket _ _ _ _ _ _) = "create_ticket"
mutation_kind (update_ticket _ _) = "update_ticket"
mutation_kind (delete_ticket _) = "delete_ticket"
mutation_kind (create_blueprint _ _ _ _) = "create_blueprint"
mutation_kind (update_blueprint _ _) = "update_blueprint"
mutation_kind (delete_blueprint _) = "delete_blueprint"
mutation_kind (link_blueprint_to_tickets _ _) = "link_blueprint_to_tickets"
mutation_kind (unlink_blueprint_to_tickets _ _) = "unlink_blueprint_to_tickets"
mutation_kind (create_dependencies _) = "create_dependencies"
mutation_kind (delete_dependencies _) = "delete_dependencies"
