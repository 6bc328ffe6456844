-- ===== src/Lib.antt =====
-- SpecSmither verification library: the deterministic engine behind specifications, tickets and
-- their dependency graph, and the lifecycle of a planning session.
--
-- The program keeps specifications, epics and tickets in one SQLite file. Pure modules decide: the
-- domain package names the statuses, src/specsmither/dag derives ticket statuses and the dependency
-- tree from rows and edges, src/specsmither/rollups materialises what is derived inside each
-- mutation, and packages/specsmither-lifecycle decides what an agent or a human may do to a planning
-- session. A lifecycle verb reads the store and answers with a write plan; the executor in
-- src/specsmither/adapters applies the plan in one transaction.
--
-- Base         texts as Python compares them (code points), dictionaries in insertion order, sets,
--              sorting, decimal numbers, list and Boolean helpers.
-- Domain       packages/specsmither-lifecycle/src/specsmither/domain: enums.py and status.py. A
--              StrEnum is a data type with the text of each member where texts are compared.
-- Dag          src/specsmither/dag: types.py, status_calculator.py, cascade.py, and of
--              critical_path.py compute_critical_path. Statuses are texts, as in the source; a
--              Mapping is a Dict. Loops are recursions over the list. The memoised recursion of the
--              critical path takes fuel, and Python's recursion without end on a cycle is `none`: the
--              fuel that every rank of an acyclic graph stays below is enough. Minutes are whole
--              numbers, so the half-up rounding is of a whole number.
-- Rollups      src/specsmither/rollups: recompute.py, steps 1 and 2 (status cascade, progress and
--              block reason). The while loop takes fuel; two rounds are enough on every graph. And of
--              counts.py the ticket tally and the epic, specification, project and dependency counts; the
--              floating-point numbers of the progress formula are a parameter.
-- Toon         src/specsmither/toon/encoder.py: strings, keys and rows of strings. A text is the list of
--              its code points. The reader in Strings/Reader stands for no code: it is written for the theorems, and
--              decodes booleans, nulls and numbers.
-- Crud         src/specsmither/operations/crud.py: add_dependency, with the breadth-first search of
--              would_create_cycle. The search takes fuel; the rows of the specification, and two, are
--              enough.
-- Lifecycle    packages/specsmither-lifecycle/src/specsmither/lifecycle: StateMachine is
--              state_machine.py, Gate is gate.py over scores of an abstract type, Plan the write
--              plans and audit rows, Handover, Complete and Start the verbs approve, reject,
--              reject_with_feedback, complete and start, and Executor the part of
--              src/specsmither/adapters/write_plan_executor.py that their plans use. System puts the
--              five verbs over one store, as dispatch.py and src/specsmither/dispatch/facade.py do.
--              Operations is operations_registry.py with prechecks/operation_allowed.py and the
--              effective phase of verbs/action.py. Dependencies is prechecks/dependencies_batch.py; its
--              search takes fuel, and as many steps as the graph has edges, and two, are enough.
--              Projector is operations_projector.py, the mutations on the specification tree in memory,
--              with the guards prechecks/count_bounds.py (Guards), entity_refs_exist.py,
--              blueprint_link_refs_exist.py and cascade_rules.py (References) over its flat views
--              (Flat); a payload is a record of the keys that these read.
--              The columns for status and phase hold members of their enumerations.
--
-- Parameters: the clock, the ids that a call mints, the stored specification in its clean form, the
-- validator (an outside package) with its configuration, the text of the guidance that a call composes,
-- Python's floating-point numbers, and its str.strip of a feedback text.
--
-- Rows hold the columns that the modelled steps touch. Queries, the ORM, the other database
-- constraints, guidance texts, the rest of the action verb, the TUI and the MCP server are not modelled.
pub mod Base
pub mod Domain
pub mod Dag
pub mod Rollups
pub mod Toon
pub mod Crud
pub mod Lifecycle
