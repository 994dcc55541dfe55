-- ===== src/Lib.antt =====
-- Deductra: puzzles as immutable specifications, reasoning as a chain of sealed events, states as
-- projections of those events, deductions that change a state only once they are proved.
--
-- The parts, and how they interact. A puzzle specification (src/deductra/domain) names variables,
-- their domains of values, constraints and givens. A reasoning event
-- (src/deductra/reasoning/events.py) carries a payload, a number and the digest of the event before
-- it; integrity.py seals events and verifies chains of them. A state (state.py) has the candidates
-- of every variable and the atoms that are asserted, and is addressed by the digest of its canonical
-- JSON. The reducer (reducer.py) applies an event to a state, or opens a branch from one;
-- branches.py keeps a record and the last state of every branch. The engine (engine.py) asks rules
-- for candidates (rules.py), selects one (policy.py), seals an event for its conclusion and hands
-- both to an authority. The authority (verification/rule_authority.py) makes a proof obligation,
-- lets a coordinator ask several solvers (verification/coordinator.py), and reduces the state only
-- if all of them refute the negated claim. A Logic Grid puzzle (families/logic_grid) specializes the
-- specification; its checker judges complete assignments, and a play session records a person's
-- marks as a chain of events with undo and redo. A Logic Equations puzzle (families/logic_equations)
-- asks for integers that satisfy equations, and has a checker of its own.
--
-- The files:
--   Common, Common/*          Python's equality, lists, sets, dicts, sorted and exceptions
--   Canonical                 domain/serialization.py: _canonical_value, canonical_json
--   Domain/*                  domain/atoms.py, expressions.py, constraints.py, values.py, puzzle.py
--   Reasoning/Events          reasoning/events.py: payloads, the envelope, their JSON
--   Reasoning/Integrity       reasoning/integrity.py: seal_event, verify_event, verify_chain
--   Reasoning/State           reasoning/state.py: PuzzleState, build_state; State/Initial has
--                             create_initial_state, State/Validation has validate_state
--   Reasoning/Reducer         reasoning/reducer.py: reduce_state, derive_branch_state
--   Reasoning/Branches        reasoning/branches.py: reduce_branch_projection, split by payload into
--                             open_branch, close_branch and mutate_branch in
--                             Branches/Reduction; Branches/Replay has
--                             reducer.py's replay_projection
--   Reasoning/Rules           reasoning/rules.py: discover_rule_applications
--   Reasoning/Policy          reasoning/policy.py: select_rule_application
--   Reasoning/Engine          reasoning/engine.py: contracts and traces; Engine/Proposal has
--                             _validate_proposal, Engine/Loop the loop of
--                             HumanReasoningEngine.solve
--   Verification/Contracts    verification/contracts.py: obligations, certificates, decisions
--   Verification/Coordinator  verification/coordinator.py: verify is cross_verify here, and
--                             apply_verified_event
--   Verification/Authority    verification/rule_authority.py: evaluate
--   Families/LogicGrid        families/logic_grid: Specification and its children have
--                             specification.py (Clues, Givens, Contract the validators),
--                             Expressions the validators of clues, Numbers int | Fraction;
--                             Evaluation and Checker have checker.py
--   Families/LogicGrid/Play   families/logic_grid/play.py: Session has the digests and validators,
--                             History the moves and marks, Conflicts _progress_conflicts, Outcome
--                             _append_outcome, Actions the branches of
--                             _apply_logic_grid_play_action, Replay the public functions
--   Families/LogicGrid/Rules  families/logic_grid/rules.py: Rules has AssociationRule and what the
--                             rules share, Bijection CategoryBijectionRule, Completion
--                             ClueCompletionRule and _proposal; the conclusions of a constraint are
--                             apart from their packing by _candidate, and _evaluate_boolean is the
--                             checker's with other exceptions
--   Families/LogicEquations   families/logic_equations: Specification and Expressions have
--                             specification.py, Evaluation and Checker have checker.py
--   Tests/*                   runs on concrete inputs
-- The other modules under a part hold its proofs.
--
-- How the code is modelled. A pydantic model is a record, and its validators are functions into a
-- result, which a constructor named make_ calls. A raised exception is an error value. Identifiers
-- and digests are texts; the patterns of their types are not checked. A play session that is built from
-- the dump of another runs its own validators, and not again those of the events and conflicts in it,
-- which were made by their constructors. Sets are lists without
-- repetition, and a set is iterated in the order of its list. Datetimes are their JSON text with a
-- flag for the offset. SHA-256, NFC normalization and casefold are fields of the parameter Platform
-- and nothing is assumed of them. To the engine the rules and the proof backends are records of
-- functions, the ports of the code, apart from the Logic Grid rules modelled here; pydantic's reader
-- of an atom's JSON is an argument of proposal_for. A product of integers, a quotient and a remainder are
-- Python's, with quotients rounded down, and an arithmetic without an integer result is none; the engine's theorem assumes of its authority that it answers
-- only with states of the reducer, which Verification/Authority proves of the program's own.
--
-- Bounds and fuel. Numbers of events are natural numbers without a bound, as in Python. The engine's
-- loop is structural in the steps that may still be applied; inside a step, the turns in one state
-- have as fuel one more than the number of the candidates discovered there, and every turn that does
-- not apply a step attempts another of them. The walk along a play session's moves has one more than
-- their number, since it stops at a move it has seen. The decimal digits of a number have the number
-- as fuel.
--
-- Not modelled: the solvers' encodings and the backends that call Z3 and CP-SAT, the rules of Logic
-- Equations and, of the Logic Grid family, attempts, assistance and the building and reading of
-- puzzles, generation, the event stores and their projections, the graph, agents, reports, the
-- command line and the exported schemas. Events, states and traces are modelled in memory, without
-- their database.
pub mod Common
pub mod Canonical
pub mod Domain
pub mod Reasoning
pub mod Verification
pub mod Families
mod Tests
