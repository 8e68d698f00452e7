-- ===== src/Lib.antt =====
-- Verification of ant_orchestrator, an orchestrator that runs coding workers under energy budgets,
-- approval gates and audit. The sources are the Python package src/ant_orchestrator/.
--
-- Energy (energy/, application/ports/energy.py). An action plan goes through the manager, which asks
-- the enforcement and routing policies, reserves its estimate in the ledger, writes audit events,
-- runs the action and settles the reservation.
--   Energy/Port.antt         application/ports/energy.py: budgets, plans and their constructors' checks.
--   Energy/Ledger.antt       energy/reservation.py: reserve, consume, release, available. A method
--                            takes the ledger and gives its result, or the exception, beside the
--                            ledger that it leaves. The folder below holds the proofs.
--   Energy/Enforcement.antt  energy/enforcement.py; Energy/Routing.antt energy/routing.py.
--   Energy/Audit.antt        energy/_audit_writer.py: the events and the log of what leaves the process.
--   Energy/Manager.antt      energy/manager.py: execute; its helpers and _execute_local are in
--                            Energy/Manager/Parts.antt and Energy/Manager/Local.antt.
--   Energy/Settlement.antt   energy/settlement_math.py and worker_lifecycle.py: what a worker is charged.
-- The audit sink, the clock, the identifier generator and the actions are parameters: the sink is a
-- test of each event, an action gives a result or throws. Python's sets are lists in some order.
-- Amounts are unbounded integers, as in Python.
--
-- Workflow (workflows/). A run goes from node to node of a graph; a gated intent pauses at an
-- approval, and failures retry and regroup within budgets.
--   Workflow/Port.antt          application/ports/worker.py and the gate enumerations.
--   Workflow/Routing.antt       workflows/routing.py: route_retry, route_regroup, grant_retry_extension.
--   Workflow/DecisionGate.antt  workflows/decision_gate.py and energy_gate.py, over Energy/Enforcement.
--   Workflow/State.antt         workflows/state.py: GraphState as a record.
--   Workflow/Nodes.antt         workflows/nodes.py and intent.py.
--   Workflow/Support.antt       workflows/graph_support.py and test_routing.py.
--   Workflow/Graph.antt         workflows/graph.py: the node functions.
--   Workflow/Drive.antt         workflows/graph.py: _wire_edges, and an invocation that follows it.
-- LangGraph, which runs the graph, is third-party: of it the model uses that it overwrites the keys
-- that a node's delta names, follows the edge that the phase selects, and stops at an interrupt or at
-- END. The ports are given as their answers in each step, and SHA-256 is a parameter.
-- An invocation runs on fuel: a node's rank, three nodes for each retry left and seven for each
-- regroup left bound the nodes that it runs, so that a new run needs at most twenty-three.
--
-- Context (context/). Which artifacts go into a worker's context.
--   Context/Budget.antt     context/budget.py: the tracker; requests and budgets of
--                           application/ports/context_builder.py.
--   Context/Selection.antt  context/selection.py: deduplication, order and selection. Python's stable
--                           sort is an insertion sort.
--
-- Domain (core/domain/). The data that the services store.
--   Domain/Result.antt     core/domain/errors.py and application/errors.py: the exceptions as results.
--   Domain/Code.antt       core/domain/enums.py, _StrEnum; the enumerations, with the text of each
--                          member and its parsing, are in Domain/Status.antt and Domain/Execution.antt.
--   Domain/Entities.antt   entities.py and workflow.py; Domain/Approval.antt records.py. A constructor
--                          is a record and the check that it makes.
--
-- Store (persistence/). The tables as lists of rows, in the order of insertion.
--   Store/Tx.antt          unit_of_work.py: a transaction takes the tables and gives its result beside
--                          the tables that it leaves, or an exception, which leaves them as they were.
--   Store/Rows.antt        insertion under a unique index, update and search of rows.
--   Store/Runs.antt        repositories/task.py, workflow_run.py and status_transition.py.
--   Store/Gates.antt       repositories/approval.py and resume_operation.py.
--   Store/Attempts.antt    repositories/execution_attempt.py. The unique indexes are those of
--                          schema_workflow.py.
-- Foreign keys, CHECK constraints and the other tables are left out. Concurrent transactions are a
-- sequence of them: SQLite admits one writer at a time.
--
-- Services (application/services/). The use cases that create, pause, decide, cancel and complete runs.
--   Services/Support.antt     workflow_support.py, and what the runner answers.
--   Services/Pause.antt       pause_finalizer.py; Services/Completion.antt completion_finalizer.py.
--   Services/Resolve.antt     the transaction of resolve_approval.py; Services/Cancel.antt those of
--                             cancel_task.py; Services/Create.antt that of run_workflow.py.
--   Services/Calls.antt       all of these transactions as one data type of calls, and runs of them.
--   Services/World.antt       resolve_approval.py, and the creation of a run of run_workflow.py, round
--                             the port of the runner, whose state is a parameter that it alone touches.
--   Services/Recovery.antt    reconciler.py, and run_workflow.py as a whole; Services/Cancellation.antt
--                             cancel_task.py as a whole.
-- The port of the runner, the clock, the identifiers, SHA-256 and the answer of the terminal handoff
-- are parameters: each transaction takes an environment. A run is created for a task that has no
-- documentation to prepare. Services/Effect.antt names what a call may do to the decided approvals;
-- the files that are not named here hold lemmas.
--
-- Attempts (workflows/attempt_orchestrator.py). Attempts.antt holds the operations round an invocation
-- of a worker, over Store/Attempts.antt; times are microseconds.
--
-- Testing (workers/test/, core/domain/test_failure.py and test_failure_policy.py). What the facts of a
-- test run mean.
--   Testing/Failure.antt      test_failure.py; Testing/Policy.antt test_failure_policy.py.
--   Testing/Facts.antt        the enumerations, the facts and the tables of classifier.py.
--   Testing/Classifier.antt   classifier.py, and result_for_exit_code of pytest_outcome.py.
--   Testing/Described.antt    a description of the facts that does not follow the classifier.
--
-- Security (security/). Which commands a run may execute.
--   Security/Paths.antt       windows_path.py; Security/Commands.antt command_policy.py;
--   Security/Profiles.antt    test_command_profile.py.
-- The case mapping of Unicode and its blank test are parameters.
--
-- The Tests.antt of a folder applies its theorems to concrete data. Prelude.antt and its folder hold
-- what the components share: tests, integers, dicts, strings.
--
-- Not modelled: the path policy and the redaction of texts, which rest on the file system and on regular
-- expressions; the bounded execution of commands; the context packages; the workers other than the
-- classifier of test runs; the durable energy lifecycle; LangGraph and its checkpoints; and the
-- adapters, the API, the CLI and the configuration, which are input and output for the most part.
pub mod Attempts
pub mod Context
pub mod Domain
pub mod Energy
pub mod Prelude
pub mod Security
pub mod Services
pub mod Store
pub mod Testing
pub mod Workflow
