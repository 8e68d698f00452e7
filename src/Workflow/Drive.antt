-- ===== src/Workflow/Drive.antt =====
-- workflows/graph.py, `_wire_edges`: the edges, and an invocation that follows them.
pub mod Budget
pub mod Termination
pub mod Approval
pub mod Pause
use ant_orchestrator.Prelude.{ℕ, zero, suc, Bool, true, false, Option, none, some, if◌then◌else◌}
use ant_orchestrator.Workflow.State.{GraphState, Phase}
use ant_orchestrator.Workflow.Graph.{
  Wiring, Answers, Node, plan, context, decision, execute_stub, test, validate, review,
  prepare_intent, await_approval, persist_handoff, failed, rejected, cancelled, run_node,
}

-- Where an edge leads: to a node, to END, or nowhere, where the phase has no edge.
pub data Target : Type 0 where
  goes : Node → Target
  ends unrouted : Target

-- `_wire_edges`
unfoldable pub successor : Node → Phase → Target
successor plan phase = goes context
successor context phase = goes decision
successor decision Phase.execute = goes execute_stub
successor decision Phase.prepare_intent = goes prepare_intent
successor decision Phase.failed = goes failed
successor prepare_intent phase = goes await_approval
successor await_approval Phase.execute = goes execute_stub
successor await_approval Phase.plan = goes plan
successor await_approval Phase.persist = goes persist_handoff
successor await_approval Phase.rejected = goes rejected
successor await_approval Phase.cancelled = goes cancelled
successor await_approval Phase.failed = goes failed
successor execute_stub Phase.validate = goes validate
successor execute_stub Phase.test = goes test
successor execute_stub Phase.cancelled = goes cancelled
successor execute_stub Phase.failed = goes failed
successor test Phase.validate = goes validate
successor test Phase.cancelled = goes cancelled
successor validate Phase.review = goes review
successor validate Phase.test = goes test
successor validate Phase.execute = goes execute_stub
successor validate Phase.plan = goes plan
successor validate Phase.failed = goes failed
successor validate Phase.prepare_intent = goes prepare_intent
successor validate Phase.cancelled = goes cancelled
successor review Phase.persist = goes persist_handoff
successor review Phase.plan = goes plan
successor review Phase.prepare_intent = goes prepare_intent
successor persist_handoff Phase.completed = ends
successor persist_handoff Phase.cancelled = goes cancelled
successor failed phase = ends
successor rejected phase = ends
successor cancelled phase = ends
successor _ _ = unrouted

-- How an invocation of the graph stops.
pub data Stop : Type 0 where
  interrupted ended : GraphState → Stop
  exception_raised lost out_of_fuel : Stop

abbrev pub is_await : Node → Bool
is_await await_approval = true
is_await _ = false

-- An invocation from a node on, which runs nodes until the interrupt of `await_approval`, END or an
-- exception. `answers n` is what the outside answers when `n` is the fuel left.
unfoldable pub drive : ℕ → Wiring → (ℕ → Answers) → Node → GraphState → Stop
drive zero wiring answers node state = out_of_fuel
drive (suc fuel) wiring answers node state = elim (run_node wiring (answers fuel) node state) [
  | none ↦ exception_raised
  | some next ↦ elim (successor node next.phase) [
    | ends ↦ ended next
    | unrouted ↦ lost
    | goes target ↦
        if is_await target then interrupted next else drive fuel wiring answers target next
  ]
]
