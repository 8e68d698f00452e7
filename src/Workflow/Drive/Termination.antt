-- ===== src/Workflow/Drive/Termination.antt =====
-- The steps and the invocations of the workflow graph (workflows/graph.py), measured.
use ant_orchestrator.Prelude.{
  ℕ, zero, suc, ◌<◌, ◌≡◌, refl, Bool, true, false, ◌&&◌, ◌||◌, not, Option, none, some, inl, inr,
  arith, if◌then◌else◌, String, Bool-cases, Option-cases,
}
use ant_orchestrator.Prelude.Text.{is_blank}
use ant_orchestrator.Prelude.Equality.{string_eq, ◌≟◌}
use ant_orchestrator.Workflow.Port.{
  GateType, ApprovalContinuation, execute, DocumentationExecutionOutcome,
}
use ant_orchestrator.Workflow.Routing.{grant_retry_extension}
use ant_orchestrator.Workflow.DecisionGate.{DecisionGateOutcome}
use ant_orchestrator.Workflow.State.{GraphState, Phase, ActionIntent, ApprovalIntent}
use ant_orchestrator.Workflow.Nodes.{
  plan_node, context_node, decision_node, decision_phase, prepare_approval_intent,
}
use ant_orchestrator.Workflow.Support.{
  approve, continuation_phase, apply_approval_delta, bind_approval, bound_digest, equals_bound,
  is_execute, execute_test_port, execute_documentation_node, intent_from_state,
}
use ant_orchestrator.Workflow.Graph.{
  Wiring, Answers, Node, plan, context, decision, execute_stub, test, validate, review,
  prepare_intent, await_approval, persist_handoff, failed, rejected, cancelled, run_node,
  evaluate_gate, decided_intent, decision_step, begin_attempt, stub_step, execute_step, test_step,
  prepare_step, await_step, persist_step,
}
use ant_orchestrator.Workflow.Drive.{
  goes, ends, unrouted, successor, is_await, drive, Stop, interrupted, ended, exception_raised,
  out_of_fuel, lost,
}
use ant_orchestrator.Workflow.Drive.Budget.{
  IsBounded, measure, Onward, Sound, Steps, validate-Steps, review-Steps,
}

decided_steps :
    (s : GraphState) (o : DecisionGateOutcome) (reason : String) (i : ActionIntent)
    → Sound decision s (record (decision_node s o reason) { action_intent = i })
unfolding decision_node decision_phase successor
decided_steps s DecisionGateOutcome.allow reason i = (λ h. omega arith, λ b. b, refl)
decided_steps s DecisionGateOutcome.require_approval reason i = (λ h. omega arith, λ b. b, refl)
decided_steps s DecisionGateOutcome.deny reason i = (λ h. omega arith, λ b. b, refl)

decision-Steps : (s : GraphState) → Steps decision s (decision_step s)
unfolding decision_step
decision-Steps s = elim (Option-cases (intent_from_state s)) [
  | inl e ↦ rw (decision_step, e) tt
  | inr (i, e) ↦
      rw (decision_step, e)
        (decided_steps s (evaluate_gate i s.task_id).outcome _
          (decided_intent i (evaluate_gate i s.task_id)))
]

-- Where execution leads on.
abbrev after_execution : Bool → Phase
after_execution t = if t then Phase.test else Phase.validate

stub-Steps :
    (w : Wiring) (a : Answers) (s : GraphState) (t : Bool)
    → Steps execute_stub s (stub_step w a (after_execution t) s)
unfolding stub_step begin_attempt successor
stub-Steps w a s true = elim (Option-cases (intent_from_state s)) [
  | inl e ↦ rw e tt
  | inr (i, e) ↦ rw e (ground arith)
]
stub-Steps w a s false = elim (Option-cases (intent_from_state s)) [
  | inl e ↦ rw e tt
  | inr (i, e) ↦ rw e (ground arith)
]

documentation-Steps :
    (x : Option DocumentationExecutionOutcome) (s : GraphState) (t : Bool)
    → Steps execute_stub s (execute_documentation_node x s (after_execution t))
unfolding execute_documentation_node successor
documentation-Steps x s true = ground arith
documentation-Steps x s false = ground arith

execute-Steps :
    (w : Wiring) (a : Answers) (s : GraphState) → Steps execute_stub s (execute_step w a s)
unfolding execute_step successor stub_step
execute-Steps w a s = elim (Bool-cases (w.cancellation_probe && a.cancel_requested)) [
  | inl e ↦ rw e (λ h. omega arith, λ b. b, refl)
  | inr e ↦ rw e (elim (Bool-cases w.documentation_execution) [
    | inl d ↦ rw d (documentation-Steps a.documentation s w.test_execution)
    | inr d ↦ rw d (stub-Steps w a s w.test_execution)
  ])
]

test-Steps : (w : Wiring) (a : Answers) (s : GraphState) → Steps test s (test_step w a s)
unfolding test_step execute_test_port successor
test-Steps w a s = ground arith

prepare-Steps : (w : Wiring) (s : GraphState) → Steps prepare_intent s (prepare_step w s)
unfolding prepare_step prepare_approval_intent successor
prepare-Steps w s = ground arith

persist_steps :
    (w : Wiring) (a : Answers) (s : GraphState) → Sound persist_handoff s (persist_step w a s)
unfolding persist_step successor
persist_steps w a s = elim (Bool-cases (w.cancellation_probe && a.cancel_requested)) [
  | inl e ↦ rw e (λ h. omega arith, λ b. b, refl)
  | inr e ↦ rw e (tt, λ b. b, refl)
]

approve_steps :
    (g : GateType) (c : ApprovalContinuation) (s : GraphState)
    → Sound await_approval s (approve g c s)
unfolding approve continuation_phase grant_retry_extension successor
approve_steps g execute s = ground arith
approve_steps g ApprovalContinuation.replan s = ground arith
approve_steps g ApprovalContinuation.accept_result s = ground arith

decided_approval-Steps :
    (i : Option ApprovalIntent) (d : String) (s : GraphState)
    → Steps await_approval s (apply_approval_delta i d s)
unfolding apply_approval_delta successor
decided_approval-Steps none d s = ground arith
decided_approval-Steps (some i) d s = elim (Bool-cases (d ≟ "rejected")) [
  | inl e ↦ rw e (λ h. omega arith, λ b. b, refl)
  | inr e ↦ rw e (elim (Bool-cases (d ≟ "cancelled")) [
    | inl c ↦ rw c (λ h. omega arith, λ b. b, refl)
    | inr c ↦ rw c (approve_steps i.gate_type i.approved_continuation s)
  ])
]

executes : (p : Phase) (x : Bool) → (not (is_execute p) || x) ≡ false → p ≡ Phase.execute
executes p x h = ground arith

-- Binding an approval may only turn an execution into a failure.
bound_steps :
    (i : Option ApprovalIntent) (s t : GraphState)
    → Sound await_approval s t
    → Sound await_approval s (bind_approval i t)
unfolding bind_approval successor
bound_steps i s t h = elim (Bool-cases (not (is_execute t.phase) || is_blank t.proposal_digest)) [
  | inl e ↦ rw e h
  | inr e ↦ rw e (elim (Bool-cases (equals_bound (bound_digest i) t.proposal_digest)) [
    | inl q ↦ rw q h
    | inr q ↦
        let p : t.phase ≡ Phase.execute = executes t.phase (is_blank t.proposal_digest) e in
        let o : Onward await_approval s t (successor await_approval Phase.execute) = rw p at h.0 in
        let lower : measure execute_stub t < measure await_approval s = o refl in
        rw q (λ x. omega arith, h.1, h.2)
  ])
]

await-Steps : (a : Answers) (s : GraphState) → Steps await_approval s (await_step a s)
unfolding await_step
await-Steps a s =
    let steps : Steps await_approval s (apply_approval_delta s.approval_intent a.decision_token s) =
      decided_approval-Steps s.approval_intent a.decision_token s in
    elim (Option-cases (apply_approval_delta s.approval_intent a.decision_token s)) [
      | inl e ↦ rw (await_step, e) tt
      | inr (t, e) ↦ rw (await_step, e) (bound_steps s.approval_intent s _ (rw e at steps))
    ]

-- Every step of the graph follows an edge of the table, spends budget unless it comes to the
-- interrupt or to the end, keeps the counters to their limits and leaves the base limit as it is.
pub run_node-Sound :
    (w : Wiring) (a : Answers) (n : Node) (s : GraphState) → Steps n s (run_node w a n s)
unfolding run_node plan_node context_node successor
run_node-Sound w a plan s = (λ h. omega arith, λ b. b, refl)
run_node-Sound w a context s =
    elim (Bool-cases (is_blank s.context_package_ref || is_blank s.manifest_digest)) [
      | inl e ↦ rw e (λ h. omega arith, λ b. b, refl)
      | inr e ↦ rw e (λ h. omega arith, λ b. b, refl)
    ]
run_node-Sound w a decision s = decision-Steps s
run_node-Sound w a execute_stub s = execute-Steps w a s
run_node-Sound w a test s = test-Steps w a s
run_node-Sound w a validate s = validate-Steps s
run_node-Sound w a review s = review-Steps s
run_node-Sound w a prepare_intent s = prepare-Steps w s
run_node-Sound w a await_approval s = await-Steps a s
run_node-Sound w a persist_handoff s = persist_steps w a s
run_node-Sound w a failed s = (tt, λ b. b, refl)
run_node-Sound w a rejected s = (tt, λ b. b, refl)
run_node-Sound w a cancelled s = (tt, λ b. b, refl)

-- An invocation that stopped in one of the ways that the graph means.
abbrev pub IsStopped : Stop → Type 0
IsStopped (interrupted s) = IsBounded s
IsStopped (ended s) = IsBounded s
IsStopped exception_raised = Unit
IsStopped lost = ⊥
IsStopped out_of_fuel = ⊥

-- From any node and any state whose counters keep to their limits, whatever the outside answers, an
-- invocation with fuel above the measure stops at the interrupt, at END or with an exception: it
-- neither runs on nor meets a phase that has no edge, and its counters keep to their limits.
pub drive_stops :
    (fuel : ℕ) (w : Wiring) (answers : ℕ → Answers) (n : Node) (s : GraphState)
    → measure n s < fuel
    → IsBounded s
    → IsStopped (drive fuel w answers n s)
unfolding drive
drive_stops zero w answers n s h b = absurd (omega arith)
drive_stops (suc fuel) w answers n s h b =
    let steps : Steps n s (run_node w (answers fuel) n s) = run_node-Sound w (answers fuel) n s in
    elim (Option-cases (run_node w (answers fuel) n s)) [
      | inl e ↦ rw (drive, e) tt
      | inr (t, e) ↦
          let sound : Sound n s t = rw e at steps in
          rw (drive, e)
            (elim (successor n t.phase)
                as (λ x.
                  Onward n s t x
                  → IsStopped (elim x [
                    | ends ↦ ended t
                    | unrouted ↦ lost
                    | goes m ↦ if is_await m then interrupted t else drive fuel w answers m t
                  ])) [
                    | ends ↦ λ o. sound.1 b
                    | unrouted ↦ λ o. o
                    | goes m ↦ λ o. elim (Bool-cases (is_await m)) [
                      | inl i ↦ rw i (sound.1 b)
                      | inr i ↦ rw i (
                          let lower : measure m t < measure n s = o i in
                          drive_stops fuel w answers m t (omega arith) (sound.1 b))
                    ]
                  ]
              sound.0)
    ]
