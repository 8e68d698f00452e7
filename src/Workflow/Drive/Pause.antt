-- ===== src/Workflow/Drive/Pause.antt =====
-- A run whose intent needs approval, from its start to its pause (workflows/graph.py).
use mathlib.Core.Path.{subst}
use ant_orchestrator.Prelude.{
  ℕ, suc, ◌+◌, ◌≡◌, refl, sym, ap, ◌∙◌, true, false, ◌||◌, not, Option, none, some, String,
  if◌then◌else◌,
}
use ant_orchestrator.Prelude.Text.{is_blank, str, ◌⊕◌, or_else}
use ant_orchestrator.Workflow.Port.{GateType, ApprovalContinuation, WorkerActionIntent}
use ant_orchestrator.Workflow.DecisionGate.{
  DecisionGateOutcome, DecisionGateResult, require_approval, reason_value,
}
use ant_orchestrator.Workflow.State.{GraphState, Phase, Payload, ApprovalIntent}
use ant_orchestrator.Workflow.Nodes.{
  plan_node, context_node, decision_node, decision_phase, prepare_approval_intent,
  is_same_occurrence, build_approval_intent,
}
use ant_orchestrator.Workflow.Support.{
  intent_from_state, mark_pending_gate, build_escalation_payload,
}
use ant_orchestrator.Workflow.Graph.{
  Wiring, Answers, plan, decision, prepare_intent, run_node, evaluate_gate, decided_intent,
  decision_step, prepare_step,
}
use ant_orchestrator.Workflow.Drive.{successor, drive, Stop, interrupted}
use ant_orchestrator.Workflow.Drive.Approval.{needs_approval, gate_outcome}

-- A run that waits for an approval that was prepared for the proposal of `s`.
abbrev pub IsPaused : GraphState → Stop → Type 0
IsPaused s (interrupted t) =
    (t.phase ≡ Phase.await_approval)
    × (t.evidence_refs ≡ s.evidence_refs)
    × (t.retry_count ≡ s.retry_count)
    × (t.approval_gate_sequence ≡ s.approval_gate_sequence + 1)
    × (j : ApprovalIntent) × (t.approval_intent ≡ some j)
    × (j.approval_gate_sequence ≡ s.approval_gate_sequence + 1)
    × (j.sanitized_payload.proposal_digest
        ≡ (if not (is_blank s.proposal_digest) then some s.proposal_digest else none))
IsPaused s _ = ⊥

new_occurrence :
    (sha256 : String → String) (s : GraphState) (g : GateType) (action : String) (p : Payload)
    (c : Option ApprovalContinuation)
    → s.approval_intent ≡ none
    → prepare_approval_intent sha256 s g action p c ≡ record s {
      approval_intent = some (
          build_approval_intent sha256 s.workflow_run_id g action
            (s.approval_gate_sequence + 1)
            p
            c);
      approval_gate_sequence = s.approval_gate_sequence + 1;
      phase = Phase.await_approval;
    }
unfolding prepare_approval_intent is_same_occurrence
new_occurrence sha256 s g action p c h =
    ap
      (λ o.
        if is_same_occurrence o g action s.approval_gate_sequence
        then record s { phase = Phase.await_approval }
        else record s {
          approval_intent = some (
              build_approval_intent sha256 s.workflow_run_id g action (s.approval_gate_sequence + 1)
                p c);
          approval_gate_sequence = s.approval_gate_sequence + 1;
          phase = Phase.await_approval;
        })
      h

-- The state that the decision leaves for an approval.
abbrev held : GraphState → WorkerActionIntent → DecisionGateResult → GraphState
held s i x = record s {
  phase = Phase.prepare_intent;
  action_intent =
      mark_pending_gate (record { intent = i; last_outcome = none; pending = none }) x.gate_type
        x.approved_continuation (reason_value x.reason);
}

decided_held :
    (s : GraphState) (i : WorkerActionIntent) (o : DecisionGateOutcome) (x : DecisionGateResult)
    → o ≡ require_approval
    → let y : DecisionGateResult = record x { outcome = o } in
      record (decision_node s y.outcome (reason_value y.reason)) {
        action_intent = decided_intent i y;
      }
      ≡ held s i x
unfolding decision_node decision_phase decided_intent
decided_held s i DecisionGateOutcome.allow x h = absurd cc
decided_held s i require_approval x h = refl
decided_held s i DecisionGateOutcome.deny x h = absurd cc

module _ (w : Wiring) (answers : ℕ → Answers) (fuel : ℕ) where
  prepared_pauses :
      (s : GraphState) (x : DecisionGateResult) (i : WorkerActionIntent)
      → s.approval_intent ≡ none
      → IsPaused s (drive (suc fuel) w answers prepare_intent (held s i x))
  unfolding drive run_node prepare_step build_approval_intent build_escalation_payload
      mark_pending_gate successor
  prepared_pauses s x i h =
      subst (λ t. IsPaused s (interrupted t))
        (sym (
          new_occurrence w.sha256 (held s i x) x.gate_type
            (or_else i.logical_action_id (s.task_id ⊕ "-act"))
            (build_escalation_payload (held s i x) x.gate_type (reason_value x.reason))
            x.approved_continuation h))
        (refl, refl, refl, refl, _, refl, refl, refl)

  decided_step :
      (s : GraphState) (i : WorkerActionIntent)
      → intent_from_state s ≡ some i
      → needs_approval i ≡ true
      → decision_step s ≡ some (held s i (evaluate_gate i s.task_id))
  unfolding decision_step
  decided_step s i e n =
      let x : DecisionGateResult = evaluate_gate i s.task_id in
      let o : x.outcome ≡ require_approval =
        gate_outcome i s.task_id
        ∙ ap (λ b. if b then require_approval else DecisionGateOutcome.allow) n in
      rw (decision_step, e) (ap some (decided_held s i x.outcome x o))

  decided_pauses :
      (s : GraphState) (i : WorkerActionIntent)
      → intent_from_state s ≡ some i
      → needs_approval i ≡ true
      → s.approval_intent ≡ none
      → IsPaused s (drive (suc (suc fuel)) w answers decision s)
  unfolding drive run_node successor
  decided_pauses s i e n h =
      rw (drive, decided_step s i e n) (prepared_pauses s (evaluate_gate i s.task_id) i h)

-- A run whose intent needs approval and that has none pending goes from the start of the graph to the
-- pause for its approval in four nodes: no evidence is added and no retry counted, the sequence goes up
-- by one, and the approval is prepared for the proposal of the state, if it has one.
pub gated_run_pauses :
    (w : Wiring) (answers : ℕ → Answers) (fuel : ℕ) (s : GraphState) (i : WorkerActionIntent)
    → intent_from_state s ≡ some i
    → needs_approval i ≡ true
    → s.approval_intent ≡ none
    → IsPaused s (drive (suc (suc (suc (suc fuel)))) w answers plan s)
unfolding drive run_node plan_node context_node successor intent_from_state
gated_run_pauses w answers fuel s i e n h =
    elim (is_blank s.context_package_ref || is_blank s.manifest_digest)
      as (λ b. IsPaused s (
        drive (suc (suc fuel)) w answers decision (
          if b
          then record (plan_node s) {
            context_ref = "ctx:" ⊕ s.workflow_run_id ⊕ ":" ⊕ str s.regroup_count;
            phase = Phase.execute;
          }
          else record (plan_node s) {
            context_ref = s.context_package_ref;
            phase = Phase.execute;
          }))) [
            | true ↦ decided_pauses w answers fuel _ i e n h
            | false ↦ decided_pauses w answers fuel _ i e n h
          ]
