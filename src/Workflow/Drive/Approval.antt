-- ===== src/Workflow/Drive/Approval.antt =====
-- Approvals in the workflow graph (workflows/graph.py, nodes.py, graph_support.py): what waits for
-- one, what a refusal does, and what an approval is bound to.
use mathlib.Core.Option.{some-injective}
use mathlib.Core.Path.{subst}
use ant_orchestrator.Prelude.{
  ℕ, suc, ◌+◌, ◌==◌, ==_iff, ◌≡◌, refl, sym, ap, ◌∙◌, Bool, true, false, ◌||◌, Option, none, some,
  inl, inr, arith, if◌then◌else◌, String, Bool-cases, Option-cases,
}
use ant_orchestrator.Prelude.Text.{is_blank, ◌⊕◌, or_else}
use ant_orchestrator.Prelude.Equality.{string_eq, ◌≟◌, ≟_refl}
use ant_orchestrator.Energy.Port.{limit_for}
use ant_orchestrator.Energy.Enforcement.{check_budget_coverage, uncovered}
use ant_orchestrator.Prelude.Dict.{get}
use ant_orchestrator.Workflow.Port.{GateType, ApprovalContinuation, WorkerActionIntent}
use ant_orchestrator.Workflow.DecisionGate.{
  DecisionGateOutcome, DecisionGateResult, reason_value, require_approval, approval,
  evaluate_energy_gate, evaluate_energy_budget, governed_plan, evaluate_unsafe_command,
  evaluate_significant_write, map_energy,
}
use ant_orchestrator.Workflow.State.{GraphState, Phase, ApprovalIntent}
use ant_orchestrator.Workflow.Nodes.{
  decision_node, decision_phase, prepare_approval_intent, is_same_occurrence, build_approval_intent,
  gate_value,
}
use ant_orchestrator.Workflow.Support.{
  approve, apply_approval_delta, bind_approval, bound_digest, equals_bound, gate_id,
  intent_from_state, build_escalation_payload,
}
use ant_orchestrator.Workflow.Graph.{
  Wiring, Answers, decision, execute_stub, prepare_intent, await_approval, run_node, evaluate_gate,
  decided_intent, decision_step, prepare_step, await_step,
}
use ant_orchestrator.Workflow.Drive.{goes, successor, drive, ended}

-- An intent that any of the three gates holds back.
abbrev pub needs_approval : WorkerActionIntent → Bool
needs_approval i =
    i.requires_energy_approval || i.requires_unsafe_command || i.requires_significant_write

pub gate_outcome :
    (i : WorkerActionIntent) (task : String)
    → (evaluate_gate i task).outcome
      ≡ (if needs_approval i then require_approval else DecisionGateOutcome.allow)
unfolding evaluate_gate evaluate_energy_gate evaluate_energy_budget evaluate_unsafe_command
    evaluate_significant_write governed_plan check_budget_coverage uncovered limit_for get
    map_energy approval
gate_outcome i task = ground arith

decided_phase :
    (s : GraphState) (o : DecisionGateOutcome) (r : String)
    → (decision_node s o r).phase ≡ decision_phase o
unfolding decision_node
decided_phase s DecisionGateOutcome.allow r = refl
decided_phase s require_approval r = refl
decided_phase s DecisionGateOutcome.deny r = refl

routed :
    (b : Bool)
    → successor decision
        (decision_phase (if b then require_approval else DecisionGateOutcome.allow))
      ≡ goes (if b then prepare_intent else execute_stub)
unfolding successor decision_phase
routed true = refl
routed false = refl

-- The decision node, where it raises nothing, leads an intent that needs approval (a significant
-- write, an unsafe command or an energy-governed action) to the approval gate, and any other intent
-- to execution.
pub decision_gates :
    (w : Wiring) (a : Answers) (s t : GraphState) (i : WorkerActionIntent)
    → intent_from_state s ≡ some i
    → run_node w a decision s ≡ some t
    → successor decision t.phase ≡ goes (if needs_approval i then prepare_intent else execute_stub)
unfolding run_node decision_step
decision_gates w a s t i e h =
    let result : DecisionGateResult = evaluate_gate i s.task_id in
    let made : some (record (decision_node s result.outcome (reason_value result.reason)) {
      action_intent = decided_intent i result;
    })
        ≡ some t =
      rw (decision_step, e) at h in
    let phase : decision_phase result.outcome ≡ t.phase =
      sym (decided_phase s result.outcome (reason_value result.reason))
      ∙ ap (λ x. x.phase) (some-injective _ _ made) in
    ap (successor decision) (sym phase)
    ∙ ap (λ o. successor decision (decision_phase o)) (gate_outcome i s.task_id)
    ∙ routed (needs_approval i)

same_count : (n : ℕ) → (n == n) ≡ true
same_count n = (==_iff n n).1 refl

-- A replay of the node that prepares an approval changes nothing, so that a paused occurrence keeps
-- its identifier and its place in the sequence.
pub prepare_replays :
    (w : Wiring) (s t : GraphState) → prepare_step w s ≡ some t → prepare_step w t ≡ some t
unfolding prepare_step prepare_approval_intent is_same_occurrence build_approval_intent
prepare_replays w s t h = elim (Option-cases s.action_intent.pending) [
  | inl e ↦ let q : none ≡ some t = rw (prepare_step, e) at h in cc
  | inr (g, e) ↦
      let action : String = or_else s.action_intent.intent.logical_action_id (s.task_id ⊕ "-act") in
      elim (Bool-cases
        (is_same_occurrence s.approval_intent g.gate_type action s.approval_gate_sequence)) [
          | inl b ↦
              let q : some (record s { phase = Phase.await_approval }) ≡ some t =
                rw (prepare_step, e, b) at h in
              subst (λ x. prepare_step w x ≡ some x) (some-injective _ _ q) (simp (e, b) refl)
          | inr b ↦
              let new : ApprovalIntent =
                build_approval_intent w.sha256 s.workflow_run_id g.gate_type action
                  (s.approval_gate_sequence + 1) (build_escalation_payload s g.gate_type g.reason)
                  g.continuation in
              let q : some (record s {
                approval_intent = some new;
                approval_gate_sequence = s.approval_gate_sequence + 1;
                phase = Phase.await_approval;
              })
                  ≡ some t =
                rw (prepare_step, e, b) at h in
              subst (λ x. prepare_step w x ≡ some x) (some-injective _ _ q)
                (simp
                  (
                    e,
                    ≟_refl (gate_value g.gate_type),
                    ≟_refl action,
                    same_count (s.approval_gate_sequence + 1),
                  )
                  refl)
        ]
]

bound_to :
    (i : Option ApprovalIntent) (n : GraphState)
    → (bind_approval i n).phase ≡ Phase.execute
    → is_blank n.proposal_digest ≡ false
    → (n.phase ≡ Phase.execute)
      × (equals_bound (bound_digest i) n.proposal_digest ≡ true)
      × ((bind_approval i n).approval_ref ≡ gate_id i)
unfolding bind_approval
bound_to i n p d = ground arith

awaited :
    (i : Option ApprovalIntent) (n t : GraphState)
    → some (bind_approval i n) ≡ some t
    → t.phase ≡ Phase.execute
    → is_blank n.proposal_digest ≡ false
    → (n.phase ≡ Phase.execute)
      × (equals_bound (bound_digest i) n.proposal_digest ≡ true)
      × (t.approval_ref ≡ gate_id i)
awaited i n t h p d =
    let same : bind_approval i n ≡ t = some-injective _ _ h in
    let (e, b, r) = bound_to i n (ap (λ x. x.phase) same ∙ p) d in
    (e, b, sym (ap (λ x. x.approval_ref) same) ∙ r)

bound_iff : (o : Option String) (d : String) → equals_bound o d ≡ true → o ≡ some d
bound_iff none d h = cc
bound_iff (some b) d h = ap some ((string_eq.beq_iff b d).0 h)

approve_keeps :
    (g : GateType) (c : ApprovalContinuation) (s : GraphState)
    → (approve g c s).proposal_digest ≡ s.proposal_digest
unfolding approve
approve_keeps g c s = ground arith

-- In a state that has a proposal, an approval leads to execution only for a decision that is neither
-- a rejection nor a cancellation, and only if the approval was prepared for the digest of this very
-- proposal; the execution then runs under the identifier of that approval.
pub execution_is_bound :
    (a : Answers) (s t : GraphState)
    → await_step a s ≡ some t
    → t.phase ≡ Phase.execute
    → is_blank s.proposal_digest ≡ false
    → (i : ApprovalIntent) × (s.approval_intent ≡ some i)
      × (i.sanitized_payload.proposal_digest ≡ some s.proposal_digest)
      × (t.approval_ref ≡ i.gate_instance_id)
      × ((a.decision_token ≟ "rejected") ≡ false)
      × ((a.decision_token ≟ "cancelled") ≡ false)
unfolding await_step apply_approval_delta
execution_is_bound a s t h p d = elim (Bool-cases (a.decision_token ≟ "rejected")) [
  | inl r ↦
      let q = rw (await_step, apply_approval_delta, r) at h in
      absurd (let x = awaited _ _ t q p d in cc)
  | inr r ↦ elim (Bool-cases (a.decision_token ≟ "cancelled")) [
    | inl c ↦
        let q = rw (await_step, apply_approval_delta, r, c) at h in
        absurd (let x = awaited _ _ t q p d in cc)
    | inr c ↦ elim (Option-cases s.approval_intent) [
      | inl e ↦
          let q : none ≡ some t = rw (await_step, apply_approval_delta, r, c, e) at h in absurd cc
      | inr (i, e) ↦
          let q = rw (await_step, apply_approval_delta, r, c, e) at h in
          let x = awaited _ _ t q p (rw (approve_keeps i.gate_type i.approved_continuation s) d) in
          (
            i,
            e,
            bound_iff _ _ (rw (approve_keeps i.gate_type i.approved_continuation s, e) at x.1),
            rw e at x.2,
            r,
            c,
          )
    ]
  ]
]

-- The two decisions that refuse a paused run.
pub data Refusal : Type 0 where
  rejection cancellation : Refusal

abbrev pub token : Refusal → String
token rejection = "rejected"
token cancellation = "cancelled"

abbrev pub refused_phase : Refusal → Phase
refused_phase rejection = Phase.rejected
refused_phase cancellation = Phase.cancelled

refused_step :
    (r : Refusal) (a : Answers) (s : GraphState)
    → a.decision_token ≡ token r
    → await_step a s
      ≡ some (record s {
        phase = refused_phase r;
        approval_decision = some (token r);
        approval_intent = none;
      })
unfolding await_step apply_approval_delta bind_approval
refused_step rejection a s h = rw h refl
refused_step cancellation a s h = rw h refl

-- A resumed run that is rejected, or cancelled, comes to END in two nodes. Its final outcome is the
-- decision, the approval is gone, and of its state nothing else changes but the phase and the
-- recorded decision: no node that executes or tests is run.
pub refusal_ends :
    (r : Refusal) (fuel : ℕ) (w : Wiring) (answers : ℕ → Answers) (s : GraphState)
    → (answers (suc fuel)).decision_token ≡ token r
    → drive (suc (suc fuel)) w answers await_approval s
      ≡ ended (record s {
        phase = refused_phase r;
        approval_decision = some (token r);
        approval_intent = none;
        final_outcome = some (token r);
      })
unfolding drive run_node successor
refusal_ends rejection fuel w answers s h =
    rw (drive, refused_step rejection (answers (suc fuel)) s h) refl
refusal_ends cancellation fuel w answers s h =
    rw (drive, refused_step cancellation (answers (suc fuel)) s h) refl
