-- ===== src/Workflow/Drive/Budget.antt =====
-- The retry and regroup budgets along the edges of the workflow graph (workflows/graph.py).
use ant_orchestrator.Prelude.{
  ℕ, ◌+◌, ◌-◌, ◌*◌, ◌≤◌, ◌<◌, ◌≡◌, refl, true, false, Option, none, some, arith, ltb, if◌then◌else◌,
}
use ant_orchestrator.Prelude.Equality.{string_eq}
use ant_orchestrator.Workflow.Port.{retry_limit, scope_change, execute, replan, WorkerOutcome}
use ant_orchestrator.Workflow.Routing.{
  retry_granted, retry_exhausted, regroup_granted, regroup_exhausted, route_retry, route_regroup,
}
use ant_orchestrator.Workflow.State.{GraphState, Phase, Status}
use ant_orchestrator.Workflow.Support.{
  Route, to_phase, escalate, follow_retry, follow_regroup, retry_or_escalate, regroup_or_escalate,
  route_after_validation, route_after_review, route_after_test_validation,
}
use ant_orchestrator.Workflow.Nodes.{
  evaluate_validation, evaluate_review, validation_status, review_status,
}
use ant_orchestrator.Workflow.Graph.{
  Node, plan, context, decision, execute_stub, test, validate, review, prepare_intent,
  await_approval, persist_handoff, apply_route, validate_step, review_step,
}
use ant_orchestrator.Workflow.Drive.{Target, goes, ends, unrouted, successor, is_await}

-- The counters keep to their limits: retries, extensions, regroups.
abbrev pub IsBounded : GraphState → Type 0
IsBounded s =
    (s.retry_count ≤ s.base_retry_limit + s.retry_extension_count)
    × (s.retry_extension_count ≤ 1)
    × (s.regroup_count ≤ 1)

-- The longest way from a node on that uses no retry and no regroup, and spare for an extension.
abbrev pub rank : Node → ℕ
rank plan = 9
rank context = 8
rank decision = 7
rank execute_stub = 6
rank test = 5
rank validate = 4
rank review = 3
rank prepare_intent = 2
rank persist_handoff = 2
rank await_approval = 13
rank _ = 1

-- A retry runs three nodes again, a regroup seven.
abbrev pub measure : Node → GraphState → ℕ
measure n s =
    rank n
    + 3 * (s.base_retry_limit + s.retry_extension_count - s.retry_count)
    + 7 * (1 - s.regroup_count)

abbrev pub Onward : Node → GraphState → GraphState → Target → Type 0
Onward n s t (goes m) = (is_await m ≡ false) → measure m t < measure n s
Onward n s t ends = Unit
Onward n s t unrouted = ⊥

-- A step follows an edge and spends budget; it keeps the counters to their limits, and the base
-- limit as it is.
abbrev pub Sound : Node → GraphState → GraphState → Type 0
Sound n s t =
    Onward n s t (successor n t.phase)
    × (IsBounded s → IsBounded t)
    × (t.base_retry_limit ≡ s.base_retry_limit)

abbrev pub Steps : Node → GraphState → Option GraphState → Type 0
Steps n s none = Unit
Steps n s (some t) = Sound n s t

-- A retry or an escalation, whichever the budget allows.
retry_rule :
    (P : Route → Type 0) (p : Phase) (s : GraphState)
    → (s.retry_count < s.base_retry_limit + s.retry_extension_count
        → P (record (to_phase p) { retry_count = some (s.retry_count + 1) }))
    → P (escalate retry_limit execute)
    → P (retry_or_escalate p s)
unfolding retry_or_escalate route_retry
retry_rule P p s h1 h2 =
    let limit : ℕ = s.base_retry_limit + s.retry_extension_count in
    elim (ltb s.retry_count limit)
        as (λ b.
          (ltb s.retry_count limit ≡ b)
          → P (
              follow_retry p
                (if b then retry_granted s.retry_count else retry_exhausted s.retry_count))) [
                  | true ↦ λ e. h1 (ground arith)
                  | false ↦ λ e. h2
                ]
      refl

regroup_rule :
    (P : Route → Type 0) (s : GraphState)
    → (s.regroup_count < 1
        → P (record (to_phase Phase.plan) { regroup_count = some (s.regroup_count + 1) }))
    → P (escalate scope_change replan)
    → P (regroup_or_escalate s)
unfolding regroup_or_escalate route_regroup
regroup_rule P s h1 h2 =
    elim (ltb s.regroup_count 1)
        as (λ b.
          (ltb s.regroup_count 1 ≡ b)
          → P (
              follow_regroup (
                if b
                then regroup_granted s.regroup_count
                else regroup_exhausted s.regroup_count))) [
                  | true ↦ λ e. h1 (ground arith)
                  | false ↦ λ e. h2
                ]
      refl

retry_test_steps :
    (s : GraphState) → Sound validate s (apply_route (retry_or_escalate Phase.test s) s)
unfolding apply_route successor
retry_test_steps s =
    retry_rule (λ r. Sound validate s (apply_route r s)) Phase.test s
      (λ e. (λ h. omega arith, λ b. omega arith, refl)) (λ h. omega arith, λ b. b, refl)

retry_execute_steps :
    (s : GraphState) (o : WorkerOutcome)
    → Sound validate s (apply_route (retry_or_escalate Phase.execute s) (evaluate_validation s o))
unfolding apply_route successor evaluate_validation
retry_execute_steps s o =
    retry_rule (λ r. Sound validate s (apply_route r (evaluate_validation s o))) Phase.execute s
      (λ e. (λ h. omega arith, λ b. omega arith, refl)) (λ h. omega arith, λ b. b, refl)

regroup_validate_steps :
    (s : GraphState) (o : WorkerOutcome)
    → Sound validate s (apply_route (regroup_or_escalate s) (evaluate_validation s o))
unfolding apply_route successor evaluate_validation
regroup_validate_steps s o =
    regroup_rule (λ r. Sound validate s (apply_route r (evaluate_validation s o))) s
      (λ e. (λ h. omega arith, λ b. omega arith, refl)) (λ h. omega arith, λ b. b, refl)

regroup_review_steps :
    (s : GraphState) (o : WorkerOutcome)
    → Sound review s (apply_route (regroup_or_escalate s) (evaluate_review s o))
unfolding apply_route successor evaluate_review
regroup_review_steps s o =
    regroup_rule (λ r. Sound review s (apply_route r (evaluate_review s o))) s
      (λ e. (λ h. omega arith, λ b. omega arith, refl)) (λ h. omega arith, λ b. b, refl)

tested_steps :
    (s : GraphState) (status : Status)
    → Sound validate s (apply_route (route_after_test_validation s status) s)
unfolding route_after_test_validation apply_route successor
tested_steps s Status.retryable = retry_test_steps s
tested_steps s Status.pass = (λ h. omega arith, λ b. b, refl)
tested_steps s Status.fatal = (λ h. omega arith, λ b. b, refl)
tested_steps s Status.cancelled = (λ h. omega arith, λ b. b, refl)
tested_steps s _ = (λ h. omega arith, λ b. b, refl)

worked_steps :
    (s : GraphState) (o : WorkerOutcome)
    → Sound validate s
        (apply_route (route_after_validation s (validation_status o)) (evaluate_validation s o))
unfolding route_after_validation apply_route successor validation_status evaluate_validation
worked_steps s WorkerOutcome.success = (λ h. omega arith, λ b. b, refl)
worked_steps s WorkerOutcome.retryable_failure =
    retry_execute_steps s WorkerOutcome.retryable_failure
worked_steps s WorkerOutcome.validation_failure =
    retry_execute_steps s WorkerOutcome.validation_failure
worked_steps s WorkerOutcome.review_regroup = regroup_validate_steps s WorkerOutcome.review_regroup
worked_steps s WorkerOutcome.permanent_failure = (λ h. omega arith, λ b. b, refl)
worked_steps s WorkerOutcome.escalation = (λ h. omega arith, λ b. b, refl)

pub validate-Steps : (s : GraphState) → Steps validate s (validate_step s)
unfolding validate_step
validate-Steps s =
    elim s.test_status
      as (λ x. Steps validate s (elim x [
        | some status ↦ some (apply_route (route_after_test_validation s status) s)
        | none ↦ elim s.action_intent.last_outcome [
          | none ↦ none
          | some outcome ↦ some (
              apply_route (route_after_validation s (validation_status outcome))
                (evaluate_validation s outcome))
        ]
      ])) [
        | some status ↦ tested_steps s status
        | none ↦
            elim s.action_intent.last_outcome
              as (λ x. Steps validate s (elim x [
                | none ↦ none
                | some outcome ↦ some (
                    apply_route (route_after_validation s (validation_status outcome))
                      (evaluate_validation s outcome))
              ])) [ none ↦ tt | some o ↦ worked_steps s o ]
      ]

reviewed_steps :
    (s : GraphState) (o : WorkerOutcome)
    → Sound review s (apply_route (route_after_review s (review_status o)) (evaluate_review s o))
unfolding route_after_review apply_route successor review_status evaluate_review
reviewed_steps s WorkerOutcome.success = (λ h. omega arith, λ b. b, refl)
reviewed_steps s WorkerOutcome.review_regroup = regroup_review_steps s WorkerOutcome.review_regroup
reviewed_steps s _ = (λ h. omega arith, λ b. b, refl)

pub review-Steps : (s : GraphState) → Steps review s (review_step s)
unfolding review_step
review-Steps s =
    elim s.action_intent.last_outcome
      as (λ x. Steps review s (elim x [
        | none ↦ none
        | some outcome ↦
            some (
              apply_route (route_after_review s (review_status outcome))
                (evaluate_review s outcome))
      ])) [ none ↦ tt | some o ↦ reviewed_steps s o ]
