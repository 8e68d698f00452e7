-- ===== src/Services/World.antt =====
-- application/services/: the use cases as a whole, round the port of the graph runner. The engine is
-- the runner's durable state, which the port alone reads and writes.
use ant_orchestrator.Prelude.{Bool, Option, none, some, List, String, if◌then◌else◌}
use ant_orchestrator.Prelude.Equality.{string_eq}
use ant_orchestrator.Domain.Result.{Result, ok, err}
use ant_orchestrator.Domain.Status.{
  TaskStatus, ApprovalStatus, task_status_value, approval_status_value, workflow_run_status_is_eq,
}
use ant_orchestrator.Domain.Entities.{WorkflowRun}
use ant_orchestrator.Domain.Approval.{Actor}
use ant_orchestrator.Store.Tx.{Db, atomically}
use ant_orchestrator.Services.Support.{
  Env, WorkflowOutcome, outcome_of, InterruptView, WorkflowInvokeResult,
}
use ant_orchestrator.Services.Pause.{finalize_pause}
use ant_orchestrator.Services.Completion.{complete, settle_operation}
use ant_orchestrator.Services.Resolve.{Lease, Ticket, answered, leased, resolve_tx, fetch_outcome}
use ant_orchestrator.Services.Create.{create_run, definition_version}

-- A durable snapshot of the graph: whether no node is next, and the final outcome in its values.
pub record StateSummary : Type 0 where
  pub at_end : Bool
  pub final_outcome : Option String
  pub checkpoint_id : Option String
  pub interrupts : List InterruptView

-- `invoke` takes the task, the run and the thread, and `resume` the thread, the interrupt and the
-- decision. `latest_state` raises where the schema of the snapshot is not supported, which
-- `check_state_schema` tests right after it.
pub record RunnerPort (E : Type 0) : Type 0 where
  pub invoke : String → String → String → E → Result WorkflowInvokeResult × E
  pub resume : String → String → String → E → Result WorkflowInvokeResult × E
  pub latest_state : String → E → Result StateSummary

pub record World (E : Type 0) : Type 0 where
  pub db : Db
  pub engine : E

-- What a use case takes from outside: an environment for each of its transactions, and the answer
-- of the terminal handoff.
pub record Outside : Type 0 where
  pub first : Env
  pub second : Env
  pub third : Env
  pub handoff : Result (Unit {0})

abbrev pub waiting : String → String → WorkflowOutcome
waiting run_id approval_id =
    record (outcome_of (task_status_value TaskStatus.waiting_for_approval) run_id) {
      approval_id = some approval_id;
    }

abbrev pub Answer : Type 0 → Type 0
Answer E = Result WorkflowOutcome × World E

module _ {E : Type 0} where
  -- The pause of a run, and what its approval is answered as.
  abbrev pub paused : (String → WorkflowOutcome) → World E → Result String × Db → Answer E
  paused answer w (ok id, db) = (ok (answer id), record w { db = db })
  paused answer w (err e, db) = (err e, record w { db = db })

  abbrev pub stored : World E → Result WorkflowOutcome × Db → Answer E
  stored w (r, db) = (r, record w { db = db })

  unfoldable pub pause_run : Env → String → InterruptView → Option String → World E → Answer E
  pause_run env run_id interrupt checkpoint w =
      paused (waiting run_id) w (atomically (finalize_pause env run_id interrupt checkpoint) w.db)

  unfoldable pub complete_world :
      Outside → String → Option String → Option String → Option String → World E → Answer E
  complete_world out run_id outcome checkpoint operation w =
      stored w (complete out.second out.handoff run_id outcome checkpoint operation w.db)

  -- An invocation's result goes to one of the finalizers.
  unfoldable pub finish :
      Outside → String → WorkflowInvokeResult → Option InterruptView → World E → Answer E
  finish out run_id result none w =
      complete_world out run_id result.final_outcome result.checkpoint_id none w
  finish out run_id result (some interrupt) w =
      pause_run out.second run_id interrupt result.checkpoint_id w

  -- The operation of a resume that paused again is settled in a transaction of its own.
  abbrev settle_after : Outside → String → Answer E → Answer E
  settle_after out op_id (err e, w) = (err e, w)
  settle_after out op_id (ok outcome, w) =
      let (r, db) = atomically (settle_operation out.third op_id) w.db in
      elim r [
        | ok done ↦ (ok (record outcome { resume_operation_id = some op_id }), record w { db = db })
        | err e ↦ (err e, record w { db = db })
      ]

  unfoldable pub finish_resume :
      Outside → Lease → WorkflowInvokeResult → Option InterruptView → World E → Answer E
  finish_resume out lease result none w =
      complete_world out lease.run_id result.final_outcome result.checkpoint_id (some lease.op_id) w
  finish_resume out lease result (some interrupt) w =
      settle_after out lease.op_id
        (pause_run out.second lease.run_id interrupt result.checkpoint_id w)

  -- What follows the port's answer; an exception of the port is the answer.
  abbrev pub after_port :
      (WorkflowInvokeResult → World E → Answer E)
      → World E
      → Result WorkflowInvokeResult × E
      → Answer E
  after_port next w (ok result, engine) = next result (record w { engine = engine })
  after_port next w (err e, engine) = (err e, record w { engine = engine })

  -- The owner's part of `_resolve`.
  unfoldable pub drive_resume : RunnerPort E → Outside → ApprovalStatus → Lease → World E → Answer E
  drive_resume runner out decision lease w =
      after_port (λ result. finish_resume out lease result result.interrupt) w
        (runner.resume lease.thread_id lease.interrupt_id (approval_status_value decision) w.engine)

  unfoldable pub with_lease : RunnerPort E → Outside → ApprovalStatus → Lease → World E → Answer E
  with_lease runner out decision lease w =
      if lease.is_owner
      then drive_resume runner out decision lease w
      else stored w (atomically (fetch_outcome lease.run_id lease.op_id) w.db)

  unfoldable pub with_ticket :
      RunnerPort E → Outside → ApprovalStatus → World E → Result Ticket × Db → Answer E
  with_ticket runner out decision w (err e, db) = (err e, record w { db = db })
  with_ticket runner out decision w (ok (answered outcome), db) = (ok outcome, record w { db = db })
  with_ticket runner out decision w (ok (leased lease), db) =
      with_lease runner out decision lease (record w { db = db })

  -- `ResolveApproval.approve` and `reject`
  unfoldable pub resolve_approval :
      RunnerPort E → Outside → String → ApprovalStatus → Actor → World E → Answer E
  resolve_approval runner out task_id decision actor w =
      with_ticket runner out decision w
        (atomically (resolve_tx out.first definition_version task_id decision actor) w.db)

  -- `_invoke_and_finalize`
  unfoldable pub invoke_and_finalize :
      RunnerPort E → Outside → String → String → String → World E → Answer E
  invoke_and_finalize runner out run_id thread_id task_id w =
      after_port (λ result. finish out run_id result result.interrupt) w
        (runner.invoke task_id run_id thread_id w.engine)

  abbrev after_created : RunnerPort E → Outside → World E → Result WorkflowRun × Db → Answer E
  after_created runner out w (ok run, db) =
      invoke_and_finalize runner out run.id run.thread_id run.task_id (record w { db = db })
  after_created runner out w (err e, db) = (err e, record w { db = db })

  -- `_create_and_invoke`, for a task with no documentation to prepare.
  unfoldable pub create_and_invoke : RunnerPort E → Outside → String → World E → Answer E
  create_and_invoke runner out task_id w =
      after_created runner out w (atomically (create_run out.first task_id) w.db)
