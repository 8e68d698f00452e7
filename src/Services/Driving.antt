-- ===== src/Services/Driving.antt =====
-- application/services/reconciler.py and resolve_approval.py: the graph that they may drive.
use ant_orchestrator.Prelude.{◌≡◌, refl, false, Option, none, some, List, [], ◌∷◌, String, arith}
use ant_orchestrator.Prelude.Equality.{string_eq}
use ant_orchestrator.Domain.Result.{Fault, Result, ok, err}
use ant_orchestrator.Domain.Status.{ApprovalStatus, workflow_run_status_is_eq}
use ant_orchestrator.Domain.Entities.{WorkflowRun}
use ant_orchestrator.Domain.Approval.{Actor}
use ant_orchestrator.Store.Tx.{Db, atomically, continue, pure, ◌>>=◌}
use ant_orchestrator.Services.Support.{WorkflowOutcome, InterruptView}
use ant_orchestrator.Services.Pause.{finalize_pause}
use ant_orchestrator.Services.Resolve.{Ticket, answered, leased, resolve_tx}
use ant_orchestrator.Services.Create.{definition_version}
use ant_orchestrator.Services.Calls.{owns, step, perform, outcome, resolves}
use ant_orchestrator.Services.World.{
  World, RunnerPort, Outside, StateSummary, paused, stored, pause_run, complete_world, with_lease,
  with_ticket, resolve_approval, waiting,
}
use ant_orchestrator.Services.Recovery.{recover, recover_end, made, reconcile_run, with_state}

module _ {E : Type 0} where
  paused_engine :
      (answer : String → WorkflowOutcome) (w : World E) (r : Result String × Db)
      → (made (paused answer w r)).1.engine ≡ w.engine
  paused_engine answer w (ok id, db) = refl
  paused_engine answer w (err e, db) = refl

  stored_engine :
      (w : World E) (r : Result WorkflowOutcome × Db) → (made (stored w r)).1.engine ≡ w.engine
  stored_engine w (ok outcome, db) = refl
  stored_engine w (err e, db) = refl

  recover_end_engine :
      (out : Outside) (run : WorkflowRun) (summary : StateSummary) (outcome : Option String)
      (w : World E)
      → (recover_end made (ok none, w) out run summary outcome w).1.engine ≡ w.engine
  unfolding recover_end complete_world
  recover_end_engine out run summary none w = ground arith
  recover_end_engine out run summary (some outcome) w = ground (arith, stored_engine w)

  recover_engine :
      (out : Outside) (run : WorkflowRun) (summary : StateSummary) (interrupts : List InterruptView)
      (w : World E)
      → (recover made (ok none, w) out run summary interrupts w).1.engine ≡ w.engine
  unfolding recover pause_run
  recover_engine out run summary [] w = recover_end_engine out run summary summary.final_outcome w
  recover_engine out run summary (interrupt ∷ rest) w =
      paused_engine (waiting run.id) w
        (atomically (finalize_pause out.second run.id interrupt summary.checkpoint_id) w.db)

  state_engine :
      (out : Outside) (run : WorkflowRun) (w : World E) (read : Result StateSummary)
      → (with_state made
          (λ summary. recover made (ok none, w) out run summary summary.interrupts w)
          w
          read).1.engine
        ≡ w.engine
  state_engine out run w (ok summary) = recover_engine out run summary summary.interrupts w
  state_engine out run w (err e) = refl

  -- A reconciliation of a run, however it ends, leaves the durable state of the graph runner as it
  -- was: the graph is neither invoked nor resumed.
  pub reconcile_never_drives :
      (runner : RunnerPort E) (out : Outside) (run : WorkflowRun) (w : World E)
      → (reconcile_run runner out run w).1.engine ≡ w.engine
  unfolding reconcile_run
  reconcile_never_drives runner out run w =
      let read = runner.latest_state run.thread_id w.engine in
      ground (arith, state_engine out run w read)

  ticket_engine :
      (runner : RunnerPort E) (out : Outside) (decision : ApprovalStatus) (w : World E)
      (ticket : Ticket) (db : Db)
      → owns ticket ≡ false
      → (with_ticket runner out decision w (ok ticket, db)).1.engine ≡ w.engine
  unfolding with_ticket with_lease
  ticket_engine runner out decision w (answered outcome) db h = refl
  ticket_engine runner out decision w (leased lease) db h = simp h refl

  -- Where the transaction of a decision gives its caller no lease, be it that it raises, answers at
  -- once or joins the operation of another, ResolveApproval as a whole leaves the durable state of the
  -- graph runner as it was.
  pub no_lease_no_resume :
      (runner : RunnerPort E) (out : Outside) (task_id : String) (decision : ApprovalStatus)
      (actor : Actor) (w : World E)
      → (step (resolves out.first definition_version task_id decision actor) w.db).0 ≡ false
      → (resolve_approval runner out task_id decision actor w).1.engine ≡ w.engine
  unfolding resolve_approval step perform atomically ◌>>=◌ with_ticket
  no_lease_no_resume runner out task_id decision actor w h =
      elim (resolve_tx out.first definition_version task_id decision actor w.db)
          as (λ r.
            (outcome w.db (continue r (λ ticket. pure (owns ticket)))).0 ≡ false
            → (with_ticket runner out decision w
                (elim r [ ok (t, after) ↦ (ok t, after) | err e ↦ (err e, w.db) ])).1.engine
              ≡ w.engine) [
                | ok (ticket, db) ↦ λ q. ticket_engine runner out decision w ticket db q
                | err e ↦ λ q. refused e
              ]
        h
    where
      refused : (e : Fault) → (with_ticket runner out decision w (err e, w.db)).1.engine ≡ w.engine
      refused e = refl
