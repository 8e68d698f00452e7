-- ===== src/Services/Tests.antt =====
-- Concrete tables, and the theorems about the leases applied to them.
use ant_orchestrator.Prelude.{
  ◌≡◌, refl, ap, true, false, none, some, [], ◌∷◌, List, String, ℕ, ◌+◌, ◌==◌, if◌then◌else◌,
}
use ant_orchestrator.Prelude.Int.{pos}
use ant_orchestrator.Prelude.Equality.{string_eq, ◌≟◌}
use ant_orchestrator.Domain.Result.{ok, err, workflow_state_error}
use ant_orchestrator.Domain.Status.{
  is_active_run, is_final_run, is_final_approval, TaskStatus, ApprovalStatus, WorkflowRunStatus,
}
use ant_orchestrator.Domain.Entities.{Task, WorkflowRun, normal, cli}
use ant_orchestrator.Domain.Approval.{Approval}
use ant_orchestrator.Store.Rows.{find}
use ant_orchestrator.Store.Tx.{Db, continue, pure, ◌>>=◌}
use ant_orchestrator.Store.Decisions.{decided_count, find_approval}
use ant_orchestrator.Services.Support.{Env}
use ant_orchestrator.Services.Cancel.{nobody}
use ant_orchestrator.Services.Create.{definition_version}
use ant_orchestrator.Services.Completion.{finalize_completion}
use ant_orchestrator.Services.Effect.{Post}
use ant_orchestrator.Services.Refusals.{
  active_run, Unchanged, running_run_refuses, final_run_is_kept,
}
use ant_orchestrator.Services.Reentry.{awaiting_run_is_not_driven}
use ant_orchestrator.Services.Cancellation.{cancel, running_run_is_not_driven}
use ant_orchestrator.Services.Driving.{reconcile_never_drives, no_lease_no_resume}
use ant_orchestrator.Services.World.{RunnerPort, Outside, World, resolve_approval}
use ant_orchestrator.Services.Recovery.{reconcile_run, execute}
use ant_orchestrator.Services.Calls.{Call, resolves, run, leases, step, perform, outcome, owns}
use ant_orchestrator.Services.Leases.{
  IsConsistent, run-IsConsistent, one_lease_per_decision, decided_for_good,
}
use ant_orchestrator.Workflow.Port.{significant_write}

-- Each identifier of a call is of its own.
abbrev at_time : ℕ → String → Env
at_time now name = record {
  now = now;
  new_id = λ n. if n == 0 then name else if n == 2 then "r2" else if n == 3 then "r3" else "r4";
  sha256 = λ s. s;
}

abbrev task : Task
task = record {
  id = "task";
  title = "write";
  status = TaskStatus.waiting_for_approval;
  source = cli;
  priority = normal;
  created_at = 1;
  updated_at = 2;
}

abbrev paused_run : WorkflowRun
paused_run = record {
  id = "run";
  task_id = "task";
  thread_id = "wf:run";
  status = WorkflowRunStatus.awaiting_approval;
  workflow_definition_version = 4;
  initial_invoke_operation_id = "invoke-run";
  created_at = 1;
  updated_at = 2;
  checkpoint_ever_observed = true;
  last_observed_checkpoint_id = some "point";
  cancel_requested_at = none;
}

abbrev pending : Approval
pending = record {
  id = "approval";
  task_id = "task";
  status = ApprovalStatus.pending;
  requested_at = 2;
  checkpoint_id = none;
  reason = none;
  decided_at = none;
  workflow_run_id = some "run";
  gate_type = some significant_write;
  gate_instance_id = some "gate";
  approval_gate_sequence = some (pos 1);
  actor_source = none;
  actor_label = none;
  approval_row_version = 1;
  langgraph_checkpoint_id = some "point";
  langgraph_interrupt_id = some "interrupt";
  request_payload = none;
}

abbrev paused : Db
paused = record {
  tasks = task ∷ [];
  runs = paused_run ∷ [];
  approvals = pending ∷ [];
  transitions = [];
  operations = [];
  attempts = [];
}

paused-IsConsistent : IsConsistent paused
unfolding find
paused-IsConsistent = record { distinct = (refl, tt); linked = tt }

-- An approval, and a rejection that comes too late.
abbrev two_answers : List Call
two_answers =
    resolves (at_time 3 "first") 4 "task" ApprovalStatus.approved nobody
    ∷ resolves (at_time 4 "second") 4 "task" ApprovalStatus.rejected nobody
    ∷ []

one_lease_per_decision_example :
    decided_count (run two_answers paused).approvals
    ≡ leases two_answers paused + decided_count paused.approvals
one_lease_per_decision_example = one_lease_per_decision two_answers paused paused-IsConsistent

abbrev approved : Approval
approved = record pending {
  status = ApprovalStatus.approved;
  decided_at = some 3;
  approval_row_version = 2;
}

abbrev decided : Db
decided = record paused { approvals = approved ∷ [] }

decided-IsConsistent : IsConsistent decided
unfolding find
decided-IsConsistent = record { distinct = (refl, tt); linked = tt }

is_approved : find_approval "approval" decided.approvals ≡ some approved
unfolding find
is_approved = refl

decided_for_good_example :
    find_approval "approval" (run two_answers decided).approvals ≡ some approved
unfolding is_final_approval
decided_for_good_example =
    decided_for_good two_answers decided "approval" approved decided-IsConsistent is_approved refl

abbrev approve : ApprovalStatus
approve = ApprovalStatus.approved

abbrev running_run : WorkflowRun
running_run = record paused_run { status = WorkflowRunStatus.running }

abbrev running : Db
running = record decided { runs = running_run ∷ [] }

is_task : find (λ t. t.id ≟ "task") running.tasks ≡ some task
unfolding find
is_task = refl

is_running : active_run "task" running ≡ some running_run
unfolding find is_active_run
is_running = refl

abbrev final_run : WorkflowRun
final_run = record paused_run { status = WorkflowRunStatus.completed }

abbrev final : Db
final = record decided { runs = final_run ∷ [] }

is_stored : find (λ r. r.id ≟ "run") final.runs ≡ some final_run
unfolding find
is_stored = refl

final_run_is_kept_example :
    Post
      (Unchanged final)
      (finalize_completion (at_time 5 "late") "run" (some "completed") (some "point") none final)
unfolding is_final_run
final_run_is_kept_example =
    final_run_is_kept (at_time 5 "late") "run" (some "completed") (some "point") none final_run
      final is_stored refl

-- A runner that counts what drives it, and whose graph is at its end.
abbrev counting : RunnerPort ℕ
counting = record {
  invoke = λ task run thread n. (err workflow_state_error, n + 1);
  resume = λ thread interrupt decision n. (err workflow_state_error, n + 1);
  latest_state = λ thread n. ok (record {
    at_end = true;
    final_outcome = some "completed";
    checkpoint_id = some "point";
    interrupts = [];
  });
}

abbrev outside : Outside
outside = record {
  first = at_time 5 "first";
  second = at_time 6 "second";
  third = at_time 7 "third";
  handoff = ok tt;
}

abbrev world : World ℕ
world = record { db = running; engine = 0 }

reconcile_never_drives_example : (reconcile_run counting outside running_run world).1.engine ≡ 0
reconcile_never_drives_example = reconcile_never_drives counting outside running_run world

gives_no_lease :
    (step (resolves outside.first definition_version "task" approve nobody) running).0 ≡ false
unfolding step perform ◌>>=◌
gives_no_lease =
    ap (λ r. (outcome running (continue r (λ ticket. pure (owns ticket)))).0)
      (running_run_refuses outside.first definition_version "task" task running_run approve nobody
        running is_task is_running refl)

no_lease_no_resume_example :
    (resolve_approval counting outside "task" approve nobody world).1.engine ≡ 0
no_lease_no_resume_example =
    no_lease_no_resume counting outside "task" approve nobody world gives_no_lease

run-IsConsistent_example : IsConsistent (run two_answers paused)
run-IsConsistent_example = run-IsConsistent two_answers paused paused-IsConsistent

abbrev paused_world : World ℕ
paused_world = record { db = paused; engine = 0 }

is_paused_task : find (λ t. t.id ≟ "task") paused.tasks ≡ some task
unfolding find
is_paused_task = refl

awaits : active_run "task" paused ≡ some paused_run
unfolding find is_active_run
awaits = refl

awaiting_run_is_not_driven_example : (execute counting outside "task" paused_world).1.engine ≡ 0
awaiting_run_is_not_driven_example =
    awaiting_run_is_not_driven counting outside "task" task paused_run paused_world is_paused_task
      awaits refl

running_run_is_not_driven_example : (cancel counting outside "task" world).1.engine ≡ 0
running_run_is_not_driven_example =
    running_run_is_not_driven counting outside "task" task running_run world is_task is_running refl
