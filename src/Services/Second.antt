-- ===== src/Services/Second.antt =====
-- application/services/resolve_approval.py: a decision on a run that has been decided.
use ant_orchestrator.Prelude.{◌≡◌, true, String}
use ant_orchestrator.Domain.Result.{Result}
use ant_orchestrator.Domain.Status.{workflow_run_status_is_eq, approval_status_is_eq}
use ant_orchestrator.Domain.Approval.{Approval}
use ant_orchestrator.Store.Tx.{Db, Tx}
use ant_orchestrator.Services.Resolve.{Ticket}
use ant_orchestrator.Services.Calls.{owns}
use ant_orchestrator.Services.Resumed.{IsTaken}

-- The same of the answer of the whole transaction.
abbrev TicketTaken : String → Ticket → Db → Type 0
TicketTaken task_id ticket next = owns ticket ≡ true → IsTaken task_id next
