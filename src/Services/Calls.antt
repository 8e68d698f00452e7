-- ===== src/Services/Calls.antt =====
-- The transactions of the services as calls on the database, which any number of processes make in
-- any order: a transaction takes the write lock when it begins, so that transactions do not
-- interleave, and the calls of one service are separate.
use ant_orchestrator.Prelude.{ℕ, suc, Bool, false, Option, List, [], ◌∷◌, String, if◌then◌else◌}
use ant_orchestrator.Domain.Result.{Result, ok, err}
use ant_orchestrator.Domain.Status.{ApprovalStatus}
use ant_orchestrator.Domain.Entities.{WorkflowRun}
use ant_orchestrator.Domain.Approval.{Actor}
use ant_orchestrator.Store.Tx.{Db, Tx, ◌>>=◌, pure}
use ant_orchestrator.Services.Support.{Env, InterruptView}
use ant_orchestrator.Services.Pause.{finalize_pause}
use ant_orchestrator.Services.Completion.{finalize_completion, settle_operation}
use ant_orchestrator.Services.Resolve.{Ticket, answered, leased, resolve_tx}
use ant_orchestrator.Services.Cancel.{cancel_created, cancel_awaiting, cancel_running}
use ant_orchestrator.Services.Create.{create_run}

pub data Call : Type 0 where
  creates : Env → String → Call
  pauses : Env → String → InterruptView → Option String → Call
  resolves : Env → ℕ → String → ApprovalStatus → Actor → Call
  cancels_created : Env → String → Call
  cancels_awaiting : Env → ℕ → String → WorkflowRun → Call
  cancels_running : Env → String → Call
  completes : Env → String → Option String → Option String → Option String → Call
  settles : Env → String → Call

-- Whether the caller may resume the graph.
abbrev pub owns : Ticket → Bool
owns (answered outcome) = false
owns (leased lease) = lease.is_owner

-- A call that gives no lease.
unfoldable pub plain : {A : Type 0} → Tx A → Tx Bool
plain m = m >>= λ _. pure false

unfoldable pub perform : Call → Tx Bool
perform (creates env task) = plain (create_run env task)
perform (pauses env run interrupt checkpoint) = plain (finalize_pause env run interrupt checkpoint)
perform (resolves env version task decision actor) =
    resolve_tx env version task decision actor >>= λ ticket. pure (owns ticket)
perform (cancels_created env task) = plain (cancel_created env task)
perform (cancels_awaiting env version task run) =
    cancel_awaiting env version task run >>= λ lease. pure lease.is_owner
perform (cancels_running env run) = plain (cancel_running env run)
perform (completes env run outcome checkpoint operation) =
    plain (finalize_completion env run outcome checkpoint operation)
perform (settles env operation) = plain (settle_operation env operation)

-- What a call leaves, and whether it gave a lease; a call that raises leaves the database.
abbrev pub outcome : Db → Result (Bool × Db) → Bool × Db
outcome db (ok answer) = answer
outcome db (err e) = (false, db)

unfoldable pub step : Call → Db → Bool × Db
unfolding perform
step call db = outcome db (perform call db)

unfoldable pub run : List Call → Db → Db
run [] db = db
run (call ∷ calls) db = run calls (step call db).1

-- How many leases a sequence of calls gives.
unfoldable pub leases : List Call → Db → ℕ
unfolding step
leases [] db = 0
leases (call ∷ calls) db =
    let (owner, next) = step call db in
    let rest = leases calls next in (if owner then suc rest else rest)
