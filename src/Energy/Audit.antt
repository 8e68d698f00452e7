-- ===== src/Energy/Audit.antt =====
-- energy/_audit_writer.py and the audit record of application/ports/audit.py: the events that the
-- manager writes round a local execution.
use ant_orchestrator.Prelude.{ℕ, Bool, true, false, List, [], ◌∷◌, ◌++◌, String, if◌then◌else◌}
use ant_orchestrator.Energy.Port.{
  Amounts, ActionKind, EnergyDecision, EnergyActionPlan, EnergyActionResult, route_local,
}
use ant_orchestrator.Energy.Ledger.{EnergyReservation, ReservationLedger}
use ant_orchestrator.Energy.Enforcement.{EnforcementDecision, is_allow}

pub data AuditEventType : Type 0 where
  path_decision command_decision execution output_truncated context_build : AuditEventType
  energy_reservation routing_decision energy_enforcement memory_retrieval : AuditEventType

pub data PolicyDecision : Type 0 where
  allow deny : PolicyDecision

-- The `detail` mappings that `LocalAuditWriter` builds, with their values.
pub data AuditDetail : Type 0 where
  routing_detail : String → ActionKind → EnergyDecision → AuditDetail
  reservation_detail : String → String → Amounts → AuditDetail
  before_detail : String → String → AuditDetail
  after_detail : String → String → EnergyDecision → Amounts → AuditDetail

pub record AuditEvent : Type 0 where
  pub event_type : AuditEventType
  pub correlation_id : String
  pub created_at : ℕ
  pub detail : AuditDetail
  pub decision : PolicyDecision

-- Which action of the three a run executes.
pub data Route : Type 0 where
  model deterministic cache : Route

-- What leaves the process: an event that the sink has taken, or the start of an action, with the
-- ledger as it stands at that moment.
pub data Effect : Type 0 where
  audited : AuditEvent → Effect
  ran : Route → ReservationLedger → Effect

-- The calls of the clock, each of which may give another time.
pub data ClockCall : Type 0 where
  at_reserve at_routing_audit at_reservation_audit : ClockCall
  at_enforcement_audit at_final_audit at_approval : ClockCall

-- The services that a run is given: whether the sink takes an event, the next identifier, the time.
pub record Services : Type 0 where
  pub sink : AuditEvent → Bool
  pub new_id : String
  pub now : ClockCall → ℕ

-- `write` of each event in turn, up to the first that fails.
unfoldable pub write_all : Services → List AuditEvent → List Effect → Bool × List Effect
write_all env [] effects = (true, effects)
write_all env (e ∷ es) effects = elim (env.sink e) [
  | true ↦ write_all env es (effects ++ audited e ∷ [])
  | false ↦ (false, effects)
]

unfoldable pub pre_events : Services → EnergyActionPlan → EnergyReservation → List AuditEvent
pre_events env plan reservation =
    record {
      event_type = routing_decision;
      correlation_id = plan.correlation_id;
      created_at = env.now at_routing_audit;
      detail = routing_detail plan.task_id plan.action_kind route_local;
      decision = PolicyDecision.allow;
    }
    ∷ record {
      event_type = AuditEventType.energy_reservation;
      correlation_id = plan.correlation_id;
      created_at = env.now at_reservation_audit;
      detail = reservation_detail reservation.id plan.task_id reservation.amounts;
      decision = PolicyDecision.allow;
    }
    ∷ record {
      event_type = energy_enforcement;
      correlation_id = plan.correlation_id;
      created_at = env.now at_enforcement_audit;
      detail = before_detail plan.task_id reservation.id;
      decision = PolicyDecision.allow;
    }
    ∷ []

-- `pre_execute`
unfoldable pub pre_execute :
    Services → EnergyActionPlan → EnergyReservation → List Effect → Bool × List Effect
pre_execute env plan reservation = write_all env (pre_events env plan reservation)

unfoldable pub post_event :
    Services
    → EnergyActionPlan
    → EnergyReservation
    → EnergyActionResult
    → EnforcementDecision
    → AuditEvent
post_event env plan reservation result enforcement = record {
  event_type = energy_enforcement;
  correlation_id = plan.correlation_id;
  created_at = env.now at_final_audit;
  detail = after_detail plan.task_id reservation.id enforcement.decision result.actual;
  decision = if is_allow enforcement.decision then PolicyDecision.allow else deny;
}

-- `post_execute`
unfoldable pub post_execute :
    Services
    → EnergyActionPlan
    → EnergyReservation
    → EnergyActionResult
    → EnforcementDecision
    → List Effect
    → Bool × List Effect
post_execute env plan reservation result enforcement =
    write_all env (post_event env plan reservation result enforcement ∷ [])
