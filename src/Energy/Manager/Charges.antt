-- ===== src/Energy/Manager/Charges.antt =====
-- `_execute_local` (energy/manager.py) once the reservation is made: what its result has charged.
use mathlib.Core.Path.{subst}
use mathlib.Core.Option.{some-injective}
use ant_orchestrator.Prelude.{
  ◌≡◌, refl, sym, ◌∙◌, false, Option, none, some, List, [], ◌∷◌, ◌++◌, inl, inr, Bool-cases,
}
use ant_orchestrator.Prelude.Equality.{string_eq}
use ant_orchestrator.Prelude.Int.{◌+ℤ◌, int_laws, parts_of, +ℤ_zero}
use ant_orchestrator.Prelude.Dict.{get, get-put_self, NodupKeys, All-get}
use ant_orchestrator.Energy.Port.{
  ResourceKind, kind_is_eq, Amounts, any_negative, ok, raise, EnergyDecision, EnergyActionPlan,
  EnergyActionResult, allow, stop,
}
use ant_orchestrator.Energy.Ledger.{
  EnergyReservation, ConsumptionOutcome, ReservationLedger, release,
}
use ant_orchestrator.Energy.Ledger.Balance.{
  amount_of_option, total, IsSound, total-put_new, total-put,
}
use ant_orchestrator.Energy.Ledger.Rules.{
  made, booked, used_up, charged_to, consume_rule, release_of_reserved,
}
use ant_orchestrator.Energy.Ledger.Invariant.{
  IsValid, booked-IsValid, charged_to-IsValid, freed-IsValid, held-made, held-used_up,
}
use ant_orchestrator.Energy.Ledger.Lifecycle.{total-there_and_back}
use ant_orchestrator.Energy.Enforcement.{check_consumption}
use ant_orchestrator.Energy.Audit.{model, Effect, ran, Services, at_reserve, pre_execute}
use ant_orchestrator.Energy.Manager.Parts.{
  EnergyManagerResult, ActionRun, gives, throws, Outcome, returned, raised_error, action_raised,
  World, safe_release,
}
use ant_orchestrator.Energy.Manager.Local.{finish, settle, run_model, audit_and_run}

abbrev pub amounts_or_nothing : Option Amounts → Amounts
amounts_or_nothing none = []
amounts_or_nothing (some xs) = xs

abbrev pub charge : EnergyDecision → Option EnergyActionResult → Option Amounts
charge allow (some result) = some result.actual
charge stop (some result) = some result.actual
charge _ _ = none

-- What a result says was used of the budget: the actual amounts of a model action that was run to
-- its end, which is what ALLOW and STOP with an action result report, and else nothing.
abbrev pub charge_of : EnergyManagerResult → Option Amounts
charge_of r = charge r.decision r.action_result

-- The ledger is valid, and holds of each kind what `l` holds and `xs` on top.
pub record Charged (l : ReservationLedger) (xs : Option Amounts) (l' : ReservationLedger)
    : Type 0 where
  pub valid : IsValid l'
  pub exact :
      (k : ResourceKind) → total k l'.reservations ≡ total k l.reservations +ℤ amount_of_option k xs

abbrev pub Accounted : ReservationLedger → Outcome × World → Type 0
Accounted l (returned r, w) = Charged l (charge_of r) w.ledger
Accounted l (raised_error e, w) = Unit
Accounted l (action_raised, w) = Charged l none w.ledger

pub uncharged : (l : ReservationLedger) → IsValid l → Charged l none l
uncharged l v = record { valid = v; exact = λ k. sym (+ℤ_zero (total k l.reservations)) }

module _ (env : Services) (plan : EnergyActionPlan) (l : ReservationLedger) (v : IsValid l)
    (u : NodupKeys plan.estimated_resources) (fresh : get env.new_id l.reservations ≡ none)
    (fine : any_negative plan.estimated_resources ≡ false) where
  abbrev res : EnergyReservation
  res = made env.new_id (env.now at_reserve) plan.estimated_resources

  abbrev after : ReservationLedger
  after = booked env.new_id (env.now at_reserve) plan.estimated_resources l

  after-IsValid : IsValid after
  after-IsValid =
      booked-IsValid l v env.new_id (env.now at_reserve) plan.estimated_resources u fresh fine

  there : get env.new_id after.reservations ≡ some res
  there = get-put_self env.new_id res l.reservations

  -- A release gives back the whole reservation.
  released_uncharged : Charged l none (release env.new_id after).1
  released_uncharged =
      rw
        (release_of_reserved env.new_id after res there refl
          (All-get IsSound env.new_id after.reservations res there after-IsValid.sound))
        (record {
          valid = freed-IsValid after after-IsValid env.new_id res there refl;
          exact = λ k.
              total-there_and_back l v env.new_id (env.now at_reserve) plan.estimated_resources k
                fresh
              ∙ sym (+ℤ_zero (total k l.reservations));
        })

  -- A settlement leaves exactly the actual amounts.
  settled-Charged :
      (ys : Amounts)
      → any_negative ys ≡ false
      → Charged l (some ys) (charged_to env.new_id res ys after)
  settled-Charged ys pos_ys = record {
    valid = charged_to-IsValid after after-IsValid env.new_id res there refl ys pos_ys;
    exact = λ k. omega (
      int_laws,
      parts_of (total-put_new k env.new_id res l.reservations fresh),
      parts_of (total-put k env.new_id (used_up res ys) res after.reservations there),
      parts_of (held-made k env.new_id (env.now at_reserve) plan.estimated_resources),
      parts_of (held-used_up k res ys),
    );
  }

  abbrev world : List Effect → World
  world es = record { ledger = after; effects = es }

  finish-Accounted :
      (result : EnergyActionResult) (outcome : ConsumptionOutcome) (w : World)
      → Charged l (some result.actual) w.ledger
      → Accounted l (finish env plan res result outcome w)
  unfolding finish check_consumption
  finish-Accounted result outcome w c = elim (Bool-cases outcome.overrun) [
    | inl e ↦ rw e c
    | inr e ↦ rw e c
  ]

  settle-Accounted :
      (result : EnergyActionResult) (es : List Effect)
      → Accounted l (settle env plan res result (world es))
  unfolding settle
  settle-Accounted result es =
      consume_rule
        (λ p. Accounted l (elim p.0 [
          | raise e ↦ (raised_error e, record { ledger = p.1; effects = es })
          | ok o ↦ finish env plan res result o (record { ledger = p.1; effects = es })
        ]))
        env.new_id result.actual after after-IsValid.sound (λ e. tt)
        λ r found _ pos_ys. finish-Accounted result _ _ (
          subst (λ x. Charged l (some result.actual) (charged_to env.new_id x result.actual after))
            (some-injective res r (sym there ∙ found)) (settled-Charged result.actual pos_ys))

  run_model-Accounted :
      (action : Option ActionRun) (es : List Effect)
      → Accounted l (run_model env plan res action (world es))
  unfolding run_model safe_release
  run_model-Accounted none es = released_uncharged
  run_model-Accounted (some throws) es = released_uncharged
  run_model-Accounted (some (gives result)) es =
      settle-Accounted result (es ++ ran model after ∷ [])

  pub audit_and_run-Accounted :
      (action : Option ActionRun) (es : List Effect)
      → Accounted l (audit_and_run env plan res action (world es))
  unfolding audit_and_run safe_release
  audit_and_run-Accounted action es = elim (Bool-cases (pre_execute env plan res es).0) [
    | inl e ↦ rw e (run_model-Accounted action (pre_execute env plan res es).1)
    | inr e ↦ rw e released_uncharged
  ]
