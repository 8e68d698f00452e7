-- ===== src/Store/Deciding.antt =====
-- persistence/repositories/approval.py: the compare-and-set of a decision, `resolve_with_version`.
use ant_orchestrator.Prelude.{
  ℕ, suc, ◌≡◌, refl, true, false, ◌||◌, none, some, List, [], ◌∷◌, String, arith, if◌then◌else◌,
}
use ant_orchestrator.Prelude.Equality.{string_eq, ◌≟◌}
use ant_orchestrator.Domain.Status.{is_final_approval}
use ant_orchestrator.Domain.Approval.{Approval}
use ant_orchestrator.Store.Rows.{find, any, update}
use ant_orchestrator.Store.Gates.{is_pending, set_approval, is_at_version}
use ant_orchestrator.Store.Decisions.{find_approval, decided_count, NodupIds}

-- A decided row.
unfoldable pub Decided : String → List Approval → Type 0
Decided id rows =
    (a : Approval) × (find_approval id rows ≡ some a) × (is_final_approval a.status ≡ true)

module _ (id : String) (version : ℕ) (new : Approval) where
  abbrev pub decide : List Approval → List Approval
  decide = update (is_at_version id version) (set_approval new)

  pub find-decide_decided :
      (j : String) (rows : List Approval) (a : Approval)
      → find_approval j rows ≡ some a
      → is_final_approval a.status ≡ true
      → find_approval j (decide rows) ≡ some a
  unfolding find update set_approval is_at_version is_pending
  find-decide_decided j [] a h d = cc
  find-decide_decided j (x ∷ rows) a h d = ground (arith, find-decide_decided j rows a)

  pub find-decide-none :
      (j : String) (rows : List Approval)
      → find_approval j rows ≡ none
      → find_approval j (decide rows) ≡ none
  unfolding find update set_approval
  find-decide-none j [] h = refl
  find-decide-none j (x ∷ rows) h = ground (arith, find-decide-none j rows)

  pub NodupIds-decide : (rows : List Approval) → NodupIds rows → NodupIds (decide rows)
  unfolding update set_approval
  NodupIds-decide [] u = tt
  NodupIds-decide (x ∷ rows) u =
      elim (is_at_version id version x)
        as (λ b. NodupIds ((if b then set_approval new x else x) ∷ decide rows)) [
          | true ↦ (find-decide-none x.id rows u.0, NodupIds-decide rows u.1)
          | false ↦ (find-decide-none x.id rows u.0, NodupIds-decide rows u.1)
        ]

  -- No row of the identifier: nothing is set.
  pub decided_count-decide_absent :
      (rows : List Approval)
      → find_approval id rows ≡ none
      → decided_count (decide rows) ≡ decided_count rows
  unfolding decided_count find update is_at_version
  decided_count-decide_absent [] h = refl
  decided_count-decide_absent (x ∷ rows) h = ground (arith, decided_count-decide_absent rows)

  pub any_absent :
      (rows : List Approval)
      → find_approval id rows ≡ none
      → any (is_at_version id version) rows ≡ false
  unfolding find any is_at_version
  any_absent [] h = refl
  any_absent (x ∷ rows) h = ground (arith, any_absent rows)

  module _ (final : is_final_approval new.status ≡ true) where
    pub decided_count-decide :
        (rows : List Approval)
        → NodupIds rows
        → any (is_at_version id version) rows ≡ true
        → decided_count (decide rows) ≡ suc (decided_count rows)
    unfolding decided_count any update is_at_version is_pending set_approval
    decided_count-decide [] u h = cc
    decided_count-decide (x ∷ rows) u h = ground (
      arith,
      decided_count-decide rows,
      decided_count-decide_absent rows,
      any_absent rows,
      string_eq.beq_iff x.id id,
    )

    pub decide-Decided :
        (rows : List Approval)
        → NodupIds rows
        → any (is_at_version id version) rows ≡ true
        → Decided id (decide rows)
    unfolding Decided find any update set_approval is_at_version
    decide-Decided [] u h = cc
    decide-Decided (x ∷ rows) u h =
        elim (is_at_version id version x)
            as (λ b.
              (is_at_version id version x ≡ b)
              → (b || any (is_at_version id version) rows) ≡ true
              → Decided id ((if b then set_approval new x else x) ∷ decide rows)) [
                | true ↦ λ e q. (set_approval new x, ground arith, final)
                | false ↦ λ e q.
                    let apart : (x.id ≟ id) ≡ false =
                      ground (arith, any_absent rows, string_eq.beq_iff x.id id, u.0) in
                    let (a, found, done) = decide-Decided rows u.1 q in (a, rw apart found, done)
              ]
          refl h
