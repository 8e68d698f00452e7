-- ===== src/Store/Decisions.antt =====
-- persistence/repositories/approval.py: the decided approvals of the table, and the statements on it.
use ant_orchestrator.Prelude.{
  ℕ, suc, ◌≡◌, refl, sym, ap, ◌∙◌, Bool, true, false, Option, none, some, List, [], ◌∷◌, ◌++◌,
  String, arith, if◌then◌else◌,
}
use mathlib.Core.Path.{subst}
use mathlib.Core.Option.{some-injective}
use ant_orchestrator.Prelude.Equality.{string_eq, ◌≟◌, ≟_refl}
use ant_orchestrator.Domain.Status.{is_final_approval}
use ant_orchestrator.Domain.Approval.{Approval}
use ant_orchestrator.Store.Rows.{find, any}

-- `SELECT ... WHERE id = ?`
abbrev pub find_approval : String → List Approval → Option Approval
find_approval id rows = find (λ a. a.id ≟ id) rows

unfoldable pub decided_count : List Approval → ℕ
decided_count [] = 0
decided_count (a ∷ rows) =
    let rest = decided_count rows in if is_final_approval a.status then suc rest else rest

abbrev pub NodupIds : List Approval → Type 0
NodupIds [] = Unit
NodupIds (a ∷ rows) = (find_approval a.id rows ≡ none) × NodupIds rows

module _ {A : Type 0} (p : A → Bool) where
  pub find-accepts : (rows : List A) (a : A) → find p rows ≡ some a → p a ≡ true
  unfolding find
  find-accepts [] a h = cc
  find-accepts (x ∷ rows) a h =
      elim (p x) as (λ b. (p x ≡ b) → (if b then some x else find p rows) ≡ some a → p a ≡ true) [
        | true ↦ λ e q. ap p (sym (some-injective x a q)) ∙ e
        | false ↦ λ e q. find-accepts rows a q
      ]
        refl h

  pub find_append_some :
      (rows more : List A) (a : A) → find p rows ≡ some a → find p (rows ++ more) ≡ some a
  unfolding find
  find_append_some [] more a h = cc
  find_append_some (x ∷ rows) more a h =
      elim (p x)
          as (λ b.
            (if b then some x else find p rows) ≡ some a
            → (if b then some x else find p (rows ++ more)) ≡ some a) [
              | true ↦ λ q. q
              | false ↦ λ q. find_append_some rows more a q
            ]
        h

  pub find-none-any : (rows : List A) → any p rows ≡ false → find p rows ≡ none
  unfolding find any
  find-none-any [] h = refl
  find-none-any (x ∷ rows) h = ground (arith, find-none-any rows)

-- In a table without two rows of one identifier, a row that is found is found by its identifier.
pub find_by_id :
    (p : Approval → Bool) (rows : List Approval) (a : Approval)
    → NodupIds rows
    → find p rows ≡ some a
    → find_approval a.id rows ≡ some a
unfolding find
find_by_id p [] a u h = cc
find_by_id p (x ∷ rows) a u h =
    elim (p x)
        as (λ b.
          (if b then some x else find p rows) ≡ some a → find_approval a.id (x ∷ rows) ≡ some a) [
            | true ↦ λ q.
                subst (λ y. find_approval y.id (x ∷ rows) ≡ some y) (some-injective x a q)
                  (rw (≟_refl x.id) refl)
            | false ↦ λ q.
                let ih = find_by_id p rows a u.1 q in
                ground (arith, string_eq.beq_iff x.id a.id, ih, u.0)
          ]
      h

-- A new row with no decision and no identifier of a stored row.
module _ (new : Approval) (undecided : is_final_approval new.status ≡ false) where
  pub decided_count-append :
      (rows : List Approval) → decided_count (rows ++ (new ∷ [])) ≡ decided_count rows
  unfolding decided_count
  decided_count-append [] = rw undecided refl
  decided_count-append (a ∷ rows) = ground (arith, decided_count-append rows)

pub find_other :
    (id : String) (new : Approval) (rows : List Approval)
    → find_approval id rows ≡ none
    → (new.id ≟ id) ≡ false
    → find_approval id (rows ++ (new ∷ [])) ≡ none
unfolding find
find_other id new [] h e = rw e refl
find_other id new (a ∷ rows) h e = ground (arith, find_other id new rows)

pub NodupIds-append :
    (new : Approval) (rows : List Approval)
    → find_approval new.id rows ≡ none
    → NodupIds rows
    → NodupIds (rows ++ (new ∷ []))
unfolding find
NodupIds-append new [] h u = (refl, tt)
NodupIds-append new (a ∷ rows) h u =
    let differ : (a.id ≟ new.id) ≡ false = ground arith in
    let rest : find_approval new.id rows ≡ none = ground arith in
    (
      find_other a.id new rows u.0
          (ground (arith, string_eq.beq_iff a.id new.id, string_eq.beq_iff new.id a.id)),
      NodupIds-append new rows rest u.1,
    )
