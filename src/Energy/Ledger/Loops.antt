-- ===== src/Energy/Ledger/Loops.antt =====
-- The loops of energy/reservation.py over amounts, read at one resource kind.
use ant_orchestrator.Prelude.{
  ◌≡◌, refl, sym, ap, ◌∙◌, true, false, ◌||◌, Option, none, some, List, [], ◌∷◌, inl, inr, arith,
  Bool-cases, if◌then◌else◌,
}
use ant_orchestrator.Prelude.Equality.{contains, Distinct}
use ant_orchestrator.Prelude.Int.{ℤ, pos, ◌+ℤ◌, ◌-ℤ◌, ◌≤ℤ◌, ltb_ℤ, max_ℤ, int_laws, +ℤ_zero}
use ant_orchestrator.Prelude.Dict.{get, has, get-put, NodupKeys}
use ant_orchestrator.Energy.Port.{ResourceKind, kind_eq, kind_eq_iff, kind_is_eq, Amounts}
use ant_orchestrator.Energy.Ledger.{
  amount_of, bump, commit_amounts, unbump, release_amounts, Settling, settle_kind, settle_kinds,
}

-- A committed amount that grows by `d`.
abbrev pub shift : Option ℤ → ℤ → Option ℤ
shift none d = none
shift (some c) d = some (c +ℤ d)

-- A committed amount that falls by `a`.
abbrev pub unshift : Option ℤ → ℤ → Option ℤ
unshift none a = none
unshift (some c) a = some (c -ℤ a)

abbrev pub Fits : Option ℤ → ℤ → Type 0
Fits none a = Unit
Fits (some c) a = a ≤ℤ c

shift-zero : (o : Option ℤ) → shift o (pos 0) ≡ o
shift-zero none = refl
shift-zero (some c) = rw +ℤ_zero

pub amount_of_absent : (k : ResourceKind) (xs : Amounts) → get k xs ≡ none → amount_of k xs ≡ pos 0
unfolding amount_of
amount_of_absent k xs h = rw (h, amount_of)

pub amount_of-cons :
    (j k : ResourceKind) (v : ℤ) (xs : Amounts)
    → amount_of j ((k, v) ∷ xs) ≡ (if kind_eq j k then v else amount_of j xs)
unfolding amount_of get
amount_of-cons j k v xs = ground arith

get-bump :
    (j k : ResourceKind) (d : ℤ) (c : Amounts)
    → get j (bump k d c) ≡ (if kind_eq j k then shift (get j c) d else get j c)
unfolding bump amount_of
get-bump j k d c = ground (arith, kind_eq_iff j k, get-put k j (amount_of k c +ℤ d) c)

-- The commit loop adds each requested amount to its kind, where the kind is governed.
pub get-commit_amounts :
    (j : ResourceKind) (xs c : Amounts)
    → NodupKeys xs
    → get j (commit_amounts xs c) ≡ shift (get j c) (amount_of j xs)
unfolding commit_amounts
get-commit_amounts j [] c u =
    sym (rw (amount_of_absent j [] (unfold get in refl)) (shift-zero (get j c)))
get-commit_amounts j ((k, v) ∷ xs) c u = ground (
  arith,
  get-commit_amounts j xs (bump k v c) u.1,
  get-bump j k v c,
  amount_of-cons j k v xs,
  kind_eq_iff j k,
  amount_of_absent k xs u.0,
  shift-zero (shift (get j c) v),
)

get-unbump :
    (j k : ResourceKind) (a : ℤ) (c : Amounts)
    → (kind_eq j k ≡ true → Fits (get j c) a)
    → get j (unbump k a c) ≡ (if kind_eq j k then unshift (get j c) a else get j c)
unfolding unbump amount_of max_ℤ ◌-ℤ◌
get-unbump j k a c fits =
    ground (arith, kind_eq_iff j k, get-put k j (max_ℤ (pos 0) (amount_of k c -ℤ a)) c)

unshift-zero : (o : Option ℤ) → unshift o (pos 0) ≡ o
unshift-zero none = refl
unshift-zero (some c) = ap some (omega int_laws)

Fits-unshift : (o : Option ℤ) (a : ℤ) → Fits o a → Fits (unshift o a) (pos 0)
Fits-unshift none a h = tt
Fits-unshift (some c) a h = omega int_laws

-- Where a kind's committed amount covers what is given back, the release loop takes exactly that.
pub get-release_amounts :
    (j : ResourceKind) (xs c : Amounts)
    → NodupKeys xs
    → Fits (get j c) (amount_of j xs)
    → get j (release_amounts xs c) ≡ unshift (get j c) (amount_of j xs)
unfolding release_amounts
get-release_amounts j [] c u fits =
    sym (rw (amount_of_absent j [] (unfold get in refl)) (unshift-zero (get j c)))
get-release_amounts j ((k, v) ∷ xs) c u fits = elim (Bool-cases (kind_eq j k)) [
  | inl e ↦
      let whole : amount_of j ((k, v) ∷ xs) ≡ v = amount_of-cons j k v xs ∙ (rw e refl) in
      let rest : amount_of j xs ≡ pos 0 = rw ((kind_eq_iff j k).0 e) (amount_of_absent k xs u.0) in
      let covers : Fits (get j c) v = rw whole at fits in
      let now : get j (unbump k v c) ≡ unshift (get j c) v =
        get-unbump j k v c (λ _. covers) ∙ (rw e refl) in
      let later : Fits (get j (unbump k v c)) (amount_of j xs) =
        rw (now, rest) (Fits-unshift (get j c) v covers) in
      get-release_amounts j xs (unbump k v c) u.1 later
      ∙ (rw (now, rest, whole) (unshift-zero (unshift (get j c) v)))
  | inr e ↦
      let whole : amount_of j ((k, v) ∷ xs) ≡ amount_of j xs =
        amount_of-cons j k v xs ∙ (rw e refl) in
      let now : get j (unbump k v c) ≡ get j c = get-unbump j k v c (λ h. cc) ∙ (rw e refl) in
      get-release_amounts j xs (unbump k v c) u.1 (rw (now, ← whole) fits) ∙ (rw (now, whole) refl)
]

-- Whether no kind of the list is charged above its reservation.
abbrev pub Covered : Amounts → Amounts → List ResourceKind → Type 0
Covered amounts actual [] = Unit
Covered amounts actual (k ∷ ks) =
    (amount_of k actual ≤ℤ amount_of k amounts) × Covered amounts actual ks

zero_delta : pos 0 -ℤ pos 0 ≡ pos 0
zero_delta = omega int_laws

skip_delta :
    (j : ResourceKind) (xs ys : Amounts)
    → (has j xs || has j ys) ≡ false
    → (amount_of j xs ≡ pos 0) × (amount_of j ys ≡ pos 0)
unfolding has amount_of
skip_delta j xs ys h = ground arith

get-settle_kind :
    (j k : ResourceKind) (xs ys : Amounts) (s : Settling)
    → get j (settle_kind xs ys k s).committed ≡ (
        if kind_eq j k
        then shift (get j s.committed) (amount_of j ys -ℤ amount_of j xs)
        else get j s.committed)
unfolding settle_kind
get-settle_kind j k xs ys s = ground (
  arith,
  kind_eq_iff j k,
  skip_delta k xs ys,
  shift-zero (get j s.committed),
  get-bump j k (amount_of k ys -ℤ amount_of k xs) s.committed,
  zero_delta,
)

-- The settling loop moves each kind it meets by what was used less what was reserved.
pub get-settle_kinds :
    (j : ResourceKind) (xs ys : Amounts) (ks : List ResourceKind) (s : Settling)
    → Distinct ks
    → get j (settle_kinds xs ys ks s).committed ≡ (
        if contains j ks
        then shift (get j s.committed) (amount_of j ys -ℤ amount_of j xs)
        else get j s.committed)
unfolding settle_kinds
get-settle_kinds j xs ys [] s u = refl
get-settle_kinds j xs ys (k ∷ ks) s u = ground (
  arith,
  get-settle_kinds j xs ys ks (settle_kind xs ys k s) u.1,
  get-settle_kind j k xs ys s,
  kind_eq_iff j k,
)

overrun-settle_kind :
    (k : ResourceKind) (xs ys : Amounts) (s : Settling)
    → (settle_kind xs ys k s).has_overrun ≡ false
    → (s.has_overrun ≡ false) × (amount_of k ys ≤ℤ amount_of k xs)
unfolding settle_kind ltb_ℤ max_ℤ ◌-ℤ◌
overrun-settle_kind k xs ys s h = ground (arith, skip_delta k xs ys)

pub overrun-settle_kinds :
    (xs ys : Amounts) (ks : List ResourceKind) (s : Settling)
    → (settle_kinds xs ys ks s).has_overrun ≡ false
    → (s.has_overrun ≡ false) × Covered xs ys ks
unfolding settle_kinds
overrun-settle_kinds xs ys [] s h = (h, tt)
overrun-settle_kinds xs ys (k ∷ ks) s h =
    let (now, later) = overrun-settle_kinds xs ys ks (settle_kind xs ys k s) h in
    let (before, covered) = overrun-settle_kind k xs ys s now in (before, (covered, later))
