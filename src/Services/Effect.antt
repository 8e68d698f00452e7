-- ===== src/Services/Effect.antt =====
-- application/services/: what a transaction may do to the decisions and the leases, and the rules of
-- its do block.
use ant_orchestrator.Prelude.{
  suc, ◌≡◌, refl, ◌∙◌, Bool, true, false, some, List, [], ◌∷◌, ◌++◌, String, arith, if◌then◌else◌,
  All,
}
use mathlib.Core.Path.{subst}
use ant_orchestrator.Domain.Result.{Result, ok, err, Fault}
use ant_orchestrator.Domain.Status.{is_final_approval}
use ant_orchestrator.Domain.Entities.{Task, WorkflowRun, StatusTransition, ResumeOperation}
use ant_orchestrator.Domain.Approval.{Approval}
use ant_orchestrator.Store.Tx.{Db, Tx, pure, throw, lift, gets, ◌>>=◌, continue}
use ant_orchestrator.Store.Decisions.{find_approval, decided_count, NodupIds}
use ant_orchestrator.Store.Deciding.{Decided}

-- Every lease is for a decided approval.
abbrev pub Linked : List ResumeOperation → List Approval → Type 0
Linked operations approvals = All (λ o. Decided o.approval_id approvals) operations

-- One more decision where a lease is given, and none else; what is decided stays as it is.
pub record Effect (owner : Bool) (before after : Db) : Type 0 where
  pub counted :
      decided_count after.approvals
      ≡ (if owner then suc (decided_count before.approvals) else decided_count before.approvals)
  pub kept :
      (id : String) (a : Approval)
      → find_approval id before.approvals ≡ some a
      → is_final_approval a.status ≡ true
      → find_approval id after.approvals ≡ some a
  pub distinct : NodupIds before.approvals → NodupIds after.approvals
  pub linked : Linked before.operations before.approvals → Linked after.operations after.approvals

-- What holds of the answer and the database of a transaction that does not raise.
abbrev pub Post : {A : Type 0} → (A → Db → Type 0) → Result (A × Db) → Type 0
Post R (ok (a, db)) = R a db
Post R (err e) = Unit

module _ {A B : Type 0} where
  pub Post-bind :
      (R : B → Db → Type 0) (m : Tx A) (f : A → Tx B) (db : Db)
      → ((a : A) (mid : Db) → m db ≡ ok (a, mid) → Post R (f a mid))
      → Post R ((m >>= f) db)
  unfolding ◌>>=◌
  Post-bind R m f db h =
      elim (m db)
          as (λ r.
            ((a : A) (mid : Db) → r ≡ ok (a, mid) → Post R (f a mid)) → Post R (continue r f)) [
              | ok (a, mid) ↦ λ g. g a mid refl
              | err e ↦ λ g. tt
            ]
        h

pub Post-map :
    {A : Type 0} {R S : A → Db → Type 0} (r : Result (A × Db))
    → Post R r
    → ((a : A) (db : Db) → R a db → S a db)
    → Post S r
Post-map (ok (a, db)) p f = f a db p
Post-map (err e) p f = tt

pub same : (db : Db) → Effect false db db
same db = record { counted = refl; kept = λ id a h d. h; distinct = λ u. u; linked = λ l. l }

pub after : (owner : Bool) (a b c : Db) → Effect false a b → Effect owner b c → Effect owner a c
after owner a b c e f = record {
  counted = ground (arith, e.counted, f.counted);
  kept = λ id r h d. f.kept id r (e.kept id r h d) d;
  distinct = λ u. f.distinct (e.distinct u);
  linked = λ l. f.linked (e.linked l);
}

pub then_calm : (owner : Bool) (a b c : Db) → Effect owner a b → Effect false b c → Effect owner a c
then_calm owner a b c e f = record {
  counted = f.counted ∙ e.counted;
  kept = λ id r h d. f.kept id r (e.kept id r h d) d;
  distinct = λ u. f.distinct (e.distinct u);
  linked = λ l. f.linked (e.linked l);
}

-- A transaction that gives no lease and decides nothing.
pub record IsCalm {A : Type 0} (m : Tx A) : Type 0 where
  pub at : (db : Db) → Post (λ _ next. Effect false db next) (m db)

module _ {A : Type 0} where
  pub pure-IsCalm : (a : A) → IsCalm (pure a)
  pure-IsCalm a = record { at = same }

  pub throw-IsCalm : (e : Fault) → IsCalm (throw {A = A} e)
  throw-IsCalm e = record { at = λ db. tt }

  pub lift-IsCalm : (r : Result A) → IsCalm (lift r)
  lift-IsCalm (ok a) = record { at = same }
  lift-IsCalm (err e) = record { at = λ db. tt }

  pub gets-IsCalm : (f : Db → A) → IsCalm (gets f)
  gets-IsCalm f = record { at = same }

  pub if-IsCalm : (b : Bool) (m n : Tx A) → IsCalm m → IsCalm n → IsCalm (if b then m else n)
  if-IsCalm true m n hm hn = hm
  if-IsCalm false m n hm hn = hn

module _ {A B : Type 0} where
  pub Post-calm :
      (owner : B → Bool) (m : Tx A) (f : A → Tx B) (db : Db)
      → IsCalm m
      → ((a : A) (mid : Db)
          → m db ≡ ok (a, mid)
          → Post (λ b next. Effect (owner b) mid next) (f a mid))
      → Post (λ b next. Effect (owner b) db next) ((m >>= f) db)
  Post-calm owner m f db calm rest =
      Post-bind (λ b next. Effect (owner b) db next) m f db
        (λ a mid e. Post-map (f a mid) (rest a mid e) (λ b next g.
          after (owner b) db mid next (subst (Post (λ _ to. Effect false db to)) e (calm.at db)) g))

  pub bind-IsCalm :
      (m : Tx A) (f : A → Tx B) → IsCalm m → ((a : A) → IsCalm (f a)) → IsCalm (m >>= f)
  bind-IsCalm m f hm hf = record {
    at = λ db. Post-calm (λ _. false) m f db hm (λ a mid _. (hf a).at mid);
  }

pub Post-lift :
    {A B : Type 0} (R : B → Db → Type 0) (r : Result A) (f : A → Tx B) (db : Db)
    → ((a : A) → r ≡ ok a → Post R (f a db))
    → Post R ((lift r >>= f) db)
unfolding ◌>>=◌
Post-lift R (ok a) f db h = h a refl
Post-lift R (err e) f db h = tt

-- A value that was computed, and what it was computed from.
pub lift-bind-IsCalm :
    {A B : Type 0} (r : Result A) (f : A → Tx B)
    → ((a : A) → r ≡ ok a → IsCalm (f a))
    → IsCalm (lift r >>= f)
lift-bind-IsCalm r f h = record {
  at = λ db. Post-lift (λ _ next. Effect false db next) r f db (λ a e. (h a e).at db);
}

pub ruleset calm_rules =
    (pure-IsCalm, throw-IsCalm, lift-IsCalm, gets-IsCalm, if-IsCalm, bind-IsCalm)

-- The tables that no decision stands in.
pub still :
    (db : Db) (tasks : List Task) (runs : List WorkflowRun) (transitions : List StatusTransition)
    → Effect false db (record db { tasks = tasks; runs = runs; transitions = transitions })
still db tasks runs transitions = record {
  counted = refl;
  kept = λ id a h d. h;
  distinct = λ u. u;
  linked = λ l. l;
}

-- A lease is kept with its approval.
pub Linked-kept :
    (operations : List ResumeOperation) (before after : List Approval)
    → ((id : String) (a : Approval)
        → find_approval id before ≡ some a
        → is_final_approval a.status ≡ true
        → find_approval id after ≡ some a)
    → Linked operations before
    → Linked operations after
unfolding Decided
Linked-kept [] before after kept l = tt
Linked-kept (o ∷ rest) before after kept ((a, found, done), l) =
    ((a, kept o.approval_id a found done, done), Linked-kept rest before after kept l)

pub Linked-append :
    (operations : List ResumeOperation) (new : ResumeOperation) (approvals : List Approval)
    → Linked operations approvals
    → Decided new.approval_id approvals
    → Linked (operations ++ (new ∷ [])) approvals
Linked-append [] new approvals l d = (d, tt)
Linked-append (o ∷ rest) new approvals l d = (l.0, Linked-append rest new approvals l.1 d)
