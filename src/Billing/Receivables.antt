-- ===== src/Billing/Receivables.antt =====
-- What a company owes: its balance against its invoices and its payments.
use hospitality_os.Billing.{generate_invoice, record_company_payment}
use hospitality_os.Billing.Billed.{
  Reconciled, alone, balance_in, balance_in-update, billed, generate-Reconciled,
}
use hospitality_os.Common.{
  Bool-cases, List, Option, Option-cases, [], arith, if◌then◌else◌, inl, inr, none, refl, some, ℕ,
  ◌==◌, ◌∙◌, ◌∷◌, ◌≡◌,
}
use hospitality_os.Common.Int.{int_laws, neg, pos, ℤ, ◌+ℤ◌}
use hospitality_os.Store.{
  Actor, CompanyAccount, Db, Error, External, Result, company_account_keyed, err, find_by, find_own,
  find_own-found, ok, update_by, ◌>>=◌,
}

-- calls of the service, one after the other
pub data BillingCall : Type 0 where
  bill : Actor → (reservation_id : ℕ) → Option ℕ → BillingCall
  collect_from : Actor → (company_id : ℕ) → ℤ → BillingCall

-- what the call takes from the company
abbrev pub taken_from : ℕ → ℕ → ℤ → Result (Option CompanyAccount) × Db → ℤ
taken_from c i a (ok _, db) = if i == c then a else pos 0
taken_from c i a (err _, db) = pos 0

-- the database after a call, and what the company has paid until then
unfoldable pub bill_step : External → ℕ → BillingCall → Db × ℤ → Db × ℤ
bill_step ext c (BillingCall.bill actor i company) (db, got) =
    ((generate_invoice ext alone actor i company db).1, got)
bill_step ext c (BillingCall.collect_from actor i a) (db, got) =
    let r = record_company_payment actor i a db in (r.1, got +ℤ taken_from c i a r)

unfoldable pub bill_run : External → ℕ → List BillingCall → Db × ℤ → Db × ℤ
unfolding bill_step
bill_run ext c [] s = s
bill_run ext c (x ∷ xs) s = bill_run ext c xs (bill_step ext c x s)

-- what a payment leaves
abbrev paid_db : Actor → ℕ → ℤ → Db → Db
paid_db actor i a db = record db {
  companies = update_by i (λ y. record y { balance = y.balance +ℤ neg a }) db.companies;
  audits =
      record {
        hotel_id = actor.hotel_id;
        actor_id = actor.id;
        actor_type = actor.type;
        action = "company.payment";
        entity = "CompanyAccount";
        entity_id = i;
      }
      ∷ db.audits;
}

paid_lem :
    (actor : Actor) (i : ℕ) (a : ℤ) (db : Db) (x : CompanyAccount)
    → find_own actor.hotel_id i db.companies ≡ some x
    → record_company_payment actor i a db ≡ (
      ok (find_by i (update_by i (λ y. record y { balance = y.balance +ℤ neg a }) db.companies)),
      paid_db actor i a db,
    )
unfolding record_company_payment ◌>>=◌
paid_lem actor i a db x e = ground (arith, e, found)
  where
    found : find_by i db.companies ≡ some x
    found = let facts = find_own-found actor.hotel_id i db.companies x e in facts.0

refused_lem :
    (actor : Actor) (i : ℕ) (a : ℤ) (db : Db)
    → find_own actor.hotel_id i db.companies ≡ none
    → record_company_payment actor i a db ≡ (err Error.not_found, db)
unfolding record_company_payment ◌>>=◌
refused_lem actor i a db e = rw e refl

step-Reconciled :
    (ext : External) (c : ℕ) (x : BillingCall) (s : Db × ℤ)
    → Reconciled c s.1 s.0
    → let s' = bill_step ext c x s in Reconciled c s'.1 s'.0
unfolding bill_step
step-Reconciled ext c (BillingCall.bill actor i company) (db, got) h =
    generate-Reconciled ext c got actor i company db h
step-Reconciled ext c (BillingCall.collect_from actor i a) (db, got) (b, e, sum) =
    elim (Option-cases (find_own actor.hotel_id i db.companies)) [
      | inl none_own ↦ rw (refused_lem actor i a db none_own) (b, e, same b got ∙ sum)
      | inr (x, own) ↦ rw (paid_lem actor i a db x own) (elim (Bool-cases (i == c)) [
        | inl mine ↦ (
          b +ℤ neg a,
          balance_in-update c i (neg a) db.companies ∙ rw (mine, e) refl,
          rw mine (back b a got ∙ sum),
        )
        | inr other ↦ (
          b,
          balance_in-update c i (neg a) db.companies ∙ rw (other, e) refl,
          rw other (same b got ∙ sum),
        )
      ])
    ]
  where
    same : (x y : ℤ) → x +ℤ (y +ℤ pos 0) ≡ x +ℤ y
    same x y = omega int_laws

    back : (x y z : ℤ) → x +ℤ neg y +ℤ (z +ℤ y) ≡ x +ℤ z
    back x y z = omega int_laws

run-Reconciled :
    (ext : External) (c : ℕ) (xs : List BillingCall) (s : Db × ℤ)
    → Reconciled c s.1 s.0
    → let s' = bill_run ext c xs s in Reconciled c s'.1 s'.0
unfolding bill_run
run-Reconciled ext c [] s h = h
run-Reconciled ext c (x ∷ xs) s h =
    run-Reconciled ext c xs (bill_step ext c x s) (step-Reconciled ext c x s h)

-- Over any sequence of invoices and payments of companies, whether the calls return or throw, what a
-- company owes and what it has paid are together the totals of the invoices that name it, if this is
-- so before. The calls run one after the other.
pub bill_run-reconciles :
    (ext : External) (c : ℕ) (calls : List BillingCall) (db : Db) (got b : ℤ)
    → balance_in c db.companies ≡ some b
    → b +ℤ got ≡ billed c db.invoices
    → let (db', got') = bill_run ext c calls (db, got) in
      (b' : ℤ) × (balance_in c db'.companies ≡ some b') × (b' +ℤ got' ≡ billed c db'.invoices)
bill_run-reconciles ext c calls db got b e sum = run-Reconciled ext c calls (db, got) (b, e, sum)
