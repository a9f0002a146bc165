-- ===== src/Billing/Billed.antt =====
-- What an invoice adds to the balance of a company.
use mathlib.Core.Option
use hospitality_os.Billing.{
  InvoiceDraft, charge_company, count_invoices, generate_invoice, has_number, insert_invoice,
  invoice_of, issue_invoice, try_invoice, write_invoice,
}
use hospitality_os.Billing.Numbers.{can_charge, charged_companies, issued_db, write_invoice_lem}
use hospitality_os.Common.{
  Bool-cases, List, Option, Option-cases, [], any, ap, arith, false, if◌then◌else◌, inl, inr, none,
  option_eq, refl, some, subst, sym, ℕ, ◌+◌, ◌==◌, ◌∙◌, ◌∷◌, ◌≡◌,
}
use hospitality_os.Common.Int.{int_laws, pos, ℤ, ◌+ℤ◌}
use hospitality_os.Store.{
  Action, Actor, CompanyAccount, Db, Error, External, Invoice, Keeps, Keeps-bind, Result, bind-ok,
  company_account_keyed, err, find_by, find_by-update_by, keeping, ok, pure, record_audit, retry,
  retry-Keeps, settle, transaction, update_by, ◌>>=◌, ◌>>◌,
}

-- no other call runs in between
abbrev pub alone : ℕ → Db → Db
alone k db = db

-- the totals of the invoices that name the company
unfoldable pub billed : ℕ → List Invoice → ℤ
billed c [] = pos 0
billed c (x ∷ xs) = (if option_eq x.company_account_id c then x.total else pos 0) +ℤ billed c xs

abbrev pub balance_in : ℕ → List CompanyAccount → Option ℤ
balance_in c cs = Option.map (λ x. x.balance) (find_by c cs)

-- the balance and the payments are the invoices
abbrev pub Reconciled : ℕ → ℤ → Db → Type 0
Reconciled c got db =
    (b : ℤ) × (balance_in c db.companies ≡ some b) × (b +ℤ got ≡ billed c db.invoices)

charge_missing :
    (o : Option ℕ) (total : ℤ) (k : Unit {0} → Action Invoice) (db0 db : Db)
    → can_charge o db.companies ≡ false
    → (settle db0 ((charge_company o total >>= k) db)).1 ≡ db0
unfolding ◌>>=◌
charge_missing none total k db0 db c = absurd (ground (arith, c))
charge_missing (some i) total k db0 db c = ground (arith, c)

-- an invoice for a company that is not in the table is taken back
no_company :
    (n : ℕ) (d : InvoiceDraft) (db : Db)
    → can_charge d.company_account_id db.companies ≡ false
    → (transaction (write_invoice n d) db).1 ≡ db
unfolding write_invoice ◌>>=◌
no_company n d db c = elim (Bool-cases (any (has_number d.hotel_id n) db.invoices)) [
  | inl taken ↦ rw taken refl
  | inr free ↦
      ap (λ r. (settle db r).1)
        (bind-ok (insert_invoice inv)
          (λ _. charge_company d.company_account_id inv.total >> pure inv)
          (record db { next_id = db.next_id + 1 }) inserted tt (rw free refl))
      ∙ charge_missing d.company_account_id inv.total (λ _. pure inv) db inserted c
]
  where
    inv : Invoice
    inv = invoice_of db.next_id n d

    inserted : Db
    inserted = record db { next_id = db.next_id + 1; invoices = inv ∷ db.invoices }

pub balance_in-update :
    (c i : ℕ) (a : ℤ) (cs : List CompanyAccount)
    → balance_in c (update_by i (λ x. record x { balance = x.balance +ℤ a }) cs)
      ≡ (if i == c then Option.map (λ b. b +ℤ a) (balance_in c cs) else balance_in c cs)
balance_in-update c i a cs = elim (Option-cases (find_by c cs)) [
  | inl missing ↦
      rw
        (
          find_by-update_by i c (λ (x : CompanyAccount). record x { balance = x.balance +ℤ a }) cs
              (λ x. refl),
          missing,
        )
        (ground arith)
  | inr (x, found) ↦
      rw
        (
          find_by-update_by i c (λ (x : CompanyAccount). record x { balance = x.balance +ℤ a }) cs
              (λ x. refl),
          found,
        )
        (ground arith)
]

issued-Reconciled :
    (c n : ℕ) (got : ℤ) (d : InvoiceDraft) (db : Db)
    → Reconciled c got db
    → Reconciled c got (issued_db n d db)
unfolding billed
issued-Reconciled c n got d db (b, e, sum) = go d.company_account_id (d.subtotal +ℤ d.tax_total)
  where
    zero_left : (x : ℤ) → x ≡ pos 0 +ℤ x
    zero_left x = omega int_laws

    turn : (x y z : ℤ) → x +ℤ y +ℤ z ≡ y +ℤ (x +ℤ z)
    turn x y z = omega int_laws

    go :
        (o : Option ℕ) (total : ℤ)
        → (b' : ℤ) × (balance_in c (charged_companies o total db.companies) ≡ some b')
          × (b' +ℤ got ≡ (if option_eq o c then total else pos 0) +ℤ billed c db.invoices)
    go none total = (b, e, sum ∙ zero_left (billed c db.invoices))
    go (some i) total = elim (Bool-cases (i == c)) [
      | inl mine ↦ (
        b +ℤ total,
        balance_in-update c i total db.companies ∙ rw (mine, e) refl,
        rw mine (turn b total got ∙ ap (λ x. total +ℤ x) sum),
      )
      | inr other ↦ (
        b,
        balance_in-update c i total db.companies ∙ rw (other, e) refl,
        rw other (sum ∙ zero_left (billed c db.invoices)),
      )
    ]

try-Reconciled :
    (c : ℕ) (got : ℤ) (d : InvoiceDraft) (k : ℕ) → Keeps (Reconciled c got) (try_invoice alone d k)
unfolding try_invoice ◌>>=◌
try-Reconciled c got d k db h =
    let n = count_invoices d.hotel_id db.invoices + 1 in
    elim (Bool-cases (can_charge d.company_account_id db.companies)) [
      | inr missing ↦ subst (Reconciled c got) (sym (no_company n d db missing)) h
      | inl there ↦
          subst (λ r. Reconciled c got r.1) (sym (write_invoice_lem n d db there)) (written n)
    ]
  where
    written :
        (n : ℕ)
        → let r : Result Invoice × Db =
            (if any (has_number d.hotel_id n) db.invoices
              then (err Error.unique_violation, db)
              else (ok (invoice_of db.next_id n d), issued_db n d db)) in
          Reconciled c got r.1
    written n = elim (Bool-cases (any (has_number d.hotel_id n) db.invoices)) [
      | inl taken ↦ rw taken h
      | inr free ↦ rw free (issued-Reconciled c n got d db h)
    ]

issue-Reconciled :
    (c : ℕ) (got : ℤ) (actor : Actor) (d : InvoiceDraft)
    → Keeps (Reconciled c got) (issue_invoice alone actor d)
unfolding issue_invoice
issue-Reconciled c got actor d =
    Keeps-bind (Reconciled c got) (retry 5 0 (try_invoice alone d))
      (λ x. record_audit actor "invoice.generate" "Invoice" x.id >> pure x)
      (retry-Keeps (Reconciled c got) (try_invoice alone d) (try-Reconciled c got d) 5 0)
      (λ x. search keeping depth 8)

pub generate-Reconciled :
    (ext : External) (c : ℕ) (got : ℤ) (actor : Actor) (i : ℕ) (company : Option ℕ)
    → Keeps (Reconciled c got) (generate_invoice ext alone actor i company)
unfolding generate_invoice
generate-Reconciled ext c got actor i company = search (keeping, issue-Reconciled) depth 16
