-- ===== src/Billing/Numbers.antt =====
-- The numbers of the invoices: counted, kept unique by the index, and taken again when another call was
-- faster.
use hospitality_os.Billing.{
  InvoiceDraft, charge_company, count_invoices, draft_of, generate_invoice, has_number,
  insert_invoice, invoice_of, issue_invoice, try_invoice, write_invoice,
}
use hospitality_os.Common.{
  ==_iff, Bool, Bool-cases, List, Option, any, ap, arith, false, if◌then◌else◌, inl, inr, is_some,
  none, refl, some, suc, true, zero, ℕ, ◌+◌, ◌<◌, ◌==◌, ◌∙◌, ◌∷◌, ◌≡◌, ◌≤◌,
}
use hospitality_os.Common.Int.{ℤ, ◌+ℤ◌}
use hospitality_os.Payments.{folio_of}
use hospitality_os.Reservations.Release.{others}
use hospitality_os.Store.{
  Actor, CompanyAccount, Db, Error, External, Folio, Invoice, Result, bind-ok,
  company_account_keyed, err, find_by, gets, ok, or_throw, pure, record_audit, retry, settle,
  transaction, update_by, ◌>>=◌, ◌>>◌,
}

-- a hotel's numbers go up to the number of its invoices
abbrev pub Numbered : List Invoice → Type 0
Numbered rs = (h n : ℕ) → count_invoices h rs < n → any (has_number h n) rs ≡ false

-- the company to charge, if there is one, is in the table
abbrev pub can_charge : Option ℕ → List CompanyAccount → Bool
can_charge none cs = true
can_charge (some i) cs = is_some (find_by i cs)

abbrev pub charged_companies : Option ℕ → ℤ → List CompanyAccount → List CompanyAccount
charged_companies none total cs = cs
charged_companies (some i) total cs =
    update_by i (λ x. record x { balance = x.balance +ℤ total }) cs

-- the database with the invoice
abbrev pub issued_db : (number : ℕ) → InvoiceDraft → Db → Db
issued_db n d db = record db {
  invoices = invoice_of db.next_id n d ∷ db.invoices;
  companies = charged_companies d.company_account_id (d.subtotal +ℤ d.tax_total) db.companies;
  next_id = db.next_id + 1;
}

-- the table has the number already, when the transaction of the attempt runs
abbrev pub is_taken : (others : ℕ → Db → Db) → InvoiceDraft → ℕ → Db → Bool
is_taken others d k db =
    any (has_number d.hotel_id (count_invoices d.hotel_id db.invoices + 1)) (others k db).invoices

pub Numbered-issued :
    (n : ℕ) (d : InvoiceDraft) (db : Db)
    → n ≤ count_invoices d.hotel_id db.invoices + 1
    → Numbered db.invoices
    → Numbered (issued_db n d db).invoices
Numbered-issued n d db le ok_before h m lt = ground (arith, ok_before h m)

charge_company_lem :
    (o : Option ℕ) (total : ℤ) (db : Db)
    → can_charge o db.companies ≡ true
    → charge_company o total db
      ≡ (ok tt, record db { companies = charged_companies o total db.companies })
unfolding ◌>>=◌
charge_company_lem none total db c = refl
charge_company_lem (some i) total db c = rw c refl

pub write_invoice_lem :
    (n : ℕ) (d : InvoiceDraft) (db : Db)
    → can_charge d.company_account_id db.companies ≡ true
    → transaction (write_invoice n d) db ≡ (
        if any (has_number d.hotel_id n) db.invoices
        then (err Error.unique_violation, db)
        else (ok (invoice_of db.next_id n d), issued_db n d db))
unfolding write_invoice ◌>>=◌
write_invoice_lem n d db c = elim (Bool-cases (any (has_number d.hotel_id n) db.invoices)) [
  | inl taken ↦ rw taken refl
  | inr free ↦
      ap (settle db) (
        bind-ok (insert_invoice inv)
          (λ _. charge_company d.company_account_id inv.total >> pure inv) numbered inserted tt
          (rw free refl)
        ∙ bind-ok (charge_company d.company_account_id inv.total) (λ _. pure inv) inserted
            (issued_db n d db) tt (charge_company_lem d.company_account_id inv.total inserted c))
      ∙ rw free refl
]
  where
    inv : Invoice
    inv = invoice_of db.next_id n d

    numbered : Db
    numbered = record db { next_id = db.next_id + 1 }

    inserted : Db
    inserted = record numbered { invoices = inv ∷ db.invoices }

try_invoice_lem :
    (others : ℕ → Db → Db) (d : InvoiceDraft) (k : ℕ) (db : Db)
    → can_charge d.company_account_id (others k db).companies ≡ true
    → try_invoice others d k db ≡ (
        if is_taken others d k db then (err Error.unique_violation, others k db) else (
          ok (invoice_of (others k db).next_id (count_invoices d.hotel_id db.invoices + 1) d),
          issued_db (count_invoices d.hotel_id db.invoices + 1) d (others k db),
        ))
unfolding try_invoice ◌>>=◌
try_invoice_lem others d k db c =
    write_invoice_lem (count_invoices d.hotel_id db.invoices + 1) d (others k db) c

-- the calls that run in between: they keep the numbers, the companies stay, and at the attempt `k`
-- they make `m k` invoices for the hotel
pub record Others (others : ℕ → Db → Db) (d : InvoiceDraft) (m : ℕ → ℕ) : Type 0 where
  pub keeps_numbers : (k : ℕ) (db : Db) → Numbered db.invoices → Numbered (others k db).invoices
  pub keeps_companies :
      (k : ℕ) (db : Db)
      → can_charge d.company_account_id db.companies ≡ true
      → can_charge d.company_account_id (others k db).companies ≡ true
  pub makes :
      (k : ℕ) (db : Db)
      → count_invoices d.hotel_id (others k db).invoices
        ≡ count_invoices d.hotel_id db.invoices + m k

-- the invoices that are made in between, from the attempt `k` on
abbrev pub made : (ℕ → ℕ) → (left k : ℕ) → ℕ
made m zero k = m k
made m (suc left) k = m k + made m left (suc k)

-- an attempt in whose time no other invoice is made finds its number free
quiet-free :
    (others : ℕ → Db → Db) (d : InvoiceDraft) (m : ℕ → ℕ) (k : ℕ) (db : Db)
    → Others others d m
    → Numbered db.invoices
    → m k ≡ 0
    → is_taken others d k db ≡ false
quiet-free others d m k db o ok_before e =
    o.keeps_numbers k db ok_before d.hotel_id (count_invoices d.hotel_id db.invoices + 1)
      (omega (arith, e, o.makes k db))

-- the call ends with an invoice
abbrev Issues : InvoiceDraft → Db → Result Invoice × Db → Type 0
Issues d db r =
    (n : ℕ) × (db1 : Db) × (r ≡ (ok (invoice_of db1.next_id n d), issued_db n d db1))
    × (any (has_number d.hotel_id n) db1.invoices ≡ false)
    × Numbered (issued_db n d db1).invoices

issues :
    (others : ℕ → Db → Db) (d : InvoiceDraft) (m : ℕ → ℕ)
    → Others others d m
    → (k : ℕ) (db : Db) → Numbered db.invoices
    → can_charge d.company_account_id db.companies ≡ true
    → is_taken others d k db ≡ false
    → Issues d db (try_invoice others d k db)
issues others d m o k db num c free =
    let n = count_invoices d.hotel_id db.invoices + 1 in
    (
      n,
      others k db,
      try_invoice_lem others d k db (o.keeps_companies k db c) ∙ rw free refl,
      free,
      Numbered-issued n d (others k db) (omega (arith, o.makes k db)) (o.keeps_numbers k db num),
    )

retry-Issues :
    (others : ℕ → Db → Db) (d : InvoiceDraft) (m : ℕ → ℕ)
    → Others others d m
    → (left k : ℕ) (db : Db) → Numbered db.invoices
    → can_charge d.company_account_id db.companies ≡ true
    → made m left k ≤ left
    → Issues d db (retry left k (try_invoice others d) db)
unfolding retry
retry-Issues others d m o zero k db num c le =
    let free = quiet-free others d m k db o num (omega (arith, le)) in
    issues others d m o k db num c free
retry-Issues others d m o (suc left) k db num c le = elim (Bool-cases (is_taken others d k db)) [
  | inl taken ↦
      rw (try_invoice_lem others d k db (o.keeps_companies k db c), taken)
        (retry-Issues others d m o left (suc k) (others k db) (o.keeps_numbers k db num)
          (o.keeps_companies k db c) (busy taken))
  | inr free ↦
      let done = issues others d m o k db num c free in
      rw (done.2) (done.0, done.1, refl, done.3, done.4)
]
  where
    busy : is_taken others d k db ≡ true → made m left (suc k) ≤ left
    busy taken = elim (Bool-cases (m k == 0)) [
      | inl quiet ↦
          absurd
            (ground (arith, taken, quiet-free others d m k db o num ((==_iff (m k) 0).0 quiet)))
      | inr some_made ↦ ground (arith, le)
    ]

-- An invoice of a stay is issued, however other calls run in between, when these make no more than
-- five invoices of the hotel during the six attempts: the call then returns an invoice with the
-- totals of the folio and a number that no other invoice of the hotel has, and the numbers still go
-- up to the count. The folio is found, the company to charge is in the table and stays there, and the
-- numbers of the invoices go up to their count before and between the attempts.
pub generate_invoice_lem :
    (ext : External) (others : ℕ → Db → Db) (m : ℕ → ℕ) (actor : Actor) (i : ℕ) (company : Option ℕ)
    (folio : Folio) (db : Db)
    → folio_of actor.hotel_id i db ≡ some folio
    → Others others (draft_of ext actor i company folio db) m
    → Numbered db.invoices
    → can_charge company db.companies ≡ true
    → made m 5 0 ≤ 5
    → (inv : Invoice) × (db' : Db) × (rest : List Invoice) × (generate_invoice ext others actor i
          company db
        ≡ (ok inv, db'))
      × (db'.invoices ≡ inv ∷ rest)
      × (any (has_number actor.hotel_id inv.number) rest ≡ false)
      × (inv.total
          ≡ (draft_of ext actor i company folio db).subtotal
            +ℤ (draft_of ext actor i company folio db).tax_total)
      × Numbered db'.invoices
unfolding generate_invoice issue_invoice ◌>>=◌
generate_invoice_lem ext others m actor i company folio db found o num c le =
    let d = draft_of ext actor i company folio db in
    let (n, db1, e, free, num') = retry-Issues others d m o 5 0 db num c le in
    let inv = invoice_of db1.next_id n d in
    let done = issued_db n d db1 in
    (
      inv,
      (record_audit actor "invoice.generate" "Invoice" inv.id done).1,
      db1.invoices,
      bind-ok (or_throw (folio_of actor.hotel_id i db) Error.not_found)
            (λ f. gets (draft_of ext actor i company f) >>= issue_invoice others actor) db db folio
            (rw found refl)
          ∙ bind-ok (retry 5 0 (try_invoice others d))
              (λ x. record_audit actor "invoice.generate" "Invoice" x.id >> pure x) db done inv e,
      refl,
      free,
      refl,
      num',
    )
