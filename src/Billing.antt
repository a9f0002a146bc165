-- ===== src/Billing.antt =====
-- BillingService (apps/api/src/billing/billing.service.ts): taxes, the invoices of the stays, and what
-- the companies owe.
pub mod Numbers
pub mod Billed
pub mod Receivables
pub mod Journal
pub mod Balance
use hospitality_os.Common.{
  Bool, List, Option, String, [], any, filterb, if◌then◌else◌, is_some, length, map, none, not,
  option_eq, some, ℕ, ◌&&◌, ◌++◌, ◌+◌, ◌==◌, ◌∷◌,
}
use hospitality_os.Common.Int.{neg, pos, round_div, sum_ℤ, ℤ, ◌*ℤ◌, ◌+ℤ◌}
use hospitality_os.Enums.{InvoiceStatus}
use hospitality_os.Payments.{folio_of}
use hospitality_os.Reservations.Release.{others}
use hospitality_os.Store.{
  Action, Actor, CompanyAccount, Db, Error, External, Folio, Invoice, InvoiceLine, LineItem,
  TaxRate, company_account_keyed, find_by, find_own, fresh_id, gets, modify, or_throw, pure,
  record_audit, reservation_keyed, retry, throw_if, transaction, update_by, ◌>>=◌, ◌>>◌,
}

-- `{ hotelId, active: true }`
abbrev pub is_active_tax : ℕ → TaxRate → Bool
is_active_tax h t = t.hotel_id == h && t.active

-- what computeTaxes returns
pub record Taxes : Type 0 where
  pub tax_total : ℤ
  pub lines : List InvoiceLine

module _ (ext : External) where
  abbrev pub tax_amount : ℤ → TaxRate → ℤ
  tax_amount net t =
      if t.inclusive
      then ext.inclusive_tax net t.percent_bps
      else round_div (net *ℤ pos t.percent_bps) 10000

  -- the loop: an inclusive tax is a line, and is in the net amount already
  unfoldable pub tax_lines : ℤ → List TaxRate → Taxes → Taxes
  tax_lines net [] acc = acc
  tax_lines net (t ∷ ts) acc =
      let amount = tax_amount net t in
      tax_lines net ts (record {
        tax_total = acc.tax_total +ℤ (if t.inclusive then pos 0 else amount);
        lines = acc.lines ++ (record { amount = amount; quantity = pos 1 } ∷ []);
      })

  unfoldable pub compute_taxes : (hotel_id : ℕ) → ℤ → Db → Taxes
  unfolding tax_lines
  compute_taxes h net db =
      tax_lines net (filterb (is_active_tax h) db.tax_rates)
        (record { tax_total = pos 0; lines = [] })

-- `invoice.count({ where: { hotelId } })`
abbrev pub count_invoices : ℕ → List Invoice → ℕ
count_invoices h rs = length (filterb (λ x. x.hotel_id == h) rs)

-- `nextNumber`
abbrev pub next_number : ℕ → Action ℕ
next_number h = gets λ db. count_invoices h db.invoices + 1

-- the unique index on the hotel and the number
abbrev pub has_number : (hotel_id number : ℕ) → Invoice → Bool
has_number h n x = x.hotel_id == h && x.number == n

-- `invoice.create({ data })`
abbrev pub insert_invoice : Invoice → Action (Unit {0})
insert_invoice inv = gets (λ db. any (has_number inv.hotel_id inv.number) db.invoices) >>= λ taken.
    throw_if taken Error.unique_violation >> modify λ db. record db { invoices = inv ∷ db.invoices }

-- `companyAccount.update({ where: { id }, data: { balance: { increment: amount } } })`
abbrev pub add_balance : ℕ → ℤ → Action (Unit {0})
add_balance i amount = gets (λ db. find_by i db.companies) >>= λ c.
    throw_if (not (is_some c)) Error.missing_row
    >> modify λ db. record db {
      companies = update_by i (λ x. record x { balance = x.balance +ℤ amount }) db.companies;
    }

abbrev pub charge_company : Option ℕ → ℤ → Action (Unit {0})
charge_company none total = pure tt
charge_company (some i) total = add_balance i total

-- the amounts of an invoice, and whose it is
pub record InvoiceDraft : Type 0 where
  pub hotel_id : ℕ
  pub reservation_id : ℕ
  pub company_account_id : Option ℕ
  pub subtotal : ℤ
  pub tax_total : ℤ
  pub currency : String
  pub lines : List InvoiceLine

abbrev pub invoice_of : (id number : ℕ) → InvoiceDraft → Invoice
invoice_of i n d = record {
  id = i;
  hotel_id = d.hotel_id;
  reservation_id = d.reservation_id;
  company_account_id = d.company_account_id;
  number = n;
  status = InvoiceStatus.issued;
  subtotal = d.subtotal;
  tax_total = d.tax_total;
  total = d.subtotal +ℤ d.tax_total;
  currency = d.currency;
  lines = d.lines;
}

-- the body of the transaction
unfoldable pub write_invoice : (number : ℕ) → InvoiceDraft → Action Invoice
write_invoice n d = do
  i ← fresh_id
  let inv = invoice_of i n d
  insert_invoice inv
  charge_company d.company_account_id inv.total
  pure inv

-- One attempt. What other calls write between the count and the transaction of the attempt is
-- `others`.
unfoldable pub try_invoice : (others : ℕ → Db → Db) → InvoiceDraft → ℕ → Action Invoice
unfolding write_invoice
try_invoice others d attempt = do
  n ← next_number d.hotel_id
  modify (others attempt)
  transaction (write_invoice n d)

-- `{ description, amount: l.amount * l.quantity, quantity: 1 }`
abbrev pub charge_line : LineItem → InvoiceLine
charge_line l = record { amount = l.amount *ℤ l.quantity; quantity = pos 1 }

-- the invoice that the folio stands for
unfoldable pub draft_of : External → Actor → ℕ → Option ℕ → Folio → Db → InvoiceDraft
unfolding compute_taxes
draft_of ext actor i company folio db =
    let charges = map charge_line (filterb (λ l. l.folio_id == folio.id) db.line_items) in
    let subtotal = sum_ℤ (map (λ l. l.amount) charges) in
    let taxes = compute_taxes ext actor.hotel_id subtotal db in
    record {
      hotel_id = actor.hotel_id;
      reservation_id = i;
      company_account_id = company;
      subtotal = subtotal;
      tax_total = taxes.tax_total;
      currency = folio.currency;
      lines = charges ++ taxes.lines;
    }

-- the loop of the attempts, and the audit
unfoldable pub issue_invoice : (others : ℕ → Db → Db) → Actor → InvoiceDraft → Action Invoice
unfolding try_invoice
issue_invoice others actor d = do
  inv ← retry 5 0 (try_invoice others d)
  record_audit actor "invoice.generate" "Invoice" inv.id
  pure inv

unfoldable pub generate_invoice :
    External → (others : ℕ → Db → Db) → Actor → (reservation_id : ℕ) → Option ℕ → Action Invoice
unfolding draft_of issue_invoice
generate_invoice ext others actor i company = do
  folio ← or_throw (← gets (folio_of actor.hotel_id i)) Error.not_found
  d ← gets (draft_of ext actor i company folio)
  issue_invoice others actor d

unfoldable pub record_company_payment : Actor → ℕ → ℤ → Action (Option CompanyAccount)
record_company_payment actor i amount = do
  or_throw (← gets λ db. find_own actor.hotel_id i db.companies) Error.not_found
  add_balance i (neg amount)
  record_audit actor "company.payment" "CompanyAccount" i
  gets λ db. find_by i db.companies

-- what getCompanyStatement returns
pub record Statement : Type 0 where
  pub company : CompanyAccount
  pub invoices : List Invoice
  pub total_billed : ℤ
  pub balance : ℤ

abbrev pub is_billed_to : (hotel_id company : ℕ) → Invoice → Bool
is_billed_to h i x = x.hotel_id == h && option_eq x.company_account_id i

unfoldable pub company_statement : (hotel_id company : ℕ) → Action Statement
company_statement h i = do
  c ← or_throw (← gets λ db. find_own h i db.companies) Error.not_found
  billed ← gets λ db. filterb (is_billed_to h i) db.invoices
  pure (record {
    company = c;
    invoices = billed;
    total_billed = sum_ℤ (map (λ x. x.total) billed);
    balance = c.balance;
  })
