-- ===== src/Examples/Accounts.antt =====
-- The theorems on the invoices, the journal, the subscriptions and the features on concrete databases.
use hospitality_os.Billing.{
  InvoiceDraft, compute_taxes, count_invoices, draft_of, generate_invoice, has_number,
  issue_invoice, tax_lines, try_invoice, write_invoice,
}
use hospitality_os.Billing.Balance.{generate_daily_gl_lem}
use hospitality_os.Billing.Billed.{balance_in, billed}
use hospitality_os.Billing.Journal.{
  DailyGl, ar_total, bank_total, cash_total, generate_daily_gl, is_positive,
}
use hospitality_os.Billing.Numbers.{Numbered, Others, can_charge, generate_invoice_lem}
use hospitality_os.Billing.Receivables.{BillingCall, bill_run, bill_run-reconciles}
use hospitality_os.Common.{
  List, [], any, arith, false, length, map, none, refl, some, suc, true, zero, ℕ, ◌+◌, ◌∷◌, ◌≡◌,
  ◌≤◌, ◌⊎◌,
}
use hospitality_os.Common.Int.{pos, round_div, ℤ, ◌*ℤ◌, ◌+ℤ◌}
use hospitality_os.Entitlements.{Feature, has_feature, includes, resolve_features}
use hospitality_os.Entitlements.Choice.{
  decided, has_feature-resolve_features, last_choice, plan_lists,
}
use hospitality_os.Enums.{InvoiceStatus, LineType, PlanInterval, ReservationStatus}
use hospitality_os.Examples.Data.{ext, folio_a, hotel, manager, start_db, with_stay}
use hospitality_os.NightAudit.{start_of_day}
use hospitality_os.PlatformBilling.{
  insert_sub_invoice, issue_for, issue_sub_invoice, mark_paid, reinstated, settle_invoice,
  try_sub_invoice,
}
use hospitality_os.PlatformBilling.Outstanding.{PlatformCall, platform_run, platform_run-one_each}
use hospitality_os.PlatformBilling.Sweep.{distinct_hotels, outstanding, renew, sweep}
use hospitality_os.Store.{CompanyAccount, Db, Invoice, find_by, ok, retry, update_by, ◌>>=◌}

-- a company that owes nothing
abbrev company : CompanyAccount
company = record { id = 70; hotel_id = 1; credit_limit = pos 0; balance = pos 0 }

-- the stay with its room charge, and a tax of 7.5%
abbrev to_bill : Db
to_bill = record (with_stay ReservationStatus.checked_out) {
  line_items =
      record {
        folio_id = 51;
        type = LineType.room;
        amount = pos 20000;
        quantity = pos 2;
        by = some 9;
      }
      ∷ [];
  tax_rates =
      record { id = 71; hotel_id = 1; percent_bps = 750; inclusive = false; active = true } ∷ [];
  companies = company ∷ [];
}

-- another call that makes an invoice of the hotel before the first attempt is done
abbrev other_invoice : Invoice
other_invoice = record {
  id = 90;
  hotel_id = 1;
  reservation_id = 50;
  company_account_id = none;
  number = 1;
  status = InvoiceStatus.issued;
  subtotal = pos 0;
  tax_total = pos 0;
  total = pos 0;
  currency = "NGN";
  lines = [];
}

abbrev billed_draft : InvoiceDraft
billed_draft = draft_of ext manager 50 (some 70) folio_a to_bill

none_yet : Numbered to_bill.invoices
none_yet h n lt = refl

abbrev rival : ℕ → Db → Db
rival zero db = record db { invoices = other_invoice ∷ db.invoices }
rival (suc k) db = db

abbrev rival_invoices : ℕ → ℕ
rival_invoices zero = 1
rival_invoices (suc k) = 0

one_rival : Others rival billed_draft rival_invoices
unfolding draft_of compute_taxes
one_rival = record { keeps_numbers = numbers; keeps_companies = companies; makes = makes }
  where
    numbers : (k : ℕ) (db : Db) → Numbered db.invoices → Numbered (rival k db).invoices
    numbers zero db h g n lt = ground (arith, h g n, lt)
    numbers (suc k) db h g n lt = h g n lt

    companies :
        (k : ℕ) (db : Db)
        → can_charge (some 70) db.companies ≡ true
        → can_charge (some 70) (rival k db).companies ≡ true
    companies zero db h = h
    companies (suc k) db h = h

    makes :
        (k : ℕ) (db : Db)
        → count_invoices 1 (rival k db).invoices ≡ count_invoices 1 db.invoices + rival_invoices k
    makes zero db = omega arith
    makes (suc k) db = omega arith

generate_invoice_lem_example :
    (inv : Invoice) × (db' : Db) × (rest : List Invoice) × (generate_invoice ext rival manager 50
        (some 70)
        to_bill
      ≡ (ok inv, db'))
    × (db'.invoices ≡ inv ∷ rest)
    × (any (has_number 1 inv.number) rest ≡ false)
    × (inv.total ≡ billed_draft.subtotal +ℤ billed_draft.tax_total)
    × Numbered db'.invoices
unfolding find_by
generate_invoice_lem_example =
    generate_invoice_lem ext rival rival_invoices manager 50 (some 70) folio_a to_bill refl
      one_rival none_yet refl (omega arith)

-- the number 1 is gone when the first attempt writes, and the second takes 2
second_number :
    map (λ x. x.number) (generate_invoice ext rival manager 50 (some 70) to_bill).1.invoices
    ≡ 2 ∷ 1 ∷ []
unfolding generate_invoice issue_invoice retry try_invoice write_invoice ◌>>=◌ find_by
second_number = refl

-- the stay and its tax
totals : (billed_draft.subtotal ≡ pos 40000) × (billed_draft.tax_total ≡ pos 3000)
unfolding draft_of compute_taxes tax_lines round_div ◌*ℤ◌ ◌+ℤ◌
totals = (refl, refl)

-- an invoice of the company, and a payment of a part
abbrev bill_calls : List BillingCall
bill_calls =
    BillingCall.bill manager 50 (some 70) ∷ BillingCall.collect_from manager 70 (pos 1000) ∷ []

bill_run-reconciles_example :
    let (db', got') = bill_run ext 70 bill_calls (to_bill, pos 0) in
    (b' : ℤ) × (balance_in 70 db'.companies ≡ some b') × (b' +ℤ got' ≡ billed 70 db'.invoices)
unfolding find_by billed ◌+ℤ◌
bill_run-reconciles_example =
    bill_run-reconciles ext 70 bill_calls to_bill (pos 0) (pos 0) refl refl

generate_daily_gl_lem_example :
    let cash = cash_total ext 1 (start_of_day 90000000) start_db in
    let bank = bank_total ext 1 (start_of_day 90000000) start_db in
    let ar = ar_total ext 1 (start_of_day 90000000) start_db in
    (gl : DailyGl) × (generate_daily_gl ext 1 90000000 [] start_db ≡ (ok gl, start_db))
    × (gl.total_credits ≡ gl.total_debits)
    × ((is_positive cash ≡ false) ⊎ (gl.total_debits ≡ cash +ℤ bank +ℤ ar))
    × ((is_positive cash ≡ true)
        ⊎ (is_positive (cash +ℤ bank +ℤ ar) ≡ false)
        ⊎ (gl.total_debits ≡ cash +ℤ bank +ℤ ar +ℤ bank +ℤ ar))
unfolding find_by
generate_daily_gl_lem_example = generate_daily_gl_lem ext 1 90000000 [] start_db hotel refl

-- a hotel on a paid plan whose period has ended
abbrev subscribed : Db
subscribed = record start_db {
  hotels = record hotel { plan_id = some 80; current_period_end = some 1000 } ∷ [];
  plans =
      record { id = 80; price_minor = pos 5000; currency = "USD"; interval = PlanInterval.monthly }
      ∷ [];
}

abbrev platform_calls : List PlatformCall
platform_calls =
    PlatformCall.daily_sweep 2000
    ∷ PlatformCall.daily_sweep 3000
    ∷ PlatformCall.pay_invoice 4000 none 100 none "MANUAL"
    ∷ PlatformCall.daily_sweep 99999999999
    ∷ []

platform_run-one_each_example :
    outstanding 1 (platform_run ext platform_calls subscribed).sub_invoices ≤ 1
platform_run-one_each_example =
    platform_run-one_each ext platform_calls subscribed 1 (λ h. omega arith)

-- the hotel is invoiced, pays, and is invoiced again
invoiced_again : length (platform_run ext platform_calls subscribed).sub_invoices ≡ 2
unfolding platform_run sweep renew issue_sub_invoice issue_for retry try_sub_invoice
    insert_sub_invoice mark_paid settle_invoice reinstated distinct_hotels ◌>>=◌ find_by update_by
invoiced_again = refl

has_feature-resolve_features_example :
    let features =
      resolve_features
        (some ("BAR_POS" ∷ []))
        (some (("STAFF", false) ∷ ("BAR_POS", false) ∷ [])) in
    let d =
      decided Feature.staff
        (last_choice Feature.staff (("STAFF", false) ∷ ("BAR_POS", false) ∷ []))
        (plan_lists Feature.staff ("BAR_POS" ∷ [])) in
    (includes features Feature.staff ≡ d) × (has_feature (some features) Feature.staff ≡ d)
has_feature-resolve_features_example =
    has_feature-resolve_features (some ("BAR_POS" ∷ []))
      (some (("STAFF", false) ∷ ("BAR_POS", false) ∷ [])) Feature.staff
