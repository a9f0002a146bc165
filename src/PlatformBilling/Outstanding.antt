-- ===== src/PlatformBilling/Outstanding.antt =====
-- A hotel has at most one invoice to pay.
use hospitality_os.Billing.Billed.{alone}
use hospitality_os.Common.{
  ==_iff, Bool, Bool-cases, List, Option, String, [], arith, false, if◌then◌else◌, inl, inr,
  or_else, true, ℕ, ◌==◌, ◌∷◌, ◌≤◌,
}
use hospitality_os.PlatformBilling.{
  is_paid_invoice, issue_for, issue_sub_invoice, mark_paid, plan_at, settle_invoice,
}
use hospitality_os.PlatformBilling.Issuing.{
  OneDue, OneDueEach, issue-OneDue, outstanding-overdue, outstanding-paid,
}
use hospitality_os.PlatformBilling.Sweep.{mark_overdue, outstanding, renew, suspend, sweep}
use hospitality_os.Store.{
  Db, Error, External, Hotel, Keeps, Keeps-bind, Keeps-gets, Keeps-or_throw, Plan, SubInvoice,
  bind-at, find_by, gets, keeping, or_throw, pure, sub_invoice_keyed, ◌>>=◌,
}

module _ (ext : External) where
  renew-OneDue : (now : ℕ) (x : Hotel) → Keeps OneDue (renew ext alone now x)
  unfolding renew issue_sub_invoice ◌>>=◌
  renew-OneDue now x db one = elim (Bool-cases (outstanding x.id db.sub_invoices == 0)) [
    | inl nothing ↦ rw nothing (
        issued (plan_at x.id db) (
          issue-OneDue ext x.id (or_else x.current_period_end now) (plan_at x.id db) db one
            ((==_iff _ 0).0 nothing)))
    | inr owed ↦ rw owed one
  ]
    where
      issued :
          (o : Option Plan)
          → OneDue (issue_for ext alone x.id (or_else x.current_period_end now) o db).1
          → OneDue
              ((issue_for ext alone x.id (or_else x.current_period_end now) o >>= λ _. pure tt)
                db).1
      issued o h =
          bind-at OneDue (issue_for ext alone x.id (or_else x.current_period_end now) o)
            (λ _. pure tt) db h (λ _ d y. y)

  mark_overdue-OneDue : (now : ℕ) → Keeps OneDue (mark_overdue now)
  mark_overdue-OneDue now db one = record {
    each = λ h. omega (arith, outstanding-overdue now h db.sub_invoices, one.each h);
  }

  suspend-OneDue : (now h : ℕ) → Keeps OneDue (suspend now h)
  unfolding ◌>>=◌
  suspend-OneDue now h db one = record { each = one.each }

  sweep-OneDue : (now : ℕ) → Keeps OneDue (sweep ext alone now)
  unfolding sweep
  sweep-OneDue now =
      search (keeping, mark_overdue-OneDue, suspend-OneDue, renew-OneDue, Keeps-gets OneDue) depth
        20

  settle-OneDue :
      (now : ℕ) (by : Option ℕ) (inv : SubInvoice) (reference : Option String) (method : String)
      → Keeps OneDue (settle_invoice ext now by inv reference method)
  unfolding settle_invoice ◌>>=◌
  settle-OneDue now by inv reference method db one = record {
    each = λ h.
        omega (arith, outstanding-paid h inv.id now reference method db.sub_invoices, one.each h);
  }

  mark_paid-OneDue :
      (now : ℕ) (by : Option ℕ) (i : ℕ) (reference : Option String) (method : String)
      → Keeps OneDue (mark_paid ext now by i reference method)
  unfolding mark_paid
  mark_paid-OneDue now by i reference method =
      Keeps-bind OneDue (gets λ db. find_by i db.sub_invoices) _
        (Keeps-gets OneDue (λ (d : Db). find_by i d.sub_invoices))
        λ o.
          Keeps-bind OneDue (or_throw o Error.not_found) _ (Keeps-or_throw OneDue o _)
            λ inv. choose inv (is_paid_invoice inv.status)
    where
      choose :
          (inv : SubInvoice) (b : Bool)
          → Keeps OneDue (if b then pure inv else settle_invoice ext now by inv reference method)
      choose inv true = λ db one. one
      choose inv false = settle-OneDue now by inv reference method

-- the calls that write the invoices of the hotels
pub data PlatformCall : Type 0 where
  daily_sweep : (now : ℕ) → PlatformCall
  pay_invoice : (now : ℕ) → Option ℕ → ℕ → Option String → String → PlatformCall

unfoldable pub platform_run : External → List PlatformCall → Db → Db
platform_run ext [] db = db
platform_run ext (PlatformCall.daily_sweep now ∷ cs) db =
    platform_run ext cs (sweep ext alone now db).1
platform_run ext (PlatformCall.pay_invoice now by i reference method ∷ cs) db =
    platform_run ext cs (mark_paid ext now by i reference method db).1

run-OneDue :
    (ext : External) (cs : List PlatformCall) (db : Db)
    → OneDue db
    → OneDue (platform_run ext cs db)
unfolding platform_run
run-OneDue ext [] db one = one
run-OneDue ext (PlatformCall.daily_sweep now ∷ cs) db one =
    run-OneDue ext cs _ (sweep-OneDue ext now db one)
run-OneDue ext (PlatformCall.pay_invoice now by i reference method ∷ cs) db one =
    run-OneDue ext cs _ (mark_paid-OneDue ext now by i reference method db one)

-- No hotel ever has two subscription invoices to pay, open or overdue, after any sequence of daily
-- jobs and payments, if none has before: the job issues the next invoice only when the last is paid.
-- No other call writes the invoices while the job runs.
pub platform_run-one_each :
    (ext : External) (cs : List PlatformCall) (db : Db) (h : ℕ)
    → OneDueEach db.sub_invoices
    → outstanding h (platform_run ext cs db).sub_invoices ≤ 1
platform_run-one_each ext cs db h one =
    let after = run-OneDue ext cs db (record { each = one }) in after.each h
