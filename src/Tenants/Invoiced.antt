-- ===== src/Tenants/Invoiced.antt =====
-- The calls that issue and settle the invoices of a hotel keep what its standing promises.
use hospitality_os.Billing.Billed.{alone}
use hospitality_os.Common.{
  ==_iff, Bool, Bool-cases, Option, any, inl, inr, length, none, refl, some, true, ℕ, ◌+◌, ◌==◌,
  ◌∷◌, ◌≡◌,
}
use hospitality_os.Common.Int.{leb_ℤ, pos}
use hospitality_os.Housekeeping.{start}
use hospitality_os.PlatformBilling.{
  insert_sub_invoice, issue_for, issue_sub_invoice, plan_at, set_period_end, sub_invoice_of,
  try_sub_invoice,
}
use hospitality_os.Store.{
  Db, Error, External, Keeps, Keeps-bind, Keeps-gets, Plan, SubInvoice, bind-at, fresh_id, gets,
  keeping, modify, pure, retry, retry-Keeps, throw_if-then, ◌>>=◌,
}
use hospitality_os.Tenants.Kept.{set_period_end-AllServed}
use hospitality_os.Tenants.Standing.{AllServed, fresh_id-AllServed, invoices-AllServed}

module _ (q : ℕ → Bool) where
  pub insert_sub_invoice-AllServed :
      (inv : SubInvoice) → q inv.hotel_id ≡ true → Keeps (AllServed q) (insert_sub_invoice inv)
  unfolding insert_sub_invoice ◌>>=◌
  insert_sub_invoice-AllServed inv ok_h db all =
      throw_if-then (λ r. AllServed q r.1) (any (λ x. x.number == inv.number) db.sub_invoices)
        Error.unique_violation (modify λ d. record d { sub_invoices = inv ∷ d.sub_invoices }) db all
        λ _.
          invoices-AllServed q db (record db { sub_invoices = inv ∷ db.sub_invoices }) refl
            (λ h e. elim (Bool-cases (inv.hotel_id == h)) [
              | inl same ↦ inl (rw ((==_iff inv.hotel_id h).0 same) at ok_h)
              | inr other ↦ inr (rw other at e)
            ])
            all

module _ (q : ℕ → Bool) (h : ℕ) (ok_h : q h ≡ true) where
  pub try_sub_invoice-AllServed :
      (ext : External) (grace start : ℕ) (plan : Plan) (k : ℕ)
      → Keeps (AllServed q) (try_sub_invoice ext alone grace h start plan k)
  unfolding try_sub_invoice
  try_sub_invoice-AllServed ext grace start plan k =
      Keeps-bind (AllServed q) (gets λ db. length db.sub_invoices + 1) _
        (Keeps-gets (AllServed q) (λ (db : Db). length db.sub_invoices + 1))
        λ n.
          Keeps-bind (AllServed q) (modify (alone k)) _ (λ d a. a)
            λ _. Keeps-bind (AllServed q) fresh_id _ (fresh_id-AllServed q) λ i.
              Keeps-bind (AllServed q)
                (insert_sub_invoice (sub_invoice_of ext i n grace h start plan)) _
                (insert_sub_invoice-AllServed q (sub_invoice_of ext i n grace h start plan) ok_h)
                λ _ d a. a

  -- the calls for a plan that is not free
  pub priced-AllServed :
      (ext : External) (from : ℕ) (plan : Plan)
      → Keeps (AllServed q) (
          gets (λ db. db.grace_period_days) >>= λ grace.
          (retry 5 0 (try_sub_invoice ext alone grace h from plan) >>= λ inv.
          (set_period_end h (some inv.period_end) >>= λ _. pure (some inv))))
  priced-AllServed ext from plan =
      Keeps-bind (AllServed q) (gets (λ db. db.grace_period_days)) _
        (Keeps-gets (AllServed q) (λ (db : Db). db.grace_period_days))
        λ grace.
          Keeps-bind (AllServed q) (retry 5 0 (try_sub_invoice ext alone grace h from plan)) _
            (retry-Keeps (AllServed q) (try_sub_invoice ext alone grace h from plan)
              (try_sub_invoice-AllServed ext grace from plan) 5 0)
            λ inv. search (keeping, set_period_end-AllServed q h)

  pub issue_for-AllServed :
      (ext : External) (from : ℕ) (o : Option Plan)
      → Keeps (AllServed q) (issue_for ext alone h from o)
  unfolding issue_for
  issue_for-AllServed ext from none db all = all
  issue_for-AllServed ext from (some plan) db all =
      elim (Bool-cases (leb_ℤ plan.price_minor (pos 0))) [
        | inl free ↦ rw free (
            bind-at (AllServed q) (set_period_end h none) (λ _. pure none) db
              (set_period_end-AllServed q h none db all) (λ _ d s. s))
        | inr dear ↦ rw dear (priced-AllServed ext from plan db all)
      ]

  pub issue_sub_invoice-AllServed :
      (ext : External) (from : ℕ) → Keeps (AllServed q) (issue_sub_invoice ext alone h from)
  unfolding issue_sub_invoice
  issue_sub_invoice-AllServed ext from =
      Keeps-bind (AllServed q) (gets (plan_at h)) _ (Keeps-gets (AllServed q) (plan_at h))
        (issue_for-AllServed ext from)
