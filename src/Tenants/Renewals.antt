-- ===== src/Tenants/Renewals.antt =====
-- The daily job keeps the standing of the hotels.
use hospitality_os.Billing.Billed.{alone}
use hospitality_os.Common.{
  ==_iff, Bool, Bool-cases, List, [], ap, arith, filterb, inl, inr, none, refl, true, ℕ, ◌∷◌, ◌≡◌,
}
use hospitality_os.Enums.{SubInvoiceStatus}
use hospitality_os.PlatformBilling.{is_active_hotel, platform_actor}
use hospitality_os.PlatformBilling.Sweep.{
  is_due, is_past_due, mark_overdue, outstanding, renew, suspend, suspended, sweep,
}
use hospitality_os.Store.{
  Db, External, Hotel, Keeps, Keeps-bind, Keeps-gets, Plan, bind-then, for_each, gets, keeping,
  ◌>>=◌,
}
use hospitality_os.Tenants.{update_hotel}
use hospitality_os.Tenants.Invoiced.{issue_sub_invoice-AllServed}
use hospitality_os.Tenants.Paid.{is_of-update_many}
use hospitality_os.Tenants.Served.{active_approved, served-suspended}
use hospitality_os.Tenants.Standing.{
  AllServed, invoices-AllServed, nobody, record_audit-AllServed, update_hotel-AllServed,
}
use hospitality_os.Tenants.Unique.{among, filterb-found}

due-active :
    (now : ℕ) (plans : List Plan) (x : Hotel)
    → is_due now plans x ≡ true
    → is_active_hotel x.status ≡ true
due-active now plans x e = ground (arith, e)

module _ (ext : External) where
  suspend-AllServed : (q : ℕ → Bool) (now h : ℕ) → Keeps (AllServed q) (suspend now h)
  suspend-AllServed q now h =
      Keeps-bind (AllServed q) (update_hotel h (suspended now)) _
        (λ d a.
          update_hotel-AllServed q h (suspended now) d (λ x. refl)
            (λ x e s. served-suspended x s now) (λ x e. e) a)
        (λ _. record_audit-AllServed q (platform_actor none h) _ _ _)

  renew-AllServed :
      (q : ℕ → Bool) (now : ℕ) (x : Hotel)
      → q x.id ≡ true
      → Keeps (AllServed q) (renew ext alone now x)
  unfolding renew
  renew-AllServed q now x ok_h =
      Keeps-bind (AllServed q) (gets (λ db. outstanding x.id db.sub_invoices)) _
        (Keeps-gets (AllServed q) (λ (db : Db). outstanding x.id db.sub_invoices))
        λ n. search (keeping, issue_sub_invoice-AllServed q x.id ok_h)

  -- the renewal of hotels that are approved
  renew_all-AllServed :
      (now : ℕ) (xs : List Hotel) (db : Db)
      → AllServed (among xs) db
      → AllServed nobody (for_each (renew ext alone now) xs db).1
  renew_all-AllServed now [] db all = record {
    unique = all.unique;
    each = all.each;
    approved = all.approved;
  }
  renew_all-AllServed now (x ∷ xs) db all =
      bind-then (λ r. AllServed nobody r.1) (renew ext alone now x)
        (λ _. for_each (renew ext alone now) xs) db
        (λ u d e. renew_all-AllServed now xs d (fewer d (rw (ap (λ r. r.1) e) at after)))
        (λ y d e. none_left d (rw (ap (λ r. r.1) e) at after))
    where
      after : AllServed (among (x ∷ xs)) (renew ext alone now x db).1
      after =
          renew-AllServed (among (x ∷ xs)) now x (ground (arith, (==_iff x.id x.id).1 refl)) db all

      fewer : (d : Db) → AllServed (among (x ∷ xs)) d → AllServed (among xs) d
      fewer d a = record {
        unique = a.unique;
        each = a.each;
        approved = λ i y l e. a.approved i y (ground (arith, l)) e;
      }

      none_left : (d : Db) → AllServed (among (x ∷ xs)) d → AllServed nobody d
      none_left d a = record {
        unique = a.unique;
        each = a.each;
        approved = λ i y l e. a.approved i y (ground (arith, l)) e;
      }

  mark_overdue-AllServed : (now : ℕ) → Keeps (AllServed nobody) (mark_overdue now)
  mark_overdue-AllServed now db all =
      invoices-AllServed nobody db (mark_overdue now db).1 refl
        (λ h e. inr (
          rw
            (is_of-update_many h (is_past_due now)
              (λ x. record x { status = SubInvoiceStatus.overdue }) db.sub_invoices (λ x. refl))
            at e))
        all

  -- the hotels to renew are active, so they are approved
  renewals-AllServed :
      (now : ℕ)
      → Keeps
          (AllServed nobody)
          (gets (λ db. filterb (is_due now db.plans) db.hotels) >>= for_each (renew ext alone now))
  unfolding ◌>>=◌
  renewals-AllServed now db all =
      let due = filterb (is_due now db.plans) db.hotels in
      renew_all-AllServed now due db (record {
        unique = all.unique;
        each = all.each;
        approved = λ i x l e. elim (Bool-cases (among due i)) [
          | inl is ↦ active_approved x (all.each i x e) (
              due-active now db.plans x
                (filterb-found (is_due now db.plans) i db.hotels x all.unique is e))
          | inr not_due ↦ all.approved i x (rw not_due at l) e
        ];
      })

  pub sweep-AllServed : (now : ℕ) → Keeps (AllServed nobody) (sweep ext alone now)
  unfolding sweep
  sweep-AllServed now =
      search
        (
          keeping,
          mark_overdue-AllServed,
          suspend-AllServed nobody,
          renewals-AllServed,
          Keeps-gets (AllServed nobody),
        )
        depth 20
