-- ===== src/PlatformBilling/Issuing.antt =====
-- A hotel with nothing to pay gets one invoice at most.
use hospitality_os.Billing.Billed.{alone}
use hospitality_os.Common.{
  Bool, Bool-cases, List, Option, String, [], any, arith, false, if◌then◌else◌, inl, inr, length,
  none, refl, some, subst, sym, true, ℕ, ◌+◌, ◌==◌, ◌∙◌, ◌∷◌, ◌≡◌, ◌≤◌, ◌⊎◌,
}
use hospitality_os.Common.Int.{leb_ℤ, pos}
use hospitality_os.Enums.{SubInvoiceStatus}
use hospitality_os.PlatformBilling.{
  insert_sub_invoice, issue_for, paid_invoice, set_period_end, sub_invoice_of, try_sub_invoice,
}
use hospitality_os.PlatformBilling.Sweep.{is_past_due, outstanding}
use hospitality_os.Store.{
  Action, Db, Error, External, Keeps, Keeps-bind, Keeps-pure, Plan, Result, SubInvoice, bind-at,
  bind-err, bind-ok, err, gets, keeping, ok, pure, retry, retry-leaves, sub_invoice_keyed,
  update_by, update_many, ◌>>=◌, ◌>>◌,
}

-- no hotel has two invoices that are open or overdue
abbrev pub OneDueEach : List SubInvoice → Type 0
OneDueEach xs = (h : ℕ) → outstanding h xs ≤ 1

pub record OneDue (db : Db) : Type 0 where
  pub each : OneDueEach db.sub_invoices

pub outstanding-overdue :
    (now h : ℕ) (xs : List SubInvoice)
    → outstanding h
        (update_many (is_past_due now) (λ x. record x { status = SubInvoiceStatus.overdue }) xs)
      ≡ outstanding h xs
outstanding-overdue now h [] = refl
outstanding-overdue now h (x ∷ xs) = ground (arith, outstanding-overdue now h xs)

pub outstanding-paid :
    (h i now : ℕ) (reference : Option String) (method : String) (xs : List SubInvoice)
    → outstanding h (update_by i (paid_invoice now reference method) xs) ≤ outstanding h xs
unfolding update_by
outstanding-paid h i now reference method [] = omega arith
outstanding-paid h i now reference method (x ∷ xs) =
    ground (arith, outstanding-paid h i now reference method xs)

module _ (ext : External) where
  abbrev fresh_invoice : (grace h from : ℕ) → Plan → Db → SubInvoice
  fresh_invoice grace h from plan db =
      sub_invoice_of ext db.next_id (length db.sub_invoices + 1) grace h from plan

  insert_lem :
      (inv : SubInvoice) (db : Db)
      → insert_sub_invoice inv db ≡ (
          if any (λ x. x.number == inv.number) db.sub_invoices
          then (err Error.unique_violation, db)
          else (ok tt, record db { sub_invoices = inv ∷ db.sub_invoices }))
  unfolding insert_sub_invoice ◌>>=◌
  insert_lem inv db = ground arith

  try_sub_lem :
      (grace h from : ℕ) (plan : Plan) (k : ℕ) (db : Db)
      → try_sub_invoice ext alone grace h from plan k db ≡ (
          if any (λ x. x.number == length db.sub_invoices + 1) db.sub_invoices
          then (err Error.unique_violation, record db { next_id = db.next_id + 1 })
          else (
            ok (fresh_invoice grace h from plan db),
            record db {
              next_id = db.next_id + 1;
              sub_invoices = fresh_invoice grace h from plan db ∷ db.sub_invoices;
            },
          ))
  unfolding try_sub_invoice ◌>>=◌
  try_sub_lem grace h from plan k db =
      let inv = fresh_invoice grace h from plan db in
      let counted : Db = record db { next_id = db.next_id + 1 } in
      elim (Bool-cases (any (λ x. x.number == length db.sub_invoices + 1) db.sub_invoices)) [
        | inl taken ↦
            bind-err (insert_sub_invoice inv) (λ _. pure inv) counted counted Error.unique_violation
              (insert_lem inv counted ∙ rw taken refl)
            ∙ rw taken refl
        | inr free ↦
            bind-ok (insert_sub_invoice inv) (λ _. pure inv) counted
              (record counted { sub_invoices = inv ∷ db.sub_invoices }) tt
              (insert_lem inv counted ∙ rw free refl)
            ∙ rw free refl
      ]

  abbrev Left : ℕ → Result SubInvoice × Db → Type 0
  Left h r =
      (OneDue r.1 × (outstanding h r.1.sub_invoices ≡ 0))
      ⊎ (OneDue r.1 × ((a : SubInvoice) × (r.0 ≡ ok a)))

  -- an attempt for a hotel that has nothing to pay
  try_sub-leaves :
      (grace h from : ℕ) (plan : Plan) (k : ℕ) (db : Db)
      → OneDue db × (outstanding h db.sub_invoices ≡ 0)
      → Left h (try_sub_invoice ext alone grace h from plan k db)
  try_sub-leaves grace h from plan k db (one, none_due) =
      subst (Left h) (sym (try_sub_lem grace h from plan k db))
        (choose (any (λ x. x.number == length db.sub_invoices + 1) db.sub_invoices))
    where
      added : OneDueEach (fresh_invoice grace h from plan db ∷ db.sub_invoices)
      added g = ground (arith, one.each g, none_due)

      choose :
          (b : Bool)
          → Left h (
              if b then (err Error.unique_violation, record db { next_id = db.next_id + 1 }) else (
                ok (fresh_invoice grace h from plan db),
                record db {
                  next_id = db.next_id + 1;
                  sub_invoices = fresh_invoice grace h from plan db ∷ db.sub_invoices;
                },
              ))
      choose true = inl (record { each = one.each }, none_due)
      choose false = inr (record { each = added }, (_, refl))

  set_period_end-OneDue : (h : ℕ) (at : Option ℕ) → Keeps OneDue (set_period_end h at)
  set_period_end-OneDue h at db one = record { each = one.each }

  pub issue-OneDue :
      (h from : ℕ) (o : Option Plan) (db : Db)
      → OneDue db
      → outstanding h db.sub_invoices ≡ 0
      → OneDue (issue_for ext alone h from o db).1
  unfolding issue_for
  issue-OneDue h from none db one e = one
  issue-OneDue h from (some plan) db one e = elim (Bool-cases (leb_ℤ plan.price_minor (pos 0))) [
    | inl free ↦
        subst (λ c. OneDue ((if c then waive else bill) db).1) (sym free)
          (Keeps-bind OneDue (set_period_end h none) (λ _. pure none) (set_period_end-OneDue h none)
            (λ _ d x. x) db one)
    | inr priced ↦ subst (λ c. OneDue ((if c then waive else bill) db).1) (sym priced) billed_once
  ]
    where
      waive : Action (Option SubInvoice)
      waive = set_period_end h none >> pure none

      attempts : Action SubInvoice
      attempts = retry 5 0 (try_sub_invoice ext alone db.grace_period_days h from plan)

      rest : SubInvoice → Action (Option SubInvoice)
      rest inv = set_period_end h (some inv.period_end) >> pure (some inv)

      bill : Action (Option SubInvoice)
      bill = gets (λ (d : Db). d.grace_period_days) >>= λ grace.
          retry 5 0 (try_sub_invoice ext alone grace h from plan) >>= rest

      billed_once : OneDue (bill db).1
      billed_once =
          subst (λ r. OneDue r.1)
            (sym (
              bind-ok (gets (λ (d : Db). d.grace_period_days))
                (λ grace. retry 5 0 (try_sub_invoice ext alone grace h from plan) >>= rest) db db
                db.grace_period_days refl))
            (bind-at OneDue attempts rest db
              (retry-leaves (λ d. OneDue d × (outstanding h d.sub_invoices ≡ 0)) OneDue
                (try_sub_invoice ext alone db.grace_period_days h from plan) (λ d x. x.0)
                (try_sub-leaves db.grace_period_days h from plan) 5 0 db (one, e))
              (λ inv. search (keeping, set_period_end-OneDue, Keeps-pure OneDue)))
