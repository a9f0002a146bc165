-- ===== src/PlatformBilling/Sweep.antt =====
-- PlatformBillingService.mrr, and sweep, the daily job: it marks the overdue invoices, suspends the
-- hotels that are late, and renews the subscriptions.
use hospitality_os.Common.{
  Bool, List, [], any, false, filterb, if◌then◌else◌, leb, length, ltb, map, none, or_else, some, ℕ,
  ◌&&◌, ◌*◌, ◌-◌, ◌==◌, ◌∷◌,
}
use hospitality_os.Common.Int.{ltb_ℤ, pos, round_div, sum_ℤ, ℤ}
use hospitality_os.Enums.{HotelStatus, SubInvoiceStatus}
use hospitality_os.PlatformBilling.{
  is_active_hotel, is_open_invoice, is_outstanding, is_overdue_invoice, issue_sub_invoice, months,
  plan_of, platform_actor,
}
use hospitality_os.Rates.{day}
use hospitality_os.Reservations.Calendar.{seen}
use hospitality_os.Store.{
  Action, Db, External, Hotel, Plan, SubInvoice, find_by, for_each, gets, hotel_keyed, modify, pure,
  record_audit, update_by, update_many, when, ◌>>=◌, ◌>>◌,
}

-- what `mrr` returns, but for the totals by currency
pub record Mrr : Type 0 where
  pub mrr_minor : ℤ
  pub paying_hotels : ℕ
  pub outstanding_minor : ℤ
  pub overdue_count : ℕ

abbrev pub is_paying : List Plan → Hotel → Bool
is_paying plans x = elim (plan_of plans x) [
  | none ↦ false
  | some p ↦ is_active_hotel x.status && ltb_ℤ (pos 0) p.price_minor
]

abbrev pub per_month : List Plan → Hotel → ℤ
per_month plans x = elim (plan_of plans x) [
  | none ↦ pos 0
  | some p ↦ round_div p.price_minor (months p.interval)
]

unfoldable pub mrr : Db → Mrr
mrr db =
    let hotels = filterb (is_paying db.plans) db.hotels in
    record {
      mrr_minor = sum_ℤ (map (per_month db.plans) hotels);
      paying_hotels = length hotels;
      outstanding_minor =
          sum_ℤ
            (map (λ x. x.amount_minor) (filterb (λ x. is_open_invoice x.status) db.sub_invoices));
      overdue_count = length (filterb (λ x. is_overdue_invoice x.status) db.sub_invoices);
    }

-- 1) of the job: OPEN past due becomes OVERDUE
abbrev pub is_past_due : (now : ℕ) → SubInvoice → Bool
is_past_due now x = is_open_invoice x.status && ltb x.due_at now

abbrev pub mark_overdue : (now : ℕ) → Action (Unit {0})
mark_overdue now = modify λ db. record db {
  sub_invoices =
      update_many (is_past_due now) (λ x. record x { status = SubInvoiceStatus.overdue })
        db.sub_invoices;
}

-- 2) of the job: the hotels to suspend, each once
abbrev pub is_active_at : List Hotel → ℕ → Bool
is_active_at hotels h = elim (find_by h hotels) [ none ↦ false | some x ↦ is_active_hotel x.status ]

abbrev pub is_late : (cutoff : ℕ) → List Hotel → SubInvoice → Bool
is_late cutoff hotels x =
    is_overdue_invoice x.status && ltb x.due_at cutoff && is_active_at hotels x.hotel_id

unfoldable pub distinct_hotels : List ℕ → List SubInvoice → List ℕ
distinct_hotels seen [] = []
distinct_hotels seen (x ∷ xs) =
    let rest = distinct_hotels seen xs in
    let later = distinct_hotels (x.hotel_id ∷ seen) xs in
    if any (λ h. h == x.hotel_id) seen then rest else x.hotel_id ∷ later

abbrev pub suspended : (now : ℕ) → Hotel → Hotel
suspended now x = record x {
  status = HotelStatus.suspended;
  suspended_at = some now;
  suspend_reason = some "Overdue subscription payment";
}

abbrev pub suspend : (now h : ℕ) → Action (Unit {0})
suspend now h =
    modify (λ db. record db { hotels = update_by h (suspended now) db.hotels })
    >> record_audit (platform_actor none h) "platform.subscription.auto_suspend" "Hotel" h

-- 3) of the job: the hotels whose period has ended
abbrev pub is_due : (now : ℕ) → List Plan → Hotel → Bool
is_due now plans x =
    is_paying plans x && (elim x.current_period_end [ none ↦ false | some t ↦ leb t now ])

abbrev pub outstanding : ℕ → List SubInvoice → ℕ
outstanding h xs = length (filterb (λ x. x.hotel_id == h && is_outstanding x.status) xs)

module _ (ext : External) (others : ℕ → Db → Db) where
  unfoldable pub renew : (now : ℕ) → Hotel → Action (Unit {0})
  unfolding issue_sub_invoice
  renew now x = do
    open_count ← gets λ db. outstanding x.id db.sub_invoices
    when (open_count == 0)
        (issue_sub_invoice ext others x.id (or_else x.current_period_end now) >>= λ _. pure tt)

  unfoldable pub sweep : (now : ℕ) → Action (Unit {0})
  unfolding distinct_hotels renew
  sweep now = do
    grace ← gets λ db. db.grace_period_days
    mark_overdue now
    late ←
        gets
          λ db. distinct_hotels [] (filterb (is_late (now - grace * day) db.hotels) db.sub_invoices)
    for_each (suspend now) late
    due ← gets λ db. filterb (is_due now db.plans) db.hotels
    for_each (renew now) due
