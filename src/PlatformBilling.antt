-- ===== src/PlatformBilling.antt =====
-- PlatformBillingService (apps/api/src/platform/platform-billing.service.ts): the invoices of the hotels'
-- subscriptions, their payment, and the daily job that suspends and renews.
pub mod Sweep
pub mod Issuing
pub mod Outstanding
use hospitality_os.Common.{
  Bool, List, Option, String, any, false, if◌then◌else◌, length, ltb, none, or_else, or_option,
  some, str_eq, true, ℕ, ◌&&◌, ◌*◌, ◌+◌, ◌==◌, ◌||◌, ◌∷◌,
}
use hospitality_os.Common.Int.{leb_ℤ, pos}
use hospitality_os.Enums.{ActorType, HotelStatus, PlanInterval, SubInvoiceStatus}
use hospitality_os.Housekeeping.{start}
use hospitality_os.Rates.{day}
use hospitality_os.Reservations.Release.{others}
use hospitality_os.Store.{
  Action, Actor, Db, Error, External, Hotel, Plan, SubInvoice, find_by, find_first, fresh_id, gets,
  hotel_keyed, modify, or_throw, plan_keyed, pure, record_audit, retry, sub_invoice_keyed, throw_if,
  update_by, ◌>>=◌, ◌>>◌,
}

-- `MONTHS[interval]`
abbrev pub months : PlanInterval → ℕ
months PlanInterval.monthly = 1
months PlanInterval.quarterly = 3
months PlanInterval.yearly = 12

abbrev pub is_active_hotel : HotelStatus → Bool
is_active_hotel HotelStatus.active = true
is_active_hotel _ = false

abbrev pub is_suspended : HotelStatus → Bool
is_suspended HotelStatus.suspended = true
is_suspended _ = false

abbrev pub is_open_invoice : SubInvoiceStatus → Bool
is_open_invoice SubInvoiceStatus.open_invoice = true
is_open_invoice _ = false

abbrev pub is_overdue_invoice : SubInvoiceStatus → Bool
is_overdue_invoice SubInvoiceStatus.overdue = true
is_overdue_invoice _ = false

abbrev pub is_paid_invoice : SubInvoiceStatus → Bool
is_paid_invoice SubInvoiceStatus.paid = true
is_paid_invoice _ = false

-- `{ in: [OPEN, OVERDUE] }`
abbrev pub is_outstanding : SubInvoiceStatus → Bool
is_outstanding s = is_open_invoice s || is_overdue_invoice s

-- `hotel.plan`
abbrev pub plan_of : List Plan → Hotel → Option Plan
plan_of plans hotel = elim hotel.plan_id [ none ↦ none | some i ↦ find_by i plans ]

abbrev pub plan_at : ℕ → Db → Option Plan
plan_at h db = elim (find_by h db.hotels) [ none ↦ none | some x ↦ plan_of db.plans x ]

-- `hotel.update({ where: { id }, data: { currentPeriodEnd } })`
abbrev pub set_period_end : ℕ → Option ℕ → Action (Unit {0})
set_period_end h at =
    modify
      λ db. record db { hotels = update_by h (λ x. record x { current_period_end = at }) db.hotels }

-- the row of an invoice for the period that begins at `start`
abbrev pub sub_invoice_of : External → (id number grace h start : ℕ) → Plan → SubInvoice
sub_invoice_of ext i n grace h start plan = record {
  id = i;
  hotel_id = h;
  plan_id = some plan.id;
  number = n;
  period_start = start;
  period_end = ext.add_months start (months plan.interval);
  amount_minor = plan.price_minor;
  currency = plan.currency;
  status = SubInvoiceStatus.open_invoice;
  due_at = start + grace * day;
  paid_at = none;
  method = none;
  reference = none;
}

-- `subscriptionInvoice.create({ data })`, with the unique index on the number
unfoldable pub insert_sub_invoice : SubInvoice → Action (Unit {0})
insert_sub_invoice inv = do
  taken ← gets λ db. any (λ x. x.number == inv.number) db.sub_invoices
  throw_if taken Error.unique_violation
  modify λ db. record db { sub_invoices = inv ∷ db.sub_invoices }

module _ (ext : External) (others : ℕ → Db → Db) where
  -- one attempt; other calls write `others` between the count and the insertion
  unfoldable pub try_sub_invoice : (grace h start : ℕ) → Plan → ℕ → Action SubInvoice
  unfolding insert_sub_invoice
  try_sub_invoice grace h start plan attempt = do
    n ← gets λ db. length db.sub_invoices + 1
    modify (others attempt)
    i ← fresh_id
    let inv = sub_invoice_of ext i n grace h start plan
    insert_sub_invoice inv
    pure inv

  -- for a hotel that has a plan
  unfoldable pub issue_for : (h start : ℕ) → Option Plan → Action (Option SubInvoice)
  unfolding try_sub_invoice
  issue_for h start none = pure none
  issue_for h start (some plan) =
      if leb_ℤ plan.price_minor (pos 0) then set_period_end h none >> pure none else (do
        grace ← gets λ db. db.grace_period_days
        inv ← retry 5 0 (try_sub_invoice grace h start plan)
        set_period_end h (some inv.period_end)
        pure (some inv))

  -- `issueInvoice`
  unfoldable pub issue_sub_invoice : (h start : ℕ) → Action (Option SubInvoice)
  unfolding issue_for
  issue_sub_invoice h start = gets (plan_at h) >>= issue_for h start

-- the invoice once it is paid
abbrev pub paid_invoice : (now : ℕ) → Option String → String → SubInvoice → SubInvoice
paid_invoice now reference method inv = record inv {
  status = SubInvoiceStatus.paid;
  paid_at = some now;
  method = some method;
  reference = or_option reference inv.reference;
}

-- the paid-through date, which never goes back
abbrev pub later_of : Option ℕ → ℕ → ℕ
later_of none at = at
later_of (some t) at = if ltb at t then t else at

-- the hotel once an invoice of it is paid
unfoldable pub reinstated : External → SubInvoice → Hotel → Hotel
reinstated ext inv x =
    let through = some (later_of x.current_period_end inv.period_end) in
    if is_suspended x.status && ext.mentions (or_else x.suspend_reason "") "subscription"
    then record x {
      current_period_end = through;
      status = HotelStatus.active;
      suspended_at = none;
      suspend_reason = none;
    }
    else record x { current_period_end = through }

abbrev pub platform_actor : Option ℕ → ℕ → Actor
platform_actor by h = record { id = by; type = ActorType.system; role = none; hotel_id = h }

-- the writes of a payment
unfoldable pub settle_invoice :
    External → (now : ℕ) → Option ℕ → SubInvoice → Option String → String → Action SubInvoice
unfolding reinstated
settle_invoice ext now by inv reference method = do
  modify λ db. record db {
    sub_invoices = update_by inv.id (paid_invoice now reference method) db.sub_invoices;
  }
  modify λ db. record db { hotels = update_by inv.hotel_id (reinstated ext inv) db.hotels }
  record_audit (platform_actor by inv.hotel_id) "platform.subscription.paid" "SubscriptionInvoice"
      inv.id
  pure (paid_invoice now reference method inv)

-- `markPaid`
unfoldable pub mark_paid :
    External → (now : ℕ) → Option ℕ → ℕ → Option String → String → Action SubInvoice
unfolding settle_invoice
mark_paid ext now by i reference method = do
  inv ← or_throw (← gets λ db. find_by i db.sub_invoices) Error.not_found
  (if is_paid_invoice inv.status then pure inv else settle_invoice ext now by inv reference method)

-- `handleWebhook` once the signature is verified and the body is read: what the gateway reports
unfoldable pub settle_reported :
    External
    → (now : ℕ) → (success : Bool) → (reference : Option String) → String
    → Action (Unit {0})
unfolding mark_paid
settle_reported ext now false reference provider = pure tt
settle_reported ext now true none provider = pure tt
settle_reported ext now true (some reference) provider = do
  found ← gets λ db.
      find_first (λ x. elim x.reference [ none ↦ false | some r ↦ str_eq r reference ])
        db.sub_invoices
  (elim found [
    | none ↦ pure tt
    | some inv ↦
        if is_paid_invoice inv.status
        then pure tt
        else mark_paid ext now none inv.id (some reference) provider >>= λ _. pure tt
  ])
