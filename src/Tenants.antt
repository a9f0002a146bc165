-- ===== src/Tenants.antt =====
-- PlatformService (apps/api/src/platform/platform.service.ts): what the platform's administrators do
-- with a hotel: approval, suspension, the plan and the trial.
pub mod Unique
pub mod Served
pub mod Standing
pub mod Kept
pub mod Invoiced
pub mod Licensed
pub mod Paid
pub mod Renewals
pub mod Standings
use hospitality_os.Common.{
  Bool, Option, String, false, if◌then◌else◌, is_some, ltb, none, not, or_option, some, true, ℕ,
  ◌&&◌, ◌*◌, ◌+◌,
}
use hospitality_os.Common.Int.{ltb_ℤ, pos}
use hospitality_os.Enums.{ActorType, HotelStatus}
use hospitality_os.PlatformBilling.{is_active_hotel, issue_sub_invoice}
use hospitality_os.Rates.{day}
use hospitality_os.Reservations.Release.{others}
use hospitality_os.Store.{
  Action, Actor, Db, Error, External, Hotel, find_by, gets, hotel_keyed, modify, or_throw,
  plan_keyed, pure, record_audit, update_by, when, ◌>>=◌, ◌>>◌,
}

abbrev pub admin_actor : (admin_id hotel_id : ℕ) → Actor
admin_actor by h = record { id = some by; type = ActorType.system; role = none; hotel_id = h }

abbrev pub must_find : ℕ → Action Hotel
must_find h = gets (λ db. find_by h db.hotels) >>= λ found. or_throw found Error.not_found

abbrev pub update_hotel : ℕ → (Hotel → Hotel) → Action (Unit {0})
update_hotel h g = modify λ db. record db { hotels = update_by h g db.hotels }

abbrev pub approved_hotel : (now plan_id : ℕ) → Hotel → Hotel
approved_hotel now plan x = record x {
  status = HotelStatus.active;
  approved = true;
  approval_requested = false;
  approved_at = some now;
  suspended_at = none;
  suspend_reason = none;
  plan_id = some plan;
}

abbrev pub suspended_for : (now : ℕ) → String → Hotel → Hotel
suspended_for now reason x = record x {
  status = HotelStatus.suspended;
  suspended_at = some now;
  suspend_reason = some reason;
}

-- `read` is the row that was found
abbrev pub reactivated : (read : Hotel) → Hotel → Hotel
reactivated read x = record x {
  status = if read.approved then HotelStatus.active else HotelStatus.trial;
  suspended_at = none;
  suspend_reason = none;
}

-- the start of the days that a trial is extended by
abbrev pub trial_base : (now : ℕ) → Option ℕ → ℕ
trial_base now none = now
trial_base now (some t) = if ltb now t then t else now

module _ (ext : External) (others : ℕ → Db → Db) where
  unfoldable pub approve_hotel : (now admin h : ℕ) → (plan_id : Option ℕ) → Action (Unit {0})
  unfolding issue_sub_invoice
  approve_hotel now admin h plan = do
    hotel ← must_find h
    p ← or_throw (or_option plan hotel.plan_id) Error.bad_request
    update_hotel h (approved_hotel now p)
    record_audit (admin_actor admin h) "platform.hotel.approve" "Hotel" h
    issue_sub_invoice ext others h now
    pure tt

  -- a hotel that is active, on a paid plan and without a subscription gets one
  unfoldable pub set_plan : (now admin h plan_id : ℕ) → Action (Unit {0})
  unfolding issue_sub_invoice
  set_plan now admin h plan_id = do
    hotel ← must_find h
    plan ← or_throw (← gets λ db. find_by plan_id db.plans) Error.not_found
    update_hotel h (λ x. record x { plan_id = some plan_id })
    record_audit (admin_actor admin h) "platform.hotel.set_plan" "Hotel" h
    when
        (is_active_hotel hotel.status
          && ltb_ℤ (pos 0) plan.price_minor
          && not (is_some hotel.current_period_end))
        (issue_sub_invoice ext others h now >>= λ _. pure tt)

unfoldable pub suspend_hotel : (now admin h : ℕ) → String → Action (Unit {0})
suspend_hotel now admin h reason = do
  must_find h
  update_hotel h (suspended_for now reason)
  record_audit (admin_actor admin h) "platform.hotel.suspend" "Hotel" h

unfoldable pub reactivate_hotel : (admin h : ℕ) → Action (Unit {0})
reactivate_hotel admin h = do
  hotel ← must_find h
  update_hotel h (reactivated hotel)
  record_audit (admin_actor admin h) "platform.hotel.reactivate" "Hotel" h

unfoldable pub cancel_hotel : (admin h : ℕ) → Action (Unit {0})
cancel_hotel admin h = do
  must_find h
  update_hotel h (λ x. record x { status = HotelStatus.cancelled })
  record_audit (admin_actor admin h) "platform.hotel.cancel" "Hotel" h

unfoldable pub extend_trial : (now admin h days : ℕ) → Action (Unit {0})
extend_trial now admin h days = do
  hotel ← must_find h
  update_hotel h
      (λ x. record x { trial_ends_at = some (trial_base now hotel.trial_ends_at + days * day) })
  record_audit (admin_actor admin h) "platform.hotel.extend_trial" "Hotel" h

-- the owner asks to be approved; the result tells whether the hotel was already
unfoldable pub request_approval : (user : Option ℕ) → (h : ℕ) → Action Bool
request_approval user h = do
  hotel ← must_find h
  (if hotel.approved then pure true else (do
    update_hotel h (λ x. record x { approval_requested = true })
    record_audit (record { id = user; type = ActorType.user; role = none; hotel_id = h })
        "platform.hotel.request_approval" "Hotel" h
    pure false))
