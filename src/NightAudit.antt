-- ===== src/NightAudit.antt =====
-- NightAuditService (apps/api/src/night-audit/night-audit.service.ts): the daily close. It marks the
-- confirmed guests that have not come, counts the day, and rolls the hotel's business date.
pub mod Checklist
pub mod Close
pub mod Nights
use hospitality_os.Common.{
  Bool, List, [], false, filterb, if◌then◌else◌, is_some, leb, length, ltb, map, not, or_else, some,
  true, ℕ, ◌%◌, ◌&&◌, ◌+◌, ◌-◌, ◌==◌, ◌∷◌,
}
use hospitality_os.Common.Int.{sum_ℤ}
use hospitality_os.Enums.{ReservationStatus, RoomStatus}
use hospitality_os.FrontDesk.{is_checked_in}
use hospitality_os.Orders.{in_house}
use hospitality_os.Rates.{day}
use hospitality_os.Reservations.Cancel.{system_actor}
use hospitality_os.Reservations.Constraint.{add_history, update_reservation, with_status}
use hospitality_os.Store.{
  Action, Actor, Db, Error, External, Hotel, NightSummary, Reservation, find_by, for_each, fresh_id,
  gets, hotel_keyed, modify, or_throw, pure, record_audit, transaction, update_by, ◌>>=◌, ◌>>◌,
}

-- `startOfDay(d)`
abbrev pub start_of_day : ℕ → ℕ
start_of_day d = d - d % day

abbrev pub in_day : (day_start at : ℕ) → Bool
in_day day_start at = leb day_start at && ltb at (day_start + day)

abbrev pub is_confirmed : ReservationStatus → Bool
is_confirmed ReservationStatus.confirmed = true
is_confirmed _ = false

-- `{ hotelId, status: CONFIRMED, checkInDate: { lt: dayEnd } }`
abbrev pub is_no_show : (hotel_id day_end : ℕ) → Reservation → Bool
is_no_show h day_end r = r.hotel_id == h && is_confirmed r.status && ltb r.check_in_date day_end

-- `{ hotelId, status: CHECKED_IN }`
abbrev pub is_staying : ℕ → Reservation → Bool
is_staying h r = r.hotel_id == h && is_checked_in r.status

abbrev pub is_occupied : RoomStatus → Bool
is_occupied RoomStatus.occupied = true
is_occupied _ = false

-- the body of the loop over the no-shows
unfoldable pub mark_no_show : Actor → Reservation → Action (Unit {0})
mark_no_show actor r = transaction do
  update_reservation r.id (with_status ReservationStatus.no_show)
  add_history r.id (some ReservationStatus.confirmed) ReservationStatus.no_show actor.id
      "night audit no-show"

-- what `run` returns
pub record CloseResult : Type 0 where
  pub business_date : ℕ
  pub next_business_date : ℕ
  pub summary : NightSummary
  pub run_id : ℕ

module _ (ext : External) where
  -- the counts of the day
  unfoldable pub summarise : (hotel_id day_start no_shows : ℕ) → Db → NightSummary
  summarise h day_start no_shows db =
      let total = length (filterb (λ r. r.hotel_id == h && not (is_some r.deleted_at)) db.rooms) in
      let occupied = length (filterb (λ r. r.hotel_id == h && is_occupied r.status) db.rooms) in
      record {
        arrivals =
            length
              (filterb (λ r. r.hotel_id == h && in_day day_start r.check_in_date) db.reservations);
        departures =
            length
              (filterb (λ r. r.hotel_id == h && in_day day_start r.check_out_date) db.reservations);
        in_house = length (filterb (is_staying h) db.reservations);
        no_shows = no_shows;
        occupancy_pct = if ltb 0 total then ext.percent_of occupied total else 0;
        revenue_collected = sum_ℤ (
            map (λ p. p.base_amount)
              (filterb (λ p. p.hotel_id == h && in_day day_start (ext.paid_at p.id)) db.payments));
      }

  -- the transaction that stores the run and rolls the date
  unfoldable pub roll : (hotel_id day_start : ℕ) → NightSummary → Action ℕ
  roll h day_start summary = transaction do
    i ← fresh_id
    modify λ db. record db {
      night_runs =
          record { id = i; hotel_id = h; business_date = day_start; summary = summary }
          ∷ db.night_runs;
      hotels = update_by h (λ x. record x { business_date = some (day_start + day) }) db.hotels;
    }
    pure i

  -- the steps after the loop
  unfoldable pub finish : Actor → (day_start no_shows : ℕ) → Action CloseResult
  unfolding summarise roll
  finish actor day_start no_shows = do
    summary ← gets (summarise actor.hotel_id day_start no_shows)
    i ← roll actor.hotel_id day_start summary
    record_audit actor "night_audit.run" "NightAuditRun" i
    pure (record {
      business_date = day_start;
      next_business_date = day_start + day;
      summary = summary;
      run_id = i;
    })

  -- the close of one business date, which begins at `day_start`
  unfoldable pub close_day : Actor → ℕ → Action CloseResult
  unfolding mark_no_show finish
  close_day actor day_start = do
    late ← gets λ db. filterb (is_no_show actor.hotel_id (day_start + day)) db.reservations
    for_each (mark_no_show actor) late
    finish actor day_start (length late)

  -- `run`
  unfoldable pub run_audit : (now : ℕ) → Actor → Action CloseResult
  unfolding close_day
  run_audit now actor = do
    hotel ← or_throw (← gets λ db. find_by actor.hotel_id db.hotels) Error.not_found
    close_day actor (start_of_day (or_else hotel.business_date (start_of_day now)))

  -- the loop of the cron job: an audit that throws is logged and passed over
  unfoldable pub audit_hotels : (now : ℕ) → List Hotel → Db → Db
  unfolding run_audit
  audit_hotels now [] db = db
  audit_hotels now (h ∷ hs) db = audit_hotels now hs (run_audit now (system_actor h.id) db).1

  unfoldable pub nightly : (now : ℕ) → Db → Db
  unfolding audit_hotels
  nightly now db = audit_hotels now db.hotels db
