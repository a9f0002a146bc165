-- ===== src/NightAudit/Checklist.antt =====
-- getPreAuditChecklist and listRuns. Names and display texts of the entries are left out, with the
-- numbers that the code fills in as constants.
use hospitality_os.Common.{
  Bool, List, false, filterb, length, ltb, map, or_else, take, true, ℕ, ◌&&◌, ◌+◌, ◌==◌,
}
use hospitality_os.Common.Int.{sum_ℤ, ℤ}
use hospitality_os.Enums.{OrderStatus}
use hospitality_os.NightAudit.{is_no_show, is_staying, start_of_day}
use hospitality_os.Rates.{day}
use hospitality_os.Store.{
  Action, Db, Error, NightAuditRun, Reservation, find_by, gets, hotel_keyed, or_throw, pure, ◌>>=◌,
}

-- `{ hotelId, status: CHECKED_IN, checkOutDate: { lt: dayEnd } }`
abbrev pub is_overstay : (hotel_id day_end : ℕ) → Reservation → Bool
is_overstay h day_end r = is_staying h r && ltb r.check_out_date day_end

abbrev pub is_open_status : OrderStatus → Bool
is_open_status OrderStatus.open_order = true
is_open_status _ = false

pub record Checklist : Type 0 where
  pub business_date : ℕ
  pub next_business_date : ℕ
  pub in_house_guests : ℕ
  pub pending_arrivals : List ℕ
  pub pending_departures : List ℕ
  pub open_orders : List ℕ
  pub open_total : ℤ
  pub ready_to_run : Bool

unfoldable pub pre_audit_checklist : (now hotel_id : ℕ) → Action Checklist
pre_audit_checklist now h = do
  hotel ← or_throw (← gets λ db. find_by h db.hotels) Error.not_found
  let day_start = start_of_day (or_else hotel.business_date (start_of_day now))
  arrivals ← gets λ db. take 10 (filterb (is_no_show h (day_start + day)) db.reservations)
  departures ← gets λ db. take 10 (filterb (is_overstay h (day_start + day)) db.reservations)
  orders ← gets λ db. take 10 (filterb (λ o. o.hotel_id == h && is_open_status o.status) db.orders)
  guests ← gets λ db. length (filterb (is_staying h) db.reservations)
  pure (record {
    business_date = day_start;
    next_business_date = day_start + day;
    in_house_guests = guests;
    pending_arrivals = map (λ r. r.id) arrivals;
    pending_departures = map (λ r. r.id) departures;
    open_orders = map (λ o. o.id) orders;
    open_total = sum_ℤ (map (λ o. o.total) orders);
    ready_to_run = length arrivals == 0 && length departures == 0 && length orders == 0;
  })

-- the newest ninety runs
abbrev pub list_runs : ℕ → Db → List NightAuditRun
list_runs h db = take 90 (filterb (λ r. r.hotel_id == h) db.night_runs)
