-- ===== src/Rates.antt =====
-- PricingService.quote (apps/api/src/rates/pricing.service.ts) and nightsBetween
-- (apps/api/src/reservations/pricing.ts): the price of each night of a stay, and the restrictions
-- on the stay.
pub mod Quote
use hospitality_os.Common.{
  Bool, List, Option, String, [], false, if◌then◌else◌, leb, ltb, map, max, none, some, suc, true,
  zero, ℕ, ◌&&◌, ◌*◌, ◌+◌, ◌-◌, ◌/◌, ◌==◌, ◌∷◌,
}
use hospitality_os.Common.Int.{max_ℤ, pos, sum_ℤ, ℤ, ◌+ℤ◌}
use hospitality_os.Store.{
  Action, Adjustment, DailyRate, Db, Error, External, RatePlan, RoomType, find_by, find_own, gets,
  hotel_keyed, or_throw, pure, rate_plan_keyed, room_type_keyed, ◌>>=◌, ◌>>◌,
}

-- 86_400_000
abbrev pub day : ℕ
day = 86400000

-- the day of a date, counted from the epoch (`Date.UTC` of its UTC year, month and day)
abbrev pub utc_day : ℕ → ℕ
utc_day t = t / day

-- `Math.max(1, …)` of the whole days between; a negative number of days is below 1, as 0 is
abbrev pub nights : ℕ → ℕ → ℕ
nights check_in check_out = max 1 (utc_day check_out - utc_day check_in)

-- the text of `reason`, as the restriction that it names
pub data Reason : Type 0 where
  stop_sell_on closed_to_arrival_on : ℕ → Reason
  minimum_stay maximum_stay : ℕ → Reason

pub record Night : Type 0 where
  pub date : ℕ
  pub price : ℤ

pub record QuoteResult : Type 0 where
  pub nights : ℕ
  pub total : ℤ
  pub currency : String
  pub nightly : List Night
  pub blocked : Bool
  pub reason : Option Reason

-- `byDay.get(key)` over the rows that `dailyRate.findMany` returns
abbrev pub rate_on : (hotel_id room_type_id from to d : ℕ) → List DailyRate → Option DailyRate
rate_on h rt from to d [] = none
rate_on h rt from to d (r ∷ rs) =
    if r.hotel_id == h
      && r.room_type_id == rt
      && leb from r.date
      && ltb r.date to
      && utc_day r.date == d
    then some r
    else rate_on h rt from to d rs

-- The restrictions of the night with index `i` in a stay of `n` nights, the later ones first.
-- A minimum or a maximum of 0 is no restriction.
abbrev pub too_short : ℕ → Option ℕ → Bool
too_short n none = false
too_short n (some m) = ltb n m

abbrev pub too_long : ℕ → Option ℕ → Bool
too_long n none = false
too_long n (some m) = ltb 0 m && ltb m n

abbrev pub limit : Option ℕ → ℕ
limit none = 0
limit (some m) = m

-- the four tests of the loop on one night's row: the last that holds gives the reason
abbrev pub restriction : (n i d : ℕ) → Option DailyRate → Option Reason → Option Reason
restriction n i d none before = before
restriction n i d (some r) before =
    if i == 0 && too_long n r.max_stay
    then some (Reason.maximum_stay (limit r.max_stay))
    else if i == 0 && too_short n r.min_stay
    then some (Reason.minimum_stay (limit r.min_stay))
    else if i == 0 && r.closed_to_arrival
    then some (Reason.closed_to_arrival_on d)
    else if r.stop_sell
    then some (Reason.stop_sell_on d)
    else before

abbrev pub reason_found : Option Reason → Bool
reason_found none = false
reason_found (some r) = true

abbrev pub base_price_on : RoomType → Option DailyRate → ℤ
base_price_on rt none = rt.base_price
base_price_on rt (some r) = r.price

module _ (ext : External) where
  abbrev adjust : Adjustment → ℤ → ℤ → ℤ
  adjust Adjustment.absolute v price = v
  adjust Adjustment.fixed v price = max_ℤ (pos 0) (price +ℤ v)
  adjust Adjustment.percent v price = max_ℤ (pos 0) (ext.round_percent price v)

  -- `applyPlan`
  unfoldable pub apply_plan : Option RatePlan → ℤ → ℤ
  apply_plan none price = price
  apply_plan (some p) price = adjust p.adjustment_type p.adjustment_value price

  -- The loop over the nights: `left` of them remain, the next has the index `i` and the day `d`.
  unfoldable pub quote_nights :
      (plan : Option RatePlan) (rt : RoomType) (rate : ℕ → Option DailyRate) (n left i d : ℕ)
      → Option Reason
      → List Night × Option Reason
  quote_nights plan rt rate n zero i d reason = ([], reason)
  quote_nights plan rt rate n (suc left) i d reason =
      let (nightly, last) =
        quote_nights plan rt rate n left (i + 1) (d + 1) (restriction n i d (rate d) reason) in
      (record { date = d; price = apply_plan plan (base_price_on rt (rate d)) } ∷ nightly, last)

  -- the rate plan that is asked for, if the hotel has it and it is active
  abbrev pub active_plan : ℕ → Option ℕ → Db → Option RatePlan
  active_plan h none db = none
  active_plan h (some i) db = elim (find_own h i db.rate_plans) [
    | none ↦ none
    | some p ↦ if p.active then some p else none
  ]

  unfoldable pub quote :
      (hotel_id room_type_id check_in check_out : ℕ) → Option ℕ → Action QuoteResult
  unfolding quote_nights apply_plan
  quote h rt check_in check_out plan_id = do
    room_type ← or_throw (← gets λ db. find_own h rt db.room_types) Error.not_found
    hotel ← or_throw (← gets λ db. find_by h db.hotels) Error.not_found
    plan ← gets λ db. active_plan h plan_id db
    rates ← gets λ db. db.daily_rates
    let n = nights check_in check_out
    let first = utc_day check_in
    let priced =
        quote_nights plan room_type (λ d. rate_on h rt (first * day) check_out d rates) n n 0 first
          none
    pure (record {
      nights = n;
      total = sum_ℤ (map (λ (x : Night). x.price) priced.0);
      currency = hotel.currency;
      nightly = priced.0;
      blocked = reason_found priced.1;
      reason = priced.1;
    })
