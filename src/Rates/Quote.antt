-- ===== src/Rates/Quote.antt =====
-- What a quote promises: its nights, its total and when it is blocked.
use hospitality_os.Common.{
  Bool, List, Option, [], ap, arith, false, length, map, none, refl, some, suc, zero, ℕ, ◌*◌, ◌+◌,
  ◌||◌, ◌∙◌, ◌∷◌, ◌≡◌, ◌≤◌,
}
use hospitality_os.Common.Int.{sum_ℤ, ℤ}
use hospitality_os.Rates.{
  Night, QuoteResult, Reason, active_plan, apply_plan, base_price_on, day, nights, quote,
  quote_nights, rate_on, reason_found, restriction, too_long, too_short, utc_day,
}
use hospitality_os.Store.{
  DailyRate, Db, External, Hotel, RatePlan, RoomType, find_by, find_own, hotel_keyed, ok,
  room_type_keyed, ◌>>=◌,
}

-- the nights of a stay from the day `d`, each at its own price
abbrev pub nights_from : (price : ℕ → ℤ) (left d : ℕ) → List Night
nights_from price zero d = []
nights_from price (suc left) d =
    record { date = d; price = price d } ∷ nights_from price left (d + 1)

abbrev pub stops : Option DailyRate → Bool
stops none = false
stops (some r) = r.stop_sell

-- some night of the stay is not for sale
abbrev pub stop_sold : (rate : ℕ → Option DailyRate) (left d : ℕ) → Bool
stop_sold rate zero d = false
stop_sold rate (suc left) d = stops (rate d) || stop_sold rate left (d + 1)

-- the row of the first night refuses arrivals, or a stay of `n` nights
abbrev pub refuses_arrival : ℕ → Option DailyRate → Bool
refuses_arrival n none = false
refuses_arrival n (some r) = r.closed_to_arrival || too_short n r.min_stay || too_long n r.max_stay

module _ (ext : External) (plan : Option RatePlan) (rt : RoomType) (rate : ℕ → Option DailyRate)
    (n : ℕ) where
  quote_nights-nightly :
      (left i d : ℕ) (why : Option Reason)
      → (quote_nights ext plan rt rate n left i d why).0
        ≡ nights_from (λ e. apply_plan ext plan (base_price_on rt (rate e))) left d
  unfolding quote_nights
  quote_nights-nightly zero i d why = refl
  quote_nights-nightly (suc left) i d why =
      ap (λ xs. record { date = d; price = apply_plan ext plan (base_price_on rt (rate d)) } ∷ xs)
        (quote_nights-nightly left (i + 1) (d + 1) (restriction n i d (rate d) why))

  later_night :
      (i d : ℕ) (r : Option DailyRate) (why : Option Reason)
      → 1 ≤ i
      → reason_found (restriction n i d r why) ≡ reason_found why || stops r
  later_night i d none why h = ground arith
  later_night i d (some r) why h = ground arith

  quote_nights-later :
      (left i d : ℕ) (why : Option Reason)
      → 1 ≤ i
      → reason_found (quote_nights ext plan rt rate n left i d why).1
        ≡ reason_found why || stop_sold rate left d
  unfolding quote_nights
  quote_nights-later zero i d why h = ground arith
  quote_nights-later (suc left) i d why h = ground (
    arith,
    later_night i d (rate d) why,
    quote_nights-later left (i + 1) (d + 1) (restriction n i d (rate d) why),
  )

  first_night :
      (d : ℕ) (r : Option DailyRate)
      → reason_found (restriction n 0 d r none) ≡ stops r || refuses_arrival n r
  first_night d none = ground arith
  first_night d (some r) = ground arith

  quote_nights-blocked :
      (left d : ℕ)
      → 1 ≤ left
      → reason_found (quote_nights ext plan rt rate n left 0 d none).1
        ≡ refuses_arrival n (rate d) || stop_sold rate left d
  unfolding quote_nights
  quote_nights-blocked zero d h = elim h [ ]
  quote_nights-blocked (suc left) d h = ground (
    arith,
    first_night d (rate d),
    quote_nights-later left 1 (d + 1) (restriction n 0 d (rate d) none),
  )

length-nights_from : (price : ℕ → ℤ) (left d : ℕ) → length (nights_from price left d) ≡ left
length-nights_from price zero d = refl
length-nights_from price (suc left) d = ap suc (length-nights_from price left (d + 1))

-- a stay has one night at least
one-le-nights : (check_in check_out : ℕ) → 1 ≤ nights check_in check_out
one-le-nights check_in check_out = omega arith

-- A quote for a room type of the hotel returns, and changes nothing. It has one entry for each
-- night, from the day of arrival on, at the day's rate or the base price, adjusted by the rate plan;
-- the total is their sum. It is blocked exactly when the first night's rate refuses the arrival or
-- the length of the stay, or some night is not for sale.
pub quote_lem :
    (ext : External) (h rt_id check_in check_out : ℕ) (plan_id : Option ℕ) (db : Db) (rt : RoomType)
    (hotel : Hotel)
    → find_own h rt_id db.room_types ≡ some rt
    → find_by h db.hotels ≡ some hotel
    → let n = nights check_in check_out in
      let first = utc_day check_in in
      let rate = λ (d : ℕ). rate_on h rt_id (first * day) check_out d db.daily_rates in
      (q : QuoteResult) × (quote ext h rt_id check_in check_out plan_id db ≡ (ok q, db))
      × (q.nights ≡ n)
      × (q.nightly
          ≡ nights_from
              (λ d. apply_plan ext (active_plan ext h plan_id db) (base_price_on rt (rate d)))
              n
              first)
      × (length q.nightly ≡ n)
      × (q.total ≡ sum_ℤ (map (λ (x : Night). x.price) q.nightly))
      × (q.currency ≡ hotel.currency)
      × (q.blocked ≡ refuses_arrival n (rate first) || stop_sold rate n first)
unfolding quote ◌>>=◌
quote_lem ext h rt_id check_in check_out plan_id db rt hotel er eh =
    let n = nights check_in check_out in
    let first = utc_day check_in in
    let rate = λ (d : ℕ). rate_on h rt_id (first * day) check_out d db.daily_rates in
    let plan = active_plan ext h plan_id db in
    let priced = quote_nights ext plan rt rate n n 0 first none in
    let nightly = quote_nights-nightly ext plan rt rate n n 0 first none in
    (
      record {
        nights = n;
        total = sum_ℤ (map (λ (x : Night). x.price) priced.0);
        currency = hotel.currency;
        nightly = priced.0;
        blocked = reason_found priced.1;
        reason = priced.1;
      },
      rw (er, eh),
      refl,
      nightly,
      ap (length {0}) nightly ∙ length-nights_from _ n first,
      refl,
      refl,
      quote_nights-blocked ext plan rt rate n n first (one-le-nights check_in check_out),
    )
