-- ===== src/Examples/Stays.antt =====
-- The theorems on reservations, rates and the front desk, at concrete calls.
use hospitality_os.Common.{
  List, [], any, arith, false, length, map, none, refl, some, true, ℕ, ◌*◌, ◌||◌, ◌∷◌, ◌≡◌,
}
use hospitality_os.Common.Int.{pos, round_div, sum_ℤ, ◌+ℤ◌}
use hospitality_os.Enums.{ReservationStatus}
use hospitality_os.Examples.Data.{
  calls, double, ext, hotel, in_room_a, manager, room_a, room_b, start_db, stay, with_stay,
}
use hospitality_os.FrontDesk.{check_out}
use hospitality_os.FrontDesk.Turnover.{check_out_lem, checked_out_db}
use hospitality_os.Idempotency.{run}
use hospitality_os.Ledger.Books.{IsBalanced}
use hospitality_os.Payments.{record_payment}
use hospitality_os.Rates.{
  Night, QuoteResult, apply_plan, base_price_on, day, nights, quote, quote_nights, rate_on,
}
use hospitality_os.Rates.Quote.{nights_from, quote_lem, refuses_arrival, stop_sold}
use hospitality_os.Reservations.Availability.{find_available_rooms, keeps_busy}
use hospitality_os.Reservations.Cancel.{cancel, is_checked_out}
use hospitality_os.Reservations.Constraint.{has_overlap}
use hospitality_os.Reservations.Create.{book_room, create, create_inner, try_rooms, upsert_guest}
use hospitality_os.Reservations.Offer.{
  accepts, booked, booking, first_booked, free-booked, try_rooms_lem,
}
use hospitality_os.Reservations.Placing.{create_inner_lem}
use hospitality_os.Reservations.Release.{cancel_lem, cancelled_db, others}
use hospitality_os.Reservations.Status.{Steps}
use hospitality_os.Reservations.Sweep.{distinct_ids}
use hospitality_os.Service.Calls.{Call, run_calls}
use hospitality_os.Service.Invariants.{run_calls-IsBalanced}
use hospitality_os.Service.Lifecycle.{run_calls-Steps, run_calls-checked_out}
use hospitality_os.Store.{
  Db, Reservation, find_by, find_first, ok, reservation_keyed, update_by, ◌>>=◌,
}

-- two reservations were booked, the second on the other room, and one again after the cancellation
two_rooms : length (run_calls ext calls start_db).reservations ≡ 3
unfolding run_calls create create_inner run quote upsert_guest record_payment cancel ◌>>=◌ find_by
    round_div ◌+ℤ◌ has_overlap update_by
two_rooms = refl

nothing_booked : IsBalanced start_db
unfolding find_by
nothing_booked = record {
  distinct = tt;
  known = λ i f e. ground (arith, e);
  settled = λ i f e. absurd (ground (arith, e));
  unused = λ i h. (refl, refl);
}

run_calls-IsBalanced_example : IsBalanced (run_calls ext calls start_db)
run_calls-IsBalanced_example = run_calls-IsBalanced ext calls start_db nothing_booked

quote_lem_example :
    let rate = λ (d : ℕ). rate_on 1 2 (2 * day) 345600000 d [] in
    (q : QuoteResult) × (quote ext 1 2 172800000 345600000 none start_db ≡ (ok q, start_db))
    × (q.nights ≡ nights 172800000 345600000)
    × (q.nightly ≡ nights_from (λ d. apply_plan ext none (base_price_on double (rate d))) 2 2)
    × (length q.nightly ≡ 2)
    × (q.total ≡ sum_ℤ (map (λ (x : Night). x.price) q.nightly))
    × (q.currency ≡ "NGN")
    × (q.blocked ≡ refuses_arrival 2 (rate 2) || stop_sold rate 2 2)
unfolding find_by
quote_lem_example = quote_lem ext 1 2 172800000 345600000 none start_db double hotel refl refl

free-booked_example :
    let row =
      booking manager stay ReservationStatus.confirmed none 40 (pos 40000) "NGN" 100 room_a in
    try_rooms
      (book_room manager stay ReservationStatus.confirmed none 40 (pos 40000) "NGN")
      (find_available_rooms 1 172800000 345600000 (some 2) start_db)
      start_db
    ≡ (ok row, booked manager ReservationStatus.confirmed row start_db)
unfolding find_available_rooms has_overlap
free-booked_example =
    free-booked manager stay ReservationStatus.confirmed none 40 (pos 40000) "NGN" 1 (some 2) room_a
      (room_b ∷ []) start_db refl refl

try_rooms_lem_example :
    try_rooms
      (book_room manager stay ReservationStatus.confirmed none 40 (pos 40000) "NGN")
      (room_a ∷ room_b ∷ [])
      (with_stay ReservationStatus.confirmed)
    ≡ first_booked manager stay ReservationStatus.confirmed none 40
        (pos 40000)
        "NGN"
        (with_stay ReservationStatus.confirmed)
        (find_first
          (accepts manager stay ReservationStatus.confirmed none 40
            (pos 40000)
            "NGN"
            (with_stay ReservationStatus.confirmed))
          (room_a ∷ room_b ∷ []))
try_rooms_lem_example =
    try_rooms_lem manager stay ReservationStatus.confirmed none 40 (pos 40000) "NGN"
      (room_a ∷ room_b ∷ []) (with_stay ReservationStatus.confirmed)

cancel_lem_example :
    (cancel manager 50 "plans" (with_stay ReservationStatus.confirmed) ≡ (
      ok tt,
      cancelled_db manager
          (in_room_a ReservationStatus.confirmed)
          "plans"
          (with_stay ReservationStatus.confirmed),
    ))
    × ((room from to : ℕ)
        → any
            (keeps_busy room from to)
            (cancel manager 50 "plans" (with_stay ReservationStatus.confirmed)).1.reservations
          ≡ any
              (keeps_busy room from to)
              (others 50 (with_stay ReservationStatus.confirmed).reservations))
unfolding find_by has_overlap
cancel_lem_example =
    cancel_lem manager 50 "plans" (with_stay ReservationStatus.confirmed)
      (in_room_a ReservationStatus.confirmed) refl refl refl

check_out_lem_example : check_out 7 manager 50 (with_stay ReservationStatus.checked_in) ≡ (
  ok (pos 40000),
  checked_out_db 7 manager
      (in_room_a ReservationStatus.checked_in)
      3
      (pos 40000)
      (with_stay ReservationStatus.checked_in),
)
unfolding find_by has_overlap
check_out_lem_example =
    check_out_lem 7 manager 50 (with_stay ReservationStatus.checked_in)
      (in_room_a ReservationStatus.checked_in) 3 refl refl refl refl

-- the guest of the stay leaves, the desk then tries to cancel the reservation, and the day is closed
abbrev departure : List Call
departure =
    Call.guest_check_out 7 manager 50
    ∷ Call.cancel_reservation manager 50 "late"
    ∷ Call.close_all 8
    ∷ []

run_calls-Steps_example :
    (r' : Reservation) × (find_by 50
        (run_calls ext departure (with_stay ReservationStatus.checked_in)).reservations
      ≡ some r')
    × Steps ReservationStatus.checked_in r'.status
unfolding find_by has_overlap distinct_ids
run_calls-Steps_example =
    run_calls-Steps ext departure (with_stay ReservationStatus.checked_in) 50
      (in_room_a ReservationStatus.checked_in) refl refl refl (omega arith) refl

run_calls-checked_out_example :
    (r' : Reservation) × (find_by 50
        (run_calls ext departure (with_stay ReservationStatus.checked_out)).reservations
      ≡ some r')
    × (is_checked_out r'.status ≡ true)
unfolding find_by has_overlap distinct_ids
run_calls-checked_out_example =
    run_calls-checked_out ext departure (with_stay ReservationStatus.checked_out) 50
      (in_room_a ReservationStatus.checked_out) refl refl refl (omega arith) refl refl

-- the quote of the stay
abbrev stay_quote : QuoteResult
stay_quote = record {
  nights = 2;
  total = pos 40000;
  currency = "NGN";
  nightly = record { date = 2; price = pos 20000 } ∷ record { date = 3; price = pos 20000 } ∷ [];
  blocked = false;
  reason = none;
}

create_inner_lem_example :
    (guest : ℕ) × (db1 : Db) × (upsert_guest ext 1 stay.guest start_db ≡ (ok guest, db1))
    × (db1.reservations ≡ [])
    × (create_inner ext 0 15 manager stay ReservationStatus.confirmed start_db ≡ (
        let row =
          booking manager stay ReservationStatus.confirmed none guest
            (pos 40000)
            "NGN"
            db1.next_id
            room_a in
        (ok row, booked manager ReservationStatus.confirmed row db1)))
unfolding find_by has_overlap find_available_rooms quote quote_nights apply_plan ◌+ℤ◌ ◌>>=◌
create_inner_lem_example =
    create_inner_lem ext 0 15 manager stay ReservationStatus.confirmed double hotel stay_quote
      room_a (room_b ∷ []) start_db refl refl refl refl refl refl refl
