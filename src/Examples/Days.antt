-- ===== src/Examples/Days.antt =====
-- The theorems on the calendar, the holds and the night audit on concrete databases.
use hospitality_os.Common.{[], any, false, none, refl, some, true, ◌∷◌, ◌≡◌}
use hospitality_os.Common.Int.{pos}
use hospitality_os.Enums.{ReservationStatus}
use hospitality_os.Examples.Data.{
  ext, hotel, in_room_a, manager, room_a, room_b, start_db, stay, with_stay,
}
use hospitality_os.NightAudit.{is_no_show, run_audit, summarise}
use hospitality_os.NightAudit.Close.{closed_db, date_of, run_audit_lem, summary_of}
use hospitality_os.NightAudit.Nights.{night_after_night, night_after_night-date_of}
use hospitality_os.Reservations.Calendar.{
  calendar, occupy, reserve_first, seen, try_rooms-refines, vacant,
}
use hospitality_os.Reservations.Cancel.{cancel, is_expired_hold, release_expired_holds}
use hospitality_os.Reservations.Constraint.{has_overlap}
use hospitality_os.Reservations.Create.{CreateDto, book_room, try_rooms}
use hospitality_os.Reservations.Holds.{cancelled, release_expired_holds_lem}
use hospitality_os.Reservations.Reopening.{book_room-cancel, cancel-refines, released, undo}
use hospitality_os.Reservations.Sweep.{distinct_ids}
use hospitality_os.Store.{Db, Hotel, find_by, ok, update_many}

abbrev short_stay : CreateDto
short_stay = record stay { check_in = 5; check_out = 8 }

try_rooms-refines_example :
    seen (
      try_rooms
        (book_room manager stay ReservationStatus.confirmed none 40 (pos 40000) "NGN")
        (room_a ∷ room_b ∷ [])
        (with_stay ReservationStatus.confirmed))
    ≡ reserve_first 172800000 345600000
        (3 ∷ 4 ∷ [])
        (calendar (with_stay ReservationStatus.confirmed).reservations)
unfolding has_overlap
try_rooms-refines_example =
    try_rooms-refines manager stay ReservationStatus.confirmed none 40 (pos 40000) "NGN"
      (room_a ∷ room_b ∷ []) (with_stay ReservationStatus.confirmed) refl refl

-- the second room is taken for three moments, since the first one is
taken_next :
    reserve_first 5 8 (3 ∷ 4 ∷ []) (occupy (λ i t. false) 3 6 7)
    ≡ (true, occupy (occupy (λ i t. false) 3 6 7) 4 5 8)
unfolding reserve_first vacant
taken_next = refl

cancel-refines_example :
    seen (cancel manager 50 "plans" (with_stay ReservationStatus.confirmed)) ≡ (
      true,
      released
          (in_room_a ReservationStatus.confirmed)
          (calendar (with_stay ReservationStatus.confirmed).reservations),
    )
unfolding has_overlap
cancel-refines_example =
    cancel-refines manager 50 "plans" (with_stay ReservationStatus.confirmed)
      (in_room_a ReservationStatus.confirmed) refl refl refl refl

book_room-cancel_example :
    undo manager "plans" (
      book_room manager short_stay ReservationStatus.confirmed none 40
        (pos 40000)
        "NGN"
        room_a
        (with_stay ReservationStatus.confirmed))
    ≡ (true, calendar (with_stay ReservationStatus.confirmed).reservations)
unfolding has_overlap vacant calendar
book_room-cancel_example =
    book_room-cancel manager short_stay ReservationStatus.confirmed none 40 (pos 40000) "NGN"
      "plans" room_a (with_stay ReservationStatus.confirmed) refl refl refl refl

-- two holds, of which one has run out
abbrev with_holds : Db
with_holds = record start_db {
  reservations =
      record (in_room_a ReservationStatus.held) { hold_expires_at = some 5 }
      ∷ record (in_room_a ReservationStatus.held) {
        id = 60;
        room_id = some 4;
        hold_expires_at = some 50;
      }
      ∷ [];
}

release_expired_holds_lem_example :
    let (count, db') = release_expired_holds 10 with_holds in
    (count ≡ 1)
    × (db'.reservations ≡ update_many (is_expired_hold 10) cancelled with_holds.reservations)
    × (any (is_expired_hold 10) db'.reservations ≡ false)
unfolding distinct_ids has_overlap
release_expired_holds_lem_example = release_expired_holds_lem 10 with_holds refl refl

-- the hotel is on the third day, and the guest of the stay has not come
abbrev third_day : Hotel
third_day = record hotel { business_date = some 172800000 }

abbrev on_third_day : Db
on_third_day = record (with_stay ReservationStatus.confirmed) { hotels = third_day ∷ [] }

run_audit_lem_example :
    let (r, db') = run_audit ext 0 manager on_third_day in
    (r
      ≡ ok (record {
        business_date = 172800000;
        next_business_date = 259200000;
        summary = summary_of ext manager 172800000 on_third_day;
        run_id = 100;
      }))
    × (db' ≡ closed_db ext manager 172800000 on_third_day)
    × (any (is_no_show 1 259200000) db'.reservations ≡ false)
    × (date_of 1 db' ≡ some 259200000)
unfolding find_by distinct_ids has_overlap
run_audit_lem_example = run_audit_lem ext 0 manager on_third_day third_day refl refl refl

-- the guest of the stay is a no-show, in a hotel whose two rooms are empty
no_show_counted : summary_of ext manager 172800000 on_third_day ≡ record {
  arrivals = 1;
  departures = 0;
  in_house = 0;
  no_shows = 1;
  occupancy_pct = 0;
  revenue_collected = pos 0;
}
unfolding summarise
no_show_counted = refl

night_after_night-date_of_example :
    date_of 1 (night_after_night ext (7 ∷ 8 ∷ 9 ∷ []) on_third_day) ≡ some 432000000
unfolding find_by distinct_ids has_overlap
night_after_night-date_of_example =
    night_after_night-date_of ext 1 2 (7 ∷ 8 ∷ 9 ∷ []) on_third_day refl refl refl refl
