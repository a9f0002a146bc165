-- ===== src/Ledger/Stays.antt =====
-- Every call of the reservations and the front desk leaves the ledger balanced, also when it throws.
use hospitality_os.Common.{
  Bool, Option, String, arith, false, none, or_else, refl, some, true, ℕ, ◌+◌, ◌≡◌,
}
use hospitality_os.Common.Int.{pos, ℤ, ◌-ℤ◌}
use hospitality_os.Enums.{LineType, PaymentMethod, ReservationStatus}
use hospitality_os.FrontDesk.{
  CheckInDto, check_in, check_out, deposit, write_check_in, write_check_out,
}
use hospitality_os.Guests.{on_checked_out, visit}
use hospitality_os.Housekeeping.{on_reservation_checked_out}
use hospitality_os.Ledger.Books.{Books-found, Books-later, IsBalanced}
use hospitality_os.Ledger.Posting.{
  book_room-IsBalanced, post_to-IsBalanced, quote-reads, record_payment-IsBalanced, run-IsBalanced,
  update_reservation-IsBalanced, upsert_guest-IsBalanced,
}
use hospitality_os.Rates.{quote}
use hospitality_os.Reservations.Booking.{try_rooms-Keeps}
use hospitality_os.Reservations.Cancel.{cancel}
use hospitality_os.Reservations.Create.{CreateDto, create, create_inner}
use hospitality_os.Reservations.Modify.{
  ModifyDto, as_conflict, differs, modified, modify_reservation, new_total, of_reservation,
  write_modified,
}
use hospitality_os.Store.{
  Actor, Db, Error, External, Keeps, Keeps-reads, Keeps-when, Reservation, Result, err, find_first,
  keeping, ok, reservation_keyed, update_by, ◌>>=◌,
}

new_total-reads :
    (ext : External) (actor : Actor) (dto : ModifyDto) (r : Reservation) (changed : Bool) (db : Db)
    → (new_total ext actor dto r changed db).1 ≡ db
unfolding ◌>>=◌
new_total-reads ext actor dto r true db =
    let read =
      quote-reads ext actor.hotel_id (or_else dto.room_type_id r.room_type_id)
        (or_else dto.check_in r.check_in_date) (or_else dto.check_out r.check_out_date)
        r.rate_plan_id db in
    ground (arith, read)
new_total-reads ext actor dto r false db = refl

write_modified-IsBalanced :
    (actor : Actor) (i : ℕ) (dto : ModifyDto) (current : Reservation) (total : ℤ)
    → Keeps IsBalanced (write_modified actor i dto current total)
unfolding write_modified ◌>>=◌
write_modified-IsBalanced actor i dto current total db b =
    ground
      (
        arith,
        post_to-IsBalanced (find_first (of_reservation i) db.folios) LineType.adjustment
            (total -ℤ current.quoted_price) actor.id
            (record db { reservations = update_by i (modified dto total current) db.reservations })
            (λ f e. Books-found b (of_reservation i) f e) b,
      )
      steps 12000000

pub cancel-IsBalanced :
    (actor : Actor) (i : ℕ) (reason : String) → Keeps IsBalanced (cancel actor i reason)
unfolding cancel
cancel-IsBalanced actor i reason = search (keeping, update_reservation-IsBalanced) depth 12

write_check_out-IsBalanced :
    (actor : Actor) (i room : ℕ) → Keeps IsBalanced (write_check_out actor i room)
unfolding write_check_out
write_check_out-IsBalanced actor i room = search (keeping, update_reservation-IsBalanced) depth 12

on_reservation_checked_out-IsBalanced :
    (now h room : ℕ) → Keeps IsBalanced (on_reservation_checked_out now h room)
unfolding on_reservation_checked_out ◌>>=◌
on_reservation_checked_out-IsBalanced now h room db b = Books-later b (db.next_id + 1) (omega arith)

visit-IsBalanced : (now : ℕ) (o : Option Reservation) → Keeps IsBalanced (visit now o)
visit-IsBalanced now none db b = b
visit-IsBalanced now (some r) db b = ground arith

on_checked_out-IsBalanced : (now i : ℕ) → Keeps IsBalanced (on_checked_out now i)
unfolding on_checked_out
on_checked_out-IsBalanced now i = search (keeping, visit-IsBalanced) depth 12

pub check_out-IsBalanced :
    (now : ℕ) (actor : Actor) (i : ℕ) → Keeps IsBalanced (check_out now actor i)
unfolding check_out
check_out-IsBalanced now actor i =
    search
      (
        keeping, write_check_out-IsBalanced, on_reservation_checked_out-IsBalanced,
        on_checked_out-IsBalanced,
      )
      depth 16

write_check_in-IsBalanced :
    (actor : Actor) (i room : ℕ) (from : ReservationStatus)
    → Keeps IsBalanced (write_check_in actor i room from)
unfolding write_check_in
write_check_in-IsBalanced actor i room from =
    search (keeping, update_reservation-IsBalanced) depth 12

deposit-IsBalanced :
    (ext : External) (actor : Actor) (i : ℕ) (amount : Option ℤ) (method : Option PaymentMethod)
    → Keeps IsBalanced (deposit ext actor i amount method)
deposit-IsBalanced ext actor i none method db b = b
deposit-IsBalanced ext actor i (some amount) none db b = b
deposit-IsBalanced ext actor i (some amount) (some method) db b =
    Keeps-when IsBalanced (differs amount (pos 0)) _ (search (keeping, record_payment-IsBalanced))
      db b

pub check_in-IsBalanced :
    (ext : External) (actor : Actor) (i : ℕ) (dto : CheckInDto)
    → Keeps IsBalanced (check_in ext actor i dto)
unfolding check_in
check_in-IsBalanced ext actor i dto =
    search (keeping, write_check_in-IsBalanced, deposit-IsBalanced) depth 16

as_conflict-IsBalanced :
    {A : Type 0} (r : Result A × Db) → IsBalanced r.1 → IsBalanced (as_conflict r).1
as_conflict-IsBalanced (ok a, db) b = b
as_conflict-IsBalanced (err Error.exclusion_violation, db) b = b
as_conflict-IsBalanced (err _, db) b = b

new_total-IsBalanced :
    (ext : External) (actor : Actor) (dto : ModifyDto) (r : Reservation) (changed : Bool)
    → Keeps IsBalanced (new_total ext actor dto r changed)
new_total-IsBalanced ext actor dto r changed =
    Keeps-reads IsBalanced (new_total ext actor dto r changed)
      (new_total-reads ext actor dto r changed)

pub modify_reservation-IsBalanced :
    (ext : External) (actor : Actor) (i : ℕ) (dto : ModifyDto)
    → Keeps IsBalanced (modify_reservation ext actor i dto)
unfolding modify_reservation
modify_reservation-IsBalanced ext actor i dto =
    search (keeping, write_modified-IsBalanced, new_total-IsBalanced, as_conflict-IsBalanced) depth
      16

quote-IsBalanced :
    (ext : External) (h rt check_in check_out : ℕ) (plan : Option ℕ)
    → Keeps IsBalanced (quote ext h rt check_in check_out plan)
quote-IsBalanced ext h rt check_in check_out plan =
    Keeps-reads IsBalanced (quote ext h rt check_in check_out plan)
      (quote-reads ext h rt check_in check_out plan)

create_inner-IsBalanced :
    (ext : External) (now ttl : ℕ) (actor : Actor) (dto : CreateDto) (status : ReservationStatus)
    → Keeps IsBalanced (create_inner ext now ttl actor dto status)
unfolding create_inner
create_inner-IsBalanced ext now ttl actor dto status =
    search
      (keeping, quote-IsBalanced, upsert_guest-IsBalanced, try_rooms-Keeps, book_room-IsBalanced)
      depth 24

pub create-IsBalanced :
    (ext : External) (now ttl : ℕ) (actor : Actor) (dto : CreateDto) (status : ReservationStatus)
    → Keeps IsBalanced (create ext now ttl actor dto status)
unfolding create
create-IsBalanced ext now ttl actor dto status =
    search (keeping, run-IsBalanced, create_inner-IsBalanced) depth 12
