-- ===== src/Service/Overlap.antt =====
-- The exclusion constraint holds after every call that writes the table of reservations, whether
-- it returns or throws.
use hospitality_os.Common.{List, Option, String, false, ℕ, ◌≡◌}
use hospitality_os.Common.Int.{ℤ}
use hospitality_os.Enums.{ReservationStatus}
use hospitality_os.FrontDesk.{CheckInDto, check_in, check_out, write_check_in, write_check_out}
use hospitality_os.Reservations.Booking.{try_rooms-Keeps}
use hospitality_os.Reservations.Cancel.{cancel}
use hospitality_os.Reservations.Constraint.{has_overlap, update_reservation, write_reservations}
use hospitality_os.Reservations.Create.{CreateDto, book_room, create, create_inner}
use hospitality_os.Reservations.Modify.{ModifyDto, modify_reservation, write_modified}
use hospitality_os.Service.Folios.{
  OnReservations, as_conflict-holds, deposit-Keeps, new_total-Keeps, on_checked_out-Keeps,
  on_reservation_checked_out-Keeps, post_to-Keeps, quote-Keeps, run-Keeps, upsert_guest-Keeps,
}
use hospitality_os.Store.{
  Actor, Db, Error, External, Keeps, Reservation, Room, keeping, modify, throw_if-then, ◌>>=◌,
}

-- no two rows of the table conflict
abbrev pub NoOverlap : Db → Type 0
NoOverlap db = has_overlap db.reservations ≡ false

pub NoOverlap-on : OnReservations NoOverlap
NoOverlap-on = record { carried = λ db db' rs n h. rw rs h }

pub write_reservations-NoOverlap : (rs : List Reservation) → Keeps NoOverlap (write_reservations rs)
unfolding ◌>>=◌
write_reservations-NoOverlap rs db h =
    throw_if-then (λ r. NoOverlap r.1) (has_overlap rs) Error.exclusion_violation
      (modify λ db. record db { reservations = rs }) db h (λ e. e)

pub update_reservation-NoOverlap :
    (i : ℕ) (g : Reservation → Reservation) → Keeps NoOverlap (update_reservation i g)
update_reservation-NoOverlap i g = search (keeping, write_reservations-NoOverlap) depth 12

book_room-NoOverlap :
    (actor : Actor) (dto : CreateDto) (status : ReservationStatus) (hold : Option ℕ) (guest : ℕ)
    (total : ℤ) (currency : String) (room : Room)
    → Keeps NoOverlap (book_room actor dto status hold guest total currency room)
unfolding book_room
book_room-NoOverlap actor dto status hold guest total currency room =
    search (keeping, write_reservations-NoOverlap) depth 24

create_inner-NoOverlap :
    (ext : External) (now ttl : ℕ) (actor : Actor) (dto : CreateDto) (status : ReservationStatus)
    → Keeps NoOverlap (create_inner ext now ttl actor dto status)
unfolding create_inner
create_inner-NoOverlap ext now ttl actor dto status =
    search
      (
        keeping,
        quote-Keeps NoOverlap NoOverlap-on,
        upsert_guest-Keeps NoOverlap NoOverlap-on,
        try_rooms-Keeps,
        book_room-NoOverlap,
      )
      depth 24

pub create-NoOverlap :
    (ext : External) (now ttl : ℕ) (actor : Actor) (dto : CreateDto) (status : ReservationStatus)
    → Keeps NoOverlap (create ext now ttl actor dto status)
unfolding create
create-NoOverlap ext now ttl actor dto status =
    search (keeping, run-Keeps NoOverlap NoOverlap-on, create_inner-NoOverlap) depth 12

pub cancel-NoOverlap :
    (actor : Actor) (i : ℕ) (reason : String) → Keeps NoOverlap (cancel actor i reason)
unfolding cancel
cancel-NoOverlap actor i reason = search (keeping, write_reservations-NoOverlap) depth 16

write_modified-NoOverlap :
    (actor : Actor) (i : ℕ) (dto : ModifyDto) (current : Reservation) (total : ℤ)
    → Keeps NoOverlap (write_modified actor i dto current total)
unfolding write_modified
write_modified-NoOverlap actor i dto current total =
    search (keeping, write_reservations-NoOverlap, post_to-Keeps NoOverlap NoOverlap-on) depth 20

pub modify_reservation-NoOverlap :
    (ext : External) (actor : Actor) (i : ℕ) (dto : ModifyDto)
    → Keeps NoOverlap (modify_reservation ext actor i dto)
unfolding modify_reservation
modify_reservation-NoOverlap ext actor i dto =
    search
      (
        keeping,
        write_modified-NoOverlap,
        new_total-Keeps NoOverlap NoOverlap-on,
        as_conflict-holds NoOverlap NoOverlap-on,
      )
      depth 16

pub check_in-NoOverlap :
    (ext : External) (actor : Actor) (i : ℕ) (dto : CheckInDto)
    → Keeps NoOverlap (check_in ext actor i dto)
unfolding check_in write_check_in
check_in-NoOverlap ext actor i dto =
    search (keeping, write_reservations-NoOverlap, deposit-Keeps NoOverlap NoOverlap-on) depth 30

pub check_out-NoOverlap :
    (now : ℕ) (actor : Actor) (i : ℕ) → Keeps NoOverlap (check_out now actor i)
unfolding check_out write_check_out
check_out-NoOverlap now actor i =
    search
      (
        keeping,
        write_reservations-NoOverlap,
        on_reservation_checked_out-Keeps NoOverlap NoOverlap-on,
        on_checked_out-Keeps NoOverlap NoOverlap-on,
      )
      depth 30
