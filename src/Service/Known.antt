-- ===== src/Service/Known.antt =====
-- The identifiers of the reservations are distinct, and below the next one to be given, after every
-- call that writes the table of reservations.
use hospitality_os.Common.{
  Bool, List, Option, String, [], any, arith, false, if◌then◌else◌, leb, refl, subst, sym, true, ℕ,
  ◌+◌, ◌<◌, ◌==◌, ◌∙◌, ◌∷◌, ◌≡◌, ◌≤◌,
}
use hospitality_os.Common.Int.{ℤ}
use hospitality_os.Enums.{ReservationStatus}
use hospitality_os.FrontDesk.{CheckInDto, check_in, check_out, write_check_in, write_check_out}
use hospitality_os.Reservations.Booking.{try_rooms-Keeps}
use hospitality_os.Reservations.Cancel.{cancel}
use hospitality_os.Reservations.Constraint.{has_overlap, update_reservation}
use hospitality_os.Reservations.Create.{CreateDto, book_room, create, create_inner}
use hospitality_os.Reservations.Modify.{ModifyDto, modify_reservation, write_modified}
use hospitality_os.Reservations.Offer.{book_room_lem, booked, booking}
use hospitality_os.Reservations.Sweep.{distinct_ids, distinct_ids-update_by}
use hospitality_os.Service.Folios.{
  OnReservations, as_conflict-holds, deposit-Keeps, new_total-Keeps, on_checked_out-Keeps,
  on_reservation_checked_out-Keeps, post_to-Keeps, quote-Keeps, run-Keeps, upsert_guest-Keeps,
  write-Keeps,
}
use hospitality_os.Store.{
  Actor, Db, Error, External, Keeps, Reservation, Result, Room, err, keeping, modify, ok,
  reservation_keyed, throw_if-then, update_by, ◌>>=◌,
}

pub record Known (rs : List Reservation) (n : ℕ) : Type 0 where
  pub distinct : distinct_ids rs ≡ true
  pub below : any (λ r. leb n r.id) rs ≡ false

abbrev pub IsKnown : Db → Type 0
IsKnown db = Known db.reservations db.next_id

below_later :
    (n m : ℕ) (rs : List Reservation)
    → n ≤ m
    → any (λ r. leb n r.id) rs ≡ false
    → any (λ r. leb m r.id) rs ≡ false
below_later n m [] le h = refl
below_later n m (r ∷ rs) le h = ground (arith, below_later n m rs le)

pub Known-on : OnReservations IsKnown
Known-on = record {
  carried = λ db db' rs le h. record {
    distinct = rw rs h.distinct;
    below = rw rs (below_later db.next_id db'.next_id db.reservations le h.below);
  };
}

below-update_by :
    (n i : ℕ) (g : Reservation → Reservation) (rs : List Reservation)
    → ((x : Reservation) → (g x).id ≡ x.id)
    → any (λ r. leb n r.id) (update_by i g rs) ≡ any (λ r. leb n r.id) rs
unfolding update_by
below-update_by n i g [] ids = refl
below-update_by n i g (x ∷ rs) ids = ground (arith, ids x, below-update_by n i g rs ids)

pub update_reservation-IsKnown :
    (i : ℕ) (g : Reservation → Reservation)
    → ((x : Reservation) → (g x).id ≡ x.id)
    → Keeps IsKnown (update_reservation i g)
unfolding ◌>>=◌
update_reservation-IsKnown i g ids db h =
    throw_if-then (λ r. IsKnown r.1) (has_overlap (update_by i g db.reservations))
      Error.exclusion_violation
      (modify λ d. record d { reservations = update_by i g db.reservations }) db h
      (λ _. record {
        distinct = distinct_ids-update_by i g db.reservations ids ∙ h.distinct;
        below = below-update_by db.next_id i g db.reservations ids ∙ h.below;
      })

fresh-absent :
    (n : ℕ) (rs : List Reservation)
    → any (λ r. leb n r.id) rs ≡ false
    → any (λ y. y.id == n) rs ≡ false
fresh-absent n [] h = refl
fresh-absent n (r ∷ rs) h = ground (arith, fresh-absent n rs)

inserted-IsKnown :
    (row : Reservation) (rs : List Reservation) (n m : ℕ)
    → row.id ≡ n
    → n < m
    → Known rs n
    → Known (row ∷ rs) m
unfolding distinct_ids
inserted-IsKnown row rs n m e lt h = record {
  distinct = rw (e, fresh-absent n rs h.below, h.distinct) refl;
  below = ground (arith, e, lt, below_later n m rs (omega (arith, lt)) h.below);
}

book_room-IsKnown :
    (actor : Actor) (dto : CreateDto) (status : ReservationStatus) (hold : Option ℕ) (guest : ℕ)
    (total : ℤ) (currency : String) (room : Room)
    → Keeps IsKnown (book_room actor dto status hold guest total currency room)
book_room-IsKnown actor dto status hold guest total currency room db h =
    let row = booking actor dto status hold guest total currency db.next_id room in
    subst (λ r. IsKnown r.1)
      (sym (book_room_lem actor dto status hold guest total currency room db))
      (accepted (has_overlap (row ∷ db.reservations)) row refl)
  where
    accepted :
        (c : Bool) (row : Reservation)
        → row.id ≡ db.next_id
        → let r : Result Reservation × Db =
            (if c
              then (err Error.exclusion_violation, db)
              else (ok row, booked actor status row db)) in
          IsKnown r.1
    accepted true row e = h
    accepted false row e =
        inserted-IsKnown row db.reservations db.next_id (db.next_id + 2) e (omega arith) h

create_inner-IsKnown :
    (ext : External) (now ttl : ℕ) (actor : Actor) (dto : CreateDto) (status : ReservationStatus)
    → Keeps IsKnown (create_inner ext now ttl actor dto status)
unfolding create_inner
create_inner-IsKnown ext now ttl actor dto status =
    search
      (
        keeping,
        quote-Keeps IsKnown Known-on,
        upsert_guest-Keeps IsKnown Known-on,
        try_rooms-Keeps,
        book_room-IsKnown,
      )
      depth 24

pub create-IsKnown :
    (ext : External) (now ttl : ℕ) (actor : Actor) (dto : CreateDto) (status : ReservationStatus)
    → Keeps IsKnown (create ext now ttl actor dto status)
unfolding create
create-IsKnown ext now ttl actor dto status =
    search (keeping, run-Keeps IsKnown Known-on, create_inner-IsKnown) depth 12

pub cancel-IsKnown :
    (actor : Actor) (i : ℕ) (reason : String) → Keeps IsKnown (cancel actor i reason)
unfolding cancel
cancel-IsKnown actor i reason =
    search (keeping, update_reservation-IsKnown, write-Keeps IsKnown Known-on) depth 16

write_modified-IsKnown :
    (actor : Actor) (i : ℕ) (dto : ModifyDto) (current : Reservation) (total : ℤ)
    → Keeps IsKnown (write_modified actor i dto current total)
unfolding write_modified
write_modified-IsKnown actor i dto current total =
    search
      (
        keeping,
        update_reservation-IsKnown,
        write-Keeps IsKnown Known-on,
        post_to-Keeps IsKnown Known-on,
      )
      depth 20

pub modify_reservation-IsKnown :
    (ext : External) (actor : Actor) (i : ℕ) (dto : ModifyDto)
    → Keeps IsKnown (modify_reservation ext actor i dto)
unfolding modify_reservation
modify_reservation-IsKnown ext actor i dto =
    search
      (
        keeping,
        write_modified-IsKnown,
        write-Keeps IsKnown Known-on,
        new_total-Keeps IsKnown Known-on,
        as_conflict-holds IsKnown Known-on,
      )
      depth 16

pub check_in-IsKnown :
    (ext : External) (actor : Actor) (i : ℕ) (dto : CheckInDto)
    → Keeps IsKnown (check_in ext actor i dto)
unfolding check_in write_check_in
check_in-IsKnown ext actor i dto =
    search
      (
        keeping,
        update_reservation-IsKnown,
        write-Keeps IsKnown Known-on,
        deposit-Keeps IsKnown Known-on,
      )
      depth 30

pub check_out-IsKnown : (now : ℕ) (actor : Actor) (i : ℕ) → Keeps IsKnown (check_out now actor i)
unfolding check_out write_check_out
check_out-IsKnown now actor i =
    search
      (
        keeping,
        update_reservation-IsKnown,
        write-Keeps IsKnown Known-on,
        on_reservation_checked_out-Keeps IsKnown Known-on,
        on_checked_out-Keeps IsKnown Known-on,
      )
      depth 30
