-- ===== src/Reservations/Constraint.antt =====
-- The constraint `reservation_no_overlap` (apps/api/prisma/sql): no two reservations that hold a
-- room in a blocking status have overlapping stays in the same room. Postgres checks it at every
-- write of the table, and rejects the write.
use hospitality_os.Common.{
  Bool, List, Option, String, [], any, false, ltb, none, some, ℕ, ◌&&◌, ◌==◌, ◌||◌, ◌∷◌,
}
use hospitality_os.Enums.{ReservationStatus, is_blocking}
use hospitality_os.Store.{
  Action, Error, Reservation, gets, modify, reservation_keyed, throw_if, update_by, ◌>>=◌, ◌>>◌,
}

-- `tsrange(a.checkIn, a.checkOut, '[)') && tsrange(b.checkIn, b.checkOut, '[)')`: a range from a
-- date to itself is empty, and overlaps with nothing. A range that ends before it begins is an error of
-- the database; here it is empty, and the calls refuse such dates before they write.
abbrev pub overlaps : Reservation → Reservation → Bool
overlaps a b =
    ltb a.check_in_date b.check_out_date
    && ltb b.check_in_date a.check_out_date
    && ltb a.check_in_date a.check_out_date
    && ltb b.check_in_date b.check_out_date

-- `"roomId" WITH =`, where both are not null
abbrev pub same_room : Option ℕ → Option ℕ → Bool
same_room none b = false
same_room (some i) none = false
same_room (some i) (some j) = i == j

abbrev pub conflicts : Reservation → Reservation → Bool
conflicts a b =
    is_blocking a.status && is_blocking b.status && same_room a.room_id b.room_id && overlaps a b

-- two rows of the table conflict
unfoldable pub has_overlap : List Reservation → Bool
has_overlap [] = false
has_overlap (r ∷ rs) = any (conflicts r) rs || has_overlap rs

-- a write of the table: it is rejected if it would break the constraint
abbrev pub write_reservations : List Reservation → Action (Unit {0})
write_reservations rs =
    throw_if (has_overlap rs) Error.exclusion_violation
    >> modify λ db. record db { reservations = rs }

-- `reservation.create({ data })`
abbrev pub insert_reservation : Reservation → Action (Unit {0})
insert_reservation r = gets (λ db. db.reservations) >>= λ rs. write_reservations (r ∷ rs)

-- `reservation.update({ where: { id }, data })`
abbrev pub update_reservation : ℕ → (Reservation → Reservation) → Action (Unit {0})
update_reservation i g =
    gets (λ db. db.reservations) >>= λ rs. write_reservations (update_by i g rs)

-- `reservationStatusHistory.create({ data })`
abbrev pub add_history :
    ℕ → Option ReservationStatus → ReservationStatus → Option ℕ → String → Action (Unit {0})
add_history i from to by note = modify λ db. record db {
  history =
      record { reservation_id = i; from_status = from; to_status = to; by_id = by; note = note }
      ∷ db.history;
}

-- `{ ...r, status }`
abbrev pub with_status : ReservationStatus → Reservation → Reservation
with_status s r = record r { status = s }
