-- ===== src/Reservations/Placing.antt =====
-- A creation from its price to its row: what create does when a room is free.
use hospitality_os.Common.{
  List, Option, arith, false, length, none, refl, some, ℕ, ◌+◌, ◌==◌, ◌∙◌, ◌∷◌, ◌≡◌,
}
use hospitality_os.Enums.{ReservationStatus}
use hospitality_os.Rates.{QuoteResult, quote}
use hospitality_os.Reservations.Availability.{find_available_rooms}
use hospitality_os.Reservations.Constraint.{has_overlap}
use hospitality_os.Reservations.Create.{
  CreateDto, GuestInput, book_room, candidates, create_inner, has_phone, hold_expiry, merged_guest,
  new_guest, try_rooms, upsert_guest,
}
use hospitality_os.Reservations.Offer.{booked, booking, free-booked}
use hospitality_os.Store.{
  Action, Actor, Db, Error, External, Guest, Hotel, Reservation, Room, RoomType, bind-ok, find_by,
  find_first, find_own, gets, guest_keyed, hotel_keyed, ok, or_throw, room_type_keyed, throw_if,
  update_by, ◌>>=◌, ◌>>◌,
}

upsert_guest_lem :
    (ext : External) (h : ℕ) (g : GuestInput) (db : Db)
    → (guest : ℕ) × (db1 : Db) × (upsert_guest ext h g db ≡ (ok guest, db1))
      × (db1.reservations ≡ db.reservations)
      × (db1.rooms ≡ db.rooms)
unfolding upsert_guest ◌>>=◌
upsert_guest_lem ext h g db = go (find_first (has_phone h g.phone) db.guests) refl
  where
    go :
        (o : Option Guest)
        → find_first (has_phone h g.phone) db.guests ≡ o
        → (guest : ℕ) × (db1 : Db) × (upsert_guest ext h g db ≡ (ok guest, db1))
          × (db1.reservations ≡ db.reservations)
          × (db1.rooms ≡ db.rooms)
    go none e = (
      db.next_id,
      record db { guests = new_guest ext db.next_id h g ∷ db.guests; next_id = db.next_id + 1 },
      ground (arith, e),
      refl,
      refl,
    )
    go (some old) e = (
      old.id,
      record db { guests = update_by old.id (merged_guest ext g) db.guests },
      ground (arith, e),
      refl,
      refl,
    )

-- `createInner` from the candidate rooms on
abbrev place :
    ℕ → ℕ → Actor → CreateDto → ReservationStatus → QuoteResult → Hotel → ℕ → Action Reservation
place now ttl actor dto status priced hotel guest = do
  rooms ← gets λ db. candidates actor.hotel_id dto dto.room_id db
  throw_if (length rooms == 0) Error.no_availability
  try_rooms
      (book_room actor dto status (hold_expiry now ttl status) guest priced.total hotel.currency)
      rooms

place_lem :
    (now ttl : ℕ) (actor : Actor) (dto : CreateDto) (status : ReservationStatus)
    (priced : QuoteResult) (hotel : Hotel) (guest : ℕ) (room : Room) (rest : List Room) (db : Db)
    → dto.room_id ≡ none
    → find_available_rooms actor.hotel_id dto.check_in dto.check_out (some dto.room_type_id) db
      ≡ room ∷ rest
    → has_overlap db.reservations ≡ false
    → let row =
        booking actor dto status
          (hold_expiry now ttl status)
          guest
          priced.total
          hotel.currency
          db.next_id
          room in
      place now ttl actor dto status priced hotel guest db ≡ (ok row, booked actor status row db)
unfolding candidates ◌>>=◌
place_lem now ttl actor dto status priced hotel guest room rest db anywhere free keeps = ground (
  arith,
  anywhere,
  free,
  free-booked actor dto status (hold_expiry now ttl status) guest priced.total hotel.currency
      actor.hotel_id (some dto.room_type_id) room rest db free keeps,
)

create_inner-place :
    (ext : External) (now ttl : ℕ) (actor : Actor) (dto : CreateDto) (status : ReservationStatus)
    (rt : RoomType) (hotel : Hotel) (priced : QuoteResult) (guest : ℕ) (db db1 : Db)
    → find_own actor.hotel_id dto.room_type_id db.room_types ≡ some rt
    → find_by actor.hotel_id db.hotels ≡ some hotel
    → quote ext actor.hotel_id dto.room_type_id dto.check_in dto.check_out dto.rate_plan_id db
      ≡ (ok priced, db)
    → priced.blocked ≡ false
    → upsert_guest ext actor.hotel_id dto.guest db ≡ (ok guest, db1)
    → create_inner ext now ttl actor dto status db
      ≡ place now ttl actor dto status priced hotel guest db1
unfolding create_inner
create_inner-place ext now ttl actor dto status rt hotel priced guest db db1 er eh eq eb eg =
    let h = actor.hotel_id in
    bind-ok (gets λ d. find_own h dto.room_type_id d.room_types) _ db db _ refl
    ∙ bind-ok (or_throw (find_own h dto.room_type_id db.room_types) Error.not_found) _ db db rt
        (rw er refl)
    ∙ bind-ok (gets λ d. find_by h d.hotels) _ db db _ refl
    ∙ bind-ok (or_throw (find_by h db.hotels) Error.not_found) _ db db hotel (rw eh refl)
    ∙ bind-ok (quote ext h dto.room_type_id dto.check_in dto.check_out dto.rate_plan_id) _ db db
        priced eq
    ∙ bind-ok (throw_if priced.blocked Error.rate_restricted) _ db db tt (rw eb refl)
    ∙ bind-ok (upsert_guest ext h dto.guest) _ db db1 guest eg

-- A stay that its quote does not block, for a room type of the hotel, with no room asked for and a
-- room that findAvailableRooms offers, is booked, if the constraint holds: createInner returns a
-- reservation in the first room that is offered, at the quoted total, and its row, history, folio,
-- room charge, audit row and event are written after the guest is found or created.
pub create_inner_lem :
    (ext : External) (now ttl : ℕ) (actor : Actor) (dto : CreateDto) (status : ReservationStatus)
    (rt : RoomType) (hotel : Hotel) (priced : QuoteResult) (room : Room) (rest : List Room)
    (db : Db)
    → find_own actor.hotel_id dto.room_type_id db.room_types ≡ some rt
    → find_by actor.hotel_id db.hotels ≡ some hotel
    → quote ext actor.hotel_id dto.room_type_id dto.check_in dto.check_out dto.rate_plan_id db
      ≡ (ok priced, db)
    → priced.blocked ≡ false
    → dto.room_id ≡ none
    → find_available_rooms actor.hotel_id dto.check_in dto.check_out (some dto.room_type_id) db
      ≡ room ∷ rest
    → has_overlap db.reservations ≡ false
    → (guest : ℕ) × (db1 : Db) × (upsert_guest ext actor.hotel_id dto.guest db ≡ (ok guest, db1))
      × (db1.reservations ≡ db.reservations)
      × (create_inner ext now ttl actor dto status db ≡ (
          let row =
            booking actor dto status
              (hold_expiry now ttl status)
              guest
              priced.total
              hotel.currency
              db1.next_id
              room in
          (ok row, booked actor status row db1)))
unfolding find_available_rooms
create_inner_lem ext now ttl actor dto status rt hotel priced room rest db er eh eq eb anywhere free
      keeps =
    let (guest, db1, eg, rs, rooms) = upsert_guest_lem ext actor.hotel_id dto.guest db in
    (
      guest,
      db1,
      eg,
      rs,
      create_inner-place ext now ttl actor dto status rt hotel priced guest db db1 er eh eq eb eg
          ∙ place_lem now ttl actor dto status priced hotel guest room rest db1 anywhere
              (rw (rs, rooms) free) (rw rs keeps),
    )
