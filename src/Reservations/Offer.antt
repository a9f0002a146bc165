-- ===== src/Reservations/Offer.antt =====
-- Which room a booking gets: what findAvailableRooms offers, the database accepts, and the loop over
-- the candidates takes the first that it accepts.
use hospitality_os.Common.{
  Bool, List, Option, String, [], any, arith, false, filterb, if◌then◌else◌, ltb, none, not,
  option_eq, refl, some, true, ℕ, ◌&&◌, ◌+◌, ◌||◌, ◌∙◌, ◌∷◌, ◌≡◌,
}
use hospitality_os.Common.Int.{pos, ℤ}
use hospitality_os.Enums.{LineType, ReservationStatus, is_blocking}
use hospitality_os.Reservations.Availability.{find_available_rooms, is_free, keeps_busy}
use hospitality_os.Reservations.Constraint.{conflicts, has_overlap, same_room}
use hospitality_os.Reservations.Create.{CreateDto, book_room, new_reservation, try_rooms}
use hospitality_os.Store.{
  Actor, Db, DomainEvent, Error, Reservation, Result, Room, err, find_first, ok, ◌>>=◌,
}

-- the row that a try inserts
abbrev pub booking :
    Actor
    → CreateDto
    → ReservationStatus
    → Option ℕ
    → (guest_id : ℕ) → ℤ
    → String
    → ℕ
    → Room
    → Reservation
booking actor dto status hold guest total currency i room =
    new_reservation i guest room.id actor dto status total currency hold

pub same_room-option_eq :
    (o p : Option ℕ) (room : ℕ) → o ≡ some room → same_room o p ≡ option_eq p room
same_room-option_eq none p room e = ground arith
same_room-option_eq (some i) none room e = refl
same_room-option_eq (some i) (some j) room e = ground arith

-- a conjunct that is false
not_both :
    (a b s l m n o : Bool)
    → (s && b && l && m) ≡ false
    → (a && b && s && (m && l && n && o)) ≡ false
not_both a true true true true n o h = ground arith
not_both a b false l m n o h = ground arith
not_both a false s l m n o h = ground arith
not_both a b s false m n o h = ground arith
not_both a b s l false n o h = ground arith

busy-conflict :
    (r x : Reservation) (room : ℕ)
    → r.room_id ≡ some room
    → keeps_busy room r.check_in_date r.check_out_date x ≡ false
    → conflicts r x ≡ false
busy-conflict r x room e h = rw (same_room-option_eq r.room_id x.room_id room e) (
    not_both (is_blocking r.status) (is_blocking x.status) (option_eq x.room_id room)
      (ltb x.check_in_date r.check_out_date) (ltb r.check_in_date x.check_out_date) _ _ h)

pub or_false : (a b : Bool) → (a || b) ≡ false → (a ≡ false) × (b ≡ false)
or_false false b h = (refl, h)
or_false true b h = ground arith

busy-conflicts :
    (r : Reservation) (room : ℕ) (rs : List Reservation)
    → r.room_id ≡ some room
    → any (keeps_busy room r.check_in_date r.check_out_date) rs ≡ false
    → any (conflicts r) rs ≡ false
busy-conflicts r room [] e h = refl
busy-conflicts r room (x ∷ rs) e h =
    let parts = or_false _ _ h in
    rw (busy-conflict r x room e parts.0, busy-conflicts r room rs e parts.1) refl

-- A room that findAvailableRooms offers for a stay takes a new reservation of that stay: the
-- constraint on the table of reservations holds with the new row, if it held before.
pub offered-accepted :
    (h check_in check_out : ℕ) (rt : Option ℕ) (db : Db) (room : Room) (r : Reservation)
    → is_free h check_in check_out rt db.reservations room ≡ true
    → r.room_id ≡ some room.id
    → r.check_in_date ≡ check_in
    → r.check_out_date ≡ check_out
    → has_overlap db.reservations ≡ false
    → has_overlap (r ∷ db.reservations) ≡ false
unfolding has_overlap
offered-accepted h check_in check_out rt db room r free er ei eo ok_before =
    ground (arith, busy-conflicts r room.id db.reservations er)

-- the database after a room is booked
abbrev pub booked : Actor → ReservationStatus → Reservation → Db → Db
booked actor status row db = record db {
  reservations = row ∷ db.reservations;
  history =
      record {
        reservation_id = row.id;
        from_status = none;
        to_status = status;
        by_id = actor.id;
        note = "created";
      }
      ∷ db.history;
  folios =
      record {
        id = db.next_id + 1;
        reservation_id = row.id;
        currency = row.currency;
        total_charges = row.quoted_price;
        total_paid = pos 0;
        balance = row.quoted_price;
      }
      ∷ db.folios;
  line_items =
      record {
        folio_id = db.next_id + 1;
        type = LineType.room;
        amount = row.quoted_price;
        quantity = pos 1;
        by = actor.id;
      }
      ∷ db.line_items;
  audits =
      record {
        hotel_id = actor.hotel_id;
        actor_id = actor.id;
        actor_type = actor.type;
        action = "reservation.create";
        entity = "Reservation";
        entity_id = row.id;
      }
      ∷ db.audits;
  outbox = DomainEvent.reservation_created actor.hotel_id row.id row.room_id ∷ db.outbox;
  next_id = db.next_id + 2;
}

module _ (actor : Actor) (dto : CreateDto) (status : ReservationStatus) (hold : Option ℕ)
    (guest : ℕ) (total : ℤ) (currency : String) where
  -- one try: the row and what hangs on it, or nothing at all
  pub book_room_lem :
      (room : Room) (db : Db)
      → let row = booking actor dto status hold guest total currency db.next_id room in
        book_room actor dto status hold guest total currency room db ≡ (
          if has_overlap (row ∷ db.reservations)
          then (err Error.exclusion_violation, db)
          else (ok row, booked actor status row db))
  unfolding book_room ◌>>=◌
  book_room_lem room db = ground arith

  -- the database accepts the room
  abbrev pub accepts : Db → Room → Bool
  accepts db room = not (
      has_overlap
        (booking actor dto status hold guest total currency db.next_id room ∷ db.reservations))

  abbrev pub first_booked : Db → Option Room → Result Reservation × Db
  first_booked db none = (err Error.no_availability, db)
  first_booked db (some room) =
      let row = booking actor dto status hold guest total currency db.next_id room in
      (ok row, booked actor status row db)

  -- The loop over the candidate rooms books the first room that the constraint accepts, with its
  -- history, folio, room charge, audit row and event; where it accepts none, the call throws that no
  -- room is available and the database is as it was.
  pub try_rooms_lem :
      (rooms : List Room) (db : Db)
      → try_rooms (book_room actor dto status hold guest total currency) rooms db
        ≡ first_booked db (find_first (accepts db) rooms)
  unfolding try_rooms
  try_rooms_lem [] db = refl
  try_rooms_lem (room ∷ rooms) db = ground (arith, book_room_lem room db, try_rooms_lem rooms db)

pub filterb-head :
    {A : Type 0} (p : A → Bool) (x : A) (xs ys : List A) → filterb p ys ≡ x ∷ xs → p x ≡ true
filterb-head p x xs [] e = ground arith
filterb-head p x xs (y ∷ ys) e = ground (arith, filterb-head p x xs ys)

-- A booking of a stay gets the first of the rooms that findAvailableRooms offers for it, in
-- whatever status, when the constraint holds: no try is wasted, and the loop returns.
pub free-booked :
    (actor : Actor) (dto : CreateDto) (status : ReservationStatus) (hold : Option ℕ) (guest : ℕ)
    (total : ℤ) (currency : String) (h : ℕ) (rt : Option ℕ) (room : Room) (rest : List Room)
    (db : Db)
    → find_available_rooms h dto.check_in dto.check_out rt db ≡ room ∷ rest
    → has_overlap db.reservations ≡ false
    → let row = booking actor dto status hold guest total currency db.next_id room in
      try_rooms
        (book_room actor dto status hold guest total currency)
        (find_available_rooms h dto.check_in dto.check_out rt db)
        db
      ≡ (ok row, booked actor status row db)
unfolding find_available_rooms
free-booked actor dto status hold guest total currency h rt room rest db e keeps = rw e (
    try_rooms_lem actor dto status hold guest total currency (room ∷ rest) db
    ∙ rw
        (offered-accepted h dto.check_in dto.check_out rt db room
          (booking actor dto status hold guest total currency db.next_id room)
          (filterb-head (is_free h dto.check_in dto.check_out rt db.reservations) room rest db.rooms
            e)
          refl refl refl keeps)
        refl)
