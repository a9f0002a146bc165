-- ===== src/Reservations/Create.antt =====
-- ReservationsService.create: the price, the guest, the candidate rooms, and one transaction for
-- each room that is tried, until the database accepts one.
use hospitality_os.Common.{
  Bool, List, Option, String, [], false, filterb, if◌then◌else◌, is_some, leb, length, none, not,
  or_else, or_option, some, str_eq, true, ℕ, ◌&&◌, ◌*◌, ◌+◌, ◌==◌, ◌∷◌,
}
use hospitality_os.Common.Int.{pos, ℤ}
use hospitality_os.Enums.{LineType, ReservationSource, ReservationStatus, Tier}
use hospitality_os.Idempotency.{run}
use hospitality_os.Rates.{quote}
use hospitality_os.Reservations.Availability.{find_available_rooms}
use hospitality_os.Reservations.Constraint.{add_history, insert_reservation}
use hospitality_os.Store.{
  Action, Actor, Db, DomainEvent, Error, External, Guest, Reservation, Response, Result, Room, emit,
  err, find_by, find_first, find_own, fresh_id, gets, guest_keyed, hotel_keyed, modify, ok,
  or_throw, pure, record_audit, room_type_keyed, throw, throw_if, transaction, update_by, ◌>>=◌,
  ◌>>◌,
}

pub record GuestInput : Type 0 where
  pub name : String
  pub phone : String
  pub email : Option String
  pub whatsapp_id : Option String
  pub id_type : Option String
  pub id_number : Option String
  pub vip : Option Bool
  pub notes : Option String

pub record CreateDto : Type 0 where
  pub guest : GuestInput
  pub room_type_id : ℕ
  pub rate_plan_id : Option ℕ
  pub room_id : Option ℕ
  pub check_in : ℕ
  pub check_out : ℕ
  pub adults : ℕ
  pub children : ℕ
  pub source : ReservationSource
  pub special_requests : Option String
  pub idempotency_key : Option String

-- `{ hotelId, phone: g.phone }`
abbrev pub has_phone : ℕ → String → Guest → Bool
has_phone h phone g = g.hotel_id == h && str_eq g.phone phone

abbrev pub is_held : ReservationStatus → Bool
is_held ReservationStatus.held = true
is_held _ = false

module _ (ext : External) where
  -- `g.idNumber ? this.crypto.encrypt(g.idNumber) : undefined`
  abbrev pub encrypted : Option String → Option String
  encrypted none = none
  encrypted (some n) = some (ext.encrypt n)

  -- the guest as `guest.update` and `guest.create` leave it
  abbrev pub merged_guest : GuestInput → Guest → Guest
  merged_guest g old = record old {
    name = g.name;
    email = or_option g.email old.email;
    whatsapp_id = or_option g.whatsapp_id old.whatsapp_id;
    id_type = or_option g.id_type old.id_type;
    id_number = or_option (encrypted g.id_number) old.id_number;
    vip = or_else g.vip old.vip;
  }

  abbrev pub new_guest : (id hotel_id : ℕ) → GuestInput → Guest
  new_guest i h g = record {
    id = i;
    hotel_id = h;
    name = g.name;
    phone = g.phone;
    email = g.email;
    whatsapp_id = g.whatsapp_id;
    id_type = g.id_type;
    id_number = encrypted g.id_number;
    vip = or_else g.vip false;
    total_spent = pos 0;
    loyalty_points = pos 0;
    loyalty_tier = Tier.standard;
    visit_count = 0;
    last_visit_at = none;
    notes = g.notes;
  }

  abbrev pub write_guest : ℕ → GuestInput → Option Guest → Action ℕ
  write_guest h g (some old) =
      modify (λ db. record db { guests = update_by old.id (merged_guest g) db.guests })
      >> pure old.id
  write_guest h g none = do
    i ← fresh_id
    modify λ db. record db { guests = new_guest i h g ∷ db.guests }
    pure i

  -- `upsertGuest`; what the caller uses of the result is its id
  unfoldable pub upsert_guest : ℕ → GuestInput → Action ℕ
  upsert_guest h g = do
    old ← gets λ db. find_first (has_phone h g.phone) db.guests
    write_guest h g old

-- the row of `reservation.create`
abbrev pub new_reservation :
    (id guest_id room_id : ℕ)
    → Actor
    → CreateDto
    → ReservationStatus
    → ℤ
    → String
    → Option ℕ
    → Reservation
new_reservation i guest room actor dto status total currency hold = record {
  id = i;
  hotel_id = actor.hotel_id;
  guest_id = guest;
  room_id = some room;
  room_type_id = dto.room_type_id;
  check_in_date = dto.check_in;
  check_out_date = dto.check_out;
  status = status;
  quoted_price = total;
  currency = currency;
  rate_plan_id = dto.rate_plan_id;
  hold_expires_at = hold;
  source = dto.source;
  adults = dto.adults;
  children = dto.children;
  special_requests = dto.special_requests;
  created_by_id = actor.id;
  created_by_type = actor.type;
}

-- `folio.create` with its line item: the room charge
abbrev pub open_folio : (reservation_id : ℕ) → Actor → String → ℤ → Action (Unit {0})
open_folio i actor currency total = do
  f ← fresh_id
  modify λ db. record db {
    folios =
        record {
          id = f;
          reservation_id = i;
          currency = currency;
          total_charges = total;
          total_paid = pos 0;
          balance = total;
        }
        ∷ db.folios;
    line_items =
        record {
          folio_id = f;
          type = LineType.room;
          amount = total;
          quantity = pos 1;
          by = actor.id;
        }
        ∷ db.line_items;
  }

-- one round of the loop over the candidates: the transaction, and the event after it; the unique
-- index on the idempotency key is left out, and so is the key in the row
unfoldable pub book_room :
    Actor
    → CreateDto
    → ReservationStatus
    → Option ℕ
    → (guest_id : ℕ) → ℤ
    → String
    → Room
    → Action Reservation
book_room actor dto status hold guest total currency room = do
  created ← transaction do
    i ← fresh_id
    let row = new_reservation i guest room.id actor dto status total currency hold
    insert_reservation row
    add_history i none status actor.id "created"
    open_folio i actor currency total
    record_audit actor "reservation.create" "Reservation" i
    pure row
  emit (DomainEvent.reservation_created actor.hotel_id created.id created.room_id)
  pure created

-- `catch (e)`: an exclusion violation goes on to the next candidate, anything else is thrown
abbrev pub next_on_violation :
    (Db → Result Reservation × Db) → Result Reservation × Db → Result Reservation × Db
next_on_violation next (ok r, db) = (ok r, db)
next_on_violation next (err Error.exclusion_violation, db) = next db
next_on_violation next (err e, db) = (err e, db)

unfoldable pub try_rooms : (Room → Action Reservation) → List Room → Action Reservation
try_rooms book [] = throw Error.no_availability
try_rooms book (room ∷ rooms) =
    let next = try_rooms book rooms in λ db. next_on_violation next (book room db)

-- `room.findMany({ where: { id: dto.roomId, hotelId, deletedAt: null } })`, or the free rooms
abbrev pub named_room : ℕ → ℕ → Room → Bool
named_room h i room = room.id == i && room.hotel_id == h && not (is_some room.deleted_at)

unfoldable pub candidates : ℕ → CreateDto → Option ℕ → Db → List Room
unfolding find_available_rooms
candidates h dto (some i) db = filterb (named_room h i) db.rooms
candidates h dto none db =
    find_available_rooms h dto.check_in dto.check_out (some dto.room_type_id) db

-- `new Date(Date.now() + HOLD_TTL_MINUTES * 60_000)` for a hold
abbrev pub hold_expiry : (now ttl : ℕ) → ReservationStatus → Option ℕ
hold_expiry now ttl status = if is_held status then some (now + ttl * 60000) else none

module _ (ext : External) (now ttl : ℕ) where
  unfoldable pub create_inner : Actor → CreateDto → ReservationStatus → Action Reservation
  unfolding upsert_guest book_room try_rooms candidates
  create_inner actor dto status = do
    let h = actor.hotel_id
    or_throw (← gets λ db. find_own h dto.room_type_id db.room_types) Error.not_found
    hotel ← or_throw (← gets λ db. find_by h db.hotels) Error.not_found
    priced ← quote ext h dto.room_type_id dto.check_in dto.check_out dto.rate_plan_id
    throw_if priced.blocked Error.rate_restricted
    guest ← upsert_guest ext h dto.guest
    rooms ← gets λ db. candidates h dto dto.room_id db
    throw_if (length rooms == 0) Error.no_availability
    try_rooms
        (book_room actor dto status (hold_expiry now ttl status) guest priced.total hotel.currency)
        rooms

  -- `create`, whose result is stored under the idempotency key
  unfoldable pub create : Actor → CreateDto → ReservationStatus → Action Response
  unfolding create_inner
  create actor dto status = do
    throw_if (leb dto.check_out dto.check_in) Error.bad_request
    run dto.idempotency_key (create_inner actor dto status >>= λ r. pure (Response.reservation r))
