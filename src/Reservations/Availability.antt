-- ===== src/Reservations/Availability.antt =====
-- findAvailableRooms, checkAvailability and the per-hotel part of checkChainAvailability: the rooms
-- that are free for a stay. The table of rooms is in the order of the room numbers.
use hospitality_os.Common.{
  Bool, List, Option, [], any, false, filterb, if◌then◌else◌, is_some, length, ltb, none, not,
  option_eq, some, true, ℕ, ◌&&◌, ◌+◌, ◌-◌, ◌==◌, ◌∷◌,
}
use hospitality_os.Common.Int.{ℤ}
use hospitality_os.Enums.{RoomStatus, is_blocking}
use hospitality_os.Rates.{quote}
use hospitality_os.Store.{
  Action, Db, Error, External, Reservation, Room, find_by, gets, hotel_keyed, or_throw, pure, ◌>>=◌,
  ◌>>◌,
}

abbrev pub in_service : RoomStatus → Bool
in_service RoomStatus.maintenance = false
in_service RoomStatus.out_of_service = false
in_service _ = true

-- a reservation of the room that keeps it busy at some time between the two dates
abbrev pub keeps_busy : (room_id check_in check_out : ℕ) → Reservation → Bool
keeps_busy room check_in check_out r =
    option_eq r.room_id room
    && is_blocking r.status
    && ltb r.check_in_date check_out
    && ltb check_in r.check_out_date

-- `...(roomTypeId ? { roomTypeId } : {})`
abbrev pub of_type : Option ℕ → Room → Bool
of_type none room = true
of_type (some t) room = room.room_type_id == t

abbrev pub is_free : (hotel_id check_in check_out : ℕ) → Option ℕ → List Reservation → Room → Bool
is_free h check_in check_out rt rs room =
    room.hotel_id == h
    && not (is_some room.deleted_at)
    && of_type rt room
    && in_service room.status
    && not (any (keeps_busy room.id check_in check_out) rs)

unfoldable pub find_available_rooms : (hotel_id check_in check_out : ℕ) → Option ℕ → Db → List Room
find_available_rooms h check_in check_out rt db =
    filterb (is_free h check_in check_out rt db.reservations) db.rooms

-- an entry of `byType`, and of the answer with its price
pub record TypeCount : Type 0 where
  pub room_type_id : ℕ
  pub available : ℕ

pub record TypeOffer : Type 0 where
  pub room_type_id : ℕ
  pub available : ℕ
  pub total_for_stay : ℤ

-- `byType.set(room.roomTypeId, { …, available: available + 1 })`, in order of first insertion
unfoldable pub count_type : ℕ → List TypeCount → List TypeCount
count_type t [] = record { room_type_id = t; available = 1 } ∷ []
count_type t (c ∷ cs) =
    if c.room_type_id == t
    then record c { available = c.available + 1 } ∷ cs
    else c ∷ count_type t cs

unfoldable pub count_types : List Room → List TypeCount → List TypeCount
unfolding count_type
count_types [] cs = cs
count_types (r ∷ rs) cs = count_types rs (count_type r.room_type_id cs)

module _ (ext : External) where
  -- the second loop: each type is priced, and a blocked one is hidden
  unfoldable pub price_types :
      (hotel_id check_in check_out : ℕ) → List TypeCount → Action (List TypeOffer)
  price_types h check_in check_out [] = pure []
  price_types h check_in check_out (c ∷ cs) = do
    q ← quote ext h c.room_type_id check_in check_out none
    offers ← price_types h check_in check_out cs
    pure (
        if q.blocked
        then offers
        else record {
          room_type_id = c.room_type_id;
          available = c.available;
          total_for_stay = q.total;
        }
          ∷ offers)

  unfoldable pub check_availability :
      (hotel_id check_in check_out : ℕ) → Option ℕ → Action (List TypeOffer)
  unfolding price_types find_available_rooms count_types
  check_availability h check_in check_out rt = do
    rooms ← gets λ db. find_available_rooms h check_in check_out rt db
    or_throw (← gets λ db. find_by h db.hotels) Error.not_found
    price_types h check_in check_out (count_types rooms [])

-- `room.count` and `reservation.count` of checkChainAvailability, for one room type of a hotel
abbrev pub is_room_of : (hotel_id room_type_id : ℕ) → Room → Bool
is_room_of h rt room =
    room.hotel_id == h && room.room_type_id == rt && not (is_some room.deleted_at)

abbrev pub is_booking_of : (hotel_id room_type_id check_in check_out : ℕ) → Reservation → Bool
is_booking_of h rt check_in check_out r =
    r.hotel_id == h
    && r.room_type_id == rt
    && is_blocking r.status
    && ltb r.check_in_date check_out
    && ltb check_in r.check_out_date

-- `Math.max(0, totalRooms - bookedRooms)`
unfoldable pub chain_available : (hotel_id room_type_id check_in check_out : ℕ) → Db → ℕ
chain_available h rt check_in check_out db =
    length (filterb (is_room_of h rt) db.rooms)
    - length (filterb (is_booking_of h rt check_in check_out) db.reservations)
