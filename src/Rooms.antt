-- ===== src/Rooms.antt =====
-- RoomsService (apps/api/src/rooms/rooms.service.ts): the rooms and their types, the statuses that are
-- set by hand, and the removal of a room.
pub mod Withdrawn
use hospitality_os.Common.{
  Bool, List, Option, false, if◌then◌else◌, is_some, none, not, some, true, ℕ, ◌&&◌, ◌∷◌,
}
use hospitality_os.Common.Int.{ℤ}
use hospitality_os.Enums.{Role, RoomStatus}
use hospitality_os.Housekeeping.{room_status, update_room}
use hospitality_os.Reservations.Cancel.{notify}
use hospitality_os.Store.{
  Action, Actor, Error, Room, RoomType, find_own, fresh_id, gets, modify, or_throw, pure,
  record_audit, room_keyed, throw_if, when, ◌>>=◌, ◌>>◌,
}

-- `MANUAL_STATUSES`
abbrev pub is_manual : RoomStatus → Bool
is_manual RoomStatus.available = true
is_manual RoomStatus.out_of_service = true
is_manual RoomStatus.maintenance = true
is_manual RoomStatus.dirty = true
is_manual _ = false

abbrev pub is_occupied : RoomStatus → Bool
is_occupied RoomStatus.occupied = true
is_occupied _ = false

abbrev pub is_available : RoomStatus → Bool
is_available RoomStatus.available = true
is_available _ = false

abbrev pub is_out_of_order : RoomStatus → Bool
is_out_of_order RoomStatus.out_of_service = true
is_out_of_order RoomStatus.maintenance = true
is_out_of_order _ = false

unfoldable pub create_room_type : Actor → (base_price : ℤ) → Action RoomType
create_room_type actor base = do
  i ← fresh_id
  let row : RoomType = record { id = i; hotel_id = actor.hotel_id; base_price = base }
  modify λ db. record db { room_types = row ∷ db.room_types }
  pure row

unfoldable pub create_room : Actor → (room_type_id : ℕ) → Action Room
create_room actor t = do
  i ← fresh_id
  let row : Room = record {
    id = i;
    hotel_id = actor.hotel_id;
    room_type_id = t;
    status = RoomStatus.available;
    last_cleaned_at = none;
    deleted_at = none;
  }
  modify λ db. record db { rooms = row ∷ db.rooms }
  pure row

-- `findFirst({ where: { id, hotelId, deletedAt: null } })`
abbrev pub find_live : (hotel_id i : ℕ) → List Room → Option Room
find_live h i rooms = elim (find_own h i rooms) [
  | none ↦ none
  | some room ↦ if is_some room.deleted_at then none else some room
]

abbrev pub removed : (now : ℕ) → Room → Room
removed now room = record room { deleted_at = some now }

-- the notes of the room are left out
unfoldable pub set_room_status : Actor → (room_id : ℕ) → RoomStatus → Action Room
set_room_status actor i status = do
  throw_if (not (is_manual status)) Error.bad_request
  room ← or_throw (← gets λ db. find_live actor.hotel_id i db.rooms) Error.not_found
  throw_if (is_occupied room.status && not (is_available status)) Error.bad_request
  update_room i (room_status status)
  record_audit actor "room.set_status" "Room" i
  when (is_out_of_order status) (notify actor.hotel_id Role.manager "room.out_of_order" i)
  pure (room_status status room)

unfoldable pub remove_room : (now : ℕ) → Actor → (room_id : ℕ) → Action Room
remove_room now actor i = do
  room ← or_throw (← gets λ db. find_live actor.hotel_id i db.rooms) Error.not_found
  update_room i (removed now)
  pure (removed now room)
