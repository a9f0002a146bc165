-- ===== src/Rooms/Withdrawn.antt =====
-- A room that is out of service or removed is not offered.
use hospitality_os.Common.{
  Bool, List, Option, String, [], any, arith, false, filterb, refl, true, ℕ, ◌==◌, ◌∷◌, ◌≡◌,
}
use hospitality_os.Enums.{Role, RoomStatus}
use hospitality_os.FrontDesk.{check_in, check_out}
use hospitality_os.Housekeeping.{room_status, update_room}
use hospitality_os.Reservations.Availability.{find_available_rooms, is_free}
use hospitality_os.Reservations.Cancel.{notify}
use hospitality_os.Rooms.{find_live, is_out_of_order, remove_room, removed, set_room_status}
use hospitality_os.Store.{
  Action, Actor, Db, Error, Keeps, Reservation, Result, Room, bind-at, bind-then, err, gets,
  keeping, ok, or_throw-then, pure, record_audit, room_keyed, throw_if-then, update_by,
}

abbrev pub has_id : ℕ → Room → Bool
has_id i room = room.id == i

-- a row that is closed after the write is in no answer
closed-unoffered :
    (i : ℕ) (g : Room → Room) (p : Room → Bool) (rooms : List Room)
    → ((x : Room) → p (g x) ≡ false)
    → any (has_id i) (filterb p (update_by i g rooms)) ≡ false
unfolding update_by
closed-unoffered i g p [] closed = refl
closed-unoffered i g p (x ∷ xs) closed =
    let rest = closed-unoffered i g p xs closed in ground (arith, rest, closed x)

-- no answer for any stay has the room
pub record Shut (i : ℕ) (db : Db) : Type 0 where
  pub unoffered :
      (h check_in check_out : ℕ) (rt : Option ℕ)
      → any (has_id i) (find_available_rooms h check_in check_out rt db) ≡ false

-- a call that returns leaves the room shut
abbrev Shuts : ℕ → Result Room × Db → Type 0
Shuts i (ok room, db) = Shut i db
Shuts i (err e, db) = Unit

Shut-Shuts : (i : ℕ) (r : Result Room × Db) → Shut i r.1 → Shuts i r
Shut-Shuts i (ok room, db) shut = shut
Shut-Shuts i (err e, db) shut = tt

module _ (i : ℕ) where
  update_room-Shut :
      (g : Room → Room) (db : Db)
      → ((h ci co : ℕ) (rt : Option ℕ) (rs : List Reservation) (x : Room)
          → is_free h ci co rt rs (g x) ≡ false)
      → Shut i (update_room i g db).1
  unfolding find_available_rooms
  update_room-Shut g db closed = record {
    unoffered = λ h ci co rt.
        closed-unoffered i g (is_free h ci co rt db.reservations) db.rooms
          (closed h ci co rt db.reservations);
  }

  record_audit-Shut :
      (actor : Actor) (action entity : String) (j : ℕ)
      → Keeps (Shut i) (record_audit actor action entity j)
  unfolding find_available_rooms
  record_audit-Shut actor action entity j db shut = record { unoffered = shut.unoffered }

  notify-Shut :
      (h : ℕ) (role : Role) (type : String) (j : ℕ) → Keeps (Shut i) (notify h role type j)
  unfolding find_available_rooms
  notify-Shut h role type j db shut = record { unoffered = shut.unoffered }

  out_of_order-closed :
      (status : RoomStatus) (h ci co : ℕ) (rt : Option ℕ) (rs : List Reservation) (x : Room)
      → is_out_of_order status ≡ true
      → is_free h ci co rt rs (room_status status x) ≡ false
  out_of_order-closed RoomStatus.maintenance h ci co rt rs x e = ground arith
  out_of_order-closed RoomStatus.out_of_service h ci co rt rs x e = ground arith
  out_of_order-closed RoomStatus.available h ci co rt rs x e = absurd (ground (arith, e))
  out_of_order-closed RoomStatus.occupied h ci co rt rs x e = absurd (ground (arith, e))
  out_of_order-closed RoomStatus.dirty h ci co rt rs x e = absurd (ground (arith, e))
  out_of_order-closed RoomStatus.cleaning h ci co rt rs x e = absurd (ground (arith, e))
  out_of_order-closed RoomStatus.inspection h ci co rt rs x e = absurd (ground (arith, e))

  set_room_status-Shuts :
      (actor : Actor) (status : RoomStatus) (db : Db)
      → is_out_of_order status ≡ true
      → Shuts i (set_room_status actor i status db)
  unfolding set_room_status
  set_room_status-Shuts actor status db out =
      throw_if-then (Shuts i) _ Error.bad_request _ db tt λ _.
        bind-then (Shuts i) (gets (λ d. find_live actor.hotel_id i d.rooms)) _ db
          (λ o d _. or_throw-then (Shuts i) o Error.not_found _ d tt λ room _.
            throw_if-then (Shuts i) _ Error.bad_request _ d tt λ _. Shut-Shuts i _ (
              bind-at (Shut i) (update_room i (room_status status)) _ d
                (update_room-Shut (room_status status) d
                  (λ h ci co rt rs x. out_of_order-closed status h ci co rt rs x out))
                (λ _. search (keeping, record_audit-Shut, notify-Shut))))
          (λ _ _ _. tt)

  remove_room-Shuts : (now : ℕ) (actor : Actor) (db : Db) → Shuts i (remove_room now actor i db)
  unfolding remove_room
  remove_room-Shuts now actor db =
      bind-then (Shuts i) (gets (λ d. find_live actor.hotel_id i d.rooms)) _ db
        (λ o d _. or_throw-then (Shuts i) o Error.not_found _ d tt λ room _. Shut-Shuts i _ (
          bind-at (Shut i) (update_room i (removed now)) (λ _. pure (removed now room)) d
            (update_room-Shut (removed now) d (λ h ci co rt rs x. ground arith)) (λ _ d s. s)))
        (λ _ _ _. tt)

-- the calls that withdraw a room
pub data Withdrawal : Type 0 where
  to_out_of_service to_maintenance : Withdrawal
  removal : (now : ℕ) → Withdrawal

abbrev pub withdraw : Actor → (room_id : ℕ) → Withdrawal → Action Room
withdraw actor i Withdrawal.to_out_of_service = set_room_status actor i RoomStatus.out_of_service
withdraw actor i Withdrawal.to_maintenance = set_room_status actor i RoomStatus.maintenance
withdraw actor i (Withdrawal.removal now) = remove_room now actor i

withdraw-Shuts :
    (actor : Actor) (i : ℕ) (w : Withdrawal) (db : Db) → Shuts i (withdraw actor i w db)
withdraw-Shuts actor i Withdrawal.to_out_of_service db = set_room_status-Shuts i actor _ db refl
withdraw-Shuts actor i Withdrawal.to_maintenance db = set_room_status-Shuts i actor _ db refl
withdraw-Shuts actor i (Withdrawal.removal now) db = remove_room-Shuts i now actor db

-- Once a call that takes a room out of service, to maintenance or away has returned, no search for
-- free rooms offers the room, whatever the hotel, the dates and the type of room.
pub withdraw_lem :
    (actor : Actor) (i : ℕ) (w : Withdrawal) (db db' : Db) (room : Room)
    → withdraw actor i w db ≡ (ok room, db')
    → (h check_in check_out : ℕ) (rt : Option ℕ)
    → any (has_id i) (find_available_rooms h check_in check_out rt db') ≡ false
withdraw_lem actor i w db db' room e h check_in check_out rt =
    let shut : Shut i db' = rw e at (withdraw-Shuts actor i w db) in
    shut.unoffered h check_in check_out rt
