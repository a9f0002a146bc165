-- ===== src/FrontDesk/Turnover.antt =====
-- A check-out, from the reservation to the cleaning task that it leads to.
use hospitality_os.Common.{arith, false, none, refl, some, ℕ, ◌+◌, ◌∷◌, ◌≡◌, ◌≢◌}
use hospitality_os.Common.Int.{ℤ}
use hospitality_os.Enums.{ActorType, HkStatus, HkTaskType, Priority, ReservationStatus, RoomStatus}
use hospitality_os.FrontDesk.{balance_of, check_out, write_check_out}
use hospitality_os.Guests.{on_checked_out_lem, visited}
use hospitality_os.Housekeeping.{create_task, on_reservation_checked_out, room_status}
use hospitality_os.Housekeeping.Cycle.{audited}
use hospitality_os.Reservations.Constraint.{has_overlap, with_status}
use hospitality_os.Reservations.Modify.{of_reservation}
use hospitality_os.Reservations.Release.{freed-NoOverlap}
use hospitality_os.Store.{
  Actor, Db, DomainEvent, Error, HkTask, Reservation, err, find_by-update_by, find_first, find_own,
  find_own-found, guest_keyed, ok, reservation_keyed, room_keyed, update_by, ◌>>=◌,
}

-- the cleaning task of a room that was left
abbrev pub turnover_task : (id now hotel_id room_id : ℕ) → HkTask
turnover_task i now h room = record {
  id = i;
  hotel_id = h;
  room_id = room;
  type = HkTaskType.checkout_clean;
  status = HkStatus.pending;
  assigned_to_id = none;
  priority = Priority.high;
  created_by_type = ActorType.system;
  started_at = none;
  completed_at = none;
  inspected_by_id = none;
  inspection_result = none;
  created_at = now;
}

abbrev pub checked_out_db : (now : ℕ) → Actor → Reservation → (room : ℕ) → ℤ → Db → Db
checked_out_db now actor r room balance db = record db {
  guests = update_by r.guest_id (visited now) db.guests;
  reservations = update_by r.id (with_status ReservationStatus.checked_out) db.reservations;
  rooms = update_by room (room_status RoomStatus.dirty) db.rooms;
  history =
      record {
        reservation_id = r.id;
        from_status = some ReservationStatus.checked_in;
        to_status = ReservationStatus.checked_out;
        by_id = actor.id;
        note = "check-out";
      }
      ∷ db.history;
  tasks = turnover_task db.next_id now actor.hotel_id room ∷ db.tasks;
  audits =
      record {
        hotel_id = actor.hotel_id;
        actor_id = none;
        actor_type = ActorType.system;
        action = "housekeeping.task_created";
        entity = "HousekeepingTask";
        entity_id = db.next_id;
      }
      ∷ audited actor "reservation.check_out" "Reservation" r.id db;
  outbox =
      DomainEvent.housekeeping_task_created actor.hotel_id db.next_id room
      ∷ DomainEvent.reservation_checked_out actor.hotel_id r.id room balance actor.id
      ∷ db.outbox;
  next_id = db.next_id + 1;
}

write_check_out_lem :
    (actor : Actor) (i room : ℕ) (db : Db)
    → has_overlap (update_by i (with_status ReservationStatus.checked_out) db.reservations) ≡ false
    → write_check_out actor i room db ≡ (
      ok tt,
      record db {
        reservations = update_by i (with_status ReservationStatus.checked_out) db.reservations;
        rooms = update_by room (room_status RoomStatus.dirty) db.rooms;
        history =
            record {
              reservation_id = i;
              from_status = some ReservationStatus.checked_in;
              to_status = ReservationStatus.checked_out;
              by_id = actor.id;
              note = "check-out";
            }
            ∷ db.history;
        audits = audited actor "reservation.check_out" "Reservation" i db;
      },
    )
unfolding write_check_out ◌>>=◌
write_check_out_lem actor i room db accepted = ground (arith, accepted)

-- A guest in the house, in a room, is checked out: the call returns the balance of the folio, the
-- reservation is checked out, its room is dirty and has a new pending cleaning task of high
-- priority, the guest has one visit more, and the last visit is now; history, audit rows and both
-- events are written. No other modelled table changes.
pub check_out_lem :
    (now : ℕ) (actor : Actor) (i : ℕ) (db : Db) (r : Reservation) (room : ℕ)
    → find_own actor.hotel_id i db.reservations ≡ some r
    → r.status ≡ ReservationStatus.checked_in
    → r.room_id ≡ some room
    → has_overlap db.reservations ≡ false
    → let balance = balance_of (find_first (of_reservation i) db.folios) in
      check_out now actor i db ≡ (ok balance, checked_out_db now actor r room balance db)
unfolding check_out on_reservation_checked_out create_task ◌>>=◌
check_out_lem now actor i db r room e es er keeps =
    let facts = find_own-found actor.hotel_id i db.reservations r e in
    ground (
      arith,
      e,
      es,
      er,
      facts,
      on_checked_out_lem now i (with_status ReservationStatus.checked_out r),
      find_by-update_by i i (with_status ReservationStatus.checked_out) db.reservations (λ x. refl),
      write_check_out_lem actor i room db (
          freed-NoOverlap (with_status ReservationStatus.checked_out) i db.reservations (λ x. refl)
            keeps),
    )

-- Nobody is checked out who is not in the house: the call throws, and changes nothing.
pub check_out_refused :
    (now : ℕ) (actor : Actor) (i : ℕ) (db : Db) (r : Reservation)
    → find_own actor.hotel_id i db.reservations ≡ some r
    → r.status ≢ ReservationStatus.checked_in
    → check_out now actor i db ≡ (err Error.bad_request, db)
unfolding check_out ◌>>=◌
check_out_refused now actor i db r e ne = ground (arith, e, ne)
