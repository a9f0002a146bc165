-- ===== src/Service/Arrivals.antt =====
-- The status of one reservation through the check-in and the check-out.
use hospitality_os.Common.{Option, arith, false, inr, not, or_option, refl, some, true, ℕ, ◌≡◌}
use hospitality_os.Common.Int.{ℤ}
use hospitality_os.Enums.{ReservationStatus, RoomStatus}
use hospitality_os.FrontDesk.{
  CheckInDto, arrived, balance_of, check_in, check_out, deposit, is_checked_in, may_check_in,
  write_check_in, write_check_out,
}
use hospitality_os.Guests.{on_checked_out}
use hospitality_os.Housekeeping.{on_reservation_checked_out, room_status, update_room}
use hospitality_os.Reservations.Constraint.{add_history, update_reservation, with_status}
use hospitality_os.Reservations.Modify.{of_reservation}
use hospitality_os.Reservations.Status.{Step}
use hospitality_os.Service.Folios.{
  deposit-Keeps, on_checked_out-Keeps, on_reservation_checked_out-Keeps,
}
use hospitality_os.Service.Tracking.{Tracks, Tracks-on, others-Keeps, own-Tracks, update-Tracks}
use hospitality_os.Store.{
  Action, Actor, Db, DomainEvent, Error, External, Folio, Keeps, Reservation, bind-at, emit,
  find_by, find_first, find_own, gets, keeping, or_throw, or_throw-then, pure, record_audit,
  reservation_keyed, room_keyed, throw_if, throw_if-then, transaction-at, ◌>>=◌, ◌>>◌,
}

module _ (j : ℕ) (s : ReservationStatus) where
  write_check_out-Tracks :
      (actor : Actor) (i room : ℕ) (r : Reservation) (db : Db)
      → find_by i db.reservations ≡ some r
      → is_checked_in r.status ≡ true
      → Tracks j s db
      → Tracks j s (write_check_out actor i room db).1
  unfolding write_check_out
  write_check_out-Tracks actor i room r db e inside t =
      transaction-at (Tracks j s)
        (update_reservation i (with_status ReservationStatus.checked_out) >> trail) db
        (bind-at (Tracks j s) (update_reservation i (with_status ReservationStatus.checked_out))
          (λ _. trail) db
          (update-Tracks j s i (with_status ReservationStatus.checked_out) r db e (λ x. refl)
            (inr (step r.status inside)) t)
          (λ _. search (keeping, others-Keeps) depth 12))
        t
    where
      trail : Action (Unit {0})
      trail =
          update_room room (room_status RoomStatus.dirty)
          >> (add_history i (some ReservationStatus.checked_in) ReservationStatus.checked_out
                actor.id "check-out"
              >> record_audit actor "reservation.check_out" "Reservation" i)

      step : (x : ReservationStatus) → is_checked_in x ≡ true → Step x ReservationStatus.checked_out
      step ReservationStatus.checked_in h = Step.leaves
      step ReservationStatus.enquiry h = absurd (ground (arith, h))
      step ReservationStatus.held h = absurd (ground (arith, h))
      step ReservationStatus.confirmed h = absurd (ground (arith, h))
      step ReservationStatus.checked_out h = absurd (ground (arith, h))
      step ReservationStatus.cancelled h = absurd (ground (arith, h))
      step ReservationStatus.no_show h = absurd (ground (arith, h))

  write_check_in-Tracks :
      (actor : Actor) (i room : ℕ) (r : Reservation) (db : Db)
      → find_by i db.reservations ≡ some r
      → not (may_check_in r.status) ≡ false
      → Tracks j s db
      → Tracks j s (write_check_in actor i room r.status db).1
  unfolding write_check_in
  write_check_in-Tracks actor i room r db e may t =
      transaction-at (Tracks j s) (update_reservation i (arrived room) >> trail) db
        (bind-at (Tracks j s) (update_reservation i (arrived room)) (λ _. trail) db
          (update-Tracks j s i (arrived room) r db e (λ x. refl) (inr (step r.status may)) t)
          (λ _. search (keeping, others-Keeps) depth 12))
        t
    where
      trail : Action (Unit {0})
      trail =
          update_room room (room_status RoomStatus.occupied)
          >> (add_history i (some r.status) ReservationStatus.checked_in actor.id "check-in"
              >> record_audit actor "reservation.check_in" "Reservation" i)

      step :
          (x : ReservationStatus)
          → not (may_check_in x) ≡ false
          → Step x ReservationStatus.checked_in
      step ReservationStatus.confirmed h = Step.arrives_confirmed
      step ReservationStatus.held h = Step.arrives_held
      step ReservationStatus.enquiry h = absurd (ground (arith, h))
      step ReservationStatus.checked_in h = absurd (ground (arith, h))
      step ReservationStatus.checked_out h = absurd (ground (arith, h))
      step ReservationStatus.cancelled h = absurd (ground (arith, h))
      step ReservationStatus.no_show h = absurd (ground (arith, h))

  pub check_out-Tracks :
      (now : ℕ) (actor : Actor) (i : ℕ) → Keeps (Tracks j s) (check_out now actor i)
  unfolding check_out ◌>>=◌
  check_out-Tracks now actor i = own-Tracks j s actor.hotel_id i rest (λ r db e t.
      throw_if-then (λ x. Tracks j s x.1) (not (is_checked_in r.status)) Error.bad_request
        (or_throw r.room_id Error.bad_request >>= leave) db t
        (λ inside.
          or_throw-then (λ x. Tracks j s x.1) r.room_id Error.bad_request leave db t
            (λ room er.
              bind-at (Tracks j s) (write_check_out actor i room)
                (λ _. after room (find_first (of_reservation i) db.folios)) db
                (write_check_out-Tracks actor i room r db e (ground (arith, inside)) t)
                (λ _.
                  search
                    (
                      keeping,
                      others-Keeps,
                      on_reservation_checked_out-Keeps (Tracks j s) (Tracks-on j s),
                      on_checked_out-Keeps (Tracks j s) (Tracks-on j s),
                    )
                    depth 12))))
    where
      after : ℕ → Option Folio → Action ℤ
      after room folio =
          emit
            (DomainEvent.reservation_checked_out actor.hotel_id i room (balance_of folio) actor.id)
          >> (on_reservation_checked_out now actor.hotel_id room
              >> (on_checked_out now i >> pure (balance_of folio)))

      leave : ℕ → Action ℤ
      leave room = gets (λ db. find_first (of_reservation i) db.folios) >>= λ folio.
          write_check_out actor i room >> after room folio

      rest : Reservation → Action ℤ
      rest r =
          throw_if (not (is_checked_in r.status)) Error.bad_request
          >> (or_throw r.room_id Error.bad_request >>= leave)

  pub check_in-Tracks :
      (ext : External) (actor : Actor) (i : ℕ) (dto : CheckInDto)
      → Keeps (Tracks j s) (check_in ext actor i dto)
  unfolding check_in ◌>>=◌
  check_in-Tracks ext actor i dto = own-Tracks j s actor.hotel_id i rest (λ r db e t.
      throw_if-then (λ x. Tracks j s x.1) (not (may_check_in r.status)) Error.bad_request
        (or_throw (or_option dto.room_id r.room_id) Error.bad_request >>= enter r) db t
        (λ may.
          or_throw-then (λ x. Tracks j s x.1) (or_option dto.room_id r.room_id) Error.bad_request
            (enter r) db t
            (λ room er.
              or_throw-then (λ x. Tracks j s x.1) (find_own actor.hotel_id room db.rooms)
                Error.not_found (λ _. write_check_in actor i room r.status >> after room) db t
                (λ _ _.
                  bind-at (Tracks j s) (write_check_in actor i room r.status) (λ _. after room) db
                    (write_check_in-Tracks actor i room r db e may t)
                    (λ _.
                      search (keeping, others-Keeps, deposit-Keeps (Tracks j s) (Tracks-on j s))
                        depth 12)))))
    where
      after : ℕ → Action ℕ
      after room =
          deposit ext actor i dto.deposit_amount dto.deposit_method
          >> (emit (DomainEvent.reservation_checked_in actor.hotel_id i room actor.id) >> pure room)

      enter : Reservation → ℕ → Action ℕ
      enter r room = gets (λ db. find_own actor.hotel_id room db.rooms) >>= λ x.
          or_throw x Error.not_found >>= λ _. write_check_in actor i room r.status >> after room

      rest : Reservation → Action ℕ
      rest r =
          throw_if (not (may_check_in r.status)) Error.bad_request
          >> (or_throw (or_option dto.room_id r.room_id) Error.bad_request >>= enter r)
