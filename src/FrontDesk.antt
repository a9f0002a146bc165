-- ===== src/FrontDesk.antt =====
-- FrontDeskService (apps/api/src/front-desk/front-desk.service.ts): check-in with its optional
-- deposit, and check-out, whose event lets housekeeping create a cleaning task and counts the visit of the guest.
pub mod Turnover
use hospitality_os.Common.{Bool, Option, false, none, not, or_option, some, true, ℕ}
use hospitality_os.Common.Int.{pos, ℤ}
use hospitality_os.Enums.{PaymentMethod, PaymentType, ReservationStatus, RoomStatus}
use hospitality_os.Guests.{on_checked_out}
use hospitality_os.Housekeeping.{on_reservation_checked_out, room_status, update_room}
use hospitality_os.Payments.{record_payment}
use hospitality_os.Reservations.Constraint.{add_history, update_reservation, with_status}
use hospitality_os.Reservations.Modify.{differs, of_reservation}
use hospitality_os.Store.{
  Action, Actor, DomainEvent, Error, External, Folio, Reservation, emit, find_first, find_own, gets,
  or_throw, pure, record_audit, reservation_keyed, room_keyed, throw_if, transaction, when, ◌>>=◌,
  ◌>>◌,
}

pub record CheckInDto : Type 0 where
  pub room_id : Option ℕ
  pub deposit_amount : Option ℤ
  pub deposit_method : Option PaymentMethod

abbrev pub may_check_in : ReservationStatus → Bool
may_check_in ReservationStatus.confirmed = true
may_check_in ReservationStatus.held = true
may_check_in _ = false

abbrev pub is_checked_in : ReservationStatus → Bool
is_checked_in ReservationStatus.checked_in = true
is_checked_in _ = false

-- `{ status: CHECKED_IN, roomId }`
abbrev pub arrived : ℕ → Reservation → Reservation
arrived room r = record r { status = ReservationStatus.checked_in; room_id = some room }

-- `folio?.balance ?? 0`
abbrev pub balance_of : Option Folio → ℤ
balance_of none = pos 0
balance_of (some f) = f.balance

unfoldable pub write_check_in : Actor → ℕ → (room_id : ℕ) → ReservationStatus → Action (Unit {0})
write_check_in actor i room from = transaction do
  update_reservation i (arrived room)
  update_room room (room_status RoomStatus.occupied)
  add_history i (some from) ReservationStatus.checked_in actor.id "check-in"
  record_audit actor "reservation.check_in" "Reservation" i

module _ (ext : External) where
  -- `if (dto.depositAmount && dto.depositMethod)`: an amount of 0 is no deposit
  abbrev pub deposit : Actor → ℕ → Option ℤ → Option PaymentMethod → Action (Unit {0})
  deposit actor i none method = pure tt
  deposit actor i (some amount) none = pure tt
  deposit actor i (some amount) (some method) = when (differs amount (pos 0)) (
      record_payment ext actor i (record {
        amount = amount;
        method = method;
        type = PaymentType.deposit;
        currency = none;
        fx_rate = none;
        reference = none;
        idempotency_key = none;
      })
      >> pure tt)

  unfoldable pub check_in : Actor → ℕ → CheckInDto → Action ℕ
  unfolding write_check_in
  check_in actor i dto = do
    reservation ← or_throw (← gets λ db. find_own actor.hotel_id i db.reservations) Error.not_found
    throw_if (not (may_check_in reservation.status)) Error.bad_request
    room ← or_throw (or_option dto.room_id reservation.room_id) Error.bad_request
    or_throw (← gets λ db. find_own actor.hotel_id room db.rooms) Error.not_found
    write_check_in actor i room reservation.status
    deposit actor i dto.deposit_amount dto.deposit_method
    emit (DomainEvent.reservation_checked_in actor.hotel_id i room actor.id)
    pure room

unfoldable pub write_check_out : Actor → ℕ → (room_id : ℕ) → Action (Unit {0})
write_check_out actor i room = transaction do
  update_reservation i (with_status ReservationStatus.checked_out)
  update_room room (room_status RoomStatus.dirty)
  add_history i (some ReservationStatus.checked_in) ReservationStatus.checked_out actor.id
      "check-out"
  record_audit actor "reservation.check_out" "Reservation" i

-- `checkOut`; the two handlers of its event run after the outbox row is written, and write different
-- tables
unfoldable pub check_out : (now : ℕ) → Actor → ℕ → Action ℤ
unfolding write_check_out on_reservation_checked_out on_checked_out
check_out now actor i = do
  reservation ← or_throw (← gets λ db. find_own actor.hotel_id i db.reservations) Error.not_found
  throw_if (not (is_checked_in reservation.status)) Error.bad_request
  room ← or_throw reservation.room_id Error.bad_request
  folio ← gets λ db. find_first (of_reservation i) db.folios
  write_check_out actor i room
  emit (DomainEvent.reservation_checked_out actor.hotel_id i room (balance_of folio) actor.id)
  on_reservation_checked_out now actor.hotel_id room
  on_checked_out now i
  pure (balance_of folio)
