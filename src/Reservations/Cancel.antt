-- ===== src/Reservations/Cancel.antt =====
-- ReservationsService.cancel, and the job that cancels the holds that have run out.
use hospitality_os.Common.{
  Bool, List, Option, String, [], false, filterb, ltb, none, some, true, ℕ, ◌&&◌, ◌+◌, ◌∷◌,
}
use hospitality_os.Enums.{ActorType, ReservationStatus, Role}
use hospitality_os.Reservations.Constraint.{add_history, update_reservation, with_status}
use hospitality_os.Reservations.Create.{is_held}
use hospitality_os.Reservations.Modify.{get_reservation}
use hospitality_os.Store.{
  Action, Actor, Db, DomainEvent, Error, Reservation, Result, emit, err, modify, ok, record_audit,
  throw_if, transaction, ◌>>=◌, ◌>>◌,
}

abbrev pub is_checked_out : ReservationStatus → Bool
is_checked_out ReservationStatus.checked_out = true
is_checked_out _ = false

unfoldable pub cancel : Actor → ℕ → String → Action (Unit {0})
cancel actor i reason = do
  current ← get_reservation actor.hotel_id i
  throw_if (is_checked_out current.status) Error.bad_request
  transaction do
    update_reservation i (with_status ReservationStatus.cancelled)
    add_history i (some current.status) ReservationStatus.cancelled actor.id reason
    record_audit actor "reservation.cancel" "Reservation" i
  emit (DomainEvent.reservation_cancelled actor.hotel_id i reason)

-- `systemActor(hotelId)` (apps/api/src/common/actor.ts)
abbrev pub system_actor : ℕ → Actor
system_actor h = record { id = none; type = ActorType.system; role = none; hotel_id = h }

-- `{ status: HELD, holdExpiresAt: { not: null, lt: now } }`
abbrev pub is_before : Option ℕ → ℕ → Bool
is_before none now = false
is_before (some t) now = ltb t now

abbrev pub is_expired_hold : ℕ → Reservation → Bool
is_expired_hold now r = is_held r.status && is_before r.hold_expires_at now

-- `notification.create({ data })`
abbrev pub notify : ℕ → Role → String → ℕ → Action (Unit {0})
notify h role type i = modify λ db. record db {
  notifications =
      record { hotel_id = h; role = role; type = type; entity_ref = i } ∷ db.notifications;
}

unfoldable pub release_hold : Reservation → Action (Unit {0})
unfolding cancel
release_hold r = do
  cancel (system_actor r.hotel_id) r.id "Hold expired — auto-released"
  notify r.hotel_id Role.front_desk "reservation.hold_expired" r.id

-- the loop: a hold that cannot be released is logged and passed over
abbrev pub tally : ℕ → Result (Unit {0}) × Db → ℕ × Db
tally n (ok _, db) = (n + 1, db)
tally n (err _, db) = (n, db)

unfoldable pub release_holds : List Reservation → ℕ → Db → ℕ × Db
unfolding release_hold
release_holds [] n db = (n, db)
release_holds (r ∷ rs) n db = let (n', db') = tally n (release_hold r db) in release_holds rs n' db'

unfoldable pub release_expired_holds : (now : ℕ) → Db → ℕ × Db
unfolding release_holds
release_expired_holds now db = release_holds (filterb (is_expired_hold now) db.reservations) 0 db
