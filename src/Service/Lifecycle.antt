-- ===== src/Service/Lifecycle.antt =====
-- The statuses of the reservations over every sequence of calls.
use hospitality_os.Common.{List, String, any, false, inr, leb, refl, some, true, ℕ, ◌<◌, ◌≡◌}
use hospitality_os.Common.Int.{ℤ}
use hospitality_os.Enums.{ReservationStatus}
use hospitality_os.FrontDesk.{check_in, check_out}
use hospitality_os.Reservations.Booking.{try_rooms-Keeps}
use hospitality_os.Reservations.Cancel.{cancel, is_checked_out}
use hospitality_os.Reservations.Constraint.{
  add_history, has_overlap, update_reservation, with_status,
}
use hospitality_os.Reservations.Create.{CreateDto, create, create_inner}
use hospitality_os.Reservations.Modify.{ModifyDto, modified, modify_reservation, write_modified}
use hospitality_os.Reservations.Status.{Step, Steps, checked_out_final, write_same-Tracked}
use hospitality_os.Reservations.Sweep.{distinct_ids}
use hospitality_os.Service.Arrivals.{check_in-Tracks, check_out-Tracks}
use hospitality_os.Service.Calls.{Call, run_calls}
use hospitality_os.Service.Closing.{run_audit-IsKnown, run_audit-NoOverlap, run_audit-Tracks}
use hospitality_os.Service.Folios.{
  OnReservations, apply_promo-Keeps, as_conflict-holds, new_total-Keeps, on_reservations-Framed,
  pay-Keeps, post_to-Keeps, quote-Keeps, record_payment-Keeps, redeem_gift_card-Keeps, run-Keeps,
  upsert_guest-Keeps,
}
use hospitality_os.Service.Invariants.{Kept, run_calls-keeps}
use hospitality_os.Service.Known.{
  IsKnown, Known-on, cancel-IsKnown, check_in-IsKnown, check_out-IsKnown, create-IsKnown,
  modify_reservation-IsKnown, update_reservation-IsKnown,
}
use hospitality_os.Service.Overlap.{
  NoOverlap, NoOverlap-on, cancel-NoOverlap, check_in-NoOverlap, check_out-NoOverlap,
  create-NoOverlap, modify_reservation-NoOverlap, update_reservation-NoOverlap,
}
use hospitality_os.Service.Tracking.{
  Tracks, Tracks-on, book_room-Tracks, others-Keeps, own_late-Tracks, update-Tracks,
}
use hospitality_os.Service.Transfers.{reconcile_transfer-Keeps, reconcile_transfer-Tracks}
use hospitality_os.Store.{
  Action, Actor, Db, DomainEvent, Error, External, Keeps, Reservation, bind-at, emit, find_by,
  keeping, modify, record_audit, reservation_keyed, room_keyed, throw_if-then, transaction,
  transaction-at, update_by, ◌>>=◌, ◌>>◌,
}
use hospitality_os.VirtualAccounts.{reconcile_transfer}

module _ (j : ℕ) (s : ReservationStatus) where
  create_inner-Tracks :
      (ext : External) (now ttl : ℕ) (actor : Actor) (dto : CreateDto) (status : ReservationStatus)
      → Keeps (Tracks j s) (create_inner ext now ttl actor dto status)
  unfolding create_inner
  create_inner-Tracks ext now ttl actor dto status =
      search
        (
          keeping,
          quote-Keeps (Tracks j s) (Tracks-on j s),
          upsert_guest-Keeps (Tracks j s) (Tracks-on j s),
          try_rooms-Keeps,
          book_room-Tracks,
        )
        depth 24

  create-Tracks :
      (ext : External) (now ttl : ℕ) (actor : Actor) (dto : CreateDto) (status : ReservationStatus)
      → Keeps (Tracks j s) (create ext now ttl actor dto status)
  unfolding create
  create-Tracks ext now ttl actor dto status =
      search (keeping, run-Keeps (Tracks j s) (Tracks-on j s), create_inner-Tracks) depth 12

  cancel-Tracks :
      (actor : Actor) (i : ℕ) (reason : String) → Keeps (Tracks j s) (cancel actor i reason)
  unfolding cancel
  cancel-Tracks actor i reason = own_late-Tracks j s actor.hotel_id i _ (λ r db e t.
      throw_if-then (λ x. Tracks j s x.1) (is_checked_out r.status) Error.bad_request (written r) db
        t
        (λ live.
          bind-at (Tracks j s) (transaction (row r)) (λ _. event) db
            (transaction-at (Tracks j s) (row r) db
              (bind-at (Tracks j s) (update_reservation i (with_status ReservationStatus.cancelled))
                (λ _. trail r) db
                (update-Tracks j s i (with_status ReservationStatus.cancelled) r db e (λ x. refl)
                  (inr (Step.cancels r.status live)) t)
                (λ _. search (keeping, others-Keeps)))
              t)
            (λ _. search (others-Keeps))))
    where
      trail : Reservation → Action (Unit {0})
      trail r =
          add_history i (some r.status) ReservationStatus.cancelled actor.id reason
          >> record_audit actor "reservation.cancel" "Reservation" i

      row : Reservation → Action (Unit {0})
      row r = update_reservation i (with_status ReservationStatus.cancelled) >> trail r

      event : Action (Unit {0})
      event = emit (DomainEvent.reservation_cancelled actor.hotel_id i reason)

      written : Reservation → Action (Unit {0})
      written r = transaction (row r) >> event

  modified-Tracks :
      (i : ℕ) (dto : ModifyDto) (total : ℤ) (current : Reservation)
      → Keeps (Tracks j s) (update_reservation i (modified dto total current))
  unfolding ◌>>=◌
  modified-Tracks i dto total current db t =
      throw_if-then (λ x. Tracks j s x.1)
        (has_overlap (update_by i (modified dto total current) db.reservations))
        Error.exclusion_violation
        (modify
          λ d. record d { reservations = update_by i (modified dto total current) db.reservations })
        db t
        (λ _.
          write_same-Tracked j i s (modified dto total current) db.reservations db.next_id
            (λ x. refl) (λ x. refl) t)

  write_modified-Tracks :
      (actor : Actor) (i : ℕ) (dto : ModifyDto) (current : Reservation) (total : ℤ)
      → Keeps (Tracks j s) (write_modified actor i dto current total)
  unfolding write_modified
  write_modified-Tracks actor i dto current total =
      search (keeping, modified-Tracks, others-Keeps, post_to-Keeps (Tracks j s) (Tracks-on j s))
        depth 20

  modify-Tracks :
      (ext : External) (actor : Actor) (i : ℕ) (dto : ModifyDto)
      → Keeps (Tracks j s) (modify_reservation ext actor i dto)
  unfolding modify_reservation
  modify-Tracks ext actor i dto =
      search
        (
          keeping,
          write_modified-Tracks,
          others-Keeps,
          new_total-Keeps (Tracks j s) (Tracks-on j s),
          as_conflict-holds (Tracks j s) (Tracks-on j s),
        )
        depth 16

-- a tracked reservation in a table whose rows are distinct and do not overlap
abbrev Whole : ℕ → ReservationStatus → Db → Type 0
Whole j s db = NoOverlap db × IsKnown db × Tracks j s db

module _ {A : Type 0} (j : ℕ) (s : ReservationStatus) (m : Action A) where
  together : Keeps NoOverlap m → Keeps IsKnown m → Keeps (Tracks j s) m → Keeps (Whole j s) m
  together overlap known tracks db (o, k, t) = (overlap db o, known db k, tracks db t)

Whole-on : (j : ℕ) (s : ReservationStatus) → OnReservations (Whole j s)
Whole-on j s = record {
  carried = λ db db' rs n (o, k, t). (
    NoOverlap-on.carried db db' rs n o,
    Known-on.carried db db' rs n k,
    (Tracks-on j s).carried db db' rs n t,
  );
}

Whole-Kept : (ext : External) (j : ℕ) (s : ReservationStatus) → Kept ext (Whole j s)
Whole-Kept ext j s = record {
  framed = on_reservations-Framed (Whole j s) (Whole-on j s);
  by_create = λ now ttl actor dto st.
      together j s (create ext now ttl actor dto st) (create-NoOverlap ext now ttl actor dto st)
        (create-IsKnown ext now ttl actor dto st) (create-Tracks j s ext now ttl actor dto st);
  by_modify = λ actor i dto.
      together j s (modify_reservation ext actor i dto)
        (modify_reservation-NoOverlap ext actor i dto) (modify_reservation-IsKnown ext actor i dto)
        (modify-Tracks j s ext actor i dto);
  by_cancel = λ actor i reason.
      together j s (cancel actor i reason) (cancel-NoOverlap actor i reason)
        (cancel-IsKnown actor i reason) (cancel-Tracks j s actor i reason);
  by_check_in = λ actor i dto.
      together j s (check_in ext actor i dto) (check_in-NoOverlap ext actor i dto)
        (check_in-IsKnown ext actor i dto) (check_in-Tracks j s ext actor i dto);
  by_check_out = λ now actor i.
      together j s (check_out now actor i) (check_out-NoOverlap now actor i)
        (check_out-IsKnown now actor i) (check_out-Tracks j s now actor i);
  by_payment = record_payment-Keeps (Whole j s) (Whole-on j s) ext;
  by_pay = pay-Keeps (Whole j s) (Whole-on j s);
  by_promo = apply_promo-Keeps (Whole j s) (Whole-on j s) ext;
  by_card = redeem_gift_card-Keeps (Whole j s) (Whole-on j s) ext;
  by_transfer = λ now stamp actor dto.
      together j s (reconcile_transfer ext now stamp actor dto)
        (reconcile_transfer-Keeps NoOverlap (on_reservations-Framed NoOverlap NoOverlap-on)
          (record_payment-Keeps NoOverlap NoOverlap-on)
          (λ i g ids. update_reservation-NoOverlap i g) ext now stamp actor dto)
        (reconcile_transfer-Keeps IsKnown (on_reservations-Framed IsKnown Known-on)
          (record_payment-Keeps IsKnown Known-on) update_reservation-IsKnown ext now stamp actor
          dto)
        (reconcile_transfer-Tracks j s ext now stamp actor dto);
  by_audit = λ now actor db (o, k, t). (
    run_audit-NoOverlap ext now actor db o,
    run_audit-IsKnown ext now actor db k,
    run_audit-Tracks j s ext now actor db o k t,
  );
}

-- A reservation of the database, whose id is below the next one to be given, is still found after
-- any sequence of the calls that are listed as Call, and its status has moved along the steps of the
-- state machine: a confirmed or held one is checked in, a held one is confirmed by a bank transfer,
-- one that is checked in is checked out, a confirmed one becomes a no-show, any that is not checked
-- out is cancelled, and these calls make no other step. The constraint holds before, no two
-- reservations have the same identifier, and all identifiers are below the next one.
pub run_calls-Steps :
    (ext : External) (cs : List Call) (db : Db) (j : ℕ) (r : Reservation)
    → has_overlap db.reservations ≡ false
    → distinct_ids db.reservations ≡ true
    → any (λ x. leb db.next_id x.id) db.reservations ≡ false
    → j < db.next_id
    → find_by j db.reservations ≡ some r
    → (r' : Reservation) × (find_by j (run_calls ext cs db).reservations ≡ some r')
      × Steps r.status r'.status
run_calls-Steps ext cs db j r o d b below found =
    let whole = run_calls-keeps ext (Whole j r.status) (Whole-Kept ext j r.status) cs db (
      o,
      record { distinct = d; below = b },
      record { below = below; row = r; found = found; path = Steps.stays r.status },
    ) in
    let t = whole.2 in (t.row, t.found, t.path)

-- A reservation that is checked out, and whose id is below the next one to be given, is found and
-- checked out after any sequence of the calls that are listed as Call. The constraint holds before, no two reservations have the
-- same identifier, and all identifiers are below the next one.
pub run_calls-checked_out :
    (ext : External) (cs : List Call) (db : Db) (j : ℕ) (r : Reservation)
    → has_overlap db.reservations ≡ false
    → distinct_ids db.reservations ≡ true
    → any (λ x. leb db.next_id x.id) db.reservations ≡ false
    → j < db.next_id
    → find_by j db.reservations ≡ some r
    → is_checked_out r.status ≡ true
    → (r' : Reservation) × (find_by j (run_calls ext cs db).reservations ≡ some r')
      × (is_checked_out r'.status ≡ true)
run_calls-checked_out ext cs db j r o d b below found out =
    let (r', found', path) = run_calls-Steps ext cs db j r o d b below found in
    (r', found', checked_out_final r.status r'.status path out)
