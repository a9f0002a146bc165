-- ===== src/Reservations/Holds.antt =====
-- The job that releases the holds that have run out (ReservationsService.releaseExpiredHolds): it
-- reads the expired holds once, and cancels them one by one.
use hospitality_os.Common.{
  List, String, [], any, ap, arith, false, filterb, length, refl, some, sym, true, ℕ, ◌+◌, ◌∙◌, ◌∷◌,
  ◌≡◌,
}
use hospitality_os.Enums.{ReservationStatus, Role}
use hospitality_os.Reservations.Cancel.{
  cancel, is_checked_out, is_expired_hold, notify, release_expired_holds, release_hold,
  release_holds, system_actor,
}
use hospitality_os.Reservations.Constraint.{has_overlap, with_status}
use hospitality_os.Reservations.Offer.{filterb-head}
use hospitality_os.Reservations.Release.{cancel_lem, cancelled_db, freed-NoOverlap}
use hospitality_os.Reservations.Sweep.{
  distinct_ids, distinct_ids-update_by, head_found, head_gone, none_left,
}
use hospitality_os.Store.{Db, Reservation, bind-ok, find_by, ok, reservation_keyed, update_many}

-- the hold of one reservation
abbrev pub cancelled : Reservation → Reservation
cancelled = with_status ReservationStatus.cancelled

expired_live :
    (now : ℕ) (r : Reservation) → is_expired_hold now r ≡ true → is_checked_out r.status ≡ false
expired_live now r h = ground arith

-- what the release of a hold leaves
abbrev released_db : Reservation → Db → Db
released_db r db =
    let after = cancelled_db (system_actor r.hotel_id) r "Hold expired — auto-released" db in
    record after {
      notifications =
          record {
            hotel_id = r.hotel_id;
            role = Role.front_desk;
            type = "reservation.hold_expired";
            entity_ref = r.id;
          }
          ∷ db.notifications;
    }

release_hold_lem :
    (r : Reservation) (db : Db)
    → find_by r.id db.reservations ≡ some r
    → is_checked_out r.status ≡ false
    → has_overlap db.reservations ≡ false
    → release_hold r db ≡ (ok tt, released_db r db)
unfolding release_hold
release_hold_lem r db found live keeps =
    let actor = system_actor r.hotel_id in
    let text : String = "Hold expired — auto-released" in
    bind-ok (cancel actor r.id text)
      (λ _. notify r.hotel_id Role.front_desk "reservation.hold_expired" r.id) db
      (cancelled_db actor r text db) tt
      (cancel_lem actor r.id text db r (ground (arith, found)) live keeps).0

release_holds_lem :
    (now n : ℕ) (rs : List Reservation) (db : Db)
    → filterb (is_expired_hold now) db.reservations ≡ rs
    → distinct_ids db.reservations ≡ true
    → has_overlap db.reservations ≡ false
    → let (count, db') = release_holds rs n db in
      (count ≡ n + length rs)
      × (db'.reservations ≡ update_many (is_expired_hold now) cancelled db.reservations)
unfolding release_holds
release_holds_lem now n [] db e d keeps =
    (omega arith, sym (none_left (is_expired_hold now) cancelled db.reservations e))
release_holds_lem now n (r ∷ rs) db e d keeps =
    let p = is_expired_hold now in
    let found = head_found p cancelled r db.reservations rs e d in
    let live = expired_live now r (filterb-head p r rs db.reservations e) in
    let gone = head_gone p cancelled r db.reservations rs (λ x. refl) e d in
    let rest =
      release_holds_lem now (n + 1) rs (released_db r db) gone.0
        (distinct_ids-update_by r.id cancelled db.reservations (λ x. refl) ∙ d)
        (freed-NoOverlap cancelled r.id db.reservations (λ x. refl) keeps) in
    rw (release_holds, release_hold_lem r db found live keeps)
      (omega (arith, rest.0), rest.1 ∙ gone.1)

update_many-none :
    (now : ℕ) (rs : List Reservation)
    → any (is_expired_hold now) (update_many (is_expired_hold now) cancelled rs) ≡ false
update_many-none now [] = refl
update_many-none now (r ∷ rs) = ground (arith, update_many-none now rs)

-- The sweep cancels every hold that has run out and no other reservation, its count is the number of
-- those holds, and after it no hold that has run out is left. The constraint holds before, and no
-- two reservations have the same identifier.
pub release_expired_holds_lem :
    (now : ℕ) (db : Db)
    → distinct_ids db.reservations ≡ true
    → has_overlap db.reservations ≡ false
    → let (count, db') = release_expired_holds now db in
      (count ≡ length (filterb (is_expired_hold now) db.reservations))
      × (db'.reservations ≡ update_many (is_expired_hold now) cancelled db.reservations)
      × (any (is_expired_hold now) db'.reservations ≡ false)
unfolding release_expired_holds
release_expired_holds_lem now db d keeps =
    let swept =
      release_holds_lem now 0 (filterb (is_expired_hold now) db.reservations) db refl d keeps in
    (
      omega (arith, swept.0),
      swept.1,
      ap (any (is_expired_hold now)) swept.1 ∙ update_many-none now db.reservations,
    )
