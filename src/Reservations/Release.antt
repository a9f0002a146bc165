-- ===== src/Reservations/Release.antt =====
-- A cancellation gives the room back: it always goes through, and no other row changes.
use hospitality_os.Common.{
  List, String, [], any, ap, arith, false, filterb, not, refl, some, ℕ, ◌==◌, ◌∙◌, ◌∷◌, ◌≡◌,
}
use hospitality_os.Enums.{ReservationStatus, is_blocking}
use hospitality_os.Reservations.Availability.{keeps_busy}
use hospitality_os.Reservations.Cancel.{cancel, is_checked_out}
use hospitality_os.Reservations.Constraint.{conflicts, has_overlap, with_status}
use hospitality_os.Store.{
  Actor, Db, DomainEvent, Reservation, find_by, find_own, find_own-found, ok, reservation_keyed,
  update_by, ◌>>=◌,
}

conflicts-shrink :
    (g : Reservation → Reservation) (i : ℕ) (r : Reservation) (rs : List Reservation)
    → ((x : Reservation) → is_blocking (g x).status ≡ false)
    → any (conflicts r) rs ≡ false
    → any (conflicts r) (update_by i g rs) ≡ false
unfolding update_by
conflicts-shrink g i r [] freed h = refl
conflicts-shrink g i r (x ∷ rs) freed h = ground (arith, freed x, conflicts-shrink g i r rs freed)

pub no_conflict :
    (r : Reservation) (rs : List Reservation)
    → is_blocking r.status ≡ false
    → any (conflicts r) rs ≡ false
no_conflict r [] e = refl
no_conflict r (x ∷ rs) e = ground (arith, no_conflict r rs e)

-- A row that stops blocking breaks no constraint.
pub freed-NoOverlap :
    (g : Reservation → Reservation) (i : ℕ) (rs : List Reservation)
    → ((x : Reservation) → is_blocking (g x).status ≡ false)
    → has_overlap rs ≡ false
    → has_overlap (update_by i g rs) ≡ false
unfolding has_overlap update_by
freed-NoOverlap g i [] freed h = refl
freed-NoOverlap g i (x ∷ rs) freed h = ground (
  arith,
  no_conflict (g x) (update_by i g rs) (freed x),
  conflicts-shrink g i x rs freed,
  freed-NoOverlap g i rs freed,
)

-- the reservations other than the one with that id
abbrev pub others : ℕ → List Reservation → List Reservation
others i rs = filterb (λ r. not (r.id == i)) rs

released-busy :
    (i room from to : ℕ) (rs : List Reservation)
    → any (keeps_busy room from to) (update_by i (with_status ReservationStatus.cancelled) rs)
      ≡ any (keeps_busy room from to) (others i rs)
unfolding update_by
released-busy i room from to [] = refl
released-busy i room from to (x ∷ rs) = ground (arith, released-busy i room from to rs)

-- what a cancellation leaves
abbrev pub cancelled_db : Actor → Reservation → String → Db → Db
cancelled_db actor r reason db = record db {
  reservations = update_by r.id (with_status ReservationStatus.cancelled) db.reservations;
  history =
      record {
        reservation_id = r.id;
        from_status = some r.status;
        to_status = ReservationStatus.cancelled;
        by_id = actor.id;
        note = reason;
      }
      ∷ db.history;
  audits =
      record {
        hotel_id = actor.hotel_id;
        actor_id = actor.id;
        actor_type = actor.type;
        action = "reservation.cancel";
        entity = "Reservation";
        entity_id = r.id;
      }
      ∷ db.audits;
  outbox = DomainEvent.reservation_cancelled actor.hotel_id r.id reason ∷ db.outbox;
}

-- A reservation of the hotel that is not checked out is cancelled: the constraint does not reject the
-- write, and the history, the audit and the event follow. A room is then as busy as the other
-- reservations keep it.
pub cancel_lem :
    (actor : Actor) (i : ℕ) (reason : String) (db : Db) (r : Reservation)
    → find_own actor.hotel_id i db.reservations ≡ some r
    → is_checked_out r.status ≡ false
    → has_overlap db.reservations ≡ false
    → (cancel actor i reason db ≡ (ok tt, cancelled_db actor r reason db))
      × ((room from to : ℕ)
          → any (keeps_busy room from to) (cancel actor i reason db).1.reservations
            ≡ any (keeps_busy room from to) (others i db.reservations))
unfolding cancel ◌>>=◌
cancel_lem actor i reason db r e open_stay keeps = (
  done,
  λ room from to.
      ap (λ x. any (keeps_busy room from to) x.1.reservations) done
      ∙ rw (found.1) (released-busy i room from to db.reservations),
)
  where
    found : (find_by i db.reservations ≡ some r) × (r.id ≡ i) × (r.hotel_id ≡ actor.hotel_id)
    found = find_own-found actor.hotel_id i db.reservations r e

    accepted :
        has_overlap (update_by i (with_status ReservationStatus.cancelled) db.reservations) ≡ false
    accepted =
        freed-NoOverlap (with_status ReservationStatus.cancelled) i db.reservations (λ x. refl)
          keeps

    done : cancel actor i reason db ≡ (ok tt, cancelled_db actor r reason db)
    done = ground (arith, accepted, found, e, open_stay)
