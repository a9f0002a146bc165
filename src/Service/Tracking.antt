-- ===== src/Service/Tracking.antt =====
-- The status of one reservation through every call that writes the table of reservations.
use hospitality_os.Common.{
  Bool, Option, String, arith, false, if◌then◌else◌, refl, some, true, ℕ, ◌∷◌, ◌≡◌, ◌⊎◌,
}
use hospitality_os.Common.Int.{ℤ}
use hospitality_os.Enums.{ReservationStatus}
use hospitality_os.Reservations.Constraint.{has_overlap, update_reservation}
use hospitality_os.Reservations.Create.{CreateDto, book_room}
use hospitality_os.Reservations.Modify.{get_reservation}
use hospitality_os.Reservations.Offer.{book_room_lem, booked, booking}
use hospitality_os.Reservations.Status.{Step, Tracked, write-Tracked}
use hospitality_os.Service.Folios.{OnReservations, write-Keeps}
use hospitality_os.Store.{
  Action, Actor, Db, Error, Keeps, Reservation, Result, Room, err, find_by, find_by-cons, find_own,
  find_own-found, gets, modify, ok, or_throw, or_throw-then, reservation_keyed, throw_if-then,
  update_by, ◌>>=◌,
}

-- the reservation `j` has moved from the status `s` along the steps
abbrev pub Tracks : ℕ → ReservationStatus → Db → Type 0
Tracks j s db = Tracked j s db.reservations db.next_id

pub Tracks-on : (j : ℕ) (s : ReservationStatus) → OnReservations (Tracks j s)
Tracks-on j s = record {
  carried = λ db db' rs n t. record {
    below = omega (arith, t.below);
    row = t.row;
    found = rw rs t.found;
    path = t.path;
  };
}

module _ (j : ℕ) (s : ReservationStatus) where
  -- the write of the reservation that was found
  pub update-Tracks :
      (i : ℕ) (g : Reservation → Reservation) (r : Reservation) (db : Db)
      → find_by i db.reservations ≡ some r
      → ((x : Reservation) → (g x).id ≡ x.id)
      → ((g r).status ≡ r.status) ⊎ Step r.status (g r).status
      → Tracks j s db
      → Tracks j s (update_reservation i g db).1
  unfolding ◌>>=◌
  update-Tracks i g r db e ids move_on t =
      throw_if-then (λ x. Tracks j s x.1) (has_overlap (update_by i g db.reservations))
        Error.exclusion_violation
        (modify λ d. record d { reservations = update_by i g db.reservations }) db t
        (λ _. write-Tracked j i s g r db.reservations db.next_id e ids move_on t)

  -- what is done with a reservation of the hotel
  pub own-Tracks :
      {A : Type 0} (h i : ℕ) (f : Reservation → Action A)
      → ((r : Reservation) (db : Db)
          → find_by i db.reservations ≡ some r
          → Tracks j s db
          → Tracks j s (f r db).1)
      → Keeps
          (Tracks j s)
          (gets (λ db. find_own h i db.reservations) >>= λ r. or_throw r Error.not_found >>= f)
  unfolding ◌>>=◌
  own-Tracks h i f each db t =
      or_throw-then (λ r. Tracks j s r.1) (find_own h i db.reservations) Error.not_found f db t
        (λ r e. each r db (in_table r e) t)
    where
      in_table :
          (r : Reservation)
          → find_own h i db.reservations ≡ some r
          → find_by i db.reservations ≡ some r
      in_table r e = let facts = find_own-found h i db.reservations r e in facts.0

  pub own_late-Tracks :
      {A : Type 0} (h i : ℕ) (f : Reservation → Action A)
      → ((r : Reservation) (db : Db)
          → find_by i db.reservations ≡ some r
          → Tracks j s db
          → Tracks j s (f r db).1)
      → Keeps (Tracks j s) (get_reservation h i >>= f)
  unfolding ◌>>=◌
  own_late-Tracks h i f each = own-Tracks h i f each

  pub others-Keeps :
      (g : Db → Db)
      → ((db : Db) → (g db).reservations ≡ db.reservations)
      → ((db : Db) → (g db).next_id ≡ db.next_id)
      → Keeps (Tracks j s) (modify g)
  others-Keeps = write-Keeps (Tracks j s) (Tracks-on j s)

  pub book_room-Tracks :
      (actor : Actor) (dto : CreateDto) (status : ReservationStatus) (hold : Option ℕ) (guest : ℕ)
      (total : ℤ) (currency : String) (room : Room)
      → Keeps (Tracks j s) (book_room actor dto status hold guest total currency room)
  book_room-Tracks actor dto status hold guest total currency room db t =
      let row = booking actor dto status hold guest total currency db.next_id room in
      rw (book_room_lem actor dto status hold guest total currency room db)
        (accepted (has_overlap (row ∷ db.reservations)) row refl)
    where
      accepted :
          (c : Bool) (row : Reservation)
          → row.id ≡ db.next_id
          → let r : Result Reservation × Db =
              (if c
                then (err Error.exclusion_violation, db)
                else (ok row, booked actor status row db)) in
            Tracks j s r.1
      accepted true row e = t
      accepted false row e = record {
        below = omega (arith, t.below);
        row = t.row;
        found = ground (arith, e, t.below, t.found, find_by-cons j row db.reservations);
        path = t.path;
      }
