-- ===== src/Reservations/Booking.antt =====
-- The loop over the candidate rooms, seen from outside.
use hospitality_os.Common.{List, [], ◌∷◌}
use hospitality_os.Reservations.Create.{next_on_violation, try_rooms}
use hospitality_os.Store.{Action, Db, Error, Keeps, Reservation, Result, Room, err, ok}

abbrev NextKeeps {ℓ} : (P : Db → Type ℓ) → (Db → Result Reservation × Db) → Type ℓ
NextKeeps P next = (db : Db) → P db → P (next db).1

module _ {ℓ} (P : Db → Type ℓ) where
  next_on_violation-keeps :
      (next : Db → Result Reservation × Db) (r : Result Reservation × Db)
      → NextKeeps P next
      → P r.1
      → P (next_on_violation next r).1
  next_on_violation-keeps next (ok a, db) k h = h
  next_on_violation-keeps next (err Error.exclusion_violation, db) k h = k db h
  next_on_violation-keeps next (err _, db) k h = h

  -- what every try keeps, the loop keeps
  pub try_rooms-Keeps :
      (book : Room → Action Reservation) (rooms : List Room)
      → ((room : Room) → Keeps P (book room))
      → Keeps P (try_rooms book rooms)
  unfolding try_rooms
  try_rooms-Keeps book [] keeps db h = h
  try_rooms-Keeps book (room ∷ rooms) keeps db h =
      next_on_violation-keeps (try_rooms book rooms) (book room db)
        (try_rooms-Keeps book rooms keeps) (keeps room db h)
