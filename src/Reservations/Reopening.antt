-- ===== src/Reservations/Reopening.antt =====
-- A cancellation on the calendar: the constraint leaves a time of a room to one reservation, so what
-- the row gives back is all that changes.
use hospitality_os.Common.{
  ==_refl, Bool, Bool-cases, List, Option, String, [], any, ap, arith, false, filterb, fun_ext,
  head_eq, inl, inr, ltb, none, not, option_eq, refl, some, sym, true, ℕ, ◌&&◌, ◌-◌, ◌==◌, ◌||◌,
  ◌∙◌, ◌∷◌, ◌≡◌,
}
use hospitality_os.Common.Int.{ℤ}
use hospitality_os.Enums.{ReservationStatus, is_blocking}
use hospitality_os.Reservations.Calendar.{
  Calendar, calendar, conflicts-vacant, free_times, keeps_room, overlap-vacant, seen, vacant,
  within,
}
use hospitality_os.Reservations.Cancel.{cancel, is_checked_out}
use hospitality_os.Reservations.Constraint.{conflicts, has_overlap, same_room, with_status}
use hospitality_os.Reservations.Create.{CreateDto, book_room}
use hospitality_os.Reservations.Offer.{book_room_lem, booked, booking, or_false}
use hospitality_os.Reservations.Release.{cancel_lem, others}
use hospitality_os.Store.{
  Actor, Db, Reservation, Result, Room, err, find_by, find_by-key, ok, reservation_keyed, update_by,
}

-- the calendar without one reservation
abbrev pub released : Reservation → Calendar → Calendar
released r c i t = not (keeps_room i t r) && c i t

keeps_room_parts :
    (r : Reservation) (i t : ℕ)
    → keeps_room i t r ≡ true
    → (r.room_id ≡ some i)
      × (is_blocking r.status ≡ true)
      × (within r.check_in_date r.check_out_date t ≡ true)
keeps_room_parts r i t h =
    split r.room_id (is_blocking r.status) (within r.check_in_date r.check_out_date t) h
  where
    split :
        (o : Option ℕ) (b c : Bool)
        → (option_eq o i && b && c) ≡ true
        → (o ≡ some i) × (b ≡ true) × (c ≡ true)
    split none b c h = ground arith
    split (some j) b c h = ground arith

-- two rows that do not conflict do not hold a room at the same time
one_holder :
    (r : Reservation) (i t : ℕ) (rs : List Reservation)
    → any (conflicts r) rs ≡ false
    → keeps_room i t r ≡ true
    → any (keeps_room i t) rs ≡ false
one_holder r i t rs c h =
    let parts = keeps_room_parts r i t h in free_times r i t rs parts.0 parts.1 parts.2 c

same_room-sym : (o p : Option ℕ) → same_room o p ≡ same_room p o
same_room-sym none none = refl
same_room-sym none (some j) = refl
same_room-sym (some i) none = refl
same_room-sym (some i) (some j) = ground arith

conflicts-sym : (a b : Reservation) → conflicts a b ≡ conflicts b a
conflicts-sym a b = rw (same_room-sym a.room_id b.room_id) (
    turn (is_blocking a.status) (is_blocking b.status) (same_room b.room_id a.room_id)
      (ltb a.check_in_date b.check_out_date) (ltb b.check_in_date a.check_out_date)
      (ltb a.check_in_date a.check_out_date) (ltb b.check_in_date b.check_out_date))
  where
    turn :
        (a b s l m n o : Bool)
        → (a && b && s && (l && m && n && o)) ≡ (b && a && s && (m && l && o && n))
    turn a b s l m n o = ground arith

module _ (p : Reservation → Bool) (q : Reservation → Bool) where
  any-split :
      (rs : List Reservation)
      → any p rs ≡ (any p (filterb q rs) || any p (filterb (λ x. not (q x)) rs))
  any-split [] = refl
  any-split (x ∷ rs) = ground (arith, any-split rs)

  any-part :
      (rs : List Reservation)
      → any p rs ≡ false
      → (any p (filterb q rs) ≡ false) × (any p (filterb (λ x. not (q x)) rs) ≡ false)
  any-part rs h = or_false _ _ (sym (any-split rs) ∙ h)

-- the row that a key picks out conflicts with none of the others
picked-conflicts :
    (q : Reservation → Bool) (r : Reservation) (rs : List Reservation)
    → has_overlap rs ≡ false
    → filterb q rs ≡ r ∷ []
    → any (conflicts r) (filterb (λ x. not (q x)) rs) ≡ false
unfolding has_overlap
picked-conflicts q r [] h e = refl
picked-conflicts q r (x ∷ rs) h e =
    let parts = or_false (any (conflicts x) rs) (has_overlap rs) h in
    elim (Bool-cases (q x)) [
      | inl mine ↦ rw mine (
          rw (head_eq x r (filterb q rs) [] (rw mine at e)) at
            (any-part (conflicts x) q rs parts.0).1)
      | inr other ↦
          let rest = rw other at e in
          let met = (any-part (conflicts x) q rs parts.0).0 in
          rw (other, conflicts-sym r x, (or_false (conflicts x r) false (rw rest at met)).0)
            (picked-conflicts q r rs parts.1 rest)
    ]

calendar-update :
    (i t j : ℕ) (rs : List Reservation)
    → any (keeps_room i t) (update_by j (with_status ReservationStatus.cancelled) rs)
      ≡ any (keeps_room i t) (others j rs)
unfolding update_by
calendar-update i t j [] = refl
calendar-update i t j (x ∷ rs) = ground (arith, calendar-update i t j rs)

-- what the others keep, for the row that has the key
pub calendar-released :
    (j : ℕ) (r : Reservation) (rs : List Reservation)
    → has_overlap rs ≡ false
    → filterb (λ x. x.id == j) rs ≡ r ∷ []
    → calendar (update_by j (with_status ReservationStatus.cancelled) rs) ≡ released r (calendar rs)
unfolding calendar
calendar-released j r rs h e = fun_ext λ i. fun_ext λ t.
    let mine = λ (x : Reservation). x.id == j in
    let split = any-split (keeps_room i t) mine rs in
    elim (Bool-cases (keeps_room i t r)) [
      | inl held ↦
          rw
            (
              calendar-update i t j rs,
              held,
              one_holder r i t (others j rs) (picked-conflicts mine r rs h e) held,
            )
            refl
      | inr free ↦ rw (calendar-update i t j rs, split, e, free) refl
    ]

find_by-picked :
    (i : ℕ) (r : Reservation) (rs : List Reservation)
    → filterb (λ x. x.id == i) rs ≡ r ∷ []
    → find_by i rs ≡ some r
unfolding find_by
find_by-picked i r [] e = ground arith
find_by-picked i r (x ∷ rs) e = elim (Bool-cases (x.id == i)) [
  | inl mine ↦ rw mine (ap some (head_eq x r (filterb (λ x. x.id == i) rs) [] (rw mine at e)))
  | inr other ↦ rw other (find_by-picked i r rs (rw other at e))
]

-- A cancellation of a stay that is not checked out returns, and gives the room back for exactly the
-- times that the reservation held it, in the calendar that the rows stand for. The constraint keeps_room
-- before, and the identifier is that of one row.
pub cancel-refines :
    (actor : Actor) (i : ℕ) (reason : String) (db : Db) (r : Reservation)
    → filterb (λ x. x.id == i) db.reservations ≡ r ∷ []
    → r.hotel_id ≡ actor.hotel_id
    → is_checked_out r.status ≡ false
    → has_overlap db.reservations ≡ false
    → seen (cancel actor i reason db) ≡ (true, released r (calendar db.reservations))
cancel-refines actor i reason db r e own live keeps =
    let found = find_by-picked i r db.reservations e in
    ap seen (cancel_lem actor i reason db r (ground (arith, found, own)) live keeps).0
    ∙ rw (find_by-key i db.reservations r found, calendar-released i r db.reservations keeps e) refl

released-new :
    (r : Reservation) (rs : List Reservation)
    → any (conflicts r) rs ≡ false
    → released r (calendar (r ∷ rs)) ≡ calendar rs
unfolding calendar
released-new r rs h = fun_ext λ i. fun_ext λ t. elim (Bool-cases (keeps_room i t r)) [
  | inl held ↦ rw (held, one_holder r i t rs h held) refl
  | inr free ↦ rw free refl
]

-- the cancellation of what a call has booked
abbrev pub undo : Actor → String → Result Reservation × Db → Bool × Calendar
undo actor reason (ok row, db) = seen (cancel actor row.id reason db)
undo actor reason (err e, db) = (false, calendar db.reservations)

module _ (actor : Actor) (dto : CreateDto) (status : ReservationStatus) (hold : Option ℕ)
    (guest : ℕ) (total : ℤ) (currency : String) where
  -- What is booked and then cancelled leaves the calendar as it was: the cancellation of the row that
  -- the booking made returns, and every room is taken at the times that it was taken before. The
  -- status is one that blocks the room, the stay and the room are accepted by the constraint, which
  -- keeps_room before, and no row has the identifier that comes next.
  pub book_room-cancel :
      (reason : String) (room : Room) (db : Db)
      → is_blocking status ≡ true
      → has_overlap db.reservations ≡ false
      → vacant (calendar db.reservations) room.id dto.check_in (dto.check_out - dto.check_in) ≡ true
      → filterb (λ x. x.id == db.next_id) db.reservations ≡ []
      → undo actor reason (book_room actor dto status hold guest total currency room db)
        ≡ (true, calendar db.reservations)
  book_room-cancel reason room db b keeps free fresh =
      let row = booking actor dto status hold guest total currency db.next_id room in
      let clash = overlap-vacant row room.id db.reservations refl b keeps in
      rw (book_room_lem actor dto status hold guest total currency room db, clash, free)
        (cancel-refines actor db.next_id reason (booked actor status row db) row
            (rw (==_refl db.next_id, fresh) refl) refl (live status b) (rw (clash, free) refl)
          ∙ ap (λ c. (true, c))
              (released-new row db.reservations
                (conflicts-vacant row room.id db.reservations refl b ∙ ap not free)))
    where
      live : (s : ReservationStatus) → is_blocking s ≡ true → is_checked_out s ≡ false
      live s b = ground arith
