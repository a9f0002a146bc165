-- ===== src/Reservations/Calendar.antt =====
-- What a booking promises, without the rows: a calendar that says at each time whether a room is
-- taken. ReservationsService.create and cancel work on rows and leave the clashes to the constraint.
use hospitality_os.Common.{
  ==_iff, Bool, Bool-cases, List, Option, String, [], any, arith, false, fun_ext, if◌then◌else◌,
  inl, inr, leb, ltb, map, not, option_eq, refl, some, suc, sym, true, zero, ℕ, ◌&&◌, ◌+◌, ◌-◌, ◌<◌,
  ◌==◌, ◌||◌, ◌∷◌, ◌≡◌, ◌≤◌,
}
use hospitality_os.Common.Int.{ℤ}
use hospitality_os.Enums.{ReservationStatus, is_blocking}
use hospitality_os.Reservations.Constraint.{conflicts, has_overlap, overlaps, same_room}
use hospitality_os.Reservations.Create.{CreateDto, book_room, try_rooms}
use hospitality_os.Reservations.Offer.{book_room_lem, booking, or_false, same_room-option_eq}
use hospitality_os.Store.{Actor, Db, Reservation, Result, Room, err, ok}

abbrev pub Calendar : Type 0
Calendar = (room time : ℕ) → Bool

-- the stay lasts from the check-in to before the check-out
abbrev pub within : (from to t : ℕ) → Bool
within from to t = leb from t && ltb t to

-- a reservation that keeps the room at that time
abbrev pub keeps_room : (room time : ℕ) → Reservation → Bool
keeps_room room t r =
    option_eq r.room_id room && is_blocking r.status && within r.check_in_date r.check_out_date t

-- the calendar that the rows stand for
unfoldable pub calendar : List Reservation → Calendar
calendar rs room t = any (keeps_room room t) rs

-- the room is not taken at any of the `n` times from the first
unfoldable pub vacant : Calendar → (room from n : ℕ) → Bool
vacant c room from zero = true
vacant c room from (suc n) = not (c room from) && vacant c room (suc from) n

-- the room is taken for the stay
abbrev pub occupy : Calendar → (room from to : ℕ) → Calendar
occupy c room from to i t = (room == i && within from to t) || c i t

-- the room is given back for the stay
abbrev pub give_back : Calendar → (room from to : ℕ) → Calendar
give_back c room from to i t = not (room == i && within from to t) && c i t

-- to reserve: refused where the room is taken at any time of the stay
unfoldable pub reserve : (room from to : ℕ) → Calendar → Bool × Calendar
reserve room from to c =
    if vacant c room from (to - from) then (true, occupy c room from to) else (false, c)

-- what a caller sees of a call: whether it returned, and the calendar
abbrev pub seen : {A : Type 0} → Result A × Db → Bool × Calendar
seen (ok a, db) = (true, calendar db.reservations)
seen (err e, db) = (false, calendar db.reservations)

vacant-at :
    (c : Calendar) (room from n t : ℕ)
    → vacant c room from n ≡ true
    → from ≤ t
    → t < from + n
    → c room t ≡ false
unfolding vacant
vacant-at c room from zero t v lo hi = absurd (omega (arith, lo, hi))
vacant-at c room from (suc n) t v lo hi = elim (Bool-cases (from == t)) [
  | inl same ↦ rw (sym ((==_iff from t).0 same)) (ground arith)
  | inr later ↦ vacant-at c room (suc from) n t (ground arith) (ground arith) (ground arith)
]

vacant_of :
    (c : Calendar) (room from n : ℕ)
    → ((t : ℕ) → from ≤ t → t < from + n → c room t ≡ false)
    → vacant c room from n ≡ true
unfolding vacant
vacant_of c room from zero h = refl
vacant_of c room from (suc n) h =
    rw (h from (omega arith) (omega arith))
      (vacant_of c room (suc from) n (λ t lo hi. h t (omega (arith, lo)) (omega (arith, hi))))

-- two stays that share a time, in numbers
apart_at :
    (a b c d t : ℕ)
    → within a b t ≡ true
    → (ltb a d && ltb c b && ltb a b && ltb c d) ≡ false
    → within c d t ≡ false
apart_at a b c d t w e = ground arith

drop_true : (a b : Bool) → a ≡ true → (a && b) ≡ false → b ≡ false
drop_true a b e h = ground arith

-- a row that conflicts with none leaves the room to it
free-of_conflict :
    (r x : Reservation) (room t : ℕ)
    → r.room_id ≡ some room
    → is_blocking r.status ≡ true
    → within r.check_in_date r.check_out_date t ≡ true
    → conflicts r x ≡ false
    → keeps_room room t x ≡ false
free-of_conflict r x room t e b w c =
    let same = same_room-option_eq r.room_id x.room_id room e in
    elim (Bool-cases (option_eq x.room_id room)) [
      | inl here ↦ elim (Bool-cases (is_blocking x.status)) [
        | inl blocks ↦
            rw
              (
                here,
                blocks,
                apart_at r.check_in_date r.check_out_date x.check_in_date x.check_out_date t w
                    (rw (b, blocks, same, here) at c),
              )
              refl
        | inr idle ↦ rw (here, idle) refl
      ]
      | inr away ↦ rw away refl
    ]

-- two stays that overlap share the later of their first times
meet_at :
    (a b c d t : ℕ)
    → t ≡ (if ltb a c then c else a)
    → (ltb a d && ltb c b && ltb a b && ltb c d) ≡ true
    → (a ≤ t) × (t < b) × (within c d t ≡ true)
meet_at a b c d t e h = ground arith

conflict-of_free :
    (r x : Reservation) (room : ℕ)
    → r.room_id ≡ some room
    → ((t : ℕ) → r.check_in_date ≤ t → t < r.check_out_date → keeps_room room t x ≡ false)
    → conflicts r x ≡ false
conflict-of_free r x room e free =
    let same = same_room-option_eq r.room_id x.room_id room e in
    let t = if ltb r.check_in_date x.check_in_date then x.check_in_date else r.check_in_date in
    elim (Bool-cases (conflicts r x)) [
      | inl clash ↦
          let parts =
            clash_parts (is_blocking r.status) (is_blocking x.status)
              (same_room r.room_id x.room_id) (overlaps r x) clash in
          let met =
            meet_at r.check_in_date r.check_out_date x.check_in_date x.check_out_date t refl
              parts.2 in
          absurd (ground (arith, rw same at parts.1, parts.0, met.2, free t met.0 met.1))
      | inr apart ↦ apart
    ]
  where
    clash_parts :
        (a b c d : Bool) → (a && b && c && d) ≡ true → (b ≡ true) × (c ≡ true) × (d ≡ true)
    clash_parts a b c d h = ground arith

pub free_times :
    (r : Reservation) (room t : ℕ) (rs : List Reservation)
    → r.room_id ≡ some room
    → is_blocking r.status ≡ true
    → within r.check_in_date r.check_out_date t ≡ true
    → any (conflicts r) rs ≡ false
    → any (keeps_room room t) rs ≡ false
free_times r room t [] e b w h = refl
free_times r room t (x ∷ rs) e b w h =
    let parts = or_false _ _ h in
    rw (free-of_conflict r x room t e b w parts.0, free_times r room t rs e b w parts.1) refl

free_rows :
    (r : Reservation) (room : ℕ) (rs : List Reservation)
    → r.room_id ≡ some room
    → ((t : ℕ) → r.check_in_date ≤ t → t < r.check_out_date → any (keeps_room room t) rs ≡ false)
    → any (conflicts r) rs ≡ false
free_rows r room [] e h = refl
free_rows r room (x ∷ rs) e h =
    rw
      (
        conflict-of_free r x room e (λ t lo hi. (or_false _ _ (h t lo hi)).0),
        free_rows r room rs e (λ t lo hi. (or_false _ _ (h t lo hi)).1),
      )
      refl

-- the new stay clashes with a row exactly where its room is not vacant all the time
pub conflicts-vacant :
    (r : Reservation) (room : ℕ) (rs : List Reservation)
    → r.room_id ≡ some room
    → is_blocking r.status ≡ true
    → any (conflicts r) rs
      ≡ not (vacant (calendar rs) room r.check_in_date (r.check_out_date - r.check_in_date))
unfolding calendar
conflicts-vacant r room rs e b = elim (Bool-cases (any (conflicts r) rs)) [
  | inr free ↦
      rw
        (
          free,
          vacant_of (λ i t. any (keeps_room i t) rs) room r.check_in_date
              (r.check_out_date - r.check_in_date)
              (λ t lo hi. free_times r room t rs e b (ground (arith, lo, hi)) free),
        )
        refl
  | inl clash ↦
      elim (Bool-cases (
        vacant (λ i t. any (keeps_room i t) rs) room r.check_in_date
          (r.check_out_date - r.check_in_date))) [
            | inl empty ↦
                let free = free_rows r room rs e (λ t lo hi.
                  vacant-at (λ i u. any (keeps_room i u) rs) room r.check_in_date
                    (r.check_out_date - r.check_in_date) t empty lo (omega (arith, lo, hi))) in
                absurd (ground (arith, clash, free))
            | inr taken ↦ rw (clash, taken) refl
          ]
]

-- a new row takes its room for its stay
calendar-occupy :
    (r : Reservation) (room : ℕ) (rs : List Reservation)
    → r.room_id ≡ some room
    → is_blocking r.status ≡ true
    → calendar (r ∷ rs) ≡ occupy (calendar rs) room r.check_in_date r.check_out_date
unfolding calendar
calendar-occupy r room rs e b = fun_ext λ i. fun_ext λ t. rw (e, b) (and_true (room == i) _ _)
  where
    and_true : (a b c : Bool) → (a && true && b || c) ≡ (a && b || c)
    and_true true b c = refl
    and_true false b c = refl

-- the constraint on a new row
pub overlap-vacant :
    (r : Reservation) (room : ℕ) (rs : List Reservation)
    → r.room_id ≡ some room
    → is_blocking r.status ≡ true
    → has_overlap rs ≡ false
    → has_overlap (r ∷ rs)
      ≡ not (vacant (calendar rs) room r.check_in_date (r.check_out_date - r.check_in_date))
unfolding has_overlap
overlap-vacant r room rs e b keeps = rw (keeps, conflicts-vacant r room rs e b) (or_false_end _)
  where
    or_false_end : (a : Bool) → (a || false) ≡ a
    or_false_end true = refl
    or_false_end false = refl

-- the first of the rooms that is vacant
unfoldable pub reserve_first : (from to : ℕ) → List ℕ → Calendar → Bool × Calendar
reserve_first from to [] c = (false, c)
reserve_first from to (room ∷ rooms) c =
    let rest = reserve_first from to rooms c in
    if vacant c room from (to - from) then (true, occupy c room from to) else rest

module _ (actor : Actor) (dto : CreateDto) (status : ReservationStatus) (hold : Option ℕ)
    (guest : ℕ) (total : ℤ) (currency : String) where
  -- The loop of a booking over its candidate rooms, on rows, does what reserve_first does on the
  -- calendar: it returns exactly where some candidate is vacant for the whole stay, the first of
  -- those is then taken for the stay and for no other time, and otherwise the calendar is as it was.
  -- The status is one that blocks the room, and the constraint keeps_room before.
  pub try_rooms-refines :
      (rooms : List Room) (db : Db)
      → is_blocking status ≡ true
      → has_overlap db.reservations ≡ false
      → seen (try_rooms (book_room actor dto status hold guest total currency) rooms db)
        ≡ reserve_first dto.check_in dto.check_out
            (map (λ r. r.id) rooms)
            (calendar db.reservations)
  unfolding try_rooms reserve_first
  try_rooms-refines [] db b keeps = refl
  try_rooms-refines (room ∷ rooms) db b keeps =
      let row = booking actor dto status hold guest total currency db.next_id room in
      let clash = overlap-vacant row room.id db.reservations refl b keeps in
      elim (Bool-cases
        (vacant (calendar db.reservations) room.id dto.check_in (dto.check_out - dto.check_in))) [
          | inl free ↦
              rw
                (
                  book_room_lem actor dto status hold guest total currency room db,
                  clash,
                  free,
                  calendar-occupy row room.id db.reservations refl b,
                )
                refl
          | inr taken ↦
              rw (book_room_lem actor dto status hold guest total currency room db, clash, taken)
                (try_rooms-refines rooms db b keeps)
        ]
