-- ===== src/Service/Closing.antt =====
-- The night audit among the other calls: what it keeps of the reservations and the ledger.
use mathlib.Core.Option
use hospitality_os.Common.{
  Bool, Bool-cases, List, Option-cases, [], ap, arith, false, if◌then◌else◌, inl, inr, or_else,
  refl, some, true, ℕ, ◌+◌, ◌==◌, ◌∷◌, ◌≡◌, ◌≤◌,
}
use hospitality_os.Enums.{ReservationStatus}
use hospitality_os.Ledger.Books.{IsBalanced}
use hospitality_os.Ledger.Posting.{update_reservation-IsBalanced}
use hospitality_os.NightAudit.{
  close_day, finish, is_confirmed, is_no_show, mark_no_show, roll, run_audit, start_of_day,
}
use hospitality_os.NightAudit.Close.{close_day_lem, no_show}
use hospitality_os.Rates.{day}
use hospitality_os.Reservations.Status.{Step, Steps, Tracked}
use hospitality_os.Service.Folios.{next_id-Keeps, write-Keeps}
use hospitality_os.Service.Frame.{IsBalanced-Framed, fresh_id-Keeps, modify-Keeps}
use hospitality_os.Service.Known.{IsKnown, Known-on, update_reservation-IsKnown}
use hospitality_os.Service.Overlap.{NoOverlap, write_reservations-NoOverlap}
use hospitality_os.Service.Tracking.{Tracks}
use hospitality_os.Store.{
  Actor, Db, External, Keeps, Keeps-gets, Reservation, find_by, hotel_keyed, keeping,
  reservation_keyed, update_many, ◌>>=◌,
}

pub run_audit-NoOverlap :
    (ext : External) (now : ℕ) (actor : Actor) → Keeps NoOverlap (run_audit ext now actor)
unfolding run_audit close_day mark_no_show finish roll
run_audit-NoOverlap ext now actor =
    search (keeping, write_reservations-NoOverlap, Keeps-gets NoOverlap) depth 30

pub run_audit-IsKnown :
    (ext : External) (now : ℕ) (actor : Actor) → Keeps IsKnown (run_audit ext now actor)
unfolding run_audit close_day mark_no_show finish roll
run_audit-IsKnown ext now actor =
    search
      (
        keeping,
        update_reservation-IsKnown,
        write-Keeps IsKnown Known-on,
        next_id-Keeps IsKnown Known-on,
      )
      depth 30

pub run_audit-IsBalanced :
    (ext : External) (now : ℕ) (actor : Actor) → Keeps IsBalanced (run_audit ext now actor)
unfolding run_audit close_day mark_no_show finish roll
run_audit-IsBalanced ext now actor =
    search
      (
        keeping,
        update_reservation-IsBalanced,
        modify-Keeps IsBalanced IsBalanced-Framed,
        fresh_id-Keeps IsBalanced IsBalanced-Framed,
      )
      depth 30

find_by-update_many :
    (p : Reservation → Bool) (g : Reservation → Reservation) (j : ℕ) (rs : List Reservation)
    (r : Reservation)
    → ((x : Reservation) → (g x).id ≡ x.id)
    → find_by j rs ≡ some r
    → find_by j (update_many p g rs) ≡ some (if p r then g r else r)
unfolding find_by
find_by-update_many p g j [] r ids e = ground (arith, e)
find_by-update_many p g j (x ∷ rs) r ids e = elim (Bool-cases (x.id == j)) [
  | inl mine ↦
      rw (same_id (p x), mine) (ap (λ o. Option.map (λ y. if p y then g y else y) o) (rw mine at e))
  | inr other ↦ rw (same_id (p x), other) (find_by-update_many p g j rs r ids (rw other at e))
]
  where
    same_id : (b : Bool) → (if b then g x else x).id ≡ x.id
    same_id true = ids x
    same_id false = refl

-- a confirmed guest does not come
to_no_show : (st : ReservationStatus) → is_confirmed st ≡ true → Step st ReservationStatus.no_show
to_no_show ReservationStatus.confirmed e = Step.stays_away
to_no_show ReservationStatus.enquiry e = absurd (ground (arith, e))
to_no_show ReservationStatus.held e = absurd (ground (arith, e))
to_no_show ReservationStatus.checked_in e = absurd (ground (arith, e))
to_no_show ReservationStatus.checked_out e = absurd (ground (arith, e))
to_no_show ReservationStatus.cancelled e = absurd (ground (arith, e))
to_no_show ReservationStatus.no_show e = absurd (ground (arith, e))

late-confirmed :
    (h day_end : ℕ) (r : Reservation) → is_no_show h day_end r ≡ true → is_confirmed r.status ≡ true
late-confirmed h day_end r e = ground arith

module _ (j : ℕ) (s : ReservationStatus) where
  -- a reservation that is tracked through the no-shows
  marked-Tracked :
      (h day_end : ℕ) (rs : List Reservation) (n m : ℕ)
      → n ≤ m
      → Tracked j s rs n
      → Tracked j s (update_many (is_no_show h day_end) no_show rs) m
  marked-Tracked h day_end rs n m le t = record {
    below = omega (arith, t.below, le);
    row = if is_no_show h day_end t.row then no_show t.row else t.row;
    found = find_by-update_many (is_no_show h day_end) no_show j rs t.row (λ x. refl) t.found;
    path = elim (Bool-cases (is_no_show h day_end t.row)) [
      | inl late ↦ rw late (
          Steps.then_step s t.row.status ReservationStatus.no_show t.path
            (to_no_show t.row.status (late-confirmed h day_end t.row late)))
      | inr kept ↦ rw kept t.path
    ];
  }

  pub run_audit-Tracks :
      (ext : External) (now : ℕ) (actor : Actor) (db : Db)
      → NoOverlap db
      → IsKnown db
      → Tracks j s db
      → Tracks j s (run_audit ext now actor db).1
  unfolding run_audit ◌>>=◌
  run_audit-Tracks ext now actor db keeps known t =
      elim (Option-cases (find_by actor.hotel_id db.hotels)) [
        | inl missing ↦ rw missing t
        | inr (hotel, found) ↦
            let first = start_of_day (or_else hotel.business_date (start_of_day now)) in
            rw (found, close_day_lem ext actor first db known.distinct keeps)
              (marked-Tracked actor.hotel_id (first + day) db.reservations db.next_id
                (db.next_id + 1) (omega arith) t)
      ]
