-- ===== src/NightAudit/Nights.antt =====
-- The business date, night after night.
use mathlib.Core.Option
use hospitality_os.Common.{
  ==_iff, Bool, Bool-cases, List, Option-cases, [], any, ap, arith, false, filterb, if◌then◌else◌,
  inl, inr, length, or_else, refl, some, subst, sym, true, ℕ, ◌*◌, ◌+◌, ◌==◌, ◌∙◌, ◌∷◌, ◌≡◌,
}
use hospitality_os.NightAudit.{audit_hotels, nightly, run_audit, start_of_day}
use hospitality_os.NightAudit.Close.{close_day_lem, date_of, no_show}
use hospitality_os.Rates.{day}
use hospitality_os.Reservations.Cancel.{system_actor}
use hospitality_os.Reservations.Constraint.{conflicts, has_overlap}
use hospitality_os.Reservations.Release.{no_conflict}
use hospitality_os.Reservations.Sweep.{distinct_ids}
use hospitality_os.Store.{
  Db, External, Hotel, Reservation, find_by, find_by-update_by, hotel_keyed, update_by, update_many,
  ◌>>=◌,
}

-- what the audit of every hotel needs, and leaves
record Sound (db : Db) : Type 0 where
  distinct : distinct_ids db.reservations ≡ true
  no_overlap : has_overlap db.reservations ≡ false

-- a hotel that is found, with its business date a number of whole days
abbrev IsOn : ℕ → ℕ → Db → Type 0
IsOn h n db =
    (hotel : Hotel) × (find_by h db.hotels ≡ some hotel) × (hotel.business_date ≡ some (n * day))

distinct_ids-update_many :
    (p : Reservation → Bool) (rs : List Reservation)
    → distinct_ids (update_many p no_show rs) ≡ distinct_ids rs
unfolding distinct_ids
distinct_ids-update_many p [] = refl
distinct_ids-update_many p (x ∷ rs) =
    rw (kept (p x), same x.id rs, distinct_ids-update_many p rs) refl
  where
    kept : (b : Bool) → (if b then no_show x else x).id ≡ x.id
    kept true = refl
    kept false = refl

    same :
        (j : ℕ) (ys : List Reservation)
        → any (λ y. y.id == j) (update_many p no_show ys) ≡ any (λ y. y.id == j) ys
    same j [] = refl
    same j (y ∷ ys) = ground (arith, same j ys)

no_conflict-update_many :
    (p : Reservation → Bool) (r : Reservation) (rs : List Reservation)
    → any (conflicts r) rs ≡ false
    → any (conflicts r) (update_many p no_show rs) ≡ false
no_conflict-update_many p r [] h = refl
no_conflict-update_many p r (x ∷ rs) h = ground (arith, no_conflict-update_many p r rs)

has_overlap-update_many :
    (p : Reservation → Bool) (rs : List Reservation)
    → has_overlap rs ≡ false
    → has_overlap (update_many p no_show rs) ≡ false
unfolding has_overlap
has_overlap-update_many p [] h = refl
has_overlap-update_many p (x ∷ rs) h = ground (
  arith,
  no_conflict-update_many p x rs,
  has_overlap-update_many p rs,
  no_conflict (no_show x) (update_many p no_show rs) refl,
)

start-whole : (n : ℕ) → start_of_day (n * day) ≡ n * day
start-whole n = omega arith

start-next : (n : ℕ) → n * day + day ≡ (n + 1) * day
start-next n = omega arith

-- the hotels of the list that have the id
abbrev visits : ℕ → List Hotel → ℕ
visits h hs = length (filterb (λ x. x.id == h) hs)

-- the hotel on the next day
abbrev dated : ℕ → Hotel → Hotel
dated first x = record x { business_date = some (first + day) }

module _ (ext : External) (now : ℕ) where
  audit-Sound : (i : ℕ) (db : Db) → Sound db → Sound (run_audit ext now (system_actor i) db).1
  unfolding run_audit ◌>>=◌
  audit-Sound i db s = elim (Option-cases (find_by i db.hotels)) [
    | inl missing ↦ rw missing s
    | inr (hotel, found) ↦
        let start = start_of_day (or_else hotel.business_date (start_of_day now)) in
        rw (found, close_day_lem ext (system_actor i) start db s.distinct s.no_overlap)
          record {
            distinct = distinct_ids-update_many _ db.reservations ∙ s.distinct;
            no_overlap = has_overlap-update_many _ db.reservations s.no_overlap;
          }
  ]

  rolled :
      (first i h : ℕ) (hs : List Hotel)
      → find_by h (update_by i (dated first) hs)
        ≡ (if i == h then Option.map (dated first) (find_by h hs) else find_by h hs)
  rolled first i h hs = find_by-update_by i h (dated first) hs (λ x. refl)

  audit-IsOn :
      (h n i : ℕ) (db : Db)
      → Sound db
      → IsOn h n db
      → IsOn h (n + (if i == h then 1 else 0)) (run_audit ext now (system_actor i) db).1
  unfolding run_audit ◌>>=◌
  audit-IsOn h n i db s (hotel, e, date) = elim (Bool-cases (i == h)) [
    | inl mine ↦
        let same = (==_iff i h).0 mine in
        let there = rw (sym same) at e in
        let first = start_of_day (or_else hotel.business_date (start_of_day now)) in
        let begins : first ≡ n * day = rw date (start-whole n) in
        rw (mine, there, close_day_lem ext (system_actor i) first db s.distinct s.no_overlap)
          (
            record hotel { business_date = some (first + day) },
            rw (rolled first i h db.hotels, mine, e) refl,
            ap some (ap (λ k. k + day) begins ∙ start-next n),
          )
    | inr other ↦ elim (Option-cases (find_by i db.hotels)) [
      | inl missing ↦ rw (other, missing) (hotel, e, date ∙ ap some (omega arith))
      | inr (x, found) ↦
          let first = start_of_day (or_else x.business_date (start_of_day now)) in
          rw (other, found, close_day_lem ext (system_actor i) first db s.distinct s.no_overlap)
            (hotel, rw (rolled first i h db.hotels, other) e, date ∙ ap some (omega arith))
    ]
  ]

  visits-update_by :
      (h i first : ℕ) (hs : List Hotel) → visits h (update_by i (dated first) hs) ≡ visits h hs
  unfolding update_by
  visits-update_by h i first [] = refl
  visits-update_by h i first (x ∷ hs) = ground (arith, visits-update_by h i first hs)

  audit-visits :
      (h i : ℕ) (db : Db)
      → Sound db
      → visits h (run_audit ext now (system_actor i) db).1.hotels ≡ visits h db.hotels
  unfolding run_audit ◌>>=◌
  audit-visits h i db s = elim (Option-cases (find_by i db.hotels)) [
    | inl missing ↦ rw missing refl
    | inr (x, found) ↦
        let first = start_of_day (or_else x.business_date (start_of_day now)) in
        rw (found, close_day_lem ext (system_actor i) first db s.distinct s.no_overlap)
          (visits-update_by h i first db.hotels)
  ]

  -- one night: the loop over the hotels of the list
  audit_hotels_lem :
      (h n m : ℕ) (hs : List Hotel) (db : Db)
      → Sound db
      → IsOn h n db
      → visits h db.hotels ≡ m
      → let after = audit_hotels ext now hs db in
        Sound after × IsOn h (n + visits h hs) after × (visits h after.hotels ≡ m)
  unfolding audit_hotels
  audit_hotels_lem h n m [] db s on v = (s, subst (λ k. IsOn h k db) (omega arith) on, v)
  audit_hotels_lem h n m (x ∷ hs) db s on v =
      let db1 = (run_audit ext now (system_actor x.id) db).1 in
      let rest =
        audit_hotels_lem h (n + (if x.id == h then 1 else 0)) m hs db1 (audit-Sound x.id db s)
          (audit-IsOn h n x.id db s on) (audit-visits h x.id db s ∙ v) in
      (rest.0, subst (λ k. IsOn h k (audit_hotels ext now hs db1)) (ground arith) rest.1, rest.2)

-- the job, night after night
unfoldable pub night_after_night : External → List ℕ → Db → Db
night_after_night ext [] db = db
night_after_night ext (now ∷ times) db = night_after_night ext times (nightly ext now db)

night_after_night_lem :
    (ext : External) (h n : ℕ) (times : List ℕ) (db : Db)
    → Sound db
    → IsOn h n db
    → visits h db.hotels ≡ 1
    → IsOn h (n + length times) (night_after_night ext times db)
unfolding night_after_night nightly
night_after_night_lem ext h n [] db s on v = subst (λ k. IsOn h k db) (omega arith) on
night_after_night_lem ext h n (now ∷ times) db s on v =
    let night = audit_hotels_lem ext now h n 1 db.hotels db s on v in
    subst (λ k. IsOn h k (night_after_night ext times (nightly ext now db))) (omega (arith, v))
      (night_after_night_lem ext h (n + visits h db.hotels) times (nightly ext now db) night.0
        night.1 night.2)

-- The nightly job moves the business date of a hotel by exactly one day a night, whatever the clock
-- says when it runs and however often guests do not come: after any number of night_after_night the date is
-- that many days later. The date is the beginning of a day, the hotel is in the table once, the
-- constraint holds before, and no two reservations have the same identifier.
pub night_after_night-date_of :
    (ext : External) (h n : ℕ) (times : List ℕ) (db : Db)
    → distinct_ids db.reservations ≡ true
    → has_overlap db.reservations ≡ false
    → date_of h db ≡ some (n * day)
    → length (filterb (λ x. x.id == h) db.hotels) ≡ 1
    → date_of h (night_after_night ext times db) ≡ some ((n + length times) * day)
night_after_night-date_of ext h n times db d keeps e v =
    let after =
      night_after_night_lem ext h n times db (record { distinct = d; no_overlap = keeps }) on v in
    rw (date_of, after.1) after.2
  where
    on : IsOn h n db
    on = elim (Option-cases (find_by h db.hotels)) [
      | inl missing ↦ absurd (ground (arith, missing, e))
      | inr (hotel, found) ↦ (hotel, found, ground (arith, found, e))
    ]
