-- ===== src/NightAudit/Close.antt =====
-- The close of a day.
use hospitality_os.Common.{
  List, Option, [], any, ap, arith, false, filterb, length, none, or_else, refl, some, true, ℕ, ◌+◌,
  ◌∙◌, ◌∷◌, ◌≡◌,
}
use hospitality_os.Enums.{ReservationStatus}
use hospitality_os.NightAudit.{
  close_day, finish, is_no_show, mark_no_show, roll, run_audit, start_of_day, summarise,
}
use hospitality_os.Rates.{day}
use hospitality_os.Reservations.Constraint.{has_overlap, with_status}
use hospitality_os.Reservations.Release.{freed-NoOverlap}
use hospitality_os.Reservations.Sweep.{distinct_ids, distinct_ids-update_by, head_gone, none_left}
use hospitality_os.Store.{
  Actor, Db, External, Hotel, NightSummary, Reservation, StatusChange, bind-ok, find_by,
  find_by-update_by, for_each, hotel_keyed, ok, reservation_keyed, update_by, update_many, ◌>>=◌,
}

-- the business date of a hotel
abbrev pub date_of : ℕ → Db → Option ℕ
date_of h db = elim (find_by h db.hotels) [ none ↦ none | some x ↦ x.business_date ]

abbrev pub no_show : Reservation → Reservation
no_show = with_status ReservationStatus.no_show

-- the history after the no-shows are marked
unfoldable pub noted : Actor → List Reservation → List StatusChange → List StatusChange
noted actor [] log = log
noted actor (r ∷ rs) log = noted actor rs (
    record {
      reservation_id = r.id;
      from_status = some ReservationStatus.confirmed;
      to_status = ReservationStatus.no_show;
      by_id = actor.id;
      note = "night audit no-show";
    }
    ∷ log)

mark_no_show_lem :
    (actor : Actor) (r : Reservation) (db : Db)
    → has_overlap db.reservations ≡ false
    → mark_no_show actor r db ≡ (
      ok tt,
      record db {
        reservations = update_by r.id no_show db.reservations;
        history = noted actor (r ∷ []) db.history;
      },
    )
unfolding mark_no_show ◌>>=◌ noted
mark_no_show_lem actor r db keeps =
    ground (arith, freed-NoOverlap no_show r.id db.reservations (λ x. refl) keeps)

mark_all :
    (actor : Actor) (day_end : ℕ) (rs : List Reservation) (db : Db)
    → filterb (is_no_show actor.hotel_id day_end) db.reservations ≡ rs
    → distinct_ids db.reservations ≡ true
    → has_overlap db.reservations ≡ false
    → for_each (mark_no_show actor) rs db ≡ (
      ok tt,
      record db {
        reservations = update_many (is_no_show actor.hotel_id day_end) no_show db.reservations;
        history = noted actor rs db.history;
      },
    )
unfolding noted
mark_all actor day_end [] db e d keeps =
    rw (none_left (is_no_show actor.hotel_id day_end) no_show db.reservations e) refl
mark_all actor day_end (r ∷ rs) db e d keeps =
    let p = is_no_show actor.hotel_id day_end in
    let gone = head_gone p no_show r db.reservations rs (λ x. ground arith) e d in
    let db1 : Db = record db {
      reservations = update_by r.id no_show db.reservations;
      history = noted actor (r ∷ []) db.history;
    } in
    bind-ok (mark_no_show actor r) (λ _. for_each (mark_no_show actor) rs) db db1 tt
      (mark_no_show_lem actor r db keeps)
    ∙ mark_all actor day_end rs db1 gone.0
        (distinct_ids-update_by r.id no_show db.reservations (λ x. refl) ∙ d)
        (freed-NoOverlap no_show r.id db.reservations (λ x. refl) keeps)
    ∙ ap (λ t. (ok tt, record db { reservations = t; history = noted actor (r ∷ rs) db.history }))
        gone.1

-- what a close leaves, but for the identifiers
abbrev pub marked_db : Actor → ℕ → Db → Db
marked_db actor day_end db = record db {
  reservations = update_many (is_no_show actor.hotel_id day_end) no_show db.reservations;
  history = noted actor (filterb (is_no_show actor.hotel_id day_end) db.reservations) db.history;
}

module _ (ext : External) where
  abbrev pub summary_of : Actor → ℕ → Db → NightSummary
  summary_of actor day_start db =
      summarise ext actor.hotel_id day_start
        (length (filterb (is_no_show actor.hotel_id (day_start + day)) db.reservations))
        (marked_db actor (day_start + day) db)

  abbrev pub closed_db : Actor → ℕ → Db → Db
  closed_db actor day_start db =
      let marked = marked_db actor (day_start + day) db in
      record marked {
        night_runs =
            record {
              id = db.next_id;
              hotel_id = actor.hotel_id;
              business_date = day_start;
              summary = summary_of actor day_start db;
            }
            ∷ db.night_runs;
        hotels =
            update_by actor.hotel_id (λ x. record x { business_date = some (day_start + day) })
              db.hotels;
        audits =
            record {
              hotel_id = actor.hotel_id;
              actor_id = actor.id;
              actor_type = actor.type;
              action = "night_audit.run";
              entity = "NightAuditRun";
              entity_id = db.next_id;
            }
            ∷ db.audits;
        next_id = db.next_id + 1;
      }

  pub close_day_lem :
      (actor : Actor) (day_start : ℕ) (db : Db)
      → distinct_ids db.reservations ≡ true
      → has_overlap db.reservations ≡ false
      → close_day ext actor day_start db ≡ (
        ok (record {
          business_date = day_start;
          next_business_date = day_start + day;
          summary = summary_of actor day_start db;
          run_id = db.next_id;
        }),
        closed_db actor day_start db,
      )
  unfolding close_day finish roll ◌>>=◌
  close_day_lem actor day_start db d keeps =
      let late = filterb (is_no_show actor.hotel_id (day_start + day)) db.reservations in
      bind-ok (for_each (mark_no_show actor) late) (λ _. finish ext actor day_start (length late))
        db (marked_db actor (day_start + day) db) tt
        (mark_all actor (day_start + day) late db refl d keeps)

  none_late :
      (h day_end : ℕ) (rs : List Reservation)
      → any (is_no_show h day_end) (update_many (is_no_show h day_end) no_show rs) ≡ false
  none_late h day_end [] = refl
  none_late h day_end (r ∷ rs) = ground (arith, none_late h day_end rs)

  -- A night audit of a hotel returns, and does what closed_db says: every confirmed reservation whose
  -- arrival was before the end of the business date is a no-show with an entry in the history, the
  -- summary is stored, and the business date of the hotel is the next day. No such reservation is
  -- left. The hotel exists, the constraint holds before, and no two reservations have the same
  -- identifier.
  pub run_audit_lem :
      (now : ℕ) (actor : Actor) (db : Db) (hotel : Hotel)
      → find_by actor.hotel_id db.hotels ≡ some hotel
      → distinct_ids db.reservations ≡ true
      → has_overlap db.reservations ≡ false
      → let d = start_of_day (or_else hotel.business_date (start_of_day now)) in
        let (r, db') = run_audit ext now actor db in
        (r
          ≡ ok (record {
            business_date = d;
            next_business_date = d + day;
            summary = summary_of actor d db;
            run_id = db.next_id;
          }))
        × (db' ≡ closed_db actor d db)
        × (any (is_no_show actor.hotel_id (d + day)) db'.reservations ≡ false)
        × (date_of actor.hotel_id db' ≡ some (d + day))
  unfolding run_audit ◌>>=◌
  run_audit_lem now actor db hotel e d keeps =
      let start = start_of_day (or_else hotel.business_date (start_of_day now)) in
      let run = close_day_lem actor start db d keeps in
      rw (e, run)
        (
          refl,
          refl,
          none_late actor.hotel_id (start + day) db.reservations,
          ground (
            arith,
            e,
            find_by-update_by actor.hotel_id actor.hotel_id
                (λ x. record x { business_date = some (start + day) }) db.hotels (λ x. refl),
          ),
        )
