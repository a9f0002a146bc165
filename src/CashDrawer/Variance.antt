-- ===== src/CashDrawer/Variance.antt =====
-- A shift from its opening to its count.
use hospitality_os.CashDrawer.{
  apply_cash, close_drawer, counted, expected_total, is_open_of, open_drawer, open_new,
}
use hospitality_os.Common.{List, [], ap, arith, none, refl, some, true, ℕ, ◌+◌, ◌∙◌, ◌∷◌, ◌≡◌}
use hospitality_os.Common.Int.{+ℤ-zero, +ℤ_assoc, int_laws, pos, sum_ℤ, ℤ, ◌+ℤ◌, ◌-ℤ◌}
use hospitality_os.Enums.{ShiftStatus}
use hospitality_os.Store.{
  Actor, Db, Shift, bind-ok, find_first, for_each, ok, shift_keyed, update_by, ◌>>=◌, ◌>>◌,
}

-- the shift that is open for the user stands first
abbrev AtFront : (h u : ℕ) → Shift → List Shift → List Shift → Type 0
AtFront h u s rest ss = (ss ≡ s ∷ rest) × (is_open_of h u s ≡ true)

apply_cash_lem :
    (h u : ℕ) (amount : ℤ) (s : Shift) (rest : List Shift) (db : Db)
    → AtFront h u s rest db.shifts
    → (rest' : List Shift) × (apply_cash h u amount db ≡ (
      ok tt,
      record db { shifts = record s { expected_cash = s.expected_cash +ℤ amount } ∷ rest' },
    ))
unfolding apply_cash update_by ◌>>=◌
apply_cash_lem h u amount s rest db e = (
  update_by s.id (λ x. record x { expected_cash = s.expected_cash +ℤ amount }) rest,
  ground (arith, e),
)

-- cash that comes in, payment by payment
cash_in :
    (h u : ℕ) (amounts : List ℤ) (s : Shift) (rest : List Shift) (db : Db)
    → AtFront h u s rest db.shifts
    → (rest' : List Shift) × (for_each (apply_cash h u) amounts db ≡ (
      ok tt,
      record db { shifts = record s { expected_cash = s.expected_cash +ℤ sum_ℤ amounts } ∷ rest' },
    ))
cash_in h u [] s rest db e =
    (rest, rw (+ℤ-zero s.expected_cash) (ap (λ ss. (ok tt, record db { shifts = ss })) e.0))
cash_in h u (a ∷ more) s rest db e =
    let (rest1, step) = apply_cash_lem h u a s rest db e in
    let s1 : Shift = record s { expected_cash = s.expected_cash +ℤ a } in
    let db1 : Db = record db { shifts = s1 ∷ rest1 } in
    let (rest2, later) = cash_in h u more s1 rest1 db1 (refl, e.1) in
    (
      rest2,
      bind-ok (apply_cash h u a) (λ _. for_each (apply_cash h u) more) db db1 tt step
          ∙ later
          ∙ rw (+ℤ_assoc s.expected_cash a (sum_ℤ more)) refl,
    )

close_lem :
    (now u : ℕ) (actor : Actor) (cash : ℤ) (s : Shift) (rest : List Shift) (db : Db)
    → actor.id ≡ some u
    → AtFront actor.hotel_id u s rest db.shifts
    → (close_drawer now actor cash db).0 ≡ ok (counted cash now s s, expected_total s)
unfolding close_drawer ◌>>=◌
close_lem now u actor cash s rest db eu e = ground (arith, eu, e)

open_lem :
    (u : ℕ) (actor : Actor) (float : ℤ) (db : Db)
    → actor.id ≡ some u
    → find_first (is_open_of actor.hotel_id u) db.shifts ≡ none
    → let new : Shift = record {
      id = db.next_id;
      hotel_id = actor.hotel_id;
      user_id = u;
      opening_float = float;
      expected_cash = pos 0;
      counted_cash = none;
      variance = none;
      closed_at = none;
      status = ShiftStatus.open_shift;
    } in
      open_drawer actor float db ≡ (
        ok new,
        record db {
          shifts = new ∷ db.shifts;
          audits =
              record {
                hotel_id = actor.hotel_id;
                actor_id = actor.id;
                actor_type = actor.type;
                action = "cashdrawer.open";
                entity = "CashDrawerShift";
                entity_id = db.next_id;
              }
              ∷ db.audits;
          next_id = db.next_id + 1;
        },
      )
unfolding open_drawer open_new ◌>>=◌
open_lem u actor float db eu fresh = ground (arith, eu, fresh)

-- A user with no open shift who opens one, takes any sequence of cash amounts (refunds among them)
-- and closes it is told the expected total: the float and the sum of the amounts. The closed shift
-- holds the count, and the variance is the count less the expected total.
pub shift_variance :
    (now u : ℕ) (actor : Actor) (float cash : ℤ) (amounts : List ℤ) (db : Db)
    → actor.id ≡ some u
    → find_first (is_open_of actor.hotel_id u) db.shifts ≡ none
    → (s : Shift) × (((open_drawer actor float
            >> for_each (apply_cash actor.hotel_id u) amounts
            >> close_drawer now actor cash)
          db).0
        ≡ ok (s, float +ℤ sum_ℤ amounts))
      × (s.counted_cash ≡ some cash)
      × (s.variance ≡ some (cash -ℤ (float +ℤ sum_ℤ amounts)))
      × (s.status ≡ ShiftStatus.closed)
      × (s.user_id ≡ u)
unfolding expected_total counted
shift_variance now u actor float cash amounts db eu fresh = (
  counted cash now after after,
  ap (λ r. r.0)
        (bind-ok (open_drawer actor float >> for_each (apply_cash actor.hotel_id u) amounts)
          (λ _. close_drawer now actor cash) db _ tt
          (bind-ok (open_drawer actor float) (λ _. for_each (apply_cash actor.hotel_id u) amounts)
              db db1 new opened
            ∙ taken.1))
      ∙ close_lem now u actor cash after taken.0 _ eu (refl, mine)
      ∙ rw (zero+ (sum_ℤ amounts)) refl,
  refl,
  rw (zero+ (sum_ℤ amounts)) refl,
  refl,
  refl,
)
  where
    new : Shift
    new = record {
      id = db.next_id;
      hotel_id = actor.hotel_id;
      user_id = u;
      opening_float = float;
      expected_cash = pos 0;
      counted_cash = none;
      variance = none;
      closed_at = none;
      status = ShiftStatus.open_shift;
    }

    db1 : Db
    db1 = record db {
      shifts = new ∷ db.shifts;
      audits =
          record {
            hotel_id = actor.hotel_id;
            actor_id = actor.id;
            actor_type = actor.type;
            action = "cashdrawer.open";
            entity = "CashDrawerShift";
            entity_id = db.next_id;
          }
          ∷ db.audits;
      next_id = db.next_id + 1;
    }

    after : Shift
    after = record new { expected_cash = pos 0 +ℤ sum_ℤ amounts }

    mine : is_open_of actor.hotel_id u after ≡ true
    mine = ground arith

    opened : open_drawer actor float db ≡ (ok new, db1)
    opened = open_lem u actor float db eu fresh

    taken :
        (rest : List Shift) × (for_each (apply_cash actor.hotel_id u) amounts db1
          ≡ (ok tt, record db1 { shifts = after ∷ rest }))
    taken = cash_in actor.hotel_id u amounts new db.shifts db1 (refl, ground arith)

    zero+ : (a : ℤ) → pos 0 +ℤ a ≡ a
    zero+ a = omega int_laws
