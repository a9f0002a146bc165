-- ===== src/CashDrawer/Shifts.antt =====
-- The shifts of a cash drawer: one is open at a time, and its variance is the count less the float
-- and the cash that came in.
use hospitality_os.CashDrawer.{
  apply_cash, close_drawer, collect, counted, is_open_of, open_drawer, open_new, reconcile,
}
use hospitality_os.Common.{
  Bool, Bool-cases, List, Option, [], arith, false, filterb, inl, inr, is_some, length, none, refl,
  some, true, ℕ, ◌∷◌, ◌≡◌, ◌≤◌,
}
use hospitality_os.Common.Int.{pos, ℤ, ◌+ℤ◌}
use hospitality_os.Enums.{ShiftStatus}
use hospitality_os.Store.{
  Actor, Db, Error, Keeps, Shift, find_first, gets, keeping, modify, or_throw-then, shift_keyed,
  throw_if, throw_if-then, update_by, ◌>>=◌, ◌>>◌,
}

-- the open shifts of a user of a hotel
abbrev pub open_shifts : (hotel_id user_id : ℕ) → List Shift → ℕ
open_shifts h u ss = length (filterb (is_open_of h u) ss)

pub record OneEach (ss : List Shift) : Type 0 where
  pub at_most_one : (h u : ℕ) → open_shifts h u ss ≤ 1

-- no user of a hotel has two open shifts
abbrev pub OneOpen : Db → Type 0
OneOpen db = OneEach db.shifts

none_open :
    (p : Shift → Bool) (ss : List Shift) → find_first p ss ≡ none → length (filterb p ss) ≡ 0
none_open p [] e = refl
none_open p (s ∷ ss) e = ground (arith, none_open p ss)

-- an update after which a shift is open only if it was
update_by-open :
    (i : ℕ) (g : Shift → Shift) (h u : ℕ) (ss : List Shift)
    → ((s : Shift) → is_open_of h u (g s) ≡ true → is_open_of h u s ≡ true)
    → open_shifts h u (update_by i g ss) ≤ open_shifts h u ss
unfolding update_by
update_by-open i g h u [] only = omega arith
update_by-open i g h u (s ∷ ss) only = ground (arith, only s, update_by-open i g h u ss only)

open_after :
    (h u : ℕ) (s : Shift) (ss : List Shift)
    → find_first (is_open_of s.hotel_id s.user_id) ss ≡ none
    → open_shifts h u ss ≤ 1
    → open_shifts h u (s ∷ ss) ≤ 1
open_after h u s ss e one = elim (Bool-cases (is_open_of h u s)) [
  | inl mine ↦ rw mine (omega (arith, no_other mine))
  | inr other ↦ rw other one
]
  where
    no_other : is_open_of h u s ≡ true → open_shifts h u ss ≡ 0
    no_other mine =
        let at_h : s.hotel_id ≡ h = ground (arith, mine) in
        let at_u : s.user_id ≡ u = ground (arith, mine) in
        none_open (is_open_of h u) ss (rw (at_h, at_u) at e)

-- the row is another one, or there was none
lookup_none : (o : Option Shift) → is_some o ≡ false → o ≡ none
lookup_none none e = refl
lookup_none (some s) e = ground arith

collect-OneOpen : (o : Option Shift) (amount : ℤ) → Keeps OneOpen (collect o amount)
collect-OneOpen none amount db one = one
collect-OneOpen (some s) amount db one = record {
  at_most_one = λ h u. omega (
    arith,
    one.at_most_one h u,
    update_by-open s.id (λ x. record x { expected_cash = s.expected_cash +ℤ amount }) h u db.shifts
        (λ x e. e),
  );
}

apply_cash-OneOpen : (h u : ℕ) (amount : ℤ) → Keeps OneOpen (apply_cash h u amount)
unfolding apply_cash
apply_cash-OneOpen h u amount = search (keeping, collect-OneOpen) depth 12

-- a write of the shifts after which a shift is open only if it was
closing-OneOpen :
    (i : ℕ) (g : Shift → Shift)
    → ((h u : ℕ) (s : Shift) → is_open_of h u (g s) ≡ true → is_open_of h u s ≡ true)
    → Keeps OneOpen (modify λ db. record db { shifts = update_by i g db.shifts })
closing-OneOpen i g only db one = record {
  at_most_one =
      λ h u. omega (arith, one.at_most_one h u, update_by-open i g h u db.shifts (only h u));
}

counted-open :
    (cash : ℤ) (now : ℕ) (read : Shift) (h u : ℕ) (s : Shift)
    → is_open_of h u (counted cash now read s) ≡ true
    → is_open_of h u s ≡ true
unfolding counted
counted-open cash now read h u s e = ground arith

reconciled-open :
    (h u : ℕ) (s : Shift)
    → is_open_of h u (record s { status = ShiftStatus.reconciled }) ≡ true
    → is_open_of h u s ≡ true
reconciled-open h u s e = ground arith

close_drawer-OneOpen :
    (now : ℕ) (actor : Actor) (cash : ℤ) → Keeps OneOpen (close_drawer now actor cash)
unfolding close_drawer
close_drawer-OneOpen now actor cash = search (keeping, closing-OneOpen, counted-open) depth 16

reconcile-OneOpen : (actor : Actor) (i : ℕ) → Keeps OneOpen (reconcile actor i)
unfolding reconcile
reconcile-OneOpen actor i = search (keeping, closing-OneOpen, reconciled-open) depth 16

open_new-OneOpen :
    (actor : Actor) (user : ℕ) (float : ℤ) (db : Db)
    → find_first (is_open_of actor.hotel_id user) db.shifts ≡ none
    → OneOpen db
    → OneOpen (open_new actor user float db).1
unfolding open_new ◌>>=◌
open_new-OneOpen actor user float db fresh one = record {
  at_most_one = λ h u.
      open_after h u
        (record {
          id = db.next_id;
          hotel_id = actor.hotel_id;
          user_id = user;
          opening_float = float;
          expected_cash = pos 0;
          counted_cash = none;
          variance = none;
          closed_at = none;
          status = ShiftStatus.open_shift;
        })
        db.shifts fresh (one.at_most_one h u);
}

open_drawer-OneOpen : (actor : Actor) (float : ℤ) → Keeps OneOpen (open_drawer actor float)
unfolding open_drawer ◌>>=◌
open_drawer-OneOpen actor float db one =
    or_throw-then (λ r. OneOpen r.1) actor.id Error.bad_request
      (λ user. gets (λ d. find_first (is_open_of actor.hotel_id user) d.shifts) >>= λ existing.
        throw_if (is_some existing) Error.bad_request >> open_new actor user float)
      db one
      (λ user eu.
        throw_if-then (λ r. OneOpen r.1)
          (is_some (find_first (is_open_of actor.hotel_id user) db.shifts)) Error.bad_request
          (open_new actor user float) db one
          (λ fresh. open_new-OneOpen actor user float db (lookup_none _ fresh) one))

-- If no user of a hotel has two open shifts, then none has two after a shift is opened, takes cash,
-- is closed or is reconciled, whether the call returns or throws.
pub drawers-OneOpen :
    (actor : Actor) (now i user : ℕ) (amount : ℤ) (db : Db)
    → OneOpen db
    → OneOpen (open_drawer actor amount db).1
      × OneOpen (apply_cash actor.hotel_id user amount db).1
      × OneOpen (close_drawer now actor amount db).1
      × OneOpen (reconcile actor i db).1
drawers-OneOpen actor now i user amount db one = (
  open_drawer-OneOpen actor amount db one,
  apply_cash-OneOpen actor.hotel_id user amount db one,
  close_drawer-OneOpen now actor amount db one,
  reconcile-OneOpen actor i db one,
)
