-- ===== src/CashDrawer.antt =====
-- CashDrawerService (apps/api/src/payments/cash-drawer.service.ts): a cashier's shift is opened with
-- a float, collects cash, is counted and closed, and is signed off.
pub mod Shifts
pub mod Variance
use hospitality_os.Common.{Bool, Option, false, is_some, none, not, some, true, ℕ, ◌&&◌, ◌==◌, ◌∷◌}
use hospitality_os.Common.Int.{pos, ℤ, ◌+ℤ◌, ◌-ℤ◌}
use hospitality_os.Enums.{ShiftStatus}
use hospitality_os.Store.{
  Action, Actor, Db, Error, Shift, find_first, find_own, fresh_id, gets, modify, or_throw, pure,
  record_audit, shift_keyed, throw_if, update_by, ◌>>=◌, ◌>>◌,
}

abbrev pub is_open : ShiftStatus → Bool
is_open ShiftStatus.open_shift = true
is_open _ = false

abbrev pub is_closed : ShiftStatus → Bool
is_closed ShiftStatus.closed = true
is_closed _ = false

-- `{ hotelId, userId, status: OPEN }`
abbrev pub is_open_of : (hotel_id user_id : ℕ) → Shift → Bool
is_open_of h u s = s.hotel_id == h && s.user_id == u && is_open s.status

-- the row of `cashDrawerShift.create`, once no shift of the user is open
unfoldable pub open_new : Actor → (user_id : ℕ) → ℤ → Action Shift
open_new actor user opening_float = do
  i ← fresh_id
  let shift : Shift = record {
    id = i;
    hotel_id = actor.hotel_id;
    user_id = user;
    opening_float = opening_float;
    expected_cash = pos 0;
    counted_cash = none;
    variance = none;
    closed_at = none;
    status = ShiftStatus.open_shift;
  }
  modify λ db. record db { shifts = shift ∷ db.shifts }
  record_audit actor "cashdrawer.open" "CashDrawerShift" i
  pure shift

unfoldable pub open_drawer : Actor → ℤ → Action Shift
unfolding open_new
open_drawer actor opening_float = do
  user ← or_throw actor.id Error.bad_request
  existing ← gets λ db. find_first (is_open_of actor.hotel_id user) db.shifts
  throw_if (is_some existing) Error.bad_request
  open_new actor user opening_float

-- `{ expectedCash: shift.expectedCash + signedAmount }` from the row that was read
abbrev pub collect : Option Shift → ℤ → Action (Unit {0})
collect none amount = pure tt
collect (some read) amount = modify λ db. record db {
  shifts =
      update_by read.id (λ s. record s { expected_cash = read.expected_cash +ℤ amount }) db.shifts;
}

unfoldable pub apply_cash : (hotel_id user_id : ℕ) → ℤ → Action (Unit {0})
apply_cash h u amount =
    gets (λ db. find_first (is_open_of h u) db.shifts) >>= λ shift. collect shift amount

-- `current`: the open shift of the actor
abbrev pub current_shift : Actor → Option ℕ → Db → Option Shift
current_shift actor none db = none
current_shift actor (some u) db = find_first (is_open_of actor.hotel_id u) db.shifts

unfoldable pub expected_total : Shift → ℤ
expected_total s = s.opening_float +ℤ s.expected_cash

-- the closed shift that is written and returned
unfoldable pub counted : ℤ → (now : ℕ) → Shift → Shift → Shift
unfolding expected_total
counted cash now read s = record s {
  counted_cash = some cash;
  variance = some (cash -ℤ expected_total read);
  closed_at = some now;
  status = ShiftStatus.closed;
}

unfoldable pub close_drawer : (now : ℕ) → Actor → ℤ → Action (Shift × ℤ)
unfolding counted
close_drawer now actor cash = do
  shift ← or_throw (← gets λ db. current_shift actor actor.id db) Error.not_found
  modify λ db. record db { shifts = update_by shift.id (counted cash now shift) db.shifts }
  record_audit actor "cashdrawer.close" "CashDrawerShift" shift.id
  pure (counted cash now shift shift, expected_total shift)

unfoldable pub reconcile : Actor → ℕ → Action (Unit {0})
reconcile actor i = do
  shift ← or_throw (← gets λ db. find_own actor.hotel_id i db.shifts) Error.not_found
  throw_if (not (is_closed shift.status)) Error.bad_request
  modify λ db. record db {
    shifts = update_by i (λ s. record s { status = ShiftStatus.reconciled }) db.shifts;
  }
  record_audit actor "cashdrawer.reconcile" "CashDrawerShift" i
