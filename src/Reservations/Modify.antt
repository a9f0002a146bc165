-- ===== src/Reservations/Modify.antt =====
-- ReservationsService.modify: new dates, type, room or party of a reservation, with the price and
-- the folio adjusted when the dates or the type change.
use hospitality_os.Common.{
  Bool, Option, String, false, leb, none, not, or_else, or_option, some, true, ℕ, ◌&&◌, ◌==◌, ◌||◌,
  ◌∷◌,
}
use hospitality_os.Common.Int.{ltb_ℤ, pos, ℤ, ◌+ℤ◌, ◌-ℤ◌}
use hospitality_os.Enums.{LineType, ReservationStatus}
use hospitality_os.Rates.{quote}
use hospitality_os.Reservations.Constraint.{update_reservation}
use hospitality_os.Store.{
  Action, Actor, Db, DomainEvent, Error, External, Folio, Reservation, Result, emit, err,
  find_first, find_own, folio_keyed, gets, modify, ok, or_throw, pure, record_audit,
  reservation_keyed, throw_if, transaction, update_by, when, ◌>>=◌, ◌>>◌,
}

pub record ModifyDto : Type 0 where
  pub check_in : Option ℕ
  pub check_out : Option ℕ
  pub room_type_id : Option ℕ
  pub room_id : Option ℕ
  pub adults : Option ℕ
  pub children : Option ℕ
  pub special_requests : Option String

-- the two statuses that are refused; a no-show or a guest in the house may be modified
abbrev pub is_final : ReservationStatus → Bool
is_final ReservationStatus.checked_out = true
is_final ReservationStatus.cancelled = true
is_final _ = false

-- `a !== b` on amounts
abbrev pub differs : ℤ → ℤ → Bool
differs a b = ltb_ℤ a b || ltb_ℤ b a

-- `get`: the reservation of the hotel; the decrypted identity number is not used here
abbrev pub get_reservation : ℕ → ℕ → Action Reservation
get_reservation h i = gets (λ db. find_own h i db.reservations) >>= λ r. or_throw r Error.not_found

abbrev pub of_reservation : ℕ → Folio → Bool
of_reservation i f = f.reservation_id == i

-- `{ totalCharges: f.totalCharges + delta, balance: f.balance + delta }` from the row that was read
abbrev pub charged : Folio → ℤ → Folio → Folio
charged read delta f = record f {
  total_charges = read.total_charges +ℤ delta;
  balance = read.balance +ℤ delta;
}

-- a line item on a folio, and the folio with its totals changed by the amount
abbrev pub post_charge : Folio → LineType → ℤ → Option ℕ → Action (Unit {0})
post_charge folio type amount by = modify λ db. record db {
  line_items =
      record { folio_id = folio.id; type = type; amount = amount; quantity = pos 1; by = by }
      ∷ db.line_items;
  folios = update_by folio.id (charged folio amount) db.folios;
}

abbrev pub post_to : Option Folio → LineType → ℤ → Option ℕ → Action (Unit {0})
post_to none type amount by = pure tt
post_to (some f) type amount by = post_charge f type amount by

-- the row of `reservation.update`
abbrev pub modified : ModifyDto → ℤ → Reservation → Reservation → Reservation
modified dto total read r = record r {
  check_in_date = or_else dto.check_in read.check_in_date;
  check_out_date = or_else dto.check_out read.check_out_date;
  room_type_id = or_else dto.room_type_id read.room_type_id;
  room_id = or_option dto.room_id read.room_id;
  adults = or_else dto.adults read.adults;
  children = or_else dto.children read.children;
  special_requests = or_option dto.special_requests read.special_requests;
  quoted_price = total;
}

abbrev pub dates_changed : ModifyDto → Reservation → Bool
dates_changed dto r =
    not (or_else dto.check_in r.check_in_date == r.check_in_date)
    || not (or_else dto.check_out r.check_out_date == r.check_out_date)
    || not (or_else dto.room_type_id r.room_type_id == r.room_type_id)

-- `catch (e)`: the exclusion constraint becomes a conflict
abbrev pub as_conflict {ℓ} : {A : Type ℓ} → Result A × Db → Result A × Db
as_conflict (err Error.exclusion_violation, db) = (err Error.no_availability, db)
as_conflict (err e, db) = (err e, db)
as_conflict (ok a, db) = (ok a, db)

module _ (ext : External) where
  -- the total of the new stay, or the price that was quoted
  abbrev pub new_total : Actor → ModifyDto → Reservation → Bool → Action ℤ
  new_total actor dto r true = do
    priced ←
        quote ext actor.hotel_id (or_else dto.room_type_id r.room_type_id)
          (or_else dto.check_in r.check_in_date) (or_else dto.check_out r.check_out_date)
          r.rate_plan_id
    throw_if priced.blocked Error.rate_restricted
    pure priced.total
  new_total actor dto r false = pure r.quoted_price

-- the transaction
unfoldable pub write_modified : Actor → ℕ → ModifyDto → Reservation → ℤ → Action (Unit {0})
write_modified actor i dto current total = transaction do
  update_reservation i (modified dto total current)
  when (dates_changed dto current && differs total current.quoted_price) do
    folio ← gets λ db. find_first (of_reservation i) db.folios
    post_to folio LineType.adjustment (total -ℤ current.quoted_price) actor.id
  record_audit actor "reservation.modify" "Reservation" i

module _ (ext : External) where
  unfoldable pub modify_reservation : Actor → ℕ → ModifyDto → Action (Unit {0})
  unfolding write_modified
  modify_reservation actor i dto = do
    current ← get_reservation actor.hotel_id i
    throw_if (is_final current.status) Error.bad_request
    throw_if
        (leb (or_else dto.check_out current.check_out_date)
          (or_else dto.check_in current.check_in_date))
        Error.bad_request
    total ← new_total ext actor dto current (dates_changed dto current)
    (λ db. as_conflict (write_modified actor i dto current total db))
    emit (DomainEvent.reservation_modified actor.hotel_id i)
