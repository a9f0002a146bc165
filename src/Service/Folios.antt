-- ===== src/Service/Folios.antt =====
-- A property of the reservations alone, and the calls that write guests and folios but no
-- reservation.
use hospitality_os.CashDrawer.{apply_cash, collect}
use hospitality_os.Common.{Bool, Option, String, arith, false, none, some, true, ℕ, ◌≡◌, ◌≤◌}
use hospitality_os.Common.Int.{ℤ}
use hospitality_os.Enums.{HkTaskType, LineType, PaymentMethod, Priority}
use hospitality_os.FrontDesk.{check_in, check_out, deposit}
use hospitality_os.Guests.{on_checked_out, on_payment_recorded, reward, visit}
use hospitality_os.Housekeeping.{on_reservation_checked_out}
use hospitality_os.Idempotency.{replay, run}
use hospitality_os.Ledger.Posting.{quote-reads}
use hospitality_os.Orders.{pay, post_order}
use hospitality_os.Payments.{
  PaymentDto, apply_if_cash, record_inner, record_on, record_payment, write_payment,
}
use hospitality_os.Promotions.{
  apply_promo, discount_folio, redeem_folio, redeem_gift_card, valid_promo, write_discount,
  write_redemption,
}
use hospitality_os.Rates.{quote}
use hospitality_os.Reservations.Cancel.{system_actor}
use hospitality_os.Reservations.Create.{GuestInput, upsert_guest, write_guest}
use hospitality_os.Reservations.Modify.{ModifyDto, as_conflict, new_total, post_to}
use hospitality_os.Service.Frame.{Framed, fresh_id-Keeps}
use hospitality_os.Service.Rooms.{create_task-Keeps}
use hospitality_os.Store.{
  Action, Actor, Db, Error, External, Folio, Guest, Keeps, Keeps-reads, Order, Reservation,
  Response, Result, Shift, err, fresh_id, guest_keyed, keeping, modify, ok, reservation_keyed,
}

-- a property that reads the reservations, and of the identifiers that they are below the next one
pub record OnReservations (P : Db → Type 0) : Type 1 where
  pub carried :
      (db db' : Db) → db'.reservations ≡ db.reservations → db.next_id ≤ db'.next_id → P db → P db'

pub on_reservations-Framed : (P : Db → Type 0) → OnReservations P → Framed P
on_reservations-Framed P on = record { frame = λ db db' b h. on.carried db db' b.0 b.4 h }

module _ (P : Db → Type 0) (on : OnReservations P) where
  pub write-Keeps :
      (g : Db → Db)
      → ((db : Db) → (g db).reservations ≡ db.reservations)
      → ((db : Db) → (g db).next_id ≡ db.next_id)
      → Keeps P (modify g)
  write-Keeps g rs n db h = on.carried db (g db) (rs db) (omega (arith, n db)) h

  pub next_id-Keeps : Keeps P fresh_id
  next_id-Keeps = fresh_id-Keeps P (on_reservations-Framed P on)

  pub quote-Keeps :
      (ext : External) (h rt check_in check_out : ℕ) (plan : Option ℕ)
      → Keeps P (quote ext h rt check_in check_out plan)
  quote-Keeps ext h rt check_in check_out plan =
      Keeps-reads P (quote ext h rt check_in check_out plan)
        (quote-reads ext h rt check_in check_out plan)

  write_guest-Keeps :
      (ext : External) (h : ℕ) (g : GuestInput) (o : Option Guest) → Keeps P (write_guest ext h g o)
  write_guest-Keeps ext h g none = search (keeping, write-Keeps, next_id-Keeps) depth 12
  write_guest-Keeps ext h g (some old) = search (keeping, write-Keeps) depth 12

  pub upsert_guest-Keeps :
      (ext : External) (h : ℕ) (g : GuestInput) → Keeps P (upsert_guest ext h g)
  unfolding upsert_guest
  upsert_guest-Keeps ext h g = search (keeping, write_guest-Keeps) depth 12

  pub post_to-Keeps :
      (o : Option Folio) (type : LineType) (amount : ℤ) (by : Option ℕ)
      → Keeps P (post_to o type amount by)
  post_to-Keeps none type amount by = λ db h. h
  post_to-Keeps (some f) type amount by = search (write-Keeps)

  pub new_total-Keeps :
      (ext : External) (actor : Actor) (dto : ModifyDto) (r : Reservation) (changed : Bool)
      → Keeps P (new_total ext actor dto r changed)
  new_total-Keeps ext actor dto r true = search (keeping, quote-Keeps) depth 12
  new_total-Keeps ext actor dto r false = λ db h. h

  pub as_conflict-holds : {A : Type 0} (r : Result A × Db) → P r.1 → P (as_conflict r).1
  as_conflict-holds (ok a, db) h = h
  as_conflict-holds (err Error.exclusion_violation, db) h = h
  as_conflict-holds (err _, db) h = h

  collect-Keeps : (o : Option Shift) (amount : ℤ) → Keeps P (collect o amount)
  collect-Keeps none amount = λ db h. h
  collect-Keeps (some s) amount = search (write-Keeps)

  apply_if_cash-Keeps :
      (method : PaymentMethod) (by : Option ℕ) (h : ℕ) (base : ℤ)
      → Keeps P (apply_if_cash method by h base)
  unfolding apply_cash
  apply_if_cash-Keeps method none h base = λ db b. b
  apply_if_cash-Keeps method (some u) h base = search (keeping, collect-Keeps) depth 12

  reward-Keeps :
      (ext : External) (p h : ℕ) (amount : ℤ) (o : Option Reservation)
      → Keeps P (reward ext p h amount o)
  unfolding reward
  reward-Keeps ext p h amount none = λ db x. x
  reward-Keeps ext p h amount (some r) = search (keeping, write-Keeps) depth 16

  on_payment_recorded-Keeps :
      (ext : External) (p h i : ℕ) (amount : ℤ) → Keeps P (on_payment_recorded ext p h i amount)
  unfolding on_payment_recorded
  on_payment_recorded-Keeps ext p h i amount = search (keeping, reward-Keeps) depth 16

  record_inner-Keeps :
      (ext : External) (actor : Actor) (i : ℕ) (dto : PaymentDto)
      → Keeps P (record_inner ext actor i dto)
  unfolding record_inner record_on write_payment
  record_inner-Keeps ext actor i dto =
      search (keeping, write-Keeps, next_id-Keeps, apply_if_cash-Keeps, on_payment_recorded-Keeps)
        depth 24

  replay-Keeps :
      (k : String) (operation : Action Response) (o : Option Response)
      → Keeps P operation
      → Keeps P (replay k operation o)
  replay-Keeps k operation none keeps = search (keeping, write-Keeps) depth 12
  replay-Keeps k operation (some a) keeps = λ db h. h

  pub run-Keeps :
      (key : Option String) (operation : Action Response)
      → Keeps P operation
      → Keeps P (run key operation)
  unfolding run
  run-Keeps none operation keeps = keeps
  run-Keeps (some k) operation keeps = search (keeping, replay-Keeps) depth 12

  pub record_payment-Keeps :
      (ext : External) (actor : Actor) (i : ℕ) (dto : PaymentDto)
      → Keeps P (record_payment ext actor i dto)
  unfolding record_payment
  record_payment-Keeps ext actor i dto = search (keeping, run-Keeps, record_inner-Keeps) depth 12

  pub deposit-Keeps :
      (ext : External) (actor : Actor) (i : ℕ) (amount : Option ℤ) (method : Option PaymentMethod)
      → Keeps P (deposit ext actor i amount method)
  deposit-Keeps ext actor i none method = λ db h. h
  deposit-Keeps ext actor i (some amount) none = λ db h. h
  deposit-Keeps ext actor i (some amount) (some method) =
      search (keeping, record_payment-Keeps) depth 12

  pub on_reservation_checked_out-Keeps :
      (now h room : ℕ) → Keeps P (on_reservation_checked_out now h room)
  unfolding on_reservation_checked_out
  on_reservation_checked_out-Keeps now h room db e =
      create_task-Keeps P (on_reservations-Framed P on) now (system_actor h)
        (record {
          room_id = room;
          type = HkTaskType.checkout_clean;
          priority = some Priority.high;
          assigned_to_id = none;
        })
        db e

  visit-Keeps : (now : ℕ) (o : Option Reservation) → Keeps P (visit now o)
  visit-Keeps now none = λ db h. h
  visit-Keeps now (some r) = search (write-Keeps)

  pub on_checked_out-Keeps : (now i : ℕ) → Keeps P (on_checked_out now i)
  unfolding on_checked_out
  on_checked_out-Keeps now i = search (keeping, visit-Keeps) depth 12

  post_order-Keeps :
      (actor : Actor) (order : Order) (o : Option ℕ) → Keeps P (post_order actor order o)
  post_order-Keeps actor order none = λ db h. h
  post_order-Keeps actor order (some r) = search (keeping, write-Keeps) depth 12

  pub pay-Keeps : (actor : Actor) (i : ℕ) → Keeps P (pay actor i)
  unfolding pay
  pay-Keeps actor i = search (keeping, write-Keeps, post_order-Keeps) depth 16

  pub apply_promo-Keeps :
      (ext : External) (now : ℕ) (actor : Actor) (i : ℕ) (code : String)
      → Keeps P (apply_promo ext now actor i code)
  unfolding apply_promo valid_promo discount_folio write_discount
  apply_promo-Keeps ext now actor i code = search (keeping, write-Keeps) depth 30

  pub redeem_gift_card-Keeps :
      (ext : External) (actor : Actor) (i : ℕ) (code : String) (amount : ℤ)
      → Keeps P (redeem_gift_card ext actor i code amount)
  unfolding redeem_gift_card redeem_folio write_redemption
  redeem_gift_card-Keeps ext actor i code amount =
      search (keeping, write-Keeps, next_id-Keeps) depth 30
