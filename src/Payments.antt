-- ===== src/Payments.antt =====
-- PaymentsService.recordPayment (apps/api/src/payments/payments.service.ts): a payment or a refund
-- against the folio of a reservation, converted to the folio's currency, with the cash drawer.
use hospitality_os.CashDrawer.{apply_cash}
use hospitality_os.Common.{
  Bool, Option, String, false, if◌then◌else◌, none, or_else, some, str_eq, true, ℕ, ◌∷◌,
}
use hospitality_os.Common.Int.{abs, neg, ℤ, ◌+ℤ◌, ◌-ℤ◌}
use hospitality_os.Enums.{PaymentMethod, PaymentType}
use hospitality_os.Guests.{on_payment_recorded}
use hospitality_os.Idempotency.{run}
use hospitality_os.Reservations.Modify.{of_reservation}
use hospitality_os.Store.{
  Action, Actor, Db, DomainEvent, Error, External, Folio, Payment, PaymentReceipt, Response, emit,
  find_first, find_own, folio_keyed, fresh_id, gets, modify, or_throw, pure, record_audit,
  reservation_keyed, transaction, update_by, when, ◌>>=◌, ◌>>◌,
}

pub record PaymentDto : Type 0 where
  pub amount : ℤ
  pub method : PaymentMethod
  pub type : PaymentType
  pub currency : Option String
  pub fx_rate : Option ℕ
  pub reference : Option String
  pub idempotency_key : Option String

-- `{ reservationId, reservation: { hotelId } }`: the folio of a reservation of the hotel
abbrev pub folio_of : (hotel_id reservation_id : ℕ) → Db → Option Folio
folio_of h i db = elim (find_own h i db.reservations) [
  | none ↦ none
  | some r ↦ find_first (of_reservation i) db.folios
]

abbrev pub is_cash : PaymentMethod → Bool
is_cash PaymentMethod.cash = true
is_cash _ = false

-- the audit action `payment.<type>`
abbrev pub payment_action : PaymentType → String
payment_action PaymentType.deposit = "payment.deposit"
payment_action PaymentType.balance = "payment.balance"
payment_action PaymentType.full = "payment.full"
payment_action PaymentType.refund = "payment.refund"

-- a refund lowers the paid total
unfoldable pub signed : PaymentType → ℤ → ℤ
signed PaymentType.refund base = neg (abs base)
signed _ base = base

-- `{ totalPaid, balance: folio.totalCharges - totalPaid }` from the row that was read
unfoldable pub paid : Folio → ℤ → Folio → Folio
paid read base f = record f {
  total_paid = read.total_paid +ℤ base;
  balance = read.total_charges -ℤ (read.total_paid +ℤ base);
}

-- `dto.method === CASH && actor.id`
abbrev pub apply_if_cash : PaymentMethod → Option ℕ → (hotel_id : ℕ) → ℤ → Action (Unit {0})
apply_if_cash method none h base = pure tt
apply_if_cash method (some u) h base = when (is_cash method) (apply_cash h u base)

module _ (ext : External) where
  -- `convertMinor` (packages/shared/src/currency.ts)
  unfoldable pub convert_minor : ℤ → String → String → ℕ → ℤ
  convert_minor amount from to rate =
      if str_eq (ext.upper from) (ext.upper to) then amount else ext.convert amount from to rate

  -- the rate of the payment: 1 in the folio's own currency, else the one given, else a live one
  unfoldable pub rate_for : PaymentDto → (from to : String) → ℕ
  rate_for dto from to =
      if str_eq from to then 1000000 else or_else dto.fx_rate (ext.live_rate from to)

  -- the amount that the folio counts
  unfoldable pub base_amount : PaymentDto → Folio → ℤ
  unfolding convert_minor rate_for signed
  base_amount dto folio =
      let from = or_else dto.currency folio.currency in
      signed dto.type
        (convert_minor dto.amount from folio.currency (rate_for dto from folio.currency))

abbrev pub new_payment : (id reservation_id : ℕ) → Actor → PaymentDto → Folio → ℤ → Payment
new_payment p i actor dto folio base = record {
  id = p;
  hotel_id = actor.hotel_id;
  folio_id = folio.id;
  reservation_id = i;
  amount = dto.amount;
  currency = or_else dto.currency folio.currency;
  base_amount = base;
  method = dto.method;
  type = dto.type;
  reference = dto.reference;
  recorded_by_id = actor.id;
  recorded_by_type = actor.type;
}

-- the transaction
unfoldable pub write_payment : Actor → ℕ → PaymentDto → Folio → ℤ → Action ℕ
unfolding paid
write_payment actor i dto folio base = transaction do
  p ← fresh_id
  modify λ db. record db {
    payments = new_payment p i actor dto folio base ∷ db.payments;
    folios = update_by folio.id (paid folio base) db.folios;
  }
  apply_if_cash dto.method actor.id actor.hotel_id base
  record_audit actor (payment_action dto.type) "Payment" p
  pure p

module _ (ext : External) where
  -- `recordInner`, from the folio on
  unfoldable pub record_on : Actor → ℕ → PaymentDto → Folio → Action PaymentReceipt
  unfolding base_amount write_payment apply_cash on_payment_recorded
  record_on actor i dto folio = do
    let base = base_amount ext dto folio
    p ← write_payment actor i dto folio base
    let f = paid folio base folio
    emit (DomainEvent.payment_recorded actor.hotel_id p i folio.id base f.balance)
    on_payment_recorded ext p actor.hotel_id i base
    pure (record {
      payment_id = p;
      balance = f.balance;
      total_paid = f.total_paid;
      currency = folio.currency;
    })

  unfoldable pub record_inner : Actor → ℕ → PaymentDto → Action PaymentReceipt
  unfolding record_on
  record_inner actor i dto = gets (λ db. folio_of actor.hotel_id i db) >>= λ folio.
      or_throw folio Error.not_found >>= record_on actor i dto

  unfoldable pub record_payment : Actor → ℕ → PaymentDto → Action Response
  unfolding record_inner
  record_payment actor i dto =
      run dto.idempotency_key (record_inner actor i dto >>= λ r. pure (Response.receipt r))
