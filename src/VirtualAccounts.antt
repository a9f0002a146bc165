-- ===== src/VirtualAccounts.antt =====
-- DynamicAccountsService (apps/api/src/payments/dynamic-accounts.service.ts): a bank account number for
-- a reservation, and the transfers that arrive there. What is drawn at random is an argument.
pub mod Drawing
pub mod Transfers
use hospitality_os.Common.{
  Bool, List, Option, String, any, false, if◌then◌else◌, is_some, ltb, none, not, or_else, some,
  str_append, str_eq, suc, true, zero, ℕ, ◌&&◌, ◌*◌, ◌+◌, ◌==◌, ◌∷◌,
}
use hospitality_os.Common.Int.{ℤ}
use hospitality_os.Enums.{ActorType, PaymentMethod, PaymentType, ReservationStatus}
use hospitality_os.Payments.{PaymentDto, record_payment}
use hospitality_os.Reservations.Cancel.{system_actor}
use hospitality_os.Reservations.Constraint.{update_reservation}
use hospitality_os.Reservations.Create.{is_held}
use hospitality_os.Reservations.Modify.{of_reservation}
use hospitality_os.Store.{
  AccountStatus, Action, Actor, Error, External, Folio, Reservation, Response, VirtualAccount,
  find_by, find_first, find_own, fresh_id, gets, modify, or_throw, pure, reservation_keyed,
  throw_if, update_by, virtual_account_keyed, when, ◌>>=◌, ◌>>◌,
}

abbrev pub is_active_account : AccountStatus → Bool
is_active_account AccountStatus.active = true
is_active_account _ = false

-- `OR: [{ expiresAt: null }, { expiresAt: { gt: now } }]`
abbrev pub is_unexpired : (now : ℕ) → Option ℕ → Bool
is_unexpired now none = true
is_unexpired now (some t) = ltb now t

abbrev pub is_usable : (now hotel_id reservation_id : ℕ) → VirtualAccount → Bool
is_usable now h i a =
    a.hotel_id == h
    && a.reservation_id == i
    && is_active_account a.status
    && is_unexpired now a.expires_at

-- the unique index on the hotel and the number
abbrev pub has_account : (hotel_id number : ℕ) → VirtualAccount → Bool
has_account h n a = a.hotel_id == h && a.account_number == n

-- The loop `while (!isUnique && attempts < 10)`: the draws `n k` until one is not taken, and the last one
-- where the attempts are used up.
unfoldable pub draw_number :
    (hotel_id : ℕ) → List VirtualAccount → (n : ℕ → ℕ) → (left k last : ℕ) → ℕ
draw_number h accounts n zero k last = last
draw_number h accounts n (suc left) k last =
    let next = draw_number h accounts n left (suc k) (n k) in
    if any (has_account h (n k)) accounts then next else n k

pub record DvaDto : Type 0 where
  pub amount : Option ℤ
  pub expires_in_hours : Option ℕ

-- `dto?.amountMinor ?? reservation.folio?.balance ?? reservation.quotedPrice`
abbrev pub expected_amount : Option ℤ → Option Folio → Reservation → ℤ
expected_amount (some a) folio r = a
expected_amount none (some f) r = f.balance
expected_amount none none r = r.quoted_price

abbrev pub insert_account : VirtualAccount → Action (Unit {0})
insert_account a =
    gets (λ db. any (has_account a.hotel_id a.account_number) db.virtual_accounts) >>= λ taken.
    throw_if taken Error.unique_violation
    >> modify λ db. record db { virtual_accounts = a ∷ db.virtual_accounts }

-- `dynamicVirtualAccount.create`
abbrev pub account_row :
    (id now : ℕ)
    → String
    → Actor
    → Reservation
    → DvaDto
    → (number : ℕ) → Option Folio
    → VirtualAccount
account_row i now reference actor r dto number folio = record {
  id = i;
  hotel_id = actor.hotel_id;
  reservation_id = r.id;
  account_number = number;
  reference = reference;
  amount_expected = expected_amount dto.amount folio r;
  status = AccountStatus.active;
  expires_at = some (now + or_else dto.expires_in_hours 24 * 3600000);
  received_at = none;
}

abbrev pub write_account :
    (now : ℕ)
    → String
    → Actor
    → Reservation
    → DvaDto
    → (number : ℕ) → Option Folio
    → Action VirtualAccount
write_account now reference actor r dto number folio = do
  i ← fresh_id
  let account = account_row i now reference actor r dto number folio
  insert_account account
  pure account

-- the account is created where the reservation has none
unfoldable pub open_account :
    (now : ℕ)
    → (n : ℕ → ℕ) → String
    → Actor
    → Reservation
    → DvaDto
    → Option VirtualAccount
    → Action VirtualAccount
unfolding draw_number
open_account now n reference actor r dto (some existing) = pure existing
open_account now n reference actor r dto none = do
  number ← gets λ db. draw_number actor.hotel_id db.virtual_accounts n 10 0 0
  folio ← gets λ db. find_first (of_reservation r.id) db.folios
  write_account now reference actor r dto number folio

unfoldable pub create_account :
    (now : ℕ) → (n : ℕ → ℕ) → String → Actor → (reservation_id : ℕ) → DvaDto → Action VirtualAccount
unfolding open_account
create_account now n reference actor i dto = do
  r ← or_throw (← gets λ db. find_own actor.hotel_id i db.reservations) Error.not_found
  existing ← gets λ db. find_first (is_usable now actor.hotel_id i) db.virtual_accounts
  open_account now n reference actor r dto existing

-- `ReconcileTransferDto`; a text that is given is not empty
pub record TransferDto : Type 0 where
  pub account_number : Option ℕ
  pub reference : Option String
  pub amount : ℤ
  pub bank_session_id : Option String

abbrev pub text_matches : Option String → String → Bool
text_matches none t = true
text_matches (some s) t = str_eq t s

abbrev pub number_matches : Option ℕ → ℕ → Bool
number_matches none n = true
number_matches (some m) n = n == m

abbrev pub is_target : ℕ → TransferDto → VirtualAccount → Bool
is_target h dto a =
    a.hotel_id == h
    && number_matches dto.account_number a.account_number
    && text_matches dto.reference a.reference

-- `actor.type === 'SYSTEM' ? systemActor(dva.hotelId) : actor`
abbrev pub acting : Actor → ActorType → ℕ → Actor
acting actor ActorType.system h = system_actor h
acting actor _ h = actor

-- `{ status: 'RECEIVED', receivedAt }`
abbrev pub received_row : (now : ℕ) → VirtualAccount → VirtualAccount
received_row now x = record x { status = AccountStatus.received; received_at = some now }

-- `{ status: 'CONFIRMED', holdExpiresAt: null }`
abbrev pub confirmed_row : Reservation → Reservation
confirmed_row x = record x { status = ReservationStatus.confirmed; hold_expires_at = none }

-- what follows the payment
unfoldable pub settle_account : (now : ℕ) → VirtualAccount → Reservation → Action (Unit {0})
settle_account now a r = do
  modify
      λ db. record db { virtual_accounts = update_by a.id (received_row now) db.virtual_accounts }
  when (is_held r.status) (update_reservation a.reservation_id confirmed_row)

module _ (ext : External) where
  -- `dva:recon:<session or reference>:<amount>`
  unfoldable pub transfer_key : String → ℤ → String
  transfer_key session amount =
      str_append (str_append (str_append "dva:recon:" session) ":") (ext.digits amount)

  -- the payment that a transfer makes; the reference of a payment without a session id has the time
  -- in it and is `stamp`
  abbrev pub transfer_payment :
      (stamp : String) → TransferDto → VirtualAccount → Option Folio → Reservation → PaymentDto
  transfer_payment stamp dto a folio r = record {
    amount = dto.amount;
    method = PaymentMethod.transfer;
    type = PaymentType.balance;
    currency = some (elim folio [ none ↦ r.currency | some f ↦ f.currency ]);
    fx_rate = none;
    reference = some (or_else dto.bank_session_id stamp);
    idempotency_key = some (transfer_key (or_else dto.bank_session_id a.reference) dto.amount);
  }

  -- the calls that write, for the account that was found and the reservation and folio under it
  unfoldable pub take_transfer :
      (now : ℕ)
      → (stamp : String) → Actor
      → TransferDto
      → VirtualAccount
      → Reservation
      → Option Folio
      → Action Response
  unfolding settle_account
  take_transfer now stamp actor dto a r folio = do
    receipt ←
        record_payment ext (acting actor actor.type a.hotel_id) a.reservation_id
          (transfer_payment stamp dto a folio r)
    settle_account now a r
    pure receipt

  unfoldable pub reconcile_transfer :
      (now : ℕ) → (stamp : String) → Actor → TransferDto → Action Response
  unfolding take_transfer
  reconcile_transfer now stamp actor dto = do
    throw_if (not (is_some dto.account_number) && not (is_some dto.reference)) Error.bad_request
    a ←
        or_throw (← gets λ db. find_first (is_target actor.hotel_id dto) db.virtual_accounts)
          Error.not_found
    r ← or_throw (← gets λ db. find_by a.reservation_id db.reservations) Error.missing_row
    folio ← gets λ db. find_first (of_reservation a.reservation_id) db.folios
    take_transfer now stamp actor dto a r folio
