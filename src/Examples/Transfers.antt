-- ===== src/Examples/Transfers.antt =====
-- The theorems on the virtual accounts and the transfers, at concrete calls.
use hospitality_os.Common.{
  [], any, false, map, none, refl, some, suc, true, zero, ℕ, ◌+◌, ◌∷◌, ◌≡◌, ◌⊎◌,
}
use hospitality_os.Common.Int.{pos, ◌+ℤ◌, ◌-ℤ◌}
use hospitality_os.Enums.{ReservationStatus}
use hospitality_os.Examples.Data.{ext, in_room_a, manager, with_stay}
use hospitality_os.Idempotency.{run}
use hospitality_os.Payments.{record_payment}
use hospitality_os.Reservations.Constraint.{has_overlap}
use hospitality_os.Store.{
  AccountStatus, Db, Error, PaymentReceipt, Response, VirtualAccount, err, find_by, ok, update_by,
  ◌>>=◌,
}
use hospitality_os.VirtualAccounts.{
  DvaDto, TransferDto, create_account, draw_number, has_account, reconcile_transfer,
}
use hospitality_os.VirtualAccounts.Drawing.{create_account_lem, drawn, some_free}
use hospitality_os.VirtualAccounts.Transfers.{SameBooks, reconcile_twice}

-- an account for the stay, which is held
abbrev account : VirtualAccount
account = record {
  id = 60;
  hotel_id = 1;
  reservation_id = 50;
  account_number = 9912345678;
  reference = "DVA";
  amount_expected = pos 40000;
  status = AccountStatus.active;
  expires_at = some 86400000;
  received_at = none;
}

abbrev awaiting : Db
awaiting = record (with_stay ReservationStatus.held) { virtual_accounts = account ∷ [] }

abbrev transfer : TransferDto
transfer = record {
  account_number = some 9912345678;
  reference = none;
  amount = pos 100;
  bank_session_id = some "S1";
}

-- the same transfer under the reference of the account
abbrev by_reference : TransferDto
by_reference = record transfer { account_number = none; reference = some "DVA" }

abbrev transferred : Db
transferred = (reconcile_transfer ext 1000 "TRF" manager transfer awaiting).1

abbrev receipt_100 : PaymentReceipt
receipt_100 = record {
  payment_id = 100;
  balance = pos 39900;
  total_paid = pos 100;
  currency = "NGN";
}

taken :
    reconcile_transfer ext 1000 "TRF" manager transfer awaiting
    ≡ (ok (Response.receipt receipt_100), transferred)
unfolding reconcile_transfer record_payment run find_by update_by ◌>>=◌ ◌+ℤ◌ has_overlap ◌-ℤ◌
taken = refl

-- a hundredth of the price confirms the reservation
confirmed_early : map (λ x. x.status) transferred.reservations ≡ ReservationStatus.confirmed ∷ []
unfolding reconcile_transfer record_payment run find_by update_by ◌>>=◌ ◌+ℤ◌ has_overlap
confirmed_early = refl

reconcile_twice_example :
    SameBooks transferred (reconcile_transfer ext 2000 "TRF" manager by_reference transferred).1
reconcile_twice_example =
    reconcile_twice ext "S1" 1000 2000 "TRF" "TRF" manager manager transfer by_reference awaiting
      transferred (Response.receipt receipt_100) refl refl refl taken

abbrev asked : DvaDto
asked = record { amount = none; expires_in_hours = none }

-- the account of another reservation of the hotel, and draws of which the third is free
abbrev numbered : Db
numbered = record (with_stay ReservationStatus.held) {
  virtual_accounts = record account { reservation_id = 49; account_number = 7 } ∷ [];
}

abbrev draws : ℕ → ℕ
draws zero = 7
draws (suc zero) = 7
draws (suc (suc k)) = 8

third_draw : draw_number 1 numbered.virtual_accounts draws 10 0 0 ≡ 8
unfolding draw_number
third_draw = refl

create_account_lem_example :
    let a = drawn 1000 draws "DVA2" manager asked numbered (in_room_a ReservationStatus.held) in
    let counted = record numbered { next_id = 100 + 1 } in
    let free = some_free 1 numbered.virtual_accounts draws 10 0 in
    ((free ≡ true)
      × (any (has_account 1 a.account_number) numbered.virtual_accounts ≡ false)
      × (create_account 1000 draws "DVA2" manager 50 asked numbered
          ≡ (ok a, record counted { virtual_accounts = a ∷ numbered.virtual_accounts })))
    ⊎ ((free ≡ false)
        × (create_account 1000 draws "DVA2" manager 50 asked numbered
            ≡ (err Error.unique_violation, counted)))
unfolding find_by
create_account_lem_example =
    create_account_lem 1000 draws "DVA2" manager 50 asked numbered
      (in_room_a ReservationStatus.held) refl refl
