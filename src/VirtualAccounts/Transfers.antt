-- ===== src/VirtualAccounts/Transfers.antt =====
-- A transfer that is reported twice: its payment is recorded once.
use hospitality_os.CashDrawer.{apply_cash}
use hospitality_os.Common.{List, Option, String, ap, arith, none, refl, some, ℕ, ◌≡◌}
use hospitality_os.Common.Int.{ℤ}
use hospitality_os.Enums.{PaymentMethod}
use hospitality_os.Guests.{on_payment_recorded, reward}
use hospitality_os.Idempotency.{run, stored}
use hospitality_os.Idempotency.Replay.{run-ok}
use hospitality_os.Payments.{
  PaymentDto, apply_if_cash, record_inner, record_on, record_payment, write_payment,
}
use hospitality_os.Reservations.Constraint.{update_reservation}
use hospitality_os.Reservations.Modify.{of_reservation}
use hospitality_os.Store.{
  Action, Actor, Db, Error, External, Folio, IdempotencyRow, Keeps, Keeps-bind, Reservation,
  Response, Result, VirtualAccount, bind-then, err, find_by, find_first, gets, keeping, ok,
  or_throw-then, pure, reservation_keyed, throw_if-then, ◌>>=◌,
}
use hospitality_os.VirtualAccounts.{
  TransferDto, acting, is_target, reconcile_transfer, settle_account, take_transfer, transfer_key,
  transfer_payment,
}

-- a call that returned has stored a result under the key
abbrev Recorded : String → Result Response × Db → Type 0
Recorded k (ok b, db) = (a : Response) × (stored k db.idempotency ≡ some a)
Recorded k (err e, db) = Unit

module _ (rows : List IdempotencyRow) where
  apply_if_cash-idempotency :
      (method : PaymentMethod) (by : Option ℕ) (h : ℕ) (base : ℤ)
      → Keeps (λ db. db.idempotency ≡ rows) (apply_if_cash method by h base)
  unfolding apply_cash ◌>>=◌
  apply_if_cash-idempotency method none h base db b = b
  apply_if_cash-idempotency method (some u) h base db b = ground arith

  write_payment-idempotency :
      (actor : Actor) (i : ℕ) (dto : PaymentDto) (f : Folio) (base : ℤ)
      → Keeps (λ db. db.idempotency ≡ rows) (write_payment actor i dto f base)
  unfolding write_payment
  write_payment-idempotency actor i dto f base =
      search (keeping, apply_if_cash-idempotency) depth 16

  reward-idempotency :
      (ext : External) (p h : ℕ) (amount : ℤ) (o : Option Reservation)
      → Keeps (λ db. db.idempotency ≡ rows) (reward ext p h amount o)
  unfolding reward
  reward-idempotency ext p h amount none = λ db b. b
  reward-idempotency ext p h amount (some r) = search (keeping) depth 16

  on_payment_recorded-idempotency :
      (ext : External) (p h i : ℕ) (amount : ℤ)
      → Keeps (λ db. db.idempotency ≡ rows) (on_payment_recorded ext p h i amount)
  unfolding on_payment_recorded
  on_payment_recorded-idempotency ext p h i amount = search (keeping, reward-idempotency) depth 16

  record_inner-idempotency :
      (ext : External) (actor : Actor) (i : ℕ) (dto : PaymentDto)
      → Keeps (λ db. db.idempotency ≡ rows) (record_inner ext actor i dto)
  unfolding record_inner record_on
  record_inner-idempotency ext actor i dto =
      search (keeping, write_payment-idempotency, on_payment_recorded-idempotency) depth 24

  recorded-idempotency :
      (ext : External) (actor : Actor) (i : ℕ) (dto : PaymentDto)
      → Keeps
          (λ db. db.idempotency ≡ rows)
          (record_inner ext actor i dto >>= λ r. pure (Response.receipt r))
  recorded-idempotency ext actor i dto = search (keeping, record_inner-idempotency) depth 24

module _ (k : String) where
  run-stored :
      (operation : Action Response) (db db' : Db) (a : Response)
      → (stored k db.idempotency ≡ none → stored k (operation db).1.idempotency ≡ none)
      → run (some k) operation db ≡ (ok a, db')
      → stored k db'.idempotency ≡ some a
  unfolding run ◌>>=◌
  run-stored operation db db' a keep h =
      run-ok k operation (stored k db.idempotency) (operation db) db db' a refl refl keep h

  run-replayed :
      (operation : Action Response) (db : Db) (a : Response)
      → stored k db.idempotency ≡ some a
      → run (some k) operation db ≡ (ok a, db)
  unfolding run ◌>>=◌
  run-replayed operation db a e = rw e refl

  module _ (ext : External) where
    record_payment-stored :
        (actor : Actor) (i : ℕ) (dto : PaymentDto) (db db' : Db) (a : Response)
        → dto.idempotency_key ≡ some k
        → record_payment ext actor i dto db ≡ (ok a, db')
        → stored k db'.idempotency ≡ some a
    unfolding record_payment
    record_payment-stored actor i dto db db' a e h =
        run-stored (record_inner ext actor i dto >>= λ r. pure (Response.receipt r)) db db' a
          (λ fresh. rw (recorded-idempotency db.idempotency ext actor i dto db refl) fresh)
          (rw e at h)

    record_payment-replayed :
        (actor : Actor) (i : ℕ) (dto : PaymentDto) (db : Db) (a : Response)
        → dto.idempotency_key ≡ some k
        → stored k db.idempotency ≡ some a
        → record_payment ext actor i dto db ≡ (ok a, db)
    unfolding record_payment
    record_payment-replayed actor i dto db a e s =
        rw e (run-replayed (record_inner ext actor i dto >>= λ r. pure (Response.receipt r)) db a s)

-- the payments, the folios and the stored results are those of the first database
abbrev pub SameBooks : Db → Db → Type 0
SameBooks db db' =
    (db'.payments ≡ db.payments) × (db'.folios ≡ db.folios) × (db'.idempotency ≡ db.idempotency)

module _ (now : ℕ) (a : VirtualAccount) (r : Reservation) where
  update_reservation-SameBooks :
      (db0 : Db) (i : ℕ) (g : Reservation → Reservation)
      → Keeps (SameBooks db0) (update_reservation i g)
  unfolding ◌>>=◌
  update_reservation-SameBooks db0 i g db b = ground arith

  settle_account-SameBooks : (db0 : Db) → Keeps (SameBooks db0) (settle_account now a r)
  unfolding settle_account
  settle_account-SameBooks db0 = search (keeping, update_reservation-SameBooks) depth 16

  settle_account-idempotency :
      (db db' : Db) (x : Result (Unit {0}))
      → settle_account now a r db ≡ (x, db')
      → db'.idempotency ≡ db.idempotency
  settle_account-idempotency db db' x e =
      rw (ap (λ y. y.1) e) at ((settle_account-SameBooks db db (refl, refl, refl)).2)

module _ (ext : External) (s : String) (now : ℕ) (stamp : String) (actor : Actor)
    (dto : TransferDto) where
  take_transfer-Recorded :
      (a : VirtualAccount) (r : Reservation) (folio : Option Folio) (db : Db)
      → dto.bank_session_id ≡ some s
      → Recorded
          (transfer_key ext s dto.amount)
          (take_transfer ext now stamp actor dto a r folio db)
  unfolding take_transfer
  take_transfer-Recorded a r folio db e =
      let k = transfer_key ext s dto.amount in
      let by = acting actor actor.type a.hotel_id in
      let p = transfer_payment ext stamp dto a folio r in
      bind-then (Recorded k) (record_payment ext by a.reservation_id p) _ db
        (λ receipt db1 paid.
          bind-then (Recorded k) (settle_account now a r) _ db1
            (λ u db2 settled. (
              receipt,
              rw (settle_account-idempotency now a r db1 db2 (ok u) settled) (
                  record_payment-stored k ext by a.reservation_id p db db1 receipt (rw e refl)
                    paid),
            ))
            (λ _ _ _. tt))
        (λ _ _ _. tt)

  -- a transfer that returns has its payment stored
  reconcile_transfer-Recorded :
      (db : Db)
      → dto.bank_session_id ≡ some s
      → Recorded (transfer_key ext s dto.amount) (reconcile_transfer ext now stamp actor dto db)
  unfolding reconcile_transfer
  reconcile_transfer-Recorded db e =
      let P = Recorded (transfer_key ext s dto.amount) in
      throw_if-then P _ Error.bad_request _ db tt (λ _.
        bind-then P (gets (λ d. find_first (is_target actor.hotel_id dto) d.virtual_accounts)) _ db
          (λ o db1 _. or_throw-then P o Error.not_found _ db1 tt (λ a _.
            bind-then P (gets (λ d. find_by a.reservation_id d.reservations)) _ db1
              (λ o2 db2 _. or_throw-then P o2 Error.missing_row _ db2 tt (λ r _.
                bind-then P (gets (λ d. find_first (of_reservation a.reservation_id) d.folios)) _
                  db2 (λ folio db3 _. take_transfer-Recorded a r folio db3 e) (λ _ _ _. tt)))
              (λ _ _ _. tt)))
          (λ _ _ _. tt))

  module _ (first : Db) (old : Response) where
    take_transfer-SameBooks :
        (a : VirtualAccount) (r : Reservation) (folio : Option Folio)
        → dto.bank_session_id ≡ some s
        → stored (transfer_key ext s dto.amount) first.idempotency ≡ some old
        → Keeps (SameBooks first) (take_transfer ext now stamp actor dto a r folio)
    unfolding take_transfer
    take_transfer-SameBooks a r folio e held =
        let by = acting actor actor.type a.hotel_id in
        let p = transfer_payment ext stamp dto a folio r in
        Keeps-bind (SameBooks first) (record_payment ext by a.reservation_id p) _
          (λ db b.
            rw
              (record_payment-replayed (transfer_key ext s dto.amount) ext by a.reservation_id p db
                old (rw e refl) (rw (b.2) held))
              b)
          (λ receipt. search (keeping, settle_account-SameBooks))

    reconcile_transfer-SameBooks :
        dto.bank_session_id ≡ some s
        → stored (transfer_key ext s dto.amount) first.idempotency ≡ some old
        → Keeps (SameBooks first) (reconcile_transfer ext now stamp actor dto)
    unfolding reconcile_transfer
    reconcile_transfer-SameBooks e held = search (keeping, take_transfer-SameBooks) depth 24

-- After a transfer with a session id has been taken, a transfer with that session id and that amount
-- writes no payment and no folio, whatever the account that it names, its actor and the time.
pub reconcile_twice :
    (ext : External) (s : String) (now later : ℕ) (stamp stamp' : String) (actor actor' : Actor)
    (dto dto' : TransferDto) (db db' : Db) (a : Response)
    → dto.bank_session_id ≡ some s
    → dto'.bank_session_id ≡ some s
    → dto'.amount ≡ dto.amount
    → reconcile_transfer ext now stamp actor dto db ≡ (ok a, db')
    → SameBooks db' (reconcile_transfer ext later stamp' actor' dto' db').1
reconcile_twice ext s now later stamp stamp' actor actor' dto dto' db db' a e e' same h =
    let (old, held) = rw h at (reconcile_transfer-Recorded ext s now stamp actor dto db e) in
    reconcile_transfer-SameBooks ext s later stamp' actor' dto' db' old e' (rw same held) db'
      (refl, refl, refl)
