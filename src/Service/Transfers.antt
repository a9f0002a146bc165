-- ===== src/Service/Transfers.antt =====
-- The transfers to the virtual accounts: what a transfer keeps, and the reservation that it confirms.
use hospitality_os.Common.{
  Bool, Option, String, ap, arith, false, inr, is_some, not, refl, some, true, ℕ, ◌&&◌, ◌≡◌,
}
use hospitality_os.Enums.{ReservationStatus}
use hospitality_os.Payments.{PaymentDto, record_payment}
use hospitality_os.Reservations.Constraint.{update_reservation}
use hospitality_os.Reservations.Create.{is_held}
use hospitality_os.Reservations.Modify.{of_reservation}
use hospitality_os.Reservations.Status.{Step}
use hospitality_os.Service.Folios.{OnReservations, record_payment-Keeps}
use hospitality_os.Service.Frame.{Framed, modify-Keeps}
use hospitality_os.Service.Tracking.{Tracks, Tracks-on, update-Tracks}
use hospitality_os.Store.{
  Action, Actor, Db, Error, External, Folio, Keeps, Reservation, Response, VirtualAccount, bind-at,
  bind-then, find_by, find_first, gets, keeping, or_throw, or_throw-then, pure, reservation_keyed,
  throw_if-then, update_by, virtual_account_keyed, when, ◌>>=◌,
}
use hospitality_os.VirtualAccounts.{
  TransferDto, acting, confirmed_row, is_target, received_row, reconcile_transfer, settle_account,
  take_transfer, transfer_payment,
}

module _ (P : Db → Type 0) (framed : Framed P)
    (pays : (ext : External) (actor : Actor) (i : ℕ) (dto : PaymentDto)
      → Keeps P (record_payment ext actor i dto))
    (writes : (i : ℕ) (g : Reservation → Reservation)
      → ((x : Reservation) → (g x).id ≡ x.id)
      → Keeps P (update_reservation i g)) where
  settle_account-Keeps :
      (now : ℕ) (a : VirtualAccount) (r : Reservation) → Keeps P (settle_account now a r)
  unfolding settle_account
  settle_account-Keeps now a r = search (keeping, modify-Keeps, writes) depth 16

  pub reconcile_transfer-Keeps :
      (ext : External) (now : ℕ) (stamp : String) (actor : Actor) (dto : TransferDto)
      → Keeps P (reconcile_transfer ext now stamp actor dto)
  unfolding reconcile_transfer take_transfer
  reconcile_transfer-Keeps ext now stamp actor dto =
      search (keeping, pays, settle_account-Keeps) depth 30

module _ (j : ℕ) (s : ReservationStatus) (i : ℕ) (r : Reservation) where
  -- the reservation of the account, and the one that is tracked
  abbrev Both : Db → Type 0
  Both db = (find_by i db.reservations ≡ some r) × Tracks j s db

  Both-on : OnReservations Both
  Both-on = record {
    carried = λ db db' rs n (e, t). (rw rs e, (Tracks-on j s).carried db db' rs n t);
  }

  held-Step : (x : ReservationStatus) → is_held x ≡ true → Step x ReservationStatus.confirmed
  held-Step ReservationStatus.held h = Step.pays_by_transfer
  held-Step ReservationStatus.enquiry h = absurd (ground (arith, h))
  held-Step ReservationStatus.confirmed h = absurd (ground (arith, h))
  held-Step ReservationStatus.checked_in h = absurd (ground (arith, h))
  held-Step ReservationStatus.checked_out h = absurd (ground (arith, h))
  held-Step ReservationStatus.cancelled h = absurd (ground (arith, h))
  held-Step ReservationStatus.no_show h = absurd (ground (arith, h))

  confirm-Tracks :
      (b : Bool) (db : Db)
      → is_held r.status ≡ b
      → Both db
      → Tracks j s (when b (update_reservation i confirmed_row) db).1
  confirm-Tracks false db e (found, t) = t
  confirm-Tracks true db e (found, t) =
      update-Tracks j s i confirmed_row r db found (λ x. refl) (inr (held-Step r.status e)) t

  settle_account-Tracks :
      (now : ℕ) (a : VirtualAccount) (db : Db)
      → a.reservation_id ≡ i
      → Both db
      → Tracks j s (settle_account now a r db).1
  unfolding settle_account ◌>>=◌
  settle_account-Tracks now a db e both =
      let marked : Db = record db {
        virtual_accounts = update_by a.id (received_row now) db.virtual_accounts;
      } in
      rw e (
        confirm-Tracks (is_held r.status) marked refl
          (both.0, (Tracks-on j s).carried db marked refl (omega arith) both.1))

  take_transfer-Tracks :
      (ext : External) (now : ℕ) (stamp : String) (actor : Actor) (dto : TransferDto)
      (a : VirtualAccount) (folio : Option Folio) (db : Db)
      → a.reservation_id ≡ i
      → Both db
      → Tracks j s (take_transfer ext now stamp actor dto a r folio db).1
  unfolding take_transfer
  take_transfer-Tracks ext now stamp actor dto a folio db e both =
      let by = acting actor actor.type a.hotel_id in
      let p = transfer_payment ext stamp dto a folio r in
      let kept = record_payment-Keeps Both Both-on ext by a.reservation_id p db both in
      bind-then (λ x. Tracks j s x.1) (record_payment ext by a.reservation_id p)
        (λ receipt. settle_account now a r >>= λ _. pure receipt) db
        (λ receipt d paid.
          bind-at (Tracks j s) (settle_account now a r) (λ _. pure receipt) d
            (settle_account-Tracks now a d e (rw (ap (λ x. x.1) paid) at kept)) (λ _ _ t. t))
        (λ x d failed. let left : Both d = rw (ap (λ x. x.1) failed) at kept in left.1)

module _ (j : ℕ) (s : ReservationStatus) where
  pub reconcile_transfer-Tracks :
      (ext : External) (now : ℕ) (stamp : String) (actor : Actor) (dto : TransferDto)
      → Keeps (Tracks j s) (reconcile_transfer ext now stamp actor dto)
  unfolding reconcile_transfer ◌>>=◌
  reconcile_transfer-Tracks ext now stamp actor dto db t =
      throw_if-then (λ x. Tracks j s x.1)
        (not (is_some dto.account_number) && not (is_some dto.reference)) Error.bad_request
        on_account db t
        λ _.
          or_throw-then (λ x. Tracks j s x.1)
            (find_first (is_target actor.hotel_id dto) db.virtual_accounts) Error.not_found
            on_reservation db t
            λ a _.
              or_throw-then (λ x. Tracks j s x.1) (find_by a.reservation_id db.reservations)
                Error.missing_row (on_folio a) db t
                λ r found.
                  take_transfer-Tracks j s a.reservation_id r ext now stamp actor dto a
                    (find_first (of_reservation a.reservation_id) db.folios) db refl (found, t)
    where
      on_folio : VirtualAccount → Reservation → Action Response
      on_folio a r =
          gets (λ d. find_first (of_reservation a.reservation_id) d.folios)
          >>= take_transfer ext now stamp actor dto a r

      on_reservation : VirtualAccount → Action Response
      on_reservation a = gets (λ d. find_by a.reservation_id d.reservations) >>= λ o.
          or_throw o Error.missing_row >>= on_folio a

      on_account : Action Response
      on_account = gets (λ d. find_first (is_target actor.hotel_id dto) d.virtual_accounts) >>= λ o.
          or_throw o Error.not_found >>= on_reservation
