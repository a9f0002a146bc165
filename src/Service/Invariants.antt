-- ===== src/Service/Invariants.antt =====
-- What every sequence of service calls keeps.
use hospitality_os.Common.{List, String, [], filterb, ℕ, ◌∷◌}
use hospitality_os.Common.Int.{ℤ}
use hospitality_os.Enums.{ReservationStatus}
use hospitality_os.FrontDesk.{CheckInDto, check_in, check_out}
use hospitality_os.Ledger.Books.{IsBalanced}
use hospitality_os.Ledger.Outlets.{
  apply_promo-IsBalanced, pay-IsBalanced, redeem_gift_card-IsBalanced,
}
use hospitality_os.Ledger.Posting.{record_payment-IsBalanced, update_reservation-IsBalanced}
use hospitality_os.Ledger.Stays.{
  cancel-IsBalanced, check_in-IsBalanced, check_out-IsBalanced, create-IsBalanced,
  modify_reservation-IsBalanced,
}
use hospitality_os.NightAudit.{audit_hotels, nightly, run_audit}
use hospitality_os.Orders.{pay}
use hospitality_os.Payments.{PaymentDto, record_payment}
use hospitality_os.Promotions.{apply_promo, redeem_gift_card}
use hospitality_os.Reservations.Cancel.{
  cancel, is_expired_hold, release_expired_holds, release_hold, release_holds, system_actor, tally,
}
use hospitality_os.Reservations.Create.{CreateDto, create}
use hospitality_os.Reservations.Modify.{ModifyDto, modify_reservation}
use hospitality_os.Service.Calls.{Call, perform, run_calls}
use hospitality_os.Service.Closing.{run_audit-IsBalanced}
use hospitality_os.Service.Frame.{Framed, IsBalanced-Framed, modify-Keeps}
use hospitality_os.Service.Rooms.{
  alert_dirty_too_long-Keeps, assign-Keeps, close_drawer-Keeps, complete-Keeps,
  create_account-Keeps, create_room-Keeps, create_room_type-Keeps, create_task-Keeps,
  escalate_overdue-Keeps, inspect-Keeps, open_drawer-Keeps, reconcile-Keeps, register_issue-Keeps,
  register_issue_from_task-Keeps, remove_room-Keeps, set_room_status-Keeps, start-Keeps,
  update_status-Keeps,
}
use hospitality_os.Service.Stock.{
  approve-Keeps, create_order-Keeps, draft_from_low_stock-Keeps, draft_po-Keeps, log_wastage-Keeps,
  move-Keeps, receive-Keeps, record_count-Keeps, send-Keeps, send_to_kitchen-Keeps,
  set_status-Keeps, submit_for_approval-Keeps, void_line-Keeps,
}
use hospitality_os.Service.Transfers.{reconcile_transfer-Keeps}
use hospitality_os.Store.{Actor, Db, External, Hotel, Keeps, Reservation, Result, err, keeping, ok}
use hospitality_os.VirtualAccounts.{TransferDto, reconcile_transfer}

-- What the calls that write the reservations and the folios keep of a property.
pub record Kept (ext : External) (P : Db → Type 0) : Type 1 where
  pub framed : Framed P
  pub by_create :
      (now ttl : ℕ) (actor : Actor) (dto : CreateDto) (s : ReservationStatus)
      → Keeps P (create ext now ttl actor dto s)
  pub by_modify :
      (actor : Actor) (i : ℕ) (dto : ModifyDto) → Keeps P (modify_reservation ext actor i dto)
  pub by_cancel : (actor : Actor) (i : ℕ) (reason : String) → Keeps P (cancel actor i reason)
  pub by_check_in : (actor : Actor) (i : ℕ) (dto : CheckInDto) → Keeps P (check_in ext actor i dto)
  pub by_check_out : (now : ℕ) (actor : Actor) (i : ℕ) → Keeps P (check_out now actor i)
  pub by_payment :
      (actor : Actor) (i : ℕ) (dto : PaymentDto) → Keeps P (record_payment ext actor i dto)
  pub by_pay : (actor : Actor) (i : ℕ) → Keeps P (pay actor i)
  pub by_promo :
      (now : ℕ) (actor : Actor) (i : ℕ) (code : String) → Keeps P (apply_promo ext now actor i code)
  pub by_card :
      (actor : Actor) (i : ℕ) (code : String) (a : ℤ)
      → Keeps P (redeem_gift_card ext actor i code a)
  pub by_transfer :
      (now : ℕ) (stamp : String) (actor : Actor) (dto : TransferDto)
      → Keeps P (reconcile_transfer ext now stamp actor dto)
  pub by_audit : (now : ℕ) (actor : Actor) → Keeps P (run_audit ext now actor)

module _ (P : Db → Type 0) (framed : Framed P)
    (cancels : (actor : Actor) (i : ℕ) (reason : String) → Keeps P (cancel actor i reason)) where
  release_hold-Keeps : (r : Reservation) → Keeps P (release_hold r)
  unfolding release_hold
  release_hold-Keeps r = search (keeping, cancels, modify-Keeps) depth 12

  tally-holds : (n : ℕ) (r : Result (Unit {0}) × Db) → P r.1 → P (tally n r).1
  tally-holds n (ok a, db) h = h
  tally-holds n (err e, db) h = h

  release_holds-holds :
      (rs : List Reservation) (n : ℕ) (db : Db) → P db → P (release_holds rs n db).1
  unfolding release_holds
  release_holds-holds [] n db h = h
  release_holds-holds (r ∷ rs) n db h =
      release_holds-holds rs _ _ (tally-holds n (release_hold r db) (release_hold-Keeps r db h))

audit_hotels-keeps :
    (ext : External) (P : Db → Type 0) (now : ℕ)
    → ((actor : Actor) → Keeps P (run_audit ext now actor))
    → (hs : List Hotel) (db : Db) → P db
    → P (audit_hotels ext now hs db)
unfolding audit_hotels
audit_hotels-keeps ext P now each [] db h = h
audit_hotels-keeps ext P now each (x ∷ hs) db h =
    audit_hotels-keeps ext P now each hs (run_audit ext now (system_actor x.id) db).1
      (each (system_actor x.id) db h)

perform-keeps :
    (ext : External) (P : Db → Type 0)
    → Kept ext P
    → (c : Call) (db : Db) → P db
    → P (perform ext c db)
unfolding perform release_expired_holds nightly
perform-keeps ext P k (Call.create_reservation now ttl actor dto s) =
    k.by_create now ttl actor dto s
perform-keeps ext P k (Call.modify_stay actor i dto) = k.by_modify actor i dto
perform-keeps ext P k (Call.cancel_reservation actor i reason) = k.by_cancel actor i reason
perform-keeps ext P k (Call.release_expired now) = λ db.
    release_holds-holds P k.framed k.by_cancel (filterb (is_expired_hold now) db.reservations) 0 db
perform-keeps ext P k (Call.guest_check_in actor i dto) = k.by_check_in actor i dto
perform-keeps ext P k (Call.guest_check_out now actor i) = k.by_check_out now actor i
perform-keeps ext P k (Call.take_payment actor i dto) = k.by_payment actor i dto
perform-keeps ext P k (Call.open_shift actor float) = open_drawer-Keeps P k.framed actor float
perform-keeps ext P k (Call.close_shift now actor cash) =
    close_drawer-Keeps P k.framed now actor cash
perform-keeps ext P k (Call.reconcile_shift actor i) = reconcile-Keeps P k.framed actor i
perform-keeps ext P k (Call.new_order actor input) = create_order-Keeps P k.framed actor input
perform-keeps ext P k (Call.order_to actor i s) = set_status-Keeps P k.framed actor i s
perform-keeps ext P k (Call.order_to_kitchen actor i) = send_to_kitchen-Keeps P k.framed actor i
perform-keeps ext P k (Call.pay_order actor i) = k.by_pay actor i
perform-keeps ext P k (Call.void_order_line actor i line) = void_line-Keeps P k.framed actor i line
perform-keeps ext P k (Call.use_promo_code now actor i code) = k.by_promo now actor i code
perform-keeps ext P k (Call.use_gift_card actor i code a) = k.by_card actor i code a
perform-keeps ext P k (Call.clean_task now actor input) =
    create_task-Keeps P k.framed now actor input
perform-keeps ext P k (Call.assign_task actor i user) = assign-Keeps P k.framed actor i user
perform-keeps ext P k (Call.start_task now actor i) = start-Keeps P k.framed now actor i
perform-keeps ext P k (Call.complete_task now actor i) = complete-Keeps P k.framed now actor i
perform-keeps ext P k (Call.inspect_task now actor i r) = inspect-Keeps P k.framed now actor i r
perform-keeps ext P k (Call.issue now actor input) = register_issue-Keeps P k.framed now actor input
perform-keeps ext P k (Call.issue_of_task now actor i input) =
    register_issue_from_task-Keeps P k.framed now actor i input
perform-keeps ext P k (Call.ticket_to now actor i s) = update_status-Keeps P k.framed now actor i s
perform-keeps ext P k (Call.escalate now) = escalate_overdue-Keeps P k.framed now
perform-keeps ext P k (Call.alert_dirty now) = alert_dirty_too_long-Keeps P k.framed now
perform-keeps ext P k (Call.stock_move actor i type q) = move-Keeps P k.framed actor i type q
perform-keeps ext P k (Call.wastage actor i q) = log_wastage-Keeps P k.framed actor i q
perform-keeps ext P k (Call.count actor i q) = record_count-Keeps P k.framed actor i q
perform-keeps ext P k (Call.po_draft actor supplier items) =
    draft_po-Keeps P k.framed actor supplier items
perform-keeps ext P k (Call.po_low_stock unit actor supplier) =
    draft_from_low_stock-Keeps P k.framed unit actor supplier
perform-keeps ext P k (Call.po_submit actor i) = submit_for_approval-Keeps P k.framed actor i
perform-keeps ext P k (Call.po_send actor i) = send-Keeps P k.framed actor i
perform-keeps ext P k (Call.po_approve now actor i) = approve-Keeps P k.framed now actor i
perform-keeps ext P k (Call.po_receive now actor i partial) =
    receive-Keeps P k.framed now actor i partial
perform-keeps ext P k (Call.close_date now actor) = k.by_audit now actor
perform-keeps ext P k (Call.close_all now) =
    λ db. audit_hotels-keeps ext P now (k.by_audit now) db.hotels db
perform-keeps ext P k (Call.bank_transfer now stamp actor dto) = k.by_transfer now stamp actor dto
perform-keeps ext P k (Call.bank_account now n reference actor i dto) =
    create_account-Keeps P k.framed now n reference actor i dto
perform-keeps ext P k (Call.room_to actor i s) = set_room_status-Keeps P k.framed actor i s
perform-keeps ext P k (Call.room_removed now actor i) = remove_room-Keeps P k.framed now actor i
perform-keeps ext P k (Call.new_room actor t) = create_room-Keeps P k.framed actor t
perform-keeps ext P k (Call.new_room_type actor base) = create_room_type-Keeps P k.framed actor base

pub run_calls-keeps :
    (ext : External) (P : Db → Type 0)
    → Kept ext P
    → (cs : List Call) (db : Db) → P db
    → P (run_calls ext cs db)
unfolding run_calls
run_calls-keeps ext P k [] db h = h
run_calls-keeps ext P k (c ∷ cs) db h =
    run_calls-keeps ext P k cs (perform ext c db) (perform-keeps ext P k c db h)

-- If in the database every folio's charges are the sum of its line items, its paid total the sum of
-- its payments and its balance their difference, and identifiers are not taken twice, then this is
-- so after any sequence of the calls that are listed as Call, whether the calls return or throw.
pub run_calls-IsBalanced :
    (ext : External) (cs : List Call) (db : Db) → IsBalanced db → IsBalanced (run_calls ext cs db)
run_calls-IsBalanced ext cs db b = run_calls-keeps ext IsBalanced kept cs db b
  where
    kept : Kept ext IsBalanced
    kept = record {
      framed = IsBalanced-Framed;
      by_create = create-IsBalanced ext;
      by_modify = modify_reservation-IsBalanced ext;
      by_cancel = cancel-IsBalanced;
      by_check_in = check_in-IsBalanced ext;
      by_check_out = check_out-IsBalanced;
      by_payment = record_payment-IsBalanced ext;
      by_pay = pay-IsBalanced;
      by_promo = apply_promo-IsBalanced ext;
      by_card = redeem_gift_card-IsBalanced ext;
      by_transfer =
          reconcile_transfer-Keeps IsBalanced IsBalanced-Framed record_payment-IsBalanced
            (λ i g ids. update_reservation-IsBalanced i g) ext;
      by_audit = run_audit-IsBalanced ext;
    }
