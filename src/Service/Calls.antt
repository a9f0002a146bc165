-- ===== src/Service/Calls.antt =====
-- The calls of the modelled services, and what a sequence of them does to the database. A call
-- that throws keeps what it wrote before, outside its transactions.
use hospitality_os.CashDrawer.{close_drawer, open_drawer, reconcile}
use hospitality_os.Common.{Bool, List, String, [], ℕ, ◌∷◌}
use hospitality_os.Common.Int.{ℤ}
use hospitality_os.Enums.{
  InspResult, MaintStatus, MovementType, OrderStatus, ReservationStatus, RoomStatus,
}
use hospitality_os.FrontDesk.{CheckInDto, check_in, check_out}
use hospitality_os.Housekeeping.{TaskInput, assign, complete, create_task, inspect, start}
use hospitality_os.Inventory.{log_wastage, move, record_count}
use hospitality_os.Maintenance.{
  IssueInput, alert_dirty_too_long, escalate_overdue, register_issue, register_issue_from_task,
  update_status,
}
use hospitality_os.NightAudit.{nightly, run_audit}
use hospitality_os.Orders.{OrderInput, create_order, pay, send_to_kitchen, set_status, void_line}
use hospitality_os.Payments.{PaymentDto, record_payment}
use hospitality_os.Procurement.{
  approve, draft_from_low_stock, draft_po, receive, send, submit_for_approval,
}
use hospitality_os.Promotions.{apply_promo, redeem_gift_card}
use hospitality_os.Reservations.Cancel.{cancel, release_expired_holds}
use hospitality_os.Reservations.Create.{CreateDto, create}
use hospitality_os.Reservations.Modify.{ModifyDto, modify_reservation}
use hospitality_os.Rooms.{create_room, create_room_type, remove_room, set_room_status}
use hospitality_os.Store.{Actor, Db, External, PoItem}
use hospitality_os.VirtualAccounts.{DvaDto, TransferDto, create_account, reconcile_transfer}

pub data Call : Type 0 where
  create_reservation : (now ttl : ℕ) → Actor → CreateDto → ReservationStatus → Call
  modify_stay : Actor → ℕ → ModifyDto → Call
  cancel_reservation : Actor → ℕ → String → Call
  release_expired : (now : ℕ) → Call
  guest_check_in : Actor → ℕ → CheckInDto → Call
  guest_check_out : (now : ℕ) → Actor → ℕ → Call
  take_payment : Actor → ℕ → PaymentDto → Call
  open_shift : Actor → ℤ → Call
  close_shift : (now : ℕ) → Actor → ℤ → Call
  reconcile_shift : Actor → ℕ → Call
  new_order : Actor → OrderInput → Call
  order_to : Actor → ℕ → OrderStatus → Call
  order_to_kitchen pay_order : Actor → ℕ → Call
  void_order_line : Actor → ℕ → ℕ → Call
  use_promo_code : (now : ℕ) → Actor → ℕ → String → Call
  use_gift_card : Actor → ℕ → String → ℤ → Call
  clean_task : (now : ℕ) → Actor → TaskInput → Call
  assign_task : Actor → ℕ → ℕ → Call
  start_task complete_task : (now : ℕ) → Actor → ℕ → Call
  inspect_task : (now : ℕ) → Actor → ℕ → InspResult → Call
  issue : (now : ℕ) → Actor → IssueInput → Call
  issue_of_task : (now : ℕ) → Actor → ℕ → IssueInput → Call
  ticket_to : (now : ℕ) → Actor → ℕ → MaintStatus → Call
  escalate alert_dirty : (now : ℕ) → Call
  stock_move : Actor → ℕ → MovementType → ℤ → Call
  wastage count : Actor → ℕ → ℤ → Call
  po_draft : Actor → ℕ → List PoItem → Call
  po_low_stock : (unit : ℤ) → Actor → ℕ → Call
  po_submit po_send : Actor → ℕ → Call
  po_approve : (now : ℕ) → Actor → ℕ → Call
  po_receive : (now : ℕ) → Actor → ℕ → Bool → Call
  close_date : (now : ℕ) → Actor → Call
  close_all : (now : ℕ) → Call
  bank_transfer : (now : ℕ) → (stamp : String) → Actor → TransferDto → Call
  bank_account : (now : ℕ) → (n : ℕ → ℕ) → (reference : String) → Actor → ℕ → DvaDto → Call
  room_to : Actor → ℕ → RoomStatus → Call
  room_removed : (now : ℕ) → Actor → ℕ → Call
  new_room : Actor → (room_type_id : ℕ) → Call
  new_room_type : Actor → (base_price : ℤ) → Call

unfoldable pub perform : External → Call → Db → Db
perform ext (Call.create_reservation now ttl actor dto s) db = (create ext now ttl actor dto s db).1
perform ext (Call.modify_stay actor i dto) db = (modify_reservation ext actor i dto db).1
perform ext (Call.cancel_reservation actor i reason) db = (cancel actor i reason db).1
perform ext (Call.release_expired now) db = (release_expired_holds now db).1
perform ext (Call.guest_check_in actor i dto) db = (check_in ext actor i dto db).1
perform ext (Call.guest_check_out now actor i) db = (check_out now actor i db).1
perform ext (Call.take_payment actor i dto) db = (record_payment ext actor i dto db).1
perform ext (Call.open_shift actor float) db = (open_drawer actor float db).1
perform ext (Call.close_shift now actor cash) db = (close_drawer now actor cash db).1
perform ext (Call.reconcile_shift actor i) db = (reconcile actor i db).1
perform ext (Call.new_order actor input) db = (create_order actor input db).1
perform ext (Call.order_to actor i s) db = (set_status actor i s db).1
perform ext (Call.order_to_kitchen actor i) db = (send_to_kitchen actor i db).1
perform ext (Call.pay_order actor i) db = (pay actor i db).1
perform ext (Call.void_order_line actor i line) db = (void_line actor i line db).1
perform ext (Call.use_promo_code now actor i code) db = (apply_promo ext now actor i code db).1
perform ext (Call.use_gift_card actor i code a) db = (redeem_gift_card ext actor i code a db).1
perform ext (Call.clean_task now actor input) db = (create_task now actor input db).1
perform ext (Call.assign_task actor i user) db = (assign actor i user db).1
perform ext (Call.start_task now actor i) db = (start now actor i db).1
perform ext (Call.complete_task now actor i) db = (complete now actor i db).1
perform ext (Call.inspect_task now actor i r) db = (inspect now actor i r db).1
perform ext (Call.issue now actor input) db = (register_issue now actor input db).1
perform ext (Call.issue_of_task now actor i input) db =
    (register_issue_from_task now actor i input db).1
perform ext (Call.ticket_to now actor i s) db = (update_status now actor i s db).1
perform ext (Call.escalate now) db = (escalate_overdue now db).1
perform ext (Call.alert_dirty now) db = (alert_dirty_too_long now db).1
perform ext (Call.stock_move actor i type q) db = (move actor i type q db).1
perform ext (Call.wastage actor i q) db = (log_wastage actor i q db).1
perform ext (Call.count actor i q) db = (record_count actor i q db).1
perform ext (Call.po_draft actor supplier items) db = (draft_po actor supplier items db).1
perform ext (Call.po_low_stock unit actor supplier) db =
    (draft_from_low_stock unit actor supplier db).1
perform ext (Call.po_submit actor i) db = (submit_for_approval actor i db).1
perform ext (Call.po_send actor i) db = (send actor i db).1
perform ext (Call.po_approve now actor i) db = (approve now actor i db).1
perform ext (Call.po_receive now actor i partial) db = (receive now actor i partial db).1
perform ext (Call.close_date now actor) db = (run_audit ext now actor db).1
perform ext (Call.close_all now) db = nightly ext now db
perform ext (Call.bank_transfer now stamp actor dto) db =
    (reconcile_transfer ext now stamp actor dto db).1
perform ext (Call.bank_account now n reference actor i dto) db =
    (create_account now n reference actor i dto db).1
perform ext (Call.room_to actor i s) db = (set_room_status actor i s db).1
perform ext (Call.room_removed now actor i) db = (remove_room now actor i db).1
perform ext (Call.new_room actor t) db = (create_room actor t db).1
perform ext (Call.new_room_type actor base) db = (create_room_type actor base db).1

unfoldable pub run_calls : External → List Call → Db → Db
unfolding perform
run_calls ext [] db = db
run_calls ext (c ∷ cs) db = run_calls ext cs (perform ext c db)
