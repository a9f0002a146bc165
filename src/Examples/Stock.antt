-- ===== src/Examples/Stock.antt =====
-- The theorems on stock, orders, purchase orders and promotions, at concrete calls.
use hospitality_os.Common.{
  All, [], arith, false, filterb, none, refl, some, true, ℕ, ◌*◌, ◌+◌, ◌<◌, ◌||◌, ◌↔◌, ◌∷◌, ◌≡◌,
  ◌≤◌, ◌⊎◌,
}
use hospitality_os.Common.Int.{abs, pos, ◌+ℤ◌, ◌-ℤ◌}
use hospitality_os.Enums.{
  ActorType, MaintCategory, MaintSource, MaintStatus, MovementType, OrderStatus, Outlet, PoStatus,
  Priority, PromoType, ReservationStatus, Role, RoomStatus,
}
use hospitality_os.Examples.Data.{ext, manager, room_a, start_db, with_stay}
use hospitality_os.Inventory.{
  crosses_reorder, move, move_item, record_count, signed_delta, with_qty,
}
use hospitality_os.Inventory.Balance.{StockConserved}
use hospitality_os.Inventory.Counting.{record_count_lem}
use hospitality_os.Maintenance.{escalate_overdue, is_overdue}
use hospitality_os.Maintenance.Escalation.{IsTold, escalate_once}
use hospitality_os.Orders.{OrderInput, create_order, pay, send_to_kitchen, set_status, void_line}
use hospitality_os.Orders.Settlement.{pay_twice}
use hospitality_os.Orders.Sums.{orders-OrderTotals}
use hospitality_os.Orders.Totals.{OrderTotals}
use hospitality_os.Policy.{Permission, can, grants}
use hospitality_os.Policy.Roles.{can_lem}
use hospitality_os.Procurement.{
  approve, draft_from_low_stock, draft_po, receive, send, submit_for_approval,
}
use hospitality_os.Procurement.Approval.{Approvals}
use hospitality_os.Procurement.Receipt.{procurement-Approvals}
use hospitality_os.Promotions.{apply_promo, discount_for, is_percent, redeem_gift_card}
use hospitality_os.Promotions.Limits.{Solvent, discount_for_lem, redeem-Solvent}
use hospitality_os.Promotions.Uses.{WithinUses, apply_promo-WithinUses}
use hospitality_os.Reservations.Cancel.{cancel}
use hospitality_os.Reservations.Constraint.{has_overlap}
use hospitality_os.Service.Stockroom.{stock-Conserved}
use hospitality_os.Store.{
  Actor, Db, GiftCard, Item, Order, PoItem, PromoCode, Ticket, find_by, item_keyed, ok, room_keyed,
  update_by, ◌>>=◌, ◌>>◌,
}

abbrev gin : Item
gin = record {
  id = 80;
  hotel_id = 1;
  current_qty = pos 10;
  par_level = pos 24;
  reorder_point = pos 6;
  cost_per_unit = pos 900;
}

abbrev stock_db : Db
stock_db = record start_db { items = gin ∷ [] }

-- before the first movement every item holds its start quantity
stock_start : StockConserved (λ i. pos 10) stock_db
unfolding find_by ◌+ℤ◌
stock_start = record { holds = λ i item e. ground (arith, e) }

stock-Conserved_example :
    StockConserved (λ i. pos 10) (move manager 80 MovementType.sale_out (pos 5) stock_db).1
    × StockConserved (λ i. pos 10) (record_count manager 80 (pos 5) stock_db).1
    × StockConserved (λ i. pos 10) (receive 7 manager 80 true stock_db).1
    × StockConserved (λ i. pos 10) (send_to_kitchen manager 80 stock_db).1
stock-Conserved_example =
    stock-Conserved (λ i. pos 10) manager 7 80 MovementType.sale_out (pos 5) true stock_db
      stock_start

record_count_lem_example :
    ((record_count manager 80 (pos 7) stock_db).0 ≡ ok (pos 10 -ℤ pos 7))
    × (find_by 80 (record_count manager 80 (pos 7) stock_db).1.items ≡ some (with_qty (pos 7) gin))
unfolding find_by
record_count_lem_example = record_count_lem manager 80 (pos 7) stock_db gin refl

abbrev dinner : Order
dinner = record {
  id = 90;
  hotel_id = 1;
  outlet = Outlet.restaurant;
  room_id = some 3;
  reservation_id = some 50;
  status = OrderStatus.served;
  total = pos 3000;
  lines = [];
}

abbrev dinner_db : Db
dinner_db = record (with_stay ReservationStatus.checked_in) { orders = dinner ∷ [] }

pay_twice_example :
    pay manager 90 (pay manager 90 dinner_db).1 ≡ (ok tt, (pay manager 90 dinner_db).1)
unfolding pay find_by ◌>>=◌
pay_twice_example = pay_twice manager 90 dinner_db dinner refl refl

no_orders : Approvals start_db
unfolding find_by
no_orders = record { authorised = λ i po e. absurd (ground (arith, e)) }

abbrev crate : PoItem
crate = record { inventory_item_id = some 80; quantity = pos 12; unit_cost = pos 900 }

procurement-Approvals_example :
    Approvals (draft_po manager 5 (crate ∷ []) start_db).1
    × Approvals (draft_from_low_stock (pos 1) manager 5 start_db).1
    × Approvals (submit_for_approval manager 100 start_db).1
    × Approvals (approve 7 manager 100 start_db).1
    × Approvals (send manager 100 start_db).1
    × Approvals (receive 7 manager 100 true start_db).1
procurement-Approvals_example =
    procurement-Approvals manager 7 100 5 (pos 1) (crate ∷ []) true start_db no_orders

abbrev clerk : Actor
clerk = record manager { role = some Role.front_desk }

abbrev card : GiftCard
card = record { id = 95; hotel_id = 1; code = "GIFT"; balance = pos 20000; active = true }

abbrev promo : PromoCode
promo = record {
  id = 96;
  hotel_id = 1;
  code = "STAY10";
  type = PromoType.percent;
  value = pos 10;
  valid_from = none;
  valid_until = none;
  max_uses = some 2;
  used_count = 1;
  active = true;
}

abbrev promo_db : Db
promo_db = record (with_stay ReservationStatus.confirmed) {
  gift_cards = card ∷ [];
  promos = promo ∷ [];
}

redeem-Solvent_example :
    Solvent (redeem_gift_card ext manager 50 "GIFT" (pos 5000) promo_db).1.gift_cards
unfolding find_by
redeem-Solvent_example =
    redeem-Solvent ext manager 50 "GIFT" (pos 5000) promo_db (refl, tt)
      (record { balances = λ i c e. ground (arith, e) })

apply_promo-WithinUses_example :
    WithinUses (apply_promo ext 7 manager 50 "STAY10" promo_db).1.promos
unfolding find_by
apply_promo-WithinUses_example =
    apply_promo-WithinUses ext 7 manager 50 "STAY10" promo_db (refl, tt)
      (record { uses = λ i p e. ground (arith, e) })

discount_for_lem_example :
    (d : ℕ) × (discount_for promo (pos 40000) ≡ pos d)
    × (((is_percent promo.type ≡ true) × (100 < 10) × (d ≡ 40000))
        ⊎ ((is_percent promo.type ≡ true)
            × (10 ≤ 100)
            × (d ≤ 40000)
            × (200 * d ≤ 2 * (40000 * 10) + 100)
            × (2 * (40000 * 10) < 200 * d + 100))
        ⊎ ((is_percent promo.type ≡ false) × (10 ≤ 40000) × (d ≡ 10))
        ⊎ ((is_percent promo.type ≡ false) × (40000 < 10) × (d ≡ 40000)))
discount_for_lem_example = discount_for_lem promo 10 40000 refl

can_lem_example :
    (can Role.owner (Permission.po_approve ∷ []) Permission.audit_read ≡ true)
    × (can Role.bar (Permission.po_approve ∷ []) Permission.audit_read ≡ (
        grants (Permission.po_approve ∷ []) Permission.audit_read
        || can Role.bar [] Permission.audit_read))
    × ((can Role.bar [] Permission.po_approve ≡ true)
        ↔ ((Role.bar ≡ Role.owner) ⊎ (Role.bar ≡ Role.manager)))
    × ((can Role.bar [] Permission.price_approve ≡ true)
        ↔ ((Role.bar ≡ Role.owner) ⊎ (Role.bar ≡ Role.manager)))
    × ((can Role.bar [] Permission.audit_read ≡ true)
        ↔ ((Role.bar ≡ Role.owner) ⊎ (Role.bar ≡ Role.manager)))
can_lem_example = can_lem Role.bar (Permission.po_approve ∷ []) Permission.audit_read

-- an order of two portions, one of which is voided
abbrev menu_db : Db
menu_db = record start_db {
  menu =
      record { id = 70; hotel_id = 1; price = pos 1500; outlet = Outlet.restaurant; recipe = [] }
      ∷ [];
}

abbrev two_portions : OrderInput
two_portions = record {
  outlet = Outlet.restaurant;
  lines =
      record { menu_item_id = 70; quantity = pos 1 }
      ∷ record { menu_item_id = 70; quantity = pos 2 }
      ∷ [];
  room_id = none;
  reservation_id = none;
}

no_order : OrderTotals menu_db
unfolding find_by
no_order = record { totals = λ i o e. absurd (ground (arith, e)) }

orders-OrderTotals_example :
    OrderTotals (create_order manager two_portions menu_db).1
    × OrderTotals (set_status manager 100 OrderStatus.preparing menu_db).1
    × OrderTotals (send_to_kitchen manager 100 menu_db).1
    × OrderTotals (void_line manager 100 101 menu_db).1
    × OrderTotals (pay manager 100 menu_db).1
orders-OrderTotals_example =
    orders-OrderTotals manager two_portions 100 101 OrderStatus.preparing menu_db no_order

abbrev leak : Ticket
leak = record {
  id = 85;
  hotel_id = 1;
  room_id = some 3;
  category = MaintCategory.plumbing;
  priority = Priority.urgent;
  status = MaintStatus.open_ticket;
  source = MaintSource.guest;
  reporter_role = none;
  takes_room_out_of_service = true;
  sla_due_at = 1000;
  resolved_at = none;
  closed_at = none;
}

abbrev leak_db : Db
leak_db = record start_db { tickets = leak ∷ [] }

escalate_once_example :
    let r = escalate_overdue 2000 leak_db in
    (r.0 ≡ ok tt)
    × All (IsTold r.1) (filterb (is_overdue 2000) leak_db.tickets)
    × (escalate_overdue 2000 r.1 ≡ (ok tt, r.1))
escalate_once_example = escalate_once 2000 leak_db

-- an order of twelve that is received in part, and then whole, adds twelve twice
abbrev sent_db : Db
sent_db = record stock_db {
  purchase_orders =
      record {
        id = 97;
        hotel_id = 1;
        supplier_id = 5;
        items = crate ∷ [];
        total = pos 10800;
        status = PoStatus.sent;
        drafted_by_type = ActorType.user;
        approved_by_id = some 9;
        approved_at = some 1;
        received_at = none;
      }
      ∷ [];
}

received_twice :
    find_by 80 ((receive 7 manager 97 true >> receive 8 manager 97 false) sent_db).1.items
    ≡ some (with_qty (pos 34) gin)
unfolding receive move move_item signed_delta crosses_reorder abs ◌+ℤ◌ find_by update_by ◌>>=◌
received_twice = refl

-- a guest in the house whose reservation is cancelled leaves the room occupied
room_still_occupied :
    find_by 3
      (cancel manager 50 "left" (record (with_stay ReservationStatus.checked_in) {
        rooms = record room_a { status = RoomStatus.occupied } ∷ [];
      })).1.rooms
    ≡ some (record room_a { status = RoomStatus.occupied })
unfolding cancel find_by update_by has_overlap ◌>>=◌
room_still_occupied = refl
