-- ===== src/Procurement.antt =====
-- ProcurementService (apps/api/src/procurement/procurement.service.ts): purchase orders, from the
-- draft to the delivery, whose receipt posts the stock movements.
pub mod Approval
pub mod Receipt
use hospitality_os.Common.{
  Bool, List, Option, [], false, filterb, length, map, none, not, some, true, ℕ, ◌&&◌, ◌==◌, ◌∷◌,
}
use hospitality_os.Common.Int.{leb_ℤ, max_ℤ, pos, ℤ, ◌*ℤ◌, ◌+ℤ◌, ◌-ℤ◌}
use hospitality_os.Enums.{MovementType, PoStatus, Role}
use hospitality_os.Inventory.{move}
use hospitality_os.Policy.{Permission, can}
use hospitality_os.Store.{
  Action, Actor, Error, Item, PoItem, PurchaseOrder, find_own, for_each, fresh_id, gets, modify,
  or_throw, purchase_order_keyed, pure, record_audit, throw_if, update_by, ◌>>=◌, ◌>>◌,
}

abbrev pub is_draft : PoStatus → Bool
is_draft PoStatus.draft = true
is_draft _ = false

-- the statuses in which `approve` goes on: DRAFT too
abbrev pub is_approvable : PoStatus → Bool
is_approvable PoStatus.pending_approval = true
is_approvable PoStatus.draft = true
is_approvable _ = false

abbrev pub is_approved : PoStatus → Bool
is_approved PoStatus.approved = true
is_approved _ = false

-- `receivable.includes(status)`
abbrev pub is_receivable : PoStatus → Bool
is_receivable PoStatus.sent = true
is_receivable PoStatus.approved = true
is_receivable PoStatus.partially_received = true
is_receivable _ = false

-- `items.reduce((s, i) => s + i.unitCost * i.quantity, 0)`: the quantities are counted in the smallest
-- unit, so the total is that of the source times the number of smallest units in one
unfoldable pub items_total : List PoItem → ℤ
items_total [] = pos 0
items_total (x ∷ xs) = x.unit_cost *ℤ x.quantity +ℤ items_total xs

unfoldable pub draft_po : Actor → (supplier_id : ℕ) → List PoItem → Action PurchaseOrder
unfolding items_total
draft_po actor supplier items = do
  throw_if (length items == 0) Error.bad_request
  i ← fresh_id
  let po : PurchaseOrder = record {
    id = i;
    hotel_id = actor.hotel_id;
    supplier_id = supplier;
    items = items;
    total = items_total items;
    status = PoStatus.draft;
    drafted_by_type = actor.type;
    approved_by_id = none;
    approved_at = none;
    received_at = none;
  }
  modify λ db. record db { purchase_orders = po ∷ db.purchase_orders }
  record_audit actor "po.draft" "PurchaseOrder" i
  pure po

-- an item of the hotel at or below its reorder point
abbrev pub is_low : ℕ → Item → Bool
is_low h item = item.hotel_id == h && leb_ℤ item.current_qty item.reorder_point

-- the quantity to order: up to the par level, and one unit at least. `unit` is one unit in the
-- scale of the quantities.
unfoldable pub order_qty : (unit : ℤ) → Item → ℤ
order_qty unit item = max_ℤ (item.par_level -ℤ item.current_qty) unit

abbrev pub low_stock_item : (unit : ℤ) → Item → PoItem
low_stock_item unit item = record {
  inventory_item_id = some item.id;
  quantity = order_qty unit item;
  unit_cost = item.cost_per_unit;
}

unfoldable pub draft_from_low_stock : (unit : ℤ) → Actor → (supplier_id : ℕ) → Action PurchaseOrder
unfolding draft_po order_qty
draft_from_low_stock unit actor supplier = do
  items ← gets λ db. map (low_stock_item unit) (filterb (is_low actor.hotel_id) db.items)
  throw_if (length items == 0) Error.bad_request
  draft_po actor supplier items

abbrev pub get_po : ℕ → ℕ → Action PurchaseOrder
get_po h i = gets (λ db. find_own h i db.purchase_orders) >>= λ po. or_throw po Error.not_found

abbrev pub update_po : ℕ → (PurchaseOrder → PurchaseOrder) → Action (Unit {0})
update_po i g = modify λ db. record db { purchase_orders = update_by i g db.purchase_orders }

abbrev pub po_status : PoStatus → PurchaseOrder → PurchaseOrder
po_status s po = record po { status = s }

unfoldable pub submit_for_approval : Actor → ℕ → Action (Unit {0})
submit_for_approval actor i = do
  po ← get_po actor.hotel_id i
  throw_if (not (is_draft po.status)) Error.bad_request
  update_po i (po_status PoStatus.pending_approval)

-- `can({ role: actor.role!, extraPermissions: [] }, 'po:approve')`: an actor with no role may not
abbrev pub may_approve : Option Role → Bool
may_approve none = false
may_approve (some role) = can role [] Permission.po_approve

abbrev pub approved_po : (now : ℕ) → Option ℕ → PurchaseOrder → PurchaseOrder
approved_po now by po = record po {
  status = PoStatus.approved;
  approved_by_id = by;
  approved_at = some now;
}

unfoldable pub approve : (now : ℕ) → Actor → ℕ → Action (Unit {0})
approve now actor i = do
  throw_if (not (may_approve actor.role)) Error.forbidden
  po ← get_po actor.hotel_id i
  throw_if (not (is_approvable po.status)) Error.bad_request
  update_po i (approved_po now actor.id)
  record_audit actor "po.approve" "PurchaseOrder" i

unfoldable pub send : Actor → ℕ → Action (Unit {0})
send actor i = do
  po ← get_po actor.hotel_id i
  throw_if (not (is_approved po.status)) Error.bad_request
  update_po i (po_status PoStatus.sent)

-- the movement of an item that is linked to the inventory
abbrev pub receive_item : Actor → PoItem → Option ℕ → Action (Unit {0})
receive_item actor item none = pure tt
receive_item actor item (some i) = move actor i MovementType.purchase_in item.quantity >> pure tt

abbrev pub receive_items : Actor → List PoItem → Action (Unit {0})
receive_items actor = for_each λ item. receive_item actor item item.inventory_item_id

abbrev pub received_po : (now : ℕ) → Bool → PurchaseOrder → PurchaseOrder
received_po now true po = record po { status = PoStatus.partially_received }
received_po now false po = record po { status = PoStatus.received; received_at = some now }

-- `partial` changes the status alone: every item is received in full
unfoldable pub receive : (now : ℕ) → Actor → ℕ → (partial : Bool) → Action (Unit {0})
receive now actor i partial = do
  po ← get_po actor.hotel_id i
  throw_if (not (is_receivable po.status)) Error.bad_request
  receive_items actor po.items
  update_po i (received_po now partial)
  record_audit actor "po.receive" "PurchaseOrder" i
