-- ===== src/Service/Stock.antt =====
-- The calls of the inventory, the purchase orders and the kitchen write no reservation and no folio.
use hospitality_os.Common.{Bool, List, Option, [], arith, none, refl, some, ℕ, ◌+◌, ◌∷◌}
use hospitality_os.Common.Int.{ℤ}
use hospitality_os.Enums.{MovementType, OrderStatus}
use hospitality_os.Inventory.{log_wastage, move, move_item, record_count}
use hospitality_os.Orders.{
  OrderInput, create_order, emit_found, emit_station, emit_stations, open_with, send_to_kitchen,
  set_status, void_line,
}
use hospitality_os.Procurement.{
  approve, draft_from_low_stock, draft_po, receive, receive_item, send, submit_for_approval,
}
use hospitality_os.Service.Frame.{Framed, fresh_id-Keeps, modify-Keeps}
use hospitality_os.Store.{Actor, Db, Keeps, MenuItem, Order, PoItem, Station, keeping, modify}

module _ (P : Db → Type 0) (framed : Framed P) where
  pub move-Keeps :
      (actor : Actor) (i : ℕ) (type : MovementType) (q : ℤ) → Keeps P (move actor i type q)
  unfolding move move_item
  move-Keeps actor i type q = search (keeping, modify-Keeps) depth 20

  pub log_wastage-Keeps : (actor : Actor) (i : ℕ) (q : ℤ) → Keeps P (log_wastage actor i q)
  unfolding log_wastage
  log_wastage-Keeps actor i q = search (keeping, move-Keeps) depth 20

  pub record_count-Keeps : (actor : Actor) (i : ℕ) (q : ℤ) → Keeps P (record_count actor i q)
  unfolding record_count
  record_count-Keeps actor i q = search (keeping, modify-Keeps, fresh_id-Keeps, move-Keeps) depth 20

  pub draft_po-Keeps :
      (actor : Actor) (supplier : ℕ) (items : List PoItem) → Keeps P (draft_po actor supplier items)
  unfolding draft_po
  draft_po-Keeps actor supplier items = search (keeping, modify-Keeps, fresh_id-Keeps) depth 20

  pub draft_from_low_stock-Keeps :
      (unit : ℤ) (actor : Actor) (supplier : ℕ) → Keeps P (draft_from_low_stock unit actor supplier)
  unfolding draft_from_low_stock
  draft_from_low_stock-Keeps unit actor supplier = search (keeping, draft_po-Keeps) depth 20

  pub submit_for_approval-Keeps : (actor : Actor) (i : ℕ) → Keeps P (submit_for_approval actor i)
  unfolding submit_for_approval
  submit_for_approval-Keeps actor i = search (keeping, modify-Keeps) depth 20

  pub approve-Keeps : (now : ℕ) (actor : Actor) (i : ℕ) → Keeps P (approve now actor i)
  unfolding approve
  approve-Keeps now actor i = search (keeping, modify-Keeps) depth 20

  pub send-Keeps : (actor : Actor) (i : ℕ) → Keeps P (send actor i)
  unfolding send
  send-Keeps actor i = search (keeping, modify-Keeps) depth 20

  receive_item-Keeps :
      (actor : Actor) (item : PoItem) (o : Option ℕ) → Keeps P (receive_item actor item o)
  receive_item-Keeps actor item none = λ db h. h
  receive_item-Keeps actor item (some i) = search (keeping, move-Keeps) depth 20

  pub receive-Keeps :
      (now : ℕ) (actor : Actor) (i : ℕ) (partial : Bool) → Keeps P (receive now actor i partial)
  unfolding receive
  receive-Keeps now actor i partial = search (keeping, modify-Keeps, receive_item-Keeps) depth 20

  emit_station-Keeps :
      (actor : Actor) (o : Order) (s : Station) (ls : List (ℕ × ℤ))
      → Keeps P (emit_station actor o s ls)
  emit_station-Keeps actor o s [] = λ db h. h
  emit_station-Keeps actor o s (l ∷ ls) = search (modify-Keeps)

  emit_found-Keeps :
      (actor : Actor) (menu : List MenuItem) (o : Option Order) → Keeps P (emit_found actor menu o)
  emit_found-Keeps actor menu none = λ db h. h
  emit_found-Keeps actor menu (some o) = search (keeping, emit_station-Keeps) depth 12

  pub emit_stations-Keeps : (actor : Actor) (i : ℕ) → Keeps P (emit_stations actor i)
  unfolding emit_stations
  emit_stations-Keeps actor i = search (keeping, emit_found-Keeps) depth 20

  pub set_status-Keeps : (actor : Actor) (i : ℕ) (s : OrderStatus) → Keeps P (set_status actor i s)
  unfolding set_status
  set_status-Keeps actor i s = search (keeping, modify-Keeps, emit_stations-Keeps) depth 20

  pub void_line-Keeps : (actor : Actor) (i line : ℕ) → Keeps P (void_line actor i line)
  unfolding void_line
  void_line-Keeps actor i line = search (keeping, modify-Keeps) depth 20

  pub send_to_kitchen-Keeps : (actor : Actor) (i : ℕ) → Keeps P (send_to_kitchen actor i)
  unfolding send_to_kitchen
  send_to_kitchen-Keeps actor i =
      search (keeping, modify-Keeps, move-Keeps, emit_stations-Keeps) depth 20

  -- the row of an order, and the identifiers of its lines
  take_lines-Keeps :
      (o : Order) (n : ℕ)
      → Keeps P (modify λ db. record db { orders = o ∷ db.orders; next_id = db.next_id + n })
  take_lines-Keeps o n db h = framed.frame db _ (refl, refl, refl, refl, omega arith) h

  pub create_order-Keeps : (actor : Actor) (input : OrderInput) → Keeps P (create_order actor input)
  unfolding create_order open_with
  create_order-Keeps actor input =
      search (keeping, modify-Keeps, take_lines-Keeps, fresh_id-Keeps, emit_stations-Keeps) depth 24
