-- ===== src/Orders.antt =====
-- OrdersService (apps/api/src/restaurant/orders.service.ts): orders of the restaurant, the bar and
-- room service, from the order to its settlement.
pub mod Settlement
pub mod Totals
pub mod Sums
use hospitality_os.Common.{
  Bool, List, Option, [], false, filterb, if◌then◌else◌, length, map, none, not, option_eq,
  or_option, some, true, ℕ, ◌&&◌, ◌+◌, ◌==◌, ◌∷◌,
}
use hospitality_os.Common.Int.{pos, ℤ, ◌*ℤ◌, ◌+ℤ◌, ◌-ℤ◌}
use hospitality_os.Enums.{LineType, MovementType, OrderStatus, Outlet}
use hospitality_os.FrontDesk.{is_checked_in}
use hospitality_os.Inventory.{move}
use hospitality_os.Reservations.Modify.{of_reservation, post_charge}
use hospitality_os.Store.{
  Action, Actor, Db, DomainEvent, Error, Ingredient, MenuItem, Order, OrderLine, Reservation,
  Station, emit, find_by, find_first, find_own, for_each, fresh_id, gets, menu_keyed, modify,
  or_throw, order_keyed, pure, record_audit, throw_if, update_by, update_many, when, ◌>>=◌, ◌>>◌,
}

pub record LineInput : Type 0 where
  pub menu_item_id : ℕ
  pub quantity : ℤ

pub record OrderInput : Type 0 where
  pub outlet : Outlet
  pub lines : List LineInput
  pub room_id : Option ℕ
  pub reservation_id : Option ℕ

abbrev pub is_open_order : OrderStatus → Bool
is_open_order OrderStatus.open_order = true
is_open_order _ = false

abbrev pub is_paid : OrderStatus → Bool
is_paid OrderStatus.paid = true
is_paid _ = false

abbrev pub is_bar : Outlet → Bool
is_bar Outlet.bar = true
is_bar _ = false

-- the station of a line, by the outlet of its menu item's category
abbrev pub goes_to_bar : List MenuItem → OrderLine → Bool
goes_to_bar menu l = elim (find_by l.menu_item_id menu) [ none ↦ false | some m ↦ is_bar m.outlet ]

abbrev pub at_station : List MenuItem → Station → OrderLine → Bool
at_station menu Station.kitchen l = not l.voided && not (goes_to_bar menu l)
at_station menu Station.bar l = not l.voided && goes_to_bar menu l

abbrev pub ticket_line : OrderLine → ℕ × ℤ
ticket_line l = (l.menu_item_id, l.quantity)

abbrev pub station_lines : List MenuItem → Station → List OrderLine → List (ℕ × ℤ)
station_lines menu s ls = map ticket_line (filterb (at_station menu s) ls)

-- a station with no lines gets no event
abbrev pub emit_station : Actor → Order → Station → List (ℕ × ℤ) → Action (Unit {0})
emit_station actor o s [] = pure tt
emit_station actor o s (l ∷ ls) =
    emit (DomainEvent.kitchen_order_update actor.hotel_id o.id s (l ∷ ls))

-- the two tickets of an order that is there
abbrev pub emit_found : Actor → List MenuItem → Option Order → Action (Unit {0})
emit_found actor menu none = pure tt
emit_found actor menu (some o) =
    emit_station actor o Station.kitchen (station_lines menu Station.kitchen o.lines)
    >> emit_station actor o Station.bar (station_lines menu Station.bar o.lines)

unfoldable pub emit_stations : Actor → ℕ → Action (Unit {0})
emit_stations actor i = do
  menu ← gets λ db. db.menu
  found ← gets λ db. find_by i db.orders
  emit_found actor menu found

abbrev pub get_order : ℕ → ℕ → Action Order
get_order h i = gets (λ db. find_own h i db.orders) >>= λ o. or_throw o Error.not_found

abbrev pub update_order : ℕ → (Order → Order) → Action (Unit {0})
update_order i g = modify λ db. record db { orders = update_by i g db.orders }

abbrev pub order_status : OrderStatus → Order → Order
order_status s o = record o { status = s }

unfoldable pub set_status : Actor → ℕ → OrderStatus → Action (Unit {0})
unfolding emit_stations
set_status actor i status = do
  get_order actor.hotel_id i
  update_order i (order_status status)
  emit_stations actor i

-- `lineData`: every line at the price of its menu item, which the hotel must have
unfoldable pub price_lines :
    (hotel_id id : ℕ) → List MenuItem → List LineInput → Option (List OrderLine)
price_lines h i menu [] = some []
price_lines h i menu (l ∷ ls) = elim (find_own h l.menu_item_id menu) [
  | none ↦ none
  | some m ↦ elim (price_lines h (i + 1) menu ls) [
    | none ↦ none
    | some rest ↦ some (
        record {
          id = i;
          menu_item_id = l.menu_item_id;
          quantity = l.quantity;
          unit_price = m.price;
          line_total = m.price *ℤ l.quantity;
          voided = false;
        }
        ∷ rest)
  ]
]

-- the sum of the lines that are not voided
unfoldable pub lines_total : List OrderLine → ℤ
lines_total [] = pos 0
lines_total (l ∷ ls) = if l.voided then lines_total ls else l.line_total +ℤ lines_total ls

-- `reduce((s, l) => s + l.lineTotal, 0)` over the new lines
unfoldable pub sum_lines : List OrderLine → ℤ
sum_lines [] = pos 0
sum_lines (l ∷ ls) = l.line_total +ℤ sum_lines ls

-- the guest in the house in the room
abbrev pub is_in_house : (hotel_id room_id : ℕ) → Reservation → Bool
is_in_house h room r = r.hotel_id == h && option_eq r.room_id room && is_checked_in r.status

abbrev pub in_house : ℕ → Option ℕ → Db → Option ℕ
in_house h none db = none
in_house h (some room) db = elim (find_first (is_in_house h room) db.reservations) [
  | none ↦ none
  | some r ↦ some r.id
]

-- `create`, once every line has its price
unfoldable pub open_with : Actor → OrderInput → List OrderLine → Action Order
unfolding sum_lines emit_stations
open_with actor input lines = do
  guest ← gets λ db. or_option input.reservation_id (in_house actor.hotel_id input.room_id db)
  i ← fresh_id
  let order : Order = record {
    id = i;
    hotel_id = actor.hotel_id;
    outlet = input.outlet;
    room_id = input.room_id;
    reservation_id = guest;
    status = OrderStatus.open_order;
    total = sum_lines lines;
    lines = lines;
  }
  modify λ db. record db { orders = order ∷ db.orders; next_id = db.next_id + length lines }
  record_audit actor "order.create" "Order" i
  emit_stations actor i
  pure order

unfoldable pub create_order : Actor → OrderInput → Action Order
unfolding price_lines open_with
create_order actor input = do
  throw_if (length input.lines == 0) Error.bad_request
  lines ←
      or_throw (← gets λ db. price_lines actor.hotel_id (db.next_id + 1) db.menu input.lines)
        Error.not_found
  open_with actor input lines

-- the stock that a sold line uses up: one movement for each ingredient of its recipe
abbrev pub deplete_ingredient : Actor → ℤ → Ingredient → Action (Unit {0})
deplete_ingredient actor n ing =
    move actor ing.inventory_item_id MovementType.sale_out (ing.quantity *ℤ n) >> pure tt

abbrev pub recipe_of : Option MenuItem → List Ingredient
recipe_of none = []
recipe_of (some m) = m.recipe

abbrev pub deplete_line : Actor → OrderLine → Action (Unit {0})
deplete_line actor l = when (not l.voided) (
    gets (λ db. recipe_of (find_by l.menu_item_id db.menu))
    >>= for_each (deplete_ingredient actor l.quantity))

unfoldable pub send_to_kitchen : Actor → ℕ → Action (Unit {0})
unfolding move emit_stations
send_to_kitchen actor i = do
  order ← get_order actor.hotel_id i
  throw_if (not (is_open_order order.status)) Error.bad_request
  for_each (deplete_line actor) order.lines
  update_order i (order_status OrderStatus.sent_to_kitchen)
  emit_stations actor i

abbrev pub is_line : ℕ → OrderLine → Bool
is_line i l = l.id == i

abbrev pub void_in : ℕ → List OrderLine → List OrderLine
void_in i ls = update_many (is_line i) (λ l. record l { voided = true }) ls

-- `{ total: order.total - line.lineTotal }` from the row that was read, and the line itself
abbrev pub with_void : Order → OrderLine → Order → Order
with_void read line o = record o {
  lines = void_in line.id o.lines;
  total = read.total -ℤ line.line_total;
}

abbrev pub void_found : Actor → Order → OrderLine → Action (Unit {0})
void_found actor order line = when (not line.voided) (
    update_order order.id (with_void order line)
    >> record_audit actor "order.void_line" "OrderLine" line.id)

unfoldable pub void_line : Actor → ℕ → (line_id : ℕ) → Action (Unit {0})
void_line actor i line_id = do
  order ← get_order actor.hotel_id i
  line ← or_throw (find_first (is_line line_id) order.lines) Error.not_found
  void_found actor order line

abbrev pub outlet_line : Outlet → LineType
outlet_line Outlet.bar = LineType.bar
outlet_line _ = LineType.fnb

-- the total goes to the folio of the reservation, if there is one
abbrev pub post_order : Actor → Order → Option ℕ → Action (Unit {0})
post_order actor order none = pure tt
post_order actor order (some r) = do
  folio ← or_throw (← gets λ db. find_first (of_reservation r) db.folios) Error.bad_request
  post_charge folio (outlet_line order.outlet) order.total actor.id

unfoldable pub pay : Actor → ℕ → Action (Unit {0})
pay actor i = do
  order ← get_order actor.hotel_id i
  when (not (is_paid order.status)) (
      post_order actor order order.reservation_id >> update_order i (order_status OrderStatus.paid))
