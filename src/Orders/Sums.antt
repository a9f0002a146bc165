-- ===== src/Orders/Sums.antt =====
-- The totals of the orders over every call of the orders.
use hospitality_os.Common.{
  Bool-cases, List, Option, Option-cases, [], ap, arith, inl, inr, length, none, refl, some, sym,
  true, ℕ, ◌+◌, ◌==◌, ◌∙◌, ◌∷◌, ◌≡◌,
}
use hospitality_os.Common.Int.{ℤ}
use hospitality_os.Enums.{MovementType, OrderStatus}
use hospitality_os.Inventory.{move, move_item}
use hospitality_os.Orders.{
  OrderInput, create_order, emit_found, emit_station, emit_stations, is_line, lines_total,
  open_with, order_status, pay, post_order, price_lines, send_to_kitchen, set_status, sum_lines,
  update_order, void_found, void_line, with_void,
}
use hospitality_os.Orders.Totals.{
  AllTotalled, DistinctLines, OrderTotals, Totalled, lines_total-void_in, price_lines-Totalled,
  void_in-DistinctLines,
}
use hospitality_os.Store.{
  Actor, Db, Error, Keeps, MenuItem, Order, OrderLine, Station, find_by, find_by-cons, find_by-key,
  find_by-update_by, find_first, find_first-holds, find_own, find_own-found, gets, keeping, modify,
  or_throw, or_throw-then, order_keyed, throw_if-then, update_by, ◌>>=◌,
}

-- a write of the order that was found
write-Totalled :
    (i : ℕ) (g : Order → Order) (o : Order) (orders : List Order)
    → find_by i orders ≡ some o
    → ((x : Order) → (g x).id ≡ x.id)
    → (Totalled o → Totalled (g o))
    → AllTotalled orders
    → AllTotalled (update_by i g orders)
write-Totalled i g o orders e ids carries all = record {
  totals = λ j x ex. elim (Bool-cases (i == j)) [
    | inl same ↦ rw (written j x ex same) (carries (all.totals i o e))
    | inr other ↦ all.totals j x (ground (arith, ex, other, find_by-update_by i j g orders ids))
  ];
}
  where
    written :
        (j : ℕ) (x : Order) → find_by j (update_by i g orders) ≡ some x → (i == j) ≡ true → x ≡ g o
    written j x ex same = ground (arith, e, ex, same, find_by-update_by i j g orders ids)

-- a change of the status
status-OrderTotals : (i : ℕ) (s : OrderStatus) → Keeps OrderTotals (update_order i (order_status s))
status-OrderTotals i s db all = elim (Option-cases (find_by i db.orders)) [
  | inl missing ↦ record {
    totals = λ j x ex.
        all.totals j x (
          ground
            (arith, missing, ex, find_by-update_by i j (order_status s) db.orders (λ o. refl)));
  }
  | inr (o, e) ↦
      write-Totalled i (order_status s) o db.orders e (λ x. refl)
        (λ t. record { agrees = t.agrees; lines_differ = t.lines_differ }) all
]

emit_station-OrderTotals :
    (actor : Actor) (o : Order) (s : Station) (ls : List (ℕ × ℤ))
    → Keeps OrderTotals (emit_station actor o s ls)
emit_station-OrderTotals actor o s [] = λ db h. h
emit_station-OrderTotals actor o s (l ∷ ls) = λ db h. h

emit_found-OrderTotals :
    (actor : Actor) (menu : List MenuItem) (o : Option Order)
    → Keeps OrderTotals (emit_found actor menu o)
emit_found-OrderTotals actor menu none = λ db h. h
emit_found-OrderTotals actor menu (some o) = search (keeping, emit_station-OrderTotals) depth 12

emit_stations-OrderTotals : (actor : Actor) (i : ℕ) → Keeps OrderTotals (emit_stations actor i)
unfolding emit_stations
emit_stations-OrderTotals actor i = search (keeping, emit_found-OrderTotals) depth 12

set_status-OrderTotals :
    (actor : Actor) (i : ℕ) (s : OrderStatus) → Keeps OrderTotals (set_status actor i s)
unfolding set_status
set_status-OrderTotals actor i s =
    search (keeping, status-OrderTotals, emit_stations-OrderTotals) depth 16

move-OrderTotals :
    (actor : Actor) (i : ℕ) (type : MovementType) (q : ℤ) → Keeps OrderTotals (move actor i type q)
unfolding move move_item
move-OrderTotals actor i type q = search (keeping) depth 20

send_to_kitchen-OrderTotals : (actor : Actor) (i : ℕ) → Keeps OrderTotals (send_to_kitchen actor i)
unfolding send_to_kitchen
send_to_kitchen-OrderTotals actor i =
    search (keeping, move-OrderTotals, status-OrderTotals, emit_stations-OrderTotals) depth 24

post_order-OrderTotals :
    (actor : Actor) (o : Order) (r : Option ℕ) → Keeps OrderTotals (post_order actor o r)
post_order-OrderTotals actor o none = λ db h. h
post_order-OrderTotals actor o (some r) = search (keeping) depth 12

pay-OrderTotals : (actor : Actor) (i : ℕ) → Keeps OrderTotals (pay actor i)
unfolding pay
pay-OrderTotals actor i = search (keeping, post_order-OrderTotals, status-OrderTotals) depth 16

-- a line that is voided
void_found-OrderTotals :
    (actor : Actor) (i : ℕ) (o : Order) (l : OrderLine) (db : Db)
    → find_by i db.orders ≡ some o
    → find_first (is_line l.id) o.lines ≡ some l
    → OrderTotals db
    → OrderTotals (void_found actor o l db).1
unfolding ◌>>=◌
void_found-OrderTotals actor i o l db e el all = elim (Bool-cases l.voided) [
  | inl gone ↦ rw gone all
  | inr live ↦ rw live (
      write-Totalled o.id (with_void o l) o db.orders own (λ x. refl)
        (λ t. record {
          agrees = rw t.agrees (sym (lines_total-void_in l.id o.lines l t.lines_differ el live));
          lines_differ = void_in-DistinctLines l.id o.lines t.lines_differ;
        })
        all)
]
  where
    own : find_by o.id db.orders ≡ some o
    own = ground (arith, e, find_by-key i db.orders o e)

-- the line that was looked up
line_found :
    (i : ℕ) (ls : List OrderLine) (l : OrderLine)
    → find_first (is_line i) ls ≡ some l
    → find_first (is_line l.id) ls ≡ some l
line_found i ls l e =
    let holds = find_first-holds (is_line i) ls l e in
    let same : l.id ≡ i = ground (arith, holds) in ap (λ k. find_first (is_line k) ls) same ∙ e

void_line-OrderTotals : (actor : Actor) (i line : ℕ) → Keeps OrderTotals (void_line actor i line)
unfolding void_line ◌>>=◌
void_line-OrderTotals actor i line db all =
    or_throw-then (λ r. OrderTotals r.1) (find_own actor.hotel_id i db.orders) Error.not_found
      (λ o. or_throw (find_first (is_line line) o.lines) Error.not_found >>= void_found actor o) db
      all
      (λ o e.
        or_throw-then (λ r. OrderTotals r.1) (find_first (is_line line) o.lines) Error.not_found
          (void_found actor o) db all
          (λ l el.
            void_found-OrderTotals actor i o l db (in_table o e) (line_found line o.lines l el)
              all))
  where
    in_table :
        (o : Order) → find_own actor.hotel_id i db.orders ≡ some o → find_by i db.orders ≡ some o
    in_table o e = let facts = find_own-found actor.hotel_id i db.orders o e in facts.0

-- a new order
add-OrderTotals :
    (o : Order) (n : ℕ)
    → Totalled o
    → Keeps OrderTotals
        (modify λ db. record db { orders = o ∷ db.orders; next_id = db.next_id + n })
add-OrderTotals o n t db all = record {
  totals = λ j x ex. elim (Bool-cases (o.id == j)) [
    | inl same ↦ let new : x ≡ o = ground (arith, ex, same, find_by-cons j o db.orders) in rw new t
    | inr other ↦ all.totals j x (ground (arith, ex, other, find_by-cons j o db.orders))
  ];
}

open_with-OrderTotals :
    (actor : Actor) (input : OrderInput) (lines : List OrderLine)
    → (sum_lines lines ≡ lines_total lines) × DistinctLines lines
    → Keeps OrderTotals (open_with actor input lines)
unfolding open_with
open_with-OrderTotals actor input lines priced =
    search (keeping, add-OrderTotals, totalled, emit_stations-OrderTotals) depth 24
  where
    totalled :
        (i : ℕ) (guest : Option ℕ)
        → Totalled (record {
          id = i;
          hotel_id = actor.hotel_id;
          outlet = input.outlet;
          room_id = input.room_id;
          reservation_id = guest;
          status = OrderStatus.open_order;
          total = sum_lines lines;
          lines = lines;
        })
    totalled i guest = record { agrees = priced.0; lines_differ = priced.1 }

create_order-OrderTotals :
    (actor : Actor) (input : OrderInput) → Keeps OrderTotals (create_order actor input)
unfolding create_order ◌>>=◌
create_order-OrderTotals actor input db all =
    throw_if-then (λ r. OrderTotals r.1) (length input.lines == 0) Error.bad_request
      (gets (λ d. price_lines actor.hotel_id (d.next_id + 1) d.menu input.lines) >>= λ x.
        or_throw x Error.not_found >>= open_with actor input)
      db all
      (λ _.
        or_throw-then (λ r. OrderTotals r.1)
          (price_lines actor.hotel_id (db.next_id + 1) db.menu input.lines) Error.not_found
          (open_with actor input) db all
          (λ lines e.
            open_with-OrderTotals actor input lines
              (price_lines-Totalled actor.hotel_id (db.next_id + 1) db.menu input.lines lines e) db
              all))

-- If the total of every order is the sum of its lines that are not voided, and its lines have
-- different ids, then this is so after an order is created, gets a status, is sent to the kitchen,
-- has a line voided or is paid, whether the call returns or throws.
pub orders-OrderTotals :
    (actor : Actor) (input : OrderInput) (i line : ℕ) (s : OrderStatus) (db : Db)
    → OrderTotals db
    → OrderTotals (create_order actor input db).1
      × OrderTotals (set_status actor i s db).1
      × OrderTotals (send_to_kitchen actor i db).1
      × OrderTotals (void_line actor i line db).1
      × OrderTotals (pay actor i db).1
orders-OrderTotals actor input i line s db all = (
  create_order-OrderTotals actor input db all,
  set_status-OrderTotals actor i s db all,
  send_to_kitchen-OrderTotals actor i db all,
  void_line-OrderTotals actor i line db all,
  pay-OrderTotals actor i db all,
)
