-- ===== src/Service/Stockroom.antt =====
-- The stock quantities, over every call that moves stock.
use hospitality_os.Common.{Bool, List, Option, [], none, some, ℕ, ◌∷◌}
use hospitality_os.Common.Int.{ℤ}
use hospitality_os.Enums.{MovementType}
use hospitality_os.Housekeeping.{start}
use hospitality_os.Inventory.{move, record_count}
use hospitality_os.Inventory.Balance.{StockConserved, move-Conserved, record_count-Conserved}
use hospitality_os.Orders.{emit_found, emit_station, emit_stations, send_to_kitchen}
use hospitality_os.Procurement.{receive, receive_item}
use hospitality_os.Store.{Actor, Db, Keeps, MenuItem, Order, PoItem, Station, keeping}

module _ (start : ℕ → ℤ) where
  receive_item-Conserved :
      (actor : Actor) (item : PoItem) (o : Option ℕ)
      → Keeps (StockConserved start) (receive_item actor item o)
  receive_item-Conserved actor item none = λ db c. c
  receive_item-Conserved actor item (some i) = search (keeping, move-Conserved) depth 12

  receive-Conserved :
      (now : ℕ) (actor : Actor) (i : ℕ) (partial : Bool)
      → Keeps (StockConserved start) (receive now actor i partial)
  unfolding receive
  receive-Conserved now actor i partial = search (keeping, receive_item-Conserved) depth 20

  emit_station-Conserved :
      (actor : Actor) (o : Order) (s : Station) (ls : List (ℕ × ℤ))
      → Keeps (StockConserved start) (emit_station actor o s ls)
  emit_station-Conserved actor o s [] = λ db c. c
  emit_station-Conserved actor o s (l ∷ ls) = λ db c. c

  emit_found-Conserved :
      (actor : Actor) (menu : List MenuItem) (o : Option Order)
      → Keeps (StockConserved start) (emit_found actor menu o)
  emit_found-Conserved actor menu none = λ db c. c
  emit_found-Conserved actor menu (some o) = search (keeping, emit_station-Conserved) depth 12

  emit_stations-Conserved :
      (actor : Actor) (i : ℕ) → Keeps (StockConserved start) (emit_stations actor i)
  unfolding emit_stations
  emit_stations-Conserved actor i = search (keeping, emit_found-Conserved) depth 12

  send_to_kitchen-Conserved :
      (actor : Actor) (i : ℕ) → Keeps (StockConserved start) (send_to_kitchen actor i)
  unfolding send_to_kitchen
  send_to_kitchen-Conserved actor i =
      search (keeping, move-Conserved, emit_stations-Conserved) depth 24

-- If every item holds its start quantity and the sum of its movements, then it does so after a
-- movement, a count, the receipt of a purchase order and an order that is sent to the kitchen,
-- whether the call returns or throws on the way.
pub stock-Conserved :
    (start : ℕ → ℤ) (actor : Actor) (now i : ℕ) (type : MovementType) (q : ℤ) (partial : Bool)
    (db : Db)
    → StockConserved start db
    → StockConserved start (move actor i type q db).1
      × StockConserved start (record_count actor i q db).1
      × StockConserved start (receive now actor i partial db).1
      × StockConserved start (send_to_kitchen actor i db).1
stock-Conserved start actor now i type q partial db c = (
  move-Conserved start actor i type q db c,
  record_count-Conserved start actor i q db c,
  receive-Conserved start now actor i partial db c,
  send_to_kitchen-Conserved start actor i db c,
)
