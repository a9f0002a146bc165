-- ===== src/Inventory.antt =====
-- InventoryService (apps/api/src/inventory/inventory.service.ts): every change of a stock quantity
-- is a signed movement, and a count corrects the book quantity. Quantities are decimals of a fixed
-- scale, here integers of their smallest unit.
pub mod Balance
pub mod Counting
use hospitality_os.Common.{Bool, false, true, ℕ, ◌&&◌, ◌∷◌}
use hospitality_os.Common.Int.{abs, leb_ℤ, ltb_ℤ, neg, pos, ℤ, ◌+ℤ◌, ◌-ℤ◌}
use hospitality_os.Enums.{MovementType, Role}
use hospitality_os.Reservations.Cancel.{notify}
use hospitality_os.Reservations.Modify.{differs}
use hospitality_os.Store.{
  Action, Actor, DomainEvent, Error, Item, emit, find_own, fresh_id, gets, item_keyed, modify,
  or_throw, pure, record_audit, transaction, update_by, when, ◌>>=◌, ◌>>◌,
}

-- `DEPLETING.includes(type)`
abbrev pub is_depleting : MovementType → Bool
is_depleting MovementType.sale_out = true
is_depleting MovementType.wastage = true
is_depleting _ = false

unfoldable pub signed_delta : MovementType → ℤ → ℤ
signed_delta MovementType.purchase_in quantity = abs quantity
signed_delta MovementType.sale_out quantity = neg (abs quantity)
signed_delta MovementType.wastage quantity = neg (abs quantity)
signed_delta _ quantity = quantity

-- the low-stock signal: a depleting move crosses the reorder point
unfoldable pub crosses_reorder : MovementType → (before after reorder : ℤ) → Bool
crosses_reorder type before after reorder =
    is_depleting type && leb_ℤ after reorder && ltb_ℤ reorder before

abbrev pub with_qty : ℤ → Item → Item
with_qty q item = record item { current_qty = q }

-- `move`, from the item on
unfoldable pub move_item : Actor → MovementType → ℤ → Item → Action ℤ
unfolding signed_delta crosses_reorder
move_item actor type quantity item = do
  let delta = signed_delta type quantity
  let after = item.current_qty +ℤ delta
  modify λ db. record db {
    movements =
        record {
          hotel_id = actor.hotel_id;
          item_id = item.id;
          type = type;
          quantity = delta;
          by_id = actor.id;
          by_type = actor.type;
        }
        ∷ db.movements;
    items = update_by item.id (with_qty after) db.items;
  }
  when (crosses_reorder type item.current_qty after item.reorder_point) (
      emit (DomainEvent.inventory_low_stock actor.hotel_id item.id after item.reorder_point)
      >> notify actor.hotel_id Role.procurement "inventory.low_stock" item.id)
  pure after

abbrev pub get_item : ℕ → ℕ → Action Item
get_item h i = gets (λ db. find_own h i db.items) >>= λ item. or_throw item Error.not_found

unfoldable pub move : Actor → ℕ → MovementType → ℤ → Action ℤ
unfolding move_item
move actor i type quantity = get_item actor.hotel_id i >>= move_item actor type quantity

unfoldable pub log_wastage : Actor → ℕ → ℤ → Action ℤ
unfolding move
log_wastage actor i quantity = move actor i MovementType.wastage quantity

-- `recordCount`: variance = expected - counted, and the book quantity goes to the count
unfoldable pub record_count : Actor → ℕ → ℤ → Action ℤ
unfolding move
record_count actor i counted_qty = do
  item ← get_item actor.hotel_id i
  let variance = item.current_qty -ℤ counted_qty
  transaction do
    c ← fresh_id
    modify λ db. record db {
      counts =
          record {
            id = c;
            hotel_id = actor.hotel_id;
            item_id = i;
            counted_qty = counted_qty;
            expected_qty = item.current_qty;
            variance = variance;
          }
          ∷ db.counts;
    }
    when (differs variance (pos 0))
        (move actor i MovementType.count_correction (neg variance) >> pure tt)
    record_audit actor "inventory.count" "StockCount" c
  pure variance
