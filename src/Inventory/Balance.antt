-- ===== src/Inventory/Balance.antt =====
-- The stock quantities and their movements.
use hospitality_os.Common.{
  Bool, List, [], arith, false, if◌then◌else◌, refl, some, true, ℕ, ◌==◌, ◌∷◌, ◌≡◌,
}
use hospitality_os.Common.Int.{int_laws, pos, ℤ, ◌+ℤ◌}
use hospitality_os.Enums.{MovementType, Role}
use hospitality_os.Housekeeping.{start}
use hospitality_os.Inventory.{move, move_item, record_count, signed_delta, with_qty}
use hospitality_os.Reservations.Cancel.{notify}
use hospitality_os.Store.{
  Actor, Db, DomainEvent, Error, Item, Keeps, Movement, emit, find_by, find_by-update_by, find_own,
  find_own-found, item_keyed, keeping, or_throw-then, update_by, when, ◌>>=◌, ◌>>◌,
}

-- the sum of the movements of an item
abbrev pub moved : ℕ → List Movement → ℤ
moved i [] = pos 0
moved i (m ∷ ms) = if m.item_id == i then m.quantity +ℤ moved i ms else moved i ms

-- every item holds what it had before its first movement, and the sum of its movements
pub record Conserved (start : ℕ → ℤ) (items : List Item) (movements : List Movement) : Type 0 where
  pub holds :
      (i : ℕ) (item : Item)
      → find_by i items ≡ some item
      → item.current_qty ≡ start i +ℤ moved i movements

-- the same of a database
abbrev pub StockConserved : (ℕ → ℤ) → Db → Type 0
StockConserved start db = Conserved start db.items db.movements

moved_more : (a b d q : ℤ) → q ≡ a +ℤ b → q +ℤ d ≡ a +ℤ (d +ℤ b)
moved_more a b d q e = rw e (omega int_laws)

module _ (start : ℕ → ℤ) where
  moved-Conserved :
      (item : Item) (m : Movement) (items : List Item) (ms : List Movement)
      → find_by item.id items ≡ some item
      → m.item_id ≡ item.id
      → Conserved start items ms
      → Conserved start
          (update_by item.id (with_qty (item.current_qty +ℤ m.quantity)) items)
          (m ∷ ms)
  moved-Conserved item m items ms e em c = record {
    holds = λ j x ex. ground (
      arith,
      e,
      em,
      ex,
      find_by-update_by item.id j (with_qty (item.current_qty +ℤ m.quantity)) items (λ r. refl),
      c.holds item.id item e,
      c.holds j x,
      moved_more (start item.id) (moved item.id ms) m.quantity item.current_qty,
    );
  }

  signal-Conserved :
      (flag : Bool) (h i : ℕ) (after reorder : ℤ)
      → Keeps (StockConserved start) (
          when flag (
            emit (DomainEvent.inventory_low_stock h i after reorder)
            >> notify h Role.procurement "inventory.low_stock" i))
  unfolding ◌>>=◌
  signal-Conserved true h i after reorder db c = c
  signal-Conserved false h i after reorder db c = c

  move_item-Conserved :
      (actor : Actor) (type : MovementType) (q : ℤ) (item : Item) (db : Db)
      → find_by item.id db.items ≡ some item
      → StockConserved start db
      → StockConserved start (move_item actor type q item db).1
  unfolding move_item ◌>>=◌
  move_item-Conserved actor type q item db e c = ground (
    arith,
    moved-Conserved item
        (record {
          hotel_id = actor.hotel_id;
          item_id = item.id;
          type = type;
          quantity = signed_delta type q;
          by_id = actor.id;
          by_type = actor.type;
        })
        db.items db.movements e refl c,
  )

  pub move-Conserved :
      (actor : Actor) (i : ℕ) (type : MovementType) (q : ℤ)
      → Keeps (StockConserved start) (move actor i type q)
  unfolding move ◌>>=◌
  move-Conserved actor i type q db c =
      or_throw-then (λ r. StockConserved start r.1) (find_own actor.hotel_id i db.items)
        Error.not_found (move_item actor type q) db c
        (λ item e. move_item-Conserved actor type q item db (own_item actor.hotel_id i db item e) c)
    where
      own_item :
          (h i : ℕ) (db : Db) (item : Item)
          → find_own h i db.items ≡ some item
          → find_by item.id db.items ≡ some item
      own_item h i db item e =
          let found = find_own-found h i db.items item e in ground (arith, found)

  pub record_count-Conserved :
      (actor : Actor) (i : ℕ) (q : ℤ) → Keeps (StockConserved start) (record_count actor i q)
  unfolding record_count
  record_count-Conserved actor i q = search (keeping, move-Conserved) depth 24
