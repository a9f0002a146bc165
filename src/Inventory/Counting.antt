-- ===== src/Inventory/Counting.antt =====
-- A stock count, and the low-stock signal.
use hospitality_os.Common.{Bool-cases, arith, false, inl, inr, refl, some, true, ℕ, ◌+◌, ◌∷◌, ◌≡◌}
use hospitality_os.Common.Int.{eq_of_zero, int_laws, neg, pos, ℤ, ◌+ℤ◌, ◌-ℤ◌}
use hospitality_os.Enums.{MovementType}
use hospitality_os.Inventory.{
  crosses_reorder, move, move_item, record_count, signed_delta, with_qty,
}
use hospitality_os.Reservations.Modify.{differs}
use hospitality_os.Store.{
  Actor, Db, Item, find_by, find_by-update_by, find_own, find_own-found, item_keyed, ok, pure, when,
  ◌>>=◌, ◌>>◌,
}

-- what a move leaves of the item
move_lem :
    (actor : Actor) (i : ℕ) (type : MovementType) (q : ℤ) (db : Db) (item : Item)
    → find_own actor.hotel_id i db.items ≡ some item
    → ((move actor i type q db).0 ≡ ok (item.current_qty +ℤ signed_delta type q))
      × (find_by i (move actor i type q db).1.items
          ≡ some (with_qty (item.current_qty +ℤ signed_delta type q) item))
unfolding move move_item ◌>>=◌
move_lem actor i type q db item e = ground (
  arith,
  e,
  find_own-found actor.hotel_id i db.items item e,
  find_by-update_by item.id i (with_qty (item.current_qty +ℤ signed_delta type q)) db.items
      (λ r. refl),
)

corrected : (q n : ℤ) → q +ℤ neg (q -ℤ n) ≡ n
corrected q n = omega int_laws

zero_variance : (q n : ℤ) → differs (q -ℤ n) (pos 0) ≡ false → q ≡ n
zero_variance q n e = eq_of_zero q n (is_zero (q -ℤ n) e)
  where
    is_zero : (d : ℤ) → differs d (pos 0) ≡ false → d ≡ pos 0
    is_zero d h = ground arith

-- the row of a count
abbrev pub count_db : Actor → ℕ → (counted_qty expected_qty : ℤ) → Db → Db
count_db actor i n q db = record db {
  counts =
      record {
        id = db.next_id;
        hotel_id = actor.hotel_id;
        item_id = i;
        counted_qty = n;
        expected_qty = q;
        variance = q -ℤ n;
      }
      ∷ db.counts;
  next_id = db.next_id + 1;
}

count_move_lem :
    (actor : Actor) (i : ℕ) (n : ℤ) (db : Db) (item : Item)
    → find_own actor.hotel_id i db.items ≡ some item
    → let r =
        when
          (differs (item.current_qty -ℤ n) (pos 0))
          (move actor i MovementType.count_correction (neg (item.current_qty -ℤ n)) >> pure tt)
          db in
      (r.0 ≡ ok tt) × (find_by i r.1.items ≡ some (with_qty n item))
unfolding ◌>>=◌ signed_delta
count_move_lem actor i n db item e = elim (Bool-cases (differs (item.current_qty -ℤ n) (pos 0))) [
  | inl apart ↦ ground (
    arith,
    apart,
    corrected item.current_qty n,
    move_lem actor i MovementType.count_correction (neg (item.current_qty -ℤ n)) db item e,
  )
  | inr same ↦ ground (
    arith,
    same,
    zero_variance item.current_qty n same,
    find_own-found actor.hotel_id i db.items item e,
  )
]

-- A count of an item of the hotel returns what the books had above the count, and leaves the item
-- with the counted quantity, whether a correction was needed or not.
pub record_count_lem :
    (actor : Actor) (i : ℕ) (n : ℤ) (db : Db) (item : Item)
    → find_own actor.hotel_id i db.items ≡ some item
    → ((record_count actor i n db).0 ≡ ok (item.current_qty -ℤ n))
      × (find_by i (record_count actor i n db).1.items ≡ some (with_qty n item))
unfolding record_count ◌>>=◌
record_count_lem actor i n db item e =
    ground (arith, e, count_move_lem actor i n (count_db actor i n item.current_qty db) item e)

-- After a depleting move has signalled low stock, no further depleting move of the item signals it
-- again, as long as nothing is added: the signal comes once for each fall below the reorder point.
pub signal_once :
    (first second : MovementType) (before q r reorder : ℤ)
    → crosses_reorder first before (before +ℤ signed_delta first q) reorder ≡ true
    → crosses_reorder second
        (before +ℤ signed_delta first q)
        (before +ℤ signed_delta first q +ℤ signed_delta second r)
        reorder
      ≡ false
unfolding crosses_reorder
signal_once first second before q r reorder e = ground arith
