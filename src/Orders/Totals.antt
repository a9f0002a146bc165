-- ===== src/Orders/Totals.antt =====
-- The total of an order is the sum of its lines that are not voided.
use hospitality_os.Common.{
  List, Option-cases, [], arith, false, inl, inr, none, refl, some, ℕ, ◌+◌, ◌<◌, ◌∷◌, ◌≡◌,
}
use hospitality_os.Common.Int.{int_laws, ℤ, ◌+ℤ◌, ◌-ℤ◌}
use hospitality_os.Orders.{LineInput, is_line, lines_total, price_lines, sum_lines, void_in}
use hospitality_os.Store.{Db, MenuItem, Order, OrderLine, find_by, find_first, order_keyed}

-- no two lines of an order have one id
abbrev pub DistinctLines : List OrderLine → Type 0
DistinctLines [] = Unit {0}
DistinctLines (l ∷ ls) = (find_first (is_line l.id) ls ≡ none) × DistinctLines ls

pub record Totalled (o : Order) : Type 0 where
  pub agrees : o.total ≡ lines_total o.lines
  pub lines_differ : DistinctLines o.lines

pub record AllTotalled (orders : List Order) : Type 0 where
  pub totals : (i : ℕ) (o : Order) → find_by i orders ≡ some o → Totalled o

abbrev pub OrderTotals : Db → Type 0
OrderTotals db = AllTotalled db.orders

-- a line that is not there is not voided
void_absent : (i : ℕ) (ls : List OrderLine) → find_first (is_line i) ls ≡ none → void_in i ls ≡ ls
void_absent i [] e = refl
void_absent i (l ∷ ls) e = ground (arith, e, void_absent i ls)

find_voided :
    (i j : ℕ) (ls : List OrderLine)
    → find_first (is_line j) ls ≡ none
    → find_first (is_line j) (void_in i ls) ≡ none
find_voided i j [] e = refl
find_voided i j (l ∷ ls) e = ground (arith, e, find_voided i j ls)

pub void_in-DistinctLines :
    (i : ℕ) (ls : List OrderLine) → DistinctLines ls → DistinctLines (void_in i ls)
void_in-DistinctLines i [] d = tt
void_in-DistinctLines i (l ∷ ls) d =
    ground (arith, d, find_voided i l.id ls, void_in-DistinctLines i ls d.1)

less_first : (a t : ℤ) → t ≡ a +ℤ t -ℤ a
less_first a t = omega int_laws

less_later : (a t b : ℤ) → a +ℤ (t -ℤ b) ≡ a +ℤ t -ℤ b
less_later a t b = omega int_laws

-- the total after a line is voided
pub lines_total-void_in :
    (i : ℕ) (ls : List OrderLine) (l : OrderLine)
    → DistinctLines ls
    → find_first (is_line i) ls ≡ some l
    → l.voided ≡ false
    → lines_total (void_in i ls) ≡ lines_total ls -ℤ l.line_total
unfolding lines_total
lines_total-void_in i [] l d e live = ground (arith, e)
lines_total-void_in i (x ∷ ls) l d e live = ground (
  arith,
  e,
  live,
  d,
  void_absent i ls,
  less_first x.line_total (lines_total ls),
  less_later x.line_total (lines_total ls) l.line_total,
  lines_total-void_in i ls l d.1,
)

-- the lines of a new order
price_lines-distinct :
    (h n j : ℕ) (menu : List MenuItem) (input : List LineInput) (ls : List OrderLine)
    → price_lines h n menu input ≡ some ls
    → j < n
    → find_first (is_line j) ls ≡ none
unfolding price_lines
price_lines-distinct h n j menu [] ls e lt = ground (arith, e)
price_lines-distinct h n j menu (x ∷ xs) ls e lt =
    elim (Option-cases (price_lines h (n + 1) menu xs)) [
      | inl missing ↦ ground (arith, e, missing)
      | inr (rest, er) ↦
          ground
            (arith, e, er, price_lines-distinct h (n + 1) j menu xs rest er (omega (arith, lt)))
    ]

pub price_lines-Totalled :
    (h n : ℕ) (menu : List MenuItem) (input : List LineInput) (ls : List OrderLine)
    → price_lines h n menu input ≡ some ls
    → (sum_lines ls ≡ lines_total ls) × DistinctLines ls
unfolding price_lines sum_lines lines_total
price_lines-Totalled h n menu [] ls e = ground (arith, e)
price_lines-Totalled h n menu (x ∷ xs) ls e = elim (Option-cases (price_lines h (n + 1) menu xs)) [
  | inl missing ↦ ground (arith, e, missing)
  | inr (rest, er) ↦ ground (
    arith,
    e,
    er,
    price_lines-distinct h (n + 1) n menu xs rest er (omega arith),
    price_lines-Totalled h (n + 1) menu xs rest er,
  )
]
