-- ===== src/Tenants/Unique.antt =====
-- The identifiers of the hotels, and the rows under them.
-- no two hotels have one identifier
use hospitality_os.Common.{
  ==_iff, Bool, Bool-cases, List, Option-cases, [], any, arith, false, filterb, inl, inr, not, refl,
  some, true, ℕ, ◌&&◌, ◌==◌, ◌∷◌, ◌≡◌, ◌⊎◌,
}
use hospitality_os.Store.{Hotel, find_by, find_by-update_by, hotel_keyed, update_by}

unfoldable pub unique_ids : List Hotel → Bool
unique_ids [] = true
unique_ids (x ∷ xs) = not (any (λ y. y.id == x.id) xs) && unique_ids xs

-- a hotel with the identifier
abbrev pub among : List Hotel → ℕ → Bool
among xs h = any (λ x. x.id == h) xs

among-update_by :
    (h i : ℕ) (g : Hotel → Hotel) (xs : List Hotel)
    → ((x : Hotel) → (g x).id ≡ x.id)
    → among (update_by h g xs) i ≡ among xs i
unfolding update_by
among-update_by h i g [] key = refl
among-update_by h i g (x ∷ xs) key = ground (arith, key x, among-update_by h i g xs key)

pub unique_ids-update_by :
    (h : ℕ) (g : Hotel → Hotel) (xs : List Hotel)
    → ((x : Hotel) → (g x).id ≡ x.id)
    → unique_ids (update_by h g xs) ≡ unique_ids xs
unfolding unique_ids update_by
unique_ids-update_by h g [] key = refl
unique_ids-update_by h g (x ∷ xs) key =
    ground (arith, key x, among-update_by h x.id g xs key, unique_ids-update_by h g xs key)

not_among :
    (p : Hotel → Bool) (i : ℕ) (xs : List Hotel)
    → among xs i ≡ false
    → among (filterb p xs) i ≡ false
not_among p i [] e = refl
not_among p i (x ∷ xs) e = ground (arith, e, not_among p i xs)

-- the row that is found is the one that passes the test
pub filterb-found :
    (p : Hotel → Bool) (i : ℕ) (xs : List Hotel) (x : Hotel)
    → unique_ids xs ≡ true
    → among (filterb p xs) i ≡ true
    → find_by i xs ≡ some x
    → p x ≡ true
unfolding unique_ids find_by
filterb-found p i [] x u e f = absurd (ground (arith, f))
filterb-found p i (y ∷ ys) x u e f = elim (Bool-cases (y.id == i)) [
  | inl same ↦ elim (Bool-cases (p y)) [
    | inl holds ↦ ground (arith, f, same, holds)
    | inr fails ↦ absurd (
        ground (
          arith,
          u,
          e,
          fails,
          not_among p i ys (rw ((==_iff y.id i).0 same) at (head_alone y ys u)),
        ))
  ]
  | inr other ↦
      filterb-found p i ys x (ground (arith, u)) (ground (arith, e, other)) (rw other at f)
]
  where
    head_alone :
        (y : Hotel) (ys : List Hotel)
        → not (among ys y.id) && unique_ids ys ≡ true
        → among ys y.id ≡ false
    head_alone y ys u = ground (arith, u)

-- the row under an identifier after a write of the hotels
pub found_after :
    (h j : ℕ) (g : Hotel → Hotel) (hotels : List Hotel) (x : Hotel)
    → ((y : Hotel) → (g y).id ≡ y.id)
    → find_by j (update_by h g hotels) ≡ some x
    → (find_by j hotels ≡ some x)
      ⊎ ((h ≡ j) × ((y : Hotel) × (find_by h hotels ≡ some y) × (x ≡ g y)))
found_after h j g hotels x key e = elim (Bool-cases (h == j)) [
  | inl same ↦ inr (elim (Option-cases (find_by j hotels)) [
    | inl missing ↦ absurd (ground (arith, missing, same, find_by-update_by h j g hotels key))
    | inr (y, found) ↦ (
      (==_iff h j).0 same,
      (
        y,
        rw ((==_iff h j).0 same) found,
        ground (arith, found, same, find_by-update_by h j g hotels key),
      ),
    )
  ])
  | inr other ↦ inl (ground (arith, other, find_by-update_by h j g hotels key))
]
