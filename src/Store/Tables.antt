-- ===== src/Store/Tables.antt =====
-- A table is the list of its rows, newest first; a row is found by its primary key.
use mathlib.Core.Option
use hospitality_os.Common.{
  Bool, List, Option, Option-cases, [], arith, if◌then◌else◌, inl, inr, none, refl, some, true, ℕ,
  ◌==◌, ◌∷◌, ◌≡◌,
}

-- the rows of a type that has a primary key and belongs to a hotel
pub record Keyed {ℓ} (A : Type ℓ) : Type ℓ where
  pub key : A → ℕ
  pub tenant : A → ℕ

module _ {ℓ} {A : Type ℓ} where
  -- `findFirst({ where })`
  abbrev pub find_first : (A → Bool) → List A → Option A
  find_first p [] = none
  find_first p (x ∷ xs) = if p x then some x else find_first p xs

  -- `updateMany({ where, data })`
  abbrev pub update_many : (A → Bool) → (A → A) → List A → List A
  update_many p g [] = []
  update_many p g (x ∷ xs) = (if p x then g x else x) ∷ update_many p g xs

  pub find_first-holds : (p : A → Bool) (t : List A) (a : A) → find_first p t ≡ some a → p a ≡ true
  find_first-holds p [] a e = ground arith
  find_first-holds p (x ∷ t) a e = ground (arith, find_first-holds p t a)

module _ {ℓ} {A : Type ℓ} ⦃k : Keyed A⦄ where
  -- `findUnique({ where: { id } })`
  unfoldable pub find_by : ℕ → List A → Option A
  find_by i [] = none
  find_by i (x ∷ xs) = if k.key x == i then some x else find_by i xs

  -- `update({ where: { id }, data })`
  unfoldable pub update_by : ℕ → (A → A) → List A → List A
  update_by i g [] = []
  update_by i g (x ∷ xs) = (if k.key x == i then g x else x) ∷ update_by i g xs

  pub find_by-key : (i : ℕ) (t : List A) (a : A) → find_by i t ≡ some a → k.key a ≡ i
  unfolding find_by
  find_by-key i [] a e = ground arith
  find_by-key i (x ∷ t) a e = ground (arith, find_by-key i t a)

  pub find_by-cons :
      (i : ℕ) (x : A) (t : List A)
      → find_by i (x ∷ t) ≡ (if k.key x == i then some x else find_by i t)
  unfolding find_by
  find_by-cons i x t = refl

  -- An update that keeps the keys changes what is found under its own key, and nothing else.
  pub find_by-update_by :
      (i j : ℕ) (g : A → A) (t : List A)
      → ((a : A) → k.key (g a) ≡ k.key a)
      → find_by j (update_by i g t) ≡ (if i == j then Option.map g (find_by j t) else find_by j t)
  unfolding find_by update_by
  find_by-update_by i j g [] h = ground arith
  find_by-update_by i j g (x ∷ t) h = ground (arith, h x, find_by-update_by i j g t h)

  -- `findFirst({ where: { id, hotelId } })`: the row with that key, if it is the hotel's
  abbrev pub find_own : ℕ → ℕ → List A → Option A
  find_own h i t = elim (find_by i t) [
    | none ↦ none
    | some a ↦ if k.tenant a == h then some a else none
  ]

  -- the row that a lookup in a hotel returns has that key and that hotel
  pub find_own-found :
      (h i : ℕ) (t : List A) (a : A)
      → find_own h i t ≡ some a
      → (find_by i t ≡ some a) × (k.key a ≡ i) × (k.tenant a ≡ h)
  find_own-found h i t a e = elim (Option-cases (find_by i t)) [
    | inl missing ↦ ground arith
    | inr (x, found) ↦ ground (arith, found, find_by-key i t x found)
  ]
