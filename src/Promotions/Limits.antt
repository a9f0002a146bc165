-- ===== src/Promotions/Limits.antt =====
-- The limits of a discount, a promo code and a gift card.
use native.Mathlib.Nat.{mul-le-mul_left}
use hospitality_os.Common.{
  Bool, Bool-cases, List, Option, String, [], ap, arith, false, if◌then◌else◌, inl, inr, ltb, none,
  refl, some, true, ℕ, ◌*◌, ◌+◌, ◌/◌, ◌<◌, ◌==◌, ◌||◌, ◌∙◌, ◌∷◌, ◌≡◌, ◌≤◌, ◌⊎◌,
}
use hospitality_os.Common.Int.{leb_ℤ, ltb_ℤ, min_ℤ, pos, round_div, sub_nonneg, ℤ, ◌*ℤ◌, ◌+ℤ◌, ◌≤ℤ◌}
use hospitality_os.Payments.{folio_of}
use hospitality_os.Promotions.{
  discount_for, is_card, is_percent, redeem_folio, redeem_gift_card, spend, write_redemption,
}
use hospitality_os.Store.{
  Actor, Db, Error, External, Folio, GiftCard, Keyed, PromoCode, find_by, find_by-update_by,
  find_first, gets, gift_card_keyed, or_throw, or_throw-then, promo_keyed, throw_if, throw_if-then,
  update_by, ◌>>=◌, ◌>>◌,
}

-- the percentage of charges that are not negative, to the nearest unit
abbrev rounded : (v m : ℕ) → ℕ
rounded v m = (2 * (m * v) + 100) / 200

round_percent : (m v : ℕ) → round_div (pos m *ℤ pos v) 100 ≡ pos (rounded v m)
unfolding round_div ◌*ℤ◌ ◌+ℤ◌
round_percent m v = ground arith

capped : (k m : ℕ) → min_ℤ (pos k) (pos m) ≡ (if ltb m k then pos m else pos k)
capped k m = ground arith

discount_of_percent :
    (promo : PromoCode) (v m : ℕ)
    → promo.value ≡ pos v
    → is_percent promo.type ≡ true
    → discount_for promo (pos m) ≡ (if ltb m (rounded v m) then pos m else pos (rounded v m))
unfolding discount_for
discount_of_percent promo v m e percent =
    rw (percent, e) (ap (λ x. min_ℤ x (pos m)) (round_percent m v) ∙ capped (rounded v m) m)

discount_of_fixed :
    (promo : PromoCode) (v m : ℕ)
    → promo.value ≡ pos v
    → is_percent promo.type ≡ false
    → discount_for promo (pos m) ≡ (if ltb m v then pos m else pos v)
unfolding discount_for
discount_of_fixed promo v m e fixed = rw (fixed, e) (capped v m)

share_below : (m v : ℕ) → v ≤ 100 → m * v ≤ 100 * m
share_below m v le = let b = mul-le-mul_left m le in omega (arith, b)

share_above : (m v : ℕ) → 100 < v → 100 * m ≤ m * v
share_above m v lt =
    let ge : 100 ≤ v = omega (arith, lt) in let b = mul-le-mul_left m ge in omega (arith, b)

-- A percentage of charges that are not negative is taken to the nearest unit, a half up; a percentage
-- above one hundred takes exactly the charges; a fixed discount is its value, and where that is more
-- than the charges, the charges.
pub discount_for_lem :
    (promo : PromoCode) (v m : ℕ)
    → promo.value ≡ pos v
    → (d : ℕ) × (discount_for promo (pos m) ≡ pos d)
      × (((is_percent promo.type ≡ true) × (100 < v) × (d ≡ m))
          ⊎ ((is_percent promo.type ≡ true)
              × (v ≤ 100)
              × (d ≤ m)
              × (200 * d ≤ 2 * (m * v) + 100)
              × (2 * (m * v) < 200 * d + 100))
          ⊎ ((is_percent promo.type ≡ false) × (v ≤ m) × (d ≡ v))
          ⊎ ((is_percent promo.type ≡ false) × (m < v) × (d ≡ m)))
discount_for_lem promo v m e = elim (Bool-cases (is_percent promo.type)) [
  | inl percent ↦
      let d = discount_of_percent promo v m e percent in
      elim (Bool-cases (ltb 100 v)) [
        | inl above ↦
            let lt : 100 < v = ground (arith, above) in
            let b = share_above m v lt in
            (m, d ∙ at_cap (rounded v m) (omega (arith, b)), inl (percent, lt, refl))
        | inr below ↦
            let le : v ≤ 100 = ground (arith, below) in
            let b = share_below m v le in
            let low : ltb m (rounded v m) ≡ false = ground (arith, b) in
            (
              rounded v m,
              rw low at d,
              inr (inl (percent, le, omega (arith, b), omega arith, omega arith)),
            )
      ]
  | inr fixed ↦
      let d = discount_of_fixed promo v m e fixed in
      elim (Bool-cases (ltb m v)) [
        | inl more ↦ (m, rw more at d, inr (inr (inr (fixed, ground (arith, more), refl))))
        | inr fits ↦ (v, rw fits at d, inr (inr (inl (fixed, ground (arith, fits), refl))))
      ]
]
  where
    at_cap : (k : ℕ) → m ≤ k → (if ltb m k then pos m else pos k) ≡ pos m
    at_cap k le = elim (Bool-cases (ltb m k)) [
      | inl more ↦ rw more refl
      | inr not_more ↦ ground (arith, not_more, le)
    ]

-- no gift card is below zero
pub record Solvent (cards : List GiftCard) : Type 0 where
  pub balances : (i : ℕ) (c : GiftCard) → find_by i cards ≡ some c → pos 0 ≤ℤ c.balance

-- no two rows of a table have one key
abbrev pub DistinctKeys {ℓ} : {A : Type ℓ} → ⦃k : Keyed A⦄ → List A → Type ℓ
DistinctKeys [] = Unit
DistinctKeys ⦃k⦄ (x ∷ xs) = (find_by (k.key x) xs ≡ none) × DistinctKeys xs

-- a card that a lookup returned is the one under its id
card_found :
    (p : GiftCard → Bool) (cs : List GiftCard) (c : GiftCard)
    → DistinctKeys cs
    → find_first p cs ≡ some c
    → find_by c.id cs ≡ some c
unfolding find_by
card_found p [] c d e = ground arith
card_found p (x ∷ cs) c d e = ground (arith, e, card_found p cs c d.1, d)

spend-Solvent :
    (amount : ℤ) (card : GiftCard) (cs : List GiftCard)
    → find_by card.id cs ≡ some card
    → ltb_ℤ card.balance amount ≡ false
    → Solvent cs
    → Solvent (update_by card.id (spend amount) cs)
spend-Solvent amount card cs e enough s = record {
  balances = λ j x ex. elim (Bool-cases (card.id == j)) [
    | inl same ↦ rw (written j x ex same) (sub_nonneg card.balance amount enough)
    | inr other ↦
        s.balances j x
          (ground (arith, ex, other, find_by-update_by card.id j (spend amount) cs (λ c. refl)))
  ];
}
  where
    written :
        (j : ℕ) (x : GiftCard)
        → find_by j (update_by card.id (spend amount) cs) ≡ some x
        → (card.id == j) ≡ true
        → x ≡ spend amount card
    written j x ex same =
        ground (arith, e, ex, same, find_by-update_by card.id j (spend amount) cs (λ c. refl))

redeem_folio-Solvent :
    (actor : Actor) (i : ℕ) (card : GiftCard) (amount : ℤ) (o : Option Folio) (db : Db)
    → find_by card.id db.gift_cards ≡ some card
    → ltb_ℤ card.balance amount ≡ false
    → Solvent db.gift_cards
    → Solvent ((or_throw o Error.not_found >>= redeem_folio actor i card amount) db).1.gift_cards
unfolding redeem_folio write_redemption ◌>>=◌
redeem_folio-Solvent actor i card amount none db found enough s = s
redeem_folio-Solvent actor i card amount (some f) db found enough s =
    spend-Solvent amount card db.gift_cards found enough s

-- If no gift card is below zero, then none is after a redemption, whether the call returns or
-- throws, where no two cards have one id.
pub redeem-Solvent :
    (ext : External) (actor : Actor) (i : ℕ) (code : String) (amount : ℤ) (db : Db)
    → DistinctKeys db.gift_cards
    → Solvent db.gift_cards
    → Solvent (redeem_gift_card ext actor i code amount db).1.gift_cards
unfolding redeem_gift_card ◌>>=◌
redeem-Solvent ext actor i code amount db d s =
    or_throw-then (λ r. Solvent r.1.gift_cards)
      (find_first (is_card actor.hotel_id (ext.upper code)) db.gift_cards) Error.not_found
      (λ card.
        throw_if (leb_ℤ amount (pos 0) || ltb_ℤ card.balance amount) Error.bad_request
        >> (gets (λ x. folio_of actor.hotel_id i x) >>= λ o.
            or_throw o Error.not_found >>= redeem_folio actor i card amount))
      db s
      (λ card e.
        throw_if-then (λ r. Solvent r.1.gift_cards)
          (leb_ℤ amount (pos 0) || ltb_ℤ card.balance amount) Error.bad_request
          (gets (λ x. folio_of actor.hotel_id i x) >>= λ o.
            or_throw o Error.not_found >>= redeem_folio actor i card amount)
          db s
          (λ fits.
            redeem_folio-Solvent actor i card amount (folio_of actor.hotel_id i db) db
              (card_found (is_card actor.hotel_id (ext.upper code)) db.gift_cards card d e)
              (ground (arith, fits)) s))
