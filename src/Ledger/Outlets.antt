-- ===== src/Ledger/Outlets.antt =====
-- The settlement of an order, a promo code and a gift card leave the ledger balanced.
use hospitality_os.Common.{List, Option, String, arith, none, refl, some, ℕ, ◌+◌, ◌∷◌, ◌≡◌}
use hospitality_os.Common.Int.{+ℤ_comm, int_laws, neg, ℤ}
use hospitality_os.Enums.{LineType}
use hospitality_os.Ledger.Books.{Books-found, Books-write, IsBalanced, Settled}
use hospitality_os.Ledger.Posting.{found_folio, post_charge-IsBalanced}
use hospitality_os.Orders.{outlet_line, pay, post_order}
use hospitality_os.Payments.{folio_of}
use hospitality_os.Promotions.{
  apply_promo, card_payment, discount_folio, discount_for, redeem_folio, redeem_gift_card, redeemed,
  valid_promo, write_discount, write_redemption,
}
use hospitality_os.Reservations.Modify.{of_reservation, post_charge}
use hospitality_os.Store.{
  Action, Actor, Db, Error, External, Folio, GiftCard, Keeps, Keeps-bind, LineItem, Order, Payment,
  PromoCode, find_by, find_first, folio_keyed, gets, keeping, or_throw, or_throw-then, ◌>>=◌,
}

post_order-IsBalanced :
    (actor : Actor) (order : Order) (o : Option ℕ) → Keeps IsBalanced (post_order actor order o)
unfolding ◌>>=◌
post_order-IsBalanced actor order none db b = b
post_order-IsBalanced actor order (some r) db b =
    or_throw-then (λ r. IsBalanced r.1) (find_first (of_reservation r) db.folios) Error.bad_request
      (λ f. post_charge f (outlet_line order.outlet) order.total actor.id) db b
      (λ f e.
        post_charge-IsBalanced f (outlet_line order.outlet) order.total actor.id db
          (Books-found b (of_reservation r) f e) b)

pub pay-IsBalanced : (actor : Actor) (i : ℕ) → Keeps IsBalanced (pay actor i)
unfolding pay
pay-IsBalanced actor i = search (keeping, post_order-IsBalanced) depth 16

valid_promo-IsBalanced :
    (ext : External) (now h : ℕ) (code : String) → Keeps IsBalanced (valid_promo ext now h code)
unfolding valid_promo
valid_promo-IsBalanced ext now h code = search (keeping) depth 16

write_discount-IsBalanced :
    (actor : Actor) (f : Folio) (promo : PromoCode) (d : ℤ) (db : Db)
    → find_by f.id db.folios ≡ some f
    → IsBalanced db
    → IsBalanced (write_discount actor f promo d db).1
unfolding write_discount ◌>>=◌
write_discount-IsBalanced actor f promo d db found b =
    post_charge-IsBalanced f LineType.discount (neg d) actor.id db found b

discount_folio-IsBalanced :
    (actor : Actor) (promo : PromoCode) (f : Folio) (db : Db)
    → find_by f.id db.folios ≡ some f
    → IsBalanced db
    → IsBalanced (discount_folio actor promo f db).1
unfolding discount_folio ◌>>=◌
discount_folio-IsBalanced actor promo f db found b =
    ground (
      arith,
      write_discount-IsBalanced actor f promo (discount_for promo f.total_charges) db found b,
    )

-- what is done with the folio of a reservation, if that leaves the ledger balanced
with_folio-IsBalanced :
    {A : Type 0} (h i : ℕ) (f : Folio → Action A)
    → ((x : Folio) (db : Db)
        → find_by x.id db.folios ≡ some x
        → IsBalanced db
        → IsBalanced (f x db).1)
    → Keeps IsBalanced (gets (λ db. folio_of h i db) >>= λ o. or_throw o Error.not_found >>= f)
unfolding ◌>>=◌
with_folio-IsBalanced h i f keeps db b =
    or_throw-then (λ r. IsBalanced r.1) (folio_of h i db) Error.not_found f db b
      (λ x e. keeps x db (found_folio h i db x e b) b)

pub apply_promo-IsBalanced :
    (ext : External) (now : ℕ) (actor : Actor) (i : ℕ) (code : String)
    → Keeps IsBalanced (apply_promo ext now actor i code)
unfolding apply_promo
apply_promo-IsBalanced ext now actor i code =
    Keeps-bind IsBalanced (valid_promo ext now actor.hotel_id code) _
      (valid_promo-IsBalanced ext now actor.hotel_id code)
      (λ promo.
        with_folio-IsBalanced actor.hotel_id i (discount_folio actor promo)
          (discount_folio-IsBalanced actor promo))

-- the totals of a folio that a gift card pays
Settled-redeemed :
    {f : Folio} {ls : List LineItem} {ps : List Payment} (p : Payment) (amount : ℤ)
    → p.folio_id ≡ f.id
    → p.base_amount ≡ amount
    → Settled f ls ps
    → Settled (redeemed f amount f) ls (p ∷ ps)
Settled-redeemed {f} {ls} {ps} p amount ef ea s = record {
  charged_total = s.charged_total;
  paid_total = ground (arith, s, +ℤ_comm f.total_paid amount);
  owed = rw s.owed (omega int_laws);
}

write_redemption-IsBalanced :
    (actor : Actor) (i : ℕ) (f : Folio) (card : GiftCard) (amount : ℤ) (db : Db)
    → find_by f.id db.folios ≡ some f
    → IsBalanced db
    → IsBalanced (write_redemption actor i f card amount db).1
unfolding write_redemption ◌>>=◌
write_redemption-IsBalanced actor i f card amount db found b =
    Books-write b f found (redeemed f amount) (λ x. refl) db.line_items
      (card_payment db.next_id i actor f card amount ∷ db.payments) (db.next_id + 1) (omega arith)
      (λ j ne. ground (arith, ne))
      (Settled-redeemed (card_payment db.next_id i actor f card amount) amount refl refl)

redeem_folio-IsBalanced :
    (actor : Actor) (i : ℕ) (card : GiftCard) (amount : ℤ) (f : Folio) (db : Db)
    → find_by f.id db.folios ≡ some f
    → IsBalanced db
    → IsBalanced (redeem_folio actor i card amount f db).1
unfolding redeem_folio ◌>>=◌
redeem_folio-IsBalanced actor i card amount f db found b =
    ground (arith, write_redemption-IsBalanced actor i f card amount db found b)

pub redeem_gift_card-IsBalanced :
    (ext : External) (actor : Actor) (i : ℕ) (code : String) (amount : ℤ)
    → Keeps IsBalanced (redeem_gift_card ext actor i code amount)
unfolding redeem_gift_card
redeem_gift_card-IsBalanced ext actor i code amount =
    search (keeping, with_folio-IsBalanced, redeem_folio-IsBalanced) depth 16
