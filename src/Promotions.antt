-- ===== src/Promotions.antt =====
-- PromotionsService (apps/api/src/promotions/promotions.service.ts): promo codes that discount a
-- folio, and gift cards that pay it.
pub mod Limits
pub mod Uses
use hospitality_os.Common.{
  Bool, Option, String, false, if◌then◌else◌, leb, ltb, none, some, str_append, str_eq, true, ℕ,
  ◌&&◌, ◌+◌, ◌==◌, ◌||◌, ◌∷◌,
}
use hospitality_os.Common.Int.{leb_ℤ, ltb_ℤ, min_ℤ, neg, pos, round_div, ℤ, ◌*ℤ◌, ◌+ℤ◌, ◌-ℤ◌}
use hospitality_os.Enums.{LineType, PaymentMethod, PaymentType, PromoType}
use hospitality_os.Payments.{folio_of}
use hospitality_os.Reservations.Cancel.{is_before}
use hospitality_os.Reservations.Modify.{post_charge}
use hospitality_os.Store.{
  Action, Actor, Error, External, Folio, GiftCard, Payment, PromoCode, find_first, folio_keyed,
  fresh_id, gets, gift_card_keyed, modify, or_throw, promo_keyed, pure, record_audit, throw_if,
  transaction, update_by, ◌>>=◌, ◌>>◌,
}

-- `{ hotelId, code: code.toUpperCase(), active: true }`
abbrev pub is_promo : ℕ → String → PromoCode → Bool
is_promo h code p = p.hotel_id == h && str_eq p.code code && p.active

abbrev pub is_card : ℕ → String → GiftCard → Bool
is_card h code c = c.hotel_id == h && str_eq c.code code && c.active

abbrev pub is_after : Option ℕ → ℕ → Bool
is_after none now = false
is_after (some t) now = ltb now t

-- `promo.maxUses && promo.usedCount >= promo.maxUses`: a maximum of 0 is no limit
abbrev pub is_used_up : Option ℕ → ℕ → Bool
is_used_up none used = false
is_used_up (some m) used = ltb 0 m && leb m used

abbrev pub is_percent : PromoType → Bool
is_percent PromoType.percent = true
is_percent PromoType.fixed = false

-- `discountFor`: the quotient is exact to half a unit, so the rounding is that of the fraction
unfoldable pub discount_for : PromoCode → ℤ → ℤ
discount_for promo amount =
    min_ℤ (if is_percent promo.type then round_div (amount *ℤ promo.value) 100 else promo.value)
      amount

abbrev pub use_promo : PromoCode → PromoCode
use_promo p = record p { used_count = p.used_count + 1 }

abbrev pub spend : ℤ → GiftCard → GiftCard
spend amount c = record c { balance = c.balance -ℤ amount }

-- the transaction of `applyPromo`: a discount line, the folio, and the use of the code
unfoldable pub write_discount : Actor → Folio → PromoCode → ℤ → Action (Unit {0})
write_discount actor folio promo discount = transaction (
    post_charge folio LineType.discount (neg discount) actor.id
    >> modify λ db. record db { promos = update_by promo.id use_promo db.promos })

abbrev pub card_payment : (id reservation_id : ℕ) → Actor → Folio → GiftCard → ℤ → Payment
card_payment p i actor folio card amount = record {
  id = p;
  hotel_id = actor.hotel_id;
  folio_id = folio.id;
  reservation_id = i;
  amount = amount;
  currency = folio.currency;
  base_amount = amount;
  method = PaymentMethod.card;
  type = PaymentType.balance;
  reference = some (str_append "giftcard:" card.code);
  recorded_by_id = actor.id;
  recorded_by_type = actor.type;
}

-- `{ totalPaid: folio.totalPaid + amount, balance: folio.balance - amount }`
abbrev pub redeemed : Folio → ℤ → Folio → Folio
redeemed read amount f = record f {
  total_paid = read.total_paid +ℤ amount;
  balance = read.balance -ℤ amount;
}

unfoldable pub write_redemption : Actor → ℕ → Folio → GiftCard → ℤ → Action (Unit {0})
write_redemption actor i folio card amount = transaction do
  modify λ db. record db {
    gift_cards = update_by card.id (spend amount) db.gift_cards;
    folios = update_by folio.id (redeemed folio amount) db.folios;
  }
  p ← fresh_id
  modify λ db. record db { payments = card_payment p i actor folio card amount ∷ db.payments }

-- `applyPromo`, from the folio on
unfoldable pub discount_folio : Actor → PromoCode → Folio → Action ℤ
unfolding discount_for write_discount
discount_folio actor promo folio = do
  let discount = discount_for promo folio.total_charges
  throw_if (leb_ℤ discount (pos 0)) Error.bad_request
  write_discount actor folio promo discount
  record_audit actor "promo.apply" "Folio" folio.id
  pure discount

-- `redeemGiftCard`, from the folio on
unfoldable pub redeem_folio : Actor → ℕ → GiftCard → ℤ → Folio → Action (Unit {0})
unfolding write_redemption
redeem_folio actor i card amount folio = do
  write_redemption actor i folio card amount
  record_audit actor "giftcard.redeem" "GiftCard" card.id

module _ (ext : External) where
  -- `validPromo`
  unfoldable pub valid_promo : (now hotel_id : ℕ) → String → Action PromoCode
  valid_promo now h code = do
    promo ←
        or_throw (← gets λ db. find_first (is_promo h (ext.upper code)) db.promos) Error.not_found
    throw_if (is_after promo.valid_from now) Error.bad_request
    throw_if (is_before promo.valid_until now) Error.bad_request
    throw_if (is_used_up promo.max_uses promo.used_count) Error.bad_request
    pure promo

  unfoldable pub apply_promo : (now : ℕ) → Actor → (reservation_id : ℕ) → String → Action ℤ
  unfolding valid_promo discount_folio
  apply_promo now actor i code = do
    promo ← valid_promo now actor.hotel_id code
    folio ← or_throw (← gets λ db. folio_of actor.hotel_id i db) Error.not_found
    discount_folio actor promo folio

  unfoldable pub redeem_gift_card : Actor → (reservation_id : ℕ) → String → ℤ → Action (Unit {0})
  unfolding redeem_folio
  redeem_gift_card actor i code amount = do
    card ←
        or_throw (← gets λ db. find_first (is_card actor.hotel_id (ext.upper code)) db.gift_cards)
          Error.not_found
    throw_if (leb_ℤ amount (pos 0) || ltb_ℤ card.balance amount) Error.bad_request
    folio ← or_throw (← gets λ db. folio_of actor.hotel_id i db) Error.not_found
    redeem_folio actor i card amount folio
