-- ===== src/Promotions/Uses.antt =====
-- How often a promo code is used.
-- a use count within its maximum, where there is one
use hospitality_os.Common.{
  Bool, Bool-cases, List, Option, String, [], ap, arith, false, inl, inr, none, refl, some, true, ℕ,
  ◌+◌, ◌==◌, ◌∷◌, ◌≡◌, ◌≤◌, ◌⊎◌,
}
use hospitality_os.Common.Int.{leb_ℤ, pos}
use hospitality_os.Payments.{folio_of}
use hospitality_os.Promotions.{
  apply_promo, discount_folio, discount_for, is_promo, is_used_up, use_promo, valid_promo,
  write_discount,
}
use hospitality_os.Promotions.Limits.{DistinctKeys}
use hospitality_os.Store.{
  Actor, Db, Error, External, Folio, PromoCode, bind-then, find_by, find_by-update_by, find_first,
  gets, ok, or_throw, promo_keyed, pure, record_audit, throw_if-then, update_by, ◌>>=◌, ◌>>◌,
}

abbrev pub Within : Option ℕ → ℕ → Type 0
Within none used = Unit {0}
Within (some m) used = (m ≡ 0) ⊎ (used ≤ m)

-- no code with a limit was used more often than that
pub record WithinUses (promos : List PromoCode) : Type 0 where
  pub uses : (i : ℕ) (p : PromoCode) → find_by i promos ≡ some p → Within p.max_uses p.used_count

promo_found :
    (p : PromoCode → Bool) (cs : List PromoCode) (c : PromoCode)
    → DistinctKeys cs
    → find_first p cs ≡ some c
    → find_by c.id cs ≡ some c
unfolding find_by
promo_found p [] c d e = ground arith
promo_found p (x ∷ cs) c d e = ground (arith, e, promo_found p cs c d.1, d)

valid_promo-ok :
    (ext : External) (now h : ℕ) (code : String) (db db' : Db) (promo : PromoCode)
    → valid_promo ext now h code db ≡ (ok promo, db')
    → (db' ≡ db)
      × (find_first (is_promo h (ext.upper code)) db.promos ≡ some promo)
      × (is_used_up promo.max_uses promo.used_count ≡ false)
unfolding valid_promo ◌>>=◌
valid_promo-ok ext now h code db db' promo e = ground (arith, e)

valid_promo-reads :
    (ext : External) (now h : ℕ) (code : String) (db : Db) → (valid_promo ext now h code db).1 ≡ db
unfolding valid_promo ◌>>=◌
valid_promo-reads ext now h code db = ground arith

one_more : (m : Option ℕ) (used : ℕ) → is_used_up m used ≡ false → Within m (used + 1)
one_more none used e = tt
one_more (some m) used e = ground (arith, e)

use_promo-WithinUses :
    (promo : PromoCode) (ps : List PromoCode)
    → find_by promo.id ps ≡ some promo
    → is_used_up promo.max_uses promo.used_count ≡ false
    → WithinUses ps
    → WithinUses (update_by promo.id use_promo ps)
use_promo-WithinUses promo ps e left w = record {
  uses = λ j x ex. elim (Bool-cases (promo.id == j)) [
    | inl same ↦ rw (written j x ex same) (one_more promo.max_uses promo.used_count left)
    | inr other ↦
        w.uses j x
          (ground (arith, ex, other, find_by-update_by promo.id j use_promo ps (λ c. refl)))
  ];
}
  where
    written :
        (j : ℕ) (x : PromoCode)
        → find_by j (update_by promo.id use_promo ps) ≡ some x
        → (promo.id == j) ≡ true
        → x ≡ use_promo promo
    written j x ex same =
        ground (arith, e, ex, same, find_by-update_by promo.id j use_promo ps (λ c. refl))

discount_folio-WithinUses :
    (actor : Actor) (promo : PromoCode) (o : Option Folio) (db : Db)
    → find_by promo.id db.promos ≡ some promo
    → is_used_up promo.max_uses promo.used_count ≡ false
    → WithinUses db.promos
    → WithinUses ((or_throw o Error.not_found >>= discount_folio actor promo) db).1.promos
unfolding discount_folio write_discount ◌>>=◌
discount_folio-WithinUses actor promo none db found left w = w
discount_folio-WithinUses actor promo (some f) db found left w =
    throw_if-then (λ r. WithinUses r.1.promos) (leb_ℤ (discount_for promo f.total_charges) (pos 0))
      Error.bad_request
      (write_discount actor f promo (discount_for promo f.total_charges)
        >> (record_audit actor "promo.apply" "Folio" f.id
            >> pure (discount_for promo f.total_charges)))
      db w (λ _. use_promo-WithinUses promo db.promos found left w)

-- If no promo code was used more often than its maximum, where it has one that is not 0, then none
-- was after a code is applied, whether the call returns or throws, where no two codes have one id.
pub apply_promo-WithinUses :
    (ext : External) (now : ℕ) (actor : Actor) (i : ℕ) (code : String) (db : Db)
    → DistinctKeys db.promos
    → WithinUses db.promos
    → WithinUses (apply_promo ext now actor i code db).1.promos
unfolding apply_promo ◌>>=◌
apply_promo-WithinUses ext now actor i code db d w =
    bind-then (λ r. WithinUses r.1.promos) (valid_promo ext now actor.hotel_id code)
      (λ promo. gets (λ x. folio_of actor.hotel_id i x) >>= λ o.
        or_throw o Error.not_found >>= discount_folio actor promo)
      db
      (λ promo db' e.
        let facts = valid_promo-ok ext now actor.hotel_id code db db' promo e in
        rw facts.0 (
          discount_folio-WithinUses actor promo (folio_of actor.hotel_id i db) db
            (promo_found (is_promo actor.hotel_id (ext.upper code)) db.promos promo d facts.1)
            facts.2 w))
      (λ x db' e. rw (← ap (λ r. r.1) e, valid_promo-reads ext now actor.hotel_id code db) w)
