-- ===== src/Guests.antt =====
-- GuestsService (apps/api/src/guests/guests.service.ts): the handlers that keep the account of a guest
-- when a payment is recorded, and the count of the visits when a reservation is checked out.
use hospitality_os.Common.{
  Bool, Option, arith, false, if◌then◌else◌, is_some, none, some, true, ℕ, ◌+◌, ◌||◌, ◌∷◌, ◌≡◌,
}
use hospitality_os.Common.Int.{leb_ℤ, ltb_ℤ, pos, ℤ, ◌+ℤ◌}
use hospitality_os.Enums.{Tier}
use hospitality_os.Store.{
  Action, Db, External, Guest, Reservation, find_by, gets, guest_keyed, modify, ok, pure,
  reservation_keyed, update_by, when, ◌>>=◌, ◌>>◌,
}

-- `tierFor`: the first of `TIERS` whose minimum is reached; what was spent is never negative
unfoldable pub tier_for : ℤ → Tier
tier_for spent =
    if leb_ℤ (pos 500000000) spent
    then Tier.platinum
    else if leb_ℤ (pos 200000000) spent
    then Tier.gold
    else if leb_ℤ (pos 50000000) spent
    then Tier.silver
    else Tier.standard

abbrev pub is_vip_tier : Tier → Bool
is_vip_tier Tier.gold = true
is_vip_tier Tier.platinum = true
is_vip_tier _ = false

-- the guest as the two updates of the transaction leave it
unfoldable pub rewarded : (at : ℕ) → (amount earned : ℤ) → Guest → Guest
unfolding tier_for
rewarded at amount earned g =
    let tier = tier_for (g.total_spent +ℤ amount) in
    record g {
      total_spent = g.total_spent +ℤ amount;
      loyalty_points = g.loyalty_points +ℤ earned;
      last_visit_at = some at;
      loyalty_tier = tier;
      vip = g.vip || is_vip_tier tier;
    }

module _ (ext : External) where
  -- the transaction, for a guest that is there; for one that is not it throws, which is logged
  unfoldable pub reward : (payment_id hotel_id : ℕ) → ℤ → Option Reservation → Action (Unit {0})
  unfolding rewarded
  reward p h amount none = pure tt
  reward p h amount (some r) = do
    let earned = ext.points_for amount r.currency
    there ← gets λ db. is_some (find_by r.guest_id db.guests)
    when there do
      modify λ db. record db {
        guests = update_by r.guest_id (rewarded (ext.heard_at p) amount earned) db.guests;
      }
      when (ltb_ℤ (pos 0) earned) (
          modify λ db. record db {
            loyalty =
                record {
                  hotel_id = h;
                  guest_id = r.guest_id;
                  points = earned;
                  reservation_id = r.id;
                }
                ∷ db.loyalty;
          })

  -- `onPaymentRecorded`: a refund earns nothing
  unfoldable pub on_payment_recorded :
      (payment_id hotel_id reservation_id : ℕ) → ℤ → Action (Unit {0})
  unfolding reward
  on_payment_recorded p h i amount =
      when (ltb_ℤ (pos 0) amount) (gets (λ db. find_by i db.reservations) >>= reward p h amount)

abbrev pub visited : (now : ℕ) → Guest → Guest
visited now g = record g { visit_count = g.visit_count + 1; last_visit_at = some now }

abbrev pub visit : (now : ℕ) → Option Reservation → Action (Unit {0})
visit now none = pure tt
visit now (some r) =
    modify λ db. record db { guests = update_by r.guest_id (visited now) db.guests }

-- `onCheckedOut`: a failure, as that of a guest who is not there, is logged, and writes nothing
unfoldable pub on_checked_out : (now reservation_id : ℕ) → Action (Unit {0})
on_checked_out now i = gets (λ db. find_by i db.reservations) >>= visit now

pub on_checked_out_lem :
    (now i : ℕ) (r : Reservation) (db : Db)
    → find_by i db.reservations ≡ some r
    → on_checked_out now i db
      ≡ (ok tt, record db { guests = update_by r.guest_id (visited now) db.guests })
unfolding on_checked_out ◌>>=◌
on_checked_out_lem now i r db e = ground (arith, e)
