-- ===== src/Tenants/Kept.antt =====
-- Each call on a hotel keeps what its standing promises.
use hospitality_os.Common.{
  Bool, Option, String, false, if◌then◌else◌, none, refl, some, subst, sym, true, ℕ, ◌*◌, ◌+◌, ◌≡◌,
}
use hospitality_os.Enums.{ActorType, HotelStatus}
use hospitality_os.PlatformBilling.{set_period_end}
use hospitality_os.Rates.{day}
use hospitality_os.Store.{
  Hotel, Keeps, Keeps-bind, bind-at, keeping, plan_keyed, pure, record_audit, ◌>>=◌,
}
use hospitality_os.Tenants.{
  admin_actor, cancel_hotel, extend_trial, reactivate_hotel, reactivated, request_approval,
  suspend_hotel, suspended_for, trial_base, update_hotel,
}
use hospitality_os.Tenants.Served.{
  same_row, served, served-cancelled, served-period, served-reactivated, served-requested,
  served-suspended_for, served-trial,
}
use hospitality_os.Tenants.Standing.{
  AllServed, must_find-then, record_audit-AllServed, update_hotel-AllServed,
}

module _ (q : ℕ → Bool) (h : ℕ) where
  pub suspend_hotel-AllServed :
      (now admin : ℕ) (reason : String) → Keeps (AllServed q) (suspend_hotel now admin h reason)
  unfolding suspend_hotel
  suspend_hotel-AllServed now admin reason db all = must_find-then q h _ db all λ y found.
      bind-at (AllServed q) (update_hotel h (suspended_for now reason)) _ db
        (update_hotel-AllServed q h (suspended_for now reason) db (λ x. refl)
          (λ x e s. served-suspended_for x s now reason) (λ x e. e) all)
        (λ _. record_audit-AllServed q (admin_actor admin h) _ _ _)

  pub reactivate_hotel-AllServed : (admin : ℕ) → Keeps (AllServed q) (reactivate_hotel admin h)
  unfolding reactivate_hotel
  reactivate_hotel-AllServed admin db all = must_find-then q h _ db all λ y found.
      bind-at (AllServed q) (update_hotel h (reactivated y)) _ db
        (update_hotel-AllServed q h (reactivated y) db (λ x. refl)
          (λ x e s.
            subst (λ z. served (reactivated z x) ≡ true) (sym (same_row h db x y e found))
              (served-reactivated x s))
          (λ x e. e) all)
        (λ _. record_audit-AllServed q (admin_actor admin h) _ _ _)

  pub cancel_hotel-AllServed : (admin : ℕ) → Keeps (AllServed q) (cancel_hotel admin h)
  unfolding cancel_hotel
  cancel_hotel-AllServed admin db all = must_find-then q h _ db all λ y found.
      bind-at (AllServed q) (update_hotel h (λ x. record x { status = HotelStatus.cancelled })) _ db
        (update_hotel-AllServed q h (λ x. record x { status = HotelStatus.cancelled }) db
          (λ x. refl) (λ x e s. served-cancelled x s) (λ x e. e) all)
        (λ _. record_audit-AllServed q (admin_actor admin h) _ _ _)

  pub extend_trial-AllServed :
      (now admin days : ℕ) → Keeps (AllServed q) (extend_trial now admin h days)
  unfolding extend_trial
  extend_trial-AllServed now admin days db all = must_find-then q h _ db all λ y found.
      let g = λ (x : Hotel). record x {
        trial_ends_at = some (trial_base now y.trial_ends_at + days * day);
      } in
      bind-at (AllServed q) (update_hotel h g) _ db
        (update_hotel-AllServed q h g db (λ x. refl) (λ x e s. served-trial x s _) (λ x e. e) all)
        (λ _. record_audit-AllServed q (admin_actor admin h) _ _ _)

  pub set_period_end-AllServed : (at : Option ℕ) → Keeps (AllServed q) (set_period_end h at)
  set_period_end-AllServed at db all =
      update_hotel-AllServed q h (λ x. record x { current_period_end = at }) db (λ x. refl)
        (λ x e s. served-period x s at) (λ x e. e) all

  pub request_approval-AllServed : (user : Option ℕ) → Keeps (AllServed q) (request_approval user h)
  unfolding request_approval
  request_approval-AllServed user db all =
      must_find-then q h _ db all λ y found. choose y.approved db all
    where
      g : Hotel → Hotel
      g x = record x { approval_requested = true }

      choose :
          (b : Bool)
          → Keeps (AllServed q) (
              if b
              then pure true
              else (update_hotel h g >>= λ _.
                  (record_audit
                      (record { id = user; type = ActorType.user; role = none; hotel_id = h })
                      "platform.hotel.request_approval"
                      "Hotel"
                      h
                    >>= λ _. pure false)))
      choose true = λ d a. a
      choose false =
          Keeps-bind (AllServed q) (update_hotel h g) _
            (λ d a.
              update_hotel-AllServed q h g d (λ x. refl) (λ x e s. served-requested x s) (λ x e. e)
                a)
            (λ _. search (keeping, record_audit-AllServed))
