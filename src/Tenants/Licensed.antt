-- ===== src/Tenants/Licensed.antt =====
-- The approval and the change of the plan, which invoice a hotel that they know to be approved.
use hospitality_os.Billing.Billed.{alone}
use hospitality_os.Common.{
  ==_iff, Bool, Bool-cases, Option, arith, false, inl, inr, is_some, not, or_option, refl, some,
  subst, true, ℕ, ◌&&◌, ◌≡◌,
}
use hospitality_os.Common.Int.{ltb_ℤ, pos}
use hospitality_os.PlatformBilling.{is_active_hotel, issue_sub_invoice}
use hospitality_os.Store.{
  Action, Db, Error, External, Hotel, Keeps, Keeps-bind, Plan, bind-at, find_by, find_by-update_by,
  gets, hotel_keyed, keeping, or_throw, or_throw-then, plan_keyed, pure, record_audit,
  sub_invoice_keyed, update_by, when, ◌>>=◌, ◌>>◌,
}
use hospitality_os.Tenants.{admin_actor, approve_hotel, approved_hotel, set_plan, update_hotel}
use hospitality_os.Tenants.Invoiced.{issue_sub_invoice-AllServed}
use hospitality_os.Tenants.Served.{active_approved, same_row, served-approved_hotel, served-plan}
use hospitality_os.Tenants.Standing.{
  AllServed, license, must_find-then, or_hotel, record_audit-AllServed, unlicense,
  update_hotel-AllServed,
}
use hospitality_os.Tenants.Unique.{found_after}

pub same_licensed : (h : ℕ) (q : ℕ → Bool) → or_hotel h q h ≡ true
same_licensed h q = ground (arith, (==_iff h h).1 refl)

module _ (q : ℕ → Bool) (ext : External) where
  pub approve_hotel-AllServed :
      (now admin h : ℕ) (plan : Option ℕ)
      → Keeps (AllServed q) (approve_hotel ext alone now admin h plan)
  unfolding approve_hotel
  approve_hotel-AllServed now admin h plan db all = must_find-then q h _ db all λ y found.
      or_throw-then (λ r. AllServed q r.1) (or_option plan y.plan_id) Error.bad_request _ db all
        λ p _. unlicense q h _ (
          bind-at (AllServed (or_hotel h q)) (update_hotel h (approved_hotel now p)) _ db
            (license q h (update_hotel h (approved_hotel now p) db).1 (λ x e. approved_now p db x e)
              (update_hotel-AllServed q h (approved_hotel now p) db (λ x. refl)
                (λ x e s. served-approved_hotel x s now p) (λ x e. refl) all))
            (λ _. search (
              keeping,
              record_audit-AllServed (or_hotel h q),
              issue_sub_invoice-AllServed (or_hotel h q) h (same_licensed h q),
            )))
    where
      approved_now :
          (p : ℕ) (d : Db) (x : Hotel)
          → find_by h (update_by h (approved_hotel now p) d.hotels) ≡ some x
          → x.approved ≡ true
      approved_now p d x e =
          elim (found_after h h (approved_hotel now p) d.hotels x (λ y. refl) e) [
            | inl before ↦ ground (
              arith,
              e,
              before,
              find_by-update_by h h (approved_hotel now p) d.hotels (λ y. refl),
              (==_iff h h).1 refl,
            )
            | inr (_, (y, found, same)) ↦ rw same refl
          ]

  when-AllServed :
      (licensed : ℕ → Bool) (now h : ℕ) (c : Bool)
      → (c ≡ true → licensed h ≡ true)
      → Keeps (AllServed licensed) (when c (issue_sub_invoice ext alone h now >>= λ _. pure tt))
  when-AllServed licensed now h false ok_h = λ d a. a
  when-AllServed licensed now h true ok_h =
      Keeps-bind (AllServed licensed) (issue_sub_invoice ext alone h now) (λ _. pure tt)
        (issue_sub_invoice-AllServed licensed h (ok_h refl) ext now) (λ _ d a. a)

  -- the writes of a new plan
  planned-AllServed :
      (licensed : ℕ → Bool) (now admin h p : ℕ) (c : Bool)
      → (c ≡ true → licensed h ≡ true)
      → Keeps (AllServed licensed) (
          update_hotel h (λ x. record x { plan_id = some p })
          >> (record_audit (admin_actor admin h) "platform.hotel.set_plan" "Hotel" h
              >> when c (issue_sub_invoice ext alone h now >>= λ _. pure tt)))
  planned-AllServed licensed now admin h p c ok_h =
      Keeps-bind (AllServed licensed) (update_hotel h (λ x. record x { plan_id = some p })) _
        (λ d a.
          update_hotel-AllServed licensed h (λ x. record x { plan_id = some p }) d (λ x. refl)
            (λ x e s. served-plan x s p) (λ x e. e) a)
        λ _.
          Keeps-bind (AllServed licensed)
            (record_audit (admin_actor admin h) "platform.hotel.set_plan" "Hotel" h) _
            (record_audit-AllServed licensed (admin_actor admin h) "platform.hotel.set_plan" "Hotel"
              h)
            λ _. when-AllServed licensed now h c ok_h

  pub set_plan-AllServed :
      (now admin h p : ℕ) → Keeps (AllServed q) (set_plan ext alone now admin h p)
  unfolding set_plan ◌>>=◌
  set_plan-AllServed now admin h p db all = must_find-then q h look db all λ y found.
      or_throw-then (λ r. AllServed q r.1) (find_by p db.plans) Error.not_found (writes y) db all
        λ plan _. elim (Bool-cases (is_active_hotel y.status)) [
          | inl active ↦ unlicense q h _ (
              planned-AllServed (or_hotel h q) now admin h p (starts y plan)
                (λ _. same_licensed h q) db
                (license q h db
                  (λ x e.
                    subst (λ z. z.approved ≡ true) (same_row h db x y e found)
                      (active_approved y (all.each h y found) active))
                  all))
          | inr idle ↦
              planned-AllServed q now admin h p (starts y plan)
                (λ c. absurd (ground (arith, c, idle))) db all
        ]
    where
      starts : Hotel → Plan → Bool
      starts y plan =
          is_active_hotel y.status
          && ltb_ℤ (pos 0) plan.price_minor
          && not (is_some y.current_period_end)

      writes : Hotel → Plan → Action (Unit {0})
      writes y plan =
          update_hotel h (λ x. record x { plan_id = some p })
          >> (record_audit (admin_actor admin h) "platform.hotel.set_plan" "Hotel" h
              >> when (starts y plan) (issue_sub_invoice ext alone h now >>= λ _. pure tt))

      look : Hotel → Action (Unit {0})
      look y = gets (λ d. find_by p d.plans) >>= λ o. or_throw o Error.not_found >>= writes y
