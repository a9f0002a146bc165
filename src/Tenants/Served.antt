-- ===== src/Tenants/Served.antt =====
-- An active hotel is approved, and an approved hotel has a plan: the writes of a row keep this.
use hospitality_os.Common.{
  Bool, Bool-cases, Option, String, arith, inl, inr, is_some, not, refl, some, true, ℕ, ◌&&◌, ◌||◌,
  ◌≡◌,
}
use hospitality_os.Enums.{HotelStatus}
use hospitality_os.PlatformBilling.{is_active_hotel, reinstated}
use hospitality_os.PlatformBilling.Sweep.{suspended}
use hospitality_os.Store.{Db, External, Hotel, SubInvoice, find_by, hotel_keyed}
use hospitality_os.Tenants.{approved_hotel, reactivated, suspended_for}

unfoldable pub served : Hotel → Bool
served x = (not (is_active_hotel x.status) || x.approved) && (not x.approved || is_some x.plan_id)

-- the writes of a row, one for each call
module _ (x : Hotel) (s : served x ≡ true) where
  pub served-approved_hotel : (now p : ℕ) → served (approved_hotel now p x) ≡ true
  unfolding served
  served-approved_hotel now p = refl

  pub served-suspended_for :
      (now : ℕ) (reason : String) → served (suspended_for now reason x) ≡ true
  unfolding served
  served-suspended_for now reason = ground (arith, s)

  pub served-suspended : (now : ℕ) → served (suspended now x) ≡ true
  unfolding served
  served-suspended now = ground (arith, s)

  pub served-reactivated : served (reactivated x x) ≡ true
  unfolding served
  served-reactivated = elim (Bool-cases x.approved) [
    | inl is ↦ rw is (ground (arith, s, is))
    | inr not_yet ↦ rw not_yet (ground (arith, s, not_yet))
  ]

  pub served-cancelled : served (record x { status = HotelStatus.cancelled }) ≡ true
  unfolding served
  served-cancelled = ground (arith, s)

  pub served-plan : (p : ℕ) → served (record x { plan_id = some p }) ≡ true
  unfolding served
  served-plan p = ground (arith, s)

  pub served-period : (at : Option ℕ) → served (record x { current_period_end = at }) ≡ true
  unfolding served
  served-period at = s

  pub served-trial : (at : Option ℕ) → served (record x { trial_ends_at = at }) ≡ true
  unfolding served
  served-trial at = s

  pub served-requested : served (record x { approval_requested = true }) ≡ true
  unfolding served
  served-requested = s

-- the row that is found is the row that is written
pub same_row :
    (h : ℕ) (db : Db) (x y : Hotel)
    → find_by h db.hotels ≡ some x
    → find_by h db.hotels ≡ some y
    → y ≡ x
same_row h db x y e f = ground (arith, e, f)

pub active_approved :
    (x : Hotel) → served x ≡ true → is_active_hotel x.status ≡ true → x.approved ≡ true
unfolding served
active_approved x s a = ground (arith, s, a)

module _ (ext : External) (inv : SubInvoice) where
  pub reinstated-id : (x : Hotel) → (reinstated ext inv x).id ≡ x.id
  unfolding reinstated
  reinstated-id x = ground arith

  pub reinstated-approved : (x : Hotel) → x.approved ≡ true → (reinstated ext inv x).approved ≡ true
  unfolding reinstated
  reinstated-approved x e = ground (arith, e)

  pub served-reinstated :
      (x : Hotel) → served x ≡ true → x.approved ≡ true → served (reinstated ext inv x) ≡ true
  unfolding served reinstated
  served-reinstated x s e = ground (arith, s, e)
