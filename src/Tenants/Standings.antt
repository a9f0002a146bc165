-- ===== src/Tenants/Standings.antt =====
-- The standing of the hotels over all the calls that write it.
-- the calls of the administrators and of a hotel's owner, what a payment gateway reports, and the
-- daily job
use hospitality_os.Billing.Billed.{alone}
use hospitality_os.Common.{
  Bool, Bool-cases, List, Option, String, [], any, arith, false, inl, inr, is_some, some, true, ℕ,
  ◌∷◌, ◌≡◌, ◌⊎◌,
}
use hospitality_os.PlatformBilling.{is_active_hotel, mark_paid, settle_reported}
use hospitality_os.PlatformBilling.Sweep.{sweep}
use hospitality_os.Store.{Db, External, Hotel, find_by, hotel_keyed}
use hospitality_os.Tenants.{
  approve_hotel, cancel_hotel, extend_trial, reactivate_hotel, request_approval, set_plan,
  suspend_hotel,
}
use hospitality_os.Tenants.Kept.{
  cancel_hotel-AllServed, extend_trial-AllServed, reactivate_hotel-AllServed,
  request_approval-AllServed, suspend_hotel-AllServed,
}
use hospitality_os.Tenants.Licensed.{approve_hotel-AllServed, set_plan-AllServed}
use hospitality_os.Tenants.Paid.{mark_paid-AllServed, settle_reported-AllServed}
use hospitality_os.Tenants.Renewals.{sweep-AllServed}
use hospitality_os.Tenants.Served.{served}
use hospitality_os.Tenants.Standing.{AllServed, is_of, nobody}

pub data TenantCall : Type 0 where
  approving : (now admin h : ℕ) → Option ℕ → TenantCall
  suspending : (now admin h : ℕ) → String → TenantCall
  reactivating cancelling : (admin h : ℕ) → TenantCall
  planning : (now admin h plan_id : ℕ) → TenantCall
  extending : (now admin h days : ℕ) → TenantCall
  requesting : Option ℕ → (h : ℕ) → TenantCall
  paying : (now : ℕ) → Option ℕ → (invoice : ℕ) → Option String → String → TenantCall
  reporting : (now : ℕ) → Bool → Option String → String → TenantCall
  sweeping : (now : ℕ) → TenantCall

unfoldable pub tenant_call : External → TenantCall → Db → Db
tenant_call ext (TenantCall.approving now admin h plan) db =
    (approve_hotel ext alone now admin h plan db).1
tenant_call ext (TenantCall.suspending now admin h reason) db =
    (suspend_hotel now admin h reason db).1
tenant_call ext (TenantCall.reactivating admin h) db = (reactivate_hotel admin h db).1
tenant_call ext (TenantCall.cancelling admin h) db = (cancel_hotel admin h db).1
tenant_call ext (TenantCall.planning now admin h plan_id) db =
    (set_plan ext alone now admin h plan_id db).1
tenant_call ext (TenantCall.extending now admin h days) db = (extend_trial now admin h days db).1
tenant_call ext (TenantCall.requesting user h) db = (request_approval user h db).1
tenant_call ext (TenantCall.paying now by i reference method) db =
    (mark_paid ext now by i reference method db).1
tenant_call ext (TenantCall.reporting now success reference provider) db =
    (settle_reported ext now success reference provider db).1
tenant_call ext (TenantCall.sweeping now) db = (sweep ext alone now db).1

unfoldable pub tenant_run : External → List TenantCall → Db → Db
tenant_run ext [] db = db
tenant_run ext (c ∷ cs) db = tenant_run ext cs (tenant_call ext c db)

tenant_call-AllServed :
    (ext : External) (c : TenantCall) (db : Db)
    → AllServed nobody db
    → AllServed nobody (tenant_call ext c db)
unfolding tenant_call
tenant_call-AllServed ext (TenantCall.approving now admin h plan) =
    approve_hotel-AllServed nobody ext now admin h plan
tenant_call-AllServed ext (TenantCall.suspending now admin h reason) =
    suspend_hotel-AllServed nobody h now admin reason
tenant_call-AllServed ext (TenantCall.reactivating admin h) =
    reactivate_hotel-AllServed nobody h admin
tenant_call-AllServed ext (TenantCall.cancelling admin h) = cancel_hotel-AllServed nobody h admin
tenant_call-AllServed ext (TenantCall.planning now admin h p) =
    set_plan-AllServed nobody ext now admin h p
tenant_call-AllServed ext (TenantCall.extending now admin h days) =
    extend_trial-AllServed nobody h now admin days
tenant_call-AllServed ext (TenantCall.requesting user h) = request_approval-AllServed nobody h user
tenant_call-AllServed ext (TenantCall.paying now by i reference method) =
    mark_paid-AllServed nobody ext now by i reference method
tenant_call-AllServed ext (TenantCall.reporting now success reference provider) =
    settle_reported-AllServed nobody ext now success reference provider
tenant_call-AllServed ext (TenantCall.sweeping now) = sweep-AllServed ext now

tenant_run-AllServed :
    (ext : External) (cs : List TenantCall) (db : Db)
    → AllServed nobody db
    → AllServed nobody (tenant_run ext cs db)
unfolding tenant_run
tenant_run-AllServed ext [] db all = all
tenant_run-AllServed ext (c ∷ cs) db all =
    tenant_run-AllServed ext cs (tenant_call ext c db) (tenant_call-AllServed ext c db all)

served-standing :
    (x : Hotel)
    → served x ≡ true
    → ((is_active_hotel x.status ≡ false) ⊎ (x.approved ≡ true))
      × ((x.approved ≡ false) ⊎ (is_some x.plan_id ≡ true))
unfolding served
served-standing x s = elim (Bool-cases x.approved) [
  | inl is ↦ (inr is, inr (ground (arith, s, is)))
  | inr not_yet ↦ (inl (ground (arith, s, not_yet)), inl not_yet)
]

-- After any sequence of the calls that are listed as TenantCall, the payment of invoices among them,
-- also of calls that throw, a hotel that is active is approved, a hotel that is approved has a plan,
-- and a hotel that has a subscription invoice is approved. All this holds before, and no two hotels
-- have one identifier. No other call writes the hotels and their invoices meanwhile.
pub tenant_run_lem :
    (ext : External) (cs : List TenantCall) (db : Db)
    → AllServed nobody db
    → (h : ℕ) (x : Hotel) → find_by h (tenant_run ext cs db).hotels ≡ some x
    → ((is_active_hotel x.status ≡ false) ⊎ (x.approved ≡ true))
      × ((x.approved ≡ false) ⊎ (is_some x.plan_id ≡ true))
      × ((any (is_of h) (tenant_run ext cs db).sub_invoices ≡ false) ⊎ (x.approved ≡ true))
tenant_run_lem ext cs db all h x e =
    let after = tenant_run-AllServed ext cs db all in
    let standing = served-standing x (after.each h x e) in
    (
      standing.0,
      standing.1,
      elim (Bool-cases (any (is_of h) (tenant_run ext cs db).sub_invoices)) [
        | inl invoiced ↦ inr (after.approved h x invoiced e)
        | inr none_yet ↦ inl none_yet
      ],
    )
