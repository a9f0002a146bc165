-- ===== src/Examples/Tenancy.antt =====
-- The theorem on the standing of the hotels, at concrete calls.
use hospitality_os.Common.{
  List, [], any, arith, false, is_some, map, none, refl, some, true, ◌∷◌, ◌≡◌, ◌⊎◌,
}
use hospitality_os.Common.Int.{pos}
use hospitality_os.Enums.{HotelStatus, PlanInterval, RoomStatus}
use hospitality_os.Examples.Data.{ext, hotel, manager, room_a, start_db}
use hospitality_os.PlatformBilling.{
  insert_sub_invoice, is_active_hotel, issue_for, issue_sub_invoice, mark_paid, try_sub_invoice,
}
use hospitality_os.PlatformBilling.Sweep.{distinct_hotels, renew, sweep}
use hospitality_os.Reservations.Availability.{find_available_rooms}
use hospitality_os.Rooms.{set_room_status}
use hospitality_os.Rooms.Withdrawn.{Withdrawal, has_id, withdraw, withdraw_lem}
use hospitality_os.Store.{Db, find_by, retry, update_by, ◌>>=◌}
use hospitality_os.Tenants.{approve_hotel, reactivate_hotel, request_approval, suspend_hotel}
use hospitality_os.Tenants.Served.{served}
use hospitality_os.Tenants.Standing.{AllServed, is_of, nobody}
use hospitality_os.Tenants.Standings.{TenantCall, tenant_call, tenant_run, tenant_run_lem}
use hospitality_os.Tenants.Unique.{unique_ids}

-- a hotel that has just registered, and a plan
abbrev registered : Db
registered = record start_db {
  hotels =
      record hotel {
        status = HotelStatus.trial;
        approved = false;
        approved_at = none;
        trial_ends_at = some 86400000;
      }
      ∷ [];
  plans =
      record { id = 80; price_minor = pos 5000; currency = "USD"; interval = PlanInterval.monthly }
      ∷ [];
}

-- an approval without a plan is refused; the next one is suspended by the daily job, and reactivated
abbrev tenancy : List TenantCall
tenancy =
    TenantCall.requesting (some 9) 1
    ∷ TenantCall.approving 1000 1 1 none
    ∷ TenantCall.suspending 1500 1 1 "papers"
    ∷ TenantCall.reactivating 1 1
    ∷ TenantCall.approving 2000 1 1 (some 80)
    ∷ TenantCall.sweeping 99999999999
    ∷ TenantCall.reactivating 1 1
    ∷ []

registered-AllServed : AllServed nobody registered
unfolding find_by served unique_ids
registered-AllServed = record {
  unique = refl;
  each = λ i x e. ground (arith, e);
  approved = λ i x l e. absurd (ground (arith, l));
}

-- the trial goes on after the first suspension, and the hotel is active in the end
in_the_end :
    map (λ x. x.status) (tenant_run ext tenancy registered).hotels ≡ HotelStatus.active ∷ []
unfolding tenant_run tenant_call mark_paid approve_hotel suspend_hotel reactivate_hotel
    request_approval sweep renew issue_sub_invoice issue_for retry try_sub_invoice
    insert_sub_invoice distinct_hotels ◌>>=◌ find_by update_by
in_the_end = refl

-- an approval without a plan, a suspension on the trial, and the payment of an invoice that is not there
abbrev refusals : List TenantCall
refusals =
    TenantCall.requesting (some 9) 1
    ∷ TenantCall.approving 1000 1 1 none
    ∷ TenantCall.suspending 1500 1 1 "subscription"
    ∷ TenantCall.paying 1600 none 100 none "MANUAL"
    ∷ TenantCall.reactivating 1 1
    ∷ []

tenant_run_lem_example :
    let x = record hotel {
      status = HotelStatus.trial;
      approved = false;
      approved_at = none;
      trial_ends_at = some 86400000;
      approval_requested = true;
    } in
    ((is_active_hotel x.status ≡ false) ⊎ (x.approved ≡ true))
    × ((x.approved ≡ false) ⊎ (is_some x.plan_id ≡ true))
    × ((any (is_of 1) (tenant_run ext refusals registered).sub_invoices ≡ false)
        ⊎ (x.approved ≡ true))
unfolding tenant_run tenant_call mark_paid approve_hotel suspend_hotel reactivate_hotel
    request_approval sweep renew issue_sub_invoice issue_for retry try_sub_invoice
    insert_sub_invoice distinct_hotels ◌>>=◌ find_by update_by
tenant_run_lem_example = tenant_run_lem ext refusals registered registered-AllServed 1 _ refl

abbrev maintained : Db
maintained = (withdraw manager 3 Withdrawal.to_maintenance start_db).1

-- of the two rooms one is left
one_left : map (λ x. x.id) (find_available_rooms 1 172800000 345600000 none maintained) ≡ 4 ∷ []
unfolding set_room_status find_available_rooms find_by update_by ◌>>=◌
one_left = refl

withdraw_lem_example :
    any (has_id 3) (find_available_rooms 1 172800000 345600000 (some 2) maintained) ≡ false
unfolding set_room_status find_by update_by ◌>>=◌
withdraw_lem_example =
    withdraw_lem manager 3 Withdrawal.to_maintenance start_db maintained
      (record room_a { status = RoomStatus.maintenance }) refl 1 172800000 345600000 (some 2)
