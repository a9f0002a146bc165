-- ===== src/Policy.antt =====
-- can (apps/api/src/common/policy.ts): which role may do what. The owner may do everything, extra
-- permissions are granted one by one, and everything else is denied.
pub mod Roles
use hospitality_os.Common.{Bool, List, any, false, true, ℕ, ◌==◌, ◌||◌}
use hospitality_os.Enums.{Role}

pub data Permission : Type 0 where
  reservation_create reservation_modify reservation_cancel reservation_checkin : Permission
  reservation_checkout payment_record payment_refund housekeeping_assign : Permission
  maintenance_register maintenance_update staff_report_read staff_report_submit : Permission
  po_approve price_approve audit_read : Permission

abbrev is_manager : Role → Bool
is_manager Role.manager = true
is_manager _ = false

abbrev is_desk : Role → Bool
is_desk Role.manager = true
is_desk Role.front_desk = true
is_desk _ = false

-- `ACTION_ROLES[action].includes(role)`
abbrev allows : Permission → Role → Bool
allows Permission.reservation_create role = is_desk role
allows Permission.reservation_modify role = is_desk role
allows Permission.reservation_cancel role = is_desk role
allows Permission.reservation_checkin role = is_desk role
allows Permission.reservation_checkout role = is_desk role
allows Permission.payment_record Role.accountant = true
allows Permission.payment_record role = is_desk role
allows Permission.payment_refund Role.accountant = true
allows Permission.payment_refund role = is_manager role
allows Permission.housekeeping_assign Role.housekeeping = true
allows Permission.housekeeping_assign role = is_desk role
allows Permission.maintenance_register Role.housekeeping = true
allows Permission.maintenance_register Role.maintenance = true
allows Permission.maintenance_register Role.security = true
allows Permission.maintenance_register role = is_desk role
allows Permission.maintenance_update Role.maintenance = true
allows Permission.maintenance_update role = is_manager role
allows Permission.staff_report_submit Role.owner = false
allows Permission.staff_report_submit role = true
allows Permission.staff_report_read role = is_manager role
allows Permission.po_approve role = is_manager role
allows Permission.price_approve role = is_manager role
allows Permission.audit_read role = is_manager role

-- `extraPermissions?.includes(action)`
abbrev permission_code : Permission → ℕ
permission_code Permission.reservation_create = 0
permission_code Permission.reservation_modify = 1
permission_code Permission.reservation_cancel = 2
permission_code Permission.reservation_checkin = 3
permission_code Permission.reservation_checkout = 4
permission_code Permission.payment_record = 5
permission_code Permission.payment_refund = 6
permission_code Permission.housekeeping_assign = 7
permission_code Permission.maintenance_register = 8
permission_code Permission.maintenance_update = 9
permission_code Permission.staff_report_read = 10
permission_code Permission.staff_report_submit = 11
permission_code Permission.po_approve = 12
permission_code Permission.price_approve = 13
permission_code Permission.audit_read = 14

abbrev pub grants : List Permission → Permission → Bool
grants extra action = any (λ p. permission_code p == permission_code action) extra

abbrev is_owner : Role → Bool
is_owner Role.owner = true
is_owner _ = false

unfoldable pub can : Role → List Permission → Permission → Bool
can role extra action = is_owner role || grants extra action || allows action role
