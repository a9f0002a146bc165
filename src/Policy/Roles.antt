-- ===== src/Policy/Roles.antt =====
-- Who may do what.
use hospitality_os.Common.{List, [], arith, true, ◌||◌, ◌↔◌, ◌≡◌, ◌⊎◌}
use hospitality_os.Enums.{Role}
use hospitality_os.Policy.{Permission, can, grants}

-- The owner may do everything. Anybody else may do what is granted to them and what their role may
-- do without a grant; and that, for a purchase order, a price or the audit log, is for the owner and
-- the manager alone.
pub can_lem :
    (role : Role) (extra : List Permission) (action : Permission)
    → (can Role.owner extra action ≡ true)
      × (can role extra action ≡ (grants extra action || can role [] action))
      × ((can role [] Permission.po_approve ≡ true) ↔ ((role ≡ Role.owner) ⊎ (role ≡ Role.manager)))
      × ((can role [] Permission.price_approve ≡ true)
          ↔ ((role ≡ Role.owner) ⊎ (role ≡ Role.manager)))
      × ((can role [] Permission.audit_read ≡ true) ↔ ((role ≡ Role.owner) ⊎ (role ≡ Role.manager)))
unfolding can
can_lem role extra action = ground arith
