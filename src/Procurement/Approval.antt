-- ===== src/Procurement/Approval.antt =====
-- Nothing is sent to a supplier, and nothing is received, that was not approved.
use hospitality_os.Common.{
  Bool, Bool-cases, List, Option, String, arith, false, inl, inr, is_some, none, not, refl, some,
  true, ℕ, ◌==◌, ◌∷◌, ◌≡◌, ◌≢◌, ◌⊎◌,
}
use hospitality_os.Common.Int.{ℤ}
use hospitality_os.Enums.{PoStatus, Role}
use hospitality_os.Policy.{can}
use hospitality_os.Procurement.{
  approve, approved_po, draft_from_low_stock, draft_po, get_po, is_approvable, is_approved,
  is_draft, items_total, may_approve, po_status, send, submit_for_approval, update_po,
}
use hospitality_os.Store.{
  Action, Actor, Db, Error, Keeps, PoItem, PurchaseOrder, err, find_by, find_by-cons,
  find_by-update_by, find_own, find_own-found, keeping, modify, or_throw-then, purchase_order_keyed,
  record_audit, throw_if, throw_if-then, update_by, ◌>>=◌, ◌>>◌,
}

-- the statuses after the approval
abbrev pub is_past_approval : PoStatus → Bool
is_past_approval PoStatus.approved = true
is_past_approval PoStatus.sent = true
is_past_approval PoStatus.partially_received = true
is_past_approval PoStatus.received = true
is_past_approval _ = false

-- an order past its approval has the time of the approval
abbrev pub Authorised : PurchaseOrder → Type 0
Authorised po = (is_past_approval po.status ≡ false) ⊎ (is_some po.approved_at ≡ true)

pub record AllAuthorised (orders : List PurchaseOrder) : Type 0 where
  pub authorised : (i : ℕ) (po : PurchaseOrder) → find_by i orders ≡ some po → Authorised po

abbrev pub Approvals : Db → Type 0
Approvals db = AllAuthorised db.purchase_orders

-- a write of the order that was found
write-Authorised :
    (i : ℕ) (g : PurchaseOrder → PurchaseOrder) (po : PurchaseOrder) (orders : List PurchaseOrder)
    → find_by i orders ≡ some po
    → ((x : PurchaseOrder) → (g x).id ≡ x.id)
    → (Authorised po → Authorised (g po))
    → AllAuthorised orders
    → AllAuthorised (update_by i g orders)
write-Authorised i g po orders e ids carries all = record {
  authorised = λ j x ex. elim (Bool-cases (i == j)) [
    | inl same ↦ rw (written j x ex same) (carries (all.authorised i po e))
    | inr other ↦ all.authorised j x (ground (arith, ex, other, find_by-update_by i j g orders ids))
  ];
}
  where
    written :
        (j : ℕ) (x : PurchaseOrder)
        → find_by j (update_by i g orders) ≡ some x
        → (i == j) ≡ true
        → x ≡ g po
    written j x ex same = ground (arith, e, ex, same, find_by-update_by i j g orders ids)

-- what is done with an order that was found
pub get_po-then :
    {A : Type 0} (h i : ℕ) (f : PurchaseOrder → Action A)
    → ((po : PurchaseOrder) (db : Db)
        → find_by i db.purchase_orders ≡ some po
        → Approvals db
        → Approvals (f po db).1)
    → Keeps Approvals (get_po h i >>= f)
unfolding ◌>>=◌
get_po-then h i f each db all =
    or_throw-then (λ r. Approvals r.1) (find_own h i db.purchase_orders) Error.not_found f db all
      (λ po e. let found = find_own-found h i db.purchase_orders po e in each po db found.0 all)

pub draft_po-Approvals :
    (actor : Actor) (supplier : ℕ) (items : List PoItem)
    → Keeps Approvals (draft_po actor supplier items)
unfolding draft_po
draft_po-Approvals actor supplier items = search (keeping, new_draft) depth 20
  where
    new_draft :
        (i supplier : ℕ)
        → Keeps Approvals (
            modify λ db. record db {
              purchase_orders =
                  record {
                    id = i;
                    hotel_id = actor.hotel_id;
                    supplier_id = supplier;
                    items = items;
                    total = items_total items;
                    status = PoStatus.draft;
                    drafted_by_type = actor.type;
                    approved_by_id = none;
                    approved_at = none;
                    received_at = none;
                  }
                  ∷ db.purchase_orders;
            })
    new_draft i supplier db all = record {
      authorised = λ j x ex. ground (
        arith,
        ex,
        all.authorised j x,
        find_by-cons j
            (record {
              id = i;
              hotel_id = actor.hotel_id;
              supplier_id = supplier;
              items = items;
              total = items_total items;
              status = PoStatus.draft;
              drafted_by_type = actor.type;
              approved_by_id = none;
              approved_at = none;
              received_at = none;
            })
            db.purchase_orders,
      );
    }

pub submit_for_approval-Approvals :
    (actor : Actor) (i : ℕ) → Keeps Approvals (submit_for_approval actor i)
unfolding submit_for_approval
submit_for_approval-Approvals actor i = get_po-then actor.hotel_id i _ (λ po db found all.
    throw_if-then (λ r. Approvals r.1) (not (is_draft po.status)) Error.bad_request
      (update_po i (po_status PoStatus.pending_approval)) db all
      (λ _.
        write-Authorised i (po_status PoStatus.pending_approval) po db.purchase_orders found
          (λ x. refl) (λ _. inl refl) all))

pub send-Approvals : (actor : Actor) (i : ℕ) → Keeps Approvals (send actor i)
unfolding send
send-Approvals actor i = get_po-then actor.hotel_id i _ (λ po db found all.
    throw_if-then (λ r. Approvals r.1) (not (is_approved po.status)) Error.bad_request
      (update_po i (po_status PoStatus.sent)) db all
      (λ ready.
        write-Authorised i (po_status PoStatus.sent) po db.purchase_orders found (λ x. refl)
          (λ a. ground (arith, a, ready)) all))

pub low_stock-Approvals :
    (unit : ℤ) (actor : Actor) (supplier : ℕ)
    → Keeps Approvals (draft_from_low_stock unit actor supplier)
unfolding draft_from_low_stock
low_stock-Approvals unit actor supplier = search (keeping, draft_po-Approvals) depth 16

-- the write of a found order, and the audit row after it
pub audited_write :
    (actor : Actor) (i : ℕ) (g : PurchaseOrder → PurchaseOrder) (action : String)
    (po : PurchaseOrder) (db : Db)
    → find_by i db.purchase_orders ≡ some po
    → ((x : PurchaseOrder) → (g x).id ≡ x.id)
    → (Authorised po → Authorised (g po))
    → Approvals db
    → Approvals ((update_po i g >> record_audit actor action "PurchaseOrder" i) db).1
unfolding ◌>>=◌
audited_write actor i g action po db found ids carries all =
    write-Authorised i g po db.purchase_orders found ids carries all

pub approve-Approvals : (now : ℕ) (actor : Actor) (i : ℕ) → Keeps Approvals (approve now actor i)
unfolding approve
approve-Approvals now actor i db all =
    throw_if-then (λ r. Approvals r.1) (not (may_approve actor.role)) Error.forbidden
      (get_po actor.hotel_id i >>= λ po.
        throw_if (not (is_approvable po.status)) Error.bad_request
        >> (update_po i (approved_po now actor.id)
            >> record_audit actor "po.approve" "PurchaseOrder" i))
      db all
      (λ _.
        get_po-then actor.hotel_id i _
          (λ po d found a.
            throw_if-then (λ r. Approvals r.1) (not (is_approvable po.status)) Error.bad_request
              (update_po i (approved_po now actor.id)
                >> record_audit actor "po.approve" "PurchaseOrder" i)
              d a
              (λ _.
                audited_write actor i (approved_po now actor.id) "po.approve" po d found (λ x. refl)
                  (λ _. inr refl) a))
          db all)

-- Only the owner and the manager approve: a call by any other role, or by an actor without one,
-- throws and changes nothing.
pub approve_forbidden :
    (now : ℕ) (actor : Actor) (i : ℕ) (db : Db)
    → actor.role ≢ some Role.owner
    → actor.role ≢ some Role.manager
    → approve now actor i db ≡ (err Error.forbidden, db)
unfolding approve can ◌>>=◌
approve_forbidden now actor i db no_owner no_manager =
    rw (refused actor.role no_owner no_manager) refl
  where
    refused :
        (role : Option Role)
        → role ≢ some Role.owner
        → role ≢ some Role.manager
        → may_approve role ≡ false
    refused role a b = ground arith
