-- ===== src/Procurement/Receipt.antt =====
-- A receipt of goods, and the approvals over every call of the procurement.
-- stock that is received leaves the orders alone
use hospitality_os.Common.{
  Bool, List, Option, ap, arith, false, none, not, refl, some, sym, true, ℕ, ◌∙◌, ◌≡◌,
}
use hospitality_os.Common.Int.{ℤ}
use hospitality_os.Enums.{MovementType}
use hospitality_os.Inventory.{move, move_item}
use hospitality_os.Procurement.{
  approve, draft_from_low_stock, draft_po, is_receivable, receive, receive_item, receive_items,
  received_po, send, submit_for_approval, update_po,
}
use hospitality_os.Procurement.Approval.{
  Approvals, Authorised, approve-Approvals, audited_write, draft_po-Approvals, get_po-then,
  low_stock-Approvals, send-Approvals, submit_for_approval-Approvals,
}
use hospitality_os.Store.{
  Action, Actor, Db, Error, Keeps, Keeps-for_each, PoItem, PurchaseOrder, bind-then, err, keeping,
  ok, record_audit, throw_if-then, ◌>>◌,
}

abbrev Same : List PurchaseOrder → Db → Type 0
Same orders db = db.purchase_orders ≡ orders

move-Same :
    (orders : List PurchaseOrder) (actor : Actor) (i : ℕ) (type : MovementType) (q : ℤ)
    → Keeps (Same orders) (move actor i type q)
unfolding move move_item
move-Same orders actor i type q = search (keeping) depth 20

receive_item-Same :
    (orders : List PurchaseOrder) (actor : Actor) (item : PoItem) (o : Option ℕ)
    → Keeps (Same orders) (receive_item actor item o)
receive_item-Same orders actor item none = λ db e. e
receive_item-Same orders actor item (some i) = search (keeping, move-Same) depth 12

received-carries :
    (now : ℕ) (partial : Bool) (po : PurchaseOrder)
    → is_receivable po.status ≡ true
    → Authorised po
    → Authorised (received_po now partial po)
received-carries now true po e a = ground (arith, e, a)
received-carries now false po e a = ground (arith, e, a)

received-id :
    (now : ℕ) (partial : Bool) (po : PurchaseOrder) → (received_po now partial po).id ≡ po.id
received-id now true po = refl
received-id now false po = refl

receive-Approvals :
    (now : ℕ) (actor : Actor) (i : ℕ) (partial : Bool)
    → Keeps Approvals (receive now actor i partial)
unfolding receive
receive-Approvals now actor i partial = get_po-then actor.hotel_id i _ (λ po d found a.
    throw_if-then (λ r. Approvals r.1) (not (is_receivable po.status)) Error.bad_request
      (receive_items actor po.items >> write) d a
      (λ refused.
        bind-then (λ r. Approvals r.1) (receive_items actor po.items) (λ _. write) d
          (λ _ d' e.
            audited_write actor i (received_po now partial) "po.receive" po d'
              (rw (same po d d' e) found) (received-id now partial)
              (received-carries now partial po (ground (arith, refused))) (rw (same po d d' e) a))
          (λ x d' e. rw (thrown po d d' x e) a)))
  where
    write : Action (Unit {0})
    write =
        update_po i (received_po now partial) >> record_audit actor "po.receive" "PurchaseOrder" i

    left :
        (po : PurchaseOrder) (d : Db)
        → (receive_items actor po.items d).1.purchase_orders ≡ d.purchase_orders
    left po d =
        Keeps-for_each (Same d.purchase_orders)
          (λ item. receive_item actor item item.inventory_item_id) po.items
          (λ item. receive_item-Same d.purchase_orders actor item item.inventory_item_id) d refl

    same :
        (po : PurchaseOrder) (d d' : Db)
        → receive_items actor po.items d ≡ (ok tt, d')
        → d'.purchase_orders ≡ d.purchase_orders
    same po d d' e = sym (ap (λ r. r.1.purchase_orders) e) ∙ left po d

    thrown :
        (po : PurchaseOrder) (d d' : Db) (x : Error)
        → receive_items actor po.items d ≡ (err x, d')
        → d'.purchase_orders ≡ d.purchase_orders
    thrown po d d' x e = sym (ap (λ r. r.1.purchase_orders) e) ∙ left po d

-- If every purchase order that is approved, sent or received has the time of its approval, then this
-- is so after a draft, a draft from low stock, a submission, an approval, a dispatch and a receipt,
-- whether the call returns or throws.
pub procurement-Approvals :
    (actor : Actor) (now i supplier : ℕ) (unit : ℤ) (items : List PoItem) (partial : Bool) (db : Db)
    → Approvals db
    → Approvals (draft_po actor supplier items db).1
      × Approvals (draft_from_low_stock unit actor supplier db).1
      × Approvals (submit_for_approval actor i db).1
      × Approvals (approve now actor i db).1
      × Approvals (send actor i db).1
      × Approvals (receive now actor i partial db).1
procurement-Approvals actor now i supplier unit items partial db all = (
  draft_po-Approvals actor supplier items db all,
  low_stock-Approvals unit actor supplier db all,
  submit_for_approval-Approvals actor i db all,
  approve-Approvals now actor i db all,
  send-Approvals actor i db all,
  receive-Approvals now actor i partial db all,
)
