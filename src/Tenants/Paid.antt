-- ===== src/Tenants/Paid.antt =====
-- The payment of an invoice, whose hotel is approved.
-- the hotels of the invoices do not change when an invoice is written
use hospitality_os.Common.{
  ==_iff, Bool, Bool-cases, List, Option, String, [], any, arith, false, if◌then◌else◌, inl, inr,
  none, refl, some, str_eq, true, ℕ, ◌==◌, ◌∷◌, ◌≡◌,
}
use hospitality_os.PlatformBilling.{
  is_paid_invoice, mark_paid, paid_invoice, reinstated, settle_invoice, settle_reported,
}
use hospitality_os.Store.{
  Action, Db, Error, External, Keeps, Keeps-bind, Keeps-gets, SubInvoice, find_by, find_first, gets,
  keeping, modify, or_throw-then, pure, sub_invoice_keyed, update_by, update_many, ◌>>=◌,
}
use hospitality_os.Tenants.{update_hotel}
use hospitality_os.Tenants.Licensed.{same_licensed}
use hospitality_os.Tenants.Served.{reinstated-approved, reinstated-id, served-reinstated}
use hospitality_os.Tenants.Standing.{
  AllServed, invoices-AllServed, is_of, license, or_hotel, record_audit-AllServed, unlicense,
  update_hotel-AllServed,
}

is_of-update_by :
    (h i : ℕ) (g : SubInvoice → SubInvoice) (xs : List SubInvoice)
    → ((x : SubInvoice) → (g x).hotel_id ≡ x.hotel_id)
    → any (is_of h) (update_by i g xs) ≡ any (is_of h) xs
unfolding update_by
is_of-update_by h i g [] same = refl
is_of-update_by h i g (x ∷ xs) same = ground (arith, same x, is_of-update_by h i g xs same)

pub is_of-update_many :
    (h : ℕ) (p : SubInvoice → Bool) (g : SubInvoice → SubInvoice) (xs : List SubInvoice)
    → ((x : SubInvoice) → (g x).hotel_id ≡ x.hotel_id)
    → any (is_of h) (update_many p g xs) ≡ any (is_of h) xs
is_of-update_many h p g [] same = refl
is_of-update_many h p g (x ∷ xs) same = ground (arith, same x, is_of-update_many h p g xs same)

is_of-found :
    (i : ℕ) (xs : List SubInvoice) (inv : SubInvoice)
    → find_by i xs ≡ some inv
    → any (is_of inv.hotel_id) xs ≡ true
unfolding find_by
is_of-found i [] inv e = absurd (ground (arith, e))
is_of-found i (x ∷ xs) inv e = elim (Bool-cases (x.id == i)) [
  | inl same ↦ ground (arith, e, same, (==_iff inv.hotel_id inv.hotel_id).1 refl)
  | inr other ↦ ground (arith, is_of-found i xs inv (rw other at e))
]

module _ (q : ℕ → Bool) (ext : External) where
  -- the payment of an invoice whose hotel is approved
  settle_invoice-AllServed :
      (licensed : ℕ → Bool) (now : ℕ) (by : Option ℕ) (inv : SubInvoice) (reference : Option String)
      (method : String)
      → licensed inv.hotel_id ≡ true
      → Keeps (AllServed licensed) (settle_invoice ext now by inv reference method)
  unfolding settle_invoice
  settle_invoice-AllServed licensed now by inv reference method ok_h =
      Keeps-bind (AllServed licensed)
        (modify λ db. record db {
          sub_invoices = update_by inv.id (paid_invoice now reference method) db.sub_invoices;
        })
        _
        (λ d a.
          invoices-AllServed licensed d
            (record d {
              sub_invoices = update_by inv.id (paid_invoice now reference method) d.sub_invoices;
            })
            refl
            (λ h e. inr (
              rw
                (is_of-update_by h inv.id (paid_invoice now reference method) d.sub_invoices
                  (λ x. refl))
                at e))
            a)
        λ _.
          Keeps-bind (AllServed licensed) (update_hotel inv.hotel_id (reinstated ext inv)) _
            (λ d a.
              update_hotel-AllServed licensed inv.hotel_id (reinstated ext inv) d
                (reinstated-id ext inv)
                (λ x e s.
                  served-reinstated ext inv x s (a.approved inv.hotel_id x (rw ok_h refl) e))
                (reinstated-approved ext inv) a)
            λ _. search (keeping, record_audit-AllServed licensed)

  settle_found-AllServed :
      (now : ℕ) (by : Option ℕ) (inv : SubInvoice) (reference : Option String) (method : String)
      (db : Db)
      → any (is_of inv.hotel_id) db.sub_invoices ≡ true
      → AllServed q db
      → AllServed q (settle_invoice ext now by inv reference method db).1
  settle_found-AllServed now by inv reference method db listed all = unlicense q inv.hotel_id _ (
      settle_invoice-AllServed (or_hotel inv.hotel_id q) now by inv reference method
        (same_licensed inv.hotel_id q) db
        (license q inv.hotel_id db (λ x e. all.approved inv.hotel_id x (ground (arith, listed)) e)
          all))

  pub mark_paid-AllServed :
      (now : ℕ) (by : Option ℕ) (i : ℕ) (reference : Option String) (method : String)
      → Keeps (AllServed q) (mark_paid ext now by i reference method)
  unfolding mark_paid ◌>>=◌
  mark_paid-AllServed now by i reference method db all =
      or_throw-then (λ r. AllServed q r.1) (find_by i db.sub_invoices) Error.not_found
        (λ inv. choose inv (is_paid_invoice inv.status)) db all
        λ inv found. paid_or_not inv (is_paid_invoice inv.status) found
    where
      choose : SubInvoice → Bool → Action SubInvoice
      choose inv c = if c then pure inv else settle_invoice ext now by inv reference method

      paid_or_not :
          (inv : SubInvoice) (c : Bool)
          → find_by i db.sub_invoices ≡ some inv
          → AllServed q (choose inv c db).1
      paid_or_not inv true found = all
      paid_or_not inv false found =
          settle_found-AllServed now by inv reference method db
            (is_of-found i db.sub_invoices inv found) all

  pub settle_reported-AllServed :
      (now : ℕ) (success : Bool) (reference : Option String) (provider : String)
      → Keeps (AllServed q) (settle_reported ext now success reference provider)
  unfolding settle_reported
  settle_reported-AllServed now false reference provider = λ db a. a
  settle_reported-AllServed now true none provider = λ db a. a
  settle_reported-AllServed now true (some reference) provider =
      Keeps-bind (AllServed q) (gets find) _ (Keeps-gets (AllServed q) find) each
    where
      find : Db → Option SubInvoice
      find db =
          find_first (λ x. elim x.reference [ none ↦ false | some r ↦ str_eq r reference ])
            db.sub_invoices

      one : SubInvoice → Bool → Action (Unit {0})
      one inv c =
          if c
          then pure tt
          else mark_paid ext now none inv.id (some reference) provider >>= λ _. pure tt

      one_kept : (inv : SubInvoice) (c : Bool) → Keeps (AllServed q) (one inv c)
      one_kept inv true = λ d a. a
      one_kept inv false =
          Keeps-bind (AllServed q) (mark_paid ext now none inv.id (some reference) provider)
            (λ _. pure tt) (mark_paid-AllServed now none inv.id (some reference) provider)
            (λ _ d a. a)

      each :
          (o : Option SubInvoice)
          → Keeps
              (AllServed q)
              (elim o [ none ↦ pure tt | some inv ↦ one inv (is_paid_invoice inv.status) ])
      each none = λ d a. a
      each (some inv) = one_kept inv (is_paid_invoice inv.status)
