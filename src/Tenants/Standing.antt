-- ===== src/Tenants/Standing.antt =====
-- An active hotel is approved, an approved hotel has a plan, and a hotel that is invoiced is approved.
use hospitality_os.Common.{
  ==_iff, Bool, Bool-cases, String, any, arith, false, inl, inr, refl, some, true, ℕ, ◌==◌, ◌||◌,
  ◌∙◌, ◌≡◌, ◌⊎◌,
}
use hospitality_os.Store.{
  Action, Actor, Db, Error, Hotel, Keeps, SubInvoice, find_by, fresh_id, hotel_keyed, or_throw-then,
  plan_keyed, record_audit, ◌>>=◌,
}
use hospitality_os.Tenants.{must_find, update_hotel}
use hospitality_os.Tenants.Served.{served}
use hospitality_os.Tenants.Unique.{found_after, unique_ids, unique_ids-update_by}

abbrev pub is_of : ℕ → SubInvoice → Bool
is_of h inv = inv.hotel_id == h

abbrev pub nobody : ℕ → Bool
nobody h = false

abbrev pub or_hotel : ℕ → (ℕ → Bool) → ℕ → Bool
or_hotel h licensed j = h == j || licensed j

-- the standing of the hotels, and that the hotels of a set are approved
pub record AllServed (licensed : ℕ → Bool) (db : Db) : Type 0 where
  pub unique : unique_ids db.hotels ≡ true
  pub each : (i : ℕ) (x : Hotel) → find_by i db.hotels ≡ some x → served x ≡ true
  pub approved :
      (i : ℕ) (x : Hotel)
      → licensed i || any (is_of i) db.sub_invoices ≡ true
      → find_by i db.hotels ≡ some x
      → x.approved ≡ true

module _ (q : ℕ → Bool) where
  pub update_hotel-AllServed :
      (h : ℕ) (g : Hotel → Hotel) (db : Db)
      → ((x : Hotel) → (g x).id ≡ x.id)
      → ((x : Hotel) → find_by h db.hotels ≡ some x → served x ≡ true → served (g x) ≡ true)
      → ((x : Hotel) → x.approved ≡ true → (g x).approved ≡ true)
      → AllServed q db
      → AllServed q (update_hotel h g db).1
  update_hotel-AllServed h g db key keeps stays all = record {
    unique = unique_ids-update_by h g db.hotels key ∙ all.unique;
    each = λ j x e. elim (found_after h j g db.hotels x key e) [
      | inl before ↦ all.each j x before
      | inr (same_id, (y, found, same)) ↦ rw same (keeps y found (all.each h y found))
    ];
    approved = λ j x l e. elim (found_after h j g db.hotels x key e) [
      | inl before ↦ all.approved j x l before
      | inr (same_id, (y, found, same)) ↦ rw same (stays y (all.approved h y (rw same_id l) found))
    ];
  }

  -- writes of the invoices that name no other hotel
  pub invoices-AllServed :
      (db db' : Db)
      → db'.hotels ≡ db.hotels
      → ((h : ℕ)
          → any (is_of h) db'.sub_invoices ≡ true
          → (q h ≡ true) ⊎ (any (is_of h) db.sub_invoices ≡ true))
      → AllServed q db
      → AllServed q db'
  invoices-AllServed db db' same old all = record {
    unique = rw same all.unique;
    each = λ i x e. all.each i x (rw same at e);
    approved = λ i x l e.
        all.approved i x
          (elim (Bool-cases (q i)) [
            | inl is ↦ rw is refl
            | inr other ↦ elim (old i (ground (arith, l, other))) [
              | inl is ↦ absurd (ground (arith, is, other))
              | inr before ↦ rw (other, before) refl
            ]
          ])
          (rw same at e);
  }

  pub record_audit-AllServed :
      (actor : Actor) (action entity : String) (i : ℕ)
      → Keeps (AllServed q) (record_audit actor action entity i)
  record_audit-AllServed actor action entity i db all = record {
    unique = all.unique;
    each = all.each;
    approved = all.approved;
  }

  pub fresh_id-AllServed : Keeps (AllServed q) fresh_id
  fresh_id-AllServed db all = record {
    unique = all.unique;
    each = all.each;
    approved = all.approved;
  }

  pub must_find-then :
      (h : ℕ) {A : Type 0} (f : Hotel → Action A) (db : Db)
      → AllServed q db
      → ((x : Hotel) → find_by h db.hotels ≡ some x → AllServed q (f x db).1)
      → AllServed q ((must_find h >>= f) db).1
  unfolding ◌>>=◌
  must_find-then h f db all found =
      or_throw-then (λ r. AllServed q r.1) (find_by h db.hotels) Error.not_found f db all found

  -- one hotel more, and one less
  pub license :
      (h : ℕ) (db : Db)
      → ((x : Hotel) → find_by h db.hotels ≡ some x → x.approved ≡ true)
      → AllServed q db
      → AllServed (or_hotel h q) db
  license h db ok_h all = record {
    unique = all.unique;
    each = all.each;
    approved = λ i x l e. elim (Bool-cases (h == i)) [
      | inl same ↦ ok_h x (rw ((==_iff h i).0 same) e)
      | inr other ↦ all.approved i x (rw other at l) e
    ];
  }

  pub unlicense : (h : ℕ) (db : Db) → AllServed (or_hotel h q) db → AllServed q db
  unlicense h db all = record {
    unique = all.unique;
    each = all.each;
    approved = λ i x l e. all.approved i x (ground (arith, l)) e;
  }
