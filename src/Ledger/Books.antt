-- ===== src/Ledger/Books.antt =====
-- The invariant of the folios, line items and payments, and how the writes of a folio keep it.
use hospitality_os.Common.{
  Bool, List, Option-cases, [], arith, if◌then◌else◌, inl, inr, none, some, sym, ℕ, ◌+◌, ◌<◌, ◌==◌,
  ◌∙◌, ◌∷◌, ◌≡◌, ◌≢◌, ◌≤◌, ◌⊎◌,
}
use hospitality_os.Common.Int.{+ℤ-zero, -ℤ-zero, pos, ℤ, ◌+ℤ◌, ◌-ℤ◌}
use hospitality_os.Reservations.Release.{others}
use hospitality_os.Store.{
  Db, Folio, LineItem, Payment, find_by, find_by-cons, find_by-key, find_by-update_by, find_first,
  folio_keyed, update_by,
}

-- the sum of the line items of a folio
abbrev pub charges : ℕ → List LineItem → ℤ
charges i [] = pos 0
charges i (l ∷ ls) = if l.folio_id == i then l.amount +ℤ charges i ls else charges i ls

-- the sum of the payments of a folio, in its own currency
abbrev pub received : ℕ → List Payment → ℤ
received i [] = pos 0
received i (p ∷ ps) = if p.folio_id == i then p.base_amount +ℤ received i ps else received i ps

-- the folio's three totals agree with its line items and its payments
pub record Settled (f : Folio) (lines : List LineItem) (payments : List Payment) : Type 0 where
  pub charged_total : f.total_charges ≡ charges f.id lines
  pub paid_total : f.total_paid ≡ received f.id payments
  pub owed : f.balance ≡ f.total_charges -ℤ f.total_paid

-- no two folios have one id
abbrev pub Distinct : List Folio → Type 0
Distinct [] = Unit {0}
Distinct (f ∷ fs) = (find_by f.id fs ≡ none) × Distinct fs

pub record Books (folios : List Folio) (lines : List LineItem) (payments : List Payment) (next : ℕ)
    : Type 0 where
  pub distinct : Distinct folios
  pub known : (i : ℕ) (f : Folio) → find_by i folios ≡ some f → i < next
  pub settled : (i : ℕ) (f : Folio) → find_by i folios ≡ some f → Settled f lines payments
  pub unused : (i : ℕ) → next ≤ i → (charges i lines ≡ pos 0) × (received i payments ≡ pos 0)

-- every folio of the database is settled
abbrev pub IsBalanced : Db → Type 0
IsBalanced db = Books db.folios db.line_items db.payments db.next_id

find_first-find_by :
    (p : Folio → Bool) (fs : List Folio) (f : Folio)
    → Distinct fs
    → find_first p fs ≡ some f
    → find_by f.id fs ≡ some f
unfolding find_by
find_first-find_by p [] f d e = ground arith
find_first-find_by p (x ∷ fs) f d e = ground (arith, find_first-find_by p fs f d.1)

update_by-Distinct :
    (i : ℕ) (g : Folio → Folio) (fs : List Folio)
    → ((f : Folio) → (g f).id ≡ f.id)
    → Distinct fs
    → Distinct (update_by i g fs)
unfolding update_by
update_by-Distinct i g [] same d = tt
update_by-Distinct i g (x ∷ fs) same d =
    ground (arith, same x, find_by-update_by i x.id g fs same, update_by-Distinct i g fs same d.1)

module _ {fs : List Folio} {ls : List LineItem} {ps : List Payment} {n : ℕ}
    (b : Books fs ls ps n) where
  pub Books-found :
      (p : Folio → Bool) (f : Folio) → find_first p fs ≡ some f → find_by f.id fs ≡ some f
  Books-found p f e = find_first-find_by p fs f b.distinct e

  -- identifiers that are taken for other rows do no harm
  pub Books-later : (m : ℕ) → n ≤ m → Books fs ls ps m
  Books-later m h = record {
    distinct = b.distinct;
    known = λ i f e. omega (arith, b.known i f e);
    settled = b.settled;
    unused = λ i k. b.unused i (omega arith);
  }

  -- one folio is written, by a function that keeps its id
  module _ (f : Folio) (found : find_by f.id fs ≡ some f) (g : Folio → Folio)
      (same : (x : Folio) → (g x).id ≡ x.id) where
    -- a folio that is written: what is found afterwards
    found_after :
        (j : ℕ) (x : Folio)
        → find_by j (update_by f.id g fs) ≡ some x
        → ((j ≡ f.id) × (x ≡ g f)) ⊎ ((j ≢ f.id) × (find_by j fs ≡ some x))
    found_after j x e = ground (arith, find_by-update_by f.id j g fs same)

    kept :
        {ls' : List LineItem} {ps' : List Payment} (x : Folio)
        → Settled x ls ps
        → (charges x.id ls' ≡ charges x.id ls) × (received x.id ps' ≡ received x.id ps)
        → Settled x ls' ps'
    kept x s o = record {
      charged_total = s.charged_total ∙ sym o.0;
      paid_total = s.paid_total ∙ sym o.1;
      owed = s.owed;
    }

    -- the write of one folio with rows that are its own
    pub Books-write :
        (ls' : List LineItem) (ps' : List Payment) (m : ℕ)
        → n ≤ m
        → ((j : ℕ) → j ≢ f.id → (charges j ls' ≡ charges j ls) × (received j ps' ≡ received j ps))
        → (Settled f ls ps → Settled (g f) ls' ps')
        → Books (update_by f.id g fs) ls' ps' m
    Books-write ls' ps' m le others own = record {
      distinct = update_by-Distinct f.id g fs same b.distinct;
      known = λ j x e. elim (found_after j x e) [
        | inl (ej, ex) ↦ omega (arith, b.known f.id f found)
        | inr (ne, ex) ↦ omega (arith, b.known j x ex)
      ];
      settled = λ j x e. elim (found_after j x e) [
        | inl (ej, ex) ↦ rw ex (own (b.settled f.id f found))
        | inr (ne, ex) ↦
            kept x (b.settled j x ex) (others x.id (λ q. ne (sym (find_by-key j fs x ex) ∙ q)))
      ];
      unused = λ j k.
          let o = others j (λ q. absurd (omega (arith, b.known f.id f found))) in
          let u = b.unused j (omega arith) in (o.0 ∙ u.0, o.1 ∙ u.1);
    }

  -- a new folio with its first line item
  pub Books-open :
      (f : Folio) (l : LineItem)
      → f.id ≡ n
      → l.folio_id ≡ n
      → f.total_charges ≡ l.amount
      → f.total_paid ≡ pos 0
      → f.balance ≡ l.amount
      → Books (f ∷ fs) (l ∷ ls) ps (n + 1)
  Books-open f l ef el ec ep eb = record {
    distinct = (fresh, b.distinct);
    known = λ j x e. elim (opened j x e) [
      | inl (ej, ex) ↦ omega arith
      | inr (ne, ex) ↦ omega (arith, b.known j x ex)
    ];
    settled = λ j x e. elim (opened j x e) [
      | inl (ej, ex) ↦ rw ex first
      | inr (ne, ex) ↦
          kept_open x (b.settled j x ex) (omega (arith, b.known j x ex, find_by-key j fs x ex))
    ];
    unused = λ j k. ground (arith, b.unused j (omega arith));
  }
    where
      fresh : find_by f.id fs ≡ none
      fresh = elim (Option-cases (find_by f.id fs)) [
        | inl missing ↦ missing
        | inr (x, e) ↦ absurd (omega (arith, b.known f.id x e))
      ]

      opened :
          (j : ℕ) (x : Folio)
          → find_by j (f ∷ fs) ≡ some x
          → ((j ≡ n) × (x ≡ f)) ⊎ ((j ≢ n) × (find_by j fs ≡ some x))
      opened j x e = ground (arith, find_by-cons j f fs)

      first : Settled f (l ∷ ls) ps
      first = ground (arith, b.unused n (omega arith), +ℤ-zero l.amount, -ℤ-zero l.amount)

      kept_open : (x : Folio) → Settled x ls ps → x.id < n → Settled x (l ∷ ls) ps
      kept_open x s lt = ground (arith, s)
