-- ===== src/Reservations/Sweep.antt =====
-- A job reads the rows that a test picks, and then writes them one by one: what each write leaves for
-- the next.
use hospitality_os.Common.{
  ==_iff, ==_refl, Bool, Bool-cases, List, [], any, ap, arith, false, filterb, head_eq,
  if◌then◌else◌, inl, inr, not, refl, some, sym, tail_eq, true, ℕ, ◌&&◌, ◌==◌, ◌∷◌, ◌≡◌,
}
use hospitality_os.Reservations.Offer.{or_false}
use hospitality_os.Store.{Reservation, find_by, reservation_keyed, update_by, update_many}

-- the primary key: no two rows have the same identifier
unfoldable pub distinct_ids : List Reservation → Bool
distinct_ids [] = true
distinct_ids (x ∷ xs) = not (any (λ y. y.id == x.id) xs) && distinct_ids xs

both_true : (a b : Bool) → (a && b) ≡ true → (a ≡ true) × (b ≡ true)
both_true a b h = ground arith

negated : (a : Bool) → not a ≡ true → a ≡ false
negated a h = ground arith

any-picked :
    (p q : Reservation → Bool) (r : Reservation) (rs rest : List Reservation)
    → filterb p rs ≡ r ∷ rest
    → any q rs ≡ false
    → q r ≡ false
any-picked p q r [] rest e h = ground arith
any-picked p q r (x ∷ rs) rest e h =
    let parts = or_false (q x) (any q rs) h in
    elim (Bool-cases (p x)) [
      | inl mine ↦ rw (head_eq x r (filterb p rs) rest (rw mine at e)) at parts.0
      | inr other ↦ any-picked p q r rs rest (rw other at e) parts.1
    ]

pub update_by-absent :
    (i : ℕ) (g : Reservation → Reservation) (rs : List Reservation)
    → any (λ y. y.id == i) rs ≡ false
    → update_by i g rs ≡ rs
unfolding update_by
update_by-absent i g [] h = refl
update_by-absent i g (x ∷ rs) h =
    let parts = or_false (x.id == i) (any (λ y. y.id == i) rs) h in
    rw (parts.0, update_by-absent i g rs parts.1) refl

pub distinct_ids-update_by :
    (i : ℕ) (g : Reservation → Reservation) (rs : List Reservation)
    → ((x : Reservation) → (g x).id ≡ x.id)
    → distinct_ids (update_by i g rs) ≡ distinct_ids rs
unfolding distinct_ids update_by
distinct_ids-update_by i g [] ids = refl
distinct_ids-update_by i g (x ∷ rs) ids =
    rw (kept, any-ids x.id rs, distinct_ids-update_by i g rs ids) refl
  where
    kept : (if x.id == i then g x else x).id ≡ x.id
    kept = ground (arith, ids x)

    any-ids :
        (j : ℕ) (ys : List Reservation)
        → any (λ y. y.id == j) (update_by i g ys) ≡ any (λ y. y.id == j) ys
    any-ids j [] = refl
    any-ids j (y ∷ ys) = ground (arith, ids y, any-ids j ys)

eq_sym : (i j : ℕ) → (i == j) ≡ false → (j == i) ≡ false
eq_sym i j h = ground arith

module _ (p : Reservation → Bool) (g : Reservation → Reservation) where
  pub head_found :
      (r : Reservation) (rs rest : List Reservation)
      → filterb p rs ≡ r ∷ rest
      → distinct_ids rs ≡ true
      → find_by r.id rs ≡ some r
  unfolding find_by distinct_ids
  head_found r [] rest e d = ground arith
  head_found r (x ∷ rs) rest e d =
      let parts = both_true _ (distinct_ids rs) d in
      elim (Bool-cases (p x)) [
        | inl mine ↦
            rw (sym (head_eq x r (filterb p rs) rest (rw mine at e))) (rw (==_refl x.id) refl)
        | inr other ↦
            let later = rw other at e in
            let apart = any-picked p (λ y. y.id == x.id) r rs rest later (negated _ parts.0) in
            rw (eq_sym r.id x.id apart) (head_found r rs rest later parts.1)
      ]

  -- the first row that the test picks, once it no longer holds of it
  pub head_gone :
      (r : Reservation) (rs rest : List Reservation)
      → ((x : Reservation) → p (g x) ≡ false)
      → filterb p rs ≡ r ∷ rest
      → distinct_ids rs ≡ true
      → (filterb p (update_by r.id g rs) ≡ rest)
        × (update_many p g (update_by r.id g rs) ≡ update_many p g rs)
  unfolding update_by distinct_ids
  head_gone r [] rest gone e d = ground arith
  head_gone r (x ∷ rs) rest gone e d =
      let parts = both_true _ (distinct_ids rs) d in
      elim (Bool-cases (p x)) [
        | inl mine ↦
            let later = rw mine at e in
            let same = ap (λ a. a.id) (head_eq x r (filterb p rs) rest later) in
            let absent = negated (any (λ y. y.id == r.id) rs) (rw same at parts.0) in
            let matched = (==_iff x.id r.id).1 same in
            rw (matched, gone x, update_by-absent r.id g rs absent, mine)
              (tail_eq x r (filterb p rs) rest later, refl)
        | inr other ↦
            let later = rw other at e in
            let apart = any-picked p (λ y. y.id == x.id) r rs rest later (negated _ parts.0) in
            rw (eq_sym r.id x.id apart, other)
              (let ih = head_gone r rs rest gone later parts.1 in (ih.0, ap (λ l. x ∷ l) ih.1))
      ]

  pub none_left : (rs : List Reservation) → filterb p rs ≡ [] → update_many p g rs ≡ rs
  none_left [] e = refl
  none_left (x ∷ rs) e = elim (Bool-cases (p x)) [
    | inl mine ↦ absurd (ground (arith, rw mine at e))
    | inr other ↦ rw (other, none_left rs (rw other at e)) refl
  ]
