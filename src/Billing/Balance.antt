-- ===== src/Billing/Balance.antt =====
-- The journal entry of a day balances, and what it debits.
use hospitality_os.Billing.Journal.{
  DailyGl, GlEntry, GlLine, Revenue, add_credit, ar_total, balance_entries, bank_total, cash_total,
  generate_daily_gl, is_positive, raw_entries, revenues, same_amount, sum_credits, sum_debits,
}
use hospitality_os.Common.{
  Bool-cases, List, [], ap, arith, false, inl, inr, length, refl, some, suc, sym, true, zero, ℕ,
  ◌<◌, ◌∙◌, ◌∷◌, ◌≡◌, ◌⊎◌,
}
use hospitality_os.Common.Int.{+ℤ-zero, +ℤ_assoc, eq_of_parts, int_laws, pos, ℤ, ◌+ℤ◌, ◌-ℤ◌}
use hospitality_os.NightAudit.{start_of_day}
use hospitality_os.Store.{Db, External, Hotel, find_by, hotel_keyed, ok, ◌>>=◌}

sum_credits-add :
    (i : ℕ) (diff : ℤ) (es : List GlEntry)
    → i < length es
    → sum_credits (add_credit i diff es) ≡ sum_credits es +ℤ diff
unfolding add_credit
sum_credits-add i diff [] lt = absurd (omega (arith, lt))
sum_credits-add zero diff (e ∷ es) lt = omega int_laws
sum_credits-add (suc i) diff (e ∷ es) lt =
    ap (λ x. e.credit +ℤ x) (sum_credits-add i diff es (omega (arith, lt)))
    ∙ sym (+ℤ_assoc e.credit (sum_credits es) diff)

sum_debits-add :
    (i : ℕ) (diff : ℤ) (es : List GlEntry) → sum_debits (add_credit i diff es) ≡ sum_debits es
unfolding add_credit
sum_debits-add i diff [] = refl
sum_debits-add zero diff (e ∷ es) = refl
sum_debits-add (suc i) diff (e ∷ es) = ap (λ x. e.debit +ℤ x) (sum_debits-add i diff es)

same_amount-eq : (a b : ℤ) → same_amount a b ≡ true → a ≡ b
same_amount-eq a b e = ground (arith, eq_of_parts a b)

add_back : (a b : ℤ) → b +ℤ (a -ℤ b) ≡ a
add_back a b = omega int_laws

balanced :
    (es : List GlEntry)
    → 3 < length es
    → (sum_credits (balance_entries es) ≡ sum_debits (balance_entries es))
      × (sum_debits (balance_entries es) ≡ sum_debits es)
unfolding balance_entries
balanced es lt = elim (Bool-cases (same_amount (sum_debits es) (sum_credits es))) [
  | inl same ↦ rw same (sym (same_amount-eq (sum_debits es) (sum_credits es) same), refl)
  | inr other ↦
      let diff = sum_debits es -ℤ sum_credits es in
      let kept = sum_debits-add 3 diff es in
      rw other
        (sum_credits-add 3 diff es lt ∙ add_back (sum_debits es) (sum_credits es) ∙ sym kept, kept)
]

zeros : (a b c : ℤ) → a +ℤ (b +ℤ (c +ℤ (pos 0 +ℤ (pos 0 +ℤ (pos 0 +ℤ pos 0))))) ≡ a +ℤ b +ℤ c
zeros a b c =
    rw (+ℤ-zero (pos 0), +ℤ-zero (pos 0), +ℤ-zero (pos 0), +ℤ-zero c) (sym (+ℤ_assoc a b c))

positive-not_zero : (a : ℤ) → is_positive a ≡ true → same_amount a (pos 0) ≡ false
positive-not_zero a e = ground arith

module _ (ext : External) (rev : Revenue) (a b c : ℤ) where
  raw_debits-cash : is_positive a ≡ true → sum_debits (raw_entries ext a b c rev) ≡ a +ℤ b +ℤ c
  unfolding raw_entries
  raw_debits-cash e = rw e (zeros a b c)

  raw_debits-none :
      is_positive a ≡ false
      → is_positive (a +ℤ b +ℤ c) ≡ true
      → sum_debits (raw_entries ext a b c rev) ≡ a +ℤ b +ℤ c +ℤ b +ℤ c
  unfolding raw_entries
  raw_debits-none e p = rw (e, positive-not_zero (a +ℤ b +ℤ c) p, p) (zeros (a +ℤ b +ℤ c) b c)

  raw-length : length (raw_entries ext a b c rev) ≡ 6
  unfolding raw_entries
  raw-length = refl

module _ (ext : External) (h at : ℕ) (lines : List GlLine) (db : Db) where
  abbrev gl_entries : List GlEntry
  gl_entries =
      raw_entries ext (cash_total ext h (start_of_day at) db)
        (bank_total ext h (start_of_day at) db) (ar_total ext h (start_of_day at) db)
        (revenues ext lines
          (record { room_revenue = pos 0; fb_revenue = pos 0; other_revenue = pos 0 }))

  abbrev gl_result : DailyGl
  gl_result =
      let es = balance_entries gl_entries in
      record { entries = es; total_debits = sum_debits es; total_credits = sum_credits es }

  generate-result :
      (hotel : Hotel)
      → find_by h db.hotels ≡ some hotel
      → generate_daily_gl ext h at lines db ≡ (ok gl_result, db)
  unfolding generate_daily_gl ◌>>=◌
  generate-result hotel e = rw e refl

  -- The journal entry of a day of a hotel that is found balances to the penny, whatever was paid and
  -- charged and however the shares are rounded, and the call only reads. Where something was paid in
  -- cash, the debits are the payments and the invoices of companies of the day. Where nothing was
  -- and there are others, the debits count these others twice, once of them as cash.
  pub generate_daily_gl_lem :
      (hotel : Hotel)
      → find_by h db.hotels ≡ some hotel
      → let cash = cash_total ext h (start_of_day at) db in
        let bank = bank_total ext h (start_of_day at) db in
        let ar = ar_total ext h (start_of_day at) db in
        (gl : DailyGl) × (generate_daily_gl ext h at lines db ≡ (ok gl, db))
        × (gl.total_credits ≡ gl.total_debits)
        × ((is_positive cash ≡ false) ⊎ (gl.total_debits ≡ cash +ℤ bank +ℤ ar))
        × ((is_positive cash ≡ true)
            ⊎ (is_positive (cash +ℤ bank +ℤ ar) ≡ false)
            ⊎ (gl.total_debits ≡ cash +ℤ bank +ℤ ar +ℤ bank +ℤ ar))
  generate_daily_gl_lem hotel e =
      let cash = cash_total ext h (start_of_day at) db in
      let bank = bank_total ext h (start_of_day at) db in
      let ar = ar_total ext h (start_of_day at) db in
      let rev =
        revenues ext lines
          (record { room_revenue = pos 0; fb_revenue = pos 0; other_revenue = pos 0 }) in
      let sums = balanced gl_entries (omega (arith, raw-length ext rev cash bank ar)) in
      (
        gl_result,
        generate-result hotel e,
        sums.0,
        elim (Bool-cases (is_positive cash)) [
          | inl p ↦ inr (sums.1 ∙ raw_debits-cash ext rev cash bank ar p)
          | inr n ↦ inl n
        ],
        elim (Bool-cases (is_positive cash)) [
          | inl p ↦ inl p
          | inr n ↦ elim (Bool-cases (is_positive (cash +ℤ bank +ℤ ar))) [
            | inl q ↦ inr (inr (sums.1 ∙ raw_debits-none ext rev cash bank ar n q))
            | inr q ↦ inr (inl q)
          ]
        ],
      )
