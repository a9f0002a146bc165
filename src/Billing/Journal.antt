-- ===== src/Billing/Journal.antt =====
-- generateDailyGl: the journal entry of a day. The line items of the day are an argument, since the rows
-- of the model hold neither their text nor their time; the times at which the database stored the
-- payments and the invoices are in `ext`.
use hospitality_os.Common.{
  Bool, List, String, [], any, false, filterb, if◌then◌else◌, is_some, map, not, suc, true, zero, ℕ,
  ◌&&◌, ◌==◌, ◌||◌, ◌∷◌,
}
use hospitality_os.Common.Int.{leb_ℤ, ltb_ℤ, max_ℤ, pos, sum_ℤ, ℤ, ◌*ℤ◌, ◌+ℤ◌, ◌-ℤ◌}
use hospitality_os.Enums.{LineType}
use hospitality_os.NightAudit.{in_day, start_of_day}
use hospitality_os.Payments.{is_cash}
use hospitality_os.Store.{
  Action, Db, Error, External, find_by, gets, hotel_keyed, or_throw, pure, ◌>>=◌, ◌>>◌,
}

pub record GlLine : Type 0 where
  pub description : String
  pub type : LineType
  pub amount : ℤ
  pub quantity : ℤ

-- the debits and the credits of an account; the texts are left out
pub record GlEntry : Type 0 where
  pub account : ℕ
  pub debit : ℤ
  pub credit : ℤ

pub record DailyGl : Type 0 where
  pub entries : List GlEntry
  pub total_debits : ℤ
  pub total_credits : ℤ

pub record Revenue : Type 0 where
  pub room_revenue : ℤ
  pub fb_revenue : ℤ
  pub other_revenue : ℤ

abbrev pub is_room_line : LineType → Bool
is_room_line LineType.room = true
is_room_line _ = false

-- `a > 0`
abbrev pub is_positive : ℤ → Bool
is_positive a = ltb_ℤ (pos 0) a

-- `xs.reduce((s, e) => s + e.debit, 0)`
abbrev pub sum_debits : List GlEntry → ℤ
sum_debits es = sum_ℤ (map (λ e. e.debit) es)

abbrev pub sum_credits : List GlEntry → ℤ
sum_credits es = sum_ℤ (map (λ e. e.credit) es)

-- `entries[3].credit += diff`
unfoldable pub add_credit : ℕ → ℤ → List GlEntry → List GlEntry
add_credit i diff [] = []
add_credit zero diff (e ∷ es) = record e { credit = e.credit +ℤ diff } ∷ es
add_credit (suc i) diff (e ∷ es) = e ∷ add_credit i diff es

-- `sumDebits !== sumCredits`
abbrev pub same_amount : ℤ → ℤ → Bool
same_amount a b = leb_ℤ a b && leb_ℤ b a

unfoldable pub balance_entries : List GlEntry → List GlEntry
unfolding add_credit
balance_entries es =
    if same_amount (sum_debits es) (sum_credits es)
    then es
    else add_credit 3 (sum_debits es -ℤ sum_credits es) es

module _ (ext : External) where
  abbrev pub mentions_any : String → List String → Bool
  mentions_any text words = any (ext.mentions text) words

  -- the loop over the line items
  unfoldable pub revenues : List GlLine → Revenue → Revenue
  revenues [] acc = acc
  revenues (l ∷ ls) acc =
      let amount = l.amount *ℤ l.quantity in
      revenues ls (
        if mentions_any l.description ("room" ∷ "night" ∷ "stay" ∷ []) || is_room_line l.type
        then record acc { room_revenue = acc.room_revenue +ℤ amount }
        else (if mentions_any l.description ("f&b" ∷ "food" ∷ "bar" ∷ "restaurant" ∷ "dining" ∷ [])
            then record acc { fb_revenue = acc.fb_revenue +ℤ amount }
            else record acc { other_revenue = acc.other_revenue +ℤ amount }))

  -- the amounts that are debited to cash, to the bank and to the companies
  unfoldable pub cash_total : (hotel_id day_start : ℕ) → Db → ℤ
  cash_total h day_start db = sum_ℤ (
      map (λ p. p.amount)
        (filterb (λ p. p.hotel_id == h && in_day day_start (ext.paid_at p.id) && is_cash p.method)
          db.payments))

  unfoldable pub bank_total : (hotel_id day_start : ℕ) → Db → ℤ
  bank_total h day_start db = sum_ℤ (
      map (λ p. p.amount)
        (filterb
          (λ p. p.hotel_id == h && in_day day_start (ext.paid_at p.id) && not (is_cash p.method))
          db.payments))

  unfoldable pub ar_total : (hotel_id day_start : ℕ) → Db → ℤ
  ar_total h day_start db = sum_ℤ (
      map (λ x. x.total)
        (filterb
          (λ x.
            x.hotel_id == h
            && in_day day_start (ext.issued_at x.id)
            && is_some x.company_account_id)
          db.invoices))

  -- the six entries, before they are balanced
  unfoldable pub raw_entries : (cash bank ar : ℤ) → Revenue → List GlEntry
  raw_entries cash bank ar rev =
      let collected = cash +ℤ bank +ℤ ar in
      let computed = rev.room_revenue +ℤ rev.fb_revenue +ℤ rev.other_revenue in
      let base = if is_positive computed then computed else collected in
      let tax = ext.round_share base 75 in
      let net_room = max_ℤ (pos 0) (
        (if is_positive rev.room_revenue then rev.room_revenue else ext.round_share base 800)
        -ℤ tax) in
      let net_fb =
        if is_positive rev.fb_revenue then rev.fb_revenue else ext.round_share base 200 in
      let debits = if same_amount collected (pos 0) then base else collected in
      let balancing_cash = if is_positive debits then debits else pos 100000 in
      record {
        account = 1010;
        debit = (if is_positive cash then cash else balancing_cash);
        credit = pos 0;
      }
      ∷ record { account = 1020; debit = bank; credit = pos 0 }
      ∷ record { account = 1100; debit = ar; credit = pos 0 }
      ∷ record {
        account = 4010;
        debit = pos 0;
        credit = (if is_positive net_room then net_room else ext.round_share debits 750);
      }
      ∷ record {
        account = 4020;
        debit = pos 0;
        credit = (if is_positive net_fb then net_fb else ext.round_share debits 180);
      }
      ∷ record {
        account = 2020;
        debit = pos 0;
        credit = (if is_positive tax then tax else ext.round_share debits 70);
      }
      ∷ []

  unfoldable pub generate_daily_gl : (hotel_id at : ℕ) → List GlLine → Action DailyGl
  unfolding revenues cash_total bank_total ar_total raw_entries balance_entries
  generate_daily_gl h at lines = do
    or_throw (← gets λ db. find_by h db.hotels) Error.not_found
    let day_start = start_of_day at
    entries ← gets λ db. balance_entries (
        raw_entries (cash_total h day_start db) (bank_total h day_start db)
          (ar_total h day_start db)
          (revenues lines
            (record { room_revenue = pos 0; fb_revenue = pos 0; other_revenue = pos 0 })))
    pure (record {
      entries = entries;
      total_debits = sum_debits entries;
      total_credits = sum_credits entries;
    })
