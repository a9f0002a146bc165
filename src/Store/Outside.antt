-- ===== src/Store/Outside.antt =====
-- What is left a parameter: the cipher of node's crypto behind CryptoService, upper case, the feed of
-- exchange rates behind FxService, and the expressions in floating-point numbers, whose rounding is
-- the machine's.
use hospitality_os.Common.{Bool, String, ℕ}
use hospitality_os.Common.Int.{ℤ}

pub record External : Type 0 where
  -- `Math.round(price * (1 + value / 100))` in double precision
  pub round_percent : ℤ → ℤ → ℤ
  -- `Math.round((minor / factor(from)) * rate * factor(to))` in double precision
  pub convert : ℤ → String → String → ℕ → ℤ
  -- `FxService.getRate`, a rate as a number of millionths
  pub live_rate : String → String → ℕ
  -- `CryptoService.encrypt` and `decrypt`
  pub encrypt : String → String
  pub decrypt : String → String
  -- `String.prototype.toUpperCase`
  pub upper : String → String
  -- `Math.round((part / whole) * 100)` in double precision
  pub percent_of : ℕ → ℕ → ℕ
  -- the column `at` of a payment, which the database fills in: `@default(now())`
  pub paid_at : ℕ → ℕ
  -- the time at which the guests' handler of a payment runs
  pub heard_at : ℕ → ℕ
  -- `Math.floor(toMajorUnits(amount, currency) * LOYALTY_POINTS_PER_UNIT)` in double precision
  pub points_for : ℤ → String → ℤ
  -- the column `issuedAt` of an invoice, likewise
  pub issued_at : ℕ → ℕ
  -- `Math.round(net - net / (1 + bps / 10000))` in double precision
  pub inclusive_tax : ℤ → ℕ → ℤ
  -- `Math.round(amount * share)` in double precision, the share in thousandths
  pub round_share : ℤ → ℕ → ℤ
  -- `text.toLowerCase().includes(word)`
  pub mentions : String → String → Bool
  -- `r.setMonth(r.getMonth() + n)`, which counts in the time zone of the machine
  pub add_months : ℕ → ℕ → ℕ
  -- a number in a template literal: its decimal digits
  pub digits : ℤ → String
