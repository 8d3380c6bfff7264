-- ===== src/Feed/Quality.antt =====
-- internal/datafeed/quality.go: ValidateCandles and HasCritical; fetcher.go, IsClosed. Without the texts
-- of the issues and what they repeat of the call.
pub mod Order
pub mod Sound
use crypto_swing_bot.Prelude.{
  ℕ, ◌+◌, ◌-◌, Bool, true, false, ◌&&◌, ◌||◌, not, Option, none, some, List, [], ◌∷◌, ◌++◌,
  if◌then◌else◌, ltb, any,
}
use crypto_swing_bot.Float.{Float}
use crypto_swing_bot.Domain.{Time, Candle}

pub data IssueKind : Type 0 where
  missing_candle zero_volume invalid_ohlc outlier_jump future_candle : IssueKind

pub data Severity : Type 0 where
  critical warn : Severity

pub record QualityIssue : Type 0 where
  pub open_time : Time
  pub kind : IssueKind
  pub severity : Severity

-- `clean` and `issues`, and the last accepted bar, `prevOpen` and `prevClose`.
pub record Checked (F : Type 0) : Type 0 where
  pub clean : List (Candle F)
  pub issues : List QualityIssue
  pub prev : Option (Candle F)

-- `IsClosed`
unfoldable pub is_closed : Time → Time → Time → Bool
is_closed open_time tf now = not (ltb now (open_time + tf))

abbrev pub is_critical : QualityIssue → Bool
is_critical i = elim i.severity [ critical ↦ true | warn ↦ false ]

-- `HasCritical`
unfoldable pub has_critical : List QualityIssue → Bool
has_critical issues = any is_critical issues

module _ {F : Type 0} where
  abbrev pub issue : Candle F → IssueKind → Severity → QualityIssue
  issue c kind severity = record { open_time = c.open_time; kind = kind; severity = severity }

  abbrev pub reject : Candle F → IssueKind → Checked F → Checked F
  reject c kind s = record s { issues = s.issues ++ (issue c kind critical ∷ []) }

  abbrev pub warn_if : Bool → Candle F → IssueKind → List QualityIssue
  warn_if false c kind = []
  warn_if true c kind = issue c kind warn ∷ []

  -- `sort.Slice` by the open time; bars of the same time stay in their order.
  unfoldable pub insert_candle : Candle F → List (Candle F) → List (Candle F)
  insert_candle c [] = c ∷ []
  insert_candle c (x ∷ xs) =
      if ltb x.open_time c.open_time then x ∷ insert_candle c xs else c ∷ x ∷ xs

  unfoldable pub sort_candles : List (Candle F) → List (Candle F)
  sort_candles [] = []
  sort_candles (c ∷ cs) = insert_candle c (sort_candles cs)

  -- The time since the last accepted bar is more than a timeframe.
  abbrev pub has_gap : Time → Option (Candle F) → Candle F → Bool
  has_gap tf none c = false
  has_gap tf (some p) c = ltb tf (c.open_time - p.open_time)

module _ {F : Type 0} ⦃f : Float F⦄ where
  open f use {lit, sub, div, neg, lt, le, eq}

  -- `math.Abs`, but for the sign of a zero.
  abbrev pub abs_of : F → F
  abs_of x = if lt x (lit 0 0) then neg x else x

  unfoldable pub invalid_prices : Candle F → Bool
  invalid_prices c = (lt c.high c.low || lt c.close c.low) || lt c.high c.close

  abbrev pub has_jump : Option (Candle F) → Candle F → Bool
  has_jump none c = false
  has_jump (some p) c =
      not (eq p.close (lit 0 0)) && lt (lit 5 1) (abs_of (sub (div c.close p.close) (lit 1 0)))

  -- A bar that is accepted, with its warnings.
  abbrev pub accept : Time → Candle F → Checked F → Checked F
  accept tf c s = record {
    clean = s.clean ++ (c ∷ []);
    issues =
        s.issues
        ++ (warn_if (has_gap tf s.prev c) c missing_candle
            ++ (warn_if (eq c.volume (lit 0 0)) c zero_volume
                ++ warn_if (has_jump s.prev c) c outlier_jump));
    prev = some c;
  }

  -- One turn of the loop.
  unfoldable pub check_candle : Time → Time → Candle F → Checked F → Checked F
  check_candle tf now c s =
      if not (is_closed c.open_time tf now)
      then reject c future_candle s
      else if invalid_prices c
      then reject c invalid_ohlc s
      else accept tf c s

  unfoldable pub check_all : Time → Time → List (Candle F) → Checked F → Checked F
  check_all tf now [] s = s
  check_all tf now (c ∷ cs) s = check_all tf now cs (check_candle tf now c s)

  -- `ValidateCandles`
  unfoldable pub validate_candles :
      Time → List (Candle F) → Time → List (Candle F) × List QualityIssue
  validate_candles tf candles now =
      let s =
        check_all tf now (sort_candles candles) (record { clean = []; issues = []; prev = none }) in
      (s.clean, s.issues)
