-- ===== src/Risk/Gate.antt =====
-- internal/risk/gate.go: the rules that an enter signal has to pass.
pub mod Rules
use crypto_swing_bot.Prelude.{
  ℕ, ◌+◌, ◌*◌, Bool, true, false, ◌&&◌, not, Option, none, some, is_some, if◌then◌else◌, ◌>>=◌, ltb,
  leb, ◌==◌, length, or_default,
}
use crypto_swing_bot.Prelude.Dict.{lookup}
use crypto_swing_bot.Float.{Float, Decimal, Convert, positive_or}
use crypto_swing_bot.Domain.{
  Time, hour, is_zero, Signal, SignalKind, enter, Portfolio, Market, exposure,
}
use crypto_swing_bot.Config.{RiskConfig}
use crypto_swing_bot.Risk.Sizer.{
  Reason, max_positions, max_exposure, already_open, cooldown, breaker_open, insufficient_cash,
  market_mismatch, SizeResult, size,
}

-- `size` is `none` for the zero value, where sizing was not reached.
pub record Decision (F D : Type 0) : Type 0 where
  pub signal : Signal F
  pub approved : Bool
  pub reason : Option Reason
  pub size : Option (SizeResult F D)

pub record GateInput (F D : Type 0) : Type 0 where
  pub portfolio : Portfolio F D
  pub market : Market D
  pub now : Time
  pub last_exit_at : Time
  pub breaker_open : Bool

module _ {F D : Type 0} where
  abbrev pub reject : Signal F → Reason → Decision F D
  reject signal reason = record {
    signal = signal;
    approved = false;
    reason = some reason;
    size = none;
  }

  -- What the sizer's answer makes of a signal that passed every rule.
  abbrev pub sized : Signal F → SizeResult F D → Decision F D
  sized signal r =
      if r.accepted
      then record { signal = signal; approved = true; reason = none; size = some r }
      else record { signal = signal; approved = false; reason = r.reason; size = some r }

-- `Now` lies before the end of the cooldown that the last exit began.
unfoldable pub in_cooldown : Time → Time → ℕ → Bool
in_cooldown now last_exit_at hours =
    not (is_zero last_exit_at) && ltb now (last_exit_at + hours * hour)

module _ {F D : Type 0} ⦃f : Float F⦄ ⦃d : Decimal D⦄ ⦃c : Convert F D⦄ where
  open f use {lit, lt, le}
  open c use {to_float}

  -- The smallest order that the exchange takes costs more than the cash.
  unfoldable pub cannot_afford : Portfolio F D → Market D → Bool
  cannot_afford p m = lt (lit 0 0) (to_float m.min_notional) && lt p.cash (to_float m.min_notional)

  -- The first rule that an enter signal breaks, in the order of the code.
  unfoldable pub first_broken : RiskConfig F → Signal F → GateInput F D → Option Reason
  first_broken cfg signal i =
      if not (i.market.symbol == 0) && not (i.market.symbol == signal.symbol)
      then some market_mismatch
      else if i.breaker_open
      then some breaker_open
      else if leb (or_default cfg.max_positions 5) (length i.portfolio.positions)
      then some max_positions
      else if le (positive_or cfg.max_exposure (lit 80 2)) (exposure i.portfolio)
      then some max_exposure
      else if is_some (lookup signal.symbol i.portfolio.positions)
      then some already_open
      else if in_cooldown i.now i.last_exit_at (or_default cfg.cooldown_hours 24)
      then some cooldown
      else if cannot_afford i.portfolio i.market
      then some insufficient_cash
      else none

  -- The rest of `Evaluate`, for an enter signal.
  abbrev pub judge :
      RiskConfig F → RiskConfig F → Signal F → GateInput F D → Option Reason → Option (Decision F D)
  judge cfg sizer_cfg signal i (some reason) = some (reject signal reason)
  judge cfg sizer_cfg signal i none = do
    r ← size sizer_cfg signal i.portfolio i.market
    some (sized signal r)

  abbrev pub evaluate_kind :
      SignalKind → RiskConfig F → RiskConfig F → Signal F → GateInput F D → Option (Decision F D)
  evaluate_kind enter cfg sizer_cfg signal i =
      judge cfg sizer_cfg signal i (first_broken cfg signal i)
  evaluate_kind _ cfg sizer_cfg signal i =
      some (record { signal = signal; approved = true; reason = none; size = none })

  -- The method `Evaluate` of a gate with the settings `cfg` and a sizer with `sizer_cfg`; `none` is
  -- the panic of the sizer.
  unfoldable pub evaluate :
      RiskConfig F → RiskConfig F → Signal F → GateInput F D → Option (Decision F D)
  evaluate cfg sizer_cfg signal i = evaluate_kind signal.kind cfg sizer_cfg signal i
