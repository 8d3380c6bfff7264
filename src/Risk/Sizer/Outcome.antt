-- ===== src/Risk/Sizer/Outcome.antt =====
-- What `size` answers: sizer.go, SizeResult and Size.
use crypto_swing_bot.Prelude.{
  ◌≡◌, ◌≢◌, ◌⊎◌, inl, inr, ◌↔◌, Bool, true, false, Bool-cases, none, some, arith, ◌&&◌, ◌||◌,
}
use crypto_swing_bot.Float.{Float, Decimal, Convert, positive_or}
use crypto_swing_bot.Domain.{Signal, Portfolio, Market}
use crypto_swing_bot.Config.{RiskConfig}
use crypto_swing_bot.Risk.Sizer.{SizeResult, checked, trimmed, size}

module _ {F D : Type 0} ⦃f : Float F⦄ ⦃d : Decimal D⦄ ⦃c : Convert F D⦄ where
  open f use {lit, sub, mul, div, lt, le}
  open d use {d_zero, sign_le_zero}
  open c use {new_from_float, to_float}

  -- What a refusal looks like: a reason, and no quantity to misread.
  pub record IsRefusal (r : SizeResult F D) : Type 0 where
    pub not_accepted : r.accepted ≡ false
    pub no_qty : r.qty ≡ d_zero
    pub no_notional : r.notional ≡ lit 0 0
    pub no_risk : r.risk_amount ≡ lit 0 0
    pub some_reason : r.reason ≢ none

  -- What an accepted order promises of its quantity, its price and its stop.
  pub record IsSized (signal : Signal F) (m : Market D) (r : SizeResult F D) : Type 0 where
    pub is_accepted : r.accepted ≡ true
    pub no_reason : r.reason ≡ none
    pub positive_qty : sign_le_zero r.qty ≡ false
    pub notional_eq : r.notional ≡ mul (to_float r.qty) signal.ref_price
    pub risk_eq : r.risk_amount ≡ mul (to_float r.qty) (sub signal.ref_price signal.stop_price)
    pub above_min :
        (lt (lit 0 0) (to_float m.min_notional) ≡ false)
        ⊎ (lt r.notional (to_float m.min_notional) ≡ false)
    pub entry_ok : le signal.ref_price (lit 0 0) ≡ false
    pub stop_ok : le (sub signal.ref_price signal.stop_price) (lit 0 0) ≡ false

  -- The entry and the stop are accepted, and one of the quantities that `Size` converts is no finite
  -- number: the risk budget over the stop distance, or the share of one position or the cash over
  -- the entry.
  abbrev pub Unconvertible : RiskConfig F → Signal F → Portfolio F D → Type 0
  Unconvertible cfg s p =
      (le s.ref_price (lit 0 0) ≡ false)
      × (le (sub s.ref_price s.stop_price) (lit 0 0) ≡ false)
      × ((new_from_float (
              div (mul p.equity (positive_or cfg.risk_per_trade (lit 1 2)))
                (sub s.ref_price s.stop_price))
            ≡ none)
          ⊎ (new_from_float
                (div (mul p.equity (positive_or cfg.max_position_pct (lit 25 2))) s.ref_price)
              ≡ none)
          ⊎ (new_from_float (div p.cash s.ref_price) ≡ none))

  module _ (cfg : RiskConfig F) (s : Signal F) (p : Portfolio F D) (m : Market D) where
    checked_cases :
        (qty : D) (by_cash by_pct : Bool)
        → le s.ref_price (lit 0 0) ≡ false
        → le (sub s.ref_price s.stop_price) (lit 0 0) ≡ false
        → let r = checked m s.ref_price (sub s.ref_price s.stop_price) qty by_cash by_pct in
          IsRefusal r ⊎ IsSized s m r
    unfolding checked
    checked_cases qty by_cash by_pct he hs = elim (Bool-cases (sign_le_zero qty)) [
      | inl zero ↦ inl (ground arith)
      | inr pos ↦
          elim (Bool-cases (
            lt (lit 0 0) (to_float m.min_notional)
            && lt (mul (to_float qty) s.ref_price) (to_float m.min_notional))) [
              | inl small ↦ inl (ground arith)
              | inr big ↦ inr (ground arith)
            ]
    ]

    trimmed_cases :
        (raw by_position by_cash : D)
        → le s.ref_price (lit 0 0) ≡ false
        → le (sub s.ref_price s.stop_price) (lit 0 0) ≡ false
        → let r = trimmed m s.ref_price (sub s.ref_price s.stop_price) raw by_position by_cash in
          IsRefusal r ⊎ IsSized s m r
    unfolding trimmed
    trimmed_cases raw by_position by_cash he hs = checked_cases _ _ _ he hs

    -- Whatever `Size` answers is either a refusal that carries a reason and no quantity, or an
    -- order with a positive quantity, with the notional and the amount at risk of that quantity,
    -- not below the exchange's minimum and with a stop below a positive entry.
    pub size_outcome : (r : SizeResult F D) → size cfg s p m ≡ some r → IsRefusal r ⊎ IsSized s m r
    unfolding size
    size_outcome r h =
        elim (Bool-cases
          (le s.ref_price (lit 0 0) || le (sub s.ref_price s.stop_price) (lit 0 0))) [
            | inl bad ↦ inl (ground arith)
            | inr good ↦ grind (arith, trimmed_cases)
          ]

    -- `Size` panics exactly if the entry and the stop are accepted and one of the three quantities
    -- is no finite number.
    pub size-none_iff : (size cfg s p m ≡ none) ↔ Unconvertible cfg s p
    unfolding size
    size-none_iff = ground arith
