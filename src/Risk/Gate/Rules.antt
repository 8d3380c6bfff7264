-- ===== src/Risk/Gate/Rules.antt =====
-- The rules of `evaluate` against their specification: gate.go, Gate.Evaluate.
use crypto_swing_bot.Prelude.{
  ◌+◌, ◌*◌, ◌≤◌, ◌<◌, ◌≡◌, ◌≢◌, refl, ◌⊎◌, inl, inr, ◌↔◌, true, false, none, some, arith, length,
  or_default, Option-cases,
}
use crypto_swing_bot.Prelude.Dict.{lookup}
use crypto_swing_bot.Float.{Float, Decimal, Convert, positive_or}
use crypto_swing_bot.Domain.{hour, Signal, SignalKind, enter, exposure}
use crypto_swing_bot.Config.{RiskConfig}
use crypto_swing_bot.Risk.Sizer.{Reason, SizeResult, size}
use crypto_swing_bot.Risk.Sizer.Outcome.{size_outcome}
use crypto_swing_bot.Risk.Gate.{
  Decision, GateInput, in_cooldown, cannot_afford, first_broken, evaluate, evaluate_kind,
}

module _ {F D : Type 0} ⦃f : Float F⦄ ⦃d : Decimal D⦄ ⦃c : Convert F D⦄ where
  open f use {lit, lt, le}
  open c use {to_float}

  -- The table of rules: each line is one rule, in no order.
  pub record Passes (cfg : RiskConfig F) (s : Signal F) (i : GateInput F D) : Type 0 where
    pub right_market : (i.market.symbol ≡ 0) ⊎ (i.market.symbol ≡ s.symbol)
    pub breaker_closed : i.breaker_open ≡ false
    pub room : length i.portfolio.positions < or_default cfg.max_positions 5
    pub exposed_less : le (positive_or cfg.max_exposure (lit 80 2)) (exposure i.portfolio) ≡ false
    pub not_held : lookup s.symbol i.portfolio.positions ≡ none
    pub cooled :
        (i.last_exit_at ≡ 0) ⊎ (i.last_exit_at + or_default cfg.cooldown_hours 24 * hour ≤ i.now)
    pub affordable :
        (lt (lit 0 0) (to_float i.market.min_notional) ≡ false)
        ⊎ (lt i.portfolio.cash (to_float i.market.min_notional) ≡ false)

  first_broken-Passes :
      (cfg : RiskConfig F) (s : Signal F) (i : GateInput F D)
      → first_broken cfg s i ≡ none
      → Passes cfg s i
  unfolding first_broken in_cooldown cannot_afford
  first_broken-Passes cfg s i h = ground arith

  first_broken-none :
      (cfg : RiskConfig F) (s : Signal F) (i : GateInput F D)
      → Passes cfg s i
      → first_broken cfg s i ≡ none
  unfolding first_broken in_cooldown cannot_afford
  first_broken-none cfg s i h = ground arith

  -- The sizer accepts the signal, and its answer is the one that the decision carries.
  abbrev pub IsSizedBy : RiskConfig F → Signal F → GateInput F D → Decision F D → Type 0
  IsSizedBy sizer_cfg s i z =
      (r : SizeResult F D) × (size sizer_cfg s i.portfolio i.market ≡ some r)
      × (r.accepted ≡ true)
      × (z.size ≡ some r)

  module _ (cfg sizer_cfg : RiskConfig F) (s : Signal F) (i : GateInput F D) where
    -- An enter signal that the gate judges is approved exactly if it passes every rule of the table
    -- and the sizer accepts it; the decision then carries the sizer's answer.
    pub evaluate-approved_iff :
        {z : Decision F D}
        → s.kind ≡ enter
        → evaluate cfg sizer_cfg s i ≡ some z
        → (z.approved ≡ true) ↔ (Passes cfg s i × IsSizedBy sizer_cfg s i z)
    unfolding evaluate
    evaluate-approved_iff {z} k h = elim (Option-cases (first_broken cfg s i)) [
      | inl passed ↦ elim (Option-cases (size sizer_cfg s i.portfolio i.market)) [
        | inl panic ↦ absurd (ground arith)
        | inr (r, e) ↦ (
          λ a. (first_broken-Passes cfg s i passed, (r, e, ground arith, ground arith)),
          λ both. ground arith,
        )
      ]
      | inr (reason, broken) ↦ (
        λ a. absurd (ground arith),
        λ both. absurd (ground (arith, first_broken-none cfg s i both.0)),
      )
    ]

    -- Any decision is about the signal that was asked about, and carries a reason exactly if it is a
    -- rejection.
    pub evaluate-reason_iff :
        {z : Decision F D}
        → evaluate cfg sizer_cfg s i ≡ some z
        → (z.signal ≡ s) × ((z.approved ≡ false) ↔ (z.reason ≢ none))
    unfolding evaluate
    evaluate-reason_iff {z} h = elim (Option-cases (size sizer_cfg s i.portfolio i.market)) [
      | inl panic ↦ ground arith
      | inr (r, e) ↦ elim (size_outcome sizer_cfg s i.portfolio i.market r e) [
        | inl refusal ↦ ground arith
        | inr order ↦ ground arith
      ]
    ]

    -- While the breaker is open the gate still answers every signal: it approves those that reduce
    -- risk, and no enter signal.
    pub evaluate_breaker :
        i.breaker_open ≡ true
        → (z : Decision F D) × (evaluate cfg sizer_cfg s i ≡ some z)
          × ((z.approved ≡ true) ↔ (s.kind ≢ enter))
    unfolding evaluate
    evaluate_breaker o = elim (Option-cases (first_broken cfg s i)) [
      | inl passed ↦ absurd (ground (arith, first_broken-Passes cfg s i passed))
      | inr (reason, broken) ↦ by_kind s.kind refl reason broken
    ]
      where
        by_kind :
            (k : SignalKind)
            → s.kind ≡ k
            → (reason : Reason) → first_broken cfg s i ≡ some reason
            → (z : Decision F D) × (evaluate_kind k cfg sizer_cfg s i ≡ some z)
              × ((z.approved ≡ true) ↔ (s.kind ≢ enter))
        by_kind enter k reason broken = (
          record { signal = s; approved = false; reason = some reason; size = none },
          rw broken,
          ground arith,
        )
        by_kind _ k reason broken =
            (record { signal = s; approved = true; reason = none; size = none }, refl, ground arith)
