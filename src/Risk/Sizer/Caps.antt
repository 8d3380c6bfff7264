-- ===== src/Risk/Sizer/Caps.antt =====
-- The trims and the rounding of `size`: sizer.go, Size and floorToStep.
use crypto_swing_bot.Prelude.{
  ◌≡◌, inl, inr, true, false, Bool-cases, some, Option-cases, arith, ◌∙◌,
}
use crypto_swing_bot.Float.{Float, Decimal, Convert, positive_or}
use crypto_swing_bot.Domain.{Signal, Portfolio, Market}
use crypto_swing_bot.Config.{RiskConfig}
use crypto_swing_bot.Risk.Sizer.{SizeResult, floor_to_step, trim, checked, trimmed, size}

-- `Cmp` orders the decimals: `a` is at most `b` where `a.GreaterThan(b)` is false.
pub record IsOrder (D : Type 0) ⦃d : Decimal D⦄ : Type 0 where
  pub at_most_refl : (a : D) → d.greater_than a a ≡ false
  pub at_most_of_greater : (a b : D) → d.greater_than a b ≡ true → d.greater_than b a ≡ false
  pub at_most_trans :
      (a b c : D)
      → d.greater_than a b ≡ false
      → d.greater_than b c ≡ false
      → d.greater_than a c ≡ false

module _ {D : Type 0} ⦃d : Decimal D⦄ where
  open d use {sign_le_zero, greater_than, d_div, d_floor, d_mul}

  -- The two trims of the rounded quantities.
  abbrev pub least : D → D → D → D → D
  least step raw by_position by_cash =
      (trim (trim (floor_to_step raw step) (floor_to_step by_position step)).0
        (floor_to_step by_cash step)).0

  trim_bounds :
      IsOrder D
      → (a b : D) → (greater_than (trim a b).0 a ≡ false) × (greater_than (trim a b).0 b ≡ false)
  unfolding trim
  trim_bounds o a b = ground (arith, o.at_most_refl a, o.at_most_refl b, o.at_most_of_greater a b)

  least_bounds :
      IsOrder D
      → (step a b c : D)
      → (greater_than (least step a b c) (floor_to_step a step) ≡ false)
        × (greater_than (least step a b c) (floor_to_step b step) ≡ false)
        × (greater_than (least step a b c) (floor_to_step c step) ≡ false)
  least_bounds o step a b c =
      let x = floor_to_step a step in
      let y = floor_to_step b step in
      let z = floor_to_step c step in
      let (xy_x, xy_y) = trim_bounds o x y in
      let (all_xy, all_z) = trim_bounds o (trim x y).0 z in
      (o.at_most_trans _ _ _ all_xy xy_x, o.at_most_trans _ _ _ all_xy xy_y, all_z)

  least_step :
      (step a b c : D)
      → sign_le_zero step ≡ false
      → (q : D) × (least step a b c ≡ d_mul (d_floor q) step)
  unfolding trim floor_to_step
  least_step step a b c st =
      elim (Bool-cases (
        greater_than (trim (floor_to_step a step) (floor_to_step b step)).0
          (floor_to_step c step))) [
            | inl capped ↦ (d_div c step, ground arith)
            | inr fits ↦
                elim (Bool-cases (greater_than (floor_to_step a step) (floor_to_step b step))) [
                  | inl capped ↦ (d_div b step, ground arith)
                  | inr fits' ↦ (d_div a step, ground arith)
                ]
          ]

module _ {F D : Type 0} ⦃f : Float F⦄ ⦃d : Decimal D⦄ ⦃c : Convert F D⦄ where
  open f use {lit, sub, mul, div, le}
  open d use {sign_le_zero, greater_than, d_floor, d_mul}
  open c use {new_from_float}

  abbrev pub IsCapped : RiskConfig F → Signal F → Portfolio F D → Market D → SizeResult F D → Type 0
  IsCapped cfg s p m r =
      (raw by_position by_cash : D) × (new_from_float (
          div (mul p.equity (positive_or cfg.risk_per_trade (lit 1 2)))
            (sub s.ref_price s.stop_price))
        ≡ some raw)
      × (new_from_float
            (div (mul p.equity (positive_or cfg.max_position_pct (lit 25 2))) s.ref_price)
          ≡ some by_position)
      × (new_from_float (div p.cash s.ref_price) ≡ some by_cash)
      × (greater_than r.qty (floor_to_step raw m.step_size) ≡ false)
      × (greater_than r.qty (floor_to_step by_position m.step_size) ≡ false)
      × (greater_than r.qty (floor_to_step by_cash m.step_size) ≡ false)

  module _ (cfg : RiskConfig F) (s : Signal F) (p : Portfolio F D) (m : Market D) where
    accepted_qty :
        (r : SizeResult F D)
        → size cfg s p m ≡ some r
        → r.accepted ≡ true
        → (raw by_position by_cash : D) × (new_from_float (
              div
                (mul p.equity (positive_or cfg.risk_per_trade (lit 1 2)))
                (sub s.ref_price s.stop_price))
            ≡ some raw)
          × (new_from_float
                (div (mul p.equity (positive_or cfg.max_position_pct (lit 25 2))) s.ref_price)
              ≡ some by_position)
          × (new_from_float (div p.cash s.ref_price) ≡ some by_cash)
          × (r.qty ≡ least m.step_size raw by_position by_cash)
    unfolding size trimmed checked
    accepted_qty r h a =
        elim (Option-cases (
          new_from_float (
            div (mul p.equity (positive_or cfg.risk_per_trade (lit 1 2)))
              (sub s.ref_price s.stop_price)))) [
                | inl e₁ ↦ absurd (ground arith)
                | inr (raw, e₁) ↦
                    elim (Option-cases (
                      new_from_float (
                        div (mul p.equity (positive_or cfg.max_position_pct (lit 25 2)))
                          s.ref_price))) [
                            | inl e₂ ↦ absurd (ground arith)
                            | inr (by_position, e₂) ↦
                                elim (Option-cases (new_from_float (div p.cash s.ref_price))) [
                                  | inl e₃ ↦ absurd (ground arith)
                                  | inr (by_cash, e₃) ↦
                                      (raw, by_position, by_cash, e₁, e₂, e₃, ground arith)
                                ]
                          ]
              ]

    -- An accepted quantity is at most each of three: the risk budget over the stop distance, the
    -- share of the equity that one position may take and what the cash buys, each rounded to the step.
    pub size_caps :
        (r : SizeResult F D)
        → IsOrder D
        → size cfg s p m ≡ some r
        → r.accepted ≡ true
        → IsCapped cfg s p m r
    size_caps r o h a =
        let (raw, by_position, by_cash, e₁, e₂, e₃, e) = accepted_qty r h a in
        let (x, y, z) = least_bounds o m.step_size raw by_position by_cash in
        (raw, by_position, by_cash, e₁, e₂, e₃, rw e x, rw e y, rw e z)

    -- With a positive step an accepted quantity is a whole number of steps.
    pub size_step :
        (r : SizeResult F D)
        → size cfg s p m ≡ some r
        → r.accepted ≡ true
        → sign_le_zero m.step_size ≡ false
        → (q : D) × (r.qty ≡ d_mul (d_floor q) m.step_size)
    size_step r h a st =
        let (raw, by_position, by_cash, e₁, e₂, e₃, e) = accepted_qty r h a in
        let (q, whole) = least_step m.step_size raw by_position by_cash st in (q, e ∙ whole)
