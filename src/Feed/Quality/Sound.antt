-- ===== src/Feed/Quality/Sound.antt =====
-- internal/datafeed/quality.go, ValidateCandles: which bars it passes on, and what it says of the rest.
use crypto_swing_bot.Prelude.{
  ℕ, ◌+◌, ◌≡◌, refl, sym, ◌∙◌, ap, inl, inr, Bool, true, false, ◌&&◌, ◌||◌, not, Bool-cases, none,
  List, [], ◌∷◌, ◌++◌, ltb, leb, keep, length, arith,
}
use crypto_swing_bot.Float.{Float}
use crypto_swing_bot.Domain.{Time, Candle}
use crypto_swing_bot.Feed.Quality.{
  QualityIssue, Checked, is_closed, is_critical, sort_candles, invalid_prices, check_candle,
  check_all, validate_candles, has_gap, warn_if, has_jump, missing_candle, zero_volume,
  outlier_jump, IssueKind,
}
use crypto_swing_bot.Feed.Quality.Order.{
  IsAscending, count, count-sort_candles, length-sort_candles, keep-keep, sort_candles-IsAscending,
  keep-IsAscending,
}

append_assoc : {A : Type 0} (xs ys zs : List A) → (xs ++ ys) ++ zs ≡ xs ++ (ys ++ zs)
append_assoc [] ys zs = refl
append_assoc (x ∷ xs) ys zs = ap (λ l. x ∷ l) (append_assoc xs ys zs)

append_nil : {A : Type 0} (xs : List A) → xs ++ [] ≡ xs
append_nil [] = refl
append_nil (x ∷ xs) = ap (λ l. x ∷ l) (append_nil xs)

-- The issues that reject a bar.
abbrev pub criticals : List QualityIssue → ℕ
criticals issues = length (keep is_critical issues)

criticals-append : (xs ys : List QualityIssue) → criticals (xs ++ ys) ≡ criticals xs + criticals ys
criticals-append [] ys = omega arith
criticals-append (x ∷ xs) ys = ground (arith, criticals-append xs ys)

module _ {F : Type 0} ⦃f : Float F⦄ where
  open f use {lit, lt, eq}

  -- The bar is over at the instant, and no price of it contradicts another.
  abbrev pub is_sound : Time → Time → Candle F → Bool
  is_sound tf now c =
      leb (c.open_time + tf) now
      && (not (lt c.high c.low) && (not (lt c.close c.low) && not (lt c.high c.close)))

  criticals-warn_if : (b : Bool) (c : Candle F) (k : IssueKind) → criticals (warn_if b c k) ≡ 0
  criticals-warn_if true c k = refl
  criticals-warn_if false c k = refl

  accepted_issues :
      (tf : Time) (c : Candle F) (s : Checked F)
      → criticals (
          s.issues
          ++ (warn_if (has_gap tf s.prev c) c missing_candle
              ++ (warn_if (eq c.volume (lit 0 0)) c zero_volume
                  ++ warn_if (has_jump s.prev c) c outlier_jump)))
        ≡ criticals s.issues
  accepted_issues tf c s =
      let a = warn_if (has_gap tf s.prev c) c missing_candle in
      let b = warn_if (eq c.volume (lit 0 0)) c zero_volume in
      let d = warn_if (has_jump s.prev c) c outlier_jump in
      omega (
        arith,
        criticals-append s.issues (a ++ (b ++ d)),
        criticals-append a (b ++ d),
        criticals-append b d,
        criticals-warn_if (has_gap tf s.prev c) c missing_candle,
        criticals-warn_if (eq c.volume (lit 0 0)) c zero_volume,
        criticals-warn_if (has_jump s.prev c) c outlier_jump,
      )

  -- A turn passes a sound bar on, and rejects any other with one critical issue.
  check_candle_sound :
      (tf now : Time) (c : Candle F) (s : Checked F)
      → is_sound tf now c ≡ true
      → ((check_candle tf now c s).clean ≡ s.clean ++ (c ∷ []))
        × (criticals (check_candle tf now c s).issues ≡ criticals s.issues)
  unfolding check_candle is_closed invalid_prices
  check_candle_sound tf now c s h =
      let closed : not (not (ltb now (c.open_time + tf))) ≡ false = ground (arith, h) in
      let valid : ((lt c.high c.low || lt c.close c.low) || lt c.high c.close) ≡ false =
        ground (arith, h) in
      rw (closed, valid) (refl, accepted_issues tf c s)

  check_candle-rejected :
      (tf now : Time) (c : Candle F) (s : Checked F)
      → is_sound tf now c ≡ false
      → ((check_candle tf now c s).clean ≡ s.clean)
        × (criticals (check_candle tf now c s).issues ≡ criticals s.issues + 1)
  unfolding check_candle is_closed invalid_prices
  check_candle-rejected tf now c s h = elim (Bool-cases (is_closed c.open_time tf now)) [
    | inr early ↦ rw early (refl, criticals-append s.issues _)
    | inl over ↦
        let bad : ((lt c.high c.low || lt c.close c.low) || lt c.high c.close) ≡ true =
          ground (arith, h, over) in
        rw (over, bad) (refl, criticals-append s.issues _)
  ]

  check_all_sound :
      (tf now : Time) (cs : List (Candle F)) (s : Checked F)
      → ((check_all tf now cs s).clean ≡ s.clean ++ keep (is_sound tf now) cs)
        × (criticals (check_all tf now cs s).issues + length (keep (is_sound tf now) cs)
            ≡ criticals s.issues + length cs)
  unfolding check_all
  check_all_sound tf now [] s = (sym (append_nil s.clean), refl)
  check_all_sound tf now (c ∷ cs) s =
      let rest = check_all_sound tf now cs (check_candle tf now c s) in
      elim (Bool-cases (is_sound tf now c)) [
        | inl sound ↦
            let here = check_candle_sound tf now c s sound in
            rw sound (
              rest.0
                  ∙ ap (λ l. l ++ keep (is_sound tf now) cs) here.0
                  ∙ append_assoc s.clean (c ∷ []) (keep (is_sound tf now) cs),
              omega (arith, rest.1, here.1),
            )
        | inr bad ↦
            let here = check_candle-rejected tf now c s bad in
            rw bad (
              rest.0 ∙ ap (λ l. l ++ keep (is_sound tf now) cs) here.0,
              omega (arith, rest.1, here.1),
            )
      ]

module _ {F : Type 0} ⦃f : Float F⦄ where
  -- What is passed on is in the order of the open times, and holds every bar that is over and whose
  -- prices do not contradict each other as often as it was given, and no other bar; and there is one
  -- critical issue for each bar that is left out. So nothing is dropped in silence.
  pub validate_candles_sound :
      (tf : Time) (candles : List (Candle F)) (now : Time)
      → IsAscending (validate_candles tf candles now).0
        × ((p : Candle F → Bool)
            → count p (validate_candles tf candles now).0
              ≡ count (λ c. is_sound tf now c && p c) candles)
        × (criticals (validate_candles tf candles now).1
              + length (validate_candles tf candles now).0
            ≡ length candles)
  unfolding validate_candles
  validate_candles_sound tf candles now =
      let sound = is_sound tf now in
      let run =
        check_all_sound tf now (sort_candles candles)
          (record { clean = []; issues = []; prev = none }) in
      (
        rw run.0 (keep-IsAscending sound (sort_candles candles) (sort_candles-IsAscending candles)),
        λ p.
            ap (count p) run.0
            ∙ ap length (keep-keep p sound (sort_candles candles))
            ∙ count-sort_candles (λ c. sound c && p c) candles,
        rw run.0 (omega (arith, run.1, length-sort_candles candles)),
      )
