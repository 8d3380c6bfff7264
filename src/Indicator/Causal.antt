-- ===== src/Indicator/Causal.antt =====
-- No indicator reads the future: with more bars at the end, the values that were there stay.
use crypto_swing_bot.Prelude.{
  ℕ, zero, suc, ◌+◌, ◌-◌, ◌≤◌, ◌≡◌, refl, ap, inl, inr, ℤ, pos, negsuc, false, Bool-cases, List, [],
  ◌∷◌, ◌++◌, ltb, length, drop, length-append, arith,
}
use crypto_swing_bot.Float.{Float}
use crypto_swing_bot.Domain.{Candle}
use crypto_swing_bot.Indicator.Slice.{value_at-append}
use crypto_swing_bot.Indicator.Extends.{
  Extends, cons-Extends, take-append_le, drop-append_le, all_nan-Extends, guarded-Extends,
}
use crypto_swing_bot.Indicator.Average.{
  sma, sma_loop, follow, seeded, ema, range_loop, true_range, atr, std_dev, window_loop, roc,
  roc_loop,
}
use crypto_swing_bot.Indicator.Oscillator.{rsi, rsi_loop, changes, changes_from}

module _ {F : Type 0} ⦃f : Float F⦄ where
  follow-Extends :
      (step : F → F → F) (last : F) (v w : List F)
      → Extends (follow step last (v ++ w)) (follow step last v)
  unfolding follow
  follow-Extends step last [] w = (_, refl)
  follow-Extends step last (x ∷ v) w =
      cons-Extends (step last x) _ _ (follow-Extends step (step last x) v w)

  seeded-Extends :
      (step : F → F → F) (v w : List F) (n : ℕ)
      → Extends (seeded step (v ++ w) (suc n)) (seeded step v (suc n))
  seeded-Extends step v w n = guarded-Extends (suc n) (suc n - 1) v w _ _ (omega arith) λ fits.
      rw (take-append_le (suc n) v w fits, drop-append_le (suc n) v w fits)
        (cons-Extends _ _ _ (follow-Extends step _ (drop (suc n) v) w))

  sma_loop-Extends :
      (v w : List F) (n i : ℕ) (sum : F) (rest : List F)
      → i + length rest ≡ length v
      → Extends (sma_loop (v ++ w) (suc n) i sum (rest ++ w)) (sma_loop v (suc n) i sum rest)
  unfolding sma_loop
  sma_loop-Extends v w n i sum [] h = (_, refl)
  sma_loop-Extends v w n i sum (x ∷ rest) h =
      rw (value_at-append v w (i - suc n) (omega arith))
        (cons-Extends _ _ _ (sma_loop-Extends v w n (suc i) _ rest (omega arith)))

  roc_loop-Extends :
      (os os' xs xs' : List F)
      → length xs ≤ length os
      → Extends (roc_loop (os ++ os') (xs ++ xs')) (roc_loop os xs)
  unfolding roc_loop
  roc_loop-Extends [] os' [] xs' h = (_, refl)
  roc_loop-Extends [] os' (x ∷ xs) xs' h = absurd (omega arith)
  roc_loop-Extends (o ∷ os) os' [] xs' h = (_, refl)
  roc_loop-Extends (o ∷ os) os' (x ∷ xs) xs' h =
      cons-Extends _ _ _ (roc_loop-Extends os os' xs xs' (omega arith))

  window_loop-Extends : (n : ℕ) (v w : List F) → Extends (window_loop n (v ++ w)) (window_loop n v)
  unfolding window_loop
  window_loop-Extends n [] w = (_, refl)
  window_loop-Extends n (x ∷ v) w = elim (Bool-cases (ltb (length (x ∷ v)) n)) [
    | inl short ↦ rw short (_, refl)
    | inr long ↦
        let fits : n ≤ length (x ∷ v) = ground arith in
        let long' : ltb (length (x ∷ v ++ w)) n ≡ false = ground (arith, length-append v w) in
        rw (long, long', take-append_le n (x ∷ v) w fits)
          (cons-Extends _ _ _ (window_loop-Extends n v w))
  ]

  changes_from-Extends :
      (last : F) (v w : List F) → Extends (changes_from last (v ++ w)) (changes_from last v)
  unfolding changes_from
  changes_from-Extends last [] w = (_, refl)
  changes_from-Extends last (x ∷ v) w = cons-Extends _ _ _ (changes_from-Extends x v w)

  changes-Extends : (v w : List F) → Extends (changes (v ++ w)) (changes v)
  unfolding changes
  changes-Extends [] w = (_, refl)
  changes-Extends (x ∷ v) w = changes_from-Extends x v w

  range_loop-Extends :
      (before : Candle F) (v w : List (Candle F))
      → Extends (range_loop before (v ++ w)) (range_loop before v)
  unfolding range_loop
  range_loop-Extends before [] w = (_, refl)
  range_loop-Extends before (x ∷ v) w = cons-Extends _ _ _ (range_loop-Extends x v w)

  true_range-Extends : (v w : List (Candle F)) → Extends (true_range (v ++ w)) (true_range v)
  unfolding true_range
  true_range-Extends [] w = (_, refl)
  true_range-Extends (x ∷ v) w = cons-Extends _ _ _ (range_loop-Extends x v w)

  rsi_loop-Extends :
      (n : ℕ) (v w : List F) (g l : F) → Extends (rsi_loop n g l (v ++ w)) (rsi_loop n g l v)
  unfolding rsi_loop
  rsi_loop-Extends n [] w g l = (_, refl)
  rsi_loop-Extends n (d ∷ v) w g l = cons-Extends _ _ _ (rsi_loop-Extends n v w _ _)

  length-changes_from : (last : F) (v : List F) → length (changes_from last v) ≡ length v
  unfolding changes_from
  length-changes_from last [] = refl
  length-changes_from last (x ∷ v) = ap suc (length-changes_from x v)

  length-changes : (v : List F) → length (changes v) ≡ length v - 1
  unfolding changes
  length-changes [] = omega arith
  length-changes (x ∷ v) = omega (arith, length-changes_from x v)

  length-range_loop :
      (before : Candle F) (c : List (Candle F)) → length (range_loop before c) ≡ length c
  unfolding range_loop
  length-range_loop before [] = refl
  length-range_loop before (x ∷ c) = ap suc (length-range_loop x c)

  length-drop : (n : ℕ) (v : List F) → length (drop n v) ≡ length v - n
  length-drop zero v = omega arith
  length-drop (suc n) [] = omega arith
  length-drop (suc n) (x ∷ v) = omega (arith, length-drop n v)

  sma-Extends : (v w : List F) (n : ℤ) → Extends (sma (v ++ w) n) (sma v n)
  unfolding sma
  sma-Extends v w (pos zero) = all_nan-Extends v w
  sma-Extends v w (pos (suc n)) = sma_loop-Extends v w n 0 _ v (omega arith)
  sma-Extends v w (negsuc n) = all_nan-Extends v w

  ema-Extends : (v w : List F) (n : ℤ) → Extends (ema (v ++ w) n) (ema v n)
  unfolding ema
  ema-Extends v w (pos zero) = all_nan-Extends v w
  ema-Extends v w (pos (suc n)) = seeded-Extends _ v w n
  ema-Extends v w (negsuc n) = all_nan-Extends v w

  atr-Extends : (c c' : List (Candle F)) (n : ℤ) → Extends (atr (c ++ c') n) (atr c n)
  unfolding atr
  atr-Extends c c' (pos zero) = all_nan-Extends c c'
  atr-Extends c c' (pos (suc n)) =
      let (more, e) = true_range-Extends c c' in rw e (seeded-Extends _ (true_range c) more n)
  atr-Extends c c' (negsuc n) = all_nan-Extends c c'

  roc-Extends : (v w : List F) (n : ℤ) → Extends (roc (v ++ w) n) (roc v n)
  unfolding roc
  roc-Extends v w (pos zero) = all_nan-Extends v w
  roc-Extends v w (pos (suc n)) = guarded-Extends (suc n) (suc n) v w _ _ (omega arith) λ fits.
      rw (drop-append_le (suc n) v w fits)
        (roc_loop-Extends v w (drop (suc n) v) w (omega (arith, length-drop (suc n) v)))
  roc-Extends v w (negsuc n) = all_nan-Extends v w

  std_dev-Extends : (v w : List F) (n : ℤ) → Extends (std_dev (v ++ w) n) (std_dev v n)
  unfolding std_dev
  std_dev-Extends v w (pos zero) = all_nan-Extends v w
  std_dev-Extends v w (pos (suc n)) =
      guarded-Extends (suc n) n v w _ _ (omega arith) λ fits. window_loop-Extends (suc n) v w
  std_dev-Extends v w (negsuc n) = all_nan-Extends v w

  rsi-Extends : (v w : List F) (n : ℤ) → Extends (rsi (v ++ w) n) (rsi v n)
  unfolding rsi
  rsi-Extends v w (pos zero) = all_nan-Extends v w
  rsi-Extends v w (pos (suc n)) = guarded-Extends (suc n + 1) (suc n) v w _ _ (omega arith) λ long.
      let fits : suc n ≤ length (changes v) = omega (arith, length-changes v) in
      let (more, e) = changes-Extends v w in
      rw
        (
          e,
          take-append_le (suc n) (changes v) more fits,
          drop-append_le (suc n) (changes v) more fits,
        )
        (cons-Extends _ _ _ (rsi_loop-Extends (suc n) (drop (suc n) (changes v)) more _ _))
  rsi-Extends v w (negsuc n) = all_nan-Extends v w

  -- Each of the indicators, with any period: more values at the end of its input add values at the
  -- end of its output and change none of the others.
  pub indicators_causal :
      (n : ℤ) (v w : List F) (c c' : List (Candle F))
      → Extends (sma (v ++ w) n) (sma v n)
        × Extends (ema (v ++ w) n) (ema v n)
        × Extends (roc (v ++ w) n) (roc v n)
        × Extends (rsi (v ++ w) n) (rsi v n)
        × Extends (std_dev (v ++ w) n) (std_dev v n)
        × Extends (atr (c ++ c') n) (atr c n)
  indicators_causal n v w c c' = (
    sma-Extends v w n,
    ema-Extends v w n,
    roc-Extends v w n,
    rsi-Extends v w n,
    std_dev-Extends v w n,
    atr-Extends c c' n,
  )
