-- ===== src/Indicator/Average.antt =====
-- sma.go, ema.go, atr.go, stddev.go and roc.go. A slice that the code fills from an index on is the
-- list of NaNs before it, followed by the values of the loop.
use crypto_swing_bot.Prelude.{
  ℕ, suc, ◌+◌, ◌-◌, ℤ, pos, List, [], ◌∷◌, ◌++◌, if◌then◌else◌, ltb, leb, length, take, drop,
}
use crypto_swing_bot.Float.{Float}
use crypto_swing_bot.Domain.{Candle}
use crypto_swing_bot.Indicator.Slice.{nan_slice, value_at, abs_f, max_f, sum_from}

module _ {F : Type 0} ⦃f : Float F⦄ where
  open f use {lit, of_int, nan, add, sub, mul, div, sqrt}

  -- The loop of `SMA` from index `i` on, with the running sum.
  unfoldable pub sma_loop : List F → ℕ → ℕ → F → List F → List F
  sma_loop v n i sum [] = []
  sma_loop v n i sum (x ∷ rest) =
      let grown = add sum x in
      let sum' = if leb n i then sub grown (value_at v (i - n)) else grown in
      (if leb n (i + 1) then div sum' (of_int (pos n)) else nan) ∷ sma_loop v n (suc i) sum' rest

  unfoldable pub sma : List F → ℤ → List F
  sma v (pos (suc n)) = sma_loop v (suc n) 0 (lit 0 0) v
  sma v _ = nan_slice (length v)

  -- The loop `out[i] = step(out[i-1], x[i])` behind a first value.
  unfoldable pub follow : (F → F → F) → F → List F → List F
  follow step last [] = []
  follow step last (x ∷ xs) = let out = step last x in out ∷ follow step out xs

  -- A slice that is NaN up to index n - 1, where it has the mean of the first n values, and follows
  -- a recurrence from there; it is all NaN if there are fewer values.
  abbrev pub seeded : (F → F → F) → List F → ℕ → List F
  seeded step v n =
      let seed = div (sum_from (lit 0 0) (take n v)) (of_int (pos n)) in
      if ltb (length v) n
      then nan_slice (length v)
      else nan_slice (n - 1) ++ (seed ∷ follow step seed (drop n v))

  unfoldable pub ema_step : F → F → F → F
  ema_step k last x = add (mul x k) (mul last (sub (lit 1 0) k))

  unfoldable pub ema : List F → ℤ → List F
  ema v (pos (suc n)) =
      let k = div (lit 2 0) (of_int (pos (suc n + 1))) in seeded (ema_step k) v (suc n)
  ema v _ = nan_slice (length v)

  -- One bar of `trueRange`, with the bar before it.
  unfoldable pub range_of : Candle F → Candle F → F
  range_of before c =
      max_f (sub c.high c.low)
        (max_f (abs_f (sub c.high before.close)) (abs_f (sub c.low before.close)))

  unfoldable pub range_loop : Candle F → List (Candle F) → List F
  range_loop before [] = []
  range_loop before (c ∷ cs) = range_of before c ∷ range_loop c cs

  unfoldable pub true_range : List (Candle F) → List F
  true_range [] = []
  true_range (c ∷ cs) = sub c.high c.low ∷ range_loop c cs

  -- Wilder's smoothing.
  unfoldable pub wilder : ℕ → F → F → F
  wilder n last x = div (add (mul last (of_int (pos (n - 1)))) x) (of_int (pos n))

  unfoldable pub atr : List (Candle F) → ℤ → List F
  atr c (pos (suc n)) = seeded (wilder (suc n)) (true_range c) (suc n)
  atr c _ = nan_slice (length c)

  unfoldable pub square_sum : F → F → List F → F
  square_sum mean acc [] = acc
  square_sum mean acc (x ∷ xs) = let d = sub x mean in square_sum mean (add acc (mul d d)) xs

  -- The deviation of one window.
  unfoldable pub deviation : ℕ → List F → F
  deviation n window =
      let mean = div (sum_from (lit 0 0) window) (of_int (pos n)) in
      sqrt (div (square_sum mean (lit 0 0) window) (of_int (pos n)))

  -- The loop of `StdDev` over the windows, each by its first index.
  unfoldable pub window_loop : ℕ → List F → List F
  window_loop n [] = []
  window_loop n (x ∷ rest) =
      let others = window_loop n rest in
      if ltb (length (x ∷ rest)) n then [] else deviation n (take n (x ∷ rest)) ∷ others

  unfoldable pub std_dev : List F → ℤ → List F
  std_dev v (pos (suc n)) =
      if ltb (length v) (suc n) then nan_slice (length v) else nan_slice n ++ window_loop (suc n) v
  std_dev v _ = nan_slice (length v)

  -- The loop of `ROC`, over the old values and the new ones.
  unfoldable pub roc_loop : List F → List F → List F
  roc_loop [] xs = []
  roc_loop (o ∷ os) [] = []
  roc_loop (o ∷ os) (x ∷ xs) = sub (div x o) (lit 1 0) ∷ roc_loop os xs

  unfoldable pub roc : List F → ℤ → List F
  roc v (pos (suc n)) =
      if ltb (length v) (suc n)
      then nan_slice (length v)
      else nan_slice (suc n) ++ roc_loop v (drop (suc n) v)
  roc v _ = nan_slice (length v)
