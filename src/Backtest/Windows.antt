-- ===== src/Backtest/Windows.antt =====
-- internal/backtest/walkforward.go: BuildWindows and ClassifyRegime. `AddDate` with days adds days of 24
-- hours, as the instants are in UTC.
use native.Mathlib.Nat.{lt-div-mul-add, add-mul}
use crypto_swing_bot.Prelude.{
  ℕ, zero, suc, ◌+◌, ◌-◌, ◌*◌, ◌/◌, ◌<◌, ◌≡◌, refl, inl, inr, ℤ, pos, true, Bool-cases, Option,
  none, some, List, [], ◌∷◌, if◌then◌else◌, ltb, get_elem?, arith,
}
use crypto_swing_bot.Float.{Float}
use crypto_swing_bot.Domain.{Time, hour}

pub record Window : Type 0 where
  pub train_start : Time
  pub train_end : Time
  pub test_start : Time
  pub test_end : Time

abbrev pub days : ℕ → Time
days n = n * (24 * hour)

-- The window whose training starts here.
unfoldable pub window_from : ℕ → ℕ → Time → Window
window_from train test start = record {
  train_start = start;
  train_end = start + days train;
  test_start = start + days train;
  test_end = start + days train + days test;
}

-- The loop, on fuel.
unfoldable pub windows_loop : ℕ → ℕ → ℕ → ℕ → Time → Time → List Window
windows_loop zero train test step data_end start = []
windows_loop (suc fuel) train test step data_end start =
    let w = window_from train test start in
    let rest = windows_loop fuel train test step data_end (start + days step) in
    if ltb data_end w.test_end then [] else w ∷ rest

-- Every turn moves the start by a day at least, and none moves it past the end of the data, so the
-- days of the data and one more are fuel enough.
abbrev pub windows_fuel : Time → Time → ℕ
windows_fuel data_start data_end = suc ((data_end - data_start) / (24 * hour))

unfoldable pub build_windows : Time → Time → ℤ → ℤ → ℤ → List Window
build_windows data_start data_end (pos (suc train)) (pos (suc test)) (pos (suc step)) =
    if ltb data_start data_end
    then windows_loop (windows_fuel data_start data_end) (suc train) (suc test) (suc step) data_end
        data_start
    else []
build_windows data_start data_end _ _ _ = []

pub data Regime : Type 0 where
  bull bear sideways : Regime

unfoldable pub classify_regime : {F : Type 0} ⦃f : Float F⦄ → F → F → F → Regime
classify_regime ⦃f⦄ btc_return bull_threshold bear_threshold =
    if f.le bull_threshold btc_return
    then bull
    else if f.le btc_return (f.neg bear_threshold)
    then bear
    else sideways

-- The window number i, if its test ends within the data.
abbrev pub window_at : ℕ → ℕ → ℕ → Time → Time → ℕ → Option Window
window_at train test step data_end data_start i =
    let w = window_from train test (data_start + days (i * step)) in
    if ltb data_end w.test_end then none else some w

next_start : (start : Time) (i s : ℕ) → start + days (suc i * s) ≡ start + days s + days (i * s)
next_start start i s = omega (arith, add-mul 1 i s)

windows_loop-get :
    (fuel train test step : ℕ) (data_end start : Time) (i : ℕ)
    → data_end < start + days fuel
    → get_elem? (windows_loop fuel train test (suc step) data_end start) i
      ≡ window_at train test (suc step) data_end start i
unfolding windows_loop window_from
windows_loop-get zero train test step data_end start i h = ground arith
windows_loop-get (suc fuel) train test step data_end start zero h = ground arith
windows_loop-get (suc fuel) train test step data_end start (suc i) h =
    elim (Bool-cases (ltb data_end (start + days train + days test))) [
      | inl past ↦ rw past (ground (arith, past, next_start start i (suc step)))
      | inr within ↦
          rw
            (
              within,
              windows_loop-get fuel train test step data_end (start + days (suc step)) i
                  (omega arith),
            )
            (rw (next_start start i (suc step)) refl)
    ]

-- With numbers of days that are positive, and data that ends after it starts, the windows are all
-- those that start a whole number of steps behind the start of the data and whose test ends within
-- the data, in the order of time; the loop has fuel enough.
pub build_windows-get :
    (data_start data_end : Time) (train test step i : ℕ)
    → data_start < data_end
    → get_elem?
        (build_windows data_start data_end (pos (suc train)) (pos (suc test)) (pos (suc step)))
        i
      ≡ window_at (suc train) (suc test) (suc step) data_end data_start i
unfolding build_windows
build_windows-get data_start data_end train test step i h =
    let within : ltb data_start data_end ≡ true = ground arith in
    let enough : data_end - data_start
        < (data_end - data_start) / (24 * hour) * (24 * hour) + 24 * hour =
      lt-div-mul-add (omega arith) in
    rw within (
      windows_loop-get (windows_fuel data_start data_end) (suc train) (suc test) step data_end
        data_start i (omega (arith, enough)))
