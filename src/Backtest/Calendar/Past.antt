-- ===== src/Backtest/Calendar/Past.antt =====
-- The series of a day end with its bar: engine.go, buildSeriesAndUniverse, buildDateIndex.
use mathlib.Core.Path.{subst}
use crypto_swing_bot.Prelude.{
  ℕ, suc, ◌+◌, ◌-◌, ◌≤◌, ◌≡◌, refl, ◌⊎◌, inl, inr, Bool-cases, Option, none, some, List, [], ◌∷◌,
  ltb, ◌==◌, get_elem?, take, All, arith,
}
use crypto_swing_bot.Prelude.Dict.{Dict, lookup, insert, lookup-insert}
use crypto_swing_bot.Domain.{Symbol, Time, Candle}
use crypto_swing_bot.Broker.Book.{value_or}
use crypto_swing_bot.Backtest.Calendar.{
  unix_milli, index_series, build_date_index, truncate_series, Selected, select, select_all,
  candidates, build_series_and_universe,
}

insert-All :
    {V : Type 0} (P : ℕ × V → Type 0) (k : ℕ) (v : V) (m : Dict V)
    → P (k, v)
    → All P m
    → All P (insert k v m)
insert-All P k v [] h hs = (h, tt)
insert-All P k v ((j, w) ∷ m) h hs = elim (Bool-cases (j == k)) [
  | inl same ↦ rw same (subst (λ x. P (x, v)) (ground (arith, same)) h, hs.1)
  | inr other ↦ rw other (hs.0, insert-All P k v m h hs.1)
]

module _ {F : Type 0} where
  -- A bar of this millisecond stands at the index.
  abbrev IsBarAt : List (Candle F) → ℕ → ℕ → Type 0
  IsBarAt series key i =
      (c : Candle F) × (get_elem? series i ≡ some c) × (unix_milli c.open_time ≡ key)

  -- The bars are those of the symbol up to one of the millisecond of `t`, behind the warmup.
  abbrev pub EndsAt : Dict (List (Candle F)) → Time → ℕ → ℕ × List (Candle F) → Type 0
  EndsAt candles t warmup (k, bars) =
      (i : ℕ) × (bars ≡ take (i + 1) (value_or [] (lookup k candles)))
      × (warmup ≤ i)
      × IsBarAt (value_or [] (lookup k candles)) (unix_milli t) i

  index_series-IsBarAt :
      (cs : List (Candle F)) (n : ℕ) (m : Dict ℕ) (key i : ℕ)
      → lookup key (index_series n cs m) ≡ some i
      → (lookup key m ≡ some i) ⊎ ((n ≤ i) × IsBarAt cs key (i - n))
  unfolding index_series
  index_series-IsBarAt [] n m key i h = inl h
  index_series-IsBarAt (c ∷ cs) n m key i h =
      elim (index_series-IsBarAt cs (suc n) (insert (unix_milli c.open_time) n m) key i h) [
        | inr (le', (c', found, e)) ↦ inr (
          omega (arith, le'),
          (c', (let shift : i - n ≡ suc (i - suc n) = omega (arith, le') in rw shift found), e),
        )
        | inl old ↦ elim (Bool-cases (unix_milli c.open_time == key)) [
          | inr other ↦
              inl (ground (arith, old, other, lookup-insert key (unix_milli c.open_time) n m))
          | inl same ↦
              let here : n ≡ i =
                ground (arith, old, same, lookup-insert key (unix_milli c.open_time) n m) in
              inr (
                omega (arith, here),
                (
                  c,
                  (let first : i - n ≡ 0 = omega (arith, here) in rw first refl),
                  ground (arith, same),
                ),
              )
        ]
      ]

  date_index-series :
      (candles : Dict (List (Candle F))) (k : Symbol)
      → value_or [] (lookup k (build_date_index candles))
        ≡ index_series 0 (value_or [] (lookup k candles)) []
  unfolding build_date_index index_series
  date_index-series [] k = refl
  date_index-series ((j, series) ∷ rest) k = elim (Bool-cases (j == k)) [
    | inl same ↦ rw same refl
    | inr other ↦ rw other (date_index-series rest k)
  ]

  select-EndsAt :
      (candles : Dict (List (Candle F))) (t : Time) (warmup : ℕ) (k : Symbol) (o : Option ℕ)
      (s : Selected F)
      → ((i : ℕ) → o ≡ some i → IsBarAt (value_or [] (lookup k candles)) (unix_milli t) i)
      → All (EndsAt candles t warmup) s.series
      → All (EndsAt candles t warmup) ((select candles k warmup o s).series)
  unfolding truncate_series
  select-EndsAt candles t warmup k none s h hs = hs
  select-EndsAt candles t warmup k (some i) s h hs = elim (Bool-cases (ltb i warmup)) [
    | inl early ↦ rw early hs
    | inr late ↦ rw late (
        insert-All (EndsAt candles t warmup) k (take (i + 1) (value_or [] (lookup k candles)))
          s.series (i, refl, ground (arith, late), h i refl) hs)
  ]

  found-IsBarAt :
      (candles : Dict (List (Candle F))) (key : ℕ) (k : Symbol) (i : ℕ)
      → lookup key (value_or [] (lookup k (build_date_index candles))) ≡ some i
      → IsBarAt (value_or [] (lookup k candles)) key i
  found-IsBarAt candles key k i h =
      elim (index_series-IsBarAt (value_or [] (lookup k candles)) 0 [] key i
        (rw (date_index-series candles k) at h)) [
          | inl nothing ↦ absurd (ground arith)
          | inr (le', bar) ↦
              subst (λ x. IsBarAt (value_or [] (lookup k candles)) key x) (omega arith) bar
        ]

  select_all-EndsAt :
      (candles : Dict (List (Candle F))) (t : Time) (warmup : ℕ) (ks : List Symbol) (s : Selected F)
      → All (EndsAt candles t warmup) s.series
      → All
          (EndsAt candles t warmup)
          ((select_all candles (build_date_index candles) t warmup ks s).series)
  unfolding select_all
  select_all-EndsAt candles t warmup [] s hs = hs
  select_all-EndsAt candles t warmup (k ∷ ks) s hs =
      select_all-EndsAt candles t warmup ks _
        (select-EndsAt candles t warmup k _ s (found-IsBarAt candles (unix_milli t) k) hs)

  -- Whatever symbols a day is restricted to, each series that the strategy is given is the bars of its
  -- symbol up to one that opens in the millisecond of the day, with at least the warmup before it.
  pub series-EndsAt :
      (candles : Dict (List (Candle F))) (restrict : List Symbol) (t : Time) (warmup : ℕ)
      → All
          (EndsAt candles t warmup)
          ((build_series_and_universe candles (build_date_index candles) restrict t warmup).series)
  unfolding build_series_and_universe
  series-EndsAt candles restrict t warmup =
      select_all-EndsAt candles t warmup (candidates candles restrict) _ tt
