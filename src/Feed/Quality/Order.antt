-- ===== src/Feed/Quality/Order.antt =====
-- internal/datafeed/quality.go, ValidateCandles: the sort by the open time.
use crypto_swing_bot.Prelude.{
  ℕ, ◌≤◌, ◌≡◌, refl, ◌∙◌, inl, inr, Bool, ◌&&◌, Bool-cases, List, [], ◌∷◌, ltb, keep, length, All,
  arith,
}
use crypto_swing_bot.Domain.{Time, Candle}
use crypto_swing_bot.Feed.Quality.{insert_candle, sort_candles}

module _ {F : Type 0} where
  abbrev pub IsAscending : List (Candle F) → Type 0
  IsAscending [] = Unit
  IsAscending (c ∷ cs) = All (λ d. c.open_time ≤ d.open_time) cs × IsAscending cs

  -- How many bars pass a test.
  abbrev pub count : (Candle F → Bool) → List (Candle F) → ℕ
  count p cs = length (keep p cs)

  count-insert_candle :
      (p : Candle F → Bool) (c : Candle F) (cs : List (Candle F))
      → count p (insert_candle c cs) ≡ count p (c ∷ cs)
  unfolding insert_candle
  count-insert_candle p c [] = refl
  count-insert_candle p c (x ∷ xs) = ground (arith, count-insert_candle p c xs)

  count-cons :
      (p : Candle F → Bool) (c : Candle F) (xs ys : List (Candle F))
      → count p xs ≡ count p ys
      → count p (c ∷ xs) ≡ count p (c ∷ ys)
  count-cons p c xs ys e = ground (arith, e)

  pub count-sort_candles :
      (p : Candle F → Bool) (cs : List (Candle F)) → count p (sort_candles cs) ≡ count p cs
  unfolding sort_candles
  count-sort_candles p [] = refl
  count-sort_candles p (c ∷ cs) =
      count-insert_candle p c (sort_candles cs)
      ∙ count-cons p c (sort_candles cs) cs (count-sort_candles p cs)

  length-insert_candle :
      (c : Candle F) (cs : List (Candle F)) → length (insert_candle c cs) ≡ length (c ∷ cs)
  unfolding insert_candle
  length-insert_candle c [] = refl
  length-insert_candle c (x ∷ xs) = ground (arith, length-insert_candle c xs)

  pub length-sort_candles : (cs : List (Candle F)) → length (sort_candles cs) ≡ length cs
  unfolding sort_candles
  length-sort_candles [] = refl
  length-sort_candles (c ∷ cs) =
      omega (arith, length-insert_candle c (sort_candles cs), length-sort_candles cs)

  pub keep-keep :
      (p q : Candle F → Bool) (cs : List (Candle F))
      → keep p (keep q cs) ≡ keep (λ c. q c && p c) cs
  keep-keep p q [] = refl
  keep-keep p q (c ∷ cs) = ground (arith, keep-keep p q cs)

  All-insert_candle :
      (P : Candle F → Type 0) (c : Candle F) (cs : List (Candle F))
      → P c
      → All P cs
      → All P (insert_candle c cs)
  unfolding insert_candle
  All-insert_candle P c [] p a = (p, tt)
  All-insert_candle P c (x ∷ xs) p a = elim (Bool-cases (ltb x.open_time c.open_time)) [
    | inl less ↦ rw less (a.0, All-insert_candle P c xs p a.1)
    | inr not_less ↦ rw not_less (p, a)
  ]

  All-later :
      (t u : Time) (cs : List (Candle F))
      → t ≤ u
      → All (λ d. u ≤ d.open_time) cs
      → All (λ d. t ≤ d.open_time) cs
  All-later t u [] h a = tt
  All-later t u (c ∷ cs) h a = (omega (arith, h, a.0), All-later t u cs h a.1)

  insert_candle-IsAscending :
      (c : Candle F) (cs : List (Candle F)) → IsAscending cs → IsAscending (insert_candle c cs)
  unfolding insert_candle
  insert_candle-IsAscending c [] a = (tt, tt)
  insert_candle-IsAscending c (x ∷ xs) a = elim (Bool-cases (ltb x.open_time c.open_time)) [
    | inl less ↦ rw less (
      All-insert_candle (λ d. x.open_time ≤ d.open_time) c xs (ground (arith, less)) a.0,
      insert_candle-IsAscending c xs a.1,
    )
    | inr not_less ↦
        let le : c.open_time ≤ x.open_time = ground (arith, not_less) in
        rw not_less ((le, All-later c.open_time x.open_time xs le a.0), a)
  ]

  pub sort_candles-IsAscending : (cs : List (Candle F)) → IsAscending (sort_candles cs)
  unfolding sort_candles
  sort_candles-IsAscending [] = tt
  sort_candles-IsAscending (c ∷ cs) =
      insert_candle-IsAscending c (sort_candles cs) (sort_candles-IsAscending cs)

  keep-All :
      (P : Candle F → Type 0) (q : Candle F → Bool) (cs : List (Candle F))
      → All P cs
      → All P (keep q cs)
  keep-All P q [] a = tt
  keep-All P q (c ∷ cs) a = elim (Bool-cases (q c)) [
    | inl passes ↦ rw passes (a.0, keep-All P q cs a.1)
    | inr fails ↦ rw fails (keep-All P q cs a.1)
  ]

  pub keep-IsAscending :
      (q : Candle F → Bool) (cs : List (Candle F)) → IsAscending cs → IsAscending (keep q cs)
  keep-IsAscending q [] a = tt
  keep-IsAscending q (c ∷ cs) a = elim (Bool-cases (q c)) [
    | inl passes ↦
        rw passes (keep-All (λ d. c.open_time ≤ d.open_time) q cs a.0, keep-IsAscending q cs a.1)
    | inr fails ↦ rw fails (keep-IsAscending q cs a.1)
  ]
