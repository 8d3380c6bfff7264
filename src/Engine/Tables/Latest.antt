-- ===== src/Engine/Tables/Latest.antt =====
-- The table `equity_snapshots` as internal/engine/daily.go, alreadyProcessed, reads it.
use crypto_swing_bot.Prelude.{
  ℕ, ◌≤◌, ◌≡◌, refl, ◌∙◌, ap, inl, inr, Bool, true, false, ◌||◌, not, Bool-cases, List, [], ◌∷◌,
  ltb, ◌==◌, any, All, arith,
}
use crypto_swing_bot.Prelude.Dict.{Dict, insert}
use crypto_swing_bot.Domain.{Time}
use crypto_swing_bot.Engine.World.{EquitySnapshot}
use crypto_swing_bot.Engine.Tables.{insert_by_ts, list_equity_snapshots}

module _ {F : Type 0} where
  abbrev IsAscending : List (EquitySnapshot F) → Type 0
  IsAscending [] = Unit
  IsAscending (x ∷ xs) = All (λ y. x.ts ≤ y.ts) xs × IsAscending xs

  abbrev pub is_from : Time → EquitySnapshot F → Bool
  is_from as_of s = not (ltb s.ts as_of)

  -- A row of the day or of a later one.
  abbrev pub is_from_any : Time → Dict (EquitySnapshot F) → Bool
  is_from_any as_of [] = false
  is_from_any as_of ((ts, s) ∷ rows) = is_from as_of s || is_from_any as_of rows

  -- The last row of a list is of the day or of a later one.
  abbrev pub last_is_from : Time → List (EquitySnapshot F) → Bool
  last_is_from as_of [] = false
  last_is_from as_of (s ∷ []) = is_from as_of s
  last_is_from as_of (s ∷ t ∷ rest) = last_is_from as_of (t ∷ rest)

  last_is_from-any :
      (as_of : Time) (xs : List (EquitySnapshot F))
      → IsAscending xs
      → last_is_from as_of xs ≡ any (is_from as_of) xs
  last_is_from-any as_of [] a = refl
  last_is_from-any as_of (x ∷ []) a = ground arith
  last_is_from-any as_of (x ∷ y ∷ xs) a = ground (arith, last_is_from-any as_of (y ∷ xs) a.1, a.0.0)

  All-insert_by_ts :
      (P : EquitySnapshot F → Type 0) (s : EquitySnapshot F) (xs : List (EquitySnapshot F))
      → P s
      → All P xs
      → All P (insert_by_ts s xs)
  unfolding insert_by_ts
  All-insert_by_ts P s [] p a = (p, tt)
  All-insert_by_ts P s (x ∷ xs) p a = elim (Bool-cases (ltb x.ts s.ts)) [
    | inl less ↦ rw less (a.0, All-insert_by_ts P s xs p a.1)
    | inr not_less ↦ rw not_less (p, a)
  ]

  All-weaken :
      (t u : Time) (xs : List (EquitySnapshot F))
      → t ≤ u
      → All (λ y. u ≤ y.ts) xs
      → All (λ y. t ≤ y.ts) xs
  All-weaken t u [] h a = tt
  All-weaken t u (x ∷ xs) h a = (omega (arith, h, a.0), All-weaken t u xs h a.1)

  insert_by_ts-IsAscending :
      (s : EquitySnapshot F) (xs : List (EquitySnapshot F))
      → IsAscending xs
      → IsAscending (insert_by_ts s xs)
  unfolding insert_by_ts
  insert_by_ts-IsAscending s [] a = (tt, tt)
  insert_by_ts-IsAscending s (x ∷ xs) a = elim (Bool-cases (ltb x.ts s.ts)) [
    | inl less ↦ rw less (
      All-insert_by_ts (λ y. x.ts ≤ y.ts) s xs (ground (arith, less)) a.0,
      insert_by_ts-IsAscending s xs a.1,
    )
    | inr not_less ↦
        let le : s.ts ≤ x.ts = ground (arith, not_less) in
        rw not_less ((le, All-weaken s.ts x.ts xs le a.0), a)
  ]

  list-IsAscending : (rows : Dict (EquitySnapshot F)) → IsAscending (list_equity_snapshots rows)
  unfolding list_equity_snapshots
  list-IsAscending [] = tt
  list-IsAscending ((ts, s) ∷ rows) =
      insert_by_ts-IsAscending s (list_equity_snapshots rows) (list-IsAscending rows)

  any-insert_by_ts :
      (p : EquitySnapshot F → Bool) (s : EquitySnapshot F) (xs : List (EquitySnapshot F))
      → any p (insert_by_ts s xs) ≡ (p s || any p xs)
  unfolding insert_by_ts
  any-insert_by_ts p s [] = refl
  any-insert_by_ts p s (x ∷ xs) = elim (Bool-cases (ltb x.ts s.ts)) [
    | inl less ↦ rw (less, any-insert_by_ts p s xs) (ground arith)
    | inr not_less ↦ rw not_less refl
  ]

  any-list :
      (as_of : Time) (rows : Dict (EquitySnapshot F))
      → any (is_from as_of) (list_equity_snapshots rows) ≡ is_from_any as_of rows
  unfolding list_equity_snapshots
  any-list as_of [] = refl
  any-list as_of ((ts, s) ∷ rows) =
      any-insert_by_ts (is_from as_of) s (list_equity_snapshots rows)
      ∙ ap (λ b. is_from as_of s || b) (any-list as_of rows)

  -- The last row as the table is read is the latest one, whatever the order of the rows.
  pub last_is_from-list :
      (as_of : Time) (rows : Dict (EquitySnapshot F))
      → last_is_from as_of (list_equity_snapshots rows) ≡ is_from_any as_of rows
  last_is_from-list as_of rows =
      last_is_from-any as_of (list_equity_snapshots rows) (list-IsAscending rows)
      ∙ any-list as_of rows

  pub insert-is_from_any :
      (as_of : Time) (k : ℕ) (s : EquitySnapshot F) (rows : Dict (EquitySnapshot F))
      → is_from as_of s ≡ true
      → is_from_any as_of (insert k s rows) ≡ true
  insert-is_from_any as_of k s [] h = rw h refl
  insert-is_from_any as_of k s ((j, r) ∷ rows) h = elim (Bool-cases (j == k)) [
    | inl same ↦ rw (same, h) refl
    | inr other ↦ rw (other, insert-is_from_any as_of k s rows h) (ground arith)
  ]

  -- Rows that are of a day or of a later one are so for every earlier day.
  pub is_from_any-le :
      (t u : Time) (rows : Dict (EquitySnapshot F))
      → t ≤ u
      → is_from_any u rows ≡ true
      → is_from_any t rows ≡ true
  is_from_any-le t u [] h a = a
  is_from_any-le t u ((ts, s) ∷ rows) h a = elim (Bool-cases (is_from u s)) [
    | inl is_so ↦ ground (arith, h, is_so)
    | inr is_not ↦ ground (arith, is_from_any-le t u rows h (ground (arith, a, is_not)))
  ]
