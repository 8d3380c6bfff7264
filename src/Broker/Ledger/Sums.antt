-- ===== src/Broker/Ledger/Sums.antt =====
-- The money in the open positions and in the closed trades, under each update.
use crypto_swing_bot.Prelude.{
  ℕ, ◌≡◌, refl, sym, ap, ◌∙◌, inl, inr, Bool-cases, none, some, List, [], ◌∷◌, ◌++◌, ◌==◌, arith,
}
use crypto_swing_bot.Prelude.Dict.{Dict, lookup, insert, erase}
use crypto_swing_bot.Float.{Float, Convert}
use crypto_swing_bot.Domain.{Time}
use crypto_swing_bot.Broker.Book.{ClosedTrade, OpenPosition, PaperBroker, candle_at}
use crypto_swing_bot.Broker.Fill.{entry_cost}
use crypto_swing_bot.Broker.Day.{raised, raise_all}
use crypto_swing_bot.Broker.Ledger.Exact.{IsExact, add_left_comm}

module _ {F D : Type 0} ⦃f : Float F⦄ ⦃c : Convert F D⦄ where
  open f use {lit, add}

  abbrev pub invested : Dict (OpenPosition F D) → F
  invested [] = lit 0 0
  invested ((k, p) ∷ rest) = add (entry_cost p) (invested rest)

  raised-entry_cost :
      (b : PaperBroker F D) (t : Time) (k : ℕ) (p : OpenPosition F D)
      → entry_cost (raised (candle_at b k t) p) ≡ entry_cost p
  raised-entry_cost b t k p = ground arith

  -- The marks move no money.
  pub invested-raise_all :
      (b : PaperBroker F D) (t : Time) (positions : Dict (OpenPosition F D))
      → invested (raise_all b t positions) ≡ invested positions
  unfolding raise_all
  invested-raise_all b t [] = refl
  invested-raise_all b t ((k, p) ∷ rest) =
      rw (raised-entry_cost b t k p, invested-raise_all b t rest) refl

  -- To replace a position by one of the same cost moves no money.
  pub invested-insert_same :
      (k : ℕ) (p p' : OpenPosition F D) (positions : Dict (OpenPosition F D))
      → lookup k positions ≡ some p
      → entry_cost p' ≡ entry_cost p
      → invested (insert k p' positions) ≡ invested positions
  invested-insert_same k p p' [] h e = ground arith
  invested-insert_same k p p' ((j, q) ∷ rest) h e = ground (arith, invested-insert_same k p p' rest)

  module _ (x : IsExact F) where
    pub invested-insert_new :
        (k : ℕ) (p : OpenPosition F D) (positions : Dict (OpenPosition F D))
        → lookup k positions ≡ none
        → invested (insert k p positions) ≡ add (entry_cost p) (invested positions)
    invested-insert_new k p [] h = refl
    invested-insert_new k p ((j, q) ∷ rest) h = elim (Bool-cases (j == k)) [
      | inl e ↦ absurd (ground arith)
      | inr e ↦ rw e (
          ap (add (entry_cost q)) (invested-insert_new k p rest (rw e at h))
          ∙ add_left_comm x (entry_cost q) (entry_cost p) (invested rest))
    ]

    pub invested-erase :
        (k : ℕ) (p : OpenPosition F D) (positions : Dict (OpenPosition F D))
        → lookup k positions ≡ some p
        → add (entry_cost p) (invested (erase k positions)) ≡ invested positions
    invested-erase k p [] h = absurd (ground arith)
    invested-erase k p ((j, q) ∷ rest) h = elim (Bool-cases (j == k)) [
      | inl e ↦ ground arith
      | inr e ↦ rw e (
          add_left_comm x (entry_cost p) (entry_cost q) (invested (erase k rest))
          ∙ ap (add (entry_cost q)) (invested-erase k p rest (rw e at h)))
    ]

module _ {F D : Type 0} ⦃f : Float F⦄ where
  open f use {lit, add}

  abbrev pub realised : List (ClosedTrade F D) → F
  realised [] = lit 0 0
  realised (tr ∷ trs) = add tr.pnl_quote (realised trs)

  pub realised-append :
      IsExact F
      → (trs : List (ClosedTrade F D)) (tr : ClosedTrade F D)
      → realised (trs ++ (tr ∷ [])) ≡ add (realised trs) tr.pnl_quote
  realised-append x [] tr = x.add_comm _ _
  realised-append x (u ∷ us) tr =
      ap (add u.pnl_quote) (realised-append x us tr)
      ∙ sym (x.add_assoc u.pnl_quote (realised us) tr.pnl_quote)
