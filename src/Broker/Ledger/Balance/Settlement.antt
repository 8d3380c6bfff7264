-- ===== src/Broker/Ledger/Balance/Settlement.antt =====
-- One settlement keeps the account balanced.
use crypto_swing_bot.Prelude.{
  ◌≡◌, refl, ap, ◌∙◌, inl, inr, Option, none, some, Option-cases, List, ◌∷◌, arith,
}
use crypto_swing_bot.Prelude.Dict.{lookup, erase}
use crypto_swing_bot.Float.{Float, Convert}
use crypto_swing_bot.Domain.{Symbol, Time, Candle, Side, buy, sell, OrderRequest}
use crypto_swing_bot.Broker.Book.{ExitReason, stop, OpenPosition, PaperBroker, candle_at}
use crypto_swing_bot.Broker.Fill.{
  entry_cost, net_proceeds, closed_trade, settle_exit, fill_price_of, fill_buy, fill_sell,
}
use crypto_swing_bot.Broker.Fill.Effects.{
  IsBought, IsSettled, fill_buy-IsBought, settle_exit-IsSettled, fill_sell-IsSettled,
}
use crypto_swing_bot.Broker.Day.{Filling, fill_at, fill_one, settle_stop}
use crypto_swing_bot.Broker.Invariant.{IsEntryNew, All-drop_middle, IsLoopWell}
use crypto_swing_bot.Broker.Ledger.Exact.{IsExact, pay, take_profit}
use crypto_swing_bot.Broker.Ledger.Sums.{
  invested, realised, realised-append, invested-insert_new, invested-erase,
}

module _ {F D : Type 0} ⦃f : Float F⦄ ⦃c : Convert F D⦄ where
  open f use {lit, add, sub}

  -- The cash and the cost of the open positions make up the initial cash and the profits so far.
  abbrev pub IsBalanced : F → PaperBroker F D → Type 0
  IsBalanced initial b = add b.cash (invested b.positions) ≡ add initial (realised b.trades)

  pub IsBalanced-congr :
      (initial : F) (b b' : PaperBroker F D)
      → b'.cash ≡ b.cash
      → b'.trades ≡ b.trades
      → invested b'.positions ≡ invested b.positions
      → IsBalanced initial b
      → IsBalanced initial b'
  IsBalanced-congr initial b b' p q r h = rw (p, q, r) h

  module _ (x : IsExact F) (initial : F) where
    IsBought-IsBalanced :
        (b b' : PaperBroker F D) (req : OrderRequest D) (p : OpenPosition F D)
        → IsBought b req p b'
        → lookup req.symbol b.positions ≡ none
        → IsBalanced initial b
        → IsBalanced initial b'
    IsBought-IsBalanced b b' req p done new bal =
        rw
          (
            done.cash_eq,
            done.positions_eq,
            done.trades_eq,
            invested-insert_new x req.symbol p b.positions new,
          )
          (pay x b.cash (entry_cost p) (invested b.positions) ∙ bal)

    IsSettled-IsBalanced :
        (b b' : PaperBroker F D) (symbol : Symbol) (price : F) (t : Time) (reason : ExitReason)
        (p : OpenPosition F D)
        → IsSettled b symbol price t reason p b'
        → IsBalanced initial b
        → IsBalanced initial b'
    unfolding closed_trade
    IsSettled-IsBalanced b b' symbol price t reason p done bal =
        rw
          (
            done.cash_eq,
            done.positions_eq,
            done.trades_eq,
            realised-append x b.trades (closed_trade b symbol p price t reason),
          )
          (take_profit x b.cash (net_proceeds b p price) (entry_cost p)
            (invested (erase symbol b.positions)) initial (realised b.trades)
            (ap (add b.cash) (invested-erase x symbol p b.positions (done.found)) ∙ bal))

    fill_at-IsBalanced :
        (side : Side) (bar : Candle F) (t : Time) (req : OrderRequest D)
        (reqs : List (OrderRequest D)) (s s' : Filling F D)
        → req.side ≡ side
        → fill_at side bar t req s ≡ some s'
        → IsLoopWell s (req ∷ reqs)
        → IsBalanced initial s.broker
        → IsBalanced initial s'.broker
    fill_at-IsBalanced buy bar t req reqs s s' side h w bal =
        let new =
          (All-drop_middle (IsEntryNew s.broker.positions) s.remaining req reqs (w.entries_new)).0
            side in
        elim (Option-cases (fill_buy s.broker req bar t)) [
          | inl panic ↦ absurd (ground arith)
          | inr (b, e) ↦
              let same : b ≡ s'.broker = ground arith in
              rw (← same) (
                IsBought-IsBalanced s.broker b req _ (fill_buy-IsBought s.broker req bar t b e) new
                  bal)
        ]
    fill_at-IsBalanced sell bar t req reqs s s' side h w bal =
        elim (Option-cases (fill_sell s.broker req bar t)) [
          | inl panic ↦ absurd (ground arith)
          | inr (b, e) ↦
              let same : b ≡ s'.broker = ground arith in
              rw (← same) (elim (fill_sell-IsSettled s.broker req bar t b e) [
                | inl gone ↦
                    IsBalanced-congr initial s.broker b (gone.cash_eq) (gone.trades_eq)
                      (ap invested (gone.positions_eq)) bal
                | inr (p, done) ↦ IsSettled-IsBalanced s.broker b req.symbol _ t _ p done bal
              ])
        ]

    pub fill_one-IsBalanced :
        (t : Time) (req : OrderRequest D) (reqs : List (OrderRequest D)) (s s' : Filling F D)
        → fill_one t req s ≡ some s'
        → IsLoopWell s (req ∷ reqs)
        → IsBalanced initial s.broker
        → IsBalanced initial s'.broker
    unfolding fill_one
    fill_one-IsBalanced t req reqs s s' h w bal =
        elim (Option-cases (candle_at s.broker req.symbol t)) [
          | inl no_bar ↦ let same : s.broker ≡ s'.broker = ground arith in rw (← same) bal
          | inr (bar, e) ↦ fill_at-IsBalanced req.side bar t req reqs s s' refl (rw e at h) w bal
        ]

    pub settle_stop-IsBalanced :
        (price : Option F) (b : PaperBroker F D) (symbol : Symbol) (t : Time)
        → IsBalanced initial b
        → IsBalanced initial (settle_stop price b symbol t)
    settle_stop-IsBalanced none b symbol t bal = bal
    settle_stop-IsBalanced (some price) b symbol t bal =
        elim (Option-cases (settle_exit b symbol (fill_price_of sell b price) t stop)) [
          | inl e ↦ rw e bal
          | inr (b', e) ↦
              let (p, done) = settle_exit-IsSettled b symbol _ t stop b' e in
              rw e (IsSettled-IsBalanced b b' symbol _ t stop p done bal)
        ]
