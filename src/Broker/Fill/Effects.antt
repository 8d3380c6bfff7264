-- ===== src/Broker/Fill/Effects.antt =====
-- What one settlement changes of the broker, field by field: paper.go, fillPending, settleExit and
-- markFilled.
use crypto_swing_bot.Prelude.{ℕ, ◌≡◌, ◌⊎◌, inl, inr, ◌∙◌, some, Option-cases, [], ◌∷◌, ◌++◌, arith}
use crypto_swing_bot.Prelude.Dict.{lookup, insert, erase}
use crypto_swing_bot.Float.{Float, Convert}
use crypto_swing_bot.Domain.{Symbol, Time, Candle, sell, OrderRequest}
use crypto_swing_bot.Broker.Book.{ExitReason, signal, OpenPosition, PaperBroker}
use crypto_swing_bot.Broker.Fill.{
  mark_canceled, mark_filled, net_proceeds, closed_trade, settle_exit, fill_price_of, opened,
  fill_buy, fill_sell,
}

module _ {F D : Type 0} where
  -- The two brokers differ in the recorded orders at most.
  pub record SameBook (b b' : PaperBroker F D) : Type 0 where
    pub positions_eq : b'.positions ≡ b.positions
    pub cash_eq : b'.cash ≡ b.cash
    pub trades_eq : b'.trades ≡ b.trades
    pub pending_eq : b'.pending ≡ b.pending
    pub known_eq : b'.known ≡ b.known
    pub candles_eq : b'.candles ≡ b.candles
    pub costs_eq : b'.costs ≡ b.costs
    pub seq_eq : b'.seq ≡ b.seq

  mark_canceled-SameBook : (b : PaperBroker F D) (id : ℕ) → SameBook b (mark_canceled b id)
  unfolding mark_canceled
  mark_canceled-SameBook b id = ground arith

module _ {F D : Type 0} ⦃f : Float F⦄ ⦃c : Convert F D⦄ where
  open f use {add, sub, mul}
  open c use {to_float}

  mark_filled-SameBook :
      (b : PaperBroker F D) (id : ℕ) (qty : D) (price fee : F) (b' : PaperBroker F D)
      → mark_filled b id qty price fee ≡ some b'
      → SameBook b b'
  unfolding mark_filled
  mark_filled-SameBook b id qty price fee b' h = ground arith

  -- A filled entry opens its position and pays for it.
  pub record IsBought (b : PaperBroker F D) (req : OrderRequest D) (p : OpenPosition F D)
      (b' : PaperBroker F D) : Type 0 where
    pub positions_eq : b'.positions ≡ insert req.symbol p b.positions
    pub cash_eq :
        b'.cash
        ≡ sub b.cash (add (mul p.position.entry_price (to_float p.position.qty)) p.entry_fee)
    pub trades_eq : b'.trades ≡ b.trades
    pub pending_eq : b'.pending ≡ b.pending
    pub known_eq : b'.known ≡ b.known
    pub candles_eq : b'.candles ≡ b.candles
    pub costs_eq : b'.costs ≡ b.costs

  -- A settled exit removes the position, takes in the net proceeds and records the trade.
  pub record IsSettled (b : PaperBroker F D) (symbol : Symbol) (price : F) (t : Time)
      (reason : ExitReason) (p : OpenPosition F D) (b' : PaperBroker F D) : Type 0 where
    pub found : lookup symbol b.positions ≡ some p
    pub positions_eq : b'.positions ≡ erase symbol b.positions
    pub cash_eq : b'.cash ≡ add b.cash (net_proceeds b p price)
    pub trades_eq : b'.trades ≡ b.trades ++ (closed_trade b symbol p price t reason ∷ [])
    pub pending_eq : b'.pending ≡ b.pending
    pub known_eq : b'.known ≡ b.known
    pub candles_eq : b'.candles ≡ b.candles
    pub costs_eq : b'.costs ≡ b.costs

  pub fill_buy-IsBought :
      (b : PaperBroker F D) (req : OrderRequest D) (bar : Candle F) (t : Time)
      (b' : PaperBroker F D)
      → fill_buy b req bar t ≡ some b'
      → IsBought b req (opened b req bar t) b'
  unfolding fill_buy opened
  fill_buy-IsBought b req bar t b' h = let s = mark_filled-SameBook _ _ _ _ _ b' h in ground arith

  pub settle_exit-IsSettled :
      (b : PaperBroker F D) (symbol : Symbol) (price : F) (t : Time) (reason : ExitReason)
      (b' : PaperBroker F D)
      → settle_exit b symbol price t reason ≡ some b'
      → (p : OpenPosition F D) × IsSettled b symbol price t reason p b'
  unfolding settle_exit
  settle_exit-IsSettled b symbol price t reason b' h =
      elim (Option-cases (lookup symbol b.positions)) [
        | inl e ↦ absurd (ground arith)
        | inr (p, e) ↦ (p, ground arith)
      ]

  IsSettled-SameBook :
      {b : PaperBroker F D} {symbol : Symbol} {price : F} {t : Time} {reason : ExitReason}
      {p : OpenPosition F D} {b₁ b' : PaperBroker F D}
      → IsSettled b symbol price t reason p b₁
      → SameBook b₁ b'
      → IsSettled b symbol price t reason p b'
  IsSettled-SameBook done same = record {
    found = done.found;
    positions_eq = same.positions_eq ∙ done.positions_eq;
    cash_eq = same.cash_eq ∙ done.cash_eq;
    trades_eq = same.trades_eq ∙ done.trades_eq;
    pending_eq = same.pending_eq ∙ done.pending_eq;
    known_eq = same.known_eq ∙ done.known_eq;
    candles_eq = same.candles_eq ∙ done.candles_eq;
    costs_eq = same.costs_eq ∙ done.costs_eq;
  }

  -- An exit order at its bar closes the position, or leaves the account alone if it is gone.
  pub fill_sell-IsSettled :
      (b : PaperBroker F D) (req : OrderRequest D) (bar : Candle F) (t : Time)
      (b' : PaperBroker F D)
      → fill_sell b req bar t ≡ some b'
      → SameBook b b'
        ⊎ ((p : OpenPosition F D) × IsSettled b req.symbol
              (fill_price_of sell b bar.open_price)
              t
              signal
              p
              b')
  unfolding fill_sell
  fill_sell-IsSettled b req bar t b' h =
      let price = fill_price_of sell b bar.open_price in
      elim (Option-cases (settle_exit b req.symbol price t signal)) [
        | inl gone ↦ inl (ground (arith, mark_canceled-SameBook b req.client_order_id))
        | inr (b₁, e) ↦
            let (p, done) = settle_exit-IsSettled b req.symbol price t signal b₁ e in
            let same =
              mark_filled-SameBook b₁ req.client_order_id req.qty price b₁.last_exit_fee b'
                (rw e at h) in
            inr (p, IsSettled-SameBook done same)
      ]
