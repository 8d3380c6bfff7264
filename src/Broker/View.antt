-- ===== src/Broker/View.antt =====
-- What a caller sees of the account: paper.go, Portfolio, lastClose, ClosedTrades and
-- ClosedTradesSince.
use crypto_swing_bot.Prelude.{
  ℕ, Option, none, some, List, [], ◌∷◌, drop, length, leb, if◌then◌else◌,
}
use crypto_swing_bot.Prelude.Dict.{Dict, lookup}
use crypto_swing_bot.Float.{Float, Convert}
use crypto_swing_bot.Domain.{Candle, Position, Portfolio}
use crypto_swing_bot.Broker.Book.{ClosedTrade, OpenPosition, PaperBroker, value_or, bar_at}

module _ {F : Type 0} ⦃f : Float F⦄ where
  open f use {lit}

  abbrev pub close_of : Option (Candle F) → F
  close_of none = lit 0 0
  close_of (some bar) = bar.close

  unfoldable pub last_close : List (Candle F) → ℕ → F
  last_close series i = close_of (bar_at series i)

module _ {F D : Type 0} ⦃f : Float F⦄ ⦃c : Convert F D⦄ where
  open f use {add, mul}
  open c use {to_float}

  -- The loop over the open positions, in some order, that adds up the equity.
  unfoldable pub marked : PaperBroker F D → F → Dict (OpenPosition F D) → F
  marked b equity [] = equity
  marked b equity ((sym, p) ∷ rest) =
      let last =
        last_close (value_or [] (lookup sym b.candles)) (value_or 0 (lookup sym b.known)) in
      marked b (add equity (mul (to_float p.position.qty) last)) rest

  unfoldable pub plain_positions : Dict (OpenPosition F D) → Dict (Position F D)
  plain_positions [] = []
  plain_positions ((sym, p) ∷ rest) = (sym, p.position) ∷ plain_positions rest

  -- The method `Portfolio`.
  unfoldable pub portfolio : PaperBroker F D → Portfolio F D
  portfolio b = record {
    cash = b.cash;
    positions = plain_positions b.positions;
    equity = marked b b.cash b.positions;
  }

module _ {F D : Type 0} where
  unfoldable pub closed_trades_since : PaperBroker F D → ℕ → List (ClosedTrade F D)
  closed_trades_since b n = if leb (length b.trades) n then [] else drop n b.trades
