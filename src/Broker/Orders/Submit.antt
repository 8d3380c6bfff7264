-- ===== src/Broker/Orders/Submit.antt =====
-- `Submit`: paper.go.
use crypto_swing_bot.Prelude.{◌≡◌, some, arith}
use crypto_swing_bot.Prelude.Dict.{lookup, lookup-insert}
use crypto_swing_bot.Float.{Float, Decimal, Convert}
use crypto_swing_bot.Domain.{OrderRequest, Order}
use crypto_swing_bot.Broker.Book.{PaperBroker}
use crypto_swing_bot.Broker.Orders.{SubmitError, placed, refused, move_stop, place, submit}

module _ {F D : Type 0} ⦃f : Float F⦄ ⦃d : Decimal D⦄ ⦃c : Convert F D⦄ where
  submit_seen :
      (b : PaperBroker F D) (req : OrderRequest D) (o : Order D)
      → lookup req.client_order_id b.seen ≡ some o
      → submit b req ≡ (b, placed o)
  unfolding submit
  submit_seen b req o e = rw e

  module _ (b : PaperBroker F D) (req : OrderRequest D) where
    lookup-seen-submit :
        (o : Order D)
        → (submit b req).1 ≡ placed o
        → lookup req.client_order_id (submit b req).0.seen ≡ some o
    unfolding submit place
    lookup-seen-submit o h = grind (arith, lookup-insert)

    -- An order that is placed is recorded under its client id: to submit anything under that id again
    -- returns the same order and changes nothing.
    pub submit-submit :
        (req' : OrderRequest D) (o : Order D)
        → (submit b req).1 ≡ placed o
        → req'.client_order_id ≡ req.client_order_id
        → submit (submit b req).0 req' ≡ ((submit b req).0, placed o)
    submit-submit req' o h e = submit_seen (submit b req).0 req' o (rw e (lookup-seen-submit o h))

    -- Submitting moves no money: cash, trades, clock and cursors stay, whatever the order and the
    -- answer. A refused order changes nothing but the number of the next one.
    pub submit_keeps :
        let b' = (submit b req).0 in
        (b'.cash ≡ b.cash)
        × (b'.trades ≡ b.trades)
        × (b'.now ≡ b.now)
        × (b'.known ≡ b.known)
        × ((e : SubmitError) → (submit b req).1 ≡ refused e → record b' { seq = b.seq } ≡ b)
    unfolding submit place move_stop
    submit_keeps = ground arith
