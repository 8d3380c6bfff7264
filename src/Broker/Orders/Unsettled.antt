-- ===== src/Broker/Orders/Unsettled.antt =====
-- `Submit`: paper.go. It settles nothing.
use crypto_swing_bot.Prelude.{
  ◌+◌, ◌≡◌, refl, sym, ◌∙◌, ap, inl, inr, Bool-cases, Option, none, some, Option-cases, is_some, [],
  ◌∷◌, ◌==◌, arith,
}
use crypto_swing_bot.Prelude.Dict.{Dict, lookup, insert}
use crypto_swing_bot.Float.{Float, Decimal, Convert}
use crypto_swing_bot.Domain.{Symbol, OrderRequest, OrderType}
use crypto_swing_bot.Broker.Book.{PaperBroker, OpenPosition, value_or}
use crypto_swing_bot.Broker.View.{last_close, marked, portfolio}
use crypto_swing_bot.Broker.Orders.{SubmitError, order_error, move_stop, place, submit_new, submit}

module _ {F D : Type 0} ⦃f : Float F⦄ ⦃c : Convert F D⦄ where
  open f use {add, mul}
  open c use {to_float}

  -- The equity reads the candles and the cursors of a broker, and nothing else.
  marked-same :
      (b b' : PaperBroker F D) (equity : F) (ps : Dict (OpenPosition F D))
      → b'.candles ≡ b.candles
      → b'.known ≡ b.known
      → marked b' equity ps ≡ marked b equity ps
  unfolding marked
  marked-same b b' equity [] h k = refl
  marked-same b b' equity ((s, p) ∷ rest) h k =
      rw (h, k)
        (marked-same b b'
          (add equity (
            mul (to_float p.position.qty)
              (last_close (value_or [] (lookup s b.candles)) (value_or 0 (lookup s b.known)))))
          rest h k)

  -- A stop that is moved does not change the equity.
  marked-moved :
      (b : PaperBroker F D) (price : F) (k : Symbol) (p : OpenPosition F D)
      (ps : Dict (OpenPosition F D)) (equity : F)
      → lookup k ps ≡ some p
      → marked b equity
          (insert k (record p { position = record (p.position) { stop_price = price } }) ps)
        ≡ marked b equity ps
  unfolding marked
  marked-moved b price k p [] equity h = absurd (ground (arith, h))
  marked-moved b price k p ((j, q) ∷ rest) equity h = elim (Bool-cases (j == k)) [
    | inl same ↦ let is_p : q ≡ p = ground (arith, h, same) in rw (same, is_p) refl
    | inr other ↦ rw other (
        marked-moved b price k p rest
          (add equity (
            mul (to_float q.position.qty)
              (last_close (value_or [] (lookup j b.candles)) (value_or 0 (lookup j b.known)))))
          (sym (rw other refl) ∙ h))
  ]

module _ {F D : Type 0} ⦃f : Float F⦄ ⦃d : Decimal D⦄ ⦃c : Convert F D⦄ where
  open c use {to_float}

  -- Between two states of the broker nothing was settled: the closed trades, the candles, the cash and
  -- the equity are the same.
  abbrev pub IsUnsettled : PaperBroker F D → PaperBroker F D → Type 0
  IsUnsettled b b' =
      (b'.trades ≡ b.trades)
      × (b'.candles ≡ b.candles)
      × ((portfolio b').cash ≡ (portfolio b).cash)
      × ((portfolio b').equity ≡ (portfolio b).equity)

  pub IsUnsettled-trans :
      (a b e : PaperBroker F D) → IsUnsettled a b → IsUnsettled b e → IsUnsettled a e
  IsUnsettled-trans a b e h k = (k.0 ∙ h.0, k.1 ∙ h.1, k.2 ∙ h.2, k.3 ∙ h.3)

  -- A broker with the same positions and cash, and the same market.
  same-IsUnsettled :
      (b b' : PaperBroker F D)
      → b'.trades ≡ b.trades
      → b'.candles ≡ b.candles
      → b'.known ≡ b.known
      → b'.cash ≡ b.cash
      → b'.positions ≡ b.positions
      → IsUnsettled b b'
  unfolding portfolio
  same-IsUnsettled b b' t h k m p = (
    t,
    h,
    m,
    ap (λ e. marked b' e b'.positions) m
        ∙ ap (marked b' b.cash) p
        ∙ marked-same b b' b.cash b.positions h k,
  )

  move_stop-IsUnsettled :
      (b : PaperBroker F D) (req : OrderRequest D)
      → IsUnsettled b (move_stop (lookup req.symbol b.positions) b req)
  unfolding move_stop portfolio
  move_stop-IsUnsettled b req = elim (Option-cases (lookup req.symbol b.positions)) [
    | inl missing ↦ rw missing (refl, refl, refl, marked-same b _ b.cash b.positions refl refl)
    | inr (p, held) ↦ rw held (
      refl,
      refl,
      refl,
      marked-same b _ b.cash _ refl refl
          ∙ marked-moved b (to_float req.price) req.symbol p b.positions b.cash held,
    )
  ]

  place-IsUnsettled :
      (t : OrderType) (b : PaperBroker F D) (req : OrderRequest D) → IsUnsettled b (place t b req).0
  unfolding place
  place-IsUnsettled OrderType.stop_market b req = move_stop-IsUnsettled b req
  place-IsUnsettled OrderType.market b req = same-IsUnsettled b _ refl refl refl refl refl
  place-IsUnsettled OrderType.other b req = same-IsUnsettled b _ refl refl refl refl refl

  submit_new-IsUnsettled :
      (e : Option SubmitError) (b : PaperBroker F D) (req : OrderRequest D)
      → IsUnsettled b (submit_new e b req).0
  submit_new-IsUnsettled (some e) b req = same-IsUnsettled b _ refl refl refl refl refl
  submit_new-IsUnsettled none b req =
      let b1 : PaperBroker F D = record b { seq = b.seq + 1 } in
      let b2 = (place req.order_type b1 req).0 in
      IsUnsettled-trans b b1 _ (same-IsUnsettled b b1 refl refl refl refl refl) (
        IsUnsettled-trans b1 b2 _ (place-IsUnsettled req.order_type b1 req)
          (same-IsUnsettled b2 _ refl refl refl refl refl))

  -- An order settles nothing when it is submitted.
  pub submit-IsUnsettled :
      (b : PaperBroker F D) (req : OrderRequest D) → IsUnsettled b (submit b req).0
  unfolding submit
  submit-IsUnsettled b req = elim (Option-cases (lookup req.client_order_id b.seen)) [
    | inr (o, seen) ↦ rw seen (refl, refl, refl, refl)
    | inl unseen ↦ elim (Bool-cases (is_some (lookup req.symbol b.candles))) [
      | inl known ↦
          rw (unseen, known) (submit_new-IsUnsettled (order_error req.order_type b req) b req)
      | inr unknown ↦ rw (unseen, unknown) (refl, refl, refl, refl)
    ]
  ]
