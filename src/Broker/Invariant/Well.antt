-- ===== src/Broker/Invariant/Well.antt =====
-- The invariant itself, and that `Submit` and `Cancel` keep it: paper.go.
use crypto_swing_bot.Prelude.{
  ℕ, ◌≡◌, refl, inl, inr, false, Bool-cases, none, Option-cases, [], ◌∷◌, ◌++◌, ◌==◌, ◌∙◌, ◌+◌,
  is_some, arith, All, All-append,
}
use crypto_swing_bot.Prelude.Dict.{lookup, IsDict, lookup-insert, insert-IsDict}
use crypto_swing_bot.Float.{Float, Decimal, Convert}
use crypto_swing_bot.Domain.{
  Symbol, Side, buy, sell, OrderType, market, stop_market, other, OrderRequest,
}
use crypto_swing_bot.Broker.Book.{PaperBroker}
use crypto_swing_bot.Broker.Orders.{
  is_queued, market_error, dequeue, order_error, move_stop, place, submit, cancel,
  find_client_order_id,
}
use crypto_swing_bot.Broker.Invariant.Queue.{
  IsUnique, All-map_lem, All-drop_middle, IsUnique-drop_middle, IsUnique-append, is_queued-IsApart,
  dequeue_split, IsEntryNew,
}

module _ {F D : Type 0} where
  -- No symbol has two positions, no entry is queued for a symbol with a position, and no two queued
  -- orders are of one symbol and side.
  pub record IsWell (b : PaperBroker F D) : Type 0 where
    pub is_dict : IsDict b.positions
    pub entries_new : All (IsEntryNew b.positions) b.pending
    pub is_unique : IsUnique b.pending

  pub IsWell-congr :
      (b b' : PaperBroker F D)
      → b'.positions ≡ b.positions
      → b'.pending ≡ b.pending
      → IsWell b
      → IsWell b'
  IsWell-congr b b' p q w = record {
    is_dict = rw p (w.is_dict);
    entries_new = rw (p, q) (w.entries_new);
    is_unique = rw q (w.is_unique);
  }

  -- `Cancel` keeps the invariant.
  pub cancel-IsWell :
      (b : PaperBroker F D) (symbol : Symbol) (id : ℕ) → IsWell b → IsWell (cancel b symbol id).0
  unfolding cancel
  cancel-IsWell b symbol id w =
      let cid = find_client_order_id symbol id b.seen in
      elim (Bool-cases (cid == 0)) [
        | inl e ↦ rw e w
        | inr e ↦ elim (Option-cases (dequeue cid b.pending)) [
          | inl n ↦ rw (e, n) w
          | inr (rest, s) ↦
              let (front, r, back, p, q, k) = dequeue_split cid b.pending rest s in
              let new = rw p at (w.entries_new) in
              let unique = rw p at (w.is_unique) in
              rw (e, s)
                (record {
                  is_dict = w.is_dict;
                  entries_new = rw q (All-drop_middle (IsEntryNew b.positions) front r back new).1;
                  is_unique = rw q (IsUnique-drop_middle front r back unique).1;
                })
        ]
      ]

module _ {F D : Type 0} ⦃f : Float F⦄ ⦃d : Decimal D⦄ ⦃c : Convert F D⦄ where
  move_stop-IsWell :
      (b : PaperBroker F D) (req : OrderRequest D)
      → IsWell b
      → IsWell (move_stop (lookup req.symbol b.positions) b req)
  unfolding move_stop
  move_stop-IsWell b req w = elim (Option-cases (lookup req.symbol b.positions)) [
    | inl e ↦ rw e (IsWell-congr b _ refl refl w)
    | inr (p, e) ↦ rw e (record {
      is_dict = insert-IsDict _ _ b.positions (w.is_dict);
      entries_new =
          All-map_lem b.pending (λ r new side. grind (arith, lookup-insert)) (w.entries_new);
      is_unique = w.is_unique;
    })
  ]

  queue-IsWell :
      (b : PaperBroker F D) (req : OrderRequest D)
      → IsWell b
      → IsEntryNew b.positions req
      → is_queued req.side req.symbol b.pending ≡ false
      → IsWell (record b { pending = b.pending ++ (req ∷ []) })
  queue-IsWell b req w new apart = record {
    is_dict = w.is_dict;
    entries_new =
        All-append (IsEntryNew b.positions) b.pending (req ∷ []) (w.entries_new) (new, tt);
    is_unique = IsUnique-append b.pending req (w.is_unique) (is_queued-IsApart req b.pending apart);
  }

  market_error-none :
      (side : Side) (b : PaperBroker F D) (req : OrderRequest D)
      → req.side ≡ side
      → market_error side b req ≡ none
      → IsEntryNew b.positions req × (is_queued req.side req.symbol b.pending ≡ false)
  market_error-none buy b req e h = ((λ s. ground arith), rw e (ground arith))
  market_error-none sell b req e h = ((λ s. absurd (ground arith)), rw e (ground arith))

  order_error-seq :
      (t : OrderType) (b : PaperBroker F D) (req : OrderRequest D) (n : ℕ)
      → order_error t (record b { seq = n }) req ≡ order_error t b req
  unfolding order_error
  order_error-seq market b req n = ground arith
  order_error-seq _ b req n = refl

  submit_new-IsWell :
      (t : OrderType) (b : PaperBroker F D) (req : OrderRequest D)
      → order_error t b req ≡ none
      → req.order_type ≡ t
      → IsWell b
      → IsWell (place t b req).0
  unfolding place order_error
  submit_new-IsWell market b req ok e w =
      let (new, apart) = market_error-none req.side b req refl (ground arith) in
      queue-IsWell b req w new apart
  submit_new-IsWell stop_market b req ok e w = move_stop-IsWell b req w
  submit_new-IsWell other b req ok e w = absurd (ground arith)

  -- `Submit` keeps the invariant, whatever is submitted.
  pub submit-IsWell :
      (b : PaperBroker F D) (req : OrderRequest D) → IsWell b → IsWell (submit b req).0
  unfolding submit
  submit-IsWell b req w = elim (Option-cases (lookup req.client_order_id b.seen)) [
    | inr (o, e) ↦ rw e w
    | inl e ↦ elim (Bool-cases (is_some (lookup req.symbol b.candles))) [
      | inr unknown ↦ rw (e, unknown) w
      | inl known ↦ elim (Option-cases (order_error req.order_type b req)) [
        | inr (err, bad) ↦ rw (e, known, bad) (IsWell-congr b _ refl refl w)
        | inl good ↦
            let b₁ : PaperBroker F D = record b { seq = b.seq + 1 } in
            let w₁ = IsWell-congr b b₁ refl refl w in
            rw (e, known, good)
              (IsWell-congr (place req.order_type b₁ req).0 _ refl refl (
                submit_new-IsWell req.order_type b₁ req
                  (order_error-seq req.order_type b req (b.seq + 1) ∙ good) refl w₁))
      ]
    ]
  ]
