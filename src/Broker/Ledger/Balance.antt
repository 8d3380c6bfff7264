-- ===== src/Broker/Ledger/Balance.antt =====
-- Cash plus invested money is the initial cash plus the realised profits, after any history of calls:
-- paper.go, fillPending, settleExit, checkStops.
pub mod Settlement
use mathlib.Core.Option.{some-injective}
use crypto_swing_bot.Prelude.{
  ℕ, ◌≡◌, refl, sym, ap, ◌∙◌, inl, inr, Bool, Bool-cases, Option, none, some, is_some, Option-cases,
  List, [], ◌∷◌, ◌==◌, ◌+◌, any, arith,
}
use crypto_swing_bot.Prelude.Dict.{Dict, lookup, keys}
use crypto_swing_bot.Float.{Float, Decimal, Convert}
use crypto_swing_bot.Domain.{
  Symbol, Time, Candle, OrderType, market, stop_market, other, OrderRequest,
}
use crypto_swing_bot.Broker.Book.{
  OpenPosition, PaperBroker, Created, created, new_paper_broker, Mode, Costs,
}
use crypto_swing_bot.Broker.Day.{
  Filling, settled, fill_loop, fill_one, fill_pending, update_high_water, sort_symbols, check_stop,
  check_all_stops, check_stops, advance,
}
use crypto_swing_bot.Broker.Day.Phases.{at_day, closed_day, advance_phases}
use crypto_swing_bot.Broker.Orders.{
  SubmitError, dequeue, order_error, move_stop, place, submit, cancel, find_client_order_id,
}
use crypto_swing_bot.Broker.Orders.Submit.{submit_keeps}
use crypto_swing_bot.Broker.Invariant.{
  IsWell, IsWell-congr, IsLoopWell, fill_one-IsLoopWell, fill_pending-IsWell, Call, submits,
  cancels, advances, Reach, here, next, Reach-IsWell, new-IsWell,
}
use crypto_swing_bot.Broker.Ledger.Exact.{IsExact}
use crypto_swing_bot.Broker.Ledger.Sums.{
  invested, realised, invested-insert_same, invested-raise_all,
}
use Settlement.{IsBalanced, IsBalanced-congr, fill_one-IsBalanced, settle_stop-IsBalanced}

module _ {F D : Type 0} ⦃f : Float F⦄ ⦃c : Convert F D⦄ (x : IsExact F) (initial : F) where
  fill_loop-IsBalanced :
      (t : Time) (reqs : List (OrderRequest D)) (s s' : Filling F D)
      → fill_loop t reqs s ≡ some s'
      → IsLoopWell s reqs
      → IsBalanced initial s.broker
      → IsBalanced initial s'.broker
  unfolding fill_loop
  fill_loop-IsBalanced t [] s s' h w bal = rw (← some-injective _ _ h) bal
  fill_loop-IsBalanced t (req ∷ reqs) s s' h w bal = elim (Option-cases (fill_one t req s)) [
    | inl panic ↦ absurd (ground arith)
    | inr (s₁, e) ↦
        fill_loop-IsBalanced t reqs s₁ s' (rw e at h) (fill_one-IsLoopWell t req reqs s s₁ e w)
          (fill_one-IsBalanced x initial t req reqs s s₁ e w bal)
  ]

  fill_pending-IsBalanced :
      (t : Time) (b : PaperBroker F D) (s : Filling F D)
      → fill_pending t b ≡ some s
      → IsWell b
      → IsBalanced initial b
      → IsBalanced initial s.broker
  unfolding fill_pending
  fill_pending-IsBalanced t b s h w bal =
      let start : Filling F D = record { broker = b; remaining = []; just_opened = [] } in
      elim (Option-cases (fill_loop t b.pending start)) [
        | inl panic ↦ absurd (ground arith)
        | inr (s₁, e) ↦
            let done =
              fill_loop-IsBalanced t b.pending start s₁ e
                (record {
                  is_dict = w.is_dict;
                  entries_new = w.entries_new;
                  is_unique = w.is_unique;
                })
                bal in
            let same : record s₁ { broker = record (s₁.broker) { pending = s₁.remaining } } ≡ s =
              ground arith in
            rw (← same) done
      ]

  check_all_stops-IsBalanced :
      (t : Time) (just_opened ss : List Symbol) (b : PaperBroker F D)
      → IsBalanced initial b
      → IsBalanced initial (check_all_stops t just_opened ss b)
  unfolding check_all_stops check_stop
  check_all_stops-IsBalanced t just_opened [] b bal = bal
  check_all_stops-IsBalanced t just_opened (s ∷ ss) b bal =
      check_all_stops-IsBalanced t just_opened ss (check_stop t just_opened s b)
        (elim (Bool-cases (any (λ y. y == s) just_opened)) [
          | inl e ↦ rw e bal
          | inr e ↦ rw e (settle_stop-IsBalanced x initial _ b s t bal)
        ])

  advance-IsBalanced :
      (b b' : PaperBroker F D) (t : Time)
      → advance b t ≡ settled b'
      → IsWell b
      → IsBalanced initial b
      → IsBalanced initial b'
  unfolding check_stops update_high_water
  advance-IsBalanced b b' t h w bal =
      let (s, e, same, on_time) = advance_phases b b' t h in
      let filled = fill_pending-IsBalanced t (at_day b t) s e (IsWell-congr b _ refl refl w) bal in
      let marked : IsBalanced initial (update_high_water t s.broker) =
        IsBalanced-congr initial s.broker (update_high_water t s.broker) refl refl
          (invested-raise_all s.broker t s.broker.positions) filled in
      rw same (
        check_all_stops-IsBalanced t s.just_opened
          (sort_symbols (keys (update_high_water t s.broker).positions))
          (update_high_water t s.broker) marked)

module _ {F D : Type 0} ⦃f : Float F⦄ ⦃d : Decimal D⦄ ⦃c : Convert F D⦄ where
  invested-move_stop :
      (b : PaperBroker F D) (req : OrderRequest D)
      → invested (move_stop (lookup req.symbol b.positions) b req).positions ≡ invested b.positions
  unfolding move_stop
  invested-move_stop b req = elim (Option-cases (lookup req.symbol b.positions)) [
    | inl e ↦ rw e refl
    | inr (p, e) ↦ rw e (invested-insert_same req.symbol p _ b.positions e refl)
  ]

  invested-place :
      (t : OrderType) (b : PaperBroker F D) (req : OrderRequest D)
      → invested (place t b req).0.positions ≡ invested b.positions
  unfolding place
  invested-place stop_market b req = invested-move_stop b req
  invested-place _ b req = refl

  invested-submit :
      (b : PaperBroker F D) (req : OrderRequest D)
      → invested (submit b req).0.positions ≡ invested b.positions
  unfolding submit
  invested-submit b req = elim (Option-cases (lookup req.client_order_id b.seen)) [
    | inr (o, e) ↦ rw e refl
    | inl e ↦ elim (Bool-cases (is_some (lookup req.symbol b.candles))) [
      | inr unknown ↦ rw (e, unknown) refl
      | inl known ↦ elim (Option-cases (order_error req.order_type b req)) [
        | inr (err, bad) ↦ rw (e, known, bad) refl
        | inl good ↦ rw (e, known, good) (invested-place req.order_type _ req)
      ]
    ]
  ]

  module _ (x : IsExact F) (initial : F) where
    Call-IsBalanced :
        {b b' : PaperBroker F D}
        → Call b b'
        → IsWell b
        → IsBalanced initial b
        → IsBalanced initial b'
    unfolding cancel
    Call-IsBalanced {b} (submits req) w bal =
        let (cash, trades, clock, cursors, on_error) = submit_keeps b req in
        IsBalanced-congr initial b (submit b req).0 cash trades (invested-submit b req) bal
    Call-IsBalanced {b} (cancels symbol id) w bal =
        IsBalanced-congr initial b (cancel b symbol id).0 (ground arith) (ground arith)
          (ground arith) bal
    Call-IsBalanced {b} (advances {b'} t e) w bal = advance-IsBalanced x initial b b' t e w bal

    Reach-IsBalanced :
        {b b' : PaperBroker F D}
        → Reach b b'
        → IsWell b
        → IsBalanced initial b
        → IsBalanced initial b'
    Reach-IsBalanced here w bal = bal
    Reach-IsBalanced (next r call) w bal =
        Call-IsBalanced call (Reach-IsWell r w) (Reach-IsBalanced r w bal)

    new_balance :
        (mode : Mode) (candles : Dict (List (Candle F))) (costs : Costs F) (now : Time) (name : ℕ)
        {b : PaperBroker F D}
        → new_paper_broker mode candles initial costs now name ≡ created b
        → IsBalanced initial b
    unfolding new_paper_broker
    new_balance mode candles costs now name h = ground arith

    -- From a new broker on, after any submissions, cancellations and settled days: the cash and what
    -- the open positions have cost, fees included, are together the initial cash and the profits and
    -- losses of the closed trades, if addition is exact.
    pub new-IsBalanced :
        (mode : Mode) (candles : Dict (List (Candle F))) (costs : Costs F) (now : Time) (name : ℕ)
        {b b' : PaperBroker F D}
        → new_paper_broker mode candles initial costs now name ≡ created b
        → Reach b b'
        → IsBalanced initial b'
    new-IsBalanced mode candles costs now name {b} h r =
        Reach-IsBalanced r (new-IsWell mode candles initial costs now name h here)
          (new_balance mode candles costs now name h)
