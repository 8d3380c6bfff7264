-- ===== src/Engine/Exits/Sells.antt =====
-- internal/engine/daily.go, processExitOrStop: what is sent to the broker only sells.
use crypto_swing_bot.Prelude.{
  ℕ, ◌+◌, ◌≡◌, refl, sym, ◌∙◌, ap, inl, inr, Bool, true, false, Bool-cases, Option, none, some,
  Option-cases, is_some, List, [], ◌∷◌, ◌++◌, keep, ◌>>=◌, arith,
}
use crypto_swing_bot.Prelude.Dict.{lookup}
use crypto_swing_bot.Float.{Float, Decimal, Convert}
use crypto_swing_bot.Domain.{
  Symbol, Time, Signal, SignalKind, enter, exit, stop_update, Portfolio, OrderRequest, OrderType,
  buy, sell,
}
use crypto_swing_bot.Broker.Book.{PaperBroker, OpenPosition}
use crypto_swing_bot.Broker.Orders.{
  SubmitError, Submitted, same_side, order_error, move_stop, place, submit_new, submit,
}
use crypto_swing_bot.Risk.Breaker.{record_order_error}
use crypto_swing_bot.Engine.World.{Proposal, World, notify, order_failed}
use crypto_swing_bot.Engine.After.{After, ended}
use crypto_swing_bot.Engine.Tables.{insert_proposal}
use crypto_swing_bot.Engine.Resubmit.{EngineConfig}
use crypto_swing_bot.Engine.Rebuild.{DaySnapshot}
use crypto_swing_bot.Engine.Notices.{note_order_error, take_id}
use crypto_swing_bot.Engine.Exits.{
  Acted, with_order, process_exit_or_stop, report_failure, process_all,
}

module _ {D : Type 0} where
  keep-append :
      (p : OrderRequest D → Bool) (rs : List (OrderRequest D)) (r : OrderRequest D)
      → p r ≡ false
      → keep p (rs ++ (r ∷ [])) ≡ keep p rs
  keep-append p [] r h = rw h refl
  keep-append p (q ∷ qs) r h = ground (arith, keep-append p qs r h)

module _ {F D : Type 0} where
  -- The entries that wait for their bar.
  abbrev pub buys : PaperBroker F D → List (OrderRequest D)
  buys b = keep (λ r. same_side r.side buy) b.pending

module _ {F D : Type 0} ⦃f : Float F⦄ ⦃d : Decimal D⦄ ⦃c : Convert F D⦄ where
  open f use {lit, le}
  open c use {new_from_float}

  move_stop-pending :
      (o : Option (OpenPosition F D)) (b : PaperBroker F D) (req : OrderRequest D)
      → (move_stop o b req).pending ≡ b.pending
  unfolding move_stop
  move_stop-pending none b req = refl
  move_stop-pending (some p) b req = refl

  queued-buys :
      (b : PaperBroker F D) (req : OrderRequest D)
      → req.side ≡ sell
      → keep (λ r. same_side r.side buy) (b.pending ++ (req ∷ [])) ≡ buys b
  queued-buys b req h =
      keep-append (λ r. same_side r.side buy) b.pending req (ap (λ s. same_side s buy) h)

  place-buys :
      (t : OrderType) (b : PaperBroker F D) (req : OrderRequest D)
      → req.side ≡ sell
      → buys (place t b req).0 ≡ buys b
  unfolding place
  place-buys OrderType.stop_market b req h =
      ap (keep (λ r. same_side r.side buy))
        (move_stop-pending (lookup req.symbol b.positions) b req)
  place-buys OrderType.market b req h = queued-buys b req h
  place-buys OrderType.other b req h = queued-buys b req h

  submit_new-buys :
      (e : Option SubmitError) (b : PaperBroker F D) (req : OrderRequest D)
      → req.side ≡ sell
      → buys (submit_new e b req).0 ≡ buys b
  submit_new-buys (some e) b req h = refl
  submit_new-buys none b req h = place-buys req.order_type (record b { seq = b.seq + 1 }) req h

  -- A sell order queues no entry.
  pub submit-buys :
      (b : PaperBroker F D) (req : OrderRequest D)
      → req.side ≡ sell
      → buys (submit b req).0 ≡ buys b
  unfolding submit
  submit-buys b req h = elim (Option-cases (lookup req.client_order_id b.seen)) [
    | inr (o, seen) ↦ rw seen refl
    | inl unseen ↦ elim (Bool-cases (is_some (lookup req.symbol b.candles))) [
      | inl known ↦ rw (unseen, known) (submit_new-buys (order_error req.order_type b req) b req h)
      | inr unknown ↦ rw (unseen, unknown) refl
    ]
  ]

  -- The breaker is open, and these entries wait.
  abbrev pub IsCalm : List (OrderRequest D) → DaySnapshot F D → Type 0
  IsCalm waiting snap = (snap.breaker.state.is_open ≡ true) × (buys snap.broker ≡ waiting)

  -- What an exit or a stop leaves, if it does not panic.
  abbrev Leaves : (Acted F D → Type 0) → Option (Acted F D) → Type 0
  Leaves P none = Unit
  Leaves P (some a) = P a

  -- What every sell order keeps, and every order error that is noted, the exits and the stops keep.
  module _ (P : DaySnapshot F D → Type 0)
      (sells : (snap : DaySnapshot F D) (req : OrderRequest D)
        → req.side ≡ sell
        → P snap
        → P (record snap { broker = (submit snap.broker req).0 }))
      (notes : (now : Time) (snap : DaySnapshot F D) (w : World F D)
        → P snap
        → P (note_order_error now snap w).0) where
    with_order-keeps :
        (row : ℕ → Proposal F D) (snap : DaySnapshot F D) (w : World F D)
        (answer : PaperBroker F D × Submitted D)
        → P (record snap { broker = answer.0 })
        → P (with_order row snap w answer).snap
    with_order-keeps row snap w (b, Submitted.refused e) h = h
    with_order-keeps row snap w (b, Submitted.placed o) h =
        elim (Option-cases (insert_proposal (row o.id) w)) [
          | inl taken ↦ rw taken h
          | inr (w', new) ↦ rw new h
        ]

    process-keeps :
        (k : SignalKind) (cfg : EngineConfig F D) (s : Signal F) (p : Portfolio F D)
        (now as_of : Time) (snap : DaySnapshot F D) (w : World F D)
        → P snap
        → Leaves (λ a. P a.snap) (process_exit_or_stop k cfg s p now as_of snap w)
    unfolding process_exit_or_stop
    process-keeps enter cfg s p now as_of snap w h = h
    process-keeps exit cfg s p now as_of snap w h =
        elim (Option-cases (lookup s.symbol p.positions)) [
          | inl missing ↦ rw missing h
          | inr (pos, held) ↦ rw held (with_order-keeps _ snap (take_id w) _ (sells snap _ refl h))
        ]
    process-keeps stop_update cfg s p now as_of snap w h =
        elim (Bool-cases (le s.stop_price (lit 0 0))) [
          | inl wrong ↦ rw wrong h
          | inr right ↦ rw right (elim (Option-cases (new_from_float s.stop_price)) [
            | inl nan ↦ rw nan tt
            | inr (price, e) ↦ rw e (with_order-keeps _ snap (take_id w) _ (sells snap _ refl h))
          ])
        ]

    report-keeps :
        (sym : Symbol) (now : Time) (a : Acted F D) → P a.snap → P (report_failure sym now a).0
    report-keeps sym now a h = elim (Bool-cases a.fails) [
      | inl bad ↦ rw bad (notes now a.snap (notify (order_failed sym) a.world) h)
      | inr fine ↦ rw fine h
    ]

    pub process_all-keeps :
        (cfg : EngineConfig F D) (p : Portfolio F D) (now as_of : Time) (exits : List (Signal F))
        (snap : DaySnapshot F D) (w : World F D)
        → P snap
        → After (λ s w'. P s) (ended (process_all cfg p now as_of exits snap w))
    unfolding process_all
    process_all-keeps cfg p now as_of [] snap w h = h
    process_all-keeps cfg p now as_of (s ∷ rest) snap w h =
        go (process_exit_or_stop s.kind cfg s p now as_of snap w)
          (process-keeps s.kind cfg s p now as_of snap w h)
          (λ a kept.
            process_all-keeps cfg p now as_of rest (report_failure s.symbol now a).0
              (report_failure s.symbol now a).1 (report-keeps s.symbol now a kept))
      where
        go :
            (o : Option (Acted F D))
            → Leaves (λ a. P a.snap) o
            → ((a : Acted F D)
                → P a.snap
                → After
                    (λ t w'. P t)
                    (ended (
                      process_all cfg p now as_of rest
                        (report_failure s.symbol now a).0
                        (report_failure s.symbol now a).1)))
            → After
                (λ t w'. P t)
                (ended (
                  o >>= λ a.
                  process_all cfg p now as_of rest
                    (report_failure s.symbol now a).0
                    (report_failure s.symbol now a).1))
        go none l next = tt
        go (some a) l next = next a l

  note-IsCalm :
      (waiting : List (OrderRequest D)) (now : Time) (snap : DaySnapshot F D) (w : World F D)
      → IsCalm waiting snap
      → IsCalm waiting (note_order_error now snap w).0
  unfolding note_order_error record_order_error
  note-IsCalm waiting now snap w h = h

  -- The loop over the exits and stops queues no entry, and leaves an open breaker open.
  pub process_all-IsCalm :
      (waiting : List (OrderRequest D)) (cfg : EngineConfig F D) (p : Portfolio F D)
      (now as_of : Time) (exits : List (Signal F)) (snap : DaySnapshot F D) (w : World F D)
      → IsCalm waiting snap
      → After (λ s w'. IsCalm waiting s) (ended (process_all cfg p now as_of exits snap w))
  process_all-IsCalm waiting =
      process_all-keeps (IsCalm waiting)
        (λ snap req is_sell h. (h.0, submit-buys snap.broker req is_sell ∙ h.1))
        (note-IsCalm waiting)
