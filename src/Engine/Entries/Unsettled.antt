-- ===== src/Engine/Entries/Unsettled.antt =====
-- internal/engine/daily.go, submitApproved: it settles nothing at the broker.
use crypto_swing_bot.Prelude.{
  ℕ, refl, inl, inr, Option, none, some, Option-cases, List, [], ◌∷◌, ◌>>=◌,
}
use crypto_swing_bot.Float.{Float, Decimal, Convert}
use crypto_swing_bot.Domain.{Symbol, Time}
use crypto_swing_bot.Broker.Book.{PaperBroker}
use crypto_swing_bot.Broker.Orders.{Submitted}
use crypto_swing_bot.Engine.World.{ProposalSide, long, exit, stop_update, Proposal, World}
use crypto_swing_bot.Engine.After.{After, ended}
use crypto_swing_bot.Engine.Resubmit.{
  EngineConfig, Resubmitted, last_order, stop_answer, protect_entry, resubmit_stop, resubmit_side,
  resubmit,
}
use crypto_swing_bot.Engine.Rebuild.{DaySnapshot}
use crypto_swing_bot.Engine.Entries.{settle_submitted, submit_approved, submit_all}
use crypto_swing_bot.Engine.Notices.{note_order_error}
use crypto_swing_bot.Broker.Orders.Unsettled.{IsUnsettled, IsUnsettled-trans, submit-IsUnsettled}

module _ {F D : Type 0} ⦃f : Float F⦄ ⦃d : Decimal D⦄ ⦃c : Convert F D⦄ where
  open c use {new_from_float}

  -- What an order that is submitted again leaves, if it does not panic.
  abbrev Leaves : PaperBroker F D → Option (Resubmitted F D) → Type 0
  Leaves b none = Unit
  Leaves b (some r) = IsUnsettled b r.broker

  last_order-IsUnsettled :
      (b : PaperBroker F D) (answer : PaperBroker F D × Submitted D)
      → IsUnsettled b answer.0
      → IsUnsettled b (last_order answer).broker
  last_order-IsUnsettled b (b', Submitted.placed o) h = h
  last_order-IsUnsettled b (b', Submitted.refused e) h = h

  stop_answer-IsUnsettled :
      (b : PaperBroker F D) (id : ℕ) (answer : PaperBroker F D × Submitted D)
      → IsUnsettled b answer.0
      → IsUnsettled b (stop_answer id answer).broker
  stop_answer-IsUnsettled b id (b', Submitted.placed o) h = h
  stop_answer-IsUnsettled b id (b', Submitted.refused e) h = h

  protect-IsUnsettled :
      (b : PaperBroker F D) (stop_id : ℕ) (k : Symbol) (stop : Option F)
      (answer : PaperBroker F D × Submitted D)
      → IsUnsettled b answer.0
      → Leaves b (protect_entry stop_id k stop answer)
  protect-IsUnsettled b stop_id k none (b', Submitted.placed o) h = h
  protect-IsUnsettled b stop_id k (some stop) (b', Submitted.placed o) h =
      elim (Option-cases (new_from_float stop)) [
        | inl nan ↦ rw nan tt
        | inr (price, e) ↦ rw e (
            stop_answer-IsUnsettled b o.id _ (IsUnsettled-trans b b' _ h (submit-IsUnsettled b' _)))
      ]
  protect-IsUnsettled b stop_id k none (b', Submitted.refused e) h = h
  protect-IsUnsettled b stop_id k (some stop) (b', Submitted.refused e) h = h

  resubmit_stop-IsUnsettled :
      (stop_id : ℕ) (k : Symbol) (stop : Option F) (b : PaperBroker F D)
      → Leaves b (resubmit_stop stop_id k stop b)
  resubmit_stop-IsUnsettled stop_id k none b = (refl, refl, refl, refl)
  resubmit_stop-IsUnsettled stop_id k (some stop) b = elim (Option-cases (new_from_float stop)) [
    | inl nan ↦ rw nan tt
    | inr (price, e) ↦ rw e (last_order-IsUnsettled b _ (submit-IsUnsettled b _))
  ]

  resubmit-IsUnsettled :
      (side : ProposalSide) (cfg : EngineConfig F D) (b : PaperBroker F D) (p : Proposal F D)
      → Leaves b (resubmit_side side cfg b p)
  resubmit-IsUnsettled long cfg b p = protect-IsUnsettled b _ _ _ _ (submit-IsUnsettled b _)
  resubmit-IsUnsettled exit cfg b p = last_order-IsUnsettled b _ (submit-IsUnsettled b _)
  resubmit-IsUnsettled stop_update cfg b p = resubmit_stop-IsUnsettled _ _ _ b

  settle-IsUnsettled :
      (b : PaperBroker F D) (p : Proposal F D) (now : Time) (snap : DaySnapshot F D) (w : World F D)
      (r : Resubmitted F D)
      → IsUnsettled b r.broker
      → IsUnsettled b (settle_submitted p now snap w r).0.broker
  unfolding note_order_error
  settle-IsUnsettled b p now snap w r h = elim (Option-cases r.error) [
    | inl fine ↦ rw fine h
    | inr (e, bad) ↦ rw bad h
  ]

  pub submit_all-IsUnsettled :
      (b : PaperBroker F D) (cfg : EngineConfig F D) (ps : List (Proposal F D))
      (snap : DaySnapshot F D) (w : World F D)
      → IsUnsettled b snap.broker
      → After (λ s w'. IsUnsettled b s.broker) (ended (submit_all cfg ps snap w))
  unfolding submit_all submit_approved resubmit
  submit_all-IsUnsettled b cfg [] snap w h = h
  submit_all-IsUnsettled b cfg (p ∷ ps) snap w h =
      go (resubmit_side p.side cfg snap.broker p) (resubmit-IsUnsettled p.side cfg snap.broker p)
        (λ r kept.
          submit_all-IsUnsettled b cfg ps (settle_submitted p w.now snap w r).0
            (settle_submitted p w.now snap w r).1
            (settle-IsUnsettled b p w.now snap w r
              (IsUnsettled-trans b snap.broker r.broker h kept)))
    where
      go :
          (o : Option (Resubmitted F D))
          → Leaves snap.broker o
          → ((r : Resubmitted F D)
              → IsUnsettled snap.broker r.broker
              → After
                  (λ s w'. IsUnsettled b s.broker)
                  (ended (
                    submit_all cfg ps
                      (settle_submitted p w.now snap w r).0
                      (settle_submitted p w.now snap w r).1)))
          → After
              (λ s w'. IsUnsettled b s.broker)
              (ended (
                (o >>= λ r. some (settle_submitted p w.now snap w r)) >>= λ s.
                submit_all cfg ps s.0 s.1))
      go none l next = tt
      go (some r) l next = next r l
