-- ===== src/Engine/Entries/Quiet.antt =====
-- internal/engine/daily.go, proposeEntry while the breaker is open.
use crypto_swing_bot.Prelude.{
  ℕ, ◌≡◌, ◌≢◌, refl, ap, inl, inr, true, false, Bool-cases, none, some, List, [], ◌∷◌, ◌++◌, All,
}
use crypto_swing_bot.Prelude.Dict.{lookup}
use crypto_swing_bot.Float.{Float, Decimal, Convert}
use crypto_swing_bot.Domain.{Time, Signal, enter, Portfolio}
use crypto_swing_bot.Risk.Gate.{Decision, GateInput}
use crypto_swing_bot.Risk.Gate.Rules.{evaluate_breaker}
use crypto_swing_bot.Broker.Book.{value_or}
use crypto_swing_bot.Backtest.Engine.{no_market}
use crypto_swing_bot.Engine.World.{Proposal, World}
use crypto_swing_bot.Engine.Resubmit.{EngineConfig}
use crypto_swing_bot.Engine.Rebuild.{DaySnapshot}
use crypto_swing_bot.Engine.Entries.{
  Proposed, propose_decided, propose_entry, propose_all, report_unsent,
}
use crypto_swing_bot.Engine.Notices.{take_id}

append_nil : {A : Type 0} (xs : List A) → xs ++ [] ≡ xs
append_nil [] = refl
append_nil (x ∷ xs) = ap (λ ys. x ∷ ys) (append_nil xs)

module _ {F D : Type 0} ⦃f : Float F⦄ ⦃d : Decimal D⦄ ⦃c : Convert F D⦄ where
  propose_decided-row :
      (cfg : EngineConfig F D) (id : ℕ) (s : Signal F) (now as_of : Time) (w : World F D)
      (z : Decision F D)
      → z.approved ≡ false
      → (propose_decided cfg id s now as_of w z).row ≡ none
  propose_decided-row cfg id s now as_of w z h = rw h refl

  not_approved :
      (z : Decision F D) (s : Signal F)
      → (z.approved ≡ true → s.kind ≢ enter)
      → s.kind ≡ enter
      → z.approved ≡ false
  not_approved z s h k = elim (Bool-cases z.approved) [
    | inl is_so ↦ absurd (h is_so k)
    | inr is_not ↦ is_not
  ]

  propose_entry-row :
      (cfg : EngineConfig F D) (s : Signal F) (p : Portfolio F D) (now as_of : Time)
      (snap : DaySnapshot F D) (w : World F D)
      → snap.breaker.state.is_open ≡ true
      → s.kind ≡ enter
      → (r : Proposed F D) × (propose_entry cfg s p now as_of snap w ≡ some r) × (r.row ≡ none)
  unfolding propose_entry
  propose_entry-row cfg s p now as_of snap w o k =
      let i : GateInput F D = record {
        portfolio = p;
        market = value_or no_market (lookup s.symbol w.markets);
        now = now;
        last_exit_at = value_or 0 (lookup s.symbol snap.last_exit_at);
        breaker_open = snap.breaker.state.is_open;
      } in
      let (z, e, h) = evaluate_breaker cfg.risk cfg.risk s i o in
      let id = cfg.new_proposal_id w.next_id in
      (
        propose_decided cfg id s now as_of (take_id w) z,
        rw e refl,
        propose_decided-row cfg id s now as_of (take_id w) z (not_approved z s h.0 k),
      )

  -- The loop over the entries adds nothing to what there is to wait for.
  pub propose_all-quiet :
      (cfg : EngineConfig F D) (p : Portfolio F D) (now as_of : Time) (snap : DaySnapshot F D)
      (entries : List (Signal F)) (ps : List (Proposal F D)) (w : World F D)
      → snap.breaker.state.is_open ≡ true
      → All (λ s. s.kind ≡ enter) entries
      → (w' : World F D) × (propose_all cfg p now as_of snap entries ps w ≡ some (ps, w'))
  unfolding propose_all
  propose_all-quiet cfg p now as_of snap [] ps w o h = (w, refl)
  propose_all-quiet cfg p now as_of snap (s ∷ rest) ps w o h =
      let (r, e, n) = propose_entry-row cfg s p now as_of snap w o h.0 in
      let (w', e') =
        propose_all-quiet cfg p now as_of snap rest ps (report_unsent s.symbol r) o h.1 in
      (w', rw (e, n, append_nil ps) e')
