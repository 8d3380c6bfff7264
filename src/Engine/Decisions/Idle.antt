-- ===== src/Engine/Decisions/Idle.antt =====
-- internal/engine/daily.go, awaitDecisions: a turn without a decision.
use crypto_swing_bot.Prelude.{
  ◌+◌, ◌≤◌, ◌≡◌, refl, sym, ◌∙◌, inl, inr, some, List, [], ◌∷◌, ==-refl, arith,
}
use crypto_swing_bot.Prelude.Dict.{Dict, lookup, IsDict}
use crypto_swing_bot.Domain.{Time}
use crypto_swing_bot.Engine.World.{Proposal, Decision, World, goes}
use crypto_swing_bot.Engine.Decisions.{idle, expire_all, turn}
use crypto_swing_bot.Engine.Decisions.Rows.{IsOpen, Moved, Moves}
use crypto_swing_bot.Engine.Decisions.Deadlines.{InTime, expire_all-Looked}
use crypto_swing_bot.Engine.Decisions.Turns.{
  Within, IsApproved, Until, Turned, All-map, Moves-IsApproved,
}

module _ {F D : Type 0} where
  -- A look at the deadlines, and the sleep behind it.
  pub idle-Turned :
      (horizon : Time) (queue : List Decision) (poll : Time) (m : Dict (Proposal F D))
      (ps : List (Proposal F D)) (w : World F D)
      → 1 ≤ poll
      → Until horizon m
      → Within w.decisions queue
      → IsDict m
      → IsOpen m w
      → Turned horizon queue poll idle m ps w
  unfolding turn
  idle-Turned horizon queue poll m ps w slow until q dict h =
      let l = expire_all-Looked w.now m w dict h in
      slept l.open_ps l.world l.runs l.moves l.dict l.in_time l.decisions l.clock l.cancel
    where
      slept :
          (m' : Dict (Proposal F D)) (w' : World F D)
          → expire_all w.now m w ≡ goes m' w'
          → Moves m w m' w'
          → IsDict m'
          → InTime w.now m'
          → w'.decisions ≡ w.decisions
          → w'.now ≡ w.now
          → w'.cancel_at ≡ w.cancel_at
          → Turned horizon queue poll idle m ps w
      slept [] w' runs moves dict' in_time same clock cancel = record {
        open_ps = [];
        approved_ps = ps;
        world = w';
        runs = rw (turn, runs) refl;
        moves = moves;
        dict = tt;
        approvals =
            All-map (IsApproved queue m w) (IsApproved queue [] w') ps
              (Moves-IsApproved queue m w [] w' moves);
        queued = rw same q;
        closer = inl refl;
        cancel = cancel;
      }
      slept ((k, p) ∷ m') w' runs moves dict' in_time same clock cancel = record {
        open_ps = (k, p) ∷ m';
        approved_ps = ps;
        world = record w' { now = w'.now + poll };
        runs = rw (turn, runs) refl;
        moves = moves;
        dict = dict';
        approvals =
            All-map (IsApproved queue m w) (IsApproved queue ((k, p) ∷ m') w') ps
              (Moves-IsApproved queue m w ((k, p) ∷ m') w' moves);
        queued = rw same q;
        closer = inr (
            let early = in_time k p (rw (==-refl k) refl) in
            let bound = until k p (still (moves k) (rw (==-refl k) refl)) in
            rw (same, clock) (omega (arith, early, bound, slow)));
        cancel = cancel;
      }
        where
          still :
              Moved m w ((k, p) ∷ m') w' k → lookup k ((k, p) ∷ m') ≡ some p → lookup k m ≡ some p
          still (inl kept) e = sym kept.0 ∙ e
          still (inr done) e = absurd (ground (arith, sym done.1 ∙ e))
