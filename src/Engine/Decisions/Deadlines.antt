-- ===== src/Engine/Decisions/Deadlines.antt =====
-- internal/engine/daily.go, awaitDecisions: a look at the deadlines of the open proposals.
use crypto_swing_bot.Prelude.{
  ℕ, ◌≤◌, ◌<◌, ◌≡◌, refl, sym, ◌∙◌, inl, inr, Bool-cases, none, some, [], ◌∷◌, ltb, ◌==◌, ==-refl,
  arith,
}
use crypto_swing_bot.Prelude.Dict.{Dict, lookup, IsDict}
use crypto_swing_bot.Domain.{Time}
use crypto_swing_bot.Notify.Approval.{ProposalStatus, pending, expired}
use crypto_swing_bot.Engine.World.{Proposal, World, goes, ◌>>=◌}
use crypto_swing_bot.Engine.Decisions.{expire_all}
use crypto_swing_bot.Engine.Decisions.Rows.{
  updated, IsOpen, Moves, lookup-same, row-status_at, update_or_stop-row, status_at-updated,
  close_head-Moves, keep_head-Moves,
}

module _ {F D : Type 0} where
  -- The deadlines of what is open lie behind the instant.
  abbrev pub InTime : Time → Dict (Proposal F D) → Type 0
  InTime now m = (k : ℕ) (p : Proposal F D) → lookup k m ≡ some p → now < p.expires_at

  abbrev pub Until : Time → Dict (Proposal F D) → Type 0
  Until horizon m = (k : ℕ) (p : Proposal F D) → lookup k m ≡ some p → p.expires_at ≤ horizon

  -- What a look at the deadlines comes to.
  pub record Looked (now : Time) (m : Dict (Proposal F D)) (w : World F D) : Type 0 where
    pub open_ps : Dict (Proposal F D)
    pub world : World F D
    pub runs : expire_all now m w ≡ goes open_ps world
    pub moves : Moves m w open_ps world
    pub dict : IsDict open_ps
    pub in_time : InTime now open_ps
    pub decisions : world.decisions ≡ w.decisions
    pub clock : world.now ≡ w.now
    pub cancel : world.cancel_at ≡ w.cancel_at

  tail-IsOpen :
      (id : ℕ) (p : Proposal F D) (rest : Dict (Proposal F D)) (w : World F D)
      → lookup id rest ≡ none
      → IsOpen ((id, p) ∷ rest) w
      → IsOpen rest w
  tail-IsOpen id p rest w fresh h k q e = elim (Bool-cases (id == k)) [
    | inl same ↦ absurd (ground (arith, sym (lookup-same id k rest same) ∙ fresh, e))
    | inr other ↦ h k q (rw other e)
  ]

  updated-IsOpen :
      (id : ℕ) (s : ProposalStatus) (t : Time) (p : Proposal F D) (m : Dict (Proposal F D))
      (w : World F D)
      → lookup id m ≡ none
      → IsOpen m w
      → IsOpen m (updated id s t 0 p w)
  updated-IsOpen id s t p m w fresh h k q e = elim (Bool-cases (id == k)) [
    | inl same ↦ absurd (ground (arith, sym (lookup-same id k m same) ∙ fresh, e))
    | inr other ↦ ((h k q e).0, status_at-updated k id s t 0 p w ∙ rw other (h k q e).1)
  ]

  pub expire_all-Looked :
      (now : Time) (m : Dict (Proposal F D)) (w : World F D)
      → IsDict m
      → IsOpen m w
      → Looked now m w
  unfolding expire_all
  expire_all-Looked now [] w d h = record {
    open_ps = [];
    world = w;
    runs = refl;
    moves = λ k. inl (refl, refl);
    dict = tt;
    in_time = λ k p e. absurd (ground (arith, e));
    decisions = refl;
    clock = refl;
    cancel = refl;
  }
  expire_all-Looked now ((id, p) ∷ rest) w d h = elim (Bool-cases (ltb now p.expires_at)) [
    | inl early ↦
        let l = expire_all-Looked now rest w d.1 (tail-IsOpen id p rest w d.0 h) in
        record {
          open_ps = (id, p) ∷ l.open_ps;
          world = l.world;
          runs = rw (early, ◌>>=◌, l.runs) refl;
          moves = keep_head-Moves id p rest l.open_ps w l.world d.0 l.moves;
          dict = (elim (l.moves id) [ inl kept ↦ kept.0 ∙ d.0 | inr done ↦ done.1 ], l.dict);
          in_time = λ k q e. elim (Bool-cases (id == k)) [
            | inl same ↦ ground (arith, early, same, e)
            | inr other ↦ l.in_time k q (ground (arith, other, e))
          ];
          decisions = l.decisions;
          clock = l.clock;
          cancel = l.cancel;
        }
    | inr late ↦
        let (q, found) = row-status_at id pending w (h id p (rw (==-refl id) refl)).1 in
        let w1 = updated id expired now 0 q w in
        let l =
          expire_all-Looked now rest w1 d.1
            (updated-IsOpen id expired now q rest w d.0 (tail-IsOpen id p rest w d.0 h)) in
        record {
          open_ps = l.open_ps;
          world = l.world;
          runs = rw (late, ◌>>=◌, update_or_stop-row id expired now 0 q w found) l.runs;
          moves = close_head-Moves id p q rest l.open_ps expired now 0 w l.world d.0 refl l.moves;
          dict = l.dict;
          in_time = l.in_time;
          decisions = l.decisions;
          clock = l.clock;
          cancel = l.cancel;
        }
  ]
