-- ===== src/Engine/Decisions/Loop.antt =====
-- internal/engine/daily.go, awaitDecisions: the whole wait.
use crypto_swing_bot.Prelude.{
  ℕ, zero, suc, ◌≤◌, ◌<◌, ◌≡◌, refl, sym, ◌∙◌, ◌⊎◌, inl, inr, Bool, true, false, Bool-cases, Option,
  none, some, List, [], ◌∷◌, ltb, length, All, arith,
}
use crypto_swing_bot.Prelude.Dict.{Dict, IsDict}
use crypto_swing_bot.Domain.{Time}
use crypto_swing_bot.Engine.World.{Proposal, Decision, World, Step, goes, stops, context_canceled}
use crypto_swing_bot.Engine.Decisions.{
  Choice, canceled, idle, received, choose, is_due, arrived, select, turn, await_loop,
}
use crypto_swing_bot.Engine.Decisions.Rows.{IsOpen, Moves, Moves-trans, Moves-IsOpen}
use crypto_swing_bot.Engine.Decisions.Idle.{idle-Turned}
use crypto_swing_bot.Engine.Decisions.Turns.{
  Within, Fits, IsApproved, left, Until, Turned, received-Turned,
}

choose-Fits :
    (due : Bool) (first : Bool) (now : Time) (ds : List Decision)
    → Fits (choose due first (arrived now ds)) ds
choose-Fits true first now [] = tt
choose-Fits false first now [] = tt
choose-Fits true true now (d ∷ ds) = elim (Bool-cases (ltb now d.at_time)) [
  | inl early ↦ rw early tt
  | inr there ↦ rw there tt
]
choose-Fits true false now (d ∷ ds) = elim (Bool-cases (ltb now d.at_time)) [
  | inl early ↦ rw early tt
  | inr there ↦ rw there (ds, refl)
]
choose-Fits false first now (d ∷ ds) = elim (Bool-cases (ltb now d.at_time)) [
  | inl early ↦ rw early tt
  | inr there ↦ rw there (ds, refl)
]

choose-canceled :
    (due first : Bool) (o : Option Decision) → choose due first o ≡ canceled → due ≡ true
choose-canceled true first o e = refl
choose-canceled false first none e = absurd (ground (arith, e))
choose-canceled false first (some d) e = absurd (ground (arith, e))

module _ {F D : Type 0} where
  -- How a wait ends: with every proposal decided, or by a cancellation, which leaves some of them open.
  pub data Outcome (queue : List Decision) (m : Dict (Proposal F D)) (w : World F D)
      : Step F D (List (Proposal F D)) → Type 0 where
    done :
        (ps : List (Proposal F D)) (w' : World F D)
        → Moves m w [] w'
        → All (IsApproved queue [] w') ps
        → Outcome queue m w (goes ps w')
    cut :
        (m' : Dict (Proposal F D)) (w' : World F D)
        → Moves m w m' w'
        → is_due w'.now w'.cancel_at ≡ true
        → Outcome queue m w (stops context_canceled w')

  Outcome-trans :
      (queue : List Decision) (m : Dict (Proposal F D)) (w : World F D) (m' : Dict (Proposal F D))
      (w' : World F D) (s : Step F D (List (Proposal F D)))
      → Moves m w m' w'
      → Outcome queue m' w' s
      → Outcome queue m w s
  Outcome-trans queue m w m' w' _ f (done ps w'' g a) =
      done ps w'' (Moves-trans m w m' w' [] w'' f g) a
  Outcome-trans queue m w m' w' _ f (cut m'' w'' g d) =
      cut m'' w'' (Moves-trans m w m' w' m'' w'' f g) d

  Until-Moves :
      (horizon : Time) (m : Dict (Proposal F D)) (w : World F D) (m' : Dict (Proposal F D))
      (w' : World F D)
      → Moves m w m' w'
      → Until horizon m
      → Until horizon m'
  Until-Moves horizon m w m' w' f u k p e = elim (f k) [
    | inl kept ↦ u k p (sym kept.0 ∙ e)
    | inr gone ↦ absurd (ground (arith, sym gone.1 ∙ e))
  ]

  pub await_loop-done :
      (n : ℕ) (first : ℕ → Bool) (poll : Time) (ps : List (Proposal F D)) (w : World F D)
      → await_loop n first poll [] ps w ≡ goes ps w
  unfolding await_loop
  await_loop-done zero first poll ps w = refl
  await_loop-done (suc n) first poll ps w = refl

  closed :
      (queue : List Decision) (n : ℕ) (first : ℕ → Bool) (poll : Time) (m : Dict (Proposal F D))
      (ps : List (Proposal F D)) (w : World F D)
      → m ≡ []
      → All (IsApproved queue m w) ps
      → Outcome queue m w (await_loop n first poll m ps w)
  closed queue n first poll [] ps w e a =
      rw (await_loop-done n first poll ps w) (done ps w (λ k. inl (refl, refl)) a)
  closed queue n first poll (x ∷ xs) ps w e a = absurd (ground (arith, e))

  -- A turn is cut short by the cancellation, or goes on.
  turned :
      (horizon : Time) (queue : List Decision) (first : ℕ → Bool) (poll : Time)
      (m : Dict (Proposal F D)) (ps : List (Proposal F D)) (w : World F D)
      → 1 ≤ poll
      → Until horizon m
      → Within w.decisions queue
      → IsDict m
      → IsOpen m w
      → ((select first w ≡ canceled) × (is_due w.now w.cancel_at ≡ true))
        ⊎ Turned horizon queue poll (select first w) m ps w
  unfolding select
  turned horizon queue first poll m ps w slow until q dict h =
      chosen (select first w) refl
        (choose-Fits (is_due w.now w.cancel_at) (first (length w.decisions)) w.now w.decisions)
    where
      chosen :
          (choice : Choice)
          → select first w ≡ choice
          → Fits choice w.decisions
          → ((choice ≡ canceled) × (is_due w.now w.cancel_at ≡ true))
            ⊎ Turned horizon queue poll choice m ps w
      chosen canceled e fits = inl (
        refl,
        choose-canceled (is_due w.now w.cancel_at) (first (length w.decisions))
            (arrived w.now w.decisions) e,
      )
      chosen (received d) e fits = inr (received-Turned horizon queue poll d m ps w fits q dict h)
      chosen idle e fits = inr (idle-Turned horizon queue poll m ps w slow until q dict h)

  -- A loop that has fuel for its decisions and its time ends.
  pub await_loop-Outcome :
      (horizon : Time) (queue : List Decision) (n : ℕ) (first : ℕ → Bool) (poll : Time)
      (m : Dict (Proposal F D)) (ps : List (Proposal F D)) (w : World F D)
      → 1 ≤ poll
      → left horizon w < n
      → Until horizon m
      → Within w.decisions queue
      → IsDict m
      → IsOpen m w
      → All (IsApproved queue m w) ps
      → Outcome queue m w (await_loop n first poll m ps w)
  unfolding await_loop turn
  await_loop-Outcome horizon queue zero first poll m ps w slow enough until q dict h a =
      absurd (omega (arith, enough))
  await_loop-Outcome horizon queue (suc n) first poll [] ps w slow enough until q dict h a =
      done ps w (λ k. inl (refl, refl)) a
  await_loop-Outcome horizon queue (suc n) first poll (r ∷ rs) ps w slow enough until q dict h a =
      elim (turned horizon queue first poll (r ∷ rs) ps w slow until q dict h) [
        | inl stopped ↦
            rw (await_loop, stopped.0) (cut (r ∷ rs) w (λ k. inl (refl, refl)) stopped.1)
        | inr t ↦
            rw (await_loop, t.runs)
              (Outcome-trans queue (r ∷ rs) w t.open_ps t.world
                (await_loop n first poll t.open_ps t.approved_ps t.world) t.moves
                (elim t.closer [
                  | inl none_left ↦
                      closed queue n first poll t.open_ps t.approved_ps t.world none_left
                        (t.approvals a)
                  | inr closer ↦
                      await_loop-Outcome horizon queue n first poll t.open_ps t.approved_ps t.world
                        slow (omega (arith, closer, enough))
                        (Until-Moves horizon (r ∷ rs) w t.open_ps t.world t.moves until) t.queued
                        t.dict (Moves-IsOpen (r ∷ rs) w t.open_ps t.world t.moves h) (t.approvals a)
                ]))
      ]
