-- ===== src/Engine/Decisions/Answers.antt =====
-- internal/engine/daily.go, awaitDecisions: that it ends, what it returns, and what it writes.
use mathlib.Core.Path.{subst}
use crypto_swing_bot.Prelude.{
  ℕ, ◌+◌, ◌-◌, ◌≤◌, ◌<◌, ◌≡◌, refl, ◌⊎◌, inl, inr, Bool, true, Option, none, some, is_some,
  Option-cases, List, [], ◌∷◌, length, All, arith,
}
use crypto_swing_bot.Prelude.Dict.{Dict, lookup}
use crypto_swing_bot.Domain.{Time}
use crypto_swing_bot.Notify.Approval.{ProposalStatus, pending, approved, can_transition}
use crypto_swing_bot.Engine.World.{
  Proposal, Decision, World, Step, goes, stops, panics, context_canceled,
}
use crypto_swing_bot.Engine.Decisions.{is_due, by_id, await_decisions}
use crypto_swing_bot.Engine.Decisions.Rows.{is_decided, status_at, Moves, Moved}
use crypto_swing_bot.Engine.Decisions.Turns.{is_granted, IsApproved}
use crypto_swing_bot.Engine.Decisions.Loop.{Outcome, done, cut}
use crypto_swing_bot.Engine.Decisions.Ends.{
  IsAsked, by_id-All, by_id-IsOpen, await_decisions-Outcome,
}

is_decided-can_transition :
    (o : Option ProposalStatus)
    → is_decided o ≡ true
    → (s : ProposalStatus) × (o ≡ some s) × (can_transition pending s ≡ true)
unfolding can_transition
is_decided-can_transition none h = absurd (ground (arith, h))
is_decided-can_transition (some s) h = (s, refl, of_status s h)
  where
    of_status : (t : ProposalStatus) → is_decided (some t) ≡ true → can_transition pending t ≡ true
    of_status ProposalStatus.pending e = absurd (ground (arith, e))
    of_status ProposalStatus.approved e = refl
    of_status ProposalStatus.rejected e = refl
    of_status ProposalStatus.expired e = refl
    of_status ProposalStatus.submitted e = absurd (ground (arith, e))
    of_status ProposalStatus.filled e = absurd (ground (arith, e))
    of_status ProposalStatus.failed e = absurd (ground (arith, e))

module _ {F D : Type 0} where
  -- Every proposal is decided, or the wait was canceled at an instant at which that was due.
  abbrev pub IsSettled : List (Proposal F D) → Step F D (List (Proposal F D)) → Type 0
  IsSettled ps (goes qs w') = All (λ p. is_decided (status_at p.id w') ≡ true) ps
  IsSettled ps (stops e w') = (e ≡ context_canceled) × (is_due w'.now w'.cancel_at ≡ true)
  IsSettled ps panics = ⊥

  -- The rows of this id before and after: the same status, or a pending one that was decided.
  abbrev pub IsLawful : World F D → World F D → ℕ → Type 0
  IsLawful w w' k =
      (status_at k w' ≡ status_at k w)
      ⊎ ((status_at k w ≡ some pending)
          × ((s : ProposalStatus) × (status_at k w' ≡ some s) × (can_transition pending s ≡ true)))

  -- Every row of the world that a step comes to, also where it stops with an error, is lawful against
  -- the world before; a panic is not.
  abbrev pub LeavesLawful : World F D → Step F D (List (Proposal F D)) → Type 0
  LeavesLawful w (goes qs w') = (k : ℕ) → IsLawful w w' k
  LeavesLawful w (stops e w') = (k : ℕ) → IsLawful w w' k
  LeavesLawful w panics = ⊥

  -- What holds of the world and the proposals that a wait comes to, if it comes to any.
  abbrev IfGoes :
      (List (Proposal F D) → World F D → Type 0) → Step F D (List (Proposal F D)) → Type 0
  IfGoes P (goes qs w') = P qs w'
  IfGoes P _ = Unit

  Moved-decided :
      (m : Dict (Proposal F D)) (w w' : World F D) (k : ℕ)
      → Moves m w [] w'
      → is_some (lookup k m) ≡ true
      → is_decided (status_at k w') ≡ true
  Moved-decided m w w' k f h = elim (f k) [
    | inl kept ↦ absurd (ground (arith, h, kept.0))
    | inr gone ↦ gone.2
  ]

  All-decided :
      (m : Dict (Proposal F D)) (w w' : World F D) (ps : List (Proposal F D))
      → Moves m w [] w'
      → All (λ p. is_some (lookup p.id m) ≡ true) ps
      → All (λ p. is_decided (status_at p.id w') ≡ true) ps
  All-decided m w w' [] f h = tt
  All-decided m w w' (p ∷ ps) f h = (Moved-decided m w w' p.id f h.0, All-decided m w w' ps f h.1)

  Outcome-IsSettled :
      (queue : List Decision) (m : Dict (Proposal F D)) (w : World F D) (ps : List (Proposal F D))
      (s : Step F D (List (Proposal F D)))
      → All (λ p. is_some (lookup p.id m) ≡ true) ps
      → Outcome queue m w s
      → IsSettled ps s
  Outcome-IsSettled queue m w ps _ h (done qs w' f a) = All-decided m w w' ps f h
  Outcome-IsSettled queue m w ps _ h (cut m' w' g d) = (refl, d)

  granted-All :
      (queue : List Decision) (w' : World F D) (qs : List (Proposal F D))
      → All (IsApproved queue [] w') qs
      → All (λ q. (is_granted queue q.id ≡ true) × (status_at q.id w' ≡ some approved)) qs
  granted-All queue w' [] h = tt
  granted-All queue w' (q ∷ qs) h = ((h.0.2, h.0.1), granted-All queue w' qs h.1)

  Outcome-approved :
      (queue : List Decision) (m : Dict (Proposal F D)) (w : World F D)
      (s : Step F D (List (Proposal F D)))
      → Outcome queue m w s
      → IfGoes
          (λ qs w'.
            All (λ q. (is_granted queue q.id ≡ true) × (status_at q.id w' ≡ some approved)) qs)
          s
  Outcome-approved queue m w _ (done qs w' f a) = granted-All queue w' qs a
  Outcome-approved queue m w _ (cut m' w' g d) = tt

  Moved-IsLawful :
      (m : Dict (Proposal F D)) (w : World F D) (m' : Dict (Proposal F D)) (w' : World F D) (k : ℕ)
      → ((p : Proposal F D) → lookup k m ≡ some p → status_at k w ≡ some pending)
      → Moved m w m' w' k
      → IsLawful w w' k
  Moved-IsLawful m w m' w' k h (inl kept) = inl kept.1
  Moved-IsLawful m w m' w' k h (inr gone) = elim (Option-cases (lookup k m)) [
    | inl missing ↦ absurd (ground (arith, missing, gone.0))
    | inr (p, found) ↦ inr (h p found, is_decided-can_transition (status_at k w') gone.2)
  ]

  Outcome-LeavesLawful :
      (queue : List Decision) (m : Dict (Proposal F D)) (w : World F D)
      (s : Step F D (List (Proposal F D)))
      → ((k : ℕ) (p : Proposal F D) → lookup k m ≡ some p → status_at k w ≡ some pending)
      → Outcome queue m w s
      → LeavesLawful w s
  Outcome-LeavesLawful queue m w _ h (done qs w' f a) = λ k. Moved-IsLawful m w [] w' k (h k) (f k)
  Outcome-LeavesLawful queue m w _ h (cut m' w' f d) = λ k. Moved-IsLawful m w m' w' k (h k) (f k)

  -- With proposals that are pending in the table and a clock that each sleep moves on, the wait ends
  -- within one turn for each queued decision and each instant up to the last deadline, and one more:
  -- every proposal is approved, rejected or expired in the table then, unless a cancellation that was
  -- due cut the wait short. It neither panics nor stops with another error.
  pub await_decisions-ends :
      (horizon : Time) (fuel : ℕ) (first : ℕ → Bool) (poll : Time) (ps : List (Proposal F D))
      (w : World F D)
      → 1 ≤ poll
      → length w.decisions + (horizon - w.now) < fuel
      → All (IsAsked horizon w) ps
      → IsSettled ps (await_decisions fuel first poll ps w)
  await_decisions-ends horizon fuel first poll ps w slow enough asked =
      Outcome-IsSettled w.decisions (by_id ps []) w ps (await_decisions fuel first poll ps w)
        (by_id-All ps []) (await_decisions-Outcome horizon fuel first poll ps w slow enough asked)

  -- Under the same conditions, every proposal that the wait returns has an approval among the queued
  -- decisions, and is approved in the table: no other proposal can go on to the broker.
  pub await_decisions-approved :
      (horizon : Time) (fuel : ℕ) (first : ℕ → Bool) (poll : Time) (ps qs : List (Proposal F D))
      (w w' : World F D)
      → 1 ≤ poll
      → length w.decisions + (horizon - w.now) < fuel
      → All (IsAsked horizon w) ps
      → await_decisions fuel first poll ps w ≡ goes qs w'
      → All (λ q. (is_granted w.decisions q.id ≡ true) × (status_at q.id w' ≡ some approved)) qs
  await_decisions-approved horizon fuel first poll ps qs w w' slow enough asked e =
      subst
        (IfGoes λ rs v.
          All (λ q. (is_granted w.decisions q.id ≡ true) × (status_at q.id v ≡ some approved)) rs)
        e
        (Outcome-approved w.decisions (by_id ps []) w (await_decisions fuel first poll ps w)
          (await_decisions-Outcome horizon fuel first poll ps w slow enough asked))

  -- Under the same conditions, however the wait ends, with every proposal decided or cut short by a
  -- cancellation, it leaves the status of every row of the table as it was, or moves it from pending
  -- on, as the table of transitions allows.
  pub await_decisions-LeavesLawful :
      (horizon : Time) (fuel : ℕ) (first : ℕ → Bool) (poll : Time) (ps : List (Proposal F D))
      (w : World F D)
      → 1 ≤ poll
      → length w.decisions + (horizon - w.now) < fuel
      → All (IsAsked horizon w) ps
      → LeavesLawful w (await_decisions fuel first poll ps w)
  await_decisions-LeavesLawful horizon fuel first poll ps w slow enough asked =
      Outcome-LeavesLawful w.decisions (by_id ps []) w (await_decisions fuel first poll ps w)
        (by_id-IsOpen horizon ps w asked)
        (await_decisions-Outcome horizon fuel first poll ps w slow enough asked)
