-- ===== src/Engine/Decisions/Ends.antt =====
-- internal/engine/daily.go, awaitDecisions: what a caller can rely on.
use crypto_swing_bot.Prelude.{
  ℕ, ◌+◌, ◌-◌, ◌≤◌, ◌<◌, ◌≡◌, refl, sym, ◌∙◌, ap, inl, inr, Bool, true, Bool-cases, some, is_some,
  List, [], ◌∷◌, ◌==◌, ==-refl, length, All, arith,
}
use crypto_swing_bot.Prelude.Dict.{Dict, lookup, insert, IsDict, insert-IsDict, lookup-insert}
use crypto_swing_bot.Domain.{Time}
use crypto_swing_bot.Notify.Approval.{pending}
use crypto_swing_bot.Engine.World.{Proposal, World}
use crypto_swing_bot.Engine.Decisions.{by_id, await_decisions}
use crypto_swing_bot.Engine.Decisions.Rows.{status_at}
use crypto_swing_bot.Engine.Decisions.Loop.{Outcome, await_loop-Outcome}

module _ {F D : Type 0} where
  -- Each proposal is pending in the table, with a deadline up to the horizon.
  abbrev pub IsAsked : Time → World F D → Proposal F D → Type 0
  IsAsked horizon w p = (status_at p.id w ≡ some pending) × (p.expires_at ≤ horizon)

  abbrev Listed : (Proposal F D → Type 0) → Dict (Proposal F D) → Type 0
  Listed P m = (k : ℕ) (p : Proposal F D) → lookup k m ≡ some p → (p.id ≡ k) × P p

  insert-Listed :
      (P : Proposal F D → Type 0) (q : Proposal F D) (m : Dict (Proposal F D))
      → P q
      → Listed P m
      → Listed P (insert q.id q m)
  insert-Listed P q m is listed k p e = elim (Bool-cases (q.id == k)) [
    | inl same ↦
        let found : some q ≡ some p = sym (lookup-insert k q.id q m ∙ rw same refl) ∙ e in
        of_some (ground (arith, found)) (ground (arith, same))
    | inr other ↦ listed k p (sym (lookup-insert k q.id q m ∙ rw other refl) ∙ e)
  ]
    where
      of_some : q ≡ p → q.id ≡ k → (p.id ≡ k) × P p
      of_some a b = rw (sym a) (b, is)

  by_id-Listed :
      (P : Proposal F D → Type 0) (ps : List (Proposal F D)) (m : Dict (Proposal F D))
      → All P ps
      → Listed P m
      → Listed P (by_id ps m)
  unfolding by_id
  by_id-Listed P [] m is listed = listed
  by_id-Listed P (q ∷ qs) m is listed =
      by_id-Listed P qs (insert q.id q m) is.1 (insert-Listed P q m is.0 listed)

  by_id-IsDict :
      (ps : List (Proposal F D)) (m : Dict (Proposal F D)) → IsDict m → IsDict (by_id ps m)
  unfolding by_id
  by_id-IsDict [] m d = d
  by_id-IsDict (q ∷ qs) m d = by_id-IsDict qs (insert q.id q m) (insert-IsDict q.id q m d)

  insert-is_some :
      (q : Proposal F D) (k : ℕ) (m : Dict (Proposal F D))
      → is_some (lookup k m) ≡ true
      → is_some (lookup k (insert q.id q m)) ≡ true
  insert-is_some q k m h = elim (Bool-cases (q.id == k)) [
    | inl same ↦ rw (lookup-insert k q.id q m, same) refl
    | inr other ↦ rw (lookup-insert k q.id q m, other) h
  ]

  by_id-is_some :
      (ps : List (Proposal F D)) (k : ℕ) (m : Dict (Proposal F D))
      → is_some (lookup k m) ≡ true
      → is_some (lookup k (by_id ps m)) ≡ true
  unfolding by_id
  by_id-is_some [] k m h = h
  by_id-is_some (q ∷ qs) k m h = by_id-is_some qs k (insert q.id q m) (insert-is_some q k m h)

  pub by_id-All :
      (ps : List (Proposal F D)) (m : Dict (Proposal F D))
      → All (λ p. is_some (lookup p.id (by_id ps m)) ≡ true) ps
  unfolding by_id
  by_id-All [] m = tt
  by_id-All (q ∷ qs) m = (
    by_id-is_some qs q.id (insert q.id q m) (rw (lookup-insert q.id q.id q m, ==-refl q.id) refl),
    by_id-All qs (insert q.id q m),
  )

  pub by_id-IsOpen :
      (horizon : Time) (ps : List (Proposal F D)) (w : World F D)
      → All (IsAsked horizon w) ps
      → (k : ℕ) (p : Proposal F D) → lookup k (by_id ps []) ≡ some p
      → status_at k w ≡ some pending
  by_id-IsOpen horizon ps w asked k p e =
      let listed =
        by_id-Listed (IsAsked horizon w) ps [] asked (λ j q g. absurd (ground (arith, g))) k p e in
      ap (λ i. status_at i w) (sym listed.0) ∙ listed.1.0

  pub await_decisions-Outcome :
      (horizon : Time) (fuel : ℕ) (first : ℕ → Bool) (poll : Time) (ps : List (Proposal F D))
      (w : World F D)
      → 1 ≤ poll
      → length w.decisions + (horizon - w.now) < fuel
      → All (IsAsked horizon w) ps
      → Outcome w.decisions (by_id ps []) w (await_decisions fuel first poll ps w)
  unfolding await_decisions
  await_decisions-Outcome horizon fuel first poll ps w slow enough asked =
      let listed =
        by_id-Listed (IsAsked horizon w) ps [] asked (λ k p e. absurd (ground (arith, e))) in
      await_loop-Outcome horizon w.decisions fuel first poll (by_id ps []) [] w slow enough
        (λ k p e. (listed k p e).1.1) (λ id g. g) (by_id-IsDict ps [] tt)
        (λ k p e. ((listed k p e).0, by_id-IsOpen horizon ps w asked k p e)) tt
