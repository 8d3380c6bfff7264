-- ===== src/Engine/Decisions/Rows.antt =====
-- The rows of the table of proposals under `update_proposal_status`, and what a part of the wait in
-- internal/engine/daily.go, awaitDecisions, does to them.
use crypto_swing_bot.Prelude.{
  ℕ, ◌≡◌, refl, sym, ◌∙◌, ap, ◌⊎◌, inl, inr, Bool, true, false, Bool-cases, Option, none, some,
  is_some, Option-cases, ◌∷◌, if◌then◌else◌, ◌==◌, arith,
}
use crypto_swing_bot.Prelude.Dict.{Dict, lookup, insert, lookup-insert}
use crypto_swing_bot.Domain.{Time}
use crypto_swing_bot.Notify.Approval.{ProposalStatus, pending, approved, rejected, expired}
use crypto_swing_bot.Engine.World.{Proposal, World, goes}
use crypto_swing_bot.Engine.Tables.{stored, with_status, update_proposal_status, update_or_stop}

-- The operator or the clock has decided.
abbrev pub is_decided : Option ProposalStatus → Bool
is_decided (some approved) = true
is_decided (some rejected) = true
is_decided (some expired) = true
is_decided _ = false

pub lookup-same : {V : Type 0} (i k : ℕ) (m : Dict V) → (i == k) ≡ true → lookup i m ≡ lookup k m
lookup-same i k m same = ap (λ j. lookup j m) (ground (arith, same))

module _ {F D : Type 0} where
  abbrev pub row_status : Option (Proposal F D) → Option ProposalStatus
  row_status none = none
  row_status (some p) = some (p.status)

  -- The status of the row with this id.
  abbrev pub status_at : ℕ → World F D → Option ProposalStatus
  status_at k w = row_status (lookup k w.proposals)

  abbrev pub updated : ℕ → ProposalStatus → Time → ℕ → Proposal F D → World F D → World F D
  updated id s t order_id p w = record w {
    proposals = insert id (with_status s (stored t) order_id p) w.proposals;
  }

  -- What is open under its own id, and pending in the table.
  abbrev pub IsOpen : Dict (Proposal F D) → World F D → Type 0
  IsOpen remaining w =
      (k : ℕ) (p : Proposal F D)
      → lookup k remaining ≡ some p
      → (p.id ≡ k) × (status_at k w ≡ some pending)

  -- A part of the wait leaves a key alone, or closes it with a decision.
  abbrev pub Moved : Dict (Proposal F D) → World F D → Dict (Proposal F D) → World F D → ℕ → Type 0
  Moved m w m' w' k =
      ((lookup k m' ≡ lookup k m) × (status_at k w' ≡ status_at k w))
      ⊎ ((is_some (lookup k m) ≡ true)
          × (lookup k m' ≡ none)
          × (is_decided (status_at k w') ≡ true))

  abbrev pub Moves : Dict (Proposal F D) → World F D → Dict (Proposal F D) → World F D → Type 0
  Moves m w m' w' = (k : ℕ) → Moved m w m' w' k

  pub row-status_at :
      (k : ℕ) (s : ProposalStatus) (w : World F D)
      → status_at k w ≡ some s
      → (p : Proposal F D) × (lookup k w.proposals ≡ some p)
  row-status_at k s w h = elim (Option-cases (lookup k w.proposals)) [
    | inl e ↦ absurd (ground (arith, h, ap row_status e))
    | inr found ↦ found
  ]

  pub update_or_stop-row :
      (id : ℕ) (s : ProposalStatus) (t : Time) (o : ℕ) (p : Proposal F D) (w : World F D)
      → lookup id w.proposals ≡ some p
      → update_or_stop id s t o w ≡ goes tt (updated id s t o p w)
  unfolding update_proposal_status
  update_or_stop-row id s t o p w h = rw (update_or_stop, h) refl

  pub status_at-updated :
      (k id : ℕ) (s : ProposalStatus) (t : Time) (o : ℕ) (p : Proposal F D) (w : World F D)
      → status_at k (updated id s t o p w) ≡ (if id == k then some s else status_at k w)
  status_at-updated k id s t o p w = elim (Bool-cases (id == k)) [
    | inl e ↦ rw (lookup-insert k id (with_status s (stored t) o p) w.proposals, e) refl
    | inr e ↦ rw (lookup-insert k id (with_status s (stored t) o p) w.proposals, e) refl
  ]

  pub Moves-trans :
      (m : Dict (Proposal F D)) (w : World F D) (m' : Dict (Proposal F D)) (w' : World F D)
      (m'' : Dict (Proposal F D)) (w'' : World F D)
      → Moves m w m' w'
      → Moves m' w' m'' w''
      → Moves m w m'' w''
  Moves-trans m w m' w' m'' w'' f g k = elim (f k) [
    | inl kept ↦ elim (g k) [
      | inl kept' ↦ inl (kept'.0 ∙ kept.0, kept'.1 ∙ kept.1)
      | inr done ↦ inr (sym (ap is_some kept.0) ∙ done.0, done.1, done.2)
    ]
    | inr done ↦ elim (g k) [
      | inl kept' ↦ inr (done.0, kept'.0 ∙ done.1, ap is_decided kept'.1 ∙ done.2)
      | inr done' ↦ absurd (ground (arith, sym (ap is_some done.1) ∙ done'.0))
    ]
  ]

  -- What stays open was open before.
  pub Moves-IsOpen :
      (m : Dict (Proposal F D)) (w : World F D) (m' : Dict (Proposal F D)) (w' : World F D)
      → Moves m w m' w'
      → IsOpen m w
      → IsOpen m' w'
  Moves-IsOpen m w m' w' f h k p e = elim (f k) [
    | inl kept ↦ ((h k p (sym kept.0 ∙ e)).0, kept.1 ∙ (h k p (sym kept.0 ∙ e)).1)
    | inr done ↦ absurd (ground (arith, sym done.1 ∙ e))
  ]

  -- A row that is decided while the rest stays open.
  pub close_head-Moves :
      (id : ℕ) (p q : Proposal F D) (rest m' : Dict (Proposal F D)) (s : ProposalStatus) (t : Time)
      (o : ℕ) (w w' : World F D)
      → lookup id rest ≡ none
      → is_decided (some s) ≡ true
      → Moves rest (updated id s t o q w) m' w'
      → Moves ((id, p) ∷ rest) w m' w'
  close_head-Moves id p q rest m' s t o w w' fresh d f k = elim (Bool-cases (id == k)) [
    | inl same ↦ elim (f k) [
      | inl kept ↦ inr (
        rw same refl,
        kept.0 ∙ sym (lookup-same id k rest same) ∙ fresh,
        ap is_decided (kept.1 ∙ status_at-updated k id s t o q w) ∙ rw same d,
      )
      | inr done ↦ absurd (ground (arith, sym (lookup-same id k rest same) ∙ fresh, done.0))
    ]
    | inr other ↦
        let same_row : status_at k (updated id s t o q w) ≡ status_at k w =
          status_at-updated k id s t o q w ∙ rw other refl in
        elim (f k) [
          | inl kept ↦ inl (kept.0 ∙ rw other refl, kept.1 ∙ same_row)
          | inr done ↦ inr (rw other done.0, done.1, done.2)
        ]
  ]

  -- A row that stays open while the rest moves.
  pub keep_head-Moves :
      (id : ℕ) (p : Proposal F D) (rest m' : Dict (Proposal F D)) (w w' : World F D)
      → lookup id rest ≡ none
      → Moves rest w m' w'
      → Moves ((id, p) ∷ rest) w ((id, p) ∷ m') w'
  keep_head-Moves id p rest m' w w' fresh f k = elim (Bool-cases (id == k)) [
    | inl same ↦ elim (f k) [
      | inl kept ↦ inl (rw same refl, kept.1)
      | inr done ↦ absurd (ground (arith, sym (lookup-same id k rest same) ∙ fresh, done.0))
    ]
    | inr other ↦ elim (f k) [
      | inl kept ↦ inl (rw other kept.0, kept.1)
      | inr done ↦ inr (rw other done.0, rw other done.1, done.2)
    ]
  ]
