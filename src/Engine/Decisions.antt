-- ===== src/Engine/Decisions.antt =====
-- internal/engine/daily.go, awaitDecisions: the wait for the operator's decisions on the proposals that
-- were sent. The loop runs on fuel; `Answers` says how much is enough.
pub mod Rows
mod Deadlines
pub mod Turns
mod Idle
pub mod Loop
pub mod Ends
pub mod Answers
pub mod Examples
use crypto_swing_bot.Prelude.{
  ℕ, zero, suc, ◌+◌, Bool, true, false, Option, none, some, List, [], ◌∷◌, ◌++◌, if◌then◌else◌, ltb,
  length,
}
use crypto_swing_bot.Prelude.Dict.{Dict, lookup, insert, erase}
use crypto_swing_bot.Domain.{Time}
use crypto_swing_bot.Notify.Approval.{ProposalStatus, approved, rejected, expired}
use crypto_swing_bot.Engine.World.{
  Proposal, Decision, World, Step, goes, stops, panics, M, ◌>>=◌, pure, context_canceled,
  out_of_fuel,
}
use crypto_swing_bot.Engine.Tables.{update_or_stop}

-- What the `select` of the loop comes to.
pub data Choice : Type 0 where
  canceled idle : Choice
  received : Decision → Choice

abbrev pub is_due : Time → Option Time → Bool
is_due now none = false
is_due now (some t) = if ltb now t then false else true

-- The decision that is in the channel.
abbrev pub arrived : Time → List Decision → Option Decision
arrived now [] = none
arrived now (d ∷ ds) = if ltb now d.at_time then none else some d

-- With both cases ready, `select` takes either of them.
abbrev pub choose : Bool → Bool → Option Decision → Choice
choose false cancel_first none = idle
choose true cancel_first none = canceled
choose false cancel_first (some d) = received d
choose true cancel_first (some d) = if cancel_first then canceled else received d

abbrev pub decided_status : Bool → ProposalStatus
decided_status true = approved
decided_status false = rejected

abbrev pub rest_of : {A : Type 0} → List A → List A
rest_of [] = []
rest_of (x ∷ xs) = xs

module _ {F D : Type 0} where
  -- `cancel_first` tells for each length of the queue which case is taken when both are ready; a
  -- cancellation ends the loop and a decision shortens the queue, so this is every way to choose.
  unfoldable pub select : (ℕ → Bool) → World F D → Choice
  select cancel_first w =
      choose (is_due w.now w.cancel_at) (cancel_first (length w.decisions))
        (arrived w.now w.decisions)

  -- `for id, p := range remaining` of the default case; what is left is still open.
  unfoldable pub expire_all : Time → Dict (Proposal F D) → M F D (Dict (Proposal F D))
  expire_all now [] = pure []
  expire_all now ((id, p) ∷ rest) =
      if ltb now p.expires_at
      then (do open_rest ← expire_all now rest; pure ((id, p) ∷ open_rest))
      else (do _ ← update_or_stop id expired now 0; expire_all now rest)

  abbrev pub add_approved : Bool → Proposal F D → List (Proposal F D) → List (Proposal F D)
  add_approved false p ps = ps
  add_approved true p ps = ps ++ (record p { status = approved } ∷ [])

  -- What a decision does to the proposal that it is about, if that is open.
  unfoldable pub receive :
      Decision
      → Option (Proposal F D)
      → Dict (Proposal F D)
      → List (Proposal F D)
      → M F D (Dict (Proposal F D) × List (Proposal F D))
  receive d none remaining approved_ps = pure (remaining, approved_ps)
  receive d (some p) remaining approved_ps = do
    _ ← update_or_stop p.id (decided_status d.approved) d.at_time 0
    pure (erase d.proposal_id remaining, add_approved d.approved p approved_ps)

  abbrev pub take_decision : World F D → World F D
  take_decision w = record w { decisions = rest_of w.decisions }

  abbrev pub sleep : Time → World F D → World F D
  sleep span w = record w { now = w.now + span }

  -- The sleep between two looks, when proposals are left.
  abbrev pub sleep_unless_done : Time → Dict (Proposal F D) → World F D → World F D
  sleep_unless_done span [] w = w
  sleep_unless_done span (p ∷ ps) w = sleep span w

  -- One turn of the loop.
  unfoldable pub turn :
      Time
      → Choice
      → Dict (Proposal F D)
      → List (Proposal F D)
      → M F D (Dict (Proposal F D) × List (Proposal F D))
  turn poll canceled remaining ps w = stops context_canceled w
  turn poll (received d) remaining ps w =
      receive d (lookup d.proposal_id remaining) remaining ps (take_decision w)
  turn poll idle remaining ps w = elim (expire_all w.now remaining w) [
    | goes open_ps w' ↦ goes (open_ps, ps) (sleep_unless_done poll open_ps w')
    | stops e w' ↦ stops e w'
    | panics ↦ panics
  ]

  -- `for len(remaining) > 0`
  unfoldable pub await_loop :
      ℕ
      → (ℕ → Bool)
      → Time
      → Dict (Proposal F D)
      → List (Proposal F D)
      → M F D (List (Proposal F D))
  await_loop n cancel_first poll [] ps w = goes ps w
  await_loop zero cancel_first poll (r ∷ rs) ps w = stops out_of_fuel w
  await_loop (suc n) cancel_first poll (r ∷ rs) ps w =
      elim (turn poll (select cancel_first w) (r ∷ rs) ps w) [
        | goes s w' ↦ await_loop n cancel_first poll s.0 s.1 w'
        | stops e w' ↦ stops e w'
        | panics ↦ panics
      ]

  -- `remaining`
  unfoldable pub by_id : List (Proposal F D) → Dict (Proposal F D) → Dict (Proposal F D)
  by_id [] m = m
  by_id (p ∷ ps) m = by_id ps (insert p.id p m)

  -- `awaitDecisions`
  unfoldable pub await_decisions :
      ℕ → (ℕ → Bool) → Time → List (Proposal F D) → M F D (List (Proposal F D))
  await_decisions fuel cancel_first poll pending_ps w =
      await_loop fuel cancel_first poll (by_id pending_ps []) [] w
