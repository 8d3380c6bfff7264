-- ===== src/Engine/Tables.antt =====
-- The statements of internal/store that the daily loop uses: proposals.go, InsertProposal,
-- UpdateProposalStatus and ListProposalsByStatus; trades.go, InsertEquitySnapshot.
pub mod Latest
use crypto_swing_bot.Prelude.{
  ℕ, ◌-◌, ◌%◌, Bool, true, false, Option, none, some, is_some, List, [], ◌∷◌, if◌then◌else◌, ltb,
  ◌==◌,
}
use crypto_swing_bot.Prelude.Dict.{Dict, lookup, insert}
use crypto_swing_bot.Domain.{Time}
use crypto_swing_bot.Broker.Book.{value_or}
use crypto_swing_bot.Notify.Approval.{
  ProposalStatus, pending, approved, rejected, expired, submitted, filled, failed,
}
use crypto_swing_bot.Engine.World.{
  Proposal, EquitySnapshot, World, Step, goes, stops, M, proposal_not_found,
}

-- The instant that is read back from a column of milliseconds.
abbrev pub stored : Time → Time
stored t = t - t % 1_000_000

abbrev pub coalesce : ℕ → ℕ → ℕ
coalesce new old = if new == 0 then old else new

-- The name of a status, as a number.
abbrev pub code : ProposalStatus → ℕ
code pending = 0
code approved = 1
code rejected = 2
code expired = 3
code submitted = 4
code filled = 5
code failed = 6

abbrev pub same_status : ProposalStatus → ProposalStatus → Bool
same_status s t = code s == code t

module _ {F D : Type 0} where
  -- `ListProposalsByStatus`, in the order of the keys; its callers put the rows into a map, sort them,
  -- or treat each alone.
  unfoldable pub list_by_status : ProposalStatus → Dict (Proposal F D) → List (Proposal F D)
  list_by_status status [] = []
  list_by_status status ((id, p) ∷ rest) =
      let others = list_by_status status rest in
      if same_status p.status status then p ∷ others else others

  abbrev pub stored_row : Proposal F D → Proposal F D
  stored_row p = record p {
    created_at = stored p.created_at;
    as_of = stored p.as_of;
    expires_at = stored p.expires_at;
    decided_at = stored p.decided_at;
  }

  -- `InsertProposal`; `none` is the error of a key that is there.
  unfoldable pub insert_proposal : Proposal F D → World F D → Option (World F D)
  insert_proposal p w =
      if is_some (lookup p.id w.proposals)
      then none
      else some (record w { proposals = insert p.id (stored_row p) w.proposals })

  abbrev pub with_status : ProposalStatus → Time → ℕ → Proposal F D → Proposal F D
  with_status status decided_at order_id p = record p {
    status = status;
    decided_at = coalesce decided_at p.decided_at;
    order_id = coalesce order_id p.order_id;
  }

  abbrev pub update_row :
      Option (Proposal F D) → ℕ → ProposalStatus → Time → ℕ → World F D → Option (World F D)
  update_row none id status decided_at order_id w = none
  update_row (some p) id status decided_at order_id w = some (record w {
    proposals = insert id (with_status status (stored decided_at) order_id p) w.proposals;
  })

  -- `UpdateProposalStatus`; `none` is the error that no row has the id.
  unfoldable pub update_proposal_status :
      ℕ → ProposalStatus → Time → ℕ → World F D → Option (World F D)
  update_proposal_status id status decided_at order_id w =
      update_row (lookup id w.proposals) id status decided_at order_id w

  abbrev pub update_or_stop : ℕ → ProposalStatus → Time → ℕ → M F D (Unit {0})
  update_or_stop id status decided_at order_id w =
      elim (update_proposal_status id status decided_at order_id w) [
        | none ↦ stops proposal_not_found w
        | some w' ↦ goes tt w'
      ]

  -- Where the program drops the error.
  abbrev pub try_update : ℕ → ProposalStatus → Time → ℕ → World F D → World F D
  try_update id status decided_at order_id w =
      value_or w (update_proposal_status id status decided_at order_id w)

module _ {F : Type 0} where
  -- `InsertEquitySnapshot`: the table has one row for each `ts`, and a later one replaces it.
  unfoldable pub insert_equity_snapshot :
      EquitySnapshot F → Dict (EquitySnapshot F) → Dict (EquitySnapshot F)
  insert_equity_snapshot s rows = let row = record s { ts = stored s.ts } in insert row.ts row rows

  -- `ORDER BY ts`
  unfoldable pub insert_by_ts : EquitySnapshot F → List (EquitySnapshot F) → List (EquitySnapshot F)
  insert_by_ts s [] = s ∷ []
  insert_by_ts s (x ∷ xs) = if ltb x.ts s.ts then x ∷ insert_by_ts s xs else s ∷ x ∷ xs

  -- `ListEquitySnapshots`
  unfoldable pub list_equity_snapshots : Dict (EquitySnapshot F) → List (EquitySnapshot F)
  list_equity_snapshots [] = []
  list_equity_snapshots ((ts, s) ∷ rows) = insert_by_ts s (list_equity_snapshots rows)
