-- ===== src/Engine/Decisions/Examples.antt =====
-- Two proposals wait for the operator, and the theorems on the wait at them.
use crypto_swing_bot.Prelude.{
  ℕ, ◌+◌, ◌≡◌, refl, ℤ, pos, true, none, some, List, [], ◌∷◌, All, arith,
}
use crypto_swing_bot.Float.Fixed.{fixed_decimal}
use crypto_swing_bot.Float.Whole.{whole_float, whole_convert}
use crypto_swing_bot.Domain.{Time}
use crypto_swing_bot.Risk.Breaker.{day}
use crypto_swing_bot.Notify.Approval.{pending, approved}
use crypto_swing_bot.Engine.World.{Proposal, long, World, Step, goes}
use crypto_swing_bot.Engine.Decisions.{
  await_decisions, await_loop, turn, select, receive, expire_all, by_id,
}
use crypto_swing_bot.Engine.Decisions.Answers.{
  IsSettled, await_decisions-ends, await_decisions-approved, LeavesLawful,
  await_decisions-LeavesLawful,
}
use crypto_swing_bot.Engine.Decisions.Turns.{is_granted}
use crypto_swing_bot.Engine.Decisions.Rows.{status_at}
use crypto_swing_bot.Engine.Tables.{update_proposal_status}

abbrev proposal : ℕ → Time → Proposal ℤ ℤ
proposal id expires_at = record {
  id = id;
  created_at = day;
  as_of = 0;
  symbol = 7;
  side = long;
  strategy = 1;
  score = some (pos 1);
  ref_price = pos 100;
  stop_price = some (pos 90);
  qty = pos 2;
  risk_amount = pos 20;
  status = pending;
  expires_at = expires_at;
  decided_at = 0;
  order_id = 0;
}

-- Two proposals wait; the operator approves the first, and the second is left to expire.
abbrev pub world : World ℤ ℤ
world = record {
  proposals = (4, proposal 4 (day + 100)) ∷ (5, proposal 5 (day + 100)) ∷ [];
  breaker_state = none;
  order_errors = [];
  snapshots = [];
  trades = [];
  markets = [];
  candles = [];
  notes = [];
  decisions = record { proposal_id = 4; approved = true; at_time = day + 30 } ∷ [];
  now = day;
  cancel_at = none;
  next_id = 0;
}

abbrev waiting : List (Proposal ℤ ℤ)
waiting = proposal 4 (day + 100) ∷ proposal 5 (day + 100) ∷ []

abbrev pub world_of : {A : Type 0} → Step ℤ ℤ A → World ℤ ℤ
world_of (goes a w) = w
world_of _ = world

abbrev approved_of : Step ℤ ℤ (List (Proposal ℤ ℤ)) → List (Proposal ℤ ℤ)
approved_of (goes qs w) = qs
approved_of _ = []

abbrev wait_result : Step ℤ ℤ (List (Proposal ℤ ℤ))
wait_result = await_decisions 110 (λ n. true) 40 waiting world

wait_goes : wait_result ≡ goes (approved_of wait_result) (world_of wait_result)
unfolding await_decisions await_loop turn select receive expire_all by_id update_proposal_status
wait_goes = refl

await_decisions-ends_example : IsSettled waiting wait_result
await_decisions-ends_example =
    await_decisions-ends (day + 100) 110 (λ n. true) 40 waiting world (omega arith) (omega arith)
      ((refl, omega arith), ((refl, omega arith), tt))

await_decisions-approved_example :
    All
      (λ q.
        (is_granted world.decisions q.id ≡ true)
        × (status_at q.id (world_of wait_result) ≡ some approved))
      (approved_of wait_result)
await_decisions-approved_example =
    await_decisions-approved (day + 100) 110 (λ n. true) 40 waiting (approved_of wait_result) world
      (world_of wait_result) (omega arith) (omega arith)
      ((refl, omega arith), ((refl, omega arith), tt)) wait_goes

-- The same wait, canceled behind the approval.
abbrev canceled_world : World ℤ ℤ
canceled_world = record world { cancel_at = some (day + 60) }

await_decisions-LeavesLawful_example :
    LeavesLawful canceled_world (await_decisions 110 (λ n. true) 40 waiting canceled_world)
await_decisions-LeavesLawful_example =
    await_decisions-LeavesLawful (day + 100) 110 (λ n. true) 40 waiting canceled_world (omega arith)
      (omega arith) ((refl, omega arith), ((refl, omega arith), tt))
