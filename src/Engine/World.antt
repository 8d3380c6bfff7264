-- ===== src/Engine/World.antt =====
-- What the daily loop reads and writes outside itself: the tables of internal/store (proposals.go,
-- trades.go, store.go), the clock, the decisions that come in and the messages that go out.
use crypto_swing_bot.Prelude.{ℕ, Bool, Option, none, some, List, [], ◌∷◌, ◌++◌}
use crypto_swing_bot.Prelude.Dict.{Dict}
use crypto_swing_bot.Domain.{Symbol, Time, Candle, Market}
use crypto_swing_bot.Risk.Breaker.{State, OrderError, BreakerReason}
use crypto_swing_bot.Broker.Book.{ExitReason, NewError}
use crypto_swing_bot.Notify.Approval.{ProposalStatus}

-- `proposals.side`
pub data ProposalSide : Type 0 where
  long exit stop_update : ProposalSide

-- A row of the table `proposals`, without the reason and the metrics, texts for the reader. The column
-- `qty` is the decimal that its text stands for; an `order_id` of 0 is none, and so is a `decided_at`.
pub record Proposal (F D : Type 0) : Type 0 where
  pub id : ℕ
  pub created_at : Time
  pub as_of : Time
  pub symbol : Symbol
  pub side : ProposalSide
  pub strategy : ℕ
  pub score : Option F
  pub ref_price : F
  pub stop_price : Option F
  pub qty : D
  pub risk_amount : F
  pub status : ProposalStatus
  pub expires_at : Time
  pub decided_at : Time
  pub order_id : ℕ

pub record EquitySnapshot (F : Type 0) : Type 0 where
  pub ts : Time
  pub equity : F
  pub cash : F
  pub exposure_pct : F
  pub bench_btc : Option F
  pub bench_top10 : Option F

-- A row of the table `trades`: its key is the number of a closed trade or the symbol of an open one.
pub record Trade (F D : Type 0) : Type 0 where
  pub closed : Option ℕ
  pub symbol : Symbol
  pub strategy : ℕ
  pub entry_time : Time
  pub entry_price : F
  pub exit_time : Time
  pub exit_price : Option F
  pub qty : D
  pub fees : F
  pub pnl_quote : Option F
  pub pnl_pct : Option F
  pub exit_reason : Option ExitReason

-- notifier.go, `Decision`.
pub record Decision : Type 0 where
  pub proposal_id : ℕ
  pub approved : Bool
  pub at_time : Time

-- What the operator is told, by the calls of `notify` and `ProposeTrade`.
pub data Note : Type 0 where
  update_failed verify_failed daily_summary resume_failed day_failed : Note
  verify_critical : ℕ → Note
  breaker_tripped : Option BreakerReason → Note
  stop_triggered position_closed order_failed proposal_unsent : Symbol → Note
  proposed : ℕ → Note

pub data EngineError : Type 0 where
  no_markets no_candles clock_went_back update_error verify_error as_of_mismatch : EngineError
  universe_error evaluate_error context_canceled proposal_not_found bad_run_at : EngineError
  verify_critical_error : ℕ → EngineError
  broker_error : NewError → EngineError
  -- The model's own: a wait that was cut short. No wait with fuel enough ends so.
  out_of_fuel : EngineError

-- A call of the database does not fail here, but for a row that is not there. The clock moves when the
-- program sleeps, and a decision is in the channel from its instant on.
pub record World (F D : Type 0) : Type 0 where
  pub proposals : Dict (Proposal F D)
  pub breaker_state : Option State
  pub order_errors : List OrderError
  pub snapshots : Dict (EquitySnapshot F)
  pub trades : List (Trade F D)
  pub markets : Dict (Market D)
  pub candles : Dict (List (Candle F))
  pub notes : List Note
  pub decisions : List Decision
  pub now : Time
  pub cancel_at : Option Time
  pub next_id : ℕ

-- A step of the program: it goes on with a value, stops with an error, or panics.
pub data Step (F D A : Type 0) : Type 0 where
  goes : A → World F D → Step F D A
  stops : EngineError → World F D → Step F D A
  panics : Step F D A

abbrev pub M : Type 0 → Type 0 → Type 0 → Type 0
M F D A = World F D → Step F D A

module _ {F D : Type 0} where
  infixl 5 ◌>>=◌ ◌>>◌
  abbrev pub ◌>>=◌ : {A B : Type 0} → M F D A → (A → M F D B) → M F D B
  ◌>>=◌ m k w = elim (m w) [ goes a w' ↦ k a w' | stops e w' ↦ stops e w' | panics ↦ panics ]

  abbrev pub ◌>>◌ : {A B : Type 0} → M F D A → M F D B → M F D B
  m >> k = m >>= λ _. k

  abbrev pub pure : {A : Type 0} → A → M F D A
  pure a w = goes a w

  abbrev pub stop_with : {A : Type 0} → EngineError → M F D A
  stop_with e w = stops e w

  abbrev pub or_panic : {A : Type 0} → Option A → M F D A
  or_panic none w = panics
  or_panic (some a) w = goes a w

  abbrev pub or_stop : {A : Type 0} → EngineError → Option A → M F D A
  or_stop e none w = stops e w
  or_stop e (some a) w = goes a w

  abbrev pub modify : (World F D → World F D) → M F D (Unit {0})
  modify f w = goes tt (f w)

  abbrev pub get : M F D (World F D)
  get w = goes w w

  -- `notify`, which ignores a failure.
  abbrev pub notify : Note → World F D → World F D
  notify n w = record w { notes = w.notes ++ (n ∷ []) }
