-- ===== src/Backtest/Run/Clock.antt =====
-- No replay is refused by the broker for the order of its days: engine.go, Run; paper.go, Advance.
use crypto_swing_bot.Prelude.{
  ℕ, ◌<◌, ◌≡◌, ◌⊎◌, inl, inr, Bool, false, Bool-cases, Option, none, some, Option-cases, List, [],
  ◌∷◌, All, arith, ◌>>=◌,
}
use crypto_swing_bot.Prelude.Dict.{lookup}
use crypto_swing_bot.Float.{Float, Decimal, Convert}
use crypto_swing_bot.Domain.{
  Time, Signal, SignalKind, enter, exit, stop_update, Portfolio, OrderRequest,
}
use crypto_swing_bot.Risk.Gate.{Decision}
use crypto_swing_bot.Broker.Book.{PaperBroker}
use crypto_swing_bot.Broker.Orders.{submit, place, move_stop}
use crypto_swing_bot.Backtest.Engine.{
  Ran, finished, failed, panic, and_then, or_panic, clock_went_back, candles_empty,
  costs_not_configured, not_enough_days, evaluate_failed, broker_refused, BacktestConfig, Replay,
  SignalError, apply_exit_or_stop, submit_entry, submit_stop, protect, error_of, with_warning,
  apply_all, enter_all, decided, gate_of, gate_input,
}

-- A result that is no error of the clock, and has the property if it is finished.
abbrev pub IsOnTime : {A : Type 0} → (A → Type 0) → Ran A → Type 0
IsOnTime P (finished a) = P a
IsOnTime P (failed clock_went_back) = ⊥
IsOnTime P (failed candles_empty) = Unit
IsOnTime P (failed costs_not_configured) = Unit
IsOnTime P (failed not_enough_days) = Unit
IsOnTime P (failed evaluate_failed) = Unit
IsOnTime P (failed (broker_refused e)) = Unit
IsOnTime P panic = Unit

pub and_then-IsOnTime :
    {A B : Type 0} (P : A → Type 0) (Q : B → Type 0) (m : Ran A) (k : A → Ran B)
    → IsOnTime P m
    → ((a : A) → P a → IsOnTime Q (k a))
    → IsOnTime Q (and_then m k)
and_then-IsOnTime P Q (finished a) k h hk = hk a h
and_then-IsOnTime P Q (failed clock_went_back) k h hk = absurd h
and_then-IsOnTime P Q (failed candles_empty) k h hk = tt
and_then-IsOnTime P Q (failed costs_not_configured) k h hk = tt
and_then-IsOnTime P Q (failed not_enough_days) k h hk = tt
and_then-IsOnTime P Q (failed evaluate_failed) k h hk = tt
and_then-IsOnTime P Q (failed (broker_refused e)) k h hk = tt
and_then-IsOnTime P Q panic k h hk = tt

-- A result that has the property, if there is one.
abbrev pub IsSomeOf : {A : Type 0} → (A → Type 0) → Option A → Type 0
IsSomeOf P none = Unit
IsSomeOf P (some a) = P a

bind-IsSomeOf :
    {A B : Type 0} (P : A → Type 0) (Q : B → Type 0) (o : Option A) (k : A → Option B)
    → IsSomeOf P o
    → ((a : A) → P a → IsSomeOf Q (k a))
    → IsSomeOf Q (o >>= k)
bind-IsSomeOf P Q none k h hk = tt
bind-IsSomeOf P Q (some a) k h hk = hk a h

IsSomeOf-trivial : {A : Type 0} (o : Option A) → IsSomeOf (λ a. Unit) o
IsSomeOf-trivial none = tt
IsSomeOf-trivial (some a) = tt

pub or_panic-IsOnTime :
    {A : Type 0} (P : A → Type 0) (o : Option A) → IsSomeOf P o → IsOnTime P (or_panic o)
or_panic-IsOnTime P none h = tt
or_panic-IsOnTime P (some a) h = h

-- The clock of a broker: whether a day was settled, and the last one.
abbrev pub IsAt : {F D : Type 0} → Bool → Time → PaperBroker F D → Type 0
IsAt started now b = (b.started ≡ started) × (b.now ≡ now)

-- All the days are behind the clock.
abbrev pub IsAhead : {F D : Type 0} → PaperBroker F D → List Time → Type 0
IsAhead b ts = (b.started ≡ false) ⊎ All (λ t. b.now < t) ts

module _ {F D : Type 0} ⦃f : Float F⦄ ⦃d : Decimal D⦄ ⦃c : Convert F D⦄ where
  error_of-IsAt :
      (st : Bool) (now : Time) (b : PaperBroker F D) (req : OrderRequest D)
      → IsAt st now b
      → IsAt st now ((error_of (submit b req)).0)
  unfolding submit place move_stop
  error_of-IsAt st now b req h = ground arith

  submit_stop-IsAt :
      (st : Bool) (now : Time) (id : ℕ) (s : Signal F) (b : PaperBroker F D)
      → IsAt st now b
      → IsSomeOf (λ r. IsAt st now (r.0)) (submit_stop id s b)
  submit_stop-IsAt st now id s b h =
      bind-IsSomeOf (λ p. Unit) (λ r. IsAt st now (r.0)) (c.new_from_float s.stop_price) _
        (IsSomeOf-trivial (c.new_from_float s.stop_price)) λ price u. error_of-IsAt st now b _ h

  apply_exit_or_stop-IsAt :
      (st : Bool) (now : Time) (kind : SignalKind) (cfg : BacktestConfig F D) (s : Signal F)
      (p : Portfolio F D) (b : PaperBroker F D)
      → IsAt st now b
      → IsSomeOf (λ r. IsAt st now (r.0)) (apply_exit_or_stop kind cfg s p b)
  unfolding apply_exit_or_stop
  apply_exit_or_stop-IsAt st now stop_update cfg s p b h =
      elim (Bool-cases (f.le s.stop_price (f.lit 0 0))) [
        | inl bad ↦ rw bad h
        | inr good ↦ rw good (submit_stop-IsAt st now _ s b h)
      ]
  apply_exit_or_stop-IsAt st now exit cfg s p b h =
      elim (Option-cases (lookup s.symbol p.positions)) [
        | inl none_open ↦ rw none_open h
        | inr (held, e) ↦ rw e (error_of-IsAt st now b _ h)
      ]
  apply_exit_or_stop-IsAt st now enter cfg s p b h = h

  protect-IsAt :
      (st : Bool) (now : Time) (id : ℕ) (s : Signal F) (r : PaperBroker F D × Option SignalError)
      → IsAt st now (r.0)
      → IsSomeOf (λ r'. IsAt st now (r'.0)) (protect id s r)
  protect-IsAt st now id s (b, none) h = submit_stop-IsAt st now id s b h
  protect-IsAt st now id s (b, some e) h = h

  submit_entry-IsAt :
      (st : Bool) (now : Time) (cfg : BacktestConfig F D) (s : Signal F) (qty : D)
      (b : PaperBroker F D)
      → IsAt st now b
      → IsSomeOf (λ r. IsAt st now (r.0)) (submit_entry cfg s qty b)
  unfolding submit_entry
  submit_entry-IsAt st now cfg s qty b h = elim (Bool-cases (f.le s.stop_price (f.lit 0 0))) [
    | inl bad ↦ rw bad h
    | inr good ↦ rw good (protect-IsAt st now _ s _ (error_of-IsAt st now b _ h))
  ]

  with_warning-IsAt :
      (st : Bool) (now t : Time) (k : ℕ) (r : Replay F D) (x : PaperBroker F D × Option SignalError)
      → IsAt st now (x.0)
      → IsAt st now ((with_warning t k r x).broker)
  with_warning-IsAt st now t k r (b, none) h = h
  with_warning-IsAt st now t k r (b, some e) h = h

  pub apply_all-IsAt :
      (st : Bool) (now : Time) (cfg : BacktestConfig F D) (t : Time) (p : Portfolio F D)
      (ss : List (Signal F)) (r : Replay F D)
      → IsAt st now r.broker
      → IsSomeOf (λ r'. IsAt st now r'.broker) (apply_all cfg t p ss r)
  unfolding apply_all
  apply_all-IsAt st now cfg t p [] r h = h
  apply_all-IsAt st now cfg t p (s ∷ ss) r h =
      bind-IsSomeOf (λ x. IsAt st now (x.0)) _ (apply_exit_or_stop s.kind cfg s p r.broker) _
        (apply_exit_or_stop-IsAt st now s.kind cfg s p r.broker h)
        λ x hx. apply_all-IsAt st now cfg t p ss _ (with_warning-IsAt st now t s.symbol r x hx)

  decided-IsAt :
      (st : Bool) (now : Time) (cfg : BacktestConfig F D) (t : Time) (s : Signal F) (r : Replay F D)
      (decision : Decision F D)
      → IsAt st now r.broker
      → IsSomeOf (λ r'. IsAt st now r'.broker) (decided cfg t s r decision)
  decided-IsAt st now cfg t s r decision h = elim (Bool-cases (decision.approved)) [
    | inl yes' ↦ rw yes' (
        bind-IsSomeOf (λ x. IsAt st now (x.0)) _ (submit_entry cfg s _ r.broker) _
          (submit_entry-IsAt st now cfg s _ r.broker h)
          λ x hx. with_warning-IsAt st now t s.symbol r x hx)
    | inr no' ↦ rw no' h
  ]

  pub enter_all-IsAt :
      (st : Bool) (now : Time) (cfg : BacktestConfig F D) (t : Time) (p : Portfolio F D)
      (open' : Bool) (ss : List (Signal F)) (r : Replay F D)
      → IsAt st now r.broker
      → IsSomeOf (λ r'. IsAt st now r'.broker) (enter_all cfg t p open' ss r)
  unfolding enter_all
  enter_all-IsAt st now cfg t p open' [] r h = h
  enter_all-IsAt st now cfg t p open' (s ∷ ss) r h =
      bind-IsSomeOf (λ x. Unit) _ (gate_of cfg.risk_gate s (gate_input cfg t p open' s r)) _
        (IsSomeOf-trivial (gate_of cfg.risk_gate s (gate_input cfg t p open' s r)))
        λ decision u.
          bind-IsSomeOf (λ r'. IsAt st now r'.broker) _ (decided cfg t s r decision) _
            (decided-IsAt st now cfg t s r decision h)
            λ r' hr. enter_all-IsAt st now cfg t p open' ss r' hr
