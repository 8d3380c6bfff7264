-- ===== src/Risk/Breaker/Window.antt =====
-- `Check` forgets the order errors that have left the window of 24 hours. This is a refinement of a
-- breaker that forgets nothing: breaker.go, Check, the pruning of `b.errors`.
use crypto_swing_bot.Prelude.{
  ◌≤◌, ◌≡◌, refl, ◌∙◌, List, [], ◌∷◌, ◌++◌, if◌then◌else◌, arith, leb, ◌+◌, ◌*◌,
}
use crypto_swing_bot.Float.{Float}
use crypto_swing_bot.Domain.{Time, hour}
use crypto_swing_bot.Config.{BreakerConfig}
use crypto_swing_bot.Risk.Breaker.{
  TradeResult, OrderError, Breaker, tripped, prune, record_trade, record_order_error, reset,
  condition, new_peak, check, new_breaker,
}

pub data Event (F : Type 0) : Type 0 where
  trade : TradeResult F → Event F
  error : OrderError → Event F
  checks : F → Time → Event F
  resets : Event F

prune-prune_later :
    (t t' : Time) (errors : List OrderError) → t ≤ t' → prune t' (prune t errors) ≡ prune t' errors
unfolding prune
prune-prune_later t t' [] h = refl
prune-prune_later t t' (e ∷ es) h = ground (arith, prune-prune_later t t' es h)

prune-append : (t : Time) (xs ys : List OrderError) → prune t (xs ++ ys) ≡ prune t xs ++ prune t ys
unfolding prune
prune-append t [] ys = refl
prune-append t (x ∷ xs) ys = ground (arith, prune-append t xs ys)

-- The errors that happened at most 24 hours before `now`, or after it.
unfoldable pub recent : Time → List OrderError → List OrderError
recent now [] = []
recent now (e ∷ es) = if leb now (e.at + 24 * hour) then e ∷ recent now es else recent now es

prune-recent : (now : Time) (es : List OrderError) → prune now es ≡ recent now es
unfolding prune recent
prune-recent now [] = refl
prune-recent now (e ∷ es) = ground (arith, prune-recent now es)

-- The checks of a sequence of events come in the order of their instants, none before `last`.
abbrev pub IsChronological : {F : Type 0} → Time → List (Event F) → Type 0
IsChronological last [] = Unit
IsChronological last (trade tr ∷ es) = IsChronological last es
IsChronological last (error e ∷ es) = IsChronological last es
IsChronological last (checks equity now ∷ es) = (last ≤ now) × IsChronological now es
IsChronological last (resets ∷ es) = IsChronological last es

module _ {F : Type 0} ⦃f : Float F⦄ (cfg : BreakerConfig F) where
  unfoldable pub step : Breaker F → Event F → Breaker F
  step b (trade tr) = record_trade b tr
  step b (error e) = record_order_error b e
  step b (checks equity now) = check cfg b equity now
  step b resets = reset b

  pub run : Breaker F → List (Event F) → Breaker F
  run b [] = b
  run b (e ∷ es) = run (step b e) es

  -- The specification: every error is kept, and each check looks at those of the last 24 hours.
  unfoldable pub check_all : Breaker F → F → Time → Breaker F
  check_all b equity now =
      let peak = new_peak equity b.peak_equity in
      record b {
        peak_equity = peak;
        state =
            if b.state.is_open
            then b.state
            else tripped b.state (condition cfg b.trades (recent now b.errors) peak equity now) now;
      }

  unfoldable pub step_all : Breaker F → Event F → Breaker F
  step_all b (trade tr) = record_trade b tr
  step_all b (error e) = record_order_error b e
  step_all b (checks equity now) = check_all b equity now
  step_all b resets = reset b

  pub run_all : Breaker F → List (Event F) → Breaker F
  run_all b [] = b
  run_all b (e ∷ es) = run_all (step_all b e) es

  -- The two breakers agree on everything but errors that no check from `last` on will count.
  record Agrees (last : Time) (b s : Breaker F) : Type 0 where
    same_state : b.state ≡ s.state
    same_trades : b.trades ≡ s.trades
    same_peak : b.peak_equity ≡ s.peak_equity
    same_errors : (t : Time) → last ≤ t → prune t b.errors ≡ prune t s.errors

  check-Agrees :
      (last : Time) (b s : Breaker F) (equity : F) (now : Time)
      → Agrees last b s
      → last ≤ now
      → Agrees now (check cfg b equity now) (check_all s equity now)
  unfolding check check_all
  check-Agrees last b s equity now a h =
      let same = a.same_errors now h ∙ prune-recent now s.errors in
      record {
        same_state = rw (a.same_state, a.same_trades, a.same_peak, same) refl;
        same_trades = a.same_trades;
        same_peak = rw (a.same_peak) refl;
        same_errors = λ t ht. prune-prune_later now t b.errors ht ∙ a.same_errors t (omega arith);
      }

  run-Agrees :
      (es : List (Event F)) (last : Time) (b s : Breaker F)
      → Agrees last b s
      → IsChronological last es
      → (run b es).state ≡ (run_all s es).state
  unfolding run run_all step step_all record_trade record_order_error reset
  run-Agrees [] last b s a c = a.same_state
  run-Agrees (trade tr ∷ es) last b s a c =
      run-Agrees es last _ _
        (record {
          same_state = a.same_state;
          same_trades = rw (a.same_trades) refl;
          same_peak = a.same_peak;
          same_errors = a.same_errors;
        })
        c
  run-Agrees (error e ∷ es) last b s a c =
      run-Agrees es last _ _
        (record {
          same_state = a.same_state;
          same_trades = a.same_trades;
          same_peak = a.same_peak;
          same_errors = λ t ht. simp (prune-append, a.same_errors t ht);
        })
        c
  run-Agrees (checks equity now ∷ es) last b s a c =
      run-Agrees es now _ _ (check-Agrees last b s equity now a c.0) c.1
  run-Agrees (resets ∷ es) last b s a c =
      run-Agrees es last _ _
        (record {
          same_state = refl;
          same_trades = a.same_trades;
          same_peak = a.same_peak;
          same_errors = a.same_errors;
        })
        c

  -- From a new breaker on, whatever trades, errors, checks and resets follow, as long as the checks
  -- come in the order of time: the breaker that prunes is in the state of the one that keeps every
  -- error and looks at those of the last 24 hours.
  pub run_refines :
      (es : List (Event F))
      → IsChronological 0 es
      → (run new_breaker es).state ≡ (run_all new_breaker es).state
  run_refines es c =
      run-Agrees es 0 _ _
        (record {
          same_state = refl;
          same_trades = refl;
          same_peak = refl;
          same_errors = λ t ht. refl;
        })
        c
