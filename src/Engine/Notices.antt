-- ===== src/Engine/Notices.antt =====
-- internal/engine/daily.go: recordOrderError, persistBreakerState and notifyStopTriggers.
use crypto_swing_bot.Prelude.{
  suc, Bool, false, ◌&&◌, not, Option, none, some, List, [], ◌∷◌, ◌++◌, if◌then◌else◌,
}
use crypto_swing_bot.Domain.{Symbol, Time}
use crypto_swing_bot.Risk.Breaker.{Breaker, State, record_order_error, prune}
use crypto_swing_bot.Broker.Book.{ClosedTrade, ExitReason, signal, stop}
use crypto_swing_bot.Engine.World.{
  Note, breaker_tripped, stop_triggered, position_closed, World, notify,
}
use crypto_swing_bot.Engine.Rebuild.{DaySnapshot}

abbrev pub was_open : Option State → Bool
was_open none = false
was_open (some s) = s.is_open

abbrev pub trigger_note : Symbol → ExitReason → Note
trigger_note sym stop = stop_triggered sym
trigger_note sym signal = position_closed sym

module _ {F D : Type 0} where
  unfoldable pub note_order_error : Time → DaySnapshot F D → World F D → DaySnapshot F D × World F D
  note_order_error at_time snap w =
      let errors = prune at_time (snap.order_errors ++ (record { at = at_time } ∷ [])) in
      (
        record snap {
          breaker = record_order_error snap.breaker (record { at = at_time });
          order_errors = errors;
        },
        record w { order_errors = errors },
      )

  -- The message behind the write goes out only where the breaker was not open before.
  unfoldable pub persist_breaker_state : Breaker F → World F D → World F D
  persist_breaker_state b w =
      let w' = record w { breaker_state = some b.state } in
      if b.state.is_open && not (was_open w.breaker_state)
      then notify (breaker_tripped b.state.reason) w'
      else w'

  unfoldable pub notify_stop_triggers : List (ClosedTrade F D) → World F D → World F D
  notify_stop_triggers [] w = w
  notify_stop_triggers (tr ∷ trs) w =
      notify_stop_triggers trs (notify (trigger_note tr.symbol tr.exit_reason) w)

  -- A new id is taken, as `uuid.NewString` does.
  abbrev pub take_id : World F D → World F D
  take_id w = record w { next_id = suc w.next_id }
