-- ===== src/Engine/Scheduler/Wakes.antt =====
-- internal/engine/scheduler.go: the next time of the loop, and the sleep up to it.
use crypto_swing_bot.Prelude.{
  ℕ, zero, suc, ◌+◌, ◌-◌, ◌*◌, ◌≤◌, ◌<◌, ◌≡◌, refl, ◌∙◌, ap, inl, inr, true, false, Bool-cases,
  Option, none, some, if◌then◌else◌, ltb, arith,
}
use crypto_swing_bot.Domain.{Time}
use crypto_swing_bot.Notify.Approval.{GoString}
use crypto_swing_bot.Engine.World.{World, Step, goes, stops, panics, context_canceled}
use crypto_swing_bot.Engine.Decisions.{is_due}
use crypto_swing_bot.Engine.Scheduler.{
  Location, parse_hhmm, next_at, next_run_at, minute, step_of, sleep_until,
}

-- Every time of a later local day is after the instant.
abbrev pub IsCalendar : Location → Type 0
IsCalendar loc =
    (now : Time) (later : ℕ) (hhmm : ℕ × ℕ) → loc.day_of now < later → now < loc.date_at later hhmm

next_at-future :
    (loc : Location) (now t : Time) (hhmm : Option (ℕ × ℕ))
    → IsCalendar loc
    → ((day : ℕ) (at_time : ℕ × ℕ) → day ≤ loc.day_of (loc.date_at day at_time))
    → next_at loc now hhmm ≡ some t
    → now < t
next_at-future loc now t none c same e = absurd (ground (arith, e))
next_at-future loc now t (some hhmm) c same e =
    let next = loc.date_at (loc.day_of now) hhmm in
    elim (Bool-cases (ltb now next)) [
      | inl ahead ↦ ground (arith, ahead, e)
      | inr behind ↦
          let later =
            c now (suc (loc.day_of next)) (loc.clock_of next)
              (omega (arith, same (loc.day_of now) hhmm)) in
          ground (arith, behind, later, e)
    ]

-- A time that is scheduled is always in the future, in a location where each time of a later day is
-- after each instant of a day, and where a time of a day lies on that day or a later one.
pub next_run_at-future :
    (loc : Location) (now t : Time) (run_at : GoString)
    → IsCalendar loc
    → ((day : ℕ) (at_time : ℕ × ℕ) → day ≤ loc.day_of (loc.date_at day at_time))
    → next_run_at loc now run_at ≡ some t
    → now < t
unfolding next_run_at
next_run_at-future loc now t run_at c same e = next_at-future loc now t (parse_hhmm run_at) c same e

abbrev pub later : Time → Time → Time
later a b = if ltb a b then b else a

later_step : (t now : Time) → ltb now t ≡ true → later (now + step_of (t - now)) t ≡ later now t
later_step t now h = ground (arith, h)

later_past : (t now : Time) → ltb now t ≡ false → now ≡ later now t
later_past t now h = rw h refl

module _ {F D : Type 0} where
  -- The sleep is over at the instant that it was for, or at once, and changed the clock only; or the
  -- program was canceled.
  abbrev pub IsAwake : Time → World F D → Step F D (Unit {0}) → Type 0
  IsAwake t w (goes u w') = w' ≡ record w { now = later w.now t }
  IsAwake t w (stops e w') = (e ≡ context_canceled) × (is_due w'.now w'.cancel_at ≡ true)
  IsAwake t w panics = ⊥

  IsAwake-step :
      (t : Time) (w : World F D) (s : Step F D (Unit {0}))
      → ltb w.now t ≡ true
      → IsAwake t (record w { now = w.now + step_of (t - w.now) }) s
      → IsAwake t w s
  IsAwake-step t w (goes u w') h a = a ∙ ap (λ n. record w { now = n }) (later_step t w.now h)
  IsAwake-step t w (stops e w') h a = a
  IsAwake-step t w panics h a = a

  -- With one turn for each minute that the instant lies ahead, and one more, the sleep ends: exactly
  -- at the instant, or at once if that is past, unless it is cut short by a cancellation that is due.
  pub sleep_until-ends :
      (n : ℕ) (t : Time) (w : World F D)
      → t ≤ w.now + n * minute
      → IsAwake t w (sleep_until (suc n) t w)
  unfolding sleep_until
  sleep_until-ends zero t w h =
      let past : ltb w.now t ≡ false = ground (arith, h) in
      elim (Bool-cases (is_due w.now w.cancel_at)) [
        | inl due ↦ rw due (refl, due)
        | inr going ↦ rw (going, past) (ap (λ m. record w { now = m }) (later_past t w.now past))
      ]
  sleep_until-ends (suc n) t w h = elim (Bool-cases (is_due w.now w.cancel_at)) [
    | inl due ↦ rw due (refl, due)
    | inr going ↦ elim (Bool-cases (ltb w.now t)) [
      | inl ahead ↦
          rw (going, ahead)
            (IsAwake-step t w
              (sleep_until (suc n) t (record w { now = w.now + step_of (t - w.now) })) ahead
              (sleep_until-ends n t (record w { now = w.now + step_of (t - w.now) })
                (ground (arith, h))))
      | inr past ↦ rw (going, past) (ap (λ m. record w { now = m }) (later_past t w.now past))
    ]
  ]
