-- ===== src/Engine/Scheduler.antt =====
-- internal/engine/scheduler.go: NextRunAt, parseHHMM, sleepUntil and Run. A string is the list of its
-- bytes.
pub mod Wakes
pub mod Lasts
mod Examples
use crypto_swing_bot.Prelude.{
  ℕ, zero, suc, ◌+◌, ◌-◌, ◌*◌, ℤ, pos, negsuc, Bool, true, false, ◌&&◌, ◌||◌, Option, none, some,
  List, [], ◌∷◌, if◌then◌else◌, ltb, leb, ◌==◌, any,
}
use crypto_swing_bot.Float.{Float, Decimal, Convert}
use crypto_swing_bot.Domain.{Time}
use crypto_swing_bot.Notify.Approval.{GoString, colon, cut}
use crypto_swing_bot.Engine.World.{
  World, Step, goes, stops, panics, M, ◌>>=◌, notify, resume_failed, day_failed, context_canceled,
  bad_run_at, out_of_fuel,
}
use crypto_swing_bot.Engine.Resubmit.{EngineConfig}
use crypto_swing_bot.Engine.Decisions.{is_due}
use crypto_swing_bot.Engine.Daily.{Surroundings, run_once, resume_pending}

-- What the package `time` knows of a location: the number of the local day of an instant, the instant
-- of a local day at a wall-clock time, and the wall-clock time of an instant, as `time.Date` may have
-- moved it.
pub record Location : Type 0 where
  pub day_of : Time → ℕ
  pub date_at : ℕ → ℕ × ℕ → Time
  pub clock_of : Time → ℕ × ℕ

-- The digits of a number from the first on; `none` is a byte that is no digit.
unfoldable pub digits : ℕ → GoString → Option ℕ
digits acc [] = some acc
digits acc (c ∷ cs) =
    let rest = digits (acc * 10 + (c - 48)) cs in if leb 48 c && leb c 57 then rest else none

abbrev pub unsigned : GoString → Option ℕ
unsigned [] = none
unsigned (c ∷ cs) = digits 0 (c ∷ cs)

-- A number behind a minus, which is in bounds only if it is 0.
abbrev pub minus_zero : Option ℕ → Option ℕ
minus_zero none = none
minus_zero (some n) = if n == 0 then some 0 else none

-- `strconv.Atoi`, for what `parseHHMM` accepts of it: no negative number, and no number that is out of
-- the range of an `int` either.
unfoldable pub atoi : GoString → Option ℕ
atoi [] = none
atoi (c ∷ cs) =
    if c == 43 then unsigned cs else if c == 45 then minus_zero (unsigned cs) else unsigned (c ∷ cs)

abbrev pub in_bounds : Option ℕ → Option ℕ → Option (ℕ × ℕ)
in_bounds none b = none
in_bounds (some hh) none = none
in_bounds (some hh) (some mm) = if ltb 23 hh || ltb 59 mm then none else some (hh, mm)

-- The two parts of a string with exactly one colon.
abbrev pub parse_parts : Option (GoString × GoString) → Option (ℕ × ℕ)
parse_parts none = none
parse_parts (some (a, b)) = if any (λ c. c == colon) b then none else in_bounds (atoi a) (atoi b)

-- `parseHHMM`; `none` is the error.
unfoldable pub parse_hhmm : GoString → Option (ℕ × ℕ)
parse_hhmm s = parse_parts (cut s)

abbrev pub next_at : Location → Time → Option (ℕ × ℕ) → Option Time
next_at loc now none = none
next_at loc now (some hhmm) =
    let today = loc.day_of now in
    let next = loc.date_at today hhmm in
    some (if ltb now next then next else loc.date_at (suc (loc.day_of next)) (loc.clock_of next))

-- `NextRunAt`
unfoldable pub next_run_at : Location → Time → GoString → Option Time
next_run_at loc now run_at = next_at loc now (parse_hhmm run_at)

-- `sleepPollCap`
abbrev pub minute : Time
minute = 60_000_000_000

abbrev pub step_of : Time → Time
step_of span = if ltb minute span then minute else span

module _ {F D : Type 0} where
  -- `sleepUntil`, on fuel.
  unfoldable pub sleep_until : ℕ → Time → M F D (Unit {0})
  sleep_until zero t w = stops out_of_fuel w
  sleep_until (suc n) t w =
      let slept = sleep_until n t (record w { now = w.now + step_of (t - w.now) }) in
      if is_due w.now w.cancel_at
      then stops context_canceled w
      else if ltb w.now t
      then slept
      else goes tt w

  abbrev pub check_context : M F D (Unit {0})
  check_context w = if is_due w.now w.cancel_at then stops context_canceled w else goes tt w

  -- An error of a day is told and passed over.
  abbrev pub survive : Step F D (Unit {0}) → Step F D (Unit {0})
  survive (goes u w) = goes u w
  survive (stops e w) = goes tt (notify day_failed w)
  survive panics = panics

  abbrev pub sleep_to : ℕ → Option Time → M F D (Unit {0})
  sleep_to fuel none w = stops bad_run_at w
  sleep_to fuel (some t) w = sleep_until fuel t w

module _ {F D : Type 0} ⦃f : Float F⦄ ⦃d : Decimal D⦄ ⦃c : Convert F D⦄ where
  -- One turn of the loop of `Run`.
  unfoldable pub run_turn :
      ℕ → Location → GoString → EngineConfig F D → Surroundings F D → M F D (Unit {0})
  run_turn fuel loc run_at cfg out = do
    _ ← λ w. sleep_to fuel (next_run_at loc w.now run_at) w
    _ ← check_context
    λ w. survive (run_once cfg out w)

  -- That many turns.
  unfoldable pub run_turns :
      ℕ → ℕ → Location → GoString → EngineConfig F D → Surroundings F D → M F D (Unit {0})
  run_turns zero fuel loc run_at cfg out w = goes tt w
  run_turns (suc n) fuel loc run_at cfg out w = elim (run_turn fuel loc run_at cfg out w) [
    | goes u w' ↦ run_turns n fuel loc run_at cfg out w'
    | stops e w' ↦ stops e w'
    | panics ↦ panics
  ]

  -- `Run`, up to that many turns of its loop, which has no other end than an error.
  unfoldable pub run :
      ℕ → ℕ → Location → GoString → EngineConfig F D → Surroundings F D → M F D (Unit {0})
  run turns fuel loc run_at cfg out w = elim (resume_pending cfg out w) [
    | goes u w' ↦ run_turns turns fuel loc run_at cfg out w'
    | stops e w' ↦ stops e (notify resume_failed w')
    | panics ↦ panics
  ]
