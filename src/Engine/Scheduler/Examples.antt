-- ===== src/Engine/Scheduler/Examples.antt =====
-- A clock of the time zone UTC, and the theorems on the scheduler at it.
use crypto_swing_bot.Prelude.{ℕ, ◌+◌, ◌*◌, ◌/◌, ◌%◌, ◌≤◌, ◌<◌, ◌≡◌, refl, some, [], ◌∷◌, arith}
use crypto_swing_bot.Float.Fixed.{fixed_decimal}
use crypto_swing_bot.Float.Whole.{whole_float, whole_convert}
use crypto_swing_bot.Domain.{Time, hour}
use crypto_swing_bot.Risk.Breaker.{day}
use crypto_swing_bot.Notify.Approval.{GoString, cut}
use crypto_swing_bot.Engine.Scheduler.{
  Location, digits, atoi, parse_hhmm, next_run_at, minute, sleep_until,
}
use crypto_swing_bot.Engine.Scheduler.Wakes.{IsAwake, next_run_at-future, sleep_until-ends}
use crypto_swing_bot.Engine.Tests.{morning}

-- A wall-clock time that the library would move to the next day is not asked for.
abbrev utc : Location
utc = record {
  day_of = λ t. t / day;
  date_at = λ n hhmm. n * day + (hhmm.0 % 24) * hour + (hhmm.1 % 60) * minute;
  clock_of = λ t. (t % day / hour, t % hour / minute);
}

-- "00:05"
abbrev five_past : GoString
five_past = 48 ∷ 48 ∷ 58 ∷ 48 ∷ 53 ∷ []

five_past_read : parse_hhmm five_past ≡ some (0, 5)
unfolding parse_hhmm cut atoi digits
five_past_read = refl

noon : next_run_at utc (day + 12 * hour) five_past ≡ some (2 * day + 5 * minute)
unfolding next_run_at parse_hhmm cut atoi digits
noon = refl

utc-later :
    (now : Time) (later : ℕ) (hhmm : ℕ × ℕ) → utc.day_of now < later → now < utc.date_at later hhmm
utc-later now later hhmm h = omega (arith, h)

utc-same : (n : ℕ) (at_time : ℕ × ℕ) → n ≤ utc.day_of (utc.date_at n at_time)
utc-same n at_time = omega arith

next_run_at-future_example : day + 12 * hour < 2 * day + 5 * minute
next_run_at-future_example =
    next_run_at-future utc (day + 12 * hour) (2 * day + 5 * minute) five_past utc-later utc-same
      noon

sleep_until-ends_example :
    IsAwake (morning.now + 90 * minute) morning (sleep_until 91 (morning.now + 90 * minute) morning)
sleep_until-ends_example = sleep_until-ends 90 (morning.now + 90 * minute) morning (omega arith)
