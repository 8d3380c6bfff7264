-- ===== src/Backtest/Calendar/Order.antt =====
-- The calendar runs forward: engine.go, buildCalendar.
use crypto_swing_bot.Prelude.{
  ◌≡◌, ◌<◌, false, refl, inl, inr, Bool-cases, List, [], ◌∷◌, ltb, ◌==◌, All, arith, none,
}
use crypto_swing_bot.Prelude.Dict.{Dict, lookup, insert, IsDict, insert-IsDict}
use crypto_swing_bot.Domain.{Time, Candle}
use crypto_swing_bot.Backtest.Calendar.{
  unix_milli, insert_time, sort_times, times_of, note_series, note_all, build_calendar,
}

-- Each instant is after the one before it.
abbrev pub IsIncreasing : List Time → Type 0
IsIncreasing [] = Unit
IsIncreasing (t ∷ ts) = All (λ u. t < u) ts × IsIncreasing ts

-- Every instant is noted at its millisecond.
abbrev pub IsKeyed : Dict Time → Type 0
IsKeyed [] = Unit
IsKeyed ((k, t) ∷ seen) = (unix_milli t ≡ k) × IsKeyed seen

insert-IsKeyed :
    (t : Time) (seen : Dict Time) → IsKeyed seen → IsKeyed (insert (unix_milli t) t seen)
insert-IsKeyed t [] h = (refl, tt)
insert-IsKeyed t ((k, u) ∷ seen) h = elim (Bool-cases (k == unix_milli t)) [
  | inl same ↦ rw same (ground (arith, same), h.1)
  | inr differ ↦ rw differ (h.0, insert-IsKeyed t seen h.1)
]

module _ {F : Type 0} where
  note_series-IsKeyed :
      (cs : List (Candle F)) (seen : Dict Time)
      → IsDict seen
      → IsKeyed seen
      → IsDict (note_series cs seen) × IsKeyed (note_series cs seen)
  unfolding note_series
  note_series-IsKeyed [] seen d h = (d, h)
  note_series-IsKeyed (c ∷ cs) seen d h =
      note_series-IsKeyed cs (insert (unix_milli c.open_time) c.open_time seen)
        (insert-IsDict (unix_milli c.open_time) c.open_time seen d)
        (insert-IsKeyed c.open_time seen h)

  note_all-IsKeyed :
      (candles : Dict (List (Candle F))) (seen : Dict Time)
      → IsDict seen
      → IsKeyed seen
      → IsDict (note_all candles seen) × IsKeyed (note_all candles seen)
  unfolding note_all
  note_all-IsKeyed [] seen d h = (d, h)
  note_all-IsKeyed ((k, series) ∷ rest) seen d h =
      let noted = note_series-IsKeyed series seen d h in
      note_all-IsKeyed rest (note_series series seen) noted.0 noted.1

-- Another instant is not this one.
abbrev pub Differs : Time → Time → Type 0
Differs t u = (t == u) ≡ false

insert_time-All :
    (P : Time → Type 0) (t : Time) (ts : List Time) → P t → All P ts → All P (insert_time t ts)
unfolding insert_time
insert_time-All P t [] h hs = (h, tt)
insert_time-All P t (u ∷ us) h hs = elim (Bool-cases (ltb u t)) [
  | inl less ↦ rw less (hs.0, insert_time-All P t us h hs.1)
  | inr more ↦ rw more (h, hs)
]

sort_times-All : (P : Time → Type 0) (ts : List Time) → All P ts → All P (sort_times ts)
unfolding sort_times
sort_times-All P [] h = tt
sort_times-All P (t ∷ ts) h = insert_time-All P t (sort_times ts) h.0 (sort_times-All P ts h.1)

All-less : (t u : Time) (ts : List Time) → t < u → All (λ v. u < v) ts → All (λ v. t < v) ts
All-less t u [] h hs = tt
All-less t u (v ∷ ts) h hs = (omega (arith, hs.0), All-less t u ts h hs.1)

insert_time-IsIncreasing :
    (t : Time) (ts : List Time)
    → All (Differs t) ts
    → IsIncreasing ts
    → IsIncreasing (insert_time t ts)
unfolding insert_time
insert_time-IsIncreasing t [] h up = (tt, tt)
insert_time-IsIncreasing t (u ∷ us) h up = elim (Bool-cases (ltb u t)) [
  | inl less ↦ rw less (
    insert_time-All (λ v. u < v) t us (ground (arith, less)) up.0,
    insert_time-IsIncreasing t us h.1 up.1,
  )
  | inr more ↦
      let first : t < u = ground (arith, more, h.0) in
      rw more ((first, All-less t u us first up.0), up)
]

times_of-Differs :
    (k t : Time) (seen : Dict Time)
    → unix_milli t ≡ k
    → lookup k seen ≡ none
    → IsKeyed seen
    → All (Differs t) (times_of seen)
times_of-Differs k t [] e new h = tt
times_of-Differs k t ((j, u) ∷ seen) e new h =
    (ground (arith, e, new, h.0), times_of-Differs k t seen e (ground (arith, new)) h.1)

sort_times-IsIncreasing :
    (seen : Dict Time) → IsDict seen → IsKeyed seen → IsIncreasing (sort_times (times_of seen))
unfolding sort_times
sort_times-IsIncreasing [] d h = tt
sort_times-IsIncreasing ((k, t) ∷ seen) d h =
    insert_time-IsIncreasing t (sort_times (times_of seen))
      (sort_times-All (Differs t) (times_of seen) (times_of-Differs k t seen h.0 d.0 h.1))
      (sort_times-IsIncreasing seen d.1 h.1)

-- Whatever the candles are, every day of the calendar is after the one before it.
pub build_calendar-IsIncreasing :
    {F : Type 0} (candles : Dict (List (Candle F))) → IsIncreasing (build_calendar candles)
unfolding build_calendar
build_calendar-IsIncreasing candles =
    let noted = note_all-IsKeyed candles [] tt tt in
    sort_times-IsIncreasing (note_all candles []) noted.0 noted.1
