-- ===== src/Exchange/Backoff.antt =====
-- internal/exchange/ratelimit.go: the bound that doubles with every retry. A duration is an `int64` of
-- nanoseconds; the random part of it that is waited for is not modelled.
use native.Mathlib.Nat.{two-pow-succ, one-le-pow, le-mul_of_pos_right, mul-add, add-mul}
use crypto_swing_bot.Prelude.{
  ℕ, zero, suc, ◌+◌, ◌-◌, ◌*◌, ◌%◌, ◌^◌, ◌≤◌, ◌<◌, ◌≡◌, refl, inl, inr, Bool-cases, ℤ, pos, negsuc,
  ◌+ℤ◌, if◌then◌else◌, ltb, ltb_ℤ, leb_ℤ, arith,
}

pub record BackoffPolicy : Type 0 where
  pub base : ℤ
  pub max : ℤ
  pub max_retries : ℤ

abbrev pub default_backoff_policy : BackoffPolicy
default_backoff_policy = record {
  base = pos 500_000_000;
  max = pos 30_000_000_000;
  max_retries = pos 5;
}

-- The `int64` that a sum wraps around to.
abbrev pub wrap64 : ℤ → ℤ
wrap64 (pos n) = let r = n % 2 ^ 64 in if ltb r (2 ^ 63) then pos r else negsuc (2 ^ 64 - 1 - r)
wrap64 (negsuc n) = let r = n % 2 ^ 64 in if ltb r (2 ^ 63) then negsuc r else pos (2 ^ 64 - 1 - r)

-- The loop that doubles the bound, for the retries that are left.
unfoldable pub double_loop : ℕ → ℤ → ℤ → ℤ
double_loop zero max bound = bound
double_loop (suc n) max bound =
    let bound' = wrap64 (bound +ℤ bound) in
    let rest = double_loop n max bound' in if leb_ℤ max bound' then max else rest

abbrev pub default_if_not_positive : ℤ → ℤ → ℤ
default_if_not_positive (pos (suc n)) fallback = pos (suc n)
default_if_not_positive _ fallback = fallback

-- The number of doublings before this attempt: `attempt - 1`, and none below the first attempt.
abbrev pub doublings : ℤ → ℕ
doublings (pos n) = n - 1
doublings (negsuc n) = 0

-- The variable `cap` of `delay`.
unfoldable pub delay_cap : BackoffPolicy → ℤ → ℤ
delay_cap p attempt =
    let base = default_if_not_positive p.base default_backoff_policy.base in
    let max = default_if_not_positive p.max default_backoff_policy.max in
    let bound = double_loop (doublings attempt) max base in if ltb_ℤ max bound then max else bound

-- The smaller of the two.
abbrev pub least : ℕ → ℕ → ℕ
least a b = if ltb a b then a else b

wrap64-double : (n : ℕ) → n < 2 ^ 62 → wrap64 (pos n +ℤ pos n) ≡ pos (n + n)
wrap64-double n h = ground arith

double_power : (c n : ℕ) → c * 2 ^ suc n ≡ (c + c) * 2 ^ n
double_power c n = rw (two-pow-succ n, mul-add c (2 ^ n) (2 ^ n), add-mul c c (2 ^ n)) refl

power_grows : (c n : ℕ) → c ≤ c * 2 ^ n
power_grows c n = le-mul_of_pos_right c (one-le-pow n 2 (omega arith))

double_loop-least :
    (n max bound : ℕ)
    → max ≤ 2 ^ 62
    → bound < 2 ^ 62
    → (if ltb_ℤ (pos max) (double_loop n (pos max) (pos bound))
        then pos max
        else double_loop n (pos max) (pos bound))
      ≡ pos (least max (bound * 2 ^ n))
unfolding double_loop
double_loop-least zero max bound hm hc = ground arith
double_loop-least (suc n) max bound hm hc =
    rw (wrap64-double bound hc) (elim (Bool-cases (leb_ℤ (pos max) (pos (bound + bound)))) [
      | inl reached ↦
          rw (reached, double_power bound n)
            (ground (arith, reached, power_grows (bound + bound) n))
      | inr below ↦
          rw (below, double_power bound n)
            (double_loop-least n max (bound + bound) hm (ground arith))
    ])

-- With a base and a maximum that are positive and at most 2^62 nanoseconds, the base less than that,
-- the bound of an attempt is the base doubled once for each attempt before it, and at most the
-- maximum: nothing overflows.
pub delay_cap-least :
    (base max : ℕ) (retries attempt : ℤ)
    → 0 < base
    → base < 2 ^ 62
    → 0 < max
    → max ≤ 2 ^ 62
    → delay_cap (record { base = pos base; max = pos max; max_retries = retries }) attempt
      ≡ pos (least max (base * 2 ^ doublings attempt))
unfolding delay_cap
delay_cap-least zero max retries attempt hb hb' hm hm' = absurd (omega arith)
delay_cap-least (suc b) zero retries attempt hb hb' hm hm' = absurd (omega arith)
delay_cap-least (suc b) (suc m) retries attempt hb hb' hm hm' =
    double_loop-least (doublings attempt) (suc m) (suc b) hm' hb'
