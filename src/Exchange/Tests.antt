-- ===== src/Exchange/Tests.antt =====
-- Runs of the rate limiter and of the backoff, and the theorems at these inputs.
use crypto_swing_bot.Prelude.{
  ◌^◌, ◌*◌, ◌≡◌, refl, false, ℤ, pos, negsuc, ltb_ℤ, ◌-ℤ◌, [], ◌∷◌, arith,
}
use crypto_swing_bot.Float.Whole.{whole_float}
use crypto_swing_bot.Exchange.RateLimit.{
  RateLimiter, fired, done, new_rate_limiter, with_bursts, with_burst, capped, refill, seconds,
  allow, wait, state_of, Reached, started, allowed, waited,
}
use crypto_swing_bot.Exchange.RateLimit.Bounded.{IsBounded, Reached-IsBounded}
use crypto_swing_bot.Exchange.Backoff.{
  default_backoff_policy, delay_cap, double_loop, delay_cap-least, least,
}

-- 120 calls a minute, in bursts of two.
abbrev limiter : RateLimiter ℤ
limiter = new_rate_limiter (pos 120) (pos 2 ∷ []) 0

third_refused : (allow ((allow ((allow limiter 0).0) 0).0) 0).1 ≡ false
unfolding new_rate_limiter with_bursts with_burst capped refill seconds allow
third_refused = refl

less-irreflexive : (x : ℤ) → ltb_ℤ x x ≡ false
less-irreflexive (pos n) = ground arith
less-irreflexive (negsuc n) = ground arith

less_spend : (x y : ℤ) → ltb_ℤ x y ≡ false → ltb_ℤ x (y -ℤ pos 1) ≡ false
less_spend (pos m) (pos n) h = ground arith
less_spend (pos m) (negsuc n) h = ground arith
less_spend (negsuc m) (pos n) h = ground arith
less_spend (negsuc m) (negsuc n) h = ground arith

abbrev later : RateLimiter ℤ
later = state_of (wait ((allow limiter 0).0) 0 (fired 1_000_000_000 ∷ done ∷ []))

later-Reached : Reached (pos 120) (pos 2 ∷ []) 0 later
later-Reached = waited _ 0 (fired 1_000_000_000 ∷ done ∷ []) (allowed limiter 0 started)

Reached-IsBounded_example : IsBounded later
Reached-IsBounded_example =
    Reached-IsBounded less-irreflexive less_spend (pos 120) (pos 2 ∷ []) 0 later later-Reached

fourth_delay : delay_cap default_backoff_policy (pos 4) ≡ pos 4_000_000_000
unfolding delay_cap double_loop
fourth_delay = refl

delay_cap-least_example :
    delay_cap (record { base = pos 500; max = pos 30_000; max_retries = pos 5 }) (pos 4)
    ≡ pos (least 30_000 (500 * 2 ^ 3))
delay_cap-least_example =
    delay_cap-least 500 30_000 (pos 5) (pos 4) (omega arith) (omega arith) (omega arith)
      (omega arith)
