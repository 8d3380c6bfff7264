-- ===== src/Exchange/RateLimit.antt =====
-- internal/exchange/ratelimit.go: the token bucket. What a caller of `Wait` learns while it sleeps, that
-- its timer fired or that its context is done, is a list of wakes; the length of the sleep is not
-- modelled. The methods run under one lock, so each is one step.
pub mod Bounded
use crypto_swing_bot.Prelude.{
  ℕ, zero, suc, ◌+◌, ◌-◌, ◌*◌, ◌/◌, ◌%◌, ◌≤◌, ◌<◌, ◌≡◌, refl, ◌⊎◌, inl, inr, Bool-cases, ℤ, pos,
  negsuc, Bool, true, false, List, [], ◌∷◌, if◌then◌else◌,
}
use crypto_swing_bot.Float.{Float}
use crypto_swing_bot.Domain.{Time}

pub record RateLimiter (F : Type 0) : Type 0 where
  pub tokens : F
  pub capacity : F
  pub refill_per_sec : F
  pub last_refill : Time

-- Why a caller that sleeps in `Wait` goes on, and when: its timer fired, or its context is done.
pub data Wake : Type 0 where
  fired : Time → Wake
  done : Wake

-- What `Wait` comes to: a token, an error of the context, or still asleep.
pub data Waited (F : Type 0) : Type 0 where
  granted canceled asleep : RateLimiter F → Waited F

abbrev pub or_sixty : ℤ → ℤ
or_sixty (pos (suc n)) = pos (suc n)
or_sixty _ = pos 60

abbrev pub state_of : {F : Type 0} → Waited F → RateLimiter F
state_of (granted rl) = rl
state_of (canceled rl) = rl
state_of (asleep rl) = rl

module _ {F : Type 0} ⦃f : Float F⦄ where
  open f use {lit, of_int, add, sub, mul, div, lt, le}

  -- `if rl.tokens > rl.capacity { rl.tokens = rl.capacity }`
  unfoldable pub capped : F → F → F
  capped tokens capacity = if lt capacity tokens then capacity else tokens

  -- `d.Seconds()` of a duration that is not negative.
  unfoldable pub seconds : Time → F
  seconds d =
      add (of_int (pos (d / 1_000_000_000)))
        (div (of_int (pos (d % 1_000_000_000))) (lit 1_000_000_000 0))

  unfoldable pub with_burst : ℤ → RateLimiter F → RateLimiter F
  with_burst (pos (suc n)) rl =
      let capacity = of_int (pos (suc n)) in
      record rl { capacity = capacity; tokens = capped rl.tokens capacity }
  with_burst _ rl = rl

  -- The options that are given, in their order, are those of `WithBurst`.
  unfoldable pub with_bursts : List ℤ → RateLimiter F → RateLimiter F
  with_bursts [] rl = rl
  with_bursts (n ∷ ns) rl = with_bursts ns (with_burst n rl)

  -- The limiter before the options are applied.
  abbrev pub full_limiter : F → Time → RateLimiter F
  full_limiter capacity now = record {
    tokens = capacity;
    capacity = capacity;
    refill_per_sec = div capacity (lit 60 0);
    last_refill = now;
  }

  unfoldable pub new_rate_limiter : ℤ → List ℤ → Time → RateLimiter F
  new_rate_limiter rate_per_minute opts now =
      with_bursts opts (full_limiter (of_int (or_sixty rate_per_minute)) now)

  -- A clock that went back is a difference of 0 here, which is not refilled for either.
  unfoldable pub refill : RateLimiter F → Time → RateLimiter F
  refill rl now =
      let elapsed = seconds (now - rl.last_refill) in
      if le elapsed (lit 0 0) then rl else record rl {
        tokens = capped (add rl.tokens (mul elapsed rl.refill_per_sec)) rl.capacity;
        last_refill = now;
      }

  -- The method `Allow`.
  unfoldable pub allow : RateLimiter F → Time → RateLimiter F × Bool
  allow rl now =
      let rl' = refill rl now in
      if le (lit 1 0) rl'.tokens
      then (record rl' { tokens = sub rl'.tokens (lit 1 0) }, true)
      else (rl', false)

  abbrev pub after_try : RateLimiter F × Bool → Waited F → Waited F
  after_try (rl, true) later = granted rl
  after_try (rl, false) later = later

  -- The loop of `Wait`: the tries after the first one, each at the instant at which the timer fired.
  unfoldable pub wait_loop : List Wake → RateLimiter F → Waited F
  wait_loop [] rl = asleep rl
  wait_loop (done ∷ wakes) rl = canceled rl
  wait_loop (fired now ∷ wakes) rl = after_try (allow rl now) (wait_loop wakes ((allow rl now).0))

  -- The method `Wait`, whose first try is at `now`.
  unfoldable pub wait : RateLimiter F → Time → List Wake → Waited F
  wait rl now wakes = after_try (allow rl now) (wait_loop wakes ((allow rl now).0))

  -- The limiters that the calls of a program come to.
  pub data Reached (rate : ℤ) (opts : List ℤ) (start : Time) : RateLimiter F → Type 0 where
    started : Reached rate opts start (new_rate_limiter rate opts start)
    allowed :
        (rl : RateLimiter F) (now : Time)
        → Reached rate opts start rl
        → Reached rate opts start ((allow rl now).0)
    waited :
        (rl : RateLimiter F) (now : Time) (wakes : List Wake)
        → Reached rate opts start rl
        → Reached rate opts start (state_of (wait rl now wakes))
