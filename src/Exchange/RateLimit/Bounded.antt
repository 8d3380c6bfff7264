-- ===== src/Exchange/RateLimit/Bounded.antt =====
-- The bucket never holds more than its capacity.
use crypto_swing_bot.Prelude.{
  zero, suc, ℤ, pos, negsuc, ◌≡◌, refl, inl, inr, Bool, true, false, Bool-cases, List, [], ◌∷◌, ◌-◌,
}
use crypto_swing_bot.Float.{Float}
use crypto_swing_bot.Domain.{Time}
use crypto_swing_bot.Exchange.RateLimit.{
  RateLimiter, Wake, fired, done, Waited, state_of, capped, seconds, with_burst, with_bursts,
  new_rate_limiter, refill, allow, after_try, wait_loop, wait, or_sixty, full_limiter, Reached,
  started, allowed, waited,
}

-- The bucket holds no more than its capacity.
abbrev pub IsBounded : {F : Type 0} ⦃f : Float F⦄ → RateLimiter F → Type 0
IsBounded ⦃f⦄ rl = f.lt rl.capacity rl.tokens ≡ false

module _ {F : Type 0} ⦃f : Float F⦄ (irreflexive : (x : F) → f.lt x x ≡ false)
    (spend : (x y : F) → f.lt x y ≡ false → f.lt x (f.sub y (f.lit 1 0)) ≡ false) where
  capped-le : (tokens capacity : F) → f.lt capacity (capped tokens capacity) ≡ false
  unfolding capped
  capped-le tokens capacity = elim (Bool-cases (f.lt capacity tokens)) [
    | inl more ↦ rw more (irreflexive capacity)
    | inr within ↦ rw (within, within) refl
  ]

  with_burst-IsBounded : (n : ℤ) (rl : RateLimiter F) → IsBounded rl → IsBounded (with_burst n rl)
  unfolding with_burst
  with_burst-IsBounded (pos zero) rl h = h
  with_burst-IsBounded (pos (suc n)) rl h = capped-le rl.tokens (f.of_int (pos (suc n)))
  with_burst-IsBounded (negsuc n) rl h = h

  with_bursts-IsBounded :
      (ns : List ℤ) (rl : RateLimiter F) → IsBounded rl → IsBounded (with_bursts ns rl)
  unfolding with_bursts
  with_bursts-IsBounded [] rl h = h
  with_bursts-IsBounded (n ∷ ns) rl h =
      with_bursts-IsBounded ns (with_burst n rl) (with_burst-IsBounded n rl h)

  new-IsBounded :
      (rate : ℤ) (opts : List ℤ) (now : Time) → IsBounded {F = F} (new_rate_limiter rate opts now)
  unfolding new_rate_limiter
  new-IsBounded rate opts now =
      let full = full_limiter (f.of_int (or_sixty rate)) now in
      with_bursts-IsBounded opts full (irreflexive full.capacity)

  refill-IsBounded : (rl : RateLimiter F) (now : Time) → IsBounded rl → IsBounded (refill rl now)
  unfolding refill
  refill-IsBounded rl now h =
      elim (Bool-cases (f.le (seconds (now - rl.last_refill)) (f.lit 0 0))) [
        | inl still ↦ rw still h
        | inr later ↦ rw later (capped-le _ rl.capacity)
      ]

  allow-IsBounded : (rl : RateLimiter F) (now : Time) → IsBounded rl → IsBounded ((allow rl now).0)
  unfolding allow
  allow-IsBounded rl now h = elim (Bool-cases (f.le (f.lit 1 0) ((refill rl now).tokens))) [
    | inl one ↦ rw one (spend _ _ (refill-IsBounded rl now h))
    | inr less ↦ rw less (refill-IsBounded rl now h)
  ]

  after_try-IsBounded :
      (tried : RateLimiter F × Bool) (later : Waited F)
      → IsBounded (tried.0)
      → IsBounded (state_of later)
      → IsBounded (state_of (after_try tried later))
  after_try-IsBounded (rl, true) later h h' = h
  after_try-IsBounded (rl, false) later h h' = h'

  wait_loop-IsBounded :
      (wakes : List Wake) (rl : RateLimiter F)
      → IsBounded rl
      → IsBounded (state_of (wait_loop wakes rl))
  unfolding wait_loop
  wait_loop-IsBounded [] rl h = h
  wait_loop-IsBounded (done ∷ wakes) rl h = h
  wait_loop-IsBounded (fired now ∷ wakes) rl h =
      after_try-IsBounded (allow rl now) _ (allow-IsBounded rl now h)
        (wait_loop-IsBounded wakes ((allow rl now).0) (allow-IsBounded rl now h))

  -- Whatever rate and bursts a limiter is made with, and however its calls go on, it holds no more
  -- tokens than its capacity, for numbers where nothing is less than itself and taking one away
  -- makes nothing larger.
  pub Reached-IsBounded :
      (rate : ℤ) (opts : List ℤ) (start : Time) (rl : RateLimiter F)
      → Reached rate opts start rl
      → IsBounded rl
  unfolding wait
  Reached-IsBounded rate opts start _ started = new-IsBounded rate opts start
  Reached-IsBounded rate opts start _ (allowed rl now r) =
      allow-IsBounded rl now (Reached-IsBounded rate opts start rl r)
  Reached-IsBounded rate opts start _ (waited rl now wakes r) =
      let before = Reached-IsBounded rate opts start rl r in
      after_try-IsBounded (allow rl now) _ (allow-IsBounded rl now before)
        (wait_loop-IsBounded wakes ((allow rl now).0) (allow-IsBounded rl now before))
