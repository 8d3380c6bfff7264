-- ===== src/Engine/After.antt =====
-- What holds of a step of the daily loop (Engine/World) if it goes on.
use mathlib.Core.Path.{subst}
use crypto_swing_bot.Prelude.{◌≡◌, refl, sym, Option, none, some}
use crypto_swing_bot.Engine.World.{World, Step, goes, stops, panics, M, ◌>>=◌}

module _ {F D : Type 0} where
  -- What holds of the value and the world that a step goes on with, if it goes on.
  abbrev pub After : {A : Type 0} → (A → World F D → Type 0) → Step F D A → Type 0
  After P (goes a w) = P a w
  After P _ = Unit

  pub bind-After :
      {A B : Type 0} (Q : A → World F D → Type 0) (P : B → World F D → Type 0) (m : M F D A)
      (k : A → M F D B) (w : World F D)
      → After Q (m w)
      → ((a : A) (w' : World F D) → Q a w' → After P (k a w'))
      → After P ((m >>= k) w)
  bind-After {A = A} Q P m k w q h = step (m w) q
    where
      step :
          (s : Step F D A)
          → After Q s
          → After P (elim s [ goes a w' ↦ k a w' | stops e w' ↦ stops e w' | panics ↦ panics ])
      step (goes a w') r = h a w' r
      step (stops e w') r = tt
      step panics r = tt

  -- A part that is known to go on.
  pub bind-goes :
      {A B : Type 0} (P : B → World F D → Type 0) (m : M F D A) (k : A → M F D B) (w : World F D)
      (a : A) (w' : World F D)
      → m w ≡ goes a w'
      → After P (k a w')
      → After P ((m >>= k) w)
  bind-goes P m k w a w' e h = rw (◌>>=◌, e) h

  -- A part that leaves the world, apart from what is known of it.
  pub bind-settles :
      {A B : Type 0} (R : A → Type 0) (P : B → World F D → Type 0) (m : M F D A) (k : A → M F D B)
      (w v : World F D)
      → After (λ a w'. R a × (w' ≡ v)) (m w)
      → ((a : A) → R a → After P (k a v))
      → After P ((m >>= k) w)
  bind-settles R P m k w v q h =
      bind-After (λ a w'. R a × (w' ≡ v)) P m k w q
        (λ a w' r. subst (λ x. After P (k a x)) (sym r.1) (h a r.0))

  -- A part that goes on in a world that is told by something that it found.
  pub bind-sets :
      {A B C : Type 0} (R : C → Type 0) (v : C → World F D) (P : B → World F D → Type 0)
      (m : M F D A) (k : A → M F D B) (w : World F D)
      → After (λ a w'. (x : C) × R x × (w' ≡ v x)) (m w)
      → ((a : A) (x : C) → R x → After P (k a (v x)))
      → After P ((m >>= k) w)
  bind-sets {C = C} R v P m k w q h =
      bind-After (λ a w'. (x : C) × R x × (w' ≡ v x)) P m k w q
        (λ a w' r. subst (λ y. After P (k a y)) (sym r.2) (h a r.0 r.1))

  pub weaken-After :
      {A : Type 0} (Q P : A → World F D → Type 0) (s : Step F D A)
      → After Q s
      → ((a : A) (w' : World F D) → Q a w' → P a w')
      → After P s
  weaken-After Q P (goes a w') q h = h a w' q
  weaken-After Q P (stops e w') q h = tt
  weaken-After Q P panics q h = tt

  -- A step goes on as it does.
  pub self-After : {A : Type 0} (s : Step F D A) → After (λ a w'. s ≡ goes a w') s
  self-After (goes a w') = refl
  self-After (stops e w') = tt
  self-After panics = tt

  pub and-After :
      {A : Type 0} (P : A → World F D → Type 0) (s : Step F D A)
      → After P s
      → After (λ a w'. (s ≡ goes a w') × P a w') s
  and-After P (goes a w') p = (refl, p)
  and-After P (stops e w') p = tt
  and-After P panics p = tt

  -- A part of the program that may panic, as a step.
  abbrev pub ended : {A : Type 0} → Option (A × World F D) → Step F D A
  ended none = panics
  ended (some (a, w)) = goes a w
