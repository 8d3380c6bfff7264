-- ===== src/Indicator/Extends.antt =====
-- Lists that grow at the end, and lists of NaNs among them.
use mathlib.Core.List.{append_assoc, append-nil}
use native.Mathlib.Nat.{zero-add}
use crypto_swing_bot.Prelude.{
  ℕ, zero, suc, ◌+◌, ◌-◌, ◌≤◌, ◌≡◌, refl, sym, ap, ◌∙◌, inl, inr, false, Bool-cases, List, [], ◌∷◌,
  ◌++◌, if◌then◌else◌, ltb, length, take, drop, replicate, length-append, arith,
}
use crypto_swing_bot.Float.{Float}
use crypto_swing_bot.Indicator.Slice.{nan_slice}

module _ {A : Type 0} where
  -- `ys` is `xs` with more values at the end.
  abbrev pub Extends : List A → List A → Type 0
  Extends ys xs = (more : List A) × (ys ≡ xs ++ more)

  pub cons-Extends : (x : A) (ys xs : List A) → Extends ys xs → Extends (x ∷ ys) (x ∷ xs)
  cons-Extends x ys xs (more, e) = (more, ap (λ l. x ∷ l) e)

  pub append-Extends : (p ys xs : List A) → Extends ys xs → Extends (p ++ ys) (p ++ xs)
  append-Extends [] ys xs h = h
  append-Extends (x ∷ p) ys xs h = cons-Extends x _ _ (append-Extends p ys xs h)

  replicate_add : (m k : ℕ) (a : A) → replicate (m + k) a ≡ replicate m a ++ replicate k a
  replicate_add zero k a = ap (λ n. replicate n a) (zero-add k)
  replicate_add (suc m) k a =
      ap (λ n. replicate n a) (suc-add m k) ∙ ap (λ l. a ∷ l) (replicate_add m k a)
    where
      suc-add : (m k : ℕ) → suc m + k ≡ suc (m + k)
      suc-add m k = omega arith

  pub take-append_le : (n : ℕ) (v w : List A) → n ≤ length v → take n (v ++ w) ≡ take n v
  take-append_le zero v w h = refl
  take-append_le (suc n) [] w h = absurd (omega arith)
  take-append_le (suc n) (x ∷ v) w h = ap (λ l. x ∷ l) (take-append_le n v w (omega arith))

  pub drop-append_le : (n : ℕ) (v w : List A) → n ≤ length v → drop n (v ++ w) ≡ drop n v ++ w
  drop-append_le zero v w h = refl
  drop-append_le (suc n) [] w h = absurd (omega arith)
  drop-append_le (suc n) (x ∷ v) w h = drop-append_le n v w (omega arith)

module _ {F : Type 0} ⦃f : Float F⦄ where
  open f use {nan}

  -- A longer list of NaNs, with anything behind it.
  pub nan_slice-Extends :
      (m n : ℕ) (rest : List F) → m ≤ n → Extends (nan_slice n ++ rest) (nan_slice m)
  unfolding nan_slice
  nan_slice-Extends m n rest h =
      let e : n ≡ m + (n - m) = omega arith in
      (
        replicate (n - m) nan ++ rest,
        ap (λ k. replicate k nan ++ rest) e
            ∙ ap (λ l. l ++ rest) (replicate_add m (n - m) nan)
            ∙ append_assoc (replicate m nan) (replicate (n - m) nan) rest,
      )

  pub nan_slice-Extends_self : (m n : ℕ) → m ≤ n → Extends {A = F} (nan_slice n) (nan_slice m)
  nan_slice-Extends_self m n h =
      let (more, e) = nan_slice-Extends m n [] h in (more, sym (append-nil (nan_slice n)) ∙ e)

  -- The input has grown, and there is no period.
  pub all_nan-Extends :
      {A : Type 0} (v w : List A)
      → Extends {A = F} (nan_slice (length (v ++ w))) (nan_slice (length v))
  all_nan-Extends v w = nan_slice-Extends_self _ _ (omega (arith, length-append v w))

  -- The input has grown under the guard `len(v) < m`: a list of NaNs, or NaNs and the values of a loop.
  pub guarded-Extends :
      (m k : ℕ) (v w body body' : List F)
      → m ≤ k + 1
      → (m ≤ length v → Extends body' body)
      → Extends
          (if ltb (length (v ++ w)) m then nan_slice (length (v ++ w)) else nan_slice k ++ body')
          (if ltb (length v) m then nan_slice (length v) else nan_slice k ++ body)
  guarded-Extends m k v w body body' h grows = elim (Bool-cases (ltb (length v) m)) [
    | inl short ↦ elim (Bool-cases (ltb (length (v ++ w)) m)) [
      | inl short' ↦ rw (short, short') (all_nan-Extends v w)
      | inr long' ↦ rw (short, long') (nan_slice-Extends _ _ _ (ground arith))
    ]
    | inr long ↦
        let long' : ltb (length (v ++ w)) m ≡ false = ground (arith, length-append v w) in
        rw (long, long') (append-Extends _ _ _ (grows (ground arith)))
  ]
