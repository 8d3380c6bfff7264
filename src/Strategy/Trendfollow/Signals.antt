-- ===== src/Strategy/Trendfollow/Signals.antt =====
-- The trend-following strategy says only what the position, or the bars, give reason for.
use crypto_swing_bot.Prelude.{
  pos, ltb_ℤ, ◌≡◌, refl, ◌⊎◌, inl, inr, true, false, Bool-cases, Option-cases, Option, none, some,
  List, [], ◌∷◌, if◌then◌else◌, ◌==◌, ==-refl, length, any, All, All-append, arith,
}
use crypto_swing_bot.Prelude.Dict.{Dict, lookup, IsDict}
use crypto_swing_bot.Float.{Float}
use crypto_swing_bot.Domain.{Symbol, Candle, Signal, SignalKind, enter, exit, stop_update, Position}
use crypto_swing_bot.Strategy.{Input}
use crypto_swing_bot.Strategy.Trendfollow.{
  TrendfollowParams, trendfollow, warmup_bars, last_of, signal_less, insert_signal, sort_signals,
  last_atr, trailing_stop, exits, enters, entry_signal, manage, manage_own, manage_all, series_of,
  enter_unheld, enter_all, evaluate,
}

-- What a signal of each kind tells of the position and of the bars that it was made of.
abbrev pub HasReason :
    {F D : Type 0} ⦃f : Float F⦄ → TrendfollowParams F → Input F D → SignalKind → Signal F → Type 0
HasReason {F = F} {D = D} ⦃f⦄ p i stop_update s =
    (held : Position F D) × (lookup s.symbol i.portfolio.positions ≡ some held)
    × (held.strategy ≡ trendfollow)
    × ((s.stop_price ≡ held.stop_price) ⊎ (f.lt held.stop_price s.stop_price ≡ true))
HasReason {F = F} {D = D} p i exit s =
    (held : Position F D) × (last : Candle F) × (lookup s.symbol i.portfolio.positions ≡ some held)
    × (held.strategy ≡ trendfollow)
    × (last_of (series_of i s.symbol) ≡ some last)
    × (exits p (series_of i s.symbol) last ≡ true)
HasReason {F = F} ⦃f⦄ p i enter s =
    (last : Candle F) × (lookup s.symbol i.portfolio.positions ≡ none)
    × (any (λ u. u == s.symbol) i.universe ≡ true)
    × (last_of (series_of i s.symbol) ≡ some last)
    × (ltb_ℤ (pos (length (series_of i s.symbol))) (warmup_bars p) ≡ false)
    × (enters p (series_of i s.symbol) last ≡ true)
    × (s.stop_price ≡ f.sub last.close (f.mul p.atr_stop_mult (last_atr p (series_of i s.symbol))))

abbrev pub IsReasoned :
    {F D : Type 0} ⦃f : Float F⦄ → TrendfollowParams F → Input F D → Signal F → Type 0
IsReasoned p i s = (s.as_of ≡ i.as_of) × HasReason p i s.kind s

module _ {F : Type 0} (P : Signal F → Type 0) where
  insert_signal-All :
      (s : Signal F) (ss : List (Signal F)) → P s → All P ss → All P (insert_signal s ss)
  unfolding insert_signal
  insert_signal-All s [] h hs = (h, tt)
  insert_signal-All s (t ∷ ts) h hs = elim (Bool-cases (signal_less t s)) [
    | inl e ↦ rw e (hs.0, insert_signal-All s ts h hs.1)
    | inr e ↦ rw e (h, hs)
  ]

  sort_signals-All : (ss : List (Signal F)) → All P ss → All P (sort_signals ss)
  unfolding sort_signals
  sort_signals-All [] hs = tt
  sort_signals-All (s ∷ ss) hs =
      insert_signal-All s (sort_signals ss) hs.0 (sort_signals-All ss hs.1)

  module _ {D : Type 0} ⦃f : Float F⦄ (p : TrendfollowParams F) (i : Input F D) where
    manage_all-All :
        (held : Dict (Position F D))
        → IsDict held
        → ((k : Symbol) (v : Position F D) → lookup k held ≡ some v → All P (manage_own p i k v))
        → All P (manage_all p i held)
    unfolding manage_all
    manage_all-All [] d h = tt
    manage_all-All ((k, v) ∷ rest) d h =
        All-append P (manage_own p i k v) (manage_all p i rest) (h k v (rw (==-refl k) refl))
          (manage_all-All rest d.1 λ j w e. h j w (ground (arith, e, d.0)))

    enter_all-All :
        (us : List Symbol)
        → ((k : Symbol) → any (λ u. u == k) us ≡ true → All P (enter_unheld p i k))
        → All P (enter_all p i us)
    unfolding enter_all
    enter_all-All [] h = tt
    enter_all-All (u ∷ us) h =
        All-append P (enter_unheld p i u) (enter_all p i us) (h u (rw (==-refl u) refl))
          (enter_all-All us λ k e. h k (ground (arith, e)))

module _ {F : Type 0} ⦃f : Float F⦄ where
  -- The stop stays, or the new one is above it.
  trailing_stop-ratchet :
      (p : TrendfollowParams F) (high_water stop last_high atr_now : F)
      → (trailing_stop p high_water stop last_high atr_now ≡ stop)
        ⊎ (f.lt stop (trailing_stop p high_water stop last_high atr_now) ≡ true)
  unfolding trailing_stop
  trailing_stop-ratchet p high_water stop last_high atr_now =
      elim (Bool-cases (
        f.lt stop (
          f.sub (if f.lt high_water last_high then last_high else high_water)
            (f.mul p.atr_stop_mult atr_now)))) [ inl e ↦ inr (rw e e) | inr e ↦ inl (rw e refl) ]

module _ {F D : Type 0} ⦃f : Float F⦄ (p : TrendfollowParams F) (i : Input F D) where
  manage-reason :
      (k : Symbol) (v : Position F D) (last : Option (Candle F))
      → last_of (series_of i k) ≡ last
      → lookup k i.portfolio.positions ≡ some v
      → v.strategy ≡ trendfollow
      → All (IsReasoned p i) (manage p i.as_of k v (series_of i k) last)
  unfolding manage
  manage-reason k v none el e own = tt
  manage-reason k v (some last) el e own =
      let ratchet =
        trailing_stop-ratchet p v.high_water v.stop_price last.high (last_atr p (series_of i k)) in
      elim (Bool-cases (f.is_finite (last_atr p (series_of i k)))) [
        | inr bad ↦ rw bad tt
        | inl ok ↦ elim (Bool-cases (exits p (series_of i k) last)) [
          | inl out ↦
              rw (ok, out) ((refl, (v, e, own, ratchet)), ((refl, (v, last, e, own, el, out)), tt))
          | inr stay ↦ rw (ok, stay) ((refl, (v, e, own, ratchet)), tt)
        ]
      ]

  manage_own-reason :
      (k : Symbol) (v : Position F D)
      → lookup k i.portfolio.positions ≡ some v
      → All (IsReasoned p i) (manage_own p i k v)
  manage_own-reason k v e = elim (Bool-cases (v.strategy == trendfollow)) [
    | inl own ↦ rw own (manage-reason k v _ refl e (ground (arith, own)))
    | inr foreign ↦ rw foreign tt
  ]

  entry_signal-reason :
      (k : Symbol) (last : Option (Candle F))
      → last_of (series_of i k) ≡ last
      → lookup k i.portfolio.positions ≡ none
      → any (λ u. u == k) i.universe ≡ true
      → All (IsReasoned p i) (entry_signal p i.as_of k (series_of i k) last)
  unfolding entry_signal
  entry_signal-reason k none el e u = tt
  entry_signal-reason k (some last) el e u =
      elim (Bool-cases (ltb_ℤ (pos (length (series_of i k))) (warmup_bars p))) [
        | inl short ↦ rw short tt
        | inr long ↦ elim (Bool-cases (enters p (series_of i k) last)) [
          | inl ok ↦ rw (long, ok) ((refl, (last, e, u, el, long, ok, refl)), tt)
          | inr bad ↦ rw (long, bad) tt
        ]
      ]

  enter_unheld-reason :
      (k : Symbol) → any (λ u. u == k) i.universe ≡ true → All (IsReasoned p i) (enter_unheld p i k)
  enter_unheld-reason k u = elim (Option-cases (lookup k i.portfolio.positions)) [
    | inl free ↦ rw free (entry_signal-reason k _ refl free u)
    | inr (v, held) ↦ rw held tt
  ]

  -- Every signal bears the date that was asked for. A stop is of a position that the strategy holds
  -- and stays or goes up; an exit is of such a position below its average; an entry is of a symbol of
  -- the universe without a position, with bars enough, that meets the conditions, its stop a multiple
  -- of the range below the close. No key of the positions is listed twice.
  pub evaluate-reason : IsDict i.portfolio.positions → All (IsReasoned p i) (evaluate p i)
  unfolding evaluate
  evaluate-reason d = sort_signals-All (IsReasoned p i) _ (
      All-append (IsReasoned p i) (manage_all p i i.portfolio.positions) (enter_all p i i.universe)
        (manage_all-All (IsReasoned p i) p i i.portfolio.positions d manage_own-reason)
        (enter_all-All (IsReasoned p i) p i i.universe enter_unheld-reason))
