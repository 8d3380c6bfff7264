-- ===== src/Broker/Day/Phases.antt =====
-- The phases of a day that `Advance` settles: paper.go, Advance.
use crypto_swing_bot.Prelude.{
  ◌≡◌, inl, inr, sym, true, false, Bool-cases, some, Option-cases, ◌&&◌, leb, arith,
}
use crypto_swing_bot.Float.{Float, Convert}
use crypto_swing_bot.Domain.{Time}
use crypto_swing_bot.Broker.Book.{PaperBroker}
use crypto_swing_bot.Broker.Day.{
  Filling, Advanced, settled, fill_pending, update_high_water, check_stops, advance_cursors,
  advance,
}

module _ {F D : Type 0} ⦃f : Float F⦄ ⦃c : Convert F D⦄ where
  -- The broker with its cursors moved to the day.
  abbrev pub at_day : PaperBroker F D → Time → PaperBroker F D
  at_day b t = record b { known = advance_cursors t b.candles b.known }

  abbrev pub closed_day : Time → Filling F D → PaperBroker F D
  closed_day t s = record (check_stops t s.just_opened (update_high_water t s.broker)) {
    now = t;
    started = true;
  }

  pub settled-injective : {b b' : PaperBroker F D} → Advanced.settled b ≡ settled b' → b ≡ b'
  settled-injective h = cc

  pub advance_phases :
      (b b' : PaperBroker F D) (t : Time)
      → advance b t ≡ settled b'
      → (s : Filling F D) × (fill_pending t (at_day b t) ≡ some s)
        × (b' ≡ closed_day t s)
        × (b.started && leb t b.now ≡ false)
  unfolding advance
  advance_phases b b' t h = elim (Bool-cases (b.started && leb t b.now)) [
    | inl late ↦ absurd (ground arith)
    | inr on_time ↦ elim (Option-cases (fill_pending t (at_day b t))) [
      | inl panic ↦ absurd (ground arith)
      | inr (s, e) ↦ (s, e, sym (settled-injective (rw (on_time, e) at h)), on_time)
    ]
  ]
