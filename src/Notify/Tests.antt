-- ===== src/Notify/Tests.antt =====
-- Runs of the approval, and the theorems at these inputs.
use crypto_swing_bot.Prelude.{◌≡◌, ◌↔◌, refl, arith, some, [], ◌∷◌}
use crypto_swing_bot.Notify.Approval.{
  pending, approved, submitted, filled, can_transition, History, created, moved, past_of,
  History-past_iff, GoString, encode_callback, parse_callback, HasNoColon, IsGiven,
  parse_callback_iff,
}

-- "ok" and "7"
abbrev ok : GoString
ok = 111 ∷ 107 ∷ []

abbrev seven : GoString
seven = 55 ∷ []

filled-History : History filled (submitted ∷ approved ∷ pending ∷ [])
unfolding can_transition
filled-History =
    moved submitted filled _
      (moved approved submitted _ (moved pending approved _ created refl) refl) refl

-- No filled proposal went from approved to filled by steps that the table allows.
approved_first : ¬ (approved ∷ pending ∷ [] ≡ past_of filled)
approved_first e = absurd (ground (arith, e))

History-past_iff_example :
    History filled (approved ∷ pending ∷ []) ↔ (approved ∷ pending ∷ [] ≡ past_of filled)
History-past_iff_example = History-past_iff filled (approved ∷ pending ∷ [])

parse_callback_iff_example : (parse_callback (encode_callback ok seven) ≡ some (ok, seven)) ↔ (
    (encode_callback ok seven ≡ encode_callback ok seven)
    × HasNoColon ok
    × IsGiven ok
    × IsGiven seven)
parse_callback_iff_example = parse_callback_iff (encode_callback ok seven) ok seven
