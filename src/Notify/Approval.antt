-- ===== src/Notify/Approval.antt =====
-- internal/notify/approval.go: the states of a proposal and the data of its two buttons. A string is the
-- list of its bytes.
use mathlib.Core.Path.{subst}
use crypto_swing_bot.Prelude.{
  ℕ, ◌≡◌, refl, sym, ◌∙◌, ap, inl, inr, ◌↔◌, Bool, true, false, Bool-cases, Option, none, some,
  List, [], ◌∷◌, ◌++◌, if◌then◌else◌, ◌==◌, any, arith,
}

pub data ProposalStatus : Type 0 where
  pending approved rejected expired submitted filled failed : ProposalStatus

-- `validNext[from][to]`; a pair that the table does not list is false.
unfoldable pub can_transition : ProposalStatus → ProposalStatus → Bool
can_transition pending approved = true
can_transition pending rejected = true
can_transition pending expired = true
can_transition approved submitted = true
can_transition submitted filled = true
can_transition submitted failed = true
can_transition _ _ = false

abbrev pub GoString : Type 0
GoString = List ℕ

abbrev pub colon : ℕ
colon = 58

unfoldable pub encode_callback : GoString → GoString → GoString
encode_callback action proposal_id = action ++ (colon ∷ proposal_id)

abbrev pub prefixed : ℕ → Option (GoString × GoString) → Option (GoString × GoString)
prefixed c none = none
prefixed c (some (a, b)) = some (c ∷ a, b)

-- `strings.Cut(data, ":")`; `none` is a string without a colon.
unfoldable pub cut : GoString → Option (GoString × GoString)
cut [] = none
cut (c ∷ cs) = if c == colon then some ([], cs) else prefixed c (cut cs)

abbrev pub both_given : Option (GoString × GoString) → Option (GoString × GoString)
both_given (some (a ∷ as', b ∷ bs)) = some (a ∷ as', b ∷ bs)
both_given _ = none

-- `none` is `ok == false`.
unfoldable pub parse_callback : GoString → Option (GoString × GoString)
parse_callback data' = both_given (cut data')

-- A state that is reached from pending by steps that `CanTransition` allows, and the earlier ones, the
-- latest first.
pub data History : ProposalStatus → List ProposalStatus → Type 0 where
  created : History pending []
  moved :
      (from to : ProposalStatus) (past : List ProposalStatus)
      → History from past
      → can_transition from to ≡ true
      → History to (from ∷ past)

-- The only way to each state, the latest first.
abbrev pub past_of : ProposalStatus → List ProposalStatus
past_of pending = []
past_of approved = pending ∷ []
past_of rejected = pending ∷ []
past_of expired = pending ∷ []
past_of submitted = approved ∷ pending ∷ []
past_of filled = submitted ∷ approved ∷ pending ∷ []
past_of failed = submitted ∷ approved ∷ pending ∷ []

past_of-step :
    (from to : ProposalStatus) → can_transition from to ≡ true → from ∷ past_of from ≡ past_of to
unfolding can_transition
past_of-step from to h = elim from [
  | pending ↦ elim to [ pending ↦ ground arith | _ ↦ ground arith ]
  | _ ↦ ground arith
]

History-past : (s : ProposalStatus) (past : List ProposalStatus) → History s past → past ≡ past_of s
History-past s [] created = refl
History-past s _ (moved from to past h e) =
    ap (λ p. from ∷ p) (History-past from past h) ∙ past_of-step from to e

approved-History : History approved (past_of approved)
unfolding can_transition
approved-History = moved pending approved [] created refl

submitted-History : History submitted (past_of submitted)
unfolding can_transition
submitted-History = moved approved submitted (past_of approved) approved-History refl

past_of-History : (s : ProposalStatus) → History s (past_of s)
unfolding can_transition
past_of-History pending = created
past_of-History approved = approved-History
past_of-History rejected = moved pending rejected [] created refl
past_of-History expired = moved pending expired [] created refl
past_of-History submitted = submitted-History
past_of-History filled = moved submitted filled (past_of submitted) submitted-History refl
past_of-History failed = moved submitted failed (past_of submitted) submitted-History refl

-- By steps that `CanTransition` allows, each state can be reached from pending, and on one way only: to
-- approved, rejected and expired at once, to submitted over approved, and to filled and failed over
-- approved and submitted. It says nothing of a change that is made without asking `CanTransition`.
pub History-past_iff :
    (s : ProposalStatus) (past : List ProposalStatus) → History s past ↔ (past ≡ past_of s)
History-past_iff s past = (History-past s past, λ e. subst (History s) (sym e) (past_of-History s))

-- A string holds no colon.
abbrev pub HasNoColon : GoString → Type 0
HasNoColon s = any (λ c. c == colon) s ≡ false

cut-encode : (a b : GoString) → HasNoColon a → cut (encode_callback a b) ≡ some (a, b)
unfolding cut encode_callback
cut-encode [] b h = refl
cut-encode (c ∷ a) b h = elim (Bool-cases (c == colon)) [
  | inl is ↦ absurd (ground (arith, h, is))
  | inr not_colon ↦ rw (not_colon, cut-encode a b (ground (arith, h, not_colon))) refl
]

-- What the parts tell of the string that they were cut from.
abbrev pub AreParts : GoString → Option (GoString × GoString) → Type 0
AreParts s none = Unit
AreParts s (some (a, b)) = (s ≡ encode_callback a b) × HasNoColon a

prefixed-AreParts :
    (c : ℕ) (s : GoString) (parts : Option (GoString × GoString))
    → (c == colon) ≡ false
    → AreParts s parts
    → AreParts (c ∷ s) (prefixed c parts)
unfolding encode_callback
prefixed-AreParts c s none e h = tt
prefixed-AreParts c s (some (a, b)) e h = (ap (λ t. c ∷ t) h.0, rw e h.1)

cut-AreParts : (s : GoString) → AreParts s (cut s)
unfolding cut encode_callback
cut-AreParts [] = tt
cut-AreParts (c ∷ s) = elim (Bool-cases (c == colon)) [
  | inl is ↦ rw is (ap (λ d. d ∷ s) (ground (arith, is)), refl)
  | inr not_colon ↦ rw not_colon (prefixed-AreParts c s (cut s) not_colon (cut-AreParts s))
]

-- A string is not empty.
abbrev pub IsGiven : GoString → Type 0
IsGiven [] = ⊥
IsGiven (c ∷ s) = Unit

-- What an answer of `parse_callback` tells of the string.
abbrev pub IsAnswer : GoString → Option (GoString × GoString) → Type 0
IsAnswer s none = Unit
IsAnswer s (some (a, b)) = (s ≡ encode_callback a b) × HasNoColon a × IsGiven a × IsGiven b

both_given-IsAnswer :
    (s : GoString) (parts : Option (GoString × GoString))
    → AreParts s parts
    → IsAnswer s (both_given parts)
both_given-IsAnswer s none h = tt
both_given-IsAnswer s (some ([], ys)) h = tt
both_given-IsAnswer s (some (x ∷ xs, [])) h = tt
both_given-IsAnswer s (some (x ∷ xs, y ∷ ys)) h = (h.0, h.1, tt, tt)

both_given-given : (a b : GoString) → IsGiven a → IsGiven b → both_given (some (a, b)) ≡ some (a, b)
both_given-given [] b g h = absurd g
both_given-given (x ∷ a) [] g h = absurd h
both_given-given (x ∷ a) (y ∷ b) g h = refl

-- Parsing gives back an action and a proposal id exactly if they are not empty, the action holds no
-- colon and the data is the encoding of the two.
pub parse_callback_iff :
    (s a b : GoString)
    → (parse_callback s ≡ some (a, b))
      ↔ ((s ≡ encode_callback a b) × HasNoColon a × IsGiven a × IsGiven b)
unfolding parse_callback
parse_callback_iff s a b = (
  λ e. subst (λ r. IsAnswer s r) e (both_given-IsAnswer s (cut s) (cut-AreParts s)),
  λ h.
      ap (λ t. both_given (cut t)) h.0
      ∙ ap both_given (cut-encode a b h.1)
      ∙ both_given-given a b h.2 h.3,
)
