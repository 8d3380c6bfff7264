-- ===== src/Engine/Decisions/Turns.antt =====
-- internal/engine/daily.go, awaitDecisions: one turn of the wait.
use crypto_swing_bot.Prelude.{
  ℕ, ◌+◌, ◌-◌, ◌≤◌, ◌<◌, ◌≡◌, refl, sym, ◌∙◌, ap, ◌⊎◌, inl, inr, Bool, true, false, ◌&&◌,
  Bool-cases, none, some, is_some, Option-cases, List, [], ◌∷◌, ◌==◌, ==-refl, length, any, All,
  All-append, arith,
}
use crypto_swing_bot.Prelude.Dict.{
  Dict, lookup, erase, IsDict, erase-IsDict, lookup-erase, lookup-erase_self,
}
use crypto_swing_bot.Domain.{Time}
use crypto_swing_bot.Notify.Approval.{ProposalStatus, pending, approved}
use crypto_swing_bot.Engine.World.{Proposal, Decision, World, goes, ◌>>=◌}
use crypto_swing_bot.Engine.Tables.{update_or_stop}
use crypto_swing_bot.Engine.Decisions.{
  Choice, received, decided_status, receive, take_decision, add_approved, rest_of, turn,
}
use crypto_swing_bot.Engine.Decisions.Rows.{
  is_decided, status_at, updated, IsOpen, Moves, row-status_at, update_or_stop-row,
  status_at-updated, lookup-same,
}

-- The queue holds an approval of the proposal.
abbrev pub is_granted : List Decision → ℕ → Bool
is_granted queue id = any (λ d. d.proposal_id == id && d.approved) queue

abbrev pub Within : List Decision → List Decision → Type 0
Within ds queue = (id : ℕ) → is_granted ds id ≡ true → is_granted queue id ≡ true

-- What a choice tells of the queue.
abbrev pub Fits : Choice → List Decision → Type 0
Fits (received d) ds = (rest : List Decision) × (ds ≡ d ∷ rest)
Fits _ ds = Unit

granted_head :
    (d : Decision) (ds : List Decision)
    → d.approved ≡ true
    → is_granted (d ∷ ds) d.proposal_id ≡ true
granted_head d ds h = rw (==-refl d.proposal_id, h) refl

decided_status-is : (b : Bool) → is_decided (some (decided_status b)) ≡ true
decided_status-is true = refl
decided_status-is false = refl

module _ {F D : Type 0} where
  -- Approved by a decision of the queue, in the table too, and not waited for any more.
  abbrev pub IsApproved : List Decision → Dict (Proposal F D) → World F D → Proposal F D → Type 0
  IsApproved queue m w p =
      (lookup p.id m ≡ none) × (status_at p.id w ≡ some approved) × (is_granted queue p.id ≡ true)

  -- The turns that can still follow: one for each decision, and one for each unit of time.
  abbrev pub left : Time → World F D → ℕ
  left horizon w = length w.decisions + (horizon - w.now)

  abbrev pub Until : Time → Dict (Proposal F D) → Type 0
  Until horizon m = (k : ℕ) (p : Proposal F D) → lookup k m ≡ some p → p.expires_at ≤ horizon

  -- What a turn comes to, with a horizon behind the deadlines and a queue that held the decisions.
  pub record Turned (horizon : Time) (queue : List Decision) (poll : Time) (choice : Choice)
      (m : Dict (Proposal F D)) (ps : List (Proposal F D)) (w : World F D) : Type 0 where
    pub open_ps : Dict (Proposal F D)
    pub approved_ps : List (Proposal F D)
    pub world : World F D
    pub runs : turn poll choice m ps w ≡ goes (open_ps, approved_ps) world
    pub moves : Moves m w open_ps world
    pub dict : IsDict open_ps
    pub approvals : All (IsApproved queue m w) ps → All (IsApproved queue open_ps world) approved_ps
    pub queued : Within world.decisions queue
    pub closer : (open_ps ≡ []) ⊎ (left horizon world < left horizon w)
    pub cancel : world.cancel_at ≡ w.cancel_at

  pub All-map :
      (P Q : Proposal F D → Type 0) (ps : List (Proposal F D))
      → ((p : Proposal F D) → P p → Q p)
      → All P ps
      → All Q ps
  All-map P Q [] f h = tt
  All-map P Q (p ∷ ps) f h = (f p h.0, All-map P Q ps f h.1)

  pub Moves-IsApproved :
      (queue : List Decision) (m : Dict (Proposal F D)) (w : World F D) (m' : Dict (Proposal F D))
      (w' : World F D)
      → Moves m w m' w'
      → (p : Proposal F D) → IsApproved queue m w p
      → IsApproved queue m' w' p
  Moves-IsApproved queue m w m' w' f p h = elim (f p.id) [
    | inl kept ↦ (kept.0 ∙ h.0, kept.1 ∙ h.1, h.2)
    | inr done ↦ absurd (ground (arith, done.0, h.0))
  ]

  -- The proposal of a decision leaves what is open.
  erased-Moves :
      (id : ℕ) (s : ProposalStatus) (t : Time) (p q : Proposal F D) (m : Dict (Proposal F D))
      (w : World F D)
      → IsDict m
      → lookup id m ≡ some p
      → is_decided (some s) ≡ true
      → Moves m w (erase id m) (updated id s t 0 q w)
  erased-Moves id s t p q m w d e is k = elim (Bool-cases (id == k)) [
    | inl same ↦ inr (
      ap is_some (sym (lookup-same id k m same) ∙ e),
      lookup-erase k id m d ∙ rw same refl,
      ap is_decided (status_at-updated k id s t 0 q w) ∙ rw same is,
    )
    | inr other ↦
        inl
          (lookup-erase k id m d ∙ rw other refl, status_at-updated k id s t 0 q w ∙ rw other refl)
  ]

  own_row :
      (i id : ℕ) (s : ProposalStatus) (t : Time) (row : Proposal F D) (w : World F D)
      → i ≡ id
      → lookup id w.proposals ≡ some row
      → update_or_stop i s t 0 w ≡ goes tt (updated id s t 0 row w)
  own_row i id s t row w e there = rw e (update_or_stop-row id s t 0 row w there)

  pub received-Turned :
      (horizon : Time) (queue : List Decision) (poll : Time) (d : Decision)
      (m : Dict (Proposal F D)) (ps : List (Proposal F D)) (w : World F D)
      → Fits (received d) w.decisions
      → Within w.decisions queue
      → IsDict m
      → IsOpen m w
      → Turned horizon queue poll (received d) m ps w
  unfolding turn receive
  received-Turned horizon queue poll d m ps w (ds, e) q dict h =
      elim (Option-cases (lookup d.proposal_id m)) [
        | inl gone ↦ record {
          open_ps = m;
          approved_ps = ps;
          world = take_decision w;
          runs = rw gone refl;
          moves = λ k. inl (refl, refl);
          dict = dict;
          approvals = λ g. g;
          queued = rest_queued;
          closer = inr shorter;
          cancel = refl;
        }
        | inr (p, found) ↦
            let id = d.proposal_id in
            let s = decided_status d.approved in
            let (row, there) = row-status_at id pending w (h id p found).1 in
            let w1 = updated id s d.at_time 0 row (take_decision w) in
            let moves =
              erased-Moves id s d.at_time p row m (take_decision w) dict found
                (decided_status-is d.approved) in
            record {
              open_ps = erase id m;
              approved_ps = add_approved d.approved p ps;
              world = w1;
              runs =
                  rw
                    (
                      found,
                      ◌>>=◌,
                      own_row p.id id s d.at_time row (take_decision w) (h id p found).0 there,
                    )
                    refl;
              moves = moves;
              dict = erase-IsDict id m dict;
              approvals = λ g. added d.approved refl p (h id p found).0 row (
                  All-map (IsApproved queue m w) (IsApproved queue (erase id m) w1) ps
                    (Moves-IsApproved queue m w (erase id m) w1 moves) g);
              queued = rest_queued;
              closer = inr shorter;
              cancel = refl;
            }
      ]
    where
      rest_queued : Within (rest_of w.decisions) queue
      rest_queued id g = q id (rw e (ground (arith, ap rest_of e, g)))

      shorter : left horizon (take_decision w) < left horizon w
      shorter = rw e (omega arith)

      added :
          (b : Bool)
          → d.approved ≡ b
          → (p : Proposal F D) → p.id ≡ d.proposal_id
          → (row : Proposal F D)
          → All
              (IsApproved queue
                (erase d.proposal_id m)
                (updated d.proposal_id (decided_status b) d.at_time 0 row (take_decision w)))
              ps
          → All
              (IsApproved queue
                (erase d.proposal_id m)
                (updated d.proposal_id (decided_status b) d.at_time 0 row (take_decision w)))
              (add_approved b p ps)
      added false eb p ep row g = g
      added true eb p ep row g =
          All-append
            (IsApproved queue (erase d.proposal_id m)
              (updated d.proposal_id approved d.at_time 0 row (take_decision w)))
            ps (record p { status = approved } ∷ []) g
            (
              (
                rw ep (lookup-erase_self d.proposal_id m dict),
                rw ep (
                    status_at-updated d.proposal_id d.proposal_id approved d.at_time 0 row
                      (take_decision w)
                    ∙ rw (==-refl d.proposal_id) refl),
                rw ep (q d.proposal_id (rw e (granted_head d ds eb))),
              ),
              tt,
            )
