-- ===== src/Broker/Invariant/Filling.antt =====
-- The loop over the queued orders keeps the invariant: paper.go, fillPending.
use mathlib.Core.List.{append_assoc, append-nil}
use mathlib.Core.Option.{some-injective}
use crypto_swing_bot.Prelude.{
  ℕ, ◌≡◌, refl, sym, inl, inr, Bool-cases, some, Option-cases, List, [], ◌∷◌, ◌++◌, ◌==◌, ◌∙◌,
  arith, All,
}
use crypto_swing_bot.Prelude.Dict.{
  Dict, insert, erase, IsDict, lookup-insert, insert-IsDict, lookup-erase, erase-IsDict,
}
use crypto_swing_bot.Float.{Float, Convert}
use crypto_swing_bot.Domain.{Time, Candle, Side, buy, sell, OrderRequest}
use crypto_swing_bot.Broker.Book.{OpenPosition, PaperBroker, candle_at}
use crypto_swing_bot.Broker.Fill.{fill_buy, fill_sell}
use crypto_swing_bot.Broker.Fill.Effects.{fill_buy-IsBought, fill_sell-IsSettled}
use crypto_swing_bot.Broker.Day.{Filling, fill_at, fill_one, fill_loop, fill_pending}
use crypto_swing_bot.Broker.Invariant.Queue.{
  IsApart, IsUnique, All-map_lem, All-both_lem, All-drop_middle, IsUnique-drop_middle, IsEntryNew,
}
use crypto_swing_bot.Broker.Invariant.Well.{IsWell}

module _ {F D : Type 0} where
  -- The invariant inside the loop: it is about the orders kept so far and those to come.
  pub record IsLoopWell (s : Filling F D) (reqs : List (OrderRequest D)) : Type 0 where
    pub is_dict : IsDict s.broker.positions
    pub entries_new : All (IsEntryNew s.broker.positions) (s.remaining ++ reqs)
    pub is_unique : IsUnique (s.remaining ++ reqs)

  keep-IsLoopWell :
      (s : Filling F D) (req : OrderRequest D) (reqs : List (OrderRequest D))
      → IsLoopWell s (req ∷ reqs)
      → IsLoopWell (record s { remaining = s.remaining ++ (req ∷ []) }) reqs
  keep-IsLoopWell s req reqs w = record {
    is_dict = w.is_dict;
    entries_new = rw append_assoc (w.entries_new);
    is_unique = rw append_assoc (w.is_unique);
  }

  insert-IsEntryNew :
      (positions : Dict (OpenPosition F D)) (req r : OrderRequest D) (p : OpenPosition F D)
      → req.side ≡ buy
      → IsApart req r
      → IsEntryNew positions r
      → IsEntryNew (insert req.symbol p positions) r
  insert-IsEntryNew positions req r p side apart new buys =
      let e = lookup-insert r.symbol req.symbol p positions in
      elim (Bool-cases (req.symbol == r.symbol)) [
        | inl same ↦ absurd (apart (ground arith) (side ∙ sym buys))
        | inr differ ↦ rw (e, differ) (new buys)
      ]

  -- An order of the loop that opens or closes a position leaves the loop.
  buy-IsLoopWell :
      (s : Filling F D) (b : PaperBroker F D) (opened : List ℕ) (req : OrderRequest D)
      (reqs : List (OrderRequest D)) (p : OpenPosition F D)
      → req.side ≡ buy
      → b.positions ≡ insert req.symbol p s.broker.positions
      → IsLoopWell s (req ∷ reqs)
      → IsLoopWell (record s { broker = b; just_opened = opened }) reqs
  buy-IsLoopWell s b opened req reqs p side e w =
      let (apart, unique) = IsUnique-drop_middle s.remaining req reqs (w.is_unique) in
      let new =
        (All-drop_middle (IsEntryNew s.broker.positions) s.remaining req reqs (w.entries_new)).1 in
      record {
        is_dict = rw e (insert-IsDict _ _ s.broker.positions (w.is_dict));
        entries_new = rw e (
            All-both_lem (s.remaining ++ reqs)
              (λ r. insert-IsEntryNew s.broker.positions req r p side) apart new);
        is_unique = unique;
      }

  sell-IsLoopWell :
      (s : Filling F D) (b : PaperBroker F D) (req : OrderRequest D) (reqs : List (OrderRequest D))
      → b.positions ≡ erase req.symbol s.broker.positions
      → IsLoopWell s (req ∷ reqs)
      → IsLoopWell (record s { broker = b }) reqs
  sell-IsLoopWell s b req reqs e w =
      let (apart, unique) = IsUnique-drop_middle s.remaining req reqs (w.is_unique) in
      let new =
        (All-drop_middle (IsEntryNew s.broker.positions) s.remaining req reqs (w.entries_new)).1 in
      record {
        is_dict = rw e (erase-IsDict _ s.broker.positions (w.is_dict));
        entries_new = rw e (
            All-map_lem (s.remaining ++ reqs)
              (λ r n buys. ground (arith, lookup-erase r.symbol req.symbol s.broker.positions))
              new);
        is_unique = unique;
      }

  same-IsLoopWell :
      (s : Filling F D) (b : PaperBroker F D) (req : OrderRequest D) (reqs : List (OrderRequest D))
      → b.positions ≡ s.broker.positions
      → IsLoopWell s (req ∷ reqs)
      → IsLoopWell (record s { broker = b }) reqs
  same-IsLoopWell s b req reqs e w = record {
    is_dict = rw e (w.is_dict);
    entries_new =
        rw e (
          (All-drop_middle (IsEntryNew s.broker.positions) s.remaining req reqs (w.entries_new)).1);
    is_unique = (IsUnique-drop_middle s.remaining req reqs (w.is_unique)).1;
  }

module _ {F D : Type 0} ⦃f : Float F⦄ ⦃c : Convert F D⦄ where
  fill_at-IsLoopWell :
      (side : Side) (bar : Candle F) (t : Time) (req : OrderRequest D)
      (reqs : List (OrderRequest D)) (s s' : Filling F D)
      → req.side ≡ side
      → fill_at side bar t req s ≡ some s'
      → IsLoopWell s (req ∷ reqs)
      → IsLoopWell s' reqs
  fill_at-IsLoopWell buy bar t req reqs s s' side h w =
      elim (Option-cases (fill_buy s.broker req bar t)) [
        | inl panic ↦ absurd (ground arith)
        | inr (b, e) ↦
            let done = fill_buy-IsBought s.broker req bar t b e in
            let same : record s { broker = b; just_opened = req.symbol ∷ s.just_opened } ≡ s' =
              ground arith in
            rw (← same) (buy-IsLoopWell s b _ req reqs _ side (done.positions_eq) w)
      ]
  fill_at-IsLoopWell sell bar t req reqs s s' side h w =
      elim (Option-cases (fill_sell s.broker req bar t)) [
        | inl panic ↦ absurd (ground arith)
        | inr (b, e) ↦
            let same : record s { broker = b } ≡ s' = ground arith in
            rw (← same) (elim (fill_sell-IsSettled s.broker req bar t b e) [
              | inl gone ↦ same-IsLoopWell s b req reqs (gone.positions_eq) w
              | inr (p, done) ↦ sell-IsLoopWell s b req reqs (done.positions_eq) w
            ])
      ]

  pub fill_one-IsLoopWell :
      (t : Time) (req : OrderRequest D) (reqs : List (OrderRequest D)) (s s' : Filling F D)
      → fill_one t req s ≡ some s'
      → IsLoopWell s (req ∷ reqs)
      → IsLoopWell s' reqs
  unfolding fill_one
  fill_one-IsLoopWell t req reqs s s' h w = elim (Option-cases (candle_at s.broker req.symbol t)) [
    | inl no_bar ↦
        let same : record s { remaining = s.remaining ++ (req ∷ []) } ≡ s' = ground arith in
        rw (← same) (keep-IsLoopWell s req reqs w)
    | inr (bar, e) ↦ fill_at-IsLoopWell req.side bar t req reqs s s' refl (rw e at h) w
  ]

  fill_loop-IsLoopWell :
      (t : Time) (reqs : List (OrderRequest D)) (s s' : Filling F D)
      → fill_loop t reqs s ≡ some s'
      → IsLoopWell s reqs
      → IsLoopWell s' []
  unfolding fill_loop
  fill_loop-IsLoopWell t [] s s' h w = rw (← some-injective _ _ h) w
  fill_loop-IsLoopWell t (req ∷ reqs) s s' h w = elim (Option-cases (fill_one t req s)) [
    | inl panic ↦ absurd (ground arith)
    | inr (s₁, e) ↦
        fill_loop-IsLoopWell t reqs s₁ s' (rw e at h) (fill_one-IsLoopWell t req reqs s s₁ e w)
  ]

  -- After the loop the invariant holds of the orders that stay in the queue.
  pub fill_pending-IsWell :
      (t : Time) (b : PaperBroker F D) (s : Filling F D)
      → fill_pending t b ≡ some s
      → IsWell b
      → IsWell s.broker
  unfolding fill_pending
  fill_pending-IsWell t b s h w =
      let start : Filling F D = record { broker = b; remaining = []; just_opened = [] } in
      elim (Option-cases (fill_loop t b.pending start)) [
        | inl panic ↦ absurd (ground arith)
        | inr (s₁, e) ↦
            let done = fill_loop-IsLoopWell t b.pending start s₁ e (record {
              is_dict = w.is_dict;
              entries_new = w.entries_new;
              is_unique = w.is_unique;
            }) in
            let same : record s₁ { broker = record (s₁.broker) { pending = s₁.remaining } } ≡ s =
              ground arith in
            rw (← same) (record {
              is_dict = done.is_dict;
              entries_new = rw (← append-nil s₁.remaining) (done.entries_new);
              is_unique = rw (← append-nil s₁.remaining) (done.is_unique);
            })
      ]
