-- ===== src/Broker/Invariant/Queue.antt =====
-- The invariant of the queue against the open positions: paper.go, the doc comment of PaperBroker.
use crypto_swing_bot.Prelude.{
  ℕ, ◌≡◌, ◌≢◌, refl, inl, inr, Bool-cases, Option-cases, false, none, some, List, [], ◌∷◌, ◌++◌,
  arith, ◌==◌, All, All-append, sym,
}
use crypto_swing_bot.Prelude.Dict.{Dict, lookup}
use crypto_swing_bot.Domain.{buy, OrderRequest}
use crypto_swing_bot.Broker.Book.{OpenPosition}
use crypto_swing_bot.Broker.Orders.{is_queued, dequeue}

module _ {D : Type 0} where
  -- Two queued orders are not of one symbol and one side.
  abbrev pub IsApart : OrderRequest D → OrderRequest D → Type 0
  IsApart r r' = r.symbol ≡ r'.symbol → r.side ≢ r'.side

  abbrev pub IsUnique : List (OrderRequest D) → Type 0
  IsUnique [] = Unit {0}
  IsUnique (r ∷ rs) = All (IsApart r) rs × IsUnique rs

  pub All-map_lem :
      {P Q : OrderRequest D → Type 0} (rs : List (OrderRequest D))
      → ((r : OrderRequest D) → P r → Q r)
      → All P rs
      → All Q rs
  All-map_lem [] h a = tt
  All-map_lem (r ∷ rs) h (p, ps) = (h r p, All-map_lem rs h ps)

  pub All-both_lem :
      {P Q R : OrderRequest D → Type 0} (rs : List (OrderRequest D))
      → ((r : OrderRequest D) → P r → Q r → R r)
      → All P rs
      → All Q rs
      → All R rs
  All-both_lem [] h a b = tt
  All-both_lem (r ∷ rs) h (p, ps) (q, qs) = (h r p q, All-both_lem rs h ps qs)

  pub All-drop_middle :
      (P : OrderRequest D → Type 0) (xs : List (OrderRequest D)) (r : OrderRequest D)
      (ys : List (OrderRequest D))
      → All P (xs ++ (r ∷ ys))
      → P r × All P (xs ++ ys)
  All-drop_middle P [] r ys a = a
  All-drop_middle P (x ∷ xs) r ys (p, ps) =
      let (q, qs) = All-drop_middle P xs r ys ps in (q, (p, qs))

  pub IsApart-symm : (r r' : OrderRequest D) → IsApart r r' → IsApart r' r
  IsApart-symm r r' h e s = h (sym e) (sym s)

  -- An order in the middle of the queue is apart from all others, and can be taken out.
  pub IsUnique-drop_middle :
      (xs : List (OrderRequest D)) (r : OrderRequest D) (ys : List (OrderRequest D))
      → IsUnique (xs ++ (r ∷ ys))
      → All (IsApart r) (xs ++ ys) × IsUnique (xs ++ ys)
  IsUnique-drop_middle [] r ys u = u
  IsUnique-drop_middle (x ∷ xs) r ys (a, u) =
      let (apart, rest) = IsUnique-drop_middle xs r ys u in
      let (x_r, x_rest) = All-drop_middle (IsApart x) xs r ys a in
      ((IsApart-symm x r x_r, apart), (x_rest, rest))

  pub IsUnique-append :
      (xs : List (OrderRequest D)) (r : OrderRequest D)
      → IsUnique xs
      → All (λ x. IsApart x r) xs
      → IsUnique (xs ++ (r ∷ []))
  IsUnique-append [] r u a = (tt, tt)
  IsUnique-append (x ∷ xs) r (x_xs, u) (p, ps) =
      (All-append (IsApart x) xs (r ∷ []) x_xs (p, tt), IsUnique-append xs r u ps)

  pub is_queued-IsApart :
      (r : OrderRequest D) (xs : List (OrderRequest D))
      → is_queued r.side r.symbol xs ≡ false
      → All (λ x. IsApart x r) xs
  is_queued-IsApart r [] h = tt
  is_queued-IsApart r (x ∷ xs) h = ground (arith, is_queued-IsApart r xs)

  -- What `dequeue` takes out: one order of the client id, from its place.
  pub dequeue_split :
      (cid : ℕ) (xs ys : List (OrderRequest D))
      → dequeue cid xs ≡ some ys
      → (front : List (OrderRequest D)) × (r : OrderRequest D) × (bs : List (OrderRequest D)) × (xs
          ≡ front ++ (r ∷ bs))
        × (ys ≡ front ++ bs)
        × (r.client_order_id ≡ cid)
  unfolding dequeue
  dequeue_split cid [] ys h = absurd (ground arith)
  dequeue_split cid (x ∷ xs) ys h = elim (Bool-cases (x.client_order_id == cid)) [
    | inl hit ↦ ([], x, xs, refl, ground arith, ground arith)
    | inr miss ↦ elim (Option-cases (dequeue cid xs)) [
      | inl e ↦ absurd (ground arith)
      | inr (zs, e) ↦
          let (front, r, bs, p, q, k) = dequeue_split cid xs zs e in
          (x ∷ front, r, bs, ground arith, ground arith, k)
    ]
  ]

  -- An entry is queued for a symbol with no open position only.
  abbrev pub IsEntryNew : {F : Type 0} → Dict (OpenPosition F D) → OrderRequest D → Type 0
  IsEntryNew positions r = r.side ≡ buy → lookup r.symbol positions ≡ none
