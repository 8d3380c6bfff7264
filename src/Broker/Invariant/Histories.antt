-- ===== src/Broker/Invariant/Histories.antt =====
-- The invariant over a whole day and over every history of calls: paper.go, Advance.
use crypto_swing_bot.Prelude.{
  ℕ, ◌≡◌, refl, inl, inr, Bool-cases, Option, none, some, is_some, Option-cases, List, [], ◌∷◌,
  ◌==◌, any, arith,
}
use crypto_swing_bot.Prelude.Dict.{Dict, lookup, erase, keys, IsDict, lookup-erase, erase-IsDict}
use crypto_swing_bot.Float.{Float, Decimal, Convert}
use crypto_swing_bot.Domain.{Symbol, Time, Candle, sell, OrderRequest}
use crypto_swing_bot.Broker.Book.{
  OpenPosition, PaperBroker, created, new_paper_broker, Mode, Costs, stop,
}
use crypto_swing_bot.Broker.Fill.{settle_exit, fill_price_of}
use crypto_swing_bot.Broker.Fill.Effects.{settle_exit-IsSettled}
use crypto_swing_bot.Broker.Day.{
  settled, raise_all, update_high_water, settle_stop, sort_symbols, check_stop, check_all_stops,
  check_stops, advance,
}
use crypto_swing_bot.Broker.Day.Phases.{at_day, advance_phases}
use crypto_swing_bot.Broker.Orders.{submit, cancel}
use crypto_swing_bot.Broker.Invariant.Queue.{All-map_lem}
use crypto_swing_bot.Broker.Invariant.Well.{IsWell, IsWell-congr, submit-IsWell, cancel-IsWell}
use crypto_swing_bot.Broker.Invariant.Filling.{fill_pending-IsWell}

module _ {F D : Type 0} ⦃f : Float F⦄ ⦃c : Convert F D⦄ where
  -- The marks change no key.
  pub is_some-lookup-raise_all :
      (b : PaperBroker F D) (t : Time) (k : ℕ) (positions : Dict (OpenPosition F D))
      → is_some (lookup k (raise_all b t positions)) ≡ is_some (lookup k positions)
  unfolding raise_all
  is_some-lookup-raise_all b t k [] = refl
  is_some-lookup-raise_all b t k ((j, p) ∷ rest) =
      ground (arith, is_some-lookup-raise_all b t k rest)

  lookup-raise_all-none :
      (b : PaperBroker F D) (t : Time) (k : ℕ) (positions : Dict (OpenPosition F D))
      → lookup k positions ≡ none
      → lookup k (raise_all b t positions) ≡ none
  lookup-raise_all-none b t k positions e = ground (arith, is_some-lookup-raise_all b t k positions)

  raise_all-IsDict :
      (b : PaperBroker F D) (t : Time) (positions : Dict (OpenPosition F D))
      → IsDict positions
      → IsDict (raise_all b t positions)
  unfolding raise_all
  raise_all-IsDict b t [] d = tt
  raise_all-IsDict b t ((j, p) ∷ rest) (new, d) =
      (lookup-raise_all-none b t j rest new, raise_all-IsDict b t rest d)

  update_high_water-IsWell :
      (t : Time) (b : PaperBroker F D) → IsWell b → IsWell (update_high_water t b)
  unfolding update_high_water
  update_high_water-IsWell t b w = record {
    is_dict = raise_all-IsDict b t b.positions (w.is_dict);
    entries_new =
        All-map_lem b.pending
          (λ r new buys. lookup-raise_all-none b t r.symbol b.positions (new buys)) (w.entries_new);
    is_unique = w.is_unique;
  }

  erase-IsWell :
      (b b' : PaperBroker F D) (k : ℕ)
      → b'.positions ≡ erase k b.positions
      → b'.pending ≡ b.pending
      → IsWell b
      → IsWell b'
  erase-IsWell b b' k p q w = record {
    is_dict = rw p (erase-IsDict k b.positions (w.is_dict));
    entries_new =
        rw (p, q)
          (All-map_lem b.pending
            (λ r new buys.
              ground (arith, lookup-erase r.symbol k b.positions (w.is_dict), new buys))
            (w.entries_new));
    is_unique = rw q (w.is_unique);
  }

  settle_stop-IsWell :
      (price : Option F) (b : PaperBroker F D) (symbol : Symbol) (t : Time)
      → IsWell b
      → IsWell (settle_stop price b symbol t)
  settle_stop-IsWell none b symbol t w = w
  settle_stop-IsWell (some price) b symbol t w =
      elim (Option-cases (settle_exit b symbol (fill_price_of sell b price) t stop)) [
        | inl e ↦ rw e w
        | inr (b', e) ↦
            let (p, done) = settle_exit-IsSettled b symbol _ t stop b' e in
            rw e (erase-IsWell b b' symbol (done.positions_eq) (done.pending_eq) w)
      ]

  check_all_stops-IsWell :
      (t : Time) (just_opened ss : List Symbol) (b : PaperBroker F D)
      → IsWell b
      → IsWell (check_all_stops t just_opened ss b)
  unfolding check_all_stops check_stop
  check_all_stops-IsWell t just_opened [] b w = w
  check_all_stops-IsWell t just_opened (s ∷ ss) b w =
      check_all_stops-IsWell t just_opened ss (check_stop t just_opened s b)
        (elim (Bool-cases (any (λ x. x == s) just_opened)) [
          | inl e ↦ rw e w
          | inr e ↦ rw e (settle_stop-IsWell _ b s t w)
        ])

  -- `Advance` keeps the invariant whenever it settles the day.
  pub advance-IsWell :
      (b b' : PaperBroker F D) (t : Time) → advance b t ≡ settled b' → IsWell b → IsWell b'
  unfolding check_stops
  advance-IsWell b b' t h w =
      let (s, e, same, on_time) = advance_phases b b' t h in
      let w₁ = fill_pending-IsWell t (at_day b t) s e (IsWell-congr b _ refl refl w) in
      let w₂ =
        check_all_stops-IsWell t s.just_opened
          (sort_symbols (keys (update_high_water t s.broker).positions))
          (update_high_water t s.broker) (update_high_water-IsWell t s.broker w₁) in
      rw same (IsWell-congr _ _ refl refl w₂)

module _ {F D : Type 0} ⦃f : Float F⦄ ⦃d : Decimal D⦄ ⦃c : Convert F D⦄ where
  -- One call of the broker by its client.
  pub data Call (b : PaperBroker F D) : PaperBroker F D → Type 0 where
    submits : (req : OrderRequest D) → Call b (submit b req).0
    cancels : (symbol : Symbol) (id : ℕ) → Call b (cancel b symbol id).0
    advances : {b' : PaperBroker F D} (t : Time) → advance b t ≡ settled b' → Call b b'

  -- Every broker that a sequence of calls makes of a given one.
  pub data Reach (b : PaperBroker F D) : PaperBroker F D → Type 0 where
    here : Reach b b
    next : {b' b'' : PaperBroker F D} → Reach b b' → Call b' b'' → Reach b b''

  pub Call-IsWell : {b b' : PaperBroker F D} → Call b b' → IsWell b → IsWell b'
  Call-IsWell {b} (submits req) w = submit-IsWell b req w
  Call-IsWell {b} (cancels symbol id) w = cancel-IsWell b symbol id w
  Call-IsWell {b} (advances {b'} t e) w = advance-IsWell b b' t e w

  pub Reach-IsWell : {b b' : PaperBroker F D} → Reach b b' → IsWell b → IsWell b'
  Reach-IsWell here w = w
  Reach-IsWell (next r call) w = Call-IsWell call (Reach-IsWell r w)

  -- Whatever is submitted, canceled and settled from a new broker on, no symbol has two positions, no
  -- entry is queued for a symbol that has one, and no two queued orders are of one symbol and side.
  pub new-IsWell :
      (mode : Mode) (candles : Dict (List (Candle F))) (cash : F) (costs : Costs F) (now : Time)
      (name : ℕ) {b b' : PaperBroker F D}
      → new_paper_broker mode candles cash costs now name ≡ created b
      → Reach b b'
      → IsWell b'
  unfolding new_paper_broker
  new-IsWell mode candles cash costs now name {b} h r = Reach-IsWell r (ground arith)
