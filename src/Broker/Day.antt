-- ===== src/Broker/Day.antt =====
-- One simulated day: paper.go, Advance, advanceCursor, fillPending, updateHighWater and checkStops.
pub mod Phases
use crypto_swing_bot.Prelude.{
  ℕ, suc, Bool, true, false, ◌&&◌, ◌||◌, Option, none, some, List, [], ◌∷◌, ◌++◌, if◌then◌else◌,
  ◌>>=◌, leb, ◌==◌, any, drop,
}
use crypto_swing_bot.Prelude.Dict.{Dict, lookup, insert, keys}
use crypto_swing_bot.Float.{Float, Convert}
use crypto_swing_bot.Domain.{Symbol, Time, Candle, Side, buy, sell, OrderRequest}
use crypto_swing_bot.Broker.Book.{stop, OpenPosition, PaperBroker, value_or, candle_at}
use crypto_swing_bot.Broker.Fill.{fill_price_of, fill_buy, fill_sell, settle_exit}

-- The loop of `advanceCursor` over the bars behind the cursor.
unfoldable pub advance_known : {F : Type 0} → Time → ℕ → List (Candle F) → ℕ
advance_known t k [] = k
advance_known t k (c ∷ rest) = if leb c.open_time t then advance_known t (suc k) rest else k

-- The loop over the symbols of the candles, for each of which there is a cursor.
unfoldable pub advance_cursors : {F : Type 0} → Time → Dict (List (Candle F)) → Dict ℕ → Dict ℕ
advance_cursors t [] known = known
advance_cursors t ((sym, series) ∷ rest) known =
    let k = value_or 0 (lookup sym known) in
    advance_cursors t rest (insert sym (advance_known t k (drop k series)) known)

-- `sort.Strings`.
unfoldable pub insert_sorted : Symbol → List Symbol → List Symbol
insert_sorted s [] = s ∷ []
insert_sorted s (x ∷ xs) = if leb s x then s ∷ x ∷ xs else x ∷ insert_sorted s xs

unfoldable pub sort_symbols : List Symbol → List Symbol
sort_symbols [] = []
sort_symbols (s ∷ ss) = insert_sorted s (sort_symbols ss)

-- What the loop of `fillPending` carries: the broker, the orders that stay, the symbols opened today.
pub record Filling (F D : Type 0) : Type 0 where
  pub broker : PaperBroker F D
  pub remaining : List (OrderRequest D)
  pub just_opened : List Symbol

pub data Advanced (F D : Type 0) : Type 0 where
  settled : PaperBroker F D → Advanced F D
  non_increasing : Advanced F D
  panicked : Advanced F D

-- The gap rule: a bar that opens through the stop is filled at its open.
unfoldable pub gap_fill : {F : Type 0} ⦃f : Float F⦄ → Candle F → F → F
gap_fill ⦃f⦄ bar stop_price = if f.lt stop_price bar.open_price then stop_price else bar.open_price

module _ {F D : Type 0} ⦃f : Float F⦄ ⦃c : Convert F D⦄ where
  open f use {lit, lt, le}

  -- An order at its bar.
  abbrev pub fill_at : Side → Candle F → Time → OrderRequest D → Filling F D → Option (Filling F D)
  fill_at buy bar t req s = do
    b ← fill_buy s.broker req bar t
    some (record s { broker = b; just_opened = req.symbol ∷ s.just_opened })
  fill_at sell bar t req s = do b ← fill_sell s.broker req bar t; some (record s { broker = b })

  abbrev pub fill_or_keep :
      Option (Candle F) → Time → OrderRequest D → Filling F D → Option (Filling F D)
  fill_or_keep none t req s = some (record s { remaining = s.remaining ++ (req ∷ []) })
  fill_or_keep (some bar) t req s = fill_at req.side bar t req s

  unfoldable pub fill_one : Time → OrderRequest D → Filling F D → Option (Filling F D)
  fill_one t req s = fill_or_keep (candle_at s.broker req.symbol t) t req s

  unfoldable pub fill_loop : Time → List (OrderRequest D) → Filling F D → Option (Filling F D)
  fill_loop t [] s = some s
  fill_loop t (req ∷ reqs) s = do s' ← fill_one t req s; fill_loop t reqs s'

  unfoldable pub fill_pending : Time → PaperBroker F D → Option (Filling F D)
  fill_pending t b = do
    s ← fill_loop t b.pending (record { broker = b; remaining = []; just_opened = [] })
    some (record s { broker = record (s.broker) { pending = s.remaining } })

  -- The high-water mark of one position under the day's bar.
  abbrev pub raised : Option (Candle F) → OpenPosition F D → OpenPosition F D
  raised none p = p
  raised (some bar) p =
      if lt p.position.high_water bar.high
      then record p { position = record (p.position) { high_water = bar.high } }
      else p

  unfoldable pub raise_all :
      PaperBroker F D → Time → Dict (OpenPosition F D) → Dict (OpenPosition F D)
  raise_all b t [] = []
  raise_all b t ((sym, p) ∷ rest) = (sym, raised (candle_at b sym t) p) ∷ raise_all b t rest

  unfoldable pub update_high_water : Time → PaperBroker F D → PaperBroker F D
  update_high_water t b = record b { positions = raise_all b t b.positions }

  -- A stop under the day's bar: the price at which it is filled.
  abbrev pub breach : Option (OpenPosition F D) → Option (Candle F) → Option F
  breach none bar = none
  breach (some p) none = none
  breach (some p) (some bar) =
      if le p.position.stop_price (lit 0 0) || lt p.position.stop_price bar.low
      then none
      else some (gap_fill bar p.position.stop_price)

  abbrev pub settle_stop : Option F → PaperBroker F D → Symbol → Time → PaperBroker F D
  settle_stop none b symbol t = b
  settle_stop (some price) b symbol t =
      value_or b (settle_exit b symbol (fill_price_of sell b price) t stop)

  unfoldable pub check_stop : Time → List Symbol → Symbol → PaperBroker F D → PaperBroker F D
  check_stop t just_opened symbol b =
      if any (λ s. s == symbol) just_opened
      then b
      else settle_stop (breach (lookup symbol b.positions) (candle_at b symbol t)) b symbol t

  unfoldable pub check_all_stops :
      Time → List Symbol → List Symbol → PaperBroker F D → PaperBroker F D
  check_all_stops t just_opened [] b = b
  check_all_stops t just_opened (s ∷ ss) b =
      check_all_stops t just_opened ss (check_stop t just_opened s b)

  unfoldable pub check_stops : Time → List Symbol → PaperBroker F D → PaperBroker F D
  check_stops t just_opened b = check_all_stops t just_opened (sort_symbols (keys b.positions)) b

  -- The end of the day: the marks, the stops and the clock.
  abbrev pub end_of_day : Time → Option (Filling F D) → Advanced F D
  end_of_day t none = panicked
  end_of_day t (some s) =
      let b = check_stops t s.just_opened (update_high_water t s.broker) in
      settled (record b { now = t; started = true })

  -- The method `Advance`.
  unfoldable pub advance : PaperBroker F D → Time → Advanced F D
  advance b t =
      if b.started && leb t b.now
      then non_increasing
      else end_of_day t (fill_pending t (record b { known = advance_cursors t b.candles b.known }))
