-- ===== src/Kernel/Close.antt =====
-- trading/kernel.py: the valuation of a portfolio.
pub mod Worth
use mini_qmt.Common.{
  ℕ, zero, Bool, true, false, not, ◌&&◌, Option, none, some, List, [], ◌∷◌, ◌++◌, ltb,
  if◌then◌else◌, Result, ok, err, ◌>>=◌,
}
use mini_qmt.Common.Dict.{Dict, get, put}
use mini_qmt.Common.Int.{ℤ, pos}
use mini_qmt.Common.Sorting.{sorted_set}
use mini_qmt.Decimal
use mini_qmt.Decimal.{Decimal}
use mini_qmt.Decimal.Exact.{of_cents}
use mini_qmt.Market.{Name, Day, DailyBar, MarketSession}
use mini_qmt.Trading.Fees.{money}
use mini_qmt.Trading.State.{
  PortfolioState, check_state, quantity, PositionLot, LedgerEvent, check_event, Valuation,
  EntityType, portfolio_valued, of_valuation, missing_valuation_price,
}
use mini_qmt.Kernel.Setup.{mark_incomplete}

abbrev pub lot_instruments : List PositionLot → List Name
lot_instruments [] = []
lot_instruments (l ∷ ls) = l.instrument_id ∷ lot_instruments ls

-- `{lot.instrument_id for lot in lots}`, sorted.
abbrev pub held_instruments : List PositionLot → List Name
held_instruments lots = sorted_set ltb (lot_instruments lots)

-- A closing price that is there and above zero.
abbrev pub usable_close : Option DailyBar → Option Decimal
usable_close none = none
usable_close (some bar) = elim bar.closing [
  | none ↦ none
  | some c ↦ if Decimal.lt (Decimal.of_ℕ 0) c then some c else none
]

abbrev put_close : Dict Decimal → Name → Option Decimal → Dict Decimal
put_close prices symbol none = prices
put_close prices symbol (some c) = put prices symbol c

-- The last prices with the session's closes over them.
unfoldable pub update_prices : Dict Decimal → Dict DailyBar → Dict Decimal
update_prices prices [] = prices
update_prices prices ((symbol, bar) ∷ bars) =
    update_prices (put_close prices symbol (usable_close (some bar))) bars

abbrev has_close : Option DailyBar → Bool
has_close none = false
has_close (some bar) = elim bar.closing [ none ↦ false | some c ↦ true ]

-- The variables of the loop over the held instruments.
pub record Tally : Type 0 where
  pub state : PortfolioState
  pub value : Decimal
  pub stale : List Name
  pub events : List LedgerEvent

abbrev value_at : Name → Dict DailyBar → Day → Tally → Option Decimal → Result Tally
value_at symbol bars day t none = do
  (current, marked) ←
      mark_incomplete t.state day (record { kind = missing_valuation_price; subject = symbol })
        symbol
  ok (record t { state = current; stale = t.stale ++ symbol ∷ []; events = t.events ++ marked })
value_at symbol bars day t (some price) = do
  worth ← money (Decimal.mul (Decimal.of_ℕ (quantity t.state symbol)) price)
  ok (record t {
    value = Decimal.add t.value (of_cents worth);
    stale = if has_close (get bars symbol) then t.stale else t.stale ++ symbol ∷ [];
  })

unfoldable pub tally_symbols : Dict Decimal → Dict DailyBar → Day → Tally → List Name → Result Tally
tally_symbols prices bars day t [] = ok t
tally_symbols prices bars day t (symbol ∷ symbols) = do
  next ← value_at symbol bars day t (get prices symbol)
  tally_symbols prices bars day next symbols

-- What `_value_at_close` returns.
pub record Closing : Type 0 where
  pub state : PortfolioState
  pub valuation : Valuation
  pub events : List LedgerEvent

-- `_value_at_close`
unfoldable pub value_at_close : PortfolioState → MarketSession → Result Closing
unfolding update_prices tally_symbols
value_at_close state market = do
  let day = market.session_date
  let prices = update_prices state.last_prices market.bars
  t ←
      tally_symbols prices market.bars day
        (record { state = state; value = of_cents (pos 0); stale = []; events = [] })
        (held_instruments state.lots)
  value ← money t.value
  equity ← money (Decimal.add (of_cents t.state.cash) (of_cents value))
  nav_ratio ← Decimal.div (of_cents equity) (of_cents t.state.initial_cash)
  nav ← Decimal.quantize 8 nav_ratio
  current ← check_state (record (t.state) { last_prices = prices })
  let valuation : Valuation = record {
    session_date = day;
    cash = current.cash;
    market_value = value;
    total_equity = equity;
    nav = nav;
    stale_instruments = t.stale;
  }
  valued ← check_event (record {
    session_date = day;
    event_type = portfolio_valued;
    entity_type = EntityType.portfolio;
    entity_id = 1;
    payload = of_valuation valuation;
  })
  ok (record { state = current; valuation = valuation; events = t.events ++ valued ∷ [] })

abbrev close_or_last : Option DailyBar → Option Decimal → Option Decimal
close_or_last none last = last
close_or_last (some bar) last = elim bar.closing [ none ↦ last | some c ↦ some c ]

abbrev add_position : Decimal → ℕ → Option Decimal → Decimal
add_position value held none = value
add_position value held (some price) = Decimal.add value (Decimal.mul (Decimal.of_ℕ held) price)

unfoldable pub equity_from : PortfolioState → Dict DailyBar → Decimal → List Name → Decimal
equity_from state bars value [] = value
equity_from state bars value (symbol ∷ symbols) =
    equity_from state bars
      (add_position value (quantity state symbol)
        (close_or_last (get bars symbol) (get state.last_prices symbol)))
      symbols

-- `_equity`. The source iterates over a set, in no particular order; here it is sorted.
unfoldable pub equity : PortfolioState → Dict DailyBar → Result ℤ
unfolding equity_from
equity state bars =
    money (equity_from state bars (of_cents state.cash) (held_instruments state.lots))
