-- ===== src/Market/Portal.antt =====
-- marketdata/portal.py: the queries of one snapshot. The tables that the constructor reads are lists
-- of rows. The warehouse's query of the daily bars is an interface, a function of the instruments
-- and the first and the last day. The rows of prices that only research reads are left out.
pub mod Visible
pub mod Actions
use mini_qmt.Common.{
  ℕ, zero, suc, Bool, true, false, not, ◌&&◌, ◌||◌, Option, none, some, List, [], ◌∷◌, map, ltb,
  leb, ◌==◌, if◌then◌else◌, Result, ok, err, ◌>>=◌, ◌>>◌, raise_if, or_raise, value_error,
  key_error, runtime_error, keep_if, any,
}
use mini_qmt.Common.Dict.{Dict, get, put}
use mini_qmt.Common.Int.{ℤ}
use mini_qmt.Common.Sorting.{sort, sorted_set}
use mini_qmt.Market.{
  Name, Day, AssetType, stock, etf, Instrument, DailyBar, CorporateAction, MarketSession,
}
use mini_qmt.Market.Rules.{Board, QuantityColumns, resolve_order_quantity_rule}

pub data ReadinessProfile : Type 0 where
  legacy_unknown research_price simulation : ReadinessProfile

pub record CalendarRow : Type 0 where
  pub exchange : Name
  pub session_date : Day
  pub is_open : Bool

-- A row of the instruments: the values of its columns, of which the three of the quantity rule come
-- apart, with the board as that rule reads it.
pub record InstrumentRow : Type 0 where
  pub values : Instrument
  pub board : Option Board
  pub buy_lot : Option ℤ
  pub quantity_step : Option ℤ
  pub odd_lot_sell_all : Option Bool

-- A row of the daily bars; the quantity rule may be missing.
pub record BarRow : Type 0 where
  pub values : DailyBar
  pub buy_lot : Option ℕ
  pub quantity_step : Option ℕ
  pub odd_lot_sell_all : Option Bool

-- `_instrument`
unfoldable pub instrument_of : InstrumentRow → Result Instrument
instrument_of row = do
  rule ← resolve_order_quantity_rule (record {
    asset_type = row.values.asset_type;
    board = row.board;
    buy_lot = row.buy_lot;
    quantity_step = row.quantity_step;
    odd_lot_sell_all = row.odd_lot_sell_all;
  })
  ok (record row.values {
    buy_lot = rule.minimum_buy_quantity;
    quantity_step = rule.quantity_step;
    odd_lot_sell_all = rule.odd_lot_sell_all;
  })

-- The rule of the row if all of it is there, and that of the instrument if not.
abbrev pub bar_rule : Option ℕ → Option ℕ → Option Bool → Instrument → ℕ × ℕ × Bool
bar_rule (some minimum) (some step) (some odd) instrument = (minimum, step, odd)
bar_rule _ _ _ instrument =
    (instrument.buy_lot, instrument.quantity_step, instrument.odd_lot_sell_all)

-- `_bar`
unfoldable pub bar_of : BarRow → Instrument → DailyBar
bar_of row instrument =
    let (minimum, step, odd) =
      bar_rule row.buy_lot row.quantity_step row.odd_lot_sell_all instrument in
    record row.values { buy_lot = minimum; quantity_step = step; odd_lot_sell_all = odd }

-- The snapshot as the warehouse stores it; a table that no selection names is none.
pub record Snapshot : Type 0 where
  pub snapshot_id : Name
  pub readiness : ReadinessProfile
  pub instruments : List InstrumentRow
  pub calendar : Option (List CalendarRow)
  pub corporate_actions : Option (List CorporateAction)
  pub daily_bars : List Name → Day → Day → Result (List BarRow)

pub record CanonicalMarketData : Type 0 where
  pub snapshot_id : Name
  pub instrument_records : Dict Instrument
  pub calendar : List CalendarRow
  pub action_records : List CorporateAction
  pub daily_bars : List Name → Day → Day → Result (List BarRow)

abbrev is_legacy : ReadinessProfile → Bool
is_legacy legacy_unknown = true
is_legacy _ = false

abbrev pub is_simulation : ReadinessProfile → Bool
is_simulation simulation = true
is_simulation _ = false

-- `{row.instrument_id: _instrument(row) for row in rows}`
unfoldable pub read_instruments : Dict Instrument → List InstrumentRow → Result (Dict Instrument)
unfolding instrument_of
read_instruments records [] = ok records
read_instruments records (row ∷ rows) =
    instrument_of row >>= λ i. read_instruments (put records row.values.instrument_id i) rows

abbrev pub or_empty {ℓ} : {A : Type ℓ} → Option (List A) → List A
or_empty none = []
or_empty (some rows) = rows

-- `CanonicalMarketData.__init__`. A table that the snapshot lacks is a table without rows; in the code it
-- has no columns either, so that a query of such a calendar raises there.
unfoldable pub canonical_market_data : Snapshot → ReadinessProfile → Result CanonicalMarketData
unfolding read_instruments
canonical_market_data snapshot required = do
  raise_if (is_legacy required) value_error
  raise_if (is_legacy snapshot.readiness) runtime_error
  raise_if (is_simulation required && not (is_simulation snapshot.readiness)) runtime_error
  records ← read_instruments [] snapshot.instruments
  ok (record {
    snapshot_id = snapshot.snapshot_id;
    instrument_records = records;
    calendar = or_empty snapshot.calendar;
    action_records = or_empty snapshot.corporate_actions;
    daily_bars = snapshot.daily_bars;
  })

abbrev pub session_dates : List CalendarRow → List Day
session_dates [] = []
session_dates (row ∷ rows) = row.session_date ∷ session_dates rows

abbrev pub is_open_between : Day → Day → CalendarRow → Bool
is_open_between first last row =
    row.is_open && (leb first row.session_date && leb row.session_date last)

abbrev pub is_open : CalendarRow → Bool
is_open row = row.is_open

-- `trading_days`, over all exchanges
unfoldable pub trading_days : CanonicalMarketData → Day → Day → Result (List Day)
trading_days market start_date end_date = do
  raise_if (ltb end_date start_date) value_error
  ok (
      sorted_set ltb
        (session_dates (keep_if (is_open_between start_date end_date) market.calendar)))

-- `all_trading_days`
unfoldable pub all_trading_days : CanonicalMarketData → List Day
all_trading_days market = sorted_set ltb (session_dates (keep_if is_open market.calendar))

abbrev pub is_open_after : Day → CalendarRow → Bool
is_open_after day row = row.is_open && ltb day row.session_date

-- The lesser of a day and a day that may be missing.
abbrev pub min_with : Day → Option Day → Option Day
min_with d none = some d
min_with d (some e) = some (if ltb e d then e else d)

-- The earliest of the days.
abbrev pub earliest : List Day → Option Day
earliest [] = none
earliest (d ∷ ds) = min_with d (earliest ds)

-- `next_trading_day`
unfoldable pub next_trading_day : CanonicalMarketData → Day → Option Day
next_trading_day market value =
    earliest (session_dates (keep_if (is_open_after value) market.calendar))

abbrev pub values : Dict Instrument → List Instrument
values [] = []
values ((_, i) ∷ rest) = i ∷ values rest

abbrev is_listed : Day → Option Day → Bool
is_listed as_of none = true
is_listed as_of (some listed) = leb listed as_of

abbrev is_not_delisted : Day → Option Day → Bool
is_not_delisted as_of none = true
is_not_delisted as_of (some delisted) = leb as_of delisted

abbrev exists_at : Option Day → Instrument → Bool
exists_at none i = true
exists_at (some as_of) i = is_listed as_of i.listed_date && is_not_delisted as_of i.delisted_date

abbrev same_asset : AssetType → AssetType → Bool
same_asset stock stock = true
same_asset etf etf = true
same_asset _ _ = false

abbrev is_asset_of : Option (List AssetType) → Instrument → Bool
is_asset_of none i = true
is_asset_of (some allowed) i = any (same_asset i.asset_type) allowed

abbrev pub instrument_before : Instrument → Instrument → Bool
instrument_before a b = ltb a.instrument_id b.instrument_id

-- `instruments`
unfoldable pub instruments :
    CanonicalMarketData → Option Day → Option (List AssetType) → List Instrument
instruments market as_of asset_types = sort instrument_before (
    keep_if (λ i. is_asset_of asset_types i && exists_at as_of i)
      (values market.instrument_records))

abbrev pub keys : Dict Instrument → List Name
keys [] = []
keys ((k, _) ∷ rest) = k ∷ keys rest

abbrev pub row_before : BarRow → BarRow → Bool
row_before a b =
    ltb a.values.session_date b.values.session_date
    || a.values.session_date == b.values.session_date
      && ltb a.values.instrument_id b.values.instrument_id

-- The rows that were found, in order; there are none if no instrument was asked for.
abbrev pub sorted_rows : List Name → Result (List BarRow) → Result (List BarRow)
sorted_rows [] found = ok []
sorted_rows (_ ∷ _) found = found >>= λ rows. ok (sort row_before rows)

-- `bars` in the raw price mode
unfoldable pub bars : CanonicalMarketData → List Name → Day → Day → Day → Result (List BarRow)
bars market instrument_ids start_date end_date as_of = do
  raise_if (ltb end_date start_date) value_error
  raise_if (ltb as_of end_date) value_error
  let symbols = sorted_set ltb instrument_ids
  sorted_rows symbols (market.daily_bars symbols start_date end_date)

-- `{row.instrument_id: _bar(row, records[row.instrument_id]) for row in rows}`
unfoldable pub read_bars : Dict Instrument → Dict DailyBar → List BarRow → Result (Dict DailyBar)
unfolding bar_of
read_bars records found [] = ok found
read_bars records found (row ∷ rows) =
    or_raise (get records row.values.instrument_id) key_error >>= λ i.
    read_bars records (put found row.values.instrument_id (bar_of row i)) rows

abbrev pub is_on : Day → Option Day → Bool
is_on day none = false
is_on day (some d) = d == day

-- The actions that are known by the session.
abbrev pub visible_actions : CanonicalMarketData → Day → List CorporateAction
visible_actions market day =
    keep_if (λ (a : CorporateAction). leb a.known_date day) market.action_records

-- `session`
unfoldable pub session : CanonicalMarketData → Day → Result MarketSession
unfolding bars read_bars
session market session_date = do
  rows ← bars market (keys market.instrument_records) session_date session_date session_date
  found ← read_bars market.instrument_records [] rows
  let actions = visible_actions market session_date
  ok (record {
    session_date = session_date;
    bars = found;
    record_actions = keep_if (λ (a : CorporateAction). is_on session_date a.record_date) actions;
    ex_actions = keep_if (λ (a : CorporateAction). a.ex_date == session_date) actions;
    pay_actions = keep_if (λ (a : CorporateAction). is_on session_date a.pay_date) actions;
    listing_actions = keep_if (λ (a : CorporateAction). is_on session_date a.listing_date) actions;
  })
