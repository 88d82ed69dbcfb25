-- ===== src/Market/Tests.antt =====
-- Examples of the theorems on the market data: a calendar of three open days, and stocks.
use mini_qmt.Common.{◌≡◌, refl, arith, true, false, none, some, [], ◌∷◌, List, ok, ltb, find}
use mini_qmt.Common.Sorting.{sorted_set, insert_new}
use mini_qmt.Market.{Day, CorporateAction, MarketSession, cash_dividend}
use mini_qmt.Market.Portal.{
  CanonicalMarketData, bars, trading_days, all_trading_days, next_trading_day, session,
}
use mini_qmt.Market.Portal.Visible.{Between, next_trading_day_lem, trading_days-Between}
use mini_qmt.Market.Portal.Actions.{no_actions, kept, inserted, session_not_ahead}
use mini_qmt.Market.Rules.{main}
use mini_qmt.Market.Rules.Stocks.{StockColumns}

abbrev action : Day → CorporateAction
action known = record {
  action_id = known;
  instrument_id = 7;
  action_type = cash_dividend;
  known_date = known;
  record_date = some 12;
  ex_date = 13;
  pay_date = some 14;
  listing_date = none;
  cash_per_share = none;
  share_ratio = none;
  rights_price = none;
  source_provider = 1;
  source_observation_id = 1;
  quantity_multiplier = none;
}

abbrev market : CanonicalMarketData
market = record {
  snapshot_id = 3;
  instrument_records = [];
  calendar =
      record { exchange = 1; session_date = 14; is_open = true }
      ∷ record { exchange = 1; session_date = 12; is_open = true }
      ∷ record { exchange = 1; session_date = 13; is_open = false }
      ∷ record { exchange = 2; session_date = 12; is_open = true }
      ∷ [];
  action_records = action 10 ∷ [];
  daily_bars = λ symbols start end. ok [];
}

abbrev more_actions : List CorporateAction
more_actions = action 13 ∷ action 10 ∷ action 14 ∷ []

session_not_ahead_example :
    session (record market { action_records = more_actions }) 12 ≡ session market 12
session_not_ahead_example = session_not_ahead market 12 more_actions (
    inserted (action 13) (omega arith)
      (kept (action 10) (inserted (action 14) (omega arith) no_actions)))

abbrev shown_session : MarketSession
shown_session = record {
  session_date = 12;
  bars = [];
  record_actions = action 10 ∷ [];
  ex_actions = [];
  pay_actions = [];
  listing_actions = [];
}

next_trading_day_lem_example :
    next_trading_day market 12 ≡ find (λ d. ltb 12 d) (all_trading_days market)
next_trading_day_lem_example = next_trading_day_lem market 12

next_is_14 : next_trading_day market 12 ≡ some 14
unfolding next_trading_day
next_is_14 = refl

trading_days-Between_example : Between market 12 13 (12 ∷ [])
unfolding trading_days sorted_set insert_new
trading_days-Between_example = trading_days-Between market 12 13 refl

-- Listed on 2000-01-01, on 2024-02-29.
abbrev listed_stock : StockColumns
listed_stock = record {
  board = some main;
  listed_date = some 730120;
  in_shanghai = true;
  name = b'A' ∷ [];
}
