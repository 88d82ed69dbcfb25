-- ===== src/Kernel/Tests.antt =====
-- A small market, and a portfolio in it, for the tests of trading/.
mod Runs
mod Amounts
mod Orders
mod Sessions
use mini_qmt.Common.{
  ℕ, ◌≡◌, refl, arith, All, Bool, true, false, none, some, List, [], ◌∷◌, Result, ok, err,
}
use mini_qmt.Common.Int.{ℤ, pos}
use mini_qmt.Common.Dict.{Dict}
use mini_qmt.Decimal.{Decimal, of_ℕ}
use mini_qmt.Market.{
  Day, Instrument, DailyBar, CorporateAction, MarketSession, stock, raw, unbounded, cash_dividend,
  stock_dividend, split,
}
use mini_qmt.Trading.Fees.{FeeBreakdown, FeeRule, FeeSchedule, buy, sell}
use mini_qmt.Trading.Intent.{PortfolioIntent, RiskPolicy}
use mini_qmt.Trading.State.{
  ExecutionPolicy, PortfolioState, PositionLot, Order, Entitlement, pending, Reason, missing_close,
}
use mini_qmt.Kernel.Setup.{TradingKernel, DigestBody}
use mini_qmt.Kernel.Actions.Split.{Share}
use mini_qmt.Kernel.Orders.Booking.Lots.{IsLot}

-- Whether a call returned, and what it returned.
abbrev pub succeeds {ℓ} : {A : Type ℓ} → Result A → Bool
succeeds (ok a) = true
succeeds (err e) = false

pub no_value : Bool.false ≡ true → ⊥
no_value h = cc

abbrev pub value_of {ℓ} : {A : Type ℓ} (m : Result A) → succeeds m ≡ true → A
value_of (ok a) h = a
value_of (err e) h = absurd (no_value h)

pub returns {ℓ} : {A : Type ℓ} (m : Result A) (h : succeeds m ≡ true) → m ≡ ok (value_of m h)
returns (ok a) h = refl
returns (err e) h = absurd (cc h)

-- A digest that tells nothing apart.
abbrev pub digest : DigestBody → ℕ
digest body = 41

-- n hundredths
abbrev pub cents : ℕ → Decimal
cents n = record { coefficient = pos n; scale = 2 }

abbrev pub share_stock : Instrument
share_stock = record {
  instrument_id = 7;
  exchange = "SSE";
  local_code = 1;
  asset_type = stock;
  name = 1;
  currency = 1;
  listed_date = none;
  delisted_date = none;
  board = none;
  exchange_product_class = none;
  buy_lot = 100;
  quantity_step = 100;
  odd_lot_sell_all = true;
  price_tick = cents 1;
  sell_delay_sessions = some 1;
  price_limit_ratio = none;
}

-- It trades at ten, without price limits.
abbrev pub bar : DailyBar
bar = record {
  instrument_id = 7;
  session_date = 11;
  price_mode = raw;
  opening = some (cents 1000);
  high = some (cents 1100);
  low = some (cents 900);
  closing = some (cents 1050);
  volume = of_ℕ 10000;
  amount = none;
  suspended = false;
  is_st = none;
  trade_rule_id = 1;
  trade_rule_known_date = 1;
  buy_lot = 100;
  quantity_step = 100;
  odd_lot_sell_all = true;
  price_tick = cents 1;
  sell_delay_sessions = 1;
  price_limit_state = unbounded;
  previous_close = none;
  price_limit_ratio = none;
  limit_up = none;
  limit_down = none;
  source_provider = 1;
  source_observation_id = 1;
}

-- Two hundredths a share, and three new shares for ten.
abbrev pub dividend : CorporateAction
dividend = record {
  action_id = 21;
  instrument_id = 7;
  action_type = cash_dividend;
  known_date = 5;
  record_date = some 10;
  ex_date = 11;
  pay_date = some 11;
  listing_date = none;
  cash_per_share = some (cents 2);
  share_ratio = none;
  rights_price = none;
  source_provider = 1;
  source_observation_id = 1;
  quantity_multiplier = none;
}

abbrev pub bonus : CorporateAction
bonus = record dividend {
  action_id = 22;
  action_type = stock_dividend;
  cash_per_share = none;
  share_ratio = some (record { coefficient = pos 3; scale = 1 });
  listing_date = some 11;
}

abbrev pub market : MarketSession
market = record {
  session_date = 11;
  bars = (7, bar) ∷ [];
  record_actions = dividend ∷ [];
  ex_actions = bonus ∷ [];
  pay_actions = dividend ∷ [];
  listing_actions = bonus ∷ [];
}

-- Three per mille of commission, at least five, and one per mille of stamp duty on sales.
abbrev pub fee_rule : FeeRule
fee_rule = record {
  effective_from = 1;
  effective_to = none;
  asset_types = "stock" ∷ [];
  exchanges = [];
  broker_commission_rate = record { coefficient = pos 3; scale = 3 };
  minimum_commission = of_ℕ 5;
  stamp_duty_sell_rate = record { coefficient = pos 1; scale = 3 };
  transfer_fee_rate = of_ℕ 0;
  exchange_handling_rate = of_ℕ 0;
  regulatory_levy_rate = of_ℕ 0;
  priority = pos 1;
  evidence = 1;
}

abbrev pub fee_schedule : FeeSchedule
fee_schedule = record {
  schedule_id = 1;
  version = 1;
  rules = record fee_rule { priority = pos 0; minimum_commission = of_ℕ 9 } ∷ fee_rule ∷ [];
  trusted_for_simulation = true;
  verification_note = 1;
}

abbrev pub execution_policy : ExecutionPolicy
execution_policy = record {
  policy_id = 1;
  version = 1;
  maximum_participation = cents 10;
  base_slippage_bps = of_ℕ 5;
  impact_bps_at_max_participation = of_ℕ 10;
  block_at_price_limit = true;
  allow_partial_fills = true;
  subscribe_rights = false;
}

abbrev pub risk_policy : RiskPolicy
risk_policy = record {
  policy_id = 1;
  version = 1;
  max_position_weight = cents 30;
  minimum_cash_weight = cents 5;
  allowed_asset_types = "stock" ∷ [];
}

abbrev pub kernel : TradingKernel
kernel = record {
  instruments = (7, share_stock) ∷ [];
  sessions = 10 ∷ 11 ∷ 12 ∷ [];
  execution_policy = execution_policy;
  risk_policy = risk_policy;
  fee_schedule = fee_schedule;
}

-- The first lot is settled on day 11, the second is not.
abbrev pub lots : List PositionLot
lots =
    record {
      lot_id = 1;
      instrument_id = 7;
      quantity = 300;
      acquired_on = 9;
      sellable_on = 10;
      cost_amount = pos 290001;
    }
    ∷ record {
      lot_id = 2;
      instrument_id = 7;
      quantity = 100;
      acquired_on = 11;
      sellable_on = 12;
      cost_amount = pos 99999;
    }
    ∷ []

abbrev pub buy_order : Order
buy_order = record {
  order_id = 1;
  intent_id = 1;
  instrument_id = 7;
  side = buy;
  created_on = 10;
  execution_date = 11;
  expiry_date = 11;
  requested_quantity = 1200;
  remaining_quantity = 1200;
  status = pending;
}

abbrev pub sell_order : Order
sell_order = record buy_order {
  order_id = 2;
  side = sell;
  requested_quantity = 200;
  remaining_quantity = 200;
}

abbrev pub portfolio : PortfolioState
portfolio = record {
  initial_cash = pos 1000000;
  cash = pos 600000;
  lots = lots;
  pending_orders = sell_order ∷ buy_order ∷ record buy_order { expiry_date = 10 } ∷ [];
  entitlements =
      record {
        action_id = 21;
        instrument_id = 7;
        quantity = 400;
        captured_on = 10;
        distributed_quantity = 0;
        allocated_cost = pos 0;
        adjusted_on = none;
      }
      ∷ record {
        action_id = 22;
        instrument_id = 7;
        quantity = 400;
        captured_on = 10;
        distributed_quantity = 0;
        allocated_cost = pos 0;
        adjusted_on = none;
      }
      ∷ [];
  last_prices = [];
  realized_pnl = pos 0;
  fees_paid = pos 0;
  dividend_income = pos 0;
  incomplete_reasons = [];
}

abbrev pub fees : FeeBreakdown
fees = record {
  broker_commission = pos 599;
  stamp_duty = pos 200;
  transfer_fee = pos 0;
  exchange_handling = pos 0;
  regulatory_levy = pos 0;
}

-- The position halved: 150 and 50 shares.
abbrev pub shares : List Share
shares =
    record {
      place = 0;
      lot = record {
        lot_id = 1;
        instrument_id = 7;
        quantity = 300;
        acquired_on = 9;
        sellable_on = 10;
        cost_amount = pos 290001;
      };
      exact = of_ℕ 150;
      quantity = 150;
    }
    ∷ record {
      place = 1;
      lot = record {
        lot_id = 2;
        instrument_id = 7;
        quantity = 100;
        acquired_on = 11;
        sellable_on = 12;
        cost_amount = pos 99999;
      };
      exact = of_ℕ 50;
      quantity = 50;
    }
    ∷ []

abbrev pub reason : Reason
reason = record { kind = missing_close; subject = 7 }

-- Half of the equity is asked for, more than the policy allows.
abbrev pub intent : PortfolioIntent
intent = record {
  intent_id = 1;
  account_id = 1;
  decision_date = 11;
  snapshot_id = 1;
  strategy_id = 1;
  strategy_version = 1;
  strategy_config_hash = 1;
  observation_hash = 1;
  target_weights = (7, cents 50) ∷ [];
  reason = 1;
  metadata = 0;
}

pub lots-IsLot : All IsLot lots
lots-IsLot = ground arith
