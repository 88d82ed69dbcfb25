-- ===== src/Market/Rules.antt =====
-- marketdata/trade_rules.py: the order quantity rule of an instrument and the daily rule of a stock.
-- The errors of the market data are runtime errors, as their classes are.
pub mod Stocks
use mini_qmt.Common.{
  ℕ, zero, suc, Bool, true, false, ◌&&◌, Option, none, some, Result, ok, err, ◌>>=◌, ◌>>◌, raise_if,
  runtime_error,
}
use mini_qmt.Common.Int.{ℤ, pos, negsuc, leb_ℤ}
use mini_qmt.Market.{Name, Day, AssetType, stock, etf}

-- `board`; a code without a rule of its own is `other`.
pub data Board : Type 0 where
  main star chinext : Board
  other : Name → Board

-- The columns of an instrument's row that the quantity rule reads; a missing number is none.
pub record QuantityColumns : Type 0 where
  pub asset_type : AssetType
  pub board : Option Board
  pub buy_lot : Option ℤ
  pub quantity_step : Option ℤ
  pub odd_lot_sell_all : Option Bool

pub data QuantityRuleId : Type 0 where
  star_minimum_200_step_1 board_lot_and_odd_residual : QuantityRuleId

-- `OrderQuantityRule`; the evidence is a fixed text for each rule.
pub record OrderQuantityRule : Type 0 where
  pub minimum_buy_quantity : ℕ
  pub quantity_step : ℕ
  pub odd_lot_sell_all : Bool
  pub rule_id : QuantityRuleId
  pub known_date : Day

abbrev pub is_star : Option Board → Bool
is_star (some star) = true
is_star (some _) = false
is_star none = false

abbrev pub is_stock : AssetType → Bool
is_stock stock = true
is_stock etf = false

-- A positive number; a missing one or another raises.
abbrev pub positive : Option ℤ → Result ℕ
positive (some (pos (suc n))) = ok (suc n)
positive (some (pos zero)) = err runtime_error
positive (some (negsuc n)) = err runtime_error
positive none = err runtime_error

-- The step, which is the minimum if the row has none.
abbrev pub step_of : ℕ → Option ℤ → Result ℕ
step_of minimum none = ok minimum
step_of minimum (some n) = positive (some n)

abbrev pub or_true : Option Bool → Bool
or_true none = true
or_true (some b) = b

-- The ordinals of 2019-07-22 and 2006-07-01.
abbrev star_opened : Day
star_opened = 737262

abbrev pub rules_of_2006 : Day
rules_of_2006 = 732493

abbrev star_rule : OrderQuantityRule
star_rule = record {
  minimum_buy_quantity = 200;
  quantity_step = 1;
  odd_lot_sell_all = true;
  rule_id = star_minimum_200_step_1;
  known_date = star_opened;
}

abbrev board_rule : QuantityColumns → Result OrderQuantityRule
board_rule row = do
  minimum ← positive row.buy_lot
  step ← step_of minimum row.quantity_step
  ok (record {
    minimum_buy_quantity = minimum;
    quantity_step = step;
    odd_lot_sell_all = or_true row.odd_lot_sell_all;
    rule_id = board_lot_and_odd_residual;
    known_date = rules_of_2006;
  })

-- `resolve_order_quantity_rule`
unfoldable pub resolve_order_quantity_rule : QuantityColumns → Result OrderQuantityRule
resolve_order_quantity_rule row = elim (is_stock row.asset_type && is_star row.board) [
  | true ↦ ok star_rule
  | false ↦ board_rule row
]
