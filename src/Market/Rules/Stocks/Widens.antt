-- ===== src/Market/Rules/Stocks/Widens.antt =====
-- The price limit of a stock of marketdata/trade_rules.py after its first sessions.
use mini_qmt.Common.{ℕ, ◌≡◌, ◌≤◌, Option, none, some}
use mini_qmt.Common.Int.{magnitude}
use mini_qmt.Decimal.{Decimal}
use mini_qmt.Market.{bounded}
use mini_qmt.Market.Rules.Stocks.{RuleDecision, hundredths}

-- The hundredths of a ratio.
abbrev percent_of : Option Decimal → ℕ
percent_of none = 0
percent_of (some ratio) = magnitude ratio.coefficient

abbrev percent : RuleDecision → ℕ
percent d = percent_of d.price_limit_ratio

-- A decision that bounds the price by a ratio of so many hundredths.
pub record Bounds (r : ℕ) (d : RuleDecision) : Type 0 where
  pub state : d.price_limit_state ≡ bounded
  pub ratio : d.price_limit_ratio ≡ some (hundredths r)
  pub no_upper : d.upper_multiplier ≡ none
  pub no_lower : d.lower_multiplier ≡ none
  pub delay : d.sell_delay_sessions ≡ 1
  pub least : 5 ≤ r
  pub most : r ≤ 20
