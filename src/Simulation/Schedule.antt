-- ===== src/Simulation/Schedule.antt =====
-- trading/schedule.py: the trading days on which a portfolio is rebalanced.
pub mod Months
pub mod Last
use mini_qmt.Common.{
  ℕ, ◌-◌, ◌/◌, ◌+◌, Bool, true, false, not, ◌&&◌, List, [], ◌∷◌, ltb, ◌==◌, if◌then◌else◌, any,
}
use mini_qmt.Common.Sorting.{sorted_set}
use mini_qmt.Market.{Day}
use mini_qmt.Kernel.Setup.{is_session}
use Months.{year_month}

pub data RebalanceFrequency : Type 0 where
  daily weekly monthly : RebalanceFrequency

-- `day.isocalendar()[:2]`: the ISO year and week stand for the Monday of the week. The first ordinal
-- is a Monday.
abbrev pub iso_week : Day → ℕ
iso_week day = (day - 1) / 7

-- Whether two days are of one week, or of one month.
abbrev pub same_week : Day → Day → Bool
same_week day next = iso_week day == iso_week next

abbrev pub same_month : Day → Day → Bool
same_month day next =
    (year_month day).0 == (year_month next).0 && (year_month day).1 == (year_month next).1

-- The loop over the days, each with the next one: a day is selected before a day of another period.
unfoldable pub boundaries : (Day → Day → Bool) → List Day → List Day
boundaries same [] = []
boundaries same (day ∷ []) = day ∷ []
boundaries same (day ∷ next ∷ days) =
    let later = boundaries same (next ∷ days) in if same day next then later else day ∷ later

-- `scheduled_trading_days`
unfoldable pub scheduled_trading_days : List Day → RebalanceFrequency → List Day
unfolding boundaries
scheduled_trading_days trading_days daily = sorted_set ltb trading_days
scheduled_trading_days trading_days weekly = boundaries same_week (sorted_set ltb trading_days)
scheduled_trading_days trading_days monthly = boundaries same_month (sorted_set ltb trading_days)

-- `is_rebalance_day`
unfoldable pub is_rebalance_day : Day → List Day → RebalanceFrequency → Bool
unfolding scheduled_trading_days
is_rebalance_day day trading_days frequency =
    is_session (scheduled_trading_days trading_days frequency) day
