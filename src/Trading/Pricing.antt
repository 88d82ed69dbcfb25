-- ===== src/Trading/Pricing.antt =====
-- trading/kernel.py, the prices: limits, ticks, why an order is blocked, and the fill price.
use mini_qmt.Common.{
  ℕ, Bool, true, false, not, Option, none, some, if◌then◌else◌, Result, ok, err, ◌>>=◌, or_raise,
  value_error, type_error,
}
use mini_qmt.Common.Int.{ℤ, negsuc}
use mini_qmt.Decimal
use mini_qmt.Decimal.{Decimal}
use mini_qmt.Market.{DailyBar, PriceLimitState, bounded, unbounded, unknown}
use mini_qmt.Trading.Fees.{Side, buy, sell}
use mini_qmt.Trading.State.{
  ExecutionPolicy, Order, RejectReason, missing_raw_bar, missing_raw_ohlc, zero_volume,
  limit_up_locked, limit_down_locked,
}

abbrev zero_dec : Decimal
zero_dec = Decimal.of_ℕ 0

abbrev one_dec : Decimal
one_dec = Decimal.of_ℕ 1

-- `_round_nearest_tick`
unfoldable pub round_nearest_tick : Decimal → Decimal → Result Decimal
round_nearest_tick value tick = do
  ticks ← Decimal.div value tick
  ok (Decimal.mul (Decimal.of_ℤ (Decimal.round_half_up ticks)) tick)

abbrev pub to_integral : Side → Decimal → ℤ
to_integral buy ticks = Decimal.ceil ticks
to_integral sell ticks = Decimal.floor ticks

-- `_round_price`
unfoldable pub round_price : Decimal → Decimal → Side → Result Decimal
round_price value tick side = do
  ticks ← Decimal.div value tick
  ok (Decimal.mul (Decimal.of_ℤ (to_integral side ticks)) tick)

-- The upper and the lower limit of a session, where there are any.
abbrev pub Limits : Type 0
Limits = Option Decimal × Option Decimal

abbrev derived_limits : Option Decimal → Option Decimal → Decimal → Result Limits
derived_limits (some previous) (some ratio) tick = do
  upper ← round_nearest_tick (Decimal.mul previous (Decimal.add one_dec ratio)) tick
  lower ← round_nearest_tick (Decimal.mul previous (Decimal.sub one_dec ratio)) tick
  ok (some upper, some lower)
derived_limits _ _ tick = ok (none, none)

abbrev given_limits : Option Decimal → Option Decimal → Result Limits → Result Limits
given_limits (some upper) (some lower) derived = ok (some upper, some lower)
given_limits _ _ derived = derived

abbrev limits_in : PriceLimitState → Result Limits → Result Limits
limits_in unbounded limits = ok (none, none)
limits_in unknown limits = err value_error
limits_in bounded limits = limits

-- `_price_limits`; the instrument is used only in the message of the exception.
unfoldable pub price_limits : DailyBar → Result Limits
unfolding round_nearest_tick
price_limits bar = limits_in bar.price_limit_state (
    given_limits bar.limit_up bar.limit_down
      (derived_limits bar.previous_close bar.price_limit_ratio bar.price_tick))

abbrev all_known : Option Decimal → Option Decimal → Option Decimal → Option Decimal → Bool
all_known (some a) (some b) (some c) (some d) = true
all_known _ _ _ _ = false

-- The test of the opening price against half a tick inside the limit.
abbrev limit_lock : Side → Limits → Decimal → Decimal → Option RejectReason
limit_lock buy (some upper, lower) opening half =
    if Decimal.le (Decimal.sub upper half) opening then some limit_up_locked else none
limit_lock buy (none, lower) opening half = none
limit_lock sell (upper, some lower) opening half =
    if Decimal.le opening (Decimal.add lower half) then some limit_down_locked else none
limit_lock sell (upper, none) opening half = none

abbrev lock_reason : Bool → Side → DailyBar → Limits → Result (Option RejectReason)
lock_reason false side bar limits = ok none
lock_reason true side bar limits = do
  opening ← or_raise bar.opening type_error
  half ← Decimal.div bar.price_tick (Decimal.of_ℕ 2)
  ok (limit_lock side limits opening half)

-- `_blocked_reason`
unfoldable pub blocked_reason :
    ExecutionPolicy → Order → Option DailyBar → Result (Option RejectReason)
blocked_reason policy order none = ok (some missing_raw_bar)
blocked_reason policy order (some bar) =
    if bar.suspended
    then ok (some RejectReason.suspended)
    else if not (all_known bar.opening bar.high bar.low bar.closing)
    then ok (some missing_raw_ohlc)
    else if Decimal.le bar.volume zero_dec
    then ok (some zero_volume)
    else price_limits bar >>= lock_reason policy.block_at_price_limit order.side bar

-- The bounds that the bar and its limits put on a candidate price.
abbrev pub cap : Option Decimal → Decimal → Decimal
cap none price = price
cap (some upper) price = Decimal.minimum price upper

abbrev pub raise_to : Option Decimal → Decimal → Decimal
raise_to none price = price
raise_to (some lower) price = Decimal.maximum price lower

abbrev pub within_bar : Side → Decimal → Decimal → Decimal → Decimal
within_bar buy high low candidate = Decimal.minimum candidate high
within_bar sell high low candidate = Decimal.maximum candidate low

abbrev direction : Side → Decimal
direction buy = one_dec
direction sell = Decimal.of_ℤ (negsuc 0)

-- The slippage in basis points for a fill of `quantity` shares.
unfoldable pub slippage_bps : ExecutionPolicy → ℕ → Decimal → Result Decimal
slippage_bps policy quantity volume = do
  share ← Decimal.div (Decimal.of_ℕ quantity) volume
  ratio ← Decimal.div share policy.maximum_participation
  let bounded_ratio = Decimal.minimum one_dec (Decimal.maximum zero_dec ratio)
  ok (
      Decimal.add policy.base_slippage_bps (
        Decimal.mul (Decimal.mul policy.impact_bps_at_max_participation bounded_ratio)
          bounded_ratio))

-- The opening price moved by the slippage, inside the bar's range and the price limits.
unfoldable pub candidate_price :
    Side → Decimal → Decimal → Decimal → Decimal → Limits → Result Decimal
candidate_price side opening high low bps (upper, lower) = do
  fraction ← Decimal.div (Decimal.mul (direction side) bps) (Decimal.of_ℕ 10000)
  let moved = Decimal.mul opening (Decimal.add one_dec fraction)
  ok (raise_to lower (cap upper (within_bar side high low moved)))

abbrev if_side : Side → Option Decimal → Option Decimal → Option Decimal
if_side buy a b = a
if_side sell a b = b

-- `_fill_price`; the open, high and low that `_blocked_reason` has checked are read here.
unfoldable pub fill_price : ExecutionPolicy → Side → ℕ → DailyBar → Result Decimal
unfolding slippage_bps candidate_price
fill_price policy side quantity bar = do
  opening ← or_raise bar.opening type_error
  bps ← slippage_bps policy quantity bar.volume
  high ← or_raise (if_side side bar.high (some opening)) type_error
  low ← or_raise (if_side side (some opening) bar.low) type_error
  limits ← price_limits bar
  candidate ← candidate_price side opening high low bps limits
  round_price candidate bar.price_tick side
