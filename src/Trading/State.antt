-- ===== src/Trading/State.antt =====
-- trading/state.py: the records of the portfolio and the checks that their constructors make.
-- Amounts of money are held in cents: a constructor's `money` leaves such an amount as it is.
mod Events
unfoldable pub use Events.*
use mini_qmt.Common.{
  ℕ, ◌+◌, Bool, true, false, not, ◌&&◌, ◌||◌, Option, none, some, List, [], ◌∷◌, ◌++◌, ltb, leb,
  ◌==◌, if◌then◌else◌, Result, ok, ◌>>◌, raise_if, value_error, any, keep_if, sum_by,
}
use mini_qmt.Common.Dict.{Dict}
use mini_qmt.Common.Int.{ℤ, pos, ltb_ℤ, leb_ℤ}
use mini_qmt.Common.Sorting.{sorted_set}
use mini_qmt.Decimal
use mini_qmt.Decimal.{Decimal}
use mini_qmt.Market.{Name, Day}
use mini_qmt.Trading.Intent.{RiskAssessment}

pub record ExecutionPolicy : Type 0 where
  pub policy_id : Name
  pub version : Name
  pub maximum_participation : Decimal
  pub base_slippage_bps : Decimal
  pub impact_bps_at_max_participation : Decimal
  pub block_at_price_limit : Bool
  pub allow_partial_fills : Bool
  pub subscribe_rights : Bool

-- `ExecutionPolicy.__post_init__`
unfoldable pub check_execution_policy : ExecutionPolicy → Result ExecutionPolicy
check_execution_policy p = do
  raise_if (p.policy_id == 0 || p.version == 0) value_error
  raise_if
      (not (
        Decimal.lt (Decimal.of_ℕ 0) p.maximum_participation
        && Decimal.le p.maximum_participation (Decimal.of_ℕ 1)))
      value_error
  raise_if
      (Decimal.lt p.base_slippage_bps (Decimal.of_ℕ 0)
        || Decimal.lt p.impact_bps_at_max_participation (Decimal.of_ℕ 0))
      value_error
  raise_if p.subscribe_rights value_error
  ok p

-- `PositionLot.__post_init__`
unfoldable pub check_lot : PositionLot → Result PositionLot
check_lot l = do
  raise_if (l.lot_id == 0 || l.instrument_id == 0 || l.quantity == 0) value_error
  raise_if (ltb l.sellable_on l.acquired_on) value_error
  raise_if (ltb_ℤ l.cost_amount (pos 0)) value_error
  ok l

-- `Order.__post_init__`
unfoldable pub check_order : Order → Result Order
check_order o = do
  raise_if (o.order_id == 0 || o.intent_id == 0 || o.instrument_id == 0) value_error
  raise_if (o.requested_quantity == 0 || ltb o.requested_quantity o.remaining_quantity) value_error
  raise_if (leb o.execution_date o.created_on || ltb o.expiry_date o.execution_date) value_error
  ok o

abbrev adjusted_before : Option Day → Day → Bool
adjusted_before none day = false
adjusted_before (some d) day = ltb d day

-- `Entitlement.__post_init__`
unfoldable pub check_entitlement : Entitlement → Result Entitlement
check_entitlement e = do
  raise_if (e.action_id == 0 || e.instrument_id == 0) value_error
  raise_if (ltb_ℤ e.allocated_cost (pos 0)) value_error
  raise_if (adjusted_before e.adjusted_on e.captured_on) value_error
  ok e

-- `LedgerEvent.__post_init__`; the type and the entity of an event are never empty.
unfoldable pub check_event : LedgerEvent → Result LedgerEvent
check_event e = do raise_if (e.entity_id == 0) value_error; ok e

pub record PortfolioState : Type 0 where
  pub initial_cash : ℤ
  pub cash : ℤ
  pub lots : List PositionLot
  pub pending_orders : List Order
  pub entitlements : List Entitlement
  pub last_prices : Dict Decimal
  pub realized_pnl : ℤ
  pub fees_paid : ℤ
  pub dividend_income : ℤ
  pub incomplete_reasons : List Reason

-- `PortfolioState.__post_init__`, which every `replace` runs too.
unfoldable pub check_state : PortfolioState → Result PortfolioState
check_state s = do
  raise_if (leb_ℤ s.initial_cash (pos 0) || ltb_ℤ s.cash (pos 0)) value_error
  ok (record s { incomplete_reasons = sorted_set reason_before s.incomplete_reasons })

abbrev pub is_of : Name → PositionLot → Bool
is_of instrument_id l = l.instrument_id == instrument_id

-- The shares of a lot that count towards a position in the instrument.
abbrev pub held : Name → PositionLot → ℕ
held instrument_id l = if is_of instrument_id l then l.quantity else 0

abbrev pub held_sellable : Name → Day → PositionLot → ℕ
held_sellable instrument_id on_date l =
    if is_of instrument_id l && leb l.sellable_on on_date then l.quantity else 0

-- `PortfolioState.quantity`
unfoldable pub quantity : PortfolioState → Name → ℕ
quantity s instrument_id = sum_by (held instrument_id) s.lots

-- `PortfolioState.sellable_quantity`
unfoldable pub sellable_quantity : PortfolioState → Name → Day → ℕ
sellable_quantity s instrument_id on_date = sum_by (held_sellable instrument_id on_date) s.lots

pub record SessionResult : Type 0 where
  pub state : PortfolioState
  pub events : List LedgerEvent
  pub fills : List Fill
  pub valuation : Valuation

pub record IntentResult : Type 0 where
  pub state : PortfolioState
  pub assessment : RiskAssessment
  pub orders : List Order
  pub events : List LedgerEvent
