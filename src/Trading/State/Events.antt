-- ===== src/Trading/State/Events.antt =====
-- trading/state.py: lots, orders, entitlements, fills, valuations, and the ledger events with the
-- payloads that the kernel gives them.
use mini_qmt.Common.{ℕ, Bool, Option, List, ltb, ◌==◌, ◌&&◌, ◌||◌}
use mini_qmt.Common.Int.{ℤ}
use mini_qmt.Decimal.{Decimal}
use mini_qmt.Market.{Name, Day, CorporateAction}
use mini_qmt.Trading.Fees.{Side, FeeBreakdown}
use mini_qmt.Trading.Intent.{PortfolioIntent, RiskAssessment}

pub data ExecutionStatus : Type 0 where
  pending filled partial rejected expired : ExecutionStatus

pub record PositionLot : Type 0 where
  pub lot_id : Name
  pub instrument_id : Name
  pub quantity : ℕ
  pub acquired_on : Day
  pub sellable_on : Day
  pub cost_amount : ℤ

pub record Order : Type 0 where
  pub order_id : Name
  pub intent_id : Name
  pub instrument_id : Name
  pub side : Side
  pub created_on : Day
  pub execution_date : Day
  pub expiry_date : Day
  pub requested_quantity : ℕ
  pub remaining_quantity : ℕ
  pub status : ExecutionStatus

pub record Entitlement : Type 0 where
  pub action_id : Name
  pub instrument_id : Name
  pub quantity : ℕ
  pub captured_on : Day
  pub distributed_quantity : ℕ
  pub allocated_cost : ℤ
  pub adjusted_on : Option Day

pub record Fill : Type 0 where
  pub fill_id : Name
  pub order_id : Name
  pub instrument_id : Name
  pub side : Side
  pub session_date : Day
  pub quantity : ℕ
  pub reference_price : Decimal
  pub price : Decimal
  pub amount : ℤ
  pub slippage_amount : ℤ
  pub fees : FeeBreakdown
  pub realized_pnl : ℤ

-- `nav` is in units of 0.00000001.
pub record Valuation : Type 0 where
  pub session_date : Day
  pub cash : ℤ
  pub market_value : ℤ
  pub total_equity : ℤ
  pub nav : ℤ
  pub stale_instruments : List Name

-- The reasons for which a state is marked incomplete, in the order of their texts.
pub data ReasonKind : Type 0 where
  dividend_tax_unmodeled fractional_share_unmodeled fractional_split_unmodeled : ReasonKind
  invalid_split_multiplier missing_close missing_entitlement missing_valuation_price : ReasonKind
  share_cost_basis_not_adjusted share_entitlement_position_mismatch : ReasonKind
  split_entitlement_position_mismatch untrusted_simulation_fee_schedule : ReasonKind

-- The text `kind:subject`; the fee schedule's reason has no subject, 0.
pub record Reason : Type 0 where
  pub kind : ReasonKind
  pub subject : Name

abbrev pub kind_rank : ReasonKind → ℕ
kind_rank dividend_tax_unmodeled = 0
kind_rank fractional_share_unmodeled = 1
kind_rank fractional_split_unmodeled = 2
kind_rank invalid_split_multiplier = 3
kind_rank missing_close = 4
kind_rank missing_entitlement = 5
kind_rank missing_valuation_price = 6
kind_rank share_cost_basis_not_adjusted = 7
kind_rank share_entitlement_position_mismatch = 8
kind_rank split_entitlement_position_mismatch = 9
kind_rank untrusted_simulation_fee_schedule = 10

unfoldable pub reason_before : Reason → Reason → Bool
reason_before a b =
    ltb (kind_rank a.kind) (kind_rank b.kind)
    || (kind_rank a.kind) == (kind_rank b.kind) && ltb a.subject b.subject

unfoldable pub same_reason : Reason → Reason → Bool
same_reason a b = (kind_rank a.kind) == (kind_rank b.kind) && a.subject == b.subject

pub data RejectReason : Type 0 where
  missing_raw_bar suspended missing_raw_ohlc zero_volume : RejectReason
  limit_up_locked limit_down_locked invalid_order_quantity zero_liquidity : RejectReason
  insufficient_cash liquidity_capacity t_plus_sellable_capacity : RejectReason
  partial_fills_disabled cash_capacity : RejectReason

-- The reasons in the order of their texts.
abbrev reason_text_rank : RejectReason → ℕ
reason_text_rank cash_capacity = 0
reason_text_rank insufficient_cash = 1
reason_text_rank invalid_order_quantity = 2
reason_text_rank limit_down_locked = 3
reason_text_rank limit_up_locked = 4
reason_text_rank liquidity_capacity = 5
reason_text_rank missing_raw_bar = 6
reason_text_rank missing_raw_ohlc = 7
reason_text_rank partial_fills_disabled = 8
reason_text_rank suspended = 9
reason_text_rank t_plus_sellable_capacity = 10
reason_text_rank zero_liquidity = 11
reason_text_rank zero_volume = 12

abbrev pub reason_text_before : RejectReason → RejectReason → Bool
reason_text_before a b = ltb (reason_text_rank a) (reason_text_rank b)

pub data ExpiryReason : Type 0 where
  clock_advanced_past_expiry day_order_unfilled day_order_partial_remainder : ExpiryReason

pub data EventType : Type 0 where
  order_created order_rejected order_expired fill_created : EventType
  portfolio_intent_received risk_assessed intent_not_scheduled order_not_created : EventType
  simulation_marked_incomplete portfolio_valued : EventType
  corporate_action_ex_date rights_issue_declined cash_dividend_paid share_distribution_listed :
      EventType
  split_applied share_cost_basis_adjusted corporate_action_entitlement : EventType

pub data EntityType : Type 0 where
  order intent corporate_action quality portfolio : EntityType

-- What the payload of an order's event adds to the order's own fields.
pub data OrderDetail : Type 0 where
  rejection : RejectReason → ℕ → OrderDetail
  expiry : ℕ → ExpiryReason → OrderDetail
  creation : Decimal → Decimal → Name → OrderDetail
  fill : Fill → ExecutionStatus → List RejectReason → OrderDetail

-- What the payload of a corporate action's event adds to the action's own fields.
pub data ActionDetail : Type 0 where
  plain : ActionDetail
  declined : ℕ → ActionDetail
  paid : ℕ → ℤ → ActionDetail
  listed : ℕ → ℕ → ℤ → ActionDetail
  split_done : ℕ → ℕ → Decimal → ℤ → Bool → ActionDetail
  cost_adjusted : ℕ → ℕ → ℤ → ℤ → ℤ → ActionDetail
  entitled : ℕ → ActionDetail

pub data Payload : Type 0 where
  of_order : Order → OrderDetail → Payload
  of_action : CorporateAction → ActionDetail → Payload
  of_reason : Reason → Payload
  of_valuation : Valuation → Payload
  of_intent : PortfolioIntent → Payload
  of_assessment : RiskAssessment → Name → Payload
  no_next_trading_session : Payload
  missing_raw_close : Name → Payload

pub record LedgerEvent : Type 0 where
  pub session_date : Day
  pub event_type : EventType
  pub entity_type : EntityType
  pub entity_id : Name
  pub payload : Payload
