-- ===== src/Simulation/Feedback.antt =====
-- trading/reporting.py: the feedback of a completed run. A stored amount is read back as the decimal
-- that was written. The hash of the feedback is left out.
pub mod Falls
pub mod Drawdown
use mini_qmt.Common.{
  ℕ, zero, suc, ◌+◌, Bool, true, false, not, ◌||◌, Option, none, some, List, [], ◌∷◌, map, ltb,
  ◌==◌, if◌then◌else◌, Result, ok, err, ◌>>=◌, ◌>>◌, raise_if, or_raise, value_error, key_error,
  runtime_error, is_empty, keep_if, length, sum_by,
}
use mini_qmt.Common.Dict.{Dict, get}
use mini_qmt.Common.Int.{ℤ, pos, leb_ℤ}
use mini_qmt.Common.Sorting.{sort, sorted_set}
use mini_qmt.Decimal
use mini_qmt.Decimal.{Decimal}
use mini_qmt.Decimal.Exact.{of_cents}
use mini_qmt.Market.{Name, Day}
use mini_qmt.Trading.Fees.{money, FeeBreakdown}
use mini_qmt.Trading.State.{
  PortfolioState, PositionLot, quantity, is_of, Fill, Valuation, LedgerEvent, Order, EventType,
  OrderDetail, ActionDetail, Payload, order_created, order_rejected, order_expired, fill_created,
  cash_dividend_paid, fill, paid, of_order, of_action, ExecutionStatus, partial, Reason,
}
use mini_qmt.Trading.Repository.{
  TradingRepository, Run, RunBinding, RunMode, HashBody, LedgerRow, Checkpoint, binding_body, run,
  is_complete, final_state, verify_run,
}

-- `repository.initial_state`
unfoldable pub initial_state : TradingRepository → Name → Result PortfolioState
initial_state r run_id = do x ← or_raise (get r.runs run_id) key_error; ok x.initial_state

abbrev pub checkpoint_before : Checkpoint → Checkpoint → Bool
checkpoint_before a b = ltb a.session_date b.session_date

-- `repository.checkpoints`, in the order of their sessions; there are none for an unknown run.
unfoldable pub checkpoints : TradingRepository → Name → List Checkpoint
checkpoints r run_id = elim (get r.runs run_id) [
  | none ↦ []
  | some x ↦ sort checkpoint_before x.checkpoints
]

-- `repository.events`, in the order of their numbers
unfoldable pub events : TradingRepository → Name → List LedgerEvent
events r run_id = elim (get r.runs run_id) [
  | none ↦ []
  | some x ↦ map (λ (row : LedgerRow). row.event) (sort (λ a b. ltb a.sequence b.sequence) x.events)
]

abbrev pub last_of : List Checkpoint → Option Checkpoint
last_of [] = none
last_of (c ∷ []) = some c
last_of (c ∷ c' ∷ cs) = last_of (c' ∷ cs)

-- The tests of `event_type` in the code's comprehensions.
abbrev pub is_created : LedgerEvent → Bool
is_created e = elim e.event_type [ order_created ↦ true | _ ↦ false ]

abbrev pub is_fill : LedgerEvent → Bool
is_fill e = elim e.event_type [ fill_created ↦ true | _ ↦ false ]

abbrev pub is_rejected : LedgerEvent → Bool
is_rejected e = elim e.event_type [ order_rejected ↦ true | _ ↦ false ]

abbrev pub is_expired : LedgerEvent → Bool
is_expired e = elim e.event_type [ order_expired ↦ true | _ ↦ false ]

abbrev pub is_dividend : LedgerEvent → Bool
is_dividend e = elim e.event_type [ cash_dividend_paid ↦ true | _ ↦ false ]

-- `payload["requested_quantity"]`
abbrev pub requested_of : Payload → ℕ
requested_of (of_order o detail) = o.requested_quantity
requested_of _ = 0

-- The fill of the payload of `fill_created`.
abbrev pub fill_of : Payload → Option Fill
fill_of (of_order o (fill f status reasons)) = some f
fill_of _ = none

abbrev pub filled_of : Payload → ℕ
filled_of p = elim (fill_of p) [ none ↦ 0 | some f ↦ f.quantity ]

abbrev pub is_partial_status : ExecutionStatus → Bool
is_partial_status partial = true
is_partial_status _ = false

abbrev pub is_partial : LedgerEvent → Bool
is_partial e = elim e.payload [
  | of_order o (fill f status reasons) ↦ is_partial_status status
  | _ ↦ false
]

abbrev pub on_fill : (Fill → Decimal) → Payload → Decimal
on_fill f p = elim (fill_of p) [ none ↦ Decimal.of_ℕ 0 | some x ↦ f x ]

abbrev pub gross_of : Payload → Decimal
gross_of (of_action action (paid entitled gross)) = of_cents gross
gross_of _ = Decimal.of_ℕ 0

-- `sum(values, Decimal("0"))`
unfoldable pub sum_decimals : Decimal → List Decimal → Decimal
sum_decimals total [] = total
sum_decimals total (d ∷ ds) = sum_decimals (Decimal.add total d) ds

-- `_fee_total`, in the order of the stored keys
abbrev pub fee_total : FeeBreakdown → Decimal
fee_total f = sum_decimals (Decimal.of_ℕ 0) (
    of_cents f.broker_commission
    ∷ of_cents f.exchange_handling
    ∷ of_cents f.regulatory_levy
    ∷ of_cents f.stamp_duty
    ∷ of_cents f.transfer_fee
    ∷ [])

-- A total over the payloads of events.
abbrev pub total_of : (Payload → Decimal) → List LedgerEvent → Result ℤ
total_of f es = money (sum_decimals (Decimal.of_ℕ 0) (map (λ (e : LedgerEvent). f e.payload) es))

-- `peak = nav if peak is None else max(peak, nav)`
abbrev pub raise_peak : Option Decimal → Decimal → Decimal
raise_peak none nav = nav
raise_peak (some peak) nav = Decimal.maximum peak nav

-- The fall from the peak, as a part of it, if the peak is positive.
unfoldable pub deepen : Decimal → Decimal → Decimal → Result Decimal
deepen maximum peak nav =
    if Decimal.lt (Decimal.of_ℕ 0) peak
    then (Decimal.div (Decimal.sub peak nav) peak >>= λ fall. ok (Decimal.maximum maximum fall))
    else ok maximum

-- The loop of `_max_drawdown`.
unfoldable pub drawdown_loop : Option Decimal → Decimal → List Decimal → Result Decimal
unfolding deepen
drawdown_loop peak maximum [] = ok maximum
drawdown_loop peak maximum (nav ∷ navs) =
    let top = raise_peak peak nav in
    deepen maximum top nav >>= λ deeper. drawdown_loop (some top) deeper navs

-- `_max_drawdown`, in units of 0.00000001
unfoldable pub max_drawdown : List Decimal → Result ℤ
unfolding drawdown_loop
max_drawdown navs = do
  maximum ← drawdown_loop none (Decimal.of_ℕ 0) navs
  Decimal.quantize 8 maximum

-- What one instrument adds to the equity: its last price for each share, or its cost without one.
abbrev pub holding_value : PortfolioState → Name → Option Decimal → Decimal
holding_value state symbol none =
    sum_decimals (Decimal.of_ℕ 0)
      (map (λ (l : PositionLot). of_cents l.cost_amount) (keep_if (is_of symbol) state.lots))
holding_value state symbol (some price) = Decimal.mul (Decimal.of_ℕ (quantity state symbol)) price

-- The loop over the instruments that are held; the code's set has no order.
unfoldable pub add_holdings : PortfolioState → Decimal → List Name → Decimal
add_holdings state equity [] = equity
add_holdings state equity (symbol ∷ symbols) =
    add_holdings state
      (Decimal.add equity (holding_value state symbol (get state.last_prices symbol))) symbols

abbrev pub lot_instruments : List PositionLot → List Name
lot_instruments [] = []
lot_instruments (l ∷ ls) = l.instrument_id ∷ lot_instruments ls

abbrev pub total_equity : Option Checkpoint → Result ℤ
total_equity none = err runtime_error
total_equity (some c) = ok c.valuation.total_equity

-- `_starting_equity`
unfoldable pub starting_equity : TradingRepository → Option Name → PortfolioState → Result ℤ
unfolding checkpoints add_holdings
starting_equity r (some parent) initial = total_equity (last_of (checkpoints r parent))
starting_equity r none initial =
    money
      (add_holdings initial (of_cents initial.cash) (sorted_set ltb (lot_instruments initial.lots)))

-- A ratio, rounded to 0.00000001.
unfoldable pub ratio_of : Decimal → Decimal → Result ℤ
ratio_of part base = do ratio ← Decimal.div part base; Decimal.quantize 8 ratio

-- What a ratio is over one.
unfoldable pub return_of : ℤ → ℤ → Result ℤ
return_of final start = do
  ratio ← Decimal.div (of_cents final) (of_cents start)
  Decimal.quantize 8 (Decimal.sub ratio (Decimal.of_ℕ 1))

abbrev pub final_equity : Option Checkpoint → PortfolioState → ℤ
final_equity none state = state.cash
final_equity (some c) state = c.valuation.total_equity

-- Amounts are in cents, ratios in units of 0.00000001.
pub record SimulationFeedback : Type 0 where
  pub run_id : Name
  pub binding_hash : Name
  pub result_hash : Name
  pub snapshot_id : Name
  pub mode : RunMode
  pub start_date : Day
  pub end_date : Day
  pub event_chain_head : Name
  pub final_state_hash : Name
  pub is_complete_quality : Bool
  pub incomplete_reasons : List Reason
  pub sessions : ℕ
  pub starting_equity : ℤ
  pub final_equity : ℤ
  pub run_return : ℤ
  pub overall_return : ℤ
  pub max_drawdown : ℤ
  pub orders : ℕ
  pub requested_quantity : ℕ
  pub fills : ℕ
  pub filled_quantity : ℕ
  pub fill_ratio : ℤ
  pub rejected_orders : ℕ
  pub expired_orders : ℕ
  pub partial_fills : ℕ
  pub turnover_amount : ℤ
  pub fees : ℤ
  pub slippage_amount : ℤ
  pub realized_pnl : ℤ
  pub dividend_income : ℤ

unfoldable pub fill_ratio_of : ℕ → ℕ → Result ℤ
unfolding ratio_of
fill_ratio_of filled requested =
    if requested == 0 then ok (pos 0) else ratio_of (Decimal.of_ℕ filled) (Decimal.of_ℕ requested)

abbrev pub units : ℤ → Decimal
units z = record { coefficient = z; scale = 8 }

module _ (digest : HashBody → Name) (short : Name → Name) where
  -- `build_simulation_feedback`
  unfoldable pub build_simulation_feedback : TradingRepository → Name → Result SimulationFeedback
  unfolding initial_state checkpoints events starting_equity max_drawdown ratio_of return_of
      sum_decimals
  build_simulation_feedback r run_id = do
    x ← run r run_id
    raise_if (not (is_complete x.status)) value_error
    result_hash ← or_raise x.result_hash value_error
    final_hash ← or_raise x.final_state_hash value_error
    state ← final_state r run_id
    initial ← initial_state r run_id
    let points = checkpoints r run_id
    let all_events = events r run_id
    let created = keep_if is_created all_events
    let filled = keep_if is_fill all_events
    let requested = sum_by (λ (e : LedgerEvent). requested_of e.payload) created
    let filled_quantity = sum_by (λ (e : LedgerEvent). filled_of e.payload) filled
    turnover ← total_of (on_fill (λ f. of_cents f.amount)) filled
    fees ← total_of (on_fill (λ f. fee_total f.fees)) filled
    slippage ← total_of (on_fill (λ f. of_cents f.slippage_amount)) filled
    realized ← total_of (on_fill (λ f. of_cents f.realized_pnl)) filled
    dividends ← total_of gross_of (keep_if is_dividend all_events)
    starting ← starting_equity r x.binding.parent_run_id initial
    raise_if (leb_ℤ starting (pos 0)) runtime_error
    starting_nav ← ratio_of (of_cents starting) (of_cents state.initial_cash)
    let final = final_equity (last_of points) state
    run_return ← return_of final starting
    overall ← return_of final state.initial_cash
    fill_ratio ← fill_ratio_of filled_quantity requested
    head ← verify_run digest short r run_id
    drawdown ←
        max_drawdown (units starting_nav ∷ map (λ (c : Checkpoint). units c.valuation.nav) points)
    ok (record {
      run_id = run_id;
      binding_hash = digest (binding_body x.binding);
      result_hash = result_hash;
      snapshot_id = x.binding.snapshot_id;
      mode = x.binding.mode;
      start_date = x.binding.start_date;
      end_date = x.binding.end_date;
      event_chain_head = head;
      final_state_hash = final_hash;
      is_complete_quality = is_empty state.incomplete_reasons;
      incomplete_reasons = state.incomplete_reasons;
      sessions = length points;
      starting_equity = starting;
      final_equity = final;
      run_return = run_return;
      overall_return = overall;
      max_drawdown = drawdown;
      orders = length created;
      requested_quantity = requested;
      fills = length filled;
      filled_quantity = filled_quantity;
      fill_ratio = fill_ratio;
      rejected_orders = length (keep_if is_rejected all_events);
      expired_orders = length (keep_if is_expired all_events);
      partial_fills = length (keep_if is_partial filled);
      turnover_amount = turnover;
      fees = fees;
      slippage_amount = slippage;
      realized_pnl = realized;
      dividend_income = dividends;
    })
