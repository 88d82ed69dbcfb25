-- ===== src/Kernel/Submission.antt =====
-- trading/kernel.py: `submit_intent`, which turns an accepted intent into the orders of the next
-- session.
pub mod Scheduled
use mini_qmt.Common.{
  ℕ, zero, ◌-◌, Bool, true, false, not, ◌&&◌, ◌||◌, Option, none, some, List, [], ◌∷◌, ◌++◌, ltb,
  leb, ◌==◌, if◌then◌else◌, Result, ok, err, ◌>>=◌, ◌>>◌, raise_if, value_error,
}
use mini_qmt.Common.Dict.{Dict, get}
use mini_qmt.Common.Int.{ℤ, pos}
use mini_qmt.Common.Sorting.{sort, sorted_set}
use mini_qmt.Decimal
use mini_qmt.Decimal.{Decimal}
use mini_qmt.Decimal.Exact.{of_cents}
use mini_qmt.Market.{Name, Day, DailyBar, Instrument, MarketSession}
use mini_qmt.Trading.Fees.{Side, buy, sell}
use mini_qmt.Trading.Intent.{PortfolioIntent, RiskAssessment, assess_intent}
use mini_qmt.Trading.Quantity.{round_down_normal_quantity, normalize_sell_declaration}
use mini_qmt.Trading.State.{
  PortfolioState, check_state, quantity, Order, check_order, LedgerEvent, check_event, Payload,
  EventType, EntityType, ExecutionStatus, IntentResult, portfolio_intent_received, risk_assessed,
  intent_not_scheduled, order_not_created, order_created, creation, of_intent, of_assessment,
  no_next_trading_session, missing_raw_close, missing_close,
}
use mini_qmt.Kernel.Setup.{
  TradingKernel, DigestBody, order_body, execution_policy_body, risk_policy_body, prefixed,
  is_session, order_event, mark_incomplete,
}
use mini_qmt.Kernel.Close.{equity, usable_close, held_instruments, lot_instruments}

abbrev intent_event : Day → EventType → PortfolioIntent → Payload → Result LedgerEvent
intent_event day event_type intent payload = check_event (record {
  session_date = day;
  event_type = event_type;
  entity_type = EntityType.intent;
  entity_id = intent.intent_id;
  payload = payload;
})

-- The variables of the loop over the symbols.
pub record Draft : Type 0 where
  pub state : PortfolioState
  pub orders : List Order
  pub events : List LedgerEvent

abbrev keys : Dict Decimal → List Name
keys [] = []
keys ((k, v) ∷ rest) = k ∷ keys rest

-- `sorted(set(approved_weights) | {lot.instrument_id for lot in lots})`
abbrev pub traded_symbols : Dict Decimal → PortfolioState → List Name
traded_symbols weights state = sorted_set ltb (keys weights ++ lot_instruments state.lots)

abbrev pub weight_of : Dict Decimal → Name → Decimal
weight_of weights symbol = elim (get weights symbol) [ none ↦ Decimal.of_ℕ 0 | some w ↦ w ]

-- The normal quantity that the weight of a symbol buys at its close.
unfoldable pub target_quantity : ℤ → Decimal → Decimal → DailyBar → Result ℕ
target_quantity total_equity weight close bar = do
  shares ← Decimal.div (Decimal.mul (of_cents total_equity) weight) close
  round_down_normal_quantity shares bar.buy_lot bar.quantity_step

-- The side and the quantity to declare for moving a position to its target; none for no move.
unfoldable pub declare : ℕ → ℕ → DailyBar → Result (Option (Side × ℕ))
declare target current bar =
    if target == current
    then ok none
    else if ltb current target
    then (round_down_normal_quantity (Decimal.of_ℕ (target - current)) bar.buy_lot bar.quantity_step
        >>= λ q. ok (some (buy, q)))
    else (normalize_sell_declaration (current - target) current bar.buy_lot bar.quantity_step
          bar.odd_lot_sell_all
        >>= λ q. ok (some (sell, q)))

abbrev pub order_before : Order → Order → Bool
order_before a b = ltb a.order_id b.order_id

module _ (digest : DigestBody → ℕ) (kernel : TradingKernel) (intent : PortfolioIntent) where
  -- A symbol without an instrument or a usable close: the state is incomplete.
  unfoldable pub skip_symbol : Day → Draft → Name → Result Draft
  skip_symbol day draft symbol = do
    (current, marked) ←
        mark_incomplete draft.state day (record { kind = missing_close; subject = symbol }) symbol
    event ← intent_event day order_not_created intent (missing_raw_close symbol)
    ok (record draft { state = current; events = draft.events ++ marked ++ event ∷ [] })

  -- The order of one symbol, if its quantity is not zero.
  unfoldable pub create_order :
      Day → Day → Draft → Name → Decimal → Decimal → Option (Side × ℕ) → Result Draft
  create_order day next_session draft symbol close weight none = ok draft
  create_order day next_session draft symbol close weight (some (side, q)) =
      if q == 0 then ok draft else do
        o ← check_order (record {
          order_id = prefixed (digest (order_body intent.intent_id symbol side next_session q));
          intent_id = intent.intent_id;
          instrument_id = symbol;
          side = side;
          created_on = day;
          execution_date = next_session;
          expiry_date = next_session;
          requested_quantity = q;
          remaining_quantity = q;
          status = ExecutionStatus.pending;
        })
        event ←
            order_event day order_created o
              (creation close weight (digest (execution_policy_body kernel.execution_policy)))
        ok (record draft { orders = draft.orders ++ o ∷ []; events = draft.events ++ event ∷ [] })

  abbrev draft_priced :
      Day
      → Day
      → ℤ
      → Dict Decimal
      → Draft
      → Name
      → Option Instrument
      → Option DailyBar
      → Result Draft
  draft_priced day next_session total_equity weights draft symbol none bar =
      skip_symbol day draft symbol
  draft_priced day next_session total_equity weights draft symbol (some i) none =
      skip_symbol day draft symbol
  draft_priced day next_session total_equity weights draft symbol (some i) (some bar) =
      elim (usable_close (some bar)) [
        | none ↦ skip_symbol day draft symbol
        | some close ↦
            (target_quantity total_equity (weight_of weights symbol) close bar >>= λ target.
            declare target (quantity draft.state symbol) bar >>= λ move.
            create_order day next_session draft symbol close (weight_of weights symbol) move)
      ]

  -- The loop over the symbols.
  unfoldable pub draft_orders :
      MarketSession → Day → ℤ → Dict Decimal → Draft → List Name → Result Draft
  unfolding skip_symbol create_order
  draft_orders market next_session total_equity weights draft [] = ok draft
  draft_orders market next_session total_equity weights draft (symbol ∷ symbols) = do
    next ←
        draft_priced market.session_date next_session total_equity weights draft symbol
          (get kernel.instruments symbol) (get market.bars symbol)
    draft_orders market next_session total_equity weights next symbols

  -- From the check of the next session on.
  unfoldable pub schedule_orders :
      PortfolioState → MarketSession → RiskAssessment → List LedgerEvent → Day → Result IntentResult
  unfolding draft_orders
  schedule_orders state market assessment events next_session = do
    raise_if (leb next_session market.session_date || not (is_session kernel.sessions next_session))
        value_error
    total_equity ← equity state market.bars
    draft ←
        draft_orders market next_session total_equity assessment.approved_weights
          (record { state = state; orders = []; events = events })
          (traded_symbols assessment.approved_weights state)
    current ← check_state (record (draft.state) {
      pending_orders = sort order_before (draft.state.pending_orders ++ draft.orders);
    })
    ok (record {
      state = current;
      assessment = assessment;
      orders = draft.orders;
      events = draft.events;
    })

  abbrev unscheduled :
      PortfolioState → Day → RiskAssessment → List LedgerEvent → Option Day → Result IntentResult
  unscheduled state day assessment events none = do
    event ← intent_event day intent_not_scheduled intent no_next_trading_session
    ok (record {
      state = state;
      assessment = assessment;
      orders = [];
      events = events ++ event ∷ [];
    })
  unscheduled state day assessment events (some d) =
      ok (record { state = state; assessment = assessment; orders = []; events = events })

  abbrev schedule_by :
      PortfolioState
      → MarketSession
      → RiskAssessment
      → List LedgerEvent
      → Bool
      → Option Day
      → Result IntentResult
  schedule_by state market assessment events true (some next_session) =
      schedule_orders state market assessment events next_session
  schedule_by state market assessment events _ next_session =
      unscheduled state market.session_date assessment events next_session

  -- `submit_intent`
  unfoldable pub submit_intent : PortfolioState → MarketSession → Option Day → Result IntentResult
  unfolding schedule_orders
  submit_intent state market next_session = do
    let day = market.session_date
    raise_if (not (intent.decision_date == day)) value_error
    received ← intent_event day portfolio_intent_received intent (of_intent intent)
    let assessment = assess_intent intent kernel.instruments kernel.risk_policy
    assessed ←
        intent_event day risk_assessed intent
          (of_assessment assessment (digest (risk_policy_body kernel.risk_policy)))
    schedule_by state market assessment (received ∷ assessed ∷ []) assessment.accepted next_session
