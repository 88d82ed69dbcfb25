-- ===== src/Kernel/Session.antt =====
-- trading/kernel.py: `process_session`, the opening actions, the orders that are due, the close.
pub mod Partition
use mini_qmt.Common.{
  ℕ, zero, Bool, true, false, not, ◌&&◌, ◌||◌, Option, none, some, List, [], ◌∷◌, ◌++◌, ltb, ◌==◌,
  if◌then◌else◌, Result, ok, err, ◌>>=◌, ◌>>◌, raise_if, value_error,
}
use mini_qmt.Common.Dict.{get}
use mini_qmt.Common.Sorting.{sort}
use mini_qmt.Market.{Day, MarketSession}
use mini_qmt.Trading.Fees.{Side, buy, sell}
use mini_qmt.Trading.State.{
  PortfolioState, check_state, Order, Fill, LedgerEvent, SessionResult, order_expired, expiry,
  clock_advanced_past_expiry, untrusted_simulation_fee_schedule,
}
use mini_qmt.Kernel.Setup.{TradingKernel, DigestBody, is_session, order_event, mark_incomplete}
use mini_qmt.Kernel.Orders.{Execution, execute_order}
use mini_qmt.Kernel.Actions.{apply_open_actions, capture_entitlements}
use mini_qmt.Kernel.Actions.Common.{Outcome}
use mini_qmt.Kernel.Close.{value_at_close}

abbrev pub is_expired : Day → Order → Bool
is_expired day o = ltb o.expiry_date day

abbrev pub is_due : Day → Order → Bool
is_due day o = o.execution_date == day

-- The three ways of the loop over the pending orders.
pub record Sorted : Type 0 where
  pub retained : List Order
  pub due : List Order
  pub events : List LedgerEvent

abbrev keep_order : Day → Order → Sorted → Sorted
keep_order day o rest =
    if is_due day o
    then record rest { due = o ∷ rest.due }
    else record rest { retained = o ∷ rest.retained }

-- The loop over `current.pending_orders`.
unfoldable pub sort_orders : Day → List Order → Result Sorted
sort_orders day [] = ok (record { retained = []; due = []; events = [] })
sort_orders day (o ∷ orders) =
    let later = sort_orders day orders in
    if is_expired day o
    then (order_event day order_expired o (expiry o.remaining_quantity clock_advanced_past_expiry)
        >>= λ event. later >>= λ (rest : Sorted). ok (record rest { events = event ∷ rest.events }))
    else (later >>= λ (rest : Sorted). ok (keep_order day o rest))

abbrev is_buy : Side → Bool
is_buy buy = true
is_buy sell = false

-- Sales first, then by instrument and by order.
abbrev pub executes_before : Order → Order → Bool
executes_before a b =
    (not (is_buy a.side) && is_buy b.side)
    || ((is_buy a.side && is_buy b.side || not (is_buy a.side) && not (is_buy b.side))
        && (ltb a.instrument_id b.instrument_id
            || (a.instrument_id == b.instrument_id && ltb a.order_id b.order_id)))

abbrev pub some_fill : Option Fill → List Fill
some_fill none = []
some_fill (some f) = f ∷ []

-- The state, the fills and the events of a run of orders.
pub record Executions : Type 0 where
  pub state : PortfolioState
  pub fills : List Fill
  pub events : List LedgerEvent

module _ (digest : DigestBody → ℕ) (kernel : TradingKernel) where
  -- The loop over the due orders.
  unfoldable pub execute_orders : MarketSession → PortfolioState → List Order → Result Executions
  execute_orders market state [] = ok (record { state = state; fills = []; events = [] })
  execute_orders market state (o ∷ orders) = do
    done ← execute_order digest kernel state o (get market.bars o.instrument_id)
    rest ← execute_orders market done.state orders
    ok (record {
      state = rest.state;
      fills = some_fill done.fill ++ rest.fills;
      events = done.events ++ rest.events;
    })

  abbrev pub mark_untrusted : PortfolioState → Day → Result Outcome
  mark_untrusted state day =
      if kernel.fee_schedule.trusted_for_simulation
      then ok (state, [])
      else mark_incomplete state day
          (record { kind = untrusted_simulation_fee_schedule; subject = 0 })
          kernel.fee_schedule.schedule_id

  -- `process_session`
  unfoldable pub process_session : PortfolioState → MarketSession → Result SessionResult
  unfolding sort_orders execute_orders
  process_session state market = do
    let day = market.session_date
    raise_if (not (is_session kernel.sessions day)) value_error
    (marked, untrusted_events) ← mark_untrusted state day
    (opened, action_events) ← apply_open_actions digest marked market
    sorted ← sort_orders day opened.pending_orders
    current ← check_state (record opened { pending_orders = sorted.retained })
    done ← execute_orders market current (sort executes_before sorted.due)
    closing ← value_at_close done.state market
    (final, entitlement_events) ← capture_entitlements closing.state market
    ok (record {
      state = final;
      events =
          untrusted_events ++ action_events ++ sorted.events ++ done.events ++ closing.events
          ++ entitlement_events;
      fills = done.fills;
      valuation = closing.valuation;
    })
