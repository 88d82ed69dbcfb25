-- ===== src/Kernel/Setup.antt =====
-- trading/kernel.py: the kernel's constructor, its session calendar, its events and the marking of
-- incomplete states.
pub mod Marking
pub mod Calendar
use mini_qmt.Common.{
  ℕ, zero, suc, ◌+◌, Bool, true, false, ◌||◌, ◌&&◌, Option, none, some, List, [], ◌∷◌, ◌++◌, ltb,
  ◌==◌, if◌then◌else◌, Result, ok, err, ◌>>=◌, ◌>>◌, or_raise, raise_if, value_error, key_error,
  any, get_elem?, is_empty,
}
use mini_qmt.Common.Dict.{Dict}
use mini_qmt.Common.Sorting.{sorted_set}
use mini_qmt.Decimal.{Decimal}
use mini_qmt.Market.{Name, Day, Instrument, CorporateAction}
use mini_qmt.Trading.Fees.{Side, FeeSchedule}
use mini_qmt.Trading.Intent.{RiskPolicy}
use mini_qmt.Trading.State.{
  ExecutionPolicy, PortfolioState, check_state, LedgerEvent, check_event, EventType, EntityType,
  Order, OrderDetail, ActionDetail, of_order, of_action, of_reason, Reason, same_reason,
  simulation_marked_incomplete,
}

pub record TradingKernel : Type 0 where
  pub instruments : Dict Instrument
  pub sessions : List Day
  pub execution_policy : ExecutionPolicy
  pub risk_policy : RiskPolicy
  pub fee_schedule : FeeSchedule

-- The arguments of `stable_digest`. The digest itself, a SHA-256 of their JSON text, is a parameter.
pub data DigestBody : Type 0 where
  order_body : Name → Name → Side → Day → ℕ → DigestBody
  fill_body : Name → Day → ℕ → Decimal → DigestBody
  lot_body : Name → Day → ℕ → Decimal → DigestBody
  listing_body : Name → Day → DigestBody
  execution_policy_body : ExecutionPolicy → DigestBody
  risk_policy_body : RiskPolicy → DigestBody

-- An identifier such as `lot-` and 24 digits of the digest, which is never empty.
abbrev pub prefixed : ℕ → Name
prefixed digits = suc digits

-- `TradingKernel.__init__`
unfoldable pub trading_kernel :
    Dict Instrument → List Day → ExecutionPolicy → RiskPolicy → FeeSchedule → Result TradingKernel
trading_kernel instruments sessions execution risk fees = do
  let bound = sorted_set ltb sessions
  raise_if (is_empty bound) value_error
  ok (record {
    instruments = instruments;
    sessions = bound;
    execution_policy = execution;
    risk_policy = risk;
    fee_schedule = fees;
  })

-- `self._session_index.get(day)`
unfoldable pub session_index : List Day → Day → Option ℕ
session_index [] day = none
session_index (d ∷ ds) day =
    if d == day then some 0 else elim (session_index ds day) [ none ↦ none | some i ↦ some (suc i) ]

abbrev pub is_session : List Day → Day → Bool
is_session ds day = any (λ d. d == day) ds

-- The ordinal of `date.max`.
abbrev pub date_max : Day
date_max = 3652059

abbrev pub or_max : Option Day → Day
or_max none = date_max
or_max (some d) = d

-- `_advance_session`
unfoldable pub advance_session : List Day → Day → ℕ → Result Day
unfolding session_index
advance_session sessions day delay = do
  index ← or_raise (session_index sessions day) key_error
  ok (or_max (get_elem? sessions (index + delay)))

-- `_order_event`
unfoldable pub order_event : Day → EventType → Order → OrderDetail → Result LedgerEvent
unfolding check_event
order_event day event_type o detail = check_event (record {
  session_date = day;
  event_type = event_type;
  entity_type = EntityType.order;
  entity_id = o.order_id;
  payload = of_order o detail;
})

-- `_action_event`
unfoldable pub action_event : Day → EventType → CorporateAction → ActionDetail → Result LedgerEvent
unfolding check_event
action_event day event_type action detail = check_event (record {
  session_date = day;
  event_type = event_type;
  entity_type = EntityType.corporate_action;
  entity_id = action.action_id;
  payload = of_action action detail;
})

abbrev pub is_marked : PortfolioState → Reason → Bool
is_marked state reason = any (same_reason reason) state.incomplete_reasons

-- `_mark_incomplete`: the state, and the event or nothing, as the list that every caller appends.
unfoldable pub mark_incomplete :
    PortfolioState → Day → Reason → Name → Result (PortfolioState × List LedgerEvent)
unfolding check_state check_event
mark_incomplete state day reason entity_id = if is_marked state reason then ok (state, []) else do
  current ←
      check_state (record state { incomplete_reasons = state.incomplete_reasons ++ reason ∷ [] })
  event ← check_event (record {
    session_date = day;
    event_type = simulation_marked_incomplete;
    entity_type = EntityType.quality;
    entity_id = entity_id;
    payload = of_reason reason;
  })
  ok (current, event ∷ [])
