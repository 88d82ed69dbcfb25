-- ===== src/Kernel/Actions.antt =====
-- trading/kernel.py: the corporate actions of a session.
pub mod Common
pub mod Split
pub mod Allocation
use Common.{Outcome, entitlement_of, without_entitlement, mark}
use Split.{apply_split}
use Allocation.{allocate_share_action_cost}
use mini_qmt.Common.{
  ℕ, zero, Bool, true, false, not, Option, none, some, List, [], ◌∷◌, ◌++◌, ltb, ◌==◌,
  if◌then◌else◌, Result, ok, err, ◌>>=◌, ◌>>◌, or_raise, type_error, any,
}
use mini_qmt.Common.Int.{ℤ, pos}
use mini_qmt.Decimal
use mini_qmt.Decimal.{Decimal}
use mini_qmt.Decimal.Exact.{of_cents}
use mini_qmt.Market.{
  Name, Day, CorporateAction, MarketSession, cash_dividend, stock_dividend, split, rights_issue,
}
use mini_qmt.Trading.Fees.{money}
use mini_qmt.Trading.State.{
  PortfolioState, check_state, quantity, PositionLot, check_lot, Entitlement, check_entitlement,
  LedgerEvent, plain, declined, paid, listed, entitled, corporate_action_ex_date,
  rights_issue_declined, cash_dividend_paid, share_distribution_listed,
  corporate_action_entitlement, missing_entitlement, dividend_tax_unmodeled,
  share_cost_basis_not_adjusted, fractional_share_unmodeled,
}
use mini_qmt.Kernel.Setup.{DigestBody, listing_body, prefixed, action_event}

-- A loop over actions: the state is threaded, the events are collected.
unfoldable pub run_actions :
    (PortfolioState → CorporateAction → Result Outcome)
    → PortfolioState
    → List CorporateAction
    → Result Outcome
run_actions step state [] = ok (state, [])
run_actions step state (action ∷ actions) = do
  (current, events) ← step state action
  (final, later) ← run_actions step current actions
  ok (final, events ++ later)

-- The effect of an action on its ex-date, by its type.
abbrev pub ex_effect : PortfolioState → CorporateAction → Day → Result Outcome
ex_effect state action day = elim action.action_type [
  | stock_dividend ↦ allocate_share_action_cost state action day
  | split ↦ apply_split state action day
  | _ ↦ ok (state, [])
]

-- The loop body over `market.ex_actions`.
unfoldable pub ex_action : Day → PortfolioState → CorporateAction → Result Outcome
ex_action day state action = do
  seen ← action_event day corporate_action_ex_date action plain
  (current, events) ← ex_effect state action day
  ok (current, seen ∷ events)

-- A position without a captured entitlement makes the state incomplete.
abbrev pub unentitled : Day → PortfolioState → CorporateAction → Result Outcome
unentitled day state action =
    if quantity state action.instrument_id == 0
    then ok (state, [])
    else mark state day missing_entitlement action

-- A cash dividend is paid on the entitled quantity.
unfoldable pub pay_dividend : Day → PortfolioState → CorporateAction → Entitlement → Result Outcome
pay_dividend day state action entitlement = do
  per_share ← or_raise action.cash_per_share type_error
  gross ← money (Decimal.mul (Decimal.of_ℕ entitlement.quantity) per_share)
  cash ← money (Decimal.add (of_cents state.cash) (of_cents gross))
  income ← money (Decimal.add (of_cents state.dividend_income) (of_cents gross))
  paid_state ← check_state (record state {
    cash = cash;
    dividend_income = income;
    entitlements = without_entitlement action.action_id state.entitlements;
  })
  event ← action_event day cash_dividend_paid action (paid entitlement.quantity gross)
  (current, marked) ← mark paid_state day dividend_tax_unmodeled action
  ok (current, event ∷ marked)

abbrev pub pay_by : Option Entitlement → Day → PortfolioState → CorporateAction → Result Outcome
pay_by none day state action = unentitled day state action
pay_by (some entitlement) day state action = pay_dividend day state action entitlement

abbrev entitled_quantity : Option Entitlement → ℕ
entitled_quantity none = 0
entitled_quantity (some e) = e.quantity

-- Rights are never subscribed: the entitlement lapses.
unfoldable pub decline_rights : Day → PortfolioState → CorporateAction → Result Outcome
decline_rights day state action = do
  event ←
      action_event day rights_issue_declined action
        (declined (entitled_quantity (entitlement_of action.action_id state.entitlements)))
  current ←
      check_state
        (record state { entitlements = without_entitlement action.action_id state.entitlements })
  ok (current, event ∷ [])

-- The loop body over `market.pay_actions`.
unfoldable pub pay_action : Day → PortfolioState → CorporateAction → Result Outcome
unfolding decline_rights pay_dividend
pay_action day state action = elim action.action_type [
  | rights_issue ↦ decline_rights day state action
  | cash_dividend ↦ (pay_by (entitlement_of action.action_id state.entitlements) day state action)
  | _ ↦ ok (state, [])
]

module _ (digest : DigestBody → ℕ) where
  -- The lots of a share distribution: none for a quantity of zero.
  unfoldable pub distributed_lots : Day → CorporateAction → Entitlement → Result (List PositionLot)
  distributed_lots day action entitlement =
      if entitlement.distributed_quantity == 0 then ok [] else do
        lot ← check_lot (record {
          lot_id = prefixed (digest (listing_body action.action_id day));
          instrument_id = action.instrument_id;
          quantity = entitlement.distributed_quantity;
          acquired_on = day;
          sellable_on = day;
          cost_amount = entitlement.allocated_cost;
        })
        ok (lot ∷ [])

  abbrev pub mark_unadjusted : Option Day → Day → PortfolioState → CorporateAction → Result Outcome
  mark_unadjusted none day state action = mark state day share_cost_basis_not_adjusted action
  mark_unadjusted (some d) day state action = ok (state, [])

  abbrev pub mark_fraction : Bool → Day → PortfolioState → CorporateAction → Result Outcome
  mark_fraction true day state action = ok (state, [])
  mark_fraction false day state action = mark state day fractional_share_unmodeled action

  -- Newly listed shares enter the position with the cost that was set aside for them.
  unfoldable pub list_shares : Day → PortfolioState → CorporateAction → Entitlement → Result Outcome
  unfolding distributed_lots
  list_shares day state action entitlement = do
    (checked, unadjusted) ← mark_unadjusted entitlement.adjusted_on day state action
    new_lots ← distributed_lots day action entitlement
    current ← check_state (record checked {
      lots = checked.lots ++ new_lots;
      entitlements = without_entitlement action.action_id checked.entitlements;
    })
    event ←
        action_event day share_distribution_listed action
          (listed entitlement.quantity entitlement.distributed_quantity entitlement.allocated_cost)
    ratio ← or_raise action.share_ratio type_error
    let exact = Decimal.mul (Decimal.of_ℕ entitlement.quantity) ratio
    (final, fraction) ←
        mark_fraction (Decimal.eq exact (Decimal.of_ℕ entitlement.distributed_quantity)) day current
          action
    ok (final, unadjusted ++ event ∷ fraction)

  abbrev pub list_by : Option Entitlement → Day → PortfolioState → CorporateAction → Result Outcome
  list_by none day state action = unentitled day state action
  list_by (some entitlement) day state action = list_shares day state action entitlement

  -- The loop body over `market.listing_actions`.
  unfoldable pub listing_action : Day → PortfolioState → CorporateAction → Result Outcome
  unfolding list_shares
  listing_action day state action = elim action.action_type [
    | stock_dividend ↦
        (list_by (entitlement_of action.action_id state.entitlements) day state action)
    | _ ↦ ok (state, [])
  ]

  -- `_apply_open_actions`
  unfoldable pub apply_open_actions : PortfolioState → MarketSession → Result Outcome
  unfolding run_actions
  apply_open_actions state market = do
    let day = market.session_date
    (after_ex, ex_events) ← run_actions (ex_action day) state market.ex_actions
    (after_pay, pay_events) ← run_actions (pay_action day) after_ex market.pay_actions
    (final, listing_events) ← run_actions (listing_action day) after_pay market.listing_actions
    ok (final, ex_events ++ pay_events ++ listing_events)

-- The entitlements that a session's record dates add, and their events. `existing` are the actions
-- that had one before the loop.
unfoldable pub capture :
    PortfolioState
    → Day
    → List Name
    → List CorporateAction
    → Result (List Entitlement × List LedgerEvent)
capture state day existing [] = ok ([], [])
capture state day existing (action ∷ actions) =
    let later = capture state day existing actions in
    if any (λ id. id == action.action_id) existing then later else do
      let held = quantity state action.instrument_id
      entitlement ← check_entitlement (record {
        action_id = action.action_id;
        instrument_id = action.instrument_id;
        quantity = held;
        captured_on = day;
        distributed_quantity = 0;
        allocated_cost = pos 0;
        adjusted_on = none;
      })
      event ← action_event day corporate_action_entitlement action (entitled held)
      (entitlements, events) ← later
      ok (entitlement ∷ entitlements, event ∷ events)

abbrev pub action_ids : List Entitlement → List Name
action_ids [] = []
action_ids (e ∷ es) = e.action_id ∷ action_ids es

-- `_capture_entitlements`
unfoldable pub capture_entitlements : PortfolioState → MarketSession → Result Outcome
unfolding capture
capture_entitlements state market = do
  (added, events) ←
      capture state market.session_date (action_ids state.entitlements) market.record_actions
  current ← check_state (record state { entitlements = state.entitlements ++ added })
  ok (current, events)
