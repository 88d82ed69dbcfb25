-- ===== src/Kernel/Tests/Runs.antt =====
-- Runs of trading/ that return, which the examples of its theorems use.
use mini_qmt.Common.{◌≡◌, refl, true, false, some, [], ◌∷◌, ok}
use mini_qmt.Common.Sorting.{insert, sort, insert_new, sorted_set}
use mini_qmt.Common.Int.{pos, ◌+ℤ◌, ◌-ℤ◌, ◌*ℤ◌}
use mini_qmt.Common.Dict.{get, put}
use mini_qmt.Decimal.{
  of_ℕ, rescale, fix, add, sub, mul, quotient, div, lt, le, eq, minimum, maximum, absolute, floor,
  ceil, round_half_up, at_places, quantize,
}
use mini_qmt.Decimal.Digits.{excess, half_even, half_up, ceil_div, round_digits, expansion}
use mini_qmt.Decimal.Exact.{of_cents}
use mini_qmt.Trading.Fees.{sell, money, matches, total, select_rule, charge, calculate}
use mini_qmt.Trading.Pricing.{
  round_nearest_tick, round_price, price_limits, blocked_reason, slippage_bps, candidate_price,
  fill_price,
}
use mini_qmt.Trading.Quantity.{
  round_down, round_down_normal_quantity, is_normal_quantity, normalize_sell_declaration,
}
use mini_qmt.Trading.State.{
  check_lot, check_order, check_entitlement, check_event, check_state, quantity, sellable_quantity,
  reason_before, same_reason,
}
use mini_qmt.Kernel.Setup.{
  session_index, advance_session, order_event, action_event, mark_incomplete,
}
use mini_qmt.Kernel.Orders.{
  reject, is_full_residual, book_fill, fill_order, limit_by_cash, execute_open, execute_order,
}
use mini_qmt.Kernel.Orders.Sizing.{
  affords, search_slot, affordable_buy_quantity, liquidity, limit_by_settlement, all_or_nothing,
  approve,
}
use mini_qmt.Kernel.Orders.Booking.{
  apply_buy, consumed_cost, leftover, consume_lot, consume_lots, settle_sale, apply_sell,
}
use mini_qmt.Trading.Intent.{assess_intent, assess_weights, assess_symbol, sum_weights}
use mini_qmt.Kernel.Actions.{
  apply_open_actions, run_actions, ex_action, pay_action, listing_action, pay_dividend,
  decline_rights, list_shares, distributed_lots, capture_entitlements, capture,
}
use mini_qmt.Kernel.Actions.Common.{sum_costs}
use mini_qmt.Kernel.Actions.Split.{
  apply_split, split_by_multiplier, split_position, split_lots, replace_lots, distribute,
  floor_shares,
}
use mini_qmt.Kernel.Actions.Allocation.{
  allocate_share_action_cost, allocate_cost, adjust_lots, keep_cost, divide_cost,
}
use mini_qmt.Kernel.Close.{value_at_close, tally_symbols, update_prices, equity, equity_from}
use mini_qmt.Kernel.Session.{process_session, sort_orders, execute_orders}
use mini_qmt.Kernel.Submission.{
  submit_intent, schedule_orders, draft_orders, create_order, skip_symbol, target_quantity, declare,
}
use mini_qmt.Kernel.Tests.{
  fees, shares, reason, intent, lots, risk_policy, cents, succeeds, digest, kernel, portfolio,
  buy_order, sell_order, market, bar, share_stock, execution_policy, fee_schedule,
}

-- A purchase, cut to what the volume leaves, a sale of settled shares, a purchase that is too large for the cash.
pub execute_buy-returns :
    succeeds (execute_order digest kernel portfolio buy_order (some bar)) ≡ true
unfolding execute_order execute_open reject is_full_residual limit_by_cash fill_order book_fill
    approve liquidity limit_by_settlement all_or_nothing affordable_buy_quantity search_slot affords
    apply_buy apply_sell consume_lots consume_lot consumed_cost leftover settle_sale order_event
    check_event check_state check_lot advance_session session_index fill_price candidate_price
    slippage_bps blocked_reason price_limits round_price round_nearest_tick calculate charge
    select_rule matches total money quantize at_places rescale fix add sub mul quotient div lt le eq
    minimum maximum absolute floor ceil round_half_up excess half_even half_up ceil_div round_digits
    expansion get ◌+ℤ◌ ◌-ℤ◌ ◌*ℤ◌ round_down round_down_normal_quantity is_normal_quantity quantity
    sellable_quantity sorted_set insert_new sort insert
execute_buy-returns = refl

pub execute_sell-returns :
    succeeds (execute_order digest kernel portfolio sell_order (some bar)) ≡ true
unfolding execute_order execute_open reject is_full_residual limit_by_cash fill_order book_fill
    approve liquidity limit_by_settlement all_or_nothing affordable_buy_quantity search_slot affords
    apply_buy apply_sell consume_lots consume_lot consumed_cost leftover settle_sale order_event
    check_event check_state check_lot advance_session session_index fill_price candidate_price
    slippage_bps blocked_reason price_limits round_price round_nearest_tick calculate charge
    select_rule matches total money quantize at_places rescale fix add sub mul quotient div lt le eq
    minimum maximum absolute floor ceil round_half_up excess half_even half_up ceil_div round_digits
    expansion get ◌+ℤ◌ ◌-ℤ◌ ◌*ℤ◌ round_down round_down_normal_quantity is_normal_quantity quantity
    sellable_quantity sorted_set insert_new sort insert
execute_sell-returns = refl

pub apply_buy-returns :
    succeeds
      (apply_buy digest kernel.sessions portfolio buy_order 500 (cents 1001) (pos 500500) fees 1)
    ≡ true
unfolding execute_order execute_open reject is_full_residual limit_by_cash fill_order book_fill
    approve liquidity limit_by_settlement all_or_nothing affordable_buy_quantity search_slot affords
    apply_buy apply_sell consume_lots consume_lot consumed_cost leftover settle_sale order_event
    check_event check_state check_lot advance_session session_index fill_price candidate_price
    slippage_bps blocked_reason price_limits round_price round_nearest_tick calculate charge
    select_rule matches total money quantize at_places rescale fix add sub mul quotient div lt le eq
    minimum maximum absolute floor ceil round_half_up excess half_even half_up ceil_div round_digits
    expansion get ◌+ℤ◌ ◌-ℤ◌ ◌*ℤ◌ round_down round_down_normal_quantity is_normal_quantity quantity
    sellable_quantity sorted_set insert_new sort insert
apply_buy-returns = refl

pub apply_sell-returns : succeeds (apply_sell portfolio sell_order 200 (pos 199800) fees) ≡ true
unfolding execute_order execute_open reject is_full_residual limit_by_cash fill_order book_fill
    approve liquidity limit_by_settlement all_or_nothing affordable_buy_quantity search_slot affords
    apply_buy apply_sell consume_lots consume_lot consumed_cost leftover settle_sale order_event
    check_event check_state check_lot advance_session session_index fill_price candidate_price
    slippage_bps blocked_reason price_limits round_price round_nearest_tick calculate charge
    select_rule matches total money quantize at_places rescale fix add sub mul quotient div lt le eq
    minimum maximum absolute floor ceil round_half_up excess half_even half_up ceil_div round_digits
    expansion get ◌+ℤ◌ ◌-ℤ◌ ◌*ℤ◌ round_down round_down_normal_quantity is_normal_quantity quantity
    sellable_quantity sorted_set insert_new sort insert
apply_sell-returns = refl

pub process_session-returns : succeeds (process_session digest kernel portfolio market) ≡ true
unfolding execute_order execute_open reject is_full_residual limit_by_cash fill_order book_fill
    approve liquidity limit_by_settlement all_or_nothing affordable_buy_quantity search_slot affords
    apply_buy apply_sell consume_lots consume_lot consumed_cost leftover settle_sale order_event
    check_event check_state check_lot advance_session session_index fill_price candidate_price
    slippage_bps blocked_reason price_limits round_price round_nearest_tick calculate charge
    select_rule matches total money quantize at_places rescale fix add sub mul quotient div lt le eq
    minimum maximum absolute floor ceil round_half_up excess half_even half_up ceil_div round_digits
    expansion get ◌+ℤ◌ ◌-ℤ◌ ◌*ℤ◌ round_down round_down_normal_quantity is_normal_quantity quantity
    sellable_quantity sorted_set insert_new sort insert process_session sort_orders execute_orders
    value_at_close tally_symbols update_prices put apply_open_actions run_actions ex_action
    pay_action listing_action pay_dividend decline_rights list_shares distributed_lots apply_split
    split_by_multiplier split_position split_lots replace_lots distribute floor_shares sum_costs
    allocate_share_action_cost allocate_cost adjust_lots keep_cost divide_cost capture_entitlements
    capture check_entitlement action_event mark_incomplete same_reason reason_before
process_session-returns = refl

pub value_at_close-returns : succeeds (value_at_close portfolio market) ≡ true
unfolding execute_order execute_open reject is_full_residual limit_by_cash fill_order book_fill
    approve liquidity limit_by_settlement all_or_nothing affordable_buy_quantity search_slot affords
    apply_buy apply_sell consume_lots consume_lot consumed_cost leftover settle_sale order_event
    check_event check_state check_lot advance_session session_index fill_price candidate_price
    slippage_bps blocked_reason price_limits round_price round_nearest_tick calculate charge
    select_rule matches total money quantize at_places rescale fix add sub mul quotient div lt le eq
    minimum maximum absolute floor ceil round_half_up excess half_even half_up ceil_div round_digits
    expansion get ◌+ℤ◌ ◌-ℤ◌ ◌*ℤ◌ round_down round_down_normal_quantity is_normal_quantity quantity
    sellable_quantity sorted_set insert_new sort insert value_at_close tally_symbols update_prices
    put
value_at_close-returns = refl

pub sort_orders-returns : succeeds (sort_orders 11 portfolio.pending_orders) ≡ true
unfolding execute_order execute_open reject is_full_residual limit_by_cash fill_order book_fill
    approve liquidity limit_by_settlement all_or_nothing affordable_buy_quantity search_slot affords
    apply_buy apply_sell consume_lots consume_lot consumed_cost leftover settle_sale order_event
    check_event check_state check_lot advance_session session_index fill_price candidate_price
    slippage_bps blocked_reason price_limits round_price round_nearest_tick calculate charge
    select_rule matches total money quantize at_places rescale fix add sub mul quotient div lt le eq
    minimum maximum absolute floor ceil round_half_up excess half_even half_up ceil_div round_digits
    expansion get ◌+ℤ◌ ◌-ℤ◌ ◌*ℤ◌ round_down round_down_normal_quantity is_normal_quantity quantity
    sellable_quantity sorted_set insert_new sort insert sort_orders
sort_orders-returns = refl

pub submit_intent-returns :
    succeeds (submit_intent digest kernel intent portfolio market (some 12)) ≡ true
unfolding execute_order execute_open reject is_full_residual limit_by_cash fill_order book_fill
    approve liquidity limit_by_settlement all_or_nothing affordable_buy_quantity search_slot affords
    apply_buy apply_sell consume_lots consume_lot consumed_cost leftover settle_sale order_event
    check_event check_state check_lot advance_session session_index fill_price candidate_price
    slippage_bps blocked_reason price_limits round_price round_nearest_tick calculate charge
    select_rule matches total money quantize at_places rescale fix add sub mul quotient div lt le eq
    minimum maximum absolute floor ceil round_half_up excess half_even half_up ceil_div round_digits
    expansion get ◌+ℤ◌ ◌-ℤ◌ ◌*ℤ◌ round_down round_down_normal_quantity is_normal_quantity quantity
    sellable_quantity sorted_set insert_new sort insert submit_intent schedule_orders draft_orders
    create_order skip_symbol target_quantity declare equity equity_from assess_intent assess_weights
    assess_symbol sum_weights check_order put mark_incomplete same_reason reason_before
    normalize_sell_declaration
submit_intent-returns = refl

pub calculate-returns :
    succeeds (calculate fee_schedule 11 "stock" "SSE" sell (of_cents (pos 199800))) ≡ true
unfolding execute_order execute_open reject is_full_residual limit_by_cash fill_order book_fill
    approve liquidity limit_by_settlement all_or_nothing affordable_buy_quantity search_slot affords
    apply_buy apply_sell consume_lots consume_lot consumed_cost leftover settle_sale order_event
    check_event check_state check_lot advance_session session_index fill_price candidate_price
    slippage_bps blocked_reason price_limits round_price round_nearest_tick calculate charge
    select_rule matches total money quantize at_places rescale fix add sub mul quotient div lt le eq
    minimum maximum absolute floor ceil round_half_up excess half_even half_up ceil_div round_digits
    expansion get ◌+ℤ◌ ◌-ℤ◌ ◌*ℤ◌ round_down round_down_normal_quantity is_normal_quantity quantity
    sellable_quantity sorted_set insert_new sort insert
calculate-returns = refl

pub select_rule-returns : succeeds (select_rule fee_schedule 11 "stock" "SSE") ≡ true
unfolding execute_order execute_open reject is_full_residual limit_by_cash fill_order book_fill
    approve liquidity limit_by_settlement all_or_nothing affordable_buy_quantity search_slot affords
    apply_buy apply_sell consume_lots consume_lot consumed_cost leftover settle_sale order_event
    check_event check_state check_lot advance_session session_index fill_price candidate_price
    slippage_bps blocked_reason price_limits round_price round_nearest_tick calculate charge
    select_rule matches total money quantize at_places rescale fix add sub mul quotient div lt le eq
    minimum maximum absolute floor ceil round_half_up excess half_even half_up ceil_div round_digits
    expansion get ◌+ℤ◌ ◌-ℤ◌ ◌*ℤ◌ round_down round_down_normal_quantity is_normal_quantity quantity
    sellable_quantity sorted_set insert_new sort insert
select_rule-returns = refl

pub total-returns : succeeds (total fees) ≡ true
unfolding execute_order execute_open reject is_full_residual limit_by_cash fill_order book_fill
    approve liquidity limit_by_settlement all_or_nothing affordable_buy_quantity search_slot affords
    apply_buy apply_sell consume_lots consume_lot consumed_cost leftover settle_sale order_event
    check_event check_state check_lot advance_session session_index fill_price candidate_price
    slippage_bps blocked_reason price_limits round_price round_nearest_tick calculate charge
    select_rule matches total money quantize at_places rescale fix add sub mul quotient div lt le eq
    minimum maximum absolute floor ceil round_half_up excess half_even half_up ceil_div round_digits
    expansion get ◌+ℤ◌ ◌-ℤ◌ ◌*ℤ◌ round_down round_down_normal_quantity is_normal_quantity quantity
    sellable_quantity sorted_set insert_new sort insert
total-returns = refl

pub split-returns : succeeds (replace_lots (pos 390000) 200 (pos 0) shares) ≡ true
unfolding execute_order execute_open reject is_full_residual limit_by_cash fill_order book_fill
    approve liquidity limit_by_settlement all_or_nothing affordable_buy_quantity search_slot affords
    apply_buy apply_sell consume_lots consume_lot consumed_cost leftover settle_sale order_event
    check_event check_state check_lot advance_session session_index fill_price candidate_price
    slippage_bps blocked_reason price_limits round_price round_nearest_tick calculate charge
    select_rule matches total money quantize at_places rescale fix add sub mul quotient div lt le eq
    minimum maximum absolute floor ceil round_half_up excess half_even half_up ceil_div round_digits
    expansion get ◌+ℤ◌ ◌-ℤ◌ ◌*ℤ◌ round_down round_down_normal_quantity is_normal_quantity quantity
    sellable_quantity sorted_set insert_new sort insert replace_lots
split-returns = refl

pub adjust-returns : succeeds (adjust_lots 7 (pos 390000) (pos 300000) 2 0 (pos 0) lots) ≡ true
unfolding execute_order execute_open reject is_full_residual limit_by_cash fill_order book_fill
    approve liquidity limit_by_settlement all_or_nothing affordable_buy_quantity search_slot affords
    apply_buy apply_sell consume_lots consume_lot consumed_cost leftover settle_sale order_event
    check_event check_state check_lot advance_session session_index fill_price candidate_price
    slippage_bps blocked_reason price_limits round_price round_nearest_tick calculate charge
    select_rule matches total money quantize at_places rescale fix add sub mul quotient div lt le eq
    minimum maximum absolute floor ceil round_half_up excess half_even half_up ceil_div round_digits
    expansion get ◌+ℤ◌ ◌-ℤ◌ ◌*ℤ◌ round_down round_down_normal_quantity is_normal_quantity quantity
    sellable_quantity sorted_set insert_new sort insert adjust_lots keep_cost
adjust-returns = refl

pub mark_incomplete-returns : succeeds (mark_incomplete portfolio 11 reason 7) ≡ true
unfolding execute_order execute_open reject is_full_residual limit_by_cash fill_order book_fill
    approve liquidity limit_by_settlement all_or_nothing affordable_buy_quantity search_slot affords
    apply_buy apply_sell consume_lots consume_lot consumed_cost leftover settle_sale order_event
    check_event check_state check_lot advance_session session_index fill_price candidate_price
    slippage_bps blocked_reason price_limits round_price round_nearest_tick calculate charge
    select_rule matches total money quantize at_places rescale fix add sub mul quotient div lt le eq
    minimum maximum absolute floor ceil round_half_up excess half_even half_up ceil_div round_digits
    expansion get ◌+ℤ◌ ◌-ℤ◌ ◌*ℤ◌ round_down round_down_normal_quantity is_normal_quantity quantity
    sellable_quantity sorted_set insert_new sort insert mark_incomplete same_reason reason_before
mark_incomplete-returns = refl

pub affordable-returns :
    affordable_buy_quantity execution_policy fee_schedule
      (of_cents (pos 600000))
      1000
      share_stock
      bar
      11
    ≡ ok 500
unfolding execute_order execute_open reject is_full_residual limit_by_cash fill_order book_fill
    approve liquidity limit_by_settlement all_or_nothing affordable_buy_quantity search_slot affords
    apply_buy apply_sell consume_lots consume_lot consumed_cost leftover settle_sale order_event
    check_event check_state check_lot advance_session session_index fill_price candidate_price
    slippage_bps blocked_reason price_limits round_price round_nearest_tick calculate charge
    select_rule matches total money quantize at_places rescale fix add sub mul quotient div lt le eq
    minimum maximum absolute floor ceil round_half_up excess half_even half_up ceil_div round_digits
    expansion get ◌+ℤ◌ ◌-ℤ◌ ◌*ℤ◌ round_down round_down_normal_quantity is_normal_quantity quantity
    sellable_quantity sorted_set insert_new sort insert
affordable-returns = refl

pub approve-returns : succeeds (approve execution_policy portfolio sell_order bar false) ≡ true
unfolding execute_order execute_open reject is_full_residual limit_by_cash fill_order book_fill
    approve liquidity limit_by_settlement all_or_nothing affordable_buy_quantity search_slot affords
    apply_buy apply_sell consume_lots consume_lot consumed_cost leftover settle_sale order_event
    check_event check_state check_lot advance_session session_index fill_price candidate_price
    slippage_bps blocked_reason price_limits round_price round_nearest_tick calculate charge
    select_rule matches total money quantize at_places rescale fix add sub mul quotient div lt le eq
    minimum maximum absolute floor ceil round_half_up excess half_even half_up ceil_div round_digits
    expansion get ◌+ℤ◌ ◌-ℤ◌ ◌*ℤ◌ round_down round_down_normal_quantity is_normal_quantity quantity
    sellable_quantity sorted_set insert_new sort insert
approve-returns = refl

pub accepted_intent : (assess_intent intent kernel.instruments risk_policy).accepted ≡ true
unfolding assess_intent assess_weights assess_symbol sum_weights get put lt le add sub fix rescale
    ◌+ℤ◌ ◌-ℤ◌ ◌*ℤ◌ round_digits
accepted_intent = refl

pub rounded-returns : round_down_normal_quantity (of_ℕ 750) 100 100 ≡ ok 700
unfolding round_down_normal_quantity round_down le rescale floor
rounded-returns = refl

pub odd_sale-returns : normalize_sell_declaration 150 150 100 100 true ≡ ok 150
unfolding normalize_sell_declaration
odd_sale-returns = refl

pub advance-returns : advance_session (10 ∷ 11 ∷ 12 ∷ []) 11 1 ≡ ok 12
unfolding advance_session session_index
advance-returns = refl
