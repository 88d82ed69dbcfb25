-- ===== src/Kernel/Valid/Orders.antt =====
-- The execution of orders keeps a portfolio valid.
use mini_qmt.Common.{
  ℕ, ◌-◌, ◌≡◌, inl, inr, not, ◌&&◌, Option, none, some, List, [], ◌∷◌, ◌==◌, ok, or_raise,
  assertion_error, >>=-eq-ok, raise_if-eq-ok, ok-injective, Bool-cases, All-append,
}
use mini_qmt.Common.Int.{ℤ}
use mini_qmt.Common.Dict.{get}
use mini_qmt.Decimal.{Decimal}
use mini_qmt.Market.{Day, Instrument, DailyBar, MarketSession}
use mini_qmt.Trading.Fees.{Side, buy, sell, FeeBreakdown, money, total, calculate}
use mini_qmt.Trading.Quantity.{is_normal_quantity}
use mini_qmt.Trading.Pricing.{blocked_reason, fill_price}
use mini_qmt.Trading.State.{PortfolioState, check_state, Order, check_lot, RejectReason}
use mini_qmt.Kernel.Setup.{TradingKernel, DigestBody, order_event, advance_session}
use mini_qmt.Kernel.Orders.{
  Execution, reject, book_fill, fill_order, limit_by_cash, execute_open, execute_by, execute_order,
  is_full_residual, remainder_event,
}
use mini_qmt.Kernel.Orders.Sizing.{approve}
use mini_qmt.Kernel.Orders.Booking.{apply_buy, apply_sell}
use mini_qmt.Kernel.Orders.Booking.Lots.{IsLot}
use mini_qmt.Kernel.Orders.Booking.Sale.{Sold, apply_sell-Sold}
use mini_qmt.Kernel.Session.{execute_orders, Executions}
use mini_qmt.Kernel.Actions.Split.Costs.{valid_lot}
use mini_qmt.Kernel.Valid.{IsPortfolio, check_state-IsPortfolio}

reject-IsPortfolio :
    (s : PortfolioState) (o : Order) (reason : RejectReason) (remaining : ℕ) {r : Execution}
    → IsPortfolio s
    → reject s o reason remaining ≡ ok r
    → IsPortfolio r.state
unfolding reject
reject-IsPortfolio s o reason remaining {r} v h =
    let (_, _, h1) = >>=-eq-ok (order_event o.execution_date _ o _) _ h in
    let (_, _, done) = >>=-eq-ok (order_event o.execution_date _ o _) _ h1 in
    rw (← ok-injective done) v

apply_buy-IsPortfolio :
    (digest : DigestBody → ℕ) (sessions : List Day) (s s' : PortfolioState) (o : Order) (n : ℕ)
    (price : Decimal) (amount : ℤ) (fees : FeeBreakdown) (delay : ℕ)
    → IsPortfolio s
    → apply_buy digest sessions s o n price amount fees delay ≡ ok s'
    → IsPortfolio s'
unfolding apply_buy
apply_buy-IsPortfolio digest sessions s s' o n price amount fees delay v h =
    let (fee_total, _, h1) = >>=-eq-ok (total fees) _ h in
    let (_, h2) = raise_if-eq-ok _ _ _ h1 in
    let (sellable_on, _, h3) = >>=-eq-ok (advance_session sessions o.execution_date delay) _ h2 in
    let (cost, _, h4) = >>=-eq-ok (money _) _ h3 in
    let (lot, l, h5) = >>=-eq-ok (check_lot _) _ h4 in
    let (_, _, h6) = >>=-eq-ok (money _) _ h5 in
    let (_, _, done) = >>=-eq-ok (money _) _ h6 in
    check_state-IsPortfolio _ (All-append IsLot s.lots (lot ∷ []) v.lots (valid_lot _ l, tt)) done

module _ (digest : DigestBody → ℕ) (kernel : TradingKernel) (s : PortfolioState) (o : Order)
    (v : IsPortfolio s) where
  book_fill-IsPortfolio :
      (n : ℕ) (price : Decimal) (amount : ℤ) (fees : FeeBreakdown) (delay : ℕ) (side : Side)
      {r : PortfolioState × ℤ}
      → book_fill digest kernel s o n price amount fees delay side ≡ ok r
      → IsPortfolio r.0
  unfolding book_fill
  book_fill-IsPortfolio n price amount fees delay buy {r} h =
      let (s', bought, done) =
        >>=-eq-ok (apply_buy digest kernel.sessions s o n price amount fees delay) _ h in
      rw (← ok-injective done)
        (apply_buy-IsPortfolio digest kernel.sessions s s' o n price amount fees delay v bought)
  book_fill-IsPortfolio n price amount fees delay sell {r} h =
      let ((s', cost), sold, h1) = >>=-eq-ok (apply_sell s o n amount fees) _ h in
      let (fee_total, _, h2) = >>=-eq-ok (total fees) _ h1 in
      let (realized, _, h3) = >>=-eq-ok (money _) _ h2 in
      let (_, _, h4) = >>=-eq-ok (money _) _ h3 in
      let (c, checked, done) = >>=-eq-ok (check_state _) _ h4 in
      let p : Sold s s' o n cost = apply_sell-Sold s s' o n amount fees cost v.lots sold in
      rw (← ok-injective done) (check_state-IsPortfolio _ p.valid checked)

  fill_order-IsPortfolio :
      (instrument : Instrument) (bar : DailyBar) (opening : Decimal) (n : ℕ)
      (reasons : List RejectReason) {r : Execution}
      → fill_order digest kernel s o instrument bar opening n reasons ≡ ok r
      → IsPortfolio r.state
  unfolding fill_order
  fill_order-IsPortfolio instrument bar opening n reasons {r} h =
      let (price, _, h1) = >>=-eq-ok (fill_price kernel.execution_policy o.side n bar) _ h in
      let (amount, _, h2) = >>=-eq-ok (money _) _ h1 in
      let (fees, _, h3) = >>=-eq-ok (calculate kernel.fee_schedule _ _ _ o.side _) _ h2 in
      let (booked, books, h4) =
        >>=-eq-ok (book_fill digest kernel s o n price amount fees bar.sell_delay_sessions o.side) _
          h3 in
      let (_, _, h5) = >>=-eq-ok (money _) _ h4 in
      let (_, _, h6) = >>=-eq-ok (order_event _ _ o _) _ h5 in
      let (_, _, done) = >>=-eq-ok (remainder_event o (o.remaining_quantity - n)) _ h6 in
      rw (← ok-injective done)
        (book_fill-IsPortfolio n price amount fees bar.sell_delay_sessions o.side books)

  execute_open-IsPortfolio :
      (instrument : Instrument) (bar : DailyBar) (opening : Decimal) {r : Execution}
      → execute_open digest kernel s o instrument bar opening ≡ ok r
      → IsPortfolio r.state
  unfolding execute_open
  execute_open-IsPortfolio instrument bar opening {r} h =
      let full = is_full_residual s o bar in
      let (normal, _, h1) =
        >>=-eq-ok (is_normal_quantity o.remaining_quantity bar.buy_lot bar.quantity_step) _ h in
      elim (Bool-cases (not normal && not full)) [
        | inl odd ↦ reject-IsPortfolio s o _ _ v (rw odd at h1)
        | inr fits ↦
            let ((offered, reasons), _, h2) =
              >>=-eq-ok (approve kernel.execution_policy s o bar full) _ (rw fits at h1) in
            elim (Bool-cases (offered == 0)) [
              | inl none_left ↦ reject-IsPortfolio s o _ _ v (rw none_left at h2)
              | inr some_left ↦
                  let ((n, reasons'), _, h3) =
                    >>=-eq-ok
                      (limit_by_cash digest kernel s o instrument bar offered reasons o.side) _
                      (rw some_left at h2) in
                  elim (Bool-cases (n == 0)) [
                    | inl no_cash ↦ reject-IsPortfolio s o _ _ v (rw no_cash at h3)
                    | inr cash ↦
                        fill_order-IsPortfolio instrument bar opening n reasons' (rw cash at h3)
                  ]
            ]
      ]

  execute_by-IsPortfolio :
      (instrument : Instrument) (bar : Option DailyBar) (reason : Option RejectReason)
      {r : Execution}
      → execute_by digest kernel s o instrument bar reason ≡ ok r
      → IsPortfolio r.state
  execute_by-IsPortfolio instrument bar (some reason) h = reject-IsPortfolio s o reason _ v h
  execute_by-IsPortfolio instrument none none h = absurd (cc h)
  execute_by-IsPortfolio instrument (some bar) none h =
      let (opening, _, h1) = >>=-eq-ok (or_raise bar.opening assertion_error) _ h in
      execute_open-IsPortfolio instrument bar opening h1

  execute_order-IsPortfolio :
      (bar : Option DailyBar) {r : Execution}
      → execute_order digest kernel s o bar ≡ ok r
      → IsPortfolio r.state
  unfolding execute_order
  execute_order-IsPortfolio bar {r} h =
      let (instrument, _, h1) =
        >>=-eq-ok (or_raise (get kernel.instruments o.instrument_id) _) _ h in
      let (reason, _, h2) = >>=-eq-ok (blocked_reason kernel.execution_policy o bar) _ h1 in
      execute_by-IsPortfolio instrument bar reason h2

-- The loop over the due orders keeps a portfolio valid.
pub execute_orders-IsPortfolio :
    (digest : DigestBody → ℕ) (kernel : TradingKernel) (market : MarketSession) (s : PortfolioState)
    (orders : List Order) {r : Executions}
    → IsPortfolio s
    → execute_orders digest kernel market s orders ≡ ok r
    → IsPortfolio r.state
unfolding execute_orders
execute_orders-IsPortfolio digest kernel market s [] v h = rw (← ok-injective h) v
execute_orders-IsPortfolio digest kernel market s (o ∷ orders) v h =
    let (done, executed, h1) =
      >>=-eq-ok (execute_order digest kernel s o (get market.bars o.instrument_id)) _ h in
    let (rest, others, last) =
      >>=-eq-ok (execute_orders digest kernel market done.state orders) _ h1 in
    rw (← ok-injective last) (
      execute_orders-IsPortfolio digest kernel market done.state orders
        (execute_order-IsPortfolio digest kernel s o v (get market.bars o.instrument_id) executed)
        others)
