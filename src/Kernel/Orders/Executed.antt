-- ===== src/Kernel/Orders/Executed.antt =====
-- What the execution of one order comes to: nothing, or a fill that its books show.
use mini_qmt.Common.{
  ℕ, ◌+◌, ◌-◌, ◌≤◌, ◌<◌, ◌≡◌, refl, ◌⊎◌, inl, inr, ◌∙◌, arith, not, ◌&&◌, Option, none, some, List,
  [], ◌∷◌, ◌++◌, ◌==◌, ok, or_raise, assertion_error, >>=-eq-ok, ok-injective, Bool-cases, All,
  sum_by, sum_by-append, ap,
}
use mini_qmt.Common.Int.{ℤ}
use mini_qmt.Common.Dict.{get}
use mini_qmt.Decimal.{Decimal}
use mini_qmt.Decimal.Exact.{of_cents}
use mini_qmt.Market.{Name, Instrument, DailyBar}
use mini_qmt.Trading.Fees.{Side, buy, sell, FeeBreakdown, money, total, calculate}
use mini_qmt.Trading.Quantity.{is_normal_quantity}
use mini_qmt.Trading.Pricing.{blocked_reason, fill_price}
use mini_qmt.Trading.State.{
  PortfolioState, check_state, quantity, sellable_quantity, Order, Fill, RejectReason, PositionLot,
  held,
}
use mini_qmt.Kernel.Setup.{TradingKernel, DigestBody, order_event}
use mini_qmt.Kernel.Orders.{
  Execution, reject, book_fill, fill_order, limit_by_cash, execute_open, execute_by, execute_order,
  is_full_residual, remainder_event,
}
use mini_qmt.Kernel.Orders.Sizing.{approve, affordable_buy_quantity}
use mini_qmt.Kernel.Orders.Sizing.Affordable.{affordable_buy_quantity-le}
use mini_qmt.Kernel.Orders.Sizing.Capacity.{Settled, Settled-le, approve-Settled}
use mini_qmt.Kernel.Orders.Booking.{apply_buy, apply_sell}
use mini_qmt.Kernel.Orders.Booking.Lots.{IsLot}
use mini_qmt.Kernel.Orders.Booking.Purchase.{apply_buy-Purchased}
use mini_qmt.Kernel.Orders.Booking.Sale.{Sold, apply_sell-Sold}

-- How a position moves: up by a purchase, down by a sale.
abbrev pub Moved : Side → ℕ → ℕ → ℕ → Type 0
Moved buy before after n = after ≡ before + n
Moved sell before after n = after + n ≡ before

pub record Filled (s s' : PortfolioState) (o : Order) (f : Fill) : Type 0 where
  pub of_order : f.order_id ≡ o.order_id
  pub of_instrument : f.instrument_id ≡ o.instrument_id
  pub of_side : f.side ≡ o.side
  pub on_day : f.session_date ≡ o.execution_date
  pub positive : 0 < f.quantity
  pub within : f.quantity ≤ o.remaining_quantity
  pub settled : Settled o.side f.quantity (sellable_quantity s o.instrument_id o.execution_date)
  pub moved : Moved o.side (quantity s o.instrument_id) (quantity s' o.instrument_id) f.quantity

-- Either nothing is filled and the state is the one before, or there is a fill.
abbrev pub Executed : PortfolioState → Order → Execution → Type 0
Executed s o r =
    ((r.fill ≡ none) × (r.state ≡ s)) ⊎ ((f : Fill) × (r.fill ≡ some f) × Filled s r.state o f)

pub reject-Executed :
    (s : PortfolioState) (o : Order) (reason : RejectReason) (remaining : ℕ) {r : Execution}
    → reject s o reason remaining ≡ ok r
    → Executed s o r
unfolding reject
reject-Executed s o reason remaining {r} h =
    let (_, _, h1) = >>=-eq-ok (order_event o.execution_date _ o _) _ h in
    let (_, _, done) = >>=-eq-ok (order_event o.execution_date _ o _) _ h1 in
    rw (← ok-injective done) (inl (refl, refl))

checked_lots : (s : PortfolioState) {c : PortfolioState} → check_state s ≡ ok c → c.lots ≡ s.lots
unfolding check_state
checked_lots s {c} h = ground arith

quantity_of_lots :
    (s t : PortfolioState) (id : Name) → s.lots ≡ t.lots → quantity s id ≡ quantity t id
unfolding quantity
quantity_of_lots s t id e = rw e refl

bought_position :
    (s s' : PortfolioState) (lot : PositionLot) (id : Name)
    → s'.lots ≡ s.lots ++ lot ∷ []
    → lot.instrument_id ≡ id
    → quantity s' id ≡ quantity s id + lot.quantity
unfolding quantity
bought_position s s' lot id e same =
    rw (e, sum_by-append (held id) s.lots (lot ∷ [])) (one (sum_by (held id) s.lots))
  where
    one : (n : ℕ) → n + (held id lot + 0) ≡ n + lot.quantity
    one n = ground arith

module _ (digest : DigestBody → ℕ) (kernel : TradingKernel) (s : PortfolioState) (o : Order)
    (valid : All IsLot s.lots) where
  book_fill-Moved :
      (n : ℕ) (price : Decimal) (amount : ℤ) (fees : FeeBreakdown) (delay : ℕ) (side : Side)
      {r : PortfolioState × ℤ}
      → book_fill digest kernel s o n price amount fees delay side ≡ ok r
      → Moved side (quantity s o.instrument_id) (quantity r.0 o.instrument_id) n
  unfolding book_fill
  book_fill-Moved n price amount fees delay buy {r} h =
      let (s', bought, done) =
        >>=-eq-ok (apply_buy digest kernel.sessions s o n price amount fees delay) _ h in
      let (_, lot, _, p) =
        apply_buy-Purchased digest s s' o n price amount kernel.sessions fees delay bought in
      rw (← ok-injective done) (
        bought_position s s' lot o.instrument_id p.lots p.instrument
        ∙ ap (λ q. quantity s o.instrument_id + q) p.bought)
  book_fill-Moved n price amount fees delay sell {r} h =
      let ((s', cost), sold, h1) = >>=-eq-ok (apply_sell s o n amount fees) _ h in
      let (fee_total, _, h2) = >>=-eq-ok (total fees) _ h1 in
      let (realized, _, h3) = >>=-eq-ok (money _) _ h2 in
      let (_, _, h4) = >>=-eq-ok (money _) _ h3 in
      let (c, checked, done) = >>=-eq-ok (check_state _) _ h4 in
      let same : quantity c o.instrument_id ≡ quantity s' o.instrument_id =
        quantity_of_lots c s' o.instrument_id (checked_lots _ checked) in
      let p : Sold s s' o n cost = apply_sell-Sold s s' o n amount fees cost valid sold in
      rw (← ok-injective done) (rw same p.shares)

  fill_order-Filled :
      (instrument : Instrument) (bar : DailyBar) (opening : Decimal) (n : ℕ)
      (reasons : List RejectReason) {r : Execution}
      → 0 < n
      → n ≤ o.remaining_quantity
      → Settled o.side n (sellable_quantity s o.instrument_id o.execution_date)
      → fill_order digest kernel s o instrument bar opening n reasons ≡ ok r
      → Executed s o r
  unfolding fill_order
  fill_order-Filled instrument bar opening n reasons {r} some_shares within settled h =
      let (price, _, h1) = >>=-eq-ok (fill_price kernel.execution_policy o.side n bar) _ h in
      let (amount, _, h2) = >>=-eq-ok (money _) _ h1 in
      let (fees, _, h3) = >>=-eq-ok (calculate kernel.fee_schedule _ _ _ o.side _) _ h2 in
      let (booked, books, h4) =
        >>=-eq-ok (book_fill digest kernel s o n price amount fees bar.sell_delay_sessions o.side) _
          h3 in
      let (_, _, h5) = >>=-eq-ok (money _) _ h4 in
      let (_, _, h6) = >>=-eq-ok (order_event _ _ o _) _ h5 in
      let (_, _, done) = >>=-eq-ok (remainder_event o (o.remaining_quantity - n)) _ h6 in
      rw (← ok-injective done) (
        inr (
          _,
          refl,
          record {
            of_order = refl;
            of_instrument = refl;
            of_side = refl;
            on_day = refl;
            positive = some_shares;
            within = within;
            settled = settled;
            moved = book_fill-Moved n price amount fees bar.sell_delay_sessions o.side books;
          },
        ))

  limit_by_cash-le :
      (instrument : Instrument) (bar : DailyBar) (n : ℕ) (reasons : List RejectReason) (side : Side)
      {r : ℕ × List RejectReason}
      → limit_by_cash digest kernel s o instrument bar n reasons side ≡ ok r
      → r.0 ≤ n
  unfolding limit_by_cash
  limit_by_cash-le instrument bar n reasons sell {r} h = rw (← ok-injective h) (omega arith)
  limit_by_cash-le instrument bar n reasons buy {r} h =
      let (affordable, found, done) =
        >>=-eq-ok
          (affordable_buy_quantity kernel.execution_policy kernel.fee_schedule (of_cents s.cash) n
            instrument bar o.execution_date)
          _ h in
      rw (← ok-injective done)
        (affordable_buy_quantity-le _ _ _ n instrument bar o.execution_date affordable found)

  execute_open-Executed :
      (instrument : Instrument) (bar : DailyBar) (opening : Decimal) {r : Execution}
      → execute_open digest kernel s o instrument bar opening ≡ ok r
      → Executed s o r
  unfolding execute_open
  execute_open-Executed instrument bar opening {r} h =
      let full = is_full_residual s o bar in
      let (normal, _, h1) =
        >>=-eq-ok (is_normal_quantity o.remaining_quantity bar.buy_lot bar.quantity_step) _ h in
      elim (Bool-cases (not normal && not full)) [
        | inl odd ↦ reject-Executed s o _ _ (rw odd at h1)
        | inr fits ↦
            let ((offered, reasons), approved, h2) =
              >>=-eq-ok (approve kernel.execution_policy s o bar full) _ (rw fits at h1) in
            let (within, settled) = approve-Settled kernel.execution_policy s o bar full approved in
            elim (Bool-cases (offered == 0)) [
              | inl none_left ↦ reject-Executed s o _ _ (rw none_left at h2)
              | inr some_left ↦
                  let ((n, reasons'), limited, h3) =
                    >>=-eq-ok
                      (limit_by_cash digest kernel s o instrument bar offered reasons o.side) _
                      (rw some_left at h2) in
                  let less = limit_by_cash-le instrument bar offered reasons o.side limited in
                  elim (Bool-cases (n == 0)) [
                    | inl no_cash ↦ reject-Executed s o _ _ (rw no_cash at h3)
                    | inr cash ↦
                        fill_order-Filled instrument bar opening n reasons' (ground arith)
                          (omega arith) (Settled-le o.side n offered _ less settled) (rw cash at h3)
                  ]
            ]
      ]

  execute_by-Executed :
      (instrument : Instrument) (bar : Option DailyBar) (reason : Option RejectReason)
      {r : Execution}
      → execute_by digest kernel s o instrument bar reason ≡ ok r
      → Executed s o r
  execute_by-Executed instrument bar (some reason) h = reject-Executed s o reason _ h
  execute_by-Executed instrument none none h = absurd (cc h)
  execute_by-Executed instrument (some bar) none h =
      let (opening, _, h1) = >>=-eq-ok (or_raise bar.opening assertion_error) _ h in
      execute_open-Executed instrument bar opening h1

  -- The execution of an order against a portfolio of valid lots either fills nothing and leaves the
  -- state alone, or makes one fill of the order: of a positive quantity within the requested one,
  -- for a sale within the settled shares, and the position moves by exactly that quantity.
  pub execute_order-Executed :
      (bar : Option DailyBar) {r : Execution}
      → execute_order digest kernel s o bar ≡ ok r
      → Executed s o r
  unfolding execute_order
  execute_order-Executed bar {r} h =
      let (instrument, _, h1) =
        >>=-eq-ok (or_raise (get kernel.instruments o.instrument_id) _) _ h in
      let (reason, _, h2) = >>=-eq-ok (blocked_reason kernel.execution_policy o bar) _ h1 in
      execute_by-Executed instrument bar reason h2
