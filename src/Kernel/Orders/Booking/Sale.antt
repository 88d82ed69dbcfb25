-- ===== src/Kernel/Orders/Booking/Sale.antt =====
-- What `_apply_sell` does to the portfolio.
use mini_qmt.Common.{
  ℕ, ◌+◌, ◌<◌, ◌≡◌, ◌≢◌, List, arith, ok, sum_by, total_by, All, >>=-eq-ok, ap, ◌∙◌,
}
use mini_qmt.Common.Int.{ℤ, pos, magnitude, ◌+ℤ◌, ◌-ℤ◌, ◌≤ℤ◌, int_laws}
use mini_qmt.Common.Sorting.{sort, sum_by-sort, total_by-sort, All-sort}
use mini_qmt.Decimal
use mini_qmt.Decimal.{Decimal}
use mini_qmt.Decimal.Digits.{limit}
use mini_qmt.Decimal.Exact.{of_cents, add_exact}
use mini_qmt.Decimal.Sums.{Tracks, Tracks-of_cents, Tracks-quantize}
use mini_qmt.Market.{Name}
use mini_qmt.Trading.Fees.{FeeBreakdown, money, total}
use mini_qmt.Trading.Fees.Exact.{money-add, money-sub}
use mini_qmt.Trading.State.{PortfolioState, PositionLot, Order, check_state, quantity, held}
use mini_qmt.Kernel.Orders.Booking.{
  apply_sell, settle_sale, Consumption, consume_lots, settles_before, stored_before,
}
use mini_qmt.Kernel.Orders.Booking.Lots.{
  IsLot, Consumed, consume_lots-Consumed, held_unsettled, lot_cost,
}

-- What a sale changes: `cost` is the cost of the shares sold.
pub record Sold (s s' : PortfolioState) (o : Order) (sold : ℕ) (cost : ℤ) : Type 0 where
  pub shares : quantity s' o.instrument_id + sold ≡ quantity s o.instrument_id
  pub others : (j : Name) → j ≢ o.instrument_id → quantity s' j ≡ quantity s j
  pub unsettled :
      sum_by (held_unsettled o.instrument_id o.execution_date) s'.lots
      ≡ sum_by (held_unsettled o.instrument_id o.execution_date) s.lots
  pub costs : total_by lot_cost s'.lots +ℤ cost ≡ total_by lot_cost s.lots
  pub cost_nonneg : pos 0 ≤ℤ cost
  pub valid : All IsLot s'.lots

zero_add : (a : ℤ) → pos 0 +ℤ a ≡ a
zero_add a = omega int_laws

module _ (s s' : PortfolioState) (o : Order) (sold : ℕ) where
  -- The sorts before and after the loop change no sum.
  sale_steps :
      (after : List PositionLot) (taken : ℤ)
      → Consumed o.instrument_id o.execution_date
          (sort (settles_before o.instrument_id) s.lots)
          after
          sold
          0
          taken
      → s'.lots ≡ sort stored_before after
      → Sold s s' o sold taken
  unfolding quantity
  sale_steps after taken c stored =
      let first = settles_before o.instrument_id in
      let total_after =
        λ (f : PositionLot → ℕ). ap (sum_by f) stored ∙ sum_by-sort stored_before f after in
      record {
        shares = omega (
          arith,
          c.shares,
          total_after (held o.instrument_id),
          sum_by-sort first (held o.instrument_id) s.lots,
        );
        others = λ j ne. total_after (held j) ∙ c.others j ne ∙ sum_by-sort first (held j) s.lots;
        unsettled =
            total_after (held_unsettled o.instrument_id o.execution_date)
            ∙ c.unsettled
            ∙ sum_by-sort first (held_unsettled o.instrument_id o.execution_date) s.lots;
        costs =
            ap (λ lots. total_by lot_cost lots +ℤ taken) stored
            ∙ ap (λ t. t +ℤ taken) (total_by-sort stored_before lot_cost after)
            ∙ c.costs
            ∙ total_by-sort first lot_cost s.lots;
        cost_nonneg = c.nonneg;
        valid = rw stored (All-sort stored_before IsLot after c.valid);
      }

  -- The loop has sold everything; its lots and its cost are what the sale ends with.
  settle_sale_lem :
      (amount : ℤ) (fees : FeeBreakdown) (cost : ℤ) (r : Consumption)
      → settle_sale s amount fees r ≡ ok (s', cost)
      → (r.remaining ≡ 0)
        × (s'.lots ≡ sort stored_before r.lots)
        × (money r.cost ≡ ok cost)
        × (pos 0 ≤ℤ s'.cash)
        × (s'.realized_pnl ≡ s.realized_pnl)
  unfolding settle_sale check_state
  settle_sale_lem amount fees cost r h = ground arith

  sale_cash :
      (amount : ℤ) (fees : FeeBreakdown) (cost fee_total : ℤ) (r : Consumption)
      → settle_sale s amount fees r ≡ ok (s', cost)
      → total fees ≡ ok fee_total
      → (money (Decimal.sub (Decimal.add (of_cents s.cash) (of_cents amount)) (of_cents fee_total))
          ≡ ok s'.cash)
        × (money (Decimal.add (of_cents s.fees_paid) (of_cents fee_total)) ≡ ok s'.fees_paid)
  unfolding settle_sale check_state
  sale_cash amount fees cost fee_total r h t = ground arith

  -- A sale that succeeds takes exactly the shares sold from the settled lots of the instrument, and
  -- the cost that it reports is the cost that the lots lose.
  pub apply_sell-Sold :
      (amount : ℤ) (fees : FeeBreakdown) (cost : ℤ)
      → All IsLot s.lots
      → apply_sell s o sold amount fees ≡ ok (s', cost)
      → Sold s s' o sold cost
  unfolding apply_sell
  apply_sell-Sold amount fees cost v h =
      let first = sort (settles_before o.instrument_id) s.lots in
      let valid = All-sort (settles_before o.instrument_id) IsLot s.lots v in
      let zero_cost : Tracks (of_cents (pos 0)) (pos 0) = Tracks-of_cents (pos 0) (omega arith) in
      let (r, consumed, rest) =
        >>=-eq-ok (consume_lots o.instrument_id o.execution_date first sold (of_cents (pos 0))) _
          h in
      let (taken, facts, tracked) =
        consume_lots-Consumed o.instrument_id o.execution_date first sold (of_cents (pos 0)) (pos 0)
          valid zero_cost consumed in
      finish r taken facts tracked rest
    where
      finish :
          (r : Consumption) (taken : ℤ)
          → Consumed o.instrument_id o.execution_date
              (sort (settles_before o.instrument_id) s.lots)
              r.lots
              sold
              r.remaining
              taken
          → Tracks r.cost (pos 0 +ℤ taken)
          → settle_sale s amount fees r ≡ ok (s', cost)
          → Sold s s' o sold cost
      finish r taken facts tracked rest =
          let (emptied, stored, known, _, _) = settle_sale_lem amount fees cost r rest in
          let same : cost ≡ taken =
            Tracks-quantize r.cost (pos 0 +ℤ taken) tracked (unfold money in known)
            ∙ zero_add taken in
          rw same (sale_steps r.lots taken (rw emptied at facts) stored)

  -- A sale that succeeds adds the amount to the cash and takes the fees from it, as long as cash
  -- and amount come to less than 10^28 cents.
  pub apply_sell_cash :
      (amount : ℤ) (fees : FeeBreakdown) (cost fee_total : ℤ)
      → magnitude (s.cash +ℤ amount) < limit
      → total fees ≡ ok fee_total
      → apply_sell s o sold amount fees ≡ ok (s', cost)
      → (s'.cash ≡ s.cash +ℤ amount -ℤ fee_total)
        × (pos 0 ≤ℤ s'.cash)
        × (s'.fees_paid ≡ s.fees_paid +ℤ fee_total)
        × (s'.realized_pnl ≡ s.realized_pnl)
  unfolding apply_sell
  apply_sell_cash amount fees cost fee_total small t h =
      let (r, _, rest) =
        >>=-eq-ok
          (consume_lots o.instrument_id o.execution_date
            (sort (settles_before o.instrument_id) s.lots) sold (of_cents (pos 0)))
          _ h in
      finish r rest
    where
      finish :
          (r : Consumption)
          → settle_sale s amount fees r ≡ ok (s', cost)
          → (s'.cash ≡ s.cash +ℤ amount -ℤ fee_total)
            × (pos 0 ≤ℤ s'.cash)
            × (s'.fees_paid ≡ s.fees_paid +ℤ fee_total)
            × (s'.realized_pnl ≡ s.realized_pnl)
      finish r rest =
          let (cash, paid) = sale_cash amount fees cost fee_total r rest t in
          let (_, _, _, solvent, realized) = settle_sale_lem amount fees cost r rest in
          let exact = add_exact s.cash amount small in
          (
            money-sub (s.cash +ℤ amount) fee_total (rw exact at cash),
            solvent,
            money-add s.fees_paid fee_total paid,
            realized,
          )
