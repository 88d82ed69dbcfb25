-- ===== src/Kernel/Orders/Sizing.antt =====
-- trading/kernel.py: how many shares of an order can be filled, by liquidity, by settlement and by
-- cash.
pub mod Affordable
pub mod Capacity
use mini_qmt.Common.{
  ℕ, zero, suc, ◌+◌, ◌-◌, ◌*◌, ◌/◌, min, max, Bool, true, false, ◌&&◌, not, List, [], ◌∷◌, ◌++◌,
  ltb, ◌==◌, if◌then◌else◌, Result, ok, err, ◌>>=◌, arithmetic_error,
}
use mini_qmt.Decimal
use mini_qmt.Decimal.{Decimal}
use mini_qmt.Decimal.Exact.{of_cents}
use mini_qmt.Market.{Day, Instrument, DailyBar, asset_value}
use mini_qmt.Trading.Fees.{Side, buy, sell, FeeSchedule, money, total, calculate}
use mini_qmt.Trading.Quantity.{round_down_normal_quantity}
use mini_qmt.Trading.Pricing.{fill_price}
use mini_qmt.Trading.State.{
  ExecutionPolicy, PortfolioState, sellable_quantity, Order, RejectReason, liquidity_capacity,
  t_plus_sellable_capacity, partial_fills_disabled,
}

-- `amount + fees.total <= cash` for a purchase of `quantity` shares.
unfoldable pub affords :
    ExecutionPolicy → FeeSchedule → Decimal → Instrument → DailyBar → Day → ℕ → Result Bool
affords policy schedule cash instrument bar day quantity = do
  price ← fill_price policy buy quantity bar
  amount ← money (Decimal.mul price (Decimal.of_ℕ quantity))
  fees ←
      calculate schedule day (asset_value instrument.asset_type) instrument.exchange buy
        (of_cents amount)
  fee_total ← total fees
  ok (Decimal.le (Decimal.add (of_cents amount) (of_cents fee_total)) cash)

-- The quantity of a slot: slot one is the minimum declaration, each later slot one step more.
abbrev pub slot_quantity : ℕ → ℕ → ℕ → ℕ
slot_quantity minimum step slot = minimum + (slot - 1) * step

-- The `while low < high` loop, on fuel; `test` says whether a slot is affordable.
unfoldable pub search_slot : ℕ → (ℕ → Result Bool) → ℕ → ℕ → Result ℕ
search_slot zero test low high = ok low
search_slot (suc fuel) test low high =
    let middle = (low + high + 1) / 2 in
    elim (ltb low high) [
      | true ↦
          (test middle >>= λ fits.
          search_slot fuel test (if fits then middle else low) (if fits then high else middle - 1))
      | false ↦ ok low
    ]

-- `_affordable_buy_quantity`; a step of zero raises. One round of fuel for each slot is enough.
unfoldable pub affordable_buy_quantity :
    ExecutionPolicy → FeeSchedule → Decimal → ℕ → Instrument → DailyBar → Day → Result ℕ
affordable_buy_quantity policy schedule cash maximum instrument bar day =
    let test = λ (slot : ℕ).
      affords policy schedule cash instrument bar day
        (slot_quantity bar.buy_lot bar.quantity_step slot) in
    let slots = 1 + (maximum - bar.buy_lot) / bar.quantity_step in
    if ltb maximum bar.buy_lot
    then ok 0
    else if bar.quantity_step == 0
    then err arithmetic_error
    else (search_slot slots test 0 slots >>= λ slot.
        ok (if slot == 0 then 0 else slot_quantity bar.buy_lot bar.quantity_step slot))

-- The number of shares that the bar's volume leaves for the order.
unfoldable pub liquidity : ExecutionPolicy → DailyBar → ℕ → Bool → Result ℕ
liquidity policy bar requested full = do
  let raw_capacity = Decimal.mul bar.volume policy.maximum_participation
  capacity ← round_down_normal_quantity raw_capacity bar.buy_lot bar.quantity_step
  ok (
      if full && Decimal.le (Decimal.of_ℕ requested) raw_capacity
      then max capacity requested
      else capacity)

-- A sale is cut to what is settled, and to a normal quantity unless it closes the position.
unfoldable pub limit_by_settlement :
    Side → ℕ → ℕ → ℕ → DailyBar → Bool → List RejectReason → Result (ℕ × List RejectReason)
limit_by_settlement buy approved requested sellable bar full reasons = ok (approved, reasons)
limit_by_settlement sell approved requested sellable bar full reasons = do
  let over = ltb sellable approved
  let settled = if over then sellable else approved
  let reasons' = if over then reasons ++ t_plus_sellable_capacity ∷ [] else reasons
  if full && settled == requested
      then ok (settled, reasons')
      else (round_down_normal_quantity (Decimal.of_ℕ settled) bar.buy_lot bar.quantity_step
          >>= λ normal. ok (normal, reasons'))

-- Without partial fills an order that cannot be filled whole is not filled.
unfoldable pub all_or_nothing : Bool → ℕ → ℕ × List RejectReason → ℕ × List RejectReason
all_or_nothing allow_partial requested (approved, reasons) =
    if not allow_partial && ltb approved requested
    then (0, reasons ++ partial_fills_disabled ∷ [])
    else (approved, reasons)

-- The quantity before the cash is looked at, and the reasons for which it is less than requested.
unfoldable pub approve :
    ExecutionPolicy → PortfolioState → Order → DailyBar → Bool → Result (ℕ × List RejectReason)
unfolding liquidity limit_by_settlement all_or_nothing
approve policy state o bar full = do
  let requested = o.remaining_quantity
  let sellable = sellable_quantity state o.instrument_id o.execution_date
  capacity ← liquidity policy bar requested full
  let approved = min requested capacity
  let reasons = if ltb approved requested then liquidity_capacity ∷ [] else []
  settled ← limit_by_settlement o.side approved requested sellable bar full reasons
  ok (all_or_nothing policy.allow_partial_fills requested settled)
