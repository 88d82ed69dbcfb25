-- ===== src/Kernel/Orders/Sizing/Capacity.antt =====
-- The quantity that `approve` leaves is within the request, and a sale within what is settled.
use mini_qmt.Common.{
  ℕ, ◌≤◌, ◌≡◌, inl, inr, arith, min, Bool, not, ◌&&◌, List, ltb, ◌==◌, ok, >>=-eq-ok, ok-injective,
  Bool-cases, if◌then◌else◌,
}
use mini_qmt.Decimal
use mini_qmt.Decimal.{Decimal}
use mini_qmt.Market.{DailyBar}
use mini_qmt.Trading.Fees.{Side, buy, sell}
use mini_qmt.Trading.Quantity.{round_down_normal_quantity}
use mini_qmt.Trading.Quantity.Normal.{round_down_normal_quantity-le}
use mini_qmt.Trading.State.{ExecutionPolicy, PortfolioState, sellable_quantity, Order, RejectReason}
use mini_qmt.Kernel.Orders.Sizing.{liquidity, limit_by_settlement, all_or_nothing, approve}

-- What a side may take: a purchase any quantity, a sale no more than what is settled.
abbrev pub Settled : Side → ℕ → ℕ → Type 0
Settled buy n sellable = Unit
Settled sell n sellable = n ≤ sellable

pub Settled-le :
    (side : Side) (m n sellable : ℕ) → m ≤ n → Settled side n sellable → Settled side m sellable
Settled-le buy m n sellable h k = tt
Settled-le sell m n sellable h k = omega arith

cut_le :
    (approved sellable : ℕ)
    → (if ltb sellable approved then sellable else approved) ≤ min approved sellable
cut_le approved sellable = ground arith

limit_by_settlement_lem :
    (side : Side) (approved requested sellable : ℕ) (bar : DailyBar) (full : Bool)
    (reasons : List RejectReason) {r : ℕ × List RejectReason}
    → limit_by_settlement side approved requested sellable bar full reasons ≡ ok r
    → (r.0 ≤ approved) × Settled side r.0 sellable
unfolding limit_by_settlement
limit_by_settlement_lem buy approved requested sellable bar full reasons {r} h =
    rw (← ok-injective h) (omega arith, tt)
limit_by_settlement_lem sell approved requested sellable bar full reasons {r} h =
    let settled = if ltb sellable approved then sellable else approved in
    let bound : settled ≤ min approved sellable = cut_le approved sellable in
    elim (Bool-cases (full && settled == requested)) [
      | inl whole ↦ let e = ok-injective (rw whole at h) in rw (← e) (omega arith, omega arith)
      | inr part ↦
          let (normal, rounded, done) =
            >>=-eq-ok
              (round_down_normal_quantity (Decimal.of_ℕ settled) bar.buy_lot bar.quantity_step) _
              (rw part at h) in
          let less : normal ≤ settled =
            round_down_normal_quantity-le settled bar.buy_lot bar.quantity_step normal rounded in
          rw (← ok-injective done) (omega arith, omega arith)
    ]

all_or_nothing-le :
    (allow : Bool) (requested : ℕ) (r : ℕ × List RejectReason)
    → (all_or_nothing allow requested r).0 ≤ r.0
unfolding all_or_nothing
all_or_nothing-le allow requested (approved, reasons) =
    elim (Bool-cases (not allow && ltb approved requested)) [
      | inl refused ↦ rw refused (omega arith)
      | inr taken ↦ rw taken (omega arith)
    ]

-- What is approved is within the request, and for a sale within the settled shares.
pub approve-Settled :
    (policy : ExecutionPolicy) (s : PortfolioState) (o : Order) (bar : DailyBar) (full : Bool)
    {r : ℕ × List RejectReason}
    → approve policy s o bar full ≡ ok r
    → (r.0 ≤ o.remaining_quantity)
      × Settled o.side r.0 (sellable_quantity s o.instrument_id o.execution_date)
unfolding approve
approve-Settled policy s o bar full {r} h =
    let sellable = sellable_quantity s o.instrument_id o.execution_date in
    let (capacity, _, h1) = >>=-eq-ok (liquidity policy bar o.remaining_quantity full) _ h in
    let (cut, limited, done) =
      >>=-eq-ok
        (limit_by_settlement o.side (min o.remaining_quantity capacity) o.remaining_quantity
          sellable bar full _)
        _ h1 in
    let (within, settled) =
      limit_by_settlement_lem o.side (min o.remaining_quantity capacity) o.remaining_quantity
        sellable bar full _ limited in
    let less = all_or_nothing-le policy.allow_partial_fills o.remaining_quantity cut in
    rw (← ok-injective done)
      (shorter cut.0 capacity _ less within, Settled-le o.side _ cut.0 sellable less settled)
  where
    shorter :
        (n capacity m : ℕ)
        → m ≤ n
        → n ≤ min o.remaining_quantity capacity
        → m ≤ o.remaining_quantity
    shorter n capacity m h k = omega arith
