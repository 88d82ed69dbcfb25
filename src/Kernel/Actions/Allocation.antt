-- ===== src/Kernel/Actions/Allocation.antt =====
-- trading/kernel.py: on the ex-date of a share distribution part of the cost of the held lots is
-- set aside for the new shares.
pub mod Conserved
pub mod Divided
use mini_qmt.Common.{
  ℕ, zero, suc, ◌+◌, Bool, true, false, not, Option, none, some, List, [], ◌∷◌, ◌==◌, if◌then◌else◌,
  Result, ok, err, ◌>>=◌, or_raise, value_error, type_error, length, sum_by,
}
use mini_qmt.Common.Int.{ℤ, pos, negsuc, ◌+ℤ◌, eqb_ℤ}
use mini_qmt.Decimal
use mini_qmt.Decimal.{Decimal}
use mini_qmt.Decimal.Exact.{of_cents}
use mini_qmt.Market.{Name, Day, CorporateAction}
use mini_qmt.Trading.Fees.{money}
use mini_qmt.Trading.State.{
  PortfolioState, check_state, quantity, PositionLot, check_lot, Entitlement, check_entitlement,
  is_of, share_cost_basis_adjusted, cost_adjusted, missing_entitlement,
  share_entitlement_position_mismatch,
}
use mini_qmt.Kernel.Setup.{action_event}
use mini_qmt.Kernel.Actions.Common.{Outcome, entitlement_of, mark, sum_costs}
use mini_qmt.Kernel.Actions.Split.{lots_of, lot_quantity}

-- The cost that stays with the held shares, and the cost of the new ones.
unfoldable pub divide_cost : ℤ → ℕ → ℤ → Result (ℤ × ℤ)
divide_cost total_cost existing new_quantity =
    let all = pos existing +ℤ new_quantity in
    if eqb_ℤ all (pos 0) then ok (total_cost, pos 0) else do
      part ←
          Decimal.div (Decimal.mul (of_cents total_cost) (Decimal.of_ℕ existing)) (Decimal.of_ℤ all)
      old_cost ← money part
      new_cost ← money (Decimal.sub (of_cents total_cost) (of_cents old_cost))
      ok (old_cost, new_cost)

-- The part of the remaining cost that a lot keeps, and what is assigned so far. The last of the
-- instrument's lots takes the rest.
unfoldable pub keep_cost : ℤ → ℤ → Bool → ℤ → PositionLot → Result (ℤ × ℤ)
keep_cost total_cost old_cost true assigned lot = do
  allocated ← money (Decimal.sub (of_cents old_cost) (of_cents assigned))
  ok (allocated, assigned)
keep_cost total_cost old_cost false assigned lot =
    if eqb_ℤ total_cost (pos 0) then ok (pos 0, assigned) else do
      part ←
          Decimal.div (Decimal.mul (of_cents old_cost) (of_cents lot.cost_amount))
            (of_cents total_cost)
      allocated ← money part
      assigned' ← money (Decimal.add (of_cents assigned) (of_cents allocated))
      ok (allocated, assigned')

-- The loop over `state.lots`; `seen` counts the lots of the instrument met so far.
unfoldable pub adjust_lots : Name → ℤ → ℤ → ℕ → ℕ → ℤ → List PositionLot → Result (List PositionLot)
unfolding keep_cost
adjust_lots instrument_id total_cost old_cost count seen assigned [] = ok []
adjust_lots instrument_id total_cost old_cost count seen assigned (lot ∷ lots) =
    elim (is_of instrument_id lot) [
      | false ↦
          (adjust_lots instrument_id total_cost old_cost count seen assigned lots >>= λ rest.
          ok (lot ∷ rest))
      | true ↦
          (keep_cost total_cost old_cost (suc seen == count) assigned lot >>= λ step.
          check_lot (record lot { cost_amount = step.0 }) >>= λ adjusted.
          adjust_lots instrument_id total_cost old_cost count (suc seen) step.1 lots >>= λ rest.
          ok (adjusted ∷ rest))
    ]

-- A quantity of new shares; a negative one is refused by the entitlement's constructor.
abbrev pub natural : ℤ → Result ℕ
natural (pos n) = ok n
natural (negsuc n) = err value_error

abbrev pub substitute : Name → Entitlement → List Entitlement → List Entitlement
substitute action_id e [] = []
substitute action_id e (x ∷ xs) =
    (if x.action_id == action_id then e else x) ∷ substitute action_id e xs

-- The allocation for a position that matches its entitlement.
unfoldable pub allocate_cost : PortfolioState → CorporateAction → Day → Entitlement → Result Outcome
unfolding divide_cost adjust_lots
allocate_cost state action day entitlement = do
  let lots = lots_of action.instrument_id state
  let existing = sum_by lot_quantity lots
  ratio ← or_raise action.share_ratio type_error
  let new_quantity = Decimal.floor (Decimal.mul (Decimal.of_ℕ entitlement.quantity) ratio)
  total_cost ← money (sum_costs (Decimal.of_ℕ 0) lots)
  (old_cost, new_cost) ← divide_cost total_cost existing new_quantity
  adjusted ← adjust_lots action.instrument_id total_cost old_cost (length lots) 0 (pos 0) state.lots
  distributed ← natural new_quantity
  updated ← check_entitlement (record entitlement {
    distributed_quantity = distributed;
    allocated_cost = new_cost;
    adjusted_on = some day;
  })
  current ← check_state (record state {
    lots = adjusted;
    entitlements = substitute action.action_id updated state.entitlements;
  })
  event ←
      action_event day share_cost_basis_adjusted action
        (cost_adjusted entitlement.quantity distributed old_cost new_cost total_cost)
  ok (current, event ∷ [])

abbrev pub allocate_unadjusted :
    Option Day → PortfolioState → CorporateAction → Day → Entitlement → Result Outcome
allocate_unadjusted (some d) state action day entitlement = ok (state, [])
allocate_unadjusted none state action day entitlement =
    if sum_by lot_quantity (lots_of action.instrument_id state) == entitlement.quantity
    then allocate_cost state action day entitlement
    else mark state day share_entitlement_position_mismatch action

abbrev pub allocate_by :
    Option Entitlement → PortfolioState → CorporateAction → Day → Result Outcome
allocate_by none state action day =
    if quantity state action.instrument_id == 0
    then ok (state, [])
    else mark state day missing_entitlement action
allocate_by (some entitlement) state action day =
    allocate_unadjusted entitlement.adjusted_on state action day entitlement

-- `_allocate_share_action_cost`
unfoldable pub allocate_share_action_cost : PortfolioState → CorporateAction → Day → Result Outcome
unfolding allocate_cost
allocate_share_action_cost state action day =
    allocate_by (entitlement_of action.action_id state.entitlements) state action day
