-- ===== src/Kernel/Actions/Common.antt =====
-- trading/kernel.py: what the handlers of corporate actions share.
use mini_qmt.Common.{Option, List, ◌==◌, not, Result, find, keep_if, [], ◌∷◌}
use mini_qmt.Decimal
use mini_qmt.Decimal.{Decimal}
use mini_qmt.Decimal.Exact.{of_cents}
use mini_qmt.Market.{Name, Day, CorporateAction}
use mini_qmt.Trading.State.{PortfolioState, PositionLot, Entitlement, LedgerEvent, ReasonKind}
use mini_qmt.Kernel.Setup.{mark_incomplete}

-- A handler's state and events.
abbrev pub Outcome : Type 0
Outcome = PortfolioState × List LedgerEvent

-- `next((item for item in entitlements if item.action_id == action_id), None)`
abbrev pub entitlement_of : Name → List Entitlement → Option Entitlement
entitlement_of action_id es = find (λ (e : Entitlement). e.action_id == action_id) es

-- `tuple(item for item in entitlements if item.action_id != action_id)`
abbrev pub without_entitlement : Name → List Entitlement → List Entitlement
without_entitlement action_id es = keep_if (λ (e : Entitlement). not (e.action_id == action_id)) es

-- The reason `kind:action_id`, with the action as the entity.
abbrev pub mark : PortfolioState → Day → ReasonKind → CorporateAction → Result Outcome
mark state day kind action =
    mark_incomplete state day (record { kind = kind; subject = action.action_id }) action.action_id

-- `sum((lot.cost_amount for lot in lots), acc)`
unfoldable pub sum_costs : Decimal → List PositionLot → Decimal
sum_costs acc [] = acc
sum_costs acc (lot ∷ lots) = sum_costs (Decimal.add acc (of_cents lot.cost_amount)) lots
