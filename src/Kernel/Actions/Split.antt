-- ===== src/Kernel/Actions/Split.antt =====
-- trading/kernel.py: a split or consolidation, applied on its ex-date.
pub mod Costs
use mini_qmt.Common.{
  ℕ, zero, suc, ◌+◌, ◌-◌, Bool, true, false, ◌&&◌, ◌||◌, not, Option, none, some, List, [], ◌∷◌,
  ◌++◌, map, ltb, ◌==◌, if◌then◌else◌, Result, ok, err, ◌>>=◌, length, keep_if, any, sum_by,
}
use mini_qmt.Common.Int.{ℤ, pos, negsuc, pos_part, ◌-ℤ◌}
use mini_qmt.Common.Sorting.{sort}
use mini_qmt.Decimal
use mini_qmt.Decimal.{Decimal}
use mini_qmt.Decimal.Exact.{of_cents}
use mini_qmt.Market.{Name, Day, CorporateAction}
use mini_qmt.Trading.Fees.{money}
use mini_qmt.Trading.State.{
  PortfolioState, check_state, quantity, PositionLot, check_lot, Entitlement, is_of, held,
  split_applied, split_done, missing_entitlement, invalid_split_multiplier,
  split_entitlement_position_mismatch, fractional_split_unmodeled,
}
use mini_qmt.Kernel.Setup.{action_event}
use mini_qmt.Kernel.Actions.Common.{Outcome, entitlement_of, without_entitlement, mark, sum_costs}

-- A lot with its place in the order, its exact quantity after the split, and the whole one.
pub record Share : Type 0 where
  pub place : ℕ
  pub lot : PositionLot
  pub exact : Decimal
  pub quantity : ℕ

abbrev lex : Bool → Bool → Bool → Bool
lex before same rest = before || same && rest

abbrev pub lot_before : PositionLot → PositionLot → Bool
lot_before a b =
    lex (ltb a.sellable_on b.sellable_on) (a.sellable_on == b.sellable_on) (
      lex (ltb a.acquired_on b.acquired_on) (a.acquired_on == b.acquired_on)
        (ltb a.lot_id b.lot_id))

-- The lots' shares, rounded down one by one.
unfoldable pub floor_shares : Decimal → ℕ → List PositionLot → List Share
floor_shares multiplier place [] = []
floor_shares multiplier place (lot ∷ lots) =
    let exact = Decimal.mul (Decimal.of_ℕ lot.quantity) multiplier in
    record { place = place; lot = lot; exact = exact; quantity = pos_part (Decimal.floor exact) }
    ∷ floor_shares multiplier (suc place) lots

abbrev fraction : Share → Decimal
fraction s = Decimal.sub s.exact (Decimal.of_ℕ s.quantity)

-- The greater fraction first, then the identifier of the lot.
abbrev pub ranks_before : Share → Share → Bool
ranks_before a b =
    lex (Decimal.lt (fraction b) (fraction a)) (Decimal.eq (fraction a) (fraction b))
      (ltb a.lot.lot_id b.lot.lot_id)

abbrev pub first_places : ℕ → List Share → List ℕ
first_places zero shares = []
first_places (suc n) [] = []
first_places (suc n) (s ∷ shares) = s.place ∷ first_places n shares

-- `ranking[:remainder]`; a negative bound counts from the end.
abbrev pub chosen_places : ℤ → List Share → List ℕ
chosen_places (pos n) ranking = first_places n ranking
chosen_places (negsuc n) ranking = first_places (length ranking - suc n) ranking

abbrev pub add_one : List ℕ → Share → Share
add_one chosen s =
    if any (λ p. p == s.place) chosen then record s { quantity = s.quantity + 1 } else s

abbrev pub share_quantity : Share → ℕ
share_quantity s = s.quantity

-- The shares left over by rounding down go to the greatest fractions, one each.
unfoldable pub distribute : ℕ → List Share → List Share
distribute target shares =
    let remainder = pos target -ℤ pos (sum_by share_quantity shares) in
    map (add_one (chosen_places remainder (sort ranks_before shares))) shares

-- The cost of a lot that is not the last: its part by quantity.
abbrev pub part_cost : ℤ → ℕ → ℕ → Result ℤ
part_cost total_cost quantity target =
    if target == 0
    then ok (pos 0)
    else (Decimal.div (Decimal.mul (of_cents total_cost) (Decimal.of_ℕ quantity))
          (Decimal.of_ℕ target)
        >>= money)

-- What is allocated grows only where the target is not zero.
abbrev pub allocate : ℕ → ℤ → ℤ → Result ℤ
allocate target allocated cost =
    if target == 0 then ok allocated else money (Decimal.add (of_cents allocated) (of_cents cost))

-- The loop over the positive quantities: the last lot takes the rest of the cost.
unfoldable pub replace_lots : ℤ → ℕ → ℤ → List Share → Result (List PositionLot)
replace_lots total_cost target allocated [] = ok []
replace_lots total_cost target allocated (s ∷ []) = do
  cost ← money (Decimal.sub (of_cents total_cost) (of_cents allocated))
  lot ← check_lot (record s.lot { quantity = s.quantity; cost_amount = cost })
  ok (lot ∷ [])
replace_lots total_cost target allocated (s ∷ s' ∷ shares) = do
  cost ← part_cost total_cost s.quantity target
  allocated' ← allocate target allocated cost
  lot ← check_lot (record s.lot { quantity = s.quantity; cost_amount = cost })
  lots ← replace_lots total_cost target allocated' (s' ∷ shares)
  ok (lot ∷ lots)

abbrev pub is_positive : Share → Bool
is_positive s = not (s.quantity == 0)

abbrev is_none : Option Entitlement → Bool
is_none none = true
is_none (some e) = false

abbrev pub lots_of : Name → PortfolioState → List PositionLot
lots_of instrument_id state = keep_if (is_of instrument_id) state.lots

abbrev pub lot_quantity : PositionLot → ℕ
lot_quantity l = l.quantity

abbrev pub mark_split_fraction : Bool → PortfolioState → CorporateAction → Day → Result Outcome
mark_split_fraction true state action day = ok (state, [])
mark_split_fraction false state action day = mark state day fractional_split_unmodeled action

-- The new lots of the instrument, and the cost that they carry.
unfoldable pub split_lots : Decimal → ℕ → List PositionLot → Result (List PositionLot × ℤ)
unfolding floor_shares distribute replace_lots
split_lots multiplier target lots = do
  let ordered = sort lot_before lots
  let shares = distribute target (floor_shares multiplier 0 ordered)
  total_cost ← money (sum_costs (Decimal.of_ℕ 0) ordered)
  replacements ← replace_lots total_cost target (pos 0) (keep_if is_positive shares)
  ok (replacements, total_cost)

-- The split of a position that matches its entitlement.
unfoldable pub split_position :
    PortfolioState → CorporateAction → Day → Option Entitlement → Decimal → Result Outcome
unfolding split_lots
split_position state action day entitlement multiplier = do
  let lots = lots_of action.instrument_id state
  let existing = sum_by lot_quantity lots
  let exact_total = Decimal.mul (Decimal.of_ℕ existing) multiplier
  let target = pos_part (Decimal.floor exact_total)
  (replacements, total_cost) ← split_lots multiplier target lots
  let untouched = keep_if (λ l. not (is_of action.instrument_id l)) state.lots
  current ← check_state (record state {
    lots = untouched ++ replacements;
    entitlements = without_entitlement action.action_id state.entitlements;
  })
  event ←
      action_event day split_applied action
        (split_done existing target multiplier total_cost (is_none entitlement))
  (final, marked) ←
      mark_split_fraction (Decimal.eq exact_total (Decimal.of_ℕ target)) current action day
  ok (final, event ∷ marked)

abbrev pub split_entitled : PortfolioState → CorporateAction → Option Entitlement → ℕ
split_entitled state action none = sum_by lot_quantity (lots_of action.instrument_id state)
split_entitled state action (some e) = e.quantity

-- From the check of the multiplier on.
unfoldable pub split_by_multiplier :
    PortfolioState → CorporateAction → Day → Option Entitlement → Option Decimal → Result Outcome
unfolding split_position
split_by_multiplier state action day entitlement none =
    mark state day invalid_split_multiplier action
split_by_multiplier state action day entitlement (some multiplier) =
    let existing = sum_by lot_quantity (lots_of action.instrument_id state) in
    if Decimal.le multiplier (Decimal.of_ℕ 0)
    then mark state day invalid_split_multiplier action
    else if not (existing == split_entitled state action entitlement)
    then mark state day split_entitlement_position_mismatch action
    else split_position state action day entitlement multiplier

-- `action.record_date == action.ex_date`
abbrev pub is_same_session : CorporateAction → Bool
is_same_session action = elim action.record_date [ none ↦ false | some d ↦ d == action.ex_date ]

abbrev pub split_by : PortfolioState → CorporateAction → Day → Option Entitlement → Result Outcome
split_by state action day none =
    if quantity state action.instrument_id == 0
    then ok (state, [])
    else if not (is_same_session action)
    then mark state day missing_entitlement action
    else split_by_multiplier state action day none action.quantity_multiplier
split_by state action day (some e) =
    split_by_multiplier state action day (some e) action.quantity_multiplier

-- `_apply_split`
unfoldable pub apply_split : PortfolioState → CorporateAction → Day → Result Outcome
unfolding split_by_multiplier
apply_split state action day =
    split_by state action day (entitlement_of action.action_id state.entitlements)
