-- ===== src/Kernel/Tests/Amounts.antt =====
-- Examples of the theorems on quantities, fees, risk and the costs of corporate actions.
use mini_qmt.Common.{ℕ, ◌≡◌, ◌≤◌, ◌<◌, arith, true, [], ◌∷◌, ok, All, keep_if, ◌⊎◌}
use mini_qmt.Common.Int.{pos, ◌+ℤ◌, ◌-ℤ◌, leb_ℤ, pos_part}
use mini_qmt.Decimal
use mini_qmt.Decimal.{Decimal, of_ℕ}
use mini_qmt.Decimal.Exact.{of_cents}
use mini_qmt.Trading.Fees.{FeeRule, matches, select_rule, calculate, total, sell}
use mini_qmt.Trading.Fees.Amounts.{IsRule, Charged, calculate-Charged, total_lem}
use mini_qmt.Trading.Fees.Selection.{select_rule-top}
use mini_qmt.Trading.Intent.{assess_intent, sum_weights, investable}
use mini_qmt.Trading.Intent.Limits.{Keeps, assess_intent-Keeps}
use mini_qmt.Trading.Quantity.Normal.{
  IsNormal, round_down_normal_quantity_lem, normalize_sell_declaration_lem,
}
use mini_qmt.Kernel.Actions.Split.{replace_lots}
use mini_qmt.Kernel.Actions.Split.Costs.{Replaced, replace_lots-Replaced}
use mini_qmt.Kernel.Actions.Allocation.{adjust_lots}
use mini_qmt.Kernel.Actions.Allocation.Conserved.{Adjusted, adjust_lots-Adjusted}
use mini_qmt.Kernel.Actions.Allocation.Divided.{Divided, divide_cost-Divided}
use mini_qmt.Kernel.Tests.{
  value_of, returns, fee_schedule, fees, kernel, risk_policy, intent, lots, shares,
}
use mini_qmt.Kernel.Tests.Runs.{
  calculate-returns, select_rule-returns, total-returns, split-returns, adjust-returns,
  accepted_intent, rounded-returns, odd_sale-returns,
}

rules-IsRule : All IsRule fee_schedule.rules
rules-IsRule = ground arith

round_down_normal_quantity_lem_example :
    let q : ℕ = 700 in
    (q ≡ 0)
    ⊎ (IsNormal q 100 100 × (q ≤ pos_part (Decimal.floor (of_ℕ 750))) × (0 < 100) × (0 < 100))
round_down_normal_quantity_lem_example =
    round_down_normal_quantity_lem (of_ℕ 750) 100 100 700 rounded-returns

normalize_sell_declaration_lem_example :
    let q : ℕ = 150 in (q ≤ 150) × ((q ≡ 0) ⊎ ((q ≡ 150) × (true ≡ true)) ⊎ IsNormal q 100 100)
normalize_sell_declaration_lem_example =
    normalize_sell_declaration_lem 150 150 100 100 150 true odd_sale-returns

select_rule-top_example :
    let r = value_of (select_rule fee_schedule 11 "stock" "SSE") select_rule-returns in
    (matches r 11 "stock" "SSE" ≡ true)
    × IsRule r
    × (keep_if
          (λ (c : FeeRule). leb_ℤ r.priority c.priority)
          (keep_if (λ c. matches c 11 "stock" "SSE") fee_schedule.rules)
        ≡ r ∷ [])
select_rule-top_example =
    select_rule-top fee_schedule 11 "stock" "SSE" IsRule rules-IsRule
      (returns (select_rule fee_schedule 11 "stock" "SSE") select_rule-returns)

calculate-Charged_example :
    (r : FeeRule) × (select_rule fee_schedule 11 "stock" "SSE" ≡ ok r)
    × (matches r 11 "stock" "SSE" ≡ true)
    × Charged r sell (of_cents (pos 199800)) (
        value_of
          (calculate fee_schedule 11 "stock" "SSE" sell (of_cents (pos 199800)))
          calculate-returns)
calculate-Charged_example =
    calculate-Charged fee_schedule 11 "stock" "SSE" sell (of_cents (pos 199800)) rules-IsRule
      (omega arith)
      (returns (calculate fee_schedule 11 "stock" "SSE" sell (of_cents (pos 199800)))
        calculate-returns)

total_lem_example :
    value_of (total fees) total-returns ≡ pos 599 +ℤ pos 200 +ℤ pos 0 +ℤ pos 0 +ℤ pos 0
total_lem_example =
    total_lem fees (omega arith) (omega arith) (omega arith) (omega arith) (omega arith)
      (returns (total fees) total-returns)

assess_intent-Keeps_example :
    let a = assess_intent intent kernel.instruments risk_policy in
    All (Keeps kernel.instruments risk_policy) a.approved_weights
    × (Decimal.le (sum_weights (of_ℕ 0) a.approved_weights) (investable risk_policy) ≡ true)
assess_intent-Keeps_example =
    assess_intent-Keeps kernel.instruments risk_policy intent accepted_intent

replace_lots-Replaced_example :
    Replaced
      (pos 390000 -ℤ pos 0)
      shares
      (value_of (replace_lots (pos 390000) 200 (pos 0) shares) split-returns)
replace_lots-Replaced_example =
    replace_lots-Replaced (pos 390000) 200 (pos 0) _ _
      (returns (replace_lots (pos 390000) 200 (pos 0) shares) split-returns)

divide_cost-Divided_example : Divided 390000 400 120
divide_cost-Divided_example =
    divide_cost-Divided 390000 400 120 (omega arith) (omega arith) (omega arith)

adjust_lots-Adjusted_example :
    Adjusted 7
      (pos 390000)
      (pos 300000)
      2
      (pos 300000)
      lots
      (value_of (adjust_lots 7 (pos 390000) (pos 300000) 2 0 (pos 0) lots) adjust-returns)
adjust_lots-Adjusted_example =
    adjust_lots-Adjusted 7 (pos 390000) (pos 300000) lots (omega arith)
      (returns (adjust_lots 7 (pos 390000) (pos 300000) 2 0 (pos 0) lots) adjust-returns)
