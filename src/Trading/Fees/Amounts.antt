-- ===== src/Trading/Fees/Amounts.antt =====
-- What a rule charges: amounts that are not negative, with a total that is their sum.
use mini_qmt.Common.{◌≡◌, refl, ◌⊎◌, arith, true, ok, >>=-eq-ok, ok-injective, All}
use mini_qmt.Common.Int.{ℤ, pos, ◌+ℤ◌, ◌≤ℤ◌}
use mini_qmt.Decimal
use mini_qmt.Decimal.{Decimal}
use mini_qmt.Decimal.Exact.{of_cents}
use mini_qmt.Decimal.Sums.{
  IsNonneg, mul-IsNonneg, quantize_nonneg, Tracks-of_cents, Tracks-add, Tracks-quantize,
}
use mini_qmt.Market.{Day}
use mini_qmt.Trading.Fees.{
  money, FeeRule, FeeSchedule, FeeBreakdown, Side, buy, sell, larger, stamp_duty_of, charge, total,
  calculate, select_rule, rule_rates, matches,
}
use mini_qmt.Trading.Fees.Selection.{select_rule-top}
use Prim.Native.String.{String}

-- No rate of the rule is negative, as its constructor demands.
abbrev pub IsRule : FeeRule → Type 0
IsRule r = All IsNonneg (rule_rates r)

money_nonneg : (d : Decimal) {r : ℤ} → IsNonneg d → money d ≡ ok r → pos 0 ≤ℤ r
unfolding money
money_nonneg d {r} h e = quantize_nonneg 2 d h e

larger_bounds : (a b : ℤ) → (a ≤ℤ larger a b) × (b ≤ℤ larger a b)
larger_bounds a b = (ground arith, ground arith)

larger_one_of : (a b : ℤ) → (larger a b ≡ a) ⊎ (larger a b ≡ b)
larger_one_of a b = ground arith

nonneg_larger : (a b : ℤ) → pos 0 ≤ℤ a → pos 0 ≤ℤ larger a b
nonneg_larger a b h = let (le, _) = larger_bounds a b in omega arith

-- What a rule charges: the greater of the commission's share and its minimum, the stamp duty of a
-- sale alone, and the share of each other rate, each rounded to cents. None is negative.
pub record Charged (r : FeeRule) (side : Side) (amount : Decimal) (f : FeeBreakdown) : Type 0 where
  pub commission : pos 0 ≤ℤ f.broker_commission
  pub stamp : pos 0 ≤ℤ f.stamp_duty
  pub transfer : pos 0 ≤ℤ f.transfer_fee
  pub handling : pos 0 ≤ℤ f.exchange_handling
  pub levy : pos 0 ≤ℤ f.regulatory_levy
  pub share : ℤ
  pub is_share : money (Decimal.mul amount r.broker_commission_rate) ≡ ok share
  pub least : ℤ
  pub is_least : money r.minimum_commission ≡ ok least
  pub enough : (share ≤ℤ f.broker_commission) × (least ≤ℤ f.broker_commission)
  pub one_of : (f.broker_commission ≡ share) ⊎ (f.broker_commission ≡ least)
  pub sale_duty : side ≡ sell → money (Decimal.mul amount r.stamp_duty_sell_rate) ≡ ok f.stamp_duty
  pub no_duty : side ≡ buy → f.stamp_duty ≡ pos 0
  pub is_transfer : money (Decimal.mul amount r.transfer_fee_rate) ≡ ok f.transfer_fee
  pub is_handling : money (Decimal.mul amount r.exchange_handling_rate) ≡ ok f.exchange_handling
  pub is_levy : money (Decimal.mul amount r.regulatory_levy_rate) ≡ ok f.regulatory_levy

stamp_duty_lem :
    (side : Side) (rate amount : Decimal) {z : ℤ}
    → IsNonneg rate
    → IsNonneg amount
    → stamp_duty_of side rate amount ≡ ok z
    → (pos 0 ≤ℤ z)
      × (side ≡ sell → money (Decimal.mul amount rate) ≡ ok z)
      × (side ≡ buy → z ≡ pos 0)
stamp_duty_lem buy rate amount {z} h k e =
    let same : pos 0 ≡ z = ok-injective e in
    rw (← same) (omega arith, λ sale. absurd (cc sale), λ _. refl)
stamp_duty_lem sell rate amount {z} h k e = (
  money_nonneg (Decimal.mul amount rate) (mul-IsNonneg amount rate k h) e,
  λ _. e,
  λ purchase. absurd (cc purchase),
)

pub charge-Charged :
    (r : FeeRule) (side : Side) (amount : Decimal) {f : FeeBreakdown}
    → IsRule r
    → IsNonneg amount
    → charge r side amount ≡ ok f
    → Charged r side amount f
unfolding charge
charge-Charged r side amount {f} (c, (m, (s, (t, (x, (l, _)))))) k h =
    let (proportional, p, h1) = >>=-eq-ok (money _) _ h in
    let (least, q, h2) = >>=-eq-ok (money _) _ h1 in
    let (stamp, d, h3) = >>=-eq-ok (stamp_duty_of side _ amount) _ h2 in
    let (transfer, u, h4) = >>=-eq-ok (money _) _ h3 in
    let (handling, v, h5) = >>=-eq-ok (money _) _ h4 in
    let (levy, w, done) = >>=-eq-ok (money _) _ h5 in
    let (stamp_ok, sale, purchase) = stamp_duty_lem side r.stamp_duty_sell_rate amount s k d in
    rw (← ok-injective done) (record {
      commission = nonneg_larger proportional least (money_nonneg _ (mul-IsNonneg amount _ k c) p);
      stamp = stamp_ok;
      transfer = money_nonneg _ (mul-IsNonneg amount _ k t) u;
      handling = money_nonneg _ (mul-IsNonneg amount _ k x) v;
      levy = money_nonneg _ (mul-IsNonneg amount _ k l) w;
      share = proportional;
      is_share = p;
      least = least;
      is_least = q;
      enough = larger_bounds proportional least;
      one_of = larger_one_of proportional least;
      sale_duty = sale;
      no_duty = purchase;
      is_transfer = u;
      is_handling = v;
      is_levy = w;
    })

-- The total that is returned is exactly the sum of the five amounts.
pub total_lem :
    (f : FeeBreakdown) {t : ℤ}
    → pos 0 ≤ℤ f.broker_commission
    → pos 0 ≤ℤ f.stamp_duty
    → pos 0 ≤ℤ f.transfer_fee
    → pos 0 ≤ℤ f.exchange_handling
    → pos 0 ≤ℤ f.regulatory_levy
    → total f ≡ ok t
    → t
      ≡ f.broker_commission +ℤ f.stamp_duty +ℤ f.transfer_fee +ℤ f.exchange_handling
        +ℤ f.regulatory_levy
unfolding total money
total_lem f {t} c s u x l h =
    let t1 = Tracks-of_cents f.broker_commission c in
    let t2 = Tracks-add (of_cents f.broker_commission) f.broker_commission f.stamp_duty s t1 in
    let t3 = Tracks-add _ _ f.transfer_fee u t2 in
    let t4 = Tracks-add _ _ f.exchange_handling x t3 in
    let t5 = Tracks-add _ _ f.regulatory_levy l t4 in Tracks-quantize _ _ t5 h

-- The fees of a trade, by a schedule of rules without negative rates and for an amount that is not
-- negative: a matching rule is selected, and they are what it charges, in cents. The commission is the
-- greater of the amount's share and the rule's minimum, a sale alone pays the stamp duty of the amount,
-- the other fees are their rates of the amount, and none is negative.
pub calculate-Charged :
    (s : FeeSchedule) (day : Day) (asset_type exchange : String) (side : Side) (amount : Decimal)
    {f : FeeBreakdown}
    → All IsRule s.rules
    → IsNonneg amount
    → calculate s day asset_type exchange side amount ≡ ok f
    → (r : FeeRule) × (select_rule s day asset_type exchange ≡ ok r)
      × (matches r day asset_type exchange ≡ true)
      × Charged r side amount f
unfolding calculate
calculate-Charged s day asset_type exchange side amount {f} rules k h =
    let (r, selected, charged) = >>=-eq-ok (select_rule s day asset_type exchange) _ h in
    let (matching, valid, _) = select_rule-top s day asset_type exchange IsRule rules selected in
    (r, selected, matching, charge-Charged r side amount valid k charged)
