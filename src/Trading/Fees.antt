-- ===== src/Trading/Fees.antt =====
-- trading/fees.py: amounts in cents, fee rules and the fee schedule.
pub mod Selection
pub mod Amounts
pub mod Exact
use mini_qmt.Common.{
  ℕ, ◌+◌, ◌≡◌, Bool, true, not, ◌&&◌, ◌||◌, Option, none, some, List, [], ◌∷◌, leb, ltb, ◌==◌,
  if◌then◌else◌, Result, ok, err, ◌>>=◌, ◌>>◌, raise_if, value_error, lookup_error, length, keep_if,
  any, is_empty,
}
use mini_qmt.Common.Int.{ℤ, pos, ltb_ℤ, eqb_ℤ}
use mini_qmt.Decimal
use mini_qmt.Decimal.{Decimal, quantize}
use mini_qmt.Decimal.Exact.{of_cents}
use mini_qmt.Market.{Name, Day}
use Prim.Native.String.{String}
use text.Mathlib.Text.{◌==◌ as str_eq}

-- An amount in cents, rounded half up.
unfoldable pub money : Decimal → Result ℤ
money value = quantize 2 value

pub record FeeRule : Type 0 where
  pub effective_from : Day
  pub effective_to : Option Day
  pub asset_types : List String
  pub exchanges : List String
  pub broker_commission_rate : Decimal
  pub minimum_commission : Decimal
  pub stamp_duty_sell_rate : Decimal
  pub transfer_fee_rate : Decimal
  pub exchange_handling_rate : Decimal
  pub regulatory_levy_rate : Decimal
  pub priority : ℤ
  pub evidence : Name

abbrev pub rule_rates : FeeRule → List Decimal
rule_rates r =
    r.broker_commission_rate ∷ r.minimum_commission ∷ r.stamp_duty_sell_rate ∷ r.transfer_fee_rate
    ∷ r.exchange_handling_rate ∷ r.regulatory_levy_rate ∷ []

abbrev ends_before : Option Day → Day → Bool
ends_before none day = Bool.false
ends_before (some last) day = ltb last day

-- `FeeRule.__post_init__`: what it raises on; the rule itself is kept.
unfoldable pub check_rule : FeeRule → Result FeeRule
check_rule r = do
  raise_if (ends_before r.effective_to r.effective_from) value_error
  raise_if (any (λ rate. Decimal.lt rate (Decimal.of_ℕ 0)) (rule_rates r)) value_error
  ok r

-- `not names or name in names`
abbrev admits : List String → String → Bool
admits [] name = true
admits (n ∷ ns) name = any (λ m. str_eq m name) (n ∷ ns)

unfoldable pub matches : FeeRule → Day → String → String → Bool
matches r day asset_type exchange =
    leb r.effective_from day
    && not (ends_before r.effective_to day)
    && admits r.asset_types asset_type
    && admits r.exchanges exchange

-- The fields hold cents.
pub record FeeBreakdown : Type 0 where
  pub broker_commission : ℤ
  pub stamp_duty : ℤ
  pub transfer_fee : ℤ
  pub exchange_handling : ℤ
  pub regulatory_levy : ℤ

-- `FeeBreakdown.total`
unfoldable pub total : FeeBreakdown → Result ℤ
total f = money (
    Decimal.add
      (Decimal.add
        (Decimal.add (Decimal.add (of_cents f.broker_commission) (of_cents f.stamp_duty))
          (of_cents f.transfer_fee))
        (of_cents f.exchange_handling))
      (of_cents f.regulatory_levy))

-- `verification_note` is the note without surrounding blanks.
pub record FeeSchedule : Type 0 where
  pub schedule_id : Name
  pub version : Name
  pub rules : List FeeRule
  pub trusted_for_simulation : Bool
  pub verification_note : Name

-- `FeeSchedule.__post_init__`
unfoldable pub check_schedule : FeeSchedule → Result FeeSchedule
check_schedule s = do
  raise_if (s.schedule_id == 0 || s.version == 0 || is_empty s.rules) value_error
  raise_if (s.trusted_for_simulation && s.verification_note == 0) value_error
  ok s

-- The greatest priority among a rule and the ones after it.
abbrev pub top_priority : ℤ → List FeeRule → ℤ
top_priority best [] = best
top_priority best (r ∷ rs) = top_priority (if ltb_ℤ best r.priority then r.priority else best) rs

abbrev winners : FeeRule → List FeeRule → List FeeRule
winners r rs =
    let best = top_priority r.priority rs in keep_if (λ c. eqb_ℤ c.priority best) (r ∷ rs)

-- The rule that `calculate` settles on: the candidates, the greatest priority, the winners.
abbrev sole : List FeeRule → Result FeeRule
sole (r ∷ []) = ok r
sole _ = err value_error

abbrev settle : List FeeRule → Result FeeRule
settle [] = err lookup_error
settle (r ∷ rs) = sole (winners r rs)

unfoldable pub select_rule : FeeSchedule → Day → String → String → Result FeeRule
unfolding matches
select_rule s day asset_type exchange =
    settle (keep_if (λ r. matches r day asset_type exchange) s.rules)

pub data Side : Type 0 where
  buy sell : Side

abbrev pub is_sell : Side → Bool
is_sell buy = Bool.false
is_sell sell = true

abbrev pub larger : ℤ → ℤ → ℤ
larger a b = if ltb_ℤ a b then b else a

abbrev stamp_duty_of : Side → Decimal → Decimal → Result ℤ
stamp_duty_of buy rate amount = ok (pos 0)
stamp_duty_of sell rate amount = money (Decimal.mul amount rate)

-- What the selected rule charges.
unfoldable pub charge : FeeRule → Side → Decimal → Result FeeBreakdown
charge r side amount = do
  proportional ← money (Decimal.mul amount r.broker_commission_rate)
  floor_commission ← money r.minimum_commission
  stamp ← stamp_duty_of side r.stamp_duty_sell_rate amount
  transfer ← money (Decimal.mul amount r.transfer_fee_rate)
  handling ← money (Decimal.mul amount r.exchange_handling_rate)
  levy ← money (Decimal.mul amount r.regulatory_levy_rate)
  ok (record {
    broker_commission = larger proportional floor_commission;
    stamp_duty = stamp;
    transfer_fee = transfer;
    exchange_handling = handling;
    regulatory_levy = levy;
  })

unfoldable pub calculate :
    FeeSchedule → Day → String → String → Side → Decimal → Result FeeBreakdown
unfolding select_rule charge
calculate s day asset_type exchange side amount = do
  r ← select_rule s day asset_type exchange
  charge r side amount
