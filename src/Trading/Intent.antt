-- ===== src/Trading/Intent.antt =====
-- trading/intent.py: portfolio intents, the risk policy and the risk assessment.
pub mod Limits
pub mod Create
use mini_qmt.Common.{
  ℕ, zero, suc, ◌≡◌, Bool, true, false, not, ◌&&◌, ◌||◌, Option, none, some, List, [], ◌∷◌, ◌++◌,
  ltb, ◌==◌, if◌then◌else◌, Result, ok, err, ◌>>=◌, ◌>>◌, raise_if, value_error, any,
}
use mini_qmt.Common.Dict.{Dict, get, put}
use mini_qmt.Common.Sorting.{sort}
use mini_qmt.Decimal
use mini_qmt.Decimal.{Decimal}
use mini_qmt.Market.{Name, Day, Instrument, asset_value}
use Prim.Native.String.{String}
use text.Mathlib.Text.{◌==◌ as str_eq}

-- `metadata` is carried along and never read.
pub record PortfolioIntent : Type 0 where
  pub intent_id : Name
  pub account_id : Name
  pub decision_date : Day
  pub snapshot_id : Name
  pub strategy_id : Name
  pub strategy_version : Name
  pub strategy_config_hash : Name
  pub observation_hash : Name
  pub target_weights : Dict Decimal
  pub reason : Name
  pub metadata : Name

abbrev pub by_key : ℕ × Decimal → ℕ × Decimal → Bool
by_key (a, _) (b, _) = ltb a b

abbrev pub intent_identity : PortfolioIntent → List Name
intent_identity i =
    i.intent_id ∷ i.account_id ∷ i.snapshot_id ∷ i.strategy_id ∷ i.strategy_version
    ∷ i.strategy_config_hash ∷ i.observation_hash ∷ i.reason ∷ []

-- `PortfolioIntent.__post_init__`: the checks, and the weights in the order of their symbols.
unfoldable pub check_intent : PortfolioIntent → Result PortfolioIntent
check_intent i = do
  raise_if (any (λ n. n == 0) (intent_identity i)) value_error
  raise_if (any (λ (e : ℕ × Decimal). e.0 == 0) i.target_weights) value_error
  raise_if (any (λ (e : ℕ × Decimal). Decimal.lt e.1 (Decimal.of_ℕ 0)) i.target_weights) value_error
  ok (record i { target_weights = sort by_key i.target_weights })

pub record RiskPolicy : Type 0 where
  pub policy_id : Name
  pub version : Name
  pub max_position_weight : Decimal
  pub minimum_cash_weight : Decimal
  pub allowed_asset_types : List String

-- `RiskPolicy.__post_init__`
unfoldable pub check_risk_policy : RiskPolicy → Result RiskPolicy
check_risk_policy p = do
  raise_if (p.policy_id == 0 || p.version == 0) value_error
  raise_if
      (not (
        Decimal.lt (Decimal.of_ℕ 0) p.max_position_weight
        && Decimal.le p.max_position_weight (Decimal.of_ℕ 1)))
      value_error
  raise_if
      (not (
        Decimal.le (Decimal.of_ℕ 0) p.minimum_cash_weight
        && Decimal.lt p.minimum_cash_weight (Decimal.of_ℕ 1)))
      value_error
  ok p

-- The codes of an assessment, in the order of their texts.
pub data RiskCode : Type 0 where
  asset_type_not_allowed : Name → RiskCode
  leverage_or_minimum_cash_violation : RiskCode
  position_reduced : Name → RiskCode
  unknown_instrument : Name → RiskCode

abbrev code_rank : RiskCode → ℕ × ℕ
code_rank (asset_type_not_allowed s) = (0, s)
code_rank leverage_or_minimum_cash_violation = (1, 0)
code_rank (position_reduced s) = (2, s)
code_rank (unknown_instrument s) = (3, s)

abbrev code_before : RiskCode → RiskCode → Bool
code_before a b =
    let (r, s) = code_rank a in let (r', s') = code_rank b in ltb r r' || r == r' && ltb s s'

-- The codes that refuse an intent.
abbrev pub is_refusal : RiskCode → Bool
is_refusal (unknown_instrument s) = true
is_refusal (asset_type_not_allowed s) = true
is_refusal _ = false

pub record RiskAssessment : Type 0 where
  pub intent_id : Name
  pub accepted : Bool
  pub requested_weights : Dict Decimal
  pub approved_weights : Dict Decimal
  pub codes : List RiskCode

-- `asset_type in policy.allowed_asset_types`
abbrev pub allows : RiskPolicy → Instrument → Bool
allows p i = any (λ t. str_eq t (asset_value i.asset_type)) p.allowed_asset_types

-- What one symbol of the loop adds: a weight to `approved`, a code, or both.
unfoldable pub assess_symbol :
    Option Instrument → RiskPolicy → Name → Decimal → Option Decimal × List RiskCode
assess_symbol none p symbol requested = (none, unknown_instrument symbol ∷ [])
assess_symbol (some i) p symbol requested =
    if not (allows p i)
    then (none, asset_type_not_allowed symbol ∷ [])
    else if Decimal.lt p.max_position_weight requested
    then (some p.max_position_weight, position_reduced symbol ∷ [])
    else (some requested, [])

abbrev put_some : Dict Decimal → Name → Option Decimal → Dict Decimal
put_some approved symbol none = approved
put_some approved symbol (some w) = put approved symbol w

-- The loop over `intent.target_weights`, on `approved` and `codes`.
unfoldable pub assess_weights :
    Dict Instrument
    → RiskPolicy
    → Dict Decimal
    → Dict Decimal
    → List RiskCode
    → Dict Decimal × List RiskCode
unfolding assess_symbol
assess_weights instruments p [] approved codes = (approved, codes)
assess_weights instruments p ((symbol, requested) ∷ rest) approved codes =
    let (weight, added) = assess_symbol (get instruments symbol) p symbol requested in
    assess_weights instruments p rest (put_some approved symbol weight) (codes ++ added)

-- `sum(weights.values(), Decimal("0"))`
unfoldable pub sum_weights : Decimal → Dict Decimal → Decimal
sum_weights acc [] = acc
sum_weights acc ((_, w) ∷ rest) = sum_weights (Decimal.add acc w) rest

abbrev pub investable : RiskPolicy → Decimal
investable p = Decimal.sub (Decimal.of_ℕ 1) p.minimum_cash_weight

abbrev pub refused : PortfolioIntent → List RiskCode → RiskAssessment
refused i codes = record {
  intent_id = i.intent_id;
  accepted = false;
  requested_weights = i.target_weights;
  approved_weights = [];
  codes = sort code_before codes;
}

abbrev pub approved_with : PortfolioIntent → Dict Decimal → List RiskCode → RiskAssessment
approved_with i weights codes = record {
  intent_id = i.intent_id;
  accepted = true;
  requested_weights = i.target_weights;
  approved_weights = weights;
  codes = sort code_before codes;
}

unfoldable pub assess_intent : PortfolioIntent → Dict Instrument → RiskPolicy → RiskAssessment
assess_intent i instruments p =
    let (approved, codes) = assess_weights instruments p i.target_weights [] [] in
    if any is_refusal codes
    then refused i codes
    else if Decimal.lt (investable p) (sum_weights (Decimal.of_ℕ 0) approved)
    then refused i (codes ++ leverage_or_minimum_cash_violation ∷ [])
    else approved_with i approved codes
