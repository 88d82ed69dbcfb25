-- ===== src/Market/Rules/Stocks.antt =====
-- marketdata/trade_rules.py: `resolve_stock_trade_rule`, the limits and the settlement of a stock by
-- its board, its dates and its name, and `_etf_rule`. A day is the ordinal of its date.
pub mod Widens
use mini_qmt.Common.{
  ℕ, zero, suc, Bool, true, false, not, ◌&&◌, ◌||◌, Option, none, some, List, [], ◌∷◌, ltb, leb,
  ◌==◌, if◌then◌else◌, Result, ok, err, ◌>>=◌, or_raise, runtime_error, keep_if,
}
use mini_qmt.Common.Int.{pos}
use mini_qmt.Decimal
use mini_qmt.Decimal.{Decimal}
use mini_qmt.Market.{Name, Day, PriceLimitState, bounded, unbounded}
use mini_qmt.Market.Rules.{Board, main, star, chinext, other}

pub data RuleId : Type 0 where
  ipo_first_five_unbounded : Board → RuleId
  legacy_ipo_first_session pre_2014_ipo_first_session unreformed_s_share : RuleId
  star_20pct chinext_20pct chinext_st_5pct_legacy chinext_10pct_legacy : RuleId
  main_st_5pct main_st_10pct main_10pct : RuleId
  etf_rule : Name → RuleId

-- `RuleDecision`; the evidence is a fixed text for each rule.
pub record RuleDecision : Type 0 where
  pub rule_id : RuleId
  pub known_date : Day
  pub price_limit_state : PriceLimitState
  pub price_limit_ratio : Option Decimal
  pub sell_delay_sessions : ℕ
  pub upper_multiplier : Option Decimal
  pub lower_multiplier : Option Decimal

-- The columns that are read; `name` holds the code points of the stripped name in upper case, and
-- `in_shanghai` is `exchange == "SH"`.
pub record StockColumns : Type 0 where
  pub board : Option Board
  pub listed_date : Option Day
  pub in_shanghai : Bool
  pub name : List ℕ

abbrev pub hundredths : ℕ → Decimal
hundredths n = record { coefficient = pos n; scale = 2 }

abbrev pub or_main : Option Board → Board
or_main none = main
or_main (some b) = b

-- The ordinals of 2019-07-22, 2020-08-24 and 2023-04-10.
abbrev pub registration_start : Board → Option Day
registration_start star = some 737262
registration_start chinext = some 737661
registration_start main = some 738620
registration_start (other _) = none

abbrev pub starts_with_s_but_not_st : List ℕ → Bool
starts_with_s_but_not_st [] = false
starts_with_s_but_not_st (c ∷ []) = c == b'S'
starts_with_s_but_not_st (c ∷ d ∷ _) = c == b'S' && not (d == b'T')

abbrev pub unbounded_rule : RuleId → Day → RuleDecision
unbounded_rule rule_id known_date = record {
  rule_id = rule_id;
  known_date = known_date;
  price_limit_state = unbounded;
  price_limit_ratio = none;
  sell_delay_sessions = 1;
  upper_multiplier = none;
  lower_multiplier = none;
}

abbrev pub bounded_rule : RuleId → Day → ℕ → RuleDecision
bounded_rule rule_id known_date ratio = record {
  rule_id = rule_id;
  known_date = known_date;
  price_limit_state = bounded;
  price_limit_ratio = some (hundredths ratio);
  sell_delay_sessions = 1;
  upper_multiplier = none;
  lower_multiplier = none;
}

-- `cn-stock-legacy-ipo-first-session-44up-36down-v1`, known since 2014-01-01
abbrev legacy_first_session : RuleDecision
legacy_first_session = record {
  rule_id = legacy_ipo_first_session;
  known_date = 735234;
  price_limit_state = bounded;
  price_limit_ratio = none;
  sell_delay_sessions = 1;
  upper_multiplier = some (hundredths 144);
  lower_multiplier = some (hundredths 64);
}

-- The ratio of an ordinary session, from the board, the date and the ST mark.
unfoldable pub ordinary_rule : Board → Day → Bool → RuleDecision
ordinary_rule star session is_st = bounded_rule star_20pct 737262 20
ordinary_rule chinext session is_st =
    if leb 737661 session
    then bounded_rule chinext_20pct 737661 20
    else if is_st
    then bounded_rule chinext_st_5pct_legacy 732493 5
    else bounded_rule chinext_10pct_legacy 733710 10
ordinary_rule _ session is_st =
    if is_st && ltb session 739803
    then bounded_rule main_st_5pct 732493 5
    else if is_st
    then bounded_rule main_st_10pct 739730 10
    else bounded_rule main_10pct 732493 10

-- From the first session on: unreformed shares in Shanghai, and all others.
unfoldable pub after_listing : StockColumns → Board → Day → Bool → RuleDecision
unfolding ordinary_rule
after_listing stock board session is_st =
    if stock.in_shanghai && starts_with_s_but_not_st stock.name
    then bounded_rule unreformed_s_share 732680 5
    else ordinary_rule board session is_st

-- The first session of a stock that was not listed by registration.
unfoldable pub by_ordinal : StockColumns → Board → Day → Day → Bool → ℕ → RuleDecision
unfolding after_listing
by_ordinal stock board listed session is_st ordinal =
    if ordinal == 1 && leb 735234 listed
    then legacy_first_session
    else if ordinal == 1
    then unbounded_rule pre_2014_ipo_first_session 732493
    else after_listing stock board session is_st

abbrev pub is_registered : Option Day → Day → ℕ → Bool
is_registered none listed ordinal = false
is_registered (some start) listed ordinal = leb start listed && leb ordinal 5

abbrev pub start_or_zero : Option Day → Day
start_or_zero none = 0
start_or_zero (some start) = start

-- `resolve_stock_trade_rule`
unfoldable pub resolve_stock_trade_rule : StockColumns → Day → Bool → Option ℕ → Result RuleDecision
unfolding by_ordinal
resolve_stock_trade_rule stock session is_st listing_session_ordinal = do
  let board = or_main stock.board
  listed ← or_raise stock.listed_date runtime_error
  ordinal ← or_raise listing_session_ordinal runtime_error
  let start = registration_start board
  ok (
      if is_registered start listed ordinal
      then unbounded_rule (ipo_first_five_unbounded board) (start_or_zero start)
      else by_ordinal stock board listed session is_st ordinal)

-- A row of the rules of one ETF, as `_prepare_etf_rules` stores them.
pub record EtfRule : Type 0 where
  pub rule_id : Name
  pub effective_from : Day
  pub effective_to : Option Day
  pub known_date : Day
  pub sell_delay_sessions : ℕ
  pub price_limit_ratio : Decimal

abbrev pub not_after : Day → Option Day → Bool
not_after session none = true
not_after session (some end) = leb session end

abbrev pub is_effective : Day → EtfRule → Bool
is_effective session r = leb r.effective_from session && not_after session r.effective_to

abbrev pub only : List EtfRule → Result EtfRule
only [] = err runtime_error
only (r ∷ []) = ok r
only (r ∷ r' ∷ rules) = err runtime_error

abbrev pub decision_of : EtfRule → RuleDecision
decision_of r = record {
  rule_id = etf_rule r.rule_id;
  known_date = r.known_date;
  price_limit_state = bounded;
  price_limit_ratio = some r.price_limit_ratio;
  sell_delay_sessions = r.sell_delay_sessions;
  upper_multiplier = none;
  lower_multiplier = none;
}

-- `_etf_rule`, on the rules of the instrument: exactly one is effective.
unfoldable pub etf_rule_of : Day → List EtfRule → Result RuleDecision
etf_rule_of session rules = do r ← only (keep_if (is_effective session) rules); ok (decision_of r)

-- `_prepare_etf_rules`: the checks of one row, which is read with its dates present.
unfoldable pub check_etf_rule : EtfRule → Result EtfRule
check_etf_rule r =
    if not (not_after r.effective_from r.effective_to)
      || ltb r.effective_from r.known_date
      || not (
          Decimal.lt (Decimal.of_ℕ 0) r.price_limit_ratio
          && Decimal.lt r.price_limit_ratio (Decimal.of_ℕ 1))
    then err runtime_error
    else ok r
