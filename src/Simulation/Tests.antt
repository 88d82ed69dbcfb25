-- ===== src/Simulation/Tests.antt =====
-- Examples of the theorems on the service and its schedule: an account of cash in a market of three
-- trading days without instruments.
use mini_qmt.Common.{
  map, ℕ, ◌≡◌, refl, ◌↔◌, Bool, true, false, none, some, List, [], ◌∷◌, Result, ok, arith, ap, ◌==◌,
  if◌then◌else◌,
}
use mini_qmt.Common.Dict.{get, put}
use mini_qmt.Common.Int.{pos, ◌+ℤ◌, ◌*ℤ◌}
use mini_qmt.Trading.Repository.{Account}
use mini_qmt.Common.Sorting.{insert, sort, insert_new, sorted_set}
use mini_qmt.Decimal.{add, div, quantize, lt, rescale}
use mini_qmt.Decimal.Digits.{round_digits, expansion, half_even}
use mini_qmt.Market.{Day}
use mini_qmt.Market.Portal
use mini_qmt.Market.Portal.{CanonicalMarketData}
use mini_qmt.Trading.Fees.{money}
use mini_qmt.Trading.Intent.{PortfolioIntent, check_intent}
use mini_qmt.Kernel.Valid.{IsPortfolio}
use mini_qmt.Trading.State.{check_event, check_state}
use mini_qmt.Trading.Tests.{state, digest, short}
use mini_qmt.Trading.Repository.{
  TradingRepository, active, account, run, selected_state, begin_run, append_session, append_events,
  complete_run, verify_run, verify_rows, check_binding,
}
use mini_qmt.Kernel.Tests.{succeeds, value_of, returns, execution_policy, risk_policy, fee_schedule}
use mini_qmt.Kernel.Tests.{digest as kernel_digest}
use mini_qmt.Kernel.Setup.{trading_kernel}
use mini_qmt.Kernel.Session.{process_session, sort_orders, execute_orders}
use mini_qmt.Kernel.Actions.{apply_open_actions, capture_entitlements}
use mini_qmt.Kernel.Close.{value_at_close}
use mini_qmt.Simulation.Feedback.{units, max_drawdown}
use mini_qmt.Simulation.Feedback.Drawdown.{IsDrawdown, max_drawdown-IsDrawdown}
use mini_qmt.Simulation.Service.{PointInTimeMarketView}
use mini_qmt.Simulation.Service.{
  Digests, SimulationService, SimulationOutcome, IntentSource, historical_clock, clock_sessions,
  run_session, run_sessions, outcome_of, prepare, run_simulation, run_daily,
}
use mini_qmt.Simulation.Schedule.{weekly, monthly, scheduled_trading_days, is_rebalance_day}
use mini_qmt.Simulation.Schedule.Months.{year_month}
use mini_qmt.Simulation.Schedule.Last.{IsLast, same_period, is_rebalance_day-IsLast}
use mini_qmt.Simulation.Service.Ended.{Ended, run_simulation-Ended}
use mini_qmt.Simulation.Service.Sound.{IsSound, run_simulation-IsSound}
use mini_qmt.Simulation.Static.{
  SourceDigests, StaticAllocationSource, Decided, decide_static, decide_static-Decided,
}
use mini_qmt.Simulation.Service.Repeated.{run_daily_twice}

abbrev market : CanonicalMarketData
market = record {
  snapshot_id = 3;
  instrument_records = [];
  calendar =
      record { exchange = 1; session_date = 11; is_open = true }
      ∷ record { exchange = 1; session_date = 12; is_open = true }
      ∷ record { exchange = 1; session_date = 13; is_open = false }
      ∷ record { exchange = 1; session_date = 14; is_open = true }
      ∷ [];
  action_records = [];
  daily_bars = λ symbols start end. ok [];
}

abbrev service : SimulationService
service = record {
  market_data = market;
  execution_policy = execution_policy;
  risk_policy = risk_policy;
  fee_schedule = fee_schedule;
  seed = pos 0;
}

abbrev digests : Digests
digests = record {
  kernel = kernel_digest;
  stored = digest;
  short = short;
  fees = λ schedule. 5;
  describe = λ e. 6;
}

-- A source that never asks for a change.
abbrev source : IntentSource
source = record {
  strategy_id = 8;
  strategy_version = 1;
  config_hash = 9;
  decide = λ account_id view held. ok none;
}

abbrev repository : TradingRepository
repository = record {
  accounts =
      (1, record { name = 2; status = active; initial_state = state; selected_run_id = none }) ∷ [];
  runs = [];
}

abbrev first_day : TradingRepository × Result SimulationOutcome
first_day = run_daily digests service 1 source repository 11 none true

first_day-returns : succeeds first_day.1 ≡ true
unfolding run_daily selected_state account run run_simulation prepare clock_sessions
    Portal.trading_days Portal.all_trading_days Portal.instruments Portal.session Portal.bars
    Portal.read_bars check_binding begin_run trading_kernel run_sessions run_session process_session
    sort_orders execute_orders apply_open_actions capture_entitlements value_at_close append_session
    append_events complete_run verify_run verify_rows outcome_of get put insert sort insert_new
    sorted_set check_event check_state money quantize add div ◌+ℤ◌ round_digits expansion half_even
first_day-returns = refl

-- A run over the three trading days: how the call ends.
abbrev three_days : TradingRepository × Result SimulationOutcome
three_days =
    run_simulation digests service 1 source repository (historical_clock 11 14) none false none

run_simulation-Ended_example :
    Ended digests service 1 source repository
      (historical_clock 11 14)
      none
      false
      none
      three_days.0
      three_days.1
run_simulation-Ended_example =
    run_simulation-Ended digests service 1 source repository (historical_clock 11 14) none false
      none

abbrev outcome : SimulationOutcome
outcome = value_of first_day.1 first_day-returns

first_day_whole : first_day ≡ (first_day.0, ok outcome)
first_day_whole = ap (λ r. (first_day.0, r)) (returns first_day.1 first_day-returns)

run_daily_twice_example :
    run_daily digests service 1 source first_day.0 11 none true
    ≡ (first_day.0, ok (record outcome { reused = true }))
run_daily_twice_example =
    run_daily_twice digests service 1 source 11 repository first_day.0 outcome first_day_whole

-- 2024-02-26 to 2024-03-04: the last days of the week, and of the month.
abbrev days : List Day
days = 738942 ∷ 738943 ∷ 738944 ∷ 738945 ∷ 738946 ∷ 738949 ∷ []

is_rebalance_day-IsLast_example :
    (is_rebalance_day 738945 days monthly ≡ true) ↔ IsLast (same_period monthly) days 738945
is_rebalance_day-IsLast_example = is_rebalance_day-IsLast 738945 days monthly

month_end : scheduled_trading_days days monthly ≡ 738945 ∷ 738949 ∷ []
unfolding scheduled_trading_days sorted_set insert_new year_month
month_end = refl

week_end : scheduled_trading_days days weekly ≡ 738946 ∷ 738949 ∷ []
unfolding scheduled_trading_days sorted_set insert_new
week_end = refl

abbrev navs : List ℕ
navs = 100000000 ∷ 120000000 ∷ 90000000 ∷ []

max_drawdown-IsDrawdown_example :
    (r : ℕ) × (max_drawdown (map (λ n. units (pos n)) navs) ≡ ok (pos r)) × IsDrawdown navs r
max_drawdown-IsDrawdown_example = max_drawdown-IsDrawdown navs (omega arith)

state-IsPortfolio : IsPortfolio state
state-IsPortfolio = record { initial = omega arith; solvent = omega arith; lots = tt }

repository-IsSound : IsSound repository
unfolding get
repository-IsSound = record {
  accounts = λ id a found. the_account id a (1 == id) found;
  runs = λ id x s found final. absurd (cc found);
}
  where
    the_account :
        (id : ℕ) (a : Account) (b : Bool)
        → (if b
            then some (record {
              name = 2;
              status = active;
              initial_state = state;
              selected_run_id = none;
            })
            else none)
          ≡ some a
        → IsPortfolio a.initial_state
    the_account id a true found =
        let same : ◌≡◌ {A = Account}
            (record { name = 2; status = active; initial_state = state; selected_run_id = none })
            a =
          cc in
        rw (← same) state-IsPortfolio
    the_account id a false found = absurd (cc found)

run_simulation-IsSound_example : IsSound three_days.0
run_simulation-IsSound_example =
    run_simulation-IsSound digests service 1 source repository (historical_clock 11 14) none false
      none repository-IsSound (λ s given. absurd (cc given))

abbrev static_digests : SourceDigests
static_digests = record {
  config = λ id version weights. 9;
  observation = λ snapshot day held weights. 7;
  state = λ held. 3;
  intent = λ body. 40;
}

abbrev half_and_half : StaticAllocationSource
half_and_half = record {
  target_weights =
      (9, record { coefficient = pos 5; scale = 1 })
      ∷ (7, record { coefficient = pos 4; scale = 1 })
      ∷ [];
  strategy_id = 8;
  strategy_version = 1;
}

abbrev view : PointInTimeMarketView
view = record { market_data = market; as_of = 11 }

abbrev asked : PortfolioIntent
asked = record {
  intent_id = 41;
  account_id = 1;
  decision_date = 11;
  snapshot_id = 3;
  strategy_id = 8;
  strategy_version = 1;
  strategy_config_hash = 9;
  observation_hash = 7;
  target_weights =
      (7, record { coefficient = pos 4; scale = 1 })
      ∷ (9, record { coefficient = pos 5; scale = 1 })
      ∷ [];
  reason = 1;
  metadata = 0;
}

decide_static-Decided_example : Decided static_digests half_and_half 1 view asked
unfolding decide_static check_intent sort insert lt rescale ◌*ℤ◌
decide_static-Decided_example = decide_static-Decided static_digests half_and_half 1 view state refl
