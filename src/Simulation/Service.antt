-- ===== src/Simulation/Service.antt =====
-- trading/runtime.py: the service that drives the kernel over the sessions of a clock. A call
-- returns the repository together with its result, since what was committed before an exception
-- stays. An intent source is an interface: the code calls any object with these members.
pub mod Kept
pub mod Ended
pub mod Repeated
pub mod Valid
pub mod Sound
use mini_qmt.Common.{
  ℕ, zero, suc, Bool, true, false, not, ◌&&◌, ◌||◌, Option, none, some, List, [], ◌∷◌, ◌++◌, ltb,
  leb, ◌==◌, if◌then◌else◌, Result, ok, err, Error, ◌>>=◌, ◌>>◌, raise_if, value_error,
  runtime_error, is_empty,
}
use mini_qmt.Common.Dict.{Dict, put}
use mini_qmt.Common.Int.{ℤ, eqb_ℤ}
use mini_qmt.Market.{Name, Day, Instrument, MarketSession}
use mini_qmt.Market.Portal
use mini_qmt.Market.Portal.{CanonicalMarketData}
use mini_qmt.Trading.Fees.{FeeSchedule}
use mini_qmt.Trading.Intent.{PortfolioIntent, RiskPolicy}
use mini_qmt.Trading.State.{ExecutionPolicy, PortfolioState, LedgerEvent, SessionResult}
use mini_qmt.Trading.Repository.{
  TradingRepository, Run, RunBinding, RunMode, historical, daily, HashBody, state_body,
  check_binding, is_complete, run, final_state, selected_state, state_after, begin_run,
  append_session, complete_run, fail_run, verify_run,
}
use mini_qmt.Kernel.Setup.{
  TradingKernel, trading_kernel, DigestBody, execution_policy_body, risk_policy_body,
}
use mini_qmt.Kernel.Session.{process_session}
use mini_qmt.Kernel.Submission.{submit_intent}

-- `PointInTimeMarketView`
pub record PointInTimeMarketView : Type 0 where
  pub market_data : CanonicalMarketData
  pub as_of : Day

-- `IntentSource`
pub record IntentSource : Type 0 where
  pub strategy_id : Name
  pub strategy_version : Name
  pub config_hash : Name
  pub decide : Name → PointInTimeMarketView → PortfolioState → Result (Option PortfolioIntent)

-- `HistoricalClock` and `DailyClock`
pub data Clock : Type 0 where
  historical_clock : Day → Day → Clock
  daily_clock : Day → Clock

abbrev pub mode_of : Clock → RunMode
mode_of (historical_clock start end) = historical
mode_of (daily_clock target) = daily

abbrev pub is_only : Day → List Day → Bool
is_only target [] = false
is_only target (d ∷ []) = d == target
is_only target (d ∷ d' ∷ ds) = false

-- `sessions` of the two clocks
unfoldable pub clock_sessions : Clock → CanonicalMarketData → Result (List Day)
clock_sessions (historical_clock start end) market = Portal.trading_days market start end
clock_sessions (daily_clock target) market = do
  sessions ← Portal.trading_days market target target
  raise_if (not (is_only target sessions)) value_error
  ok sessions

-- The digests of the kernel, of the repository and of the fee schedule, the first 24 digits of a
-- digest, and the text that stores an exception.
pub record Digests : Type 0 where
  pub kernel : DigestBody → ℕ
  pub stored : HashBody → Name
  pub short : Name → Name
  pub fees : FeeSchedule → Name
  pub describe : Error → Name

pub record SimulationService : Type 0 where
  pub market_data : CanonicalMarketData
  pub execution_policy : ExecutionPolicy
  pub risk_policy : RiskPolicy
  pub fee_schedule : FeeSchedule
  pub seed : ℤ

pub record SimulationOutcome : Type 0 where
  pub run_id : Name
  pub run : Run
  pub final_state : PortfolioState
  pub event_chain_head : Name
  pub reused : Bool

-- `_validate_intent`
unfoldable pub validate_intent :
    CanonicalMarketData → PortfolioIntent → Name → Day → IntentSource → Result (Unit {0})
validate_intent market intent account_id day source = do
  raise_if (not (intent.account_id == account_id)) value_error
  raise_if (not (intent.decision_date == day)) value_error
  raise_if (not (intent.snapshot_id == market.snapshot_id)) value_error
  raise_if
      (not (intent.strategy_id == source.strategy_id)
        || not (intent.strategy_version == source.strategy_version)
        || not (intent.strategy_config_hash == source.config_hash))
      value_error
  ok tt

abbrev pub first_of : List Day → Day
first_of [] = 0
first_of (d ∷ ds) = d

abbrev pub last_of : List Day → Day
last_of [] = 0
last_of (d ∷ []) = d
last_of (d ∷ d' ∷ ds) = last_of (d' ∷ ds)

-- `{item.instrument_id: item for item in instruments}`
abbrev pub by_instrument : Dict Instrument → List Instrument → Dict Instrument
by_instrument found [] = found
by_instrument found (i ∷ is) = by_instrument (put found i.instrument_id i) is

abbrev pub is_daily : RunMode → Bool
is_daily daily = true
is_daily historical = false

-- A call that writes nothing: the repository stays, and the rest runs if the call returned.
abbrev pub attempt {κ ℓ} :
    {A : Type κ} {B : Type ℓ}
    → TradingRepository
    → Result A
    → (A → TradingRepository × Result B)
    → TradingRepository × Result B
attempt r (err e) rest = (r, err e)
attempt r (ok a) rest = rest a

-- `except ValueError: pass` around `fail_run`, which raises nothing else.
abbrev pub or_keep : TradingRepository → Result TradingRepository → TradingRepository
or_keep r (err e) = r
or_keep r (ok r') = r'

module _ (h : Digests) (service : SimulationService) (account_id : Name)
    (source : IntentSource) where
  -- What the intent of the source adds to a session, if there is one.
  abbrev pub submit_by :
      TradingKernel
      → MarketSession
      → Day
      → SessionResult
      → Option PortfolioIntent
      → Result (PortfolioState × List LedgerEvent)
  submit_by kernel market day processed none = ok (processed.state, processed.events)
  submit_by kernel market day processed (some intent) = do
    validate_intent service.market_data intent account_id day source
    submitted ←
        submit_intent h.kernel kernel intent processed.state market
          (Portal.next_trading_day service.market_data day)
    ok (submitted.state, processed.events ++ submitted.events)

  -- A session of the loop, which ends with its one transaction.
  unfoldable pub run_session :
      TradingKernel
      → TradingRepository
      → Name
      → PortfolioState
      → Day
      → Result (TradingRepository × PortfolioState)
  run_session kernel r run_id current day = do
    market ← Portal.session service.market_data day
    processed ← process_session h.kernel kernel current market
    let view : PointInTimeMarketView = record { market_data = service.market_data; as_of = day }
    intent ← source.decide account_id view processed.state
    (decided, events) ← submit_by kernel market day processed intent
    r' ← append_session h.stored h.short r run_id events decided processed.valuation
    ok (r', decided)

  -- The loop over the sessions; what the sessions before an exception stored stays.
  unfoldable pub run_sessions :
      TradingKernel
      → Name
      → List Day
      → TradingRepository
      → PortfolioState
      → TradingRepository × Result PortfolioState
  unfolding run_session
  run_sessions kernel run_id [] r current = (r, ok current)
  run_sessions kernel run_id (day ∷ days) r current =
      attempt r (run_session kernel r run_id current day)
        (λ (r', decided). run_sessions kernel run_id days r' decided)

  -- `fail_run` in the handler of an exception.
  abbrev pub mark_failed : TradingRepository → Name → Error → TradingRepository
  mark_failed r run_id e = or_keep r (fail_run h.stored h.short r run_id (h.describe e))

  -- The outcome of a run that is completed.
  unfoldable pub outcome_of :
      TradingRepository → Name → PortfolioState → Bool → Result SimulationOutcome
  outcome_of r run_id state reused = do
    x ← run r run_id
    head ← verify_run h.stored h.short r run_id
    ok (record {
      run_id = run_id;
      run = x;
      final_state = state;
      event_chain_head = head;
      reused = reused;
    })

  abbrev pub complete_by :
      TradingRepository
      → Name
      → PortfolioState
      → Result TradingRepository
      → TradingRepository × Result SimulationOutcome
  complete_by r run_id current (err e) = (mark_failed r run_id e, err e)
  complete_by r run_id current (ok r') = (r', outcome_of r' run_id current false)

  -- After the loop: the run is completed, or failed with the exception, which is raised again.
  abbrev pub settle :
      Bool
      → Name
      → TradingRepository × Result PortfolioState
      → TradingRepository × Result SimulationOutcome
  settle promote run_id (r, err e) = (mark_failed r run_id e, err e)
  settle promote run_id (r, ok current) =
      complete_by r run_id current (complete_run h.stored h.short r run_id current promote)

  -- A completed run of the same binding is returned as it is.
  unfoldable pub reuse_run : TradingRepository → Name → Result SimulationOutcome
  unfolding outcome_of
  reuse_run r run_id = do
    x ← run r run_id
    raise_if (not (is_complete x.status)) runtime_error
    state ← final_state r run_id
    outcome_of r run_id state true

  abbrev pub service_kernel : Result TradingKernel
  service_kernel =
      trading_kernel (by_instrument [] (Portal.instruments service.market_data none none))
        (Portal.all_trading_days service.market_data) service.execution_policy service.risk_policy
        service.fee_schedule

  abbrev pub run_begun :
      List Day
      → PortfolioState
      → Bool
      → TradingRepository × Name × Bool
      → TradingRepository × Result SimulationOutcome
  run_begun sessions initial promote (r, run_id, false) = (r, reuse_run r run_id)
  run_begun sessions initial promote (r, run_id, true) =
      attempt r service_kernel
        (λ kernel. settle promote run_id (run_sessions kernel run_id sessions r initial))

  abbrev pub check_parent : TradingRepository → List Day → Option Name → Result (Unit {0})
  check_parent r sessions none = ok tt
  check_parent r sessions (some parent) = do
    x ← run r parent
    raise_if (leb (first_of sessions) x.binding.end_date) value_error

  abbrev pub initial_by :
      TradingRepository → Option Name → Option PortfolioState → Result PortfolioState
  initial_by r parent (some state) = ok state
  initial_by r parent none = state_after r parent account_id

  abbrev pub binding_of : Clock → List Day → PortfolioState → Option Name → RunBinding
  binding_of clock sessions initial parent = record {
    account_id = account_id;
    mode = mode_of clock;
    snapshot_id = service.market_data.snapshot_id;
    strategy_id = source.strategy_id;
    strategy_version = source.strategy_version;
    strategy_config_hash = source.config_hash;
    execution_policy_hash = h.kernel (execution_policy_body service.execution_policy);
    risk_policy_hash = h.kernel (risk_policy_body service.risk_policy);
    fee_schedule_hash = h.fees service.fee_schedule;
    initial_state_hash = h.stored (state_body initial);
    start_date = first_of sessions;
    end_date = last_of sessions;
    seed = service.seed;
    parent_run_id = parent;
  }

  -- What is read before a run begins: its sessions, its first state and its binding.
  unfoldable pub prepare :
      TradingRepository
      → Clock
      → Option Name
      → Option PortfolioState
      → Result (List Day × PortfolioState × RunBinding)
  unfolding clock_sessions
  prepare r clock parent state = do
    sessions ← clock_sessions clock service.market_data
    raise_if (is_empty sessions) value_error
    check_parent r sessions parent
    initial ← initial_by r parent state
    binding ← check_binding (binding_of clock sessions initial parent)
    ok (sessions, initial, binding)

  -- `_run`
  unfoldable pub run_simulation :
      TradingRepository
      → Clock
      → Option Name
      → Bool
      → Option PortfolioState
      → TradingRepository × Result SimulationOutcome
  unfolding prepare reuse_run run_sessions outcome_of
  run_simulation r clock parent promote state =
      attempt r (prepare r clock parent state) (λ (sessions, initial, binding).
        attempt r (begin_run h.stored h.short r binding initial)
          (run_begun sessions initial promote))

  -- `run_historical`
  unfoldable pub run_historical :
      TradingRepository
      → Day
      → Day
      → Option Name
      → Bool
      → TradingRepository × Result SimulationOutcome
  unfolding run_simulation
  run_historical r start end parent promote =
      run_simulation r (historical_clock start end) parent promote none

  -- `_matches_daily_request`
  unfoldable pub matches_daily_request : Run → Day → Bool
  matches_daily_request x target =
      let b = x.binding in
      is_complete x.status
      && is_daily b.mode
      && b.account_id == account_id
      && b.start_date == target
      && b.end_date == target
      && b.snapshot_id == service.market_data.snapshot_id
      && b.strategy_id == source.strategy_id
      && b.strategy_version == source.strategy_version
      && b.strategy_config_hash == source.config_hash
      && b.execution_policy_hash == h.kernel (execution_policy_body service.execution_policy)
      && b.risk_policy_hash == h.kernel (risk_policy_body service.risk_policy)
      && b.fee_schedule_hash == h.fees service.fee_schedule
      && eqb_ℤ b.seed service.seed

  -- The account's head is a run that ends on the target day.
  unfoldable pub repeat_daily : TradingRepository → Name → Run → Day → Result SimulationOutcome
  unfolding matches_daily_request
  repeat_daily r run_id x target = do
    raise_if (not (matches_daily_request x target)) value_error
    state ← final_state r run_id
    head ← verify_run h.stored h.short r run_id
    ok (record {
      run_id = run_id;
      run = x;
      final_state = state;
      event_chain_head = head;
      reused = true;
    })

  abbrev pub daily_after :
      TradingRepository
      → Day
      → Bool
      → PortfolioState
      → Name
      → Run
      → TradingRepository × Result SimulationOutcome
  daily_after r target promote initial selected x =
      if target == x.binding.end_date
      then (r, repeat_daily r selected x target)
      else if ltb target x.binding.end_date
      then (r, err value_error)
      else run_simulation r (daily_clock target) (some selected) promote (some initial)

  abbrev pub daily_by :
      TradingRepository
      → Day
      → Bool
      → PortfolioState × Option Name
      → TradingRepository × Result SimulationOutcome
  daily_by r target promote (initial, none) =
      run_simulation r (daily_clock target) none promote (some initial)
  daily_by r target promote (initial, some selected) =
      attempt r (run r selected) (daily_after r target promote initial selected)

  -- `run_daily`
  unfoldable pub run_daily :
      TradingRepository → Day → Option Name → Bool → TradingRepository × Result SimulationOutcome
  unfolding run_simulation repeat_daily
  run_daily r target none promote =
      attempt r (selected_state r account_id) (daily_by r target promote)
  run_daily r target (some parent) promote =
      attempt r (state_after r (some parent) account_id)
        (λ initial. run_simulation r (daily_clock target) (some parent) promote (some initial))
