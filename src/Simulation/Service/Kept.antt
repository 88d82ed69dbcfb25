-- ===== src/Simulation/Service/Kept.antt =====
-- The sessions of a run, on the repository: the run keeps running and verifying, and nothing else
-- changes.
use mini_qmt.Common.{
  ◌≡◌, refl, sym, ap, ◌∙◌, arith, Bool, true, false, not, ◌&&◌, none, List, [], ◌∷◌, ltb, leb,
  Result, ok, err, >>=-eq-ok, raise_if-eq-ok, ok-injective, is_empty,
}
use mini_qmt.Common.Sorting.{sorted_set}
use mini_qmt.Market.{Name, Day}
use mini_qmt.Market.Portal
use mini_qmt.Market.Portal.{CanonicalMarketData}
use mini_qmt.Market.Portal.Visible.{trading_days-Between}
use mini_qmt.Trading.State.{PortfolioState}
use mini_qmt.Trading.Repository.{TradingRepository, RunBinding, append_session}
use mini_qmt.Trading.Repository.Written.{
  SameElsewhere, elsewhere_then, Going, append_session-Appended,
}
use mini_qmt.Kernel.Setup.{TradingKernel, trading_kernel, is_session}
use mini_qmt.Kernel.Setup.Calendar.{sorted_set-is_session}
use mini_qmt.Kernel.Session.{process_session}
use mini_qmt.Simulation.Service.{
  Digests, SimulationService, IntentSource, PointInTimeMarketView, Clock, historical_clock,
  daily_clock, clock_sessions, is_only, first_of, attempt, submit_by, run_session, run_sessions,
  by_instrument, service_kernel,
}

-- A session that is in a list shows that the list is not empty.
not_empty : (days : List Day) (d : Day) → is_session days d ≡ true → is_empty days ≡ false
not_empty [] d h = absurd (cc h)
not_empty (x ∷ days) d h = refl

first_in : (days : List Day) → is_empty days ≡ false → is_session days (first_of days) ≡ true
first_in [] h = absurd (cc h)
first_in (d ∷ days) h = ground arith

-- The sessions of a clock are trading days.
clock_sessions_open :
    (clock : Clock) (market : CanonicalMarketData) {days : List Day} (d : Day)
    → clock_sessions clock market ≡ ok days
    → is_session days d ≡ true
    → is_session (Portal.all_trading_days market) d ≡ true
unfolding clock_sessions
clock_sessions_open (historical_clock start end) market {days} d h k =
    both (leb start d && leb d end) _ (sym ((trading_days-Between market start end h).exact d) ∙ k)
  where
    both : (b c : Bool) → (b && c) ≡ true → c ≡ true
    both b c e = ground arith
clock_sessions_open (daily_clock target) market {days} d h k =
    let (found, h1, h2) = >>=-eq-ok (Portal.trading_days market target target) _ h in
    let (_, done) = raise_if-eq-ok (not (is_only target found)) _ _ h2 in
    let same : found ≡ days = ok-injective done in
    both (leb target d && leb d target) _
      (sym ((trading_days-Between market target target h1).exact d) ∙ rw same k)
  where
    both : (b c : Bool) → (b && c) ≡ true → c ≡ true
    both b c e = ground arith

module _ (h : Digests) (service : SimulationService) (account_id : Name)
    (source : IntentSource) where
  -- The kernel of the service is there if a clock has sessions.
  pub kernel_built :
      (clock : Clock) {days : List Day}
      → clock_sessions clock service.market_data ≡ ok days
      → is_empty days ≡ false
      → (k : TradingKernel) × (service_kernel h service account_id source ≡ ok k)
  unfolding trading_kernel
  kernel_built clock {days} e some_days =
      let all_days = Portal.all_trading_days service.market_data in
      let inside : is_session all_days (first_of days) ≡ true =
        clock_sessions_open clock service.market_data (first_of days) e (first_in days some_days) in
      let filled : is_empty (sorted_set ltb all_days) ≡ false =
        not_empty (sorted_set ltb all_days) (first_of days)
          (sorted_set-is_session (first_of days) all_days ∙ inside) in
      (
        record {
          instruments = by_instrument [] (Portal.instruments service.market_data none none);
          sessions = sorted_set ltb all_days;
          execution_policy = service.execution_policy;
          risk_policy = service.risk_policy;
          fee_schedule = service.fee_schedule;
        },
        rw filled refl,
      )

  module _ (id : Name) (binding : RunBinding) where
    -- What the sessions of a run leave.
    pub record Kept (r r' : TradingRepository) : Type 0 where
      pub going : Going h.stored h.short id binding r'
      pub accounts : r'.accounts ≡ r.accounts
      pub others : SameElsewhere id r r'

    run_session-Kept :
        (kernel : TradingKernel) (r r' : TradingRepository) (current next : PortfolioState)
        (day : Day)
        → Going h.stored h.short id binding r
        → run_session h service account_id source kernel r id current day ≡ ok (r', next)
        → Kept r r'
    unfolding run_session
    run_session-Kept kernel r r' current next day going e =
        let (market, _, e1) = >>=-eq-ok (Portal.session service.market_data day) _ e in
        let (processed, _, e2) = >>=-eq-ok (process_session h.kernel kernel current market) _ e1 in
        let view : PointInTimeMarketView = record {
          market_data = service.market_data;
          as_of = day;
        } in
        let (intent, _, e3) = >>=-eq-ok (source.decide account_id view processed.state) _ e2 in
        let ((decided, events), _, e4) =
          >>=-eq-ok (submit_by h service account_id source kernel market day processed intent) _
            e3 in
        let (written, appended, done) =
          >>=-eq-ok (append_session h.stored h.short r id events decided processed.valuation) _
            e4 in
        let same : (written, decided) ≡ (r', next) = ok-injective done in
        let whole : written ≡ r' = ap (λ (t : TradingRepository × PortfolioState). t.0) same in
        let kept =
          append_session-Appended h.stored h.short id binding r written events decided
            processed.valuation going appended in
        rw (← whole) (record { going = kept.going; accounts = kept.accounts; others = kept.others })

    pub run_sessions-Kept :
        (kernel : TradingKernel) (days : List Day) (r : TradingRepository)
        (current : PortfolioState)
        → Going h.stored h.short id binding r
        → Kept r (run_sessions h service account_id source kernel id days r current).0
    unfolding run_sessions
    run_sessions-Kept kernel [] r current going = record {
      going = going;
      accounts = refl;
      others = λ other apart. refl;
    }
    run_sessions-Kept kernel (day ∷ days) r current going =
        go (run_session h service account_id source kernel r id current day) refl
          (λ r' decided. run_sessions-Kept kernel days r' decided)
      where
        go :
            (done : Result (TradingRepository × PortfolioState))
            → run_session h service account_id source kernel r id current day ≡ done
            → ((r' : TradingRepository) (decided : PortfolioState)
                → Going h.stored h.short id binding r'
                → Kept r' (run_sessions h service account_id source kernel id days r' decided).0)
            → Kept r
                (attempt r done (λ (r', decided).
                  run_sessions h service account_id source kernel id days r' decided)).0
        go (err e) k later = record { going = going; accounts = refl; others = λ other apart. refl }
        go (ok (r', decided)) k later =
            let first = run_session-Kept kernel r r' current decided day going k in
            let rest = later r' decided first.going in
            record {
              going = rest.going;
              accounts = rest.accounts ∙ first.accounts;
              others =
                  elsewhere_then id r r'
                    (run_sessions h service account_id source kernel id days r' decided).0
                    first.others rest.others;
            }
