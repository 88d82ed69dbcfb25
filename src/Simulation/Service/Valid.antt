-- ===== src/Simulation/Service/Valid.antt =====
-- The sessions of a run take a valid portfolio to a valid one.
use mini_qmt.Common.{
  ◌≡◌, refl, ap, Option, none, some, List, [], ◌∷◌, Result, ok, err, >>=-eq-ok, ok-injective, inl,
  inr,
}
use mini_qmt.Market.{Name, Day, MarketSession}
use mini_qmt.Market.Portal
use mini_qmt.Trading.Intent.{PortfolioIntent}
use mini_qmt.Trading.State.{PortfolioState, LedgerEvent, SessionResult, IntentResult}
use mini_qmt.Trading.Repository.{TradingRepository, append_session}
use mini_qmt.Kernel.Setup.{TradingKernel}
use mini_qmt.Kernel.Session.{process_session}
use mini_qmt.Kernel.Submission.{submit_intent}
use mini_qmt.Kernel.Submission.Scheduled.{Submitted, submit_intent-Submitted}
use mini_qmt.Kernel.Valid.{IsPortfolio}
use mini_qmt.Kernel.Valid.Sessions.{process_session-IsPortfolio}
use mini_qmt.Simulation.Service.{
  Digests, SimulationService, IntentSource, PointInTimeMarketView, attempt, validate_intent,
  submit_by, run_session, run_sessions,
}

Scheduled-IsPortfolio :
    (kernel : TradingKernel) (intent : PortfolioIntent) (day : Day) (next : Option Day)
    (s : PortfolioState) (r : IntentResult)
    → Submitted kernel intent day next s r
    → IsPortfolio s
    → IsPortfolio r.state
Scheduled-IsPortfolio kernel intent day next s r (inl (same, _, _)) v = rw same v
Scheduled-IsPortfolio kernel intent day next s r (inr (d, _, kept)) v = record {
  initial = rw kept.initial_cash v.initial;
  solvent = rw kept.cash v.solvent;
  lots = rw kept.lots v.lots;
}

module _ (h : Digests) (service : SimulationService) (account_id : Name)
    (source : IntentSource) where
  submit_by-IsPortfolio :
      (kernel : TradingKernel) (market : MarketSession) (day : Day) (processed : SessionResult)
      (intent : Option PortfolioIntent) {p : PortfolioState × List LedgerEvent}
      → IsPortfolio processed.state
      → submit_by h service account_id source kernel market day processed intent ≡ ok p
      → IsPortfolio p.0
  submit_by-IsPortfolio kernel market day processed none v e = rw (← ok-injective e) v
  submit_by-IsPortfolio kernel market day processed (some intent) v e =
      let (_, _, e1) =
        >>=-eq-ok (validate_intent service.market_data intent account_id day source) _ e in
      let next = Portal.next_trading_day service.market_data day in
      let (submitted, made, done) =
        >>=-eq-ok (submit_intent h.kernel kernel intent processed.state market next) _ e1 in
      let (_, kept) =
        submit_intent-Submitted h.kernel kernel intent processed.state market next made in
      let after =
        Scheduled-IsPortfolio kernel intent market.session_date next processed.state submitted kept
          v in
      rw (← ok-injective done) after

  run_session-IsPortfolio :
      (kernel : TradingKernel) (r r' : TradingRepository) (id : Name)
      (current next : PortfolioState) (day : Day)
      → IsPortfolio current
      → run_session h service account_id source kernel r id current day ≡ ok (r', next)
      → IsPortfolio next
  unfolding run_session
  run_session-IsPortfolio kernel r r' id current next day v e =
      let (market, _, e1) = >>=-eq-ok (Portal.session service.market_data day) _ e in
      let (processed, ran, e2) = >>=-eq-ok (process_session h.kernel kernel current market) _ e1 in
      let view : PointInTimeMarketView = record {
        market_data = service.market_data;
        as_of = day;
      } in
      let (intent, _, e3) = >>=-eq-ok (source.decide account_id view processed.state) _ e2 in
      let (p, submitted, e4) =
        >>=-eq-ok (submit_by h service account_id source kernel market day processed intent) _ e3 in
      let (written, _, done) =
        >>=-eq-ok (append_session h.stored h.short r id p.1 p.0 processed.valuation) _ e4 in
      let same : p.0 ≡ next =
        ap (λ (t : TradingRepository × PortfolioState). t.1) (ok-injective done) in
      rw (← same) (
        submit_by-IsPortfolio kernel market day processed intent
          (process_session-IsPortfolio h.kernel kernel current market v ran) submitted)

  -- Through all sessions.
  pub run_sessions-IsPortfolio :
      (kernel : TradingKernel) (id : Name) (days : List Day) (r : TradingRepository)
      (current final : PortfolioState)
      → IsPortfolio current
      → (run_sessions h service account_id source kernel id days r current).1 ≡ ok final
      → IsPortfolio final
  unfolding run_sessions
  run_sessions-IsPortfolio kernel id [] r current final v e = rw (← ok-injective e) v
  run_sessions-IsPortfolio kernel id (day ∷ days) r current final v e =
      go (run_session h service account_id source kernel r id current day) refl
        (λ r' decided. run_sessions-IsPortfolio kernel id days r' decided final) e
    where
      go :
          (done : Result (TradingRepository × PortfolioState))
          → run_session h service account_id source kernel r id current day ≡ done
          → ((r' : TradingRepository) (decided : PortfolioState)
              → IsPortfolio decided
              → (run_sessions h service account_id source kernel id days r' decided).1 ≡ ok final
              → IsPortfolio final)
          → (attempt r done (λ (r', decided).
              run_sessions h service account_id source kernel id days r' decided)).1
            ≡ ok final
          → IsPortfolio final
      go (err x) k later f = absurd (cc f)
      go (ok (r', decided)) k later f =
          later r' decided (run_session-IsPortfolio kernel r r' id current decided day v k) f
