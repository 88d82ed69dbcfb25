-- ===== src/Simulation/Service/Sound.antt =====
-- The portfolios that the service stores are valid.
use mini_qmt.Common.{
  ◌≡◌, refl, sym, ap, ◌∙◌, Bool, true, false, not, ◌||◌, Option, none, some, List, ◌==◌,
  if◌then◌else◌, Result, ok, or_raise, key_error, >>=-eq-ok, raise_if-eq-ok, ok-injective,
  or_raise-eq-ok, is_empty, Bool-cases, inl, inr, ==_iff,
}
use mini_qmt.Common.Dict.{get, get-put}
use mini_qmt.Market.{Name, Day}
use mini_qmt.Trading.State.{PortfolioState}
use mini_qmt.Trading.Repository.{
  TradingRepository, Run, Account, RunBinding, account, run, state_after, is_complete,
  check_binding,
}
use mini_qmt.Trading.Repository.Written.{SameElsewhere, Promoted}
use mini_qmt.Kernel.Valid.{IsPortfolio}
use mini_qmt.Simulation.Service.{
  Digests, SimulationService, SimulationOutcome, IntentSource, Clock, clock_sessions, check_parent,
  initial_by, binding_of, prepare, run_simulation,
}
use mini_qmt.Simulation.Service.Valid.{run_sessions-IsPortfolio}
use mini_qmt.Simulation.Service.Ended.{
  Ended, stopped, reused, run_failed, run_completed, run_simulation-Ended,
}

-- The states that accounts start from and that completed runs end with are valid portfolios.
pub record IsSound (r : TradingRepository) : Type 0 where
  pub accounts :
      (id : Name) (a : Account) → get r.accounts id ≡ some a → IsPortfolio a.initial_state
  pub runs :
      (id : Name) (x : Run) (s : PortfolioState)
      → get r.runs id ≡ some x
      → x.final_state ≡ some s
      → IsPortfolio s

module _ (h : Digests) (service : SimulationService) (account_id : Name)
    (source : IntentSource) where
  state_after-IsPortfolio :
      (r : TradingRepository)
      → IsSound r
      → (p : Option Name) (first : PortfolioState) → state_after r p account_id ≡ ok first
      → IsPortfolio first
  unfolding state_after account run
  state_after-IsPortfolio r sound none first e =
      let (a, row, e1) = >>=-eq-ok (or_raise (get r.accounts account_id) key_error) _ e in
      rw (← ok-injective e1) (sound.accounts account_id a (or_raise-eq-ok _ _ row))
  state_after-IsPortfolio r sound (some p) first e =
      let (x, row, e1) = >>=-eq-ok (or_raise (get r.runs p) key_error) _ e in
      let (_, e2) =
        raise_if-eq-ok (not (x.binding.account_id == account_id) || not (is_complete x.status)) _ _
          e1 in
      sound.runs p x first (or_raise-eq-ok _ _ row) (or_raise-eq-ok _ _ e2)

  -- The state that a run starts from.
  prepared_initial :
      (r : TradingRepository) (clock : Clock) (parent : Option Name) (state : Option PortfolioState)
      (sessions : List Day) (initial : PortfolioState) (binding : RunBinding)
      → IsSound r
      → ((s : PortfolioState) → state ≡ some s → IsPortfolio s)
      → prepare h service account_id source r clock parent state ≡ ok (sessions, initial, binding)
      → IsPortfolio initial
  unfolding prepare
  prepared_initial r clock parent state sessions initial binding sound given e =
      let (found, _, e1) = >>=-eq-ok (clock_sessions clock service.market_data) _ e in
      let (_, e2) = raise_if-eq-ok (is_empty found) _ _ e1 in
      let (_, _, e3) = >>=-eq-ok (check_parent h service account_id source r found parent) _ e2 in
      let (first, read, e4) =
        >>=-eq-ok (initial_by h service account_id source r parent state) _ e3 in
      let candidate = binding_of h service account_id source clock found first parent in
      let (_, _, e5) = >>=-eq-ok (check_binding candidate) _ e4 in
      let same : first ≡ initial =
        ap (λ (t : List Day × PortfolioState × RunBinding). t.1) (ok-injective e5) in
      rw (← same) (by_state state parent first given read)
    where
      by_state :
          (t : Option PortfolioState) (p : Option Name) (first : PortfolioState)
          → ((s : PortfolioState) → t ≡ some s → IsPortfolio s)
          → initial_by h service account_id source r p t ≡ ok first
          → IsPortfolio first
      by_state (some s) p first given k = rw (← ok-injective k) (given s refl)
      by_state none none first given k = state_after-IsPortfolio r sound none first k
      by_state none (some p) first given k = state_after-IsPortfolio r sound (some p) first k

  -- A run that is the only one to change, or of which it is known what it stores.
  written_runs :
      (r r' : TradingRepository) (id : Name) (row : Run)
      → IsSound r
      → get r'.runs id ≡ some row
      → SameElsewhere id r r'
      → ((s : PortfolioState) → row.final_state ≡ some s → IsPortfolio s)
      → (other : Name) (x : Run) (s : PortfolioState) → get r'.runs other ≡ some x
      → x.final_state ≡ some s
      → IsPortfolio s
  written_runs r r' id row sound here others known other x s found final =
      elim (Bool-cases (id == other)) [
        | inl same ↦
            let e : id ≡ other = (==_iff id other).0 same in
            let one : row ≡ x = cc in known s (rw one final)
        | inr apart ↦ sound.runs other x s (sym (others other apart) ∙ found) final
      ]

  Promoted-accounts :
      (r r' : TradingRepository) (id : Name) (promote : Bool) (binding : RunBinding)
      → IsSound r
      → Promoted h.stored h.short id promote binding r r'
      → (other : Name) (a : Account) → get r'.accounts other ≡ some a
      → IsPortfolio a.initial_state
  Promoted-accounts r r' id false binding sound same other a found =
      sound.accounts other a (rw same at found)
  Promoted-accounts r r' id true binding sound (b, row, _, moved) other a found =
      go (binding.account_id == other) refl (
        sym (get-put r.accounts binding.account_id other (record b { selected_run_id = some id }))
        ∙ rw moved at found)
    where
      go :
          (t : Bool)
          → (binding.account_id == other) ≡ t
          → (if t then some (record b { selected_run_id = some id }) else get r.accounts other)
            ≡ some a
          → IsPortfolio a.initial_state
      go true k f =
          let one : record b { selected_run_id = some id } ≡ a = cc in
          rw (← one) (sound.accounts binding.account_id b row)
      go false k f = sound.accounts other a f

  by_end :
      (r r' : TradingRepository) (clock : Clock) (parent : Option Name) (promote : Bool)
      (state : Option PortfolioState) (out : Result SimulationOutcome)
      → IsSound r
      → ((s : PortfolioState) → state ≡ some s → IsPortfolio s)
      → Ended h service account_id source r clock parent promote state r' out
      → IsSound r'
  by_end r r' clock parent promote state _ sound given (stopped e same) = rw same sound
  by_end r r' clock parent promote state _ sound given (reused o same _) = rw same sound
  by_end r r' clock parent promote state _ sound given (run_failed e id unused ended) = record {
    accounts = rw ended.accounts sound.accounts;
    runs =
        written_runs r r' id ended.row sound ended.here ended.others
          (λ s k. absurd (cc (sym ended.unset ∙ k)));
  }
  by_end r r' clock parent promote state _ sound given
        (run_completed o sessions initial binding prepared unused kernel begun looped done whole) =
      record {
        accounts = Promoted-accounts r r' o.run_id promote binding sound done.promoted;
        runs = written_runs r r' o.run_id done.row sound done.here done.others (λ s k.
            let one : o.final_state ≡ s = cc (done.state) in
            rw (← one) (
              run_sessions-IsPortfolio h service account_id source kernel o.run_id sessions begun
                initial o.final_state
                (prepared_initial r clock parent state sessions initial binding sound given
                  prepared)
                looped));
      }

  -- A run of the service keeps the repository sound, however it ends: every account starts from a
  -- valid portfolio, and every final state that is stored is one, if that held before and a given
  -- first state is valid.
  pub run_simulation-IsSound :
      (r : TradingRepository) (clock : Clock) (parent : Option Name) (promote : Bool)
      (state : Option PortfolioState)
      → IsSound r
      → ((s : PortfolioState) → state ≡ some s → IsPortfolio s)
      → IsSound (run_simulation h service account_id source r clock parent promote state).0
  run_simulation-IsSound r clock parent promote state sound given =
      by_end r (run_simulation h service account_id source r clock parent promote state).0 clock
        parent promote state
        (run_simulation h service account_id source r clock parent promote state).1 sound given
        (run_simulation-Ended h service account_id source r clock parent promote state)
