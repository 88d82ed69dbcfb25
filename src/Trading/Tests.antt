-- ===== src/Trading/Tests.antt =====
-- Examples of the theorems on the repository: a run of one session.
use mini_qmt.Common.{ℕ, ◌+◌, ◌*◌, ◌≡◌, ◌⊎◌, refl, true, false, none, some, [], ◌∷◌, length, ok}
use mini_qmt.Common.Dict.{get, put}
use mini_qmt.Common.Int.{pos}
use mini_qmt.Market.{Name}
use mini_qmt.Trading.State.{
  PortfolioState, LedgerEvent, Valuation, EntityType, portfolio_valued, of_valuation,
}
use mini_qmt.Trading.Repository.{
  TradingRepository, Run, RunBinding, HashBody, event_body, active, historical, running, complete,
  begin_run, append_session, complete_run, verify_rows, verify_run, LedgerRow,
}
use mini_qmt.Trading.Repository.Begun.{Reused, Started, begin_run-Begun}
use mini_qmt.Trading.Repository.Final.{Final, by_completion, Ends-Final}
use mini_qmt.Trading.Repository.Chain.{chain_head, append_session-verifies, complete_run-verifies}

-- A digest that tells the events of a run apart.
abbrev pub digest : HashBody → Name
digest (event_body run_id sequence event previous) = 100 * previous + sequence
digest _ = 41

abbrev pub short : Name → Name
short hash = hash

abbrev pub state : PortfolioState
state = record {
  initial_cash = pos 100;
  cash = pos 100;
  lots = [];
  pending_orders = [];
  entitlements = [];
  last_prices = [];
  realized_pnl = pos 0;
  fees_paid = pos 0;
  dividend_income = pos 0;
  incomplete_reasons = [];
}

abbrev valuation : Valuation
valuation = record {
  session_date = 11;
  cash = pos 100;
  market_value = pos 0;
  total_equity = pos 100;
  nav = pos 100000000;
  stale_instruments = [];
}

abbrev event : LedgerEvent
event = record {
  session_date = 11;
  event_type = portfolio_valued;
  entity_type = EntityType.portfolio;
  entity_id = 1;
  payload = of_valuation valuation;
}

abbrev binding : RunBinding
binding = record {
  account_id = 1;
  mode = historical;
  snapshot_id = 1;
  strategy_id = 1;
  strategy_version = 1;
  strategy_config_hash = 1;
  execution_policy_hash = 1;
  risk_policy_hash = 1;
  fee_schedule_hash = 1;
  initial_state_hash = 41;
  start_date = 11;
  end_date = 12;
  seed = pos 0;
  parent_run_id = none;
}

abbrev begun : Run
begun = record {
  binding = binding;
  binding_hash = 41;
  attempt = 1;
  status = running;
  initial_state = state;
  initial_state_hash = 41;
  final_state = none;
  final_state_hash = none;
  result_hash = none;
  error = none;
  events = [];
  checkpoints = [];
}

abbrev repository : TradingRepository
repository = record {
  accounts =
      (1, record { name = 1; status = active; initial_state = state; selected_run_id = none }) ∷ [];
  runs = [];
}

abbrev started : TradingRepository
started = record repository { runs = (41, begun) ∷ [] }

begin_run-Begun_example :
    ((true ≡ false) × Reused digest short repository binding started 41)
    ⊎ ((true ≡ true) × Started digest short repository binding state started 41)
unfolding begin_run get put
begin_run-Begun_example = begin_run-Begun digest short repository binding state started 41 true refl

abbrev row : ℕ → ℕ → ℕ → LedgerRow
row n previous hash = record {
  sequence = n;
  event_id = hash;
  event = event;
  previous_hash = previous;
  event_hash = hash;
}

abbrev after : Run
after = record begun {
  events = row 1 41 4101 ∷ row 2 4101 410102 ∷ [];
  checkpoints =
      record { session_date = 11; state = state; state_hash = 41; valuation = valuation } ∷ [];
}

abbrev appended : TradingRepository
appended = record repository { runs = (41, after) ∷ [] }

append_session-verifies_example :
    verify_run digest short appended 41
    ≡ ok (chain_head digest short 41 (1 + length begun.events) 41 (event ∷ event ∷ []))
unfolding append_session get put verify_rows
append_session-verifies_example =
    append_session-verifies digest short 41 started appended begun (event ∷ event ∷ []) state
      valuation refl refl refl refl

abbrev finished : TradingRepository
finished = record {
  accounts =
      (1, record { name = 1; status = active; initial_state = state; selected_run_id = some 41 })
      ∷ [];
  runs =
      (
        41,
        record after {
          status = complete;
          final_state = some state;
          final_state_hash = some 41;
          result_hash = some 41;
        },
      )
      ∷ [];
}

complete_run-verifies_example : verify_run digest short finished 41 ≡ ok 410102
unfolding complete_run get put verify_rows
complete_run-verifies_example =
    complete_run-verifies digest short 41 appended finished after state true refl refl refl

Ends-Final_example : Final digest short 41 finished
unfolding complete_run get put verify_rows
Ends-Final_example = Ends-Final digest short 41 appended finished (by_completion state true refl)
