-- ===== src/Trading/Repository.antt =====
-- trading/repository.py: accounts, runs and the hash chain of their ledger events. The tables are
-- dicts in the order of insertion; a row holds the value of which the table has the JSON text. A
-- transaction that raises leaves the repository as it was. Times of creation are left out.
pub mod Chain
pub mod Begun
pub mod Written
pub mod Final
use mini_qmt.Common.{
  ℕ, zero, suc, ◌+◌, max, Bool, true, false, not, ◌&&◌, ◌||◌, Option, none, some, List, [], ◌∷◌,
  ◌++◌, ltb, ◌==◌, if◌then◌else◌, Result, ok, err, ◌>>=◌, ◌>>◌, raise_if, or_raise, value_error,
  key_error, type_error, runtime_error, integrity_error, any, find,
}
use mini_qmt.Common.Dict.{Dict, get, put}
use mini_qmt.Common.Int.{ℤ}
use mini_qmt.Market.{Name, Day}
use mini_qmt.Trading.State.{PortfolioState, LedgerEvent, Valuation}

pub data AccountStatus : Type 0 where
  active paused closed : AccountStatus

pub data RunMode : Type 0 where
  historical daily : RunMode

pub data RunStatus : Type 0 where
  running complete failed : RunStatus

pub record RunBinding : Type 0 where
  pub account_id : Name
  pub mode : RunMode
  pub snapshot_id : Name
  pub strategy_id : Name
  pub strategy_version : Name
  pub strategy_config_hash : Name
  pub execution_policy_hash : Name
  pub risk_policy_hash : Name
  pub fee_schedule_hash : Name
  pub initial_state_hash : Name
  pub start_date : Day
  pub end_date : Day
  pub seed : ℤ
  pub parent_run_id : Option Name

abbrev pub binding_identities : RunBinding → List Name
binding_identities b =
    b.account_id ∷ b.snapshot_id ∷ b.strategy_id ∷ b.strategy_version ∷ b.strategy_config_hash
    ∷ b.execution_policy_hash ∷ b.risk_policy_hash ∷ b.fee_schedule_hash ∷ b.initial_state_hash ∷ []

-- `RunBinding.__post_init__`
unfoldable pub check_binding : RunBinding → Result RunBinding
check_binding b = do
  raise_if (any (λ n. n == 0) (binding_identities b)) value_error
  raise_if (ltb b.end_date b.start_date) value_error
  ok b

-- The arguments of `stable_digest`.
pub data HashBody : Type 0 where
  state_body : PortfolioState → HashBody
  binding_body : RunBinding → HashBody
  run_body : Name → ℕ → HashBody
  event_body : Name → ℕ → LedgerEvent → Name → HashBody
  result_body : Name → Name → Option Name → HashBody

-- A row of `trading_ledger_events`.
pub record LedgerRow : Type 0 where
  pub sequence : ℕ
  pub event_id : Name
  pub event : LedgerEvent
  pub previous_hash : Name
  pub event_hash : Name

-- A row of `trading_checkpoints`.
pub record Checkpoint : Type 0 where
  pub session_date : Day
  pub state : PortfolioState
  pub state_hash : Name
  pub valuation : Valuation

-- A row of `simulation_runs`, with the events and the checkpoints of the run.
pub record Run : Type 0 where
  pub binding : RunBinding
  pub binding_hash : Name
  pub attempt : ℕ
  pub status : RunStatus
  pub initial_state : PortfolioState
  pub initial_state_hash : Name
  pub final_state : Option PortfolioState
  pub final_state_hash : Option Name
  pub result_hash : Option Name
  pub error : Option Name
  pub events : List LedgerRow
  pub checkpoints : List Checkpoint

-- A row of `trading_accounts`.
pub record Account : Type 0 where
  pub name : Name
  pub status : AccountStatus
  pub initial_state : PortfolioState
  pub selected_run_id : Option Name

pub record TradingRepository : Type 0 where
  pub accounts : Dict Account
  pub runs : Dict Run

abbrev pub is_running : RunStatus → Bool
is_running running = true
is_running _ = false

abbrev pub is_complete : RunStatus → Bool
is_complete complete = true
is_complete _ = false

abbrev pub is_active : AccountStatus → Bool
is_active active = true
is_active _ = false

abbrev is_closed : AccountStatus → Bool
is_closed closed = true
is_closed _ = false

abbrev pub same_text : Option Name → Option Name → Bool
same_text none none = true
same_text (some a) (some b) = a == b
same_text _ _ = false

-- `TradingRepository.account`
unfoldable pub account : TradingRepository → Name → Result Account
account r account_id = or_raise (get r.accounts account_id) key_error

-- `TradingRepository.run`
unfoldable pub run : TradingRepository → Name → Result Run
run r run_id = or_raise (get r.runs run_id) key_error

-- `TradingRepository.create_account`; the table's keys are the identifier and the name.
unfoldable pub create_account :
    TradingRepository → Name → Name → PortfolioState → Result TradingRepository
create_account r account_id name initial_state = do
  raise_if (account_id == 0 || name == 0) value_error
  raise_if (any (λ (e : ℕ × Account). e.0 == account_id || e.1.name == name) r.accounts)
      integrity_error
  let created : Account = record {
    name = name;
    status = active;
    initial_state = initial_state;
    selected_run_id = none;
  }
  ok (record r { accounts = put r.accounts account_id created })

-- `TradingRepository.set_account_status`
unfoldable pub set_account_status :
    TradingRepository → Name → AccountStatus → Result TradingRepository
set_account_status r account_id status = do
  current ← or_raise (get r.accounts account_id) key_error
  raise_if (is_closed current.status && not (is_closed status)) value_error
  ok (record r { accounts = put r.accounts account_id (record current { status = status }) })

-- The stored state of a run; a row without one cannot be read.
abbrev pub stored_state : Run → Result PortfolioState
stored_state x = or_raise x.final_state type_error

-- `TradingRepository.final_state`
unfoldable pub final_state : TradingRepository → Name → Result PortfolioState
final_state r run_id = do
  x ← or_raise (get r.runs run_id) value_error
  raise_if (not (is_complete x.status)) value_error
  stored_state x

abbrev pub selected_state_of :
    TradingRepository → Account → Option Name → Result (PortfolioState × Option Name)
selected_state_of r a none = ok (a.initial_state, none)
selected_state_of r a (some run_id) = do
  x ← or_raise (get r.runs run_id) key_error
  raise_if (not (is_complete x.status)) runtime_error
  state ← stored_state x
  ok (state, some run_id)

-- `TradingRepository.selected_state`
unfoldable pub selected_state : TradingRepository → Name → Result (PortfolioState × Option Name)
unfolding account
selected_state r account_id = do a ← account r account_id; selected_state_of r a a.selected_run_id

-- `TradingRepository.state_after`
unfoldable pub state_after : TradingRepository → Option Name → Name → Result PortfolioState
unfolding account run
state_after r none account_id = do a ← account r account_id; ok a.initial_state
state_after r (some run_id) account_id = do
  x ← run r run_id
  raise_if (not (x.binding.account_id == account_id) || not (is_complete x.status)) value_error
  stored_state x

-- The next attempt of a binding.
abbrev pub next_attempt : Name → Dict Run → ℕ
next_attempt hash [] = 1
next_attempt hash ((_, x) ∷ rest) =
    if x.binding_hash == hash
    then max (suc x.attempt) (next_attempt hash rest)
    else next_attempt hash rest

-- The last hash of a chain, or what it starts from.
abbrev pub tail_hash : Name → List LedgerRow → Name
tail_hash start [] = start
tail_hash start (row ∷ rows) = tail_hash row.event_hash rows

-- The sequence number after the last one.
abbrev pub next_sequence : ℕ → List LedgerRow → ℕ
next_sequence first [] = first
next_sequence first (row ∷ rows) = next_sequence (row.sequence + 1) rows

abbrev pub has_event : Name → List LedgerRow → Bool
has_event event_id rows = any (λ (row : LedgerRow). row.event_id == event_id) rows

-- `event_id` is unique over all runs.
abbrev pub is_stored : Name → Dict Run → Bool
is_stored event_id runs = any (λ (e : ℕ × Run). has_event event_id e.1.events) runs

-- The digest, and its first 24 digits, are parameters.
module _ (digest : HashBody → Name) (short : Name → Name) where
  -- A new run of a binding.
  abbrev pub new_run : RunBinding → PortfolioState → ℕ → Run
  new_run binding initial_state attempt = record {
    binding = binding;
    binding_hash = digest (binding_body binding);
    attempt = attempt;
    status = running;
    initial_state = initial_state;
    initial_state_hash = digest (state_body initial_state);
    final_state = none;
    final_state_hash = none;
    result_hash = none;
    error = none;
    events = [];
    checkpoints = [];
  }

  -- The completed run of the binding if there is one, or a new run.
  abbrev pub begin_by :
      TradingRepository
      → RunBinding
      → PortfolioState
      → Option (ℕ × Run)
      → Result (TradingRepository × Name × Bool)
  begin_by r binding initial_state (some (run_id, x)) = ok (r, run_id, false)
  begin_by r binding initial_state none = do
    let hash = digest (binding_body binding)
    let attempt = next_attempt hash r.runs
    let run_id = short (digest (run_body hash attempt))
    raise_if (any (λ (e : ℕ × Run). e.0 == run_id) r.runs) integrity_error
    ok (record r { runs = put r.runs run_id (new_run binding initial_state attempt) }, run_id, true)

  abbrev pub is_reusable : RunBinding → ℕ × Run → Bool
  is_reusable binding (_, x) =
      x.binding_hash == digest (binding_body binding) && is_complete x.status

  -- `begin_run`: the repository, the run, and whether it is new. Runs of one binding are stored in
  -- the order of their attempts.
  unfoldable pub begin_run :
      TradingRepository → RunBinding → PortfolioState → Result (TradingRepository × Name × Bool)
  unfolding account
  begin_run r binding initial_state = do
    a ← account r binding.account_id
    raise_if (not (is_active a.status)) value_error
    raise_if (not (digest (state_body initial_state) == binding.initial_state_hash)) value_error
    begin_by r binding initial_state (find (is_reusable binding) r.runs)

  -- The loop over the events of a session: their rows, each with the hash of the one before.
  unfoldable pub append_events :
      Dict Run → Name → ℕ → Name → List LedgerRow → List LedgerEvent → Result (List LedgerRow)
  append_events runs run_id sequence previous_hash added [] = ok []
  append_events runs run_id sequence previous_hash added (event ∷ events) = do
    let event_hash = digest (event_body run_id sequence event previous_hash)
    let row : LedgerRow = record {
      sequence = sequence;
      event_id = short event_hash;
      event = event;
      previous_hash = previous_hash;
      event_hash = event_hash;
    }
    raise_if (is_stored row.event_id runs || has_event row.event_id added) integrity_error
    rows ← append_events runs run_id (sequence + 1) event_hash (row ∷ added) events
    ok (row ∷ rows)

  -- `TradingRepository.append_session`
  unfoldable pub append_session :
      TradingRepository
      → Name
      → List LedgerEvent
      → PortfolioState
      → Valuation
      → Result TradingRepository
  unfolding append_events
  append_session r run_id events state valuation = do
    x ← or_raise (get r.runs run_id) value_error
    raise_if (not (is_running x.status)) value_error
    rows ←
        append_events r.runs run_id (next_sequence 1 x.events)
          (tail_hash x.initial_state_hash x.events) [] events
    raise_if (any (λ (c : Checkpoint). c.session_date == valuation.session_date) x.checkpoints)
        integrity_error
    let checkpoint : Checkpoint = record {
      session_date = valuation.session_date;
      state = state;
      state_hash = digest (state_body state);
      valuation = valuation;
    }
    ok (record r {
      runs =
          put r.runs run_id (record x {
            events = x.events ++ rows;
            checkpoints = x.checkpoints ++ checkpoint ∷ [];
          });
    })

  -- The account's head moves to the run if it still is the run's parent.
  abbrev pub promote_run : Bool → TradingRepository → Name → RunBinding → Result TradingRepository
  promote_run false r run_id binding = ok r
  promote_run true r run_id binding = do
    a ← or_raise (get r.accounts binding.account_id) type_error
    raise_if (not (same_text a.selected_run_id binding.parent_run_id)) runtime_error
    ok (record r {
      accounts = put r.accounts binding.account_id (record a { selected_run_id = some run_id });
    })

  -- `TradingRepository.complete_run`
  unfoldable pub complete_run :
      TradingRepository → Name → PortfolioState → Bool → Result TradingRepository
  complete_run r run_id final promote = do
    x ← or_raise (get r.runs run_id) value_error
    raise_if (not (is_running x.status)) value_error
    let head = tail_hash x.binding.initial_state_hash x.events
    let final_hash = digest (state_body final)
    let completed : Run = record x {
      status = complete;
      final_state = some final;
      final_state_hash = some final_hash;
      result_hash =
          some (digest (result_body (digest (binding_body x.binding)) head (some final_hash)));
    }
    promote_run promote (record r { runs = put r.runs run_id completed }) run_id x.binding

  -- `TradingRepository.fail_run`
  unfoldable pub fail_run : TradingRepository → Name → Name → Result TradingRepository
  fail_run r run_id error = do
    x ← or_raise (get r.runs run_id) value_error
    raise_if (not (is_running x.status)) value_error
    ok (record r { runs = put r.runs run_id (record x { status = failed; error = some error }) })

  -- The loop of `verify_run`: every row continues the chain.
  unfoldable pub verify_rows : Name → ℕ → Name → List LedgerRow → Result Name
  verify_rows run_id expected previous [] = ok previous
  verify_rows run_id expected previous (row ∷ rows) = do
    raise_if (not (row.sequence == expected) || not (row.previous_hash == previous)) runtime_error
    let actual = digest (event_body run_id expected row.event previous)
    raise_if (not (actual == row.event_hash)) runtime_error
    verify_rows run_id (expected + 1) actual rows

  abbrev pub verify_result : Run → Name → Result Name
  verify_result x head =
      if is_complete x.status
        && not (
            same_text
              (some
                (digest (result_body (digest (binding_body x.binding)) head x.final_state_hash)))
              x.result_hash)
      then err runtime_error
      else ok head

  -- `TradingRepository.verify_run`
  unfoldable pub verify_run : TradingRepository → Name → Result Name
  unfolding run verify_rows
  verify_run r run_id = do
    x ← run r run_id
    head ← verify_rows run_id 1 x.binding.initial_state_hash x.events
    verify_result x head
