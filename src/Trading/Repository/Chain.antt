-- ===== src/Trading/Repository/Chain.antt =====
-- The hash chain of a run: what `append_session` and `complete_run` write, `verify_run` accepts.
use mini_qmt.Common.{
  ℕ, suc, ◌+◌, ◌≡◌, refl, ◌∙◌, arith, Bool, true, false, not, ◌||◌, Option, none, some, List, [],
  ◌∷◌, ◌++◌, ◌==◌, ok, ◌>>=◌, or_raise, type_error, >>=-eq-ok, raise_if-eq-ok, ok-injective, length,
  any,
}
use mini_qmt.Common.Dict.{Dict, get, put, get-put}
use mini_qmt.Market.{Name}
use mini_qmt.Trading.State.{PortfolioState, LedgerEvent, Valuation}
use mini_qmt.Trading.Repository.{
  TradingRepository, Run, RunStatus, LedgerRow, Checkpoint, HashBody, event_body, result_body,
  binding_body, state_body, tail_hash, next_sequence, is_running, append_events, append_session,
  complete_run, promote_run, verify_rows, verify_result, verify_run, running, complete, failed,
  RunBinding, same_text, has_event, is_stored,
}

equal_self : (a : ℕ) → (a == a) ≡ true
equal_self a = ground arith

both_equal : (a b c d : ℕ) → (not (a == b) || not (c == d)) ≡ false → (a ≡ b) × (c ≡ d)
both_equal a b c d h = ground arith

pub equal_of : (a b : ℕ) → not (a == b) ≡ false → a ≡ b
equal_of a b h = ground arith

pub found : (runs : Dict Run) (id : Name) (x : Run) → get (put runs id x) id ≡ some x
found runs id x = rw (get-put runs id id x, equal_self id) refl

module _ (digest : HashBody → Name) (short : Name → Name) (id : Name) where
  -- The hash at the end of a chain of events: a fold of the digest, apart from any table.
  abbrev pub chain_head : ℕ → Name → List LedgerEvent → Name
  chain_head sequence previous [] = previous
  chain_head sequence previous (event ∷ events) =
      chain_head (sequence + 1) (digest (event_body id sequence event previous)) events

  -- Rows that verify end in the hash that verification returns, and are numbered on.
  verify_rows_tail :
      (expected : ℕ) (previous : Name) (rows : List LedgerRow) {head : Name}
      → verify_rows digest short id expected previous rows ≡ ok head
      → (tail_hash previous rows ≡ head) × (next_sequence expected rows ≡ expected + length rows)
  unfolding verify_rows
  verify_rows_tail expected previous [] {head} h = (ok-injective h, omega arith)
  verify_rows_tail expected previous (row ∷ rows) {head} h =
      let (numbered, h1) =
        raise_if-eq-ok (not (row.sequence == expected) || not (row.previous_hash == previous)) _ _
          h in
      let actual = digest (event_body id expected row.event previous) in
      let (hashed, h2) = raise_if-eq-ok (not (actual == row.event_hash)) _ _ h1 in
      let (sequence, _) = both_equal row.sequence expected row.previous_hash previous numbered in
      let same : actual ≡ row.event_hash = equal_of actual row.event_hash hashed in
      let (tail, next) = verify_rows_tail (expected + 1) actual rows h2 in
      (rw (← same) tail, rw sequence (next ∙ shift expected (length rows)))
    where
      shift : (a n : ℕ) → a + 1 + n ≡ a + suc n
      shift a n = omega arith

  -- Verification of rows after rows.
  verify_rows-append :
      (expected : ℕ) (previous : Name) (rows more : List LedgerRow) {head : Name}
      → verify_rows digest short id expected previous rows ≡ ok head
      → verify_rows digest short id expected previous (rows ++ more)
        ≡ verify_rows digest short id (expected + length rows) head more
  unfolding verify_rows
  verify_rows-append expected previous [] more {head} h =
      let same : previous ≡ head = ok-injective h in
      let zero_on : expected + 0 ≡ expected = omega arith in rw (zero_on, same) refl
  verify_rows-append expected previous (row ∷ rows) more {head} h =
      let numbering = not (row.sequence == expected) || not (row.previous_hash == previous) in
      let (numbered, h1) = raise_if-eq-ok numbering _ _ h in
      let actual = digest (event_body id expected row.event previous) in
      let (hashed, h2) = raise_if-eq-ok (not (actual == row.event_hash)) _ _ h1 in
      let shift : expected + 1 + length rows ≡ expected + suc (length rows) = omega arith in
      rw (numbered, hashed, ← shift) (verify_rows-append (expected + 1) actual rows more h2)

  -- The rows that are appended verify, up to the head of their events.
  append_events-verifies :
      (runs : Dict Run) (sequence : ℕ) (previous : Name) (added : List LedgerRow)
      (events : List LedgerEvent) {rows : List LedgerRow}
      → append_events digest short runs id sequence previous added events ≡ ok rows
      → verify_rows digest short id sequence previous rows
        ≡ ok (chain_head sequence previous events)
  unfolding append_events verify_rows
  append_events-verifies runs sequence previous added [] {rows} h = rw (← ok-injective h) refl
  append_events-verifies runs sequence previous added (event ∷ events) {rows} h =
      let event_hash = digest (event_body id sequence event previous) in
      let row : LedgerRow = record {
        sequence = sequence;
        event_id = short event_hash;
        event = event;
        previous_hash = previous;
        event_hash = event_hash;
      } in
      let (_, h1) =
        raise_if-eq-ok (is_stored row.event_id runs || has_event row.event_id added) _ _ h in
      let (rest, appended, done) =
        >>=-eq-ok
          (append_events digest short runs id (sequence + 1) event_hash (row ∷ added) events) _
          h1 in
      let same : row ∷ rest ≡ rows = ok-injective done in
      rw (← same, equal_self sequence, equal_self previous, equal_self event_hash)
        (append_events-verifies runs (sequence + 1) event_hash (row ∷ added) events appended)

  pub running_result :
      (x : Run) (head : Name)
      → is_running x.status ≡ true
      → verify_result digest short x head ≡ ok head
  running_result x head h = go x.status refl
    where
      go : (status : RunStatus) → x.status ≡ status → verify_result digest short x head ≡ ok head
      go running e = rw e refl
      go complete e = absurd (cc (rw e at h))
      go failed e = absurd (cc (rw e at h))

  stored : (o : Option Run) (e : _) {x : Run} → or_raise o e ≡ ok x → o ≡ some x
  stored none e h = absurd (cc h)
  stored (some y) e {x} h = let same : y ≡ x = ok-injective h in rw same refl

  pub running_of : (b : Bool) → not b ≡ false → b ≡ true
  running_of true h = refl
  running_of false h = absurd (cc h)

  -- The verification of a run whose row is known.
  pub verify_known :
      (r : TradingRepository) (x : Run)
      → get r.runs id ≡ some x
      → verify_run digest short r id ≡ (
          verify_rows digest short id 1 x.binding.initial_state_hash x.events >>= λ head.
          verify_result digest short x head)
  unfolding verify_run
  verify_known r x known = rw known refl

  -- A session that is appended to a run that verifies leaves a run that verifies: its head is the
  -- chain of the session's events from the head before. The run's hash of its initial state is the
  -- one of its binding, as `begin_run` stores it.
  pub append_session-verifies :
      (r r' : TradingRepository) (x : Run) (events : List LedgerEvent) (state : PortfolioState)
      (valuation : Valuation) {head : Name}
      → get r.runs id ≡ some x
      → x.initial_state_hash ≡ x.binding.initial_state_hash
      → verify_rows digest short id 1 x.binding.initial_state_hash x.events ≡ ok head
      → append_session digest short r id events state valuation ≡ ok r'
      → verify_run digest short r' id ≡ ok (chain_head (1 + length x.events) head events)
  unfolding append_session
  append_session-verifies r r' x events state valuation {head} known same verified h =
      let (guard, h1) = raise_if-eq-ok (not (is_running x.status)) _ _ (rw known at h) in
      let (rows, appended, h2) =
        >>=-eq-ok
          (append_events digest short r.runs id (next_sequence 1 x.events)
            (tail_hash x.initial_state_hash x.events) [] events)
          _ h1 in
      let repeated =
        any (λ (c : Checkpoint). c.session_date == valuation.session_date) x.checkpoints in
      let (_, done) = raise_if-eq-ok repeated _ _ h2 in
      let checkpoint : Checkpoint = record {
        session_date = valuation.session_date;
        state = state;
        state_hash = digest (state_body state);
        valuation = valuation;
      } in
      let x' : Run = record x {
        events = x.events ++ rows;
        checkpoints = x.checkpoints ++ checkpoint ∷ [];
      } in
      let written : TradingRepository = record r { runs = put r.runs id x' } in
      let whole : written ≡ r' = ok-injective done in
      let (tail, next) = verify_rows_tail 1 x.binding.initial_state_hash x.events verified in
      let appended_rows =
        append_events-verifies r.runs (next_sequence 1 x.events)
          (tail_hash x.initial_state_hash x.events) [] events appended in
      let verifies : verify_rows digest short id (1 + length x.events) head rows
          ≡ ok (chain_head (1 + length x.events) head events) =
        rw (same, tail, next) at appended_rows in
      rw (← whole) (
        finish (x.checkpoints ++ checkpoint ∷ []) rows (running_of (is_running x.status) guard)
          verifies)
    where
      finish :
          (checkpoints : List Checkpoint) (rows : List LedgerRow)
          → is_running x.status ≡ true
          → verify_rows digest short id (1 + length x.events) head rows
            ≡ ok (chain_head (1 + length x.events) head events)
          → verify_run digest short
              (record r {
                runs =
                    put r.runs id
                      (record x { events = x.events ++ rows; checkpoints = checkpoints });
              })
              id
            ≡ ok (chain_head (1 + length x.events) head events)
      finish checkpoints rows active verifies =
          let x' : Run = record x { events = x.events ++ rows; checkpoints = checkpoints } in
          rw
            (
              verify_known (record r { runs = put r.runs id x' }) x' (found r.runs id x'),
              verify_rows-append 1 x.binding.initial_state_hash x.events rows verified,
              verifies,
            )
            (running_result x' (chain_head (1 + length x.events) head events) active)

  promote_run_runs :
      (promote : Bool) (r : TradingRepository) (binding : RunBinding) {r' : TradingRepository}
      → promote_run digest short promote r id binding ≡ ok r'
      → r'.runs ≡ r.runs
  promote_run_runs false r binding {r'} h = let same : r ≡ r' = ok-injective h in rw same refl
  promote_run_runs true r binding {r'} h =
      let (a, _, h1) = >>=-eq-ok (or_raise (get r.accounts binding.account_id) type_error) _ h in
      let (_, done) =
        raise_if-eq-ok (not (same_text a.selected_run_id binding.parent_run_id)) _ _ h1 in
      let moved : TradingRepository = record r {
        accounts = put r.accounts binding.account_id (record a { selected_run_id = some id });
      } in
      let same : moved ≡ r' = ok-injective done in rw (← same) refl

  -- A run that is completed verifies, with the head that it had while it was running.
  pub complete_run-verifies :
      (r r' : TradingRepository) (x : Run) (final : PortfolioState) (promote : Bool) {head : Name}
      → get r.runs id ≡ some x
      → verify_rows digest short id 1 x.binding.initial_state_hash x.events ≡ ok head
      → complete_run digest short r id final promote ≡ ok r'
      → verify_run digest short r' id ≡ ok head
  unfolding complete_run
  complete_run-verifies r r' x final promote {head} known verified h =
      let (_, h1) = raise_if-eq-ok (not (is_running x.status)) _ _ (rw known at h) in
      let (tail, _) = verify_rows_tail 1 x.binding.initial_state_hash x.events verified in
      let final_hash = digest (state_body final) in
      let result = digest (
        result_body (digest (binding_body x.binding))
          (tail_hash x.binding.initial_state_hash x.events) (some final_hash)) in
      let known_result =
        digest (result_body (digest (binding_body x.binding)) head (some final_hash)) in
      let completed : Run = record x {
        status = complete;
        final_state = some final;
        final_state_hash = some final_hash;
        result_hash = some result;
      } in
      let runs : r'.runs ≡ put r.runs id completed =
        promote_run_runs promote (record r { runs = put r.runs id completed }) x.binding h1 in
      let row : get r'.runs id ≡ some completed = rw runs (found r.runs id completed) in
      rw (verify_known r' completed row, verified, tail, equal_self known_result) refl
