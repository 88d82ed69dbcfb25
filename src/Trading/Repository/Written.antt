-- ===== src/Trading/Repository/Written.antt =====
-- What the writes to a run change: the run itself, and no other run and no account, except that a
-- completed run may move the head of its account.
use mini_qmt.Common.{
  ℕ, ◌≡◌, refl, sym, ◌∙◌, arith, Bool, true, false, not, Option, none, some, List, [], ◌∷◌, ◌++◌,
  ◌==◌, ok, >>=-eq-ok, raise_if-eq-ok, ok-injective, or_raise, type_error, any, ap, find,
  or_raise-eq-ok,
}
use mini_qmt.Common.Dict.{Dict, get, put, get-put}
use mathlib.Core.Path.{subst}
use mini_qmt.Market.{Name}
use mini_qmt.Trading.State.{PortfolioState, LedgerEvent, Valuation}
use mini_qmt.Trading.Repository.{
  TradingRepository, Run, complete, failed, RunBinding, Checkpoint, HashBody, state_body,
  binding_body, result_body, tail_hash, next_sequence, is_running, same_text, append_events,
  append_session, complete_run, promote_run, fail_run, verify_rows, verify_result, verify_run,
  new_run, begin_run, begin_by, next_attempt, run_body, account, is_active, is_reusable,
}
use mini_qmt.Trading.Repository.Chain.{
  found, running_of, verify_known, append_session-verifies, complete_run-verifies, equal_of,
}

-- The runs with other identifiers are as they were.
abbrev pub SameElsewhere : Name → TradingRepository → TradingRepository → Type 0
SameElsewhere id r r' =
    (other : Name) → (id == other) ≡ false → get r'.runs other ≡ get r.runs other

pub elsewhere_put :
    (id : Name) (r r' : TradingRepository) (x : Run)
    → r'.runs ≡ put r.runs id x
    → SameElsewhere id r r'
elsewhere_put id r r' x e other apart = rw (e, get-put r.runs id other x, apart) refl

pub elsewhere_then :
    (id : Name) (r s t : TradingRepository)
    → SameElsewhere id r s
    → SameElsewhere id s t
    → SameElsewhere id r t
elsewhere_then id r s t first second other apart = second other apart ∙ first other apart

module _ (digest : HashBody → Name) (short : Name → Name) (id : Name) where
  -- The run is running under its binding, and its chain of events verifies.
  pub record Going (binding : RunBinding) (r : TradingRepository) : Type 0 where
    pub row : Run
    pub here : get r.runs id ≡ some row
    pub active : is_running row.status ≡ true
    pub bound : row.binding ≡ binding
    pub hashed : row.initial_state_hash ≡ row.binding.initial_state_hash
    pub unset : row.final_state ≡ none
    pub head : Name
    pub verified : verify_rows digest short id 1 row.binding.initial_state_hash row.events ≡ ok head

  -- What a session that is appended leaves.
  pub record Appended (binding : RunBinding) (r r' : TradingRepository) : Type 0 where
    pub going : Going binding r'
    pub accounts : r'.accounts ≡ r.accounts
    pub others : SameElsewhere id r r'

  pub append_session-Appended :
      (binding : RunBinding) (r r' : TradingRepository) (events : List LedgerEvent)
      (state : PortfolioState) (valuation : Valuation)
      → Going binding r
      → append_session digest short r id events state valuation ≡ ok r'
      → Appended binding r r'
  unfolding append_session
  append_session-Appended binding r r' events state valuation g h =
      let x = g.row in
      let whole =
        append_session-verifies digest short id r r' x events state valuation g.here g.hashed
          g.verified h in
      let (guard, h1) = raise_if-eq-ok (not (is_running x.status)) _ _ (rw g.here at h) in
      let (rows, appended, h2) =
        >>=-eq-ok
          (append_events digest short r.runs id (next_sequence 1 x.events)
            (tail_hash x.initial_state_hash x.events) [] events)
          _ h1 in
      let repeated =
        any (λ (c : Checkpoint). c.session_date == valuation.session_date) x.checkpoints in
      let (_, done) = raise_if-eq-ok repeated _ _ h2 in
      let checkpoint : Checkpoint = record {
        session_date = valuation.session_date;
        state = state;
        state_hash = digest (state_body state);
        valuation = valuation;
      } in
      let x' : Run = record x {
        events = x.events ++ rows;
        checkpoints = x.checkpoints ++ checkpoint ∷ [];
      } in
      let written : TradingRepository = record r { runs = put r.runs id x' } in
      let same : written ≡ r' = ok-injective done in
      let runs : r'.runs ≡ put r.runs id x' = rw (← same) refl in
      let here : get r'.runs id ≡ some x' = rw runs (found r.runs id x') in
      let (head, verified, _) =
        >>=-eq-ok (verify_rows digest short id 1 x'.binding.initial_state_hash x'.events)
          (verify_result digest short x') (sym (verify_known digest short id r' x' here) ∙ whole) in
      record {
        going = record {
          row = x';
          here = here;
          active = g.active;
          bound = g.bound;
          hashed = g.hashed;
          unset = g.unset;
          head = head;
          verified = verified;
        };
        accounts = rw (← same) refl;
        others = elsewhere_put id r r' x' runs;
      }

  -- What `fail_run` leaves: the run is failed with the text of the exception.
  pub record Failed (error : Name) (r r' : TradingRepository) : Type 0 where
    pub row : Run
    pub here : get r'.runs id ≡ some row
    pub ended : row.status ≡ failed
    pub unset : row.final_state ≡ none
    pub reason : row.error ≡ some error
    pub accounts : r'.accounts ≡ r.accounts
    pub others : SameElsewhere id r r'

  -- A running run can be marked as failed.
  pub fail_run-Failed :
      (binding : RunBinding) (r : TradingRepository) (error : Name)
      → Going binding r
      → (r' : TradingRepository) × (fail_run digest short r id error ≡ ok r') × Failed error r r'
  unfolding fail_run
  fail_run-Failed binding r error g =
      let x : Run = record g.row { status = failed; error = some error } in
      let r' : TradingRepository = record r { runs = put r.runs id x } in
      (
        r',
        rw (g.here, g.active) refl,
        record {
          row = x;
          here = found r.runs id x;
          ended = refl;
          unset = g.unset;
          reason = refl;
          accounts = refl;
          others = elsewhere_put id r r' x refl;
        },
      )

  -- Where the head of the account is after a run is completed.
  abbrev pub Promoted : Bool → RunBinding → TradingRepository → TradingRepository → Type 0
  Promoted false binding r r' = r'.accounts ≡ r.accounts
  Promoted true binding r r' =
      (a : _) × (get r.accounts binding.account_id ≡ some a)
      × (same_text a.selected_run_id binding.parent_run_id ≡ true)
      × (r'.accounts ≡ put r.accounts binding.account_id (record a { selected_run_id = some id }))

  pub promote_run-Promoted :
      (promote : Bool) (binding : RunBinding) (r r' : TradingRepository)
      → promote_run digest short promote r id binding ≡ ok r'
      → Promoted promote binding r r' × (r'.runs ≡ r.runs)
  promote_run-Promoted false binding r r' h =
      let same : r ≡ r' = ok-injective h in (rw same refl, rw same refl)
  promote_run-Promoted true binding r r' h =
      let (a, found_account, h1) =
        >>=-eq-ok (or_raise (get r.accounts binding.account_id) type_error) _ h in
      let (kept, done) =
        raise_if-eq-ok (not (same_text a.selected_run_id binding.parent_run_id)) _ _ h1 in
      let moved : TradingRepository = record r {
        accounts = put r.accounts binding.account_id (record a { selected_run_id = some id });
      } in
      let same : moved ≡ r' = ok-injective done in
      (
        (
          a,
          or_raise-eq-ok (get r.accounts binding.account_id) type_error found_account,
          running_of digest short id (same_text a.selected_run_id binding.parent_run_id) kept,
          rw (← same) refl,
        ),
        rw (← same) refl,
      )

  -- What `complete_run` leaves: the run is complete with its final state, and still verifies.
  pub record Completed (binding : RunBinding) (final : PortfolioState) (promote : Bool)
      (r r' : TradingRepository) : Type 0 where
    pub row : Run
    pub here : get r'.runs id ≡ some row
    pub ended : row.status ≡ complete
    pub bound : row.binding ≡ binding
    pub state : row.final_state ≡ some final
    pub head : Name
    pub verifies : verify_run digest short r' id ≡ ok head
    pub promoted : Promoted promote binding r r'
    pub others : SameElsewhere id r r'

  pub complete_run-Completed :
      (binding : RunBinding) (r r' : TradingRepository) (final : PortfolioState) (promote : Bool)
      → Going binding r
      → complete_run digest short r id final promote ≡ ok r'
      → Completed binding final promote r r'
  unfolding complete_run
  complete_run-Completed binding r r' final promote g h =
      let x = g.row in
      let verifies =
        complete_run-verifies digest short id r r' x final promote g.here g.verified h in
      let (_, h1) = raise_if-eq-ok (not (is_running x.status)) _ _ (rw g.here at h) in
      let final_hash = digest (state_body final) in
      let result = digest (
        result_body (digest (binding_body x.binding))
          (tail_hash x.binding.initial_state_hash x.events) (some final_hash)) in
      let completed : Run = record x {
        status = complete;
        final_state = some final;
        final_state_hash = some final_hash;
        result_hash = some result;
      } in
      let middle : TradingRepository = record r { runs = put r.runs id completed } in
      let (promoted, runs) = promote_run-Promoted promote x.binding middle r' h1 in
      record {
        row = completed;
        here = rw runs (found r.runs id completed);
        ended = refl;
        bound = g.bound;
        state = refl;
        head = g.head;
        verifies = verifies;
        promoted =
            of_middle promote middle refl
              (subst (λ b. Promoted promote b middle r') g.bound promoted);
        others = elsewhere_put id r r' completed runs;
      }
    where
      of_middle :
          (p : Bool) (m : TradingRepository)
          → m.accounts ≡ r.accounts
          → Promoted p binding m r'
          → Promoted p binding r r'
      of_middle false m e k = k ∙ e
      of_middle true m e (a, k, l, n) = (a, rw (← e) k, l, rw (← e) n)

-- A key that no entry has is not found.
get-none :
    (runs : Dict Run) (id : Name)
    → any (λ (e : ℕ × Run). e.0 == id) runs ≡ false
    → get runs id ≡ none
unfolding get
get-none [] id h = refl
get-none ((k, x) ∷ runs) id h = ground (arith, get-none runs id)

module _ (digest : HashBody → Name) (short : Name → Name) where
  -- What a new run is: its identifier was not used before, and it is running without events.
  pub record Fresh (binding : RunBinding) (id : Name) (r r' : TradingRepository) : Type 0 where
    pub unused : get r.runs id ≡ none
    pub going : Going digest short id binding r'
    pub accounts : r'.accounts ≡ r.accounts
    pub others : SameElsewhere id r r'

  begin_by-Fresh :
      (r r' : TradingRepository) (binding : RunBinding) (initial : PortfolioState)
      (o : Option (ℕ × Run)) (id : Name)
      → digest (state_body initial) ≡ binding.initial_state_hash
      → begin_by digest short r binding initial o ≡ ok (r', id, true)
      → Fresh binding id r r'
  begin_by-Fresh r r' binding initial (some (run_id, x)) id start h =
      absurd (cc (ap (λ (t : TradingRepository × Name × Bool). t.2) (ok-injective h)))
  begin_by-Fresh r r' binding initial none id start h =
      let attempt = next_attempt (digest (binding_body binding)) r.runs in
      let run_id = short (digest (run_body (digest (binding_body binding)) attempt)) in
      let x : Run = new_run digest short binding initial attempt in
      let written : TradingRepository = record r { runs = put r.runs run_id x } in
      let (unused, done) = raise_if-eq-ok (any (λ (k : ℕ × Run). k.0 == run_id) r.runs) _ _ h in
      let same : (written, run_id, true) ≡ (r', id, true) = ok-injective done in
      let whole : written ≡ r' = ap (λ (t : TradingRepository × Name × Bool). t.0) same in
      let key : run_id ≡ id = ap (λ (t : TradingRepository × Name × Bool). t.1) same in
      rw (← whole, ← key)
        (record {
          unused = get-none r.runs run_id unused;
          going = record {
            row = x;
            here = found r.runs run_id x;
            active = refl;
            bound = refl;
            hashed = start;
            unset = refl;
            head = binding.initial_state_hash;
            verified = unfold verify_rows in refl;
          };
          accounts = refl;
          others = elsewhere_put run_id r written x refl;
        })

  pub begin_run-Fresh :
      (r r' : TradingRepository) (binding : RunBinding) (initial : PortfolioState) (id : Name)
      → begin_run digest short r binding initial ≡ ok (r', id, true)
      → Fresh binding id r r'
  unfolding begin_run
  begin_run-Fresh r r' binding initial id h =
      let (a, _, h1) = >>=-eq-ok (account r binding.account_id) _ h in
      let (_, h2) = raise_if-eq-ok (not (is_active a.status)) _ _ h1 in
      let (hashed, h3) =
        raise_if-eq-ok (not (digest (state_body initial) == binding.initial_state_hash)) _ _ h2 in
      begin_by-Fresh r r' binding initial (find (is_reusable digest short binding) r.runs) id
        (equal_of (digest (state_body initial)) binding.initial_state_hash hashed) h3
