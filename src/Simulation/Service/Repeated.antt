-- ===== src/Simulation/Service/Repeated.antt =====
-- Running the same day again returns the run that is there.
use mini_qmt.Common.{
  ℕ, ◌≡◌, refl, sym, ap, ◌∙◌, arith, Bool, true, false, not, Option, none, some, List, [], ◌∷◌, ltb,
  ◌==◌, if◌then◌else◌, Result, ok, err, value_error, >>=-eq-ok, raise_if-eq-ok, ok-injective,
  is_empty, any,
}
use mini_qmt.Common.Dict.{get, get-put}
use mini_qmt.Market.{Name, Day}
use mini_qmt.Market.Portal
use mini_qmt.Trading.State.{PortfolioState}
use mini_qmt.Trading.Repository.{
  TradingRepository, Run, RunBinding, complete, account, run, selected_state, final_state,
  verify_run, check_binding, binding_identities,
}
use mini_qmt.Trading.Repository.Written.{Completed}
use mini_qmt.Simulation.Service.{
  Digests, SimulationService, SimulationOutcome, IntentSource, daily_clock, clock_sessions, is_only,
  attempt, check_parent, initial_by, binding_of, prepare, run_simulation, matches_daily_request,
  repeat_daily, daily_after, daily_by, run_daily,
}
use mini_qmt.Simulation.Service.Ended.{Ended, reused, run_completed, run_simulation-Ended}

only_lem : (target : Day) (days : List Day) → is_only target days ≡ true → days ≡ target ∷ []
only_lem target [] h = absurd (cc h)
only_lem target (d ∷ []) h = let e : d ≡ target = ground arith in rw e refl
only_lem target (d ∷ d' ∷ days) h = absurd (cc h)

not-false : (b : Bool) → not b ≡ false → b ≡ true
not-false true h = refl
not-false false h = absurd (cc h)

itself : (n : ℕ) → (n == n) ≡ true
itself n = ground arith

check_binding-eq-ok : (b b' : RunBinding) → check_binding b ≡ ok b' → b' ≡ b
unfolding check_binding
check_binding-eq-ok b b' e =
    let (_, e1) = raise_if-eq-ok (any (λ n. n == 0) (binding_identities b)) _ _ e in
    let (_, e2) = raise_if-eq-ok (ltb b.end_date b.start_date) _ _ e1 in sym (ok-injective e2)

module _ (h : Digests) (service : SimulationService) (account_id : Name) (source : IntentSource)
    (target : Day) where
  -- What a daily run is bound to.
  prepared_binding :
      (r : TradingRepository) (parent : Option Name) (state : Option PortfolioState)
      (sessions : List Day) (initial : PortfolioState) (binding : RunBinding)
      → prepare h service account_id source r (daily_clock target) parent state
        ≡ ok (sessions, initial, binding)
      → binding
        ≡ binding_of h service account_id source (daily_clock target) (target ∷ []) initial parent
  unfolding prepare clock_sessions check_binding
  prepared_binding r parent state sessions initial binding e =
      let (found, days, e1) =
        >>=-eq-ok (clock_sessions (daily_clock target) service.market_data) _ e in
      let (open_days, _, days1) =
        >>=-eq-ok (Portal.trading_days service.market_data target target) _ days in
      let (only, days2) = raise_if-eq-ok (not (is_only target open_days)) _ _ days1 in
      let single : found ≡ target ∷ [] =
        sym (ok-injective days2) ∙ only_lem target open_days (not-false _ only) in
      let (_, e2) = raise_if-eq-ok (is_empty found) _ _ e1 in
      let (_, _, e3) = >>=-eq-ok (check_parent h service account_id source r found parent) _ e2 in
      let (first, _, e4) = >>=-eq-ok (initial_by h service account_id source r parent state) _ e3 in
      let candidate =
        binding_of h service account_id source (daily_clock target) found first parent in
      let (bound, checked, e5) = >>=-eq-ok (check_binding candidate) _ e4 in
      let whole : (found, first, bound) ≡ (sessions, initial, binding) = ok-injective e5 in
      let same : bound ≡ binding = ap (λ (t : List Day × PortfolioState × RunBinding). t.2) whole in
      let same_first : first ≡ initial =
        ap (λ (t : List Day × PortfolioState × RunBinding). t.1) whole in
      sym same ∙ check_binding-eq-ok candidate bound checked ∙ rw (single, same_first) refl

  matches_bound :
      (x : Run) (initial : PortfolioState) (parent : Option Name)
      → x.status ≡ complete
      → x.binding
        ≡ binding_of h service account_id source (daily_clock target) (target ∷ []) initial parent
      → matches_daily_request h service account_id source x target ≡ true
  unfolding matches_daily_request
  matches_bound x initial parent ended bound = rw (ended, bound) (simp itself)

  -- The head of the account after a daily run that was completed and promoted.
  repeat-Completed :
      (r r' : TradingRepository) (o : SimulationOutcome) (initial : PortfolioState)
      (parent : Option Name) (binding : RunBinding)
      → binding
        ≡ binding_of h service account_id source (daily_clock target) (target ∷ []) initial parent
      → (done : Completed h.stored h.short o.run_id binding o.final_state true r r')
      → o ≡ record {
        run_id = o.run_id;
        run = done.row;
        final_state = o.final_state;
        event_chain_head = done.head;
        reused = false;
      }
      → run_daily h service account_id source r' target none true
        ≡ (r', ok (record o { reused = true }))
  unfolding run_daily
  repeat-Completed r r' o initial parent binding bound done e =
      let x = done.row in
      let (a, _, _, moved) = done.promoted in
      let owner : binding.account_id ≡ account_id = rw bound refl in
      let head : get r'.accounts account_id ≡ some (record a { selected_run_id = some o.run_id }) =
        rw (moved, owner, get-put r.accounts account_id account_id _, itself account_id) refl in
      let selected : selected_state r' account_id ≡ ok (o.final_state, some o.run_id) =
        unfold selected_state account in rw (head, done.here, done.ended, done.state) refl in
      let row : run r' o.run_id ≡ ok x = unfold run in rw done.here refl in
      let until : (target == x.binding.end_date) ≡ true = rw (done.bound, bound) (itself target) in
      let final : final_state r' o.run_id ≡ ok o.final_state =
        unfold final_state in rw (done.here, done.ended, done.state) refl in
      let again : SimulationOutcome = record {
        run_id = o.run_id;
        run = x;
        final_state = o.final_state;
        event_chain_head = done.head;
        reused = true;
      } in
      let repeated : repeat_daily h service account_id source r' o.run_id x target ≡ ok again =
        unfold repeat_daily in
        rw (matches_bound x initial parent done.ended (done.bound ∙ bound), final, done.verifies)
          refl in
      let same : again ≡ record o { reused = true } =
        ap (λ (t : SimulationOutcome). record t { reused = true }) (sym e) in
      rw (selected, row, until, repeated, same) refl

  -- A call that stored nothing and returned a run that was there returns the same again.
  again_unchanged :
      (r r' : TradingRepository) (o : SimulationOutcome)
      → r' ≡ r
      → o.reused ≡ true
      → run_daily h service account_id source r target none true ≡ (r', ok o)
      → run_daily h service account_id source r' target none true
        ≡ (r', ok (record o { reused = true }))
  again_unchanged r r' o same flag e =
      let flagged : record o { reused = true } ≡ o =
        ap (λ (b : Bool). record o { reused = b }) (sym flag) in
      rw (same, flagged) (rw same at e)

  -- What a call came to, by how the run ended.
  by_end :
      (r r' : TradingRepository) (o : SimulationOutcome) (parent : Option Name)
      (state : Option PortfolioState)
      → run_daily h service account_id source r target none true ≡ (r', ok o)
      → Ended h service account_id source r (daily_clock target) parent true state r' (ok o)
      → run_daily h service account_id source r' target none true
        ≡ (r', ok (record o { reused = true }))
  by_end r r' o parent state e (reused _ same found) = again_unchanged r r' o same found.flag e
  by_end r r' o parent state e
        (run_completed _ sessions initial binding prepared _ _ _ _ done whole) =
      let bound = prepared_binding r parent state sessions initial binding prepared in
      repeat-Completed r r' o initial parent binding bound done whole

  by_ran :
      (r r' : TradingRepository) (o : SimulationOutcome) (parent : Option Name)
      (state : Option PortfolioState)
      → run_daily h service account_id source r target none true ≡ (r', ok o)
      → run_simulation h service account_id source r (daily_clock target) parent true state
        ≡ (r', ok o)
      → run_daily h service account_id source r' target none true
        ≡ (r', ok (record o { reused = true }))
  by_ran r r' o parent state e ran = by_end r r' o parent state e (
      rw ran at
        (run_simulation-Ended h service account_id source r (daily_clock target) parent true state))

  repeat_daily-reused :
      (r : TradingRepository) (id : Name) (x : Run) (o : SimulationOutcome)
      → repeat_daily h service account_id source r id x target ≡ ok o
      → o.reused ≡ true
  unfolding repeat_daily
  repeat_daily-reused r id x o e =
      let (_, e1) =
        raise_if-eq-ok (not (matches_daily_request h service account_id source x target)) _ _ e in
      let (final, _, e2) = >>=-eq-ok (final_state r id) _ e1 in
      let (head, _, e3) = >>=-eq-ok (verify_run h.stored h.short r id) _ e2 in
      let made : SimulationOutcome = record {
        run_id = id;
        run = x;
        final_state = final;
        event_chain_head = head;
        reused = true;
      } in
      let same : made ≡ o = ok-injective e3 in rw (← same) refl

  by_selected :
      (r r' : TradingRepository) (o : SimulationOutcome)
      (selected : Result (PortfolioState × Option Name))
      → run_daily h service account_id source r target none true ≡ (r', ok o)
      → attempt r selected (daily_by h service account_id source r target true) ≡ (r', ok o)
      → run_daily h service account_id source r' target none true
        ≡ (r', ok (record o { reused = true }))
  by_selected r r' o (err e) whole k = absurd (cc k)
  by_selected r r' o (ok (initial, none)) whole k = by_ran r r' o none (some initial) whole k
  by_selected r r' o (ok (initial, some id)) whole k = by_row (run r id) k
    where
      later :
          (x : Run) (b c : Bool)
          → (if b
              then (r, repeat_daily h service account_id source r id x target)
              else if c
              then (r, err value_error)
              else run_simulation h service account_id source r
                  (daily_clock target)
                  (some id)
                  true
                  (some initial))
            ≡ (r', ok o)
          → run_daily h service account_id source r' target none true
            ≡ (r', ok (record o { reused = true }))
      later x true c k =
          again_unchanged r r' o (sym (ap (λ t. t.0) k))
            (repeat_daily-reused r id x o (ap (λ t. t.1) k)) whole
      later x false true k = absurd (cc (ap (λ t. t.1) k))
      later x false false k = by_ran r r' o (some id) (some initial) whole k

      by_row :
          (row : Result Run)
          → attempt r row (daily_after h service account_id source r target true initial id)
            ≡ (r', ok o)
          → run_daily h service account_id source r' target none true
            ≡ (r', ok (record o { reused = true }))
      by_row (err e) k = absurd (cc (ap (λ t. t.1) k))
      by_row (ok x) k = later x (target == x.binding.end_date) (ltb target x.binding.end_date) k

  -- A daily run that is promoted and returns an outcome can be repeated: the second call stores
  -- nothing and returns the same outcome, marked as reused. It does so also after a first call that
  -- found its run in the repository.
  pub run_daily_twice :
      (r r' : TradingRepository) (o : SimulationOutcome)
      → run_daily h service account_id source r target none true ≡ (r', ok o)
      → run_daily h service account_id source r' target none true
        ≡ (r', ok (record o { reused = true }))
  run_daily_twice r r' o e =
      by_selected r r' o (selected_state r account_id) e (unfold run_daily in e)
