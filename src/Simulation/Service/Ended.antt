-- ===== src/Simulation/Service/Ended.antt =====
-- Every run that the service begins ends: it is completed or failed when the call returns, and the
-- other runs are as they were.
use mini_qmt.Common.{
  ◌≡◌, refl, sym, ◌∙◌, Bool, true, false, not, Option, none, List, Result, ok, err, Error,
  >>=-eq-ok, raise_if-eq-ok, ok-injective, is_empty, ◌⊎◌, inl, inr,
}
use mini_qmt.Common.Dict.{get}
use mathlib.Core.Path.{subst}
use mini_qmt.Market.{Name, Day}
use mini_qmt.Trading.State.{PortfolioState}
use mini_qmt.Trading.Repository.{
  TradingRepository, RunBinding, is_complete, run, complete_run, begin_run, verify_run, final_state,
}
use mini_qmt.Trading.Repository.Begun.{Reused, Started, begin_run-Begun}
use mini_qmt.Trading.Repository.Chain.{running_of}
use mini_qmt.Trading.Repository.Written.{
  elsewhere_then, Failed, fail_run-Failed, Completed, complete_run-Completed, Promoted,
  begin_run-Fresh,
}
use mini_qmt.Kernel.Setup.{TradingKernel}
use mini_qmt.Simulation.Service.Kept.{Kept, run_sessions-Kept, kernel_built}
use mini_qmt.Simulation.Service.{
  Digests, SimulationService, SimulationOutcome, IntentSource, Clock, clock_sessions, attempt,
  run_sessions, mark_failed, outcome_of, complete_by, settle, reuse_run, service_kernel, run_begun,
  prepare, run_simulation,
}

module _ (h : Digests) (service : SimulationService) (account_id : Name)
    (source : IntentSource) where
  -- The outcome is a completed run of the repository, with its state and the head of its chain.
  pub record Stored (r : TradingRepository) (o : SimulationOutcome) : Type 0 where
    pub flag : o.reused ≡ true
    pub row : run r o.run_id ≡ ok o.run
    pub ended : is_complete o.run.status ≡ true
    pub state : final_state r o.run_id ≡ ok o.final_state
    pub verifies : verify_run h.stored h.short r o.run_id ≡ ok o.event_chain_head

  -- How a call of `_run` ends.
  pub data Ended (r : TradingRepository) (clock : Clock) (parent : Option Name) (promote : Bool)
      (state : Option PortfolioState) (r' : TradingRepository)
      : Result SimulationOutcome → Type 0 where
    -- It raises and has stored nothing.
    stopped : (e : Error) → r' ≡ r → Ended r clock parent promote state r' (err e)
    -- It returns a completed run that verifies and has stored nothing.
    reused :
        (o : SimulationOutcome) → r' ≡ r → Stored r o → Ended r clock parent promote state r' (ok o)
    -- It raises, and the run that it began is failed.
    run_failed :
        (e : Error) (id : Name)
        → get r.runs id ≡ none
        → Failed h.stored h.short id (h.describe e) r r'
        → Ended r clock parent promote state r' (err e)
    -- It returns the run that it began, which is completed and verifies.
    run_completed :
        (o : SimulationOutcome) (sessions : List Day) (initial : PortfolioState)
        (binding : RunBinding)
        → prepare h service account_id source r clock parent state ≡ ok (sessions, initial, binding)
        → get r.runs o.run_id ≡ none
        → (kernel : TradingKernel) (begun : TradingRepository)
        → (run_sessions h service account_id source kernel o.run_id sessions begun initial).1
          ≡ ok o.final_state
        → (done : Completed h.stored h.short o.run_id binding o.final_state promote r r')
        → o ≡ record {
          run_id = o.run_id;
          run = done.row;
          final_state = o.final_state;
          event_chain_head = done.head;
          reused = false;
        }
        → Ended r clock parent promote state r' (ok o)

  module _ (r : TradingRepository) (clock : Clock) (parent : Option Name) (promote : Bool)
      (state : Option PortfolioState) (sessions : List Day) (initial : PortfolioState)
      (binding : RunBinding)
      (prepared : prepare h service account_id source r clock parent state
        ≡ ok (sessions, initial, binding)) where
    -- A run that is marked as failed.
    mark_failed-Ended :
        (id : Name) (r1 : TradingRepository) (e : Error)
        → get r.runs id ≡ none
        → Kept h service account_id source id binding r r1
        → Ended r clock parent promote state
            (mark_failed h service account_id source r1 id e)
            (err e)
    mark_failed-Ended id r1 e unused kept =
        let (r2, done, ended) =
          fail_run-Failed h.stored h.short id binding r1 (h.describe e) kept.going in
        rw done (
          run_failed e id unused (record {
            row = ended.row;
            here = ended.here;
            ended = ended.ended;
            unset = ended.unset;
            reason = ended.reason;
            accounts = ended.accounts ∙ kept.accounts;
            others = elsewhere_then id r r1 r2 kept.others ended.others;
          }))

    outcome_of-Completed :
        (id : Name) (r2 : TradingRepository) (final : PortfolioState)
        (done : Completed h.stored h.short id binding final promote r r2)
        → outcome_of h service account_id source r2 id final false
          ≡ ok (record {
            run_id = id;
            run = done.row;
            final_state = final;
            event_chain_head = done.head;
            reused = false;
          })
    unfolding outcome_of run
    outcome_of-Completed id r2 final done = rw (done.here, done.verifies) refl

    complete_by-Ended :
        (id : Name) (r1 : TradingRepository) (final : PortfolioState)
        (step : Result TradingRepository) (kernel : TradingKernel) (begun : TradingRepository)
        → get r.runs id ≡ none
        → (run_sessions h service account_id source kernel id sessions begun initial).1 ≡ ok final
        → Kept h service account_id source id binding r r1
        → complete_run h.stored h.short r1 id final promote ≡ step
        → Ended r clock parent promote state
            (complete_by h service account_id source r1 id final step).0
            (complete_by h service account_id source r1 id final step).1
    complete_by-Ended id r1 final (err e) kernel begun unused looped kept k =
        mark_failed-Ended id r1 e unused kept
    complete_by-Ended id r1 final (ok r2) kernel begun unused looped kept k =
        let done =
          complete_run-Completed h.stored h.short id binding r1 r2 final promote kept.going k in
        let whole : Completed h.stored h.short id binding final promote r r2 = record {
          row = done.row;
          here = done.here;
          ended = done.ended;
          bound = done.bound;
          state = done.state;
          head = done.head;
          verifies = done.verifies;
          promoted = earlier promote r2 kept.accounts done.promoted;
          others = elsewhere_then id r r1 r2 kept.others done.others;
        } in
        rw (outcome_of-Completed id r2 final whole)
          (run_completed _ sessions initial binding prepared unused kernel begun looped whole refl)
      where
        earlier :
            (p : Bool) (r2 : TradingRepository)
            → r1.accounts ≡ r.accounts
            → Promoted h.stored h.short id p binding r1 r2
            → Promoted h.stored h.short id p binding r r2
        earlier false r2 e k = k ∙ e
        earlier true r2 e (a, k, l, n) = (a, rw (← e) k, l, rw (← e) n)

    settle-Ended :
        (id : Name) (r1 : TradingRepository) (out : Result PortfolioState) (kernel : TradingKernel)
        (begun : TradingRepository)
        → get r.runs id ≡ none
        → (run_sessions h service account_id source kernel id sessions begun initial).1 ≡ out
        → Kept h service account_id source id binding r r1
        → Ended r clock parent promote state
            (settle h service account_id source promote id (r1, out)).0
            (settle h service account_id source promote id (r1, out)).1
    settle-Ended id r1 (err e) kernel begun unused looped kept =
        mark_failed-Ended id r1 e unused kept
    settle-Ended id r1 (ok final) kernel begun unused looped kept =
        complete_by-Ended id r1 final (complete_run h.stored h.short r1 id final promote) kernel
          begun unused looped kept refl

    reuse_run-Stored :
        (r1 : TradingRepository) (id : Name) (o : SimulationOutcome)
        → reuse_run h service account_id source r1 id ≡ ok o
        → Stored r1 o
    unfolding reuse_run outcome_of
    reuse_run-Stored r1 id o e =
        let (x, row, e1) = >>=-eq-ok (run r1 id) _ e in
        let (ended, e2) = raise_if-eq-ok (not (is_complete x.status)) _ _ e1 in
        let (final, state, e3) = >>=-eq-ok (final_state r1 id) _ e2 in
        let (x', row', e4) = >>=-eq-ok (run r1 id) _ e3 in
        let (head, verifies, e5) = >>=-eq-ok (verify_run h.stored h.short r1 id) _ e4 in
        let made : SimulationOutcome = record {
          run_id = id;
          run = x';
          final_state = final;
          event_chain_head = head;
          reused = true;
        } in
        let same : made ≡ o = ok-injective e5 in
        let one : x ≡ x' = ok-injective (sym row ∙ row') in
        rw (← same) (record {
          flag = refl;
          row = row';
          ended = rw (← one) (running_of h.stored h.short id (is_complete x.status) ended);
          state = state;
          verifies = verifies;
        })

    begun_again :
        (r1 : TradingRepository) (id : Name)
        → begin_run h.stored h.short r binding initial ≡ ok (r1, id, false)
        → r1 ≡ r
    begun_again r1 id k = go (begin_run-Begun h.stored h.short r binding initial r1 id false k)
      where
        go :
            ((false ≡ false) × Reused h.stored h.short r binding r1 id)
              ⊎ ((false ≡ true) × Started h.stored h.short r binding initial r1 id)
            → r1 ≡ r
        go (inl (_, found)) = found.unchanged
        go (inr (new, _)) = absurd (cc new)

    begun-Ended :
        (step : Result (TradingRepository × Name × Bool))
        → begin_run h.stored h.short r binding initial ≡ step
        → (k : TradingKernel) × (service_kernel h service account_id source ≡ ok k)
        → Ended r clock parent promote state
            (attempt r step (run_begun h service account_id source sessions initial promote)).0
            (attempt r step (run_begun h service account_id source sessions initial promote)).1
    begun-Ended (err e) k built = stopped e refl
    begun-Ended (ok (r1, id, false)) k built =
        let same = begun_again r1 id k in
        by_result (reuse_run h service account_id source r1 id) refl same
      where
        by_result :
            (out : Result SimulationOutcome)
            → reuse_run h service account_id source r1 id ≡ out
            → r1 ≡ r
            → Ended r clock parent promote state r1 out
        by_result (err e) k same = stopped e same
        by_result (ok o) k same =
            reused o same (subst (λ t. Stored t o) same (reuse_run-Stored r1 id o k))
    begun-Ended (ok (r1, id, true)) k (kernel, built) =
        let fresh = begin_run-Fresh h.stored h.short r r1 binding initial id k in
        let ran = run_sessions h service account_id source kernel id sessions r1 initial in
        let kept =
          run_sessions-Kept h service account_id source id binding kernel sessions r1 initial
            fresh.going in
        rw built (
          settle-Ended id ran.0 ran.1 kernel r1 fresh.unused refl (record {
            going = kept.going;
            accounts = kept.accounts ∙ fresh.accounts;
            others = elsewhere_then id r r1 ran.0 fresh.others kept.others;
          }))

  prepared_kernel :
      (r : TradingRepository) (clock : Clock) (parent : Option Name) (state : Option PortfolioState)
      {p : List Day × PortfolioState × RunBinding}
      → prepare h service account_id source r clock parent state ≡ ok p
      → (k : TradingKernel) × (service_kernel h service account_id source ≡ ok k)
  unfolding prepare
  prepared_kernel r clock parent state e =
      let (sessions, found, e1) = >>=-eq-ok (clock_sessions clock service.market_data) _ e in
      let (filled, _) = raise_if-eq-ok (is_empty sessions) _ _ e1 in
      kernel_built h service account_id source clock found filled

  -- A run of the service raises and stores nothing, or returns a completed run that was stored before,
  -- verified, and stores nothing, or raises and leaves the run that it began failed with the exception, or
  -- returns the run that it began, completed with the final state and verified. No run stays running,
  -- other runs do not change, and accounts only by the head of a promoted run.
  pub run_simulation-Ended :
      (r : TradingRepository) (clock : Clock) (parent : Option Name) (promote : Bool)
      (state : Option PortfolioState)
      → Ended r clock parent promote state
          (run_simulation h service account_id source r clock parent promote state).0
          (run_simulation h service account_id source r clock parent promote state).1
  unfolding run_simulation
  run_simulation-Ended r clock parent promote state =
      go (prepare h service account_id source r clock parent state) refl
    where
      go :
          (step : Result (List Day × PortfolioState × RunBinding))
          → prepare h service account_id source r clock parent state ≡ step
          → Ended r clock parent promote state
              (attempt r step (λ (sessions, initial, binding).
                attempt r
                  (begin_run h.stored h.short r binding initial)
                  (run_begun h service account_id source sessions initial promote))).0
              (attempt r step (λ (sessions, initial, binding).
                attempt r
                  (begin_run h.stored h.short r binding initial)
                  (run_begun h service account_id source sessions initial promote))).1
      go (err e) k = stopped e refl
      go (ok (sessions, initial, binding)) k =
          begun-Ended r clock parent promote state sessions initial binding k
            (begin_run h.stored h.short r binding initial) refl
            (prepared_kernel r clock parent state k)
