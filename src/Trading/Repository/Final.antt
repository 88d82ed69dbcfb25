-- ===== src/Trading/Repository/Final.antt =====
-- The end of a run: `complete_run` and `fail_run` of trading/repository.py leave a run that no write
-- accepts again.
use mini_qmt.Common.{
  ◌≡◌, refl, Bool, false, not, List, some, err, ok, >>=-eq-ok, raise_if-eq-ok, ok-injective,
  or_raise, value_error,
}
use mini_qmt.Common.Dict.{get, put}
use mini_qmt.Market.{Name}
use mini_qmt.Trading.State.{PortfolioState, LedgerEvent, Valuation}
use mini_qmt.Trading.Repository.{
  TradingRepository, Run, complete, failed, HashBody, state_body, binding_body, result_body,
  tail_hash, is_running, append_session, complete_run, fail_run,
}
use mini_qmt.Trading.Repository.Chain.{found}
use mini_qmt.Trading.Repository.Written.{promote_run-Promoted}

module _ (digest : HashBody → Name) (short : Name → Name) (id : Name) where
  -- Every write to the run raises, and so stores nothing.
  pub record Final (r : TradingRepository) : Type 0 where
    pub no_session :
        (events : List LedgerEvent) (state : PortfolioState) (valuation : Valuation)
        → append_session digest short r id events state valuation ≡ err value_error
    pub no_completion :
        (final : PortfolioState) (promote : Bool)
        → complete_run digest short r id final promote ≡ err value_error
    pub no_failure : (error : Name) → fail_run digest short r id error ≡ err value_error

  -- The two calls that end a run.
  pub data Ends (r r' : TradingRepository) : Type 0 where
    by_completion :
        (final : PortfolioState) (promote : Bool)
        → complete_run digest short r id final promote ≡ ok r'
        → Ends r r'
    by_failure : (error : Name) → fail_run digest short r id error ≡ ok r' → Ends r r'

  -- The writes look at the status first.
  ended-Final :
      (r : TradingRepository) (x : Run)
      → get r.runs id ≡ some x
      → is_running x.status ≡ false
      → Final r
  unfolding append_session complete_run fail_run
  ended-Final r x here ended = record {
    no_session = λ events state valuation. rw (here, ended) refl;
    no_completion = λ final promote. rw (here, ended) refl;
    no_failure = λ error. rw (here, ended) refl;
  }

  -- After a run is completed or failed, every session, completion or failure of it is refused with a
  -- ValueError.
  pub Ends-Final : (r r' : TradingRepository) → Ends r r' → Final r'
  unfolding complete_run fail_run
  Ends-Final r r' (by_completion final promote h) =
      let (x, _, h1) = >>=-eq-ok (or_raise (get r.runs id) value_error) _ h in
      let (_, h2) = raise_if-eq-ok (not (is_running x.status)) _ _ h1 in
      let final_hash = digest (state_body final) in
      let completed : Run = record x {
        status = complete;
        final_state = some final;
        final_state_hash = some final_hash;
        result_hash = some (
            digest (
              result_body (digest (binding_body x.binding))
                (tail_hash x.binding.initial_state_hash x.events) (some final_hash)));
      } in
      let (_, runs) =
        promote_run-Promoted digest short id promote x.binding
          (record r { runs = put r.runs id completed }) r' h2 in
      ended-Final r' completed (rw runs (found r.runs id completed)) refl
  Ends-Final r r' (by_failure error h) =
      let (x, _, h1) = >>=-eq-ok (or_raise (get r.runs id) value_error) _ h in
      let (_, done) = raise_if-eq-ok (not (is_running x.status)) _ _ h1 in
      let ended : Run = record x { status = failed; error = some error } in
      let same : record r { runs = put r.runs id ended } ≡ r' = ok-injective done in
      ended-Final r' ended (rw (← same) (found r.runs id ended)) refl
