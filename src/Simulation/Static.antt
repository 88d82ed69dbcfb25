-- ===== src/Simulation/Static.antt =====
-- trading/runtime.py: `StaticAllocationSource`, the intent source that always asks for the same
-- weights. The digests of its configuration and of what it observes are parameters.
use mini_qmt.Common.{
  ℕ, ◌≡◌, refl, sym, arith, false, not, Option, some, any, ◌==◌, Result, ok, ◌>>=◌, >>=-eq-ok,
  raise_if-eq-ok, ok-injective,
}
use mini_qmt.Common.Dict.{Dict}
use mini_qmt.Common.Sorting.{sort}
use mini_qmt.Decimal
use mini_qmt.Decimal.{Decimal}
use mini_qmt.Market.{Name, Day}
use mini_qmt.Trading.Intent.{PortfolioIntent, check_intent, by_key, intent_identity}
use mini_qmt.Trading.Intent.Create.{IntentBody, create_intent}
use mini_qmt.Trading.State.{PortfolioState}
use mini_qmt.Simulation.Service.{PointInTimeMarketView, IntentSource, validate_intent}

-- The arguments of `stable_digest`, and the digest of a state.
pub record SourceDigests : Type 0 where
  pub config : Name → Name → Dict Decimal → Name
  pub observation : Name → Day → Name → Dict Decimal → Name
  pub state : PortfolioState → Name
  pub intent : IntentBody → ℕ

pub record StaticAllocationSource : Type 0 where
  pub target_weights : Dict Decimal
  pub strategy_id : Name
  pub strategy_version : Name

-- The text `static_allocation`, which is not blank.
abbrev static_reason : Name
static_reason = 1

module _ (h : SourceDigests) (s : StaticAllocationSource) where
  abbrev pub config_hash : Name
  config_hash = h.config s.strategy_id s.strategy_version s.target_weights

  -- `StaticAllocationSource.decide`
  unfoldable pub decide_static :
      Name → PointInTimeMarketView → PortfolioState → Result (Option PortfolioIntent)
  unfolding create_intent
  decide_static account_id view state = do
    intent ← create_intent h.intent (record {
      account_id = account_id;
      decision_date = view.as_of;
      snapshot_id = view.market_data.snapshot_id;
      strategy_id = s.strategy_id;
      strategy_version = s.strategy_version;
      strategy_config_hash = config_hash;
      observation_hash =
          h.observation view.market_data.snapshot_id view.as_of (h.state state) s.target_weights;
      target_weights = s.target_weights;
      reason = static_reason;
      metadata = 0;
    })
    ok (some intent)

  abbrev pub static_source : IntentSource
  static_source = record {
    strategy_id = s.strategy_id;
    strategy_version = s.strategy_version;
    config_hash = config_hash;
    decide = decide_static;
  }

  -- What is claimed of a decision.
  pub record Decided (account_id : Name) (view : PointInTimeMarketView) (intent : PortfolioIntent)
      : Type 0 where
    pub valid : validate_intent view.market_data intent account_id view.as_of static_source ≡ ok tt
    pub weights : intent.target_weights ≡ sort by_key s.target_weights

  check_intent-eq-ok :
      (i : PortfolioIntent) {j : PortfolioIntent}
      → check_intent i ≡ ok j
      → j ≡ record i { target_weights = sort by_key i.target_weights }
  unfolding check_intent
  check_intent-eq-ok i {j} e =
      let (_, e1) = raise_if-eq-ok (any (λ n. n == 0) (intent_identity i)) _ _ e in
      let (_, e2) = raise_if-eq-ok (any (λ (w : ℕ × Decimal). w.0 == 0) i.target_weights) _ _ e1 in
      let (_, e3) =
        raise_if-eq-ok (any (λ (w : ℕ × Decimal). Decimal.lt w.1 (Decimal.of_ℕ 0)) i.target_weights)
          _ _ e2 in
      sym (ok-injective e3)

  matches_itself : (n : ℕ) → not (n == n) ≡ false
  matches_itself n = ground arith

  -- A decision of the static source passes the checks that the service makes of an intent, at the
  -- account and the day of the view, and asks for the weights of the source in the order of their
  -- instruments.
  pub decide_static-Decided :
      (account_id : Name) (view : PointInTimeMarketView) (state : PortfolioState)
      {intent : PortfolioIntent}
      → decide_static account_id view state ≡ ok (some intent)
      → Decided account_id view intent
  unfolding decide_static create_intent
  decide_static-Decided account_id view state {intent} e =
      let (made, checked, done) = >>=-eq-ok _ _ e in
      let same : made ≡ intent = some_of made (ok-injective done) in
      let whole = check_intent-eq-ok _ checked in
      rw (← same, whole)
        (record { valid = unfold validate_intent in simp matches_itself; weights = refl })
    where
      some_of :
          (made : PortfolioIntent)
          → ◌≡◌ {A = Option PortfolioIntent} (some made) (some intent)
          → made ≡ intent
      some_of made k = cc
