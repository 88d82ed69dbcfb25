-- ===== src/Trading/Intent/Create.antt =====
-- trading/intent.py: `PortfolioIntent.create`, which derives the identifier of an intent from its
-- content. The digest's first digits are a parameter.
use mini_qmt.Common.{ℕ, suc, Result}
use mini_qmt.Common.Dict.{Dict}
use mini_qmt.Decimal.{Decimal}
use mini_qmt.Market.{Name, Day}
use mini_qmt.Trading.Intent.{PortfolioIntent, check_intent}

-- The arguments of `create`, which are the body of the digest.
pub record IntentBody : Type 0 where
  pub account_id : Name
  pub decision_date : Day
  pub snapshot_id : Name
  pub strategy_id : Name
  pub strategy_version : Name
  pub strategy_config_hash : Name
  pub observation_hash : Name
  pub target_weights : Dict Decimal
  pub reason : Name
  pub metadata : Name

-- `PortfolioIntent.create`; the identifier `intent-` with the digits is never blank.
unfoldable pub create_intent : (IntentBody → ℕ) → IntentBody → Result PortfolioIntent
create_intent digest body = check_intent (record {
  intent_id = suc (digest body);
  account_id = body.account_id;
  decision_date = body.decision_date;
  snapshot_id = body.snapshot_id;
  strategy_id = body.strategy_id;
  strategy_version = body.strategy_version;
  strategy_config_hash = body.strategy_config_hash;
  observation_hash = body.observation_hash;
  target_weights = body.target_weights;
  reason = body.reason;
  metadata = body.metadata;
})
