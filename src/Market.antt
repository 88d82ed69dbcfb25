-- ===== src/Market.antt =====
-- The market data that the kernel reads: the enumerations of marketdata/contracts.py and the records
-- of marketdata/portal.py. A day is the ordinal number of its date. An identifier or free text is a
-- number that stands for its place in the order of texts, 0 for the empty text. A float is the
-- decimal that `str` prints for it, which is how the kernel reads floats.
pub mod Rules
pub mod Portal
pub mod Components
pub mod Reconciliation
mod Tests
use mini_qmt.Common.{ℕ, Bool, Option, List}
use mini_qmt.Common.Dict.{Dict}
use mini_qmt.Decimal.{Decimal}
use Prim.Native.String.{String}

-- Identifiers and other texts that are only compared.
abbrev pub Name : Type 0
Name = ℕ

abbrev pub Day : Type 0
Day = ℕ

pub data PriceMode : Type 0 where
  raw adjusted : PriceMode

pub data PriceLimitState : Type 0 where
  bounded unbounded unknown : PriceLimitState

pub data AssetType : Type 0 where
  stock etf : AssetType

-- `AssetType.value`
abbrev pub asset_value : AssetType → String
asset_value stock = "stock"
asset_value etf = "etf"

pub data CorporateActionType : Type 0 where
  cash_dividend stock_dividend split rights_issue : CorporateActionType

pub record Instrument : Type 0 where
  pub instrument_id : Name
  pub exchange : String
  pub local_code : Name
  pub asset_type : AssetType
  pub name : Name
  pub currency : Name
  pub listed_date : Option Day
  pub delisted_date : Option Day
  pub board : Option Name
  pub exchange_product_class : Option Name
  pub buy_lot : ℕ
  pub quantity_step : ℕ
  pub odd_lot_sell_all : Bool
  pub price_tick : Decimal
  pub sell_delay_sessions : Option ℕ
  pub price_limit_ratio : Option Decimal

-- `opening`, `high`, `low` and `closing` are the bar's open, high, low and close.
pub record DailyBar : Type 0 where
  pub instrument_id : Name
  pub session_date : Day
  pub price_mode : PriceMode
  pub opening : Option Decimal
  pub high : Option Decimal
  pub low : Option Decimal
  pub closing : Option Decimal
  pub volume : Decimal
  pub amount : Option Decimal
  pub suspended : Bool
  pub is_st : Option Bool
  pub trade_rule_id : Name
  pub trade_rule_known_date : Day
  pub buy_lot : ℕ
  pub quantity_step : ℕ
  pub odd_lot_sell_all : Bool
  pub price_tick : Decimal
  pub sell_delay_sessions : ℕ
  pub price_limit_state : PriceLimitState
  pub previous_close : Option Decimal
  pub price_limit_ratio : Option Decimal
  pub limit_up : Option Decimal
  pub limit_down : Option Decimal
  pub source_provider : Name
  pub source_observation_id : Name

pub record CorporateAction : Type 0 where
  pub action_id : Name
  pub instrument_id : Name
  pub action_type : CorporateActionType
  pub known_date : Day
  pub record_date : Option Day
  pub ex_date : Day
  pub pay_date : Option Day
  pub listing_date : Option Day
  pub cash_per_share : Option Decimal
  pub share_ratio : Option Decimal
  pub rights_price : Option Decimal
  pub source_provider : Name
  pub source_observation_id : Name
  pub quantity_multiplier : Option Decimal

pub record MarketSession : Type 0 where
  pub session_date : Day
  pub bars : Dict DailyBar
  pub record_actions : List CorporateAction
  pub ex_actions : List CorporateAction
  pub pay_actions : List CorporateAction
  pub listing_actions : List CorporateAction
