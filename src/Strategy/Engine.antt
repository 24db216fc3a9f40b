-- ===== src/Strategy/Engine.antt =====
-- strategies/application/strategy-engine.service.ts over its Prisma repository: the strategies that
-- are stored and those that have an implementation.
-- a row of `strategy_versions`, its JSON parameters read
use trading_backend.Base.{
  if◌then◌else◌, find_first, find_many, ℕ, String, Bool, ◌&&◌, Option, none, some, List, [], ◌∷◌,
  str_eq,
}
use trading_backend.Number.Interface.{Number}
use trading_backend.Store.Entities.{MarketCandle}
use trading_backend.Store.World.{Config}
use trading_backend.Strategy.{StrategyResult, evaluate_ema_trend}
use trading_backend.Strategy.Metadata.{TechnicalMetadata, Parameters}

pub record StrategyVersion (W : Type 0) : Type 0 where
  pub parameters : Parameters W
  pub is_active : Bool

-- a row of `strategies` with its versions, the newest first
pub record StoredStrategy (W : Type 0) : Type 0 where
  pub id : ℕ
  pub name : String
  pub is_active : Bool
  pub versions : List (StrategyVersion W)

-- what an implementation evaluates
pub record StrategyContext (W : Type 0) : Type 0 where
  pub technical_analysis : TechnicalMetadata W
  pub latest_candle : MarketCandle W
  pub candles : List (MarketCandle W)

abbrev pub ema_trend_name : String
ema_trend_name = "EMA_TREND_STRATEGY"

abbrev pub no_parameters : {W : Type 0} → Parameters W
no_parameters = record {
  rsi_buy_min = none;
  rsi_buy_max = none;
  rsi_sell_min = none;
  rsi_sell_max = none;
  atr_stable_max_percent_of_price = none;
  trend_consistency_candles = none;
  block_ranging_market = none;
  block_mtf_conflict = none;
}

-- `activeVersion?.parameters`, the active version as `toEntity` takes it
abbrev pub parameters_of : {W : Type 0} → StoredStrategy W → Parameters W
parameters_of s = elim (find_first (λ v. v.is_active) s.versions) [
  | none ↦ no_parameters
  | some v ↦ v.parameters
]

module _ {W : Type 0} ⦃n : Number W⦄ where
  -- `evaluateStrategy`: none for a name without an implementation
  unfoldable pub evaluate_strategy :
      Config W → StoredStrategy W → StrategyContext W → Option (StrategyResult W)
  unfolding evaluate_ema_trend find_first
  evaluate_strategy config s c =
      if str_eq s.name ema_trend_name
      then some (
          evaluate_ema_trend config (parameters_of s) c.technical_analysis c.latest_candle.close
            c.candles)
      else none

  -- the loop of `evaluateActiveStrategies`, each result with its strategy's id
  unfoldable pub evaluate_all :
      Config W → StrategyContext W → List (StoredStrategy W) → List (ℕ × StrategyResult W)
  unfolding evaluate_strategy
  evaluate_all config c [] = []
  evaluate_all config c (s ∷ ss) =
      let rest = evaluate_all config c ss in
      elim (evaluate_strategy config s c) [ none ↦ rest | some r ↦ (s.id, r) ∷ rest ]

  -- `evaluateActiveStrategies`; the strategies are listed in the order of their creation
  unfoldable pub evaluate_active_strategies :
      Config W → StrategyContext W → List (StoredStrategy W) → List (ℕ × StrategyResult W)
  unfolding evaluate_all find_many
  evaluate_active_strategies config c ss = evaluate_all config c (find_many (λ s. s.is_active) ss)

  -- `evaluateStrategyByName`
  unfoldable pub evaluate_strategy_by_name :
      Config W → String → StrategyContext W → List (StoredStrategy W) → Option (StrategyResult W)
  unfolding evaluate_strategy find_first
  evaluate_strategy_by_name config name c ss =
      elim (find_first (λ s. str_eq s.name name && s.is_active) ss) [
        | none ↦ none
        | some s ↦ evaluate_strategy config s c
      ]
