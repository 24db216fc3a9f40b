-- ===== src/Backtest/Analysis.antt =====
-- The synthetic technical analysis of backtesting-engine.service.ts: what a decision of the technical
-- agent would hold at a candle, from the candles up to it.
use trading_backend.Base.{
  if◌then◌else◌, or_default, find_many, Bool, Option, none, some, List, [], ◌∷◌, map,
}
use trading_backend.Backtest.Indicators.{ema, rsi, atr}
use trading_backend.Number.Interface.{Number}
use trading_backend.Store.Entities.{Field, MarketCandle}
use trading_backend.Strategy.Metadata.{TechnicalMetadata}
use trading_backend.Strategy.Trend.{slice_last}

pub record Filters : Type 0 where
  pub support_resistance : Bool
  pub market_regime : Bool
  pub multi_timeframe : Bool

module _ {W : Type 0} ⦃n : Number W⦄ where
  open n use {decimal, sub, div, abs, lt, le}

  abbrev field_of : Option W → Field W
  field_of none = Field.nullish
  field_of (some x) = Field.num x

  -- `syntheticMarketRegime(…).isRanging`
  unfoldable pub is_ranging_at : MarketCandle W → Option W → Option W → Bool
  is_ranging_at candle ema20 ema50 =
      lt
        (div (abs (sub (or_default ema20 candle.close) (or_default ema50 candle.close)))
          candle.close)
        (decimal 2 3)

  -- the first of the least distances to a price: the head of a stable sort
  unfoldable pub nearest : W → List W → Option W
  nearest price [] = none
  nearest price (x ∷ xs) = elim (nearest price xs) [
    | none ↦ some x
    | some y ↦ if le (abs (sub price x)) (abs (sub price y)) then some x else some y
  ]

  -- `syntheticSupportResistance(…).nearestSupport` and `nearestResistance`, over the last 100 candles
  unfoldable pub nearest_support : MarketCandle W → List (MarketCandle W) → Option W
  unfolding nearest find_many slice_last
  nearest_support candle candles =
      nearest candle.close
        (find_many (λ low. le low candle.close) (map (λ c. c.low) (slice_last 100 candles)))

  unfoldable pub nearest_resistance : MarketCandle W → List (MarketCandle W) → Option W
  unfolding nearest find_many slice_last
  nearest_resistance candle candles =
      nearest candle.close
        (find_many (λ high. le candle.close high) (map (λ c. c.high) (slice_last 100 candles)))

  -- `syntheticTechnicalAnalysis`; the alignment that it reports is PARTIAL
  unfoldable pub synthetic_technical_analysis :
      Filters → MarketCandle W → List (MarketCandle W) → TechnicalMetadata W
  unfolding ema rsi atr is_ranging_at nearest_support nearest_resistance
  synthetic_technical_analysis filters candle window = record {
    ema20 = field_of (ema 20 window);
    ema50 = field_of (ema 50 window);
    ema200 = field_of (ema 200 window);
    rsi14 = field_of (rsi 14 window);
    atr14 = field_of (atr 14 window);
    is_ranging =
        if filters.market_regime
        then some (is_ranging_at candle (ema 20 window) (ema 50 window))
        else none;
    alignment = if filters.multi_timeframe then some "PARTIAL" else none;
    nearest_support =
        if filters.support_resistance
        then field_of (nearest_support candle window)
        else Field.nullish;
    nearest_resistance =
        if filters.support_resistance
        then field_of (nearest_resistance candle window)
        else Field.nullish;
  }
