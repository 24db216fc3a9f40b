-- ===== src/Strategy.antt =====
-- src/modules/strategies/application/ema-trend-strategy.service.ts: EmaTrendStrategyService.
pub mod Metadata
pub mod Trend
pub mod Proposals
pub mod Shape
pub mod Engine
use Prim.Native.Nat.{min, max}
use trading_backend.Base.{
  if◌then◌else◌, or_default, some_and, ℕ, ◌+◌, Bool, true, false, ◌&&◌, ◌||◌, Option, none, some,
  List, [], ◌∷◌, str_eq,
}
use trading_backend.Number.Interface.{Number, number}
use trading_backend.Store.Entities.{Field, MarketCandle}
use trading_backend.Store.Enums.{SignalDirection, TradeDirection}
use trading_backend.Store.Text.{Text, say, join, text, amount}
use trading_backend.Store.World.{Config}
use trading_backend.Strategy.Metadata.{
  Indicators, TechnicalMetadata, Parameters, missing_indicators, read_indicators,
}
use trading_backend.Strategy.Trend.{is_consistent_trend}

-- A signal that a strategy proposes; the strategy's id and name are those of its argument.
pub record StrategyResult (W : Type 0) : Type 0 where
  pub direction : SignalDirection
  pub entry_price : W
  pub stop_loss : Option W
  pub take_profit : Option W
  pub confidence : ℕ
  pub reason : Text W
  pub should_create_signal : Bool

-- `calculateConfidence`
unfoldable pub calculate_confidence : Bool → Bool → Bool → Bool → ℕ
calculate_confidence ema_aligned rsi_confirms atr_stable candle_trend_confirms = max 0 (
    min 100 (
      50
      + (if ema_aligned then 20 else 0)
      + (if rsi_confirms then 15 else 0)
      + (if atr_stable then 10 else 0)
      + (if candle_trend_confirms then 5 else 0)))

-- `config ?? params ?? true`
abbrev pub setting : Option Bool → Option Bool → Bool
setting config param = or_default config (or_default param true)

module _ {W : Type 0} ⦃n : Number W⦄ where
  open n use {decimal, add, sub, mul, div, lt, le, to_fixed}

  -- `noSignal`
  abbrev pub no_signal : W → Text W → StrategyResult W
  no_signal entry_price reason = record {
    direction = SignalDirection.none;
    entry_price = entry_price;
    stop_loss = none;
    take_profit = none;
    confidence = 0;
    reason = reason;
    should_create_signal = false;
  }

  -- `between`
  abbrev pub between : W → W → W → Bool
  between value low high = le low value && le value high

  -- `roundPrice`
  abbrev pub round_price : W → W
  round_price = to_fixed 8

  -- `isTooCloseToResistance` and `isTooCloseToSupport`
  unfoldable pub is_too_close_to_resistance : TechnicalMetadata W → W → Bool
  is_too_close_to_resistance m entry = elim m.nearest_resistance [
    | Field.num r ↦ lt entry r && le (div (sub r entry) entry) (decimal 3 3)
    | _ ↦ false
  ]

  unfoldable pub is_too_close_to_support : TechnicalMetadata W → W → Bool
  is_too_close_to_support m entry = elim m.nearest_support [
    | Field.num s ↦ lt s entry && le (div (sub entry s) entry) (decimal 3 3)
    | _ ↦ false
  ]

  -- `bullishAlignment` and `bearishAlignment`
  abbrev pub bullish_alignment : Indicators W → Bool
  bullish_alignment i = lt i.ema50 i.ema20 && lt i.ema200 i.ema50

  abbrev pub bearish_alignment : Indicators W → Bool
  bearish_alignment i = lt i.ema20 i.ema50 && lt i.ema50 i.ema200

  abbrev pub rsi_confirms_buy : Indicators W → Parameters W → Bool
  rsi_confirms_buy i p =
      between i.rsi14 (or_default p.rsi_buy_min (number 45)) (or_default p.rsi_buy_max (number 70))

  abbrev pub rsi_confirms_sell : Indicators W → Parameters W → Bool
  rsi_confirms_sell i p =
      between i.rsi14 (or_default p.rsi_sell_min (number 30))
        (or_default p.rsi_sell_max (number 55))

  unfoldable pub is_atr_stable : Indicators W → Parameters W → W → Bool
  is_atr_stable i p entry =
      le (mul (div i.atr14 entry) (number 100))
        (or_default p.atr_stable_max_percent_of_price (number 5))

  abbrev sl_distance : Config W → Indicators W → W
  sl_distance config i = mul i.atr14 (or_default config.atr_stop_loss_multiplier (decimal 15 1))

  abbrev tp_distance : Config W → Indicators W → W
  tp_distance config i = mul i.atr14 (or_default config.atr_take_profit_multiplier (number 3))

  abbrev pub buy_result : Config W → Indicators W → W → ℕ → StrategyResult W
  buy_result config i entry confidence = record {
    direction = SignalDirection.buy;
    entry_price = entry;
    stop_loss = some (round_price (sub entry (sl_distance config i)));
    take_profit = some (round_price (add entry (tp_distance config i)));
    confidence = confidence;
    reason =
        text "BUY: EMA20 > EMA50 > EMA200. RSI14="
        ∷ amount i.rsi14
        ∷ text " confirms bullish continuation. ATR14="
        ∷ amount i.atr14
        ∷ text " defines SL/TP"
        ∷ [];
    should_create_signal = true;
  }

  abbrev pub sell_result : Config W → Indicators W → W → ℕ → StrategyResult W
  sell_result config i entry confidence = record {
    direction = SignalDirection.sell;
    entry_price = entry;
    stop_loss = some (round_price (add entry (sl_distance config i)));
    take_profit = some (round_price (sub entry (tp_distance config i)));
    confidence = confidence;
    reason =
        text "SELL: EMA20 < EMA50 < EMA200. RSI14="
        ∷ amount i.rsi14
        ∷ text " confirms bearish continuation. ATR14="
        ∷ amount i.atr14
        ∷ text " defines SL/TP"
        ∷ [];
    should_create_signal = true;
  }

  -- `evaluate` from the point where no filter has stopped it
  unfoldable pub propose :
      Config W
      → Parameters W
      → Indicators W
      → TechnicalMetadata W
      → W
      → List (MarketCandle W)
      → StrategyResult W
  unfolding is_consistent_trend is_atr_stable calculate_confidence is_too_close_to_resistance
      is_too_close_to_support
  propose config p i m entry candles =
      let stable = is_atr_stable i p entry in
      let candles_count = or_default p.trend_consistency_candles 3 in
      if bullish_alignment i && rsi_confirms_buy i p
      then (if is_too_close_to_resistance m entry
          then no_signal entry (say "NO_SIGNAL: price is too close to nearest resistance")
          else buy_result config i entry (
              calculate_confidence true true stable
                (is_consistent_trend candles TradeDirection.buy candles_count)))
      else if bearish_alignment i && rsi_confirms_sell i p
      then (if is_too_close_to_support m entry
          then no_signal entry (say "NO_SIGNAL: price is too close to nearest support")
          else sell_result config i entry (
              calculate_confidence true true stable
                (is_consistent_trend candles TradeDirection.sell candles_count)))
      else no_signal entry (
          if bullish_alignment i || bearish_alignment i
          then text "NO_SIGNAL: RSI14="
            ∷ amount i.rsi14
            ∷ text " does not confirm the aligned EMA trend"
            ∷ []
          else say "NO_SIGNAL: EMAs are not aligned")

  -- `evaluate`
  unfoldable pub evaluate_ema_trend :
      Config W → Parameters W → TechnicalMetadata W → W → List (MarketCandle W) → StrategyResult W
  unfolding propose read_indicators missing_indicators
  evaluate_ema_trend config p m entry candles = elim (read_indicators m) [
    | none ↦ no_signal entry (text "Missing indicators: " ∷ join ", " (missing_indicators m))
    | some i ↦
        if setting config.block_ranging_market p.block_ranging_market
          && or_default m.is_ranging false
        then no_signal entry (say "NO_SIGNAL: market regime is ranging")
        else if setting config.block_mtf_conflict p.block_mtf_conflict
            && some_and (λ a. str_eq a "CONFLICTED") m.alignment
        then no_signal entry (say "NO_SIGNAL: multi-timeframe alignment is conflicted")
        else propose config p i m entry candles
  ]
