-- ===== src/Backtest/Indicators.antt =====
-- backtesting/application/backtesting-indicators.service.ts: the averages over a window of candles.
use trading_backend.Base.{
  ltb, leb, if◌then◌else◌, length, take, ℕ, ◌+◌, ◌-◌, Option, none, some, List, [], ◌∷◌, map,
}
use trading_backend.Number.Interface.{Number, number}
use trading_backend.Store.Entities.{MarketCandle}
use trading_backend.Strategy.Trend.{drop}

module _ {W : Type 0} ⦃n : Number W⦄ where
  open n use {add, sub, mul, div, abs, eq, max, to_fixed}

  -- `reduce((sum, x) => sum + x, 0)`
  unfoldable pub sum_from : W → List W → W
  sum_from total [] = total
  sum_from total (x ∷ xs) = sum_from (add total x) xs

  abbrev mean_of : List W → ℕ → W
  mean_of xs period = div (sum_from (number 0) xs) (number period)

  -- the loop of `ema`
  unfoldable pub smooth_ema : W → W → List W → W
  smooth_ema multiplier ema [] = ema
  smooth_ema multiplier ema (x ∷ xs) =
      smooth_ema multiplier (add (mul (sub x ema) multiplier) ema) xs

  -- `ema`
  unfoldable pub ema : ℕ → List (MarketCandle W) → Option W
  unfolding sum_from smooth_ema take
  ema period candles =
      if ltb (length candles) period
      then none
      else (let closes = map (λ c. c.close) candles in
          some (
            to_fixed 8 (
              smooth_ema (div (number 2) (number (period + 1)))
                (mean_of (take period closes) period) (drop period closes))))

  -- the changes from each close to the next
  unfoldable pub changes : List W → List W
  changes [] = []
  changes (x ∷ []) = []
  changes (x ∷ y ∷ ys) = sub y x ∷ changes (y ∷ ys)

  -- `(average * (period - 1) + x) / period`
  abbrev smooth : ℕ → W → W → W
  smooth period average x = div (add (mul average (number (period - 1))) x) (number period)

  -- the second loop of `rsi` and the loop of `atr`
  unfoldable pub smooth_all : ℕ → W → List W → W
  smooth_all period average [] = average
  smooth_all period average (x ∷ xs) = smooth_all period (smooth period average x) xs

  abbrev gain : W → W
  gain change = max change (number 0)

  abbrev loss : W → W
  loss change = max (sub (number 0) change) (number 0)

  -- `rsi`
  unfoldable pub rsi : ℕ → List (MarketCandle W) → Option W
  unfolding sum_from smooth_all changes take
  rsi period candles =
      if leb (length candles) period
      then none
      else (let steps = changes (map (λ c. c.close) candles) in
          let average_of = λ (f : W → W).
            smooth_all period (mean_of (map f (take period steps)) period)
              (map f (drop period steps)) in
          let average_loss = average_of loss in
          if eq average_loss (number 0)
          then some (number 100)
          else (let strength = div (average_of gain) average_loss in
              some (to_fixed 8 (sub (number 100) (div (number 100) (add (number 1) strength))))))

  -- the true ranges, from the second candle on
  unfoldable pub true_ranges : List (MarketCandle W) → List W
  true_ranges [] = []
  true_ranges (c ∷ []) = []
  true_ranges (c ∷ d ∷ ds) =
      max (max (sub d.high d.low) (abs (sub d.high c.close))) (abs (sub d.low c.close))
      ∷ true_ranges (d ∷ ds)

  -- `atr`
  unfoldable pub atr : ℕ → List (MarketCandle W) → Option W
  unfolding sum_from smooth_all true_ranges take
  atr period candles =
      if leb (length candles) period
      then none
      else (let ranges = true_ranges candles in
          some (
            to_fixed 8
              (smooth_all period (mean_of (take period ranges) period) (drop period ranges))))
