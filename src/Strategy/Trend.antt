-- ===== src/Strategy/Trend.antt =====
-- `isConsistentTrend`: do the closes of the last candles move one way?
use trading_backend.Base.{
  ltb, leb, ◌==◌, if◌then◌else◌, length, ℕ, zero, suc, ◌-◌, Bool, true, false, ◌&&◌, List, [], ◌∷◌,
}
use trading_backend.Number.Interface.{Number}
use trading_backend.Store.Entities.{MarketCandle}
use trading_backend.Store.Enums.{TradeDirection}

pub drop : {A : Type 0} → ℕ → List A → List A
drop zero xs = xs
drop (suc k) [] = []
drop (suc k) (x ∷ xs) = drop k xs

-- `slice(-k)`: the last k, and all for k = 0
unfoldable pub slice_last : {A : Type 0} → ℕ → List A → List A
unfolding drop
slice_last k xs = if k == 0 then xs else drop (length xs - k) xs

module _ {W : Type 0} ⦃n : Number W⦄ where
  open n use {le}

  -- `sort` by time, stable
  unfoldable pub insert_candle : MarketCandle W → List (MarketCandle W) → List (MarketCandle W)
  insert_candle c [] = c ∷ []
  insert_candle c (d ∷ ds) =
      if leb c.timestamp d.timestamp then c ∷ d ∷ ds else d ∷ insert_candle c ds

  unfoldable pub sort_candles : List (MarketCandle W) → List (MarketCandle W)
  unfolding insert_candle
  sort_candles [] = []
  sort_candles (c ∷ cs) = insert_candle c (sort_candles cs)

  abbrev follows : TradeDirection → MarketCandle W → MarketCandle W → Bool
  follows TradeDirection.buy previous candle = le previous.close candle.close
  follows TradeDirection.sell previous candle = le candle.close previous.close

  -- `every` against the candle before
  unfoldable pub is_monotone : TradeDirection → List (MarketCandle W) → Bool
  is_monotone d [] = true
  is_monotone d (c ∷ []) = true
  is_monotone d (c ∷ e ∷ cs) = follows d c e && is_monotone d (e ∷ cs)

  unfoldable pub is_consistent_trend : List (MarketCandle W) → TradeDirection → ℕ → Bool
  unfolding sort_candles slice_last is_monotone
  is_consistent_trend candles direction candles_count =
      let last = slice_last candles_count (sort_candles candles) in
      if ltb (length last) candles_count then false else is_monotone direction last
