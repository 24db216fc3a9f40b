-- ===== src/Strategy/Proposals.antt =====
-- When `EmaTrendStrategyService` proposes a signal, and what every proposal has.
use trading_backend.Base.{
  Option-cases, or_default, some_and, ◌≡◌, ◌↔◌, inl, inr, true, false, some, List, arith, str_eq,
}
use trading_backend.Number.Interface.{Number, IsOrdered}
use trading_backend.Store.Entities.{MarketCandle}
use trading_backend.Store.Enums.{SignalDirection}
use trading_backend.Store.World.{Config}
use trading_backend.Strategy.{
  setting, is_too_close_to_resistance, is_too_close_to_support, bullish_alignment,
  bearish_alignment, rsi_confirms_buy, rsi_confirms_sell, propose, evaluate_ema_trend,
}
use trading_backend.Strategy.Metadata.{Indicators, TechnicalMetadata, Parameters, read_indicators}

module _ {W : Type 0} ⦃n : Number W⦄ where
  -- The market is one that the filters let through.
  pub record IsTradable (config : Config W) (p : Parameters W) (m : TechnicalMetadata W)
      : Type 0 where
    pub not_ranging :
        setting config.block_ranging_market p.block_ranging_market ≡ true
        → or_default m.is_ranging false ≡ false
    pub not_conflicted :
        setting config.block_mtf_conflict p.block_mtf_conflict ≡ true
        → some_and (λ a. str_eq a "CONFLICTED") m.alignment ≡ false

  -- Every BUY comes from all five indicators, EMA20 > EMA50 > EMA200, an RSI in the range for buying,
  -- no resistance close above, and a market that the filters let through; and these give a BUY.
  pub evaluate_ema_trend-buy_iff :
      (config : Config W) (p : Parameters W) (m : TechnicalMetadata W) (entry : W)
      (candles : List (MarketCandle W))
      → ((evaluate_ema_trend config p m entry candles).direction ≡ SignalDirection.buy) ↔ (
          IsTradable config p m
          × ((i : Indicators W) × (read_indicators m ≡ some i)
              × (bullish_alignment i ≡ true)
              × (rsi_confirms_buy i p ≡ true)
              × (is_too_close_to_resistance m entry ≡ false)))
  unfolding evaluate_ema_trend propose
  evaluate_ema_trend-buy_iff config p m entry candles = elim (Option-cases (read_indicators m)) [
    | inl e ↦ (λ h. absurd (ground arith), λ (a, (i, e1, e2, e3, e4)). absurd (ground arith))
    | inr (i, e) ↦ (
      λ h. (
        record { not_ranging = ground arith; not_conflicted = ground arith },
        (i, e, ground arith, ground arith, ground arith),
      ),
      λ (a, (j, e1, e2, e3, e4)). ground arith,
    )
  ]

  -- Every SELL comes from all five indicators, EMA20 < EMA50 < EMA200, an RSI in the range for
  -- selling, no support close below, and a market that the filters let through; and these give a
  -- SELL, if < is asymmetric.
  pub evaluate_ema_trend-sell_iff :
      IsOrdered W
      → (config : Config W) (p : Parameters W) (m : TechnicalMetadata W) (entry : W)
        (candles : List (MarketCandle W))
      → ((evaluate_ema_trend config p m entry candles).direction ≡ SignalDirection.sell) ↔ (
          IsTradable config p m
          × ((i : Indicators W) × (read_indicators m ≡ some i)
              × (bearish_alignment i ≡ true)
              × (rsi_confirms_sell i p ≡ true)
              × (is_too_close_to_support m entry ≡ false)))
  unfolding evaluate_ema_trend propose
  evaluate_ema_trend-sell_iff laws config p m entry candles =
      elim (Option-cases (read_indicators m)) [
        | inl e ↦ (λ h. absurd (ground arith), λ (a, (i, e1, e2, e3, e4)). absurd (ground arith))
        | inr (i, e) ↦
            let l = laws.lt_asymm i.ema50 i.ema20 in
            (
              λ h. (
                record { not_ranging = ground arith; not_conflicted = ground arith },
                (i, e, ground arith, ground arith, ground arith),
              ),
              λ (a, (j, e1, e2, e3, e4)). ground arith,
            )
      ]
