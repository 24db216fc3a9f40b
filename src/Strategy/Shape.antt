-- ===== src/Strategy/Shape.antt =====
-- What every result of `EmaTrendStrategyService` looks like: a whole signal, or none.
use trading_backend.Base.{
  if◌then◌else◌, Option-cases, or_default, some_and, ◌≤◌, ◌≡◌, refl, ◌⊎◌, inl, inr, Bool, true,
  false, ◌&&◌, none, some, List, arith, str_eq,
}
use trading_backend.Number.Interface.{Number}
use trading_backend.Store.Entities.{MarketCandle}
use trading_backend.Store.Enums.{SignalDirection}
use trading_backend.Store.Text.{Text, say}
use trading_backend.Store.World.{Config}
use trading_backend.Strategy.{
  StrategyResult, calculate_confidence, setting, no_signal, is_too_close_to_resistance,
  is_too_close_to_support, bullish_alignment, bearish_alignment, rsi_confirms_buy,
  rsi_confirms_sell, buy_result, sell_result, propose, evaluate_ema_trend,
}
use trading_backend.Strategy.Metadata.{Indicators, TechnicalMetadata, Parameters, read_indicators}

calculate_confidence_bounds :
    (stable trend : Bool)
    → (85 ≤ calculate_confidence true true stable trend)
      × (calculate_confidence true true stable trend ≤ 100)
unfolding calculate_confidence
calculate_confidence_bounds true true = (omega arith, omega arith)
calculate_confidence_bounds true false = (omega arith, omega arith)
calculate_confidence_bounds false true = (omega arith, omega arith)
calculate_confidence_bounds false false = (omega arith, omega arith)

if_either : {A : Type 0} (P : A → Type 0) (c : Bool) {x y : A} → P x → P y → P (if c then x else y)
if_either P true p q = p
if_either P false p q = q

module _ {W : Type 0} ⦃n : Number W⦄ where
  open n use {decimal, add, sub, mul, to_fixed}

  -- The levels of a signal, at so many times the ATR from the entry: a BUY's stop loss below and take
  -- profit above, a SELL's the other way round.
  abbrev pub HasLevels : Config W → Indicators W → W → StrategyResult W → Type 0
  HasLevels config i entry r =
      let to_stop = mul i.atr14 (or_default config.atr_stop_loss_multiplier (decimal 15 1)) in
      let to_target = mul i.atr14 (or_default config.atr_take_profit_multiplier (decimal 3 0)) in
      ((r.direction ≡ SignalDirection.buy)
        × (r.stop_loss ≡ some (to_fixed 8 (sub entry to_stop)))
        × (r.take_profit ≡ some (to_fixed 8 (add entry to_target))))
      ⊎ ((r.direction ≡ SignalDirection.sell)
          × (r.stop_loss ≡ some (to_fixed 8 (add entry to_stop)))
          × (r.take_profit ≡ some (to_fixed 8 (sub entry to_target))))

  -- a signal that can be created, and none
  pub record IsProposal (config : Config W) (i : Indicators W) (entry : W) (r : StrategyResult W)
      : Type 0 where
    pub created : r.should_create_signal ≡ true
    pub entered : r.entry_price ≡ entry
    pub levels : HasLevels config i entry r
    pub confident : 85 ≤ r.confidence
    pub capped : r.confidence ≤ 100

  pub record IsNothing (r : StrategyResult W) : Type 0 where
    pub not_created : r.should_create_signal ≡ false
    pub undirected : r.direction ≡ SignalDirection.none
    pub no_stop : r.stop_loss ≡ none
    pub no_target : r.take_profit ≡ none
    pub unconfident : r.confidence ≡ 0

  buy_result-IsProposal :
      (config : Config W) (i : Indicators W) (entry : W) (stable trend : Bool)
      → IsProposal config i entry
          (buy_result config i entry (calculate_confidence true true stable trend))
  buy_result-IsProposal config i entry stable trend =
      let (low, high) = calculate_confidence_bounds stable trend in
      record {
        created = refl;
        entered = refl;
        levels = inl (refl, refl, refl);
        confident = low;
        capped = high;
      }

  sell_result-IsProposal :
      (config : Config W) (i : Indicators W) (entry : W) (stable trend : Bool)
      → IsProposal config i entry
          (sell_result config i entry (calculate_confidence true true stable trend))
  sell_result-IsProposal config i entry stable trend =
      let (low, high) = calculate_confidence_bounds stable trend in
      record {
        created = refl;
        entered = refl;
        levels = inr (refl, refl, refl);
        confident = low;
        capped = high;
      }

  no_signal-IsNothing : (entry : W) (reason : Text W) → IsNothing (no_signal entry reason)
  no_signal-IsNothing entry reason = record {
    not_created = refl;
    undirected = refl;
    no_stop = refl;
    no_target = refl;
    unconfident = refl;
  }

  abbrev IsEither : Config W → Indicators W → W → StrategyResult W → Type 0
  IsEither config i entry r = IsProposal config i entry r ⊎ IsNothing r

  propose-shape :
      (config : Config W) (p : Parameters W) (i : Indicators W) (m : TechnicalMetadata W)
      (entry : W) (candles : List (MarketCandle W))
      → IsEither config i entry (propose config p i m entry candles)
  unfolding propose
  propose-shape config p i m entry candles =
      let P = IsEither config i entry in
      if_either P (bullish_alignment i && rsi_confirms_buy i p)
        (if_either P (is_too_close_to_resistance m entry) (inr (no_signal-IsNothing entry _))
          (inl (buy_result-IsProposal config i entry _ _)))
        (if_either P (bearish_alignment i && rsi_confirms_sell i p)
          (if_either P (is_too_close_to_support m entry) (inr (no_signal-IsNothing entry _))
            (inl (sell_result-IsProposal config i entry _ _)))
          (inr (no_signal-IsNothing entry _)))

  -- A result is a signal with a confidence between 85 and 100 at the entry price, all five indicators
  -- given: a BUY with its stop loss the configured times the ATR below the entry (1.5 by default) and
  -- its take profit the configured times above (3 by default), or a SELL with these sides exchanged,
  -- rounded to eight places; or it is none, with the direction NONE, no levels and confidence 0.
  pub evaluate_ema_trend-shape :
      (config : Config W) (p : Parameters W) (m : TechnicalMetadata W) (entry : W)
      (candles : List (MarketCandle W))
      → ((i : Indicators W) × (read_indicators m ≡ some i)
          × IsProposal config i entry (evaluate_ema_trend config p m entry candles))
        ⊎ IsNothing (evaluate_ema_trend config p m entry candles)
  unfolding evaluate_ema_trend
  evaluate_ema_trend-shape config p m entry candles = elim (Option-cases (read_indicators m)) [
    | inl e ↦ rw (evaluate_ema_trend, e) (inr (no_signal-IsNothing entry _))
    | inr (i, e) ↦
        let P = IsEither config i entry in
        let shape : P (evaluate_ema_trend config p m entry candles) =
          rw (evaluate_ema_trend, e)
            (if_either P
              (setting config.block_ranging_market p.block_ranging_market
                && or_default m.is_ranging false)
              (inr (no_signal-IsNothing entry (say "NO_SIGNAL: market regime is ranging")))
              (if_either P
                (setting config.block_mtf_conflict p.block_mtf_conflict
                  && some_and (λ a. str_eq a "CONFLICTED") m.alignment)
                (inr (
                  no_signal-IsNothing entry
                    (say "NO_SIGNAL: multi-timeframe alignment is conflicted")))
                (propose-shape config p i m entry candles))) in
        elim shape [ inl x ↦ inl (i, e, x) | inr x ↦ inr x ]
  ]
