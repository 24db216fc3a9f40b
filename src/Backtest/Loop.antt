-- ===== src/Backtest/Loop.antt =====
-- Invariants of the walk over the candles.
use trading_backend.Base.{
  Bool-cases, Option-cases, suc, ◌≡◌, refl, ◌⊎◌, inl, inr, Option, none, some, List, [], ◌∷◌, ◌++◌,
}
use trading_backend.Backtest.Engine.{
  RunInput, EngineState, is_filtered, upcoming, count_signal, tradable, trade_at, open_next,
  advance, walk,
}
use trading_backend.Number.Interface.{Number, number}
use trading_backend.Store.Entities.{MarketCandle}
use trading_backend.Store.Enums.{TradeDirection}
use trading_backend.Store.Text.{Text}
use trading_backend.Store.World.{Config}
use trading_backend.Strategy.{StrategyResult}

module _ {W : Type 0} ⦃n : Number W⦄ (config : Config W) (input : RunInput W) where
  -- What every candle keeps holds at the end of the walk. The invariant may speak of the candles to
  -- come.
  pub walk_keeps :
      (P : List (MarketCandle W) → EngineState W → Type 0)
      → ((window : List (MarketCandle W)) (c : MarketCandle W) (rest : List (MarketCandle W))
            (s : EngineState W)
          → P (c ∷ rest) s
          → P rest (advance config input window c rest s))
      → (seen candles : List (MarketCandle W)) (s : EngineState W) → P candles s
      → P [] (walk config input seen candles s)
  unfolding walk
  walk_keeps P step seen [] s h = h
  walk_keeps P step seen (c ∷ rest) s h =
      walk_keeps P step (seen ++ (c ∷ [])) rest (advance config input (seen ++ (c ∷ [])) c rest s)
        (step (seen ++ (c ∷ [])) c rest s h)

-- The loop's body opens nothing, or one trade at the next candle, which is not the last one.
module _ {W : Type 0} ⦃n : Number W⦄ where
  pub open_next_cases :
      (input : RunInput W) (rest : List (MarketCandle W)) (r : Option (StrategyResult W))
      (s : EngineState W)
      → (open_next input rest r s ≡ s)
        ⊎ ((next : MarketCandle W) × (p : TradeDirection × W × W) × (upcoming rest ≡ some next)
            × (open_next input rest r s
                ≡ record s { open_trades = trade_at input s.balance next p ∷ s.open_trades }))
  unfolding open_next
  open_next_cases input rest r s = elim (Option-cases (upcoming rest)) [
    | inl e ↦ inl (rw (open_next, e) refl)
    | inr (next, e) ↦ elim (Option-cases (tradable r)) [
      | inl q ↦ inl (rw (open_next, e, q) refl)
      | inr (p, q) ↦ elim (Bool-cases (n.le (n.abs (n.sub next.close p.1)) (number 0))) [
        | inl z ↦ inl (rw (open_next, e, q, z) refl)
        | inr z ↦ inr (next, p, e, rw (open_next, e, q, z) refl)
      ]
    ]
  ]

  -- The counters are all that a result changes.
  pub count_signal_cases :
      (r : Option (StrategyResult W)) (s : EngineState W)
      → (count_signal r s ≡ s)
        ⊎ ((count_signal r s ≡ record s {
          signals_before_filters = suc s.signals_before_filters;
          signals_after_filters = suc s.signals_after_filters;
        })
            ⊎ ((reason : Text W) × (count_signal r s ≡ record s {
              signals_before_filters = suc s.signals_before_filters;
              filter_reasons = reason ∷ s.filter_reasons;
            })))
  unfolding count_signal
  count_signal_cases none s = inl refl
  count_signal_cases (some r) s = elim (Bool-cases r.should_create_signal) [
    | inl e ↦ inr (inl (rw (count_signal, e) refl))
    | inr e ↦ elim (Bool-cases (is_filtered r.reason)) [
      | inl q ↦ inr (inr (r.reason, rw (count_signal, e, q) refl))
      | inr q ↦ inl (rw (count_signal, e, q) refl)
    ]
  ]
