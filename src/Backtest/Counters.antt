-- ===== src/Backtest/Counters.antt =====
-- The counters of a run's signals.
use trading_backend.Base.{
  Option-cases, length, find_last, ◌+◌, ◌≡◌, refl, sym, subst, inl, inr, true, Option, List, [],
  ◌∷◌, ◌++◌, arith,
}
use trading_backend.Backtest.Engine.{
  RunInput, EngineState, book, count_signal, open_next, evaluate_at, advance, walk,
  close_remaining_trades, initial_state, settle_at_end, final_state, run_engine,
}
use trading_backend.Backtest.Exits.{close_triggered_trades}
use trading_backend.Backtest.Loop.{walk_keeps, open_next_cases, count_signal_cases}
use trading_backend.Backtest.Metrics.{ClosedTrade, round_money}
use trading_backend.Number.Interface.{Number}
use trading_backend.Store.Entities.{MarketCandle}
use trading_backend.Store.World.{Config}
use trading_backend.Strategy.{StrategyResult}

module _ {W : Type 0} ⦃n : Number W⦄ where
  -- The signals before the filters are those after them and those that a filter has stopped.
  abbrev IsCounted : EngineState W → Type 0
  IsCounted s = s.signals_before_filters ≡ s.signals_after_filters + length s.filter_reasons

  book-IsCounted :
      (ts : List (ClosedTrade W)) (s : EngineState W) → IsCounted s → IsCounted (book ts s)
  unfolding book
  book-IsCounted [] s h = h
  book-IsCounted (t ∷ ts) s h =
      let b = round_money (n.add s.balance t.pnl) in
      book-IsCounted ts
        (record s {
          balance = b;
          balance_history = s.balance_history ++ (b ∷ []);
          trades = s.trades ++ (t ∷ []);
        })
        h

  count_signal-IsCounted :
      (r : Option (StrategyResult W)) (s : EngineState W)
      → IsCounted s
      → IsCounted (count_signal r s)
  count_signal-IsCounted r s h = elim (count_signal_cases r s) [
    | inl e ↦ subst (λ v. IsCounted v) (sym e) h
    | inr (inl e) ↦ subst (λ v. IsCounted v) (sym e) (omega (arith, h))
    | inr (inr (reason, e)) ↦ subst (λ v. IsCounted v) (sym e) (omega (arith, h))
  ]

  open_next-IsCounted :
      (input : RunInput W) (rest : List (MarketCandle W)) (r : Option (StrategyResult W))
      (s : EngineState W)
      → IsCounted s
      → IsCounted (open_next input rest r s)
  open_next-IsCounted input rest r s h = elim (open_next_cases input rest r s) [
    | inl e ↦ subst (λ v. IsCounted v) (sym e) h
    | inr (next, p, u, e) ↦ subst (λ v. IsCounted v) (sym e) h
  ]

  advance-IsCounted :
      (config : Config W) (input : RunInput W) (window : List (MarketCandle W)) (c : MarketCandle W)
      (rest : List (MarketCandle W)) (s : EngineState W)
      → IsCounted s
      → IsCounted (advance config input window c rest s)
  unfolding advance
  advance-IsCounted config input window c rest s h =
      let closed = close_triggered_trades s.balance c s.open_trades in
      let result = evaluate_at config input window c in
      let s1 = record s { open_trades = closed.1 } in
      open_next-IsCounted input rest result (count_signal result (book closed.0 s1))
        (count_signal-IsCounted result (book closed.0 s1) (book-IsCounted closed.0 s1 h))

  settle_at_end-IsCounted :
      (candles : List (MarketCandle W)) (s : EngineState W)
      → IsCounted s
      → IsCounted (settle_at_end candles s)
  unfolding settle_at_end
  settle_at_end-IsCounted candles s h = elim (Option-cases (find_last (λ c. true) candles)) [
    | inl e ↦ rw (settle_at_end, e) h
    | inr (last, e) ↦
        rw (settle_at_end, e)
          (book-IsCounted (close_remaining_trades s.balance last s.open_trades)
            (record s { open_trades = [] }) h)
  ]

  -- The signals that a run reports as filtered are the reasons that it has counted: the signals before
  -- the filters are those after them and one for each reason.
  pub run_engine-counters :
      (config : Config W) (input : RunInput W) (candles : List (MarketCandle W))
      → let r = run_engine config input candles in
        (r.filtered_signals ≡ length r.filter_reasons)
        × (r.signals_before_filters ≡ r.signals_after_filters + length r.filter_reasons)
  unfolding run_engine final_state
  run_engine-counters config input candles =
      let walked = walk config input [] candles (initial_state input) in
      let k = settle_at_end-IsCounted candles walked (
        walk_keeps config input (λ rest s. IsCounted s)
          (λ window c rest s h. advance-IsCounted config input window c rest s h) [] candles
          (initial_state input) refl) in
      (omega (arith, k), k)
