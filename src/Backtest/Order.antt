-- ===== src/Backtest/Order.antt =====
-- The times of a run's trades: a trade is closed after it was opened.
use trading_backend.Base.{
  Option-cases, All, find_last, All-weaken, All-append, ℕ, ◌≤◌, ◌<◌, ◌≡◌, refl, sym, subst, inl,
  inr, true, Option, some, List, [], ◌∷◌, ◌++◌, arith,
}
use trading_backend.Backtest.Engine.{
  RunInput, EngineState, upcoming, book, count_signal, trade_at, open_next, evaluate_at, advance,
  walk, close_remaining_trades, initial_state, settle_at_end, final_state, run_engine,
}
use trading_backend.Backtest.Exits.{exit_of, close_triggered_trades}
use trading_backend.Backtest.Loop.{walk_keeps, open_next_cases, count_signal_cases}
use trading_backend.Backtest.Metrics.{OpenTrade, ClosedTrade, round_money}
use trading_backend.Number.Interface.{Number}
use trading_backend.Store.Entities.{MarketCandle}
use trading_backend.Store.World.{Config}
use trading_backend.Strategy.{StrategyResult}

module _ {W : Type 0} where
  abbrev pub IsAscending : List (MarketCandle W) → Type 0
  IsAscending [] = Unit
  IsAscending (c ∷ []) = Unit
  IsAscending (c ∷ d ∷ ds) = (c.timestamp < d.timestamp) × IsAscending (d ∷ ds)

  abbrev pub IsTimed : ClosedTrade W → Type 0
  IsTimed t = t.opening.opened_at < t.closed_at

  abbrev last_of : MarketCandle W → List (MarketCandle W) → MarketCandle W
  last_of c [] = c
  last_of c (d ∷ ds) = last_of d ds

  find_last-last_of :
      (c : MarketCandle W) (cs : List (MarketCandle W))
      → find_last (λ c. true) (c ∷ cs) ≡ some (last_of c cs)
  unfolding find_last
  find_last-last_of c [] = refl
  find_last-last_of c (d ∷ ds) = rw (find_last-last_of d ds) refl

  -- an open trade was opened before the last candle, at a candle already seen or at the next one
  abbrev IsWithin : ℕ → List (MarketCandle W) → OpenTrade W → Type 0
  IsWithin end [] t = t.opened_at < end
  IsWithin end (c ∷ []) t = t.opened_at < c.timestamp
  IsWithin end (c ∷ d ∷ ds) t = t.opened_at ≤ c.timestamp

  -- the candles to come ascend to the last one
  abbrev IsComing : ℕ → List (MarketCandle W) → Type 0
  IsComing end [] = Unit
  IsComing end (c ∷ cs) = IsAscending (c ∷ cs) × ((last_of c cs).timestamp ≡ end)

  IsComing-next :
      (end : ℕ) (c : MarketCandle W) (rest : List (MarketCandle W))
      → IsComing end (c ∷ rest)
      → IsComing end rest
  IsComing-next end c [] h = tt
  IsComing-next end c (d ∷ rest) ((a, h), k) = (h, k)

  IsWithin-next :
      (end : ℕ) (c : MarketCandle W) (rest : List (MarketCandle W)) (t : OpenTrade W)
      → IsComing end (c ∷ rest)
      → IsWithin end (c ∷ rest) t
      → IsWithin end rest t
  IsWithin-next end c [] t (h, k) w = omega (arith, k)
  IsWithin-next end c (d ∷ []) t ((a, h), k) w = omega arith
  IsWithin-next end c (d ∷ e ∷ rest) t ((a, h), k) w = omega arith

  upcoming-IsWithin :
      (end : ℕ) (rest : List (MarketCandle W)) (next : MarketCandle W) (t : OpenTrade W)
      → upcoming rest ≡ some next
      → t.opened_at ≡ next.timestamp
      → IsWithin end rest t
  upcoming-IsWithin end [] next t h k = absurd (cc)
  upcoming-IsWithin end (d ∷ []) next t h k = absurd (cc)
  upcoming-IsWithin end (d ∷ e ∷ rest) next t h k = ground arith

module _ {W : Type 0} ⦃n : Number W⦄ where
  close_triggered_trades-IsTimed :
      (b : W) (c : MarketCandle W) (ts : List (OpenTrade W))
      → All IsTimed (close_triggered_trades b c ts).0
  unfolding close_triggered_trades exit_of
  close_triggered_trades-IsTimed b c [] = tt
  close_triggered_trades-IsTimed b c (t ∷ ts) = elim (Option-cases (exit_of t c)) [
    | inl e ↦ rw (close_triggered_trades, e) (close_triggered_trades-IsTimed b c ts)
    | inr (x, e) ↦
        let before : t.opened_at < c.timestamp = ground arith in
        rw (close_triggered_trades, e) (before, close_triggered_trades-IsTimed b c ts)
  ]

  close_triggered_trades-All :
      (P : OpenTrade W → Type 0) (b : W) (c : MarketCandle W) (ts : List (OpenTrade W))
      → All P ts
      → All P (close_triggered_trades b c ts).1
  unfolding close_triggered_trades
  close_triggered_trades-All P b c [] h = tt
  close_triggered_trades-All P b c (t ∷ ts) (p, h) = elim (Option-cases (exit_of t c)) [
    | inl e ↦ rw (close_triggered_trades, e) (p, close_triggered_trades-All P b c ts h)
    | inr (x, e) ↦ rw (close_triggered_trades, e) (close_triggered_trades-All P b c ts h)
  ]

  close_remaining_trades-IsTimed :
      (b : W) (c : MarketCandle W) (ts : List (OpenTrade W))
      → All (λ t. t.opened_at < c.timestamp) ts
      → All IsTimed (close_remaining_trades b c ts)
  unfolding close_remaining_trades
  close_remaining_trades-IsTimed b c [] h = tt
  close_remaining_trades-IsTimed b c (t ∷ ts) (p, h) =
      All-append IsTimed (close_remaining_trades b c ts) _ (close_remaining_trades-IsTimed b c ts h)
        p

  -- the trades of a state are timed, and its open trades are within the candles
  abbrev IsPunctual : ℕ → List (MarketCandle W) → EngineState W → Type 0
  IsPunctual end rest s =
      IsComing end rest × All (IsWithin end rest) s.open_trades × All IsTimed s.trades

  book-IsPunctual :
      (end : ℕ) (rest : List (MarketCandle W)) (ts : List (ClosedTrade W)) (s : EngineState W)
      → All IsTimed ts
      → IsPunctual end rest s
      → IsPunctual end rest (book ts s)
  unfolding book
  book-IsPunctual end rest [] s h k = k
  book-IsPunctual end rest (t ∷ ts) s (p, h) (a, o, q) =
      let b = round_money (n.add s.balance t.pnl) in
      book-IsPunctual end rest ts
        (record s {
          balance = b;
          balance_history = s.balance_history ++ (b ∷ []);
          trades = s.trades ++ (t ∷ []);
        })
        h (a, o, All-append IsTimed s.trades t q p)

  count_signal-IsPunctual :
      (end : ℕ) (rest : List (MarketCandle W)) (r : Option (StrategyResult W)) (s : EngineState W)
      → IsPunctual end rest s
      → IsPunctual end rest (count_signal r s)
  count_signal-IsPunctual end rest r s h = elim (count_signal_cases r s) [
    | inl e ↦ subst (IsPunctual end rest) (sym e) h
    | inr (inl e) ↦ subst (IsPunctual end rest) (sym e) h
    | inr (inr (reason, e)) ↦ subst (IsPunctual end rest) (sym e) h
  ]

  open_next-IsPunctual :
      (input : RunInput W) (end : ℕ) (rest : List (MarketCandle W)) (r : Option (StrategyResult W))
      (s : EngineState W)
      → IsPunctual end rest s
      → IsPunctual end rest (open_next input rest r s)
  open_next-IsPunctual input end rest r s (a, o, q) = elim (open_next_cases input rest r s) [
    | inl e ↦ subst (IsPunctual end rest) (sym e) (a, o, q)
    | inr (next, p, u, e) ↦
        subst (IsPunctual end rest) (sym e)
          (a, (upcoming-IsWithin end rest next (trade_at input s.balance next p) u refl, o), q)
  ]

  advance-IsPunctual :
      (config : Config W) (input : RunInput W) (end : ℕ) (window : List (MarketCandle W))
      (c : MarketCandle W) (rest : List (MarketCandle W)) (s : EngineState W)
      → IsPunctual end (c ∷ rest) s
      → IsPunctual end rest (advance config input window c rest s)
  unfolding advance
  advance-IsPunctual config input end window c rest s (a, o, q) =
      let closed = close_triggered_trades s.balance c s.open_trades in
      let result = evaluate_at config input window c in
      let s1 = record s { open_trades = closed.1 } in
      let later =
        All-weaken (IsWithin end (c ∷ rest)) (IsWithin end rest) closed.1
          (λ t. IsWithin-next end c rest t a)
          (close_triggered_trades-All (IsWithin end (c ∷ rest)) s.balance c s.open_trades o) in
      open_next-IsPunctual input end rest result (count_signal result (book closed.0 s1)) (
        count_signal-IsPunctual end rest result (book closed.0 s1) (
          book-IsPunctual end rest closed.0 s1
            (close_triggered_trades-IsTimed s.balance c s.open_trades)
            (IsComing-next end c rest a, later, q)))

  -- Over candles whose times ascend, every trade of a run is closed at a later time than it was opened,
  -- also those that the end of the run closes.
  pub run_engine-IsTimed :
      (config : Config W) (input : RunInput W) (candles : List (MarketCandle W))
      → IsAscending candles
      → All IsTimed (run_engine config input candles).trades
  unfolding run_engine final_state settle_at_end walk find_last
  run_engine-IsTimed config input [] h = tt
  run_engine-IsTimed config input (c ∷ cs) h =
      let last = last_of c cs in
      let end = last.timestamp in
      let (_, o, q) =
        walk_keeps config input (IsPunctual end) (advance-IsPunctual config input end) [] (c ∷ cs)
          (initial_state input) ((h, refl), tt, tt) in
      let s = walk config input [] (c ∷ cs) (initial_state input) in
      rw (settle_at_end, find_last-last_of c cs)
        (book-IsPunctual end [] (close_remaining_trades s.balance last s.open_trades)
          (record s { open_trades = [] })
          (close_remaining_trades-IsTimed s.balance last s.open_trades o) (tt, tt, q)).2
