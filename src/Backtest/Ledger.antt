-- ===== src/Backtest/Ledger.antt =====
-- The balance of a run is the ledger of its trades.
use trading_backend.Base.{
  Option-cases, length, All, find_last, All-append, ◌≡◌, refl, sym, ap, subst, inl, inr, true,
  Option, List, [], ◌∷◌, ◌++◌, arith,
}
use trading_backend.Backtest.Engine.{
  RunInput, EngineState, book, count_signal, open_next, evaluate_at, advance, walk,
  close_remaining_trades, initial_state, settle_at_end, final_state, run_engine,
}
use trading_backend.Backtest.Exits.{calculate_pnl, exit_of, close_triggered_trades}
use trading_backend.Backtest.Loop.{walk_keeps, open_next_cases, count_signal_cases}
use trading_backend.Backtest.Metrics.{OpenTrade, ClosedTrade, round_money, last_or, calculate}
use trading_backend.Number.Gain.{gain}
use trading_backend.Number.Interface.{Number}
use trading_backend.Store.Entities.{MarketCandle}
use trading_backend.Store.World.{Config}
use trading_backend.Strategy.{StrategyResult}

module _ {W : Type 0} ⦃n : Number W⦄ where
  open n use {add, sub}

  -- the balances after each trade, from a first one, and the last of them
  unfoldable pub balances : W → List (ClosedTrade W) → List W
  balances b [] = []
  balances b (t ∷ ts) = let b' = round_money (add b t.pnl) in b' ∷ balances b' ts

  unfoldable pub balance_after : W → List (ClosedTrade W) → W
  balance_after b [] = b
  balance_after b (t ∷ ts) = balance_after (round_money (add b t.pnl)) ts

  balance_after-append :
      (b : W) (ts : List (ClosedTrade W)) (t : ClosedTrade W)
      → balance_after b (ts ++ (t ∷ [])) ≡ round_money (add (balance_after b ts) t.pnl)
  unfolding balance_after
  balance_after-append b [] t = refl
  balance_after-append b (u ∷ ts) t = balance_after-append (round_money (add b u.pnl)) ts t

  balances-append :
      (b : W) (ts : List (ClosedTrade W)) (t : ClosedTrade W)
      → balances b (ts ++ (t ∷ []))
        ≡ balances b ts ++ (round_money (add (balance_after b ts) t.pnl) ∷ [])
  unfolding balances balance_after
  balances-append b [] t = refl
  balances-append b (u ∷ ts) t =
      ap (λ bs. round_money (add b u.pnl) ∷ bs) (balances-append (round_money (add b u.pnl)) ts t)

  last_or-balances :
      (b : W) (ts : List (ClosedTrade W)) → last_or b (balances b ts) ≡ balance_after b ts
  unfolding balances balance_after last_or
  last_or-balances b [] = refl
  last_or-balances b (t ∷ ts) = last_or-balances (round_money (add b t.pnl)) ts

  abbrev pub HasProfit : ClosedTrade W → Type 0
  HasProfit t =
      t.pnl
      ≡ round_money
          (gain t.opening.direction t.opening.entry_price t.exit_price t.opening.position_size)

  calculate_pnl-gain :
      (t : OpenTrade W) (price : W)
      → calculate_pnl t price ≡ round_money (gain t.direction t.entry_price price t.position_size)
  unfolding calculate_pnl
  calculate_pnl-gain t price = ground arith

  -- The state's balances are those of its trades, each of which has its profit from its prices.
  abbrev pub IsLedger : W → EngineState W → Type 0
  IsLedger initial s =
      (s.balance ≡ balance_after initial s.trades)
      × (s.balance_history ≡ initial ∷ balances initial s.trades)
      × All HasProfit s.trades

  book-IsLedger :
      (initial : W) (ts : List (ClosedTrade W)) (s : EngineState W)
      → All HasProfit ts
      → IsLedger initial s
      → IsLedger initial (book ts s)
  unfolding book
  book-IsLedger initial [] s h k = k
  book-IsLedger initial (t ∷ ts) s (p, h) (e, e1, q) =
      let b = round_money (add s.balance t.pnl) in
      book-IsLedger initial ts
        (record s {
          balance = b;
          balance_history = s.balance_history ++ (b ∷ []);
          trades = s.trades ++ (t ∷ []);
        })
        h
        (
          rw (balance_after-append initial s.trades t, e) refl,
          rw (balances-append initial s.trades t, e, e1) refl,
          All-append HasProfit s.trades t q p,
        )

  close_triggered_trades-HasProfit :
      (b : W) (c : MarketCandle W) (ts : List (OpenTrade W))
      → All HasProfit (close_triggered_trades b c ts).0
  unfolding close_triggered_trades
  close_triggered_trades-HasProfit b c [] = tt
  close_triggered_trades-HasProfit b c (t ∷ ts) = elim (Option-cases (exit_of t c)) [
    | inl e ↦ rw (close_triggered_trades, e) (close_triggered_trades-HasProfit b c ts)
    | inr (x, e) ↦
        rw (close_triggered_trades, e)
          (calculate_pnl-gain t x.price, close_triggered_trades-HasProfit b c ts)
  ]

  close_remaining_trades-HasProfit :
      (b : W) (c : MarketCandle W) (ts : List (OpenTrade W))
      → All HasProfit (close_remaining_trades b c ts)
  unfolding close_remaining_trades
  close_remaining_trades-HasProfit b c [] = tt
  close_remaining_trades-HasProfit b c (t ∷ ts) =
      All-append HasProfit (close_remaining_trades b c ts) _
        (close_remaining_trades-HasProfit b c ts) (calculate_pnl-gain t c.close)

  count_signal-IsLedger :
      (initial : W) (r : Option (StrategyResult W)) (s : EngineState W)
      → IsLedger initial s
      → IsLedger initial (count_signal r s)
  count_signal-IsLedger initial r s h = elim (count_signal_cases r s) [
    | inl e ↦ subst (IsLedger initial) (sym e) h
    | inr (inl e) ↦ subst (IsLedger initial) (sym e) h
    | inr (inr (reason, e)) ↦ subst (IsLedger initial) (sym e) h
  ]

  open_next-IsLedger :
      (input : RunInput W) (initial : W) (rest : List (MarketCandle W))
      (r : Option (StrategyResult W)) (s : EngineState W)
      → IsLedger initial s
      → IsLedger initial (open_next input rest r s)
  open_next-IsLedger input initial rest r s h = elim (open_next_cases input rest r s) [
    | inl e ↦ subst (IsLedger initial) (sym e) h
    | inr (next, p, u, e) ↦ subst (IsLedger initial) (sym e) h
  ]

  advance-IsLedger :
      (config : Config W) (input : RunInput W) (initial : W) (window : List (MarketCandle W))
      (c : MarketCandle W) (rest : List (MarketCandle W)) (s : EngineState W)
      → IsLedger initial s
      → IsLedger initial (advance config input window c rest s)
  unfolding advance
  advance-IsLedger config input initial window c rest s h =
      let closed = close_triggered_trades s.balance c s.open_trades in
      let result = evaluate_at config input window c in
      let s1 = record s { open_trades = closed.1 } in
      open_next-IsLedger input initial rest result (count_signal result (book closed.0 s1)) (
        count_signal-IsLedger initial result (book closed.0 s1) (
          book-IsLedger initial closed.0 s1
            (close_triggered_trades-HasProfit s.balance c s.open_trades) h))

  settle_at_end-IsLedger :
      (initial : W) (candles : List (MarketCandle W)) (s : EngineState W)
      → IsLedger initial s
      → IsLedger initial (settle_at_end candles s)
  unfolding settle_at_end
  settle_at_end-IsLedger initial candles s h = elim (Option-cases (find_last (λ c. true) candles)) [
    | inl e ↦ rw (settle_at_end, e) h
    | inr (last, e) ↦
        rw (settle_at_end, e)
          (book-IsLedger initial (close_remaining_trades s.balance last s.open_trades)
            (record s { open_trades = [] })
            (close_remaining_trades-HasProfit s.balance last s.open_trades) h)
  ]

  -- The result of a run is the ledger of its trades: the state's balances are the initial balance and
  -- then, after each trade, the last balance plus its profit, rounded; a trade's profit is (exit -
  -- entry) * size of a BUY and (entry - exit) * size of a SELL, rounded; and the metrics count these trades, and give the last balance and its difference to the
  -- initial one, rounded.
  pub run_engine-ledger :
      (config : Config W) (input : RunInput W) (candles : List (MarketCandle W))
      → let r = run_engine config input candles in
        let end = balance_after input.initial_balance r.trades in
        ((final_state config input candles).balance_history
          ≡ input.initial_balance ∷ balances input.initial_balance r.trades)
        × All HasProfit r.trades
        × (r.metrics.total_trades ≡ length r.trades)
        × (r.metrics.final_balance ≡ round_money end)
        × (r.metrics.net_pnl ≡ round_money (sub end input.initial_balance))
  unfolding run_engine final_state calculate last_or balance_after balances
  run_engine-ledger config input candles =
      let initial = input.initial_balance in
      let walked = walk config input [] candles (initial_state input) in
      let start : IsLedger initial (initial_state input) = (refl, refl, tt) in
      let (_, e, p) = settle_at_end-IsLedger initial candles walked (
        walk_keeps config input (λ rest s. IsLedger initial s)
          (λ window c rest s h. advance-IsLedger config input initial window c rest s h) [] candles
          (initial_state input) start) in
      let s = settle_at_end candles walked in
      let last : last_or initial s.balance_history ≡ balance_after initial s.trades =
        rw e (last_or-balances initial s.trades) in
      (e, p, refl, ap round_money last, ap (λ b. round_money (sub b initial)) last)
