-- ===== src/Paper/Invariant.antt =====
-- What no sequence of openings, closings and candles can break: open trades stay apart.
use trading_backend.Base.{
  ◌==◌, ==→eq, Bool-cases, Option-cases, some_and, find_first, count_where, count_where-eq-zero,
  count_where-update_where-le, ℕ, ◌≤◌, ◌≡◌, subst, inl, inr, Bool, true, ◌&&◌, Option, none, List,
  [], ◌∷◌, arith,
}
use trading_backend.Number.Interface.{Number}
use trading_backend.Paper.{
  opened_row, open_trade_from_signal, profit, closed_row, close_trade, close_triggered,
  evaluate_open_trades_on_candle,
}
use trading_backend.Paper.Candle.{close_input_for_candle}
use trading_backend.Paper.Closed.{percent_of}
use trading_backend.Paper.Closing.{close_trade_row, close_trade_atomic}
use trading_backend.Paper.Opening.{open_trade_from_signal_row, open_trade_from_signal_atomic}
use trading_backend.Store.Actions.{>>=_keeps}
use trading_backend.Store.Entities.{PaperTrade, MarketCandle}
use trading_backend.Store.Enums.{PaperTradeCloseReason, is_opened}
use trading_backend.Store.World.{World, Env, ◌>>=◌, pure, Result-cases}

abbrev pub is_open_of : {W : Type 0} → ℕ → PaperTrade W → Bool
is_open_of instrument t = t.instrument_id == instrument && is_opened t.status

abbrev pub is_trade_of : {W : Type 0} → ℕ → PaperTrade W → Bool
is_trade_of signal t = some_and (λ s. s == signal) t.signal_id

-- A step of the backend, seen from the paper trades.
pub data PaperStep {W : Type 0} ⦃n : Number W⦄ : World W → World W → Type 0 where
  opening :
      (env : Env W) (i : ℕ) (account_id : Option ℕ) (w : World W)
      → PaperStep w (open_trade_from_signal env i account_id w).1
  closing :
      (env : Env W) (id : ℕ) (price : W) (reason : PaperTradeCloseReason) (w : World W)
      → PaperStep w (close_trade env id price reason w).1
  candle :
      (env : Env W) (c : MarketCandle W) (w : World W)
      → PaperStep w (evaluate_open_trades_on_candle env c w).1
  aside : (w w' : World W) → w'.paper_trades ≡ w.paper_trades → PaperStep w w'

pub data PaperRun {W : Type 0} ⦃n : Number W⦄ : World W → World W → Type 0 where
  rest : (w : World W) → PaperRun w w
  next : {w v u : World W} → PaperStep w v → PaperRun v u → PaperRun w u

module _ {W : Type 0} where
  -- One open trade at most of an instrument, and one trade at most of a signal, open or closed.
  pub record IsTidy (ts : List (PaperTrade W)) : Type 0 where
    pub one_open : (instrument : ℕ) → count_where (is_open_of instrument) ts ≤ 1
    pub one_trade : (signal : ℕ) → count_where (is_trade_of signal) ts ≤ 1

  count_where-new :
      (p : PaperTrade W → Bool) (t : PaperTrade W) (ts : List (PaperTrade W))
      → (p t ≡ true → find_first p ts ≡ none)
      → count_where p ts ≤ 1
      → count_where p (t ∷ ts) ≤ 1
  unfolding count_where
  count_where-new p t ts h k = elim (Bool-cases (p t)) [
    | inl e ↦ let z = count_where-eq-zero p ts (h e) in ground arith
    | inr e ↦ ground arith
  ]

module _ {W : Type 0} ⦃n : Number W⦄ where
  opening-IsTidy :
      (env : Env W) (i : ℕ) (account_id : Option ℕ) (w : World W)
      → IsTidy w.paper_trades
      → IsTidy (open_trade_from_signal env i account_id w).1.paper_trades
  opening-IsTidy env i account_id w k =
      elim (Result-cases (open_trade_from_signal env i account_id w).0) [
        | inr (e, h) ↦ rw (open_trade_from_signal_atomic env i account_id w h) k
        | inl (t, h) ↦
            let (o, g, e, f, s, d) = open_trade_from_signal_row env i account_id w h in
            rw (f, e)
              (record {
                one_open = λ x.
                    count_where-new (is_open_of x)
                      (opened_row env w.next_id o.signal o.account.id o.prices o.size)
                      w.paper_trades
                      (λ q.
                        subst (λ y. find_first (is_open_of y) w.paper_trades ≡ none)
                          (==→eq _ _ (ground arith)) g.cleared.unopened)
                      (k.one_open x);
                one_trade = λ x.
                    count_where-new (is_trade_of x)
                      (opened_row env w.next_id o.signal o.account.id o.prices o.size)
                      w.paper_trades
                      (λ q.
                        subst (λ y. find_first (is_trade_of y) w.paper_trades ≡ none)
                          (==→eq o.signal.id x (ground arith)) g.cleared.untraded)
                      (k.one_trade x);
              })
      ]

  closing-IsTidy :
      (env : Env W) (id : ℕ) (price : W) (reason : PaperTradeCloseReason) (w : World W)
      → IsTidy w.paper_trades
      → IsTidy (close_trade env id price reason w).1.paper_trades
  closing-IsTidy env id price reason w k =
      elim (Result-cases (close_trade env id price reason w).0) [
        | inr (e, h) ↦ rw (close_trade_atomic env id price reason w h) k
        | inl (r, h) ↦
            let (t, a, c, e, f, b, es) = close_trade_row env id price reason w h in
            let change =
              closed_row env price (profit t price) (percent_of a (profit t price)) reason in
            rw f (record {
              one_open = λ x.
                  let z =
                    count_where-update_where-le (is_open_of x) (λ t. t.id == id) change
                      w.paper_trades (λ y p q. ground arith) in
                  let y = k.one_open x in omega arith;
              one_trade = λ x.
                  let z =
                    count_where-update_where-le (is_trade_of x) (λ t. t.id == id) change
                      w.paper_trades (λ y p q. q) in
                  let y = k.one_trade x in omega arith;
            })
      ]

  abbrev KeepsTidy : World W → World W → Type 0
  KeepsTidy w v = IsTidy w.paper_trades → IsTidy v.paper_trades

  close_triggered-IsTidy :
      (env : Env W) (c : MarketCandle W) (ts : List (PaperTrade W)) (w : World W)
      → IsTidy w.paper_trades
      → IsTidy (close_triggered env c ts w).1.paper_trades
  unfolding close_triggered
  close_triggered-IsTidy env c [] w k = k
  close_triggered-IsTidy env c (t ∷ ts) w k = elim (Option-cases (close_input_for_candle t c)) [
    | inl e ↦ rw (close_triggered, e) (close_triggered-IsTidy env c ts w k)
    | inr (x, e) ↦
        let w1 = (close_trade env t.id x.close_price x.close_reason w).1 in
        let then : (a b d : World W) → KeepsTidy a b → KeepsTidy b d → KeepsTidy a d =
          λ a b d p q s. q (p s) in
        rw (close_triggered, e)
          (>>=_keeps KeepsTidy then (close_trade env t.id x.close_price x.close_reason)
            (λ closed. close_triggered env c ts >>= λ rest. pure (closed ∷ rest)) w
            (closing-IsTidy env t.id x.close_price x.close_reason w)
            (λ closed.
              >>=_keeps KeepsTidy then (close_triggered env c ts) (λ rest. pure (closed ∷ rest)) w1
                (close_triggered-IsTidy env c ts w1) (λ rest s. s))
            k)
  ]

  step-IsTidy : {w v : World W} → PaperStep w v → IsTidy w.paper_trades → IsTidy v.paper_trades
  unfolding evaluate_open_trades_on_candle
  step-IsTidy (opening env i account_id w) k = opening-IsTidy env i account_id w k
  step-IsTidy (closing env id price reason w) k = closing-IsTidy env id price reason w k
  step-IsTidy (candle env c w) k = close_triggered-IsTidy env c _ w k
  step-IsTidy (aside w w' e) k = rw e k

  -- Whatever the order of openings, closings, candles and operations that write no paper trade: if
  -- an instrument has one open paper trade at most and a signal one paper trade at most before, they
  -- have after.
  pub run-IsTidy : {w v : World W} → PaperRun w v → IsTidy w.paper_trades → IsTidy v.paper_trades
  run-IsTidy (rest w) k = k
  run-IsTidy (next a r) k = run-IsTidy r (step-IsTidy a k)
