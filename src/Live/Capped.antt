-- ===== src/Live/Capped.antt =====
-- The limits, as the broker's side of an execution sees them.
use trading_backend.Base.{
  Bool-cases, count_where, ℕ, ◌≤◌, ◌<◌, ◌≡◌, sym, subst, ◌≢◌, inl, inr, Bool, true, false, some,
  List, ◌∷◌, arith,
}
use trading_backend.Live.{order_of, executed_row, failed_row, execute_live_from_signal}
use trading_backend.Live.Guard.{LiveExecutionContext, is_allowed_symbol, is_live_since, get_limits}
use trading_backend.Live.Settling.{IsNumbered, IsSent, row_of, execute_live_from_signal_cases}
use trading_backend.Live.Validation.{IsExecutable}
use trading_backend.Number.Interface.{Number}
use trading_backend.Store.Entities.{OrderRequest, LiveOrderResponse, LiveTrade, LiveTradingLimits}
use trading_backend.Store.Text.{message}
use trading_backend.Store.World.{World, Result, Env, ok}

module _ {W : Type 0} ⦃n : Number W⦄ where
  open n use {lt}

  count_where-one :
      (p : LiveTrade W → Bool) (t : LiveTrade W) (ts : List (LiveTrade W)) {k : ℕ}
      → count_where p ts < k
      → count_where p (t ∷ ts) ≤ k
  unfolding count_where
  count_where-one p t ts h = elim (Bool-cases (p t)) [ inl e ↦ ground arith | inr e ↦ ground arith ]

  -- An order that respects the limits: its symbol is allowed, and its volume not above the maximum.
  pub record IsLimited (l : LiveTradingLimits W) (o : OrderRequest W) : Type 0 where
    pub symbol_allowed : is_allowed_symbol o.symbol l.allowed_symbols ≡ true
    pub volume_small : lt l.max_volume_per_trade o.volume ≡ false

  within :
      (env : Env W) (i user_id m : ℕ) (w : World W) (c : LiveExecutionContext W)
      (out : Result W (LiveTrade W × LiveOrderResponse W) × World W) (t : LiveTrade W)
      {l : LiveTradingLimits W}
      → (get_limits w).0 ≡ ok l
      → IsExecutable env i user_id (some m) w c
      → IsSent env i w c out t
      → (o : OrderRequest W) × (out.1.live_orders ≡ o ∷ w.live_orders)
        × IsLimited l o
        × (count_where (is_live_since (env.start_of_day env.now)) out.1.live_trades
            ≤ l.max_daily_live_trades)
  within env i user_id m w c out t {l} h g k =
      let b = g.bounded in
      let e : c.limits ≡ l = ground (arith, b.read) in
      let few =
        count_where-one (is_live_since (env.start_of_day env.now)) t w.live_trades b.in_day in
      (
        order_of c,
        k.one_order,
        record {
          symbol_allowed =
              subst (λ x. is_allowed_symbol c.symbol x.allowed_symbols ≡ true) e b.allowed;
          volume_small = rw⁻¹ e (rw g.volume_is b.small);
        },
        rw (k.one_trade, sym e) few,
      )

  -- Where the ids of the live trades are below the next id: if an execution hands an order to the
  -- broker, then under the limits that were in force, or their
  -- defaults where none were stored, the order's symbol is allowed, its volume is not above the
  -- maximum, and with its trade the live trades of the day are not more than the daily maximum.
  pub execute_live_from_signal_bounded :
      (env : Env W) (i user_id m : ℕ) (w : World W) {l : LiveTradingLimits W}
      → IsNumbered w.next_id w.live_trades
      → (get_limits w).0 ≡ ok l
      → let out = execute_live_from_signal env i user_id m w in
        out.1.live_orders ≢ w.live_orders
        → (o : OrderRequest W) × (out.1.live_orders ≡ o ∷ w.live_orders)
          × IsLimited l o
          × (count_where (is_live_since (env.start_of_day env.now)) out.1.live_trades
              ≤ l.max_daily_live_trades)
  execute_live_from_signal_bounded env i user_id m w hf hl sent =
      let out = execute_live_from_signal env i user_id m w in
      elim (execute_live_from_signal_cases env i user_id m w hf) [
        | inl r ↦ absurd (sent r.no_order)
        | inr (c, g, inl (r, p, x, o, k, z)) ↦
            within env i user_id m w c out (executed_row env r (row_of env i w c)) hl g k
        | inr (c, g, inr (e, o, _, k, z)) ↦
            within env i user_id m w c out (failed_row (message e) (row_of env i w c)) hl g k
      ]
