-- ===== src/Live/Execution.antt =====
-- `executeLiveFromSignal` as a whole: the order and the trade that it leaves.
use trading_backend.Base.{
  map_some, update_where, ℕ, suc, ◌≡◌, refl, ap, ◌⊎◌, inl, inr, true, false, some, ◌∷◌,
}
use trading_backend.Broker.Direction.{IsDirection, to_direction-IsDirection}
use trading_backend.Live.{order_of, executed_row, failed_row, execute_live_from_signal}
use trading_backend.Live.Guard.{LiveExecutionContext}
use trading_backend.Live.Settling.{
  IsNumbered, IsRefused, row_of, IsSettled, execute_live_from_signal_cases,
}
use trading_backend.Live.Validation.{IsExecutable}
use trading_backend.Number.Interface.{Number}
use trading_backend.Signals.{set_status}
use trading_backend.Signals.Status.{has_id}
use trading_backend.Store.Entities.{OrderRequest, LiveOrderResponse, LiveTrade}
use trading_backend.Store.Enums.{SignalStatus, LiveTradeStatus}
use trading_backend.Store.Text.{Text, Exception, message}
use trading_backend.Store.World.{World, Result, Env, placed, ok, err}

module _ {W : Type 0} ⦃n : Number W⦄ where
  open n use {column}

  -- the order of an execution, by its signal, its approved assessment and the instrument's symbol
  pub record IsOrderOf (c : LiveExecutionContext W) (o : OrderRequest W) : Type 0 where
    pub of_symbol : o.symbol ≡ c.symbol
    pub of_direction : IsDirection c.signal.direction o.direction
    pub of_volume : o.volume ≡ c.risk_assessment.position_size
    pub of_entry : o.entry_price ≡ c.signal.entry_price
    pub of_stop : o.stop_loss ≡ c.signal.stop_loss
    pub of_target : o.take_profit ≡ c.signal.take_profit

  -- its trade, in the columns' precision
  pub record IsTradeOf (i id : ℕ) (c : LiveExecutionContext W) (t : LiveTrade W) : Type 0 where
    pub trade_id : t.id ≡ id
    pub trade_signal : t.signal_id ≡ i
    pub trade_decision : t.manual_decision_id ≡ c.manual_decision.id
    pub trade_symbol : t.symbol ≡ c.symbol
    pub trade_direction : IsDirection c.signal.direction t.direction
    pub trade_volume : t.volume ≡ column 8 c.risk_assessment.position_size
    pub trade_entry : t.entry_price ≡ column 8 c.signal.entry_price
    pub trade_stop : t.stop_loss ≡ map_some (column 8) c.signal.stop_loss
    pub trade_target : t.take_profit ≡ map_some (column 8) c.signal.take_profit

  -- One order and one trade: EXECUTED, with the signal, by an answer of the broker that says so; or
  -- FAILED, with the signal as it was, when no answer of the broker says so.
  abbrev pub IsTraded :
      Env W
      → ℕ
      → World W
      → LiveExecutionContext W
      → Result W (LiveTrade W × LiveOrderResponse W) × World W
      → Type 0
  IsTraded env i w c out =
      (o : OrderRequest W) × (t : LiveTrade W) × IsOrderOf c o
      × IsTradeOf i w.next_id c t
      × (out.1.live_orders ≡ o ∷ w.live_orders)
      × (out.1.live_trades ≡ t ∷ w.live_trades)
      × (out.1.next_id ≡ suc w.next_id)
      × (((r : LiveOrderResponse W) × (env.place o ≡ ok (placed r))
            × (r.executed ≡ true)
            × (out.0 ≡ ok (t, r))
            × (t.status ≡ LiveTradeStatus.executed)
            × (t.broker_order_id ≡ some r.broker_order_id)
            × (out.1.signals
                ≡ update_where (has_id i) (set_status SignalStatus.live_executed) w.signals))
          ⊎ ((e : Exception W) × ((r : LiveOrderResponse W)
                → env.place o ≡ ok (placed r)
                → r.executed ≡ false)
              × (out.0 ≡ err e)
              × (t.status ≡ LiveTradeStatus.failed)
              × (t.error_message ≡ some (message e))
              × (out.1.signals ≡ w.signals)))

  order_of-IsOrderOf :
      (c : LiveExecutionContext W)
      → IsDirection c.signal.direction c.direction
      → c.volume ≡ c.risk_assessment.position_size
      → IsOrderOf c (order_of c)
  order_of-IsOrderOf c d v = record {
    of_symbol = refl;
    of_direction = d;
    of_volume = v;
    of_entry = refl;
    of_stop = refl;
    of_target = refl;
  }

  executed_row-IsTradeOf :
      (env : Env W) (i : ℕ) (w : World W) (c : LiveExecutionContext W) (r : LiveOrderResponse W)
      → IsDirection c.signal.direction c.direction
      → c.volume ≡ c.risk_assessment.position_size
      → IsTradeOf i w.next_id c (executed_row env r (row_of env i w c))
  executed_row-IsTradeOf env i w c r d v = record {
    trade_id = refl;
    trade_signal = refl;
    trade_decision = refl;
    trade_symbol = refl;
    trade_direction = d;
    trade_volume = ap (column 8) v;
    trade_entry = refl;
    trade_stop = refl;
    trade_target = refl;
  }

  failed_row-IsTradeOf :
      (env : Env W) (i : ℕ) (w : World W) (c : LiveExecutionContext W) (why : Text W)
      → IsDirection c.signal.direction c.direction
      → c.volume ≡ c.risk_assessment.position_size
      → IsTradeOf i w.next_id c (failed_row why (row_of env i w c))
  failed_row-IsTradeOf env i w c why d v = record {
    trade_id = refl;
    trade_signal = refl;
    trade_decision = refl;
    trade_symbol = refl;
    trade_direction = d;
    trade_volume = ap (column 8) v;
    trade_entry = refl;
    trade_stop = refl;
    trade_target = refl;
  }

  IsSettled-IsTraded :
      (env : Env W) (i : ℕ) (w : World W) (c : LiveExecutionContext W)
      (out : Result W (LiveTrade W × LiveOrderResponse W) × World W)
      → IsDirection c.signal.direction c.direction
      → c.volume ≡ c.risk_assessment.position_size
      → IsSettled env i w c out
      → IsTraded env i w c out
  IsSettled-IsTraded env i w c out d v (inl (r, p, x, h, sent, moved)) = (
    order_of c,
    executed_row env r (row_of env i w c),
    order_of-IsOrderOf c d v,
    executed_row-IsTradeOf env i w c r d v,
    sent.one_order,
    sent.one_trade,
    sent.next,
    inl (r, p, x, h, rw x refl, refl, moved),
  )
  IsSettled-IsTraded env i w c out d v (inr (e, h, unfilled, sent, same)) = (
    order_of c,
    failed_row (message e) (row_of env i w c),
    order_of-IsOrderOf c d v,
    failed_row-IsTradeOf env i w c (message e) d v,
    sent.one_order,
    sent.one_trade,
    sent.next,
    inr (e, unfilled, h, refl, refl, same),
  )

  -- Where the ids of the live trades are below the next id: an execution is refused, with neither an
  -- order nor a trade, or it passes every gate, hands over one order with the signal's direction and
  -- prices, the size of the approved assessment and the instrument's symbol, and leaves one new trade
  -- of these, in the columns' precision: EXECUTED, with the signal LIVE_EXECUTED, by an answer of the
  -- broker that it has executed the order; or, when there is no such answer, FAILED, with the signal
  -- as it was and the error thrown on.
  pub execute_live_from_signal_outcome :
      (env : Env W) (i user_id m : ℕ) (w : World W)
      → IsNumbered w.next_id w.live_trades
      → IsRefused w (execute_live_from_signal env i user_id m w)
        ⊎ ((c : LiveExecutionContext W) × IsExecutable env i user_id (some m) w c
            × IsTraded env i w c (execute_live_from_signal env i user_id m w))
  execute_live_from_signal_outcome env i user_id m w hf =
      elim (execute_live_from_signal_cases env i user_id m w hf) [
        | inl x ↦ inl x
        | inr (c, g, s) ↦ inr (
          c,
          g,
          IsSettled-IsTraded env i w c (execute_live_from_signal env i user_id m w)
              (to_direction-IsDirection c.signal.direction c.direction g.candidate.directed)
              g.volume_is s,
        )
      ]
