-- ===== src/Paper/Checks.antt =====
-- The checks of `openTradeFromSignal`: the signal, its approvals and its size.
use trading_backend.Base.{
  leb, ◌==◌, if◌then◌else◌, or_default, is_some, some_and, map_some, find_first, ℕ, Bool, true,
  false, ◌&&◌, none, some,
}
use trading_backend.Broker.{to_direction}
use trading_backend.Number.Interface.{Number, number}
use trading_backend.Paper.Account.{is_positive}
use trading_backend.Store.Entities.{Signal, AgentDecision}
use trading_backend.Store.Enums.{
  SignalStatus, TradeDirection, is_opened, is_approval, is_risk_agent, is_supervisor_agent,
}
use trading_backend.Store.Text.{say, bad_request}
use trading_backend.Store.World.{
  World, Env, Action, ◌>>=◌, ◌>>◌, pure, throw_if, throw_unless, gets, or_throw,
}

abbrev pub can_open : SignalStatus → Bool
can_open SignalStatus.approved = true
can_open SignalStatus.under_review = true
can_open SignalStatus.manually_approved = true
can_open _ = false

module _ {W : Type 0} ⦃n : Number W⦄ where
  open n use {is_finite}

  -- `findRiskApproval` and `findSupervisorApproval`
  abbrev pub is_risk_approval : ℕ → AgentDecision W → Bool
  is_risk_approval signal_id d =
      some_and (λ s. s == signal_id) d.signal_id
      && (is_risk_agent d.agent_type && is_approval d.decision)

  abbrev pub is_supervisor_approval : ℕ → AgentDecision W → Bool
  is_supervisor_approval signal_id d =
      some_and (λ s. s == signal_id) d.signal_id
      && (is_supervisor_agent d.agent_type && is_approval d.decision)

  -- `readPositionSizeFromMetadata`
  abbrev pub metadata_size : AgentDecision W → W
  metadata_size d = elim d.position_size [
    | none ↦ number 0
    | some x ↦ if is_finite x then x else number 0
  ]

  -- `resolvePositionSize`
  unfoldable pub resolve_position_size : ℕ → AgentDecision W → World W → W
  unfolding find_first
  resolve_position_size signal_id d w =
      if is_positive (metadata_size d)
      then metadata_size d
      else or_default
          (map_some (λ a. a.position_size)
            (find_first (λ a. a.signal_id == signal_id) w.risk_assessments))
          (number 0)

  -- The checks of `openTradeFromSignal` on the signal itself: the direction, the stop loss and the
  -- take profit that the trade gets.
  unfoldable pub check_prices : Signal W → Action W (TradeDirection × W × W)
  check_prices signal = do
    throw_unless (can_open signal.status) (bad_request (say "Signal is not approved by risk"))
    direction ←
        or_throw (to_direction signal.direction)
          (bad_request (say "Only BUY or SELL signals can be opened as paper trades"))
    stop ←
        or_throw signal.stop_loss
          (bad_request (say "Signal requires valid entryPrice and stopLoss"))
    throw_unless (is_positive signal.entry_price && is_positive stop)
        (bad_request (say "Signal requires valid entryPrice and stopLoss"))
    target ← or_throw signal.take_profit (bad_request (say "Signal requires valid takeProfit"))
    throw_unless (is_positive target) (bad_request (say "Signal requires valid takeProfit"))
    pure (direction, stop, target)

  -- Its checks on the other tables: the position size.
  unfoldable pub check_approvals : Env W → Signal W → Action W W
  unfolding find_first resolve_position_size
  check_approvals env signal = do
    of_signal ←
        gets λ w. find_first (λ t. some_and (λ s. s == signal.id) t.signal_id) w.paper_trades
    throw_if (is_some of_signal) (bad_request (say "Paper trade already exists for this signal"))
    of_instrument ← gets λ w.
        find_first (λ t. t.instrument_id == signal.instrument_id && is_opened t.status)
          w.paper_trades
    throw_if (is_some of_instrument)
        (bad_request (say "Instrument already has an open paper trade"))
    throw_if (leb env.config.max_open_trades_per_symbol 0)
        (bad_request (say "Paper trading max open trades per symbol is zero"))
    risk ← gets λ w. find_first (is_risk_approval signal.id) w.agent_decisions
    decision ← or_throw risk (bad_request (say "Signal has no approved Risk AgentDecision"))
    supervisor ← gets λ w. find_first (is_supervisor_approval signal.id) w.agent_decisions
    throw_unless (is_some supervisor)
        (bad_request (say "Signal has no approved Supervisor AgentDecision"))
    size ← gets (resolve_position_size signal.id decision)
    throw_unless (is_positive size) (bad_request (say "Risk approval has invalid position size"))
    pure size
