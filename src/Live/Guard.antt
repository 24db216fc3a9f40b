-- ===== src/Live/Guard.antt =====
-- `LiveTradingGuardService.validateLiveExecution`: every gate before a real order.
use trading_backend.Base.{
  leb, ◌==◌, if◌then◌else◌, or_default, is_some, some_and, find_first, find_many, count_where, ℕ,
  String, Bool, true, false, ◌&&◌, ◌||◌, Option, none, some, List, [], ◌∷◌, str_eq,
}
use trading_backend.Broker.{
  to_direction, broker_symbol_of, approved_assessment, supervisor_decision_of, instrument_of,
}
use trading_backend.Number.Interface.{Number, number}
use trading_backend.Store.Entities.{
  User, Signal, RiskAssessment, ManualTradingDecision, Field, LiveOrderResponse, LiveTrade,
  LiveTradingLimits,
}
use trading_backend.Store.Enums.{
  TradeDirection, is_live_executed, is_operate, is_live_limited, is_manual_approval, is_admin,
  is_live, is_live_closed,
}
use trading_backend.Store.Text.{say, text, forbidden, not_found, record_not_found}
use trading_backend.Store.World.{
  World, Env, Action, ◌>>=◌, ◌>>◌, pure, throw_if, throw_unless, gets, or_throw, ok,
}
use trading_backend.System.{get_config}

pub record LiveExecutionContext (W : Type 0) : Type 0 where
  pub signal : Signal W
  pub user : User
  pub direction : TradeDirection
  pub risk_assessment : RiskAssessment W
  pub manual_decision : ManualTradingDecision W
  pub limits : LiveTradingLimits W
  pub symbol : String
  pub volume : W

-- `readAllowedSymbols(value).includes(symbol)`
abbrev includes_symbol : String → List (Option String) → Bool
includes_symbol s [] = false
includes_symbol s (none ∷ items) = includes_symbol s items
includes_symbol s (some t ∷ items) = str_eq t s || includes_symbol s items

abbrev pub is_allowed_symbol : String → Option (List (Option String)) → Bool
is_allowed_symbol s none = false
is_allowed_symbol s (some items) = includes_symbol s items

-- a row that blocks another live trade: one of the signal, one of the symbol, one of the day
abbrev pub is_live_of_signal : {W : Type 0} → ℕ → LiveTrade W → Bool
is_live_of_signal signal_id t = t.signal_id == signal_id && is_live t.status

abbrev pub is_live_of_symbol : {W : Type 0} → String → LiveTrade W → Bool
is_live_of_symbol symbol t = str_eq t.symbol symbol && is_live t.status

abbrev pub is_live_since : {W : Type 0} → ℕ → LiveTrade W → Bool
is_live_since day t = leb day t.created_at && is_live t.status

abbrev pub is_closed_since : {W : Type 0} → ℕ → LiveTrade W → Bool
is_closed_since day t = leb day t.created_at && is_live_closed t.status

module _ {W : Type 0} ⦃n : Number W⦄ where
  open n use {decimal, add, abs, lt, le, is_finite, column}

  abbrev pub default_limits : LiveTradingLimits W
  default_limits = record {
    max_daily_live_trades = 1;
    max_daily_loss = column 8 (number 50);
    max_volume_per_trade = column 8 (decimal 1 2);
    allowed_symbols = some (some "XAUUSD" ∷ some "BTCUSDT" ∷ []);
    is_active = true;
  }

  -- `getLimits`, an upsert with an empty update
  unfoldable pub get_limits : Action W (LiveTradingLimits W)
  get_limits w = elim w.live_limits [
    | none ↦ (ok default_limits, record w { live_limits = some default_limits })
    | some l ↦ (ok l, w)
  ]

  -- `a ?? b` on JSON fields
  abbrev or_field : Field W → Field W → Field W
  or_field Field.nullish g = g
  or_field f g = f

  abbrev finite_or_zero : Field W → W
  finite_or_zero (Field.num x) = if is_finite x then x else number 0
  finite_or_zero _ = number 0

  -- `readPnL`
  unfoldable pub read_pnl : Option (LiveOrderResponse W) → W
  read_pnl none = number 0
  read_pnl (some r) = finite_or_zero (or_field r.pnl (or_field r.profit r.net_pnl))

  -- the `reduce` of `getDailyLoss`
  unfoldable pub sum_losses : W → List (LiveTrade W) → W
  unfolding read_pnl
  sum_losses total [] = total
  sum_losses total (t ∷ ts) =
      let pnl = read_pnl t.response_payload in
      sum_losses (if lt pnl (number 0) then add total (abs pnl) else total) ts

  -- `getDailyLoss`
  unfoldable pub daily_loss : ℕ → World W → W
  unfolding sum_losses find_many
  daily_loss day w = sum_losses (number 0) (find_many (is_closed_since day) w.live_trades)

  -- `manualTradingDecision.findFirst`; an id that is not given does not filter.
  abbrev pub is_manual_approval_of : Option ℕ → ℕ → ManualTradingDecision W → Bool
  is_manual_approval_of id signal_id d =
      elim id [ none ↦ true | some i ↦ d.id == i ]
      && (d.signal_id == signal_id && is_manual_approval d.decision)

  -- the settings, the system mode and the user
  unfoldable pub check_system : Env W → ℕ → Action W User
  unfolding find_first get_config
  check_system env user_id = do
    throw_unless (or_default env.config.enable_live_trading false)
        (forbidden (say "ENABLE_LIVE_TRADING must be true"))
    throw_if (or_default env.config.mt5_dry_run true) (forbidden (say "MT5_DRY_RUN must be false"))
    system ← get_config
    throw_if system.kill_switch (forbidden (say "Kill switch is enabled"))
    throw_unless (is_live_limited system.mode) (forbidden (say "SystemMode must be LIVE_LIMITED"))
    row ← gets λ w. find_first (λ u. u.id == user_id) w.users
    user ← or_throw row (not_found (say "User not found"))
    throw_unless (is_admin user.role) (forbidden (say "Only ADMIN can execute limited live trades"))
    pure user

  -- the signal by itself
  unfoldable pub check_candidate : ℕ → Action W (Signal W × TradeDirection)
  unfolding find_first
  check_candidate signal_id = do
    row ← gets λ w. find_first (λ s. s.id == signal_id) w.signals
    signal ← or_throw row (not_found (say "Signal not found"))
    throw_if (is_live_executed signal.status) (forbidden (say "Signal already executed live"))
    direction ←
        or_throw (to_direction signal.direction)
          (forbidden (say "Only BUY or SELL signals can be executed live"))
    throw_unless (is_some signal.stop_loss && is_some signal.take_profit)
        (forbidden (say "Signal requires stopLoss and takeProfit"))
    pure (signal, direction)

  -- the approvals of the signal, and that it has no live trade
  unfoldable pub check_signed_off :
      ℕ → Option ℕ → Action W (RiskAssessment W × ManualTradingDecision W)
  unfolding find_first approved_assessment supervisor_decision_of
  check_signed_off signal_id manual_id = do
    found ← gets (approved_assessment signal_id)
    assessment ← or_throw found (forbidden (say "Signal has no approved RiskDecision"))
    decision ← gets (supervisor_decision_of signal_id)
    throw_unless (some_and (λ d. is_operate d.decision) decision)
        (forbidden (say "Signal has no SupervisorDecision OPERATE"))
    approval ← gets λ w. find_first (is_manual_approval_of manual_id signal_id) w.manual_decisions
    manual ← or_throw approval (forbidden (say "Signal has no manual approval"))
    existing ← gets λ w. find_first (is_live_of_signal signal_id) w.live_trades
    throw_if (is_some existing) (forbidden (say "Signal already has a live trade"))
    pure (assessment, manual)

  -- the limits: the symbol, the volume and the day
  unfoldable pub check_limits : Env W → Signal W → W → Action W (LiveTradingLimits W × String)
  unfolding find_first count_where instrument_of get_limits daily_loss
  check_limits env signal volume = do
    limits ← get_limits
    throw_unless limits.is_active (forbidden (say "Live trading limits are inactive"))
    place ← gets (instrument_of signal)
    instrument ← or_throw place record_not_found
    let symbol = broker_symbol_of instrument
    throw_unless (is_allowed_symbol symbol limits.allowed_symbols)
        (forbidden (text "Symbol " ∷ text symbol ∷ text " is not allowed for live trading" ∷ []))
    throw_if (lt limits.max_volume_per_trade volume)
        (forbidden (say "Volume exceeds maxVolumePerTrade"))
    same ← gets λ w. find_first (is_live_of_symbol symbol) w.live_trades
    throw_if (is_some same) (forbidden (say "There is already an open live trade for this symbol"))
    let day = env.start_of_day env.now
    trades ← gets λ w. count_where (is_live_since day) w.live_trades
    throw_if (leb limits.max_daily_live_trades trades)
        (forbidden (say "Daily live trade limit reached"))
    loss ← gets (daily_loss day)
    throw_if (le limits.max_daily_loss loss) (forbidden (say "Daily live loss limit reached"))
    pure (limits, symbol)

  abbrev pub context_of :
      Signal W × TradeDirection
      → RiskAssessment W × ManualTradingDecision W
      → User
      → LiveTradingLimits W × String
      → LiveExecutionContext W
  context_of checked approvals user bounds = record {
    signal = checked.0;
    user = user;
    direction = checked.1;
    risk_assessment = approvals.0;
    manual_decision = approvals.1;
    limits = bounds.0;
    symbol = bounds.1;
    volume = approvals.0.position_size;
  }

  -- the signal's checks, its approvals' and the limits', for a user who may execute
  unfoldable pub check_order : Env W → ℕ → Option ℕ → User → Action W (LiveExecutionContext W)
  unfolding check_candidate check_signed_off check_limits
  check_order env signal_id manual_id user = do
    checked ← check_candidate signal_id
    approvals ← check_signed_off signal_id manual_id
    bounds ← check_limits env checked.0 approvals.0.position_size
    pure (context_of checked approvals user bounds)

  -- `validateLiveExecution`
  unfoldable pub validate_live_execution :
      Env W → ℕ → ℕ → Option ℕ → Action W (LiveExecutionContext W)
  unfolding check_system check_order
  validate_live_execution env signal_id user_id manual_id = do
    user ← check_system env user_id
    check_order env signal_id manual_id user
