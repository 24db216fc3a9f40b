-- ===== src/Tests/Sample.antt =====
-- A small state and settings to run the services on, with fixed-point numbers.
use trading_backend.Base.{ℕ, ◌+◌, ◌-◌, true, false, none, some, [], ◌∷◌}
use trading_backend.Fundamental.Currency.{codes}
use trading_backend.Number.Fixed.{ℤ, fixed_number}
use trading_backend.Number.Interface.{number}
use trading_backend.Store.Entities.{
  Instrument, Signal, AgentDecision, RiskProfile, RiskAssessment, SupervisorDecision,
  ManualTradingDecision, PaperTradingAccount, PaperTrade, Field, LiveOrderResponse, MarketCandle,
  EconomicEvent,
}
use trading_backend.Store.Enums.{
  Role, Timeframe, SignalDirection, SignalStatus, AgentType, AgentDecisionAction,
  AgentExecutionSource, TradeDirection, PaperTradeStatus, PaperTradingAccountStatus,
  PaperTradeResult, RiskAssessmentDecision, SupervisorDecisionAction, SystemMode,
  ManualTradingDecisionAction, ManualExecutionTarget, EconomicImpact,
}
use trading_backend.Store.Text.{say}
use trading_backend.Store.World.{World, Config, Env, placed, ok}
use trading_backend.Strategy.Engine.{StoredStrategy}
use trading_backend.Strategy.Metadata.{TechnicalMetadata}

abbrev pub config : Config ℤ
config = record {
  paper_trading_enabled = true;
  max_open_trades_per_symbol = 1;
  supervisor_min_confidence = 70;
  supervisor_max_open_trades = 3;
  supervisor_max_daily_drawdown = fixed_number.decimal 5 2;
  signals_min_confidence = none;
  enable_live_trading = some true;
  mt5_dry_run = some false;
  block_ranging_market = none;
  block_mtf_conflict = none;
  atr_stop_loss_multiplier = none;
  atr_take_profit_multiplier = none;
}

abbrev pub response : LiveOrderResponse ℤ
response = record {
  executed = true;
  broker_order_id = "MT5-1";
  timestamp = 1001;
  pnl = Field.nullish;
  profit = Field.nullish;
  net_pnl = Field.nullish;
}

abbrev pub env : Env ℤ
env = record {
  config = config;
  now = 1000;
  start_of_day = λ t. 0;
  enqueue = λ j. ok tt;
  dry_run = λ o. ok (record { would_execute = true; reason = say "Valid" });
  place = λ o. ok (placed response);
  aborts = false;
}

abbrev pub gold : Signal ℤ
gold = record {
  id = 7;
  instrument_id = 1;
  strategy_id = none;
  timeframe = none;
  direction = SignalDirection.buy;
  entry_price = number 100;
  stop_loss = some (number 98);
  take_profit = some (number 106);
  confidence_score = 90;
  status = SignalStatus.pending_manual_approval;
  candle_timestamp = none;
}

abbrev pub assessment : RiskAssessment ℤ
assessment = record {
  id = 3;
  signal_id = 7;
  risk_profile_id = 1;
  position_size = fixed_number.decimal 1 2;
  monetary_risk = number 100;
  risk_reward_ratio = number 3;
  decision = RiskAssessmentDecision.approved;
  reason = say "Approved";
}

abbrev pub operate : SupervisorDecision ℤ
operate = record {
  id = 4;
  signal_id = 7;
  decision = SupervisorDecisionAction.operate;
  reason = say "All supervisor conditions satisfied";
  confidence_score = 90;
}

abbrev pub approval : ManualTradingDecision ℤ
approval = record {
  id = 5;
  signal_id = 7;
  supervisor_decision_id = 4;
  user_id = 1;
  decision = ManualTradingDecisionAction.approve;
  execution_target = ManualExecutionTarget.none;
  reason = say "Fine";
  signal_status_before = SignalStatus.pending_manual_approval;
}

abbrev agent_approval : ℕ → AgentType → AgentDecision ℤ
agent_approval id agent = record {
  id = id;
  agent_type = agent;
  instrument_id = 1;
  signal_id = some 7;
  decision = AgentDecisionAction.approve;
  execution_source = AgentExecutionSource.queue;
  confidence_score = 90;
  reasoning = say "Approved";
  position_size = some (number 2);
}

abbrev pub profile : RiskProfile ℤ
profile = record {
  id = 1;
  name = "Principal";
  max_risk_per_trade = fixed_number.decimal 1 2;
  max_daily_drawdown = fixed_number.decimal 5 2;
  max_open_trades = 3;
  min_risk_reward_ratio = number 2;
  is_active = true;
}

abbrev pub account : PaperTradingAccount ℤ
account = record {
  id = 2;
  name = "Main";
  initial_balance = number 1000;
  balance = number 1000;
  equity = number 1000;
  currency = "USD";
  status = PaperTradingAccountStatus.active;
}

abbrev pub trade : PaperTrade ℤ
trade = record {
  id = 6;
  account_id = 2;
  signal_id = some 7;
  instrument_id = 1;
  direction = TradeDirection.buy;
  entry_price = number 100;
  stop_loss = some (number 98);
  take_profit = some (number 106);
  position_size = number 2;
  status = PaperTradeStatus.opened;
  opened_at = 900;
  closed_at = none;
  close_price = none;
  pnl = none;
  pnl_percent = none;
  result = PaperTradeResult.opened;
  close_reason = none;
}

abbrev pub news : EconomicEvent
news = record { id = 8; currency = codes "USD"; impact = EconomicImpact.high; event_time = 600_000 }

-- a signal in assisted trading, with its assessment and the OPERATE decision
abbrev pub pending : World ℤ
pending = record {
  next_id = 20;
  users = record { id = 1; role = Role.admin; is_active = true } ∷ [];
  instruments = record { id = 1; symbol = "XAUUSD"; broker_symbol = none; is_active = true } ∷ [];
  candles = [];
  signals = gold ∷ [];
  agent_decisions = [];
  risk_profiles = profile ∷ [];
  risk_assessments = assessment ∷ [];
  supervisor_decisions = operate ∷ [];
  manual_decisions = [];
  accounts = account ∷ [];
  paper_trades = [];
  live_trades = [];
  live_logs = [];
  live_limits = none;
  broker_logs = [];
  simulations = [];
  economic_events = news ∷ [];
  system_config = some (record { mode = SystemMode.assisted_trading; kill_switch = false });
  events = [];
  jobs = [];
  dry_runs = [];
  live_orders = [];
}

-- the signal approved by hand, in limited live trading
abbrev pub live_ready : World ℤ
live_ready = record pending {
  signals = record gold { status = SignalStatus.manually_approved } ∷ [];
  manual_decisions = approval ∷ [];
  system_config = some (record { mode = SystemMode.live_limited; kill_switch = false });
}

-- the signal approved by both agents, for paper trading
abbrev pub paper_ready : World ℤ
paper_ready = record pending {
  signals = record gold { status = SignalStatus.approved } ∷ [];
  agent_decisions = agent_approval 10 AgentType.supervisor ∷ agent_approval 9 AgentType.risk ∷ [];
}

-- with its paper trade open
abbrev pub paper_open : World ℤ
paper_open = record paper_ready { paper_trades = trade ∷ [] }

-- a technical decision's metadata in a rising market
abbrev pub rising : TechnicalMetadata ℤ
rising = record {
  ema20 = Field.num (number 103);
  ema50 = Field.num (number 102);
  ema200 = Field.num (number 101);
  rsi14 = Field.num (number 60);
  atr14 = Field.num (number 1);
  is_ranging = some false;
  alignment = some "ALIGNED";
  nearest_support = Field.nullish;
  nearest_resistance = Field.nullish;
}

-- a market of gold with three candles
abbrev pub gold_market : Instrument
gold_market = record { id = 20; symbol = "XAUUSD"; broker_symbol = none; is_active = true }

abbrev pub candle_at : ℕ → ℕ → MarketCandle ℤ
candle_at timestamp close = record {
  id = timestamp;
  instrument_id = 20;
  timeframe = Timeframe.h1;
  open_price = number close;
  high = number (close + 1);
  low = number (close - 1);
  close = number close;
  volume = number 10;
  timestamp = timestamp;
}

abbrev pub market : World ℤ
market = record pending {
  instruments = gold_market ∷ [];
  candles = candle_at 3000 104 ∷ candle_at 1000 102 ∷ candle_at 2000 103 ∷ [];
  signals = [];
  events = [];
}

abbrev pub trend_strategy : StoredStrategy ℤ
trend_strategy = record { id = 40; name = "EMA_TREND_STRATEGY"; is_active = true; versions = [] }
