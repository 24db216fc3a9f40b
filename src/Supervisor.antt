-- ===== src/Supervisor.antt =====
-- src/modules/supervisor: SupervisorAgentService.
pub mod Decide
pub mod Rules
pub mod Outcome
pub mod Once
use trading_backend.Base.{
  leb, ◌==◌, if◌then◌else◌, or_default, is_some, some_and, map_some, find_first, find_last,
  find_many, count_where, any, ℕ, Bool, true, ◌&&◌, ◌||◌, Option, none, some, List, [], ◌∷◌,
}
use trading_backend.Assisted.{mark_signal_pending_manual_approval}
use trading_backend.Fundamental.{FundamentalResult, evaluate}
use trading_backend.Fundamental.Currency.{codes, upper, includes}
use trading_backend.Number.Interface.{Number, number}
use trading_backend.Signals.{find_by_id, update_status}
use trading_backend.Store.Entities.{
  Instrument, Signal, AgentDecision, RiskAssessment, SupervisorDecision, PaperTrade, SystemConfig,
}
use trading_backend.Store.Enums.{
  SignalStatus, AgentType, AgentDecisionAction, AgentExecutionSource, is_opened, is_closed,
  is_active, is_operate, is_paper_trading, is_assisted_trading,
}
use trading_backend.Store.Events.{supervisor_decided, supervisor_blocked_by_fundamental}
use trading_backend.Store.Text.{say, bad_request, not_found, unique_violation}
use trading_backend.Store.World.{
  World, Env, Action, ◌>>=◌, ◌>>◌, pure, throw_if, gets, modify, or_throw, emit, fresh,
}
use trading_backend.Supervisor.Decide.{
  SupervisorAccountState, RuleResult, to_agent_decision_action, non_usd_allow, decide,
}
use trading_backend.System.{get_config}

-- `resolveFundamentalCurrency(…) !== null`; the currency is then USD.
unfoldable pub has_usd : Option Instrument → Bool
unfolding upper includes
has_usd instrument =
    let symbol = upper (codes (or_default (map_some (λ i. i.symbol) instrument) "")) in
    includes (codes "USD") symbol
    || includes (codes "USDT") symbol
    || includes (codes "USDC") symbol

module _ {W : Type 0} ⦃n : Number W⦄ where
  open n use {add}

  -- `getLatestRiskAssessment`
  unfoldable pub latest_risk_assessment : ℕ → Action W (RiskAssessment W)
  unfolding find_first
  latest_risk_assessment signal_id = do
    row ← gets λ w. find_first (λ a. a.signal_id == signal_id) w.risk_assessments
    or_throw row (not_found (say "Risk decision not found for signal"))

  -- `reduce((total, trade) => total + (trade.pnl ?? 0), 0)`, in the order of the table
  unfoldable pub sum_pnl : W → List (PaperTrade W) → W
  sum_pnl total [] = total
  sum_pnl total (t ∷ ts) = sum_pnl (add total (or_default t.pnl (number 0))) ts

  closed_since : ℕ → PaperTrade W → Bool
  closed_since day t = is_closed t.status && some_and (leb day) t.closed_at

  -- `getAccountState`
  unfoldable pub account_state : Env W → ℕ → World W → SupervisorAccountState W
  unfolding find_last find_many count_where any sum_pnl closed_since
  account_state env instrument_id w =
      let account = find_last (λ a. is_active a.status) w.accounts in
      let balance = or_default (map_some (λ a. a.balance) account) (number 0) in
      record {
        balance = balance;
        equity = or_default (map_some (λ a. a.equity) account) balance;
        open_trades = count_where (λ t. is_opened t.status) w.paper_trades;
        daily_pnl =
            sum_pnl (number 0) (find_many (closed_since (env.start_of_day env.now)) w.paper_trades);
        has_open_trade_for_instrument =
            any (λ t. is_opened t.status && t.instrument_id == instrument_id) w.paper_trades;
      }

  -- The fundamental decision, by `evaluate` or by `buildNonUsdFundamentalAllow`.
  unfoldable pub fundamental_decision : Env W → ℕ → Action W FundamentalResult
  unfolding find_first has_usd evaluate
  fundamental_decision env instrument_id = do
    instrument ← gets λ w. find_first (λ i. i.id == instrument_id) w.instruments
    if has_usd instrument then evaluate (codes "USD") env.now true else pure non_usd_allow

  unfoldable pub create_agent_decision : AgentDecision W → Action W ℕ
  create_agent_decision row = do
    id ← fresh
    modify λ w. record w { agent_decisions = record row { id = id } ∷ w.agent_decisions }
    pure id

  -- `supervisorDecision.create`; a signal has one decision at most.
  unfoldable pub create_supervisor_decision : ℕ → RuleResult W → Action W (SupervisorDecision W)
  unfolding find_first
  create_supervisor_decision signal_id result = do
    existing ← gets λ w. find_first (λ d. d.signal_id == signal_id) w.supervisor_decisions
    throw_if (is_some existing) unique_violation
    id ← fresh
    let row : SupervisorDecision W = record {
      id = id;
      signal_id = signal_id;
      decision = result.decision;
      reason = result.reason;
      confidence_score = result.confidence_score;
    }
    modify λ w. record w { supervisor_decisions = row ∷ w.supervisor_decisions }
    pure row

  -- What OPERATE does to the signal, by mode.
  unfoldable pub act_on : ℕ → RuleResult W → ℕ → SystemConfig → Action W (Unit {0})
  unfolding update_status mark_signal_pending_manual_approval
  act_on signal_id result decision_id system =
      if is_operate result.decision && is_paper_trading system.mode
      then (do updated ← update_status signal_id SignalStatus.approved; pure tt)
      else if is_operate result.decision && is_assisted_trading system.mode
      then (do
        updated ← mark_signal_pending_manual_approval signal_id (some decision_id) result.reason
        pure tt)
      else pure tt

  abbrev pub fundamental_row : Signal W → FundamentalResult → AgentExecutionSource → AgentDecision W
  fundamental_row signal fundamental source = record {
    id = 0;
    agent_type = AgentType.fundamental;
    instrument_id = signal.instrument_id;
    signal_id = some signal.id;
    decision =
        if fundamental.is_block then AgentDecisionAction.reject else AgentDecisionAction.approve;
    execution_source = source;
    confidence_score = if fundamental.is_block then 0 else 100;
    reasoning = say fundamental.reason;
    position_size = none;
  }

  abbrev pub supervisor_row :
      Signal W → RuleResult W → RiskAssessment W → AgentExecutionSource → AgentDecision W
  supervisor_row signal result assessment source = record {
    id = 0;
    agent_type = AgentType.supervisor;
    instrument_id = signal.instrument_id;
    signal_id = some signal.id;
    decision = to_agent_decision_action result.decision;
    execution_source = source;
    confidence_score = result.confidence_score;
    reasoning = result.reason;
    position_size = some assessment.position_size;
  }

  -- The rest of `decideSignalById`, once its inputs are read.
  unfoldable pub record_decision :
      Env W
      → AgentExecutionSource
      → Signal W
      → RiskAssessment W
      → SupervisorAccountState W
      → SystemConfig
      → FundamentalResult
      → Action W (SupervisorDecision W)
  unfolding create_agent_decision create_supervisor_decision act_on
  record_decision env source signal assessment account system fundamental = do
    fundamental_id ← create_agent_decision (fundamental_row signal fundamental source)
    let result =
        decide env.config signal.confidence_score assessment.decision account system fundamental
    supervisor ← create_supervisor_decision signal.id result
    agent_id ← create_agent_decision (supervisor_row signal result assessment source)
    act_on signal.id result supervisor.id system
    emit (supervisor_decided signal.id agent_id supervisor.id result.decision result.reason)
    if fundamental.is_block
        then emit (
            supervisor_blocked_by_fundamental signal.id supervisor.id
              (map_some (λ e. e.id) fundamental.blocking_event))
        else pure tt
    pure supervisor

  -- `decideSignalById`
  unfoldable pub decide_signal_by_id :
      Env W → ℕ → AgentExecutionSource → Action W (SupervisorDecision W)
  unfolding find_first find_by_id latest_risk_assessment account_state get_config
      fundamental_decision record_decision
  decide_signal_by_id env signal_id source = do
    existing ← gets λ w. find_first (λ d. d.signal_id == signal_id) w.supervisor_decisions
    throw_if (is_some existing)
        (bad_request (say "Supervisor decision already exists for this signal"))
    signal ← find_by_id signal_id
    assessment ← latest_risk_assessment signal_id
    account ← gets (account_state env signal.instrument_id)
    system ← get_config
    fundamental ← fundamental_decision env signal.instrument_id
    record_decision env source signal assessment account system fundamental
