-- ===== src/Risk.antt =====
-- src/modules/risk: RiskAgentService and AccountStateService.
pub mod Assessed
pub mod PositionSize
pub mod Profile
pub mod Updated
pub mod Verdict
pub mod Written
use trading_backend.Base.{
  ◌==◌, ◌&&◌, is_some, find_first, leb, if◌then◌else◌, find_last, ℕ, Bool, none, some, List, [],
  ◌∷◌, ◌++◌,
}
use trading_backend.Number.Interface.{Number, number}
use trading_backend.Signals.{find_by_id, update_status}
use trading_backend.Store.Entities.{Signal, AgentDecision, RiskProfile, RiskAssessment}
use trading_backend.Store.Enums.{
  SignalStatus, AgentType, AgentDecisionAction, AgentExecutionSource, RiskAssessmentDecision,
  is_approved,
}
use trading_backend.Store.Events.{risk_evaluated, risk_approved}
use trading_backend.Store.Text.{
  Text, say, join, text, count, amount, fixed, bad_request, not_found, foreign_key,
  value_out_of_range,
}
use trading_backend.Store.World.{
  Action, ◌>>=◌, ◌>>◌, pure, throw, throw_if, throw_unless, gets, modify, or_throw, emit, fresh,
}

pub record AccountState (W : Type 0) : Type 0 where
  pub balance : W
  pub equity : W
  pub open_trades : ℕ
  pub daily_pnl : W

-- The figures that `evaluateSignal` computes before it decides.
pub record Figures (W : Type 0) : Type 0 where
  pub distance : W
  pub monetary_risk : W
  pub position_size : W
  pub risk_reward_ratio : W
  pub daily_drawdown : W

abbrev to_agent_decision_action : RiskAssessmentDecision → AgentDecisionAction
to_agent_decision_action RiskAssessmentDecision.approved = AgentDecisionAction.approve
to_agent_decision_action RiskAssessmentDecision.adjusted = AgentDecisionAction.modify
to_agent_decision_action RiskAssessmentDecision.rejected = AgentDecisionAction.reject

abbrev to_signal_status : RiskAssessmentDecision → SignalStatus
to_signal_status RiskAssessmentDecision.approved = SignalStatus.approved
to_signal_status _ = SignalStatus.rejected

-- `if (test) reasons.push(text)`
abbrev pub push_if : {W : Type 0} → Bool → Text W → List (Text W)
push_if c t = if c then t ∷ [] else []

module _ {W : Type 0} ⦃n : Number W⦄ where
  open n use {sub, mul, div, abs, lt, le, eq, column, fits}

  -- `AccountStateService.getCurrentState`: constants
  abbrev pub current_state : AccountState W
  current_state = record {
    balance = number 10_000;
    equity = number 10_000;
    open_trades = 0;
    daily_pnl = number 0;
  }

  -- `dailyPnL < 0 ? Math.abs(dailyPnL) / balance : 0`
  unfoldable pub drawdown : W → W → W
  drawdown pnl balance = if lt pnl (number 0) then div (abs pnl) balance else number 0

  unfoldable pub figures : W → W → W → AccountState W → RiskProfile W → Figures W
  unfolding drawdown
  figures entry stop target account profile =
      let distance = abs (sub entry stop) in
      let monetary_risk = mul account.balance profile.max_risk_per_trade in
      record {
        distance = distance;
        monetary_risk = monetary_risk;
        position_size = div monetary_risk distance;
        risk_reward_ratio = div (abs (sub target entry)) distance;
        daily_drawdown = drawdown account.daily_pnl account.balance;
      }

  -- `getRejectionReasons`
  unfoldable pub rejection_reasons : AccountState W → Figures W → RiskProfile W → List (Text W)
  rejection_reasons account f profile =
      push_if (lt f.risk_reward_ratio profile.min_risk_reward_ratio) (
        text "Risk/reward "
        ∷ fixed 2 f.risk_reward_ratio
        ∷ text " below minimum "
        ∷ amount profile.min_risk_reward_ratio
        ∷ [])
      ++ (push_if (lt (mul account.balance profile.max_risk_per_trade) f.monetary_risk)
            (say "Monetary risk exceeds max risk per trade")
          ++ (push_if (leb profile.max_open_trades account.open_trades) (
                text "Open trades "
                ∷ count account.open_trades
                ∷ text " reached max "
                ∷ count profile.max_open_trades
                ∷ [])
              ++ push_if (le profile.max_daily_drawdown f.daily_drawdown) (
                  text "Daily drawdown "
                  ∷ fixed 4 f.daily_drawdown
                  ∷ text " reached max "
                  ∷ amount profile.max_daily_drawdown
                  ∷ [])))

  -- `decision` and `reason`
  abbrev pub ruling : List (Text W) → Figures W → RiskProfile W → RiskAssessmentDecision × Text W
  ruling [] f profile = (
    RiskAssessmentDecision.approved,
    text "Risk approved. RR "
        ∷ fixed 2 f.risk_reward_ratio
        ∷ text " meets minimum "
        ∷ amount profile.min_risk_reward_ratio
        ∷ text "."
        ∷ [],
  )
  ruling (r ∷ rs) f profile = (RiskAssessmentDecision.rejected, join "; " (r ∷ rs))

  -- The rows that `evaluateSignal` writes.
  abbrev pub assessment_row :
      ℕ → ℕ → ℕ → Figures W → RiskAssessmentDecision → Text W → RiskAssessment W
  assessment_row id signal_id profile_id f decision reason = record {
    id = id;
    signal_id = signal_id;
    risk_profile_id = profile_id;
    position_size = column 8 f.position_size;
    monetary_risk = column 8 f.monetary_risk;
    risk_reward_ratio = column 8 f.risk_reward_ratio;
    decision = decision;
    reason = reason;
  }

  abbrev pub decision_row :
      ℕ
      → Signal W
      → Figures W
      → RiskAssessmentDecision
      → Text W
      → AgentExecutionSource
      → AgentDecision W
  decision_row id signal f decision reason source = record {
    id = id;
    agent_type = AgentType.risk;
    instrument_id = signal.instrument_id;
    signal_id = some signal.id;
    decision = to_agent_decision_action decision;
    execution_source = source;
    confidence_score = if is_approved decision then 100 else 0;
    reasoning = reason;
    position_size = some f.position_size;
  }

  -- whether Decimal(24, 8) and Decimal(12, 8) take the figures
  abbrev pub figures_fit : Figures W → Bool
  figures_fit f =
      fits 24 8 f.position_size && (fits 24 8 f.monetary_risk && fits 12 8 f.risk_reward_ratio)

  -- `riskAssessmentsRepository.create`, with the foreign keys of the signal and of the profile
  unfoldable pub create_assessment :
      ℕ → ℕ → Figures W → RiskAssessmentDecision → Text W → Action W (RiskAssessment W)
  unfolding find_first
  create_assessment signal_id profile_id f decision reason = do
    throw_unless (figures_fit f) value_out_of_range
    signal ← gets λ w. find_first (λ s. s.id == signal_id) w.signals
    profile ← gets λ w. find_first (λ p. p.id == profile_id) w.risk_profiles
    throw_unless (is_some signal && is_some profile) foreign_key
    id ← fresh
    let row = assessment_row id signal_id profile_id f decision reason
    modify λ w. record w { risk_assessments = row ∷ w.risk_assessments }
    pure row

  -- `evaluateSignal` from the point where the stop loss and the take profit are known
  unfoldable pub assess :
      Signal W
      → W
      → W
      → AccountState W
      → RiskProfile W
      → AgentExecutionSource
      → Action W (RiskAssessment W × ℕ)
  unfolding figures rejection_reasons create_assessment update_status
  assess signal stop target account profile source = do
    let f = figures signal.entry_price stop target account profile
    throw_if (eq f.distance (number 0))
        (bad_request (say "Stop loss distance must be greater than zero"))
    let verdict = ruling (rejection_reasons account f profile) f profile
    assessment ← create_assessment signal.id profile.id f verdict.0 verdict.1
    decision_id ← fresh
    modify λ w. record w {
      agent_decisions =
          decision_row decision_id signal f verdict.0 verdict.1 source ∷ w.agent_decisions;
    }
    updated ← update_status signal.id (to_signal_status verdict.0)
    emit (risk_evaluated signal.id signal.instrument_id decision_id assessment.id verdict.0)
    if is_approved verdict.0
        then emit (risk_approved signal.id signal.instrument_id decision_id)
        else pure tt
    pure (assessment, decision_id)

  -- `evaluateSignal`
  unfoldable pub evaluate_signal :
      Signal W
      → AccountState W
      → RiskProfile W
      → AgentExecutionSource
      → Action W (RiskAssessment W × ℕ)
  unfolding assess
  evaluate_signal signal account profile source = elim signal.stop_loss [
    | none ↦ throw (bad_request (say "Signal requires stopLoss and takeProfit for risk evaluation"))
    | some stop ↦ elim signal.take_profit [
      | none ↦
          throw (bad_request (say "Signal requires stopLoss and takeProfit for risk evaluation"))
      | some target ↦ assess signal stop target account profile source
    ]
  ]

  -- `getActiveRiskProfile`: the oldest active profile
  unfoldable pub active_risk_profile : Action W (RiskProfile W)
  unfolding find_last
  active_risk_profile = do
    row ← gets λ w. find_last (λ p. p.is_active) w.risk_profiles
    or_throw row (not_found (say "Active risk profile not found"))

  -- `evaluateSignalById`
  unfoldable pub evaluate_signal_by_id : ℕ → AgentExecutionSource → Action W (RiskAssessment W × ℕ)
  unfolding find_by_id active_risk_profile evaluate_signal
  evaluate_signal_by_id signal_id source = do
    signal ← find_by_id signal_id
    profile ← active_risk_profile
    evaluate_signal signal current_state profile source
