-- ===== src/Risk/Assessed.antt =====
-- The rows and the events of an assessment by the risk agent, column by column.
use trading_backend.Base.{find_first, ℕ, ◌≡◌, refl, some, ◌∷◌}
use trading_backend.Number.Interface.{Number}
use trading_backend.Risk.{AccountState, figures, assessment_row, decision_row}
use trading_backend.Signals.{set_status}
use trading_backend.Signals.Status.{has_id}
use trading_backend.Store.Entities.{Signal, AgentDecision, RiskProfile, RiskAssessment}
use trading_backend.Store.Enums.{
  SignalStatus, AgentType, AgentDecisionAction, AgentExecutionSource, RiskAssessmentDecision,
}
use trading_backend.Store.Events.{signal_status_updated, risk_evaluated, risk_approved}
use trading_backend.Store.Text.{Text}
use trading_backend.Store.World.{World}

module _ {W : Type 0} ⦃n : Number W⦄ where
  open n use {abs, sub, mul, div, column}

  -- The figures of an assessment: the distance to the stop loss, the risk in money, the position size
  -- and the ratio of reward to risk.
  abbrev pub distance_of : Signal W → W → W
  distance_of signal stop = abs (sub signal.entry_price stop)

  abbrev pub risk_of : AccountState W → RiskProfile W → W
  risk_of account profile = mul account.balance profile.max_risk_per_trade

  abbrev pub size_of : Signal W → W → AccountState W → RiskProfile W → W
  size_of signal stop account profile = div (risk_of account profile) (distance_of signal stop)

  abbrev pub ratio_of : Signal W → W → W → W
  ratio_of signal stop target = div (abs (sub target signal.entry_price)) (distance_of signal stop)

  -- The rows of an assessment, by column.
  pub record IsAssessmentOf (signal : Signal W) (profile : RiskProfile W) (size risk ratio : W)
      (source : AgentExecutionSource) (a : RiskAssessment W) (d : AgentDecision W) : Type 0 where
    pub signal_id : a.signal_id ≡ signal.id
    pub profile_id : a.risk_profile_id ≡ profile.id
    pub sized : a.position_size ≡ column 8 size
    pub risked : a.monetary_risk ≡ column 8 risk
    pub rated : a.risk_reward_ratio ≡ column 8 ratio
    pub agent : d.agent_type ≡ AgentType.risk
    pub instrument : d.instrument_id ≡ signal.instrument_id
    pub decided_signal : d.signal_id ≡ some signal.id
    pub triggered : d.execution_source ≡ source
    pub decided_size : d.position_size ≡ some size
    pub reasoning : d.reasoning ≡ a.reason

  -- What the verdict of the rows does.
  pub data IsRuled (signal : Signal W) (a : RiskAssessment W) (d : AgentDecision W) (w w' : World W)
      : Type 0 where
    approves :
        a.decision ≡ RiskAssessmentDecision.approved
        → d.decision ≡ AgentDecisionAction.approve
        → d.confidence_score ≡ 100
        → find_first (has_id signal.id) w'.signals ≡ some (set_status SignalStatus.approved signal)
        → w'.events
          ≡ risk_approved signal.id signal.instrument_id d.id
            ∷ risk_evaluated signal.id signal.instrument_id d.id a.id
                RiskAssessmentDecision.approved
            ∷ signal_status_updated signal.id SignalStatus.approved
            ∷ w.events
        → IsRuled signal a d w w'
    rejects :
        a.decision ≡ RiskAssessmentDecision.rejected
        → d.decision ≡ AgentDecisionAction.reject
        → d.confidence_score ≡ 0
        → find_first (has_id signal.id) w'.signals ≡ some (set_status SignalStatus.rejected signal)
        → w'.events
          ≡ risk_evaluated signal.id signal.instrument_id d.id a.id RiskAssessmentDecision.rejected
            ∷ signal_status_updated signal.id SignalStatus.rejected
            ∷ w.events
        → IsRuled signal a d w w'

  pub rows-IsAssessmentOf :
      (i j : ℕ) (signal : Signal W) (stop target : W) (account : AccountState W)
      (profile : RiskProfile W) (source : AgentExecutionSource)
      (verdict : RiskAssessmentDecision × Text W)
      → let f = figures signal.entry_price stop target account profile in
        IsAssessmentOf signal profile
          (size_of signal stop account profile)
          (risk_of account profile)
          (ratio_of signal stop target)
          source
          (assessment_row i signal.id profile.id f verdict.0 verdict.1)
          (decision_row j signal f verdict.0 verdict.1 source)
  unfolding figures
  rows-IsAssessmentOf i j signal stop target account profile source verdict = record {
    signal_id = refl;
    profile_id = refl;
    sized = refl;
    risked = refl;
    rated = refl;
    agent = refl;
    instrument = refl;
    decided_signal = refl;
    triggered = refl;
    decided_size = refl;
    reasoning = refl;
  }
