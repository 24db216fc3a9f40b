-- ===== src/Technical/Decided.antt =====
-- The decision that an answer of the analysis worker becomes, column by column.
use trading_backend.Base.{
  ℕ, suc, ◌≤◌, String, ◌≡◌, refl, ◌↔◌, ◌⊎◌, false, none, some, ◌∷◌, arith, str_eq,
}
use trading_backend.Generation.{TechnicalDecision}
use trading_backend.Number.Interface.{Number}
use trading_backend.Store.Entities.{AgentDecision}
use trading_backend.Store.Enums.{Timeframe, AgentType, AgentDecisionAction, AgentExecutionSource}
use trading_backend.Store.Events.{technical_analysis_completed}
use trading_backend.Technical.{
  TechnicalResult, AnalyzeInput, AnalyzeOutput, AnalysisStore, to_decision_action, decision_columns,
  decision_metadata,
}

module _ {W : Type 0} ⦃n : Number W⦄ where
  pub approves_iff :
      (r : TechnicalResult W)
      → (to_decision_action r ≡ AgentDecisionAction.approve)
        ↔ ((70 ≤ r.confidence_score) × (str_eq r.technical_bias "NEUTRAL" ≡ false))
  approves_iff r = (λ h. (ground arith, ground arith), λ (l, b). ground arith)

  -- The decision that an answer of the worker becomes: its columns, its metadata and what the caller
  -- gets.
  pub record IsDecisionOf (input : AnalyzeInput) (r : TechnicalResult W) (id : ℕ)
      (d : AgentDecision W) (m : TechnicalDecision W) (out : AnalyzeOutput W) : Type 0 where
    pub new_decision : d.id ≡ id
    pub by_technical : d.agent_type ≡ AgentType.technical
    pub of_market : d.instrument_id ≡ input.instrument_id
    pub of_no_signal : d.signal_id ≡ none
    pub scored : d.confidence_score ≡ r.confidence_score
    pub sourced :
        (x : AgentExecutionSource) → input.execution_source ≡ some x → d.execution_source ≡ x
    pub approves :
        (d.decision ≡ AgentDecisionAction.approve)
        ↔ ((70 ≤ r.confidence_score) × (str_eq r.technical_bias "NEUTRAL" ≡ false))
    pub waits :
        (d.decision ≡ AgentDecisionAction.wait)
        ↔ ((40 ≤ r.confidence_score) × (r.confidence_score ≤ 69))
    pub decides :
        (d.decision ≡ AgentDecisionAction.approve)
        ⊎ (d.decision ≡ AgentDecisionAction.wait)
        ⊎ (d.decision ≡ AgentDecisionAction.reject)
    pub same_id : m.id ≡ id
    pub same_agent : m.agent_type ≡ AgentType.technical
    pub same_market : m.instrument_id ≡ input.instrument_id
    pub same_score : m.confidence_score ≡ r.confidence_score
    pub same_timeframe : m.timeframe ≡ some r.timeframe
    pub same_bias : m.technical_bias ≡ some r.technical_bias
    pub same_metadata : m.metadata ≡ r.metadata
    pub answered_id : out.agent_decision_id ≡ id
    pub answered_decision : out.decision ≡ d.decision
    pub answered_result : out.result ≡ r

  waits_iff :
      (r : TechnicalResult W)
      → (to_decision_action r ≡ AgentDecisionAction.wait)
        ↔ ((40 ≤ r.confidence_score) × (r.confidence_score ≤ 69))
  waits_iff r = (λ h. (ground arith, ground arith), λ (l, u). ground arith)

  decides_one :
      (r : TechnicalResult W)
      → (to_decision_action r ≡ AgentDecisionAction.approve)
        ⊎ (to_decision_action r ≡ AgentDecisionAction.wait)
        ⊎ (to_decision_action r ≡ AgentDecisionAction.reject)
  decides_one r = ground arith

  pub columns-IsDecisionOf :
      (input : AnalyzeInput) (r : TechnicalResult W) (id : ℕ)
      → IsDecisionOf input r id
          (decision_columns input r id)
          (decision_metadata input r id)
          (record { result = r; agent_decision_id = id; decision = to_decision_action r })
  columns-IsDecisionOf input r id = record {
    new_decision = refl;
    by_technical = refl;
    of_market = refl;
    of_no_signal = refl;
    scored = refl;
    sourced = λ x h. rw h refl;
    approves = approves_iff r;
    waits = waits_iff r;
    decides = decides_one r;
    same_id = refl;
    same_agent = refl;
    same_market = refl;
    same_score = refl;
    same_timeframe = refl;
    same_bias = refl;
    same_metadata = refl;
    answered_id = refl;
    answered_decision = refl;
    answered_result = refl;
  }

  -- the state with a new decision and its event
  abbrev pub with_decision :
      ℕ
      → Timeframe
      → String
      → AgentDecision W
      → TechnicalDecision W
      → AnalysisStore W
      → AnalysisStore W
  with_decision instrument_id t symbol d m s = record {
    world = record s.world {
      next_id = suc s.world.next_id;
      agent_decisions = d ∷ s.world.agent_decisions;
      events = technical_analysis_completed d.id instrument_id t symbol ∷ s.world.events;
    };
    catalog = record s.catalog { decisions = m ∷ s.catalog.decisions };
  }
