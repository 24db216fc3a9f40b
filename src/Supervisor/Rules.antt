-- ===== src/Supervisor/Rules.antt =====
-- What the rules of `decide` let through.
use trading_backend.Base.{List-cases, ℕ, ◌≤◌, ◌<◌, ◌≡◌, ◌↔◌, ◌⊎◌, inl, inr, false, [], arith}
use trading_backend.Fundamental.{FundamentalResult}
use trading_backend.Number.Interface.{Number}
use trading_backend.Risk.{drawdown}
use trading_backend.Store.Entities.{SystemConfig}
use trading_backend.Store.Enums.{RiskAssessmentDecision, SupervisorDecisionAction, SystemMode}
use trading_backend.Store.World.{Config}
use trading_backend.Supervisor.Decide.{SupervisorAccountState, RuleResult, block_reasons, decide}

module _ {W : Type 0} ⦃n : Number W⦄ where
  open n use {le}

  -- Every gate of `decide`, as the code tests it.
  pub record Clear (config : Config W) (confidence : ℕ) (risk : RiskAssessmentDecision)
      (account : SupervisorAccountState W) (system : SystemConfig) (fundamental : FundamentalResult)
      : Type 0 where
    pub running : system.kill_switch ≡ false
    pub tradable :
        (system.mode ≡ SystemMode.paper_trading) ⊎ (system.mode ≡ SystemMode.assisted_trading)
    pub risk_passed : risk ≡ RiskAssessmentDecision.approved
    pub calm : fundamental.is_block ≡ false
    pub plausible : 50 ≤ confidence
    pub free : account.has_open_trade_for_instrument ≡ false
    pub room : account.open_trades < config.supervisor_max_open_trades
    pub shallow :
        le config.supervisor_max_daily_drawdown (drawdown account.daily_pnl account.balance) ≡ false

  block_reasons-Clear :
      (config : Config W) (confidence : ℕ) (risk : RiskAssessmentDecision)
      (account : SupervisorAccountState W) (system : SystemConfig) (fundamental : FundamentalResult)
      → block_reasons config confidence risk account system fundamental ≡ []
      → Clear config confidence risk account system fundamental
  unfolding block_reasons
  block_reasons-Clear config confidence risk account system fundamental h = ground arith

  Clear-block_reasons :
      (config : Config W) (confidence : ℕ) (risk : RiskAssessmentDecision)
      (account : SupervisorAccountState W) (system : SystemConfig) (fundamental : FundamentalResult)
      → Clear config confidence risk account system fundamental
      → block_reasons config confidence risk account system fundamental ≡ []
  unfolding block_reasons
  Clear-block_reasons config confidence risk account system fundamental c = ground arith

  module _ (config : Config W) (confidence : ℕ) (risk : RiskAssessmentDecision)
      (account : SupervisorAccountState W) (system : SystemConfig)
      (fundamental : FundamentalResult) where
    abbrev result : RuleResult W
    result = decide config confidence risk account system fundamental

    abbrev Passes : Type 0
    Passes = Clear config confidence risk account system fundamental

    -- `decide` answers OPERATE exactly when every gate is clear (kill switch off, a trading mode, the
    -- risk approved, no fundamental block, a confidence of 50 or more, no open trade on the
    -- instrument, room for one more trade, the drawdown below its maximum) and the confidence reaches
    -- the configured minimum.
    pub decide-operate_iff :
        (result.decision ≡ SupervisorDecisionAction.operate)
        ↔ (Passes × (config.supervisor_min_confidence ≤ confidence))
    unfolding decide
    decide-operate_iff = (
      λ h. (
        block_reasons-Clear config confidence risk account system fundamental (ground arith),
        ground arith,
      ),
      λ (c, m).
          rw (Clear-block_reasons config confidence risk account system fundamental c)
            (ground arith),
    )

    -- `decide` answers WAIT exactly when every gate is clear and the confidence is below the
    -- configured minimum, and BLOCK, with a score of 0, exactly when some gate is not clear.
    pub decide-wait-block_iff :
        ((result.decision ≡ SupervisorDecisionAction.wait)
          ↔ (Passes × (confidence < config.supervisor_min_confidence)))
        × ((result.decision ≡ SupervisorDecisionAction.block) ↔ ¬ Passes)
        × (result.decision ≡ SupervisorDecisionAction.block → result.confidence_score ≡ 0)
    unfolding decide
    decide-wait-block_iff = (
      (
        λ h. (
          block_reasons-Clear config confidence risk account system fundamental (ground arith),
          ground arith,
        ),
        λ (c, m).
            rw (Clear-block_reasons config confidence risk account system fundamental c)
              (ground arith),
      ),
      (
        λ h c.
            ground (arith, Clear-block_reasons config confidence risk account system fundamental c),
        λ stuck.
            elim (List-cases (block_reasons config confidence risk account system fundamental)) [
              | inl e ↦
                  absurd (
                    stuck (block_reasons-Clear config confidence risk account system fundamental e))
              | inr (r, rs, e) ↦ rw e
            ],
      ),
      λ h. ground arith,
    )
