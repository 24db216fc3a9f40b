-- ===== src/Supervisor/Decide.antt =====
-- `SupervisorAgentService.decide`: the rules, with no access to the database.
use trading_backend.Base.{
  ltb, leb, if◌then◌else◌, ℕ, Bool, false, not, ◌&&◌, none, List, [], ◌∷◌, ◌++◌,
}
use trading_backend.Fundamental.{FundamentalResult}
use trading_backend.Fundamental.Currency.{codes}
use trading_backend.Number.Interface.{Number}
use trading_backend.Risk.{push_if, drawdown}
use trading_backend.Store.Entities.{SystemConfig}
use trading_backend.Store.Enums.{
  AgentDecisionAction, RiskAssessmentDecision, SupervisorDecisionAction, is_approved,
  is_paper_trading, is_assisted_trading, mode_name, risk_decision_name,
}
use trading_backend.Store.Text.{Text, say, join, text, count, amount, fixed}
use trading_backend.Store.World.{Config}

pub record SupervisorAccountState (W : Type 0) : Type 0 where
  pub balance : W
  pub equity : W
  pub open_trades : ℕ
  pub daily_pnl : W
  pub has_open_trade_for_instrument : Bool

pub record RuleResult (W : Type 0) : Type 0 where
  pub decision : SupervisorDecisionAction
  pub reason : Text W
  pub confidence_score : ℕ

abbrev pub to_agent_decision_action : SupervisorDecisionAction → AgentDecisionAction
to_agent_decision_action SupervisorDecisionAction.operate = AgentDecisionAction.approve
to_agent_decision_action SupervisorDecisionAction.wait = AgentDecisionAction.wait
to_agent_decision_action SupervisorDecisionAction.block = AgentDecisionAction.reject

-- `buildNonUsdFundamentalAllow`
abbrev pub non_usd_allow : FundamentalResult
non_usd_allow = record {
  is_block = false;
  currency = codes "N/A";
  blocking_event = none;
  reason = "Instrumento sin exposición USD para la regla fundamental inicial.";
}

module _ {W : Type 0} ⦃n : Number W⦄ where
  open n use {le}

  -- `blockReasons`
  unfoldable pub block_reasons :
      Config W
      → ℕ
      → RiskAssessmentDecision
      → SupervisorAccountState W
      → SystemConfig
      → FundamentalResult
      → List (Text W)
  unfolding drawdown
  block_reasons config confidence risk account system fundamental =
      let daily = drawdown account.daily_pnl account.balance in
      push_if system.kill_switch (say "Kill switch is active")
      ++ (push_if (not (is_paper_trading system.mode) && not (is_assisted_trading system.mode)) (
            text "System mode "
            ∷ text (mode_name system.mode)
            ∷ text " does not allow trading"
            ∷ [])
          ++ (push_if (not (is_approved risk))
                (text "Risk decision is " ∷ text (risk_decision_name risk) ∷ [])
              ++ (push_if fundamental.is_block
                    (text "Fundamental decision is BLOCK: " ∷ text fundamental.reason ∷ [])
                  ++ (push_if (ltb confidence 50)
                        (text "Signal confidence " ∷ count confidence ∷ text " is below 50" ∷ [])
                      ++ (push_if account.has_open_trade_for_instrument
                            (say "Instrument already has an open paper trade")
                          ++ (push_if (leb config.supervisor_max_open_trades account.open_trades) (
                                text "Open trades "
                                ∷ count account.open_trades
                                ∷ text " reached max "
                                ∷ count config.supervisor_max_open_trades
                                ∷ [])
                              ++ push_if (le config.supervisor_max_daily_drawdown daily) (
                                  text "Daily drawdown "
                                  ∷ fixed 4 daily
                                  ∷ text " reached max "
                                  ∷ amount config.supervisor_max_daily_drawdown
                                  ∷ [])))))))

  -- what `decide` returns, by its block reasons
  abbrev pub settle : Config W → ℕ → List (Text W) → RuleResult W
  settle config confidence (r ∷ rs) = record {
    decision = SupervisorDecisionAction.block;
    reason = join "; " (r ∷ rs);
    confidence_score = 0;
  }
  settle config confidence [] =
      if ltb confidence config.supervisor_min_confidence
      then record {
        decision = SupervisorDecisionAction.wait;
        reason =
            text "Signal confidence "
            ∷ count confidence
            ∷ text " is valid but below operating threshold "
            ∷ count config.supervisor_min_confidence
            ∷ [];
        confidence_score = confidence;
      }
      else record {
        decision = SupervisorDecisionAction.operate;
        reason = say "All supervisor conditions satisfied";
        confidence_score = confidence;
      }

  -- `decide`
  unfoldable pub decide :
      Config W
      → ℕ
      → RiskAssessmentDecision
      → SupervisorAccountState W
      → SystemConfig
      → FundamentalResult
      → RuleResult W
  unfolding block_reasons
  decide config confidence risk account system fundamental =
      settle config confidence (block_reasons config confidence risk account system fundamental)
