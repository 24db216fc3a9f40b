-- ===== src/System/KillSwitch.antt =====
-- The kill switch, across the services: what stops once it is on.
use trading_backend.Base.{ℕ, ◌≡◌, ap, ◌∙◌, ◌≢◌, inl, inr, Bool, true, Option, some, arith}
use trading_backend.Assisted.{validate_approval_preconditions, approve_signal}
use trading_backend.Live.{execute_live_from_signal}
use trading_backend.Live.Execution.{execute_live_from_signal_outcome}
use trading_backend.Live.Settling.{IsNumbered}
use trading_backend.Number.Interface.{Number}
use trading_backend.Store.Entities.{Signal, RiskAssessment}
use trading_backend.Store.Enums.{SupervisorDecisionAction, SystemMode, ManualExecutionTarget}
use trading_backend.Store.Text.{Text}
use trading_backend.Store.World.{World, Env, value_or, IsThrow}
use trading_backend.Supervisor.{account_state, fundamental_decision}
use trading_backend.Supervisor.Decide.{non_usd_allow}
use trading_backend.Supervisor.Outcome.{ruled}
use trading_backend.Supervisor.Rules.{decide-operate_iff}
use trading_backend.System.{default_config, get_config, update_config}

module _ {W : Type 0} ⦃n : Number W⦄ where
  switched_on :
      (mode : Option SystemMode) (w : World W)
      → (value_or default_config (get_config (update_config mode (some true) w).1).0).kill_switch
        ≡ true
  unfolding update_config get_config
  switched_on mode w = ground arith

  update_config_frame :
      (mode : Option SystemMode) (kill : Option Bool) (w : World W)
      → let v = (update_config mode kill w).1 in
        v ≡ record w { system_config = v.system_config; events = v.events }
  unfolding update_config get_config
  update_config_frame mode kill w = ground arith

  live_stops :
      (env : Env W) (i user_id m : ℕ) (v : World W)
      → IsNumbered v.next_id v.live_trades
      → (value_or default_config (get_config v).0).kill_switch ≡ true
      → IsThrow (execute_live_from_signal env i user_id m v).0
        × ((execute_live_from_signal env i user_id m v).1.live_orders ≡ v.live_orders)
  live_stops env i user_id m v hf on =
      elim (execute_live_from_signal_outcome env i user_id m v hf) [
        | inl r ↦ (r.throws, r.no_order)
        | inr (c, g, s) ↦ let off = g.system.running in absurd (ground arith)
      ]

  approval_stops :
      (env : Env W) (i user_id : ℕ) (target : ManualExecutionTarget) (reason : Text W) (v : World W)
      → (value_or default_config (get_config v).0).kill_switch ≡ true
      → IsThrow (approve_signal env i user_id target reason v).0
        × ((approve_signal env i user_id target reason v).1.manual_decisions ≡ v.manual_decisions)
  unfolding approve_signal validate_approval_preconditions get_config
  approval_stops env i user_id target reason v on = ground arith

  decision_stops :
      (env : Env W) (signal : Signal W) (assessment : RiskAssessment W) (v : World W)
      → (value_or default_config (get_config v).0).kill_switch ≡ true
      → (ruled env signal assessment v).decision ≢ SupervisorDecisionAction.operate
  decision_stops env signal assessment v on h =
      let system = get_config v in
      let (c, m) =
        (decide-operate_iff env.config signal.confidence_score assessment.decision
            (account_state env signal.instrument_id v) (value_or default_config system.0)
            (value_or non_usd_allow (fundamental_decision env signal.instrument_id system.1).0)).0
          h in
      let off = c.running in absurd (ground arith)

  -- Once `updateConfig` has set the kill switch, whatever the mode: a live execution throws and hands
  -- no order to the broker, if the ids of the live trades are below the next id; an approval by hand
  -- throws and leaves no decision; and the supervisor rules OPERATE on no signal.
  pub update_config_stops :
      (env : Env W) (mode : Option SystemMode) (i user_id m : ℕ) (target : ManualExecutionTarget)
      (reason : Text W) (signal : Signal W) (assessment : RiskAssessment W) (w : World W)
      → IsNumbered w.next_id w.live_trades
      → let v = (update_config mode (some true) w).1 in
        IsThrow (execute_live_from_signal env i user_id m v).0
        × ((execute_live_from_signal env i user_id m v).1.live_orders ≡ w.live_orders)
        × IsThrow (approve_signal env i user_id target reason v).0
        × ((approve_signal env i user_id target reason v).1.manual_decisions ≡ w.manual_decisions)
        × ((ruled env signal assessment v).decision ≢ SupervisorDecisionAction.operate)
  update_config_stops env mode i user_id m target reason signal assessment w hf =
      let v = (update_config mode (some true) w).1 in
      let on = switched_on mode w in
      let f = update_config_frame mode (some true) w in
      let num : IsNumbered v.next_id v.live_trades = rw f hf in
      let (a, b) = live_stops env i user_id m v num on in
      let (c, d) = approval_stops env i user_id target reason v on in
      (
        a,
        b ∙ ap (λ x. x.live_orders) f,
        c,
        d ∙ ap (λ x. x.manual_decisions) f,
        decision_stops env signal assessment v on,
      )
