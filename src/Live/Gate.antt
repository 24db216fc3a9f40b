-- ===== src/Live/Gate.antt =====
-- Every gate that `validateLiveExecution` has passed when it lets a real order through.
use trading_backend.Base.{
  ◌==◌, some_and, map_some, find_first, count_where, ℕ, ◌<◌, String, ◌≡◌, ◌≢◌, true, false, Option,
  none, some, arith,
}
use trading_backend.Broker.{
  to_direction, broker_symbol_of, approved_assessment, supervisor_decision_of, instrument_of,
}
use trading_backend.Live.Guard.{
  is_allowed_symbol, is_live_of_signal, is_live_of_symbol, is_live_since, get_limits, daily_loss,
  is_manual_approval_of, check_system, check_candidate, check_signed_off, check_limits,
}
use trading_backend.Number.Interface.{Number}
use trading_backend.Signals.Status.{has_id}
use trading_backend.Store.Entities.{
  User, Signal, RiskAssessment, ManualTradingDecision, LiveTradingLimits,
}
use trading_backend.Store.Enums.{Role, SignalStatus, TradeDirection, SystemMode, is_operate}
use trading_backend.Store.World.{World, Env, value_or, ok}
use trading_backend.System.{default_config, get_config}

module _ {W : Type 0} ⦃n : Number W⦄ where
  open n use {lt, le}

  pub record IsSystemReady (env : Env W) (user_id : ℕ) (w : World W) (u : User) : Type 0 where
    pub enabled : env.config.enable_live_trading ≡ some true
    pub not_dry : env.config.mt5_dry_run ≡ some false
    pub running : (value_or default_config (get_config w).0).kill_switch ≡ false
    pub limited : (value_or default_config (get_config w).0).mode ≡ SystemMode.live_limited
    pub known : find_first (λ u. u.id == user_id) w.users ≡ some u
    pub is_admin : u.role ≡ Role.admin

  pub record IsCandidate (i : ℕ) (w : World W) (s : Signal W) (direction : TradeDirection)
      : Type 0 where
    pub known : find_first (has_id i) w.signals ≡ some s
    pub not_executed : s.status ≢ SignalStatus.live_executed
    pub directed : to_direction s.direction ≡ some direction
    pub has_stop : s.stop_loss ≢ none
    pub has_target : s.take_profit ≢ none

  pub record IsApproved (i : ℕ) (manual_id : Option ℕ) (w : World W) (a : RiskAssessment W)
      (m : ManualTradingDecision W) : Type 0 where
    pub assessed : approved_assessment i w ≡ some a
    pub supervised : some_and (λ d. is_operate d.decision) (supervisor_decision_of i w) ≡ true
    pub approved : find_first (is_manual_approval_of manual_id i) w.manual_decisions ≡ some m
    pub untraded : find_first (is_live_of_signal i) w.live_trades ≡ none

  pub record IsWithinLimits (env : Env W) (w : World W) (s : Signal W) (volume : W)
      (l : LiveTradingLimits W) (symbol : String) : Type 0 where
    pub read : (get_limits w).0 ≡ ok l
    pub is_active : l.is_active ≡ true
    pub traded : map_some broker_symbol_of (instrument_of s w) ≡ some symbol
    pub allowed : is_allowed_symbol symbol l.allowed_symbols ≡ true
    pub small : lt l.max_volume_per_trade volume ≡ false
    pub unopened : find_first (is_live_of_symbol symbol) w.live_trades ≡ none
    pub in_day :
        count_where (is_live_since (env.start_of_day env.now)) w.live_trades
        < l.max_daily_live_trades
    pub in_loss : le l.max_daily_loss (daily_loss (env.start_of_day env.now) w) ≡ false

  pub check_system_ready :
      (env : Env W) (user_id : ℕ) (w : World W) {u : User}
      → (check_system env user_id w).0 ≡ ok u
      → IsSystemReady env user_id w u
  unfolding check_system get_config
  check_system_ready env user_id w {u} h = ground arith

  pub check_candidate_ready :
      (i : ℕ) (w : World W) {r : Signal W × TradeDirection}
      → (check_candidate i w).0 ≡ ok r
      → IsCandidate i w r.0 r.1
  unfolding check_candidate
  check_candidate_ready i w {r} h = ground arith

  pub check_signed_off_ready :
      (i : ℕ) (manual_id : Option ℕ) (w : World W) {r : RiskAssessment W × ManualTradingDecision W}
      → (check_signed_off i manual_id w).0 ≡ ok r
      → IsApproved i manual_id w r.0 r.1
  unfolding check_signed_off
  check_signed_off_ready i manual_id w {r} h = ground arith

  pub check_limits_ready :
      (env : Env W) (s : Signal W) (volume : W) (w : World W) {r : LiveTradingLimits W × String}
      → (check_limits env s volume w).0 ≡ ok r
      → IsWithinLimits env w s volume r.0 r.1
  unfolding check_limits get_limits daily_loss
  check_limits_ready env s volume w {r} h = ground arith

  pub check_system_frame :
      (env : Env W) (user_id : ℕ) (w : World W)
      → let w' = (check_system env user_id w).1 in
        w' ≡ record w { system_config = w'.system_config }
  unfolding check_system get_config
  check_system_frame env user_id w = ground arith

  pub check_candidate_frame : (i : ℕ) (w : World W) → (check_candidate i w).1 ≡ w
  unfolding check_candidate
  check_candidate_frame i w = ground arith

  pub check_signed_off_frame :
      (i : ℕ) (manual_id : Option ℕ) (w : World W) → (check_signed_off i manual_id w).1 ≡ w
  unfolding check_signed_off
  check_signed_off_frame i manual_id w = ground arith

  pub check_limits_frame :
      (env : Env W) (s : Signal W) (volume : W) (w : World W)
      → let w' = (check_limits env s volume w).1 in w' ≡ record w { live_limits = w'.live_limits }
  unfolding check_limits get_limits
  check_limits_frame env s volume w = ground arith
