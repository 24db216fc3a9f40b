-- ===== src/Assisted.antt =====
-- src/modules/assisted-trading: AssistedTradingService, the approval or rejection of a signal by hand.
pub mod Approval
use trading_backend.Base.{◌==◌, is_some, map_some, find_first, ℕ, Option, none, some, ◌∷◌, ◌++◌}
use trading_backend.Broker.{approved_assessment, supervisor_decision_of, dry_run_order_from_signal}
use trading_backend.Number.Interface.{Number}
use trading_backend.Signals.{write_status}
use trading_backend.Store.Entities.{Signal, SupervisorDecision, ManualTradingDecision}
use trading_backend.Store.Enums.{
  SignalStatus, ManualTradingDecisionAction, ManualExecutionTarget, is_pending_manual_approval,
  is_operate, is_assisted_trading, is_manual_approval, target_name,
}
use trading_backend.Store.Events.{
  assisted_approval_required, assisted_signal_approved, assisted_signal_rejected,
  assisted_execution_started, assisted_execution_completed, assisted_execution_failed, open_trade,
}
use trading_backend.Store.Text.{Text, say, message, bad_request, forbidden, not_found, foreign_key}
use trading_backend.Store.World.{
  DryRunResponse, Env, Action, ◌>>=◌, ◌>>◌, pure, throw, throw_if, throw_unless, gets, modify,
  or_throw, lift, catch, emit, fresh,
}
use trading_backend.System.{get_config}

pub data ExecutionResult (W : Type 0) : Type 0 where
  queued : ExecutionResult W
  simulated : DryRunResponse W → ExecutionResult W
  approved_without_execution : ExecutionResult W

module _ {W : Type 0} ⦃n : Number W⦄ where
  -- `tradingSignal.findUnique`, or throw
  abbrev pub require_signal : ℕ → Action W (Signal W)
  require_signal signal_id = do
    row ← gets λ w. find_first (λ s. s.id == signal_id) w.signals
    or_throw row (not_found (say "Signal not found"))

  -- `markSignalPendingManualApproval`
  unfoldable pub mark_signal_pending_manual_approval : ℕ → Option ℕ → Text W → Action W (Signal W)
  unfolding find_first supervisor_decision_of write_status
  mark_signal_pending_manual_approval signal_id decision_id reason = do
    signal ← require_signal signal_id
    own ← gets (supervisor_decision_of signal_id)
    let resolved : Option ℕ = elim decision_id [ some d ↦ some d | none ↦ map_some (λ d. d.id) own ]
    decision ← or_throw resolved (bad_request (say "Signal has no SupervisorDecision"))
    updated ← write_status signal_id SignalStatus.pending_manual_approval
    emit (assisted_approval_required signal_id decision reason)
    pure updated

  -- `validateApprovalPreconditions`
  unfoldable pub validate_approval_preconditions : ℕ → Action W (Signal W × SupervisorDecision W)
  unfolding find_first get_config approved_assessment supervisor_decision_of
  validate_approval_preconditions signal_id = do
    signal ← require_signal signal_id
    throw_unless (is_pending_manual_approval signal.status)
        (bad_request (say "Signal is not pending manual approval"))
    system ← get_config
    throw_if system.kill_switch (forbidden (say "Kill switch is enabled"))
    throw_unless (is_assisted_trading system.mode)
        (forbidden (say "System mode must be ASSISTED_TRADING"))
    found ← gets (approved_assessment signal_id)
    assessment ← or_throw found (bad_request (say "Signal has no approved RiskDecision"))
    own ← gets (supervisor_decision_of signal_id)
    decision ← or_throw own (bad_request (say "Signal has no SupervisorDecision OPERATE"))
    throw_unless (is_operate decision.decision)
        (bad_request (say "Signal has no SupervisorDecision OPERATE"))
    pure (signal, decision)

  -- `ensureNoManualDecision`
  unfoldable pub ensure_no_manual_decision : ℕ → Action W (Unit {0})
  unfolding find_first
  ensure_no_manual_decision signal_id = do
    existing ← gets λ w. find_first (λ d. d.signal_id == signal_id) w.manual_decisions
    throw_if (is_some existing)
        (bad_request (say "Manual trading decision already exists for this signal"))

  -- `manualTradingDecision.create`; the user is a foreign key.
  unfoldable pub create_manual_decision :
      Signal W
      → ℕ
      → ℕ
      → ManualTradingDecisionAction
      → ManualExecutionTarget
      → Text W
      → Action W (ManualTradingDecision W)
  unfolding find_first
  create_manual_decision signal decision_id user_id action target reason = do
    user ← gets λ w. find_first (λ u. u.id == user_id) w.users
    throw_unless (is_some user) foreign_key
    id ← fresh
    let row : ManualTradingDecision W = record {
      id = id;
      signal_id = signal.id;
      supervisor_decision_id = decision_id;
      user_id = user_id;
      decision = action;
      execution_target = target;
      reason = reason;
      signal_status_before = signal.status;
    }
    modify λ w. record w { manual_decisions = row ∷ w.manual_decisions }
    pure row

  -- `enqueueOpenTrade`
  abbrev pub enqueue_open_trade : Env W → ℕ → Action W (Unit {0})
  enqueue_open_trade env signal_id = do
    lift (env.enqueue (open_trade signal_id))
    modify λ w. record w { jobs = open_trade signal_id ∷ w.jobs }

  -- the `try` block of `executeApprovedDecision`
  unfoldable pub run_execution : Env W → ManualTradingDecision W → Action W (ExecutionResult W)
  unfolding dry_run_order_from_signal write_status
  run_execution env d = elim d.execution_target [
    | ManualExecutionTarget.paper_trading ↦ do
      enqueue_open_trade env d.signal_id
      emit (
          assisted_execution_completed d.signal_id d.id d.execution_target
            (say "Paper trading job enqueued"))
      pure queued
    | ManualExecutionTarget.mt5_dry_run ↦ do
      response ← dry_run_order_from_signal env d.signal_id
      updated ← write_status d.signal_id SignalStatus.dry_run_executed
      emit (
          assisted_execution_completed d.signal_id d.id d.execution_target
            (say "MT5 dry-run executed"))
      pure (simulated response)
    | ManualExecutionTarget.none ↦ do
      emit (
          assisted_execution_completed d.signal_id d.id d.execution_target
            (say "Manual approval saved without execution"))
      pure approved_without_execution
  ]

  -- `executeApprovedDecision`
  unfoldable pub execute_approved_decision : Env W → ℕ → Action W (ExecutionResult W)
  unfolding find_first run_execution
  execute_approved_decision env decision_id = do
    row ← gets λ w. find_first (λ d. d.id == decision_id) w.manual_decisions
    decision ← or_throw row (not_found (say "Manual trading decision not found"))
    throw_unless (is_manual_approval decision.decision)
        (bad_request (say "Only approved manual decisions can be executed"))
    emit (
        assisted_execution_started decision.signal_id decision_id decision.execution_target
          (say "Starting assisted execution for " ++ say (target_name decision.execution_target)))
    catch (run_execution env decision) (λ error. do
      emit (
          assisted_execution_failed decision.signal_id decision_id decision.execution_target
            (message error))
      throw error)

  -- `approveSignal`
  unfoldable pub approve_signal :
      Env W → ℕ → ℕ → ManualExecutionTarget → Text W → Action W (ManualTradingDecision W)
  unfolding validate_approval_preconditions ensure_no_manual_decision create_manual_decision
      write_status execute_approved_decision
  approve_signal env signal_id user_id target reason = do
    checked ← validate_approval_preconditions signal_id
    ensure_no_manual_decision signal_id
    decision ←
        create_manual_decision checked.0 checked.1.id user_id ManualTradingDecisionAction.approve
          target reason
    updated ← write_status signal_id SignalStatus.manually_approved
    emit (assisted_signal_approved signal_id decision.id user_id target reason)
    result ← execute_approved_decision env decision.id
    pure decision

  -- `rejectSignal`
  unfoldable pub reject_signal : ℕ → ℕ → Text W → Action W (ManualTradingDecision W)
  unfolding find_first supervisor_decision_of ensure_no_manual_decision create_manual_decision
      write_status
  reject_signal signal_id user_id reason = do
    signal ← require_signal signal_id
    throw_unless (is_pending_manual_approval signal.status)
        (bad_request (say "Signal is not pending manual approval"))
    own ← gets (supervisor_decision_of signal_id)
    supervisor ← or_throw own (bad_request (say "Signal has no SupervisorDecision"))
    ensure_no_manual_decision signal_id
    decision ←
        create_manual_decision signal supervisor.id user_id ManualTradingDecisionAction.reject
          ManualExecutionTarget.none reason
    updated ← write_status signal_id SignalStatus.manually_rejected
    emit (assisted_signal_rejected signal_id decision.id user_id ManualExecutionTarget.none reason)
    pure decision
