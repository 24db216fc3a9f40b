-- ===== src/Tests/DecisionRuns.antt =====
-- The agents' decisions, the approval by hand and the broker's calls on the sample state.
use trading_backend.Base.{
  ◌==◌, find_first, count_where, ◌≡◌, refl, ◌≢◌, true, none, some, [], ◌∷◌, arith,
}
use trading_backend.Assisted.{run_execution, approve_signal, reject_signal}
use trading_backend.Assisted.Approval.{
  status_after_approval, IsApprovable, approval_row, approve_signal_gate, approve_signal_records,
  manual_decision_once,
}
use trading_backend.Broker.{approved_assessment, supervisor_decision_of, dry_run_order_from_signal}
use trading_backend.Broker.Frames.{dry_run_order_from_signal_order}
use trading_backend.Live.{execute_live_from_signal}
use trading_backend.Number.Fixed.{ℤ, fixed_number}
use trading_backend.Number.Interface.{number}
use trading_backend.Signals.{set_status}
use trading_backend.Signals.Status.{has_id}
use trading_backend.Store.Entities.{
  Signal, RiskAssessment, SupervisorDecision, ManualTradingDecision, OrderRequest,
}
use trading_backend.Store.Enums.{
  SignalStatus, AgentExecutionSource, TradeDirection, SupervisorDecisionAction, SystemMode,
  ManualExecutionTarget,
}
use trading_backend.Store.Text.{say}
use trading_backend.Store.World.{World, Result, IsThrow, ok}
use trading_backend.Fundamental.Currency.{same_codes, normalize_currency}
use trading_backend.Supervisor.{decide_signal_by_id}
use trading_backend.Supervisor.Decide.{RuleResult, decide}
use trading_backend.Supervisor.Once.{
  SupervisorStep, SupervisorRun, decisions_of, IsKeptOnce, run-IsKeptOnce,
}
use trading_backend.Supervisor.Outcome.{status_after, ruled, decide_signal_by_id_records}
use trading_backend.System.{get_config, update_config}
use trading_backend.System.KillSwitch.{update_config_stops}
use trading_backend.Tests.Sample.{env, gold, assessment, operate, approval, pending, live_ready}

abbrev undecided : World ℤ
undecided = record pending { supervisor_decisions = [] }

abbrev decided : RuleResult ℤ
decided = ruled env gold assessment undecided

decide_signal_by_id_records_example :
    (d : SupervisorDecision ℤ) × (w' : World ℤ) × (decide_signal_by_id env 7
        AgentExecutionSource.queue undecided
      ≡ (ok d, w'))
    × (d.decision ≡ decided.decision)
    × (supervisor_decision_of 7 w' ≡ some d)
    × (find_first (has_id 7) w'.signals
        ≡ some (
            set_status
              (status_after decided.decision SystemMode.assisted_trading
                SignalStatus.pending_manual_approval)
              gold))
unfolding supervisor_decision_of find_first get_config
decide_signal_by_id_records_example =
    decide_signal_by_id_records env AgentExecutionSource.queue undecided gold assessment refl refl
      refl

-- two calls for the same signal
abbrev decided_once : World ℤ
decided_once = (decide_signal_by_id env 7 AgentExecutionSource.queue undecided).1

abbrev decided_twice : World ℤ
decided_twice = (decide_signal_by_id env 7 AgentExecutionSource.manual decided_once).1

run-IsKeptOnce_example : IsKeptOnce undecided decided_twice
run-IsKeptOnce_example = run-IsKeptOnce (
    SupervisorRun.after_step (SupervisorStep.deciding env AgentExecutionSource.queue 7 undecided) (
      SupervisorRun.after_step
        (SupervisorStep.deciding env AgentExecutionSource.manual 7 decided_once)
        (SupervisorRun.finished decided_twice)))

decided_twice-count : decisions_of 7 decided_twice ≡ 1
unfolding decide_signal_by_id count_where same_codes normalize_currency decide
decided_twice-count = refl

abbrev approving : Result ℤ (ManualTradingDecision ℤ) × World ℤ
approving = approve_signal env 7 1 ManualExecutionTarget.mt5_dry_run (say "Fine") pending

approving-changes : approving.1.manual_decisions ≢ []
unfolding approve_signal run_execution dry_run_order_from_signal
approving-changes = ground arith

approve_signal_gate_example :
    (s : Signal ℤ) × (d : SupervisorDecision ℤ) × IsApprovable 1 7 pending s d
approve_signal_gate_example =
    approve_signal_gate env 1 ManualExecutionTarget.mt5_dry_run (say "Fine") 7 pending
      approving-changes

pending-IsApprovable : IsApprovable 1 7 pending gold operate
unfolding find_first get_config approved_assessment supervisor_decision_of
pending-IsApprovable = record {
  known = refl;
  is_pending = refl;
  running = refl;
  assisted = refl;
  assessed = ground arith;
  supervised = refl;
  operates = refl;
  undecided = refl;
  has_user = ground arith;
}

approve_signal_records_example :
    (approving.1.manual_decisions
      ≡ approval_row 20 gold operate 1 ManualExecutionTarget.mt5_dry_run (say "Fine") ∷ [])
    × (find_first (has_id 7) approving.1.signals
        ≡ some
            (set_status (status_after_approval ManualExecutionTarget.mt5_dry_run approving.0) gold))
approve_signal_records_example =
    approve_signal_records env 1 ManualExecutionTarget.mt5_dry_run (say "Fine") pending gold operate
      pending-IsApprovable

manual_decision_once_example :
    IsThrow (approve_signal env 7 1 ManualExecutionTarget.none (say "Fine") live_ready).0
    × ((approve_signal env 7 1 ManualExecutionTarget.none (say "Fine") live_ready).1
        ≡ record live_ready {
          system_config =
              (approve_signal env 7 1 ManualExecutionTarget.none
                (say "Fine")
                live_ready).1.system_config;
        })
    × IsThrow (reject_signal {W = ℤ} 7 1 (say "Fine") live_ready).0
    × ((reject_signal {W = ℤ} 7 1 (say "Fine") live_ready).1 ≡ live_ready)
unfolding find_first
manual_decision_once_example =
    manual_decision_once env 7 1 ManualExecutionTarget.none (say "Fine") live_ready (ground arith)

dry_run_order_from_signal_order_example :
    (s : Signal ℤ) × (a : RiskAssessment ℤ) × (d : SupervisorDecision ℤ) × (order : OrderRequest ℤ)
    × ((dry_run_order_from_signal env 7 pending).1.dry_runs ≡ order ∷ [])
    × (find_first (λ s. s.id == 7) pending.signals ≡ some s)
    × (approved_assessment 7 pending ≡ some a)
    × (supervisor_decision_of 7 pending ≡ some d)
    × (d.decision ≡ SupervisorDecisionAction.operate)
    × (order.volume ≡ a.position_size)
    × (order.entry_price ≡ s.entry_price)
    × (order.stop_loss ≡ s.stop_loss)
    × (order.take_profit ≡ s.take_profit)
unfolding dry_run_order_from_signal
dry_run_order_from_signal_order_example =
    dry_run_order_from_signal_order env 7 pending
      {r = record { would_execute = true; reason = say "Valid" }} refl

abbrev order : OrderRequest ℤ
order = record {
  symbol = "XAUUSD";
  direction = TradeDirection.buy;
  volume = number 1;
  entry_price = number 100;
  stop_loss = none;
  take_profit = none;
  comment = none;
}

abbrev stopped_world : World ℤ
stopped_world = (update_config none (some true) live_ready).1

abbrev stopped_run : Result ℤ (ManualTradingDecision ℤ) × World ℤ
stopped_run = approve_signal env 7 1 ManualExecutionTarget.none (say "Fine") stopped_world

update_config_stops_example :
    IsThrow (execute_live_from_signal env 7 1 5 stopped_world).0
    × ((execute_live_from_signal env 7 1 5 stopped_world).1.live_orders ≡ [])
    × IsThrow stopped_run.0
    × (stopped_run.1.manual_decisions ≡ approval ∷ [])
    × ((ruled env gold assessment stopped_world).decision ≢ SupervisorDecisionAction.operate)
update_config_stops_example =
    update_config_stops env none 7 1 5 ManualExecutionTarget.none (say "Fine") gold assessment
      live_ready tt
