-- ===== src/Assisted/Approval.antt =====
-- The approval of a signal by hand: its gate, what it records, and that it happens once.
use trading_backend.Base.{
  ◌==◌, ==_self, Option-cases, find_first, update_where, ℕ, suc, ◌≡◌, ◌≢◌, inl, inr, false, Option,
  none, some, ◌∷◌, ◌++◌, arith,
}
use trading_backend.Assisted.{
  ExecutionResult, validate_approval_preconditions, ensure_no_manual_decision,
  create_manual_decision, run_execution, execute_approved_decision, approve_signal, reject_signal,
}
use trading_backend.Broker.{approved_assessment, supervisor_decision_of}
use trading_backend.Broker.Frames.{dry_run_order_from_signal_frame}
use trading_backend.Number.Interface.{Number}
use trading_backend.Signals.{set_status, write_status}
use trading_backend.Signals.Status.{has_id, find_first-set_status}
use trading_backend.Store.Entities.{Signal, SupervisorDecision, ManualTradingDecision}
use trading_backend.Store.Enums.{
  SignalStatus, SupervisorDecisionAction, SystemMode, ManualTradingDecisionAction,
  ManualExecutionTarget, target_name,
}
use trading_backend.Store.Events.{
  assisted_signal_approved, assisted_execution_started, assisted_execution_failed,
}
use trading_backend.Store.Text.{Text, say, message}
use trading_backend.Store.World.{World, Result, Env, value_or, IsThrow, Result-cases, ok, err}
use trading_backend.System.{default_config, get_config}
use trading_backend.Tests.Sample.{env}

-- the status of a signal after its approval, by the target and whether the execution succeeded
abbrev pub status_after_approval :
    {W A : Type 0} → ManualExecutionTarget → Result W A → SignalStatus
status_after_approval ManualExecutionTarget.mt5_dry_run (ok a) = SignalStatus.dry_run_executed
status_after_approval _ _ = SignalStatus.manually_approved

module _ {W : Type 0} ⦃n : Number W⦄ where
  abbrev pub manual_decision_of : ℕ → World W → Option (ManualTradingDecision W)
  manual_decision_of i w = find_first (λ d. d.signal_id == i) w.manual_decisions

  -- What an approval needs, in the order of the code.
  pub record IsApprovable (user_id i : ℕ) (w : World W) (s : Signal W) (d : SupervisorDecision W)
      : Type 0 where
    pub known : find_first (has_id i) w.signals ≡ some s
    pub is_pending : s.status ≡ SignalStatus.pending_manual_approval
    pub running : (value_or default_config (get_config w).0).kill_switch ≡ false
    pub assisted : (value_or default_config (get_config w).0).mode ≡ SystemMode.assisted_trading
    pub assessed : approved_assessment i w ≢ none
    pub supervised : supervisor_decision_of i w ≡ some d
    pub operates : d.decision ≡ SupervisorDecisionAction.operate
    pub undecided : manual_decision_of i w ≡ none
    pub has_user : find_first (λ u. u.id == user_id) w.users ≢ none

  abbrev pub approval_row :
      ℕ
      → Signal W
      → SupervisorDecision W
      → ℕ
      → ManualExecutionTarget
      → Text W
      → ManualTradingDecision W
  approval_row id s d user_id target reason = record {
    id = id;
    signal_id = s.id;
    supervisor_decision_id = d.id;
    user_id = user_id;
    decision = ManualTradingDecisionAction.approve;
    execution_target = target;
    reason = reason;
    signal_status_before = s.status;
  }

  run_execution_frame :
      (env : Env W) (m : ManualTradingDecision W) (w : World W)
      → (run_execution env m w).1.manual_decisions ≡ w.manual_decisions
  unfolding run_execution write_status
  run_execution_frame env m w = ground (arith, dry_run_order_from_signal_frame env m.signal_id w)

  run_execution_status :
      (env : Env W) (m : ManualTradingDecision W) (w : World W) (s : Signal W)
      → find_first (has_id m.signal_id) w.signals
        ≡ some (set_status SignalStatus.manually_approved s)
      → let out = run_execution env m w in
        find_first (has_id m.signal_id) out.1.signals
        ≡ some (set_status (status_after_approval m.execution_target out.0) s)
  unfolding run_execution write_status
  run_execution_status env m w s h = ground (
    arith,
    dry_run_order_from_signal_frame env m.signal_id w,
    find_first-set_status m.signal_id SignalStatus.dry_run_executed w.signals h,
  )

  -- the state in which the execution of an approval starts
  abbrev approved_world : Signal W → ManualTradingDecision W → World W → World W
  approved_world s m w = record w {
    next_id = suc w.next_id;
    system_config = (get_config w).1.system_config;
    manual_decisions = m ∷ w.manual_decisions;
    signals = update_where (has_id s.id) (set_status SignalStatus.manually_approved) w.signals;
    events =
        assisted_execution_started s.id w.next_id m.execution_target
          (say "Starting assisted execution for " ++ say (target_name m.execution_target))
        ∷ assisted_signal_approved s.id w.next_id m.user_id m.execution_target m.reason
        ∷ w.events;
  }

  abbrev finished :
      ManualTradingDecision W
      → Result W (ExecutionResult W) × World W
      → Result W (ManualTradingDecision W) × World W
  finished m (ok r, w) = (ok m, w)
  finished m (err e, w) = (
    err e,
    record w {
      events = assisted_execution_failed m.signal_id m.id m.execution_target (message e) ∷ w.events;
    },
  )

  abbrev configured : World W → World W
  configured w = record w { system_config = (get_config w).1.system_config }

  -- What `validateApprovalPreconditions` checks.
  record IsChecked (w : World W) (i : ℕ) (s : Signal W) (d : SupervisorDecision W) : Type 0 where
    known : find_first (has_id i) w.signals ≡ some s
    is_pending : s.status ≡ SignalStatus.pending_manual_approval
    running : (value_or default_config (get_config w).0).kill_switch ≡ false
    assisted : (value_or default_config (get_config w).0).mode ≡ SystemMode.assisted_trading
    assessed : approved_assessment i w ≢ none
    supervised : supervisor_decision_of i w ≡ some d
    operates : d.decision ≡ SupervisorDecisionAction.operate

  validate_passes :
      (i : ℕ) (w : World W) (s : Signal W) (d : SupervisorDecision W)
      → IsChecked w i s d
      → validate_approval_preconditions i w ≡ (ok (s, d), configured w)
  unfolding validate_approval_preconditions get_config
  validate_passes i w s d c = ground arith

  validate_refuses :
      (i : ℕ) (w : World W) {p : Signal W × SupervisorDecision W}
      → (validate_approval_preconditions i w).0 ≡ ok p
      → IsChecked w i p.0 p.1
  unfolding validate_approval_preconditions get_config
  validate_refuses i w {p} h = ground arith

  validate_frame :
      (i : ℕ) (w : World W)
      → (validate_approval_preconditions i w).1.manual_decisions ≡ w.manual_decisions
  unfolding validate_approval_preconditions get_config
  validate_frame i w = ground arith

  -- Behind its gate, an approval is its two writes, then the execution of the new decision.
  approve_signal_runs :
      (env : Env W) (user_id : ℕ) (target : ManualExecutionTarget) (reason : Text W) (w : World W)
      (s : Signal W) (d : SupervisorDecision W)
      → IsApprovable user_id s.id w s d
      → let m = approval_row w.next_id s d user_id target reason in
        approve_signal env s.id user_id target reason w
        ≡ finished m (run_execution env m (approved_world s m w))
  unfolding approve_signal ensure_no_manual_decision create_manual_decision write_status
      execute_approved_decision find_first
  approve_signal_runs env user_id target reason w s d a =
      let m = approval_row w.next_id s d user_id target reason in
      let mid = approved_world s m w in
      let passed = validate_passes s.id w s d (record {
        known = a.known;
        is_pending = a.is_pending;
        running = a.running;
        assisted = a.assisted;
        assessed = a.assessed;
        supervised = a.supervised;
        operates = a.operates;
      }) in
      ground (arith, passed, ==_self w.next_id)

  -- If an approval leaves a decision behind, whether or not its execution succeeds, then the signal was
  -- pending approval with an approved assessment and an OPERATE decision, the kill switch was off, the
  -- mode was assisted trading, the user exists and no manual decision was there before.
  pub approve_signal_gate :
      (env : Env W) (user_id : ℕ) (target : ManualExecutionTarget) (reason : Text W) (i : ℕ)
      (w : World W)
      → (approve_signal env i user_id target reason w).1.manual_decisions ≢ w.manual_decisions
      → (s : Signal W) × (d : SupervisorDecision W) × IsApprovable user_id i w s d
  unfolding approve_signal ensure_no_manual_decision create_manual_decision
  approve_signal_gate env user_id target reason i w h =
      elim (Result-cases (validate_approval_preconditions i w).0) [
        | inr (e, refused) ↦ absurd (h (ground (arith, validate_frame i w)))
        | inl (p, passed) ↦
            let c = validate_refuses i w passed in
            let through = validate_passes i w p.0 p.1 c in
            (
              p.0,
              p.1,
              record {
                known = c.known;
                is_pending = c.is_pending;
                running = c.running;
                assisted = c.assisted;
                assessed = c.assessed;
                supervised = c.supervised;
                operates = c.operates;
                undecided = elim (Option-cases (manual_decision_of i w)) [
                  | inl e ↦ e
                  | inr (m, e) ↦ absurd (h (ground (arith, through)))
                ];
                has_user = λ e. h (ground (arith, through));
              },
            )
      ]

  -- When the gate is passed, the approval is recorded with the status that the signal had, and the
  -- signal ends as MANUALLY_APPROVED, or as DRY_RUN_EXECUTED after a dry run that succeeded; this is
  -- so also when the execution throws.
  pub approve_signal_records :
      (env : Env W) (user_id : ℕ) (target : ManualExecutionTarget) (reason : Text W) (w : World W)
      (s : Signal W) (d : SupervisorDecision W)
      → IsApprovable user_id s.id w s d
      → let out = approve_signal env s.id user_id target reason w in
        (out.1.manual_decisions
          ≡ approval_row w.next_id s d user_id target reason ∷ w.manual_decisions)
        × (find_first (has_id s.id) out.1.signals
            ≡ some (set_status (status_after_approval target out.0) s))
  approve_signal_records env user_id target reason w s d a =
      let m = approval_row w.next_id s d user_id target reason in
      let mid = approved_world s m w in
      let moved = find_first-set_status s.id SignalStatus.manually_approved w.signals a.known in
      rw (approve_signal_runs env user_id target reason w s d a) (
        ground (arith, run_execution_frame env m mid),
        ground (arith, run_execution_status env m mid s moved),
      )

  -- Once a signal has a manual decision, every approval and every rejection of it throws, and leaves
  -- the signals, the decisions, the jobs and the dry runs as they were.
  pub manual_decision_once :
      (env : Env W) (i user_id : ℕ) (target : ManualExecutionTarget) (reason : Text W) (w : World W)
      → manual_decision_of i w ≢ none
      → let out = approve_signal env i user_id target reason w in
        let no_out = reject_signal i user_id reason w in
        IsThrow out.0
        × (out.1 ≡ record w { system_config = out.1.system_config })
        × IsThrow no_out.0
        × (no_out.1 ≡ w)
  unfolding approve_signal reject_signal validate_approval_preconditions ensure_no_manual_decision
      get_config
  manual_decision_once env i user_id target reason w h = ground arith
