-- ===== src/Supervisor/Outcome.antt =====
-- What `decideSignalById` leaves in the database.
use trading_backend.Base.{
  ◌==◌, Option-cases, find_first, ℕ, suc, ◌≡◌, refl, sym, ap, subst, ◌∙◌, ◌⊎◌, inl, inr, Option,
  none, some, List, ◌∷◌, arith,
}
use trading_backend.Broker.{supervisor_decision_of}
use trading_backend.Fundamental.{FundamentalResult, evaluate}
use trading_backend.Number.Interface.{Number}
use trading_backend.Signals.{find_by_id, set_status}
use trading_backend.Signals.Status.{has_id, find_first-set_status, id-find_first}
use trading_backend.Store.Entities.{Signal, RiskAssessment, SupervisorDecision, SystemConfig}
use trading_backend.Store.Enums.{
  SignalStatus, AgentExecutionSource, SupervisorDecisionAction, SystemMode,
}
use trading_backend.Store.Events.{TradingEvent}
use trading_backend.Store.World.{World, Result, Env, value_or, ok}
use trading_backend.Supervisor.{
  latest_risk_assessment, account_state, fundamental_decision, act_on, fundamental_row,
  supervisor_row, record_decision, decide_signal_by_id,
}
use trading_backend.Supervisor.Decide.{SupervisorAccountState, RuleResult, non_usd_allow, decide}
use trading_backend.System.{default_config, get_config}

-- What a decision does to the status of its signal.
abbrev pub status_after : SupervisorDecisionAction → SystemMode → SignalStatus → SignalStatus
status_after SupervisorDecisionAction.operate SystemMode.paper_trading s = SignalStatus.approved
status_after SupervisorDecisionAction.operate SystemMode.assisted_trading s =
    SignalStatus.pending_manual_approval
status_after _ _ s = s

module _ {W : Type 0} ⦃n : Number W⦄ where
  get_config_frame :
      (w : World W)
      → (c : SystemConfig) × (o : Option SystemConfig) × (get_config w
          ≡ (ok c, record w { system_config = o }))
  unfolding get_config
  get_config_frame w = elim (Option-cases w.system_config) [
    | inl e ↦ (default_config, some default_config, ground arith)
    | inr (c, e) ↦ (c, some c, ground arith)
  ]

  fundamental_decision_frame :
      (env : Env W) (i : ℕ) (w : World W)
      → (r : FundamentalResult) × (es : List (TradingEvent W)) × (fundamental_decision env i w
          ≡ (ok r, record w { events = es }))
  unfolding fundamental_decision evaluate
  fundamental_decision_frame env i w =
      let out = fundamental_decision env i w in
      (value_or non_usd_allow out.0, out.1.events, ground arith)

  act_on_lem :
      (signal : Signal W) (result : RuleResult W) (d : ℕ) (system : SystemConfig) (w : World W)
      → find_first (λ s. s.id == signal.id) w.signals ≡ some signal
      → (ss : List (Signal W)) × (es : List (TradingEvent W)) × (act_on signal.id result d system w
          ≡ (ok tt, record w { signals = ss; events = es }))
        × (find_first (λ s. s.id == signal.id) ss
            ≡ some (set_status (status_after result.decision system.mode signal.status) signal))
  unfolding act_on
  act_on_lem signal result d system w h =
      let out = act_on signal.id result d system w in
      (
        out.1.signals,
        out.1.events,
        ground arith,
        ground (
          arith,
          find_first-set_status signal.id SignalStatus.approved w.signals h,
          find_first-set_status signal.id SignalStatus.pending_manual_approval w.signals h,
        ),
      )

  -- What `record_decision` has done when it succeeds.
  record IsRecorded (env : Env W) (source : AgentExecutionSource) (signal : Signal W)
      (result : RuleResult W) (mode : SystemMode) (w w' : World W) (d : SupervisorDecision W)
      : Type 0 where
    of_signal : d.signal_id ≡ signal.id
    is_newest : w'.supervisor_decisions ≡ d ∷ w.supervisor_decisions
    is_result : d.decision ≡ result.decision
    is_kept : supervisor_decision_of signal.id w' ≡ some d
    moves :
        find_first (has_id signal.id) w'.signals
        ≡ some (set_status (status_after result.decision mode signal.status) signal)

  record_decision-IsRecorded :
      (env : Env W) (source : AgentExecutionSource) (signal : Signal W)
      (assessment : RiskAssessment W) (account : SupervisorAccountState W) (system : SystemConfig)
      (fundamental : FundamentalResult) (w : World W)
      → supervisor_decision_of signal.id w ≡ none
      → find_first (has_id signal.id) w.signals ≡ some signal
      → (d : SupervisorDecision W) × (w' : World W) × (record_decision env source signal assessment
            account system fundamental w
          ≡ (ok d, w'))
        × IsRecorded env source signal
            (decide env.config signal.confidence_score assessment.decision account system
              fundamental)
            system.mode
            w
            w'
            d
  unfolding record_decision supervisor_decision_of find_first
  record_decision-IsRecorded env source signal assessment account system fundamental w new known =
      let result =
        decide env.config signal.confidence_score assessment.decision account system fundamental in
      let out = record_decision env source signal assessment account system fundamental w in
      let d : SupervisorDecision W = record {
        id = suc w.next_id;
        signal_id = signal.id;
        decision = result.decision;
        reason = result.reason;
        confidence_score = result.confidence_score;
      } in
      let mid : World W = record w {
        next_id = suc (suc (suc w.next_id));
        agent_decisions =
            record (supervisor_row signal result assessment source) { id = suc (suc w.next_id) }
            ∷ record (fundamental_row signal fundamental source) { id = w.next_id }
            ∷ w.agent_decisions;
        supervisor_decisions = d ∷ w.supervisor_decisions;
      } in
      let (ss, es, acted, moved) = act_on_lem signal result (suc w.next_id) system mid known in
      (
        d,
        out.1,
        ground (arith, acted),
        record {
          of_signal = refl;
          is_newest = ground (arith, acted);
          is_result = refl;
          is_kept = ground (arith, acted);
          moves = ground (arith, acted, moved);
        },
      )

  -- the result of `decide` on what `decideSignalById` reads
  abbrev pub ruled : Env W → Signal W → RiskAssessment W → World W → RuleResult W
  ruled env signal assessment w =
      let system = get_config w in
      decide env.config signal.confidence_score assessment.decision
        (account_state env signal.instrument_id w) (value_or default_config system.0)
        (value_or non_usd_allow (fundamental_decision env signal.instrument_id system.1).0)

  -- A signal that has a risk assessment and no supervisor decision gets one: the call succeeds, the
  -- decision is what `decide` rules on the newest assessment, the account, the system mode and the
  -- fundamental result, it is what a lookup by the signal then finds, and the signal's status becomes
  -- APPROVED on OPERATE in paper mode, PENDING_MANUAL_APPROVAL on OPERATE in assisted mode, and
  -- stays as it was otherwise.
  pub decide_signal_by_id_records :
      (env : Env W) (source : AgentExecutionSource) (w : World W) (signal : Signal W)
      (assessment : RiskAssessment W)
      → supervisor_decision_of signal.id w ≡ none
      → find_first (has_id signal.id) w.signals ≡ some signal
      → find_first (λ a. a.signal_id == signal.id) w.risk_assessments ≡ some assessment
      → let result = ruled env signal assessment w in
        let mode = (value_or default_config (get_config w).0).mode in
        (d : SupervisorDecision W) × (w' : World W) × (decide_signal_by_id env signal.id source w
          ≡ (ok d, w'))
        × (d.decision ≡ result.decision)
        × (supervisor_decision_of signal.id w' ≡ some d)
        × (find_first (has_id signal.id) w'.signals
            ≡ some (set_status (status_after result.decision mode signal.status) signal))
  unfolding decide_signal_by_id supervisor_decision_of find_first
  decide_signal_by_id_records env source w signal assessment new known assessed =
      let (c, o, read) = get_config_frame w in
      let (f, es, weighed) =
        fundamental_decision_frame env signal.instrument_id (record w { system_config = o }) in
      let (d, w', done, r) =
        record_decision-IsRecorded env source signal assessment
          (account_state env signal.instrument_id w) c f
          (record w { system_config = o; events = es }) new known in
      (
        d,
        w',
        ground (arith, read, weighed, done),
        rw (read, weighed) r.is_result,
        r.is_kept,
        rw (read, weighed) r.moves,
      )

  -- The decisions before and after a call for a signal that has none.
  decide_signal_by_id_writes :
      (env : Env W) (source : AgentExecutionSource) (w : World W) (signal : Signal W)
      (assessment : RiskAssessment W)
      → supervisor_decision_of signal.id w ≡ none
      → find_first (has_id signal.id) w.signals ≡ some signal
      → find_first (λ a. a.signal_id == signal.id) w.risk_assessments ≡ some assessment
      → (d : SupervisorDecision W) × (d.signal_id ≡ signal.id)
        × ((decide_signal_by_id env signal.id source w).1.supervisor_decisions
            ≡ d ∷ w.supervisor_decisions)
  unfolding decide_signal_by_id supervisor_decision_of
  decide_signal_by_id_writes env source w signal assessment new known assessed =
      let (c, o, read) = get_config_frame w in
      let (f, es, weighed) =
        fundamental_decision_frame env signal.instrument_id (record w { system_config = o }) in
      let (d, w', done, r) =
        record_decision-IsRecorded env source signal assessment
          (account_state env signal.instrument_id w) c f
          (record w { system_config = o; events = es }) new known in
      let all : decide_signal_by_id env signal.id source w ≡ (ok d, w') =
        ground (arith, read, weighed, done) in
      (
        d,
        r.of_signal,
        ap (λ (out : Result W (SupervisorDecision W) × World W). out.1.supervisor_decisions) all
            ∙ r.is_newest,
      )

  -- A call adds a decision of its signal, when it has none, or leaves the decisions.
  pub decide_signal_by_id_rows :
      (env : Env W) (source : AgentExecutionSource) (i : ℕ) (w : World W)
      → let w' = (decide_signal_by_id env i source w).1 in
        (w'.supervisor_decisions ≡ w.supervisor_decisions)
        ⊎ ((d : SupervisorDecision W) × (d.signal_id ≡ i)
            × (supervisor_decision_of i w ≡ none)
            × (w'.supervisor_decisions ≡ d ∷ w.supervisor_decisions))
  unfolding decide_signal_by_id supervisor_decision_of find_by_id latest_risk_assessment
  decide_signal_by_id_rows env source i w = elim (Option-cases (supervisor_decision_of i w)) [
    | inr (d, e) ↦ inl (ground arith)
    | inl e ↦ elim (Option-cases (find_first (has_id i) w.signals)) [
      | inl e1 ↦ inl (ground arith)
      | inr (signal, e1) ↦
          elim (Option-cases (find_first (λ a. a.signal_id == i) w.risk_assessments)) [
            | inl e2 ↦ inl (ground arith)
            | inr (assessment, e2) ↦
                let same : signal.id ≡ i = id-find_first i w.signals e1 in
                let added : (d : SupervisorDecision W) × (d.signal_id ≡ i)
                    × ((decide_signal_by_id env i source w).1.supervisor_decisions
                        ≡ d ∷ w.supervisor_decisions) =
                  subst
                    (λ j.
                      (d : SupervisorDecision W) × (d.signal_id ≡ j)
                      × ((decide_signal_by_id env j source w).1.supervisor_decisions
                          ≡ d ∷ w.supervisor_decisions))
                    same
                    (decide_signal_by_id_writes env source w signal assessment
                      (subst (λ j. supervisor_decision_of j w ≡ none) (sym same) e)
                      (subst (λ j. find_first (has_id j) w.signals ≡ some signal) (sym same) e1)
                      (subst
                        (λ j.
                          find_first (λ a. a.signal_id == j) w.risk_assessments ≡ some assessment)
                        (sym same) e2)) in
                let (d, p, q) = added in inr (d, p, e, q)
          ]
    ]
  ]
