-- ===== src/Live/Validation.antt =====
-- `validateLiveExecution` as a whole: an order that it lets through passes every gate.
use trading_backend.Base.{ℕ, String, ◌≡◌, sym, subst, inl, inr, Option, List, arith}
use trading_backend.Broker.{approved_assessment, supervisor_decision_of, instrument_of}
use trading_backend.Live.Gate.{
  IsSystemReady, IsCandidate, IsApproved, IsWithinLimits, check_system_ready, check_candidate_ready,
  check_signed_off_ready, check_limits_ready, check_system_frame, check_candidate_frame,
  check_signed_off_frame, check_limits_frame,
}
use trading_backend.Live.Guard.{
  LiveExecutionContext, get_limits, daily_loss, check_system, check_candidate, check_signed_off,
  check_limits, context_of, check_order, validate_live_execution,
}
use trading_backend.Number.Interface.{Number}
use trading_backend.Store.Entities.{
  User, Signal, RiskAssessment, ManualTradingDecision, LiveTradingLimits, SystemConfig,
}
use trading_backend.Store.Enums.{TradeDirection}
use trading_backend.Store.Events.{TradingEvent}
use trading_backend.Store.World.{World, Env, Result-cases, ok}
use trading_backend.System.{get_config}

module _ {W : Type 0} ⦃n : Number W⦄ where
  -- Every gate, of the state in which the execution is asked for.
  pub record IsExecutable (env : Env W) (i user_id : ℕ) (manual_id : Option ℕ) (w : World W)
      (c : LiveExecutionContext W) : Type 0 where
    pub system : IsSystemReady env user_id w c.user
    pub candidate : IsCandidate i w c.signal c.direction
    pub signed : IsApproved i manual_id w c.risk_assessment c.manual_decision
    pub bounded : IsWithinLimits env w c.signal c.risk_assessment.position_size c.limits c.symbol
    pub volume_is : c.volume ≡ c.risk_assessment.position_size

  check_order_frame :
      (env : Env W) (i : ℕ) (manual_id : Option ℕ) (u : User) (w : World W)
      → let w' = (check_order env i manual_id u w).1 in
        w' ≡ record w { live_limits = w'.live_limits }
  unfolding check_order
  check_order_frame env i manual_id u w =
      let f1 = check_candidate_frame i w in
      let f2 = check_signed_off_frame i manual_id w in
      elim (Result-cases (check_candidate i w).0) [
        | inr (e, h1) ↦ ground arith
        | inl (s, h1) ↦ elim (Result-cases (check_signed_off i manual_id w).0) [
          | inr (e, h2) ↦ ground arith
          | inl (a, h2) ↦ let f3 = check_limits_frame env s.0 a.0.position_size w in ground arith
        ]
      ]

  -- What passes is what the checks found, on the state as it was.
  check_order_ready :
      (env : Env W) (i : ℕ) (manual_id : Option ℕ) (u : User) (w : World W)
      {c : LiveExecutionContext W}
      → (check_order env i manual_id u w).0 ≡ ok c
      → IsCandidate i w c.signal c.direction
        × IsApproved i manual_id w c.risk_assessment c.manual_decision
        × IsWithinLimits env w c.signal c.risk_assessment.position_size c.limits c.symbol
        × (c.volume ≡ c.risk_assessment.position_size)
        × (c.user ≡ u)
  unfolding check_order
  check_order_ready env i manual_id u w {c} h =
      let f1 = check_candidate_frame i w in
      let f2 = check_signed_off_frame i manual_id w in
      elim (Result-cases (check_candidate i w).0) [
        | inr (e, h1) ↦ absurd (ground arith)
        | inl (s, h1) ↦ elim (Result-cases (check_signed_off i manual_id w).0) [
          | inr (e, h2) ↦ absurd (ground arith)
          | inl (a, h2) ↦ elim (Result-cases (check_limits env s.0 a.0.position_size w).0) [
            | inr (e, h3) ↦ absurd (ground arith)
            | inl (l, h3) ↦
                let e : c ≡ context_of s a u l = ground arith in
                (
                  (rw e (check_candidate_ready i w h1)),
                  (rw e (check_signed_off_ready i manual_id w h2)),
                  (rw e (check_limits_ready env s.0 a.0.position_size w h3)),
                  rw e,
                  rw e,
                )
          ]
        ]
      ]

  IsCandidate-config :
      (i : ℕ) (w : World W) (x : Option SystemConfig) (es : List (TradingEvent W)) {s : Signal W}
      {d : TradeDirection}
      → IsCandidate i (record w { system_config = x; events = es }) s d
      → IsCandidate i w s d
  IsCandidate-config i w x es h = record {
    known = h.known;
    not_executed = h.not_executed;
    directed = h.directed;
    has_stop = h.has_stop;
    has_target = h.has_target;
  }

  IsApproved-config :
      (i : ℕ) (manual_id : Option ℕ) (w : World W) (x : Option SystemConfig)
      (es : List (TradingEvent W)) {a : RiskAssessment W} {m : ManualTradingDecision W}
      → IsApproved i manual_id (record w { system_config = x; events = es }) a m
      → IsApproved i manual_id w a m
  unfolding approved_assessment supervisor_decision_of
  IsApproved-config i manual_id w x es h = record {
    assessed = h.assessed;
    supervised = h.supervised;
    approved = h.approved;
    untraded = h.untraded;
  }

  IsWithinLimits-config :
      (env : Env W) (w : World W) (x : Option SystemConfig) (es : List (TradingEvent W))
      (s : Signal W) (volume : W) {l : LiveTradingLimits W} {symbol : String}
      → IsWithinLimits env (record w { system_config = x; events = es }) s volume l symbol
      → IsWithinLimits env w s volume l symbol
  unfolding get_limits instrument_of daily_loss
  IsWithinLimits-config env w x es s volume {l} h = record {
    read = let e = h.read in ground arith;
    is_active = h.is_active;
    traded = h.traded;
    allowed = h.allowed;
    small = h.small;
    unopened = h.unopened;
    in_day = h.in_day;
    in_loss = h.in_loss;
  }

  -- The gates do not depend on what has been announced.
  pub IsExecutable-events :
      (env : Env W) (i user_id : ℕ) (manual_id : Option ℕ) (w : World W)
      (es : List (TradingEvent W)) {c : LiveExecutionContext W}
      → IsExecutable env i user_id manual_id (record w { events = es }) c
      → IsExecutable env i user_id manual_id w c
  unfolding get_config
  IsExecutable-events env i user_id manual_id w es {c} h =
      let x = w.system_config in
      record {
        system = record {
          enabled = h.system.enabled;
          not_dry = h.system.not_dry;
          running = let e = h.system.running in ground arith;
          limited = let e = h.system.limited in ground arith;
          known = h.system.known;
          is_admin = h.system.is_admin;
        };
        candidate = IsCandidate-config i w x es h.candidate;
        signed = IsApproved-config i manual_id w x es h.signed;
        bounded =
            IsWithinLimits-config env w x es c.signal c.risk_assessment.position_size h.bounded;
        volume_is = h.volume_is;
      }

  -- Whatever `validateLiveExecution` lets through passes every gate.
  pub validate_live_execution_ready :
      (env : Env W) (i user_id : ℕ) (manual_id : Option ℕ) (w : World W)
      {c : LiveExecutionContext W}
      → (validate_live_execution env i user_id manual_id w).0 ≡ ok c
      → IsExecutable env i user_id manual_id w c
  unfolding validate_live_execution
  validate_live_execution_ready env i user_id manual_id w {c} h =
      elim (Result-cases (check_system env user_id w).0) [
        | inr (e, h1) ↦ absurd (ground arith)
        | inl (u, h1) ↦
            let w1 = (check_system env user_id w).1 in
            let x = w1.system_config in
            let f : w1 ≡ record w { system_config = x } = check_system_frame env user_id w in
            let k : (check_order env i manual_id u (record w { system_config = x })).0 ≡ ok c =
              subst (λ v. (check_order env i manual_id u v).0 ≡ ok c) f (ground arith) in
            let r = check_order_ready env i manual_id u (record w { system_config = x }) k in
            record {
              system =
                  subst (IsSystemReady env user_id w) (sym r.4)
                    (check_system_ready env user_id w h1);
              candidate = IsCandidate-config i w x w.events r.0;
              signed = IsApproved-config i manual_id w x w.events r.1;
              bounded =
                  IsWithinLimits-config env w x w.events c.signal c.risk_assessment.position_size
                    r.2;
              volume_is = r.3;
            }
      ]

  -- A state that differs in the rows of the settings and the limits alone.
  abbrev pub IsTouched : World W → World W → Type 0
  IsTouched w w' = w' ≡ record w { system_config = w'.system_config; live_limits = w'.live_limits }

  pub validate_live_execution_touches :
      (env : Env W) (i user_id : ℕ) (manual_id : Option ℕ) (w : World W)
      → IsTouched w (validate_live_execution env i user_id manual_id w).1
  unfolding validate_live_execution
  validate_live_execution_touches env i user_id manual_id w =
      let w1 = (check_system env user_id w).1 in
      let f = check_system_frame env user_id w in
      elim (Result-cases (check_system env user_id w).0) [
        | inr (e, h) ↦ ground arith
        | inl (u, h) ↦ let f1 = check_order_frame env i manual_id u w1 in ground arith
      ]
