-- ===== src/Live/Reservation.antt =====
-- The reservation of a live trade: what a validated order leaves behind before it is sent.
use trading_backend.Base.{
  ◌==◌, find_first, ℕ, suc, ◌≡◌, sym, subst, inl, inr, false, some, ◌∷◌, arith,
}
use trading_backend.Live.{
  log, order_of, requested_row, create_live_trade, reserve_live_execution, record_blocked_execution,
  reserve_or_block,
}
use trading_backend.Live.Guard.{LiveExecutionContext, validate_live_execution}
use trading_backend.Live.Validation.{
  IsExecutable, validate_live_execution_ready, validate_live_execution_touches,
}
use trading_backend.Number.Interface.{Number}
use trading_backend.Signals.Status.{has_id}
use trading_backend.Store.Entities.{User, Signal, OrderRequest}
use trading_backend.Store.Enums.{LiveExecutionAction, LiveExecutionStatus}
use trading_backend.Store.Text.{Text, say, Exception, message}
use trading_backend.Store.World.{World, Env, Result-cases, ok, err}

module _ {W : Type 0} ⦃n : Number W⦄ where
  -- The state after a reservation, but for the settings, the limits and the logs.
  abbrev pub reserved_world : Env W → ℕ → LiveExecutionContext W → World W → World W → World W
  reserved_world env i c w w' = record w {
    next_id = suc w.next_id;
    live_trades = requested_row env w.next_id i c.manual_decision.id (order_of c) ∷ w.live_trades;
    system_config = w'.system_config;
    live_limits = w'.live_limits;
    live_logs = w'.live_logs;
  }

  pub reserve_live_execution_ok :
      (env : Env W) (i user_id m : ℕ) (w : World W) {r : ℕ × OrderRequest W}
      → let out = reserve_live_execution env i user_id m w in
        out.0 ≡ ok r
        → (c : LiveExecutionContext W) × IsExecutable env i user_id (some m) w c
          × (env.aborts ≡ false)
          × (r ≡ (w.next_id, order_of c))
          × (out.1 ≡ record (reserved_world env i c w out.1) { live_logs = w.live_logs })
  unfolding reserve_live_execution create_live_trade
  reserve_live_execution_ok env i user_id m w h =
      let f = validate_live_execution_touches env i user_id (some m) w in
      elim (Result-cases (validate_live_execution env i user_id (some m) w).0) [
        | inr (e, h1) ↦ absurd (ground arith)
        | inl (c, h1) ↦ (
          c,
          validate_live_execution_ready env i user_id (some m) w h1,
          ground arith,
          ground arith,
          ground arith,
        )
      ]

  pub reserve_live_execution_err :
      (env : Env W) (i user_id m : ℕ) (w : World W) {e : Exception W}
      → let out = reserve_live_execution env i user_id m w in
        out.0 ≡ err e → out.1 ≡ record w { system_config = out.1.system_config }
  unfolding reserve_live_execution create_live_trade
  reserve_live_execution_err env i user_id m w h =
      elim (Result-cases (validate_live_execution env i user_id (some m) w).0) [
        | inr (e, h1) ↦ ground arith
        | inl (c, h1) ↦ ground arith
      ]

  pub log_frame :
      (i user_id : ℕ) (action : LiveExecutionAction) (status : LiveExecutionStatus)
      (reason : Text W) (w : World W)
      → let w' = (log i user_id action status reason w).1 in
        w' ≡ record w { live_logs = w'.live_logs }
  unfolding log
  log_frame i user_id action status reason w = ground arith

  pub log_ok :
      (i user_id : ℕ) (action : LiveExecutionAction) (status : LiveExecutionStatus)
      (reason : Text W) (w : World W) {s : Signal W} {u : User}
      → find_first (has_id i) w.signals ≡ some s
      → find_first (λ u. u.id == user_id) w.users ≡ some u
      → (log i user_id action status reason w).0 ≡ ok tt
  unfolding log
  log_ok i user_id action status reason w hs hu = ground arith

  -- A reservation that succeeds has a validated order and its row.
  pub reserve_or_block_ok :
      (env : Env W) (i user_id m : ℕ) (w : World W) {r : ℕ × OrderRequest W}
      → let out = reserve_or_block env i user_id m w in
        out.0 ≡ ok r
        → (c : LiveExecutionContext W) × IsExecutable env i user_id (some m) w c
          × (r ≡ (w.next_id, order_of c))
          × (out.1 ≡ reserved_world env i c w out.1)
  unfolding reserve_or_block
  reserve_or_block_ok env i user_id m w h =
      let w1 = (reserve_live_execution env i user_id m w).1 in
      elim (Result-cases (reserve_live_execution env i user_id m w).0) [
        | inr (e, h1) ↦
            let f = Result-cases (record_blocked_execution i user_id (message e) w1).0 in
            absurd (ground arith)
        | inl (r, h1) ↦
            let (c, g, a, e, f) = reserve_live_execution_ok env i user_id m w h1 in
            let k =
              log_frame i user_id LiveExecutionAction.validation LiveExecutionStatus.success
                (say "Live execution validation passed") w1 in
            (c, g, ground arith, ground arith)
      ]

  -- One that fails has neither.
  pub reserve_or_block_err :
      (env : Env W) (i user_id m : ℕ) (w : World W) {e : Exception W}
      → let out = reserve_or_block env i user_id m w in
        out.0 ≡ err e
        → (out.1.live_trades ≡ w.live_trades)
          × (out.1.live_orders ≡ w.live_orders)
          × (out.1.signals ≡ w.signals)
          × (out.1.next_id ≡ w.next_id)
  unfolding reserve_or_block record_blocked_execution
  reserve_or_block_err env i user_id m w h =
      let w1 = (reserve_live_execution env i user_id m w).1 in
      elim (Result-cases (reserve_live_execution env i user_id m w).0) [
        | inr (e, h1) ↦
            let f = reserve_live_execution_err env i user_id m w h1 in
            let k =
              log_frame i user_id LiveExecutionAction.blocked LiveExecutionStatus.blocked
                (message e) w1 in
            ground arith
        | inl (r, h1) ↦
            let (c, g, a, e, f) = reserve_live_execution_ok env i user_id m w h1 in
            let q =
              log_ok i user_id LiveExecutionAction.validation LiveExecutionStatus.success
                (say "Live execution validation passed") w1
                (subst (λ v. find_first (has_id i) v.signals ≡ some c.signal) (sym f)
                  g.candidate.known)
                (subst (λ v. find_first (λ u. u.id == user_id) v.users ≡ some c.user) (sym f)
                  g.system.known) in
            absurd (ground arith)
      ]
