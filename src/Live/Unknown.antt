-- ===== src/Live/Unknown.antt =====
-- An execution of a signal that is not stored: the log of its refusal cannot be written either.
use trading_backend.Base.{find_first, ℕ, ◌≡◌, sym, subst, inl, inr, none, ◌∷◌, arith}
use trading_backend.Live.{
  log, reserve_live_execution, record_blocked_execution, reserve_or_block, execute_live_from_signal,
}
use trading_backend.Live.Reservation.{reserve_live_execution_ok, reserve_live_execution_err}
use trading_backend.Live.Settling.{requesting}
use trading_backend.Number.Interface.{Number}
use trading_backend.Signals.Status.{has_id}
use trading_backend.Store.Enums.{LiveExecutionAction, LiveExecutionStatus}
use trading_backend.Store.Events.{live_execution_requested}
use trading_backend.Store.Text.{Text, say, message, foreign_key}
use trading_backend.Store.World.{World, Env, Result-cases, err}

module _ {W : Type 0} ⦃n : Number W⦄ where
  log_unknown :
      (i user_id : ℕ) (action : LiveExecutionAction) (status : LiveExecutionStatus)
      (reason : Text W) (w : World W)
      → find_first (has_id i) w.signals ≡ none
      → log i user_id action status reason w ≡ (err foreign_key, w)
  unfolding log
  log_unknown i user_id action status reason w h = ground arith

  reserve_or_block_unknown :
      (env : Env W) (i user_id m : ℕ) (w : World W)
      → find_first (has_id i) w.signals ≡ none
      → let out = reserve_or_block env i user_id m w in
        (out.0 ≡ err foreign_key) × (out.1 ≡ record w { system_config = out.1.system_config })
  unfolding reserve_or_block record_blocked_execution
  reserve_or_block_unknown env i user_id m w h =
      let w1 = (reserve_live_execution env i user_id m w).1 in
      elim (Result-cases (reserve_live_execution env i user_id m w).0) [
        | inl (r, h1) ↦
            let (c, g, a, e, f) = reserve_live_execution_ok env i user_id m w h1 in
            let k = g.candidate.known in absurd (ground arith)
        | inr (e, h1) ↦
            let f = reserve_live_execution_err env i user_id m w h1 in
            let k =
              log_unknown i user_id LiveExecutionAction.blocked LiveExecutionStatus.blocked
                (message e) w1 (subst (λ v. find_first (has_id i) v.signals ≡ none) (sym f) h) in
            (ground arith, ground arith)
      ]

  -- The execution of a signal that is not stored throws the database's foreign-key error in every
  -- state of the settings, hands over no order and writes no log; the request is announced, and its
  -- block is not.
  pub execute_live_from_signal_unknown :
      (env : Env W) (i user_id m : ℕ) (w : World W)
      → find_first (has_id i) w.signals ≡ none
      → let out = execute_live_from_signal env i user_id m w in
        (out.0 ≡ err foreign_key)
        × (out.1 ≡ record w {
          system_config = out.1.system_config;
          events =
              live_execution_requested i user_id (say "Limited live execution requested")
              ∷ w.events;
        })
  unfolding execute_live_from_signal
  execute_live_from_signal_unknown env i user_id m w h =
      let (a, f) = reserve_or_block_unknown env i user_id m (requesting i user_id w) h in
      (ground arith, ground arith)
