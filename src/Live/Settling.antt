-- ===== src/Live/Settling.antt =====
-- The steps of `executeLiveFromSignal`: refused without a trace in the trades, or sent once.
use trading_backend.Base.{
  ◌==◌, ==_self, All, find_first, update_where, ℕ, suc, ◌<◌, ◌≡◌, refl, sym, subst, ◌⊎◌, inl, inr,
  true, false, some, List, [], ◌∷◌, arith,
}
use trading_backend.Live.{
  log, order_of, requested_row, executed_row, failed_row, send_order, give_up, reserve_or_block,
  execute_live_from_signal,
}
use trading_backend.Live.Guard.{LiveExecutionContext}
use trading_backend.Live.Reservation.{log_frame, log_ok, reserve_or_block_ok, reserve_or_block_err}
use trading_backend.Live.Sending.{give_up_frame, send_order_cases}
use trading_backend.Live.Validation.{IsExecutable, IsExecutable-events}
use trading_backend.Number.Interface.{Number}
use trading_backend.Signals.{set_status}
use trading_backend.Signals.Status.{has_id}
use trading_backend.Store.Entities.{OrderRequest, LiveOrderResponse, LiveTrade}
use trading_backend.Store.Enums.{SignalStatus, LiveExecutionAction, LiveExecutionStatus}
use trading_backend.Store.Events.{live_execution_requested}
use trading_backend.Store.Text.{say, Exception, message}
use trading_backend.Store.World.{
  World, Result, Env, Action, catch, IsThrow, Result-cases, placed, ok, err,
}

module _ {W : Type 0} where
  -- The ids of the live trades are below the next one.
  abbrev pub IsNumbered : ℕ → List (LiveTrade W) → Type 0
  IsNumbered n ts = All (λ t. t.id < n) ts

  update_where_fresh :
      (id : ℕ) (f : LiveTrade W → LiveTrade W) (ts : List (LiveTrade W))
      → IsNumbered id ts
      → update_where (λ t. t.id == id) f ts ≡ ts
  unfolding update_where
  update_where_fresh id f [] h = refl
  update_where_fresh id f (t ∷ ts) (lt, h) = ground (arith, update_where_fresh id f ts h)

module _ {W : Type 0} ⦃n : Number W⦄ where
  -- An execution that stops before the broker is asked.
  pub record IsRefused {A : Type 0} (w : World W) (out : Result W A × World W) : Type 0 where
    pub throws : IsThrow out.0
    pub no_order : out.1.live_orders ≡ w.live_orders
    pub no_trade : out.1.live_trades ≡ w.live_trades
    pub same_signals : out.1.signals ≡ w.signals
    pub same_id : out.1.next_id ≡ w.next_id

  -- One that hands the order of a context to the broker, by the row of its trade.
  pub record IsSent (env : Env W) (i : ℕ) (w : World W) (c : LiveExecutionContext W)
      (out : Result W (LiveTrade W × LiveOrderResponse W) × World W) (t : LiveTrade W)
      : Type 0 where
    pub one_order : out.1.live_orders ≡ order_of c ∷ w.live_orders
    pub one_trade : out.1.live_trades ≡ t ∷ w.live_trades
    pub next : out.1.next_id ≡ suc w.next_id

  abbrev pub row_of : Env W → ℕ → World W → LiveExecutionContext W → LiveTrade W
  row_of env i w c = requested_row env w.next_id i c.manual_decision.id (order_of c)

  -- executed, with the signal; or failed, with the signal as it was
  abbrev pub IsSettled :
      Env W
      → ℕ
      → World W
      → LiveExecutionContext W
      → Result W (LiveTrade W × LiveOrderResponse W) × World W
      → Type 0
  IsSettled env i w c out =
      ((r : LiveOrderResponse W) × (env.place (order_of c) ≡ ok (placed r))
        × (r.executed ≡ true)
        × (out.0 ≡ ok (executed_row env r (row_of env i w c), r))
        × IsSent env i w c out (executed_row env r (row_of env i w c))
        × (out.1.signals
            ≡ update_where (has_id i) (set_status SignalStatus.live_executed) w.signals))
      ⊎ ((e : Exception W) × (out.0 ≡ err e)
          × ((r : LiveOrderResponse W)
              → env.place (order_of c) ≡ ok (placed r)
              → r.executed ≡ false)
          × IsSent env i w c out (failed_row (message e) (row_of env i w c))
          × (out.1.signals ≡ w.signals))

  -- the call of the broker and what follows it
  abbrev send_or_give_up :
      Env W → ℕ → ℕ → ℕ × OrderRequest W → Action W (LiveTrade W × LiveOrderResponse W)
  send_or_give_up env i user_id r = catch (send_order env i user_id r.0 r.1) (give_up i user_id r.0)

  -- What a reserved state has of the state before.
  record IsReserved (env : Env W) (i : ℕ) (w : World W) (c : LiveExecutionContext W) (v : World W)
      : Type 0 where
    trades : v.live_trades ≡ row_of env i w c ∷ w.live_trades
    orders : v.live_orders ≡ w.live_orders
    signals : v.signals ≡ w.signals
    users : v.users ≡ w.users
    next : v.next_id ≡ suc w.next_id

  -- An update by the new id reaches the new row alone.
  update_where_row :
      (env : Env W) (i : ℕ) (w v : World W) (c : LiveExecutionContext W)
      (f : LiveTrade W → LiveTrade W)
      → IsNumbered w.next_id w.live_trades
      → IsReserved env i w c v
      → update_where (λ t. t.id == w.next_id) f v.live_trades ≡ f (row_of env i w c) ∷ w.live_trades
  unfolding update_where
  update_where_row env i w v c f hf k =
      rw (k.trades, ==_self w.next_id, update_where_fresh w.next_id f w.live_trades hf)

  find_first_row :
      (env : Env W) (i : ℕ) (w v : World W) (c : LiveExecutionContext W)
      → IsReserved env i w c v
      → find_first (λ t. t.id == w.next_id) v.live_trades ≡ some (row_of env i w c)
  unfolding find_first
  find_first_row env i w v c k = rw (k.trades, ==_self w.next_id)

  send_or_give_up_settles :
      (env : Env W) (i user_id : ℕ) (w v : World W) (c : LiveExecutionContext W)
      → IsNumbered w.next_id w.live_trades
      → find_first (has_id i) w.signals ≡ some c.signal
      → find_first (λ u. u.id == user_id) w.users ≡ some c.user
      → IsReserved env i w c v
      → IsSettled env i w c (send_or_give_up env i user_id (w.next_id, order_of c) v)
  send_or_give_up_settles env i user_id w v c hf hs hu k =
      let o = order_of c in
      let v1 = (send_order env i user_id w.next_id o v).1 in
      let ht = find_first_row env i w v c k in
      let hs1 : find_first (has_id i) v.signals ≡ some c.signal = rw k.signals hs in
      let hu1 : find_first (λ u. u.id == user_id) v.users ≡ some c.user = rw k.users hu in
      elim (send_order_cases env i user_id w.next_id o v (ground arith) hs1 hu1 ht) [
        | inl (r, p, x, h, f) ↦
            let g = update_where_row env i w v c (executed_row env r) hf k in
            inl (
              r,
              p,
              x,
              ground arith,
              record {
                one_order = ground (arith, k);
                one_trade = ground (arith, k);
                next = ground (arith, k);
              },
              ground (arith, k),
            )
        | inr (e, h, no_fill, f) ↦
            let g = update_where_row env i w v c (failed_row (message e)) hf k in
            let q =
              give_up_frame i user_id w.next_id e v1
                (subst (λ x. find_first (has_id i) x.signals ≡ some c.signal) (sym f) hs1)
                (subst (λ x. find_first (λ u. u.id == user_id) x.users ≡ some c.user) (sym f) hu1)
                (subst
                  (λ x. find_first (λ t. t.id == w.next_id) x.live_trades ≡ some (row_of env i w c))
                  (sym f) ht) in
            inr (
              e,
              ground (arith, k),
              no_fill,
              record {
                one_order = ground (arith, k);
                one_trade = ground (arith, k);
                next = ground (arith, k);
              },
              ground (arith, k),
            )
      ]

  abbrev pub requesting : ℕ → ℕ → World W → World W
  requesting i user_id w = record w {
    events = live_execution_requested i user_id (say "Limited live execution requested") ∷ w.events;
  }

  abbrev log_sending : ℕ → ℕ → Action W (Unit {0})
  log_sending i user_id =
      log i user_id LiveExecutionAction.place_order LiveExecutionStatus.success
        (say "Sending limited live order to broker")

  execute_continues :
      (env : Env W) (i user_id m : ℕ) (w : World W) {r : ℕ × OrderRequest W}
      → (reserve_or_block env i user_id m (requesting i user_id w)).0 ≡ ok r
      → (log_sending i user_id (reserve_or_block env i user_id m (requesting i user_id w)).1).0
        ≡ ok tt
      → execute_live_from_signal env i user_id m w
        ≡ send_or_give_up env i user_id r
            (log_sending i user_id (reserve_or_block env i user_id m (requesting i user_id w)).1).1
  unfolding execute_live_from_signal
  execute_continues env i user_id m w h q = ground arith

  execute_settles :
      (env : Env W) (i user_id m : ℕ) (w : World W) {r : ℕ × OrderRequest W}
      → IsNumbered w.next_id w.live_trades
      → (reserve_or_block env i user_id m (requesting i user_id w)).0 ≡ ok r
      → (c : LiveExecutionContext W) × IsExecutable env i user_id (some m) w c
        × IsSettled env i w c (execute_live_from_signal env i user_id m w)
  execute_settles env i user_id m w {r} hf h =
      let w0 = requesting i user_id w in
      let w1 = (reserve_or_block env i user_id m w0).1 in
      let (c, g0, e, f) = reserve_or_block_ok env i user_id m w0 h in
      let g = IsExecutable-events env i user_id (some m) w w0.events g0 in
      let v = (log_sending i user_id w1).1 in
      let hs : find_first (has_id i) w1.signals ≡ some c.signal = rw f g.candidate.known in
      let hu : find_first (λ u. u.id == user_id) w1.users ≡ some c.user = rw f g.system.known in
      let q =
        log_ok i user_id LiveExecutionAction.place_order LiveExecutionStatus.success
          (say "Sending limited live order to broker") w1 hs hu in
      let fv =
        log_frame i user_id LiveExecutionAction.place_order LiveExecutionStatus.success
          (say "Sending limited live order to broker") w1 in
      let k : IsReserved env i w c v = record {
        trades = ground (arith, fv, f);
        orders = ground (arith, fv, f);
        signals = ground (arith, fv, f);
        users = ground (arith, fv, f);
        next = ground (arith, fv, f);
      } in
      let settled =
        send_or_give_up_settles env i user_id w v c hf g.candidate.known g.system.known k in
      let sent : IsSettled env i w c (send_or_give_up env i user_id r v) =
        subst (λ r. IsSettled env i w c (send_or_give_up env i user_id r v)) (sym e) settled in
      (c, g, subst (IsSettled env i w c) (sym (execute_continues env i user_id m w h q)) sent)

  pub execute_live_from_signal_cases :
      (env : Env W) (i user_id m : ℕ) (w : World W)
      → IsNumbered w.next_id w.live_trades
      → IsRefused w (execute_live_from_signal env i user_id m w)
        ⊎ ((c : LiveExecutionContext W) × IsExecutable env i user_id (some m) w c
            × IsSettled env i w c (execute_live_from_signal env i user_id m w))
  unfolding execute_live_from_signal
  execute_live_from_signal_cases env i user_id m w hf =
      elim (Result-cases (reserve_or_block env i user_id m (requesting i user_id w)).0) [
        | inl (r, h) ↦ inr (execute_settles env i user_id m w hf h)
        | inr (e, h) ↦
            let (t, o, s, d) = reserve_or_block_err env i user_id m (requesting i user_id w) h in
            inl (record {
              throws = ground arith;
              no_order = ground arith;
              no_trade = ground arith;
              same_signals = ground arith;
              same_id = ground arith;
            })
      ]
