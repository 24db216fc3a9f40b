-- ===== src/Live/Sending.antt =====
-- Sending a reserved order: the trade of an order that is sent ends EXECUTED or FAILED.
use trading_backend.Base.{
  ◌==◌, Bool-cases, find_first, update_where, ℕ, ◌≡◌, ◌≢◌, ◌⊎◌, inl, inr, true, false, none, some,
  ◌∷◌, arith,
}
use trading_backend.Broker.{place_live_order}
use trading_backend.Live.{log, executed_row, failed_row, update_live_trade, send_order, give_up}
use trading_backend.Number.Interface.{Number}
use trading_backend.Signals.{set_status, write_status}
use trading_backend.Signals.Status.{has_id}
use trading_backend.Store.Entities.{User, Signal, OrderRequest, LiveOrderResponse, LiveTrade}
use trading_backend.Store.Enums.{SignalStatus}
use trading_backend.Store.Events.{live_execution_failed}
use trading_backend.Store.Text.{say, Exception, message, bad_request}
use trading_backend.Store.World.{World, Env, Result-cases, placed, ok, err}

module _ {W : Type 0} ⦃n : Number W⦄ where
  -- An order with a comment of its own is handed over as it is, once.
  pub place_live_order_frame :
      (env : Env W) (order : OrderRequest W) (w : World W)
      → order.comment ≢ none
      → let w' = (place_live_order env order w).1 in
        w' ≡ record w { broker_logs = w'.broker_logs; live_orders = order ∷ w.live_orders }
  unfolding place_live_order
  place_live_order_frame env order w h = ground arith

  pub place_live_order_ok :
      (env : Env W) (order : OrderRequest W) (w : World W) {r : LiveOrderResponse W}
      → order.comment ≢ none
      → (place_live_order env order w).0 ≡ ok r
      → env.place order ≡ ok (placed r)
  unfolding place_live_order
  place_live_order_ok env order w h k = ground arith

  -- An order that the broker's answer accepts does not fail.
  place_live_order_placed :
      (env : Env W) (order : OrderRequest W) (w : World W) {r : LiveOrderResponse W}
      {e : Exception W}
      → order.comment ≢ none
      → env.place order ≡ ok (placed r)
      → (place_live_order env order w).0 ≢ err e
  unfolding place_live_order
  place_live_order_placed env order w h p k = ground arith

  pub give_up_frame :
      (i user_id id : ℕ) (e : Exception W) (w : World W) {s : Signal W} {u : User} {t : LiveTrade W}
      → find_first (has_id i) w.signals ≡ some s
      → find_first (λ u. u.id == user_id) w.users ≡ some u
      → find_first (λ t. t.id == id) w.live_trades ≡ some t
      → let out = give_up {A = LiveTrade W × LiveOrderResponse W} i user_id id e w in
        (out.0 ≡ err e)
        × (out.1 ≡ record w {
          live_logs = out.1.live_logs;
          live_trades = update_where (λ t. t.id == id) (failed_row (message e)) w.live_trades;
          events = live_execution_failed i user_id (message e) ∷ w.events;
        })
  unfolding give_up log update_live_trade
  give_up_frame i user_id id e w hs hu ht = ground arith

  -- The three ways in which the sending of an order ends: it is executed, refused by the broker's
  -- answer, or the call has thrown.
  pub send_order_cases :
      (env : Env W) (i user_id id : ℕ) (order : OrderRequest W) (w : World W) {s : Signal W}
      {u : User} {t : LiveTrade W}
      → order.comment ≢ none
      → find_first (has_id i) w.signals ≡ some s
      → find_first (λ u. u.id == user_id) w.users ≡ some u
      → find_first (λ t. t.id == id) w.live_trades ≡ some t
      → let out = send_order env i user_id id order w in
        ((r : LiveOrderResponse W) × (env.place order ≡ ok (placed r))
          × (r.executed ≡ true)
          × (out.0 ≡ ok (executed_row env r t, r))
          × (out.1 ≡ record w {
            broker_logs = out.1.broker_logs;
            live_logs = out.1.live_logs;
            live_orders = order ∷ w.live_orders;
            live_trades = update_where (λ t. t.id == id) (executed_row env r) w.live_trades;
            signals = update_where (has_id i) (set_status SignalStatus.live_executed) w.signals;
            events = out.1.events;
          }))
        ⊎ ((e : Exception W) × (out.0 ≡ err e)
            × ((r : LiveOrderResponse W) → env.place order ≡ ok (placed r) → r.executed ≡ false)
            × (out.1 ≡ record w {
              broker_logs = out.1.broker_logs;
              live_logs = out.1.live_logs;
              live_orders = order ∷ w.live_orders;
            }))
  unfolding send_order log update_live_trade write_status
  send_order_cases env i user_id id order w hc hs hu ht =
      let f = place_live_order_frame env order w hc in
      elim (Result-cases (place_live_order env order w).0) [
        | inr (e, h) ↦ inr (
          e,
          ground arith,
          (λ r p. absurd (place_live_order_placed env order w hc p h)),
          ground arith,
        )
        | inl (r, h) ↦
            let k = place_live_order_ok env order w hc h in
            elim (Bool-cases r.executed) [
              | inl x ↦ inl (r, k, x, ground arith, ground arith)
              | inr x ↦ inr (
                bad_request (say "Broker did not execute limited live order"),
                ground arith,
                (λ q p. ground arith),
                ground arith,
              )
            ]
      ]
