-- ===== src/Broker/Frames.antt =====
-- What the calls of the broker service leave alone, and that each is logged.
use trading_backend.Base.{
  ◌==◌, Option-cases, or_default, find_first, ℕ, ◌≡◌, refl, inl, inr, none, some, ◌∷◌, arith,
}
use trading_backend.Broker.{
  to_direction, broker_symbol_of, log_connector_call, place_order_blocked_reason, place_order,
  approved_assessment, supervisor_decision_of, instrument_of, dry_run_order_from_signal,
}
use trading_backend.Number.Interface.{Number}
use trading_backend.Store.Entities.{
  Signal, RiskAssessment, SupervisorDecision, OrderRequest, BrokerConnectionLog,
}
use trading_backend.Store.Enums.{
  TradeDirection, SupervisorDecisionAction, BrokerConnectionStatus, BrokerAction,
}
use trading_backend.Store.Text.{say, message, forbidden}
use trading_backend.Store.World.{
  World, DryRunResponse, Result, Env, Action, value_or, Result-cases, ok, err,
}
use trading_backend.System.{get_config}

module _ {W : Type 0} ⦃n : Number W⦄ where
  -- The tables that a dry run may write are the broker's logs and simulations.
  pub dry_run_order_from_signal_frame :
      (env : Env W) (i : ℕ) (w : World W)
      → let w' = (dry_run_order_from_signal env i w).1 in
        w' ≡ record w {
          broker_logs = w'.broker_logs;
          simulations = w'.simulations;
          dry_runs = w'.dry_runs;
        }
  unfolding dry_run_order_from_signal
  dry_run_order_from_signal_frame env i w = ground arith

  -- the log row of a call, by what it gave
  abbrev pub logged_row : {A : Type 0} → BrokerAction → Result W A → BrokerConnectionLog W
  logged_row action (ok a) = record {
    action = action;
    status = BrokerConnectionStatus.success;
    error_message = none;
  }
  logged_row action (err e) = record {
    action = action;
    status = BrokerConnectionStatus.failed;
    error_message = some (message e);
  }

  -- Every call of the MT5 worker leaves one log row, SUCCESS if it answered and FAILED with the
  -- error's message if it threw; its answer or its throw is passed on, and nothing else is changed.
  pub log_connector_call_logs :
      {A : Type 0} (action : BrokerAction) (call : Action W A) (w : World W)
      → let out = log_connector_call action call w in
        (out.0 ≡ (call w).0)
        × (out.1 ≡ record (call w).1 {
          broker_logs = logged_row action (call w).0 ∷ (call w).1.broker_logs;
        })
  log_connector_call_logs action call w = elim (Result-cases (call w).0) [
    | inl (a, e) ↦ (ground arith, ground arith)
    | inr (x, e) ↦ (ground arith, ground arith)
  ]

  -- `placeOrder` always throws, hands no order to the connector and leaves exactly one log row, of
  -- a failed PLACE_ORDER.
  pub place_order_never_places :
      (env : Env W) (request : OrderRequest W) (w : World W)
      → let out = place_order env request w in
        (out.0 ≡ err (forbidden (say "Forbidden Exception")))
        × (out.1.live_orders ≡ w.live_orders)
        × ((row : BrokerConnectionLog W) × (row.action ≡ BrokerAction.place_order)
            × (row.status ≡ BrokerConnectionStatus.failed)
            × (out.1.broker_logs ≡ row ∷ w.broker_logs))
  unfolding place_order get_config
  place_order_never_places env request w =
      let reason = value_or none (place_order_blocked_reason env w).0 in
      let words = or_default reason (say "Live order placement is not implemented in Sprint 13") in
      (
        ground arith,
        ground arith,
        (
          record {
            action = BrokerAction.place_order;
            status = BrokerConnectionStatus.failed;
            error_message = some words;
          },
          refl,
          refl,
          ground arith,
        ),
      )

  -- A dry run from a signal that answers has handed one order to the connector: the signal exists,
  -- has an approved assessment and an OPERATE decision, and the order has the signal's prices and
  -- the volume of its newest approved assessment.
  pub dry_run_order_from_signal_order :
      (env : Env W) (i : ℕ) (w : World W) {r : DryRunResponse W}
      → (dry_run_order_from_signal env i w).0 ≡ ok r
      → (s : Signal W) × (a : RiskAssessment W) × (d : SupervisorDecision W) × (order : OrderRequest
          W)
        × ((dry_run_order_from_signal env i w).1.dry_runs ≡ order ∷ w.dry_runs)
        × (find_first (λ s. s.id == i) w.signals ≡ some s)
        × (approved_assessment i w ≡ some a)
        × (supervisor_decision_of i w ≡ some d)
        × (d.decision ≡ SupervisorDecisionAction.operate)
        × (order.volume ≡ a.position_size)
        × (order.entry_price ≡ s.entry_price)
        × (order.stop_loss ≡ s.stop_loss)
        × (order.take_profit ≡ s.take_profit)
  unfolding dry_run_order_from_signal
  dry_run_order_from_signal_order env i w h =
      elim (Option-cases (find_first (λ s. s.id == i) w.signals)) [
        | inl e ↦ absurd (ground arith)
        | inr (s, es) ↦ elim (Option-cases (approved_assessment i w)) [
          | inl e ↦ absurd (ground arith)
          | inr (a, ea) ↦ elim (Option-cases (supervisor_decision_of i w)) [
            | inl e ↦ absurd (ground arith)
            | inr (d, ed) ↦ elim (Option-cases (instrument_of s w)) [
              | inl e ↦ absurd (ground arith)
              | inr (place, ep) ↦ (
                s,
                a,
                d,
                record {
                  symbol = broker_symbol_of place;
                  direction = or_default (to_direction s.direction) TradeDirection.buy;
                  volume = a.position_size;
                  entry_price = s.entry_price;
                  stop_loss = s.stop_loss;
                  take_profit = s.take_profit;
                  comment = some "INVERSIONES_DRY_RUN";
                },
                ground arith,
                es,
                ea,
                ed,
                ground arith,
                refl,
                refl,
                refl,
                refl,
              )
            ]
          ]
        ]
      ]
