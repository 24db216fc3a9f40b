-- ===== src/Tests/LiveRuns.antt =====
-- Live executions on the sample state.
use trading_backend.Base.{
  find_first, count_where, ◌≤◌, ◌≡◌, refl, ◌≢◌, ◌⊎◌, some, [], ◌∷◌, map, arith,
}
use trading_backend.Live.{execute_live_from_signal}
use trading_backend.Live.Capped.{IsLimited, execute_live_from_signal_bounded}
use trading_backend.Live.Execution.{IsTraded, execute_live_from_signal_outcome}
use trading_backend.Live.Guard.{
  LiveExecutionContext, is_live_since, default_limits, get_limits, daily_loss,
}
use trading_backend.Live.Invariant.{LiveStep, LiveRun, IsSound, run-IsSound, run-daily_loss}
use trading_backend.Live.Settling.{IsRefused}
use trading_backend.Live.Unknown.{execute_live_from_signal_unknown}
use trading_backend.Live.Validation.{IsExecutable}
use trading_backend.Number.Fixed.{ℤ, fixed_number}
use trading_backend.Number.Interface.{number}
use trading_backend.Store.Entities.{OrderRequest}
use trading_backend.Store.Enums.{SignalStatus, LiveTradeStatus}
use trading_backend.Store.Events.{live_execution_requested}
use trading_backend.Store.Text.{say, foreign_key}
use trading_backend.Store.World.{World, err}
use trading_backend.Tests.Sample.{env, live_ready}

-- the state after one live execution
abbrev live_done : World ℤ
live_done = (execute_live_from_signal env 7 1 5 live_ready).1

live_done-orders :
    (map (λ o. o.symbol) live_done.live_orders ≡ "XAUUSD" ∷ [])
    × (map (λ t. t.status) live_done.live_trades ≡ LiveTradeStatus.executed ∷ [])
    × (map (λ s. s.status) live_done.signals ≡ SignalStatus.live_executed ∷ [])
unfolding execute_live_from_signal
live_done-orders = (refl, refl, refl)

execute_live_from_signal_outcome_example :
    IsRefused live_ready (execute_live_from_signal env 7 1 5 live_ready)
    ⊎ ((c : LiveExecutionContext ℤ) × IsExecutable env 7 1 (some 5) live_ready c
        × IsTraded env 7 live_ready c (execute_live_from_signal env 7 1 5 live_ready))
execute_live_from_signal_outcome_example = execute_live_from_signal_outcome env 7 1 5 live_ready tt

no_live_trade-IsSound : IsSound {W = ℤ} 20 []
unfolding find_first count_where
no_live_trade-IsSound = record {
  numbered = tt;
  one_of_symbol = λ symbol. omega arith;
  one_of_signal = λ i. omega arith;
  none_closed = refl;
}

run-IsSound_example : IsSound live_done.next_id live_done.live_trades
run-IsSound_example =
    run-IsSound (LiveRun.step (LiveStep.execution env 7 1 5 live_ready) (LiveRun.halt live_done))
      no_live_trade-IsSound

run-daily_loss_example : daily_loss 0 live_done ≡ number 0
run-daily_loss_example =
    run-daily_loss 0
      (LiveRun.step (LiveStep.execution env 7 1 5 live_ready) (LiveRun.halt live_done))
      no_live_trade-IsSound

execute_live_from_signal_unknown_example :
    ((execute_live_from_signal env 99 1 5 live_ready).0 ≡ err foreign_key)
    × ((execute_live_from_signal env 99 1 5 live_ready).1 ≡ record live_ready {
      system_config = (execute_live_from_signal env 99 1 5 live_ready).1.system_config;
      events = live_execution_requested 99 1 (say "Limited live execution requested") ∷ [];
    })
unfolding find_first
execute_live_from_signal_unknown_example =
    execute_live_from_signal_unknown env 99 1 5 live_ready refl

live_done-sent : live_done.live_orders ≢ []
unfolding execute_live_from_signal
live_done-sent = ground arith

execute_live_from_signal_bounded_example :
    (o : OrderRequest ℤ) × (live_done.live_orders ≡ o ∷ [])
    × IsLimited default_limits o
    × (count_where (is_live_since 0) live_done.live_trades ≤ 1)
unfolding get_limits
execute_live_from_signal_bounded_example =
    execute_live_from_signal_bounded env 7 1 5 live_ready {l = default_limits} tt refl
      live_done-sent
