-- ===== src/Signals.antt =====
-- src/modules/signals: SignalsService over its Prisma repository.
pub mod Status
use trading_backend.Base.{
  ◌==◌, is_some, some_and, find_first, update_where, ℕ, Bool, ◌&&◌, Option, some, ◌∷◌,
}
use trading_backend.Store.Entities.{Signal}
use trading_backend.Store.Enums.{Timeframe, SignalStatus, is_same_timeframe}
use trading_backend.Store.Events.{signal_created, signal_status_updated}
use trading_backend.Store.Text.{say, not_found, conflict, record_not_found}
use trading_backend.Store.World.{
  World, Action, ◌>>=◌, ◌>>◌, pure, throw_if, gets, modify, or_throw, emit, fresh,
}

module _ {W : Type 0} where
  -- `findById`
  unfoldable pub find_by_id : ℕ → Action W (Signal W)
  unfolding find_first
  find_by_id id = do
    row ← gets (λ w. find_first (λ s. s.id == id) w.signals)
    or_throw row (not_found (say "Signal not found"))

  abbrev pub set_status : SignalStatus → Signal W → Signal W
  set_status status s = record s { status = status }

  -- `tradingSignal.update({ where: { id }, data: { status } })`
  unfoldable pub write_status : ℕ → SignalStatus → Action W (Signal W)
  unfolding find_first update_where
  write_status id status = do
    row ← gets (λ w. find_first (λ s. s.id == id) w.signals)
    signal ← or_throw row record_not_found
    modify λ w. record w { signals = update_where (λ s. s.id == id) (set_status status) w.signals }
    pure (set_status status signal)

  -- `updateStatus`
  unfoldable pub update_status : ℕ → SignalStatus → Action W (Signal W)
  unfolding find_by_id write_status
  update_status id status = do
    found ← find_by_id id
    signal ← write_status id status
    emit (signal_status_updated signal.id signal.status)
    pure signal

  -- the unique key of `trading_signals`; a null in a column of it equals nothing
  abbrev pub has_candle_key : ℕ → Timeframe → ℕ → Signal W → Bool
  has_candle_key instrument_id timeframe timestamp s =
      s.instrument_id == instrument_id
      && some_and (is_same_timeframe timeframe) s.timeframe
      && some_and (λ t. t == timestamp) s.candle_timestamp

  -- `findByCandleKey`
  abbrev pub find_by_candle_key : ℕ → Timeframe → ℕ → World W → Option (Signal W)
  find_by_candle_key instrument_id timeframe timestamp w =
      find_first (has_candle_key instrument_id timeframe timestamp) w.signals

  -- `create`: the repository's insert, whose violated unique key is a conflict, then the event
  unfoldable pub create : ℕ → Timeframe → ℕ → (ℕ → Signal W) → Action W (Signal W)
  unfolding find_first
  create instrument_id timeframe timestamp row_at = do
    existing ← gets (find_by_candle_key instrument_id timeframe timestamp)
    throw_if (is_some existing)
        (conflict (say "Signal already exists for instrument/timeframe/candle"))
    id ← fresh
    modify λ w. record w { signals = row_at id ∷ w.signals }
    emit (signal_created id instrument_id (some timeframe))
    pure (row_at id)
