-- ===== src/Broker/Direction.antt =====
-- The direction of the trade or the order of a signal.
use trading_backend.Base.{◌≡◌, ◌⊎◌, some, arith}
use trading_backend.Broker.{to_direction}
use trading_backend.Store.Enums.{SignalDirection, TradeDirection}

-- BUY of BUY, and SELL of SELL
abbrev pub IsDirection : SignalDirection → TradeDirection → Type 0
IsDirection s d =
    ((s ≡ SignalDirection.buy) × (d ≡ TradeDirection.buy))
    ⊎ ((s ≡ SignalDirection.sell) × (d ≡ TradeDirection.sell))

pub to_direction-IsDirection :
    (s : SignalDirection) (d : TradeDirection) → to_direction s ≡ some d → IsDirection s d
to_direction-IsDirection s d h = ground arith
