-- ===== src/Number/Gain.antt =====
-- The profit of a trade between its two prices, by which the theorems on trades are stated.
use trading_backend.Number.Interface.{Number}
use trading_backend.Store.Enums.{TradeDirection}

-- (close - entry) * size of a BUY, and (entry - close) * size of a SELL
abbrev pub gain : {W : Type 0} ⦃n : Number W⦄ → TradeDirection → W → W → W → W
gain ⦃n⦄ TradeDirection.buy entry close size = n.mul (n.sub close entry) size
gain ⦃n⦄ TradeDirection.sell entry close size = n.mul (n.sub entry close) size
