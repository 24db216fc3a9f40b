-- ===== src/Paper/Opened.antt =====
-- The row of a paper trade that is opened, column by column.
use trading_backend.Base.{map_some, ℕ, ◌≡◌, refl, true, none, some}
use trading_backend.Broker.{to_direction}
use trading_backend.Broker.Direction.{IsDirection, to_direction-IsDirection}
use trading_backend.Number.Interface.{Number}
use trading_backend.Paper.{CheckedOpening, opened_row}
use trading_backend.Paper.Account.{is_positive}
use trading_backend.Paper.Checks.{can_open}
use trading_backend.Store.Entities.{Signal, PaperTrade}
use trading_backend.Store.Enums.{TradeDirection, PaperTradeStatus}
use trading_backend.Store.World.{Env}

module _ {W : Type 0} ⦃n : Number W⦄ where
  open n use {column}

  pub record IsPriced (s : Signal W) (prices : TradeDirection × W × W) : Type 0 where
    pub openable : can_open s.status ≡ true
    pub directed : to_direction s.direction ≡ some prices.0
    pub has_stop : s.stop_loss ≡ some prices.1
    pub has_target : s.take_profit ≡ some prices.2
    pub entry_positive : is_positive s.entry_price ≡ true
    pub stop_positive : is_positive prices.1 ≡ true
    pub target_positive : is_positive prices.2 ≡ true

  -- The row of an opening, by the columns of the signal.
  pub record IsOpenedRow (env : Env W) (id : ℕ) (o : CheckedOpening W) (t : PaperTrade W)
      : Type 0 where
    pub new_id : t.id ≡ id
    pub of_account : t.account_id ≡ o.account.id
    pub of_signal : t.signal_id ≡ some o.signal.id
    pub of_instrument : t.instrument_id ≡ o.signal.instrument_id
    pub same_direction : IsDirection o.signal.direction t.direction
    pub entry_at : t.entry_price ≡ column 8 o.signal.entry_price
    pub stop_at : t.stop_loss ≡ map_some (column 8) o.signal.stop_loss
    pub target_at : t.take_profit ≡ map_some (column 8) o.signal.take_profit
    pub sized : t.position_size ≡ column 8 o.size
    pub starts_open : t.status ≡ PaperTradeStatus.opened
    pub starts_now : t.opened_at ≡ env.now
    pub not_closed : t.closed_at ≡ none
    pub no_profit : t.pnl ≡ none

  pub opened_row-IsOpenedRow :
      (env : Env W) (id : ℕ) (o : CheckedOpening W)
      → IsPriced o.signal o.prices
      → IsOpenedRow env id o (opened_row env id o.signal o.account.id o.prices o.size)
  opened_row-IsOpenedRow env id o p = record {
    new_id = refl;
    of_account = refl;
    of_signal = refl;
    of_instrument = refl;
    same_direction = to_direction-IsDirection o.signal.direction o.prices.0 p.directed;
    entry_at = refl;
    stop_at = rw p.has_stop refl;
    target_at = rw p.has_target refl;
    sized = refl;
    starts_open = refl;
    starts_now = refl;
    not_closed = refl;
    no_profit = refl;
  }
