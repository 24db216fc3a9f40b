-- ===== src/Paper/Account.antt =====
-- The paper trading accounts: `createAccount`, the balance and the equity.
use trading_backend.Base.{
  ◌==◌, or_default, is_some, find_first, find_last, find_many, update_where, ℕ, String, Bool, ◌&&◌,
  Option, none, some, List, [], ◌∷◌, str_eq,
}
use trading_backend.Number.Interface.{Number, number}
use trading_backend.Store.Entities.{PaperTradingAccount, PaperTrade}
use trading_backend.Store.Enums.{PaperTradingAccountStatus, is_opened, is_active}
use trading_backend.Store.Text.{say, bad_request, not_found, record_not_found, unique_violation}
use trading_backend.Store.World.{
  Action, ◌>>=◌, ◌>>◌, pure, throw_if, throw_unless, gets, modify, or_throw, fresh,
}

module _ {W : Type 0} ⦃n : Number W⦄ where
  open n use {add, lt, is_finite, column}

  -- `isPositive`
  abbrev pub is_positive : W → Bool
  is_positive x = is_finite x && lt (number 0) x

  -- `createAccount`; names are unique.
  unfoldable pub create_account : String → W → Option String → Action W (PaperTradingAccount W)
  unfolding find_first
  create_account name initial currency = do
    throw_unless (is_positive initial)
        (bad_request (say "Initial balance must be greater than zero"))
    taken ← gets λ w. find_first (λ a. str_eq a.name name) w.accounts
    throw_if (is_some taken) unique_violation
    id ← fresh
    let row : PaperTradingAccount W = record {
      id = id;
      name = name;
      initial_balance = column 8 initial;
      balance = column 8 initial;
      equity = column 8 initial;
      currency = or_default currency "USD";
      status = PaperTradingAccountStatus.active;
    }
    modify λ w. record w { accounts = row ∷ w.accounts }
    pure row

  -- `findAccountById`
  unfoldable pub find_account_by_id : ℕ → Action W (PaperTradingAccount W)
  unfolding find_first
  find_account_by_id id = do
    row ← gets λ w. find_first (λ a. a.id == id) w.accounts
    or_throw row (not_found (say "Paper trading account not found"))

  -- `updateBalance` of the repository
  unfoldable pub update_balance : ℕ → W → W → Action W (PaperTradingAccount W)
  unfolding find_first update_where
  update_balance id balance equity = do
    row ← gets λ w. find_first (λ a. a.id == id) w.accounts
    account ← or_throw row record_not_found
    let change : PaperTradingAccount W → PaperTradingAccount W =
        λ a. record a { balance = column 8 balance; equity = column 8 equity }
    modify λ w. record w { accounts = update_where (λ a. a.id == id) change w.accounts }
    pure (change account)

  -- the sum of `recalculateAccountEquity`
  unfoldable pub unrealized : W → List (PaperTrade W) → W
  unrealized total [] = total
  unrealized total (t ∷ ts) = unrealized (add total (or_default t.pnl (number 0))) ts

  -- `recalculateAccountEquity`
  unfoldable pub recalculate_account_equity : ℕ → Action W (PaperTradingAccount W)
  unfolding find_account_by_id find_many unrealized update_balance
  recalculate_account_equity id = do
    account ← find_account_by_id id
    trades ← gets λ w. find_many (λ t. t.account_id == id && is_opened t.status) w.paper_trades
    update_balance account.id account.balance (add account.balance (unrealized (number 0) trades))

  -- the account that is named, or `getDefaultActiveAccount`: the oldest active one
  unfoldable pub resolve_account : Option ℕ → Action W (PaperTradingAccount W)
  unfolding find_account_by_id find_last
  resolve_account id = elim id [
    | some i ↦ find_account_by_id i
    | none ↦ do
      row ← gets λ w. find_last (λ a. is_active a.status) w.accounts
      or_throw row (not_found (say "Active paper trading account not found"))
  ]
