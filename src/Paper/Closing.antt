-- ===== src/Paper/Closing.antt =====
-- The closing of a paper trade: its result, the account's balance, and that it happens once.
use trading_backend.Base.{
  ◌==◌, ==→eq, Bool-cases, Option-cases, map_some, find_first, find_many, update_where,
  find_first_passes, find_first-update_where_other, find_first-update_where_self, ℕ, ◌≡◌, refl, sym,
  ap, subst, ◌⊎◌, inl, inr, true, false, ◌&&◌, some, ◌∷◌, arith,
}
use trading_backend.Number.Gain.{gain}
use trading_backend.Number.Interface.{Number, number}
use trading_backend.Paper.{
  find_trade_by_id, profit, result_of, closed_row, write_close, close_trade,
}
use trading_backend.Paper.Account.{
  is_positive, find_account_by_id, update_balance, unrealized, recalculate_account_equity,
}
use trading_backend.Paper.Closed.{
  percent_of, closing_row, IsClosedRow, gain-profit, closing_row-IsClosedRow,
}
use trading_backend.Paper.Opening.{recalculate_account_equity_frame, recalculate_account_equity_ok}
use trading_backend.Store.Entities.{PaperTradingAccount, PaperTrade}
use trading_backend.Store.Enums.{PaperTradeCloseReason, is_opened}
use trading_backend.Store.Events.{paper_trade_closed}
use trading_backend.Store.Text.{say, Exception, bad_request, not_found}
use trading_backend.Store.World.{World, Env, IsBadRequest, ok, err}

module _ {W : Type 0} ⦃n : Number W⦄ where
  open n use {add, column}

  abbrev with_balance : W → PaperTradingAccount W → PaperTradingAccount W
  with_balance x a = record a { balance = column 8 x; equity = column 8 x }

  pub record IsClosable (w : World W) (trade_id : ℕ) (price : W) (t : PaperTrade W)
      (a : PaperTradingAccount W) : Type 0 where
    pub price_positive : is_positive price ≡ true
    pub known : find_first (λ t. t.id == trade_id) w.paper_trades ≡ some t
    pub is_open : is_opened t.status ≡ true
    pub account_known : find_first (λ a. a.id == t.account_id) w.accounts ≡ some a

  -- the checks of a closing
  close_trade_checks :
      (env : Env W) (trade_id : ℕ) (price : W) (reason : PaperTradeCloseReason) (w : World W)
      → ((e : Exception W) × ((close_trade env trade_id price reason w) ≡ (err e, w)))
        ⊎ ((t : PaperTrade W) × (a : PaperTradingAccount W) × IsClosable w trade_id price t a)
  unfolding close_trade find_trade_by_id find_account_by_id
  close_trade_checks env trade_id price reason w = elim (Bool-cases (is_positive price)) [
    | inr e ↦ inl (bad_request (say "Close price must be greater than zero"), ground arith)
    | inl e ↦ elim (Option-cases (find_first (λ t. t.id == trade_id) w.paper_trades)) [
      | inl e1 ↦ inl (not_found (say "Paper trade not found"), ground arith)
      | inr (t, e1) ↦ elim (Bool-cases (is_opened t.status)) [
        | inr e2 ↦ inl (bad_request (say "Only open paper trades can be closed"), ground arith)
        | inl e2 ↦ elim (Option-cases (find_first (λ a. a.id == t.account_id) w.accounts)) [
          | inl e3 ↦ inl (not_found (say "Paper trading account not found"), ground arith)
          | inr (a, e3) ↦
              inr
                (t, a, record { price_positive = e; known = e1; is_open = e2; account_known = e3 })
        ]
      ]
    ]
  ]

  -- `recalculateAccountEquity` writes the balance that it has read.
  recalculate_account_equity_balance :
      (id : ℕ) (w : World W) {a : PaperTradingAccount W}
      → find_first (λ b. b.id == id) w.accounts ≡ some a
      → map_some
          (λ b. b.balance)
          (find_first (λ b. b.id == id) (recalculate_account_equity id w).1.accounts)
        ≡ some (column 8 a.balance)
  unfolding recalculate_account_equity update_balance find_account_by_id
  recalculate_account_equity_balance id w {a} h =
      let same = ==→eq a.id id (find_first_passes (λ b. b.id == id) w.accounts a h) in
      let equity = add a.balance (
        unrealized (number 0)
          (find_many (λ t. t.account_id == id && is_opened t.status) w.paper_trades)) in
      let change : PaperTradingAccount W → PaperTradingAccount W =
        λ b. record b { balance = column 8 a.balance; equity = column 8 equity } in
      let k = find_first-update_where_self (λ b. b.id == id) change w.accounts (λ x e. e) in
      ground arith

  -- After the checks, every write of a closing happens.
  close_trade_writes :
      (env : Env W) (trade_id : ℕ) (price : W) (reason : PaperTradeCloseReason) (w : World W)
      {t : PaperTrade W} {a : PaperTradingAccount W}
      → IsClosable w trade_id price t a
      → let out = close_trade env trade_id price reason w in
        (out.0 ≡ ok (closing_row env price reason a t))
        × (out.1 ≡ record w {
          paper_trades =
              update_where
                (λ t. t.id == trade_id)
                (closed_row env price (profit t price) (percent_of a (profit t price)) reason)
                w.paper_trades;
          accounts = out.1.accounts;
          events =
              paper_trade_closed trade_id (result_of (profit t price)) (profit t price) ∷ w.events;
        })
        × (map_some (λ a. a.balance) (find_first (λ b. b.id == a.id) out.1.accounts)
            ≡ some (column 8 (column 8 (add a.balance (profit t price)))))
  unfolding close_trade find_trade_by_id write_close update_balance find_account_by_id
  close_trade_writes env trade_id price reason w {t} {a} c =
      let same =
        ==→eq t.id trade_id (find_first_passes (λ t. t.id == trade_id) w.paper_trades t c.known) in
      let same1 =
        ==→eq a.id t.account_id
          (find_first_passes (λ a. a.id == t.account_id) w.accounts a c.account_known) in
      let x = add a.balance (profit t price) in
      let v : World W = record w {
        paper_trades =
            update_where (λ t. t.id == trade_id)
              (closed_row env price (profit t price) (percent_of a (profit t price)) reason)
              w.paper_trades;
        accounts = update_where (λ b. b.id == a.id) (with_balance x) w.accounts;
      } in
      let ha : find_first (λ b. b.id == a.id) w.accounts ≡ some a =
        subst (λ x. find_first (λ b. b.id == x) w.accounts ≡ some a) (sym same1) c.account_known in
      let hv : find_first (λ b. b.id == a.id) v.accounts ≡ some (with_balance x a) = rw (
        find_first-update_where_self (λ b. b.id == a.id) (with_balance x) w.accounts (λ x e. e),
        ha,
      ) in
      let f = recalculate_account_equity_frame a.id v in
      let (b, q) = recalculate_account_equity_ok a.id v (ground arith) in
      let bal = recalculate_account_equity_balance a.id v hv in
      (ground arith, ground arith, ground arith)

  pub close_trade_row :
      (env : Env W) (trade_id : ℕ) (price : W) (reason : PaperTradeCloseReason) (w : World W)
      {r : PaperTrade W}
      → let out = close_trade env trade_id price reason w in
        out.0 ≡ ok r
        → (t : PaperTrade W) × (a : PaperTradingAccount W) × IsClosable w trade_id price t a
          × (r ≡ closing_row env price reason a t)
          × (out.1.paper_trades
              ≡ update_where
                  (λ t. t.id == trade_id)
                  (closed_row env price (profit t price) (percent_of a (profit t price)) reason)
                  w.paper_trades)
          × (map_some (λ a. a.balance) (find_first (λ b. b.id == a.id) out.1.accounts)
              ≡ some (column 8 (column 8 (add a.balance (profit t price)))))
          × (out.1.events
              ≡ paper_trade_closed trade_id (result_of (profit t price)) (profit t price)
                ∷ w.events)
  close_trade_row env trade_id price reason w h =
      elim (close_trade_checks env trade_id price reason w) [
        | inl (e, k) ↦ absurd (ground arith)
        | inr (t, a, c) ↦
            let (r, f, b) = close_trade_writes env trade_id price reason w c in
            (t, a, c, ground arith, ground arith, b, ground arith)
      ]

  -- A paper trade that `closeTrade` returns was OPEN, its price positive and its account known. With
  -- the profit (price - entry) * size of a BUY and (entry - price) * size of a SELL: the row found by
  -- the id is closed now, with the price, the profit, WIN, LOSS or BREAKEVEN by the profit's sign and
  -- the reason given; no row of another id changes; the account's balance is its old one plus the
  -- profit, in the column's precision; and the result and the profit are announced.
  pub close_trade_settles :
      (env : Env W) (trade_id : ℕ) (price : W) (reason : PaperTradeCloseReason) (w : World W)
      {r : PaperTrade W}
      → let out = close_trade env trade_id price reason w in
        out.0 ≡ ok r
        → (t : PaperTrade W) × (a : PaperTradingAccount W) × IsClosable w trade_id price t a
          × (let pnl = gain t.direction t.entry_price price t.position_size in
              IsClosedRow env price pnl reason a t r
              × (find_first (λ t. t.id == trade_id) out.1.paper_trades ≡ some r)
              × ((j : ℕ)
                  → (j == trade_id) ≡ false
                  → find_first (λ t. t.id == j) out.1.paper_trades
                    ≡ find_first (λ t. t.id == j) w.paper_trades)
              × (map_some (λ a. a.balance) (find_first (λ b. b.id == a.id) out.1.accounts)
                  ≡ some (column 8 (column 8 (add a.balance pnl))))
              × (out.1.events ≡ paper_trade_closed trade_id r.result pnl ∷ w.events))
  close_trade_settles env trade_id price reason w {r} h =
      let (t, a, c, e, ts, b, es) = close_trade_row env trade_id price reason w h in
      let change = closed_row env price (profit t price) (percent_of a (profit t price)) reason in
      let out = close_trade env trade_id price reason w in
      let same = gain-profit t price in
      let row =
        subst (IsClosedRow env price (profit t price) reason a t) (sym e)
          (closing_row-IsClosedRow env price reason a t) in
      let told : out.1.events ≡ paper_trade_closed trade_id r.result (profit t price) ∷ w.events =
        subst
          (λ (q : PaperTrade W).
            out.1.events ≡ paper_trade_closed trade_id q.result (profit t price) ∷ w.events)
          (sym e) es in
      (
        t,
        a,
        c,
        (
          subst (λ pnl. IsClosedRow env price pnl reason a t r) same row,
          rw
              (
                ts,
                find_first-update_where_self (λ t. t.id == trade_id) change w.paper_trades
                    (λ x e. e),
                c.known,
              )
              (ap some (sym e)),
          λ j other. rw ts (
              find_first-update_where_other (λ t. t.id == j) (λ t. t.id == trade_id) change
                w.paper_trades (λ x k. (ground arith, ground arith))),
          subst
              (λ pnl.
                map_some (λ a. a.balance) (find_first (λ b. b.id == a.id) out.1.accounts)
                ≡ some (column 8 (column 8 (add a.balance pnl))))
              same b,
          subst (λ pnl. out.1.events ≡ paper_trade_closed trade_id r.result pnl ∷ w.events) same
              told,
        ),
      )

  -- A closing that throws has written nothing.
  pub close_trade_atomic :
      (env : Env W) (trade_id : ℕ) (price : W) (reason : PaperTradeCloseReason) (w : World W)
      {e : Exception W}
      → (close_trade env trade_id price reason w).0 ≡ err e
      → (close_trade env trade_id price reason w).1 ≡ w
  close_trade_atomic env trade_id price reason w h =
      elim (close_trade_checks env trade_id price reason w) [
        | inl (e, k) ↦ rw k
        | inr (t, a, c) ↦
            let (r, f, b) = close_trade_writes env trade_id price reason w c in
            absurd (ground arith)
      ]

  closed_refuses :
      (env : Env W) (trade_id : ℕ) (price : W) (reason : PaperTradeCloseReason) (w : World W)
      {t : PaperTrade W}
      → find_first (λ t. t.id == trade_id) w.paper_trades ≡ some t
      → is_opened t.status ≡ false
      → IsBadRequest (close_trade env trade_id price reason w).0
  unfolding close_trade find_trade_by_id
  closed_refuses env trade_id price reason w {t} h k = ground arith

  -- A trade that has been closed is not closed again: whatever price, reason and time the second
  -- call has, it is refused with a bad request.
  pub close_trade_once :
      (env later : Env W) (trade_id : ℕ) (price price' : W) (reason reason' : PaperTradeCloseReason)
      (w : World W) {r : PaperTrade W}
      → (close_trade env trade_id price reason w).0 ≡ ok r
      → IsBadRequest
          (close_trade later trade_id price' reason' (close_trade env trade_id price reason w).1).0
  close_trade_once env later trade_id price price' reason reason' w h =
      let (t, a, c, e, ts, b, es) = close_trade_row env trade_id price reason w h in
      let change = closed_row env price (profit t price) (percent_of a (profit t price)) reason in
      closed_refuses later trade_id price' reason' (close_trade env trade_id price reason w).1
        {t = change t}
        (rw (
          ts,
          find_first-update_where_self (λ t. t.id == trade_id) change w.paper_trades (λ x e. e),
          c.known,
        ))
        refl
