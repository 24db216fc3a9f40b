-- ===== src/Paper/Opening.antt =====
-- The opening of a paper trade: its gate, what it writes, and that it writes all of it or nothing.
use trading_backend.Base.{
  leb, ◌==◌, ==→eq, ==_self, Option-cases, some_and, find_first, find_last, update_where,
  find_first_passes, ℕ, suc, ◌≡◌, ◌≢◌, inl, inr, Bool, true, false, ◌&&◌, Option, none, some, List,
  [], ◌∷◌, arith,
}
use trading_backend.Number.Interface.{Number}
use trading_backend.Paper.{
  CheckedOpening, opened_row, create_paper_trade, check_opening, record_opening,
  open_trade_from_signal,
}
use trading_backend.Paper.Account.{
  is_positive, find_account_by_id, update_balance, recalculate_account_equity, resolve_account,
}
use trading_backend.Paper.Checks.{
  is_risk_approval, is_supervisor_approval, check_prices, check_approvals,
}
use trading_backend.Paper.Opened.{IsPriced}
use trading_backend.Signals.{find_by_id, set_status, write_status, update_status}
use trading_backend.Signals.Status.{has_id, id-find_first}
use trading_backend.Store.Entities.{Signal, PaperTradingAccount, PaperTrade}
use trading_backend.Store.Enums.{SignalStatus, TradeDirection, is_opened, is_active}
use trading_backend.Store.Text.{Exception}
use trading_backend.Store.World.{World, Env, Result-cases, ok, err}

module _ {W : Type 0} ⦃n : Number W⦄ where
  -- No trade of the signal and no open one of its instrument, both agents' approvals, and a size.
  pub record IsCleared (env : Env W) (w : World W) (s : Signal W) (size : W) : Type 0 where
    pub untraded : find_first (λ t. some_and (λ x. x == s.id) t.signal_id) w.paper_trades ≡ none
    pub unopened :
        find_first (λ t. t.instrument_id == s.instrument_id && is_opened t.status) w.paper_trades
        ≡ none
    pub risk_approved : find_first (is_risk_approval s.id) w.agent_decisions ≢ none
    pub supervised : find_first (is_supervisor_approval s.id) w.agent_decisions ≢ none
    pub size_positive : is_positive size ≡ true
    pub limit_positive : leb env.config.max_open_trades_per_symbol 0 ≡ false

  check_prices_ready :
      (s : Signal W) (w : World W) {p : TradeDirection × W × W}
      → (check_prices s w).0 ≡ ok p
      → IsPriced s p
  unfolding check_prices
  check_prices_ready s w {p} h = ground arith

  check_approvals_ready :
      (env : Env W) (s : Signal W) (w : World W) {size : W}
      → (check_approvals env s w).0 ≡ ok size
      → IsCleared env w s size
  unfolding check_approvals
  check_approvals_ready env s w {size} h = ground arith

  check_prices_frame : (s : Signal W) (w : World W) → (check_prices s w).1 ≡ w
  unfolding check_prices
  check_prices_frame s w = ground arith

  resolve_account_frame :
      (account_id : Option ℕ) (w : World W) → (resolve_account account_id w).1 ≡ w
  unfolding resolve_account find_account_by_id
  resolve_account_frame account_id w = ground arith

  check_opening_frame :
      (env : Env W) (i : ℕ) (account_id : Option ℕ) (w : World W)
      → (check_opening env i account_id w).1 ≡ w
  unfolding check_opening find_by_id check_prices resolve_account find_account_by_id check_approvals
  check_opening_frame env i account_id w = ground arith

  find_last-known :
      (p : PaperTradingAccount W → Bool) (xs : List (PaperTradingAccount W))
      {a : PaperTradingAccount W}
      → find_last p xs ≡ some a
      → find_first (λ b. b.id == a.id) xs ≢ none
  unfolding find_last find_first
  find_last-known p [] h = absurd (ground arith)
  find_last-known p (x ∷ xs) {a} h = elim (Option-cases (find_last p xs)) [
    | inr (b, e) ↦ ground (arith, find_last-known p xs e)
    | inl e ↦ ground (arith, ==_self a.id)
  ]

  find_first-known :
      (i : ℕ) (xs : List (PaperTradingAccount W)) {a : PaperTradingAccount W}
      → find_first (λ b. b.id == i) xs ≡ some a
      → find_first (λ b. b.id == a.id) xs ≢ none
  unfolding find_first
  find_first-known i [] h = absurd (ground arith)
  find_first-known i (x ∷ xs) {a} h = ground (arith, ==_self a.id, find_first-known i xs {a = a})

  resolve_account_known :
      (account_id : Option ℕ) (w : World W) {a : PaperTradingAccount W}
      → (resolve_account account_id w).0 ≡ ok a
      → find_first (λ b. b.id == a.id) w.accounts ≢ none
  unfolding resolve_account find_account_by_id
  resolve_account_known (some i) w {a} h = find_first-known i w.accounts {a = a} (ground arith)
  resolve_account_known none w {a} h =
      find_last-known (λ a. is_active a.status) w.accounts {a = a} (ground arith)

  -- Everything that the checks of an opening have seen.
  pub record IsOpenable (env : Env W) (i : ℕ) (w : World W) (o : CheckedOpening W) : Type 0 where
    pub enabled : env.config.paper_trading_enabled ≡ true
    pub known : find_first (has_id i) w.signals ≡ some o.signal
    pub priced : IsPriced o.signal o.prices
    pub account_active : is_active o.account.status ≡ true
    pub account_known : find_first (λ b. b.id == o.account.id) w.accounts ≢ none
    pub cleared : IsCleared env w o.signal o.size

  check_opening_ready :
      (env : Env W) (i : ℕ) (account_id : Option ℕ) (w : World W) {o : CheckedOpening W}
      → (check_opening env i account_id w).0 ≡ ok o
      → IsOpenable env i w o
  unfolding check_opening find_by_id
  check_opening_ready env i account_id w {o} h =
      elim (Option-cases (find_first (has_id i) w.signals)) [
        | inl e ↦ absurd (ground arith)
        | inr (s, e) ↦
            let f = check_prices_frame s w in
            let g = resolve_account_frame account_id w in
            elim (Result-cases (check_prices s w).0) [
              | inr (x, h1) ↦ absurd (ground arith)
              | inl (p, h1) ↦ elim (Result-cases (resolve_account account_id w).0) [
                | inr (x, h2) ↦ absurd (ground arith)
                | inl (a, h2) ↦ elim (Result-cases (check_approvals env s w).0) [
                  | inr (x, h3) ↦ absurd (ground arith)
                  | inl (z, h3) ↦
                      let e1 : o ≡ record { signal = s; prices = p; account = a; size = z } =
                        ground arith in
                      rw e1 (record {
                        enabled = ground arith;
                        known = e;
                        priced = check_prices_ready s w h1;
                        account_active = ground arith;
                        account_known = resolve_account_known account_id w h2;
                        cleared = check_approvals_ready env s w h3;
                      })
                ]
              ]
            ]
      ]

  -- The accounts alone change in `recalculateAccountEquity`, which cannot fail for a known account.
  pub recalculate_account_equity_frame :
      (id : ℕ) (w : World W)
      → let out = recalculate_account_equity id w in out.1 ≡ record w { accounts = out.1.accounts }
  unfolding recalculate_account_equity find_account_by_id update_balance
  recalculate_account_equity_frame id w = ground arith

  pub recalculate_account_equity_ok :
      (id : ℕ) (w : World W)
      → find_first (λ b. b.id == id) w.accounts ≢ none
      → (b : PaperTradingAccount W) × ((recalculate_account_equity id w).0 ≡ ok b)
  unfolding recalculate_account_equity find_account_by_id update_balance
  recalculate_account_equity_ok id w h =
      elim (Option-cases (find_first (λ b. b.id == id) w.accounts)) [
        | inl e ↦ absurd (h e)
        | inr (a, e) ↦
            let same = ==→eq a.id id (find_first_passes (λ b. b.id == id) w.accounts a e) in
            elim (Result-cases (recalculate_account_equity id w).0) [
              | inl q ↦ q
              | inr (x, q) ↦ absurd (ground arith)
            ]
      ]

  -- The writes of an opening whose signal and account are there all happen.
  record_opening_writes :
      (env : Env W) (i : ℕ) (o : CheckedOpening W) (w : World W)
      → find_first (has_id i) w.signals ≡ some o.signal
      → find_first (λ b. b.id == o.account.id) w.accounts ≢ none
      → let t = opened_row env w.next_id o.signal o.account.id o.prices o.size in
        let out = record_opening env o w in
        (out.0 ≡ ok t)
        × (out.1 ≡ record w {
          next_id = suc w.next_id;
          paper_trades = t ∷ w.paper_trades;
          accounts = out.1.accounts;
          signals = update_where (has_id i) (set_status SignalStatus.executed_paper) w.signals;
          events = out.1.events;
        })
  unfolding record_opening create_paper_trade update_status write_status find_by_id
  record_opening_writes env i o w hs ha =
      let t = opened_row env w.next_id o.signal o.account.id o.prices o.size in
      let v : World W = record w { next_id = suc w.next_id; paper_trades = t ∷ w.paper_trades } in
      let f = recalculate_account_equity_frame o.account.id v in
      let (b, q) = recalculate_account_equity_ok o.account.id v ha in
      let same = id-find_first i w.signals hs in (ground arith, ground arith)

  pub open_trade_from_signal_row :
      (env : Env W) (i : ℕ) (account_id : Option ℕ) (w : World W) {t : PaperTrade W}
      → let out = open_trade_from_signal env i account_id w in
        out.0 ≡ ok t
        → (o : CheckedOpening W) × IsOpenable env i w o
          × (t ≡ opened_row env w.next_id o.signal o.account.id o.prices o.size)
          × (out.1.paper_trades ≡ t ∷ w.paper_trades)
          × (out.1.signals
              ≡ update_where (has_id i) (set_status SignalStatus.executed_paper) w.signals)
          × (out.1.next_id ≡ suc w.next_id)
  unfolding open_trade_from_signal
  open_trade_from_signal_row env i account_id w h =
      let f = check_opening_frame env i account_id w in
      elim (Result-cases (check_opening env i account_id w).0) [
        | inr (e, h1) ↦ absurd (ground arith)
        | inl (o, h1) ↦
            let g = check_opening_ready env i account_id w h1 in
            let (r, s) = record_opening_writes env i o w g.known g.account_known in
            (o, g, ground arith, ground arith, ground arith, ground arith)
      ]

  -- An opening that throws has written nothing.
  pub open_trade_from_signal_atomic :
      (env : Env W) (i : ℕ) (account_id : Option ℕ) (w : World W) {e : Exception W}
      → (open_trade_from_signal env i account_id w).0 ≡ err e
      → (open_trade_from_signal env i account_id w).1 ≡ w
  unfolding open_trade_from_signal
  open_trade_from_signal_atomic env i account_id w h =
      let f = check_opening_frame env i account_id w in
      elim (Result-cases (check_opening env i account_id w).0) [
        | inr (e, h1) ↦ ground arith
        | inl (o, h1) ↦
            let g = check_opening_ready env i account_id w h1 in
            let (r, s) = record_opening_writes env i o w g.known g.account_known in
            absurd (ground arith)
      ]
