-- ===== src/Signals/Status.antt =====
-- What a write to a signal's status changes.
use trading_backend.Base.{
  ◌==◌, ==→eq, find_first, update_where, find_first_passes, find_first-update_where_other,
  find_first-update_where_self, ℕ, ◌≡◌, ◌≢◌, Bool, some, List, arith,
}
use trading_backend.Signals.{set_status}
use trading_backend.Store.Entities.{Signal}
use trading_backend.Store.Enums.{SignalStatus}

module _ {W : Type 0} where
  abbrev pub has_id : ℕ → Signal W → Bool
  has_id i s = s.id == i

  pub find_first-set_status :
      (i : ℕ) (status : SignalStatus) (ss : List (Signal W)) {s : Signal W}
      → find_first (has_id i) ss ≡ some s
      → find_first (has_id i) (update_where (has_id i) (set_status status) ss)
        ≡ some (set_status status s)
  find_first-set_status i status ss h =
      rw (find_first-update_where_self (has_id i) (set_status status) ss (λ x e. e), h)

  pub find_first-set_status_ne :
      (i j : ℕ) (status : SignalStatus) (ss : List (Signal W))
      → i ≢ j
      → find_first (has_id j) (update_where (has_id i) (set_status status) ss)
        ≡ find_first (has_id j) ss
  find_first-set_status_ne i j status ss ne =
      find_first-update_where_other (has_id j) (has_id i) (set_status status) ss
        (λ x e. ground arith)

  -- A signal that is found under an id has that id.
  pub id-find_first :
      (i : ℕ) (ss : List (Signal W)) {s : Signal W} → find_first (has_id i) ss ≡ some s → s.id ≡ i
  id-find_first i ss {s} h = ==→eq _ _ (find_first_passes (has_id i) ss s h)
