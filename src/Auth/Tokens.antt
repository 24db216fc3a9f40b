-- ===== src/Auth/Tokens.antt =====
-- The table of refresh tokens under the service's two updates: revoked rows stay revoked.
use trading_backend.Base.{
  ◌==◌, Option-cases, is_some, find_first, update_where, ℕ, ◌<◌, ◌≡◌, refl, inl, inr, true, Option,
  none, some, List, [], ◌∷◌, arith,
}
use trading_backend.Auth.{
  revoke_refresh_token, replace_token, live_token, token_row, create_refresh_session, open_session,
}
use trading_backend.Auth.Schema.{
  RefreshToken, AuthStore, JwtUser, Crypto, AuthConfig, Instant, unrevoked_token, revoked_row,
}

module _ {S : Type 0} where
  -- No row of the id is unrevoked, and none will be created: ids grow.
  abbrev pub IsSpent : ℕ → AuthStore S → Type 0
  IsSpent id s = (id < s.next_id) × (find_first (unrevoked_token id) s.tokens ≡ none)

  pub revoke-none :
      (id : ℕ) (f : RefreshToken S → RefreshToken S) (ts : List (RefreshToken S))
      → ((t : RefreshToken S) → is_some (f t).revoked_at ≡ true)
      → find_first (unrevoked_token id) (update_where (unrevoked_token id) f ts) ≡ none
  unfolding find_first update_where
  revoke-none id f [] h = refl
  revoke-none id f (t ∷ ts) h = ground (arith, h t, revoke-none id f ts h)

  pub revoke_other-none :
      (id other : ℕ) (f : RefreshToken S → RefreshToken S) (ts : List (RefreshToken S))
      → ((t : RefreshToken S) → is_some (f t).revoked_at ≡ true)
      → find_first (unrevoked_token id) ts ≡ none
      → find_first (unrevoked_token id) (update_where (unrevoked_token other) f ts) ≡ none
  unfolding find_first update_where
  revoke_other-none id other f [] r h = refl
  revoke_other-none id other f (t ∷ ts) r h = ground (arith, r t, revoke_other-none id other f ts r)

  pub live_row :
      (id : ℕ) (ts : List (RefreshToken S)) (t : RefreshToken S)
      → find_first (λ r. r.id == id) ts ≡ some t
      → find_first (unrevoked_token id) ts ≡ none
      → is_some t.revoked_at ≡ true
  unfolding find_first
  live_row id [] t h k = absurd (cc)
  live_row id (r ∷ ts) t h k = ground (arith, live_row id ts t)

  -- a spent id is refused
  pub live_token-spent :
      (at : Instant) (id : ℕ) (s : AuthStore S) → IsSpent id s → live_token at id s ≡ none
  live_token-spent at id s (h, k) = elim (Option-cases (find_first (λ r. r.id == id) s.tokens)) [
    | inl e ↦ ground arith
    | inr (t, e) ↦ let r = live_row id s.tokens t e k in ground arith
  ]

  pub revoke-IsSpent :
      (at : Instant) (other id : ℕ) (s : AuthStore S)
      → IsSpent id s
      → IsSpent id (revoke_refresh_token at other s)
  unfolding revoke_refresh_token
  revoke-IsSpent at other id s (h, k) = (h, revoke_other-none id other _ s.tokens (λ t. refl) k)

module _ {S : Type 0} (crypto : Crypto S) (config : AuthConfig S) where
  create-IsSpent :
      (at : Instant) (user : JwtUser) (previous : Option ℕ) (id : ℕ) (s : AuthStore S)
      → IsSpent id s
      → IsSpent id (create_refresh_session crypto config at user previous s).1
  unfolding create_refresh_session replace_token find_first
  create-IsSpent at user none id s (h, k) = (ground arith, ground arith)
  create-IsSpent at user (some other) id s (h, k) =
      let row = token_row crypto config at user s.next_id in
      let unspent : find_first (unrevoked_token id) (row ∷ s.tokens) ≡ none = ground arith in
      (
        ground arith,
        revoke_other-none id other (revoked_row at.now (some s.next_id)) (row ∷ s.tokens)
            (λ t. refl) unspent,
      )

  pub open-IsSpent :
      (at : Instant) (user : JwtUser) (previous : Option ℕ) (id : ℕ) (s : AuthStore S)
      → IsSpent id s
      → IsSpent id (open_session crypto config at user previous s).1
  unfolding create_refresh_session
  open-IsSpent at user previous id s h = create-IsSpent at user previous id s h
