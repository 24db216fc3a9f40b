-- ===== src/Auth/Sessions.antt =====
-- What `refresh` needs to succeed, and the session that it gives.
use trading_backend.Base.{
  ◌==◌, Bool-cases, Option-cases, ℕ, ◌≡◌, refl, inl, inr, true, false, some, arith,
}
use trading_backend.Auth.{
  active_user, live_token, create_refresh_session, open_session, match_hash, check_refresh,
  refresh_session, refresh,
}
use trading_backend.Auth.Schema.{
  AuthUser, RefreshToken, AuthStore, JwtUser, Claims, Crypto, AuthConfig, Instant, Session,
  jwt_user, invalid_refresh_token, refresh_id,
}
use trading_backend.Store.Actions.{>>=_ok, catch_ok, >>=_eq, catch_eq}
use trading_backend.Store.World.{throw, ok}

module _ {S : Type 0} (crypto : Crypto S) (config : AuthConfig S) where
  open crypto use {verify, compare}

  -- The token is a live refresh token of an active user.
  abbrev pub IsGood : Instant → S → AuthStore S → Claims → RefreshToken S → AuthUser S → Type 0
  IsGood at token s c t u =
      (verify config.refresh_secret false at.now token ≡ some c)
      × (i : ℕ) × (refresh_id c ≡ some i)
      × (live_token at i s ≡ some t)
      × (compare token t.token_hash ≡ true)
      × (active_user (λ u. u.id == c.user.sub) s ≡ some u)

  pub check_refresh-IsGood :
      (at : Instant) (token : S) (s : AuthStore S) (c : Claims) (t : RefreshToken S)
      (u : AuthUser S)
      → IsGood at token s c t u
      → check_refresh crypto config at token s ≡ (ok (jwt_user u, t.id), s)
  unfolding check_refresh match_hash
  check_refresh-IsGood at token s c t u (e, i, e1, e2, q, e3) =
      rw (check_refresh, e, e1, e2, match_hash, q, e3) refl

  pub IsGood-of :
      (at : Instant) (token : S) (s : AuthStore S) {x : JwtUser × ℕ}
      → (check_refresh crypto config at token s).0 ≡ ok x
      → (c : Claims) × (t : RefreshToken S) × (u : AuthUser S) × IsGood at token s c t u
  unfolding check_refresh match_hash
  IsGood-of at token s h = elim (Option-cases (verify config.refresh_secret false at.now token)) [
    | inl e ↦ absurd (ground arith)
    | inr (c, e) ↦ elim (Option-cases (refresh_id c)) [
      | inl e1 ↦ absurd (ground arith)
      | inr (j, e1) ↦ elim (Option-cases (live_token at j s)) [
        | inl e2 ↦ absurd (ground arith)
        | inr (t, e2) ↦ elim (Bool-cases (compare token t.token_hash)) [
          | inr q ↦ absurd (ground arith)
          | inl q ↦ elim (Option-cases (active_user (λ u. u.id == c.user.sub) s)) [
            | inl e3 ↦ absurd (ground arith)
            | inr (u, e3) ↦ (c, t, u, (e, j, e1, e2, q, e3))
          ]
        ]
      ]
    ]
  ]

  -- A refresh of such a token opens the user's next session, and replaces the token.
  pub refresh-IsGood :
      (at : Instant) (token : S) (s : AuthStore S) (c : Claims) (t : RefreshToken S)
      (u : AuthUser S)
      → IsGood at token s c t u
      → refresh crypto config at token s ≡ open_session crypto config at (jwt_user u) (some t.id) s
  unfolding refresh create_refresh_session
  refresh-IsGood at token s c t u g =
      catch_eq (refresh_session crypto config at token) (λ e. throw invalid_refresh_token)
        (>>=_eq (check_refresh crypto config at token)
          (λ (user, id). open_session crypto config at user (some id))
          (check_refresh-IsGood at token s c t u g))

  pub refresh-ok-IsGood :
      (at : Instant) (token : S) (s : AuthStore S) {x : Session S}
      → (refresh crypto config at token s).0 ≡ ok x
      → (c : Claims) × (t : RefreshToken S) × (u : AuthUser S) × IsGood at token s c t u
  unfolding refresh
  refresh-ok-IsGood at token s h =
      let k = catch_ok invalid_refresh_token (refresh_session crypto config at token) s h in
      let (x, e, _) =
        >>=_ok (check_refresh crypto config at token)
          (λ (user, id). open_session crypto config at user (some id)) s k in
      IsGood-of at token s e
