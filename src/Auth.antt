-- ===== src/Auth.antt =====
-- auth/application/auth.service.ts: login, the session's user, the rotation of refresh tokens and
-- logout, on the tables of users and refresh tokens.
pub mod Schema
pub mod Tokens
pub mod Rotation
pub mod Sessions
pub mod Replay
pub mod Renewal
pub mod Chain
use trading_backend.Base.{
  leb, ◌==◌, if◌then◌else◌, or_default, is_some, find_first, update_where, ℕ, suc, ◌+◌, ◌*◌, String,
  Bool, true, false, ◌||◌, Option, none, some, List, [], ◌∷◌, str_eq,
}
use trading_backend.Auth.Schema.{
  AuthUser, RefreshToken, AuthStore, JwtUser, Crypto, AuthConfig, Instant, Session, AuthAction,
  jwt_user, access_claims, refresh_claims, unrevoked_token, revoked_row, invalid_refresh_token,
  refresh_id,
}
use trading_backend.Store.Text.{say, unauthorized}
use trading_backend.Store.World.{
  ◌>>=◌, ◌>>◌, pure, throw, throw_unless, gets, or_throw, catch, ok, err,
}

module _ {S : Type 0} where
  -- `revokeRefreshToken`
  unfoldable pub revoke_refresh_token : Instant → ℕ → AuthStore S → AuthStore S
  unfolding update_where
  revoke_refresh_token at id s = record s {
    tokens =
        update_where (unrevoked_token id) (λ t. record t { revoked_at = some at.now }) s.tokens;
  }

  -- the `updateMany` of `createRefreshSession`
  unfoldable pub replace_token : Instant → Option ℕ → ℕ → AuthStore S → AuthStore S
  unfolding update_where
  replace_token at none next s = s
  replace_token at (some id) next s = record s {
    tokens = update_where (unrevoked_token id) (revoked_row at.now (some next)) s.tokens;
  }

  abbrev pub session_of : JwtUser → S × S → Session S
  session_of user tokens = record { access_token = tokens.0; refresh_token = tokens.1; user = user }

  abbrev pub active_user : (AuthUser S → Bool) → AuthStore S → Option (AuthUser S)
  active_user p s = elim (find_first p s.users) [
    | none ↦ none
    | some u ↦ if u.is_active then some u else none
  ]

  -- `me`
  unfoldable pub me : ℕ → AuthAction S JwtUser
  unfolding find_first
  me user_id = do
    found ← gets (active_user (λ u. u.id == user_id))
    user ← or_throw found (unauthorized (say "Invalid session"))
    pure (jwt_user user)

  -- the rows that a token's id names, unless they refuse it
  abbrev pub live_token : Instant → ℕ → AuthStore S → Option (RefreshToken S)
  live_token at id s = elim (find_first (λ t. t.id == id) s.tokens) [
    | none ↦ none
    | some t ↦ if is_some t.revoked_at || leb t.expires_at at.now then none else some t
  ]

module _ {S : Type 0} (crypto : Crypto S) (config : AuthConfig S) where
  open crypto use {sign, verify, hash, compare}

  -- `signTokens`
  unfoldable pub sign_tokens : Instant → JwtUser → ℕ → S × S
  sign_tokens at user refresh_token_id = (
    sign config.secret (or_default config.access_expires_in "15m") at.now (access_claims user),
    sign config.refresh_secret (or_default config.refresh_expires_in "7d") at.now
        (refresh_claims user refresh_token_id),
  )

  abbrev pub refresh_max_age : ℕ
  refresh_max_age = or_default config.refresh_cookie_max_age (7 * 24 * 60 * 60 * 1000)

  abbrev pub token_row : Instant → JwtUser → ℕ → RefreshToken S
  token_row at user id = record {
    id = id;
    user_id = user.sub;
    token_hash = hash at.salt (sign_tokens at user id).1;
    expires_at = at.now + refresh_max_age;
    revoked_at = none;
    replaced_by = none;
  }

  -- `createRefreshSession`
  unfoldable pub create_refresh_session :
      Instant → JwtUser → Option ℕ → AuthStore S → (S × S) × AuthStore S
  unfolding sign_tokens replace_token
  create_refresh_session at user previous s =
      let id = s.next_id in
      let created = record s { next_id = suc id; tokens = token_row at user id ∷ s.tokens } in
      (sign_tokens at user id, replace_token at previous id created)

  abbrev pub open_session : Instant → JwtUser → Option ℕ → AuthAction S (Session S)
  open_session at user previous s =
      let (tokens, s') = create_refresh_session at user previous s in
      (ok (session_of user tokens), s')

  -- `login`
  unfoldable pub login : Instant → String → S → AuthAction S (Session S)
  unfolding create_refresh_session find_first
  login at email password = do
    found ← gets (active_user (λ u. str_eq u.email email))
    user ← or_throw found (unauthorized (say "Invalid credentials"))
    throw_unless (compare password user.password_hash) (unauthorized (say "Invalid credentials"))
    open_session at (jwt_user user) none

  -- the comparison with the stored hash; a token that is not the stored one revokes it
  unfoldable pub match_hash : Instant → S → RefreshToken S → AuthAction S (Unit {0})
  match_hash at token stored s =
      if compare token stored.token_hash
      then (ok tt, s)
      else (err invalid_refresh_token, revoke_refresh_token at stored.id s)

  -- `refresh` up to its call of `createRefreshSession`: the user and the stored token's id
  unfoldable pub check_refresh : Instant → S → AuthAction S (JwtUser × ℕ)
  unfolding find_first revoke_refresh_token
  check_refresh at token = do
    claims ← or_throw (verify config.refresh_secret false at.now token) invalid_refresh_token
    id ← or_throw (refresh_id claims) invalid_refresh_token
    found ← gets (live_token at id)
    stored ← or_throw found invalid_refresh_token
    match_hash at token stored
    row ← gets (active_user (λ u. u.id == claims.user.sub))
    user ← or_throw row (unauthorized (say "Invalid session"))
    pure (jwt_user user, stored.id)

  -- the body of the `try` of `refresh`
  abbrev pub refresh_session : Instant → S → AuthAction S (Session S)
  refresh_session at token = check_refresh at token >>= λ (user, id). open_session at user (some id)

  -- `refresh`: whatever is thrown, the answer is one message
  unfoldable pub refresh : Instant → S → AuthAction S (Session S)
  refresh at token = catch (refresh_session at token) (λ e. throw invalid_refresh_token)

  -- `logout`: no token, a missing or empty cookie, and an unreadable one change nothing
  unfoldable pub logout : Instant → Option S → AuthStore S → AuthStore S
  unfolding revoke_refresh_token
  logout at none s = s
  logout at (some token) s = elim (verify config.refresh_secret true at.now token) [
    | none ↦ s
    | some c ↦ elim (refresh_id c) [ none ↦ s | some id ↦ revoke_refresh_token at id s ]
  ]

-- The requests of auth.controller.ts that reach the service, with what their call finds.
pub data Request (S : Type 0) : Type 0 where
  login_request : String → S → Request S
  me_request : ℕ → Request S
  refresh_request : S → Request S
  logout_request : Option S → Request S

module _ {S : Type 0} (crypto : Crypto S) (config : AuthConfig S) where
  unfoldable pub answer : Instant → Request S → AuthStore S → AuthStore S
  unfolding login me refresh logout
  answer at (Request.login_request email password) s = (login crypto config at email password s).1
  answer at (Request.me_request id) s = (me id s).1
  answer at (Request.refresh_request token) s = (refresh crypto config at token s).1
  answer at (Request.logout_request token) s = logout crypto config at token s

  -- one request after the other
  unfoldable pub answers : List (Instant × Request S) → AuthStore S → AuthStore S
  unfolding answer
  answers [] s = s
  answers ((at, r) ∷ rs) s = answers rs (answer at r s)

  -- the session's refreshes, each with the token that the one before has given
  unfoldable pub renew : List Instant → S → AuthAction S S
  unfolding refresh
  renew [] token = pure token
  renew (at ∷ ats) token = refresh crypto config at token >>= λ x. renew ats x.refresh_token
