-- ===== src/Auth/Schema.antt =====
-- The rows, the claims and the settings of auth/application/auth.service.ts, and the libraries
-- @nestjs/jwt and bcryptjs as the parameter `Crypto`. S is the type of the strings that are hashed or
-- signed: passwords, hashes, secrets and tokens.
use trading_backend.Base.{
  ◌==◌, if◌then◌else◌, is_some, some_and, ℕ, ◌+◌, ◌≤◌, String, ◌≡◌, Bool, true, false, not, ◌&&◌,
  Option, none, some, List, str_eq,
}
use trading_backend.Store.Enums.{Role}
use trading_backend.Store.Text.{say, Exception, unauthorized}
use trading_backend.Store.World.{StateAction}

pub record AuthUser (S : Type 0) : Type 0 where
  pub id : ℕ
  pub email : String
  pub password_hash : S
  pub role : Role
  pub is_active : Bool

-- the row of `auth_refresh_tokens`
pub record RefreshToken (S : Type 0) : Type 0 where
  pub id : ℕ
  pub user_id : ℕ
  pub token_hash : S
  pub expires_at : ℕ
  pub revoked_at : Option ℕ
  pub replaced_by : Option ℕ

pub record AuthStore (S : Type 0) : Type 0 where
  -- the next `randomUUID()`: ids never repeat
  pub next_id : ℕ
  pub users : List (AuthUser S)
  pub tokens : List (RefreshToken S)

pub record JwtUser : Type 0 where
  pub sub : ℕ
  pub email : String
  pub role : Role

-- what a token carries; an access token has neither `jti` nor `tokenType`
pub record Claims : Type 0 where
  pub user : JwtUser
  pub jti : Option ℕ
  pub token_type : Option String

-- `signAsync(payload, { secret, expiresIn })` at a time, `verifyAsync(token, { secret,
-- ignoreExpiration })` at a time, none when it throws, `bcrypt.hash` with its random salt,
-- `bcrypt.compare`, and the milliseconds that an `expiresIn` stands for.
pub record Crypto (S : Type 0) : Type 0 where
  pub sign : S → String → ℕ → Claims → S
  pub verify : S → Bool → ℕ → S → Option Claims
  pub hash : ℕ → S → S
  pub compare : S → S → Bool
  pub lifetime : String → ℕ

-- What the service relies on: a token's claims never change; ignoring the expiration accepts what was
-- accepted once; a token that was signed is accepted until the second before it expires; and a
-- value matches its own hash.
pub record IsFaithful {S : Type 0} (crypto : Crypto S) : Type 0 where
  pub claims_fixed :
      (key : S) (b b' : Bool) (now now' : ℕ) (token : S) (c c' : Claims)
      → crypto.verify key b now token ≡ some c
      → crypto.verify key b' now' token ≡ some c'
      → c ≡ c'
  pub ignores_expiry :
      (key : S) (now now' : ℕ) (token : S) (c : Claims)
      → crypto.verify key false now token ≡ some c
      → crypto.verify key true now' token ≡ some c
  pub verifies :
      (key : S) (expires_in : String) (now now' : ℕ) (c : Claims)
      → now ≤ now'
      → now' + 1000 ≤ now + crypto.lifetime expires_in
      → crypto.verify key false now' (crypto.sign key expires_in now c) ≡ some c
  pub matches : (salt : ℕ) (x : S) → crypto.compare x (crypto.hash salt x) ≡ true

pub record AuthConfig (S : Type 0) : Type 0 where
  pub secret : S
  pub refresh_secret : S
  pub access_expires_in : Option String
  pub refresh_expires_in : Option String
  pub refresh_cookie_max_age : Option ℕ

-- what a call finds: the time and the salt of its hash
pub record Instant : Type 0 where
  pub now : ℕ
  pub salt : ℕ

pub record Session (S : Type 0) : Type 0 where
  pub access_token : S
  pub refresh_token : S
  pub user : JwtUser

abbrev pub AuthAction : Type 0 → Type 0 → Type 0
AuthAction S A = StateAction (AuthStore S) (Unit {0}) A

abbrev pub jwt_user : {S : Type 0} → AuthUser S → JwtUser
jwt_user u = record { sub = u.id; email = u.email; role = u.role }

abbrev pub access_claims : JwtUser → Claims
access_claims u = record { user = u; jti = none; token_type = none }

abbrev pub refresh_claims : JwtUser → ℕ → Claims
refresh_claims u id = record { user = u; jti = some id; token_type = some "refresh" }

abbrev pub unrevoked_token : {S : Type 0} → ℕ → RefreshToken S → Bool
unrevoked_token id t = t.id == id && not (is_some t.revoked_at)

abbrev pub revoked_row : {S : Type 0} → ℕ → Option ℕ → RefreshToken S → RefreshToken S
revoked_row now next t = record t { revoked_at = some now; replaced_by = next }

abbrev pub invalid_refresh_token : Exception (Unit {0})
invalid_refresh_token = unauthorized (say "Invalid refresh token")

-- a token's id, if its claims are those of a refresh token
abbrev pub refresh_id : Claims → Option ℕ
refresh_id c = if some_and (λ t. str_eq t "refresh") c.token_type then c.jti else none
