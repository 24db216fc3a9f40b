-- ===== src/Tests/AuthRuns.antt =====
-- The sessions at a concrete user: a password, its digest and tokens that show what they carry.
use trading_backend.Base.{
  leb, ◌==◌, if◌then◌else◌, ==_self, find_first, ℕ, ◌+◌, ◌≡◌, refl, Bool, true, false, ◌&&◌, ◌||◌,
  Option, none, some, [], ◌∷◌, arith,
}
use trading_backend.Auth.{
  sign_tokens, token_row, create_refresh_session, login, match_hash, check_refresh, refresh, logout,
  Request, answers, renew,
}
use trading_backend.Auth.Chain.{IsChained, answers_keep-IsChained}
use trading_backend.Auth.Renewal.{login_renews}
use trading_backend.Auth.Replay.{token_ends, concurrent_refreshes}
use trading_backend.Auth.Schema.{
  AuthUser, AuthStore, Claims, Crypto, IsFaithful, AuthConfig, Instant, jwt_user, refresh_claims,
  unrevoked_token, invalid_refresh_token,
}
use trading_backend.Store.Enums.{Role}
use trading_backend.Store.World.{ok, err}

data Sealed : Type 0 where
  secret : ℕ → Sealed
  password : ℕ → Sealed
  digest : ℕ → Sealed
  signed : ℕ → ℕ → Claims → Sealed

abbrev number_of : Sealed → ℕ
number_of (Sealed.secret n) = n
number_of (Sealed.password n) = n
number_of (Sealed.digest n) = n
number_of (Sealed.signed key expiry c) = expiry

abbrev opens : Sealed → Bool → ℕ → Sealed → Option Claims
opens key ignores now (Sealed.signed k expiry c) =
    if k == number_of key && (ignores || leb (now + 1000) expiry) then some c else none
opens key ignores now _ = none

abbrev matches_digest : Sealed → Sealed → Bool
matches_digest x (Sealed.digest n) = number_of x == n
matches_digest x _ = false

abbrev sealing : Crypto Sealed
sealing = record {
  sign = λ key expires_in now c. Sealed.signed (number_of key) (now + 604800000) c;
  verify = opens;
  hash = λ salt x. Sealed.digest (number_of x);
  compare = matches_digest;
  lifetime = λ expires_in. 604800000;
}

opens-fixed :
    (key : Sealed) (b b' : Bool) (now now' : ℕ) (token : Sealed) (c c' : Claims)
    → opens key b now token ≡ some c
    → opens key b' now' token ≡ some c'
    → c ≡ c'
opens-fixed key b b' now now' (Sealed.secret n) c c' h k = absurd (ground arith)
opens-fixed key b b' now now' (Sealed.password n) c c' h k = absurd (ground arith)
opens-fixed key b b' now now' (Sealed.digest n) c c' h k = absurd (ground arith)
opens-fixed key b b' now now' (Sealed.signed n expiry d) c c' h k = ground arith

opens-ignoring :
    (key : Sealed) (now now' : ℕ) (token : Sealed) (c : Claims)
    → opens key false now token ≡ some c
    → opens key true now' token ≡ some c
opens-ignoring key now now' (Sealed.secret n) c h = absurd (ground arith)
opens-ignoring key now now' (Sealed.password n) c h = absurd (ground arith)
opens-ignoring key now now' (Sealed.digest n) c h = absurd (ground arith)
opens-ignoring key now now' (Sealed.signed n expiry d) c h = ground arith

sealing-IsFaithful : IsFaithful sealing
sealing-IsFaithful = record {
  claims_fixed = opens-fixed;
  ignores_expiry = opens-ignoring;
  verifies = λ key e now now' c h k. let q = ==_self (number_of key) in ground arith;
  matches = λ salt x. ==_self (number_of x);
}

abbrev keys : AuthConfig Sealed
keys = record {
  secret = Sealed.secret 1;
  refresh_secret = Sealed.secret 2;
  access_expires_in = none;
  refresh_expires_in = none;
  refresh_cookie_max_age = none;
}

abbrev ana : AuthUser Sealed
ana = record {
  id = 7;
  email = "ana@example.com";
  password_hash = Sealed.digest 42;
  role = Role.trader;
  is_active = true;
}

abbrev empty_sessions : AuthStore Sealed
empty_sessions = record { next_id = 10; users = ana ∷ []; tokens = [] }

abbrev instant : ℕ → Instant
instant n = record { now = n; salt = 0 }

abbrev open_sessions : AuthStore Sealed
open_sessions = record empty_sessions {
  next_id = 11;
  tokens = token_row sealing keys (instant 5000) (jwt_user ana) 10 ∷ [];
}

abbrev first_token : Sealed
first_token = Sealed.signed 2 604805000 (refresh_claims (jwt_user ana) 10)

token_ends_example :
    ((refresh sealing keys (instant 9000) first_token (
        answers sealing keys
          ((instant 8000, Request.login_request "ana@example.com" (Sealed.password 42)) ∷ [])
          (refresh sealing keys (instant 6000) first_token open_sessions).1)).0
      ≡ err invalid_refresh_token)
    × ((refresh sealing keys (instant 9000) first_token (
          answers sealing keys
            ((instant 8000, Request.login_request "ana@example.com" (Sealed.password 42)) ∷ [])
            (logout sealing keys (instant 7000) (some first_token) open_sessions))).0
        ≡ err invalid_refresh_token)
unfolding refresh check_refresh match_hash create_refresh_session find_first
token_ends_example =
    token_ends sealing keys sealing-IsFaithful (instant 6000) (instant 7000) (instant 9000)
      first_token
      ((instant 8000, Request.login_request "ana@example.com" (Sealed.password 42)) ∷ [])
      open_sessions ((omega arith, tt), tt) refl

answers_keep-IsChained_example : IsChained (
    answers sealing keys
      ((instant 6000, Request.refresh_request first_token)
        ∷ (instant 7000, Request.logout_request (some first_token))
        ∷ [])
      open_sessions)
answers_keep-IsChained_example =
    answers_keep-IsChained sealing keys
      ((instant 6000, Request.refresh_request first_token)
        ∷ (instant 7000, Request.logout_request (some first_token))
        ∷ [])
      open_sessions ((omega arith, tt), tt)

concurrent_refreshes_example :
    let s1 =
      (create_refresh_session sealing keys
        (instant 6000)
        (jwt_user ana)
        (some 10)
        open_sessions).1 in
    let s2 = (create_refresh_session sealing keys (instant 6001) (jwt_user ana) (some 10) s1).1 in
    (find_first (unrevoked_token 11) s2.tokens
      ≡ some (token_row sealing keys (instant 6000) (jwt_user ana) 11))
    × (find_first (unrevoked_token 12) s2.tokens
        ≡ some (token_row sealing keys (instant 6001) (jwt_user ana) 12))
unfolding check_refresh match_hash sign_tokens find_first
concurrent_refreshes_example =
    concurrent_refreshes sealing keys (instant 6000) (instant 6001) first_token open_sessions
      {x = (jwt_user ana, 10)} {y = (jwt_user ana, 10)} ((omega arith, tt), tt) refl refl

login_renews_example :
    (last : Sealed) × ((renew sealing keys
        (instant 6000 ∷ instant 400000000 ∷ [])
        first_token
        (login sealing keys
          (instant 5000)
          "ana@example.com"
          (Sealed.password 42)
          empty_sessions).1).0
      ≡ ok last)
unfolding login create_refresh_session sign_tokens find_first
login_renews_example =
    login_renews sealing keys sealing-IsFaithful (instant 5000)
      (instant 6000 ∷ instant 400000000 ∷ []) "ana@example.com" (Sealed.password 42) empty_sessions
      (tt, tt) refl
      (omega arith, omega arith, omega arith, (omega arith, omega arith, omega arith, tt))
