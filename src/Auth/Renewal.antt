-- ===== src/Auth/Renewal.antt =====
-- A session lasts as long as it is refreshed in time.
use trading_backend.Base.{
  ◌==◌, ==_self, Bool-cases, Option-cases, or_default, All, find_first, update_where,
  All-find_first, ℕ, ◌+◌, ◌≤◌, ◌<◌, String, ◌≡◌, refl, sym, ap, subst, ◌∙◌, inl, inr, Bool, true,
  false, none, some, List, [], ◌∷◌, arith, str_eq,
}
use trading_backend.Auth.{
  replace_token, active_user, live_token, sign_tokens, refresh_max_age, token_row,
  create_refresh_session, open_session, login, refresh, renew,
}
use trading_backend.Auth.Schema.{
  AuthUser, RefreshToken, AuthStore, Claims, Crypto, IsFaithful, AuthConfig, Instant, Session,
  jwt_user, refresh_claims, unrevoked_token, revoked_row,
}
use trading_backend.Auth.Sessions.{IsGood, refresh-IsGood}
use trading_backend.Store.Actions.{>>=_eq}
use trading_backend.Store.World.{Result, ok}

module _ {S : Type 0} where
  -- the primary key
  abbrev pub HasUniqueIds : List (AuthUser S) → Type 0
  HasUniqueIds [] = Unit
  HasUniqueIds (u ∷ us) = All (λ v. (u.id == v.id) ≡ false) us × HasUniqueIds us

  find_first-id :
      (p : AuthUser S → Bool) (us : List (AuthUser S)) (u : AuthUser S)
      → HasUniqueIds us
      → find_first p us ≡ some u
      → find_first (λ v. v.id == u.id) us ≡ some u
  unfolding find_first
  find_first-id p [] u h e = absurd (cc)
  find_first-id p (v ∷ us) u (h, k) e = elim (Bool-cases (p v)) [
    | inl q ↦ let s = ==_self v.id in ground arith
    | inr q ↦
        let rest : find_first p us ≡ some u = ground arith in
        let n = All-find_first (λ x. (v.id == x.id) ≡ false) p us u h rest in
        let r = find_first-id p us u k rest in ground arith
  ]

module _ {S : Type 0} (crypto : Crypto S) (config : AuthConfig S) where
  open crypto use {lifetime}

  abbrev pub refresh_lifetime : ℕ
  refresh_lifetime = lifetime (or_default config.refresh_expires_in "7d")

  -- each refresh comes while the token and its row are valid
  abbrev pub IsTimely : Instant → List Instant → Type 0
  IsTimely at [] = Unit
  IsTimely at (next ∷ ats) =
      (at.now ≤ next.now)
      × (next.now + 1000 ≤ at.now + refresh_lifetime)
      × (next.now < at.now + refresh_max_age crypto config)
      × IsTimely next ats

  -- The newest token is the user's, signed at that time, and the user is still active.
  abbrev pub IsLast : Instant → AuthUser S → S → AuthStore S → Type 0
  IsLast at u token s =
      (id : ℕ) × (ts : List (RefreshToken S)) × (s.tokens
        ≡ token_row crypto config at (jwt_user u) id ∷ ts)
      × (id < s.next_id)
      × (token ≡ (sign_tokens crypto config at (jwt_user u) id).1)
      × (active_user (λ v. v.id == u.id) s ≡ some u)

  IsLast-IsGood :
      (f : IsFaithful crypto) (at next : Instant) (u : AuthUser S) (token : S) (s : AuthStore S)
      → IsLast at u token s
      → IsTimely at (next ∷ [])
      → (c : Claims) × (t : RefreshToken S) × IsGood crypto config next token s c t u
        × (t.id < s.next_id)
  unfolding sign_tokens find_first
  IsLast-IsGood f at next u token s (id, ts, e, b, q, a) (h, h1, h2, _) =
      let row = token_row crypto config at (jwt_user u) id in
      let c = refresh_claims (jwt_user u) id in
      let self = ==_self id in
      let live : live_token next id s ≡ some row = rw (live_token, e, self) (ground arith) in
      (
        c,
        row,
        (
          subst (λ k. crypto.verify config.refresh_secret false next.now k ≡ some c) (sym q)
              (f.verifies config.refresh_secret (or_default config.refresh_expires_in "7d") at.now
                next.now c h h1),
          id,
          refl,
          live,
          subst (λ k. crypto.compare k row.token_hash ≡ true) (sym q) (f.matches at.salt _),
          a,
        ),
        b,
      )

  IsLast-open :
      (at : Instant) (u : AuthUser S) (id : ℕ) (s : AuthStore S)
      → id < s.next_id
      → active_user (λ v. v.id == u.id) s ≡ some u
      → IsLast at u
          (sign_tokens crypto config at (jwt_user u) s.next_id).1
          (open_session crypto config at (jwt_user u) (some id) s).1
  unfolding create_refresh_session replace_token update_where
  IsLast-open at u id s h a =
      let other : (s.next_id == id) ≡ false = ground arith in
      (
        s.next_id,
        update_where (unrevoked_token id) (revoked_row at.now (some s.next_id)) s.tokens,
        rw other refl,
        omega arith,
        refl,
        a,
      )

  renew-ok :
      (f : IsFaithful crypto) (at : Instant) (ats : List Instant) (u : AuthUser S) (token : S)
      (s : AuthStore S)
      → IsLast at u token s
      → IsTimely at ats
      → (last : S) × ((renew crypto config ats token s).0 ≡ ok last)
  unfolding renew create_refresh_session
  renew-ok f at [] u token s l h = (token, refl)
  renew-ok f at (next ∷ ats) u token s l (h, h1, h2, h3) =
      let (c, t, g, b) = IsLast-IsGood f at next u token s l (h, h1, h2, tt) in
      let (id, ts, e, b1, q, a) = l in
      let opened = open_session crypto config next (jwt_user u) (some t.id) s in
      let (last, k) =
        renew-ok f next ats u (sign_tokens crypto config next (jwt_user u) s.next_id).1 opened.1
          (IsLast-open next u t.id s b a) h3 in
      (
        last,
        ap (λ (out : Result (Unit {0}) S × AuthStore S). out.0)
              (>>=_eq (refresh crypto config next token)
                (λ x. renew crypto config ats x.refresh_token)
                (refresh-IsGood crypto config next token s c t u g))
            ∙ k,
      )

  login-found :
      (at : Instant) (email : String) (password : S) (s : AuthStore S) {x : Session S}
      → (login crypto config at email password s).0 ≡ ok x
      → (u : AuthUser S) × (active_user (λ v. str_eq v.email email) s ≡ some u)
        × (login crypto config at email password s
            ≡ open_session crypto config at (jwt_user u) none s)
  unfolding login
  login-found at email password s h =
      elim (Option-cases (active_user (λ u. str_eq u.email email) s)) [
        | inl e ↦ absurd (ground arith)
        | inr (u, e) ↦ elim (Bool-cases (crypto.compare password u.password_hash)) [
          | inl q ↦ (u, e, rw (login, e, q) refl)
          | inr q ↦ absurd (ground arith)
        ]
      ]

  active_user-id :
      (p : AuthUser S → Bool) (s : AuthStore S) (u : AuthUser S)
      → HasUniqueIds s.users
      → active_user p s ≡ some u
      → active_user (λ v. v.id == u.id) s ≡ some u
  active_user-id p s u h e = elim (Option-cases (find_first p s.users)) [
    | inl q ↦ absurd (ground arith)
    | inr (v, q) ↦ elim (Bool-cases v.is_active) [
      | inr z ↦ absurd (ground arith)
      | inl z ↦
          let same : v ≡ u = ground arith in
          let found = subst (λ w. find_first p s.users ≡ some w) same q in
          let k = find_first-id p s.users u h found in rw (active_user, k) (ground arith)
    ]
  ]

  -- A session lasts as long as it is refreshed in time: after a login, every refresh of a series
  -- succeeds in which each uses the token that the one before has given, and comes no earlier than it,
  -- a second before its token expires and before its row does. User ids are unique, and @nestjs/jwt
  -- and bcryptjs are faithful.
  pub login_renews :
      (f : IsFaithful crypto) (at : Instant) (ats : List Instant) (email : String) (password : S)
      (s : AuthStore S) {x : Session S}
      → HasUniqueIds s.users
      → (login crypto config at email password s).0 ≡ ok x
      → IsTimely at ats
      → (last : S) × ((renew crypto config ats x.refresh_token
            (login crypto config at email password s).1).0
          ≡ ok last)
  unfolding create_refresh_session replace_token
  login_renews f at ats email password s {x} n h k =
      let (u, a, e) = login-found at email password s h in
      let a1 = active_user-id (λ v. str_eq v.email email) s u n a in
      let opened = open_session crypto config at (jwt_user u) none s in
      let first = (sign_tokens crypto config at (jwt_user u) s.next_id).1 in
      let l : IsLast at u first opened.1 = (s.next_id, s.tokens, refl, omega arith, refl, a1) in
      let z : opened.0 ≡ ok x =
        ap (λ (out : Result (Unit {0}) (Session S) × AuthStore S). out.0) (sym e) ∙ h in
      let same : first ≡ x.refresh_token = ground arith in
      let (last, r) = renew-ok f at ats u first opened.1 l k in
      (
        last,
        subst (λ out. (renew crypto config ats x.refresh_token out.1).0 ≡ ok last) (sym e)
            (subst (λ t. (renew crypto config ats t opened.1).0 ≡ ok last) same r),
      )
