-- ===== src/Auth/Rotation.antt =====
-- What every request keeps: a predicate on the store that a revocation and a new session keep, and
-- that bounds the ids of the tokens.
use trading_backend.Base.{
  ◌==◌, Bool-cases, Option-cases, All, find_first, find_first_passes, All-find_first, ℕ, ◌<◌,
  String, ◌≡◌, refl, sym, subst, inl, inr, true, false, Option, none, some, List, [], ◌∷◌, arith,
  str_eq,
}
use trading_backend.Auth.{
  revoke_refresh_token, active_user, me, live_token, open_session, login, match_hash, check_refresh,
  refresh_session, refresh, logout, Request, answer, answers,
}
use trading_backend.Auth.Schema.{
  RefreshToken, AuthStore, JwtUser, Crypto, AuthConfig, Instant, jwt_user, invalid_refresh_token,
  refresh_id,
}
use trading_backend.Auth.Sessions.{IsGood-of, refresh-IsGood}
use trading_backend.Store.Actions.{catch_state, >>=_stops}
use trading_backend.Store.World.{Result-cases}

pub live_id :
    {S : Type 0} (at : Instant) (i : ℕ) (s : AuthStore S) (t : RefreshToken S)
    → All (λ t. t.id < s.next_id) s.tokens
    → live_token at i s ≡ some t
    → (t.id ≡ i) × (i < s.next_id)
live_id at i s t h e = elim (Option-cases (find_first (λ t. t.id == i) s.tokens)) [
  | inl q ↦ absurd (ground arith)
  | inr (r, q) ↦
      let k = find_first_passes (λ t. t.id == i) s.tokens r q in
      let b = All-find_first (λ t. t.id < s.next_id) (λ t. t.id == i) s.tokens r h q in ground arith
]

me_state : {S : Type 0} (id : ℕ) (s : AuthStore S) → (me id s).1 ≡ s
unfolding me
me_state id s = elim (Option-cases (active_user (λ u. u.id == id) s)) [
  | inl e ↦ rw (me, e) refl
  | inr (u, e) ↦ rw (me, e) refl
]

-- the token that a session replaces is an earlier one
abbrev pub IsEarlier : {S : Type 0} → Option ℕ → AuthStore S → Type 0
IsEarlier none s = Unit
IsEarlier (some id) s = id < s.next_id

module _ {S : Type 0} (crypto : Crypto S) (config : AuthConfig S) (R : AuthStore S → Type 0)
    (bounds : (s : AuthStore S) → R s → All (λ t. t.id < s.next_id) s.tokens)
    (revokes : (at : Instant) (id : ℕ) (s : AuthStore S) → R s → R (revoke_refresh_token at id s))
    (opens : (at : Instant) (user : JwtUser) (previous : Option ℕ) (s : AuthStore S)
      → IsEarlier previous s
      → R s
      → R (open_session crypto config at user previous s).1) where
  open crypto use {verify, compare}

  login_keeps :
      (at : Instant) (email : String) (password : S) (s : AuthStore S)
      → R s
      → R (login crypto config at email password s).1
  unfolding login
  login_keeps at email password s h =
      elim (Option-cases (active_user (λ u. str_eq u.email email) s)) [
        | inl e ↦ rw (login, e) h
        | inr (u, e) ↦ elim (Bool-cases (compare password u.password_hash)) [
          | inl q ↦ rw (login, e, q) (opens at (jwt_user u) none s tt h)
          | inr q ↦ rw (login, e, q) h
        ]
      ]

  check_refresh_keeps :
      (at : Instant) (token : S) (s : AuthStore S)
      → R s
      → R (check_refresh crypto config at token s).1
  unfolding check_refresh match_hash
  check_refresh_keeps at token s h =
      elim (Option-cases (verify config.refresh_secret false at.now token)) [
        | inl e ↦ rw (check_refresh, e) h
        | inr (c, e) ↦ elim (Option-cases (refresh_id c)) [
          | inl e1 ↦ rw (check_refresh, e, e1) h
          | inr (j, e1) ↦ elim (Option-cases (live_token at j s)) [
            | inl e2 ↦ rw (check_refresh, e, e1, e2) h
            | inr (t, e2) ↦ elim (Bool-cases (compare token t.token_hash)) [
              | inr q ↦ rw (check_refresh, e, e1, e2, match_hash, q) (revokes at t.id s h)
              | inl q ↦ elim (Option-cases (active_user (λ u. u.id == c.user.sub) s)) [
                | inl e3 ↦ rw (check_refresh, e, e1, e2, match_hash, q, e3) h
                | inr (u, e3) ↦ rw (check_refresh, e, e1, e2, match_hash, q, e3) h
              ]
            ]
          ]
        ]
      ]

  refresh_keeps :
      (at : Instant) (token : S) (s : AuthStore S) → R s → R (refresh crypto config at token s).1
  unfolding refresh
  refresh_keeps at token s h = elim (Result-cases (check_refresh crypto config at token s).0) [
    | inl (x, e) ↦
        let (c, t, u, g) = IsGood-of crypto config at token s e in
        let (_, i, _, live, _, _) = g in
        let (same, b) = live_id at i s t (bounds s h) live in
        subst (λ out. R out.1) (sym (refresh-IsGood crypto config at token s c t u g))
          (opens at (jwt_user u) (some t.id) s (rw same b) h)
    | inr (x, e) ↦
        subst R (sym (catch_state invalid_refresh_token (refresh_session crypto config at token) s))
          (subst R
            (sym (
              >>=_stops (check_refresh crypto config at token)
                (λ (user, id). open_session crypto config at user (some id)) s e))
            (check_refresh_keeps at token s h))
  ]

  pub logout_keeps :
      (at : Instant) (token : Option S) (s : AuthStore S)
      → R s
      → R (logout crypto config at token s)
  unfolding logout
  logout_keeps at none s h = h
  logout_keeps at (some token) s h =
      elim (Option-cases (verify config.refresh_secret true at.now token)) [
        | inl e ↦ rw (logout, e) h
        | inr (c, e) ↦ elim (Option-cases (refresh_id c)) [
          | inl q ↦ rw (logout, e, q) h
          | inr (i, q) ↦ rw (logout, e, q) (revokes at i s h)
        ]
      ]

  pub answers_keeps :
      (rs : List (Instant × Request S)) (s : AuthStore S) → R s → R (answers crypto config rs s)
  unfolding answers answer me
  answers_keeps [] s h = h
  answers_keeps ((at, Request.login_request email password) ∷ rs) s h =
      answers_keeps rs _ (login_keeps at email password s h)
  answers_keeps ((at, Request.me_request user) ∷ rs) s h =
      answers_keeps rs _ (subst R (sym (me_state user s)) h)
  answers_keeps ((at, Request.refresh_request token) ∷ rs) s h =
      answers_keeps rs _ (refresh_keeps at token s h)
  answers_keeps ((at, Request.logout_request token) ∷ rs) s h =
      answers_keeps rs _ (logout_keeps at token s h)
