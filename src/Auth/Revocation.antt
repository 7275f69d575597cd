-- ===== src/Auth/Revocation.antt =====
-- A password reset ends the sessions that were open before it.
use heofberu_backend.Prelude.{
  some_same, ℕ, ◌+◌, ◌*◌, ◌≤◌, ◌<◌, ◌≡◌, Bool, true, false, ◌&&◌, List, [], ◌∷◌, Option, none, some,
  arith, leb, Option-cases, inl, inr,
}
use heofberu_backend.Prelude.Result.{⊤, ok, is_ok, Result-cases}
use heofberu_backend.Auth.World.{
  access, refresh, reset, User, World, AuthError, invalid_credentials, invalid_reset_token, Auth,
  outside,
}
use heofberu_backend.Auth.Token.{
  DecodedToken, issued_at_ms, remaining_seconds, verify_token_str, verify_token, blacklist_token,
}
use heofberu_backend.Auth.Sessions.{
  is_session_revoked, claim_token, set_nx, revoke_user_sessions, release_token,
}
use heofberu_backend.Auth.Service.{
  Outside, login, issue_tokens, get_by_subject, refresh_tokens, change_password, releasing,
  claim_once, refresh_verified, reset_verified, reset_password, revoke_cookie, logout,
  get_current_user, current_verified,
}
use heofberu_backend.Auth.History.{
  Event, logs_in, refreshes, resets, logs_out, calls, waits, faults, run, run_all,
}
use heofberu_backend.Auth.Spent.{Keeps, bind-Keeps}

abbrev month_ms : ℕ
month_ms = 2592000000

-- a revocation at the moment or later, whose key lives at least a month after it
abbrev pub covers : ℕ → Option (ℕ × ℕ) → Bool
covers at none = false
covers at (some (after, until)) = leb at after && leb (at + month_ms) until

module _ (u at : ℕ) where
  abbrev pub Ended : World → Type 0
  Ended w = (at ≤ w.clock) × (covers at (w.revoked_after u) ≡ true)

  claim_once-Ended : (error : AuthError) (d : DecodedToken) → Keeps Ended (claim_once error d)
  unfolding claim_once is_session_revoked outside claim_token set_nx
  claim_once-Ended error d w h = ground arith

  change_password-Ended :
      (o : Outside) (user : User) (password : ℕ) → Keeps Ended (change_password o user password)
  unfolding change_password revoke_user_sessions outside
  change_password-Ended o user password w h = ground arith

  releasing-Ended : (jti : ℕ) (body : Auth ⊤) → Keeps Ended body → Keeps Ended (releasing jti body)
  unfolding releasing release_token
  releasing-Ended jti body keeps w h = ground (arith, keeps w h)

  blacklist-Ended : (jti ttl : ℕ) → Keeps Ended (blacklist_token jti ttl)
  unfolding blacklist_token outside
  blacklist-Ended jti ttl w h = ground arith

  login-Ended : (o : Outside) (address password : ℕ) → Keeps Ended (login o address password)
  unfolding login outside issue_tokens
  login-Ended o address password w h = ground arith

  refresh-Ended : (o : Outside) (token : ℕ) → Keeps Ended (refresh_tokens o token)
  unfolding refresh_tokens refresh_verified issue_tokens
  refresh-Ended o token w h = elim (Result-cases (verify_token_str o.decode refresh token w)) [
    | inl (x, bad) ↦ ground arith
    | inr (d, good) ↦ ground (arith, claim_once-Ended invalid_credentials d w h)
  ]

  reset_verified-Ended :
      (o : Outside) (password : ℕ) (d : DecodedToken) → Keeps Ended (reset_verified o password d)
  unfolding reset_verified
  reset_verified-Ended o password d =
      bind-Keeps Ended (claim_once invalid_reset_token d)
        (λ user. releasing d.jti (change_password o user password))
        (claim_once-Ended invalid_reset_token d)
        (λ user w k got.
          releasing-Ended d.jti (change_password o user password)
            (change_password-Ended o user password))

  reset-Ended : (o : Outside) (token password : ℕ) → Keeps Ended (reset_password o token password)
  unfolding reset_password
  reset-Ended o token password w h = elim (Result-cases (verify_token_str o.decode reset token w)) [
    | inl (x, bad) ↦ ground arith
    | inr (d, good) ↦ ground (arith, reset_verified-Ended o password d w h)
  ]

  cookie-Ended : (o : Outside) (token : Option ℕ) → Keeps Ended (revoke_cookie o token)
  unfolding revoke_cookie
  cookie-Ended o none w h = h
  cookie-Ended o (some token) w h =
      elim (Result-cases (verify_token_str o.decode refresh token w)) [
        | inl (x, bad) ↦ ground arith
        | inr (d, good) ↦ ground (arith, blacklist-Ended d.jti (remaining_seconds w.clock d) w h)
      ]

  logout-Ended : (o : Outside) (a r : Option ℕ) → Keeps Ended (logout o a r)
  unfolding logout
  logout-Ended o a r w h = elim (Result-cases (verify_token o.decode access a w)) [
    | inl (x, bad) ↦ ground arith
    | inr (d, good) ↦
        let one = blacklist-Ended d.jti (remaining_seconds w.clock d) w h in
        ground (
          arith,
          one,
          cookie-Ended o r (blacklist_token d.jti (remaining_seconds w.clock d) w).1 one,
        )
  ]

  call-Ended : (o : Outside) (token : Option ℕ) → Keeps Ended (get_current_user o token)
  unfolding get_current_user current_verified is_session_revoked outside
  call-Ended o token w h = elim (Result-cases (verify_token o.decode access token w)) [
    | inl (x, bad) ↦ ground arith
    | inr (d, good) ↦ ground arith
  ]

  run-Ended : (o : Outside) (event : Event) (w : World) → Ended w → Ended (run o event w)
  unfolding run
  run-Ended o (logs_in address password) w h = login-Ended o address password w h
  run-Ended o (refreshes token) w h = refresh-Ended o token w h
  run-Ended o (resets token password) w h = reset-Ended o token password w h
  run-Ended o (logs_out a r) w h = logout-Ended o a r w h
  run-Ended o (calls token) w h = call-Ended o token w h
  run-Ended o (waits n) w h = ground arith
  run-Ended o (faults fs) w h = h

  run_all-Ended :
      (o : Outside) (events : List Event) (w : World) → Ended w → Ended (run_all o events w)
  unfolding run_all
  run_all-Ended o [] w h = h
  run_all-Ended o (event ∷ events) w h =
      run_all-Ended o events (run o event w) (run-Ended o event w h)

  -- a user's token that is older is not claimed
  claim_once-refuses :
      (error : AuthError) (d : DecodedToken) (w : World)
      → Ended w
      → ((user : User) → get_by_subject d.subject w ≡ some user → user.id ≡ u)
      → issued_at_ms d < at
      → d.expires_at * 1000 ≤ issued_at_ms d + month_ms
      → is_ok (claim_once error d w).0 ≡ false
  unfolding claim_once is_session_revoked outside claim_token set_nx remaining_seconds
  claim_once-refuses error d w h names older fits =
      elim (Option-cases (get_by_subject d.subject w)) [
        | inl nobody ↦ ground arith
        | inr (user, found) ↦ ground (arith, names user found)
      ]

claim_once-user :
    (error : AuthError) (d : DecodedToken) (w : World) (user : User)
    → (claim_once error d w).0 ≡ ok user
    → (get_by_subject d.subject w ≡ some user) × ((claim_once error d w).1.clock ≡ w.clock)
unfolding claim_once is_session_revoked outside claim_token set_nx
claim_once-user error d w user h = elim (Option-cases (get_by_subject d.subject w)) [
  | inl nobody ↦ ground arith
  | inr (user', found) ↦ ground (arith, found)
]

change_password-ends :
    (o : Outside) (user : User) (jti password : ℕ) (w : World)
    → is_ok (releasing jti (change_password o user password) w).0 ≡ true
    → Ended user.id w.clock (releasing jti (change_password o user password) w).1
unfolding releasing change_password revoke_user_sessions outside
change_password-ends o user jti password w h = ground arith

-- the user of a reset that was accepted, and the end of the sessions
pub reset-ends :
    (o : Outside) (token password : ℕ) (w : World) (d : DecodedToken)
    → verify_token_str o.decode reset token w ≡ ok d
    → is_ok (reset_password o token password w).0 ≡ true
    → (user : User) × (get_by_subject d.subject w ≡ some user)
      × Ended user.id w.clock (reset_password o token password w).1
unfolding reset_password reset_verified
reset-ends o token password w d good h =
    elim (Result-cases (claim_once invalid_reset_token d w).0) [
      | inl (x, bad) ↦ ground arith
      | inr (user, claimed) ↦
          let (found, same) = claim_once-user invalid_reset_token d w user claimed in
          (
            user,
            found,
            ground (
              arith,
              same,
              change_password-ends o user d.jti password (claim_once invalid_reset_token d w).1,
            ),
          )
    ]

-- After an accepted password reset, a refresh token that was issued to the user before it is
-- refused ever after, whatever requests are served in between, however much time passes and
-- whichever outside calls fail; given that the token still verifies, that its subject names that
-- user, and that it expires at most 30 days after it was issued.
pub reset_password-ends_sessions :
    (o : Outside) (token password : ℕ) (w : World) (d : DecodedToken) (user : User)
    (events : List Event) (old : ℕ) (old_claims : DecodedToken)
    → verify_token_str o.decode reset token w ≡ ok d
    → get_by_subject d.subject w ≡ some user
    → is_ok (reset_password o token password w).0 ≡ true
    → verify_token_str o.decode refresh old (run_all o events (reset_password o token password w).1)
      ≡ ok old_claims
    → ((user' : User)
        → get_by_subject old_claims.subject (run_all o events (reset_password o token password w).1)
          ≡ some user'
        → user'.id ≡ user.id)
    → issued_at_ms old_claims < w.clock
    → old_claims.expires_at * 1000 ≤ issued_at_ms old_claims + 2592000000
    → is_ok (refresh_tokens o old (run_all o events (reset_password o token password w).1)).0
      ≡ false
unfolding refresh_tokens refresh_verified
reset_password-ends_sessions o token password w d user events old old_claims good found h presented
      names older fits =
    let (user', found', ended) = reset-ends o token password w d good h in
    let w' = run_all o events (reset_password o token password w).1 in
    let later =
      run_all-Ended user'.id w.clock o events (reset_password o token password w).1 ended in
    let same : user' ≡ user = some_same found' found in
    ground (
      arith,
      presented,
      claim_once-refuses user.id w.clock invalid_credentials old_claims w' (rw (← same) later) names
          older fits,
    )
