-- ===== src/Auth/SingleUse.antt =====
-- Each request keeps a spent token spent.
use heofberu_backend.Prelude.{
  some_same, ℕ, ◌≡◌, refl, ap, ◌∙◌, true, false, List, [], ◌∷◌, Option, none, some, arith, ◌==◌,
  Bool-cases, ==→eq, inl, inr,
}
use heofberu_backend.Prelude.Result.{⊤, ok, is_ok, Result-cases}
use heofberu_backend.Auth.World.{
  TokenType, access, refresh, reset, User, World, AuthError, invalid_credentials,
  invalid_reset_token, Auth, outside,
}
use heofberu_backend.Auth.Token.{
  DecodedToken, remaining_seconds, verify_token_str, verify_token, verify-Claims, blacklist_token,
}
use heofberu_backend.Auth.Sessions.{is_session_revoked, revoke_user_sessions, claim_token, set_nx}
use heofberu_backend.Auth.Service.{
  Outside, issue_tokens, login, refresh_tokens, change_password, releasing, reset_password,
  claim_once, refresh_verified, reset_verified, current_verified, refresh_verified, reset_verified,
  current_verified, revoke_cookie, logout, get_current_user, claim_once, refresh_verified,
  reset_verified, current_verified,
}
use heofberu_backend.Auth.History.{
  Event, logs_in, refreshes, resets, logs_out, calls, waits, faults, run, run_all,
}
use heofberu_backend.Auth.Spent.{Spent, SpentAt, JtiIs, Keeps, bind-Keeps, release-Keeps}

-- a token with no second left, or whose key is alive, is not claimed
pub claim_once-refused :
    (error : AuthError) (d : DecodedToken) (w : World)
    → Spent d.jti d.expires_at w
    → is_ok (claim_once error d w).0 ≡ false
unfolding claim_once is_session_revoked outside claim_token set_nx remaining_seconds
claim_once-refused error d w h = ground arith

-- and a token that was claimed is spent
pub claim_once-Spent :
    (error : AuthError) (d : DecodedToken) (w : World)
    → is_ok (claim_once error d w).0 ≡ true
    → Spent d.jti d.expires_at (claim_once error d w).1
unfolding claim_once is_session_revoked outside claim_token set_nx remaining_seconds
claim_once-Spent error d w h = ground arith

pub change_password-Keeps :
    (o : Outside) (j e : ℕ) (user : User) (password now : ℕ)
    → Keeps (SpentAt j e now) (change_password o user password)
unfolding change_password revoke_user_sessions outside
change_password-Keeps o j e user password now w h = ground arith

module _ (o : Outside) (j e : ℕ) (is : JtiIs o j e) where
  verified-exp :
      (required : TokenType) (token : ℕ) (w : World) (d : DecodedToken)
      → verify_token_str o.decode required token w ≡ ok d
      → d.jti ≡ j
      → d.expires_at ≡ e
  verified-exp required token w d h own =
      let (p, found, (_, has_jti, has_exp, typed, _, _)) =
        verify-Claims o.decode required token w d h in
      let exp_is = is w.clock token p found (has_jti ∙ ap (λ x. some x) own) in
      some_same has_exp exp_is

  -- a verified token that carries the `jti` has its expiry
  abbrev Fits : DecodedToken → Type 0
  Fits d = d.jti ≡ j → d.expires_at ≡ e

  claim_once-Keeps :
      (error : AuthError) (d : DecodedToken) (now : ℕ)
      → Fits d
      → Keeps (SpentAt j e now) (claim_once error d)
  unfolding claim_once is_session_revoked outside claim_token set_nx remaining_seconds
  claim_once-Keeps error d now fits w (h, c) = elim (Bool-cases (d.jti == j)) [
    | inl own ↦ ground (arith, fits (==→eq d.jti j own))
    | inr other ↦ ground arith
  ]

  refresh_verified-Keeps :
      (d : DecodedToken) (now : ℕ) → Fits d → Keeps (SpentAt j e now) (refresh_verified d)
  unfolding refresh_verified issue_tokens
  refresh_verified-Keeps d now fits =
      bind-Keeps (SpentAt j e now) (claim_once invalid_credentials d) (λ user. issue_tokens user.id)
        (claim_once-Keeps invalid_credentials d now fits) (λ user w k got w' k'. k')

  own_Spent :
      (d : DecodedToken)
      → Fits d
      → d.jti ≡ j
      → (w : World) → Spent j e w
      → Spent d.jti d.expires_at w
  own_Spent d fits own w h = rw own (rw (fits own) h)

  releasing-Keeps :
      (jti now : ℕ) (body : Auth ⊤)
      → (jti == j) ≡ false
      → Keeps (SpentAt j e now) body
      → Keeps (SpentAt j e now) (releasing jti body)
  unfolding releasing
  releasing-Keeps jti now body other keeps w h =
      ground (arith, keeps w h, release-Keeps j e now jti (body w).1 other (keeps w h))

  reset_verified-Keeps :
      (d : DecodedToken) (password now : ℕ)
      → Fits d
      → Keeps (SpentAt j e now) (reset_verified o password d)
  unfolding reset_verified
  reset_verified-Keeps d password now fits =
      bind-Keeps (SpentAt j e now) (claim_once invalid_reset_token d)
        (λ user. releasing d.jti (change_password o user password))
        (claim_once-Keeps invalid_reset_token d now fits)
        (λ user w k got. elim (Bool-cases (d.jti == j)) [
          | inl own ↦ ground (
            arith,
            claim_once-refused invalid_reset_token d w (own_Spent d fits (==→eq d.jti j own) w k.0),
          )
          | inr other ↦
              releasing-Keeps d.jti now (change_password o user password) other
                (change_password-Keeps o j e user password now)
        ])

  login-Keeps : (address password now : ℕ) → Keeps (SpentAt j e now) (login o address password)
  unfolding login outside issue_tokens
  login-Keeps address password now w h = ground arith

  current_verified-Keeps :
      (d : DecodedToken) (now : ℕ) → Keeps (SpentAt j e now) (current_verified d)
  unfolding current_verified is_session_revoked outside
  current_verified-Keeps d now w h = ground arith

  pub blacklisted-Keeps :
      (d : DecodedToken) (now : ℕ)
      → Fits d
      → (w : World) → SpentAt j e now w
      → SpentAt j e now (blacklist_token d.jti (remaining_seconds w.clock d) w).1
  unfolding blacklist_token remaining_seconds outside
  blacklisted-Keeps d now fits w (h, c) = elim (Bool-cases (d.jti == j)) [
    | inl own ↦ ground (arith, fits (==→eq d.jti j own))
    | inr other ↦ ground arith
  ]

  refresh-Spent : (token : ℕ) (w : World) → Spent j e w → Spent j e (refresh_tokens o token w).1
  unfolding refresh_tokens
  refresh-Spent token w h = elim (Result-cases (verify_token_str o.decode refresh token w)) [
    | inl (x, bad) ↦ ground arith
    | inr (d, good) ↦
        let fits : Fits d = λ own. verified-exp refresh token w d good own in
        ground (arith, (refresh_verified-Keeps d w.clock fits w (h, refl)).0)
  ]

  reset-Spent :
      (token password : ℕ) (w : World)
      → Spent j e w
      → Spent j e (reset_password o token password w).1
  unfolding reset_password
  reset-Spent token password w h = elim (Result-cases (verify_token_str o.decode reset token w)) [
    | inl (x, bad) ↦ ground arith
    | inr (d, good) ↦
        let fits : Fits d = λ own. verified-exp reset token w d good own in
        ground (arith, (reset_verified-Keeps d password w.clock fits w (h, refl)).0)
  ]

  pub cookie-Spent :
      (token : Option ℕ) (w : World) → Spent j e w → Spent j e (revoke_cookie o token w).1
  unfolding revoke_cookie
  cookie-Spent none w h = h
  cookie-Spent (some token) w h = elim (Result-cases (verify_token_str o.decode refresh token w)) [
    | inl (x, bad) ↦ ground arith
    | inr (d, good) ↦
        let fits : Fits d = λ own. verified-exp refresh token w d good own in
        ground (arith, (blacklisted-Keeps d w.clock fits w (h, refl)).0)
  ]

  logout-Spent : (a r : Option ℕ) (w : World) → Spent j e w → Spent j e (logout o a r w).1
  unfolding logout verify_token
  logout-Spent none r w h = h
  logout-Spent (some token) r w h = elim (Result-cases (verify_token_str o.decode access token w)) [
    | inl (x, bad) ↦ ground arith
    | inr (d, good) ↦
        let fits : Fits d = λ own. verified-exp access token w d good own in
        let first_one = (blacklisted-Keeps d w.clock fits w (h, refl)).0 in
        ground (
          arith,
          first_one,
          cookie-Spent r (blacklist_token d.jti (remaining_seconds w.clock d) w).1 first_one,
        )
  ]

  call-Spent :
      (token : Option ℕ) (w : World) → Spent j e w → Spent j e (get_current_user o token w).1
  unfolding get_current_user verify_token
  call-Spent none w h = h
  call-Spent (some token) w h = elim (Result-cases (verify_token_str o.decode access token w)) [
    | inl (x, bad) ↦ ground arith
    | inr (d, good) ↦ ground (arith, (current_verified-Keeps d w.clock w (h, refl)).0)
  ]

  run-Spent : (event : Event) (w : World) → Spent j e w → Spent j e (run o event w)
  unfolding run
  run-Spent (logs_in address password) w h = (login-Keeps address password w.clock w (h, refl)).0
  run-Spent (refreshes token) w h = refresh-Spent token w h
  run-Spent (resets token password) w h = reset-Spent token password w h
  run-Spent (logs_out a r) w h = logout-Spent a r w h
  run-Spent (calls token) w h = call-Spent token w h
  run-Spent (waits n) w h = ground arith
  run-Spent (faults fs) w h = h

  pub run_all-Spent :
      (events : List Event) (w : World) → Spent j e w → Spent j e (run_all o events w)
  unfolding run_all
  run_all-Spent [] w h = h
  run_all-Spent (event ∷ events) w h = run_all-Spent events (run o event w) (run-Spent event w h)
