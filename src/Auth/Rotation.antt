-- ===== src/Auth/Rotation.antt =====
-- A refresh token and a reset token work once; a token that was logged out is refused.
use heofberu_backend.Prelude.{
  some_same, ℕ, ◌≤◌, ◌≡◌, true, false, List, Option, some, arith, inl, inr,
}
use heofberu_backend.Prelude.Result.{ok, is_ok, Result-cases}
use heofberu_backend.Auth.World.{TokenType, access, refresh, reset, Payload, World}
use heofberu_backend.Auth.Token.{
  DecodedToken, remaining_seconds, verify_token_str, verify_token, verify-Claims, blacklist_token,
}
use heofberu_backend.Auth.Service.{
  Outside, refresh_tokens, reset_password, logout, get_current_user,
}
use heofberu_backend.Auth.History.{Event, run_all}
use heofberu_backend.Auth.Spent.{Spent, JtiIs}
use heofberu_backend.Auth.SingleUse.{cookie-Spent, run_all-Spent}
use heofberu_backend.Auth.Spending.{
  refresh-refused, refresh-spends, reset-refused, reset-spends, blacklist-spends, current-refused,
}

-- what the JWT library and `uuid4` give: a token has one payload, whenever it is decoded, and
-- no two payloads share a `jti`
pub record IsSigned (o : Outside) : Type 0 where
  pub one_payload :
      (now now' token : ℕ) (p p' : Payload)
      → o.decode now token ≡ some p
      → o.decode now' token ≡ some p'
      → p ≡ p'
  pub one_jti :
      (now now' token token' : ℕ) (p p' : Payload) (jti : ℕ)
      → o.decode now token ≡ some p
      → o.decode now' token' ≡ some p'
      → p.jti ≡ some jti
      → p'.jti ≡ some jti
      → p ≡ p'

module _ (o : Outside) (signed : IsSigned o) where
  jti_is :
      (required : TokenType) (token : ℕ) (w : World) (d : DecodedToken)
      → verify_token_str o.decode required token w ≡ ok d
      → JtiIs o d.jti d.expires_at
  jti_is required token w d h now token' p' found' has =
      let (p, found, (_, jti, exp, _, _, _)) = verify-Claims o.decode required token w d h in
      let same = signed.one_jti w.clock now token token' p p' d.jti found found' jti has in
      rw (← same) exp

  same_claims :
      (required : TokenType) (token : ℕ) (w w' : World) (d d' : DecodedToken)
      → verify_token_str o.decode required token w ≡ ok d
      → verify_token_str o.decode required token w' ≡ ok d'
      → (d'.jti ≡ d.jti) × (d'.expires_at ≡ d.expires_at)
  same_claims required token w w' d d' h h' =
      let (p, found, (_, jti, exp, _, _, _)) = verify-Claims o.decode required token w d h in
      let (p', found', (_, jti', exp', _, _, _)) = verify-Claims o.decode required token w' d' h' in
      let same = signed.one_payload w.clock w'.clock token p p' found found' in
      (some_same jti' (rw (← same) jti), some_same exp' (rw (← same) exp))

  -- A refresh token that was exchanged once is refused ever after, whatever requests are served in
  -- between, however much time passes and whichever outside calls fail; given that a token decodes
  -- to one payload and that no two payloads share a `jti`.
  pub refresh_tokens-single_use :
      (token : ℕ) (w : World) (events : List Event)
      → is_ok (refresh_tokens o token w).0 ≡ true
      → is_ok (refresh_tokens o token (run_all o events (refresh_tokens o token w).1)).0 ≡ false
  unfolding refresh_tokens
  refresh_tokens-single_use token w events h =
      let (d, good, spent) = refresh-spends o token w h in
      let w' = run_all o events (refresh_tokens o token w).1 in
      let later =
        run_all-Spent o d.jti d.expires_at (jti_is refresh token w d good) events
          (refresh_tokens o token w).1 spent in
      refresh-refused o token w' (λ d' good'.
        let (jti, exp) = same_claims refresh token w w' d d' good good' in rw jti (rw exp later))

  -- A reset token whose reset was answered with success is refused ever after, for any new password,
  -- whatever requests are served in between, however much time passes and whichever later outside
  -- calls fail;
  -- given that a token decodes to one payload and that no two payloads share a `jti`.
  pub reset_password-single_use :
      (token password password' : ℕ) (w : World) (events : List Event)
      → is_ok (reset_password o token password w).0 ≡ true
      → is_ok
          (reset_password o token password'
            (run_all o events (reset_password o token password w).1)).0
        ≡ false
  reset_password-single_use token password password' w events h =
      let (d, good, spent) = reset-spends o token password w h in
      let w₁ = (reset_password o token password w).1 in
      let w' = run_all o events w₁ in
      let later =
        run_all-Spent o d.jti d.expires_at (jti_is reset token w d good) events w₁ spent in
      reset-refused o token password' w' (λ d' good'.
        let (jti, exp) = same_claims reset token w w' d d' good good' in rw jti (rw exp later))

  logout-spends :
      (token : ℕ) (cookie : Option ℕ) (w : World)
      → is_ok (logout o (some token) cookie w).0 ≡ true
      → (d : DecodedToken) × (verify_token_str o.decode access token w ≡ ok d)
        × Spent d.jti d.expires_at (logout o (some token) cookie w).1
  unfolding logout verify_token
  logout-spends token cookie w h = elim (Result-cases (verify_token_str o.decode access token w)) [
    | inl (x, bad) ↦ ground arith
    | inr (d, good) ↦
        let w₁ = (blacklist_token d.jti (remaining_seconds w.clock d) w).1 in
        (
          d,
          good,
          ground (
            arith,
            blacklist-spends d w,
            cookie-Spent o d.jti d.expires_at (jti_is access token w d good) cookie w₁,
          ),
        )
  ]

  -- An access token that was logged out authenticates no request for as long as it has a whole
  -- second left to live, whatever requests are served in between and whichever outside calls fail;
  -- given that a token decodes to one payload and that no two payloads share a `jti`.
  pub logout-refuses_access :
      (token : ℕ) (cookie : Option ℕ) (w : World) (events : List Event)
      → is_ok (logout o (some token) cookie w).0 ≡ true
      → ((d : DecodedToken)
          → verify_token_str o.decode access token
              (run_all o events (logout o (some token) cookie w).1)
            ≡ ok d
          → 1 ≤ remaining_seconds (run_all o events (logout o (some token) cookie w).1).clock d)
      → is_ok
          (get_current_user o (some token) (run_all o events (logout o (some token) cookie w).1)).0
        ≡ false
  logout-refuses_access token cookie w events h left =
      let (d, good, spent) = logout-spends token cookie w h in
      let w₁ = (logout o (some token) cookie w).1 in
      let w' = run_all o events w₁ in
      let later =
        run_all-Spent o d.jti d.expires_at (jti_is access token w d good) events w₁ spent in
      current-refused o token w' (λ d' good'.
        let (jti, exp) = same_claims access token w w' d d' good good' in
        (rw jti (rw exp later), left d' good'))
