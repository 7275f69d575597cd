-- ===== src/Auth/Spending.antt =====
-- An accepted request spends its token, and a spent token is refused.
use heofberu_backend.Prelude.{ℕ, ◌≤◌, ◌≡◌, refl, true, false, some, arith, inl, inr}
use heofberu_backend.Prelude.Result.{⊤, ok, is_ok, Result-cases}
use heofberu_backend.Auth.World.{
  access, refresh, reset, User, World, invalid_credentials, invalid_reset_token, Auth, outside,
}
use heofberu_backend.Auth.Token.{
  DecodedToken, remaining_seconds, verify_token_str, verify_token, blacklist_token,
}
use heofberu_backend.Auth.Sessions.{is_session_revoked}
use heofberu_backend.Auth.Service.{
  Outside, issue_tokens, refresh_tokens, change_password, releasing, claim_once, refresh_verified,
  reset_verified, reset_password, get_current_user, current_verified,
}
use heofberu_backend.Auth.Spent.{Spent}
use heofberu_backend.Auth.SingleUse.{claim_once-refused, claim_once-Spent, change_password-Keeps}

pub refresh-refused :
    (o : Outside) (token : ℕ) (w : World)
    → ((d : DecodedToken)
        → verify_token_str o.decode refresh token w ≡ ok d
        → Spent d.jti d.expires_at w)
    → is_ok (refresh_tokens o token w).0 ≡ false
unfolding refresh_tokens refresh_verified
refresh-refused o token w spent = elim (Result-cases (verify_token_str o.decode refresh token w)) [
  | inl (x, bad) ↦ ground arith
  | inr (d, good) ↦ ground (arith, claim_once-refused invalid_credentials d w (spent d good))
]

pub refresh-spends :
    (o : Outside) (token : ℕ) (w : World)
    → is_ok (refresh_tokens o token w).0 ≡ true
    → (d : DecodedToken) × (verify_token_str o.decode refresh token w ≡ ok d)
      × Spent d.jti d.expires_at (refresh_tokens o token w).1
unfolding refresh_tokens refresh_verified issue_tokens
refresh-spends o token w h = elim (Result-cases (verify_token_str o.decode refresh token w)) [
  | inl (x, bad) ↦ ground arith
  | inr (d, good) ↦ (d, good, ground (arith, claim_once-Spent invalid_credentials d w))
]

pub reset-refused :
    (o : Outside) (token password : ℕ) (w : World)
    → ((d : DecodedToken)
        → verify_token_str o.decode reset token w ≡ ok d
        → Spent d.jti d.expires_at w)
    → is_ok (reset_password o token password w).0 ≡ false
unfolding reset_password reset_verified
reset-refused o token password w spent =
    elim (Result-cases (verify_token_str o.decode reset token w)) [
      | inl (x, bad) ↦ ground arith
      | inr (d, good) ↦ ground (arith, claim_once-refused invalid_reset_token d w (spent d good))
    ]

pub releasing-ok :
    (jti : ℕ) (body : Auth ⊤) (w : World)
    → is_ok (releasing jti body w).0 ≡ true
    → (releasing jti body w).1 ≡ (body w).1
unfolding releasing
releasing-ok jti body w h = elim (Result-cases (body w).0) [
  | inl (x, bad) ↦ ground arith
  | inr (d, good) ↦ ground arith
]

pub release_step :
    (o : Outside) (d : DecodedToken) (user : User) (password : ℕ) (w : World)
    → Spent d.jti d.expires_at w
    → is_ok (releasing d.jti (change_password o user password) w).0 ≡ true
    → Spent d.jti d.expires_at (releasing d.jti (change_password o user password) w).1
release_step o d user password w h good =
    rw (releasing-ok d.jti (change_password o user password) w good)
      (change_password-Keeps o d.jti d.expires_at user password w.clock w (h, refl)).0

pub reset_verified-spends :
    (o : Outside) (password : ℕ) (d : DecodedToken) (w : World)
    → is_ok (reset_verified o password d w).0 ≡ true
    → Spent d.jti d.expires_at (reset_verified o password d w).1
unfolding reset_verified
reset_verified-spends o password d w h =
    elim (Result-cases (claim_once invalid_reset_token d w).0) [
      | inl (x, bad) ↦ ground arith
      | inr (user, good) ↦ ground (
        arith,
        release_step o d user password (claim_once invalid_reset_token d w).1
            (claim_once-Spent invalid_reset_token d w (ground arith)),
      )
    ]

pub reset-spends :
    (o : Outside) (token password : ℕ) (w : World)
    → is_ok (reset_password o token password w).0 ≡ true
    → (d : DecodedToken) × (verify_token_str o.decode reset token w ≡ ok d)
      × Spent d.jti d.expires_at (reset_password o token password w).1
unfolding reset_password
reset-spends o token password w h = elim (Result-cases (verify_token_str o.decode reset token w)) [
  | inl (x, bad) ↦ ground arith
  | inr (d, good) ↦ (d, good, ground (arith, reset_verified-spends o password d w))
]

pub blacklist-spends :
    (d : DecodedToken) (w : World)
    → is_ok (blacklist_token d.jti (remaining_seconds w.clock d) w).0 ≡ true
    → Spent d.jti d.expires_at (blacklist_token d.jti (remaining_seconds w.clock d) w).1
unfolding blacklist_token remaining_seconds outside
blacklist-spends d w h = ground arith

pub current-refused :
    (o : Outside) (token : ℕ) (w : World)
    → ((d : DecodedToken)
        → verify_token_str o.decode access token w ≡ ok d
        → Spent d.jti d.expires_at w × (1 ≤ remaining_seconds w.clock d))
    → is_ok (get_current_user o (some token) w).0 ≡ false
unfolding get_current_user verify_token current_verified is_session_revoked outside
    remaining_seconds
current-refused o token w spent = elim (Result-cases (verify_token_str o.decode access token w)) [
  | inl (x, bad) ↦ ground arith
  | inr (d, good) ↦ ground (arith, (spent d good).0, (spent d good).1)
]
