-- ===== src/Auth/Service.antt =====
-- app/features/auth/service.py and the current user of dependencies.py. Outside code is a
-- parameter: the JWT library, and the hashing and checking of passwords.
use heofberu_backend.Prelude.{ℕ, ◌+◌, Bool, not, Option, none, some, leb, if◌then◌else◌, update}
use heofberu_backend.Prelude.Result.{⊤, ok, err}
use heofberu_backend.Prelude.State.{pure, gets, modify, ◌>>=◌, ◌>>◌, raise_when, or_raise}
use heofberu_backend.Auth.World.{
  Subject, user_id, email, neither, access, refresh, reset, Payload, User, World, AuthError,
  invalid_token, invalid_credentials, invalid_reset_token, database_error, Auth, outside,
}
use heofberu_backend.Auth.Token.{
  create_token, DecodedToken, remaining_seconds, verify_token_str, verify_token, blacklist_token,
}
use heofberu_backend.Auth.Sessions.{
  is_session_revoked, revoke_user_sessions, claim_token, release_token,
}

-- `jwt.decode` with the time, `verify_password` and `get_password_hash`
pub record Outside : Type 0 where
  pub decode : ℕ → ℕ → Option Payload
  pub verify_password : ℕ → ℕ → Bool
  pub get_password_hash : ℕ → ℕ

-- the claims of the two tokens of a response, which are then encoded
pub record Issued : Type 0 where
  pub refresh_cookie : Payload
  pub access_token : Payload

-- `_issue_tokens`: each token takes a fresh `jti`
unfoldable pub issue_tokens : ℕ → Auth Issued
unfolding create_token
issue_tokens id w =
    let w' = record w { next_jti = w.next_jti + 1 } in
    (
      ok (record {
        refresh_cookie = create_token (user_id id) refresh w;
        access_token = create_token (user_id id) access w';
      }),
      record w { next_jti = w.next_jti + 2 },
    )

abbrev pub max_int4 : ℕ
max_int4 = 2147483647

abbrev pub user_at : (ℕ → Option User) → Option ℕ → Option User
user_at users none = none
user_at users (some id) = users id

-- `UserRepository.get_by_subject`
unfoldable pub get_by_subject : Subject → World → Option User
get_by_subject (user_id id) w = if leb id max_int4 then w.users id else none
get_by_subject (email address) w = user_at w.users (w.by_email address)
get_by_subject neither w = none

-- `AuthService.login`; the last login and the cached user hold nothing that it reads
unfoldable pub login : Outside → ℕ → ℕ → Auth Issued
unfolding outside issue_tokens
login o address password = do
  found ← gets (λ w. user_at w.users (w.by_email address))
  user ← or_raise found invalid_credentials
  raise_when (not (o.verify_password password user.hashed_password)) invalid_credentials
  outside database_error
  issue_tokens user.id

-- the steps that `refresh_tokens` and `reset_password` take with a verified token, each with its
-- own exception: the user, the revocation check, the claim
unfoldable pub claim_once : AuthError → DecodedToken → Auth User
unfolding get_by_subject is_session_revoked remaining_seconds claim_token
claim_once error decoded = do
  found ← gets (get_by_subject decoded.subject)
  user ← or_raise found error
  revoked ← is_session_revoked decoded user.id
  raise_when revoked error
  ttl ← gets (λ w. remaining_seconds w.clock decoded)
  claimed ← claim_token decoded.jti ttl
  raise_when (not claimed) error
  pure user

-- `AuthService.refresh_tokens`, once the token is verified
unfoldable pub refresh_verified : DecodedToken → Auth Issued
unfolding claim_once issue_tokens
refresh_verified decoded = claim_once invalid_credentials decoded >>= λ user. issue_tokens user.id

-- `AuthService.refresh_tokens`
unfoldable pub refresh_tokens : Outside → ℕ → Auth Issued
unfolding verify_token_str refresh_verified
refresh_tokens o token w = elim (verify_token_str o.decode refresh token w) [
  | err e ↦ (err e, w)
  | ok decoded ↦ refresh_verified decoded w
]

abbrev pub set_password : User → ℕ → World → World
set_password user new_hash w = record w {
  users = update w.users user.id (some (record user { hashed_password = new_hash }));
}

-- the body of the `try` of `reset_password`: hash, commit, revoke
unfoldable pub change_password : Outside → User → ℕ → Auth ⊤
unfolding outside revoke_user_sessions
change_password o user new_password = do
  outside database_error
  outside database_error
  modify (set_password user (o.get_password_hash new_password))
  revoke_user_sessions user.id

-- `try: … except Exception: await release_token(jti); raise`
unfoldable pub releasing : ℕ → Auth ⊤ → Auth ⊤
unfolding release_token
releasing jti body w =
    let (r, w') = body w in elim r [ ok a ↦ (ok a, w') | err e ↦ (err e, release_token jti w') ]

-- `AuthService.reset_password`, once the token is verified
unfoldable pub reset_verified : Outside → ℕ → DecodedToken → Auth ⊤
unfolding claim_once change_password releasing
reset_verified o new_password decoded = claim_once invalid_reset_token decoded >>= λ user.
    releasing decoded.jti (change_password o user new_password)

-- `AuthService.reset_password`
unfoldable pub reset_password : Outside → ℕ → ℕ → Auth ⊤
unfolding verify_token_str reset_verified
reset_password o token new_password w = elim (verify_token_str o.decode reset token w) [
  | err _ ↦ (err invalid_reset_token, w)
  | ok decoded ↦ reset_verified o new_password decoded w
]

-- the refresh cookie of `logout`: missing and invalid ones are passed over
unfoldable pub revoke_cookie : Outside → Option ℕ → Auth ⊤
unfolding verify_token_str blacklist_token remaining_seconds
revoke_cookie o none w = (ok tt, w)
revoke_cookie o (some token) w = elim (verify_token_str o.decode refresh token w) [
  | err _ ↦ (ok tt, w)
  | ok decoded ↦ blacklist_token decoded.jti (remaining_seconds w.clock decoded) w
]

-- `AuthService.logout`
unfoldable pub logout : Outside → Option ℕ → Option ℕ → Auth ⊤
unfolding verify_token blacklist_token remaining_seconds revoke_cookie
logout o access_token refresh_token w = elim (verify_token o.decode access access_token w) [
  | err e ↦ (err e, w)
  | ok decoded ↦
      (blacklist_token decoded.jti (remaining_seconds w.clock decoded)
          >> revoke_cookie o refresh_token)
        w
]

-- `UserService.resolve_subject_id`
unfoldable pub resolve_subject_id : Subject → World → Option ℕ
resolve_subject_id (user_id id) w = if leb id max_int4 then some id else none
resolve_subject_id (email address) w = elim (user_at w.users (w.by_email address)) [
  | none ↦ none
  | some user ↦ some user.id
]
resolve_subject_id neither w = none

-- `get_current_user`, once the token is verified
unfoldable pub current_verified : DecodedToken → Auth User
unfolding resolve_subject_id is_session_revoked
current_verified decoded = do
  found ← gets (resolve_subject_id decoded.subject)
  id ← or_raise found invalid_token
  revoked ← is_session_revoked decoded id
  raise_when revoked invalid_token
  user ← gets (λ w. w.users id)
  or_raise user invalid_token

-- `get_current_user`
unfoldable pub get_current_user : Outside → Option ℕ → Auth User
unfolding verify_token current_verified
get_current_user o token w = elim (verify_token o.decode access token w) [
  | err e ↦ (err e, w)
  | ok decoded ↦ current_verified decoded w
]
