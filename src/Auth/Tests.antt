-- ===== src/Auth/Tests.antt =====
-- The theorems on accounts at a small installation: one user, a refresh, a reset and an access token.
use heofberu_backend.Prelude.{
  ◌↔◌, ℕ, ◌≡◌, ◌≤◌, ◌<◌, ◌+◌, ◌*◌, refl, true, false, List, [], ◌∷◌, none, some, arith, ◌==◌, ◌||◌,
  if◌then◌else◌,
}
use heofberu_backend.Prelude.Result.{ok, is_ok}
use heofberu_backend.Auth.World.{outside, user_id, access, refresh, reset, Payload, User, World}
use heofberu_backend.Auth.Token.{
  DecodedToken, create_token, verify_token, verify_payload, blacklist_token, verify_token_str,
  issued_at_ms, remaining_seconds,
}
use heofberu_backend.Auth.Sessions.{is_session_revoked, claim_token, set_nx, revoke_user_sessions}
use heofberu_backend.Auth.Service.{
  Outside, get_by_subject, refresh_tokens, reset_password, logout, get_current_user, claim_once,
  refresh_verified, reset_verified, issue_tokens, change_password, releasing, current_verified,
  revoke_cookie, resolve_subject_id,
}
use heofberu_backend.Auth.History.{run, Event, refreshes, resets, waits, run_all}
use heofberu_backend.Auth.Rotation.{
  IsSigned, refresh_tokens-single_use, reset_password-single_use, logout-refuses_access,
}
use heofberu_backend.Auth.Revocation.{reset_password-ends_sessions}
use heofberu_backend.Auth.Current.{Authenticates, get_current_user_exact}

-- token 1 refreshes, token 2 resets, token 3 gives access
abbrev claims : ℕ → Payload
claims token = record {
  sub = some (user_id 7);
  token_type = if token == 1 then refresh else if token == 2 then reset else access;
  jti = some token;
  exp = some 1000;
  iat_ms = some 5000;
}

abbrev office : Outside
office = record {
  decode =
      λ now token. if token == 1 || token == 2 || token == 3 then some (claims token) else none;
  verify_password = λ password hash. password == hash;
  get_password_hash = λ password. password;
}

abbrev morning : World
morning = record {
  clock = 60000;
  faults = [];
  blacklist = λ _. none;
  revoked_after = λ _. none;
  users = λ id. if id == 7 then some (record { id = 7; hashed_password = 99 }) else none;
  by_email = λ _. none;
  next_jti = 10;
}

office-IsSigned : IsSigned office
office-IsSigned = record {
  one_payload = λ now now' token p p' h h'. ground arith;
  one_jti = λ now now' token token' p p' jti h h' j j'. ground arith;
}

-- a replay by somebody else, a reset, and an hour
abbrev busy : List Event
busy = refreshes 1 ∷ resets 2 5 ∷ waits 3600000 ∷ []

first_refresh : is_ok (refresh_tokens office 1 morning).0 ≡ true
unfolding refresh_tokens refresh_verified claim_once verify_token_str verify_payload get_by_subject
    is_session_revoked outside claim_token set_nx remaining_seconds issue_tokens create_token
    issued_at_ms
first_refresh = refl

refresh_tokens-single_use_example :
    is_ok (refresh_tokens office 1 (run_all office busy (refresh_tokens office 1 morning).1)).0
    ≡ false
refresh_tokens-single_use_example =
    refresh_tokens-single_use office office-IsSigned 1 morning busy first_refresh

first_reset : is_ok (reset_password office 2 42 morning).0 ≡ true
unfolding reset_password reset_verified claim_once verify_token_str verify_payload get_by_subject
    is_session_revoked outside claim_token set_nx remaining_seconds issued_at_ms change_password
    releasing revoke_user_sessions
first_reset = refl

reset_password-single_use_example :
    is_ok
      (reset_password office 2 43 (run_all office busy (reset_password office 2 42 morning).1)).0
    ≡ false
reset_password-single_use_example =
    reset_password-single_use office office-IsSigned 2 42 43 morning busy first_reset

first_logout : is_ok (logout office (some 3) none morning).0 ≡ true
unfolding logout verify_token verify_token_str verify_payload blacklist_token remaining_seconds
    outside revoke_cookie
first_logout = refl

left_over :
    (d : DecodedToken)
    → verify_token_str office.decode access 3
        (run_all office (refreshes 1 ∷ []) (logout office (some 3) none morning).1)
      ≡ ok d
    → 1
      ≤ remaining_seconds
          (run_all office (refreshes 1 ∷ []) (logout office (some 3) none morning).1).clock
          d
unfolding logout verify_token verify_token_str verify_payload blacklist_token remaining_seconds
    outside revoke_cookie run_all run refresh_tokens refresh_verified claim_once get_by_subject
    is_session_revoked claim_token set_nx issue_tokens create_token issued_at_ms
left_over d h = ground arith

logout-refuses_access_example :
    is_ok
      (get_current_user office
        (some 3)
        (run_all office (refreshes 1 ∷ []) (logout office (some 3) none morning).1)).0
    ≡ false
logout-refuses_access_example =
    logout-refuses_access office office-IsSigned 3 none morning (refreshes 1 ∷ []) first_logout
      left_over

abbrev admin : User
admin = record { id = 7; hashed_password = 99 }

abbrev decoded : ℕ → DecodedToken
decoded token = record {
  subject = user_id 7;
  jti = token;
  expires_at = 1000;
  token_type = if token == 1 then refresh else if token == 2 then reset else access;
  iat_ms = some 5000;
}

reset_token : verify_token_str office.decode reset 2 morning ≡ ok (decoded 2)
unfolding verify_token_str verify_payload
reset_token = refl

reset_user : get_by_subject (user_id 7) morning ≡ some admin
unfolding get_by_subject
reset_user = refl

old_token :
    verify_token_str office.decode refresh 1
      (run_all office [] (reset_password office 2 42 morning).1)
    ≡ ok (decoded 1)
unfolding verify_token_str verify_payload
old_token = refl

same_user :
    (user : User)
    → get_by_subject (user_id 7) (run_all office [] (reset_password office 2 42 morning).1)
      ≡ some user
    → user.id ≡ 7
unfolding reset_password reset_verified claim_once verify_token_str verify_payload get_by_subject
    is_session_revoked outside claim_token set_nx remaining_seconds issued_at_ms change_password
    releasing revoke_user_sessions run_all
same_user user h = ground arith

older : issued_at_ms (decoded 1) < 60000
unfolding issued_at_ms
older = omega arith

short_lived : 1000 * 1000 ≤ issued_at_ms (decoded 1) + 2592000000
unfolding issued_at_ms
short_lived = omega arith

reset_password-ends_sessions_example :
    is_ok (refresh_tokens office 1 (run_all office [] (reset_password office 2 42 morning).1)).0
    ≡ false
reset_password-ends_sessions_example =
    reset_password-ends_sessions office 2 42 morning (decoded 2) admin [] 1 (decoded 1) reset_token
      reset_user first_reset old_token same_user older short_lived

morning_call : (get_current_user office (some 3) morning).0 ≡ ok admin
unfolding get_current_user verify_token verify_token_str verify_payload current_verified
    resolve_subject_id is_session_revoked outside issued_at_ms
morning_call = refl

get_current_user_exact_example :
    ((get_current_user office (some 3) morning).0 ≡ ok admin) ↔ Authenticates office 3 admin morning
get_current_user_exact_example = get_current_user_exact office 3 admin morning
