-- ===== src/Auth/Sessions.antt =====
-- app/features/auth/sessions.py: the revocation of a user's sessions and single-use tokens.
use heofberu_backend.Prelude.{
  ℕ, ◌+◌, ◌*◌, Bool, true, false, ◌&&◌, Option, none, some, ltb, ◌==◌, if◌then◌else◌, update,
}
use heofberu_backend.Prelude.Result.{⊤, ok}
use heofberu_backend.Prelude.State.{gets, modify, ◌>>◌}
use heofberu_backend.Auth.World.{
  refresh, World, service_unavailable, Auth, next_fault, later_faults, outside, alive, set_key,
  delete_key,
}
use heofberu_backend.Auth.Token.{lifetime, DecodedToken, issued_at_ms}

-- was the token issued before the timestamp of a key that has not expired?
abbrev pub before_revocation : ℕ → ℕ → Option (ℕ × ℕ) → Bool
before_revocation now issued none = false
before_revocation now issued (some (after, until)) = ltb now until && ltb issued after

-- `is_session_revoked`
unfoldable pub is_session_revoked : DecodedToken → ℕ → Auth Bool
unfolding outside issued_at_ms
is_session_revoked decoded user =
    outside service_unavailable
    >> gets (λ w.
      if alive w.clock (w.blacklist decoded.jti)
      then true
      else before_revocation w.clock (issued_at_ms decoded) (w.revoked_after user))

abbrev pub set_revoked_after : ℕ → World → World
set_revoked_after user w = record w {
  revoked_after = update w.revoked_after user (some (w.clock, w.clock + lifetime refresh * 1000));
}

-- `revoke_user_sessions`
unfoldable pub revoke_user_sessions : ℕ → Auth ⊤
unfolding outside
revoke_user_sessions user = outside service_unavailable >> modify (set_revoked_after user)

-- `SET … NX`: writes the key and answers true only where no key is alive
unfoldable pub set_nx : ℕ → ℕ → Auth Bool
set_nx jti until w =
    if alive w.clock (w.blacklist jti) then (ok false, w) else (ok true, set_key jti until w)

-- `claim_token`
unfoldable pub claim_token : ℕ → ℕ → Auth Bool
unfolding outside set_nx
claim_token jti ttl_seconds w =
    if ttl_seconds == 0
    then (ok false, w)
    else (outside service_unavailable >> set_nx jti (w.clock + ttl_seconds * 1000)) w

-- `release_token`: a failure is logged and passed over
unfoldable pub release_token : ℕ → World → World
release_token jti w =
    let called = record w { faults = later_faults w.faults } in
    if next_fault w.faults then called else delete_key jti called
