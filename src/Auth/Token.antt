-- ===== src/Auth/Token.antt =====
-- app/core/security/token.py: the claims of a token, its verification and its blacklisting. The
-- signature check of the JWT library is a parameter: `decode` takes the time and the token.
use heofberu_backend.Prelude.{
  ℕ, ◌+◌, ◌-◌, ◌*◌, ◌/◌, ◌≡◌, inl, inr, Bool, true, Option, none, some, ◌==◌, if◌then◌else◌, arith,
  Option-cases,
}
use heofberu_backend.Prelude.Result.{⊤, Result, ok, err}
use heofberu_backend.Prelude.State.{pure, gets, modify, ◌>>◌}
use heofberu_backend.Auth.World.{
  Subject, TokenType, access, refresh, reset, unknown, same_type, Payload, World, AuthError,
  invalid_token, service_unavailable, Auth, outside, alive, set_key,
}

-- the lifetimes in seconds; an unknown type has that of an access token
abbrev pub lifetime : TokenType → ℕ
lifetime access = 1800
lifetime refresh = 2592000
lifetime reset = 900
lifetime unknown = 1800

-- `create_token`: the claims that are encoded for a subject
unfoldable pub create_token : Subject → TokenType → World → Payload
create_token subject token_type w = record {
  sub = some subject;
  token_type = token_type;
  jti = some w.next_jti;
  exp = some (w.clock / 1000 + lifetime token_type);
  iat_ms = some w.clock;
}

pub record DecodedToken : Type 0 where
  pub subject : Subject
  pub jti : ℕ
  -- in seconds
  pub expires_at : ℕ
  pub token_type : TokenType
  pub iat_ms : Option ℕ

-- `DecodedToken.issued_at_ms`; no token expires before a lifetime after 1970
unfoldable pub issued_at_ms : DecodedToken → ℕ
issued_at_ms d = elim d.iat_ms [
  | some iat_ms ↦ iat_ms
  | none ↦ (d.expires_at - lifetime d.token_type) * 1000
]

-- `DecodedToken.remaining_seconds`: `int(…)` of the difference, floored at 0
unfoldable pub remaining_seconds : ℕ → DecodedToken → ℕ
remaining_seconds now d = (d.expires_at * 1000 - now) / 1000

-- the three claims that `_verify_token_str` requires, and the type
unfoldable pub verify_payload : TokenType → Payload → Result AuthError DecodedToken
verify_payload required p = elim p.sub [
  | none ↦ err invalid_token
  | some subject ↦ elim p.jti [
    | none ↦ err invalid_token
    | some jti ↦ elim p.exp [
      | none ↦ err invalid_token
      | some exp ↦
          if same_type p.token_type required
          then ok (record {
            subject = subject;
            jti = jti;
            expires_at = exp;
            token_type = required;
            iat_ms = p.iat_ms;
          })
          else err invalid_token
    ]
  ]
]

-- `_verify_token_str`
unfoldable pub verify_token_str :
    (ℕ → ℕ → Option Payload) → TokenType → ℕ → World → Result AuthError DecodedToken
unfolding verify_payload
verify_token_str decode required token w = elim (decode w.clock token) [
  | none ↦ err invalid_token
  | some p ↦ verify_payload required p
]

-- `verify_token`, whose token may be missing
unfoldable pub verify_token :
    (ℕ → ℕ → Option Payload) → TokenType → Option ℕ → World → Result AuthError DecodedToken
unfolding verify_token_str
verify_token decode required none w = err invalid_token
verify_token decode required (some token) w = verify_token_str decode required token w

-- `blacklist_token`
unfoldable pub blacklist_token : ℕ → ℕ → Auth ⊤
unfolding outside
blacklist_token jti ttl_seconds =
    if ttl_seconds == 0
    then pure tt
    else (outside service_unavailable >> modify (λ w. set_key jti (w.clock + ttl_seconds * 1000) w))

-- `is_token_blacklisted`
unfoldable pub is_token_blacklisted : ℕ → Auth Bool
unfolding outside
is_token_blacklisted jti =
    outside service_unavailable >> gets (λ w. alive w.clock (w.blacklist jti))

-- the claims that a verified token has
abbrev pub Claims : TokenType → Payload → DecodedToken → Type 0
Claims required p d =
    (p.sub ≡ some d.subject)
    × (p.jti ≡ some d.jti)
    × (p.exp ≡ some d.expires_at)
    × (same_type p.token_type required ≡ true)
    × (p.iat_ms ≡ d.iat_ms)
    × (d.token_type ≡ required)

payload-Claims :
    (required : TokenType) (p : Payload) (d : DecodedToken)
    → verify_payload required p ≡ ok d
    → Claims required p d
unfolding verify_payload
payload-Claims required p d h = ground arith

pub verify-Claims :
    (decode : ℕ → ℕ → Option Payload) (required : TokenType) (token : ℕ) (w : World)
    (d : DecodedToken)
    → verify_token_str decode required token w ≡ ok d
    → (p : Payload) × (decode w.clock token ≡ some p) × Claims required p d
unfolding verify_token_str
verify-Claims decode required token w d h = elim (Option-cases (decode w.clock token)) [
  | inl bad ↦ ground arith
  | inr (p, found) ↦ (p, found, payload-Claims required p d (ground arith))
]
