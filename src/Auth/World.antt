-- ===== src/Auth/World.antt =====
-- The state that authentication reads and writes: the users, and the keys that it keeps in Redis.
-- A Redis key that expires is stored with the millisecond at which it does.
use heofberu_backend.Prelude.{
  ℕ, Bool, true, false, List, [], ◌∷◌, Option, none, some, ltb, if◌then◌else◌, update,
}
use heofberu_backend.Prelude.Result.{⊤, ok, err}
use heofberu_backend.Prelude.State.{Action}

-- a `sub` claim: the decimal id of a user, an email, or neither
pub data Subject : Type 0 where
  user_id : ℕ → Subject
  email : ℕ → Subject
  neither : Subject

pub data TokenType : Type 0 where
  access refresh reset unknown : TokenType

abbrev pub same_type : TokenType → TokenType → Bool
same_type access access = true
same_type refresh refresh = true
same_type reset reset = true
same_type _ _ = false

-- the claims of a token, as `jwt.decode` returns them; `exp` is in seconds
pub record Payload : Type 0 where
  pub sub : Option Subject
  pub token_type : TokenType
  pub jti : Option ℕ
  pub exp : Option ℕ
  pub iat_ms : Option ℕ

pub record User : Type 0 where
  pub id : ℕ
  pub hashed_password : ℕ

pub record World : Type 0 where
  -- the time in milliseconds
  pub clock : ℕ
  -- does the next call of Redis, the database or the hasher fail? (no entry: it does not)
  pub faults : List Bool
  -- `token_blacklist:<jti>`: when the key expires
  pub blacklist : ℕ → Option ℕ
  -- `auth_revoked_after:<user>`: its timestamp, and when the key expires
  pub revoked_after : ℕ → Option (ℕ × ℕ)
  pub users : ℕ → Option User
  -- the unique index of the users' emails
  pub by_email : ℕ → Option ℕ
  -- the next value that `uuid4` gives
  pub next_jti : ℕ

pub data AuthError : Type 0 where
  invalid_token invalid_credentials invalid_reset_token service_unavailable : AuthError
  database_error : AuthError

abbrev pub Auth : Type 0 → Type 0
Auth A = Action World AuthError A

abbrev pub next_fault : List Bool → Bool
next_fault [] = false
next_fault (f ∷ _) = f

abbrev pub later_faults : List Bool → List Bool
later_faults [] = []
later_faults (_ ∷ fs) = fs

-- a call of an outside service that may fail
unfoldable pub outside : AuthError → Auth ⊤
outside e w =
    (if next_fault w.faults then err e else ok tt, record w { faults = later_faults w.faults })

-- has the key's time not come?
abbrev pub alive : ℕ → Option ℕ → Bool
alive now none = false
alive now (some until) = ltb now until

abbrev pub set_key : ℕ → ℕ → World → World
set_key jti until w = record w { blacklist = update w.blacklist jti (some until) }

abbrev pub delete_key : ℕ → World → World
delete_key jti w = record w { blacklist = update w.blacklist jti none }
