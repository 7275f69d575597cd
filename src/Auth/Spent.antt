-- ===== src/Auth/Spent.antt =====
-- A token that was claimed or blacklisted stays so until it has no second left to live.
use heofberu_backend.Prelude.{
  ℕ, ◌+◌, ◌*◌, ◌-◌, ◌/◌, ◌≤◌, ◌≡◌, refl, false, Option, none, some, arith, leb, ◌==◌, if◌then◌else◌,
  Bool-cases, ==→eq, inl, inr,
}
use heofberu_backend.Prelude.Result.{Result, ok, err}
use heofberu_backend.Prelude.State.{◌>>=◌}
use heofberu_backend.Auth.World.{Payload, World, AuthError, Auth, outside}
use heofberu_backend.Auth.Token.{DecodedToken, blacklist_token}
use heofberu_backend.Auth.Sessions.{
  is_session_revoked, revoke_user_sessions, claim_token, release_token, set_nx,
}
use heofberu_backend.Auth.Service.{Outside}

-- the later of now and the moment at which a key expires
abbrev pub last_moment : ℕ → Option ℕ → ℕ
last_moment now none = now
last_moment now (some until) = if leb now until then until else now

-- no whole second is left when the key of the token has expired
abbrev pub Spent : ℕ → ℕ → World → Type 0
Spent jti exp w = exp * 1000 ≤ last_moment w.clock (w.blacklist jti) + 999

-- the expiry of the tokens that carry a `jti`
abbrev pub JtiIs : Outside → ℕ → ℕ → Type 0
JtiIs o jti exp =
    (now token : ℕ) (p : Payload)
    → o.decode now token ≡ some p
    → p.jti ≡ some jti
    → p.exp ≡ some exp

abbrev pub Keeps : (World → Type 0) → {A : Type 0} → Auth A → Type 0
Keeps P m = (w : World) → P w → P (m w).1

after :
    (P : World → Type 0) {A B : Type 0} (out : Result AuthError A × World) (f : A → Auth B)
    → P out.1
    → ((a : A) → out.0 ≡ ok a → Keeps P (f a))
    → P
        (elim out.0 as (λ _. Result AuthError B × World) [
          | ok a ↦ f a out.1
          | err e ↦ (err e, out.1)
        ]).1
after P (ok a, w) f h next = next a refl w h
after P (err e, w) f h next = h

-- a step and what follows from a value that it may return
pub bind-Keeps :
    (P : World → Type 0) {A B : Type 0} (m : Auth A) (f : A → Auth B)
    → Keeps P m
    → ((a : A) (w : World) → P w → (m w).0 ≡ ok a → Keeps P (f a))
    → Keeps P (m >>= f)
bind-Keeps P m f first next w h = after P (m w) f (first w h) (λ a got. next a w h got)

module _ (j e now : ℕ) where
  -- the invariant of one request, during which the clock stands still
  abbrev pub SpentAt : World → Type 0
  SpentAt w = Spent j e w × (w.clock ≡ now)

  pub outside-Keeps : (error : AuthError) → Keeps SpentAt (outside error)
  unfolding outside
  outside-Keeps error w h = h

  pub claim-Keeps :
      (jti ttl : ℕ)
      → ((jti ≡ j) → ttl ≡ (e * 1000 - now) / 1000)
      → Keeps SpentAt (claim_token jti ttl)
  unfolding claim_token outside set_nx
  claim-Keeps jti ttl fits w (h, c) = elim (Bool-cases (jti == j)) [
    | inl own ↦ ground (arith, fits (==→eq jti j own))
    | inr other ↦ ground arith
  ]

  pub blacklist-Keeps :
      (jti ttl : ℕ)
      → ((jti ≡ j) → ttl ≡ (e * 1000 - now) / 1000)
      → Keeps SpentAt (blacklist_token jti ttl)
  unfolding blacklist_token outside
  blacklist-Keeps jti ttl fits w (h, c) = elim (Bool-cases (jti == j)) [
    | inl own ↦ ground (arith, fits (==→eq jti j own))
    | inr other ↦ ground arith
  ]

  pub revoked-Keeps : (d : DecodedToken) (user : ℕ) → Keeps SpentAt (is_session_revoked d user)
  unfolding is_session_revoked outside
  revoked-Keeps d user w h = ground arith

  pub revoke-Keeps : (user : ℕ) → Keeps SpentAt (revoke_user_sessions user)
  unfolding revoke_user_sessions outside
  revoke-Keeps user w h = ground arith

  pub release-Keeps :
      (jti : ℕ) (w : World) → (jti == j) ≡ false → SpentAt w → SpentAt (release_token jti w)
  unfolding release_token
  release-Keeps jti w other h = ground arith
