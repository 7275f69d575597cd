-- ===== src/Auth/Current.antt =====
-- What authenticates a request.
use heofberu_backend.Prelude.{
  ℕ, ◌≤◌, ◌<◌, ◌-◌, ◌*◌, ◌≡◌, ◌↔◌, refl, sym, ap, ◌∙◌, true, false, Option, none, some, arith,
  Option-cases, inl, inr, some_same,
}
use heofberu_backend.Prelude.Result.{ok, Result-cases}
use heofberu_backend.Auth.World.{
  access, TokenType, same_type, Subject, Payload, User, World, next_fault, alive, outside,
}
use heofberu_backend.Auth.Token.{
  DecodedToken, issued_at_ms, verify_token_str, verify_token, verify_payload, verify-Claims,
}
use heofberu_backend.Auth.Sessions.{is_session_revoked, before_revocation}
use heofberu_backend.Auth.Service.{Outside, resolve_subject_id, current_verified, get_current_user}

-- the millisecond at which an access token says, or lets infer, that it was issued
abbrev pub issued_at : Option ℕ → ℕ → ℕ
issued_at (some iat_ms) exp = iat_ms
issued_at none exp = (exp - 1800) * 1000

-- no entry for the `jti` that has not expired
abbrev pub IsUnlisted : ℕ → Option ℕ → Type 0
IsUnlisted now entry = (until : ℕ) → entry ≡ some until → until ≤ now

-- no revocation that has not expired came after the token
abbrev pub IsUnrevoked : ℕ → ℕ → Option (ℕ × ℕ) → Type 0
IsUnrevoked now issued entry =
    (after until : ℕ) → entry ≡ some (after, until) → now < until → after ≤ issued

-- what a token that authenticates a user is
pub record Authenticates (o : Outside) (token : ℕ) (user : User) (w : World) : Type 0 where
  pub payload : Payload
  pub subject : Subject
  pub jti : ℕ
  pub exp : ℕ
  pub id : ℕ
  pub signed : o.decode w.clock token ≡ some payload
  pub claims : (payload.sub ≡ some subject) × (payload.jti ≡ some jti) × (payload.exp ≡ some exp)
  pub is_access : payload.token_type ≡ access
  pub named : resolve_subject_id subject w ≡ some id
  pub answered : next_fault w.faults ≡ false
  pub unlisted : IsUnlisted w.clock (w.blacklist jti)
  pub unrevoked : IsUnrevoked w.clock (issued_at payload.iat_ms exp) (w.revoked_after id)
  pub there : w.users id ≡ some user

same_type→eq : (t t' : TokenType) → same_type t t' ≡ true → t ≡ t'
same_type→eq t t' h = ground arith

alive→IsUnlisted : (now : ℕ) (entry : Option ℕ) → alive now entry ≡ false → IsUnlisted now entry
alive→IsUnlisted now entry h until is = ground (arith, h, is)

IsUnlisted→alive : (now : ℕ) (entry : Option ℕ) → IsUnlisted now entry → alive now entry ≡ false
IsUnlisted→alive now none h = refl
IsUnlisted→alive now (some until) h = ground (arith, h until refl)

some_pair :
    {a b a' b' : ℕ} → ◌≡◌ {A = Option (ℕ × ℕ)} (some (a, b)) (some (a', b')) → (a ≡ a') × (b ≡ b')
some_pair {a} {b} {a'} {b'} h =
    let pair : ◌≡◌ {A = ℕ × ℕ} (a, b) (a', b') = some_same refl h in
    (ap (λ p. p.0) pair, ap (λ p. p.1) pair)

before→IsUnrevoked :
    (now issued : ℕ) (entry : Option (ℕ × ℕ))
    → before_revocation now issued entry ≡ false
    → IsUnrevoked now issued entry
before→IsUnrevoked now issued none h after until is early = cc
before→IsUnrevoked now issued (some (a, u)) h after until is early =
    let (same, same') = some_pair is in ground (arith, same, same', h, early)

IsUnrevoked→before :
    (now issued : ℕ) (entry : Option (ℕ × ℕ))
    → IsUnrevoked now issued entry
    → before_revocation now issued entry ≡ false
IsUnrevoked→before now issued none h = refl
IsUnrevoked→before now issued (some (after, until)) h =
    let late = h after until refl in ground (arith, late)

-- what `get_current_user` has found out when it answers with the user
abbrev Found : DecodedToken → User → World → Type 0
Found d user w =
    (id : ℕ) × (resolve_subject_id d.subject w ≡ some id)
    × (next_fault w.faults ≡ false)
    × (alive w.clock (w.blacklist d.jti) ≡ false)
    × (before_revocation w.clock (issued_at_ms d) (w.revoked_after id) ≡ false)
    × (w.users id ≡ some user)

current_verified-Found :
    (d : DecodedToken) (user : User) (w : World)
    → (current_verified d w).0 ≡ ok user
    → Found d user w
unfolding current_verified is_session_revoked outside
current_verified-Found d user w h = elim (Option-cases (resolve_subject_id d.subject w)) [
  | inl nobody ↦ ground arith
  | inr (id, found) ↦ (id, found, ground arith, ground arith, ground arith, ground arith)
]

Found-current_verified :
    (d : DecodedToken) (user : User) (w : World)
    → Found d user w
    → (current_verified d w).0 ≡ ok user
unfolding current_verified is_session_revoked outside
Found-current_verified d user w (id, named, answered, unlisted, unrevoked, there) =
    ground (arith, named, answered, unlisted, unrevoked, there)

issued_at-eq :
    (d : DecodedToken) → d.token_type ≡ access → issued_at_ms d ≡ issued_at d.iat_ms d.expires_at
unfolding issued_at_ms
issued_at-eq d is = elim (Option-cases d.iat_ms) [
  | inl missing ↦ ground (arith, missing, is)
  | inr (t, given) ↦ ground (arith, given)
]

Found-Authenticates :
    (o : Outside) (token : ℕ) (user : User) (w : World) (d : DecodedToken)
    → verify_token_str o.decode access token w ≡ ok d
    → Found d user w
    → Authenticates o token user w
Found-Authenticates o token user w d good (id, named, answered, unlisted, unrevoked, there) =
    let (p, signed, (sub, jti, exp, type, iat, is_access)) =
      verify-Claims o.decode access token w d good in
    let issued : issued_at_ms d ≡ issued_at p.iat_ms d.expires_at =
      issued_at-eq d is_access ∙ ap (λ t. issued_at t d.expires_at) (sym iat) in
    record {
      payload = p;
      subject = d.subject;
      jti = d.jti;
      exp = d.expires_at;
      id = id;
      signed = signed;
      claims = (sub, jti, exp);
      is_access = same_type→eq p.token_type access type;
      named = named;
      answered = answered;
      unlisted = alive→IsUnlisted w.clock (w.blacklist d.jti) unlisted;
      unrevoked =
          before→IsUnrevoked w.clock (issued_at p.iat_ms d.expires_at) (w.revoked_after id)
            (ap (λ t. before_revocation w.clock t (w.revoked_after id)) (sym issued) ∙ unrevoked);
      there = there;
    }

-- the token of a payload with its claims
abbrev decoded_from : Subject → ℕ → ℕ → Option ℕ → DecodedToken
decoded_from subject jti exp iat_ms = record {
  subject = subject;
  jti = jti;
  expires_at = exp;
  token_type = access;
  iat_ms = iat_ms;
}

Authenticates-verified :
    (o : Outside) (token : ℕ) (user : User) (w : World) (a : Authenticates o token user w)
    → verify_token_str o.decode access token w
      ≡ ok (decoded_from a.subject a.jti a.exp a.payload.iat_ms)
unfolding verify_token_str verify_payload
Authenticates-verified o token user w a =
    let (sub, jti, exp) = a.claims in ground (arith, a.signed, sub, jti, exp, a.is_access)

-- A request is authenticated as a user exactly by a signed access token with its three claims, whose
-- `jti` has no entry on the blacklist that is still there, which was not issued before a revocation of
-- its user's sessions that is still there, and when Redis answers; the user is the row that the subject
-- names.
pub get_current_user_exact :
    (o : Outside) (token : ℕ) (user : User) (w : World)
    → ((get_current_user o (some token) w).0 ≡ ok user) ↔ Authenticates o token user w
unfolding get_current_user verify_token
get_current_user_exact o token user w = (
  λ h. elim (Result-cases (verify_token_str o.decode access token w)) [
    | inl (x, bad) ↦ absurd (ground (arith, h, bad))
    | inr (d, good) ↦
        Found-Authenticates o token user w d good
          (current_verified-Found d user w (ground (arith, h, good)))
  ],
  λ a.
      let d = decoded_from a.subject a.jti a.exp a.payload.iat_ms in
      let verified = Authenticates-verified o token user w a in
      let found = Found-current_verified d user w (
        a.id,
        a.named,
        a.answered,
        IsUnlisted→alive w.clock (w.blacklist a.jti) a.unlisted,
        ap (λ t. before_revocation w.clock t (w.revoked_after a.id)) (issued_at-eq d refl)
            ∙ IsUnrevoked→before w.clock (issued_at a.payload.iat_ms a.exp) (w.revoked_after a.id)
                a.unrevoked,
        a.there,
      ) in
      ground (arith, verified, found),
)
