-- ===== src/Prelude/Result.antt =====
-- The outcome of code that may raise: `ok` with its value, or `err` with the exception.
use mathlib.Core.Path.{◌≡◌, refl}
use mathlib.Core.Logic.{◌⊎◌, inl, inr}
use mathlib.Core.Bool.{Bool, true, false}

abbrev pub ⊤ : Type 0
⊤ = Unit

pub data Result {ℓ κ} (E : Type ℓ) (A : Type κ) : Type (ℓ ⊔ κ) where
  ok : A → Result E A
  err : E → Result E A

infixl 5 ◌>>=◌ ◌>>◌
abbrev pub ◌>>=◌ {ℓ κ μ} :
    {E : Type ℓ} {A : Type κ} {B : Type μ} → Result E A → (A → Result E B) → Result E B
ok a >>= f = f a
err e >>= f = err e

abbrev pub ◌>>◌ {ℓ μ} : {E : Type ℓ} {B : Type μ} → Result E (Unit {0}) → Result E B → Result E B
m >> k = m >>= λ _. k

-- `if c: raise e`
abbrev pub raise_if {ℓ} : {E : Type ℓ} → Bool → E → Result E (Unit {0})
raise_if true e = err e
raise_if false e = ok tt

-- a chain that succeeds has a first step that succeeds, and so has the rest
pub bind-ok {ℓ κ μ} :
    {E : Type ℓ} {A : Type κ} {B : Type μ} (m : Result E A) (f : A → Result E B) {b : B}
    → (m >>= f) ≡ ok b
    → (a : A) × (m ≡ ok a) × (f a ≡ ok b)
bind-ok (ok a) f h = (a, refl, h)
bind-ok (err e) f h = cc

pub then-ok {ℓ μ} :
    {E : Type ℓ} {B : Type μ} (m : Result E ⊤) (k : Result E B) {b : B}
    → (m >> k) ≡ ok b
    → (m ≡ ok tt) × (k ≡ ok b)
then-ok (ok tt) k h = (refl, h)
then-ok (err e) k h = cc

pub ok-injective {ℓ κ} :
    {E : Type ℓ} {A : Type κ} {a b : A} → ◌≡◌ {A = Result E A} (ok a) (ok b) → a ≡ b
ok-injective h = cc

-- a chain whose first step succeeds goes on from its value
pub bind-at {ℓ κ μ} :
    {E : Type ℓ} {A : Type κ} {B : Type μ} (m : Result E A) (f : A → Result E B) {a : A}
    → m ≡ ok a
    → (m >>= f) ≡ f a
bind-at m f h = rw h refl

-- `if c: raise e`, in front of an answer
pub raise_if-ok {ℓ μ} :
    {E : Type ℓ} {B : Type μ} (c : Bool) (e : E) (k : Result E B) {b : B}
    → (raise_if c e >> k) ≡ ok b
    → (c ≡ false) × (k ≡ ok b)
raise_if-ok true e k h = cc
raise_if-ok false e k h = (refl, h)

pub raise_if-false {ℓ} : {E : Type ℓ} (c : Bool) (e : E) → raise_if c e ≡ ok tt → c ≡ false
raise_if-false true e h = cc
raise_if-false false e h = refl

abbrev pub is_ok {ℓ κ} : {E : Type ℓ} {A : Type κ} → Result E A → Bool
is_ok (ok _) = true
is_ok (err _) = false

pub Result-cases {ℓ κ} :
    {E : Type ℓ} {A : Type κ} (r : Result E A) → ((e : E) × (r ≡ err e)) ⊎ ((a : A) × (r ≡ ok a))
Result-cases (ok a) = inr (a, refl)
Result-cases (err e) = inl (e, refl)
