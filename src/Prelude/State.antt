-- ===== src/Prelude/State.antt =====
-- Code that changes a state and may raise: the state comes back after a raise too.
use mathlib.Core.Bool.{Bool, true, false}
use mathlib.Core.Option.{Option, none, some}
use heofberu_backend.Prelude.Result.{⊤, Result, ok, err}

abbrev pub Action : Type 0 → Type 0 → Type 0 → Type 0
Action W E A = W → Result E A × W

module _ {W E : Type 0} where
  abbrev pub pure : {A : Type 0} → A → Action W E A
  pure a w = (ok a, w)

  abbrev pub raise : {A : Type 0} → E → Action W E A
  raise e w = (err e, w)

  abbrev pub gets : {A : Type 0} → (W → A) → Action W E A
  gets f w = (ok (f w), w)

  abbrev pub modify : (W → W) → Action W E ⊤
  modify f w = (ok tt, f w)

  abbrev pub lift : {A : Type 0} → Result E A → Action W E A
  lift r w = (r, w)

  -- `if c: raise e`
  abbrev pub raise_when : Bool → E → Action W E ⊤
  raise_when true e w = (err e, w)
  raise_when false e w = (ok tt, w)

  abbrev pub or_raise : {A : Type 0} → Option A → E → Action W E A
  or_raise none e w = (err e, w)
  or_raise (some a) e w = (ok a, w)

  infixl 5 ◌>>=◌ ◌>>◌
  abbrev pub ◌>>=◌ : {A B : Type 0} → Action W E A → (A → Action W E B) → Action W E B
  ◌>>=◌ m f w = let (r, w') = m w in elim r [ ok a ↦ f a w' | err e ↦ (err e, w') ]

  abbrev pub ◌>>◌ : {B : Type 0} → Action W E ⊤ → Action W E B → Action W E B
  m >> k = m >>= λ _. k
