-- ===== src/Characters/Conditions/Table.antt =====
-- A well-formed table of conditions: one row for a key, and an exhaustion level from 1 to 6 exactly
-- on the rows of EXHAUSTION.
use heofberu_backend.Prelude.{
  ℕ, ◌≡◌, refl, fun_ext, Bool, true, false, not, List, [], ◌∷◌, ◌++◌, Option, none, some, map,
  first, keep, arith, if◌then◌else◌, is_some, Bool-cases, inl, inr,
}
use heofberu_backend.Characters.Db.{
  ConditionType, same_condition, condition_index, is_exhaustion, CharacterCondition,
}
use heofberu_backend.Characters.Conditions.{has_key, ConditionUpdate, patched, level_in_bounds}

-- the 5e rule for one row
abbrev pub IsRow : CharacterCondition → Type 0
IsRow r =
    (is_exhaustion r.condition ≡ is_some r.exhaustion_level)
    × (level_in_bounds r.exhaustion_level ≡ true)

abbrev pub IsTable : List CharacterCondition → Type 0
IsTable [] = Unit
IsTable (r ∷ rs) = IsRow r × (first (has_key r.character_id r.condition) rs ≡ none) × IsTable rs

pub same_condition_sym : (a b : ConditionType) → same_condition a b ≡ same_condition b a
same_condition_sym a b = ground arith

pub first-append :
    (p : CharacterCondition → Bool) (r : CharacterCondition) (rs : List CharacterCondition)
    → first p rs ≡ none
    → p r ≡ false
    → first p (rs ++ r ∷ []) ≡ none
first-append p r [] h e = ground arith
first-append p r (x ∷ rs) h e = ground (arith, first-append p r rs)

pub append-IsTable :
    (r : CharacterCondition) (rs : List CharacterCondition)
    → IsTable rs
    → IsRow r
    → first (has_key r.character_id r.condition) rs ≡ none
    → IsTable (rs ++ r ∷ [])
append-IsTable r [] t row fresh = (row, refl, tt)
append-IsTable r (x ∷ rs) (xrow, xfresh, t) row fresh = (
  xrow,
  first-append (has_key x.character_id x.condition) r rs xfresh (ground arith),
  append-IsTable r rs t row (ground arith),
)

pub first-keep :
    (p q : CharacterCondition → Bool) (rs : List CharacterCondition)
    → first p rs ≡ none
    → first p (keep q rs) ≡ none
first-keep p q [] h = refl
first-keep p q (x ∷ rs) h = ground (arith, first-keep p q rs)

pub keep-IsTable :
    (q : CharacterCondition → Bool) (rs : List CharacterCondition)
    → IsTable rs
    → IsTable (keep q rs)
keep-IsTable q [] t = tt
keep-IsTable q (x ∷ rs) (row, fresh, t) =
    ground (arith, keep-IsTable q rs t, first-keep (has_key x.character_id x.condition) q rs fresh)

pub first-map :
    (p : CharacterCondition → Bool) (f : CharacterCondition → CharacterCondition)
    (rs : List CharacterCondition)
    → ((r : CharacterCondition) → p (f r) ≡ p r)
    → first p rs ≡ none
    → first p (map f rs) ≡ none
first-map p f [] same h = refl
first-map p f (x ∷ rs) same h = ground (arith, same x, first-map p f rs same)

pub first-patch :
    (p q : CharacterCondition → Bool) (u : ConditionUpdate) (rs : List CharacterCondition)
    → ((r : CharacterCondition) → p (patched u r) ≡ p r)
    → first p rs ≡ none
    → first p (map (λ row. if q row then patched u row else row) rs) ≡ none
first-patch p q u rs same h =
    first-map p (λ row. if q row then patched u row else row) rs (λ r. ground (arith, same r)) h

pub same_condition→exhaustion :
    (a b : ConditionType) → same_condition a b ≡ true → is_exhaustion a ≡ is_exhaustion b
unfolding condition_index
same_condition→exhaustion a b h = ground arith

pub none-some : {A : Type 0} {o : Option A} {a : A} → o ≡ none → o ≡ some a → ⊥
none-some p q = cc

pub key_agree :
    (c : ℕ) (k : ConditionType) (x : CharacterCondition)
    → has_key c k x ≡ true
    → has_key c k ≡ has_key x.character_id x.condition
key_agree c k x h = fun_ext λ r. ground arith

-- patching the row of one key, by an update that fits it, keeps the table
pub patch-IsTable :
    (c : ℕ) (k : ConditionType) (u : ConditionUpdate) (rs : List CharacterCondition)
    → ((r : CharacterCondition) → first (has_key c k) rs ≡ some r → IsRow (patched u r))
    → IsTable rs
    → IsTable (map (λ row. if has_key c k row then patched u row else row) rs)
patch-IsTable c k u [] fits t = tt
patch-IsTable c k u (x ∷ rs) fits (row, fresh, t) =
    let later =
      first-patch (has_key x.character_id x.condition) (has_key c k) u rs (λ r. refl) fresh in
    elim (Bool-cases (has_key c k x)) [
      | inl same ↦ rw same (
        fits x (rw same),
        later,
        patch-IsTable c k u rs (λ r e. absurd (none-some (fresh) (rw (key_agree c k x same) at e)))
            t,
      )
      | inr other ↦ rw other (row, later, patch-IsTable c k u rs (λ r e. fits r (rw other e)) t)
    ]

pub first-has_key :
    (p : CharacterCondition → Bool) (rs : List CharacterCondition) (r : CharacterCondition)
    → first p rs ≡ some r
    → p r ≡ true
first-has_key p [] r h = cc
first-has_key p (x ∷ rs) r h = ground (arith, first-has_key p rs r)

pub first-IsRow :
    (p : CharacterCondition → Bool) (rs : List CharacterCondition) (r : CharacterCondition)
    → IsTable rs
    → first p rs ≡ some r
    → IsRow r
first-IsRow p [] r t e = absurd (ground arith)
first-IsRow p (x ∷ rs) r (row, fresh, t) e = elim (Bool-cases (p x)) [
  | inl same ↦ let here : x ≡ r = ground arith in rw (← here) row
  | inr other ↦ first-IsRow p rs r t (ground arith)
]

pub first-keep-not :
    (p : CharacterCondition → Bool) (rs : List CharacterCondition)
    → first p (keep (λ r. not (p r)) rs) ≡ none
first-keep-not p [] = refl
first-keep-not p (x ∷ rs) = ground (arith, first-keep-not p rs)

pub first-keep_other :
    (p q : CharacterCondition → Bool) (rs : List CharacterCondition)
    → ((r : CharacterCondition) → p r ≡ true → q r ≡ true)
    → first p (keep q rs) ≡ first p rs
first-keep_other p q [] h = refl
first-keep_other p q (x ∷ rs) h = ground (arith, h x, first-keep_other p q rs h)
