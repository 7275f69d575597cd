-- ===== src/Characters/Ability/Caps.antt =====
-- `resolve_ability_caps`: each ability's maximum.
use heofberu_backend.Prelude.{
  ◌≡◌, ◌∙◌, inl, inr, true, Bool-cases, List, [], ◌∷◌, Option, none, some, arith, if◌then◌else◌,
}
use heofberu_backend.Prelude.Int.{ℤ, pos, ◌≤ℤ◌, max_ℤ, min_ℤ, eq_of_parts}
use heofberu_backend.Characters.Ability.{
  AbilityScore, same_ability, Totals, Bonus, ability_score_cap, raise_cap, resolve_caps_from,
  resolve_ability_caps,
}

-- what one effect asks for at an ability: its `new_cap`, or no more than the standard cap
abbrev pub cap_asked : AbilityScore → AbilityScore → Option ℤ → ℤ
cap_asked a ability none = ability_score_cap
cap_asked a ability (some cap) = if same_ability a ability then cap else ability_score_cap

-- the greatest cap that any effect asks for at an ability, and at least the standard cap
abbrev pub greatest_cap : AbilityScore → List Bonus → ℤ
greatest_cap a [] = ability_score_cap
greatest_cap a (b ∷ bs) = max_ℤ (cap_asked a b.ability b.new_cap) (greatest_cap a bs)

pub same_ability→eq : (a b : AbilityScore) → same_ability a b ≡ true → a ≡ b
same_ability→eq a b h = ground arith

clamp_max : (c : ℤ) → pos 20 ≤ℤ c → c ≤ℤ pos 30 → c ≡ min_ℤ (pos 30) (max_ℤ c (pos 20))
clamp_max c lo hi = ground (arith, eq_of_parts c (pos 20), eq_of_parts c (pos 30))

raise_cap_at :
    (caps : Totals) (a ability : AbilityScore) (o : Option ℤ)
    → pos 20 ≤ℤ caps a
    → caps a ≤ℤ pos 30
    → raise_cap caps ability o a ≡ min_ℤ (pos 30) (max_ℤ (caps a) (cap_asked a ability o))
unfolding raise_cap
raise_cap_at caps a ability none lo hi = clamp_max (caps a) lo hi
raise_cap_at caps a ability (some cap) lo hi = elim (Bool-cases (same_ability a ability)) [
  | inl same ↦ rw (same, same_ability→eq a ability same)
  | inr other ↦ rw other (clamp_max (caps a) lo hi)
]

clamp_bounds :
    (c x : ℤ)
    → pos 20 ≤ℤ c
    → (pos 20 ≤ℤ min_ℤ (pos 30) (max_ℤ c x)) × (min_ℤ (pos 30) (max_ℤ c x) ≤ℤ pos 30)
clamp_bounds c x lo = ground arith

clamp_clamp :
    (c x y : ℤ)
    → pos 20 ≤ℤ c
    → min_ℤ (pos 30) (max_ℤ (min_ℤ (pos 30) (max_ℤ c x)) y) ≡ min_ℤ (pos 30) (max_ℤ c (max_ℤ x y))
clamp_clamp c x y lo = ground (arith, eq_of_parts c x, eq_of_parts c y, eq_of_parts x y)

resolve_caps_from-eq :
    (caps : Totals) (bs : List Bonus) (a : AbilityScore)
    → pos 20 ≤ℤ caps a
    → caps a ≤ℤ pos 30
    → resolve_caps_from caps bs a ≡ min_ℤ (pos 30) (max_ℤ (caps a) (greatest_cap a bs))
unfolding resolve_caps_from
resolve_caps_from-eq caps [] a lo hi = clamp_max (caps a) lo hi
resolve_caps_from-eq caps (b ∷ bs) a lo hi =
    let x = cap_asked a b.ability b.new_cap in
    let raised = raise_cap_at caps a b.ability b.new_cap lo hi in
    let bounds = clamp_bounds (caps a) x lo in
    resolve_caps_from-eq (raise_cap caps b.ability b.new_cap) bs a (rw raised bounds.0)
      (rw raised bounds.1)
    ∙ rw raised (clamp_clamp (caps a) x (greatest_cap a bs) lo)

-- The resolved maximum of an ability is the greatest cap that any effect asks for at it, at least
-- the standard 20 and at most the ceiling of 30.
pub resolve_ability_caps-eq-greatest :
    (bs : List Bonus) (a : AbilityScore)
    → resolve_ability_caps bs a ≡ min_ℤ (pos 30) (max_ℤ (pos 20) (greatest_cap a bs))
unfolding resolve_ability_caps
resolve_ability_caps-eq-greatest bs a =
    resolve_caps_from-eq (λ _. ability_score_cap) bs a (omega arith) (omega arith)
