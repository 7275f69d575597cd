-- ===== src/Characters/Ability/Breakdown.antt =====
-- A breakdown explains its total: `breakdown` against `compute`.
use Prim.Native.String.{String}
use heofberu_backend.Prelude.{◌≡◌, refl, ◌∙◌, sym, ap, List, [], ◌∷◌, ◌++◌, Option, arith}
use heofberu_backend.Prelude.Int.{ℤ, pos, ◌+ℤ◌, max_ℤ, +ℤ_assoc, zero-+ℤ, int_laws}
use heofberu_backend.Characters.Ability.{
  AbilityScore, Totals, Bonus, StatSource, StatContribution, contributions_of, breakdown,
}
use heofberu_backend.Characters.Ability.Sums.{bonus_sum, bonus_sum-append, compute-eq-sum}

abbrev pub contribution_sum : List StatContribution → ℤ
contribution_sum [] = pos 0
contribution_sum (c ∷ cs) = c.amount +ℤ contribution_sum cs

contribution_sum-append :
    (xs ys : List StatContribution)
    → contribution_sum (xs ++ ys) ≡ contribution_sum xs +ℤ contribution_sum ys
contribution_sum-append [] ys = omega int_laws
contribution_sum-append (x ∷ xs) ys =
    ap (λ r. x.amount +ℤ r) (contribution_sum-append xs ys) ∙ sym (+ℤ_assoc _ _ _)

contribution_sum-contributions_of :
    (source : StatSource) (label : Bonus → String) (a : AbilityScore) (bs : List Bonus)
    → contribution_sum (contributions_of source label a bs) ≡ bonus_sum a bs
unfolding contributions_of
contribution_sum-contributions_of source label a [] = refl
contribution_sum-contributions_of source label a (b ∷ bs) =
    ground (arith, contribution_sum-contributions_of source label a bs, zero-+ℤ (bonus_sum a bs))

-- The total that a breakdown shows for an ability is its base value plus the sum of the
-- contributions that it lists, raised to 1 where that is less.
pub breakdown_explains_total :
    (base : Totals) (race subrace asi feature : List Bonus) (race_name subrace_name : Option String)
    (a : AbilityScore)
    → let b = breakdown base race subrace asi feature race_name subrace_name a in
      b.total ≡ max_ℤ (pos 1) (b.base +ℤ contribution_sum b.contributions)
unfolding breakdown
breakdown_explains_total base race subrace asi feature race_name subrace_name a =
    compute-eq-sum base race subrace asi feature a
    ∙ ap (max_ℤ (pos 1)) {x = base a +ℤ bonus_sum a (race ++ subrace ++ asi ++ feature)}
        {y = let b = breakdown base race subrace asi feature race_name subrace_name a in
          b.base +ℤ contribution_sum b.contributions}
        (simp (contribution_sum-append, contribution_sum-contributions_of, bonus_sum-append))
