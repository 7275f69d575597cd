-- ===== src/Characters/Ability/Sums.antt =====
-- `compute` against the sum of the bonuses of one ability, and its independence of their order.
use mathlib.Core.List.{Perm, Permᴰ}
use mathlib.Core.Logic.{∥∥₁_elim}
use heofberu_backend.Prelude.{
  ◌≡◌, refl, ◌∙◌, sym, ap, fun_ext, List, [], ◌∷◌, ◌++◌, arith, if◌then◌else◌,
}
use heofberu_backend.Prelude.Int.{ℤ, pos, ◌+ℤ◌, max_ℤ, +ℤ_assoc, +ℤ-zero, int_laws}
use heofberu_backend.Characters.Ability.{
  AbilityScore, same_ability, Totals, Bonus, add_bonus, add_bonuses, compute,
}

-- the sum of the amounts that name one ability
abbrev pub bonus_sum : AbilityScore → List Bonus → ℤ
bonus_sum a [] = pos 0
bonus_sum a (b ∷ bs) = (if same_ability a b.ability then b.amount else pos 0) +ℤ bonus_sum a bs

pub bonus_sum-append :
    (a : AbilityScore) (xs ys : List Bonus)
    → bonus_sum a (xs ++ ys) ≡ bonus_sum a xs +ℤ bonus_sum a ys
bonus_sum-append a [] ys = omega int_laws
bonus_sum-append a (x ∷ xs) ys =
    ap (λ r. (if same_ability a x.ability then x.amount else pos 0) +ℤ r) (bonus_sum-append a xs ys)
    ∙ sym (+ℤ_assoc _ _ _)

add_bonus_at :
    (t : Totals) (a ability : AbilityScore) (x : ℤ)
    → add_bonus t ability x a ≡ t a +ℤ (if same_ability a ability then x else pos 0)
unfolding add_bonus
add_bonus_at t a ability x = ground (arith, +ℤ-zero (t a))

pub add_bonuses_at :
    (bs : List Bonus) (t : Totals) (a : AbilityScore) → add_bonuses bs t a ≡ t a +ℤ bonus_sum a bs
unfolding add_bonuses
add_bonuses_at [] t a = sym (+ℤ-zero (t a))
add_bonuses_at (b ∷ bs) t a =
    add_bonuses_at bs (add_bonus t b.ability b.amount) a
    ∙ rw (add_bonus_at t a b.ability b.amount) (+ℤ_assoc _ _ _)

-- The four loops leave, for each ability, the base value plus the sum of the amounts of all
-- bonuses of that ability from all four sources, raised to 1 where it is less.
pub compute-eq-sum :
    (base : Totals) (race subrace asi feature : List Bonus) (a : AbilityScore)
    → compute base race subrace asi feature a
      ≡ max_ℤ (pos 1) (base a +ℤ bonus_sum a (race ++ subrace ++ asi ++ feature))
unfolding compute
compute-eq-sum base race subrace asi feature a =
    ap (max_ℤ (pos 1))
      {x = add_bonuses feature (add_bonuses asi (add_bonuses subrace (add_bonuses race base))) a}
      {y = base a +ℤ bonus_sum a (race ++ subrace ++ asi ++ feature)}
      (simp (add_bonuses_at, bonus_sum-append, +ℤ_assoc))

+ℤ_swap : (x y z : ℤ) → x +ℤ (y +ℤ z) ≡ y +ℤ (x +ℤ z)
+ℤ_swap x y z = omega int_laws

bonus_sum-permᴰ :
    (a : AbilityScore) {xs ys : List Bonus} → Permᴰ xs ys → bonus_sum a xs ≡ bonus_sum a ys
bonus_sum-permᴰ a Permᴰ.nil = refl
bonus_sum-permᴰ a (Permᴰ.cons e p) = rw (e, bonus_sum-permᴰ a p)
bonus_sum-permᴰ a (Permᴰ.swap e f) = rw (e, f) (+ℤ_swap _ _ _)
bonus_sum-permᴰ a (Permᴰ.trans p q) = bonus_sum-permᴰ a p ∙ bonus_sum-permᴰ a q

ℤ-set : IsSet ℤ
ℤ-set = hlevel

-- The order in which the database returns the bonus rows, and the source that a row comes from,
-- do not matter: two runs over the same rows, permuted, compute the same totals.
pub compute_perm :
    (base : Totals) (r s i f r' s' i' f' : List Bonus)
    → Perm (r ++ s ++ i ++ f) (r' ++ s' ++ i' ++ f')
    → compute base r s i f ≡ compute base r' s' i' f'
compute_perm base r s i f r' s' i' f' p = fun_ext λ a.
    compute-eq-sum base r s i f a
    ∙ ap (λ x. max_ℤ (pos 1) (base a +ℤ x)) (∥∥₁_elim p (ℤ-set _ _) (bonus_sum-permᴰ a))
    ∙ sym (compute-eq-sum base r' s' i' f' a)
