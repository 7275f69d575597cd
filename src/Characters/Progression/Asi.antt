-- ===== src/Characters/Progression/Asi.antt =====
-- The ASI rules of rules.py: which levels take a choice, and the cap on a player's own increases.
use heofberu_backend.Prelude.{
  ℕ, ◌≡◌, refl, ◌∙◌, sym, ◌↔◌, Bool, true, false, not, ◌&&◌, List, [], ◌∷◌, arith, if◌then◌else◌,
  leb, member, member-keep, same_set_iff, any, all, All,
}
use heofberu_backend.Prelude.Int.{ℤ, pos, ◌+ℤ◌, ◌≤ℤ◌}
use heofberu_backend.Prelude.Result.{⊤, Result, ok, err, ◌>>◌, raise_if, then-ok, ok-injective}
use heofberu_backend.Characters.Ability.{AbilityScore, same_ability, Totals, add_bonus}
use heofberu_backend.Characters.Progression.{
  ProgressionError, asi_levels, required_asi_levels, check_level_up_choice,
  check_rebuild_asi_levels, AsiIncrease, ensure_within_cap, ensure_all_within_cap, add_increases,
  apply_asi_to_totals, validate_asi_increases, has_duplicates, names_ability, amount_in_bounds,
  asi_budget, duplicate_ability,
}

-- A level-up passes the check exactly when it comes with a choice at the ASI levels 4, 8, 12, 16
-- and 19, and without one at all others.
pub check_level_up_choice_exact :
    (new_level : ℕ) (has_choice : Bool)
    → (check_level_up_choice new_level has_choice ≡ ok tt)
      ↔ (member new_level asi_levels ≡ has_choice)
unfolding check_level_up_choice
check_level_up_choice_exact new_level has_choice = (λ h. ground arith, λ h. ground arith)

passed :
    (b : Bool) (e : ProgressionError)
    → ◌≡◌ {A = Result ProgressionError ⊤} (if b then ok tt else err e) (ok tt)
    → b ≡ true
passed b e h = ground arith

-- A rebuild passes the check exactly when its choices name the ASI levels at or below the
-- character's level and no other level.
pub check_rebuild_asi_levels_exact :
    (level : ℕ) (provided : List ℕ)
    → (check_rebuild_asi_levels level provided ≡ ok tt)
      ↔ ((n : ℕ) → member n provided ≡ (member n asi_levels && leb n level))
unfolding check_rebuild_asi_levels required_asi_levels
check_rebuild_asi_levels_exact level provided = (
  λ h n.
      (same_set_iff provided (required_asi_levels level)).0 (passed _ _ h) n
      ∙ member-keep n (λ l. leb l level) asi_levels,
  λ h. rw (
      (same_set_iff provided (required_asi_levels level)).1
        (λ n. h n ∙ sym (member-keep n (λ l. leb l level) asi_levels))),
)

ensure_all_within_cap_lem :
    (t : Totals) (is : List AsiIncrease)
    → ensure_all_within_cap t is ≡ ok tt
    → All (λ i. t i.ability +ℤ i.amount ≤ℤ pos 20) is
unfolding ensure_all_within_cap ensure_within_cap
ensure_all_within_cap_lem t [] h = tt
ensure_all_within_cap_lem t (i ∷ is) h =
    let (first, rest) = then-ok (ensure_within_cap t i.ability i.amount) _ h in
    (ground arith, ensure_all_within_cap_lem t is rest)

add_increases_other :
    (is : List AsiIncrease) (t : Totals) (a : AbilityScore)
    → any (names_ability a) is ≡ false
    → add_increases is t a ≡ t a
unfolding add_increases add_bonus
add_increases_other [] t a h = refl
add_increases_other (i ∷ is) t a h =
    add_increases_other is (add_bonus t i.ability i.amount) a (ground arith) ∙ ground arith

same_ability_refl : (a : AbilityScore) → same_ability a a ≡ true
same_ability_refl a = ground arith

same_ability_sym : (a b : AbilityScore) → same_ability a b ≡ same_ability b a
same_ability_sym a b = ground arith

agree :
    (s t : Totals) (a : AbilityScore) (x : ℤ) (is : List AsiIncrease)
    → any (names_ability a) is ≡ false
    → All (λ j. s j.ability ≡ t j.ability) is
    → All (λ j. add_bonus s a x j.ability ≡ t j.ability) is
unfolding add_bonus
agree s t a x [] h same = tt
agree s t a x (j ∷ is) h (e, same) =
    (ground (arith, same_ability_sym a j.ability), agree s t a x is (ground arith) same)

applied :
    (is : List AsiIncrease) (s t : Totals)
    → has_duplicates is ≡ false
    → all amount_in_bounds is ≡ true
    → All (λ i. t i.ability +ℤ i.amount ≤ℤ pos 20) is
    → All (λ j. s j.ability ≡ t j.ability) is
    → All
        (λ i.
          (add_increases is s i.ability ≡ t i.ability +ℤ i.amount)
          × (add_increases is s i.ability ≤ℤ pos 20)
          × (pos 1 ≤ℤ i.amount)
          × (i.amount ≤ℤ pos 2))
        is
unfolding has_duplicates add_increases
applied [] s t distinct bounds caps same = tt
applied (i ∷ is) s t distinct bounds (cap, caps) (e, same) =
    let s' = add_bonus s i.ability i.amount in
    let fresh : any (names_ability i.ability) is ≡ false = ground arith in
    let now : add_increases is s' i.ability ≡ t i.ability +ℤ i.amount =
      add_increases_other is s' i.ability fresh
      ∙ unfold add_bonus in rw (same_ability_refl i.ability, e) in
    (
      (now, rw now cap, ground arith, ground arith),
      applied is s' t (ground arith) (ground arith) caps
          (agree s t i.ability i.amount is fresh same),
    )

agree_refl : (t : Totals) (is : List AsiIncrease) → All (λ j. t j.ability ≡ t j.ability) is
agree_refl t [] = tt
agree_refl t (i ∷ is) = (refl, agree_refl t is)

not_raised : (b : Bool) (e : ProgressionError) → raise_if b e ≡ ok tt → b ≡ false
not_raised b e h = ground arith

raise_not : (b : Bool) (e : ProgressionError) → raise_if (not b) e ≡ ok tt → b ≡ true
raise_not b e h = ground arith

-- What an ASI choice that passed the schema may do to the totals: each increase it names raises its
-- ability by its amount, from 1 to 2 points, to at most 20, and all other abilities stay.
pub apply_asi_within_cap :
    (t t' : Totals) (increases : List AsiIncrease)
    → validate_asi_increases increases ≡ ok increases
    → apply_asi_to_totals t increases ≡ ok t'
    → All
        (λ i.
          (t' i.ability ≡ t i.ability +ℤ i.amount)
          × (t' i.ability ≤ℤ pos 20)
          × (pos 1 ≤ℤ i.amount)
          × (i.amount ≤ℤ pos 2))
        increases
      × ((a : AbilityScore) → any (names_ability a) increases ≡ false → t' a ≡ t a)
unfolding apply_asi_to_totals validate_asi_increases
apply_asi_within_cap t t' increases valid h =
    let (capped, done) = then-ok (ensure_all_within_cap t increases) _ h in
    let bounds = raise_if (not (all amount_in_bounds increases)) asi_budget in
    let no_duplicates = raise_if (has_duplicates increases) duplicate_ability in
    let (checks, _) = then-ok (bounds >> no_duplicates) _ valid in
    let (in_bounds, distinct) = then-ok bounds no_duplicates checks in
    let e = ok-injective done in
    (
      rw (← e) (
          applied increases t t (not_raised _ _ distinct) (raise_not _ _ in_bounds)
            (ensure_all_within_cap_lem t increases capped) (agree_refl t increases)),
      λ a other. rw (← e) (add_increases_other increases t a other),
    )
