-- ===== src/Characters/Tests/Levels.antt =====
-- rules.py at a ten-sided hit die and a CON modifier of two.
use heofberu_backend.Prelude.{◌≡◌, refl, false, List, [], ◌∷◌, none, some, any, All}
use heofberu_backend.Prelude.Int.{pos, ◌+ℤ◌, ◌≤ℤ◌}
use heofberu_backend.Prelude.Result.{ok}
use heofberu_backend.Characters.Ability.{AbilityScore, str, dex, Totals, add_bonus}
use heofberu_backend.Characters.Progression.{
  d10, hit_die_sides, resolve_hp_gain, AsiIncrease, names_ability, validate_asi_increases,
  apply_asi_to_totals,
}
use heofberu_backend.Characters.Progression.HitPoints.{hp_after}
use heofberu_backend.Characters.Progression.Asi.{apply_asi_within_cap}

average : resolve_hp_gain none (hit_die_sides d10) (pos 2) ≡ ok (pos 8)
unfolding resolve_hp_gain hit_die_sides ◌+ℤ◌
average = refl

two_levels : hp_after (hit_die_sides d10) (pos 2) (none ∷ some (pos 3) ∷ []) ≡ ok (pos 23)
unfolding hp_after resolve_hp_gain hit_die_sides ◌+ℤ◌
two_levels = refl

abbrev scores : Totals
scores = λ _. pos 18

abbrev one_each : List AsiIncrease
one_each = record { ability = str; amount = pos 1 } ∷ record { ability = dex; amount = pos 1 } ∷ []

one_each_valid : validate_asi_increases one_each ≡ ok one_each
unfolding validate_asi_increases ◌+ℤ◌
one_each_valid = refl

abbrev raised : Totals
raised = add_bonus (add_bonus scores str (pos 1)) dex (pos 1)

one_each_applied : apply_asi_to_totals scores one_each ≡ ok raised
unfolding apply_asi_to_totals ◌+ℤ◌
one_each_applied = refl

apply_asi_within_cap_example :
    All
      (λ i.
        (raised i.ability ≡ scores i.ability +ℤ i.amount)
        × (raised i.ability ≤ℤ pos 20)
        × (pos 1 ≤ℤ i.amount)
        × (i.amount ≤ℤ pos 2))
      one_each
    × ((a : AbilityScore) → any (names_ability a) one_each ≡ false → raised a ≡ scores a)
apply_asi_within_cap_example =
    apply_asi_within_cap scores raised one_each one_each_valid one_each_applied
