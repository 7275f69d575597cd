-- ===== src/Characters/Tests/Scores.antt =====
-- calculator.py at a half-orc fighter with one feature that raises strength and its cap.
use heofberu_backend.Prelude.{◌≡◌, refl, List, [], ◌∷◌, none, some}
use heofberu_backend.Prelude.Int.{pos, negsuc, ◌+ℤ◌, max_ℤ, min_ℤ}
use heofberu_backend.Characters.Ability.{
  str, int, Totals, Bonus, add_bonuses, add_bonus, compute, resolve_ability_caps, breakdown,
}
use heofberu_backend.Characters.Ability.Breakdown.{contribution_sum, breakdown_explains_total}
use heofberu_backend.Characters.Ability.Caps.{greatest_cap, resolve_ability_caps-eq-greatest}

abbrev base : Totals
base = λ _. pos 10

abbrev race : List Bonus
race =
    record { ability = str; amount = pos 2; new_cap = none; label = "" }
    ∷ record { ability = int; amount = negsuc 14; new_cap = none; label = "" }
    ∷ []

abbrev feature : List Bonus
feature = record { ability = str; amount = pos 4; new_cap = some (pos 24); label = "Might" } ∷ []

compute-str : compute base race [] [] feature str ≡ pos 16
unfolding compute add_bonuses add_bonus ◌+ℤ◌
compute-str = refl

-- ten minus fifteen is raised to one
compute-int : compute base race [] [] feature int ≡ pos 1
unfolding compute add_bonuses add_bonus ◌+ℤ◌
compute-int = refl

breakdown_explains_total_example :
    let b = breakdown base race [] [] feature (some "Half-orc") none str in
    b.total ≡ max_ℤ (pos 1) (b.base +ℤ contribution_sum b.contributions)
breakdown_explains_total_example =
    breakdown_explains_total base race [] [] feature (some "Half-orc") none str

resolve_ability_caps-eq-greatest_example :
    resolve_ability_caps feature str ≡ min_ℤ (pos 30) (max_ℤ (pos 20) (greatest_cap str feature))
resolve_ability_caps-eq-greatest_example = resolve_ability_caps-eq-greatest feature str
