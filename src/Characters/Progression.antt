-- ===== src/Characters/Progression.antt =====
-- app/features/characters/progression/rules.py: hit points, ability score improvements and the
-- levels at which they are due.
pub mod HitPoints
pub mod Asi
use heofberu_backend.Prelude.{
  ℕ, ◌-◌, ◌/◌, Bool, true, false, not, ◌&&◌, List, [], ◌∷◌, Option, none, some, map, leb, ltb,
  if◌then◌else◌, is_some, any, all, keep, member, same_set, min,
}
use heofberu_backend.Prelude.Int.{ℤ, pos, ◌+ℤ◌, ◌-ℤ◌, ◌*ℤ◌, max_ℤ, half_ℤ, leb_ℤ, ltb_ℤ}
use heofberu_backend.Prelude.Result.{⊤, Result, ok, err, ◌>>=◌, ◌>>◌, raise_if}
use heofberu_backend.Characters.Ability.{
  AbilityScore, con, same_ability, Totals, add_bonus, ability_score_cap,
}

-- the exceptions of the progression, feat and grant rules, with the numbers that they report
pub data ProgressionError : Type 0 where
  invalid_hit_point_gain : ℤ → ℤ → ProgressionError
  level_up_choice_required : ℕ → ProgressionError
  level_up_choice_not_allowed : ℕ → ProgressionError
  rebuild_asi_choices_mismatch : List ℕ → List ℕ → ProgressionError
  ability_score_cap_exceeded : AbilityScore → ℤ → ℤ → ProgressionError
  duplicate_ability : ProgressionError
  asi_budget : ProgressionError

-- `DiceType` of app/constants.py
pub data DiceType : Type 0 where
  d4 d6 d8 d10 d12 d20 d100 : DiceType

-- `hit_die_sides`: the number that follows the letter of the enum's value
unfoldable pub hit_die_sides : DiceType → ℕ
hit_die_sides d4 = 4
hit_die_sides d6 = 6
hit_die_sides d8 = 8
hit_die_sides d10 = 10
hit_die_sides d12 = 12
hit_die_sides d20 = 20
hit_die_sides d100 = 100

unfoldable pub constitution_modifier : Totals → ℤ
constitution_modifier totals = half_ℤ (totals con -ℤ pos 10)

unfoldable pub resolve_hp_gain : Option ℤ → ℕ → ℤ → Result ProgressionError ℤ
resolve_hp_gain none die_sides con_mod =
    ok (max_ℤ (pos 1) (pos (die_sides / 2) +ℤ pos 1 +ℤ con_mod))
resolve_hp_gain (some requested) die_sides con_mod =
    let max_gain = max_ℤ (pos 1) (pos die_sides +ℤ con_mod) in
    if leb_ℤ (pos 1) requested && leb_ℤ requested max_gain
    then ok requested
    else err (invalid_hit_point_gain (pos 1) max_gain)

unfoldable pub max_hp_bounds : ℕ → ℤ → ℕ → ℤ × ℤ
max_hp_bounds die_sides con_mod level =
    let level_1_hp = max_ℤ (pos die_sides +ℤ con_mod) (pos 1) in
    let levels_above_one = pos (level - 1) in
    if leb level 1
    then (level_1_hp, level_1_hp)
    else (level_1_hp +ℤ levels_above_one, level_1_hp +ℤ levels_above_one *ℤ level_1_hp)

-- `ASI_LEVELS` and `CHARACTER_MAX_LEVEL`
abbrev pub asi_levels : List ℕ
asi_levels = 4 ∷ 8 ∷ 12 ∷ 16 ∷ 19 ∷ []

abbrev pub character_max_level : ℕ
character_max_level = 20

unfoldable pub required_asi_levels : ℕ → List ℕ
required_asi_levels character_level = keep (λ level. leb level character_level) asi_levels

unfoldable pub check_level_up_choice : ℕ → Bool → Result ProgressionError ⊤
check_level_up_choice new_level has_choice =
    let is_asi_level = member new_level asi_levels in
    if is_asi_level && not has_choice
    then err (level_up_choice_required new_level)
    else if not is_asi_level && has_choice
    then err (level_up_choice_not_allowed new_level)
    else ok tt

-- `check_rebuild_asi_levels`, on the class levels of the choices
unfoldable pub check_rebuild_asi_levels : ℕ → List ℕ → Result ProgressionError ⊤
unfolding required_asi_levels
check_rebuild_asi_levels character_level provided =
    let required = required_asi_levels character_level in
    if same_set provided required
    then ok tt
    else err (rebuild_asi_choices_mismatch required provided)

unfoldable pub default_max_level : ℕ → ℕ
default_max_level character_level = min character_level character_max_level

-- `ASIIncreaseItem`
pub record AsiIncrease : Type 0 where
  pub ability : AbilityScore
  pub amount : ℤ

-- `ensure_within_cap` of app/features/characters/feats/validation.py
unfoldable pub ensure_within_cap : Totals → AbilityScore → ℤ → Result ProgressionError ⊤
ensure_within_cap totals ability amount =
    let requested = totals ability +ℤ amount in
    if ltb_ℤ ability_score_cap requested
    then err (ability_score_cap_exceeded ability (totals ability) requested)
    else ok tt

-- the first loop of `apply_asi_to_totals`
unfoldable pub ensure_all_within_cap : Totals → List AsiIncrease → Result ProgressionError ⊤
ensure_all_within_cap totals [] = ok tt
ensure_all_within_cap totals (i ∷ is) =
    ensure_within_cap totals i.ability i.amount >> ensure_all_within_cap totals is

-- its second loop
unfoldable pub add_increases : List AsiIncrease → Totals → Totals
add_increases [] totals = totals
add_increases (i ∷ is) totals = add_increases is (add_bonus totals i.ability i.amount)

unfoldable pub apply_asi_to_totals : Totals → List AsiIncrease → Result ProgressionError Totals
unfolding ensure_within_cap ensure_all_within_cap add_increases
apply_asi_to_totals totals increases =
    ensure_all_within_cap totals increases >> ok (add_increases increases totals)

-- `_validate_asi_increases` of schemas.py, with the field bounds of `ASIIncreaseItem.amount`
abbrev pub asi_total_budget : ℤ
asi_total_budget = pos 2

abbrev pub names_ability : AbilityScore → AsiIncrease → Bool
names_ability a i = same_ability a i.ability

unfoldable pub has_duplicates : List AsiIncrease → Bool
has_duplicates [] = false
has_duplicates (i ∷ is) =
    let rest = has_duplicates is in if any (names_ability i.ability) is then true else rest

abbrev pub amount_in_bounds : AsiIncrease → Bool
amount_in_bounds i = leb_ℤ (pos 1) i.amount && leb_ℤ i.amount asi_total_budget

abbrev pub total_points : List AsiIncrease → ℤ
total_points [] = pos 0
total_points (i ∷ is) = i.amount +ℤ total_points is

unfoldable pub validate_asi_increases :
    List AsiIncrease → Result ProgressionError (List AsiIncrease)
unfolding has_duplicates
validate_asi_increases increases =
    raise_if (not (all amount_in_bounds increases)) asi_budget
    >> raise_if (has_duplicates increases) duplicate_ability
    >> (if leb_ℤ (pos 1) (total_points increases) && leb_ℤ (total_points increases) asi_total_budget
        then ok increases
        else err asi_budget)
