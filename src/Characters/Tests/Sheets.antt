-- ===== src/Characters/Tests/Sheets.antt =====
-- Access, hit points and conditions at a party of one character.
use heofberu_backend.Prelude.{
  ◌≡◌, refl, false, [], ◌∷◌, none, some, arith, ◌==◌, if◌then◌else◌, update,
}
use heofberu_backend.Prelude.Int.{pos, negsuc, ◌+ℤ◌, ◌≤ℤ◌, max_ℤ, min_ℤ, ◌-ℤ◌}
use heofberu_backend.Prelude.Result.{ok}
use heofberu_backend.Characters.Db.{
  player, User, Character, exhaustion, prone, condition_index, CharacterCondition, Db,
}
use heofberu_backend.Characters.Access.{
  check_owner_access, check_character_access, ensure_character_access,
}
use heofberu_backend.Characters.Sheet.{
  apply_hp_delta, resolve_hp_update, update_hp, validate_hp_update, get_locked_for_user, write_hp,
  new_hp,
}
use heofberu_backend.Characters.Sheet.Damage.{delta_of, resolve_hp_update_delta}
use heofberu_backend.Characters.Sheet.Invariant.{IsValid, hp, start, next, Reach-IsValid}
use heofberu_backend.Characters.Conditions.{
  ConditionUpdate, get_character_condition, add_condition, update_condition, remove_condition,
  add_character_condition, update_character_condition, remove_character_condition,
  validate_exhaustion_level, get_condition_or_404,
}
use heofberu_backend.Characters.Conditions.Table.{IsTable}
use heofberu_backend.Characters.Conditions.Invariant.{update_condition-IsTable}

abbrev owner : User
owner = record { id = 3; role = player }

abbrev hero : Character
hero = record {
  id = 9;
  owner_id = 3;
  level = 2;
  class_id = 1;
  subclass_id = none;
  race_id = some 4;
  subrace_id = none;
  max_hp = pos 20;
  current_hp = pos 12;
  temp_hp = pos 5;
}

abbrev tired : CharacterCondition
tired = record { character_id = 9; condition = exhaustion; exhaustion_level = some 2; source = [] }

abbrev party : Db
party = record {
  characters = λ id. if id == 9 then some hero else none;
  managed_by = λ _ _. false;
  max_levels = λ _. some 5;
  conditions = tired ∷ [];
  spell_slots = [];
  known_spells = [];
  spells = λ _. none;
}

keyed : (c : Character) → party.characters 9 ≡ some c → c.id ≡ 9
keyed c h = ground arith

-- eight points of damage: five are absorbed
resolve_hp_update_delta_example :
    let (current', temp') = resolve_hp_update (pos 12) (pos 5) (pos 20) (delta_of (negsuc 7)) in
    (negsuc 7 ≤ℤ negsuc 0 → current' +ℤ temp' ≡ max_ℤ (pos 0) (pos 12 +ℤ pos 5 +ℤ negsuc 7))
    × (pos 0 ≤ℤ negsuc 7 → (current' ≡ min_ℤ (pos 20) (pos 12 +ℤ negsuc 7)) × (temp' ≡ pos 5))
resolve_hp_update_delta_example =
    resolve_hp_update_delta (pos 12) (pos 5) (pos 20) (negsuc 7) (omega arith) (omega arith)
      (omega arith)

abbrev hurt : Db
hurt = record party {
  characters =
      update party.characters 9 (some (record hero { current_hp = pos 9; temp_hp = pos 0 }));
}

hurts : update_hp 9 (delta_of (negsuc 7)) owner party ≡ ok hurt
unfolding update_hp get_locked_for_user check_character_access check_owner_access validate_hp_update
    resolve_hp_update new_hp apply_hp_delta write_hp ◌+ℤ◌ ◌-ℤ◌
hurts = refl

party-IsValid : IsValid party
party-IsValid = record {
  sheets = λ id c h. record {
    current_nonneg = ground arith;
    current_le = ground arith;
    temp_nonneg = ground arith;
  };
  below_cap = λ id c h. (ground arith, omega arith);
}

Reach-IsValid_example : IsValid hurt
Reach-IsValid_example =
    Reach-IsValid (next start (hp 9 (delta_of (negsuc 7)) owner hurts)) party-IsValid

party-IsTable : IsTable (tired ∷ [])
party-IsTable = ((refl, refl), refl, tt)

abbrev fallen : Db
fallen = record party {
  conditions =
      tired
      ∷ record { character_id = 9; condition = prone; exhaustion_level = none; source = 1 ∷ [] }
      ∷ [];
}

falls : add_condition 9 prone none (1 ∷ []) owner party ≡ ok fallen
unfolding add_condition validate_exhaustion_level ensure_character_access check_owner_access
    add_character_condition get_character_condition condition_index
falls = refl

abbrev worse : ConditionUpdate
worse = record { exhaustion_level = some (some 3); source = none }

abbrev weary : Db
weary = record party { conditions = record tired { exhaustion_level = some 3 } ∷ [] }

worsens : update_condition 9 exhaustion worse owner party ≡ ok weary
unfolding update_condition validate_exhaustion_level ensure_character_access check_owner_access
    get_condition_or_404 get_character_condition update_character_condition condition_index
worsens = refl

update_condition-IsTable_example : IsTable weary.conditions
update_condition-IsTable_example =
    update_condition-IsTable 9 exhaustion worse owner party weary party-IsTable worsens

abbrev rested_up : Db
rested_up = record party { conditions = [] }

recovers : remove_condition 9 exhaustion owner party ≡ ok rested_up
unfolding remove_condition ensure_character_access check_owner_access get_condition_or_404
    get_character_condition remove_character_condition condition_index
recovers = refl
