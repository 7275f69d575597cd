-- ===== src/Characters/Db.antt =====
-- The tables that the character services read and write: app/models/character, and the rows of
-- campaigns and spells that they consult. A table with one row for a key is a function of the key.
use heofberu_backend.Prelude.{ℕ, Bool, true, false, List, Option, some, ◌==◌, update}
use heofberu_backend.Prelude.Int.{ℤ}

-- `UserRole` of app/constants.py
pub data UserRole : Type 0 where
  found_father gm player : UserRole

-- the authenticated user, as far as the checks read it
pub record User : Type 0 where
  pub id : ℕ
  pub role : UserRole

pub record Character : Type 0 where
  pub id : ℕ
  pub owner_id : ℕ
  pub level : ℕ
  pub class_id : ℕ
  pub subclass_id : Option ℕ
  pub race_id : Option ℕ
  pub subrace_id : Option ℕ
  pub max_hp : ℤ
  pub current_hp : ℤ
  pub temp_hp : ℤ

-- `ConditionType` of app/constants.py
pub data ConditionType : Type 0 where
  blinded charmed deafened frightened grappled incapacitated invisible paralyzed : ConditionType
  petrified poisoned prone restrained stunned unconscious exhaustion : ConditionType

-- the place of a condition in the enumeration
unfoldable pub condition_index : ConditionType → ℕ
condition_index blinded = 0
condition_index charmed = 1
condition_index deafened = 2
condition_index frightened = 3
condition_index grappled = 4
condition_index incapacitated = 5
condition_index invisible = 6
condition_index paralyzed = 7
condition_index petrified = 8
condition_index poisoned = 9
condition_index prone = 10
condition_index restrained = 11
condition_index stunned = 12
condition_index unconscious = 13
condition_index exhaustion = 14

abbrev pub same_condition : ConditionType → ConditionType → Bool
same_condition a b = condition_index a == condition_index b

abbrev pub is_exhaustion : ConditionType → Bool
is_exhaustion exhaustion = true
is_exhaustion _ = false

pub record CharacterCondition : Type 0 where
  pub character_id : ℕ
  pub condition : ConditionType
  pub exhaustion_level : Option ℕ
  pub source : List ℕ

-- spell levels are numbered: 0 is CANTRIP
pub record CharacterSpellSlot : Type 0 where
  pub character_id : ℕ
  pub spell_level : ℕ
  pub total : ℕ
  pub used : ℕ

pub record CharacterSpell : Type 0 where
  pub character_id : ℕ
  pub spell_id : ℕ

-- `Spell`, with the ids of its availability lists
pub record Spell : Type 0 where
  pub id : ℕ
  pub level : ℕ
  pub available_classes : List ℕ
  pub available_subclasses : List ℕ
  pub available_races : List ℕ
  pub available_subraces : List ℕ

pub record Db : Type 0 where
  pub characters : ℕ → Option Character
  -- is the user the GM of a campaign in which the character is ACTIVE?
  pub managed_by : ℕ → ℕ → Bool
  pub max_levels : ℕ → Option ℕ
  pub conditions : List CharacterCondition
  pub spell_slots : List CharacterSpellSlot
  pub known_spells : List CharacterSpell
  pub spells : ℕ → Option Spell

-- the exceptions of the character services
pub data CharacterError : Type 0 where
  character_not_found : ℕ → CharacterError
  character_access_denied : CharacterError
  invalid_hp_update : CharacterError
  max_level_below_character_level : ℕ → ℕ → ℕ → CharacterError
  max_level_can_only_increase : ℕ → ℕ → CharacterError
  condition_already_exists : ℕ → ConditionType → CharacterError
  condition_not_found : ℕ → ConditionType → CharacterError
  invalid_condition : CharacterError
  spell_not_found : ℕ → CharacterError
  spell_already_known : ℕ → ℕ → CharacterError
  spell_not_available : ℕ → ℕ → CharacterError
  no_spell_slot_available : ℕ → ℕ → CharacterError
  character_spell_not_found : ℕ → ℕ → CharacterError

abbrev pub put_character : Db → ℕ → Character → Db
put_character db character_id c = record db {
  characters = update db.characters character_id (some c);
}
