-- ===== src/Characters/Sheet.antt =====
-- The hit points and the level cap of a character: app/features/characters/crud/rules.py and
-- service.py (update_hp, rest), gm_panel/hp and gm_panel/level.
pub mod Invariant
pub mod Damage
use heofberu_backend.Prelude.{
  ℕ, ◌-◌, ◌/◌, Bool, true, false, not, ◌&&◌, ◌||◌, List, Option, none, some, map, leb, ltb, ◌==◌,
  if◌then◌else◌, is_some, update,
}
use heofberu_backend.Prelude.Int.{ℤ, pos, negsuc, ◌+ℤ◌, ◌-ℤ◌, max_ℤ, min_ℤ, half_ℤ, leb_ℤ, ltb_ℤ}
use heofberu_backend.Prelude.Result.{⊤, Result, ok, err, ◌>>=◌, ◌>>◌, raise_if}
use heofberu_backend.Characters.Db.{
  User, Character, CharacterSpellSlot, Db, CharacterError, character_not_found, invalid_hp_update,
  max_level_below_character_level, max_level_can_only_increase, put_character,
}
use heofberu_backend.Characters.Access.{
  check_character_access, get_character_for_user, get_character_for_gm,
}
use heofberu_backend.Characters.Progression.{DiceType, hit_die_sides}

unfoldable pub starting_max_hp : DiceType → ℤ → ℤ
starting_max_hp hit_dice constitution_total =
    max_ℤ (pos (hit_die_sides hit_dice) +ℤ half_ℤ (constitution_total -ℤ pos 10)) (pos 1)

unfoldable pub apply_hp_delta : ℤ → ℤ → ℤ → ℤ × ℤ
apply_hp_delta current_hp temp_hp delta =
    let damage = pos 0 -ℤ delta in
    let absorbed = min_ℤ temp_hp damage in
    if leb_ℤ (pos 0) delta
    then (current_hp +ℤ delta, temp_hp)
    else (current_hp -ℤ (damage -ℤ absorbed), temp_hp -ℤ absorbed)

pub record HpUpdate : Type 0 where
  pub delta : Option ℤ
  pub current_hp : Option ℤ
  pub temp_hp : Option ℤ

unfoldable pub validate_hp_update : HpUpdate → Result CharacterError ⊤
validate_hp_update data' =
    let has_delta = is_some data'.delta in
    let has_absolute = is_some data'.current_hp || is_some data'.temp_hp in
    if has_delta && has_absolute
    then err invalid_hp_update
    else if not has_delta && not has_absolute
    then err invalid_hp_update
    else ok tt

abbrev pub or_default : Option ℤ → ℤ → ℤ
or_default none d = d
or_default (some x) _ = x

abbrev pub raised_temp : ℤ → Option ℤ → ℤ
raised_temp temp_hp none = temp_hp
raised_temp temp_hp (some x) = max_ℤ temp_hp x

-- the two branches of `resolve_hp_update`, before the clamps
unfoldable pub new_hp : ℤ → ℤ → Option ℤ → HpUpdate → ℤ × ℤ
unfolding apply_hp_delta
new_hp current_hp temp_hp (some delta) data' = apply_hp_delta current_hp temp_hp delta
new_hp current_hp temp_hp none data' =
    (or_default data'.current_hp current_hp, raised_temp temp_hp data'.temp_hp)

unfoldable pub resolve_hp_update : ℤ → ℤ → ℤ → HpUpdate → ℤ × ℤ
unfolding new_hp
resolve_hp_update current_hp temp_hp max_hp data' =
    let (new_current, new_temp) = new_hp current_hp temp_hp data'.delta data' in
    (max_ℤ (pos 0) (min_ℤ new_current max_hp), max_ℤ (pos 0) new_temp)

-- `_get_locked_for_user` of crud/service.py
unfoldable pub get_locked_for_user : Db → ℕ → User → Result CharacterError Character
unfolding check_character_access
get_locked_for_user db character_id user = elim (db.characters character_id) [
  | none ↦ err (character_not_found character_id)
  | some c ↦ check_character_access db c user >> ok c
]

-- `CharacterRepository.update_hp`
unfoldable pub write_hp : ℕ → Character → ℤ → ℤ → Db → Db
write_hp character_id c current temp db =
    put_character db character_id (record c { current_hp = current; temp_hp = temp })

-- `CharacterService.update_hp`
unfoldable pub update_hp : ℕ → HpUpdate → User → Db → Result CharacterError Db
unfolding get_locked_for_user validate_hp_update resolve_hp_update write_hp
update_hp character_id data' user db = do
  c ← get_locked_for_user db character_id user
  validate_hp_update data'
  let hp = resolve_hp_update c.current_hp c.temp_hp c.max_hp data'
  ok (write_hp character_id c hp.0 hp.1 db)

-- `reset_all_spell_slots` of spells/repository.py
abbrev pub unused : ℕ → CharacterSpellSlot → CharacterSpellSlot
unused character_id slot =
    if slot.character_id == character_id then record slot { used = 0 } else slot

unfoldable pub reset_all_spell_slots : ℕ → Db → Db
reset_all_spell_slots character_id db = record db {
  spell_slots = map (unused character_id) db.spell_slots;
}

pub data RestType : Type 0 where
  short long : RestType

-- `CharacterService.rest`
unfoldable pub rest : ℕ → RestType → User → Db → Result CharacterError Db
unfolding get_character_for_user get_locked_for_user write_hp reset_all_spell_slots
rest character_id short user db = do _ ← get_character_for_user db character_id user; ok db
rest character_id long user db = do
  c ← get_locked_for_user db character_id user
  ok (reset_all_spell_slots character_id (write_hp character_id c c.max_hp (pos 0) db))

-- `GmHpRepository.set_max_hp`: both columns in one statement
unfoldable pub write_max_hp : ℕ → Character → ℤ → Db → Db
write_max_hp character_id c max_hp db =
    put_character db character_id
      (record c { max_hp = max_hp; current_hp = min_ℤ c.current_hp max_hp })

-- `GmPanelHpService.set_max_hp`
unfoldable pub set_max_hp : ℕ → ℤ → User → Db → Result CharacterError Db
unfolding get_character_for_gm write_max_hp
set_max_hp character_id max_hp user db = do
  c ← get_character_for_gm db character_id user
  ok (write_max_hp character_id c max_hp db)

-- the stored cap, or the character's level where there is no row
abbrev pub current_cap : Option ℕ → ℕ → ℕ
current_cap none level = level
current_cap (some max_level) _ = max_level

-- `GmPanelLevelService.set_max_level`: with or without a row, the row ends at the new value
unfoldable pub set_max_level : ℕ → ℕ → User → Db → Result CharacterError Db
unfolding get_character_for_gm
set_max_level character_id max_level user db = do
  c ← get_character_for_gm db character_id user
  raise_if (ltb max_level c.level) (max_level_below_character_level character_id max_level c.level)
  let cap = current_cap (db.max_levels character_id) c.level
  raise_if (leb max_level cap) (max_level_can_only_increase character_id cap)
  ok (record db { max_levels = update db.max_levels character_id (some max_level) })

-- `GmPanelLevelService.get_max_level`: the level and its cap
unfoldable pub get_max_level : ℕ → User → Db → Result CharacterError (ℕ × ℕ)
unfolding get_character_for_user
get_max_level character_id user db = do
  c ← get_character_for_user db character_id user
  ok (c.level, current_cap (db.max_levels character_id) c.level)
