-- ===== src/Characters/Spells.antt =====
-- app/features/characters/spells: eligibility, the known spells and the slots that cap them.
pub mod Capacity
pub mod Slots
use heofberu_backend.Prelude.{
  ℕ, Bool, true, false, not, ◌&&◌, ◌||◌, List, [], ◌∷◌, ◌++◌, Option, none, some, map, first, keep,
  any, length, leb, ◌==◌, member, if◌then◌else◌, is_some,
}
use heofberu_backend.Prelude.Result.{⊤, Result, ok, err, ◌>>=◌, ◌>>◌, raise_if}
use heofberu_backend.Characters.Db.{
  User, Character, CharacterSpellSlot, CharacterSpell, Spell, Db, CharacterError, spell_not_found,
  spell_already_known, spell_not_available, no_spell_slot_available, character_spell_not_found,
}
use heofberu_backend.Characters.Access.{get_character_for_user}

abbrev pub is_slot : ℕ → ℕ → CharacterSpellSlot → Bool
is_slot character_id level slot = slot.character_id == character_id && slot.spell_level == level

-- `CharacterSpellSlotRepository.get_spell_slot`
unfoldable pub get_spell_slot : ℕ → ℕ → List CharacterSpellSlot → Option CharacterSpellSlot
get_spell_slot character_id level slots = first (is_slot character_id level) slots

-- `slot.total if slot is not None else 0`
unfoldable pub total_slots : ℕ → ℕ → List CharacterSpellSlot → ℕ
unfolding get_spell_slot
total_slots character_id level slots = elim (get_spell_slot character_id level slots) [
  | none ↦ 0
  | some slot ↦ slot.total
]

abbrev pub is_known : ℕ → ℕ → CharacterSpell → Bool
is_known character_id spell_id row = row.character_id == character_id && row.spell_id == spell_id

-- `CharacterSpellRepository.get_known_spell`
unfoldable pub get_known_spell : ℕ → ℕ → Db → Option CharacterSpell
get_known_spell character_id spell_id db = first (is_known character_id spell_id) db.known_spells

-- does the row belong to the character, and join a spell of the level?
abbrev pub known_at : (ℕ → Option Spell) → ℕ → ℕ → CharacterSpell → Bool
known_at spells character_id level row =
    row.character_id == character_id
    && elim (spells row.spell_id) [ none ↦ false | some spell ↦ spell.level == level ]

-- `CharacterSpellRepository.count_known_spells_at_level`
unfoldable pub count_known_spells_at_level : ℕ → ℕ → Db → ℕ
count_known_spells_at_level character_id level db =
    length (keep (known_at db.spells character_id level) db.known_spells)

-- one dimension of the restriction: an empty list excludes nobody
abbrev pub dimension_ok : List ℕ → Option ℕ → Bool
dimension_ok [] _ = true
dimension_ok (x ∷ xs) none = false
dimension_ok (x ∷ xs) (some id) = member id (x ∷ xs)

-- `_check_spell_available_to_character`
unfoldable pub check_spell_available : Character → Spell → Result CharacterError ⊤
check_spell_available c spell =
    let class_ok = dimension_ok spell.available_classes (some c.class_id) in
    let subclass_ok = dimension_ok spell.available_subclasses c.subclass_id in
    let race_ok = dimension_ok spell.available_races c.race_id in
    let subrace_ok = dimension_ok spell.available_subraces c.subrace_id in
    raise_if (not (class_ok && subclass_ok && race_ok && subrace_ok))
      (spell_not_available c.id spell.id)

-- `_check_slot_available`
unfoldable pub check_slot_available : ℕ → Spell → Db → Result CharacterError ⊤
unfolding total_slots count_known_spells_at_level
check_slot_available character_id spell db =
    raise_if
      (leb (total_slots character_id spell.level db.spell_slots)
        (count_known_spells_at_level character_id spell.level db))
      (no_spell_slot_available character_id spell.level)

-- `CharacterSpellEligibilityChecker.check`
unfoldable pub check_eligible : Character → Spell → Db → Result CharacterError ⊤
unfolding check_spell_available check_slot_available
check_eligible c spell db = check_spell_available c spell >> check_slot_available c.id spell db

-- `CharacterSpellRepository.add_known_spell`
unfoldable pub insert_known_spell : ℕ → ℕ → Db → Db
insert_known_spell character_id spell_id db = record db {
  known_spells =
      db.known_spells ++ record { character_id = character_id; spell_id = spell_id } ∷ [];
}

abbrev pub find_spell : ℕ → Db → Result CharacterError Spell
find_spell spell_id db = elim (db.spells spell_id) [
  | none ↦ err (spell_not_found spell_id)
  | some s ↦ ok s
]

-- `CharacterSpellService.add_known_spell`
unfoldable pub add_known_spell : ℕ → ℕ → User → Db → Result CharacterError Db
unfolding get_character_for_user get_known_spell check_eligible insert_known_spell
add_known_spell character_id spell_id user db = do
  c ← get_character_for_user db character_id user
  spell ← find_spell spell_id db
  raise_if (is_some (get_known_spell character_id spell_id db))
      (spell_already_known character_id spell_id)
  check_eligible c spell db
  ok (insert_known_spell character_id spell_id db)

-- `CharacterSpellRepository.remove_known_spell`
unfoldable pub delete_known_spell : ℕ → ℕ → Db → Db
delete_known_spell character_id spell_id db = record db {
  known_spells = keep (λ row. not (is_known character_id spell_id row)) db.known_spells;
}

-- `CharacterSpellService.remove_known_spell`
unfoldable pub remove_known_spell : ℕ → ℕ → User → Db → Result CharacterError Db
unfolding get_character_for_user get_known_spell delete_known_spell
remove_known_spell character_id spell_id user db = do
  _ ← get_character_for_user db character_id user
  raise_if (not (is_some (get_known_spell character_id spell_id db)))
      (character_spell_not_found character_id spell_id)
  ok (delete_known_spell character_id spell_id db)

-- `clear_known_spells`
unfoldable pub clear_known_spells : ℕ → Db → Db
clear_known_spells character_id db = record db {
  known_spells = keep (λ row. not (row.character_id == character_id)) db.known_spells;
}

-- set the total of one slot row
abbrev pub with_total : ℕ → ℕ → ℕ → CharacterSpellSlot → CharacterSpellSlot
with_total character_id level total slot =
    if is_slot character_id level slot then record slot { total = total } else slot

-- the first loop of `apply_spell_slot_progression`: `existing` is what the table held before it
unfoldable pub upsert_totals :
    ℕ → List CharacterSpellSlot → List (ℕ × ℕ) → List CharacterSpellSlot → List CharacterSpellSlot
unfolding get_spell_slot
upsert_totals character_id existing [] slots = slots
upsert_totals character_id existing ((level, total) ∷ more) slots =
    upsert_totals character_id existing more (
      if is_some (get_spell_slot character_id level existing)
      then map (with_total character_id level total) slots
      else slots
        ++ record { character_id = character_id; spell_level = level; total = total; used = 0 }
          ∷ [])

-- the total that the progression gives a level
abbrev pub total_of : ℕ → List (ℕ × ℕ) → Option ℕ
total_of level [] = none
total_of level ((l, total) ∷ more) = if l == level then some total else total_of level more

-- its second loop
unfoldable pub zero_missing :
    ℕ → List (ℕ × ℕ) → List CharacterSpellSlot → List CharacterSpellSlot → List CharacterSpellSlot
zero_missing character_id slots_by_level [] slots = slots
zero_missing character_id slots_by_level (old ∷ more) slots =
    zero_missing character_id slots_by_level more (
      if old.character_id == character_id && not (is_some (total_of old.spell_level slots_by_level))
      then map (with_total character_id old.spell_level 0) slots
      else slots)

-- `CharacterSpellSlotRepository.apply_spell_slot_progression`
unfoldable pub apply_spell_slot_progression : ℕ → List (ℕ × ℕ) → Db → Db
unfolding upsert_totals zero_missing
apply_spell_slot_progression character_id slots_by_level db = record db {
  spell_slots =
      zero_missing character_id slots_by_level db.spell_slots
        (upsert_totals character_id db.spell_slots slots_by_level db.spell_slots);
}
