-- ===== src/Characters/Tests/Spells.antt =====
-- The known spells of one wizard with one slot.
use heofberu_backend.Prelude.{
  ℕ, List, ◌≡◌, refl, false, [], ◌∷◌, none, some, arith, ◌==◌, if◌then◌else◌,
}
use heofberu_backend.Prelude.Int.{pos}
use heofberu_backend.Prelude.Result.{ok}
use heofberu_backend.Characters.Db.{player, User, Character, Spell, Db}
use heofberu_backend.Characters.Access.{
  check_owner_access, check_character_access, get_character_or_404, get_character_for_user,
}
use heofberu_backend.Characters.Spells.{
  add_known_spell, remove_known_spell, get_known_spell, check_eligible, check_spell_available,
  check_slot_available, total_slots, get_spell_slot, count_known_spells_at_level,
  insert_known_spell, delete_known_spell,
}
use heofberu_backend.Characters.Spells.{apply_spell_slot_progression}
use heofberu_backend.Characters.Spells.Slots.{apply_spell_slot_progression-total}
use heofberu_backend.Characters.Spells.Capacity.{
  IsWithinSlots, IsKeyed, add_known_spell-IsWithinSlots,
}

abbrev owner : User
owner = record { id = 3; role = player }

abbrev wizard : Character
wizard = record {
  id = 9;
  owner_id = 3;
  level = 1;
  class_id = 1;
  subclass_id = none;
  race_id = none;
  subrace_id = none;
  max_hp = pos 6;
  current_hp = pos 6;
  temp_hp = pos 0;
}

abbrev shield : Spell
shield = record {
  id = 30;
  level = 1;
  available_classes = 1 ∷ 2 ∷ [];
  available_subclasses = [];
  available_races = [];
  available_subraces = [];
}

abbrev study : Db
study = record {
  characters = λ id. if id == 9 then some wizard else none;
  managed_by = λ _ _. false;
  max_levels = λ _. none;
  conditions = [];
  spell_slots = record { character_id = 9; spell_level = 1; total = 1; used = 0 } ∷ [];
  known_spells = [];
  spells = λ id. if id == 30 then some shield else none;
}

abbrev learned : Db
learned = record study { known_spells = record { character_id = 9; spell_id = 30 } ∷ [] }

learns : add_known_spell 9 30 owner study ≡ ok learned
unfolding add_known_spell get_character_for_user get_character_or_404 check_character_access
    check_owner_access get_known_spell check_eligible check_spell_available check_slot_available
    total_slots get_spell_slot count_known_spells_at_level insert_known_spell
learns = refl

study-IsKeyed : IsKeyed study
study-IsKeyed = record {
  character_key = λ id c h. ground arith;
  spell_key = λ id s h. ground arith;
}

study-IsWithinSlots : IsWithinSlots study
unfolding count_known_spells_at_level
study-IsWithinSlots id level = omega arith

add_known_spell-IsWithinSlots_example : IsWithinSlots learned
add_known_spell-IsWithinSlots_example =
    add_known_spell-IsWithinSlots 9 30 owner study learned study-IsKeyed study-IsWithinSlots learns

learned-IsWithinSlots : IsWithinSlots learned
learned-IsWithinSlots =
    add_known_spell-IsWithinSlots 9 30 owner study learned study-IsKeyed study-IsWithinSlots learns

forgets : remove_known_spell 9 30 owner learned ≡ ok study
unfolding remove_known_spell get_character_for_user get_character_or_404 check_character_access
    check_owner_access get_known_spell delete_known_spell
forgets = refl

abbrev third_level : List (ℕ × ℕ)
third_level = (1, 4) ∷ (2, 2) ∷ []

apply_spell_slot_progression-total_example :
    total_slots 9 2 (apply_spell_slot_progression 9 third_level study).spell_slots ≡ 2
apply_spell_slot_progression-total_example =
    apply_spell_slot_progression-total 9 third_level study 9 2 (refl, (refl, tt))
