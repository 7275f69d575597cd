-- ===== src/Characters.antt =====
-- app/features/characters: ability scores, progression, hit points, conditions, spells and
-- proficiencies of a character.
pub mod Db
pub mod Access
pub mod Ability
pub mod Progression
pub mod Sheet
pub mod Conditions
pub mod Spells
pub mod Proficiencies
mod Tests
