-- ===== src/Characters/Tests.antt =====
-- The theorems of the character modules at concrete inputs.
mod Scores
mod Levels
mod Sheets
mod Spells
mod Skills
