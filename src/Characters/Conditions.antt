-- ===== src/Characters/Conditions.antt =====
-- app/features/characters/conditions: the conditions that a character is under. The rows of
-- `character_conditions` are a list; (character, condition) is its primary key.
pub mod Table
pub mod Invariant
use heofberu_backend.Prelude.{
  ℕ, Bool, true, false, not, ◌&&◌, List, [], ◌∷◌, ◌++◌, Option, none, some, map, first, keep, leb,
  ◌==◌, if◌then◌else◌, is_none, is_some,
}
use heofberu_backend.Prelude.Result.{⊤, Result, ok, err, ◌>>=◌, ◌>>◌, raise_if}
use heofberu_backend.Characters.Db.{
  User, ConditionType, same_condition, is_exhaustion, CharacterCondition, Db, CharacterError,
  condition_already_exists, condition_not_found, invalid_condition,
}
use heofberu_backend.Characters.Access.{ensure_character_access}

abbrev pub has_key : ℕ → ConditionType → CharacterCondition → Bool
has_key character_id condition row =
    row.character_id == character_id && same_condition row.condition condition

-- `CharacterConditionRepository.get_character_condition`
unfoldable pub get_character_condition : ℕ → ConditionType → Db → Option CharacterCondition
get_character_condition character_id condition db =
    first (has_key character_id condition) db.conditions

-- `get_character_conditions`, the rows that `get_conditions` lists
unfoldable pub get_character_conditions : ℕ → Db → List CharacterCondition
get_character_conditions character_id db =
    keep (λ row. row.character_id == character_id) db.conditions

-- `INSERT … ON CONFLICT DO NOTHING`: `none` where the key is taken
unfoldable pub add_character_condition : ℕ → ConditionType → Option ℕ → List ℕ → Db → Option Db
unfolding get_character_condition
add_character_condition character_id condition level source db =
    elim (get_character_condition character_id condition db) [
      | some _ ↦ none
      | none ↦ some (record db {
        conditions =
            db.conditions
            ++ record {
              character_id = character_id;
              condition = condition;
              exhaustion_level = level;
              source = source;
            }
              ∷ [];
      })
    ]

-- the fields that a PATCH sets: `none` is a field that it leaves out
pub record ConditionUpdate : Type 0 where
  pub exhaustion_level : Option (Option ℕ)
  pub source : Option (List ℕ)

abbrev pub get_or_else {ℓ} : {A : Type ℓ} → Option A → A → A
get_or_else none d = d
get_or_else (some x) _ = x

abbrev pub patched : ConditionUpdate → CharacterCondition → CharacterCondition
patched update_data row = record row {
  exhaustion_level = get_or_else update_data.exhaustion_level row.exhaustion_level;
  source = get_or_else update_data.source row.source;
}

-- `update_character_condition`
unfoldable pub update_character_condition : ℕ → ConditionType → ConditionUpdate → Db → Db
update_character_condition character_id condition update_data db = record db {
  conditions =
      map (λ row. if has_key character_id condition row then patched update_data row else row)
        db.conditions;
}

-- `remove_character_condition`
unfoldable pub remove_character_condition : ℕ → ConditionType → Db → Db
remove_character_condition character_id condition db = record db {
  conditions = keep (λ row. not (has_key character_id condition row)) db.conditions;
}

-- `_get_condition_or_404`
unfoldable pub get_condition_or_404 :
    ℕ → ConditionType → Db → Result CharacterError CharacterCondition
unfolding get_character_condition
get_condition_or_404 character_id condition db =
    elim (get_character_condition character_id condition db) [
      | none ↦ err (condition_not_found character_id condition)
      | some row ↦ ok row
    ]

-- `_validate_exhaustion_level`; `CharacterConditionAdd` validates a new row by the same two tests
unfoldable pub validate_exhaustion_level : ConditionType → Option ℕ → Result CharacterError ⊤
validate_exhaustion_level condition level =
    raise_if (is_exhaustion condition && is_none level) invalid_condition
    >> raise_if (not (is_exhaustion condition) && is_some level) invalid_condition

-- the bounds `ge=1, le=6` of both request schemas
abbrev pub level_in_bounds : Option ℕ → Bool
level_in_bounds none = true
level_in_bounds (some level) = leb 1 level && leb level 6

abbrev pub level_of_update : ConditionUpdate → Option ℕ
level_of_update u = get_or_else u.exhaustion_level none

-- `CharacterConditionService.get_conditions`
unfoldable pub get_conditions : ℕ → User → Db → Result CharacterError (List CharacterCondition)
unfolding get_character_conditions ensure_character_access
get_conditions character_id user db =
    ensure_character_access db character_id user >> ok (get_character_conditions character_id db)

-- `CharacterConditionService.add_condition`, behind the validation of its request
unfoldable pub add_condition :
    ℕ → ConditionType → Option ℕ → List ℕ → User → Db → Result CharacterError Db
unfolding add_character_condition validate_exhaustion_level ensure_character_access
add_condition character_id condition level source user db = do
  raise_if (not (level_in_bounds level)) invalid_condition
  validate_exhaustion_level condition level
  ensure_character_access db character_id user
  elim (add_character_condition character_id condition level source db) [
    | none ↦ err (condition_already_exists character_id condition)
    | some db' ↦ ok db'
  ]

-- `CharacterConditionService.update_condition`
unfoldable pub update_condition :
    ℕ → ConditionType → ConditionUpdate → User → Db → Result CharacterError Db
unfolding get_condition_or_404 update_character_condition validate_exhaustion_level
    ensure_character_access
update_condition character_id condition update_data user db = do
  raise_if (not (level_in_bounds (level_of_update update_data))) invalid_condition
  ensure_character_access db character_id user
  row ← get_condition_or_404 character_id condition db
  let merged_level = get_or_else update_data.exhaustion_level row.exhaustion_level
  validate_exhaustion_level condition merged_level
  ok (update_character_condition character_id condition update_data db)

-- `CharacterConditionService.remove_condition`
unfoldable pub remove_condition : ℕ → ConditionType → User → Db → Result CharacterError Db
unfolding get_condition_or_404 remove_character_condition ensure_character_access
remove_condition character_id condition user db = do
  ensure_character_access db character_id user
  _ ← get_condition_or_404 character_id condition db
  ok (remove_character_condition character_id condition db)
