-- ===== src/Characters/Conditions/Invariant.antt =====
-- The operations keep the table of conditions well formed.
use heofberu_backend.Prelude.{
  ℕ, ◌≡◌, ◌∙◌, Bool, true, false, not, ◌&&◌, List, [], ◌∷◌, ◌++◌, Option, none, some, first, arith,
  ◌==◌, is_some,
}
use heofberu_backend.Prelude.Result.{Result, ok, err, raise_if, bind-ok, then-ok, ok-injective}
use heofberu_backend.Characters.Db.{
  User, ConditionType, same_condition, is_exhaustion, CharacterCondition, Db, CharacterError,
  invalid_condition,
}
use heofberu_backend.Characters.Access.{ensure_character_access}
use heofberu_backend.Characters.Conditions.{
  has_key, get_character_condition, add_character_condition, ConditionUpdate, get_or_else, patched,
  get_condition_or_404, validate_exhaustion_level, level_in_bounds, level_of_update, add_condition,
  update_condition, remove_condition,
}
use heofberu_backend.Characters.Conditions.Table.{
  IsRow, IsTable, append-IsTable, keep-IsTable, same_condition→exhaustion, patch-IsTable,
  first-has_key, first-IsRow, first-keep-not, first-keep_other,
}

row_of_checks :
    (k : ConditionType) (level : Option ℕ)
    → validate_exhaustion_level k level ≡ ok tt
    → is_exhaustion k ≡ is_some level
unfolding validate_exhaustion_level
row_of_checks k level h = ground arith

bounds_of_check : (b : Bool) → raise_if (not b) invalid_condition ≡ ok tt → b ≡ true
bounds_of_check b h = ground arith

inserted :
    (o : Option Db) (e : CharacterError) (db : Db)
    → ◌≡◌ {A = Result CharacterError Db} (elim o [ none ↦ err e | some d ↦ ok d ]) (ok db)
    → o ≡ some db
inserted none e db h = cc
inserted (some d) e db h = cc

added :
    (id : ℕ) (k : ConditionType) (level : Option ℕ) (source : List ℕ) (db db' : Db)
    → add_character_condition id k level source db ≡ some db'
    → (first (has_key id k) db.conditions ≡ none)
      × (db'.conditions
          ≡ db.conditions
            ++ record {
              character_id = id;
              condition = k;
              exhaustion_level = level;
              source = source;
            }
              ∷ [])
unfolding add_character_condition
added id k level source db db' h = ground arith

found_row :
    (id : ℕ) (k : ConditionType) (db : Db) (row : CharacterCondition)
    → get_condition_or_404 id k db ≡ ok row
    → (r : CharacterCondition) → first (has_key id k) db.conditions ≡ some r
    → row ≡ r
unfolding get_condition_or_404
found_row id k db row h r e = ground arith

fits-IsRow :
    (k : ConditionType) (u : ConditionUpdate) (r : CharacterCondition)
    → is_exhaustion k ≡ is_some (get_or_else u.exhaustion_level r.exhaustion_level)
    → is_exhaustion r.condition ≡ is_exhaustion k
    → level_in_bounds (level_of_update u) ≡ true
    → IsRow r
    → IsRow (patched u r)
fits-IsRow k u r merged same bounds old = (same ∙ merged, ground (arith, old))

-- An accepted addition, with the request checks in front of it, keeps a well-formed table well
-- formed: one row for a character and a condition, with an exhaustion level from 1 to 6 exactly
-- where the condition is exhaustion.
pub add_condition-IsTable :
    (id : ℕ) (k : ConditionType) (level : Option ℕ) (source : List ℕ) (user : User) (db db' : Db)
    → IsTable db.conditions
    → add_condition id k level source user db ≡ ok db'
    → IsTable db'.conditions
unfolding add_condition
add_condition-IsTable id k level source user db db' t h =
    let (bounds, r₁) = then-ok (raise_if (not (level_in_bounds level)) invalid_condition) _ h in
    let (valid, r₂) = then-ok (validate_exhaustion_level k level) _ r₁ in
    let (_, r₃) = then-ok (ensure_character_access db id user) _ r₂ in
    let (fresh, appended) = added id k level source db db' (inserted _ _ _ r₃) in
    rw appended (
      append-IsTable _ db.conditions t
        (row_of_checks k level valid, bounds_of_check (level_in_bounds level) bounds) fresh)

-- An accepted update keeps a well-formed table well formed: one row for a character and a
-- condition, and the exhaustion level that the row ends with, the request's or the old one, fits
-- its condition.
pub update_condition-IsTable :
    (id : ℕ) (k : ConditionType) (u : ConditionUpdate) (user : User) (db db' : Db)
    → IsTable db.conditions
    → update_condition id k u user db ≡ ok db'
    → IsTable db'.conditions
unfolding update_condition
update_condition-IsTable id k u user db db' t h =
    let (bounds, r₁) =
      then-ok (raise_if (not (level_in_bounds (level_of_update u))) invalid_condition) _ h in
    let (_, r₂) = then-ok (ensure_character_access db id user) _ r₁ in
    let (row, found, r₃) = bind-ok (get_condition_or_404 id k db) _ r₂ in
    let merged = get_or_else u.exhaustion_level row.exhaustion_level in
    let (valid, done) = then-ok (validate_exhaustion_level k merged) _ r₃ in
    rw (← ok-injective done) (
      patch-IsTable id k u db.conditions
        (λ r e.
          let same = found_row id k db row found r e in
          let matches = first-has_key (has_key id k) db.conditions r e in
          let old = first-IsRow (has_key id k) db.conditions r t e in
          fits-IsRow k u r
            (row_of_checks k (get_or_else u.exhaustion_level r.exhaustion_level) (rw same at valid))
            (same_condition→exhaustion r.condition k (ground arith))
            (bounds_of_check (level_in_bounds (level_of_update u)) bounds) old)
        t)

other_key :
    (id j : ℕ) (k l : ConditionType) (r : CharacterCondition)
    → (j == id) && same_condition l k ≡ false
    → has_key j l r ≡ true
    → not (has_key id k r) ≡ true
other_key id j k l r differ m = ground arith

-- After an accepted removal from a well-formed table the table is well formed, the condition is
-- gone, and the rows of the other characters and conditions are as before.
pub remove_condition_lem :
    (id : ℕ) (k : ConditionType) (user : User) (db db' : Db)
    → IsTable db.conditions
    → remove_condition id k user db ≡ ok db'
    → IsTable db'.conditions
      × (get_character_condition id k db' ≡ none)
      × ((j : ℕ) (l : ConditionType)
          → (j == id) && same_condition l k ≡ false
          → get_character_condition j l db' ≡ get_character_condition j l db)
unfolding remove_condition get_character_condition
remove_condition_lem id k user db db' t h =
    let (_, r₁) = then-ok (ensure_character_access db id user) _ h in
    let (_, _, done) = bind-ok (get_condition_or_404 id k db) _ r₁ in
    rw (← ok-injective done) (
      keep-IsTable (λ row. not (has_key id k row)) db.conditions t,
      first-keep-not (has_key id k) db.conditions,
      λ j l differ.
          first-keep_other (has_key j l) (λ row. not (has_key id k row)) db.conditions
            (λ r m. other_key id j k l r differ m),
    )
