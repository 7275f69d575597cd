-- ===== src/Characters/Access.antt =====
-- app/features/characters/access.py: who may read and change a character sheet.
pub mod Matrix
use heofberu_backend.Prelude.{ℕ, Bool, true, false, Option, none, some, ◌==◌, if◌then◌else◌}
use heofberu_backend.Prelude.Result.{⊤, Result, ok, err, ◌>>=◌, ◌>>◌}
use heofberu_backend.Characters.Db.{
  UserRole, found_father, gm, player, User, Character, Db, CharacterError, character_not_found,
  character_access_denied,
}

unfoldable pub is_founder : User → Bool
is_founder user = elim user.role [ found_father ↦ true | _ ↦ false ]

unfoldable pub is_gm_role : User → Bool
is_gm_role user = elim user.role [ gm ↦ true | _ ↦ false ]

unfoldable pub get_character_or_404 : Db → ℕ → Result CharacterError Character
get_character_or_404 db character_id = elim (db.characters character_id) [
  | none ↦ err (character_not_found character_id)
  | some c ↦ ok c
]

unfoldable pub can_manage_character : Db → ℕ → User → Bool
unfolding is_founder is_gm_role
can_manage_character db character_id user =
    if is_founder user
    then true
    else if is_gm_role user
    then db.managed_by character_id user.id
    else false

unfoldable pub check_owner_access : Db → ℕ → ℕ → User → Result CharacterError ⊤
unfolding can_manage_character
check_owner_access db character_id owner_id user =
    if owner_id == user.id
    then ok tt
    else if can_manage_character db character_id user
    then ok tt
    else err character_access_denied

unfoldable pub check_character_access : Db → Character → User → Result CharacterError ⊤
unfolding check_owner_access
check_character_access db c user = check_owner_access db c.id c.owner_id user

unfoldable pub get_character_for_user : Db → ℕ → User → Result CharacterError Character
unfolding get_character_or_404 check_character_access
get_character_for_user db character_id user = do
  c ← get_character_or_404 db character_id
  check_character_access db c user
  ok c

unfoldable pub get_character_for_gm : Db → ℕ → User → Result CharacterError Character
unfolding get_character_or_404 can_manage_character
get_character_for_gm db character_id user = do
  c ← get_character_or_404 db character_id
  if can_manage_character db c.id user then ok c else err character_access_denied

-- it reads the owner's id alone
unfoldable pub ensure_character_access : Db → ℕ → User → Result CharacterError ⊤
unfolding check_owner_access
ensure_character_access db character_id user = elim (db.characters character_id) [
  | none ↦ err (character_not_found character_id)
  | some c ↦ check_owner_access db character_id c.owner_id user
]
