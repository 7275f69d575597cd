-- ===== src/Characters/Access/Matrix.antt =====
-- Exactly who passes the checks of access.py.
use heofberu_backend.Prelude.{ℕ, ◌≡◌, ◌⊎◌, ◌↔◌, inl, inr, true, some, Option-cases, arith}
use heofberu_backend.Prelude.Result.{ok}
use heofberu_backend.Characters.Db.{found_father, gm, User, Character, Db}
use heofberu_backend.Characters.Access.{
  get_character_for_user, get_character_for_gm, ensure_character_access,
}

-- the founder, or a GM who runs a campaign in which the character is active
abbrev pub Manages : Db → ℕ → User → Type 0
Manages db character_id user =
    (user.role ≡ found_father) ⊎ ((user.role ≡ gm) × (db.managed_by character_id user.id ≡ true))

-- A GM-panel write to a character that exists is let through exactly for those who manage the
-- character; owning it gives nothing.
pub get_character_for_gm_exact :
    (db : Db) (character_id : ℕ) (user : User) (c : Character)
    → db.characters character_id ≡ some c
    → (get_character_for_gm db character_id user ≡ ok c) ↔ Manages db c.id user
unfolding get_character_for_gm
get_character_for_gm_exact db character_id user c found = (λ h. ground arith, λ h. ground arith)

-- A player-side request for a character that exists is let through exactly for the owner and for
-- those who manage the character.
pub get_character_for_user_exact :
    (db : Db) (character_id : ℕ) (user : User) (c : Character)
    → db.characters character_id ≡ some c
    → (get_character_for_user db character_id user ≡ ok c)
      ↔ ((c.owner_id ≡ user.id) ⊎ Manages db c.id user)
unfolding get_character_for_user
get_character_for_user_exact db character_id user c found = (λ h. ground arith, λ h. ground arith)

-- The check that reads only the owner's id decides as the check on the whole row does, where the
-- row carries the id under which it is stored; both find a missing character missing.
pub ensure_character_access-eq :
    (db : Db) (character_id : ℕ) (user : User)
    → ((c : Character) → db.characters character_id ≡ some c → c.id ≡ character_id)
    → (ensure_character_access db character_id user ≡ ok tt)
      ↔ ((c : Character) × (get_character_for_user db character_id user ≡ ok c))
unfolding ensure_character_access get_character_for_user
ensure_character_access-eq db character_id user keyed =
    elim (Option-cases (db.characters character_id)) [
      | inl missing ↦ (λ h. absurd (ground arith), λ h. ground (arith, h.1))
      | inr (c, found) ↦
          (λ h. (c, ground (arith, keyed c found)), λ h. ground (arith, keyed c found))
    ]
