-- ===== src/Characters/Spells/Capacity.antt =====
-- A level's slot total caps the known spells of that level.
use heofberu_backend.Prelude.{
  some_same, ℕ, ◌≡◌, refl, ap, Bool, true, not, ◌&&◌, List, [], ◌∷◌, ◌++◌, Option, none, some,
  first, keep, length, arith, ◌≤◌, ◌<◌, ◌+◌, ◌==◌, if◌then◌else◌, is_some, length-append,
}
use native.Mathlib.Nat.{le_trans}
use mathlib.Core.Path.{subst₂}
use heofberu_backend.Prelude.Result.{Result, ok, err, raise_if, bind-ok, then-ok, ok-injective}
use heofberu_backend.Characters.Db.{
  User, Character, CharacterSpell, Spell, Db, CharacterError, spell_not_found, spell_already_known,
  spell_not_available, character_spell_not_found,
}
use heofberu_backend.Characters.Access.{get_character_for_user}
use heofberu_backend.Characters.Spells.{
  total_slots, get_known_spell, is_known, known_at, count_known_spells_at_level, dimension_ok,
  check_spell_available, check_slot_available, check_eligible, insert_known_spell, find_spell,
  add_known_spell, remove_known_spell,
}

keep-append {ℓ} :
    {A : Type ℓ} (p : A → Bool) (xs ys : List A) → keep p (xs ++ ys) ≡ keep p xs ++ keep p ys
keep-append p [] ys = refl
keep-append p (x ∷ xs) ys = ground (arith, keep-append p xs ys)

-- every character knows at most as many spells of a level as it has slots of it
abbrev pub IsWithinSlots : Db → Type 0
IsWithinSlots db =
    (id level : ℕ) → count_known_spells_at_level id level db ≤ total_slots id level db.spell_slots

-- stored characters carry their key, and so do spells
pub record IsKeyed (db : Db) : Type 0 where
  pub character_key : (id : ℕ) (c : Character) → db.characters id ≡ some c → c.id ≡ id
  pub spell_key : (id : ℕ) (s : Spell) → db.spells id ≡ some s → s.id ≡ id

count-insert :
    (id level character_id spell_id : ℕ) (db : Db) (s : Spell)
    → db.spells spell_id ≡ some s
    → count_known_spells_at_level id level (insert_known_spell character_id spell_id db)
      ≡ count_known_spells_at_level id level db
        + (if character_id == id && s.level == level then 1 else 0)
unfolding count_known_spells_at_level insert_known_spell
count-insert id level character_id spell_id db s e =
    let row : CharacterSpell = record { character_id = character_id; spell_id = spell_id } in
    rw (keep-append (known_at db.spells id level) db.known_spells (row ∷ [])) (
      rw
        (length-append (keep (known_at db.spells id level) db.known_spells)
          (keep (known_at db.spells id level) (row ∷ [])))
        (ap (λ n. count_known_spells_at_level id level db + n) (ground arith)))

room :
    (id : ℕ) (s : Spell) (db : Db)
    → check_slot_available id s db ≡ ok tt
    → count_known_spells_at_level id s.level db < total_slots id s.level db.spell_slots
unfolding check_slot_available
room id s db h = ground arith

spell_found :
    (o : Option Spell) (e : CharacterError) (s : Spell)
    → ◌≡◌ {A = Result CharacterError Spell} (elim o [ none ↦ err e | some x ↦ ok x ]) (ok s)
    → o ≡ some s
spell_found none e s h = cc
spell_found (some x) e s h = cc

user_found :
    (db : Db) (id : ℕ) (user : User) (c : Character)
    → get_character_for_user db id user ≡ ok c
    → db.characters id ≡ some c
unfolding get_character_for_user
user_found db id user c h = ground arith

one_more :
    (id j l level : ℕ) (db : Db)
    → count_known_spells_at_level id l db < total_slots id l db.spell_slots
    → count_known_spells_at_level j level db ≤ total_slots j level db.spell_slots
    → count_known_spells_at_level j level db + (if id == j && l == level then 1 else 0)
      ≤ total_slots j level db.spell_slots
one_more id j l level db free held = ground arith

-- An accepted addition of a known spell keeps every character within its slots at every level,
-- given that all were before and that characters and spells are stored under their ids.
pub add_known_spell-IsWithinSlots :
    (id spell_id : ℕ) (user : User) (db db' : Db)
    → IsKeyed db
    → IsWithinSlots db
    → add_known_spell id spell_id user db ≡ ok db'
    → IsWithinSlots db'
unfolding add_known_spell
add_known_spell-IsWithinSlots id spell_id user db db' keyed within h =
    let (c, got, r₁) = bind-ok (get_character_for_user db id user) _ h in
    let (s, looked, r₂) = bind-ok (find_spell spell_id db) _ r₁ in
    let (_, r₃) =
      then-ok
        (raise_if (is_some (get_known_spell id spell_id db)) (spell_already_known id spell_id)) _
        r₂ in
    let (eligible, done) = then-ok (check_eligible c s db) _ r₃ in
    let (_, slot) = then-ok (check_spell_available c s) _ eligible in
    let found = spell_found (db.spells spell_id) (spell_not_found spell_id) s looked in
    let own = keyed.character_key id c (user_found db id user c got) in
    let free = rw own at (room c.id s db slot) in
    rw (← ok-injective done) (λ j level.
      rw (count-insert j level id spell_id db s found)
        (one_more id j s.level level db free (within j level)))

length-keep-keep {ℓ} :
    {A : Type ℓ} (p q : A → Bool) (xs : List A) → length (keep p (keep q xs)) ≤ length (keep p xs)
length-keep-keep p q [] = omega arith
length-keep-keep p q (x ∷ xs) = ground (arith, length-keep-keep p q xs)

first-keep-not {ℓ} :
    {A : Type ℓ} (p : A → Bool) (xs : List A) → first p (keep (λ x. not (p x)) xs) ≡ none
first-keep-not p [] = refl
first-keep-not p (x ∷ xs) = ground (arith, first-keep-not p xs)

-- An accepted removal of a known spell keeps every character within its slots, given that all were
-- before, and the character no longer knows the spell.
pub remove_known_spell_lem :
    (id spell_id : ℕ) (user : User) (db db' : Db)
    → IsWithinSlots db
    → remove_known_spell id spell_id user db ≡ ok db'
    → IsWithinSlots db' × (get_known_spell id spell_id db' ≡ none)
unfolding remove_known_spell count_known_spells_at_level get_known_spell
remove_known_spell_lem id spell_id user db db' within h =
    let (c, got, r₁) = bind-ok (get_character_for_user db id user) _ h in
    let known =
      raise_if (not (is_some (get_known_spell id spell_id db)))
        (character_spell_not_found id spell_id) in
    let (_, done) = then-ok known _ r₁ in
    rw (← ok-injective done) (
      λ j level.
          le_trans
            (length-keep-keep (known_at db.spells j level) (λ row. not (is_known id spell_id row))
              db.known_spells)
            (within j level),
      first-keep-not (is_known id spell_id) db.known_spells,
    )

all_four :
    (a b c d : Bool) (e : CharacterError)
    → raise_if (not (a && b && c && d)) e ≡ ok tt
    → (a ≡ true) × (b ≡ true) × (c ≡ true) × (d ≡ true)
all_four a b c d e h = ground arith

available :
    (c : Character) (s : Spell)
    → check_spell_available c s ≡ ok tt
    → (dimension_ok s.available_classes (some c.class_id) ≡ true)
      × (dimension_ok s.available_subclasses c.subclass_id ≡ true)
      × (dimension_ok s.available_races c.race_id ≡ true)
      × (dimension_ok s.available_subraces c.subrace_id ≡ true)
unfolding check_spell_available
available c s h =
    all_four (dimension_ok s.available_classes (some c.class_id))
      (dimension_ok s.available_subclasses c.subclass_id) (dimension_ok s.available_races c.race_id)
      (dimension_ok s.available_subraces c.subrace_id) (spell_not_available c.id s.id) h

-- The spell of an accepted addition, where spell and character are stored, passes the restriction
-- of each of its four lists: it is open to all, or names the character's class, subclass, race or
-- subrace.
pub add_known_spell-available :
    (id spell_id : ℕ) (user : User) (db db' : Db) (c : Character) (s : Spell)
    → db.characters id ≡ some c
    → db.spells spell_id ≡ some s
    → add_known_spell id spell_id user db ≡ ok db'
    → (dimension_ok s.available_classes (some c.class_id) ≡ true)
      × (dimension_ok s.available_subclasses c.subclass_id ≡ true)
      × (dimension_ok s.available_races c.race_id ≡ true)
      × (dimension_ok s.available_subraces c.subrace_id ≡ true)
unfolding add_known_spell
add_known_spell-available id spell_id user db db' c s has is h =
    let (c₀, got, r₁) = bind-ok (get_character_for_user db id user) _ h in
    let (s₀, looked, r₂) = bind-ok (find_spell spell_id db) _ r₁ in
    let known =
      raise_if (is_some (get_known_spell id spell_id db)) (spell_already_known id spell_id) in
    let (_, r₃) = then-ok known _ r₂ in
    let (eligible, _) = then-ok (check_eligible c₀ s₀ db) _ r₃ in
    let (open_to, _) = then-ok (check_spell_available c₀ s₀) _ eligible in
    let same_c = some_same (user_found db id user c₀ got) has in
    let same_s =
      some_same (spell_found (db.spells spell_id) (spell_not_found spell_id) s₀ looked) is in
    available c s (subst₂ (λ x y. check_spell_available x y ≡ ok tt) same_c same_s open_to)
