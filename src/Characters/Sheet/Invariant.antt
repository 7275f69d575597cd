-- ===== src/Characters/Sheet/Invariant.antt =====
-- The invariant of a sheet's hit points and level cap, kept by every operation of Sheet.antt, and
-- by any sequence of them.
use heofberu_backend.Prelude.{ℕ, ◌≡◌, refl, some, arith, ◌≤◌, ◌==◌, ltb, leb, Bool-cases, inl, inr}
use heofberu_backend.Prelude.Int.{ℤ, pos, ◌≤ℤ◌}
use heofberu_backend.Prelude.Result.{ok, raise_if, bind-ok, then-ok, ok-injective}
use heofberu_backend.Characters.Db.{
  User, Character, Db, max_level_below_character_level, max_level_can_only_increase, put_character,
}
use heofberu_backend.Characters.Access.{get_character_for_user, get_character_for_gm}
use heofberu_backend.Characters.Progression.{character_max_level}
use heofberu_backend.Characters.Sheet.{
  HpUpdate, resolve_hp_update, get_locked_for_user, update_hp, RestType, short, long, rest,
  set_max_hp, validate_hp_update, current_cap, set_max_level,
}

pub record IsSheet (c : Character) : Type 0 where
  pub current_nonneg : pos 0 ≤ℤ c.current_hp
  pub current_le : c.current_hp ≤ℤ c.max_hp
  pub temp_nonneg : pos 0 ≤ℤ c.temp_hp

pub record IsValid (db : Db) : Type 0 where
  pub sheets : (id : ℕ) (c : Character) → db.characters id ≡ some c → IsSheet c
  pub below_cap :
      (id : ℕ) (c : Character)
      → db.characters id ≡ some c
      → (c.level ≤ current_cap (db.max_levels id) c.level)
        × (current_cap (db.max_levels id) c.level ≤ character_max_level)

resolve_hp_update_range :
    (current temp max_hp : ℤ) (d : HpUpdate)
    → pos 0 ≤ℤ max_hp
    → let (current', temp') = resolve_hp_update current temp max_hp d in
      (pos 0 ≤ℤ current') × (current' ≤ℤ max_hp) × (pos 0 ≤ℤ temp')
unfolding resolve_hp_update
resolve_hp_update_range current temp max_hp d m = (ground arith, ground arith, ground arith)

locked_found :
    (db : Db) (id : ℕ) (user : User) (c : Character)
    → get_locked_for_user db id user ≡ ok c
    → db.characters id ≡ some c
unfolding get_locked_for_user
locked_found db id user c h = ground arith

gm_found :
    (db : Db) (id : ℕ) (user : User) (c : Character)
    → get_character_for_gm db id user ≡ ok c
    → db.characters id ≡ some c
unfolding get_character_for_gm
gm_found db id user c h = ground arith

-- writing a sheet that is in range, and leaving the level alone, keeps the invariant
put-IsValid :
    (db : Db) (id : ℕ) (c c' : Character)
    → IsValid db
    → db.characters id ≡ some c
    → IsSheet c'
    → c'.level ≡ c.level
    → IsValid (put_character db id c')
put-IsValid db id c c' v found sheet level = record {
  sheets = λ j d e. elim (Bool-cases (j == id)) [
    | inl same ↦ ground arith
    | inr other ↦ v.sheets j d (ground arith)
  ];
  below_cap = λ j d e. elim (Bool-cases (j == id)) [
    | inl same ↦ ground (arith, v.below_cap id c found)
    | inr other ↦ v.below_cap j d (ground arith)
  ];
}

update_hp-IsValid :
    (id : ℕ) (d : HpUpdate) (user : User) (db db' : Db)
    → IsValid db
    → update_hp id d user db ≡ ok db'
    → IsValid db'
unfolding update_hp
update_hp-IsValid id d user db db' v h =
    let (c, got, rest) = bind-ok (get_locked_for_user db id user) _ h in
    let (_, done) = then-ok (validate_hp_update d) _ rest in
    let found = locked_found db id user c got in
    let s = v.sheets id c found in
    let (lo, hi, temp) =
      resolve_hp_update_range c.current_hp c.temp_hp c.max_hp d
        (omega (arith, s.current_nonneg, s.current_le)) in
    rw (← ok-injective done) (
      put-IsValid db id c _ v found
        (record { current_nonneg = lo; current_le = hi; temp_nonneg = temp }) refl)

rest-IsValid :
    (id : ℕ) (t : RestType) (user : User) (db db' : Db)
    → IsValid db
    → rest id t user db ≡ ok db'
    → IsValid db'
unfolding rest
rest-IsValid id short user db db' v h =
    let (c, got, done) = bind-ok (get_character_for_user db id user) _ h in
    rw (← ok-injective done) v
rest-IsValid id long user db db' v h =
    let (c, got, done) = bind-ok (get_locked_for_user db id user) _ h in
    let found = locked_found db id user c got in
    let s = v.sheets id c found in
    let w =
      put-IsValid db id c (record c { current_hp = c.max_hp; temp_hp = pos 0 }) v found
        (record {
          current_nonneg = omega arith;
          current_le = omega arith;
          temp_nonneg = omega arith;
        })
        refl in
    rw (← ok-injective done) (record { sheets = w.sheets; below_cap = w.below_cap })

set_max_hp-IsValid :
    (id : ℕ) (max_hp : ℤ) (user : User) (db db' : Db)
    → IsValid db
    → pos 0 ≤ℤ max_hp
    → set_max_hp id max_hp user db ≡ ok db'
    → IsValid db'
unfolding set_max_hp
set_max_hp-IsValid id max_hp user db db' v m h =
    let (c, got, done) = bind-ok (get_character_for_gm db id user) _ h in
    let found = gm_found db id user c got in
    let s = v.sheets id c found in
    rw (← ok-injective done) (
      put-IsValid db id c _ v found
        (record {
          current_nonneg = ground arith;
          current_le = ground arith;
          temp_nonneg = omega arith;
        })
        refl)

set_max_level-IsValid :
    (id max_level : ℕ) (user : User) (db db' : Db)
    → IsValid db
    → max_level ≤ character_max_level
    → set_max_level id max_level user db ≡ ok db'
    → IsValid db'
unfolding set_max_level
set_max_level-IsValid id max_level user db db' v m h =
    let (c, got, rest) = bind-ok (get_character_for_gm db id user) _ h in
    let found = gm_found db id user c got in
    let below =
      raise_if (ltb max_level c.level) (max_level_below_character_level id max_level c.level) in
    let cap = current_cap (db.max_levels id) c.level in
    let (above, rest') = then-ok below _ rest in
    let (_, done) =
      then-ok (raise_if (leb max_level cap) (max_level_can_only_increase id cap)) _ rest' in
    rw (← ok-injective done) (record {
      sheets = v.sheets;
      below_cap = λ j d e. elim (Bool-cases (j == id)) [
        | inl same ↦ rw same (ground (arith, found))
        | inr other ↦ rw other (v.below_cap j d e)
      ];
    })

-- one operation on the sheets, with the bounds that the request schemas check
pub data Step (db : Db) : Db → Type 0 where
  hp :
      {db' : Db} (id : ℕ) (d : HpUpdate) (user : User)
      → update_hp id d user db ≡ ok db'
      → Step db db'
  rested :
      {db' : Db} (id : ℕ) (t : RestType) (user : User) → rest id t user db ≡ ok db' → Step db db'
  max_hp_set :
      {db' : Db} (id : ℕ) (max_hp : ℤ) (user : User)
      → pos 0 ≤ℤ max_hp
      → set_max_hp id max_hp user db ≡ ok db'
      → Step db db'
  max_level_set :
      {db' : Db} (id max_level : ℕ) (user : User)
      → max_level ≤ character_max_level
      → set_max_level id max_level user db ≡ ok db'
      → Step db db'

pub data Reach (db : Db) : Db → Type 0 where
  start : Reach db db
  next : {mid end : Db} → Reach db mid → Step mid end → Reach db end

Step-IsValid : {db db' : Db} → Step db db' → IsValid db → IsValid db'
Step-IsValid (hp id d user e) v = update_hp-IsValid id d user _ _ v e
Step-IsValid (rested id t user e) v = rest-IsValid id t user _ _ v e
Step-IsValid (max_hp_set id m user b e) v = set_max_hp-IsValid id m user _ _ v b e
Step-IsValid (max_level_set id m user b e) v = set_max_level-IsValid id m user _ _ v b e

-- Whatever sequence of hit-point updates, rests, maximum changes and cap raises is accepted, by
-- whichever users and within the bounds of their requests, each character's current hit points
-- stay between zero and its maximum, its temporary ones are not negative, and its level stays
-- within its cap and the cap within 20; given that this holds at the start.
pub Reach-IsValid : {db db' : Db} → Reach db db' → IsValid db → IsValid db'
Reach-IsValid start v = v
Reach-IsValid (next r s) v = Step-IsValid s (Reach-IsValid r v)
