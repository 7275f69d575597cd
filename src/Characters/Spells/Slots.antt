-- ===== src/Characters/Spells/Slots.antt =====
-- `apply_spell_slot_progression` leaves each level with the total that the progression gives it.
use heofberu_backend.Prelude.{
  ℕ, ◌≡◌, refl, ap, ==→eq, ◌∙◌, Bool, true, false, not, ◌&&◌, ◌||◌, List, [], ◌∷◌, ◌++◌, Option,
  none, some, map, arith, ◌==◌, if◌then◌else◌, is_some, is_none, Bool-cases, inl, inr,
}
use heofberu_backend.Characters.Db.{CharacterSpellSlot, Db}
use heofberu_backend.Characters.Spells.{
  is_slot, get_spell_slot, total_slots, with_total, upsert_totals, total_of, zero_missing,
  apply_spell_slot_progression,
}

abbrev has_slot : ℕ → ℕ → List CharacterSpellSlot → Bool
has_slot c l slots = is_some (get_spell_slot c l slots)

total-map :
    (id l c k t : ℕ) (slots : List CharacterSpellSlot)
    → total_slots id l (map (with_total c k t) slots)
      ≡ (if (id == c) && (l == k) && has_slot id l slots then t else total_slots id l slots)
unfolding total_slots
total-map id l c k t [] = ground arith
total-map id l c k t (x ∷ xs) = ground (arith, total-map id l c k t xs)

has-map :
    (id l c k t : ℕ) (slots : List CharacterSpellSlot)
    → has_slot id l (map (with_total c k t) slots) ≡ has_slot id l slots
unfolding get_spell_slot
has-map id l c k t [] = refl
has-map id l c k t (x ∷ xs) = ground (arith, has-map id l c k t xs)

no_slot-total :
    (id l : ℕ) (slots : List CharacterSpellSlot)
    → has_slot id l slots ≡ false
    → total_slots id l slots ≡ 0
unfolding total_slots
no_slot-total id l slots h = ground arith

abbrev fresh_slot : ℕ → ℕ → ℕ → CharacterSpellSlot
fresh_slot c k t = record { character_id = c; spell_level = k; total = t; used = 0 }

total-append :
    (id l c k t : ℕ) (slots : List CharacterSpellSlot)
    → total_slots id l (slots ++ fresh_slot c k t ∷ []) ≡ (
        if has_slot id l slots
        then total_slots id l slots
        else if (id == c) && (l == k)
        then t
        else 0)
unfolding total_slots
total-append id l c k t [] = ground arith
total-append id l c k t (x ∷ xs) = ground (arith, total-append id l c k t xs)

has-append :
    (id l c k t : ℕ) (slots : List CharacterSpellSlot)
    → (l == k) ≡ false
    → has_slot id l (slots ++ fresh_slot c k t ∷ []) ≡ has_slot id l slots
unfolding get_spell_slot
has-append id l c k t [] h = ground arith
has-append id l c k t (x ∷ xs) h = ground (arith, has-append id l c k t xs h)

-- the dict of the progression has one total for a level
abbrev pub UniqueKeys : List (ℕ × ℕ) → Type 0
UniqueKeys [] = Unit
UniqueKeys ((l, t) ∷ m) = (total_of l m ≡ none) × UniqueKeys m

abbrev pub or_total : Option ℕ → ℕ → ℕ
or_total none d = d
or_total (some t) _ = t

-- a key of the rest is not the key that was just read
other_key :
    (j k : ℕ) (m : List (ℕ × ℕ))
    → total_of k m ≡ none
    → is_some (total_of j m) ≡ true
    → (j == k) ≡ false
other_key j k m new h = elim (Bool-cases (j == k)) [
  | inl same ↦ ground (arith, ap (λ n. total_of n m) (==→eq j k same))
  | inr other ↦ other
]

has_same :
    (id l c k : ℕ) (slots : List CharacterSpellSlot)
    → (id == c) ≡ true
    → (l == k) ≡ true
    → has_slot id l slots ≡ has_slot c k slots
has_same id l c k slots a b = rw (==→eq id c a) (rw (==→eq l k b) refl)

key_free :
    (l k : ℕ) (m : List (ℕ × ℕ)) → total_of k m ≡ none → (l == k) ≡ true → total_of l m ≡ none
key_free l k m new same = rw (==→eq l k same) new

known_case :
    (id c l k t : ℕ) (r : Option ℕ) (slots : List CharacterSpellSlot)
    → has_slot c k slots ≡ true
    → ((l == k) ≡ true → r ≡ none)
    → (if id == c
        then or_total r (total_slots id l (map (with_total c k t) slots))
        else total_slots id l (map (with_total c k t) slots))
      ≡ (if id == c
          then or_total (if k == l then some t else r) (total_slots id l slots)
          else total_slots id l slots)
known_case id c l k t r slots has later =
    ground (arith, total-map id l c k t slots, has_same id l c k slots, has, later)

fresh_case :
    (id c l k t : ℕ) (r : Option ℕ) (slots : List CharacterSpellSlot)
    → has_slot c k slots ≡ false
    → ((l == k) ≡ true → r ≡ none)
    → (if id == c
        then or_total r (total_slots id l (slots ++ fresh_slot c k t ∷ []))
        else total_slots id l (slots ++ fresh_slot c k t ∷ []))
      ≡ (if id == c
          then or_total (if k == l then some t else r) (total_slots id l slots)
          else total_slots id l slots)
fresh_case id c l k t r slots has later = ground (
  arith,
  total-append id l c k t slots,
  has_same id l c k slots,
  has,
  later,
  no_slot-total id l slots,
)

upsert-total :
    (c : ℕ) (old : List CharacterSpellSlot) (m : List (ℕ × ℕ)) (slots : List CharacterSpellSlot)
    → UniqueKeys m
    → ((k : ℕ) → is_some (total_of k m) ≡ true → has_slot c k slots ≡ has_slot c k old)
    → (id l : ℕ)
    → total_slots id l (upsert_totals c old m slots) ≡ (
        if id == c
        then or_total (total_of l m) (total_slots id l slots)
        else total_slots id l slots)
unfolding upsert_totals
upsert-total c old [] slots u same id l = ground arith
upsert-total c old ((k, t) ∷ m) slots (new, u) same id l = elim (Bool-cases (has_slot c k old)) [
  | inl there ↦
      let slots' = map (with_total c k t) slots in
      let now = same k (ground arith) in
      let step =
        upsert-total c old m slots' u (λ j h. has-map c j c k t slots ∙ same j (ground arith)) id
          l in
      rw there
        (step ∙ known_case id c l k t (total_of l m) slots (now ∙ there) (key_free l k m new))
  | inr absent ↦
      let slots' = slots ++ fresh_slot c k t ∷ [] in
      let now = same k (ground arith) in
      let step =
        upsert-total c old m slots' u
          (λ j h. has-append c j c k t slots (other_key j k m new h) ∙ same j (ground arith)) id
          l in
      rw absent
        (step ∙ fresh_case id c l k t (total_of l m) slots (now ∙ absent) (key_free l k m new))
]

has_same_id :
    (id c l : ℕ) (slots : List CharacterSpellSlot)
    → (id == c) ≡ true
    → has_slot id l slots ≡ has_slot c l slots
has_same_id id c l slots same = rw (==→eq id c same) refl

same_total : (l k : ℕ) (m : List (ℕ × ℕ)) → (l == k) ≡ true → total_of l m ≡ total_of k m
same_total l k m same = rw (==→eq l k same) refl

-- setting a level's total to zero
zeroed :
    (id l c k : ℕ) (slots : List CharacterSpellSlot)
    → total_slots id l (map (with_total c k 0) slots)
      ≡ (if (id == c) && (l == k) then 0 else total_slots id l slots)
zeroed id l c k slots = ground (arith, total-map id l c k 0 slots, no_slot-total id l slots)

has_nil : (c l : ℕ) → has_slot c l [] ≡ false
unfolding get_spell_slot
has_nil c l = refl

has-cons :
    (c l : ℕ) (x : CharacterSpellSlot) (old : List CharacterSpellSlot)
    → has_slot c l (x ∷ old) ≡ (is_slot c l x || has_slot c l old)
unfolding get_spell_slot
has-cons c l x old = ground arith

zero-total :
    (c : ℕ) (m : List (ℕ × ℕ)) (old slots : List CharacterSpellSlot) (id l : ℕ)
    → total_slots id l (zero_missing c m old slots) ≡ (
        if (id == c) && is_none (total_of l m) && has_slot c l old
        then 0
        else total_slots id l slots)
unfolding zero_missing
zero-total c m [] slots id l = ground (arith, has_nil c l)
zero-total c m (x ∷ old) slots id l =
    elim (Bool-cases (x.character_id == c && not (is_some (total_of x.spell_level m)))) [
      | inl clears ↦ rw clears (
          zero-total c m old (map (with_total c x.spell_level 0) slots) id l
          ∙ ground (
            arith,
            clears,
            zeroed id l c x.spell_level slots,
            has-cons c l x old,
            same_total l x.spell_level m,
          ))
      | inr stays ↦ rw stays (
          zero-total c m old slots id l
          ∙ ground (arith, stays, has-cons c l x old, same_total l x.spell_level m))
    ]

-- After a progression with one total for a level is applied, the character has, at each level, the
-- total that it gives, and none at the levels that it does not give; the totals of the other
-- characters are as before.
pub apply_spell_slot_progression-total :
    (c : ℕ) (m : List (ℕ × ℕ)) (db : Db) (id l : ℕ)
    → UniqueKeys m
    → total_slots id l (apply_spell_slot_progression c m db).spell_slots
      ≡ (if id == c then or_total (total_of l m) 0 else total_slots id l db.spell_slots)
unfolding apply_spell_slot_progression
apply_spell_slot_progression-total c m db id l u =
    zero-total c m db.spell_slots (upsert_totals c db.spell_slots m db.spell_slots) id l
    ∙ rw (upsert-total c db.spell_slots m db.spell_slots u (λ k h. refl) id l)
        (ground (arith, no_slot-total id l db.spell_slots, has_same_id id c l db.spell_slots))
