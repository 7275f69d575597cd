-- ===== src/Characters/Proficiencies/Groups.antt =====
-- Grouping the entries in a dict comes to filtering them by their key.
use heofberu_backend.Prelude.{
  ℕ, ◌≡◌, refl, ap, sym, ◌∙◌, true, false, List, [], ◌∷◌, ◌++◌, Option, none, some, keep, first,
  arith, if◌then◌else◌, opt_eq, Bool-cases, inl, inr, append_assoc, append-nil, ==→eq,
}
use heofberu_backend.Characters.Ability.{AbilityScore, same_ability}
use heofberu_backend.Characters.Proficiencies.{
  ProficiencyKey, skill, saving_throw, armor, weapon, same_key, ProficiencyEntry,
  ResolvedProficiency, resolve_group, add_entry, grouped_from, resolved_groups, resolve_all,
}

same_ability_sound : (a b : AbilityScore) → same_ability a b ≡ true → a ≡ b
same_ability_sound a b h = ground arith

opt_eq_sound : (a b : Option ℕ) → opt_eq a b ≡ true → a ≡ b
opt_eq_sound a b h = ground arith

same_key_sound : (a b : ProficiencyKey) → same_key a b ≡ true → a ≡ b
same_key_sound (skill a) (skill b) h = ap (λ x. skill x) (==→eq a b h)
same_key_sound (saving_throw a) (saving_throw b) h =
    ap (λ x. saving_throw x) (same_ability_sound a b h)
same_key_sound (armor a) (armor b) h = ap (λ x. armor x) (==→eq a b h)
same_key_sound (weapon c i) (weapon c' i') h = ground (arith, opt_eq_sound c c', opt_eq_sound i i')
same_key_sound a b h = ground arith

same_key_refl : (a : ProficiencyKey) → same_key a a ≡ true
same_key_refl a = ground arith

-- what a dict of groups holds for a key, and what the entries hold for it
abbrev pub group_of :
    ProficiencyKey → List (ProficiencyKey × List ProficiencyEntry) → List ProficiencyEntry
group_of key [] = []
group_of key ((k, g) ∷ gs) = if same_key key k then g else group_of key gs

abbrev pub entries_of : ProficiencyKey → List ProficiencyEntry → List ProficiencyEntry
entries_of key = keep (λ e. same_key key e.key)

-- no two groups of a dict share a key
abbrev IsDict : List (ProficiencyKey × List ProficiencyEntry) → Type 0
IsDict [] = Unit
IsDict ((k, g) ∷ gs) = (group_of k gs ≡ []) × IsDict gs

same_key_trans : (a b c : ProficiencyKey) → same_key b c ≡ true → same_key a b ≡ same_key a c
same_key_trans a b c h = ap (λ x. same_key a x) (same_key_sound b c h)

-- a key is not equal to two keys that differ
other_of :
    (key a b : ProficiencyKey)
    → same_key a b ≡ false
    → same_key key a ≡ true
    → same_key key b ≡ false
other_of key a b differ same = rw (same_key_sound key a same) differ

other_way : (a b : ProficiencyKey) → same_key a b ≡ false → same_key b a ≡ false
other_way a b differ = elim (Bool-cases (same_key b a)) [
  | inl same ↦ ground (arith, same_key_refl a, rw (same_key_sound b a same) at differ)
  | inr other ↦ other
]

group_of-add_entry :
    (key : ProficiencyKey) (e : ProficiencyEntry)
    (gs : List (ProficiencyKey × List ProficiencyEntry))
    → group_of key (add_entry e gs)
      ≡ (if same_key key e.key then group_of key gs ++ e ∷ [] else group_of key gs)
unfolding add_entry
group_of-add_entry key e [] = ground arith
group_of-add_entry key e ((k, g) ∷ gs) = elim (Bool-cases (same_key e.key k)) [
  | inl same ↦ ground (arith, same_key_trans key e.key k same)
  | inr other ↦ ground (arith, group_of-add_entry key e gs, other_of key e.key k other)
]

group_of-grouped_from :
    (key : ProficiencyKey) (es : List ProficiencyEntry)
    (gs : List (ProficiencyKey × List ProficiencyEntry))
    → group_of key (grouped_from gs es) ≡ group_of key gs ++ entries_of key es
unfolding grouped_from
group_of-grouped_from key [] gs = sym (append-nil (group_of key gs))
group_of-grouped_from key (e ∷ es) gs =
    group_of-grouped_from key es (add_entry e gs)
    ∙ rw (group_of-add_entry key e gs)
        (ground (arith, append_assoc (group_of key gs) (e ∷ []) (entries_of key es)))

add_entry-IsDict :
    (e : ProficiencyEntry) (gs : List (ProficiencyKey × List ProficiencyEntry))
    → IsDict gs
    → IsDict (add_entry e gs)
unfolding add_entry
add_entry-IsDict e [] h = (refl, tt)
add_entry-IsDict e ((k, g) ∷ gs) (fresh, h) = elim (Bool-cases (same_key e.key k)) [
  | inl same ↦ rw same (fresh, h)
  | inr other ↦
      rw other (
        rw (group_of-add_entry k e gs) (rw (other_way e.key k other) fresh),
        add_entry-IsDict e gs h,
      )
]

grouped_from-IsDict :
    (es : List ProficiencyEntry) (gs : List (ProficiencyKey × List ProficiencyEntry))
    → IsDict gs
    → IsDict (grouped_from gs es)
unfolding grouped_from
grouped_from-IsDict [] gs h = h
grouped_from-IsDict (e ∷ es) gs h =
    grouped_from-IsDict es (add_entry e gs) (add_entry-IsDict e gs h)

abbrev pub find_key : ProficiencyKey → List ResolvedProficiency → Option ResolvedProficiency
find_key key = first (λ r. same_key key r.key)

resolve_group-key :
    (key : ProficiencyKey) (g : List ProficiencyEntry) (r : ResolvedProficiency)
    → resolve_group key g ≡ some r
    → r.key ≡ key
unfolding resolve_group
resolve_group-key key g r h = ground arith

resolve_group-empty : (key : ProficiencyKey) → resolve_group key [] ≡ none
unfolding resolve_group
resolve_group-empty key = refl

find_key-own :
    (k : ProficiencyKey) (o : Option ResolvedProficiency) (rest : List ResolvedProficiency)
    → ((r : ResolvedProficiency) → o ≡ some r → r.key ≡ k)
    → find_key k rest ≡ none
    → find_key k (elim o as (λ _. List ResolvedProficiency) [ none ↦ rest | some r ↦ r ∷ rest ]) ≡ o
find_key-own k none rest key later = later
find_key-own k (some r) rest key later = ground (arith, key r refl, same_key_refl k)

find_key-other :
    (key k : ProficiencyKey) (o : Option ResolvedProficiency) (rest : List ResolvedProficiency)
    → same_key key k ≡ false
    → ((r : ResolvedProficiency) → o ≡ some r → r.key ≡ k)
    → find_key key (elim o as (λ _. List ResolvedProficiency) [ none ↦ rest | some r ↦ r ∷ rest ])
      ≡ find_key key rest
find_key-other key k none rest other is = refl
find_key-other key k (some r) rest other is = ground (arith, is r refl)

find_key-resolved_groups :
    (key : ProficiencyKey) (gs : List (ProficiencyKey × List ProficiencyEntry))
    → IsDict gs
    → find_key key (resolved_groups gs) ≡ resolve_group key (group_of key gs)
unfolding resolved_groups
find_key-resolved_groups key [] h = sym (resolve_group-empty key)
find_key-resolved_groups key ((k, g) ∷ gs) (fresh, h) =
    let deeper = find_key-resolved_groups key gs h in
    elim (Bool-cases (same_key key k)) [
      | inl same ↦
          let here : k ≡ key = sym (same_key_sound key k same) in
          let gone : group_of key gs ≡ [] = rw (← here) fresh in
          let absent = deeper ∙ ap (resolve_group key) gone ∙ resolve_group-empty key in
          rw same (
            rw here (
              find_key-own key (resolve_group key g) (resolved_groups gs) (resolve_group-key key g)
                absent))
      | inr other ↦ rw other (
          find_key-other key k (resolve_group k g) (resolved_groups gs) other
            (resolve_group-key k g)
          ∙ deeper)
    ]

-- The proficiencies that are resolved from a list of entries hold, for a key, what the entries of
-- that key resolve to, in their order: grouping them in a dict neither loses, mixes nor repeats any.
pub resolve_all-eq :
    (key : ProficiencyKey) (entries : List ProficiencyEntry)
    → find_key key (resolve_all entries) ≡ resolve_group key (entries_of key entries)
unfolding resolve_all
resolve_all-eq key entries =
    find_key-resolved_groups key (grouped_from [] entries) (grouped_from-IsDict entries [] tt)
    ∙ ap (resolve_group key) (group_of-grouped_from key entries [])
