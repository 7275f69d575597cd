-- ===== src/Articles/Merge/Values.antt =====
-- The merge of one field.
use heofberu_backend.Prelude.{◌≡◌, ◌≢◌, ◌↔◌, refl, Bool, true, none, some, arith}
use heofberu_backend.Articles.Merge.{merge_value}

-- a test that decides equality
abbrev pub IsEquality : {A : Type 0} → (A → A → Bool) → Type 0
IsEquality {A} same = (x y : A) → (same x y ≡ true) ↔ (x ≡ y)

module _ {A : Type 0} (same : A → A → Bool) (decides : IsEquality same) where
  same_refl : (x : A) → same x x ≡ true
  same_refl x = (decides x x).1 refl

  -- A field that one side left alone takes the other side's value, a field that both sides changed to
  -- the same value takes it, the sides may be swapped, and the merge is a conflict exactly when both
  -- sides changed the field, to different values; a test that decides equality compares the values.
  pub merge_value_lem :
      (base current proposed : A)
      → (merge_value same base base proposed ≡ some proposed)
        × (merge_value same base current base ≡ some current)
        × (merge_value same base current current ≡ some current)
        × (merge_value same base current proposed ≡ merge_value same base proposed current)
        × ((merge_value same base current proposed ≡ none)
            ↔ ((current ≢ base) × (proposed ≢ base) × (current ≢ proposed)))
  unfolding merge_value
  merge_value_lem base current proposed =
      let (sound, whole) = decides proposed base in
      let (sound1, whole1) = decides current base in
      let (sound2, whole2) = decides current proposed in
      let (sound3, whole3) = decides proposed current in
      (
        ground (arith, same_refl base, sound, whole),
        ground (arith, same_refl base),
        ground (arith, same_refl current, sound1, whole1),
        ground (arith, sound, whole, sound1, whole1, sound2, whole2, sound3, whole3),
        ground (arith, sound, whole, sound1, whole1, sound2, whole2),
      )
