-- ===== src/Articles/Merge/OneSided.antt =====
-- A proposal for an article that nobody edited is merged as it was proposed.
use heofberu_backend.Prelude.{
  zero, suc, ℕ, ◌+◌, ◌-◌, ◌≤◌, ◌≡◌, refl, ap, ◌∙◌, false, List, [], ◌∷◌, ◌++◌, arith, ltb,
  if◌then◌else◌, length, take, drop, Bool-cases, inl, inr, append_assoc, append-nil,
}
use heofberu_backend.Articles.Merge.{
  Line, Block, Region, common, common_regions, sync_regions, slice, TextMerge, merge_hunk,
  merge_from, merge_text,
}
use heofberu_backend.Articles.Merge.Slices.{slice-drop, slice_rest, same_lines_refl}

-- a hunk that the current text left as it was
merge_hunk-untouched : (b p : List Line) → merge_hunk b b p ≡ record { text = p; conflicts = [] }
unfolding merge_hunk
merge_hunk-untouched b p = ground (arith, same_lines_refl b)

-- what `get_matching_blocks` documents: blocks in order, apart, Within both texts, of equal lines
abbrev pub Matching : List Line → List Line → List Block → ℕ → ℕ → Type 0
Matching x y [] x_at y_at = Unit
Matching x y (m ∷ ms) x_at y_at =
    (x_at ≤ m.a)
    × (y_at ≤ m.b)
    × (m.a + m.size ≤ length x)
    × (m.b + m.size ≤ length y)
    × (slice m.a (m.a + m.size) x ≡ slice m.b (m.b + m.size) y)
    × Matching x y ms (m.a + m.size) (m.b + m.size)

earlier :
    (x y : List Line) (ms : List Block) (i j i' j' : ℕ)
    → i' ≤ i
    → j' ≤ j
    → Matching x y ms i j
    → Matching x y ms i' j'
earlier x y [] i j i' j' hi hj h = tt
earlier x y (m ∷ ms) i j i' j' hi hj (p, q, r, s, t, u) =
    (omega (arith, p, hi), omega (arith, q, hj), r, s, t, u)

-- the regions where the whole base stands in the current text
abbrev regions_of : List Block → List Region
regions_of [] = []
regions_of (m ∷ ms) =
    (if ltb 0 m.size
      then record {
        base_start = m.a;
        base_end = m.a + m.size;
        current_start = m.a;
        proposed_start = m.b;
      }
        ∷ []
      else [])
    ++ regions_of ms

abbrev whole : ℕ → Block
whole n = record { a = 0; b = 0; size = n }

common-whole :
    (n : ℕ) (m : Block)
    → m.a + m.size ≤ n
    → common (whole n) m ≡ (
        if ltb 0 m.size
        then record {
          base_start = m.a;
          base_end = m.a + m.size;
          current_start = m.a;
          proposed_start = m.b;
        }
          ∷ []
        else [])
unfolding common
common-whole n m h = ground arith

not_longer :
    (n : ℕ) (m : Block)
    → m.a + m.size ≤ n
    → ltb ((whole n).a + (whole n).size) (m.a + m.size) ≡ false
not_longer n m h = ground arith

regions-whole :
    (n : ℕ) (x y : List Line) (cs ms : List Block) (i j : ℕ)
    → length x ≡ n
    → Matching x y ms i j
    → common_regions (whole n ∷ cs) ms ≡ regions_of ms
unfolding common_regions
regions-whole n x y cs [] i j e h = refl
regions-whole n x y cs (m ∷ ms) i j e (_, _, fits, _, _, rest) =
    rw (common-whole n m (omega (arith, fits, e))) (
      rw (not_longer n m (omega (arith, fits, e))) (
        ap
          (λ r.
            (if ltb 0 m.size
              then record {
                base_start = m.a;
                base_end = m.a + m.size;
                current_start = m.a;
                proposed_start = m.b;
              }
                ∷ []
              else [])
            ++ r)
          (regions-whole n x y cs ms (m.a + m.size) (m.b + m.size) e rest)))

abbrev ending : List Line → List Line → Region
ending x y = record {
  base_start = length x;
  base_end = length x;
  current_start = length x;
  proposed_start = length y;
}

slice_empty : (n : ℕ) (xs : List Line) → slice n n xs ≡ []
slice_empty n xs = ap (λ k. take k (drop n xs)) {x = n - n} {y = 0} (omega arith)

abbrev clean : List Line → TextMerge
clean xs = record { text = xs; conflicts = [] }

merge_from-step :
    (x y : List Line) (rs : List Region) (i j a e p : ℕ) (t : List Line)
    → a ≤ e
    → merge_from x x y rs e e (p + (e - a)) ≡ clean t
    → merge_from x x y
        (record { base_start = a; base_end = e; current_start = a; proposed_start = p } ∷ rs)
        i
        i
        j
      ≡ clean (slice j p y ++ slice a e x ++ t)
unfolding merge_from
merge_from-step x y rs i j a e p t le rest =
    let at : a + (e - a) ≡ e = omega (arith, le) in
    rw (merge_hunk-untouched (slice i a x) (slice j p y)) (rw at (rw rest refl))

merge_from-untouched :
    (x y : List Line) (ms : List Block) (i j : ℕ)
    → i ≤ length x
    → j ≤ length y
    → Matching x y ms i j
    → merge_from x x y (regions_of ms ++ ending x y ∷ []) i i j
      ≡ record { text = drop j y; conflicts = [] }
unfolding merge_from
merge_from-untouched x y [] i j hi hj h =
    merge_from-step x y [] i j (length x) (length x) (length y) [] (omega arith) refl
    ∙ ap clean (
        rw (slice_rest j y)
          (rw (slice_empty (length x) x) (append-nil (drop j y ++ []) ∙ append-nil (drop j y))))
merge_from-untouched x y (m ∷ ms) i j hi hj (a, b, c, d, same, rest) =
    elim (Bool-cases (ltb 0 m.size)) [
      | inl lines ↦
          let size : m.b + (m.a + m.size - m.a) ≡ m.b + m.size = omega arith in
          let next = merge_from-untouched x y ms (m.a + m.size) (m.b + m.size) c d rest in
          let joined : slice j m.b y ++ slice m.a (m.a + m.size) x ++ drop (m.b + m.size) y
              ≡ drop j y =
            rw same (
              append_assoc (slice j m.b y) (slice m.b (m.b + m.size) y) (drop (m.b + m.size) y)
              ∙ ap (λ r. slice j m.b y ++ r) (slice-drop m.b (m.b + m.size) y (omega arith))
              ∙ slice-drop j m.b y b) in
          rw lines (
            merge_from-step x y (regions_of ms ++ ending x y ∷ []) i j m.a (m.a + m.size) m.b
              (drop (m.b + m.size) y) (omega arith) (rw size next)
            ∙ ap clean joined)
      | inr nothing ↦ rw nothing (
          merge_from-untouched x y ms i j hi hj (
            earlier x y ms (m.a + m.size) (m.b + m.size) i j (omega (arith, a)) (omega (arith, b))
              rest))
    ]

-- what `get_matching_blocks` gives for two equal texts of so many lines: one block, where there are
-- lines, and the dummy that ends the list
abbrev pub equal_blocks : ℕ → List Block
equal_blocks zero = whole 0 ∷ []
equal_blocks (suc n) = whole (suc n) ∷ record { a = suc n; b = suc n; size = 0 } ∷ []

abbrev pub IsMatcher : (List Line → List Line → List Block) → Type 0
IsMatcher matcher =
    ((x : List Line) → matcher x x ≡ equal_blocks (length x))
    × ((x y : List Line) → Matching x y (matcher x y) 0 0)

regions-equal :
    (n : ℕ) (x y : List Line) (ms : List Block)
    → length x ≡ n
    → Matching x y ms 0 0
    → common_regions (equal_blocks n) ms ≡ regions_of ms
regions-equal zero x y ms e h = regions-whole 0 x y [] ms 0 0 e h
regions-equal (suc n) x y ms e h =
    regions-whole (suc n) x y (record { a = suc n; b = suc n; size = 0 } ∷ []) ms 0 0 e h

-- A proposal for an article that is as it was when the proposal was made is merged as it was
-- proposed, without a conflict; given that the blocks of the matcher are blocks of equal lines, in
-- order and apart, and that two equal texts are one block, or none where they are empty.
pub merge_text-untouched :
    (matcher : List Line → List Line → List Block) (base proposed : List Line)
    → IsMatcher matcher
    → merge_text matcher base base proposed ≡ record { text = proposed; conflicts = [] }
unfolding merge_text sync_regions
merge_text-untouched matcher base proposed (equal, matching) =
    let regions =
      regions-equal (length base) base proposed (matcher base proposed) refl
        (matching base proposed) in
    rw (equal base) (
      rw regions (
        merge_from-untouched base proposed (matcher base proposed) 0 0 (omega arith) (omega arith)
          (matching base proposed)))
