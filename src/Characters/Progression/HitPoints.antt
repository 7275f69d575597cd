-- ===== src/Characters/Progression/HitPoints.antt =====
-- The hit-point rules of rules.py: the range of one level's gain, and the range that a rebuild
-- allows against what leveling up can reach.
use heofberu_backend.Prelude.{
  ℕ, zero, suc, ◌+◌, ◌-◌, ◌*◌, ◌/◌, ◌≤◌, ◌≡◌, refl, ◌∙◌, sym, ap, List, [], ◌∷◌, Option, none, some,
  length, arith, min, leb, false,
}
use heofberu_backend.Prelude.Int.{
  ℤ, pos, negsuc, ◌+ℤ◌, ◌*ℤ◌, ◌≤ℤ◌, max_ℤ, pos_part, int_laws, +ℤ_parts,
}
use heofberu_backend.Prelude.Result.{Result, ok, ◌>>=◌, bind-ok, ok-injective}
use native.Mathlib.Numerals.{add-one}
use heofberu_backend.Characters.Progression.{
  ProgressionError, DiceType, hit_die_sides, resolve_hp_gain, max_hp_bounds,
}

hit_die_sides-ge : (d : DiceType) → 4 ≤ hit_die_sides d
unfolding hit_die_sides
hit_die_sides-ge d = ground arith

half_le :
    (n : ℕ) (c : ℤ)
    → 4 ≤ n
    → max_ℤ (pos 1) (pos (n / 2) +ℤ pos 1 +ℤ c) ≤ℤ max_ℤ (pos 1) (pos n +ℤ c)
half_le n c h =
    ground
      (arith, +ℤ_parts (pos (n / 2)) (pos 1), +ℤ_parts (pos (n / 2) +ℤ pos 1) c, +ℤ_parts (pos n) c)

-- Whether the gain is the default or a requested one, an accepted gain is at least 1 and at most
-- the hit die plus the CON modifier, where that is 1 or more, and 1 where it is less.
pub resolve_hp_gain_bounds :
    (requested : Option ℤ) (d : DiceType) (con_mod gain : ℤ)
    → resolve_hp_gain requested (hit_die_sides d) con_mod ≡ ok gain
    → (pos 1 ≤ℤ gain) × (gain ≤ℤ max_ℤ (pos 1) (pos (hit_die_sides d) +ℤ con_mod))
unfolding resolve_hp_gain
resolve_hp_gain_bounds none d con_mod gain h =
    ground (arith, half_le (hit_die_sides d) con_mod (hit_die_sides-ge d))
resolve_hp_gain_bounds (some r) d con_mod gain h = ground arith

-- the greatest gain of one level, as a natural number
top : ℕ → ℤ → ℕ
top die con_mod = pos_part (max_ℤ (pos 1) (pos die +ℤ con_mod))

floor_one :
    (z : ℤ)
    → (max_ℤ (pos 1) z ≡ pos (pos_part (max_ℤ (pos 1) z)))
      × (max_ℤ z (pos 1) ≡ pos (pos_part (max_ℤ (pos 1) z)))
      × (1 ≤ pos_part (max_ℤ (pos 1) z))
floor_one (pos zero) = ground arith
floor_one (pos (suc n)) = ground arith
floor_one (negsuc n) = ground arith

top_lem :
    (die : ℕ) (c : ℤ)
    → (max_ℤ (pos 1) (pos die +ℤ c) ≡ pos (top die c))
      × (max_ℤ (pos die +ℤ c) (pos 1) ≡ pos (top die c))
      × (1 ≤ top die c)
unfolding top
top_lem die c = floor_one (pos die +ℤ c)

pos-+ℤ : (a b : ℕ) → pos a +ℤ pos b ≡ pos (a + b)
unfolding ◌+ℤ◌
pos-+ℤ a b = ground arith

pos-*ℤ : (a b : ℕ) → pos a *ℤ pos b ≡ pos (a * b)
unfolding ◌*ℤ◌
pos-*ℤ a b = ground arith

le_false : (n : ℕ) → leb (suc (suc n)) 1 ≡ false
le_false n = ground arith

pair_eq : {a b c d : ℤ} → a ≡ c → b ≡ d → ◌≡◌ {A = ℤ × ℤ} (a, b) (c, d)
pair_eq p q = λ i. (p i, q i)

suc_pred : (n : ℕ) → suc (suc n) - 1 ≡ suc n
suc_pred n = omega arith

bounds_at :
    (die n : ℕ) (c : ℤ)
    → max_hp_bounds die c (suc n) ≡ (pos (top die c + n), pos (top die c + n * top die c))
unfolding max_hp_bounds
bounds_at die zero c =
    pair_eq ((top_lem die c).1 ∙ ap pos (omega arith)) ((top_lem die c).1 ∙ ap pos (omega arith))
bounds_at die (suc n) c = rw (le_false n) (
    rw ((top_lem die c).1) (
      rw (pos-*ℤ, pos-+ℤ)
        (rw pos-+ℤ (
          pair_eq (ap pos (omega arith))
            (ap (λ k. pos (top die c + k * top die c)) (suc_pred n))))))

-- A character's maximum hit points after a run of level-ups with one hit die and CON modifier,
-- the latest request first: the full first level, then the gains that the rules accept.
unfoldable pub hp_after : ℕ → ℤ → List (Option ℤ) → Result ProgressionError ℤ
hp_after die c [] = ok (max_ℤ (pos die +ℤ c) (pos 1))
hp_after die c (requested ∷ earlier) = do
  hp ← hp_after die c earlier
  gain ← resolve_hp_gain requested die c
  ok (hp +ℤ gain)

abbrev pub Within : ℤ → ℤ × ℤ → Type 0
Within hp bounds = (bounds.0 ≤ℤ hp) × (hp ≤ℤ bounds.1)

step_within :
    (t n : ℕ) (hp gain : ℤ)
    → pos (t + n) ≤ℤ hp
    → hp ≤ℤ pos (t + n * t)
    → pos 1 ≤ℤ gain
    → gain ≤ℤ pos t
    → (pos (t + suc n) ≤ℤ hp +ℤ gain) × (hp +ℤ gain ≤ℤ pos (t + suc n * t))
step_within t n hp gain lo hi one most = (omega int_laws, omega int_laws)

hp_after_in :
    (d : DiceType) (c : ℤ) (reqs : List (Option ℤ)) (hp : ℤ)
    → hp_after (hit_die_sides d) c reqs ≡ ok hp
    → let t = top (hit_die_sides d) c in
      (pos (t + length reqs) ≤ℤ hp) × (hp ≤ℤ pos (t + length reqs * t))
unfolding hp_after
hp_after_in d c [] hp e =
    let start = sym (ok-injective e) ∙ (top_lem (hit_die_sides d) c).1 in
    (rw start (omega arith), rw start (omega arith))
hp_after_in d c (r ∷ reqs) hp e =
    let (before, e₁, rest) = bind-ok (hp_after (hit_die_sides d) c reqs) _ e in
    let (gain, e₂, total) = bind-ok (resolve_hp_gain r (hit_die_sides d) c) _ rest in
    let (lo, hi) = hp_after_in d c reqs before e₁ in
    let (one, most) = resolve_hp_gain_bounds r d c gain e₂ in
    let limit : gain ≤ℤ pos (top (hit_die_sides d) c) =
      rw (top_lem (hit_die_sides d) c).0 at most in
    rw (← ok-injective total)
      (step_within (top (hit_die_sides d) c) (length reqs) before gain lo hi one limit)

accepted :
    (die g : ℕ) (c : ℤ) → 1 ≤ g → g ≤ top die c → resolve_hp_gain (some (pos g)) die c ≡ ok (pos g)
unfolding resolve_hp_gain
accepted die g c one most = rw ((top_lem die c).0) (ground arith)

room_left :
    (t n s : ℕ)
    → 1 ≤ t
    → suc n ≤ s
    → s ≤ suc n * t
    → (1 ≤ min t (s - n)) × (n ≤ s - min t (s - n)) × (s - min t (s - n) ≤ n * t)
room_left t n s one lo hi = grind arith

reach :
    (die : ℕ) (c : ℤ) (n s : ℕ)
    → n ≤ s
    → s ≤ n * top die c
    → (reqs : List (Option ℤ)) × (length reqs ≡ n)
      × (hp_after die c reqs ≡ ok (pos (top die c + s)))
unfolding hp_after
reach die c zero s lo hi = ([], refl, rw ((top_lem die c).1) (ap (λ k. ok (pos k)) (omega arith)))
reach die c (suc n) s lo hi =
    let t = top die c in
    let g = min t (s - n) in
    let one = (top_lem die c).2 in
    let room = room_left t n s one lo hi in
    let (reqs, len, run) = reach die c n (s - g) room.1 room.2 in
    (
      some (pos g) ∷ reqs,
      ap suc len,
      rw (run, accepted die g c room.0 (omega arith))
          (rw pos-+ℤ (ap (λ k. ok (pos k)) (omega (arith, room)))),
    )

-- After any run of accepted level-ups the maximum hit points lie in the range that a rebuild
-- allows at the level reached.
pub hp_after-Within :
    (d : DiceType) (c : ℤ) (reqs : List (Option ℤ)) (hp : ℤ)
    → hp_after (hit_die_sides d) c reqs ≡ ok hp
    → Within hp (max_hp_bounds (hit_die_sides d) c (length reqs + 1))
hp_after-Within d c reqs hp e = rw (add-one, bounds_at) (hp_after_in d c reqs hp e)

-- Each value in the range that a rebuild allows at a level of at least 1 is reached by some run of
-- accepted level-ups to that level.
pub Within-hp_after :
    (die : ℕ) (c : ℤ) (n : ℕ) (hp : ℤ)
    → Within hp (max_hp_bounds die c (suc n))
    → (reqs : List (Option ℤ)) × (length reqs ≡ n) × (hp_after die c reqs ≡ ok hp)
Within-hp_after die c n (pos h) w =
    let in_range = rw bounds_at at w in
    let (reqs, len, run) =
      reach die c n (h - top die c) (omega (arith, in_range)) (omega (arith, in_range)) in
    (reqs, len, run ∙ ap (λ k. ok (pos k)) (omega (arith, in_range)))
Within-hp_after die c n (negsuc h) w = absurd (omega (arith, rw bounds_at at w))
