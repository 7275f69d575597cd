-- ===== src/Characters/Sheet/Damage.antt =====
-- Healing and damage: `apply_hp_delta` and the clamps of `resolve_hp_update`.
use heofberu_backend.Prelude.{◌≡◌, ◌⊎◌, none, some, arith}
use heofberu_backend.Prelude.Int.{
  ℤ, pos, negsuc, ◌+ℤ◌, ◌-ℤ◌, ◌≤ℤ◌, max_ℤ, min_ℤ, +ℤ_parts, -ℤ_parts, eq_of_parts,
}
use heofberu_backend.Characters.Sheet.{HpUpdate, apply_hp_delta, resolve_hp_update}

-- Damage is taken from the temporary hit points first, where they are not negative, and from the
-- current ones only once those are gone; no point of it is lost, and neither number grows.
pub apply_hp_delta_damage :
    (current temp delta : ℤ)
    → pos 0 ≤ℤ temp
    → delta ≤ℤ negsuc 0
    → let (current', temp') = apply_hp_delta current temp delta in
      (current' +ℤ temp' ≡ current +ℤ temp +ℤ delta)
      × (pos 0 ≤ℤ temp')
      × (temp' ≤ℤ temp)
      × (current' ≤ℤ current)
      × ((current' ≡ current) ⊎ (temp' ≡ pos 0))
unfolding apply_hp_delta
apply_hp_delta_damage current temp delta t d =
    let damage = pos 0 -ℤ delta in
    ground (
      arith,
      -ℤ_parts (pos 0) delta,
      -ℤ_parts damage temp,
      -ℤ_parts damage damage,
      -ℤ_parts temp temp,
      -ℤ_parts temp damage,
      -ℤ_parts current (damage -ℤ temp),
      -ℤ_parts current (damage -ℤ damage),
      +ℤ_parts current temp,
      +ℤ_parts (current +ℤ temp) delta,
      +ℤ_parts (current -ℤ (damage -ℤ temp)) (temp -ℤ temp),
      +ℤ_parts (current -ℤ (damage -ℤ damage)) (temp -ℤ damage),
      eq_of_parts (temp -ℤ temp) (pos 0),
      eq_of_parts (current -ℤ (damage -ℤ damage)) current,
      eq_of_parts ((current -ℤ (damage -ℤ temp)) +ℤ (temp -ℤ temp)) (current +ℤ temp +ℤ delta),
      eq_of_parts ((current -ℤ (damage -ℤ damage)) +ℤ (temp -ℤ damage)) (current +ℤ temp +ℤ delta),
    )

clamped :
    (current temp max_hp current' temp' : ℤ)
    → pos 0 ≤ℤ current
    → current ≤ℤ max_hp
    → pos 0 ≤ℤ temp'
    → current' ≤ℤ current
    → (current' ≡ current) ⊎ (temp' ≡ pos 0)
    → max_ℤ (pos 0) (min_ℤ current' max_hp) +ℤ max_ℤ (pos 0) temp'
      ≡ max_ℤ (pos 0) (current' +ℤ temp')
clamped current temp max_hp current' temp' c m nonneg down either = ground (
  arith,
  +ℤ_parts current' temp',
  +ℤ_parts current' (pos 0),
  +ℤ_parts (pos 0) temp',
  +ℤ_parts (pos 0) (pos 0),
  +ℤ_parts max_hp temp',
  eq_of_parts max_hp current',
  eq_of_parts temp' (pos 0),
  eq_of_parts current' (pos 0),
  eq_of_parts (current' +ℤ temp') (pos 0),
  eq_of_parts (pos 0 +ℤ temp') (current' +ℤ temp'),
  eq_of_parts (pos 0 +ℤ temp') (pos 0),
  eq_of_parts (pos 0 +ℤ pos 0) (pos 0),
)

healed :
    (current temp max_hp delta : ℤ)
    → pos 0 ≤ℤ current
    → current ≤ℤ max_hp
    → pos 0 ≤ℤ temp
    → pos 0 ≤ℤ delta
    → (max_ℤ (pos 0) (min_ℤ (apply_hp_delta current temp delta).0 max_hp)
        ≡ min_ℤ max_hp (current +ℤ delta))
      × (max_ℤ (pos 0) (apply_hp_delta current temp delta).1 ≡ temp)
unfolding apply_hp_delta
healed current temp max_hp delta c m t d =
    ground (
      arith,
      +ℤ_parts current delta,
      eq_of_parts (current +ℤ delta) max_hp,
      eq_of_parts temp (pos 0),
    )

abbrev pub delta_of : ℤ → HpUpdate
delta_of d = record { delta = some d; current_hp = none; temp_hp = none }

-- What a delta leaves of hit points that are in range: after damage the current and the temporary
-- points together are down by the damage, but not below zero; after healing the current ones are
-- up by the amount, but not above the maximum, and the temporary ones stay.
pub resolve_hp_update_delta :
    (current temp max_hp delta : ℤ)
    → pos 0 ≤ℤ current
    → current ≤ℤ max_hp
    → pos 0 ≤ℤ temp
    → let (current', temp') = resolve_hp_update current temp max_hp (delta_of delta) in
      (delta ≤ℤ negsuc 0 → current' +ℤ temp' ≡ max_ℤ (pos 0) (current +ℤ temp +ℤ delta))
      × (pos 0 ≤ℤ delta → (current' ≡ min_ℤ max_hp (current +ℤ delta)) × (temp' ≡ temp))
unfolding resolve_hp_update
resolve_hp_update_delta current temp max_hp delta c m t = (
  λ d.
      let (sum, nonneg, _, down, either) = apply_hp_delta_damage current temp delta t d in
      let (current', temp') = apply_hp_delta current temp delta in
      rw (← sum) (clamped current temp max_hp current' temp' c m nonneg down either),
  λ d. healed current temp max_hp delta c m t d,
)
