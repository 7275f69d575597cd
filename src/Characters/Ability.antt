-- ===== src/Characters/Ability.antt =====
-- app/features/characters/ability_score/calculator.py: effective ability scores. A Python dict
-- that has a key for each ability is a function on abilities.
pub mod Sums
pub mod Caps
pub mod Breakdown
use Prim.Native.String.{String}
use text.Mathlib.Text.{◌==◌ as str_eq}
use heofberu_backend.Prelude.{
  Bool, true, false, List, [], ◌∷◌, ◌++◌, Option, none, some, if◌then◌else◌,
}
use heofberu_backend.Prelude.Int.{ℤ, pos, ◌+ℤ◌, max_ℤ, min_ℤ}

-- `AbilityScore` of app/constants.py
pub data AbilityScore : Type 0 where
  str dex con int wis cha : AbilityScore

abbrev pub same_ability : AbilityScore → AbilityScore → Bool
same_ability str str = true
same_ability dex dex = true
same_ability con con = true
same_ability int int = true
same_ability wis wis = true
same_ability cha cha = true
same_ability _ _ = false

abbrev pub Totals : Type 0
Totals = AbilityScore → ℤ

-- `RaceAbilityBonus`, `SubraceAbilityBonus`, an ASI-log row and a feature effect, as far as the
-- calculator reads them; `label` is the text that `_asi_label` or `effect_source_label` gives it.
pub record Bonus : Type 0 where
  pub ability : AbilityScore
  pub amount : ℤ
  pub new_cap : Option ℤ
  pub label : String

-- `totals[ability] = totals[ability] + amount`
unfoldable pub add_bonus : Totals → AbilityScore → ℤ → Totals
add_bonus totals ability amount =
    λ a. if same_ability a ability then totals a +ℤ amount else totals a

unfoldable pub add_bonuses : List Bonus → Totals → Totals
add_bonuses [] totals = totals
add_bonuses (b ∷ bs) totals = add_bonuses bs (add_bonus totals b.ability b.amount)

-- `CharacterAbilityScoreCalculator.compute`: the four loops, and the floor at 1
unfoldable pub compute : Totals → List Bonus → List Bonus → List Bonus → List Bonus → Totals
unfolding add_bonuses
compute base race subrace asi feature =
    let with_race = add_bonuses race base in
    let with_subrace = add_bonuses subrace with_race in
    let with_asi = add_bonuses asi with_subrace in
    let with_feature = add_bonuses feature with_asi in λ a. max_ℤ (pos 1) (with_feature a)

abbrev pub ability_score_cap : ℤ
ability_score_cap = pos 20

abbrev pub max_ability_score_cap : ℤ
max_ability_score_cap = pos 30

-- one round of the loop of `resolve_ability_caps`
unfoldable pub raise_cap : Totals → AbilityScore → Option ℤ → Totals
raise_cap caps ability none = caps
raise_cap caps ability (some cap) = λ a.
    if same_ability a ability
    then min_ℤ max_ability_score_cap (max_ℤ (caps ability) cap)
    else caps a

unfoldable pub resolve_caps_from : Totals → List Bonus → Totals
resolve_caps_from caps [] = caps
resolve_caps_from caps (b ∷ bs) = resolve_caps_from (raise_cap caps b.ability b.new_cap) bs

unfoldable pub resolve_ability_caps : List Bonus → Totals
unfolding resolve_caps_from raise_cap
resolve_ability_caps = resolve_caps_from (λ _. ability_score_cap)

-- `StatContribution` and `AbilityBreakdown`
pub data StatSource : Type 0 where
  from_race from_subrace from_asi from_feature : StatSource

pub record StatContribution : Type 0 where
  pub source : StatSource
  pub label : String
  pub amount : ℤ

pub record AbilityBreakdown : Type 0 where
  pub base : ℤ
  pub total : ℤ
  pub contributions : List StatContribution

-- `name or fallback`: the empty string counts as no name
unfoldable pub or_label : Option String → String → String
or_label none fallback = fallback
or_label (some name) fallback = if str_eq name "" then fallback else name

-- one loop of `breakdown`, for one ability: the contributions that it appends
unfoldable pub contributions_of :
    StatSource → (Bonus → String) → AbilityScore → List Bonus → List StatContribution
contributions_of source label a [] = []
contributions_of source label a (b ∷ bs) =
    let rest = contributions_of source label a bs in
    if same_ability a b.ability
    then record { source = source; label = label b; amount = b.amount } ∷ rest
    else rest

-- `CharacterAbilityScoreCalculator.breakdown`
unfoldable pub breakdown :
    Totals
    → List Bonus
    → List Bonus
    → List Bonus
    → List Bonus
    → Option String
    → Option String
    → AbilityScore
    → AbilityBreakdown
unfolding compute contributions_of or_label
breakdown base race subrace asi feature race_name subrace_name a = record {
  base = base a;
  total = compute base race subrace asi feature a;
  contributions =
      contributions_of from_race (λ _. or_label race_name "Race bonus") a race
      ++ contributions_of from_subrace (λ _. or_label subrace_name "Subrace bonus") a subrace
      ++ contributions_of from_asi (λ b. b.label) a asi
      ++ contributions_of from_feature (λ b. b.label) a feature;
}
