-- ===== src/Campaigns/Soundness.antt =====
-- What the rewrites of campaigns and participations do to one participation.
use heofberu_backend.Prelude.{
  ℕ, ◌≡◌, sym, ap, ◌∙◌, true, false, Option, some, arith, inl, inr, update, update_hit, update_miss,
  Bool-cases, is_none, ==→eq, ◌==◌, some_same,
}
use heofberu_backend.Campaigns.Participation.{
  CampaignCharacterStatus, CampaignCharacter, is_active, same_participation, status_change_allowed,
}
use heofberu_backend.Campaigns.Rows.{Campaign}
use heofberu_backend.Campaigns.Crud.{released}
use heofberu_backend.Campaigns.Characters.{is_over, holds, ended}

-- an active participation is in a campaign that goes on, and has no end; the others have one
abbrev pub IsSound : (ℕ → Option Campaign) → CampaignCharacter → Type 0
IsSound campaigns p =
    (is_active p.status ≡ is_none p.ended_at)
    × (is_active p.status ≡ true
        → (c : Campaign) × (campaigns p.campaign_id ≡ some c) × (is_over c ≡ false))

-- a campaign that is rewritten and goes on
pub put-IsSound :
    (campaigns : ℕ → Option Campaign) (id : ℕ) (c c' : Campaign)
    → campaigns id ≡ some c
    → (is_over c ≡ false → is_over c' ≡ false)
    → (p : CampaignCharacter) → IsSound campaigns p
    → IsSound (update campaigns id (some c')) p
put-IsSound campaigns id c c' found goes_on p (dated, open') = (
  dated,
  λ here.
      let (k, there, free) = open' here in
      elim (Bool-cases (p.campaign_id == id)) [
        | inl same ↦
            let is : k ≡ c =
              some_same (ap campaigns (sym (==→eq p.campaign_id id same)) ∙ there) found in
            (
              c',
              update_hit campaigns id (some c') p.campaign_id same,
              goes_on (ap is_over (sym is) ∙ free),
            )
        | inr other ↦ (k, update_miss campaigns id (some c') p.campaign_id other ∙ there, free)
      ],
)

-- a campaign that is rewritten and lets its characters go
pub released-IsSound :
    (campaigns : ℕ → Option Campaign) (id now : ℕ) (c' : Option Campaign)
    → (p : CampaignCharacter) → IsSound campaigns p
    → IsSound (update campaigns id c') (released id now p)
released-IsSound campaigns id now c' p (dated, open') = elim (Bool-cases (p.campaign_id == id)) [
  | inl same ↦ elim (Bool-cases (is_active p.status)) [
    | inl here ↦ (ground (arith, same, here), λ h. absurd (ground (arith, same, here, h)))
    | inr gone ↦ (ground (arith, same, gone, dated), λ h. absurd (ground (arith, same, gone, h)))
  ]
  | inr other ↦ rw other (
    dated,
    λ here.
        let (k, there, free) = open' here in
        (k, update_miss campaigns id c' p.campaign_id other ∙ there, free),
  )
]

pub released-holds :
    (id now character_id : ℕ) (p : CampaignCharacter)
    → holds character_id (released id now p) ≡ true
    → holds character_id p ≡ true
released-holds id now character_id p h = ground arith

pub ended-holds :
    (id : ℕ) (target : CampaignCharacterStatus) (now character_id : ℕ) (p : CampaignCharacter)
    → is_active target ≡ false
    → holds character_id (ended id target now p) ≡ true
    → holds character_id p ≡ true
ended-holds id target now character_id p ends h = ground arith

pub ended-IsSound :
    (campaigns : ℕ → Option Campaign) (id : ℕ) (target : CampaignCharacterStatus) (now : ℕ)
    → is_active target ≡ false
    → (p : CampaignCharacter) → IsSound campaigns p
    → IsSound campaigns (ended id target now p)
ended-IsSound campaigns id target now ends p (dated, open') = elim (Bool-cases (p.id == id)) [
  | inl same ↦ (ground (arith, same, ends), λ h. absurd (ground (arith, same, ends, h)))
  | inr other ↦ rw other (dated, open')
]

-- the statuses that a change leads to
pub changed-ends :
    (current target : CampaignCharacterStatus)
    → status_change_allowed current target ≡ true
    → same_participation current target ≡ false
    → is_active target ≡ false
unfolding status_change_allowed
changed-ends current target allowed other = ground arith
