-- ===== src/Campaigns/Participation.antt =====
-- A character's participation in a campaign: app/models/campaigns/campaign_character_model.py and
-- the status rule of app/features/campaigns/characters/service.py.
use heofberu_backend.Prelude.{ℕ, Bool, true, false, ◌||◌, Option, if◌then◌else◌}

-- `CampaignCharacterStatus` of app/constants.py
pub data CampaignCharacterStatus : Type 0 where
  active dead retired removed : CampaignCharacterStatus

abbrev pub same_participation : CampaignCharacterStatus → CampaignCharacterStatus → Bool
same_participation active active = true
same_participation dead dead = true
same_participation retired retired = true
same_participation removed removed = true
same_participation _ _ = false

abbrev pub is_active : CampaignCharacterStatus → Bool
is_active status = same_participation status active

abbrev pub is_removed : CampaignCharacterStatus → Bool
is_removed status = same_participation status removed

-- a row of `campaign_characters`; `user_id` copies the owner of the character
pub record CampaignCharacter : Type 0 where
  pub id : ℕ
  pub campaign_id : ℕ
  pub character_id : ℕ
  pub user_id : ℕ
  pub status : CampaignCharacterStatus
  pub joined_at : ℕ
  pub ended_at : Option ℕ

unfoldable pub status_change_allowed : CampaignCharacterStatus → CampaignCharacterStatus → Bool
status_change_allowed current target =
    if same_participation current target
    then true
    else if is_active target
    then false
    else (is_active current || is_removed target)
