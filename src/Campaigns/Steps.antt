-- ===== src/Campaigns/Steps.antt =====
-- Any sequence of the requests that write campaigns and their rosters.
use heofberu_backend.Prelude.{ℕ, ◌+◌, ◌≡◌}
use heofberu_backend.Prelude.Result.{ok}
use heofberu_backend.Characters.Db.{User}
use heofberu_backend.Campaigns.Participation.{CampaignCharacterStatus}
use heofberu_backend.Campaigns.Rows.{Store}
use heofberu_backend.Campaigns.Crud.{
  CampaignCreate, create_campaign, CampaignUpdate, update_campaign, archive_campaign,
  restore_campaign,
}
use heofberu_backend.Campaigns.Characters.{add_character, set_status}

-- a request that succeeds, or time
pub data Step : Store → Store → Type 0 where
  creates :
      (form : CampaignCreate) (user : User) (s s' : Store)
      → create_campaign form user s ≡ ok s'
      → Step s s'
  updates :
      (campaign_id : ℕ) (fields : CampaignUpdate) (user : User) (s s' : Store)
      → update_campaign campaign_id fields user s ≡ ok s'
      → Step s s'
  archives :
      (campaign_id : ℕ) (user : User) (s s' : Store)
      → archive_campaign campaign_id user s ≡ ok s'
      → Step s s'
  restores :
      (campaign_id : ℕ) (user : User) (s s' : Store)
      → restore_campaign campaign_id user s ≡ ok s'
      → Step s s'
  adds :
      (campaign_id character_id : ℕ) (user : User) (read s s' : Store)
      → add_character campaign_id character_id user read s ≡ ok s'
      → Step s s'
  sets :
      (campaign_id participation_id : ℕ) (target : CampaignCharacterStatus) (user : User)
      (s s' : Store)
      → set_status campaign_id participation_id target user s ≡ ok s'
      → Step s s'
  waits : (n : ℕ) (s : Store) → Step s (record s { now = s.now + n })

pub data Reach : Store → Store → Type 0 where
  stays : (s : Store) → Reach s s
  goes : (s middle s' : Store) → Step s middle → Reach middle s' → Reach s s'
