-- ===== src/Campaigns/Characters.antt =====
-- app/features/campaigns/characters: the roster of a campaign.
use heofberu_backend.Prelude.{
  ℕ, suc, Bool, not, ◌&&◌, ◌||◌, ◌∷◌, map, Option, none, some, any, first, ◌==◌, if◌then◌else◌,
  is_some,
}
use heofberu_backend.Prelude.Result.{Result, ok, ◌>>=◌, ◌>>◌, raise_if}
use heofberu_backend.Characters.Db.{User}
use heofberu_backend.Campaigns.Participation.{
  CampaignCharacterStatus, active, CampaignCharacter, is_active, same_participation,
  status_change_allowed,
}
use heofberu_backend.Campaigns.Access.{
  CampaignError, campaign_not_found, campaign_closed, character_missing, character_not_free,
  campaign_character_not_found, campaign_character_status,
}
use heofberu_backend.Campaigns.Rows.{is_closed, Campaign, Store, or_raise, as_gm}

-- finished, abandoned or archived
abbrev pub is_over : Campaign → Bool
is_over c = is_closed c.status || is_some c.archived_at

-- the row holds the character
abbrev pub holds : ℕ → CampaignCharacter → Bool
holds character_id p = (p.character_id == character_id) && is_active p.status

unfoldable pub is_active_somewhere : ℕ → Store → Bool
is_active_somewhere character_id s = any (holds character_id) s.participations

-- `CampaignCharactersRepository.add`: the unique index on the active rows refuses a second one
unfoldable pub insert_participation : ℕ → ℕ → ℕ → Store → Result CampaignError Store
insert_participation campaign_id character_id user_id s = do
  raise_if (any (holds character_id) s.participations) (character_not_free character_id)
  let row : CampaignCharacter = record {
    id = s.next_participation;
    campaign_id = campaign_id;
    character_id = character_id;
    user_id = user_id;
    status = active;
    joined_at = s.now;
    ended_at = none;
  }
  ok (record s {
    participations = row ∷ s.participations;
    next_participation = suc s.next_participation;
  })

-- `CampaignCharactersService.add`. The lock is on the campaign alone, so whether the character is
-- free is `read` from a store that other campaigns may have left since.
unfoldable pub add_character : ℕ → ℕ → User → Store → Store → Result CampaignError Store
add_character campaign_id character_id user read s = do
  _ ← as_gm campaign_id user s
  c ← or_raise (s.campaigns campaign_id) (campaign_not_found campaign_id)
  raise_if (is_over c) (campaign_closed campaign_id)
  owner_id ← or_raise (s.character_owner character_id) (character_missing character_id)
  raise_if (is_active_somewhere character_id read) (character_not_free character_id)
  insert_participation campaign_id character_id owner_id s

-- `get_participation`: the row, only if it belongs to the campaign
abbrev pub is_row : ℕ → ℕ → CampaignCharacter → Bool
is_row campaign_id participation_id p = (p.id == participation_id) && (p.campaign_id == campaign_id)

unfoldable pub get_participation : ℕ → ℕ → Store → Option CampaignCharacter
get_participation campaign_id participation_id s =
    first (is_row campaign_id participation_id) s.participations

-- `participation.ended_at`, set when it was not
abbrev pub ended_or : Option ℕ → ℕ → Option ℕ
ended_or none now = some now
ended_or (some t) now = some t

-- the UPDATE of the row that was read, by its id
abbrev pub ended : ℕ → CampaignCharacterStatus → ℕ → CampaignCharacter → CampaignCharacter
ended participation_id target now p =
    if p.id == participation_id
    then record p { status = target; ended_at = ended_or p.ended_at now }
    else p

-- `CampaignCharactersService.set_status`
unfoldable pub set_status :
    ℕ → ℕ → CampaignCharacterStatus → User → Store → Result CampaignError Store
set_status campaign_id participation_id target user s = do
  _ ← as_gm campaign_id user s
  p ←
      or_raise (get_participation campaign_id participation_id s)
        (campaign_character_not_found campaign_id participation_id)
  raise_if (not (status_change_allowed p.status target))
      (campaign_character_status participation_id p.status target)
  ok (
      if same_participation p.status target
      then s
      else record s { participations = map (ended participation_id target s.now) s.participations })
