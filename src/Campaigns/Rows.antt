-- ===== src/Campaigns/Rows.antt =====
-- The tables of app/models/campaigns that the campaign services read and write, and the context
-- that app/features/campaigns/base.py resolves for a caller.
use heofberu_backend.Prelude.{
  ℕ, Bool, true, false, not, ◌&&◌, List, Option, none, some, any, ◌==◌, update,
}
use heofberu_backend.Prelude.Result.{Result, ok, err, ◌>>=◌}
use heofberu_backend.Characters.Db.{User}
use heofberu_backend.Campaigns.Participation.{CampaignCharacter, is_removed}
use heofberu_backend.Campaigns.Access.{
  CampaignError, campaign_not_found, CampaignContext, context_of, ensure_can_read, ensure_gm,
  ensure_player, ensure_reviewer,
}

-- `CampaignStatus` of app/constants.py
pub data CampaignStatus : Type 0 where
  planning active paused finished abandoned : CampaignStatus

-- `CAMPAIGN_CLOSED_STATUSES`
abbrev pub is_closed : CampaignStatus → Bool
is_closed finished = true
is_closed abandoned = true
is_closed _ = false

-- `PublicCampaignStatus`
pub data PublicCampaignStatus : Type 0 where
  draft published archived : PublicCampaignStatus

-- a text is a number that stands for it
pub record Campaign : Type 0 where
  pub owner_id : Option ℕ
  pub public_campaign_id : Option ℕ
  pub title : ℕ
  pub description_markdown : ℕ
  pub status : CampaignStatus
  pub archived_at : Option ℕ

pub record PublicCampaign : Type 0 where
  pub author_id : Option ℕ
  pub title : ℕ
  pub description_markdown : ℕ
  pub status : PublicCampaignStatus

-- the tables, with the next ids that their sequences give, and the owner of each character
pub record Store : Type 0 where
  pub campaigns : ℕ → Option Campaign
  pub next_campaign : ℕ
  pub participations : List CampaignCharacter
  pub next_participation : ℕ
  pub character_owner : ℕ → Option ℕ
  pub public_campaigns : ℕ → Option PublicCampaign
  pub now : ℕ

-- `scalar_one` or an exception
abbrev pub or_raise : {A : Type 0} → Option A → CampaignError → Result CampaignError A
or_raise none e = err e
or_raise (some a) e = ok a

-- `player_condition`: the user has a participation in the campaign that isn't removed
abbrev pub plays : ℕ → ℕ → CampaignCharacter → Bool
plays user_id campaign_id p =
    (p.campaign_id == campaign_id) && (p.user_id == user_id) && not (is_removed p.status)

unfoldable pub player_condition : ℕ → ℕ → Store → Bool
player_condition user_id campaign_id s = any (plays user_id campaign_id) s.participations

-- `CampaignScopedService._context`, with `access_row`; the lock is the step itself
unfoldable pub context : ℕ → User → Store → Result CampaignError CampaignContext
unfolding context_of player_condition
context campaign_id user s = do
  campaign ← or_raise (s.campaigns campaign_id) (campaign_not_found campaign_id)
  ok (context_of user campaign_id campaign.owner_id (player_condition user.id campaign_id s))

-- `_reader`
unfoldable pub as_reader : ℕ → User → Store → Result CampaignError CampaignContext
as_reader campaign_id user s = context campaign_id user s >>= ensure_can_read

-- `_gm`
unfoldable pub as_gm : ℕ → User → Store → Result CampaignError CampaignContext
as_gm campaign_id user s = context campaign_id user s >>= ensure_gm

-- `_player`
unfoldable pub as_player : ℕ → User → Store → Result CampaignError CampaignContext
as_player campaign_id user s = context campaign_id user s >>= ensure_player

-- `_reviewer`
unfoldable pub as_reviewer : ℕ → User → Store → Result CampaignError CampaignContext
as_reviewer campaign_id user s = context campaign_id user s >>= ensure_reviewer

-- write one row of `campaigns`
abbrev pub put_campaign : ℕ → Campaign → Store → Store
put_campaign campaign_id c s = record s { campaigns = update s.campaigns campaign_id (some c) }
