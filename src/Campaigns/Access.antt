-- ===== src/Campaigns/Access.antt =====
-- app/features/campaigns/access.py: what a caller may do in a campaign, from the caller, the
-- campaign's owner and whether the caller plays in it.
use heofberu_backend.Prelude.{ℕ, Bool, true, false, not, ◌||◌, Option, none, some, ◌==◌}
use heofberu_backend.Prelude.Result.{Result, ok, ◌>>=◌, ◌>>◌, raise_if}
use heofberu_backend.Characters.Db.{UserRole, found_father, User}
use heofberu_backend.Campaigns.Participation.{CampaignCharacterStatus}

-- the exceptions of app/features/campaigns/exceptions.py, and `RecordNotFoundError`
pub data CampaignError : Type 0 where
  campaign_not_found campaign_gm_only campaign_player_only campaign_own_review : ℕ → CampaignError
  campaign_closed character_not_free character_missing : ℕ → CampaignError
  public_campaign_link_not_found : ℕ → CampaignError
  campaign_character_not_found : ℕ → ℕ → CampaignError
  campaign_character_status : ℕ → CampaignCharacterStatus → CampaignCharacterStatus → CampaignError

pub record CampaignContext : Type 0 where
  pub campaign_id : ℕ
  pub user_id : ℕ
  pub is_owner : Bool
  pub is_founder : Bool
  pub is_player : Bool

-- `user.role == UserRole.FOUND_FATHER`
abbrev pub is_found_father : UserRole → Bool
is_found_father found_father = true
is_found_father _ = false

-- `owner_id is not None and owner_id == user.id`
abbrev pub is_owned : Option ℕ → ℕ → Bool
is_owned none user_id = false
is_owned (some owner_id) user_id = owner_id == user_id

-- `CampaignContext.of`
unfoldable pub context_of : User → ℕ → Option ℕ → Bool → CampaignContext
context_of user campaign_id owner_id is_player = record {
  campaign_id = campaign_id;
  user_id = user.id;
  is_owner = is_owned owner_id user.id;
  is_founder = is_found_father user.role;
  is_player = is_player;
}

abbrev pub is_gm : CampaignContext → Bool
is_gm ctx = ctx.is_owner || ctx.is_founder

abbrev pub can_read : CampaignContext → Bool
can_read ctx = is_gm ctx || ctx.is_player

unfoldable pub ensure_can_read : CampaignContext → Result CampaignError CampaignContext
ensure_can_read ctx = raise_if (not (can_read ctx)) (campaign_not_found ctx.campaign_id) >> ok ctx

unfoldable pub ensure_gm : CampaignContext → Result CampaignError CampaignContext
ensure_gm ctx = do
  _ ← ensure_can_read ctx
  raise_if (not (is_gm ctx)) (campaign_gm_only ctx.campaign_id)
  ok ctx

unfoldable pub ensure_player : CampaignContext → Result CampaignError CampaignContext
ensure_player ctx = do
  _ ← ensure_can_read ctx
  raise_if (not ctx.is_player) (campaign_player_only ctx.campaign_id)
  ok ctx

unfoldable pub ensure_reviewer : CampaignContext → Result CampaignError CampaignContext
ensure_reviewer ctx = do
  _ ← ensure_player ctx
  raise_if ctx.is_owner (campaign_own_review ctx.campaign_id)
  ok ctx
