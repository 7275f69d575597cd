-- ===== src/Campaigns/Crud.antt =====
-- app/features/campaigns/crud: creating, changing, archiving and restoring a campaign, and the
-- release of its characters. What a handler reads back after its block is left out.
use heofberu_backend.Prelude.{
  ℕ, suc, Bool, true, false, not, ◌&&◌, ◌||◌, map, Option, none, some, ◌==◌, if◌then◌else◌, opt_eq,
}
use heofberu_backend.Prelude.Result.{Result, ok, ◌>>=◌, ◌>>◌, raise_if, ⊤}
use heofberu_backend.Characters.Db.{User}
use heofberu_backend.Campaigns.Participation.{CampaignCharacter, retired, is_active}
use heofberu_backend.Campaigns.Access.{
  CampaignError, campaign_not_found, public_campaign_link_not_found, is_found_father,
}
use heofberu_backend.Campaigns.Rows.{
  CampaignStatus, is_closed, PublicCampaignStatus, published, Campaign, PublicCampaign, Store,
  or_raise, as_gm, put_campaign,
}

-- `CampaignRepository.release_characters`: one UPDATE of the campaign's active rows
abbrev pub released : ℕ → ℕ → CampaignCharacter → CampaignCharacter
released campaign_id now p =
    if (p.campaign_id == campaign_id) && is_active p.status
    then record p { status = retired; ended_at = some now }
    else p

unfoldable pub release_characters : ℕ → ℕ → Store → Store
release_characters campaign_id now s = record s {
  participations = map (released campaign_id now) s.participations;
}

abbrev pub is_published : PublicCampaignStatus → Bool
is_published published = true
is_published _ = false

-- app/features/public_campaigns/base.py
unfoldable pub can_edit_preset : User → Option ℕ → Bool
can_edit_preset user author_id = is_found_father user.role || opt_eq author_id (some user.id)

-- `CampaignCrudService._preset_or_400`
unfoldable pub preset_or_400 : ℕ → User → Store → Result CampaignError PublicCampaign
preset_or_400 public_campaign_id user s = do
  preset ←
      or_raise (s.public_campaigns public_campaign_id)
        (public_campaign_link_not_found public_campaign_id)
  raise_if (not (is_published preset.status) && not (can_edit_preset user preset.author_id))
      (public_campaign_link_not_found public_campaign_id)
  ok preset

-- `CampaignCreate`; its validator refuses a request with neither a title nor a preset
pub record CampaignCreate : Type 0 where
  pub title : Option ℕ
  pub description_markdown : Option ℕ
  pub public_campaign_id : Option ℕ
  pub status : CampaignStatus

abbrev pub or_else : Option ℕ → ℕ → ℕ
or_else none fallback = fallback
or_else (some t) fallback = t

-- the text `""`
abbrev pub empty_text : ℕ
empty_text = 0

-- the title and the description of a new campaign; those omitted are the preset's
unfoldable pub texts_of : CampaignCreate → User → Store → Result CampaignError (ℕ × ℕ)
texts_of form user s = elim form.public_campaign_id [
  | none ↦ ok (or_else form.title empty_text, or_else form.description_markdown empty_text)
  | some link ↦ do
    preset ← preset_or_400 link user s
    let title = or_else form.title preset.title
    ok (title, or_else form.description_markdown preset.description_markdown)
]

-- `CampaignCrudService.create`
unfoldable pub create_campaign : CampaignCreate → User → Store → Result CampaignError Store
create_campaign form user s = do
  (title, description_markdown) ← texts_of form user s
  let campaign : Campaign = record {
    owner_id = some user.id;
    public_campaign_id = form.public_campaign_id;
    title = title;
    description_markdown = description_markdown;
    status = form.status;
    archived_at = none;
  }
  ok (record (put_campaign s.next_campaign campaign s) { next_campaign = suc s.next_campaign })

-- `CampaignUpdate`: only the fields that were sent; the link alone may be sent as null
pub record CampaignUpdate : Type 0 where
  pub title : Option ℕ
  pub description_markdown : Option ℕ
  pub status : Option CampaignStatus
  pub public_campaign_id : Option (Option ℕ)

abbrev pub sent {ℓ} : {A : Type ℓ} → Option A → A → A
sent none old = old
sent (some new) old = new

abbrev pub closes : Option CampaignStatus → Bool
closes none = false
closes (some status) = is_closed status

unfoldable pub check_link : Option (Option ℕ) → User → Store → Result CampaignError ⊤
check_link (some (some public_campaign_id)) user s =
    preset_or_400 public_campaign_id user s >>= λ _. ok tt
check_link _ user s = ok tt

abbrev pub patched_campaign : CampaignUpdate → Campaign → Campaign
patched_campaign fields c = record c {
  title = sent fields.title c.title;
  description_markdown = sent fields.description_markdown c.description_markdown;
  status = sent fields.status c.status;
  public_campaign_id = sent fields.public_campaign_id c.public_campaign_id;
}

-- `CampaignCrudService.update`
unfoldable pub update_campaign : ℕ → CampaignUpdate → User → Store → Result CampaignError Store
update_campaign campaign_id fields user s = do
  _ ← as_gm campaign_id user s
  check_link fields.public_campaign_id user s
  c ← or_raise (s.campaigns campaign_id) (campaign_not_found campaign_id)
  let written = put_campaign campaign_id (patched_campaign fields c) s
  ok (if closes fields.status then release_characters campaign_id s.now written else written)

-- `CampaignCrudService.archive`
unfoldable pub archive_campaign : ℕ → User → Store → Result CampaignError Store
archive_campaign campaign_id user s = do
  _ ← as_gm campaign_id user s
  c ← or_raise (s.campaigns campaign_id) (campaign_not_found campaign_id)
  elim c.archived_at [
    | none ↦ ok (
        release_characters campaign_id s.now
          (put_campaign campaign_id (record c { archived_at = some s.now }) s))
    | some _ ↦ ok s
  ]

-- `CampaignCrudService.restore`
unfoldable pub restore_campaign : ℕ → User → Store → Result CampaignError Store
restore_campaign campaign_id user s = do
  _ ← as_gm campaign_id user s
  c ← or_raise (s.campaigns campaign_id) (campaign_not_found campaign_id)
  ok (put_campaign campaign_id (record c { archived_at = none }) s)
