-- ===== src/Campaigns/Standing.antt =====
-- Who passes the checks of a campaign.
use heofberu_backend.Prelude.{
  ℕ, ◌≡◌, refl, sym, ap, ◌∙◌, false, some, arith, Option-cases, inl, inr,
}
use heofberu_backend.Prelude.Result.{ok, err, is_ok, bind-at}
use heofberu_backend.Characters.Db.{User}
use heofberu_backend.Campaigns.Access.{
  CampaignContext, campaign_not_found, context_of, can_read, ensure_can_read, ensure_gm,
  ensure_player, ensure_reviewer,
}
use heofberu_backend.Campaigns.Rows.{
  Campaign, Store, player_condition, context, as_reader, as_gm, as_player, as_reviewer,
}

ensure_can_read-is_ok : (ctx : CampaignContext) → is_ok (ensure_can_read ctx) ≡ can_read ctx
unfolding ensure_can_read
ensure_can_read-is_ok ctx = ground arith

context-found :
    (campaign_id : ℕ) (user : User) (s : Store) (c : Campaign)
    → s.campaigns campaign_id ≡ some c
    → context campaign_id user s
      ≡ ok (context_of user campaign_id c.owner_id (player_condition user.id campaign_id s))
unfolding context
context-found campaign_id user s c found = rw found refl

module _ (ctx : CampaignContext) (outside : can_read ctx ≡ false) where
  ensure_can_read-outside : ensure_can_read ctx ≡ err (campaign_not_found ctx.campaign_id)
  unfolding ensure_can_read
  ensure_can_read-outside = rw outside refl

  ensure_gm-outside : ensure_gm ctx ≡ err (campaign_not_found ctx.campaign_id)
  unfolding ensure_gm
  ensure_gm-outside = rw ensure_can_read-outside refl

  ensure_player-outside : ensure_player ctx ≡ err (campaign_not_found ctx.campaign_id)
  unfolding ensure_player
  ensure_player-outside = rw ensure_can_read-outside refl

  ensure_reviewer-outside : ensure_reviewer ctx ≡ err (campaign_not_found ctx.campaign_id)
  unfolding ensure_reviewer
  ensure_reviewer-outside = rw ensure_player-outside refl

-- A caller to whom a campaign means nothing cannot tell it from one that does not exist: every check
-- of an outsider answers as for a missing campaign.
pub outsider-refused :
    (campaign_id : ℕ) (user : User) (s : Store)
    → is_ok (as_reader campaign_id user s) ≡ false
    → (as_reader campaign_id user s ≡ err (campaign_not_found campaign_id))
      × (as_gm campaign_id user s ≡ err (campaign_not_found campaign_id))
      × (as_player campaign_id user s ≡ err (campaign_not_found campaign_id))
      × (as_reviewer campaign_id user s ≡ err (campaign_not_found campaign_id))
unfolding as_reader as_gm as_player as_reviewer context context_of
outsider-refused campaign_id user s outside = elim (Option-cases (s.campaigns campaign_id)) [
  | inl missing ↦ (rw missing refl, rw missing refl, rw missing refl, rw missing refl)
  | inr (c, found) ↦
      let at = context-found campaign_id user s c found in
      let ctx = context_of user campaign_id c.owner_id (player_condition user.id campaign_id s) in
      let closed =
        sym (ensure_can_read-is_ok ctx)
        ∙ ap is_ok (sym (bind-at (context campaign_id user s) ensure_can_read at))
        ∙ outside in
      (
        bind-at (context campaign_id user s) ensure_can_read at
            ∙ ensure_can_read-outside ctx closed,
        bind-at (context campaign_id user s) ensure_gm at ∙ ensure_gm-outside ctx closed,
        bind-at (context campaign_id user s) ensure_player at ∙ ensure_player-outside ctx closed,
        bind-at (context campaign_id user s) ensure_reviewer at
            ∙ ensure_reviewer-outside ctx closed,
      )
]
