-- ===== src/Campaigns/Frees.antt =====
-- The end of a campaign lets its characters go.
use heofberu_backend.Prelude.{
  ℕ, suc, ◌≤◌, ◌≡◌, refl, sym, ap, ◌∙◌, Bool, true, false, ◌&&◌, List, [], ◌∷◌, map, none, some,
  arith, inl, inr, any, keep, length, Bool-cases, ◌==◌, is_some, some_same, is_some,
}
use heofberu_backend.Prelude.Result.{ok, bind-at}
use heofberu_backend.Characters.Db.{User}
use heofberu_backend.Campaigns.Participation.{CampaignCharacter}
use heofberu_backend.Campaigns.Access.{CampaignContext}
use heofberu_backend.Campaigns.Rows.{Campaign, Store, as_gm}
use heofberu_backend.Campaigns.Crud.{released, release_characters, archive_campaign}
use heofberu_backend.Campaigns.Characters.{
  is_over, holds, is_active_somewhere, add_character, insert_participation,
}
use heofberu_backend.Campaigns.Effect.{archive_campaign-ok, joined}
use heofberu_backend.Campaigns.Roster.{IsRoster}

-- the row holds the character in the campaign
abbrev pub holds_in : ℕ → ℕ → CampaignCharacter → Bool
holds_in campaign_id character_id p = holds character_id p && p.campaign_id == campaign_id

none-released :
    (campaign_id now character_id : ℕ) (rows : List CampaignCharacter)
    → length (keep (holds character_id) rows) ≡ 0
    → any (holds character_id) (map (released campaign_id now) rows) ≡ false
none-released campaign_id now character_id [] h = refl
none-released campaign_id now character_id (p ∷ rows) h =
    let rest = none-released campaign_id now character_id rows in ground (arith, h, rest)

any-holds :
    (campaign_id character_id : ℕ) (rows : List CampaignCharacter)
    → any (holds_in campaign_id character_id) rows ≡ true
    → 1 ≤ length (keep (holds character_id) rows)
any-holds campaign_id character_id [] h = cc
any-holds campaign_id character_id (p ∷ rows) h =
    ground (arith, h, any-holds campaign_id character_id rows)

rows-released :
    (campaign_id now character_id : ℕ) (rows : List CampaignCharacter)
    → length (keep (holds character_id) rows) ≤ 1
    → any (holds_in campaign_id character_id) rows ≡ true
    → any (holds character_id) (map (released campaign_id now) rows) ≡ false
rows-released campaign_id now character_id [] single h = cc
rows-released campaign_id now character_id (p ∷ rows) single h =
    elim (Bool-cases (holds character_id p)) [
      | inl here ↦ elim (Bool-cases (p.campaign_id == campaign_id)) [
        | inl same ↦
            let nobody : length (keep (holds character_id) rows) ≡ 0 =
              ground (arith, here, single) in
            ground (arith, none-released campaign_id now character_id rows nobody, same, here)
        | inr other ↦
            let some_one = any-holds campaign_id character_id rows (ground (arith, h, other)) in
            absurd (ground (arith, some_one, here, single))
      ]
      | inr gone ↦
          let rest =
            rows-released campaign_id now character_id rows (ground (arith, gone, single))
              (ground (arith, gone, h)) in
          ground (arith, gone, rest)
    ]

archive-released :
    (campaign_id : ℕ) (user : User) (c : Campaign) (s s' : Store)
    → s.campaigns campaign_id ≡ some c
    → c.archived_at ≡ none
    → archive_campaign campaign_id user s ≡ ok s'
    → s'.participations ≡ map (released campaign_id s.now) s.participations
unfolding release_characters
archive-released campaign_id user c s s' found fresh h =
    let (k, there, wrote) = archive_campaign-ok campaign_id user s s' h in
    elim wrote [
      | inl (old, is) ↦
          let same : k ≡ c = some_same there found in
          absurd (ground (arith, sym old ∙ ap (λ r. is_some r.archived_at) same ∙ ap is_some fresh))
      | inr is ↦ sym (ap (λ r. r.participations) is)
    ]

add_character-free :
    (campaign_id character_id owner_id : ℕ) (user : User) (ctx : CampaignContext) (k : Campaign)
    (s : Store)
    → as_gm campaign_id user s ≡ ok ctx
    → s.campaigns campaign_id ≡ some k
    → is_over k ≡ false
    → s.character_owner character_id ≡ some owner_id
    → any (holds character_id) s.participations ≡ false
    → add_character campaign_id character_id user s s
      ≡ ok (record s {
        participations = joined campaign_id character_id owner_id s ∷ s.participations;
        next_participation = suc s.next_participation;
      })
unfolding add_character is_active_somewhere insert_participation
add_character-free campaign_id character_id owner_id user ctx k s gm there open' owner free =
    bind-at (as_gm campaign_id user s) _ gm ∙ rw (there, open', owner, free) refl

-- Archiving a campaign frees its characters: in a store where the rosters are in order, a character
-- that was active in a campaign which is archived for the first time is active nowhere afterwards,
-- and whoever runs another campaign, one that goes on, can add it there.
pub archive-frees :
    (campaign_id other character_id owner_id : ℕ) (user next_gm : User) (c k : Campaign)
    (ctx : CampaignContext) (s s' : Store)
    → IsRoster s
    → s.campaigns campaign_id ≡ some c
    → c.archived_at ≡ none
    → any (holds_in campaign_id character_id) s.participations ≡ true
    → archive_campaign campaign_id user s ≡ ok s'
    → as_gm other next_gm s' ≡ ok ctx
    → s'.campaigns other ≡ some k
    → is_over k ≡ false
    → s'.character_owner character_id ≡ some owner_id
    → (is_active_somewhere character_id s' ≡ false)
      × (add_character other character_id next_gm s' s'
          ≡ ok (record s' {
            participations = joined other character_id owner_id s' ∷ s'.participations;
            next_participation = suc s'.next_participation;
          }))
unfolding is_active_somewhere
archive-frees campaign_id other character_id owner_id user next_gm c k ctx s s' v found fresh here h
      gm there open' owner =
    let rows = archive-released campaign_id user c s s' found fresh h in
    let free =
      ap (any (holds character_id)) rows
      ∙ rows-released campaign_id s.now character_id s.participations (v.single character_id)
          here in
    (
      free,
      add_character-free other character_id owner_id next_gm ctx k s' gm there open' owner free,
    )
