-- ===== src/Campaigns/Tests.antt =====
-- The theorems on campaigns at a concrete store.
use heofberu_backend.Prelude.{
  ℕ, suc, ◌<◌, ◌≤◌, ◌≡◌, refl, false, [], ◌∷◌, Option, none, some, arith, ◌==◌, if◌then◌else◌, keep,
  length,
}
use heofberu_backend.Prelude.Result.{Result, ok, err, is_ok}
use heofberu_backend.Characters.Db.{gm, player, User}
use heofberu_backend.Campaigns.Participation.{CampaignCharacter, active, removed}
use heofberu_backend.Campaigns.Access.{
  CampaignError, campaign_not_found, context_of, ensure_can_read, ensure_gm,
}
use heofberu_backend.Campaigns.Rows.{
  Campaign, CampaignStatus, Store, player_condition, context, as_gm, as_reader, as_player,
  as_reviewer,
}
use heofberu_backend.Campaigns.Crud.{release_characters, archive_campaign}
use heofberu_backend.Campaigns.Characters.{
  holds, is_active_somewhere, add_character, insert_participation,
}
use heofberu_backend.Campaigns.Effect.{joined}
use heofberu_backend.Campaigns.Steps.{archives, adds, Reach, stays, goes}
use heofberu_backend.Campaigns.Roster.{IsRoster, Reach-IsRoster}
use heofberu_backend.Campaigns.Ended.{IsEnded, Reach-IsEnded}
use heofberu_backend.Campaigns.Frees.{archive-frees}
use heofberu_backend.Campaigns.Standing.{outsider-refused}

abbrev keeper : User
keeper = record { id = 5; role = gm }

abbrev other_keeper : User
other_keeper = record { id = 6; role = gm }

abbrev guest : User
guest = record { id = 3; role = player }

abbrev table_of : ℕ → Campaign
table_of owner_id = record {
  owner_id = some owner_id;
  public_campaign_id = none;
  title = 1;
  description_markdown = 2;
  status = CampaignStatus.active;
  archived_at = none;
}

abbrev left_one : CampaignCharacter
left_one = record {
  id = 1;
  campaign_id = 1;
  character_id = 8;
  user_id = 4;
  status = removed;
  joined_at = 2;
  ended_at = some 7;
}

abbrev present_one : CampaignCharacter
present_one = record {
  id = 2;
  campaign_id = 1;
  character_id = 9;
  user_id = 3;
  status = active;
  joined_at = 3;
  ended_at = none;
}

abbrev tables : ℕ → Option Campaign
tables id = if id == 1 then some (table_of 5) else if id == 2 then some (table_of 6) else none

abbrev evening : Store
evening = record {
  campaigns = tables;
  next_campaign = 3;
  participations = present_one ∷ left_one ∷ [];
  next_participation = 3;
  character_owner = λ id. if id == 9 then some 3 else none;
  public_campaigns = λ _. none;
  now = 10;
}

tables-below : (id : ℕ) (c : Campaign) → tables id ≡ some c → id < 3
tables-below id c h = ground (arith, h)

evening-single : (character_id : ℕ) → length (keep (holds character_id) evening.participations) ≤ 1
evening-single character_id = ground arith

evening-IsRoster : IsRoster evening
evening-IsRoster = record {
  below = tables-below;
  rows = ((refl, λ _. (table_of 5, refl, refl)), ((refl, λ h. absurd (ground (arith, h))), tt));
  single = evening-single;
}

abbrev outcome : Result CampaignError Store → Store
outcome (ok s) = s
outcome (err _) = evening

unfoldable closed : Store
unfolding archive_campaign as_gm context context_of player_condition ensure_gm ensure_can_read
    release_characters
closed = outcome (archive_campaign 1 keeper evening)

closes_1 : archive_campaign 1 keeper evening ≡ ok closed
unfolding closed archive_campaign as_gm context context_of player_condition ensure_gm
    ensure_can_read release_characters
closes_1 = refl

unfoldable moved_on : Store
unfolding closed add_character insert_participation is_active_somewhere archive_campaign as_gm
    context context_of player_condition ensure_gm ensure_can_read release_characters
moved_on = outcome (add_character 2 9 other_keeper closed closed)

adds_9 : add_character 2 9 other_keeper closed closed ≡ ok moved_on
unfolding moved_on closed add_character insert_participation is_active_somewhere archive_campaign
    as_gm context context_of player_condition ensure_gm ensure_can_read release_characters
adds_9 = refl

abbrev requests : Reach evening moved_on
requests = goes evening closed moved_on (archives 1 keeper evening closed closes_1) (
    goes closed moved_on moved_on (adds 2 9 other_keeper closed closed moved_on adds_9)
      (stays moved_on))

Reach-IsRoster_example : IsRoster moved_on
Reach-IsRoster_example = Reach-IsRoster evening moved_on requests evening-IsRoster

evening-IsEnded : IsEnded 1 left_one 7 evening
evening-IsEnded = record {
  below = omega arith;
  there = refl;
  rows =
      ((λ h. absurd (ground (arith, h))), ((λ _. (refl, refl, refl, refl, refl, λ _. refl)), tt));
}

Reach-IsEnded_example : IsEnded 1 left_one 7 moved_on
Reach-IsEnded_example = Reach-IsEnded 1 left_one 7 evening moved_on requests evening-IsEnded

other_context : as_gm 2 other_keeper closed ≡ ok (context_of other_keeper 2 (some 6) false)
unfolding closed archive_campaign as_gm context context_of player_condition ensure_gm
    ensure_can_read release_characters
other_context = refl

closed_table : closed.campaigns 2 ≡ some (table_of 6)
unfolding closed archive_campaign as_gm context context_of player_condition ensure_gm
    ensure_can_read release_characters
closed_table = refl

closed_owner : closed.character_owner 9 ≡ some 3
unfolding closed archive_campaign as_gm context context_of player_condition ensure_gm
    ensure_can_read release_characters
closed_owner = refl

archive-frees_example :
    (is_active_somewhere 9 closed ≡ false)
    × (add_character 2 9 other_keeper closed closed
        ≡ ok (record closed {
          participations = joined 2 9 3 closed ∷ closed.participations;
          next_participation = suc closed.next_participation;
        }))
archive-frees_example =
    archive-frees 1 2 9 3 keeper other_keeper (table_of 5) (table_of 6)
      (context_of other_keeper 2 (some 6) false) evening closed evening-IsRoster refl refl refl
      closes_1 other_context closed_table refl closed_owner

outside_2 : is_ok (as_reader 2 guest evening) ≡ false
unfolding as_reader context context_of player_condition ensure_can_read
outside_2 = refl

outsider-refused_example :
    (as_reader 2 guest evening ≡ err (campaign_not_found 2))
    × (as_gm 2 guest evening ≡ err (campaign_not_found 2))
    × (as_player 2 guest evening ≡ err (campaign_not_found 2))
    × (as_reviewer 2 guest evening ≡ err (campaign_not_found 2))
outsider-refused_example = outsider-refused 2 guest evening outside_2
