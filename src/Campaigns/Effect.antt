-- ===== src/Campaigns/Effect.antt =====
-- What the writes of Crud.antt and Characters.antt leave behind when they succeed.
use heofberu_backend.Prelude.{
  ℕ, suc, ◌≡◌, refl, ◌⊎◌, true, false, not, ◌∷◌, map, Option, none, some, arith, inl, inr, any,
  Bool-cases, Option-cases, is_some,
}
use heofberu_backend.Prelude.Result.{Result, ok, ◌>>=◌, bind-ok, then-ok, raise_if-ok, ok-injective}
use heofberu_backend.Characters.Db.{User}
use heofberu_backend.Campaigns.Participation.{
  CampaignCharacterStatus, active, CampaignCharacter, same_participation, status_change_allowed,
}
use heofberu_backend.Campaigns.Access.{
  CampaignError, campaign_not_found, campaign_closed, character_missing, character_not_free,
  campaign_character_not_found, campaign_character_status,
}
use heofberu_backend.Campaigns.Rows.{Campaign, Store, or_raise, as_gm, put_campaign}
use heofberu_backend.Campaigns.Crud.{
  CampaignCreate, texts_of, create_campaign, CampaignUpdate, check_link, closes, patched_campaign,
  release_characters, update_campaign, archive_campaign, restore_campaign,
}
use heofberu_backend.Campaigns.Characters.{
  is_over, holds, is_active_somewhere, insert_participation, add_character, get_participation,
  ended, set_status,
}

pub or_raise-ok :
    {A B : Type 0} (o : Option A) (e : CampaignError) (f : A → Result CampaignError B) {b : B}
    → (or_raise o e >>= f) ≡ ok b
    → (a : A) × (o ≡ some a) × (f a ≡ ok b)
or_raise-ok none e f h = cc
or_raise-ok (some a) e f h = (a, refl, h)

pub create_campaign-ok :
    (form : CampaignCreate) (user : User) (s s' : Store)
    → create_campaign form user s ≡ ok s'
    → (c : Campaign) × (record (put_campaign s.next_campaign c s) {
      next_campaign = suc s.next_campaign;
    }
        ≡ s')
unfolding create_campaign
create_campaign-ok form user s s' h =
    let ((title, text), _, k) = bind-ok (texts_of form user s) _ h in (_, ok-injective k)

pub update_campaign-ok :
    (campaign_id : ℕ) (fields : CampaignUpdate) (user : User) (s s' : Store)
    → update_campaign campaign_id fields user s ≡ ok s'
    → (c : Campaign) × (s.campaigns campaign_id ≡ some c)
      × (((closes fields.status ≡ true)
            × (release_characters campaign_id s.now
                  (put_campaign campaign_id (patched_campaign fields c) s)
                ≡ s'))
          ⊎ ((closes fields.status ≡ false)
              × (put_campaign campaign_id (patched_campaign fields c) s ≡ s')))
unfolding update_campaign
update_campaign-ok campaign_id fields user s s' h =
    let (_, _, h1) = bind-ok (as_gm campaign_id user s) _ h in
    let (_, h2) = then-ok (check_link fields.public_campaign_id user s) _ h1 in
    let (c, found, h3) =
      or_raise-ok (s.campaigns campaign_id) (campaign_not_found campaign_id) _ h2 in
    let is = ok-injective h3 in
    (
      c,
      found,
      elim (Bool-cases (closes fields.status)) [
        | inl closing ↦ inl (closing, ground (arith, is))
        | inr open' ↦ inr (open', ground (arith, is))
      ],
    )

pub archive_campaign-ok :
    (campaign_id : ℕ) (user : User) (s s' : Store)
    → archive_campaign campaign_id user s ≡ ok s'
    → (c : Campaign) × (s.campaigns campaign_id ≡ some c)
      × (((is_some c.archived_at ≡ true) × (s ≡ s'))
          ⊎ (release_characters campaign_id s.now
                (put_campaign campaign_id (record c { archived_at = some s.now }) s)
              ≡ s'))
unfolding archive_campaign
archive_campaign-ok campaign_id user s s' h =
    let (_, _, h1) = bind-ok (as_gm campaign_id user s) _ h in
    let (c, found, h2) =
      or_raise-ok (s.campaigns campaign_id) (campaign_not_found campaign_id) _ h1 in
    (
      c,
      found,
      elim (Option-cases c.archived_at) [
        | inl fresh ↦ inr (ground (arith, fresh, h2))
        | inr (t, there) ↦ inl (ground (arith, there), ground (arith, there, h2))
      ],
    )

pub restore_campaign-ok :
    (campaign_id : ℕ) (user : User) (s s' : Store)
    → restore_campaign campaign_id user s ≡ ok s'
    → (c : Campaign) × (s.campaigns campaign_id ≡ some c)
      × (put_campaign campaign_id (record c { archived_at = none }) s ≡ s')
unfolding restore_campaign
restore_campaign-ok campaign_id user s s' h =
    let (_, _, h1) = bind-ok (as_gm campaign_id user s) _ h in
    let (c, found, h2) =
      or_raise-ok (s.campaigns campaign_id) (campaign_not_found campaign_id) _ h1 in
    (c, found, ok-injective h2)

-- the row of a new participation
abbrev pub joined : ℕ → ℕ → ℕ → Store → CampaignCharacter
joined campaign_id character_id user_id s = record {
  id = s.next_participation;
  campaign_id = campaign_id;
  character_id = character_id;
  user_id = user_id;
  status = active;
  joined_at = s.now;
  ended_at = none;
}

pub add_character-ok :
    (campaign_id character_id : ℕ) (user : User) (read s s' : Store)
    → add_character campaign_id character_id user read s ≡ ok s'
    → (c : Campaign) × (owner_id : ℕ) × (s.campaigns campaign_id ≡ some c)
      × (is_over c ≡ false)
      × (any (holds character_id) s.participations ≡ false)
      × (record s {
        participations = joined campaign_id character_id owner_id s ∷ s.participations;
        next_participation = suc s.next_participation;
      }
          ≡ s')
unfolding add_character insert_participation
add_character-ok campaign_id character_id user read s s' h =
    let (_, _, h1) = bind-ok (as_gm campaign_id user s) _ h in
    let (c, found, h2) =
      or_raise-ok (s.campaigns campaign_id) (campaign_not_found campaign_id) _ h1 in
    let (open', h3) = raise_if-ok (is_over c) (campaign_closed campaign_id) _ h2 in
    let (owner_id, _, h4) =
      or_raise-ok (s.character_owner character_id) (character_missing character_id) _ h3 in
    let (_, h5) =
      raise_if-ok (is_active_somewhere character_id read) (character_not_free character_id) _ h4 in
    let (free, h6) =
      raise_if-ok (any (holds character_id) s.participations) (character_not_free character_id) _
        h5 in
    (c, owner_id, found, open', free, ok-injective h6)

pub set_status-ok :
    (campaign_id participation_id : ℕ) (target : CampaignCharacterStatus) (user : User)
    (s s' : Store)
    → set_status campaign_id participation_id target user s ≡ ok s'
    → (p : CampaignCharacter) × (get_participation campaign_id participation_id s ≡ some p)
      × (status_change_allowed p.status target ≡ true)
      × (((same_participation p.status target ≡ true) × (s ≡ s'))
          ⊎ ((same_participation p.status target ≡ false)
              × (record s {
                participations = map (ended participation_id target s.now) s.participations;
              }
                  ≡ s')))
unfolding set_status
set_status-ok campaign_id participation_id target user s s' h =
    let (_, _, h1) = bind-ok (as_gm campaign_id user s) _ h in
    let (p, found, h2) =
      or_raise-ok (get_participation campaign_id participation_id s)
        (campaign_character_not_found campaign_id participation_id) _ h1 in
    let (allowed, h3) =
      raise_if-ok (not (status_change_allowed p.status target))
        (campaign_character_status participation_id p.status target) _ h2 in
    let is = ok-injective h3 in
    (
      p,
      found,
      ground (arith, allowed),
      elim (Bool-cases (same_participation p.status target)) [
        | inl same ↦ inl (same, ground (arith, is))
        | inr other ↦ inr (other, ground (arith, is))
      ],
    )
