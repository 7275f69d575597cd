-- ===== src/Campaigns/Ended.antt =====
-- A participation that has ended.
use heofberu_backend.Prelude.{
  ℕ, ◌<◌, ◌≡◌, sym, ap, ◌∙◌, true, false, map, some, arith, inl, inr, any, All, Bool-cases, ==→eq,
  eq→==, ◌==◌,
}
use heofberu_backend.Campaigns.Participation.{
  CampaignCharacterStatus, CampaignCharacter, is_active, is_removed, same_participation,
  status_change_allowed,
}
use heofberu_backend.Campaigns.Rows.{Store}
use heofberu_backend.Campaigns.Crud.{released, release_characters}
use heofberu_backend.Campaigns.Characters.{is_row, ended, ended_or, get_participation}
use heofberu_backend.Campaigns.Effect.{
  create_campaign-ok, update_campaign-ok, archive_campaign-ok, restore_campaign-ok,
  add_character-ok, set_status-ok,
}
use heofberu_backend.Campaigns.Counts.{All-map, any-map, first-All, first-test}
use heofberu_backend.Campaigns.Soundness.{changed-ends}
use heofberu_backend.Campaigns.Steps.{
  Step, creates, updates, archives, restores, adds, sets, waits, Reach, stays, goes,
}

released-id : (campaign_id now : ℕ) (p : CampaignCharacter) → (released campaign_id now p).id ≡ p.id
released-id campaign_id now p = ground arith

released-over :
    (campaign_id now : ℕ) (p : CampaignCharacter)
    → is_active p.status ≡ false
    → released campaign_id now p ≡ p
released-over campaign_id now p over = ground arith

ended-id :
    (participation_id now : ℕ) (target : CampaignCharacterStatus) (p : CampaignCharacter)
    → (ended participation_id target now p).id ≡ p.id
ended-id participation_id now target p = ground arith

removed-stays :
    (current target : CampaignCharacterStatus)
    → status_change_allowed current target ≡ true
    → is_removed current ≡ true
    → is_removed target ≡ true
unfolding status_change_allowed
removed-stays current target allowed gone = ground arith

-- the participation with an id, as it was when it ended
module _ (id : ℕ) (was : CampaignCharacter) (t : ℕ) where
  abbrev pub IsLeft : CampaignCharacter → Type 0
  IsLeft p =
      (p.id == id) ≡ true
      → (p.campaign_id ≡ was.campaign_id)
        × (p.character_id ≡ was.character_id)
        × (p.user_id ≡ was.user_id)
        × (p.ended_at ≡ some t)
        × (is_active p.status ≡ false)
        × (is_removed was.status ≡ true → is_removed p.status ≡ true)

  -- the row with the id is there, and left
  pub record IsEnded (s : Store) : Type 0 where
    pub below : id < s.next_participation
    pub there : any (λ p. p.id == id) s.participations ≡ true
    pub rows : All IsLeft s.participations

  released-IsLeft :
      (campaign_id now : ℕ) (p : CampaignCharacter) → IsLeft p → IsLeft (released campaign_id now p)
  released-IsLeft campaign_id now p left here =
      let l = left (ap (λ k. k == id) (sym (released-id campaign_id now p)) ∙ here) in
      let (_, _, _, _, over, _) = l in rw (released-over campaign_id now p over) l

  ended-IsLeft :
      (participation_id now : ℕ) (target : CampaignCharacterStatus) (q : CampaignCharacter)
      → status_change_allowed q.status target ≡ true
      → same_participation q.status target ≡ false
      → (q.id == participation_id) ≡ true
      → IsLeft q
      → (p : CampaignCharacter) → IsLeft p
      → IsLeft (ended participation_id target now p)
  ended-IsLeft participation_id now target q allowed other found left_q p left here =
      let p_here : (p.id == id) ≡ true =
        ap (λ k. k == id) (sym (ended-id participation_id now target p)) ∙ here in
      let (campaign, character, user, at, over, gone) = left p_here in
      elim (Bool-cases (p.id == participation_id)) [
        | inl same ↦ rw same (
          campaign,
          character,
          user,
          ap (λ e. ended_or e now) at,
          changed-ends q.status target allowed other,
          λ was_gone.
              let (_, _, _, _, _, q_gone) = left_q (
                eq→== q.id id (
                  ==→eq q.id participation_id found
                  ∙ sym (==→eq p.id participation_id same)
                  ∙ ==→eq p.id id p_here)) in
              removed-stays q.status target allowed (q_gone was_gone),
        )
        | inr miss ↦ rw miss (campaign, character, user, at, over, gone)
      ]

  mapped-IsEnded :
      (f : CampaignCharacter → CampaignCharacter) (s s' : Store)
      → ((p : CampaignCharacter) → (f p).id ≡ p.id)
      → ((p : CampaignCharacter) → IsLeft p → IsLeft (f p))
      → s.next_participation ≡ s'.next_participation
      → map f s.participations ≡ s'.participations
      → IsEnded s
      → IsEnded s'
  mapped-IsEnded f s s' ids left next rows' v = record {
    below = rw (← next) v.below;
    there =
        ap (any (λ p. p.id == id)) (sym rows')
        ∙ any-map (λ p. p.id == id) f (λ p h. ap (λ k. k == id) (ids p) ∙ h) s.participations
            v.there;
    rows = rw (← rows') (All-map IsLeft IsLeft f left s.participations v.rows);
  }

  kept-IsEnded :
      (s s' : Store)
      → s.next_participation ≡ s'.next_participation
      → s.participations ≡ s'.participations
      → IsEnded s
      → IsEnded s'
  kept-IsEnded s s' next rows' v = record {
    below = rw (← next) v.below;
    there = rw (← rows') v.there;
    rows = rw (← rows') v.rows;
  }

  Step-IsEnded : (s s' : Store) → Step s s' → IsEnded s → IsEnded s'
  unfolding release_characters get_participation
  Step-IsEnded s s' (creates form user _ _ h) v =
      let (c, is) = create_campaign-ok form user s s' h in
      kept-IsEnded s s' (ap (λ r. r.next_participation) is) (ap (λ r. r.participations) is) v
  Step-IsEnded s s' (updates campaign_id fields user _ _ h) v =
      let (c, found, wrote) = update_campaign-ok campaign_id fields user s s' h in
      elim wrote [
        | inl (_, is) ↦
            mapped-IsEnded (released campaign_id s.now) s s' (released-id campaign_id s.now)
              (released-IsLeft campaign_id s.now) (ap (λ r. r.next_participation) is)
              (ap (λ r. r.participations) is) v
        | inr (open', is) ↦
            kept-IsEnded s s' (ap (λ r. r.next_participation) is) (ap (λ r. r.participations) is) v
      ]
  Step-IsEnded s s' (archives campaign_id user _ _ h) v =
      let (c, found, wrote) = archive_campaign-ok campaign_id user s s' h in
      elim wrote [
        | inl (_, is) ↦ rw (← is) v
        | inr is ↦
            mapped-IsEnded (released campaign_id s.now) s s' (released-id campaign_id s.now)
              (released-IsLeft campaign_id s.now) (ap (λ r. r.next_participation) is)
              (ap (λ r. r.participations) is) v
      ]
  Step-IsEnded s s' (restores campaign_id user _ _ h) v =
      let (c, found, is) = restore_campaign-ok campaign_id user s s' h in
      kept-IsEnded s s' (ap (λ r. r.next_participation) is) (ap (λ r. r.participations) is) v
  Step-IsEnded s s' (adds campaign_id character_id user read _ _ h) v =
      let (c, owner_id, found, open', free, is) =
        add_character-ok campaign_id character_id user read s s' h in
      let below : id < s.next_participation = v.below in
      rw (← is) (record {
        below = omega (arith, below);
        there = ground (arith, v.there);
        rows = ((λ here. absurd (ground (arith, below, here))), v.rows);
      })
  Step-IsEnded s s' (sets campaign_id participation_id target user _ _ h) v =
      let (q, found, allowed, wrote) =
        set_status-ok campaign_id participation_id target user s s' h in
      elim wrote [
        | inl (_, is) ↦ rw (← is) v
        | inr (other, is) ↦
            let test = first-test (is_row campaign_id participation_id) s.participations q found in
            let left =
              first-All IsLeft (is_row campaign_id participation_id) s.participations q v.rows
                found in
            mapped-IsEnded (ended participation_id target s.now) s s'
              (ended-id participation_id s.now target)
              (ended-IsLeft participation_id s.now target q allowed other (ground (arith, test))
                left)
              (ap (λ r. r.next_participation) is) (ap (λ r. r.participations) is) v
      ]
  Step-IsEnded s s' (waits n _) v = record { below = v.below; there = v.there; rows = v.rows }

  -- Whatever requests write campaigns and rosters, a participation that has ended stays in its table
  -- with its campaign, its character, its user and the time at which it ended; it never becomes
  -- active again, and one that was removed stays removed.
  pub Reach-IsEnded : (s s' : Store) → Reach s s' → IsEnded s → IsEnded s'
  Reach-IsEnded s s' (stays _) v = v
  Reach-IsEnded s s' (goes _ middle _ step rest) v =
      Reach-IsEnded middle s' rest (Step-IsEnded s middle step v)
