-- ===== src/Campaigns/Roster.antt =====
-- The invariant of the rosters, kept by every request.
use heofberu_backend.Prelude.{
  ℕ, ◌≤◌, ◌<◌, ◌≡◌, refl, sym, ap, ◌∙◌, false, ◌∷◌, none, some, arith, inl, inr, any, keep, length,
  All, update_miss, Bool-cases, ==→eq, ◌==◌,
}
use heofberu_backend.Campaigns.Participation.{CampaignCharacter}
use heofberu_backend.Campaigns.Rows.{Campaign, Store, put_campaign}
use heofberu_backend.Campaigns.Crud.{
  CampaignUpdate, patched_campaign, closes, released, release_characters,
}
use heofberu_backend.Campaigns.Characters.{is_over, holds, ended}
use heofberu_backend.Campaigns.Effect.{
  create_campaign-ok, update_campaign-ok, archive_campaign-ok, restore_campaign-ok, joined,
  add_character-ok, set_status-ok,
}
use heofberu_backend.Campaigns.Counts.{All-map, All-each, length-keep-map, length-keep-none}
use heofberu_backend.Campaigns.Steps.{
  Step, creates, updates, archives, restores, adds, sets, waits, Reach, stays, goes,
}
use heofberu_backend.Campaigns.Soundness.{
  IsSound, put-IsSound, released-IsSound, released-holds, ended-holds, ended-IsSound, changed-ends,
}

pub record IsRoster (s : Store) : Type 0 where
  pub below : (id : ℕ) (c : Campaign) → s.campaigns id ≡ some c → id < s.next_campaign
  pub rows : All (IsSound s.campaigns) s.participations
  pub single : (character_id : ℕ) → length (keep (holds character_id) s.participations) ≤ 1

put-below :
    (s : Store) (id : ℕ) (c c' : Campaign)
    → s.campaigns id ≡ some c
    → ((j : ℕ) (k : Campaign) → s.campaigns j ≡ some k → j < s.next_campaign)
    → (j : ℕ) (k : Campaign) → (put_campaign id c' s).campaigns j ≡ some k
    → j < s.next_campaign
put-below s id c c' found below j k there = elim (Bool-cases (j == id)) [
  | inl same ↦ below j c (ap s.campaigns (==→eq j id same) ∙ found)
  | inr other ↦ below j k (sym (update_miss s.campaigns id (some c') j other) ∙ there)
]

put-IsRoster :
    (s : Store) (id : ℕ) (c c' : Campaign)
    → s.campaigns id ≡ some c
    → (is_over c ≡ false → is_over c' ≡ false)
    → IsRoster s
    → IsRoster (put_campaign id c' s)
put-IsRoster s id c c' found goes_on v = record {
  below = put-below s id c c' found v.below;
  rows =
      All-each (IsSound s.campaigns) (IsSound (put_campaign id c' s).campaigns)
        (put-IsSound s.campaigns id c c' found goes_on) s.participations v.rows;
  single = v.single;
}

release-IsRoster :
    (s : Store) (id : ℕ) (c c' : Campaign)
    → s.campaigns id ≡ some c
    → IsRoster s
    → IsRoster (release_characters id s.now (put_campaign id c' s))
unfolding release_characters
release-IsRoster s id c c' found v = record {
  below = put-below s id c c' found v.below;
  rows =
      All-map (IsSound s.campaigns) (IsSound (put_campaign id c' s).campaigns) (released id s.now)
        (released-IsSound s.campaigns id s.now (some c')) s.participations v.rows;
  single = λ ch. omega (
    arith,
    v.single ch,
    length-keep-map (holds ch) (released id s.now) (released-holds id s.now ch) s.participations,
  );
}

fresh-IsSound :
    (s : Store) (c : Campaign)
    → ((j : ℕ) (k : Campaign) → s.campaigns j ≡ some k → j < s.next_campaign)
    → (p : CampaignCharacter) → IsSound s.campaigns p
    → IsSound (put_campaign s.next_campaign c s).campaigns p
fresh-IsSound s c below p (dated, open') = (
  dated,
  λ here.
      let (k, there, free) = open' here in
      let old : p.campaign_id < s.next_campaign = below p.campaign_id k there in
      (
        k,
        update_miss s.campaigns s.next_campaign (some c) p.campaign_id (ground arith) ∙ there,
        free,
      ),
)

patched_campaign-goes_on :
    (fields : CampaignUpdate) (c : Campaign)
    → closes fields.status ≡ false
    → is_over c ≡ false
    → is_over (patched_campaign fields c) ≡ false
patched_campaign-goes_on fields c open' free = ground arith

restored-goes_on :
    (c : Campaign) → is_over c ≡ false → is_over (record c { archived_at = none }) ≡ false
restored-goes_on c free = ground arith

joined-single :
    (s : Store) (campaign_id character_id owner_id ch : ℕ)
    → any (holds character_id) s.participations ≡ false
    → length (keep (holds ch) s.participations) ≤ 1
    → length (keep (holds ch) (joined campaign_id character_id owner_id s ∷ s.participations)) ≤ 1
joined-single s campaign_id character_id owner_id ch free single =
    elim (Bool-cases (character_id == ch)) [
      | inl same ↦
          let is : character_id ≡ ch = ==→eq character_id ch same in
          let nobody : length (keep (holds ch) s.participations) ≡ 0 =
            length-keep-none (holds ch) s.participations
              (ap (λ i. any (holds i) s.participations) (sym is) ∙ free) in
          rw same (omega (arith, nobody))
      | inr other ↦ rw other single
    ]

Step-IsRoster : (s s' : Store) → Step s s' → IsRoster s → IsRoster s'
Step-IsRoster s s' (creates form user _ _ h) v =
    let (c, is) = create_campaign-ok form user s s' h in
    rw (← is) (record {
      below = λ j k there. elim (Bool-cases (j == s.next_campaign)) [
        | inl same ↦ omega (arith, ==→eq j s.next_campaign same)
        | inr other ↦ omega (
          arith,
          v.below j k (sym (update_miss s.campaigns s.next_campaign (some c) j other) ∙ there),
        )
      ];
      rows =
          All-each (IsSound s.campaigns) (IsSound (put_campaign s.next_campaign c s).campaigns)
            (fresh-IsSound s c v.below) s.participations v.rows;
      single = v.single;
    })
Step-IsRoster s s' (updates campaign_id fields user _ _ h) v =
    let (c, found, wrote) = update_campaign-ok campaign_id fields user s s' h in
    elim wrote [
      | inl (_, is) ↦
          rw (← is) (release-IsRoster s campaign_id c (patched_campaign fields c) found v)
      | inr (open', is) ↦ rw (← is) (
          put-IsRoster s campaign_id c (patched_campaign fields c) found
            (patched_campaign-goes_on fields c open') v)
    ]
Step-IsRoster s s' (archives campaign_id user _ _ h) v =
    let (c, found, wrote) = archive_campaign-ok campaign_id user s s' h in
    elim wrote [
      | inl (_, is) ↦ rw (← is) v
      | inr is ↦
          rw (← is)
            (release-IsRoster s campaign_id c (record c { archived_at = some s.now }) found v)
    ]
Step-IsRoster s s' (restores campaign_id user _ _ h) v =
    let (c, found, is) = restore_campaign-ok campaign_id user s s' h in
    rw (← is)
      (put-IsRoster s campaign_id c (record c { archived_at = none }) found (restored-goes_on c) v)
Step-IsRoster s s' (adds campaign_id character_id user read _ _ h) v =
    let (c, owner_id, found, open', free, is) =
      add_character-ok campaign_id character_id user read s s' h in
    rw (← is) (record {
      below = v.below;
      rows = ((refl, λ _. (c, found, open')), v.rows);
      single = λ ch. joined-single s campaign_id character_id owner_id ch free (v.single ch);
    })
Step-IsRoster s s' (sets campaign_id participation_id target user _ _ h) v =
    let (p, _, allowed, wrote) = set_status-ok campaign_id participation_id target user s s' h in
    elim wrote [
      | inl (_, is) ↦ rw (← is) v
      | inr (other, is) ↦
          let ends = changed-ends p.status target allowed other in
          let f : CampaignCharacter → CampaignCharacter = ended participation_id target s.now in
          rw (← is) (record {
            below = v.below;
            rows =
                All-map (IsSound s.campaigns) (IsSound s.campaigns) f
                  (ended-IsSound s.campaigns participation_id target s.now ends) s.participations
                  v.rows;
            single = λ ch. omega (
              arith,
              v.single ch,
              length-keep-map (holds ch) f
                  (λ q. ended-holds participation_id target s.now ch q ends) s.participations,
            );
          })
    ]
Step-IsRoster s s' (waits n _) v = record { below = v.below; rows = v.rows; single = v.single }

-- Whatever requests write campaigns and rosters, and whatever an adding GM read before another GM
-- wrote, every character is active in at most one participation, every active participation is in
-- a campaign that is neither closed nor archived, and exactly the others have an end.
pub Reach-IsRoster : (s s' : Store) → Reach s s' → IsRoster s → IsRoster s'
Reach-IsRoster s s' (stays _) v = v
Reach-IsRoster s s' (goes _ middle _ step rest) v =
    Reach-IsRoster middle s' rest (Step-IsRoster s middle step v)
