-- ===== src/Articles/Workflow/Publication.antt =====
-- The time of publication over any sequence of review actions.
use heofberu_backend.Prelude.{
  ℕ, ◌+◌, ◌≡◌, true, Option, none, some, arith, ◌==◌, if◌then◌else◌, is_some, update, Bool-cases,
  Option-cases, inl, inr, ==→eq, some_same,
}
use heofberu_backend.Prelude.Result.{ok, then-ok}
use heofberu_backend.Articles.Workflow.{
  ArticleStatus, ArticleAction, target, is_review_action, Article, Store, ArticleActor,
  is_published, moved, transition_status, write_state_or_404, check_submit, answer, transition,
}

-- one event: a review action that is accepted, an edit that makes a new version, or time
pub data Step : Store → Store → Type 0 where
  acts :
      (article_id : ℕ) (action : ArticleAction) (actor : ArticleActor) (expected : Option ℕ)
      (s s' : Store)
      → transition article_id action actor expected s ≡ ok s'
      → Step s s'
  edits :
      (article_id : ℕ) (a : Article) (s : Store)
      → s.articles article_id ≡ some a
      → Step s (record s {
        articles = update s.articles article_id (some (record a { version = a.version + 1 }));
      })
  waits : (n : ℕ) (s : Store) → Step s (record s { now = s.now + n })

pub data Reach : Store → Store → Type 0 where
  stays : (s : Store) → Reach s s
  goes : (s s' s'' : Store) → Step s s' → Reach s' s'' → Reach s s''

-- the article after an accepted action
abbrev changed : ArticleAction → ArticleActor → Store → Article → Article
changed action actor s a =
    moved (target action) (if is_review_action action then some actor.id else none) s.now a

transition-store :
    (article_id : ℕ) (action : ArticleAction) (actor : ArticleActor) (expected : Option ℕ)
    (s s' : Store)
    → transition article_id action actor expected s ≡ ok s'
    → (a : Article) × (s.articles article_id ≡ some a)
      × (s'
          ≡ record s { articles = update s.articles article_id (some (changed action actor s a)) })
unfolding transition answer transition_status write_state_or_404
transition-store article_id action actor expected s s' h =
    let (_, h') = then-ok (check_submit action actor article_id s) _ h in
    elim (Option-cases (s.articles article_id)) [
      | inl missing ↦ ground arith
      | inr (a, found) ↦ (a, found, ground arith)
    ]

-- a time of publication that was set
abbrev pub StampedAt : ℕ → ℕ → Store → Type 0
StampedAt id t s = (a : Article) × (s.articles id ≡ some a) × (a.published_at ≡ some t)

write-StampedAt :
    (id t key : ℕ) (s : Store) (b b' : Article)
    → s.articles key ≡ some b
    → (b.published_at ≡ some t → b'.published_at ≡ some t)
    → StampedAt id t s
    → StampedAt id t (record s { articles = update s.articles key (some b') })
write-StampedAt id t key s b b' held keeps (a, found, stamped) = elim (Bool-cases (id == key)) [
  | inl same ↦
      let is : a ≡ b = some_same found (rw (==→eq id key same) held) in
      (b', ground arith, keeps (rw (← is) stamped))
  | inr other ↦ (a, ground arith, stamped)
]

moved-keeps :
    (to : ArticleStatus) (reviewer : Option ℕ) (now t : ℕ) (b : Article)
    → b.published_at ≡ some t
    → (moved to reviewer now b).published_at ≡ some t
unfolding moved
moved-keeps to reviewer now t b h = ground arith

Step-StampedAt : (id t : ℕ) (s s' : Store) → Step s s' → StampedAt id t s → StampedAt id t s'
Step-StampedAt id t s s' (acts article_id action actor expected _ _ h) stamped =
    let (b, found', after) = transition-store article_id action actor expected s s' h in
    let reviewer = if is_review_action action then some actor.id else none in
    rw after (
      write-StampedAt id t article_id s b (changed action actor s b) found'
        (moved-keeps (target action) reviewer s.now t b) stamped)
Step-StampedAt id t s s' (edits article_id b _ found') stamped =
    write-StampedAt id t article_id s b (record b { version = b.version + 1 }) found' (λ h. h)
      stamped
Step-StampedAt id t s s' (waits n _) h = h

-- A time of publication, once set, is never changed: the article keeps it through any sequence of
-- review actions, edits and delays.
pub Reach-keeps_published_at :
    (id t : ℕ) (s s' : Store) → Reach s s' → StampedAt id t s → StampedAt id t s'
Reach-keeps_published_at id t s s' (stays _) h = h
Reach-keeps_published_at id t s s' (goes _ m _ step rest) h =
    Reach-keeps_published_at id t m s' rest (Step-StampedAt id t s m step h)

-- every published article has its time of publication
abbrev pub IsDated : Store → Type 0
IsDated s =
    (id : ℕ) (a : Article)
    → s.articles id ≡ some a
    → is_published a.status ≡ true
    → is_some a.published_at ≡ true

write-IsDated :
    (key : ℕ) (s : Store) (b' : Article)
    → IsDated s
    → (is_published b'.status ≡ true → is_some b'.published_at ≡ true)
    → IsDated (record s { articles = update s.articles key (some b') })
write-IsDated key s b' dated fits id a found public = elim (Bool-cases (id == key)) [
  | inl same ↦ let is : b' ≡ a = some_same (ground arith) found in rw (← is) (fits (rw is public))
  | inr other ↦ dated id a (ground arith) public
]

moved-dated :
    (to : ArticleStatus) (reviewer : Option ℕ) (now : ℕ) (b : Article)
    → is_published (moved to reviewer now b).status ≡ true
    → is_some (moved to reviewer now b).published_at ≡ true
unfolding moved
moved-dated to reviewer now b h = ground arith

Step-IsDated : (s s' : Store) → Step s s' → IsDated s → IsDated s'
Step-IsDated s s' (acts article_id action actor expected _ _ h) dated =
    let (b, found', after) = transition-store article_id action actor expected s s' h in
    let reviewer = if is_review_action action then some actor.id else none in
    rw after (
      write-IsDated article_id s (changed action actor s b) dated
        (moved-dated (target action) reviewer s.now b))
Step-IsDated s s' (edits article_id b _ found') dated =
    write-IsDated article_id s (record b { version = b.version + 1 }) dated
      (dated article_id b found')
Step-IsDated s s' (waits n _) dated = dated

-- A published article has a time of publication: any sequence of review actions, edits and delays
-- keeps this.
pub Reach-IsDated : (s s' : Store) → Reach s s' → IsDated s → IsDated s'
Reach-IsDated s s' (stays _) h = h
Reach-IsDated s s' (goes _ m _ step rest) h = Reach-IsDated m s' rest (Step-IsDated s m step h)
