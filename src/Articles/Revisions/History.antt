-- ===== src/Articles/Revisions/History.antt =====
-- The history of an article: one revision for each version up to the current one, which is the
-- article's content, and a hash in each that covers the one before.
use heofberu_backend.Prelude.{
  ℕ, ◌+◌, ◌-◌, ◌<◌, ◌≤◌, ◌≡◌, refl, sym, ◌∙◌, true, false, Option, none, some, ◌==◌, update, arith,
  Bool-cases, inl, inr, ==→eq, is_some, some_same,
}
use heofberu_backend.Articles.Rows.{Content, ArticleRevision, Libs}
use heofberu_backend.Articles.Revisions.{revision_hash, hash_of}

abbrev pub History : Type 0
History = ℕ → Option ArticleRevision

pub record IsHistory (libs : Libs) (history : History) (version : ℕ) (content : Content)
    : Type 0 where
  pub starts : 1 ≤ version
  pub current : (r : ArticleRevision) × (history version ≡ some r) × (r.content ≡ content)
  pub whole : (v : ℕ) → 1 ≤ v → v ≤ version → is_some (history v) ≡ true
  pub beyond : (v : ℕ) → version < v → history v ≡ none
  pub chained :
      (v : ℕ) (r : ArticleRevision)
      → history v ≡ some r
      → r.content_hash ≡ revision_hash libs (hash_of (history (v - 1))) v r.content

update-miss :
    (h : History) (k : ℕ) (row : Option ArticleRevision) (j : ℕ)
    → (j == k) ≡ false
    → update h k row j ≡ h j
update-miss h k row j other = ground arith

update-hit :
    (h : History) (k : ℕ) (row : Option ArticleRevision) (j : ℕ)
    → (j == k) ≡ true
    → update h k row j ≡ row
update-hit h k row j same = ground arith

pub plus_minus : (v : ℕ) → v + 1 - 1 ≡ v
plus_minus v = omega arith

-- the hash of a new revision covers the one before
new-chained :
    (libs : Libs) (h : History) (k : ℕ) (c : Content) (r q : ArticleRevision) (w : ℕ)
    → 1 ≤ k
    → r.content ≡ c
    → r.content_hash ≡ revision_hash libs (hash_of (h (k - 1))) k c
    → (w == k) ≡ true
    → update h k (some r) w ≡ some q
    → q.content_hash ≡ revision_hash libs (hash_of (update h k (some r) (w - 1))) w q.content
new-chained libs h k c r q w low same hash new found =
    let is_w : w ≡ k = ==→eq w k new in
    let is_r : r ≡ q = some_same (update-hit h k (some r) w new) found in
    rw is_w (rw (update-miss h k (some r) (k - 1) (ground arith)) (rw (← is_r) (rw same hash)))

-- a revision after the last one
pub extend-IsHistory :
    (libs : Libs) (h : History) (v : ℕ) (c c' : Content) (r : ArticleRevision)
    → IsHistory libs h v c
    → r.content ≡ c'
    → r.content_hash ≡ revision_hash libs (hash_of (h v)) (v + 1) c'
    → IsHistory libs (update h (v + 1) (some r)) (v + 1) c'
extend-IsHistory libs h v c c' r is same hash = record {
  starts = omega arith;
  current = (r, ground arith, same);
  whole = λ w low high. elim (Bool-cases (w == v + 1)) [
    | inl new ↦ rw new refl
    | inr old ↦ rw old (is.whole w low (ground arith))
  ];
  beyond = λ w past. elim (Bool-cases (w == v + 1)) [
    | inl new ↦ ground arith
    | inr old ↦ rw old (is.beyond w (omega arith))
  ];
  chained = λ w q found. elim (Bool-cases (w == v + 1)) [
    | inl new ↦
        new-chained libs h (v + 1) c' r q w (omega arith) same (rw (plus_minus v) hash) new found
    | inr old ↦
        let kept : h w ≡ some q = sym (update-miss h (v + 1) (some r) w old) ∙ found in
        elim (Bool-cases (w - 1 == v + 1)) [
          | inl past ↦ ground (arith, is.beyond w (ground arith))
          | inr before ↦ rw (update-miss h (v + 1) (some r) (w - 1) before) (is.chained w q kept)
        ]
  ];
}

-- the first revision
pub start-IsHistory :
    (libs : Libs) (h : History) (c : Content) (r : ArticleRevision)
    → ((v : ℕ) → h v ≡ none)
    → r.content ≡ c
    → r.content_hash ≡ revision_hash libs none 1 c
    → IsHistory libs (update h 1 (some r)) 1 c
start-IsHistory libs h c r empty same hash = record {
  starts = omega arith;
  current = (r, refl, same);
  whole =
      λ w low high. elim (Bool-cases (w == 1)) [ inl new ↦ rw new refl | inr old ↦ ground arith ];
  beyond =
      λ w past. elim (Bool-cases (w == 1)) [ inl new ↦ ground arith | inr old ↦ rw old (empty w) ];
  chained = λ w q found. elim (Bool-cases (w == 1)) [
    | inl new ↦ new-chained libs h 1 c r q w (omega arith) same (rw (empty 0) hash) new found
    | inr old ↦ ground (arith, empty w)
  ];
}

pub start_at-IsHistory :
    (libs : Libs) (h : History) (v : ℕ) (c : Content) (r : ArticleRevision)
    → v ≡ 1
    → ((w : ℕ) → h w ≡ none)
    → r.content ≡ c
    → r.content_hash ≡ revision_hash libs none 1 c
    → IsHistory libs (update h v (some r)) v c
start_at-IsHistory libs h v c r one empty same hash =
    rw one (start-IsHistory libs h c r empty same hash)
