-- ===== src/Core/RateLimit/Windows.antt =====
-- The memory of the limiter is bounded, and its window slides.
use heofberu_backend.Prelude.{
  ℕ, ◌+◌, ◌-◌, ◌≤◌, ◌≡◌, refl, not, ◌&&◌, List, [], ◌∷◌, ◌++◌, ltb, leb, ◌==◌, if◌then◌else◌,
  length, keep, All, arith, Bool-cases, inl, inr,
}
use heofberu_backend.Core.RateLimit.{
  max_tracked_clients, Client, history_of, put_history, is_stale, drop_oldest, evict_stale, trim,
  make_room, local_incr_and_check,
}

length-drop_oldest : (cs : List Client) → length (drop_oldest cs) ≤ max_tracked_clients
unfolding drop_oldest
length-drop_oldest [] = omega arith
length-drop_oldest (c ∷ cs) = ground (arith, length-drop_oldest cs)

length-make_room :
    (cutoff : ℕ) (cs : List Client) → length (make_room cutoff cs) ≤ max_tracked_clients
unfolding make_room evict_stale
length-make_room cutoff cs =
    ground (arith, length-drop_oldest (keep (λ c. not (is_stale cutoff c.history)) cs))

length-put_history :
    (ip bucket : ℕ) (h : List ℕ) (cs : List Client)
    → length (put_history ip bucket h cs) ≤ length cs + 1
unfolding put_history
length-put_history ip bucket h [] = omega arith
length-put_history ip bucket h (c ∷ cs) = ground (arith, length-put_history ip bucket h cs)

-- The dict of the fallback never has more than one entry over the cap after a call, whatever it had
-- before, whoever calls and whenever.
pub local_incr_and_check-bounded :
    (period ip bucket calls now : ℕ) (clients : List Client)
    → length (local_incr_and_check period ip bucket calls now clients).1 ≤ 10001
unfolding local_incr_and_check
local_incr_and_check-bounded period ip bucket calls now clients =
    let room = make_room (now - period) clients in
    let h = trim (now - period) (history_of ip bucket room) in
    ground (
      arith,
      length-make_room (now - period) clients,
      length-put_history ip bucket h room,
      length-put_history ip bucket (h ++ now ∷ []) room,
    )

-- the times of a deque, oldest first
abbrev pub IsSorted : List ℕ → Type 0
IsSorted [] = Unit
IsSorted (t ∷ ts) = All (λ u. t ≤ u) ts × IsSorted ts

abbrev pub recent : ℕ → List ℕ → List ℕ
recent cutoff = keep (λ t. leb cutoff t)

recent-All : (cutoff t : ℕ) (ts : List ℕ) → cutoff ≤ t → All (λ u. t ≤ u) ts → recent cutoff ts ≡ ts
recent-All cutoff t [] h a = refl
recent-All cutoff t (u ∷ us) h (a, rest) = ground (arith, recent-All cutoff t us h rest)

-- popping from the left of a sorted deque keeps what is recent
trim-recent : (cutoff : ℕ) (ts : List ℕ) → IsSorted ts → trim cutoff ts ≡ recent cutoff ts
unfolding trim
trim-recent cutoff [] h = refl
trim-recent cutoff (t ∷ ts) (a, h) = elim (Bool-cases (ltb t cutoff)) [
  | inl old ↦ ground (arith, trim-recent cutoff ts h)
  | inr new ↦ ground (arith, recent-All cutoff t ts)
]

history_of-put_history :
    (ip bucket i b : ℕ) (h : List ℕ) (cs : List Client)
    → history_of i b (put_history ip bucket h cs)
      ≡ (if i == ip && b == bucket then h else history_of i b cs)
unfolding put_history
history_of-put_history ip bucket i b h [] = ground arith
history_of-put_history ip bucket i b h (c ∷ cs) =
    ground (arith, history_of-put_history ip bucket i b h cs)

-- In memory, where the dict is within its cap and the client's times are in order, a request is let
-- through exactly when fewer requests than its budget were let through in the period that ends now;
-- only those it keeps, with itself when it is let through, and no other client's times change.
pub local_incr_and_check_lem :
    (period ip bucket calls now i b : ℕ) (clients : List Client)
    → length clients ≤ 10000
    → IsSorted (history_of ip bucket clients)
    → let kept = recent (now - period) (history_of ip bucket clients) in
      let allowed = ltb (length kept) calls in
      let out = local_incr_and_check period ip bucket calls now clients in
      (out.0.1 ≡ allowed)
      × (history_of i b out.1 ≡ (
          if i == ip && b == bucket
          then if allowed then kept ++ now ∷ [] else kept
          else history_of i b clients))
unfolding local_incr_and_check make_room
local_incr_and_check_lem period ip bucket calls now i b clients small sorted =
    let kept = recent (now - period) (history_of ip bucket clients) in
    let trimmed = trim-recent (now - period) (history_of ip bucket clients) sorted in
    let put = history_of-put_history ip bucket i b kept clients in
    let put' = history_of-put_history ip bucket i b (kept ++ now ∷ []) clients in
    (ground (arith, trimmed), ground (arith, trimmed, put, put'))
