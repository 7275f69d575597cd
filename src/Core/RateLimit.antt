-- ===== src/Core/RateLimit.antt =====
-- app/middleware/rate_limit.py: the counters in Redis and the bounded ones in memory. Times are in
-- one unit, that of the period; addresses and buckets are numbered.
pub mod Windows
mod Tests
use heofberu_backend.Prelude.{
  ℕ, suc, ◌+◌, ◌-◌, ◌/◌, Bool, true, false, not, ◌&&◌, ◌||◌, List, [], ◌∷◌, ◌++◌, ltb, leb, ◌==◌,
  if◌then◌else◌, length, keep,
}

abbrev pub max_tracked_clients : ℕ
max_tracked_clients = 10000

-- an entry of the dict `self.clients`, which keeps the order of insertion
pub record Client : Type 0 where
  pub client_ip : ℕ
  pub bucket : ℕ
  pub history : List ℕ

-- the Redis counters by address, bucket and window, and the dict
pub record Limiter : Type 0 where
  pub counters : ℕ → ℕ → ℕ → ℕ
  pub clients : List Client

abbrev pub is_client : ℕ → ℕ → Client → Bool
is_client ip bucket c = c.client_ip == ip && c.bucket == bucket

abbrev pub history_of : ℕ → ℕ → List Client → List ℕ
history_of ip bucket [] = []
history_of ip bucket (c ∷ cs) = if is_client ip bucket c then c.history else history_of ip bucket cs

-- the deque of the client at the end of the call, where the dict has it, or at the end of the dict
unfoldable pub put_history : ℕ → ℕ → List ℕ → List Client → List Client
put_history ip bucket h [] = record { client_ip = ip; bucket = bucket; history = h } ∷ []
put_history ip bucket h (c ∷ cs) =
    let rest = put_history ip bucket h cs in
    if is_client ip bucket c then record c { history = h } ∷ cs else c ∷ rest

-- `not history or history[-1] < cutoff`
unfoldable pub is_stale : ℕ → List ℕ → Bool
is_stale cutoff [] = true
is_stale cutoff (t ∷ []) = ltb t cutoff
is_stale cutoff (t ∷ u ∷ us) = is_stale cutoff (u ∷ us)

-- the second loop of `_evict_stale`
unfoldable pub drop_oldest : List Client → List Client
drop_oldest [] = []
drop_oldest (c ∷ cs) =
    let rest = drop_oldest cs in if leb (length (c ∷ cs)) max_tracked_clients then c ∷ cs else rest

-- `_evict_stale`
unfoldable pub evict_stale : ℕ → List Client → List Client
unfolding is_stale drop_oldest
evict_stale cutoff clients = drop_oldest (keep (λ c. not (is_stale cutoff c.history)) clients)

-- `while history and history[0] < cutoff: history.popleft()`
unfoldable pub trim : ℕ → List ℕ → List ℕ
trim cutoff [] = []
trim cutoff (t ∷ ts) = let rest = trim cutoff ts in if ltb t cutoff then rest else t ∷ ts

-- the clients before the call looks at its own: a dict that has grown too large is thinned out
unfoldable pub make_room : ℕ → List Client → List Client
unfolding evict_stale
make_room cutoff clients =
    if ltb max_tracked_clients (length clients) then evict_stale cutoff clients else clients

-- `_local_incr_and_check`: the count, whether the request is let through, and the dict
unfoldable pub local_incr_and_check : ℕ → ℕ → ℕ → ℕ → ℕ → List Client → (ℕ × Bool) × List Client
unfolding make_room trim put_history
local_incr_and_check period ip bucket calls now clients =
    let cutoff = now - period in
    let room = make_room cutoff clients in
    let history = trim cutoff (history_of ip bucket room) in
    if leb calls (length history)
    then ((length history, false), put_history ip bucket history room)
    else ((length history + 1, true), put_history ip bucket (history ++ now ∷ []) room)

-- `_redis_incr`: the count after it, and the counters
unfoldable pub redis_incr : ℕ → ℕ → ℕ → ℕ → Limiter → ℕ × Limiter
redis_incr period ip bucket now l =
    let window = now / period in
    let count = l.counters ip bucket window + 1 in
    (
      count,
      record l {
        counters =
            λ i b w. if i == ip && b == bucket && w == window then count else l.counters i b w;
      },
    )

-- `_count_and_check`: the flag says whether Redis fails
unfoldable pub count_and_check : ℕ → ℕ → ℕ → ℕ → ℕ → Bool → Limiter → (ℕ × Bool) × Limiter
unfolding redis_incr local_incr_and_check
count_and_check period ip bucket calls now false l =
    let counted = redis_incr period ip bucket now l in ((counted.0, leb counted.0 calls), counted.1)
count_and_check period ip bucket calls now true l =
    let counted = local_incr_and_check period ip bucket calls now l.clients in
    (counted.0, record l { clients = counted.1 })
