-- ===== src/Core/RateLimit/Tests.antt =====
-- One client with three requests, one of them out of the window.
use heofberu_backend.Prelude.{
  ◌≤◌, ◌≡◌, ◌&&◌, List, [], ◌∷◌, ◌++◌, ltb, ◌==◌, if◌then◌else◌, length, arith,
}
use heofberu_backend.Core.RateLimit.{Client, history_of, local_incr_and_check}
use heofberu_backend.Core.RateLimit.Windows.{
  IsSorted, recent, local_incr_and_check-bounded, local_incr_and_check_lem,
}

abbrev seen : List Client
seen = record { client_ip = 1; bucket = 2; history = 5 ∷ 95 ∷ 100 ∷ [] } ∷ []

seen-IsSorted : IsSorted (5 ∷ 95 ∷ 100 ∷ [])
seen-IsSorted = ((omega arith, (omega arith, tt)), ((omega arith, tt), (tt, tt)))

local_incr_and_check-bounded_example : length (local_incr_and_check 60 1 2 3 120 seen).1 ≤ 10001
local_incr_and_check-bounded_example = local_incr_and_check-bounded 60 1 2 3 120 seen

local_incr_and_check_lem_example :
    let kept = recent 60 (5 ∷ 95 ∷ 100 ∷ []) in
    let allowed = ltb (length kept) 3 in
    let out = local_incr_and_check 60 1 2 3 120 seen in
    (out.0.1 ≡ allowed)
    × (history_of 1 2 out.1 ≡ (
        if 1 == 1 && 2 == 2
        then if allowed then kept ++ 120 ∷ [] else kept
        else history_of 1 2 seen))
local_incr_and_check_lem_example =
    local_incr_and_check_lem 60 1 2 3 120 1 2 seen (omega arith) seen-IsSorted
