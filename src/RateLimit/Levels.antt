-- ===== src/RateLimit/Levels.antt =====
-- What a token bucket promises: the tokens of each key, refilled at every instant, with nothing ever
-- forgotten. `InMemoryTokenBucket` of apps/backend/app/rate_limit.py refills only when it is asked,
-- and forgets the buckets that stood idle.
use eap.Prelude.{ℕ, ◌-◌, ◌≤◌, String, Bool, true, false, List, [], ◌∷◌, ltb, if◌then◌else◌, str_eq}
use eap.RateLimit.Bucket.{Limit, full, Buckets, refilled, acquire}

-- what each key has at each instant
abbrev pub Levels : Type 0
Levels = String → ℕ → ℕ

abbrev pub all_full : (String → Limit) → Levels
all_full limit_of j t = full (limit_of j)

-- the promise: a token is granted if there is one, and then it is taken
unfoldable pub grant : (l : Limit) (key : String) (now : ℕ) → Levels → Bool × Levels
grant l key now v =
    if ltb (v key now) l.period
    then (false, v)
    else (true, λ j t. if str_eq key j then refilled l (v key now - l.period) (t - now) else v j t)

-- a request for a token
pub record Request : Type 0 where
  pub key : String
  pub now : ℕ

-- the answers to requests, by the buckets and by the promise
unfoldable pub answers : (String → Limit) → List Request → Buckets → List Bool
unfolding acquire
answers limit_of [] b = []
answers limit_of (r ∷ rs) b =
    let (granted, after) = acquire (limit_of r.key) r.key r.now b in
    granted ∷ answers limit_of rs after

unfoldable pub promised : (String → Limit) → List Request → Levels → List Bool
unfolding grant
promised limit_of [] v = []
promised limit_of (r ∷ rs) v =
    let (granted, after) = grant (limit_of r.key) r.key r.now v in
    granted ∷ promised limit_of rs after

-- requests whose instants never go back, from `now` on
abbrev pub InOrder : ℕ → List Request → Type 0
InOrder now [] = Unit
InOrder now (r ∷ rs) = (now ≤ r.now) × InOrder r.now rs
