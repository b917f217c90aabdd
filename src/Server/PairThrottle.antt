-- ===== src/Server/PairThrottle.antt =====
-- engine/internal/server/pair_throttle.go: a token bucket for each source address. The source keeps
-- tokens in a float64 and adds `elapsed / 10 s`. Here a token is counted in units of a nanosecond of
-- refill, 10^10 to the token, so that the same sums are exact. Go's map is a function.
pub mod Bound
use maps_main.Shared.{
  ℕ, ◌+◌, ◌-◌, ◌*◌, String, Bool, true, false, Option, none, some, ltb, if◌then◌else◌, str_eq,
}

-- One token: pairRefillInterval, in nanoseconds.
abbrev pub token : ℕ
token = 10000000000

abbrev pair_burst : ℕ
pair_burst = 5

abbrev pub full : ℕ
full = pair_burst * token

-- pairEntryTTL
abbrev pair_entry_ttl : ℕ
pair_entry_ttl = 1800000000000

pub record PairBucket : Type 0 where
  pub tokens : ℕ
  pub last_seen : ℕ

abbrev pub Buckets : Type 0
Buckets = String → Option PairBucket

abbrev pub no_buckets : Buckets
no_buckets ip = none

abbrev keep_fresh : ℕ → Option PairBucket → Option PairBucket
keep_fresh now none = none
keep_fresh now (some b) = if ltb pair_entry_ttl (now - b.last_seen) then none else some b

-- `pruneLocked`
unfoldable prune : ℕ → Buckets → Buckets
prune now t ip = keep_fresh now (t ip)

abbrev pub put : String → PairBucket → Buckets → Buckets
put ip b t jp = if str_eq ip jp then some b else t jp

abbrev pub cap : ℕ → ℕ
cap n = if ltb full n then full else n

-- The tokens at hand when an address is looked up: a new bucket is full.
abbrev pub refilled : ℕ → Option PairBucket → ℕ
refilled now none = full
refilled now (some b) = cap (b.tokens + (now - b.last_seen))

-- `allow`: whether an attempt from `ip` may proceed, and the buckets after it.
unfoldable pub allow : String → ℕ → Buckets → Bool × Buckets
unfolding prune
allow ip now t =
    let u = prune now t in
    let n = refilled now (u ip) in
    if ltb n token
    then (false, put ip (record { tokens = n; last_seen = now }) u)
    else (true, put ip (record { tokens = n - token; last_seen = now }) u)

abbrev give_back : Option PairBucket → Option PairBucket
give_back none = none
give_back (some b) = some (record b { tokens = cap (b.tokens + token) })

-- `refund`
unfoldable pub refund : String → Buckets → Buckets
refund ip t jp = if str_eq ip jp then give_back (t jp) else t jp
