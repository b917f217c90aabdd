-- ===== src/Server/RateLimiter.antt =====
-- engine/internal/server/hub.go: the token bucket of one WebSocket connection. The source counts
-- tokens in a float64 and adds `elapsed seconds * limit`. Here a token is 10^9 units, so that an
-- elapsed nanosecond adds `limit` units exactly.
use native.Mathlib.Nat.{le_trans, mul-le-mul_right, add-mul}
use maps_main.Shared.{
  ℕ, ◌+◌, ◌-◌, ◌*◌, ◌≤◌, ◌≡◌, Bool, true, false, List, [], ◌∷◌, arith, ltb, leb, if◌then◌else◌, sym,
  ap, ◌∙◌, Bool-cases, inl, inr,
}

abbrev pub token : ℕ
token = 1000000000

-- `limit` is in tokens a second, `burst` in tokens.
pub record RateLimiter : Type 0 where
  pub tokens : ℕ
  pub last_update : ℕ
  pub limit : ℕ
  pub burst : ℕ

unfoldable pub new : ℕ → ℕ → ℕ → RateLimiter
new limit burst now = record {
  tokens = burst * token;
  last_update = now;
  limit = limit;
  burst = burst;
}

unfoldable pub refill : ℕ → RateLimiter → ℕ
refill now rl =
    let n = rl.tokens + (now - rl.last_update) * rl.limit in
    if ltb (rl.burst * token) n then rl.burst * token else n

unfoldable pub allow : ℕ → RateLimiter → Bool × RateLimiter
unfolding refill
allow now rl =
    let n = refill now rl in
    if leb token n
    then (true, record rl { tokens = n - token; last_update = now })
    else (false, record rl { tokens = n; last_update = now })

-- Messages that arrive at these times: how many pass, and the limiter after them.
unfoldable allow_all : List ℕ → RateLimiter → ℕ × RateLimiter
allow_all [] rl = (0, rl)
allow_all (t ∷ ts) rl =
    let (passed, rl') = allow t rl in
    let (n, rl'') = allow_all ts rl' in ((if passed then n + 1 else n), rl'')

abbrev pub Ascending : ℕ → List ℕ → Type 0
Ascending now [] = Unit {0}
Ascending now (t ∷ ts) = (now ≤ t) × Ascending t ts

abbrev pub last_time : ℕ → List ℕ → ℕ
last_time now [] = now
last_time now (t ∷ ts) = last_time t ts

-- The part of an elapsed time after `now` is refilled after `now`.
elapsed_split :
    (last now later r : ℕ) → now ≤ later → (later - last) * r ≤ (now - last) * r + (later - now) * r
elapsed_split last now later r h =
    le_trans (mul-le-mul_right r le) (omega (arith, add-mul (now - last) (later - now) r))
  where
    le : later - last ≤ (now - last) + (later - now)
    le = omega arith

refill-later :
    (now later : ℕ) (rl : RateLimiter)
    → now ≤ later
    → refill later rl ≤ refill now rl + (later - now) * rl.limit
unfolding refill
refill-later now later rl h = ground (arith, elapsed_split rl.last_update now later rl.limit)

refill-allow :
    (now : ℕ) (rl : RateLimiter)
    → refill now (allow now rl).1 + (if (allow now rl).0 then token else 0) ≤ refill now rl
unfolding allow
refill-allow now rl = ground arith

allow-limit :
    (now : ℕ) (rl : RateLimiter)
    → ((allow now rl).1.limit ≡ rl.limit) × ((allow now rl).1.burst ≡ rl.burst)
unfolding allow
allow-limit now rl = ground arith

last_time-le : (now : ℕ) (ts : List ℕ) → Ascending now ts → now ≤ last_time now ts
last_time-le now [] h = omega arith
last_time-le now (t ∷ ts) h = omega (arith, last_time-le t ts h.1)

refill-le : (now : ℕ) (rl : RateLimiter) → refill now rl ≤ rl.burst * token
unfolding refill
refill-le now rl = ground arith

-- Elapsed times add up.
elapsed_join :
    (now t end r : ℕ) → now ≤ t → t ≤ end → (t - now) * r + (end - t) * r ≡ (end - now) * r
elapsed_join now t end r h k = sym (add-mul (t - now) (end - t) r) ∙ ap (λ n. n * r) (omega arith)

allow_all-refill :
    (now : ℕ) (ts : List ℕ) (rl : RateLimiter)
    → Ascending now ts
    → (allow_all ts rl).0 * token ≤ refill now rl + (last_time now ts - now) * rl.limit
unfolding allow_all
allow_all-refill now [] rl h = omega arith
allow_all-refill now (t ∷ ts) rl h =
    let bound = allow_all-refill t ts (allow t rl).1 h.1 in
    let bound' = rw (allow-limit t rl).0 at bound in
    let later = refill-later now t rl h.0 in
    let taken = refill-allow t rl in
    let join = elapsed_join now t (last_time t ts) rl.limit h.0 (last_time-le t ts h.1) in
    elim (Bool-cases (allow t rl).0) [
      | inl pass ↦ rw pass (omega (arith, bound', later, join, rw pass at taken))
      | inr stop ↦ rw stop (omega (arith, bound', later, join, rw stop at taken))
    ]

-- Of the messages that arrive on one connection, at times that do not fall, those that pass number at
-- most the burst, and `limit` more for every second since the start.
allow_all_bound :
    (start : ℕ) (ts : List ℕ) (rl : RateLimiter)
    → Ascending start ts
    → (allow_all ts rl).0 * token ≤ rl.burst * token + (last_time start ts - start) * rl.limit
allow_all_bound start ts rl h = omega (arith, allow_all-refill start ts rl h, refill-le start rl)
