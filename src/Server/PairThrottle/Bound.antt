-- ===== src/Server/PairThrottle/Bound.antt =====
-- The brute-force bound that the throttle of pair_throttle.go is there for.
use maps_main.Shared.{
  ℕ, suc, ◌+◌, ◌-◌, ◌*◌, ◌≤◌, ◌≡◌, String, Bool, true, false, some, List, ◌&&◌, ◌↔◌, [], ◌∷◌, arith,
  if◌then◌else◌, str_eq, str_eq_iff, Bool-cases, inl, inr,
}
use maps_main.Server.PairThrottle.{token, full, PairBucket, Buckets, refilled, allow, refund}

-- What an address could spend at a time, if it were pruned or not.
abbrev pub budget : String → ℕ → Buckets → ℕ
budget ip now t = refilled now (t ip)

-- What one attempt spends.
abbrev pub spent : Bool → ℕ
spent true = token
spent false = 0

pub budget-le : (ip : String) (now : ℕ) (t : Buckets) → budget ip now t ≤ full
budget-le ip now t = ground arith

pub budget-later :
    (ip : String) (now later : ℕ) (t : Buckets)
    → now ≤ later
    → budget ip later t ≤ budget ip now t + (later - now)
budget-later ip now later t h = ground arith

-- An attempt from the address itself takes exactly what it is granted out of its budget.
budget-allow :
    (ip : String) (now : ℕ) (t : Buckets)
    → budget ip now (allow ip now t).1 + spent (allow ip now t).0 ≡ budget ip now t
unfolding allow
budget-allow ip now t = ground (arith, str_eq_iff ip ip)

pub budget-allow_same :
    (ip jp : String) (now : ℕ) (t : Buckets)
    → str_eq jp ip ≡ true
    → budget ip now (allow jp now t).1 + spent (allow jp now t).0 ≡ budget ip now t
budget-allow_same ip jp now t h =
    let e : jp ≡ ip = (str_eq_iff jp ip).0 h in rw e (budget-allow ip now t)

-- An attempt from another address leaves the budget as it was.
pub budget-allow_other :
    (ip jp : String) (now : ℕ) (t : Buckets)
    → str_eq jp ip ≡ false
    → budget ip now (allow jp now t).1 ≡ budget ip now t
unfolding allow
budget-allow_other ip jp now t h = ground arith

-- Attempts as (time, address), in the order of their arrival.
abbrev pub Ascending : ℕ → List (ℕ × String) → Type 0
Ascending now [] = Unit {0}
Ascending now ((at, ip) ∷ rest) = (now ≤ at) × Ascending at rest

abbrev pub last_time : ℕ → List (ℕ × String) → ℕ
last_time now [] = now
last_time now ((at, ip) ∷ rest) = last_time at rest

-- How many of the attempts of one address are granted.
pub granted : String → List (ℕ × String) → Buckets → ℕ
granted ip [] t = 0
granted ip ((at, jp) ∷ rest) t =
    let n = granted ip rest (allow jp at t).1 in
    if str_eq jp ip && (allow jp at t).0 then suc n else n

last_time-le :
    (now : ℕ) (tries : List (ℕ × String)) → Ascending now tries → now ≤ last_time now tries
last_time-le now [] h = omega arith
last_time-le now ((at, ip) ∷ rest) h = omega (arith, last_time-le at rest h.1)

granted-budget :
    (ip : String) (now : ℕ) (tries : List (ℕ × String)) (t : Buckets)
    → Ascending now tries
    → granted ip tries t * token ≤ budget ip now t + (last_time now tries - now)
unfolding granted
granted-budget ip now [] t h = omega arith
granted-budget ip now ((at, jp) ∷ rest) t h =
    let bound = granted-budget ip at rest (allow jp at t).1 h.1 in
    let end = last_time-le at rest h.1 in
    let refill = budget-later ip now at t h.0 in
    elim (Bool-cases (str_eq jp ip)) [
      | inr other ↦
          rw other (omega (arith, bound, end, refill, h.0, budget-allow_other ip jp at t other))
      | inl same ↦ elim (Bool-cases (allow jp at t).0) [
        | inl go ↦
            rw (same, go)
              (omega (arith, bound, end, refill, h.0, rw go at (budget-allow_same ip jp at t same)))
        | inr stop ↦
            rw (same, stop)
              (omega
                (arith, bound, end, refill, h.0, rw stop at (budget-allow_same ip jp at t same)))
      ]
    ]

-- However many attempts one address makes, and whatever others do meanwhile, those granted without a
-- refund number at most five and one more for every ten seconds.
granted_bound :
    (ip : String) (start : ℕ) (tries : List (ℕ × String)) (t : Buckets)
    → Ascending start tries
    → granted ip tries t * token ≤ 5 * token + (last_time start tries - start)
granted_bound ip start tries t h =
    omega (arith, granted-budget ip start tries t h, budget-le ip start t)

-- An attempt is granted exactly if the address has a whole token to spend.
allow_iff :
    (ip : String) (now : ℕ) (t : Buckets) → ((allow ip now t).0 ≡ true) ↔ (token ≤ budget ip now t)
unfolding allow
allow_iff ip now t = ground arith

-- Ten seconds after its last attempt an address is granted another, whatever it did before.
allow_after_wait :
    (ip : String) (now : ℕ) (t : Buckets) (b : PairBucket)
    → t ip ≡ some b
    → b.last_seen + token ≤ now
    → (allow ip now t).0 ≡ true
unfolding allow
allow_after_wait ip now t b e h = ground arith

-- A granted attempt that is refunded costs the address nothing, and refunds touch no other address.
pub refund-allow :
    (ip jp : String) (now : ℕ) (t : Buckets)
    → (allow ip now t).0 ≡ true
    → budget jp now (refund ip (allow ip now t).1) ≡ budget jp now t
unfolding allow refund
refund-allow ip jp now t h = ground (arith, str_eq_iff ip jp, str_eq_iff ip ip)
