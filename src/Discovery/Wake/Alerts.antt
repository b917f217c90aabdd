-- ===== src/Discovery/Wake/Alerts.antt =====
-- What the browses of wake.go tell the logger, and how long they wait.
use maps_main.Shared.{
  ℕ, zero, suc, ◌<◌, inl, inr, Bool-cases, ltb, ◌*◌, ◌^◌, ◌≡◌, refl, min, Bool, List, [], ◌∷◌, leb,
  ◌==◌, arith, if◌then◌else◌,
}
use maps_main.Discovery.Wake.{
  browse_restart_max, min_healthy_run, failures_before_warning, Notice, failing, recovered,
  note_run, next_delay, record_failure, record_success, Run, browse_turn, browse_all,
}

abbrev is_healthy : Run → Bool
is_healthy r = leb min_healthy_run r.ran

-- How many runs, of any service, have failed at once since the last healthy one.
abbrev streak : List Run → ℕ
streak [] = 0
streak (r ∷ rs) = let before = streak rs in if is_healthy r then 0 else suc before

-- The same for the runs of one service.
abbrev streak_of : ℕ → List Run → ℕ
streak_of svc [] = 0
streak_of svc (r ∷ rs) =
    let before = streak_of svc rs in
    if svc == r.service then if is_healthy r then 0 else suc before else before

-- One warning at the third failure of an outage, one recovery at the healthy run that ends it.
abbrev alerts : List Run → List Notice
alerts [] = []
alerts (r ∷ rs) =
    let earlier = alerts rs in
    if is_healthy r
    then if leb failures_before_warning (streak rs) then recovered ∷ earlier else earlier
    else if suc (streak rs) == failures_before_warning
    then failing ∷ earlier
    else earlier

abbrev IsTold : List Run → Type 0
IsTold rs =
    ((browse_all rs).health.failures ≡ streak rs)
    × ((browse_all rs).health.warned ≡ leb failures_before_warning (streak rs))
    × ((browse_all rs).notices ≡ alerts rs)

browse_all-IsTold : (rs : List Run) → IsTold rs
unfolding browse_turn note_run record_failure record_success
browse_all-IsTold [] = (refl, refl, refl)
browse_all-IsTold (r ∷ rs) = let before = browse_all-IsTold rs in ground (arith, before)

-- However the runs of all services interleave, the logger is told exactly one failure per outage, at
-- the third run in a row that ended at once, and exactly one recovery, at the healthy run that ends
-- such an outage.
pub browse_all-alerts : (rs : List Run) → (browse_all rs).notices ≡ alerts rs
browse_all-alerts rs = (browse_all-IsTold rs).2

two_pow_pos : (k : ℕ) → 0 < 2 ^ k
two_pow_pos zero = omega arith
two_pow_pos (suc k) = omega (arith, two_pow_pos k)

two_pow_suc : (k : ℕ) → 2 ^ suc k ≡ 2 * 2 ^ k
two_pow_suc k = omega arith

doubled :
    (d p : ℕ)
    → 0 < p
    → d ≡ min browse_restart_max (2 * p)
    → (if ltb browse_restart_max (d * 2) then browse_restart_max else d * 2)
      ≡ min browse_restart_max (2 * (2 * p))
doubled d p pos h = ground (arith, pos, h)

next_delay_lem :
    (ran d k : ℕ)
    → d ≡ min browse_restart_max (2 * 2 ^ k)
    → next_delay ran d
      ≡ min browse_restart_max (2 * 2 ^ (if leb min_healthy_run ran then 0 else suc k))
unfolding next_delay
next_delay_lem ran d k h = elim (Bool-cases (leb min_healthy_run ran)) [
  | inl healthy ↦ rw healthy refl
  | inr failed ↦ rw (failed, two_pow_suc k) (doubled d (2 ^ k) (two_pow_pos k) h)
]

-- After k runs of a service in a row that ended at once, its loop waits 2 * 2 ^ k seconds, capped at
-- 60, whatever the loops of the other services do; a healthy run brings the wait back to 2 seconds.
browse_all-delay :
    (svc : ℕ) (rs : List Run)
    → (browse_all rs).delay svc ≡ min browse_restart_max (2 * 2 ^ streak_of svc rs)
unfolding browse_turn
browse_all-delay svc [] = refl
browse_all-delay svc (r ∷ rs) =
    let before = browse_all-delay svc rs in
    let next = next_delay_lem r.ran ((browse_all rs).delay svc) (streak_of svc rs) before in
    elim (Bool-cases (svc == r.service)) [ inl own ↦ rw own next | inr other ↦ rw other before ]
