-- ===== src/Engine/Drift.antt =====
-- engine/internal/engine/engine.go: the anti-drift shield (`ReportRealLocation`) and the keep-alive
-- that sends the held position again (`Relance`, `reinjectAnchor`).
pub mod Shield
pub mod Anchor
use maps_main.Shared.{
  ℕ, suc, ◌+◌, ◌-◌, String, Bool, true, false, not, ◌&&◌, Option, none, some, ltb, leb,
  if◌then◌else◌, pure, ◌>>=◌, ◌>>◌,
}
use maps_main.Domain.{LatLon, Favorite, running, Status}
use maps_main.Engine.Model.{
  Env, Engine, State, Em, get, put, modify_st, emit_status, log_event, outside,
}
use maps_main.Engine.Location.{
  distance, stamp, record_injected, driver_set_location, inject_location, user_set_location,
}

-- driftConfirmFailures, and driftReinjectionCooldown in milliseconds.
abbrev drift_confirm_failures : ℕ
drift_confirm_failures = 2

abbrev pub drift_cooldown : ℕ
drift_cooldown = 15000

abbrev or_else : {A : Type 0} → Option A → Option A → Option A
or_else none b = b
or_else (some a) b = some a

module _ (env : Env) where
  open env use {Real, World, less, decimal, plus, minus, times, now_ms, random}

  abbrev pub place : Favorite Real → LatLon Real
  place f = record { lat = f.lat; lon = f.lon }

  -- The spoofed position that a report is held against.
  abbrev pub drift_target : Status Real → Option (Favorite Real)
  drift_target st = or_else st.last_injected_location st.last_verified_location

  unfoldable finish_reinjection : Option String → Em env (Unit {0})
  finish_reinjection (some e) = log_event env "error" "anti-drift" "location" "reinject"
  finish_reinjection none = do e ← get env; put env (record e { drift_failures = 0 })

  unfoldable pub force_reinjection : Favorite Real → Em env (Unit {0})
  unfolding finish_reinjection
  force_reinjection t = do
    at ← outside env now_ms
    e ← get env
    put env (record e { last_reinjection = at })
    emit_status env
    log_event env "warn" "anti-drift" "location" "reinject"
    failure ← user_set_location env (place t) t.name
    finish_reinjection failure

  unfoldable pub drifted : Favorite Real → Em env (Unit {0})
  drifted t = do
    e ← get env
    put env (record e { drift_failures = e.drift_failures + 1 })
    later ← outside env now_ms
    if leb drift_confirm_failures (e.drift_failures + 1)
          && ltb drift_cooldown (later - e.last_reinjection)
        then force_reinjection t
        else emit_status env

  unfoldable pub verified : Favorite Real → ℕ → Em env (Unit {0})
  verified t now = do
    e ← get env
    put env (record e { drift_failures = 0 })
    modify_st env
        (λ st. record st { last_verified_location = some (stamp env (place t) t.name now) })
    emit_status env

  unfoldable pub report_against : Favorite Real → LatLon Real → Em env (Unit {0})
  report_against t p = do
    now ← outside env now_ms
    modify_st env (λ st. record st {
      last_real_location =
          some (record {
            lat = p.lat;
            lon = p.lon;
            drift = distance env p (place t);
            timestamp = now;
          });
    })
    if less (decimal 100 0) (distance env p (place t)) then drifted t else verified t now

  abbrev pub report_target : Option (Favorite Real) → LatLon Real → Em env (Unit {0})
  report_target none p = pure tt
  report_target (some t) p = report_against t p

  -- `ReportRealLocation`
  unfoldable pub report_real_location : LatLon Real → Em env (Unit {0})
  report_real_location p = do e ← get env; report_target (drift_target e.st) p

  unfoldable finish_anchor : Favorite Real → Option String → Em env (Option String)
  finish_anchor anchor (some e) = do
    log_event env "error" "engine" "location" "relance"
    pure (some e)
  finish_anchor anchor none = do
    now ← outside env now_ms
    modify_st env (record_injected env (record anchor { timestamp = now }))
    emit_status env
    log_event env "info" "engine" "location" "relance"
    pure none

  -- `reinjectAnchor`
  unfoldable pub reinject_anchor : Favorite Real → LatLon Real → Em env (Option String)
  unfolding finish_anchor
  reinject_anchor anchor p = do failure ← driver_set_location env p; finish_anchor anchor failure

  -- An offset of a coordinate by (r - 0.5) * relanceJitterDeg.
  abbrev jittered : Real → Real → Real
  jittered x r = plus x (times (minus r (decimal 5 1)) (decimal 2 6))

  unfoldable pub relance_from : Bool → Favorite Real → Em env (Option String)
  relance_from false loc = user_set_location env (place loc) loc.name
  relance_from true loc = do
    r1 ← outside env random
    r2 ← outside env random
    reinject_anchor loc (record { lat = jittered loc.lat r1; lon = jittered loc.lon r2 })

  abbrev relance_held : Bool → Option (Favorite Real) → Em env (Option String)
  relance_held jitter none = pure none
  relance_held jitter (some loc) = relance_from jitter loc

  -- `Relance`
  unfoldable pub relance : Em env (Option String)
  unfolding relance_from
  relance = do e ← get env; relance_held e.st.jitter_enabled e.st.last_injected_location
